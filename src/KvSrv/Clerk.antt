-- ===== src/KvSrv/Clerk.antt =====
-- kvsrv/client.go: the clerk. The outcomes of the calls of one operation are a list, `none` where
-- `Call` returns false.
pub mod Once
use Prim.Native.String.{String}
use mit.Prelude.{ℕ, ◌+◌, Option, none, some, List, [], ◌∷◌}
use mit.KvSrv.Server.{PutAppendArgs, GetArgs, Request, gets, puts, appends}

pub record Clerk : Type 0 where
  pub client_id : ℕ
  pub request_id : ℕ

abbrev pub make_clerk : ℕ → Clerk
make_clerk id = record { client_id = id; request_id = 0 }

-- The loop: the calls that it makes, and the value if one came back.
pub retry : Request → List (Option String) → Option String × List Request
retry r [] = (none, [])
retry r (none ∷ os) = let (v, calls) = retry r os in (v, r ∷ calls)
retry r (some v ∷ os) = (some v, r ∷ [])

unfoldable pub clerk_get :
    String → Clerk → List (Option String) → Clerk × Option String × List Request
unfolding retry
clerk_get key ck os =
    let ck' = record ck { request_id = ck.request_id + 1 } in
    let (v, calls) =
      retry (gets (record { key = key; client_id = ck.client_id; request_id = ck'.request_id }))
        os in
    (ck', v, calls)

-- The `op` of `PutAppend`: "Put" or "Append".
pub data PutOrAppend : Type 0 where
  put append : PutOrAppend

abbrev pub request : PutOrAppend → PutAppendArgs → Request
request put args = puts args
request append args = appends args

unfoldable pub clerk_put_append :
    String
    → String
    → PutOrAppend
    → Clerk
    → List (Option String)
    → Clerk × Option String × List Request
unfolding retry
clerk_put_append key value op ck os =
    let ck' = record ck { request_id = ck.request_id + 1 } in
    let args : PutAppendArgs = record {
      key = key;
      value = value;
      client_id = ck.client_id;
      request_id = ck'.request_id;
    } in
    let (v, calls) = retry (request op args) os in (ck', v, calls)

-- `Put` drops the value.
abbrev pub clerk_put : String → String → Clerk → List (Option String) → Clerk × List Request
clerk_put key value ck os =
    let (ck', v, calls) = clerk_put_append key value put ck os in (ck', calls)

abbrev pub clerk_append :
    String → String → Clerk → List (Option String) → Clerk × Option String × List Request
clerk_append key value ck os = clerk_put_append key value append ck os
