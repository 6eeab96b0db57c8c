-- ===== src/KvRaft/Clerk.antt =====
-- kvraft/client.go: the clerk. What the network and the servers answer to the calls of one operation
-- is a list, `none` where `Call` returns false.
pub mod Rounds
use Prim.Native.String.{String}
use mit.Prelude.{ℕ, zero, suc, ◌+◌, ◌%◌, Option, none, some, List, [], ◌∷◌}
use mit.KvRaft.Types.{Err, ok, err_no_key, OpType, put, append, GetArgs, PutAppendArgs, GetReply}

-- `servers` is the number of end points.
pub record Clerk : Type 0 where
  pub servers : ℕ
  pub client_id : ℕ
  pub seq_num : ℕ
  pub last_leader : ℕ

-- `id` is the result of `nrand()`.
abbrev pub make_clerk : ℕ → ℕ → Clerk
make_clerk servers id = record { servers = servers; client_id = id; seq_num = 0; last_leader = 0 }

-- One call: the server that it goes to.
pub record Call (Args : Type 0) : Type 0 where
  pub server : ℕ
  pub args : Args

-- What a loop leaves: the clerk and the value, if one of the calls was answered for good; and the
-- calls that were made.
pub record Outcome (Args : Type 0) : Type 0 where
  pub returned : Option (Clerk × String)
  pub calls : List (Call Args)

abbrev prepend : {Args : Type 0} → Call Args → Outcome Args → Outcome Args
prepend c o = record { returned = o.returned; calls = c ∷ o.calls }

-- The `switch` of `Get`: the value with which it returns.
abbrev pub get_value : GetReply → Option String
get_value r = get_case r.err r.value
  where
    get_case : Err → String → Option String
    get_case ok v = some v
    get_case err_no_key v = some ""
    get_case _ v = none

-- The `switch` of `PutAppend`.
abbrev pub put_value : Err → Option String
put_value ok = some ""
put_value _ = none

-- The loop, for either operation: `done` is its `switch`, and a call that returned false is `none`.
pub retry :
    {Args Reply : Type 0}
    → (Reply → Option String)
    → Args
    → Clerk
    → ℕ
    → List (Option Reply)
    → Outcome Args
retry done args ck server [] = record { returned = none; calls = [] }
retry done args ck server (none ∷ rs) =
    prepend (record { server = server; args = args })
      (retry done args ck ((server + 1) % ck.servers) rs)
retry done args ck server (some reply ∷ rs) = elim (done reply) [
  | some v ↦ record {
    returned = some (record ck { last_leader = server }, v);
    calls = record { server = server; args = args } ∷ [];
  }
  | none ↦
      prepend (record { server = server; args = args })
        (retry done args ck ((server + 1) % ck.servers) rs)
]

-- The sequence number goes up, and every call of the loop carries the new one.
unfoldable pub clerk_get : String → Clerk → List (Option GetReply) → Outcome GetArgs
unfolding retry
clerk_get key ck replies =
    let seq = ck.seq_num + 1 in
    retry get_value (record { key = key; client_id = ck.client_id; seq_num = seq })
      (record ck { seq_num = seq }) ck.last_leader replies

unfoldable pub clerk_put_append :
    String → String → OpType → Clerk → List (Option Err) → Outcome PutAppendArgs
unfolding retry
clerk_put_append key value op ck replies =
    let seq = ck.seq_num + 1 in
    retry put_value
      (record { key = key; value = value; op = op; client_id = ck.client_id; seq_num = seq })
      (record ck { seq_num = seq }) ck.last_leader replies

abbrev pub clerk_put : String → String → Clerk → List (Option Err) → Outcome PutAppendArgs
clerk_put key value ck replies = clerk_put_append key value put ck replies

abbrev pub clerk_append : String → String → Clerk → List (Option Err) → Outcome PutAppendArgs
clerk_append key value ck replies = clerk_put_append key value append ck replies
