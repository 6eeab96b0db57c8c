-- ===== src/KvSrv/Clerk/Once.antt =====
-- kvsrv/client.go and kvsrv/server.go together: an operation that the clerk sends until it is answered.
use Prim.Native.String.{String}
use mathlib.Core.List.{append_assoc}
use mit.Prelude.{
  ℕ, zero, suc, ◌+◌, ◌≡◌, refl, sym, ap, ◌∙◌, Bool, true, false, Option, none, some, List, [], ◌∷◌,
  ◌++◌, replicate, Bool-cases, inl, inr,
}
use mit.KvSrv.Server.{PutAppendArgs, KvServer, Request, handle, serve}
use mit.KvSrv.Server.Retry.{
  Others, Remembers, serve-Remembers, put-Remembers, append-Remembers, repeat_put, repeat_append,
}
use mit.KvSrv.Clerk.{
  Clerk, PutOrAppend, put as a_put, append as an_append, request, retry, clerk_put_append,
}

-- One call whose answer did not come back: whether the server executed it, and what the server did
-- for others before the next call.
pub record Attempt : Type 0 where
  pub executed : Bool
  pub others : List Request

-- What the server has done when the last of these calls has failed.
unfoldable pub after_attempts : Request → List Attempt → KvServer → KvServer
after_attempts r [] kv = kv
after_attempts r (a ∷ ats) kv = elim a.executed [
  | true ↦ after_attempts r ats (serve a.others (handle r kv).0)
  | false ↦ after_attempts r ats (serve a.others kv)
]

abbrev pub all_others : List Attempt → List Request
all_others [] = []
all_others (a ∷ ats) = a.others ++ all_others ats

-- The others are other clients.
abbrev pub AllOthers : ℕ → List Attempt → Type 0
AllOthers c [] = Unit
AllOthers c (a ∷ ats) = Others c a.others × AllOthers c ats

serve-append : (xs ys : List Request) (kv : KvServer) → serve (xs ++ ys) kv ≡ serve ys (serve xs kv)
unfolding serve
serve-append [] ys kv = refl
serve-append (x ∷ xs) ys kv = serve-append xs ys (handle x kv).0

request-Remembers :
    (op : PutOrAppend) (args : PutAppendArgs) (kv : KvServer)
    → Remembers args (handle (request op args) kv).1 (handle (request op args) kv).0
unfolding handle
request-Remembers a_put args kv = put-Remembers args kv
request-Remembers an_append args kv = append-Remembers args kv

repeat_request :
    (op : PutOrAppend) (args : PutAppendArgs) (response : String) (kv : KvServer)
    → Remembers args response kv
    → handle (request op args) kv ≡ (kv, response)
unfolding handle
repeat_request a_put args response kv h = repeat_put args response kv h
repeat_request an_append args response kv h = repeat_append args response kv h

module _ (op : PutOrAppend) (args : PutAppendArgs) where
  -- once the server remembers the request, further calls of it change nothing
  remembered :
      (response : String) (ats : List Attempt) (kv : KvServer)
      → AllOthers args.client_id ats
      → Remembers args response kv
      → handle (request op args) (after_attempts (request op args) ats kv)
        ≡ (serve (all_others ats) kv, response)
  unfolding after_attempts serve
  remembered response [] kv o h = repeat_request op args response kv h
  remembered response (a ∷ ats) kv o h =
      let rest =
        remembered response ats (serve a.others kv) o.1
          (serve-Remembers args response a.others kv o.0 h)
        ∙ ap (λ s. (s, response)) (sym (serve-append a.others (all_others ats) kv)) in
      elim (Bool-cases a.executed) [
        | inl done ↦ rw (done, repeat_request op args response kv h) rest
        | inr lost ↦ rw lost rest
      ]

  -- A `Put` or `Append` that a clerk calls again and again, with any calls lost before or after the
  -- server executed them and any requests of other clients in between, takes effect exactly once: the
  -- server is as if it had served the request once, at some point among the others' requests, and
  -- the answer is the one of that point.
  pub exactly_once :
      (ats : List Attempt) (kv : KvServer)
      → AllOthers args.client_id ats
      → (before after : List Request) × (before ++ after ≡ all_others ats)
        × (handle (request op args) (after_attempts (request op args) ats kv) ≡ (
          serve (before ++ (request op args ∷ after)) kv,
          (handle (request op args) (serve before kv)).1,
        ))
  unfolding after_attempts serve
  exactly_once [] kv o = ([], [], refl, refl)
  exactly_once (a ∷ ats) kv o = elim (Bool-cases a.executed) [
    | inl done ↦
        let (kv', response) = handle (request op args) kv in
        (
          [],
          a.others ++ all_others ats,
          refl,
          rw done (
              remembered response ats (serve a.others kv') o.1
                (serve-Remembers args _ a.others _ o.0 (request-Remembers op args kv))
              ∙ ap (λ s. (s, response)) (sym (serve-append a.others (all_others ats) kv'))),
        )
    | inr lost ↦
        let (before, after, split, same) = exactly_once ats (serve a.others kv) o.1 in
        (
          a.others ++ before,
          after,
          append_assoc a.others before after ∙ ap (◌++◌ a.others) split,
          rw
              (
                lost,
                append_assoc a.others before (request op args ∷ after),
                serve-append a.others (before ++ (request op args ∷ after)) kv,
                serve-append a.others before kv,
              )
              same,
        )
  ]

retry_calls :
    (r : Request) (k : ℕ) (v : String) (rest : List (Option String))
    → retry r (replicate k none ++ (some v ∷ rest)) ≡ (some v, replicate (suc k) r)
unfolding retry
retry_calls r zero v rest = refl
retry_calls r (suc k) v rest = rw (retry_calls r k v rest)

-- The clerk makes the same call, with a new request number, until the first answer, which it returns.
pub clerk_put_append_calls :
    (key value : String) (op : PutOrAppend) (ck : Clerk) (k : ℕ) (v : String)
    (rest : List (Option String))
    → clerk_put_append key value op ck (replicate k none ++ (some v ∷ rest)) ≡ (
      record ck { request_id = ck.request_id + 1 },
      some v,
      replicate (suc k) (
          request op (record {
            key = key;
            value = value;
            client_id = ck.client_id;
            request_id = ck.request_id + 1;
          })),
    )
unfolding clerk_put_append
clerk_put_append_calls key value op ck k v rest = rw (retry_calls (request op _) k v rest)
