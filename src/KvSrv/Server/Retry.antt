-- ===== src/KvSrv/Server/Retry.antt =====
-- kvsrv/server.go: a request that the clerk sends again.
use Prim.Native.String.{String}
use mit.Prelude.{ℕ, ◌≡◌, ◌≢◌, some, List, [], ◌∷◌, arith, ==_iff, nat_key}
use mit.KvSrv.Server.{
  PutAppendArgs, KvServer, repeated, put, append, Request, gets, puts, appends, handle, serve,
}

abbrev pub client : Request → ℕ
client (gets args) = args.client_id
client (puts args) = args.client_id
client (appends args) = args.client_id

-- None of the requests is this client's.
abbrev pub Others : ℕ → List Request → Type 0
Others c [] = Unit
Others c (r ∷ rs) = (client r ≢ c) × Others c rs

-- The server remembers the response to the client's request.
abbrev pub Remembers : PutAppendArgs → String → KvServer → Type 0
Remembers args response kv =
    repeated (kv.last_request args.client_id) args.request_id ≡ some response

handle-Remembers :
    (args : PutAppendArgs) (response : String) (r : Request) (kv : KvServer)
    → client r ≢ args.client_id
    → Remembers args response kv
    → Remembers args response (handle r kv).0
unfolding handle
handle-Remembers args response (gets a) kv ne h = h
handle-Remembers args response (puts a) kv ne h = ground arith
handle-Remembers args response (appends a) kv ne h = ground arith

pub serve-Remembers :
    (args : PutAppendArgs) (response : String) (rs : List Request) (kv : KvServer)
    → Others args.client_id rs
    → Remembers args response kv
    → Remembers args response (serve rs kv)
unfolding serve
serve-Remembers args response [] kv o h = h
serve-Remembers args response (r ∷ rs) kv o h =
    serve-Remembers args response rs (handle r kv).0 o.1 (handle-Remembers args response r kv o.0 h)

pub append-Remembers :
    (args : PutAppendArgs) (kv : KvServer) → Remembers args (append args kv).1 (append args kv).0
unfolding append
append-Remembers args kv = ground (arith, ==_iff args.client_id args.client_id)

pub put-Remembers :
    (args : PutAppendArgs) (kv : KvServer) → Remembers args (put args kv).1 (put args kv).0
unfolding put
put-Remembers args kv = ground (arith, ==_iff args.client_id args.client_id)

pub repeat_append :
    (args : PutAppendArgs) (response : String) (kv : KvServer)
    → Remembers args response kv
    → append args kv ≡ (kv, response)
unfolding append
repeat_append args response kv h = ground arith

pub repeat_put :
    (args : PutAppendArgs) (response : String) (kv : KvServer)
    → Remembers args response kv
    → put args kv ≡ (kv, response)
unfolding put
repeat_put args response kv h = ground arith

-- An `Append` that is sent again, after any requests of other clients, gets the response of the first
-- time and changes nothing.
pub append_retried :
    (args : PutAppendArgs) (rs : List Request) (kv : KvServer)
    → Others args.client_id rs
    → let kv' = serve rs (append args kv).0 in append args kv' ≡ (kv', (append args kv).1)
append_retried args rs kv o =
    repeat_append args _ _ (serve-Remembers args _ rs _ o (append-Remembers args kv))

-- A `Put` that is sent again, after any requests of other clients, gets the response of the first time
-- and changes nothing.
pub put_retried :
    (args : PutAppendArgs) (rs : List Request) (kv : KvServer)
    → Others args.client_id rs
    → let kv' = serve rs (put args kv).0 in put args kv' ≡ (kv', (put args kv).1)
put_retried args rs kv o =
    repeat_put args _ _ (serve-Remembers args _ rs _ o (put-Remembers args kv))
