-- ===== src/KvSrv/Server.antt =====
-- kvsrv/server.go and the argument types of kvsrv/common.go. A reply has a value only.
pub mod Retry
pub mod Model
use Prim.Native.String.{String, ◌++◌}
use mit.Prelude.{
  ℕ, Bool, true, false, Option, none, some, List, [], ◌∷◌, ◌==◌, if◌then◌else◌, Map, empty_map,
  insert, get_or, string_key, nat_key,
}

pub record PutAppendArgs : Type 0 where
  pub key : String
  pub value : String
  pub client_id : ℕ
  pub request_id : ℕ

pub record GetArgs : Type 0 where
  pub key : String
  pub client_id : ℕ
  pub request_id : ℕ

pub record ClientRequest : Type 0 where
  pub request_id : ℕ
  pub response : String

pub record KvServer : Type 0 where
  pub store : Map String String
  pub last_request : Map ℕ ClientRequest

abbrev pub start_kv_server : KvServer
start_kv_server = record { store = empty_map; last_request = empty_map }

unfoldable pub get : GetArgs → KvServer → KvServer × String
get args kv = (kv, get_or (kv.store args.key) "")

-- `lastReq, exists := kv.lastRequest[client]; exists && lastReq.RequestId == id`: the response
abbrev pub repeated : Option ClientRequest → ℕ → Option String
repeated none id = none
repeated (some last) id = if last.request_id == id then some last.response else none

-- A new request: the store is written and the response is kept.
abbrev pub execute : PutAppendArgs → String → String → KvServer → KvServer × String
execute args value response kv = (
  record {
    store = insert args.key value kv.store;
    last_request =
        insert args.client_id (record { request_id = args.request_id; response = response })
          kv.last_request;
  },
  response,
)

unfoldable pub put : PutAppendArgs → KvServer → KvServer × String
put args kv = elim (repeated (kv.last_request args.client_id) args.request_id) [
  | some response ↦ (kv, response)
  | none ↦ execute args args.value "" kv
]

unfoldable pub append : PutAppendArgs → KvServer → KvServer × String
append args kv = elim (repeated (kv.last_request args.client_id) args.request_id) [
  | some response ↦ (kv, response)
  | none ↦ let old = get_or (kv.store args.key) "" in execute args (old ++ args.value) old kv
]

-- The requests that the server handles one at a time.
pub data Request : Type 0 where
  gets : GetArgs → Request
  puts : PutAppendArgs → Request
  appends : PutAppendArgs → Request

unfoldable pub handle : Request → KvServer → KvServer × String
unfolding get put append
handle (gets args) kv = get args kv
handle (puts args) kv = put args kv
handle (appends args) kv = append args kv

unfoldable pub serve : List Request → KvServer → KvServer
serve [] kv = kv
serve (r ∷ rs) kv = serve rs (handle r kv).0
