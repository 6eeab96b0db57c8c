-- ===== src/Labrpc/Service.antt =====
-- labrpc.go: servers, services and the dispatch of a request. The methods of a receiver are found by
-- reflection: a method is given by its name and by what it does to the receivers' state `S`, which
-- includes decoding the argument and encoding the reply.
use Prim.Native.String.{String, [] as empty, ◌∷◌ as char_cons}
use mit.Prelude.{
  [] as nil, ℕ, ◌+◌, Bool, true, false, Option, none, some, if◌then◌else◌, Map, empty_map, insert,
  string_key, ◌>>=◌,
}
use mit.Raft.Types.{Bytes}

pub record ReqMsg : Type 0 where
  pub endname : ℕ
  pub svc_meth : String
  pub args : Bytes

pub record ReplyMsg : Type 0 where
  pub ok : Bool
  pub reply : Bytes

abbrev pub failed : ReplyMsg
failed = record { ok = false; reply = nil }

module _ (S : Type 0) where
  abbrev pub Method : Type 0
  Method = S → Bytes → S × Bytes

  pub record Service : Type 0 where
    pub name : String
    pub methods : Map String Method

  pub record Server : Type 0 where
    pub services : Map String Service
    pub count : ℕ

  unfoldable pub make_server : Server
  make_server = record { services = empty_map; count = 0 }

-- The text before and behind the last dot.
unfoldable pub split_last_dot : String → Option (String × String)
split_last_dot empty = none
split_last_dot (char_cons c s) = elim (split_last_dot s) [
  | some (a, b) ↦ some (char_cons c a, b)
  | none ↦ if string_key.same (char_cons c empty) "." then some (empty, s) else none
]

module _ {S : Type 0} where
  unfoldable pub add_service : Service S → Server S → Server S
  add_service svc rs = record rs { services = insert svc.name svc rs.services }

  -- `none` where the program exits: an unknown method.
  unfoldable pub service_dispatch : String → ReqMsg → Service S → S → Option (S × ReplyMsg)
  service_dispatch methname req svc s = do
    method ← svc.methods methname
    let (s', reply) = method s req.args
    some (s', record { ok = true; reply = reply })

  -- `none` where the program exits or panics: no dot, an unknown service or method.
  unfoldable pub server_dispatch : ReqMsg → Server S → S → Option (Server S × S × ReplyMsg)
  unfolding split_last_dot service_dispatch
  server_dispatch req rs s = do
    (service_name, method_name) ← split_last_dot req.svc_meth
    service ← rs.services service_name
    (s', reply) ← service_dispatch method_name req service s
    some (record rs { count = rs.count + 1 }, s', reply)

  unfoldable pub get_count : Server S → ℕ
  get_count rs = rs.count
