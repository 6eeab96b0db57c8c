-- ===== src/KvRaft/Types.antt =====
-- kvraft/common.go and the types of kvraft/server.go. The strings `OK`, `Get` and their like are
-- constructors; `other` is any other operation.
use Prim.Native.String.{String}
use mit.Prelude.{ℕ, Bool, Option, List, Map}

pub data Err : Type 0 where
  ok err_no_key err_wrong_leader err_timeout err_unknown_op : Err

pub data OpType : Type 0 where
  get put append : OpType
  other : String → OpType

pub record PutAppendArgs : Type 0 where
  pub key : String
  pub value : String
  pub op : OpType
  pub client_id : ℕ
  pub seq_num : ℕ

pub record GetArgs : Type 0 where
  pub key : String
  pub client_id : ℕ
  pub seq_num : ℕ

pub record GetReply : Type 0 where
  pub err : Err
  pub value : String

pub record Op : Type 0 where
  pub op_type : OpType
  pub key : String
  pub value : String
  pub client_id : ℕ
  pub seq_num : ℕ

pub record NotifyCh : Type 0 where
  pub term : ℕ
  pub value : String
  pub err : Err

-- The Raft peer of a server is kept beside it. A negative `maxraftstate` is `none`.
-- `channels` is the heap of notification channels, each with room for one result; `notify_chans`
-- maps a log index to a position of that heap. Handlers hold such positions too.
pub record KvServer : Type 0 where
  pub me : ℕ
  pub dead : Bool
  pub maxraftstate : Option ℕ
  pub kv_store : Map String String
  pub last_applied : Map ℕ ℕ
  pub last_result : Map ℕ String
  pub notify_chans : Map ℕ ℕ
  pub channels : List (Option NotifyCh)
  pub last_applied_index : ℕ
