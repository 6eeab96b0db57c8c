-- ===== src/KvRaft/Server.antt =====
-- kvraft/server.go: the state machine: `StartKVServer`, `executeOperation`, `applyCommand`, `applier`.
pub mod Sessions
pub mod Replicas
pub mod Model
pub mod Lost
pub mod Committed
use Prim.Native.String.{String, ◌++◌}
use mit.Prelude.{
  ℕ, zero, suc, ◌+◌, ◌≡◌, Bool, true, false, Option, none, some, List, [], ◌∷◌, leb, if◌then◌else◌,
  length, get_elem?, set, Map, empty_map, insert, delete, get_or, string_key, nat_key,
}
use mit.Raft.Types.{ApplyMsg, Persister, Raft, Tick}
use mit.Raft.Persist.{Codec}
use mit.Raft.Roles.{make, kill}
use mit.KvRaft.Types.{
  Err, ok, err_no_key, err_unknown_op, OpType, get, put, append, other, Op, NotifyCh, KvServer,
}

abbrev pub new_server : ℕ → Option ℕ → KvServer
new_server me maxraftstate = record {
  me = me;
  dead = false;
  maxraftstate = maxraftstate;
  kv_store = empty_map;
  last_applied = empty_map;
  last_result = empty_map;
  notify_chans = empty_map;
  channels = [];
  last_applied_index = 0;
}

-- The server and its Raft peer, for `servers` end points.
abbrev pub start_kv_server : Codec Op → ℕ → ℕ → Persister → Option ℕ → Tick → KvServer × Raft Op
start_kv_server codec servers me persister maxraftstate tick =
    (new_server me maxraftstate, make codec servers me persister tick)

abbrev pub kill_server : KvServer × Raft Op → KvServer × Raft Op
kill_server (kv, rf) = (record kv { dead = true }, kill rf)

abbrev pub server_killed : KvServer → Bool
server_killed kv = kv.dead

-- `lastSeq, exists := kv.lastApplied[client]; exists && lastSeq >= seq`
abbrev pub stale : Option ℕ → ℕ → Bool
stale none seq = false
stale (some last) seq = leb seq last

found_or_no_key : Option String → Err × String
found_or_no_key none = (err_no_key, "")
found_or_no_key (some v) = (ok, v)

run_op : OpType → Op → Map String String → Map String String × Err × String
unfolding found_or_no_key
run_op get op m = let (err, value) = found_or_no_key (m op.key) in (m, err, value)
run_op put op m = (insert op.key op.value m, ok, "")
run_op append op m = (insert op.key (get_or (m op.key) "" ++ op.value) m, ok, "")
run_op (other _) op m = (m, err_unknown_op, "")

-- The new store, the error and the value.
unfoldable pub execute_operation : Op → Map String String → Map String String × Err × String
unfolding run_op
execute_operation op m = run_op op.op_type op m

is_get : OpType → Bool
is_get get = true
is_get _ = false

-- The state machine part of `applyCommand`: the duplicate check, the execution and the record of
-- the client's last request. `term` is the term of `rf.GetState()`.
unfoldable pub apply_op : ℕ → Op → KvServer → KvServer × NotifyCh
unfolding is_get
apply_op term op kv =
    if stale (kv.last_applied op.client_id) op.seq_num
    then (
      kv,
      record {
        term = term;
        value = if is_get op.op_type then get_or (kv.last_result op.client_id) "" else "";
        err = ok;
      },
    )
    else (let (store, err, value) = execute_operation op kv.kv_store in
        (
          record kv {
            kv_store = store;
            last_applied = insert op.client_id op.seq_num kv.last_applied;
            last_result =
                if is_get op.op_type
                then insert op.client_id value kv.last_result
                else kv.last_result;
          },
          record { term = term; value = value; err = err },
        ))

-- A send on a channel with room for one: dropped if it is full.
abbrev pub offer : List (Option NotifyCh) → ℕ → NotifyCh → List (Option NotifyCh)
offer [] i r = []
offer (none ∷ cs) zero r = some r ∷ cs
offer (some q ∷ cs) zero r = some q ∷ cs
offer (c ∷ cs) (suc i) r = c ∷ offer cs i r

-- The waiting handler of this index, if there is one, gets the result.
unfoldable pub notify : ℕ → NotifyCh → KvServer → KvServer
notify index result kv = elim (kv.notify_chans index) [
  | none ↦ kv
  | some chan ↦ record kv { channels = offer kv.channels chan result }
]

-- A command that is no `Op` (`none`) only moves the index.
apply_new : ℕ → ℕ → Option Op → KvServer → KvServer
apply_new term index none kv = kv
apply_new term index (some op) kv =
    let (kv', result) = apply_op term op kv in notify index result kv'

unfoldable pub apply_command : ℕ → ApplyMsg Op → KvServer → KvServer
unfolding apply_new
apply_command term msg kv =
    if leb msg.command_index kv.last_applied_index
    then kv
    else apply_new term msg.command_index msg.command
        (record kv { last_applied_index = msg.command_index })

-- `applySnapshot` is not written yet in the source: it changes nothing.
unfoldable pub apply_snapshot : ApplyMsg Op → KvServer → KvServer
apply_snapshot msg kv = kv

-- One round of `applier`.
unfoldable pub applier_step : ℕ → ApplyMsg Op → KvServer → KvServer
applier_step term msg kv =
    if msg.command_valid
    then apply_command term msg kv
    else if msg.snapshot_valid
    then apply_snapshot msg kv
    else kv

-- The loop of `applier` over the messages that it takes from the channel until `kv.killed()` ends it,
-- each with the term that `GetState` returns at that time.
unfoldable pub applier : List (ℕ × ApplyMsg Op) → KvServer → KvServer
applier [] kv = kv
applier ((term, msg) ∷ msgs) kv = applier msgs (applier_step term msg kv)
