-- ===== src/KvRaft/Server/Replicas.antt =====
-- kvraft/server.go: two replicas that apply the same new commands.
use mit.Prelude.{
  false, true, ℕ, ◌<◌, ◌≤◌, ◌≡◌, sym, ap, ◌∙◌, List, [], ◌∷◌, arith, empty_map, none, some,
}
use mit.Raft.Types.{ApplyMsg}
use mit.Raft.Commit.{apply_msg}
use mit.KvRaft.Types.{Op, KvServer}
use mit.KvRaft.Server.{stale, apply_op, notify, apply_command, applier_step, applier}

-- The servers have the same store and the same duplicate tables.
pub record SameMachine (a b : KvServer) : Type 0 where
  pub store : a.kv_store ≡ b.kv_store
  pub last_applied : a.last_applied ≡ b.last_applied
  pub last_result : a.last_result ≡ b.last_result

abbrev pub command : ℕ → Op → ApplyMsg Op
command index op = apply_msg (record { term = 0; command = some op }) index

-- The messages of two servers that both get the same commands, in the same order, each at an index that
-- is new to the server, and in the term of the server. The second one also gets messages with an index
-- that it has passed, and requests that are not newer than the last one of their client.
pub data SameCommands
    : KvServer → KvServer → List (ℕ × ApplyMsg Op) → List (ℕ × ApplyMsg Op) → Type 0 where
  over : {a b : KvServer} → SameCommands a b [] []
  both :
      {a b : KvServer} {ms ms' : List (ℕ × ApplyMsg Op)} (t t' i i' : ℕ) (op : Op)
      → a.last_applied_index < i
      → b.last_applied_index < i'
      → SameCommands (applier_step t (command i op) a) (applier_step t' (command i' op) b) ms ms'
      → SameCommands a b ((t, command i op) ∷ ms) ((t', command i' op) ∷ ms')
  passed :
      {a b : KvServer} {ms ms' : List (ℕ × ApplyMsg Op)} (t i : ℕ) (op : Op)
      → i ≤ b.last_applied_index
      → SameCommands a (applier_step t (command i op) b) ms ms'
      → SameCommands a b ms ((t, command i op) ∷ ms')
  repeated :
      {a b : KvServer} {ms ms' : List (ℕ × ApplyMsg Op)} (t i last : ℕ) (op : Op)
      → b.last_applied op.client_id ≡ some last
      → op.seq_num ≤ last
      → SameCommands a (applier_step t (command i op) b) ms ms'
      → SameCommands a b ms ((t, command i op) ∷ ms')

-- The server without all else.
abbrev machine : KvServer → KvServer
machine kv = record kv {
  me = 0;
  dead = false;
  maxraftstate = none;
  notify_chans = empty_map;
  channels = [];
  last_applied_index = 0;
}

machine-new :
    (t i : ℕ) (op : Op) (kv : KvServer)
    → kv.last_applied_index < i
    → machine (applier_step t (command i op) kv) ≡ machine (apply_op 0 op (machine kv)).0
unfolding applier_step apply_command apply_op notify
machine-new t i op kv new = ground arith

machine-passed :
    (t i : ℕ) (op : Op) (kv : KvServer)
    → i ≤ kv.last_applied_index
    → machine (applier_step t (command i op) kv) ≡ machine kv
unfolding applier_step apply_command
machine-passed t i op kv le = ground arith

machine-stale :
    (t i : ℕ) (op : Op) (kv : KvServer)
    → stale (kv.last_applied op.client_id) op.seq_num ≡ true
    → machine (applier_step t (command i op) kv) ≡ machine kv
unfolding applier_step apply_command apply_op notify
machine-stale t i op kv old = ground arith

machine-same : (a b : KvServer) → SameMachine a b → machine a ≡ machine b
machine-same a b same = λ i. record {
  me = 0;
  dead = false;
  maxraftstate = none;
  kv_store = same.store i;
  last_applied = same.last_applied i;
  last_result = same.last_result i;
  notify_chans = empty_map;
  channels = [];
  last_applied_index = 0;
}

same-machine : (a b : KvServer) → machine a ≡ machine b → SameMachine a b
same-machine a b h = record {
  store = ap (λ m. m.kv_store) h;
  last_applied = ap (λ m. m.last_applied) h;
  last_result = ap (λ m. m.last_result) h;
}

applier-machine :
    (a b : KvServer) {ms ms' : List (ℕ × ApplyMsg Op)}
    → SameCommands a b ms ms'
    → machine a ≡ machine b
    → machine (applier ms a) ≡ machine (applier ms' b)
unfolding applier
applier-machine a b over h = h
applier-machine a b (both t t' i i' op new new' r) h = applier-machine _ _ r (
    machine-new t i op a new
    ∙ ap (λ m. machine (apply_op 0 op m).0) h
    ∙ sym (machine-new t' i' op b new'))
applier-machine a b (passed t i op le r) h =
    applier-machine a _ r (h ∙ sym (machine-passed t i op b le))
applier-machine a b (repeated t i last op e le r) h =
    applier-machine a _ r (h ∙ sym (machine-stale t i op b (ground (arith, e, le))))

-- Replicas with the same store and the same duplicate tables have them after the same commands,
-- whatever terms they are in and whatever handlers wait in each, also if one of them gets messages
-- again, or requests that their client has sent again.
pub replicas_agree :
    (a b : KvServer) {ms ms' : List (ℕ × ApplyMsg Op)}
    → SameMachine a b
    → SameCommands a b ms ms'
    → SameMachine (applier ms a) (applier ms' b)
replicas_agree a b same cs = same-machine _ _ (applier-machine a b cs (machine-same a b same))
