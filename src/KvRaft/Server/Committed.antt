-- ===== src/KvRaft/Server/Committed.antt =====
-- kvraft/server.go on top of raft/raft.go: the store of a server that takes what its Raft peer has
-- committed, against the commands of the log.
use Prim.Native.String.{String}
use mit.Prelude.{ℕ, Option, none, some, List, [], ◌∷◌, Map, map}
use mit.Raft.Types.{Raft, LogEntry, ApplyMsg}
use mit.Raft.Commit.Apply.{messages}
use mit.KvRaft.Types.{Op, KvServer}
use mit.KvRaft.Server.{applier}

-- The commands of entries; the entry of a nil command has none.
abbrev with_command : Option Op → List Op → List Op
with_command none ops = ops
with_command (some op) ops = op ∷ ops

abbrev pub commands : List (LogEntry Op) → List Op
commands [] = []
commands (e ∷ es) = with_command e.command (commands es)

-- The messages as the applier takes them, each in the term of its index.
abbrev pub in_terms : (ℕ → ℕ) → List (ApplyMsg Op) → List (ℕ × ApplyMsg Op)
in_terms terms msgs = map (λ msg. (terms msg.command_index, msg)) msgs

-- the effect on the store of the messages for `es`, from index `i` on
abbrev run : (ℕ → ℕ) → ℕ → List (LogEntry Op) → KvServer → Map String String
run terms i es kv = (applier (in_terms terms (messages i es)) kv).kv_store
