-- ===== src/KvRaft/Server/Lost.antt =====
-- kvraft/server.go on top of raft/raft.go: what becomes of a committed command whose message is
-- overtaken by that of its successor.
use mathlib.Core.List.{◌++◌}
use mit.Prelude.{ℕ, ◌+◌, ◌≤◌, ◌<◌, ◌≡◌, ap, ◌∙◌, none, some, List, [], ◌∷◌, arith, map, get_elem?}
use mit.Raft.Types.{Raft, LogEntry, ApplyMsg}
use mit.Raft.Commit.{apply_msg}
use mit.Raft.Commit.Race.{Appliers, Moves, both_idle, apply_out_of_order}
use mit.KvRaft.Types.{Op, KvServer}
use mit.KvRaft.Server.{apply_op, notify, apply_command, applier_step, applier}

-- The messages as the applier of a server takes them from the channel in one term.
abbrev pub in_term : ℕ → List (ApplyMsg Op) → List (ℕ × ApplyMsg Op)
in_term term msgs = map (λ msg. (term, msg)) msgs

index_after :
    (term i : ℕ) (e : LogEntry Op) (kv : KvServer)
    → kv.last_applied_index < i
    → (applier_step term (apply_msg e i) kv).last_applied_index ≡ i
unfolding applier_step apply_command apply_op notify
index_after term i e kv new = ground arith

dropped :
    (term i : ℕ) (e : LogEntry Op) (kv : KvServer)
    → i ≤ kv.last_applied_index
    → applier_step term (apply_msg e i) kv ≡ kv
unfolding applier_step apply_command
dropped term i e kv old = ground arith

overtaken :
    (term i j : ℕ) (e f : LogEntry Op) (kv : KvServer)
    → i ≤ j
    → kv.last_applied_index < j
    → applier (in_term term (apply_msg f j ∷ apply_msg e i ∷ [])) kv
      ≡ applier (in_term term (apply_msg f j ∷ [])) kv
unfolding applier
overtaken term i j e f kv le new =
    dropped term i e (applier_step term (apply_msg f j) kv)
      (omega (arith, index_after term j f kv new))

-- From every state of Raft with two commands committed, not yet applied, and an empty channel, two
-- goroutines of `applyCommittedEntries` can run so that the server, when it has taken all that they
-- sent, is as if the first of the two commands had never been committed.
pub committed_command_lost :
    (rf : Raft Op) (e f : LogEntry Op)
    → rf.apply_ch ≡ []
    → get_elem? rf.log (rf.last_applied + 1) ≡ some e
    → get_elem? rf.log (rf.last_applied + 2) ≡ some f
    → rf.last_applied + 2 ≤ rf.commit_index
    → (s : Appliers Op) × Moves (both_idle rf) s
      × (s.held_a ≡ none)
      × (s.held_b ≡ none)
      × ((term : ℕ) (kv : KvServer)
          → kv.last_applied_index ≡ rf.last_applied
          → applier (in_term term s.raft.apply_ch) kv
            ≡ applier (in_term term (apply_msg f (rf.last_applied + 2) ∷ [])) kv)
committed_command_lost rf e f empty he hf two =
    let (s, moves, a, b, sent) = apply_out_of_order rf e f he hf two in
    (
      s,
      moves,
      a,
      b,
      λ term kv at.
          ap (λ ms. applier (in_term term ms) kv)
            (sent
              ∙ ap
                  (λ c.
                    (c ++ (apply_msg f (rf.last_applied + 2) ∷ []))
                    ++ (apply_msg e (rf.last_applied + 1) ∷ []))
                  empty)
          ∙ overtaken term (rf.last_applied + 1) (rf.last_applied + 2) e f kv (omega arith)
              (omega (arith, at)),
    )
