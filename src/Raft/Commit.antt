-- ===== src/Raft/Commit.antt =====
-- raft.go: `tryAdvanceCommitLocked` and `applyCommittedEntries`.
-- `none` is a panic on an index out of range.
pub mod Advance
pub mod Apply
pub mod Race
use mit.Prelude.{
  ℕ, zero, suc, ◌+◌, ◌-◌, ◌/◌, Bool, true, false, Option, none, some, List, [], ◌∷◌, ◌++◌, ltb, leb,
  ◌==◌, if◌then◌else◌, get_elem?, ◌>>=◌,
}
use mit.Raft.Types.{Raft, LogEntry, ApplyMsg, is_leader, last_log_index}

-- The loop over the peers `i, i + 1, …`, with `left` of them to go: how many others hold entry `n`.
unfoldable pub count_holders : ℕ → ℕ → List ℕ → ℕ → ℕ → Option ℕ
count_holders n me match_index i zero = some 0
count_holders n me match_index i (suc left) = do
  rest ← count_holders n me match_index (i + 1) left
  if i == me
      then some rest
      else do m ← get_elem? match_index i; some (if leb n m then suc rest else rest)

module _ {C : Type 0} where
  -- The votes of the loop over the peers: this one and the others that hold entry `n`.
  unfoldable pub majority_holds : Raft C → ℕ → Option Bool
  unfolding count_holders
  majority_holds rf n = do
    others ← count_holders n rf.me rf.match_index 0 rf.peers
    some (ltb (rf.peers / 2) (1 + others))

  -- The body of the loop at `n`: is it of this term and held by a majority?
  unfoldable pub can_commit : Raft C → ℕ → Option Bool
  can_commit rf n = do
    e ← get_elem? rf.log n
    if e.term == rf.current_term then majority_holds rf n else some false

  -- The loop from `commit_index + d` down to `commit_index + 1`.
  unfoldable pub search_commit : Raft C → ℕ → Option ℕ
  search_commit rf zero = some rf.commit_index
  search_commit rf (suc d) = do
    found ← can_commit rf (rf.commit_index + suc d)
    elim found [ true ↦ some (rf.commit_index + suc d) | false ↦ search_commit rf d ]

  unfoldable pub try_advance_commit : Raft C → Option (Raft C)
  try_advance_commit rf =
      if is_leader rf.state
      then (do
        n ← search_commit rf (last_log_index rf - rf.commit_index)
        some (record rf { commit_index = n }))
      else some rf

  -- The message for the entry at `index`.
  abbrev pub apply_msg : LogEntry C → ℕ → ApplyMsg C
  apply_msg e index = record {
    command_valid = true;
    command = e.command;
    command_index = index;
    snapshot_valid = false;
    snapshot = [];
    snapshot_term = 0;
    snapshot_index = 0;
  }

  -- The locked part of one round of `applyCommittedEntries`: the message to send, if there is one.
  unfoldable pub take_committed : Raft C → Option (Raft C × Option (ApplyMsg C))
  take_committed rf = if leb rf.commit_index rf.last_applied then some (rf, none) else (do
    e ← get_elem? rf.log (rf.last_applied + 1)
    some (
      record rf { last_applied = rf.last_applied + 1 },
      some (apply_msg e (rf.last_applied + 1)),
    ))

  -- `rf.applyCh <- msg`, outside the lock
  unfoldable pub deliver : ApplyMsg C → Raft C → Raft C
  deliver msg rf = record rf { apply_ch = rf.apply_ch ++ (msg ∷ []) }

  -- One goroutine alone: rounds until nothing is left. `none` also where the fuel runs out.
  unfoldable pub apply_committed : ℕ → Raft C → Option (Raft C)
  unfolding deliver
  apply_committed zero rf = none
  apply_committed (suc fuel) rf = elim (take_committed rf) [
    | none ↦ none
    | some (rf', none) ↦ some rf'
    | some (rf', some msg) ↦ apply_committed fuel (deliver msg rf')
  ]
