-- ===== src/Raft/Append.antt =====
-- raft.go: the `AppendEntries` handler.
pub mod Merge
pub mod Laws
pub mod Committed
pub mod Effects
use mit.Prelude.{
  ℕ, ◌+◌, Bool, true, false, Option, none, some, List, [], ◌∷◌, ◌++◌, ltb, ◌==◌, if◌then◌else◌,
  length, get_elem?, take,
}
use mit.Raft.Types.{
  Raft, LogEntry, AppendEntriesArgs, AppendEntriesReply, Task, apply_committed_entries, Tick, min,
  last_log_index,
}
use mit.Raft.Persist.{Codec, persist}
use mit.Raft.Roles.{reset_election_timer, become_follower}

module _ {C : Type 0} where
  -- `log[i].Term == term`, false where `i` is past the end
  abbrev pub term_matches : Option (LogEntry C) → ℕ → Bool
  term_matches none term = false
  term_matches (some e) term = e.term == term

  -- Rule 2: the log has the entry before the new ones.
  unfoldable pub prev_matches : AppendEntriesArgs C → Raft C → Bool
  prev_matches args rf =
      if ltb (last_log_index rf) args.prev_log_index
      then false
      else if ltb 0 args.prev_log_index
      then term_matches (get_elem? rf.log args.prev_log_index) args.prev_log_term
      else true

  -- The loop of rule 3. Its state is the log, the entries from `newEntriesIndex` on, and
  -- `insertIndex`; it ends at the end of either, or at a conflict, where the log is cut.
  unfoldable pub scan :
      List (LogEntry C) → List (LogEntry C) → ℕ → List (LogEntry C) × List (LogEntry C)
  scan log [] i = (log, [])
  scan log (e ∷ es) i = elim (get_elem? log i) [
    | none ↦ (log, e ∷ es)
    | some l ↦ elim (l.term == e.term) [ true ↦ scan log es (i + 1) | false ↦ (take i log, e ∷ es) ]
  ]

  -- Rule 4: what the loop left of the entries is appended.
  abbrev pub append_rest : List (LogEntry C) × List (LogEntry C) → List (LogEntry C)
  append_rest (log, []) = log
  append_rest (log, e ∷ es) = log ++ (e ∷ es)

  -- Rule 5.
  unfoldable pub follow_commit : AppendEntriesArgs C → Raft C → Raft C × List Task
  unfolding min
  follow_commit args rf =
      if ltb rf.commit_index args.leader_commit
      then (let commit = min args.leader_commit (last_log_index rf) in
          (
            record rf { commit_index = commit },
            if ltb rf.commit_index commit then apply_committed_entries ∷ [] else [],
          ))
      else (rf, [])

  module _ (codec : Codec C) where
    -- Rules 3 and 4, which a heartbeat skips.
    unfoldable pub store_entries : AppendEntriesArgs C → Raft C → Raft C
    unfolding persist
    store_entries args rf =
        if ltb 0 (length args.entries)
        then persist codec
            (record rf { log = append_rest (scan rf.log args.entries (args.prev_log_index + 1)) })
        else rf

    unfoldable pub append_entries :
        AppendEntriesArgs C → Tick → Tick → Raft C → Raft C × AppendEntriesReply × List Task
    unfolding reset_election_timer become_follower prev_matches
    append_entries args t1 t2 rf =
        let reply : AppendEntriesReply = record { term = rf.current_term; success = false } in
        if ltb args.term rf.current_term
        then (rf, reply, [])
        else (let rf' = reset_election_timer t2 (become_follower codec args.term t1 rf) in
            if prev_matches args rf'
            then (let (rf'', tasks) = follow_commit args (store_entries args rf') in
                (rf'', record reply { success = true }, tasks))
            else (rf', reply, []))
