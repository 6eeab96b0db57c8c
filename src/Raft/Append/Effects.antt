-- ===== src/Raft/Append/Effects.antt =====
-- raft.go, `AppendEntries`: a request that is delivered twice, and the commit index.
use mit.Prelude.{
  ℕ, ◌+◌, ◌≤◌, ◌<◌, ◌≡◌, inl, inr, sym, ap, ◌∙◌, List, ◌++◌, arith, Bool-cases, length, take, drop,
  length-take, take-append_left, drop-append_left,
}
use mit.Raft.Types.{Raft, LogEntry, AppendEntriesArgs, Tick, last_log_index}
use mit.Raft.Persist.{Codec}
use mit.Raft.Append.{store_entries, follow_commit, append_entries}
use mit.Raft.Append.Merge.{merge, merge_idem}
use mit.Raft.Append.Laws.{
  after, Accepted, append_entries_log, append_entries_rejects, append_entries_accepts,
  prev_in_range,
}
use mit.Raft.Node.Durable.{append_entries-HasLog}

module _ {C : Type 0} where
  splice_idem :
      (log es : List (LogEntry C)) (n : ℕ)
      → n ≤ length log
      → let log' = take n log ++ merge (drop n log) es in
        take n log' ++ merge (drop n log') es ≡ log'
  splice_idem log es n h =
      let size : length (take n log) ≡ n = omega (arith, length-take n log) in
      rw (
        take-append_left (take n log) (merge (drop n log) es) n size,
        drop-append_left (take n log) (merge (drop n log) es) n size,
        merge_idem (drop n log) es,
      )

  module _ (codec : Codec C) (args : AppendEntriesArgs C) (t1 t2 u1 u2 : Tick) (rf : Raft C) where
    abbrev once : Raft C
    once = after codec args t1 t2 rf

    abbrev twice : Raft C
    twice = after codec args u1 u2 once

    once_term : rf.current_term ≤ once.current_term
    unfolding append_entries follow_commit store_entries
    once_term = ground arith

    -- what the second delivery finds, the first one found
    first_accepted :
        0 < length rf.log → Accepted codec args u1 u2 once → Accepted codec args t1 t2 rf
    first_accepted h ok = elim (Bool-cases (append_entries codec args t1 t2 rf).1.success) [
      | inl good ↦ good
      | inr refused ↦ (append_entries_accepts codec args t1 t2 rf h).1 (
          let same = (append_entries_rejects codec args t1 t2 rf refused).0 in
          let found = (append_entries_accepts codec args u1 u2 once (rw same h)).0 ok in
          (omega (arith, once_term, found.0), rw same at (found.1)))
    ]

    second_accepted :
        0 < length rf.log
        → Accepted codec args u1 u2 once
        → Accepted codec args t1 t2 rf
        → twice.log ≡ once.log
    second_accepted h ok ok' =
        let n = args.prev_log_index + 1 in
        let splice = λ (log : List (LogEntry C)). take n log ++ merge (drop n log) args.entries in
        let first = append_entries_log codec args t1 t2 rf h ok' in
        append_entries_log codec args u1 u2 once (append_entries-HasLog codec args t1 t2 rf h) ok
        ∙ ap splice first
        ∙ splice_idem rf.log args.entries n (
            prev_in_range codec args t1 t2 rf h
              ((append_entries_accepts codec args t1 t2 rf h).0 ok').1)
        ∙ sym first

    -- A second delivery of a request leaves the log as the first one left it.
    pub append_entries_twice : 0 < length rf.log → twice.log ≡ once.log
    append_entries_twice h = elim (Bool-cases (append_entries codec args u1 u2 once).1.success) [
      | inr refused ↦ (append_entries_rejects codec args u1 u2 once refused).0
      | inl ok ↦ second_accepted h ok (first_accepted h ok)
    ]

  module _ (codec : Codec C) (args : AppendEntriesArgs C) (t1 t2 : Tick) (rf : Raft C) where
    -- An accepted request whose leader commit is larger than the follower's, and larger than the last
    -- index that the request vouches for, moves the commit index past that last index whenever the
    -- follower's log is longer.
    pub commit_overrun :
        Accepted codec args t1 t2 rf
        → rf.commit_index < args.leader_commit
        → args.prev_log_index + length args.entries < args.leader_commit
        → args.prev_log_index + length args.entries < last_log_index (after codec args t1 t2 rf)
        → args.prev_log_index + length args.entries < (after codec args t1 t2 rf).commit_index
    unfolding append_entries follow_commit store_entries
    commit_overrun ok behind beyond longer = ground arith
