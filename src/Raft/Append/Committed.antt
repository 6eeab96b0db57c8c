-- ===== src/Raft/Append/Committed.antt =====
-- raft.go, `AppendEntries`: the committed part of the log, under requests that do not contradict it.
use mit.Prelude.{
  ℕ, ◌+◌, ◌-◌, ◌≤◌, ◌<◌, ◌≡◌, sym, ◌∙◌, inl, inr, Bool-cases, some, arith, dec_lt, length,
  get_elem?, take, drop, length-append, length-take, length-drop, get_elem?-drop,
}
use mit.Raft.Types.{Raft, LogEntry, AppendEntriesArgs, Tick}
use mit.Raft.Persist.{Codec}
use mit.Raft.Append.{append_entries, follow_commit, store_entries}
use mit.Raft.Append.Merge.{merge, merge_keeps}
use mit.Raft.Append.Laws.{
  after, Accepted, append_entries_log, append_entries_rejects, append_entries_accepts,
  prev_in_range,
}

module _ {C : Type 0} where
  -- The request contradicts no committed entry.
  abbrev pub RespectsCommitted : AppendEntriesArgs C → Raft C → Type 0
  RespectsCommitted args rf =
      (k : ℕ) (l e : LogEntry C)
      → args.prev_log_index + 1 + k ≤ rf.commit_index
      → get_elem? rf.log (args.prev_log_index + 1 + k) ≡ some l
      → get_elem? args.entries k ≡ some e
      → l.term ≡ e.term

  module _ (codec : Codec C) (args : AppendEntriesArgs C) (t1 t2 : Tick) (rf : Raft C) where
    pub kept_length :
        RespectsCommitted args rf
        → rf.commit_index < length rf.log
        → rf.commit_index < length (after codec args t1 t2 rf).log
    kept_length r h = elim (Bool-cases (append_entries codec args t1 t2 rf).1.success) [
      | inr refused ↦ rw ((append_entries_rejects codec args t1 t2 rf refused).0) h
      | inl ok ↦ go ok (dec_lt rf.commit_index n)
    ]
      where
        n : ℕ
        n = args.prev_log_index + 1

        go :
            Accepted codec args t1 t2 rf
            → Dec (rf.commit_index < n)
            → rf.commit_index < length (after codec args t1 t2 rf).log
        go ok d =
            let lt : 0 < length rf.log = omega arith in
            let in_range =
              prev_in_range codec args t1 t2 rf lt
                ((append_entries_accepts codec args t1 t2 rf lt).0 ok).1 in
            let front : length (take n rf.log) ≡ n = omega (arith, length-take n rf.log) in
            let size = length-append (take n rf.log) (merge (drop n rf.log) args.entries) in
            rw (append_entries_log codec args t1 t2 rf lt ok) (elim d [
              | yes before ↦ omega (arith, size, front)
              | no behind ↦ omega (
                arith,
                size,
                front,
                merge_keeps (drop n rf.log) args.entries (rf.commit_index - n)
                    (λ k l e le hl he.
                      r k l e (omega arith) (sym (get_elem?-drop rf.log n k) ∙ hl) he)
                    (omega (arith, length-drop n rf.log)),
              )
            ])

    pub append_commit :
        rf.commit_index < length (after codec args t1 t2 rf).log
        → (rf.commit_index ≤ (after codec args t1 t2 rf).commit_index)
          × ((after codec args t1 t2 rf).commit_index < length (after codec args t1 t2 rf).log)
    unfolding append_entries follow_commit store_entries
    append_commit h = ground arith
