-- ===== src/Raft/Append/Laws.antt =====
-- raft.go, `AppendEntries`: when a request is accepted, the log that it leaves, and what a rejected
-- request leaves alone.
use mit.Prelude.{
  ℕ, ◌+◌, ◌≤◌, ◌<◌, ◌≡◌, ◌↔◌, ◌⊎◌, inl, inr, refl, ap, ◌∙◌, true, false, some, List, [], ◌∷◌, ◌++◌,
  arith, ltb, Bool-cases, Option-cases, length, get_elem?, take, drop, length-take,
  get_elem?-append_right, get_elem?-append_left, get_elem?-take, in_range_of_get_elem?,
}
use mit.Raft.Types.{Raft, LogEntry, AppendEntriesArgs, Tick}
use mit.Raft.Persist.{Codec}
use mit.Raft.Roles.{reset_election_timer, become_follower}
use mit.Raft.Append.{prev_matches, scan, append_rest, store_entries, follow_commit, append_entries}
use mit.Raft.Append.Merge.{merge, scan-merge, get_elem?-merge}

module _ {C : Type 0} where
  -- The log has the previous entry of the request.
  abbrev pub HasPrev : AppendEntriesArgs C → List (LogEntry C) → Type 0
  HasPrev args log =
      (args.prev_log_index ≡ 0)
      ⊎ ((e : LogEntry C) × (get_elem? log args.prev_log_index ≡ some e)
          × (e.term ≡ args.prev_log_term))

  prev_matches_iff :
      (args : AppendEntriesArgs C) (rf : Raft C)
      → 0 < length rf.log
      → (prev_matches args rf ≡ true) ↔ HasPrev args rf.log
  unfolding prev_matches
  prev_matches_iff args rf h = (
    λ m. elim (Option-cases (get_elem? rf.log args.prev_log_index)) [
      | inl missing ↦ inl (ground arith)
      | inr (e, found) ↦ elim (Bool-cases (ltb 0 args.prev_log_index)) [
        | inl later ↦ inr (e, found, ground arith)
        | inr first ↦ inl (ground arith)
      ]
    ],
    λ has. elim has [
      | inl first ↦ ground arith
      | inr (e, found, same) ↦
          ground (arith, in_range_of_get_elem? rf.log args.prev_log_index found)
    ],
  )

  store_entries-log :
      (codec : Codec C) (args : AppendEntriesArgs C) (rf : Raft C) (es : List (LogEntry C))
      → args.entries ≡ es
      → (store_entries codec args rf).log ≡ append_rest (scan rf.log es (args.prev_log_index + 1))
  unfolding store_entries scan
  store_entries-log codec args rf [] h = ground (arith, ap length h)
  store_entries-log codec args rf (e ∷ es) h = ground (arith, ap length h)

  module _ (codec : Codec C) (args : AppendEntriesArgs C) (t1 t2 : Tick) (rf : Raft C) where
    abbrev pub after : Raft C
    after = (append_entries codec args t1 t2 rf).0

    abbrev pub Accepted : Type 0
    Accepted = (append_entries codec args t1 t2 rf).1.success ≡ true

    -- the peer after `becomeFollowerLocked` and the second reset of the timer
    abbrev stepped : Raft C
    stepped = reset_election_timer t2 (become_follower codec args.term t1 rf)

    success_matches : Accepted → (rf.current_term ≤ args.term) × (prev_matches args rf ≡ true)
    unfolding append_entries
    success_matches h = ground arith

    matches_success : rf.current_term ≤ args.term → prev_matches args rf ≡ true → Accepted
    unfolding append_entries
    matches_success h m = ground arith

    log_of_success :
        Accepted → after.log ≡ append_rest (scan rf.log args.entries (args.prev_log_index + 1))
    unfolding append_entries follow_commit
    log_of_success h = ground (arith, store_entries-log codec args stepped args.entries refl)

    pub prev_in_range :
        0 < length rf.log → HasPrev args rf.log → args.prev_log_index + 1 ≤ length rf.log
    prev_in_range h (inl first) = omega arith
    prev_in_range h (inr (e, found, same)) =
        omega (arith, in_range_of_get_elem? rf.log args.prev_log_index found)

    -- With a sentinel in the log a request is accepted exactly if its term is not old and the log has
    -- its previous entry.
    pub append_entries_accepts :
        0 < length rf.log → Accepted ↔ ((rf.current_term ≤ args.term) × HasPrev args rf.log)
    append_entries_accepts h =
        let (to, from) = prev_matches_iff args rf h in
        (λ ok. let (le, m) = success_matches ok in (le, to m), λ p. matches_success p.0 (from p.1))

    -- A rejected request leaves the log and the commit index alone.
    pub append_entries_rejects :
        (append_entries codec args t1 t2 rf).1.success ≡ false
        → (after.log ≡ rf.log) × (after.commit_index ≡ rf.commit_index)
    unfolding append_entries
    append_entries_rejects h = ground arith

    -- An accepted request leaves the old log up to its previous entry, and behind it the merge of
    -- the old rest with the new entries.
    pub append_entries_log :
        0 < length rf.log
        → Accepted
        → after.log
          ≡ take (args.prev_log_index + 1) rf.log
            ++ merge (drop (args.prev_log_index + 1) rf.log) args.entries
    append_entries_log h ok =
        log_of_success ok
        ∙ scan-merge rf.log args.entries (args.prev_log_index + 1)
            (prev_in_range h ((append_entries_accepts h).0 ok).1)

    -- After an accepted request the entries up to the previous one are the old ones, and every new
    -- entry has an entry of its term in its place.
    pub append_entries_stores :
        0 < length rf.log
        → Accepted
        → ((j : ℕ) → j ≤ args.prev_log_index → get_elem? after.log j ≡ get_elem? rf.log j)
          × ((k : ℕ) (e : LogEntry C)
              → get_elem? args.entries k ≡ some e
              → (l : LogEntry C) × (get_elem? after.log (args.prev_log_index + 1 + k) ≡ some l)
                × (l.term ≡ e.term))
    append_entries_stores h ok = (
      λ j le. rw (append_entries_log h ok) (
          get_elem?-append_left kept rest j (omega (arith, size))
          ∙ get_elem?-take rf.log (args.prev_log_index + 1) j (omega arith)),
      λ k e found.
          let (l, here, same) =
            get_elem?-merge (drop (args.prev_log_index + 1) rf.log) args.entries k found in
          (
            l,
            rw (append_entries_log h ok)
                (get_elem?-append_right kept rest (args.prev_log_index + 1) k size ∙ here),
            same,
          ),
    )
      where
        kept : List (LogEntry C)
        kept = take (args.prev_log_index + 1) rf.log

        rest : List (LogEntry C)
        rest = merge (drop (args.prev_log_index + 1) rf.log) args.entries

        size : length kept ≡ args.prev_log_index + 1
        size = omega (
          arith,
          length-take (args.prev_log_index + 1) rf.log,
          prev_in_range h ((append_entries_accepts h).0 ok).1,
        )
