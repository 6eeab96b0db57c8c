-- ===== src/Raft/Replicate/Exchange.antt =====
-- raft.go: one exchange of `replicateToPeer` with the `AppendEntries` handler of the follower.
use mit.Prelude.{
  ℕ, ◌+◌, ◌-◌, ◌≤◌, ◌<◌, ◌≡◌, refl, sym, ap, ◌∙◌, Option-cases, inl, inr, some, arith, length,
  get_elem?, take, drop, get_elem?-take, get_elem?-drop, length-take, length-drop,
  get_elem?_in_range,
}
use mit.Raft.Types.{Raft, LogEntry, AppendEntriesArgs, Tick, min, last_log_index}
use mit.Raft.Persist.{Codec}
use mit.Raft.Append.Laws.{after, Accepted, append_entries_stores}
use mit.Raft.Replicate.{build_request, prepare_request}

module _ {C : Type 0} where
  -- The request for `next`: what precedes it, how many entries it carries, and which.
  pub record Carries (rf : Raft C) (next : ℕ) (args : AppendEntriesArgs C) : Type 0 where
    pub prev : args.prev_log_index ≡ next - 1
    pub some_entries : 0 < length args.entries
    pub few : length args.entries ≤ 100
    pub fits : next + length args.entries ≤ length rf.log
    pub copied :
        (k : ℕ) → k < length args.entries → get_elem? args.entries k ≡ get_elem? rf.log (next + k)

  pub build_request-Carries :
      (rf : Raft C) (next : ℕ) → next < length rf.log → Carries rf next (build_request rf next)
  unfolding build_request
  build_request-Carries rf next lt = record {
    prev = refl;
    some_entries = ground (arith, size);
    few = ground (arith, size);
    fits = ground (arith, size);
    copied = λ k h.
        get_elem?-take (drop next rf.log) count k (ground (arith, size))
        ∙ get_elem?-drop rf.log next k;
  }
    where
      count : ℕ
      count = min 100 (last_log_index rf - next + 1)

      size : length (take count (drop next rf.log)) ≡ min 100 (length rf.log - next)
      size = ground (arith, length-take count (drop next rf.log), length-drop next rf.log)

  request_args :
      (peer term_started next : ℕ) (rf : Raft C) {args : AppendEntriesArgs C}
      → 0 < length rf.log
      → get_elem? rf.next_index peer ≡ some next
      → prepare_request peer term_started rf ≡ some (some args)
      → (args ≡ build_request rf next) × (next < length rf.log)
  unfolding prepare_request
  request_args peer term_started next rf h found e = ground arith

  pub prepare_request-next :
      (peer term_started : ℕ) (rf : Raft C) {args : AppendEntriesArgs C}
      → prepare_request peer term_started rf ≡ some (some args)
      → (next : ℕ) × (get_elem? rf.next_index peer ≡ some next)
  unfolding prepare_request
  prepare_request-next peer term_started rf e = elim (Option-cases (get_elem? rf.next_index peer)) [
    | inl missing ↦ absurd (ground arith)
    | inr found ↦ found
  ]

  pub prepare_request-Carries :
      (peer term_started next : ℕ) (rf : Raft C) {args : AppendEntriesArgs C}
      → 0 < length rf.log
      → get_elem? rf.next_index peer ≡ some next
      → prepare_request peer term_started rf ≡ some (some args)
      → Carries rf next args
  prepare_request-Carries peer term_started next rf h found e =
      let (same, lt) = request_args peer term_started next rf h found e in
      rw same (build_request-Carries rf next lt)

  -- When a follower accepts what a leader sent it, its log has an entry of the same term as the
  -- leader's at every index that the request covered, and the leader's record of the match does not
  -- pass the end of its own log.
  pub exchange_matches :
      (codec : Codec C) (peer term_started next : ℕ) (lead follower : Raft C)
      {args : AppendEntriesArgs C} (t1 t2 : Tick)
      → 0 < length lead.log
      → 0 < length follower.log
      → 0 < next
      → get_elem? lead.next_index peer ≡ some next
      → prepare_request peer term_started lead ≡ some (some args)
      → Accepted codec args t1 t2 follower
      → (args.prev_log_index + length args.entries ≤ last_log_index lead)
        × ((k : ℕ)
            → k < length args.entries
            → (l f : LogEntry C) × (get_elem? lead.log (next + k) ≡ some l)
              × (get_elem? (after codec args t1 t2 follower).log (next + k) ≡ some f)
              × (f.term ≡ l.term))
  exchange_matches codec peer term_started next lead follower {args} t1 t2 hl hf pos found e ok =
      let c = prepare_request-Carries peer term_started next lead hl found e in
      (
        omega (arith, c.fits, c.prev),
        λ k lt.
            let (l, sent) = get_elem?_in_range args.entries k lt in
            let (f, stored, same) =
              (append_entries_stores codec args t1 t2 follower hf ok).1 k l sent in
            let at : args.prev_log_index + 1 + k ≡ next + k = omega (arith, c.prev) in
            (l, f, sym (c.copied k lt) ∙ sent, ap (get_elem? _) (sym at) ∙ stored, same),
      )
