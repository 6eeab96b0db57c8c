-- ===== src/Raft/Replicate/CatchUp.antt =====
-- raft.go, `replicateToPeer`: one request of the loop and the follower's log. The logs are compared
-- by the terms of their entries.
use mit.Prelude.{
  ℕ, ◌+◌, ◌-◌, ◌≤◌, ◌<◌, ◌≡◌, ◌⊎◌, inl, inr, sym, ap, ◌∙◌, false, some, List, arith, length,
  get_elem?, dec_lt, get_elem?_in_range,
}
use mit.Raft.Types.{Raft, LogEntry, AppendEntriesArgs, Tick}
use mit.Raft.Persist.{Codec}
use mit.Raft.Append.Laws.{after, Accepted, HasPrev, append_entries_accepts, append_entries_stores}
use mit.Raft.Append.{append_entries}
use mit.Raft.Replicate.{build_request}
use mit.Raft.Replicate.Exchange.{build_request-Carries}

module _ {C : Type 0} where
  -- Both logs have an entry at `j`, and the two are of one term.
  abbrev pub SameTerm : List (LogEntry C) → List (LogEntry C) → ℕ → Type 0
  SameTerm lead other j =
      (l f : LogEntry C) × (get_elem? lead j ≡ some l)
      × (get_elem? other j ≡ some f)
      × (f.term ≡ l.term)

  -- The logs agree behind the sentinel and before index `n`.
  abbrev pub Agrees : List (LogEntry C) → List (LogEntry C) → ℕ → Type 0
  Agrees lead other n = (j : ℕ) → 0 < j → j < n → SameTerm lead other j

  -- Log matching: logs that have an entry of one term at an index agree up to that index.
  abbrev pub LogMatching : List (LogEntry C) → List (LogEntry C) → Type 0
  LogMatching lead other = (i : ℕ) → SameTerm lead other i → Agrees lead other (i + 1)

  module _ (lead : Raft C) (next : ℕ) (lt : next < length lead.log) (pos : 0 < next) where
    -- What an accepted request tells about the entry before the new ones.
    prev_same :
        (log : List (LogEntry C))
        → HasPrev (build_request lead next) log
        → (next ≡ 1) ⊎ SameTerm lead.log log (next - 1)
    unfolding build_request
    prev_same log (inl first) = inl (omega (arith, first))
    prev_same log (inr (f, found, same)) = elim (dec_lt 0 (next - 1)) [
      | no first ↦ inl (omega arith)
      | yes later ↦
          let (l, here) = get_elem?_in_range lead.log (next - 1) (omega arith) in
          inr (l, f, here, found, ground (arith, here))
    ]

    same_prev :
        (log : List (LogEntry C)) → Agrees lead.log log next → HasPrev (build_request lead next) log
    unfolding build_request
    same_prev log agrees = elim (dec_lt 0 (next - 1)) [
      | no first ↦ inl (omega arith)
      | yes later ↦
          let (l, f, here, there, same) = agrees (next - 1) later (omega arith) in
          inr (f, there, ground (arith, here, same))
    ]

    module _ (codec : Codec C) (t1 t2 : Tick) (other : Raft C) (has : 0 < length other.log) where
      abbrev args : AppendEntriesArgs C
      args = build_request lead next

      -- An acceptance extends the agreement by what the request carries.
      pub acceptance_extends :
          Agrees lead.log other.log next
          → Accepted codec args t1 t2 other
          → Agrees lead.log (after codec args t1 t2 other).log (next + length args.entries)
      acceptance_extends agrees ok j above below =
          let c = build_request-Carries lead next lt in
          let (kept, stored) = append_entries_stores codec args t1 t2 other has ok in
          elim (dec_lt j next) [
            | yes before ↦
                let (l, f, here, there, same) = agrees j above before in
                (l, f, here, kept j (omega (arith, c.prev)) ∙ there, same)
            | no behind ↦
                let k = j - next in
                let (e, sent) = get_elem?_in_range args.entries k (omega arith) in
                let (f, there, same) = stored k e sent in
                let at : next + k ≡ j = omega arith in
                let to : args.prev_log_index + 1 + k ≡ j = omega (arith, c.prev) in
                (
                  e,
                  f,
                  ap (get_elem? _) (sym at) ∙ sym (c.copied k (omega arith)) ∙ sent,
                  ap (get_elem? _) (sym to) ∙ there,
                  same,
                )
          ]

      -- With log matching an acceptance shows that the logs agree before the new entries.
      pub acceptance_agrees :
          LogMatching lead.log other.log
          → Accepted codec args t1 t2 other
          → Agrees lead.log other.log next
      acceptance_agrees matching ok =
          elim (prev_same other.log ((append_entries_accepts codec args t1 t2 other has).0 ok).1) [
            | inl first ↦ λ j above below. absurd (omega arith)
            | inr same ↦ λ j above below. matching (next - 1) same j above (omega arith)
          ]

      -- Where the logs agree before the new entries, a follower of no newer term accepts.
      pub agreement_accepted :
          other.current_term ≤ lead.current_term
          → Agrees lead.log other.log next
          → Accepted codec args t1 t2 other
      unfolding build_request
      agreement_accepted le agrees =
          (append_entries_accepts codec args t1 t2 other has).1 (le, same_prev other.log agrees)

      -- A follower of no newer term refuses no request that begins at the first entry.
      pub refusal_later :
          other.current_term ≤ lead.current_term
          → (append_entries codec args t1 t2 other).1.success ≡ false
          → 1 < next
      refusal_later le bad = elim (dec_lt 1 next) [
        | yes later ↦ later
        | no first ↦ let ok = agreement_accepted le (λ j above below. absurd (omega arith)) in cc
      ]
