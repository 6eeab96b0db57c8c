-- ===== src/Raft/Replicate/Progress.antt =====
-- raft.go, `replicateToPeer`: how far the replication to a follower has come, and what one request
-- adds to it.
use mit.Prelude.{
  ℕ, suc, ◌+◌, ◌-◌, ◌≤◌, ◌<◌, ◌≡◌, ◌⊎◌, inl, inr, sym, subst, false, Bool-cases, List, arith,
  length,
}
use mit.Raft.Types.{Raft, LogEntry, AppendEntriesArgs, Tick}
use mit.Raft.Persist.{Codec}
use mit.Raft.Append.{append_entries}
use mit.Raft.Append.Laws.{after, Accepted, append_entries_rejects}
use mit.Raft.Replicate.{build_request}
use mit.Raft.Replicate.Exchange.{Carries, build_request-Carries}
use mit.Raft.Replicate.CatchUp.{
  Agrees, LogMatching, acceptance_extends, acceptance_agrees, agreement_accepted, refusal_later,
}

module _ {C : Type 0} where
  -- The leader still looks for the point where the logs agree, or it has found it; and `n` more
  -- calls are enough.
  abbrev pub Searching : List (LogEntry C) → List (LogEntry C) → ℕ → ℕ → ℕ → Type 0
  Searching lead other next matched n =
      (matched ≡ 0) × LogMatching lead other × (next < length lead) × (next + length lead ≤ n)

  abbrev pub Found : List (LogEntry C) → List (LogEntry C) → ℕ → ℕ → ℕ → Type 0
  Found lead other next matched n =
      (matched < next)
      × Agrees lead other next
      × (next ≤ length lead)
      × (length lead ≤ next + n)
      × (next ≡ length lead → matched + 1 ≡ next)

  abbrev pub Progress : List (LogEntry C) → List (LogEntry C) → ℕ → ℕ → ℕ → Type 0
  Progress lead other next matched n =
      Searching lead other next matched n ⊎ Found lead other next matched n

  module _ (codec : Codec C) (lead other : Raft C) (next matched : ℕ) (t1 t2 : Tick)
      (lt : next < length lead.log) (pos : 0 < next) (has : 0 < length other.log)
      (le : other.current_term ≤ lead.current_term) where
    abbrev args : AppendEntriesArgs C
    args = build_request lead next

    abbrev answered : Raft C
    answered = after codec args t1 t2 other

    c : Carries lead next args
    c = build_request-Carries lead next lt

    before :
        {n : ℕ}
        → Progress lead.log other.log next matched n
        → Accepted codec args t1 t2 other
        → Agrees lead.log other.log next
    before (inl s) ok = acceptance_agrees lead next lt pos codec t1 t2 other has s.1 ok
    before (inr f) ok = f.1

    extended :
        {n : ℕ}
        → Progress lead.log other.log next matched n
        → Accepted codec args t1 t2 other
        → Agrees lead.log answered.log (next + length args.entries)
    extended p ok = acceptance_extends lead next lt pos codec t1 t2 other has (before p ok) ok

    pub enough :
        {n : ℕ}
        → Progress lead.log other.log next matched n
        → (matched < next) × (length lead.log ≤ next + n)
    enough (inl s) = (omega (arith, s.0), omega (arith, s.3))
    enough (inr f) = (f.0, f.3)

    -- If the answer is lost, an agreement that was reached is kept.
    pub lost-Progress :
        {n : ℕ}
        → Progress lead.log other.log next matched n
        → Progress lead.log answered.log next matched n
    lost-Progress {n} p = elim (Bool-cases (append_entries codec args t1 t2 other).1.success) [
      | inr bad ↦
          subst (λ o. Progress lead.log o next matched n)
            (sym (append_entries_rejects codec args t1 t2 other bad).0) p
      | inl ok ↦ inr (
        (enough p).0,
        λ j above below. extended p ok j above (omega arith),
        omega arith,
        (enough p).1,
        λ whole. absurd (omega arith),
      )
    ]

    -- A refusal that arrives is a step back, and an acceptance finds the point of agreement.
    pub refused-Progress :
        {n : ℕ}
        → (append_entries codec args t1 t2 other).1.success ≡ false
        → Progress lead.log other.log next matched (suc n)
        → Progress lead.log answered.log (next - 1) matched n
    refused-Progress {n} bad p =
        let same = sym (append_entries_rejects codec args t1 t2 other bad).0 in
        let later = refusal_later lead next lt pos codec t1 t2 other has le bad in
        elim p [
          | inl s ↦
              inl (s.0, subst (LogMatching lead.log) same s.1, omega arith, omega (arith, s.3))
          | inr f ↦ let ok = agreement_accepted lead next lt pos codec t1 t2 other has le f.1 in cc
        ]

    pub accepted-Progress :
        {n : ℕ}
        → Accepted codec args t1 t2 other
        → Progress lead.log other.log next matched (suc n)
        → Progress lead.log answered.log
            (args.prev_log_index + length args.entries + 1)
            (args.prev_log_index + length args.entries)
            n
    accepted-Progress {n} ok p = inr (
      omega arith,
      λ j above below. extended p ok j above (omega (arith, c.prev)),
      omega (arith, c.prev, c.fits),
      omega (arith, c.prev, c.some_entries, (enough p).1),
      λ whole. omega arith,
    )
