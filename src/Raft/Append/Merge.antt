-- ===== src/Raft/Append/Merge.antt =====
-- raft.go, rules 3 and 4 of `AppendEntries`: the loop over indices and the append that follows it,
-- against a recursive merge of what follows the previous entry with the new entries.
use mit.Prelude.{
  ℕ, zero, suc, ◌+◌, ◌≤◌, ◌<◌, ◌≡◌, refl, ap, ◌∙◌, sym, inl, inr, some, List, [], ◌∷◌, ◌++◌, arith,
  ◌==◌, if◌then◌else◌, Bool-cases, length, get_elem?, take, drop,
}
use mit.Raft.Types.{LogEntry}
use mit.Raft.Append.{scan, append_rest}

module _ {C : Type 0} where
  -- The old entries are kept as long as the terms agree; at a conflict the new ones replace the rest.
  pub merge : List (LogEntry C) → List (LogEntry C) → List (LogEntry C)
  merge [] es = es
  merge (l ∷ ls) [] = l ∷ ls
  merge (l ∷ ls) (e ∷ es) = if l.term == e.term then l ∷ merge ls es else e ∷ es

  pub merge-nil : (log : List (LogEntry C)) → merge log [] ≡ log
  unfolding merge
  merge-nil [] = refl
  merge-nil (l ∷ ls) = refl

  -- The loop does not look at what stands before its index.
  scan-cons :
      (x : LogEntry C) (log es : List (LogEntry C)) (i : ℕ)
      → scan (x ∷ log) es (suc i) ≡ (x ∷ (scan log es i).0, (scan log es i).1)
  unfolding scan
  scan-cons x log [] i = refl
  scan-cons x log (e ∷ es) i = ground (arith, scan-cons x log es (i + 1))

  append_rest-cons :
      (x : LogEntry C) (p : List (LogEntry C) × List (LogEntry C))
      → append_rest (x ∷ p.0, p.1) ≡ x ∷ append_rest p
  append_rest-cons x (log, []) = refl
  append_rest-cons x (log, e ∷ es) = refl

  scan_shift :
      (x : LogEntry C) (log es : List (LogEntry C)) (i : ℕ)
      → append_rest (scan (x ∷ log) es (suc i)) ≡ x ∷ append_rest (scan log es i)
  scan_shift x log es i = rw scan-cons (append_rest-cons x (scan log es i))

  scan_from_start : (log es : List (LogEntry C)) → append_rest (scan log es 0) ≡ merge log es
  unfolding merge scan
  scan_from_start log [] = sym (merge-nil log)
  scan_from_start [] (e ∷ es) = refl
  scan_from_start (l ∷ ls) (e ∷ es) = elim (Bool-cases (l.term == e.term)) [
    | inl same ↦ rw (same, scan) (scan_shift l ls es 0 ∙ ap (◌∷◌ l) (scan_from_start ls es))
    | inr other ↦ rw (other, scan)
  ]

  -- The loop and the append compute the merge behind the first `i` entries.
  pub scan-merge :
      (log es : List (LogEntry C)) (i : ℕ)
      → i ≤ length log
      → append_rest (scan log es i) ≡ take i log ++ merge (drop i log) es
  scan-merge log es zero h = scan_from_start log es
  scan-merge [] es (suc i) h = elim h [ ]
  scan-merge (l ∷ ls) es (suc i) h =
      scan_shift l ls es i ∙ ap (◌∷◌ l) (scan-merge ls es i (omega arith))

  -- Behind the merge stands an entry of the same term for each new entry.
  pub get_elem?-merge :
      (log es : List (LogEntry C)) (k : ℕ) {e : LogEntry C}
      → get_elem? es k ≡ some e
      → (l : LogEntry C) × (get_elem? (merge log es) k ≡ some l) × (l.term ≡ e.term)
  unfolding merge
  get_elem?-merge [] es k {e} h = (e, h, refl)
  get_elem?-merge (l ∷ ls) [] k h = cc
  get_elem?-merge (l ∷ ls) (x ∷ es) zero h =
      (if l.term == x.term then l else x, ground arith, ground arith)
  get_elem?-merge (l ∷ ls) (x ∷ es) (suc k) {e} h = elim (Bool-cases (l.term == x.term)) [
    | inl same ↦ rw same (get_elem?-merge ls es k h)
    | inr other ↦ rw other (e, h, refl)
  ]

  pub length-merge : (log es : List (LogEntry C)) → length es ≤ length (merge log es)
  unfolding merge
  length-merge [] es = omega arith
  length-merge (l ∷ ls) [] = omega arith
  length-merge (l ∷ ls) (e ∷ es) = ground (arith, length-merge ls es)

  merge_self : (es : List (LogEntry C)) → merge es es ≡ es
  unfolding merge
  merge_self [] = refl
  merge_self (e ∷ es) = ground (arith, merge_self es)

  -- Merging the same entries again changes nothing.
  pub merge_idem : (ls es : List (LogEntry C)) → merge (merge ls es) es ≡ merge ls es
  unfolding merge
  merge_idem [] es = merge_self es
  merge_idem (l ∷ ls) [] = refl
  merge_idem (l ∷ ls) (e ∷ es) = ground (arith, merge_idem ls es, merge_self es)

  -- No new entry contradicts an old one up to index `c` of the two lists.
  abbrev pub Agrees : List (LogEntry C) → List (LogEntry C) → ℕ → Type 0
  Agrees ls es c =
      (k : ℕ) (l e : LogEntry C)
      → k ≤ c
      → get_elem? ls k ≡ some l
      → get_elem? es k ≡ some e
      → l.term ≡ e.term

  -- The merge keeps as many entries as the two lists agree on.
  pub merge_keeps :
      (ls es : List (LogEntry C)) (c : ℕ)
      → Agrees ls es c
      → c < length ls
      → c < length (merge ls es)
  unfolding merge
  merge_keeps [] es c a h = elim h [ ]
  merge_keeps (l ∷ ls) [] c a h = h
  merge_keeps (l ∷ ls) (e ∷ es) zero a h = ground (arith, a 0 l e (omega arith) refl refl)
  merge_keeps (l ∷ ls) (e ∷ es) (suc c) a h = ground (
    arith,
    a 0 l e (omega arith) refl refl,
    merge_keeps ls es c (λ k x y le. a (suc k) x y (omega arith)) (omega arith),
  )
