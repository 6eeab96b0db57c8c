-- ===== src/Raft/Config/OneLeader.antt =====
-- raft/config.go: what `checkOneLeader` has found out when it returns a peer.
use mit.Prelude.{
  ℕ, zero, suc, ◌+◌, ◌≤◌, ◌<◌, ◌≡◌, ◌⊎◌, inl, inr, sym, ap, subst, ◌∙◌, true, false, Bool-cases,
  Option-cases, none, some, List, [], ◌∷◌, nat_key, arith, ℕ_discrete as dec_eq, >>=-eq-some, ◌>>=◌,
  if◌then◌else◌,
}
use mathlib.Core.Option.{some-injective}
use mit.Raft.Config.{Config}
use mit.Raft.Config.Checks.{state_of, find_leaders, pick_leader, check_one_leader}
use mit.Raft.Config.Leaders.{Listed, Picked, pick_leader-Picked}

module _ {C : Type 0} where
  -- A connected peer that takes itself for the leader of a term.
  abbrev pub LeadsIn : Config C → ℕ → ℕ → Type 0
  LeadsIn cfg t i = (i < cfg.n) × (cfg.connected i ≡ true) × (state_of cfg i ≡ some (t, true))

  -- What there is to be found among the peers `i, i + 1, …`.
  record Found (cfg : Config C) (i left : ℕ) (found : List (ℕ × ℕ)) : Type 0 where
    sound :
        (t j : ℕ)
        → Listed t j found
        → (i ≤ j) × (j < i + left) × (cfg.connected j ≡ true) × (state_of cfg j ≡ some (t, true))
    complete :
        (t j : ℕ)
        → i ≤ j
        → j < i + left
        → cfg.connected j ≡ true
        → state_of cfg j ≡ some (t, true)
        → Listed t j found

  Found-skip :
      (cfg : Config C) (i left : ℕ) (rest : List (ℕ × ℕ))
      → ((t : ℕ) → cfg.connected i ≡ true → state_of cfg i ≡ some (t, true) → ⊥)
      → Found cfg (i + 1) left rest
      → Found cfg i (suc left) rest
  Found-skip cfg i left rest not_here f = record {
    sound = λ t j l. let (le, lt, on, st) = f.sound t j l in (omega arith, omega arith, on, st);
    complete = λ t j le lt on st. elim (dec_eq i j) [
      | yes same ↦ absurd (
          not_here t (subst (λ x. cfg.connected x ≡ true) (sym same) on)
            (subst (λ x. state_of cfg x ≡ some (t, true)) (sym same) st))
      | no other ↦ f.complete t j (omega (arith, other)) (omega arith) on st
    ];
  }

  Found-here :
      (cfg : Config C) (i left term : ℕ) (rest : List (ℕ × ℕ))
      → cfg.connected i ≡ true
      → state_of cfg i ≡ some (term, true)
      → Found cfg (i + 1) left rest
      → Found cfg i (suc left) ((term, i) ∷ rest)
  Found-here cfg i left term rest up leads f = record {
    sound = λ t j l. elim l [
      | inl (same, at) ↦ (
        omega (arith, at),
        omega (arith, at),
        subst (λ x. cfg.connected x ≡ true) (sym at) up,
        subst (λ x. state_of cfg x ≡ some (t, true)) (sym at)
            (leads ∙ ap (λ x. some (x, true)) (sym same)),
      )
      | inr later ↦ let (le, lt, on, st) = f.sound t j later in (omega arith, omega arith, on, st)
    ];
    complete = λ t j le lt on st. elim (dec_eq i j) [
      | yes same ↦
          let st' = subst (λ x. state_of cfg x ≡ some (t, true)) (sym same) st in
          inl (ap (λ p. p.0) (some-injective (t, true) (term, true) (sym st' ∙ leads)), sym same)
      | no other ↦ inr (f.complete t j (omega (arith, other)) (omega arith) on st)
    ];
  }

  Found-one :
      (cfg : Config C) (i left : ℕ) (rest : List (ℕ × ℕ)) {found : List (ℕ × ℕ)}
      → (if cfg.connected i
          then (do (term, leads) ← state_of cfg i; some (if leads then (term, i) ∷ rest else rest))
          else some rest)
        ≡ some found
      → Found cfg (i + 1) left rest
      → Found cfg i (suc left) found
  Found-one cfg i left rest {found} h f = elim (Bool-cases (cfg.connected i)) [
    | inr off ↦
        subst (Found cfg i (suc left)) (some-injective rest found (rw off at h))
          (Found-skip cfg i left rest (λ t on st. cc (off, on)) f)
    | inl on ↦ elim (Option-cases (state_of cfg i)) [
      | inl down ↦ absurd (cc (rw (on, down) at h))
      | inr ((term, false), st) ↦
          subst (Found cfg i (suc left)) (some-injective rest found (rw (on, st) at h)) (
            Found-skip cfg i left rest
              (λ t on' st'.
                cc (ap (λ p. p.1) (some-injective (t, true) (term, false) (sym st' ∙ st))))
              f)
      | inr ((term, true), st) ↦
          subst (Found cfg i (suc left))
            (some-injective ((term, i) ∷ rest) found (rw (on, st) at h))
            (Found-here cfg i left term rest on st f)
    ]
  ]

  find_leaders-Found :
      (cfg : Config C) (i left : ℕ) {found : List (ℕ × ℕ)}
      → find_leaders cfg i left ≡ some found
      → Found cfg i left found
  unfolding find_leaders
  find_leaders-Found cfg i zero {found} h =
      subst (Found cfg i 0) (some-injective [] found h)
        (record { sound = λ t j l. absurd l; complete = λ t j le lt on st. absurd (omega arith) })
  find_leaders-Found cfg i (suc left) {found} h =
      let (rest, h1, last) = >>=-eq-some (find_leaders cfg (i + 1) left) _ h in
      Found-one cfg i left rest last (find_leaders-Found cfg (i + 1) left h1)

  -- The one leader of a configuration.
  pub record OneLeader (cfg : Config C) (i : ℕ) : Type 0 where
    pub term : ℕ
    pub leads : LeadsIn cfg term i
    pub newest : (t j : ℕ) → LeadsIn cfg t j → t ≤ term
    pub alone : (t j k : ℕ) → LeadsIn cfg t j → LeadsIn cfg t k → j ≡ k

  Picked-OneLeader :
      (cfg : Config C) (found : List (ℕ × ℕ)) (i : ℕ)
      → Found cfg 0 cfg.n found
      → Picked found i
      → OneLeader cfg i
  Picked-OneLeader cfg found i f p =
      let (le, lt, on, st) = f.sound p.term i p.listed in
      record {
        term = p.term;
        leads = (omega arith, on, st);
        newest =
            λ t j l. p.newest t j (f.complete t j (omega arith) (omega (arith, l.0)) (l.1) (l.2));
        alone = λ t j k l m.
            p.alone t j k (f.complete t j (omega arith) (omega (arith, l.0)) (l.1) (l.2))
              (f.complete t k (omega arith) (omega (arith, m.0)) (m.1) (m.2));
      }

  -- Some element of the list has the property.
  abbrev pub Any : (Config C → Type 0) → List (Config C) → Type 0
  Any P [] = ⊥
  Any P (cfg ∷ later) = P cfg ⊎ Any P later

  -- If `checkOneLeader` returns a peer, then in one of the configurations that it has looked at this
  -- peer is connected and leads in a term, no connected peer leads in a later term, and no term has two
  -- connected leaders.
  pub check_one_leader-OneLeader :
      (looks : List (Config C)) (i : ℕ)
      → check_one_leader looks ≡ some i
      → Any (λ cfg. OneLeader cfg i) looks
  unfolding check_one_leader
  check_one_leader-OneLeader [] i h = absurd (cc h)
  check_one_leader-OneLeader (cfg ∷ later) i h =
      let (found, h1, rest) = >>=-eq-some (find_leaders cfg 0 cfg.n) _ h in
      let (picked, h2, last) = >>=-eq-some (pick_leader found) _ rest in
      elim (Option-cases picked) [
        | inl nobody ↦ inr (
            check_one_leader-OneLeader later i (
              subst (λ p. elim p [ some j ↦ some j | none ↦ check_one_leader later ] ≡ some i)
                nobody last))
        | inr (j, somebody) ↦
            let same : some j ≡ some i =
              subst (λ p. elim p [ some j ↦ some j | none ↦ check_one_leader later ] ≡ some i)
                somebody last in
            inl (
              Picked-OneLeader cfg found i (find_leaders-Found cfg 0 cfg.n h1)
                (pick_leader-Picked found i (h2 ∙ ap some (somebody ∙ same))))
      ]
