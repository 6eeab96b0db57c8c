-- ===== src/Raft/Config/Leaders.antt =====
-- raft/config.go: the choice that `checkOneLeader` makes among the leaders that it has found.
use mit.Prelude.{
  ℕ, ◌≤◌, ◌≡◌, ◌⊎◌, inl, inr, refl, sym, subst, ◌∙◌, false, Bool-cases, Option, Option-cases, none,
  some, List, [], ◌∷◌, ◌==◌, ==_iff, nat_key, arith, ltb, length, In, if◌then◌else◌,
}
use mathlib.Core.Option.{some-injective}
use mit.Raft.Config.Checks.{leaders_of, has_two, last_term, first_of, pick_leader}

abbrev pub Listed : ℕ → ℕ → List (ℕ × ℕ) → Type 0
Listed t i [] = ⊥
Listed t i ((u, j) ∷ found) = ((t ≡ u) × (i ≡ j)) ⊎ Listed t i found

Listed-In : (t i : ℕ) (found : List (ℕ × ℕ)) → Listed t i found → In i (leaders_of t found)
Listed-In t i [] h = h
Listed-In t i ((u, j) ∷ found) (inl (same, at)) = rw ((==_iff u t).1 (sym same)) (inl at)
Listed-In t i ((u, j) ∷ found) (inr later) = elim (Bool-cases (u == t)) [
  | inl e ↦ rw e (inr (Listed-In t i found later))
  | inr e ↦ rw e (Listed-In t i found later)
]

In-Listed : (t i : ℕ) (found : List (ℕ × ℕ)) → In i (leaders_of t found) → Listed t i found
In-Listed t i [] h = h
In-Listed t i ((u, j) ∷ found) h = elim (Bool-cases (u == t)) [
  | inl e ↦ elim (rw e at h) [
    | inl at ↦ inl (sym ((==_iff u t).0 e), at)
    | inr later ↦ inr (In-Listed t i found later)
  ]
  | inr e ↦ inr (In-Listed t i found (rw e at h))
]

has_two-false :
    (t i : ℕ) (all found : List (ℕ × ℕ))
    → has_two all found ≡ false
    → Listed t i found
    → length (leaders_of t all) ≤ 1
has_two-false t i all [] h l = absurd l
has_two-false t i all ((u, j) ∷ found) h (inl (same, at)) =
    let one : length (leaders_of u all) ≤ 1 = ground (arith, h) in
    subst (λ x. length (leaders_of x all) ≤ 1) (sym same) one
has_two-false t i all ((u, j) ∷ found) h (inr later) =
    has_two-false t i all found (ground (arith, h)) later

at_most_one : (xs : List ℕ) (x y : ℕ) → length xs ≤ 1 → In x xs → In y xs → x ≡ y
at_most_one [] x y h a b = absurd a
at_most_one (z ∷ []) x y h (inr i) b = absurd i
at_most_one (z ∷ []) x y h (inl a) (inr i) = absurd i
at_most_one (z ∷ []) x y h (inl a) (inl b) = a ∙ sym b
at_most_one (z ∷ w ∷ xs) x y h a b = absurd (omega arith)

first_of-In : (xs : List ℕ) (x : ℕ) → first_of xs ≡ some x → In x xs
first_of-In [] x h = absurd (cc h)
first_of-In (y ∷ xs) x h = inl (sym (some-injective y x h))

-- The last term is one that was there or one of a leader, and no leader has a later one.
last_term-max :
    (found : List (ℕ × ℕ)) (start : Option ℕ) (last : ℕ)
    → last_term found start ≡ some last
    → ((t : ℕ) → start ≡ some t → t ≤ last) × ((t i : ℕ) → Listed t i found → t ≤ last)
last_term-max [] start last h = (
  (λ t e. subst (λ x. x ≤ last) (sym (some-injective t last (sym e ∙ h))) (omega arith)),
  λ t i l. absurd l,
)
last_term-max ((u, j) ∷ found) none last h =
    let (before, rest) = last_term-max found (some u) last h in
    (
      (λ t e. absurd (cc e)),
      λ t i l. elim l [
        | inl (same, at) ↦ subst (λ x. x ≤ last) (sym same) (before u refl)
        | inr later ↦ rest t i later
      ],
    )
last_term-max ((u, j) ∷ found) (some v) last h =
    let (before, rest) = last_term-max found (some (if ltb v u then u else v)) last h in
    let top = before _ refl in
    let past : v ≤ last = ground (arith, top) in
    let here : u ≤ last = ground (arith, top) in
    (
      (λ t e. subst (λ x. x ≤ last) (some-injective v t e) past),
      λ t i l. elim l [
        | inl (same, at) ↦ subst (λ x. x ≤ last) (sym same) here
        | inr later ↦ rest t i later
      ],
    )

-- Of a choice: it leads in the last term, and no term has two leaders.
pub record Picked (found : List (ℕ × ℕ)) (i : ℕ) : Type 0 where
  pub term : ℕ
  pub listed : Listed term i found
  pub newest : (t j : ℕ) → Listed t j found → t ≤ term
  pub alone : (t j k : ℕ) → Listed t j found → Listed t k found → j ≡ k

pub pick_leader-Picked :
    (found : List (ℕ × ℕ)) (i : ℕ) → pick_leader found ≡ some (some i) → Picked found i
unfolding pick_leader
pick_leader-Picked found i h = elim (Bool-cases (has_two found found)) [
  | inl two ↦ cc (rw (pick_leader, two) at h)
  | inr ok ↦ elim (Option-cases (last_term found none)) [
    | inl nobody ↦ cc (rw (pick_leader, ok, nobody) at h)
    | inr (last, at) ↦ elim (Option-cases (first_of (leaders_of last found))) [
      | inl empty ↦ cc (rw (pick_leader, ok, at, empty) at h)
      | inr (j, first) ↦
          let same : j ≡ i =
            some-injective j i
              (some-injective (some j) (some i) (rw (pick_leader, ok, at, first) at h)) in
          record {
            term = last;
            listed =
                subst (λ x. Listed last x found) same
                  (In-Listed last j found (first_of-In _ j first));
            newest = (last_term-max found none last at).1;
            alone = λ t a b la lb.
                at_most_one (leaders_of t found) a b (has_two-false t a found found ok la)
                  (Listed-In t a found la) (Listed-In t b found lb);
          }
    ]
  ]
]
