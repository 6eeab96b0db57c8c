-- ===== src/Raft/Group/Quorum.antt =====
-- Two majorities of the same peers have a peer in common.
use mathlib.Core.List.{◌++◌}
use mit.Prelude.{
  ℕ, ◌+◌, ◌<◌, ◌==◌, ==_iff, refl, ◌⊎◌, inl, inr, Bool-cases, List, [], ◌∷◌, arith, length,
  length-append, subst, In, Distinct, Distinct-length, In-append,
}

-- Different numbers below `n`.
abbrev pub Voters : ℕ → List ℕ → Type 0
Voters n xs = Distinct n xs

In-decided : (x : ℕ) (ys : List ℕ) → In x ys ⊎ (¬ In x ys)
In-decided x [] = inr (λ i. i)
In-decided x (y ∷ ys) = elim (Bool-cases (x == y)) [
  | inl e ↦ inl (inl ((==_iff x y).0 e))
  | inr e ↦ elim (In-decided x ys) [
    | inl i ↦ inl (inr i)
    | inr n ↦ inr (λ i. elim i [ inl same ↦ ground (arith, e, same) | inr later ↦ n later ])
  ]
]

common : (xs ys : List ℕ) → ((x : ℕ) × In x xs × In x ys) ⊎ ((x : ℕ) → In x xs → ¬ In x ys)
common [] ys = inr (λ x i. absurd i)
common (x ∷ xs) ys = elim (In-decided x ys) [
  | inl i ↦ inl (x, inl refl, i)
  | inr n ↦ elim (common xs ys) [
    | inl (y, i, j) ↦ inl (y, inr i, j)
    | inr none' ↦ inr (λ y i. elim i [
      | inl same ↦ λ j. n (subst (λ z. In z ys) same j)
      | inr later ↦ none' y later
    ])
  ]
]

append-Voters :
    (n : ℕ) (xs ys : List ℕ)
    → Voters n xs
    → Voters n ys
    → ((x : ℕ) → In x xs → ¬ In x ys)
    → Voters n (xs ++ ys)
append-Voters n [] ys v w apart = w
append-Voters n (x ∷ xs) ys (lt, new, v) w apart = (
  lt,
  λ i. elim (In-append x xs ys i) [ inl a ↦ new a | inr b ↦ apart x (inl refl) b ],
  append-Voters n xs ys v w (λ y i. apart y (inr i)),
)

pub majorities_meet :
    (n : ℕ) (xs ys : List ℕ)
    → Voters n xs
    → Voters n ys
    → n < length xs + length ys
    → (x : ℕ) × In x xs × In x ys
majorities_meet n xs ys v w more = elim (common xs ys) [
  | inl shared ↦ shared
  | inr apart ↦ absurd (
      omega (
        arith,
        length-append xs ys,
        Distinct-length n (xs ++ ys) (append-Voters n xs ys v w apart),
        more,
      ))
]
