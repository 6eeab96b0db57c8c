-- ===== src/Prelude/Members.antt =====
-- Members of lists of numbers, and lists of different numbers below a bound.
use mathlib.Core.List.{List, [], ◌∷◌, ◌++◌}
use mathlib.Core.Logic.{◌⊎◌, inl, inr}
use mathlib.Core.Path.{◌≡◌, refl, sym, ap, subst}
use native.Mathlib.Omega.{arith}
use Prim.Native.Nat.{ℕ, zero, suc, ◌≤◌, ◌<◌}
use mit.Prelude.Tests.{◌==◌, ==_iff, Bool-cases, if◌then◌else◌}
use mit.Prelude.Lists.{length}

abbrev pub In : ℕ → List ℕ → Type 0
In x [] = ⊥
In x (y ∷ ys) = (x ≡ y) ⊎ In x ys

-- Different numbers below `n`.
abbrev pub Distinct : ℕ → List ℕ → Type 0
Distinct n [] = Unit
Distinct n (x ∷ xs) = (x < n) × (¬ In x xs) × Distinct n xs

-- The list without the number `m`.
abbrev without : ℕ → List ℕ → List ℕ
without m [] = []
without m (x ∷ xs) = if x == m then without m xs else x ∷ without m xs

In-without : (m x : ℕ) (xs : List ℕ) → In x (without m xs) → In x xs
In-without m x [] h = h
In-without m x (y ∷ ys) h = elim (Bool-cases (y == m)) [
  | inl e ↦ inr (In-without m x ys (rw e at h))
  | inr e ↦ elim (rw e at h) [ inl same ↦ inl same | inr later ↦ inr (In-without m x ys later) ]
]

without-Distinct : (n : ℕ) (xs : List ℕ) → Distinct (suc n) xs → Distinct n (without n xs)
without-Distinct n [] v = tt
without-Distinct n (x ∷ xs) (lt, new, v) = elim (Bool-cases (x == n)) [
  | inl e ↦ rw e (without-Distinct n xs v)
  | inr e ↦ rw e (ground (arith, e), (λ i. new (In-without n x xs i)), without-Distinct n xs v)
]

-- it is there at most once
without-absent : (m : ℕ) (xs : List ℕ) → ¬ In m xs → length (without m xs) ≡ length xs
without-absent m [] h = refl
without-absent m (x ∷ xs) h = elim (Bool-cases (x == m)) [
  | inl e ↦ absurd (h (inl (sym ((==_iff x m).0 e))))
  | inr e ↦ rw e (ap suc (without-absent m xs (λ i. h (inr i))))
]

length-without :
    (n : ℕ) (xs : List ℕ) → Distinct (suc n) xs → length xs ≤ suc (length (without n xs))
length-without n [] v = omega arith
length-without n (x ∷ xs) (lt, new, v) = elim (Bool-cases (x == n)) [
  | inl e ↦
      let at : x ≡ n = (==_iff x n).0 e in
      rw e (omega (arith, without-absent n xs (λ i. new (subst (λ y. In y xs) (sym at) i))))
  | inr e ↦ rw e (omega (arith, length-without n xs v))
]

pub Distinct-length : (n : ℕ) (xs : List ℕ) → Distinct n xs → length xs ≤ n
Distinct-length zero [] v = omega arith
Distinct-length zero (x ∷ xs) (lt, new, v) = absurd (omega arith)
Distinct-length (suc n) xs v =
    omega (arith, length-without n xs v, Distinct-length n (without n xs) (without-Distinct n xs v))

pub In-append : (x : ℕ) (xs ys : List ℕ) → In x (xs ++ ys) → In x xs ⊎ In x ys
In-append x [] ys i = inr i
In-append x (y ∷ xs) ys (inl same) = inl (inl same)
In-append x (y ∷ xs) ys (inr later) = elim (In-append x xs ys later) [
  | inl i ↦ inl (inr i)
  | inr i ↦ inr i
]
