-- ===== src/KvRaft/Config/Servers.antt =====
-- kvraft/config.go: the lists of servers that `All` and `make_partition` make.
use mit.Prelude.{
  ℕ, zero, suc, ◌+◌, ◌≤◌, ◌<◌, ◌≡◌, ◌≢◌, ◌⊎◌, inl, inr, refl, sym, ap, subst, ◌∙◌, Bool-cases, List,
  [], ◌∷◌, ◌++◌, nat_key, ==_iff, ◌==◌, arith, length, In, In-append, Distinct, dec_lt,
}
use mit.KvRaft.Config.{count_up}
use mit.KvRaft.Config.Filling.{others, others_next, others_skip}

-- Which servers there are.
pub count_up-In : (x i left : ℕ) → i ≤ x → x < i + left → In x (count_up i left)
unfolding count_up
count_up-In x i zero le lt = absurd (omega arith)
count_up-In x i (suc left) le lt = elim (dec_lt i x) [
  | yes later ↦ inr (count_up-In x (i + 1) left (omega arith) (omega arith))
  | no here ↦ inl (omega arith)
]

pub In-count_up : (x i left : ℕ) → In x (count_up i left) → (i ≤ x) × (x < i + left)
unfolding count_up
In-count_up x i zero h = absurd h
In-count_up x i (suc left) (inl same) = (omega arith, omega arith)
In-count_up x i (suc left) (inr later) =
    let (le, lt) = In-count_up x (i + 1) left later in (omega arith, omega arith)

pub count_up-Distinct : (n i left : ℕ) → i + left ≤ n → Distinct n (count_up i left)
unfolding count_up
count_up-Distinct n i zero le = tt
count_up-Distinct n i (suc left) le = (
  omega arith,
  (λ h. omega (arith, In-count_up i (i + 1) left h)),
  count_up-Distinct n (i + 1) left (omega arith),
)

pub In-others : (l x : ℕ) (is : List ℕ) → In x (others l is) → In x is × (x ≢ l)
In-others l x [] h = unfold others in absurd h
In-others l x (i ∷ is) h = elim (Bool-cases (i == l)) [
  | inl same ↦
      let (k, ne) = In-others l x is (subst (In x) (others_skip l i is same) h) in (inr k, ne)
  | inr other ↦ elim (subst (In x) (others_next l i is other) h) [
    | inl at ↦ (inl at, λ e. cc ((==_iff i l).1 (sym at ∙ e), other))
    | inr later ↦ let (k, ne) = In-others l x is later in (inr k, ne)
  ]
]

pub others-In : (l x : ℕ) (is : List ℕ) → In x is → x ≢ l → In x (others l is)
others-In l x [] h ne = absurd h
others-In l x (i ∷ is) h ne = elim (Bool-cases (i == l)) [
  | inl same ↦ subst (In x) (sym (others_skip l i is same)) (elim h [
    | inl at ↦ absurd (ne (at ∙ (==_iff i l).0 same))
    | inr later ↦ others-In l x is later ne
  ])
  | inr other ↦
      subst (In x) (sym (others_next l i is other))
        (elim h [ inl at ↦ inl at | inr later ↦ inr (others-In l x is later ne) ])
]

pub others-Distinct : (n l : ℕ) (is : List ℕ) → Distinct n is → Distinct n (others l is)
others-Distinct n l [] d = unfold others in tt
others-Distinct n l (i ∷ is) (lt, new, d) = elim (Bool-cases (i == l)) [
  | inl same ↦ subst (Distinct n) (sym (others_skip l i is same)) (others-Distinct n l is d)
  | inr other ↦
      subst (Distinct n) (sym (others_next l i is other))
        (lt, (λ h. new (In-others l i is h).0), others-Distinct n l is d)
]

length-others_absent : (l : ℕ) (is : List ℕ) → ¬ In l is → length (others l is) ≡ length is
length-others_absent l [] h = unfold others in refl
length-others_absent l (i ∷ is) h = elim (Bool-cases (i == l)) [
  | inl same ↦ absurd (h (inl (sym ((==_iff i l).0 same))))
  | inr other ↦
      ap length (others_next l i is other) ∙ ap suc (length-others_absent l is (λ k. h (inr k)))
]

pub length-others :
    (n l : ℕ) (is : List ℕ) → Distinct n is → In l is → suc (length (others l is)) ≡ length is
length-others n l [] d h = absurd h
length-others n l (i ∷ is) (lt, new, d) h = elim (Bool-cases (i == l)) [
  | inl same ↦ ap suc (
      ap length (others_skip l i is same)
      ∙ length-others_absent l is (λ k. new (subst (λ x. In x is) (sym ((==_iff i l).0 same)) k)))
  | inr other ↦ elim h [
    | inl at ↦ absurd (cc ((==_iff i l).1 (sym at), other))
    | inr later ↦ ap suc (ap length (others_next l i is other) ∙ length-others n l is d later)
  ]
]

pub length-count_up : (i left : ℕ) → length (count_up i left) ≡ left
unfolding count_up
length-count_up i zero = refl
length-count_up i (suc left) = ap suc (length-count_up (i + 1) left)

pub append-In : (x : ℕ) (xs ys : List ℕ) → In x xs ⊎ In x ys → In x (xs ++ ys)
append-In x [] ys (inl i) = absurd i
append-In x [] ys (inr i) = i
append-In x (y ∷ xs) ys (inl (inl same)) = inl same
append-In x (y ∷ xs) ys (inl (inr i)) = inr (append-In x xs ys (inl i))
append-In x (y ∷ xs) ys (inr i) = inr (append-In x xs ys (inr i))

pub append-Distinct :
    (n l : ℕ) (xs : List ℕ) → Distinct n xs → l < n → ¬ In l xs → Distinct n (xs ++ (l ∷ []))
append-Distinct n l [] d lt new = (lt, (λ i. i), tt)
append-Distinct n l (x ∷ xs) (ltx, newx, d) lt new = (
  ltx,
  (λ i. elim (In-append x xs (l ∷ []) i) [
    | inl k ↦ newx k
    | inr k ↦ elim k [ inl e ↦ new (inl (sym e)) | inr k ↦ k ]
  ]),
  append-Distinct n l xs d lt (λ i. new (inr i)),
)

pub Distinct-parts :
    (n : ℕ) (xs ys : List ℕ)
    → Distinct n (xs ++ ys)
    → Distinct n xs × Distinct n ys × ((x : ℕ) → In x xs → In x ys → ⊥)
Distinct-parts n [] ys d = (tt, d, λ x i j. i)
Distinct-parts n (x ∷ xs) ys (lt, new, d) =
    let (d1, d2, apart) = Distinct-parts n xs ys d in
    (
      (lt, (λ i. new (append-In x xs ys (inl i))), d1),
      d2,
      λ y i j. elim i [
        | inl same ↦ new (append-In x xs ys (inr (subst (λ z. In z ys) same j)))
        | inr later ↦ apart y later j
      ],
    )
