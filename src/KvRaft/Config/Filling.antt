-- ===== src/KvRaft/Config/Filling.antt =====
-- kvraft/config.go: the loop of `make_partition`, on both parts put together.
use mit.Prelude.{
  ℕ, zero, suc, ◌+◌, ◌-◌, ◌≤◌, ◌<◌, ◌≡◌, inl, inr, refl, sym, ap, ap₂, ◌∙◌, true, false, Bool-cases,
  some, List, [], ◌∷◌, ◌++◌, nat_key, ◌==◌, arith, ltb, length, length-append, set, length-set,
  dec_lt,
}
use mathlib.Core.List.{append_assoc, append-nil}
use mit.KvRaft.Config.{fill_parts, zeros}

-- The servers without `l`.
unfoldable pub others : ℕ → List ℕ → List ℕ
others l [] = []
others l (i ∷ is) = elim (i == l) [ true ↦ others l is | false ↦ i ∷ others l is ]

pub others_next : (l i : ℕ) (is : List ℕ) → (i == l) ≡ false → others l (i ∷ is) ≡ i ∷ others l is
unfolding others
others_next l i is other = rw (others, other) refl

pub others_skip : (l i : ℕ) (is : List ℕ) → (i == l) ≡ true → others l (i ∷ is) ≡ others l is
unfolding others
others_skip l i is same = rw (others, same) refl

set_left : (xs ys : List ℕ) (j v : ℕ) → j < length xs → set (xs ++ ys) j v ≡ set xs j v ++ ys
set_left [] ys j v lt = absurd (omega arith)
set_left (x ∷ xs) ys zero v lt = refl
set_left (x ∷ xs) ys (suc j) v lt = ap (◌∷◌ x) (set_left xs ys j v (omega arith))

pub set_right :
    (xs ys : List ℕ) (j v : ℕ) → length xs ≤ j → set (xs ++ ys) j v ≡ xs ++ set ys (j - length xs) v
set_right [] ys j v le = ap (λ k. set ys k v) (omega arith)
set_right (x ∷ xs) ys zero v le = absurd (omega arith)
set_right (x ∷ xs) ys (suc j) v le =
    ap (◌∷◌ x) (set_right xs ys j v (omega arith) ∙ ap (λ k. xs ++ set ys k v) (omega arith))

pub set_next :
    (d rest : List ℕ) (x v : ℕ) → set (d ++ (x ∷ rest)) (length d) v ≡ (d ++ (v ∷ [])) ++ rest
set_next [] rest x v = refl
set_next (y ∷ d) rest x v = ap (◌∷◌ y) (set_next d rest x v)

pub length-zeros : (n : ℕ) → length (zeros n) ≡ n
length-zeros zero = refl
length-zeros (suc n) = omega (arith, length-zeros n)

-- Where the loop ends, and what both parts are together.
pub record Filled (l : ℕ) (is d p1 p2 : List ℕ) (r : ℕ) : Type 0 where
  pub q1 : List ℕ
  pub q2 : List ℕ
  pub ends : fill_parts l is (length d, p1, p2) ≡ some (q1, q2)
  pub size1 : length q1 ≡ length p1
  pub size2 : length q2 ≡ length p2
  pub both : q1 ++ q2 ≡ (d ++ others l is) ++ zeros (r - length (others l is))

one_more :
    (l i : ℕ) (is d p1 p2 q1 q2 : List ℕ) (r : ℕ)
    → (i == l) ≡ false
    → length q1 ≡ length p1
    → length q2 ≡ length p2
    → fill_parts l (i ∷ is) (length d, p1, p2) ≡ fill_parts l is (length d + 1, q1, q2)
    → Filled l is (d ++ (i ∷ [])) q1 q2 r
    → Filled l (i ∷ is) d p1 p2 (suc r)
one_more l i is d p1 p2 q1 q2 r other s1 s2 step f = record {
  q1 = f.q1;
  q2 = f.q2;
  ends =
      step
      ∙ ap (λ k. fill_parts l is (k, q1, q2)) (omega (arith, length-append d (i ∷ [])))
      ∙ f.ends;
  size1 = f.size1 ∙ s1;
  size2 = f.size2 ∙ s2;
  both =
      f.both
      ∙ rw (others_next l i is other) (
          ap (λ x. x ++ zeros (r - length (others l is))) (append_assoc d (i ∷ []) (others l is))
          ∙ ap (λ k. (d ++ (i ∷ others l is)) ++ zeros k) (omega arith));
}

none_more :
    (l i : ℕ) (is d p1 p2 : List ℕ) (r : ℕ)
    → (i == l) ≡ true
    → Filled l is d p1 p2 r
    → Filled l (i ∷ is) d p1 p2 r
unfolding fill_parts
none_more l i is d p1 p2 r same f = record {
  q1 = f.q1;
  q2 = f.q2;
  ends = rw (fill_parts, same) f.ends;
  size1 = f.size1;
  size2 = f.size2;
  both = rw (others_skip l i is same) f.both;
}

pub fill_parts-Filled :
    (l : ℕ) (is d p1 p2 : List ℕ) (r : ℕ)
    → p1 ++ p2 ≡ d ++ zeros r
    → length (others l is) ≤ r
    → Filled l is d p1 p2 r
unfolding fill_parts others
fill_parts-Filled l [] d p1 p2 r e enough = record {
  q1 = p1;
  q2 = p2;
  ends = refl;
  size1 = refl;
  size2 = refl;
  both = e ∙ ap₂ (λ x k. x ++ zeros k) (sym (append-nil d)) (omega arith);
}
fill_parts-Filled l (i ∷ is) d p1 p2 zero e enough = elim (Bool-cases (i == l)) [
  | inl same ↦
      none_more l i is d p1 p2 zero same
        (fill_parts-Filled l is d p1 p2 zero e (omega (arith, ap length (others_skip l i is same))))
  | inr other ↦ absurd (omega (arith, ap length (others_next l i is other)))
]
fill_parts-Filled l (i ∷ is) d p1 p2 (suc r) e enough = elim (Bool-cases (i == l)) [
  | inl same ↦ none_more l i is d p1 p2 (suc r) same (
      fill_parts-Filled l is d p1 p2 (suc r) e (omega (arith, ap length (others_skip l i is same))))
  | inr other ↦
      let few : length (others l is) ≤ r = omega (arith, ap length (others_next l i is other)) in
      let total : length p1 + length p2 ≡ length d + suc r =
        sym (length-append p1 p2)
        ∙ ap length e
        ∙ length-append d (zeros (suc r))
        ∙ ap (λ k. length d + k) (length-zeros (suc r)) in
      let moved : set (p1 ++ p2) (length d) i ≡ (d ++ (i ∷ [])) ++ zeros r =
        ap (λ x. set x (length d) i) e ∙ set_next d (zeros r) 0 i in
      elim (dec_lt (length d) (length p1)) [
        | yes left ↦
            let lt : ltb (length d) (length p1) ≡ true = ground arith in
            one_more l i is d p1 p2 (set p1 (length d) i) p2 r other (length-set p1 (length d) i)
              refl (rw (fill_parts, other, lt) refl)
              (fill_parts-Filled l is (d ++ (i ∷ [])) (set p1 (length d) i) p2 r
                (sym (set_left p1 p2 (length d) i left) ∙ moved) few)
        | no right ↦
            let ge : ltb (length d) (length p1) ≡ false = ground arith in
            let lt : ltb (length d - length p1) (length p2) ≡ true = ground (arith, total) in
            one_more l i is d p1 p2 p1 (set p2 (length d - length p1) i) r other refl
              (length-set p2 (length d - length p1) i) (rw (fill_parts, other, ge, lt) refl)
              (fill_parts-Filled l is (d ++ (i ∷ [])) p1 (set p2 (length d - length p1) i) r
                (sym (set_right p1 p2 (length d) i (omega arith)) ∙ moved) few)
      ]
]
