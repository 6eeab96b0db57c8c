-- ===== src/Labgob/Walks.antt =====
-- labgob/labgob.go: what the walk of `checkType` over types has checked when it ends.
use mathlib.Core.List.{◌++◌, append_assoc}
use mit.Prelude.{
  ℕ, zero, suc, ◌+◌, ◌≤◌, ◌<◌, ◌≡◌, inl, inr, refl, sym, ap, subst, ◌∙◌, Bool, true, false,
  Bool-cases, some, List, [], ◌∷◌, length-append, arith, length, ◌==◌, ==_iff, In, Distinct,
  Distinct-length, In-append,
}
use mit.Labgob.Types.{
  Field, Kind, structure, element, map_of, basic, Checks, is_checked, complain, Walk, check_fields,
  check_kind, check_type, field_types, parts, bad_field, bad_fields, bad,
}

is_checked-In : (t : ℕ) (us : List ℕ) → is_checked t us ≡ true → In t us
is_checked-In t [] h = cc
is_checked-In t (u ∷ us) h = elim (Bool-cases (t == u)) [
  | inl same ↦ inl ((==_iff t u).0 same)
  | inr other ↦ inr (is_checked-In t us (rw other at h))
]

not_checked : (t : ℕ) (us : List ℕ) → is_checked t us ≡ false → ¬ In t us
not_checked t [] h i = i
not_checked t (u ∷ us) h (inl same) = ground (arith, same)
not_checked t (u ∷ us) h (inr i) = not_checked t us (ground arith) i

In-append_right : (x : ℕ) (xs ys : List ℕ) → In x ys → In x (xs ++ ys)
In-append_right x [] ys i = i
In-append_right x (y ∷ xs) ys i = inr (In-append_right x xs ys i)

module _ (table : ℕ → Kind) where
  -- the complaints about the fields of the types in a list
  abbrev pub total_bad : List ℕ → ℕ
  total_bad [] = 0
  total_bad (t ∷ ts) = bad (table t) + total_bad ts

  total_bad-append : (a b : List ℕ) → total_bad (a ++ b) ≡ total_bad a + total_bad b
  total_bad-append [] b = omega arith
  total_bad-append (t ∷ a) b = omega (arith, total_bad-append a b)

  -- All parts of the types in a list have been checked.
  abbrev pub Closed : List ℕ → List ℕ → Type 0
  Closed ts checked = (t c : ℕ) → In t ts → In c (parts (table t)) → In c checked

  -- A walk has checked the new types `new` and all their parts, and has complained about them, and
  -- about `own` fields besides.
  pub record Walked (n own : ℕ) (s s' : Checks) : Type 0 where
    pub new : List ℕ
    pub checked : s'.checked ≡ new ++ s.checked
    pub errors : s'.error_count ≡ s.error_count + (own + total_bad new)
    pub closed : Closed new s'.checked
    pub distinct : Distinct n s'.checked

  pub still :
      {n own : ℕ} {s s' : Checks} → Walked n own s s' → (c : ℕ) → In c s.checked → In c s'.checked
  still {s = s} w c i = subst (In c) (sym w.checked) (In-append_right c w.new s.checked i)

  grown : {n own : ℕ} {s s' : Checks} → Walked n own s s' → length s.checked ≤ length s'.checked
  grown {s = s} w = omega (arith, ap length w.checked, length-append w.new s.checked)

  pub none_new : (n : ℕ) (s : Checks) → Distinct n s.checked → Walked n 0 s s
  none_new n s d = record {
    new = [];
    checked = refl;
    errors = omega arith;
    closed = λ t c i j. absurd i;
    distinct = d;
  }

  -- One walk after another.
  pub both :
      {n a b : ℕ} {s s' s'' : Checks} → Walked n a s s' → Walked n b s' s'' → Walked n (a + b) s s''
  both {s = s} w v = record {
    new = v.new ++ w.new;
    checked = v.checked ∙ ap (◌++◌ v.new) w.checked ∙ sym (append_assoc v.new w.new s.checked);
    errors = omega (arith, w.errors, v.errors, total_bad-append v.new w.new);
    closed = λ t c i j. elim (In-append t v.new w.new i) [
      | inl later ↦ v.closed t c later j
      | inr earlier ↦ still v c (w.closed t c earlier j)
    ];
    distinct = v.distinct;
  }

  complained :
      (n : ℕ) (b : Bool) (s : Checks)
      → Distinct n s.checked
      → Walked n (bad_field b) s (complain b s)
  complained n true s d = none_new n s d
  complained n false s d = record {
    new = [];
    checked = refl;
    errors = omega arith;
    closed = λ t c i j. absurd i;
    distinct = d;
  }

  -- What one call has done: it has ended, and checked the type.
  abbrev Works : ℕ → ℕ → Walk → Type 0
  Works n bound walk =
      (t : ℕ) (s : Checks)
      → t < n
      → Distinct n s.checked
      → n < bound + length s.checked
      → (s' : Checks) × (walk t s ≡ some s') × Walked n 0 s s' × In t s'.checked

  module _ (n bound : ℕ) (walk : Walk) (works : Works n bound walk) where
    check_fields-Works :
        (fields : List Field) (s : Checks)
        → ((c : ℕ) → In c (field_types fields) → c < n)
        → Distinct n s.checked
        → n < bound + length s.checked
        → (s' : Checks) × (check_fields walk fields s ≡ some s')
          × Walked n (bad_fields fields) s s'
          × ((c : ℕ) → In c (field_types fields) → In c s'.checked)
    unfolding check_fields
    check_fields-Works [] s lt d enough = (s, refl, none_new n s d, λ c i. absurd i)
    check_fields-Works (f ∷ fields) s lt d enough =
        let w0 = complained n f.is_upper s d in
        let (s1, e1, w1, i1) =
          works f.type_of (complain f.is_upper s) (lt f.type_of (inl refl)) w0.distinct
            (omega (arith, grown w0)) in
        let (s2, e2, w2, i2) =
          check_fields-Works fields s1 (λ c i. lt c (inr i)) w1.distinct
            (omega (arith, grown w0, grown w1)) in
        let w = both (both w0 w1) w2 in
        (
          s2,
          rw e1 e2,
          subst (λ a. Walked n a s s2) (omega arith) w,
          λ c i. elim i [
            | inl same ↦ subst (λ x. In x s2.checked) (sym same) (still w2 f.type_of i1)
            | inr later ↦ i2 c later
          ],
        )

    check_kind-Works :
        (k : Kind) (s : Checks)
        → ((c : ℕ) → In c (parts k) → c < n)
        → Distinct n s.checked
        → n < bound + length s.checked
        → (s' : Checks) × (check_kind walk k s ≡ some s')
          × Walked n (bad k) s s'
          × ((c : ℕ) → In c (parts k) → In c s'.checked)
    unfolding check_kind
    check_kind-Works (structure fields) s lt d enough = check_fields-Works fields s lt d enough
    check_kind-Works (element t) s lt d enough =
        let (s1, e, w, i1) = works t s (lt t (inl refl)) d enough in
        (
          s1,
          e,
          w,
          λ c i. elim i [
            | inl same ↦ subst (λ x. In x s1.checked) (sym same) i1
            | inr j ↦ absurd j
          ],
        )
    check_kind-Works (map_of key elem) s lt d enough =
        let (s1, e1, w1, i1) = works elem s (lt elem (inl refl)) d enough in
        let (s2, e2, w2, i2) =
          works key s1 (lt key (inr (inl refl))) w1.distinct (omega (arith, grown w1)) in
        (
          s2,
          rw e1 e2,
          both w1 w2,
          λ c i. elim i [
            | inl same ↦ subst (λ x. In x s2.checked) (sym same) (still w2 elem i1)
            | inr j ↦ elim j [
              | inl same ↦ subst (λ x. In x s2.checked) (sym same) i2
              | inr none' ↦ absurd none'
            ]
          ],
        )
    check_kind-Works basic s lt d enough = (s, refl, none_new n s d, λ c i. absurd i)

  -- The type itself, after the walk over its parts.
  with_type :
      {n : ℕ} {s s' : Checks} (t : ℕ)
      → Walked n (bad (table t)) (record s { checked = t ∷ s.checked }) s'
      → ((c : ℕ) → In c (parts (table t)) → In c s'.checked)
      → Walked n 0 s s'
  with_type {s = s} {s' = s'} t w all = record {
    new = w.new ++ (t ∷ []);
    checked = w.checked ∙ sym (append_assoc w.new (t ∷ []) s.checked);
    errors = omega (arith, w.errors, total_bad-append w.new (t ∷ []));
    closed = λ u c i j. elim (In-append u w.new (t ∷ []) i) [
      | inl later ↦ w.closed u c later j
      | inr here ↦ elim here [
        | inl same ↦ all c (subst (λ x. In c (parts (table x))) same j)
        | inr none' ↦ absurd none'
      ]
    ];
    distinct = w.distinct;
  }

  -- The types of the table are numbered below `n`.
  abbrev pub InRange : ℕ → Type 0
  InRange n = (t c : ℕ) → t < n → In c (parts (table t)) → c < n

  pub check_type-Works : (n : ℕ) → InRange n → (fuel : ℕ) → Works n fuel (check_type table fuel)
  unfolding check_type
  check_type-Works n range zero t s lt d enough =
      absurd (omega (arith, Distinct-length n s.checked d))
  check_type-Works n range (suc fuel) t s lt d enough = elim (Bool-cases (is_checked t s.checked)) [
    | inl old ↦ (s, rw (old, check_type) refl, none_new n s d, is_checked-In t s.checked old)
    | inr new ↦
        let s0 : Checks = record s { checked = t ∷ s.checked } in
        let (s', e, w, all) =
          check_kind-Works n fuel (check_type table fuel) (check_type-Works n range fuel) (table t)
            s0 (λ c i. range t c lt i) (lt, not_checked t s.checked new, d) (omega arith) in
        (s', rw (new, check_type) e, with_type t w all, still w t (inl refl))
  ]

-- The types that a type refers to, directly or not.
