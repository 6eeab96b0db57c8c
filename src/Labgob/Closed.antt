-- ===== src/Labgob/Closed.antt =====
-- labgob/labgob.go, `checkType`: it ends, checks everything that the type refers to, and complains once
-- about each lower-case field.
use mathlib.Core.List.{append-nil}
use mit.Prelude.{
  ℕ, ◌<◌, ◌≡◌, inl, inr, refl, sym, ap, subst, ◌∙◌, some, List, [], ◌∷◌, arith, In, Distinct,
}
use mit.Labgob.Types.{Kind, Checks, check_types, no_checks, parts}
use mit.Labgob.Walks.{total_bad, Closed, Walked, still, none_new, both, InRange, check_type-Works}

pub data Reaches (table : ℕ → Kind) (t : ℕ) : ℕ → Type 0 where
  itself : Reaches table t t
  part : {u c : ℕ} → Reaches table t u → In c (parts (table u)) → Reaches table t c

reached :
    (table : ℕ → Kind) (ts : List ℕ) {t u : ℕ}
    → Closed table ts ts
    → In t ts
    → Reaches table t u
    → In u ts
reached table ts closed i itself = i
reached table ts closed i (part {u = u} {c = c} r j) = closed u c (reached table ts closed i r) j

check_types-Works :
    (table : ℕ → Kind) (n fuel : ℕ) (roots : List ℕ) (s : Checks)
    → InRange table n
    → ((t : ℕ) → In t roots → t < n)
    → Distinct n s.checked
    → n < fuel
    → (s' : Checks) × (check_types table fuel roots s ≡ some s')
      × Walked table n 0 s s'
      × ((t : ℕ) → In t roots → In t s'.checked)
unfolding check_types
check_types-Works table n fuel [] s range lt d enough =
    (s, refl, none_new table n s d, λ t i. absurd i)
check_types-Works table n fuel (t ∷ roots) s range lt d enough =
    let (s1, e1, w1, i1) =
      check_type-Works table n range fuel t s (lt t (inl refl)) d (omega arith) in
    let (s2, e2, w2, i2) =
      check_types-Works table n fuel roots s1 range (λ u i. lt u (inr i)) w1.distinct enough in
    (
      s2,
      rw e1 e2,
      both table w1 w2,
      λ u i. elim i [
        | inl same ↦ subst (λ x. In x s2.checked) (sym same) (still table w2 t i1)
        | inr later ↦ i2 u later
      ],
    )

-- From the start of the program on, any calls of `checkValue` end, with fuel above the number of
-- types, also where types refer to themselves. Then every type that one of them refers to, directly
-- or not, has been checked, no type twice; and the number of complaints is the number of lower-case
-- fields of the checked types, each counted once.
pub complains_once :
    (table : ℕ → Kind) (n fuel : ℕ) (roots : List ℕ)
    → InRange table n
    → ((t : ℕ) → In t roots → t < n)
    → n < fuel
    → (s : Checks) × (check_types table fuel roots no_checks ≡ some s)
      × Distinct n s.checked
      × ((t u : ℕ) → In t roots → Reaches table t u → In u s.checked)
      × (s.error_count ≡ total_bad table s.checked)
complains_once table n fuel roots range lt enough =
    let (s, e, w, all) = check_types-Works table n fuel roots no_checks range lt tt enough in
    let whole : s.checked ≡ w.new = w.checked ∙ append-nil w.new in
    (
      s,
      e,
      w.distinct,
      λ t u i r.
          reached table s.checked (subst (λ l. Closed table l s.checked) (sym whole) w.closed)
            (all t i) r,
      omega (arith, w.errors, ap (total_bad table) whole),
    )
