-- ===== src/Labgob/Tests.antt =====
-- Tests of labgob/labgob.go.
use mit.Prelude.{
  ℕ, zero, suc, ◌<◌, ◌≡◌, refl, inl, inr, true, false, some, [], ◌∷◌, arith, In, Distinct,
}
use mit.Labgob.Types.{
  Kind, structure, element, map_of, basic, Checks, no_checks, check_fields, check_kind, check_type,
  check_types,
}
use mit.Labgob.Walks.{InRange, total_bad}
use mit.Labgob.Closed.{Reaches, complains_once}
use mit.Labgob.Default.{
  GoValue, field, no_fields, plain, pointer, Warnings, check_default1, check_default,
}
use mit.Labgob.Default as Default

-- 0: a struct with a number and a pointer to the struct itself, in a field with a lower-case name;
-- 1: the pointer; 2: numbers; 3: a map from numbers to the struct.
abbrev table : ℕ → Kind
table zero =
    structure
      (record { is_upper = true; type_of = 2 } ∷ record { is_upper = false; type_of = 1 } ∷ [])
table (suc zero) = element 0
table (suc (suc zero)) = basic
table (suc (suc (suc n))) = map_of 2 0

checked_test :
    check_types table 5 (3 ∷ 0 ∷ []) no_checks
    ≡ some (record { checked = 1 ∷ 2 ∷ 0 ∷ 3 ∷ []; error_count = 1 })
unfolding check_types check_type check_kind check_fields
checked_test = refl

table-InRange : InRange table 4
table-InRange zero c lt i = elim i [
  | inl e ↦ omega arith
  | inr i ↦ elim i [ inl e ↦ omega arith | inr i ↦ absurd i ]
]
table-InRange (suc zero) c lt i = elim i [ inl e ↦ omega arith | inr i ↦ absurd i ]
table-InRange (suc (suc zero)) c lt i = absurd i
table-InRange (suc (suc (suc n))) c lt i = elim i [
  | inl e ↦ omega arith
  | inr i ↦ elim i [ inl e ↦ omega arith | inr i ↦ absurd i ]
]

roots-InRange : (t : ℕ) → In t (3 ∷ 0 ∷ []) → t < 4
roots-InRange t i = elim i [
  | inl e ↦ omega arith
  | inr i ↦ elim i [ inl e ↦ omega arith | inr i ↦ absurd i ]
]

complains_once_example :
    (s : Checks) × (check_types table 5 (3 ∷ 0 ∷ []) no_checks ≡ some s)
    × Distinct 4 s.checked
    × ((t u : ℕ) → In t (3 ∷ 0 ∷ []) → Reaches table t u → In u s.checked)
    × (s.error_count ≡ total_bad table s.checked)
complains_once_example =
    complains_once table 4 5 (3 ∷ 0 ∷ []) table-InRange roots-InRange (omega arith)

-- A reply struct that was used before, with a field at the fourth level.
abbrev reply : GoValue
reply = Default.structure (
    field "Term" (plain "int" false) (
      field "Deep"
        (Default.structure
          (field "A" (pointer (plain "int" false)) (field "B" (plain "int" false) no_fields)))
        no_fields))

warned_test :
    check_default reply (record { error_count = 0; printed = [] })
    ≡ record { error_count = 2; printed = "Term" ∷ [] }
unfolding check_default1
warned_test = refl
