-- ===== src/Labgob/Types.antt =====
-- labgob/labgob.go, `checkType`: the walk over the types that a type refers to.
-- A type is its number in a table. Types can refer to themselves through pointers, slices and maps,
-- so that the table is a graph.
use mit.Prelude.{
  ℕ, zero, suc, ◌+◌, Bool, true, false, Option, none, some, List, [], ◌∷◌, ◌==◌, ◌||◌, ◌>>=◌,
}

-- A field of a struct: does its name begin with an upper-case letter, and its type.
pub record Field : Type 0 where
  pub is_upper : Bool
  pub type_of : ℕ

-- `reflect.Kind`, as far as `checkType` tells kinds apart: a slice, an array or a pointer has an
-- element.
pub data Kind : Type 0 where
  structure : List Field → Kind
  element : ℕ → Kind
  map_of : (key elem : ℕ) → Kind
  basic : Kind

-- The global variables: the types that were checked, and the number of complaints.
pub record Checks : Type 0 where
  pub checked : List ℕ
  pub error_count : ℕ

abbrev pub is_checked : ℕ → List ℕ → Bool
is_checked t [] = false
is_checked t (u ∷ us) = (t == u) || is_checked t us

abbrev pub complain : Bool → Checks → Checks
complain true s = s
complain false s = record s { error_count = s.error_count + 1 }

-- The recursive calls go through an argument.
abbrev pub Walk : Type 0
Walk = ℕ → Checks → Option Checks

-- The loop over the fields of a struct.
unfoldable pub check_fields : Walk → List Field → Checks → Option Checks
check_fields walk [] s = some s
check_fields walk (f ∷ fields) s = do
  s' ← walk f.type_of (complain f.is_upper s)
  check_fields walk fields s'

-- The `switch` on the kind.
unfoldable pub check_kind : Walk → Kind → Checks → Option Checks
check_kind walk (structure fields) s = check_fields walk fields s
check_kind walk (element t) s = walk t s
check_kind walk (map_of key elem) s = do s' ← walk elem s; walk key s'
check_kind walk basic s = some s

-- `none` only where the fuel runs out.
unfoldable pub check_type : (ℕ → Kind) → ℕ → ℕ → Checks → Option Checks
check_type table zero t s = none
check_type table (suc fuel) t s = elim (is_checked t s.checked) [
  | true ↦ some s
  | false ↦ check_kind (check_type table fuel) (table t) (record s { checked = t ∷ s.checked })
]

-- Before the first call: the map is nil, which reads as empty.
abbrev pub no_checks : Checks
no_checks = record { checked = []; error_count = 0 }

-- Calls of `checkValue` for values of these types.
unfoldable pub check_types : (ℕ → Kind) → ℕ → List ℕ → Checks → Option Checks
check_types table fuel [] s = some s
check_types table fuel (t ∷ ts) s = do s' ← check_type table fuel t s; check_types table fuel ts s'

-- The types that a type refers to, and how many fields of it are complained about.
abbrev pub field_types : List Field → List ℕ
field_types [] = []
field_types (f ∷ fields) = f.type_of ∷ field_types fields

abbrev pub parts : Kind → List ℕ
parts (structure fields) = field_types fields
parts (element t) = t ∷ []
parts (map_of key elem) = elem ∷ key ∷ []
parts basic = []

abbrev pub bad_field : Bool → ℕ
bad_field true = 0
bad_field false = 1

abbrev pub bad_fields : List Field → ℕ
bad_fields [] = 0
bad_fields (f ∷ fields) = bad_field f.is_upper + bad_fields fields

abbrev pub bad : Kind → ℕ
bad (structure fields) = bad_fields fields
bad _ = 0
