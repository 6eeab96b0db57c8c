-- ===== src/Labgob/Default.antt =====
-- labgob/labgob.go, `checkDefault`: the warning about a variable that a value is decoded into. Values
-- are trees, since nothing is looked at behind the third level.
use Prim.Native.Nat.{min}
use Prim.Native.String.{String, ◌++◌}
use text.Mathlib.Text.{◌==◌ as same_text}
use mit.Prelude.{
  ℕ, zero, suc, ◌+◌, ◌-◌, ◌≡◌, refl, Bool, true, false, List, ◌∷◌, arith, length, ltb,
  if◌then◌else◌,
}

-- A struct, a pointer, a value of one of the basic kinds with the name of its type and whether it is
-- the zero value of that type, or a value of another kind.
mutual
  pub data GoValue : Type 0 where
    structure : Fields → GoValue
    nil_pointer : GoValue
    pointer : GoValue → GoValue
    plain : String → Bool → GoValue
    opaque : GoValue

  pub data Fields : Type 0 where
    no_fields : Fields
    field : String → GoValue → Fields → Fields

-- The counter of complaints, and what was printed, the last warning first.
pub record Warnings : Type 0 where
  pub error_count : ℕ
  pub printed : List String

abbrev pub or_type_name : String → String → String
or_type_name name type_name = if same_text name "" then type_name else name

abbrev pub field_name : String → String → String
field_name name name1 = if same_text name "" then name1 else name ++ ("." ++ name1)

-- A basic value: counted if it is not the default, and printed if it is the first complaint of all.
abbrev pub warn : String → String → Bool → Warnings → Warnings
warn name type_name true s = s
warn name type_name false s = record {
  error_count = s.error_count + 1;
  printed = if ltb s.error_count 1 then or_type_name name type_name ∷ s.printed else s.printed;
}

unfoldable mutual
  pub check_default1 : GoValue → ℕ → String → Warnings → Warnings
  check_default1 (structure inner) depth name s =
      if ltb 3 depth then s else check_default_fields inner (depth + 1) name s
  check_default1 nil_pointer depth name s = s
  check_default1 (pointer v) depth name s =
      if ltb 3 depth then s else check_default1 v (depth + 1) name s
  check_default1 (plain type_name is_default) depth name s =
      if ltb 3 depth then s else warn name type_name is_default s
  check_default1 opaque depth name s = s

  pub check_default_fields : Fields → ℕ → String → Warnings → Warnings
  check_default_fields no_fields depth name s = s
  check_default_fields (field name1 v inner) depth name s =
      check_default_fields inner depth name (check_default1 v depth (field_name name name1) s)

-- `checkDefault` of a value that is not nil.
abbrev pub check_default : GoValue → Warnings → Warnings
check_default v s = check_default1 v 1 "" s

-- How many basic values that are not the default stand within so many levels.
unfoldable mutual
  pub non_default : GoValue → ℕ → ℕ
  non_default v zero = 0
  non_default (structure inner) (suc levels) = non_default_fields inner levels
  non_default nil_pointer (suc levels) = 0
  non_default (pointer v) (suc levels) = non_default v levels
  non_default (plain type_name true) (suc levels) = 0
  non_default (plain type_name false) (suc levels) = 1
  non_default opaque (suc levels) = 0

  pub non_default_fields : Fields → ℕ → ℕ
  non_default_fields no_fields levels = 0
  non_default_fields (field name1 v inner) levels =
      non_default v levels + non_default_fields inner levels

-- What a check adds: `n` complaints, and a warning only for the very first complaint.
abbrev pub Adds : ℕ → Warnings → Warnings → Type 0
Adds n s s' =
    (s'.error_count ≡ s.error_count + n)
    × (length s'.printed ≡ length s.printed + min n (1 - s.error_count))

Adds-nothing : (s : Warnings) → Adds 0 s s
Adds-nothing s = (omega arith, omega arith)

Adds-both : (a b : ℕ) (s s' s'' : Warnings) → Adds a s s' → Adds b s' s'' → Adds (a + b) s s''
Adds-both a b s s' s'' (e, p) (e', p') = (omega (arith, e, e'), omega (arith, e, e', p, p'))

warn-Adds : (name type_name : String) (s : Warnings) → Adds 1 s (warn name type_name false s)
warn-Adds name type_name s = (omega arith, ground arith)

mutual
  unfolding check_default1 non_default

  check_default1-Adds :
      (v : GoValue) (levels depth : ℕ) (name : String) (s : Warnings)
      → depth + levels ≡ 4
      → Adds (non_default v levels) s (check_default1 v depth name s)
  check_default1-Adds (structure inner) zero depth name s e =
      let h : ltb 3 depth ≡ true = ground arith in rw h (Adds-nothing s)
  check_default1-Adds (structure inner) (suc levels) depth name s e =
      let h : ltb 3 depth ≡ false = ground arith in
      rw h (check_default_fields-Adds inner levels (depth + 1) name s (omega arith))
  check_default1-Adds nil_pointer zero depth name s e = Adds-nothing s
  check_default1-Adds nil_pointer (suc levels) depth name s e = Adds-nothing s
  check_default1-Adds (pointer v) zero depth name s e =
      let h : ltb 3 depth ≡ true = ground arith in rw h (Adds-nothing s)
  check_default1-Adds (pointer v) (suc levels) depth name s e =
      let h : ltb 3 depth ≡ false = ground arith in
      rw h (check_default1-Adds v levels (depth + 1) name s (omega arith))
  check_default1-Adds (plain t b) zero depth name s e =
      let h : ltb 3 depth ≡ true = ground arith in rw h (Adds-nothing s)
  check_default1-Adds (plain t true) (suc levels) depth name s e =
      let h : ltb 3 depth ≡ false = ground arith in rw h (Adds-nothing s)
  check_default1-Adds (plain t false) (suc levels) depth name s e =
      let h : ltb 3 depth ≡ false = ground arith in rw h (warn-Adds name t s)
  check_default1-Adds opaque zero depth name s e = Adds-nothing s
  check_default1-Adds opaque (suc levels) depth name s e = Adds-nothing s

  check_default_fields-Adds :
      (inner : Fields) (levels depth : ℕ) (name : String) (s : Warnings)
      → depth + levels ≡ 4
      → Adds (non_default_fields inner levels) s (check_default_fields inner depth name s)
  check_default_fields-Adds no_fields levels depth name s e = Adds-nothing s
  check_default_fields-Adds (field name1 v inner) levels depth name s e =
      Adds-both _ _ _ _ _ (check_default1-Adds v levels depth (field_name name name1) s e) (
        check_default_fields-Adds inner levels depth name
          (check_default1 v depth (field_name name name1) s) e)

-- The check of a value adds one to the counter for each basic value that is not the default and stands
-- within three levels, and prints a warning only for the very first complaint of all.
pub check_default-Adds : (v : GoValue) (s : Warnings) → Adds (non_default v 3) s (check_default v s)
check_default-Adds v s = check_default1-Adds v 3 1 "" s refl
