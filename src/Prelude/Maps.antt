-- ===== src/Prelude/Maps.antt =====
-- Go's maps: a map is the function of its look-ups. The programs never depend on the order in which a
-- map is walked.
use mathlib.Core.Bool.{Bool, true}
use mathlib.Core.Logic.{◌↔◌}
use mathlib.Core.Option.{Option, none, some}
use mathlib.Core.Path.{◌≡◌}
use Prim.Native.Nat.{ℕ}
use Prim.Native.String.{String}
use text.Mathlib.Text.{◌==◌ as str_eq}
use text.Mathlib.TextEquality.{eq_iff}
use mit.Prelude.Tests.{◌==◌, ==_iff, if◌then◌else◌}

-- Keys with a test for equality.
pub record Key {ℓ} (K : Type ℓ) : Type ℓ where
  pub same : K → K → Bool
  pub same_iff : (a b : K) → (same a b ≡ true) ↔ (a ≡ b)

instance abbrev pub nat_key : Key ℕ
nat_key = record { same = ◌==◌; same_iff = ==_iff }

instance abbrev pub string_key : Key String
string_key = record { same = str_eq; same_iff = eq_iff }

abbrev pub Map {ℓ} : Type ℓ → Type ℓ → Type ℓ
Map K V = K → Option V

module _ {ℓ} {K V : Type ℓ} where
  abbrev pub empty_map : Map K V
  empty_map k = none

  -- `m[k] = v`
  abbrev pub insert : ⦃e : Key K⦄ → K → V → Map K V → Map K V
  insert ⦃e⦄ k v m j = if e.same k j then some v else m j

  -- `delete(m, k)`
  abbrev pub delete : ⦃e : Key K⦄ → K → Map K V → Map K V
  delete ⦃e⦄ k m j = if e.same k j then none else m j

-- `m[k]` where a missing key gives the zero value
abbrev pub get_or {ℓ} : {V : Type ℓ} → Option V → V → V
get_or none d = d
get_or (some v) d = v
