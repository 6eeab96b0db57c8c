-- ===== src/Raft/Replicate/Indices.antt =====
-- raft.go: the index slices of a leader, as `Start` raises them.
use mit.Prelude.{
  ℕ, zero, suc, ◌≡◌, refl, ap, ◌⊎◌, inr, some, List, [], ◌∷◌, arith, length, get_elem?,
}
use mit.Raft.Replicate.{raise_to}

pub length-raise_to : (xs : List ℕ) (i v : ℕ) → length (raise_to xs i v) ≡ length xs
length-raise_to [] i v = refl
length-raise_to (x ∷ xs) zero v = ground arith
length-raise_to (x ∷ xs) (suc i) v = ap suc (length-raise_to xs i v)

pub get_elem?-raise_to :
    (xs : List ℕ) (i v j : ℕ) {a : ℕ}
    → get_elem? (raise_to xs i v) j ≡ some a
    → (a ≡ v) ⊎ (get_elem? xs j ≡ some a)
get_elem?-raise_to [] i v j h = inr h
get_elem?-raise_to (x ∷ xs) zero v zero h = ground arith
get_elem?-raise_to (x ∷ xs) zero v (suc j) h = ground arith
get_elem?-raise_to (x ∷ xs) (suc i) v zero h = inr h
get_elem?-raise_to (x ∷ xs) (suc i) v (suc j) h = get_elem?-raise_to xs i v j h
