-- ===== src/MapReduce/Counts.antt =====
-- mrapps/wc.go under main/mrsequential.go: the output is the number of occurrences of each word.
use Prim.Native.Char.{Char, code}
use Prim.Native.String.{String, [] as empty, ◌∷◌ as char_cons}
use mathlib.Core.List.{Perm, Permᴰ, filter_map, filter_map-append, ◌++◌}
use mathlib.Core.Logic.{∥∥₁_elim}
use native.Mathlib.Nat.{ℕ_set}
use mit.Prelude.{
  ℕ, zero, suc, ◌+◌, ◌-◌, ◌*◌, ◌/◌, ◌%◌, ◌<◌, ◌≡◌, ◌≢◌, refl, ap, ◌∙◌, inl, inr, Bool, not,
  Bool-cases, some, List, [], ◌∷◌, arith, length, map, string_key, ltb, if◌then◌else◌,
  length-append,
}
use mit.MapReduce.Sequential.{
  KeyValue, accumulate, Line, reduce_groups, value_for, values_of, IsSorted, IsIncreasing, InLines,
}
use mit.MapReduce.Reduce.{sequential_reduces}
use mit.MapReduce.WordCount.{fields_func, digit, write_digits, itoa, wc_map, wc_reduce}

-- The number that digits denote, behind the digits of `n`.
unfoldable pub decimal : String → ℕ → ℕ
decimal empty n = n
decimal (char_cons c s) n = decimal s (10 * n + (code c - 48))

digit_lem : (n : ℕ) → n < 10 → code (digit n) - 48 ≡ n
unfolding digit
digit_lem zero lt = refl
digit_lem (suc zero) lt = refl
digit_lem (suc (suc zero)) lt = refl
digit_lem (suc (suc (suc zero))) lt = refl
digit_lem (suc (suc (suc (suc zero)))) lt = refl
digit_lem (suc (suc (suc (suc (suc zero))))) lt = refl
digit_lem (suc (suc (suc (suc (suc (suc zero)))))) lt = refl
digit_lem (suc (suc (suc (suc (suc (suc (suc zero))))))) lt = refl
digit_lem (suc (suc (suc (suc (suc (suc (suc (suc zero)))))))) lt = refl
digit_lem (suc (suc (suc (suc (suc (suc (suc (suc (suc zero))))))))) lt = refl
digit_lem (suc (suc (suc (suc (suc (suc (suc (suc (suc (suc n)))))))))) lt = absurd (omega arith)

write_digits_lem :
    (fuel n : ℕ) (s : String) → n < fuel → decimal (write_digits fuel n s) 0 ≡ decimal s n
unfolding write_digits decimal
write_digits_lem zero n s lt = elim lt [ ]
write_digits_lem (suc fuel) n s lt = elim (Bool-cases (ltb n 10)) [
  | inl small ↦ rw small (ap (decimal s) (omega (arith, digit_lem n (ground arith))))
  | inr large ↦ rw large (
      write_digits_lem fuel (n / 10) (char_cons (digit (n % 10)) s) (ground arith)
      ∙ ap (decimal s) (omega (arith, digit_lem (n % 10) (omega arith))))
]

decimal-itoa : (n : ℕ) → decimal (itoa n) 0 ≡ n
unfolding itoa decimal
decimal-itoa n = write_digits_lem (suc n) n empty (omega arith)

-- How often a word stands in a list.
pub occurrences : String → List String → ℕ
occurrences word [] = 0
occurrences word (w ∷ words) =
    if string_key.same w word then suc (occurrences word words) else occurrences word words

-- The words of all files.
pub all_words : (Char → Bool) → List (String × String) → List String
all_words is_letter [] = []
all_words is_letter ((filename, content) ∷ files) =
    fields_func (λ c. not (is_letter c)) content ++ all_words is_letter files

occurrences-append :
    (word : String) (a b : List String)
    → occurrences word (a ++ b) ≡ occurrences word a + occurrences word b
unfolding occurrences
occurrences-append word [] b = omega arith
occurrences-append word (w ∷ a) b = ground (arith, occurrences-append word a b)

values_of-words :
    (word : String) (words : List String)
    → length (values_of word (map (λ w. record { key = w; value = "1" }) words))
      ≡ occurrences word words
unfolding occurrences filter_map
values_of-words word [] = refl
values_of-words word (w ∷ words) = ground (arith, values_of-words word words)

values_of-accumulate :
    (is_letter : Char → Bool) (word : String) (files : List (String × String))
    → length (values_of word (accumulate (wc_map is_letter) files))
      ≡ occurrences word (all_words is_letter files)
unfolding accumulate wc_map all_words
values_of-accumulate is_letter word [] = unfold filter_map in unfold occurrences in refl
values_of-accumulate is_letter word ((filename, content) ∷ files) =
    let words = fields_func (λ c. not (is_letter c)) content in
    let rest = accumulate (wc_map is_letter) files in
    let pairs : List KeyValue = map (λ w. record { key = w; value = "1" }) words in
    ap length (filter_map-append (value_for word) pairs rest)
    ∙ length-append (values_of word pairs) (values_of word rest)
    ∙ omega (
      arith,
      values_of-words word words,
      values_of-accumulate is_letter word files,
      occurrences-append word words (all_words is_letter files),
    )

length-Permᴰ : {a b : List String} → Permᴰ a b → length a ≡ length b
length-Permᴰ Permᴰ.nil = refl
length-Permᴰ (Permᴰ.cons e d) = ap suc (length-Permᴰ d)
length-Permᴰ (Permᴰ.swap e e') = refl
length-Permᴰ (Permᴰ.trans d d') = length-Permᴰ d ∙ length-Permᴰ d'

length-Perm : {a b : List String} → Perm a b → length a ≡ length b
length-Perm {a} {b} p = ∥∥₁_elim p (ℕ_set (length a) (length b)) length-Permᴰ

length-pos : (l : List String) → l ≢ [] → 0 < length l
length-pos [] ne = absurd (ne refl)
length-pos (x ∷ l) ne = omega arith

length_ne-nil : (l : List String) → 0 < length l → l ≢ []
length_ne-nil [] lt e = elim lt [ ]
length_ne-nil (x ∷ l) lt e = cc

-- Word count over the files ends, and prints a line for exactly the words that stand in them, in
-- strictly increasing order, each with a number in decimal: how often the word stands in all files
-- together. This holds for every order in which `sort.Sort` may leave pairs of one key.
pub word_count :
    (is_letter : Char → Bool) (files : List (String × String)) (sorted : List KeyValue)
    → Perm sorted (accumulate (wc_map is_letter) files)
    → IsSorted sorted
    → (lines : List Line) × (reduce_groups (suc (length sorted)) wc_reduce sorted ≡ some lines)
      × IsIncreasing lines
      × ((word output : String)
          → InLines word output lines
          → (decimal output 0 ≡ occurrences word (all_words is_letter files))
            × (0 < occurrences word (all_words is_letter files)))
      × ((word : String)
          → 0 < occurrences word (all_words is_letter files)
          → (output : String) × InLines word output lines)
unfolding wc_reduce
word_count is_letter files sorted p s =
    let (lines, e, up, sound, complete) =
      sequential_reduces wc_reduce (accumulate (wc_map is_letter) files) sorted p s in
    let count = λ (word : String). values_of-accumulate is_letter word files in
    (
      lines,
      e,
      up,
      λ word output i.
          let (values, same, ne, out) = sound word output i in
          let n : length values ≡ occurrences word (all_words is_letter files) =
            length-Perm same ∙ count word in
          (
            ap (λ o. decimal o 0) out ∙ decimal-itoa (length values) ∙ n,
            omega (arith, n, length-pos values ne),
          ),
      λ word lt. complete word (length_ne-nil _ (omega (arith, count word))),
    )
