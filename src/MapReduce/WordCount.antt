-- ===== src/MapReduce/WordCount.antt =====
-- mrapps/wc.go: word count, and its run by main/mrsequential.go. Which characters are letters
-- (`unicode.IsLetter`) is an argument.
use Prim.Native.Char.{Char}
use Prim.Native.String.{String, [] as empty, ◌∷◌ as char_cons}
use mit.Prelude.{
  ℕ, zero, suc, ◌/◌, ◌%◌, Bool, not, List, [], ◌∷◌, length, map, string_key, ltb, if◌then◌else◌,
}
use mit.MapReduce.Sequential.{Mapf, Reducef}

-- `strings.FieldsFunc`: the word at the front, and the words behind it.
add_word : String → List String → List String
add_word empty words = words
add_word (char_cons c w) words = char_cons c w ∷ words

split_front : (Char → Bool) → String → String × List String
split_front is_separator empty = (empty, [])
split_front is_separator (char_cons c s) =
    let (w, words) = split_front is_separator s in
    if is_separator c then (empty, add_word w words) else (char_cons c w, words)

unfoldable pub fields_func : (Char → Bool) → String → List String
unfolding add_word split_front
fields_func is_separator s = let (w, words) = split_front is_separator s in add_word w words

-- `strconv.Itoa` of a number that is not negative: the digits from the last to the first, in front of
-- those already written (`write_digits`).
-- `digit` is the character of a digit.
unfoldable pub digit : ℕ → Char
digit zero = "0"
digit (suc zero) = "1"
digit (suc (suc zero)) = "2"
digit (suc (suc (suc zero))) = "3"
digit (suc (suc (suc (suc zero)))) = "4"
digit (suc (suc (suc (suc (suc zero))))) = "5"
digit (suc (suc (suc (suc (suc (suc zero)))))) = "6"
digit (suc (suc (suc (suc (suc (suc (suc zero))))))) = "7"
digit (suc (suc (suc (suc (suc (suc (suc (suc zero)))))))) = "8"
digit _ = "9"

unfoldable pub write_digits : ℕ → ℕ → String → String
write_digits zero n s = s
write_digits (suc fuel) n s =
    let rest = write_digits fuel (n / 10) (char_cons (digit (n % 10)) s) in
    if ltb n 10 then char_cons (digit n) s else rest

unfoldable pub itoa : ℕ → String
unfolding write_digits digit
itoa n = write_digits (suc n) n ""

unfoldable pub wc_map : (Char → Bool) → Mapf
wc_map is_letter filename contents =
    map (λ w. record { key = w; value = "1" }) (fields_func (λ c. not (is_letter c)) contents)

unfoldable pub wc_reduce : Reducef
wc_reduce key values = itoa (length values)
