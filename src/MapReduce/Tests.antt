-- ===== src/MapReduce/Tests.antt =====
-- Tests of main/mrsequential.go with mrapps/wc.go.
use Prim.Native.Char.{Char, code}
use Prim.Native.String.{String}
use mathlib.Core.List.{Perm, perm_append_comm}
use mit.Prelude.{◌<◌, ◌≡◌, ◌≢◌, refl, Bool, some, List, [], ◌∷◌, ltb}
use mit.MapReduce.Order.{less}
use mit.MapReduce.Sequential.{
  KeyValue, Reducef, accumulate, Line, take_values, reduce_groups, values_of, print_lines, IsSorted,
  IsIncreasing, InLines,
}
use mit.MapReduce.Reduce.{sequential_reduces}
use mit.MapReduce.WordCount.{fields_func, itoa, wc_map, wc_reduce}
use mit.MapReduce.Counts.{decimal, occurrences, all_words, word_count}

abbrev lower_case : Char → Bool
lower_case c = ltb 96 (code c)

abbrev files : List (String × String)
files = ("one", "b a!") ∷ ("two", "  a") ∷ []

abbrev pair : String → KeyValue
pair word = record { key = word; value = "1" }

abbrev sorted : List KeyValue
sorted = pair "a" ∷ pair "a" ∷ pair "b" ∷ []

accumulated_test : accumulate (wc_map lower_case) files ≡ pair "b" ∷ pair "a" ∷ pair "a" ∷ []
unfolding accumulate wc_map fields_func
accumulated_test = refl

sorted-Perm : Perm sorted (accumulate (wc_map lower_case) files)
unfolding accumulate wc_map fields_func
sorted-Perm = perm_append_comm (pair "a" ∷ pair "a" ∷ []) (pair "b" ∷ [])

sorted-IsSorted : IsSorted sorted
unfolding less
sorted-IsSorted = ((refl, (refl, tt)), ((refl, tt), (tt, tt)))

lines_test : reduce_groups 4 wc_reduce sorted ≡ some (("a", "2") ∷ ("b", "1") ∷ [])
unfolding reduce_groups take_values wc_reduce itoa
lines_test = refl

printed_test : print_lines (("a", itoa 20) ∷ ("b", "1") ∷ []) ≡ "a 20\nb 1\n"
unfolding itoa
printed_test = refl

word_count_example :
    (lines : List Line) × (reduce_groups 4 wc_reduce sorted ≡ some lines)
    × IsIncreasing lines
    × ((word output : String)
        → InLines word output lines
        → (decimal output 0 ≡ occurrences word (all_words lower_case files))
          × (0 < occurrences word (all_words lower_case files)))
    × ((word : String)
        → 0 < occurrences word (all_words lower_case files)
        → (output : String) × InLines word output lines)
word_count_example = word_count lower_case files sorted sorted-Perm sorted-IsSorted

-- A Reduce that looks at its key only.
abbrev key_only : Reducef
key_only key values = key

sequential_reduces_example :
    (lines : List Line) × (reduce_groups 4 key_only sorted ≡ some lines)
    × IsIncreasing lines
    × ((k o : String)
        → InLines k o lines
        → (values : List String) × Perm values (values_of k (accumulate (wc_map lower_case) files))
          × (values ≢ [])
          × (o ≡ key_only k values))
    × ((k : String)
        → values_of k (accumulate (wc_map lower_case) files) ≢ []
        → (o : String) × InLines k o lines)
sequential_reduces_example =
    sequential_reduces key_only (accumulate (wc_map lower_case) files) sorted sorted-Perm
      sorted-IsSorted
