-- ===== src/MapReduce/Sequential.antt =====
-- main/mrsequential.go: the sequential MapReduce. Map and Reduce are arguments, as in the program,
-- which loads them from a plugin.
use Prim.Native.String.{String, ◌++◌}
use mathlib.Core.List.{filter_map, ◌++◌ as append}
use mit.Prelude.{
  ℕ, zero, suc, ◌≡◌, ◌⊎◌, Bool, true, false, Option, none, some, List, [], ◌∷◌, ◌>>=◌,
  if◌then◌else◌, string_key,
}
use mit.MapReduce.Order.{less}

pub record KeyValue : Type 0 where
  pub key : String
  pub value : String

abbrev pub Mapf : Type 0
Mapf = String → String → List KeyValue

abbrev pub Reducef : Type 0
Reducef = String → List String → String

-- `ByKey.Less` of two elements
abbrev pub key_less : KeyValue → KeyValue → Bool
key_less a b = less a.key b.key

-- The loop over the input files, each with its name and its contents.
unfoldable pub accumulate : Mapf → List (String × String) → List KeyValue
accumulate mapf [] = []
accumulate mapf ((filename, content) ∷ files) =
    append (mapf filename content) (accumulate mapf files)

-- The inner loops: the values of the pairs at the front that have the key, and the other pairs.
unfoldable pub take_values : String → List KeyValue → List String × List KeyValue
take_values key [] = ([], [])
take_values key (kv ∷ kvs) =
    let (values, rest) = take_values key kvs in
    if string_key.same kv.key key then (kv.value ∷ values, rest) else ([], kv ∷ kvs)

-- One line of the output: the key and what Reduce returned for it.
abbrev pub Line : Type 0
Line = String × String

-- The outer loop, over the pairs from index `i` on.
unfoldable pub reduce_groups : ℕ → Reducef → List KeyValue → Option (List Line)
reduce_groups zero reducef kvs = none
reduce_groups (suc fuel) reducef [] = some []
reduce_groups (suc fuel) reducef (kv ∷ kvs) =
    let (values, rest) = take_values kv.key kvs in
    do
      lines ← reduce_groups fuel reducef rest
      some ((kv.key, reducef kv.key (kv.value ∷ values)) ∷ lines)

-- `"%v %v\n"` for each line
abbrev pub print_lines : List Line → String
print_lines [] = ""
print_lines ((key, output) ∷ lines) = key ++ (" " ++ (output ++ ("\n" ++ print_lines lines)))

-- The values that a list of pairs has for a key, in order.
abbrev pub value_for : String → KeyValue → Option String
value_for key kv = if string_key.same kv.key key then some kv.value else none

abbrev pub values_of : String → List KeyValue → List String
values_of key kvs = filter_map (value_for key) kvs

-- What `sort.Sort` leaves: no pair has a smaller key than one before it.
abbrev pub NotBelow : KeyValue → List KeyValue → Type 0
NotBelow a [] = Unit
NotBelow a (b ∷ kvs) = (key_less b a ≡ false) × NotBelow a kvs

abbrev pub IsSorted : List KeyValue → Type 0
IsSorted [] = Unit
IsSorted (kv ∷ kvs) = NotBelow kv kvs × IsSorted kvs

-- The keys of the lines increase strictly.
abbrev pub KeysAbove : String → List Line → Type 0
KeysAbove key [] = Unit
KeysAbove key ((k, output) ∷ lines) = (less key k ≡ true) × KeysAbove key lines

abbrev pub IsIncreasing : List Line → Type 0
IsIncreasing [] = Unit
IsIncreasing ((key, output) ∷ lines) = KeysAbove key lines × IsIncreasing lines

abbrev pub InLines : String → String → List Line → Type 0
InLines key output [] = ⊥
InLines key output ((k, o) ∷ lines) = ((key ≡ k) × (output ≡ o)) ⊎ InLines key output lines
