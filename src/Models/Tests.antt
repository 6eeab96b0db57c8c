-- ===== src/Models/Tests.antt =====
-- models/kv.go: the partition of a history with two keys.
use Prim.Native.String.{String}
use mathlib.Core.List.{Perm}
use mit.Prelude.{
  ◌≡◌, ◌≢◌, inl, inr, refl, sym, Bool-cases, none, List, [], ◌∷◌, map, string_key, empty_map,
}
use mit.MapReduce.Order.{less}
use mit.Models.Kv.{KvInput}
use mit.Models.Partition.{
  group_by_key, partition, of_key, concat, InKeys, Increasing, partition-Perm,
}

abbrev input : String → String → KvInput
input key value = record { op = 2; key = key; value = value }

abbrev history : List KvInput
history = input "b" "1" ∷ input "a" "2" ∷ input "b" "3" ∷ []

abbrev itself : KvInput → KvInput
itself inp = inp

abbrev keys : List String
keys = "a" ∷ "b" ∷ []

parts_test :
    partition itself history keys ≡ (input "a" "2" ∷ []) ∷ (input "b" "1" ∷ input "b" "3" ∷ []) ∷ []
unfolding partition group_by_key
parts_test = refl

keys-Increasing : Increasing keys
unfolding less
keys-Increasing = ((refl, tt), (tt, tt))

keys_all : (k : String) → group_by_key itself history empty_map k ≢ none → InKeys k keys
unfolding group_by_key
keys_all k present = elim (Bool-cases (string_key.same "a" k)) [
  | inl a ↦ inl (sym ((string_key.same_iff "a" k).0 a))
  | inr not_a ↦ elim (Bool-cases (string_key.same "b" k)) [
    | inl b ↦ inr (inl (sym ((string_key.same_iff "b" k).0 b)))
    | inr not_b ↦ absurd (present (rw (not_a, not_b) refl))
  ]
]

partition-Perm_example :
    (partition itself history keys ≡ map (λ k. of_key itself k history) keys)
    × Perm (concat (partition itself history keys)) history
partition-Perm_example = partition-Perm itself history keys keys-Increasing keys_all
