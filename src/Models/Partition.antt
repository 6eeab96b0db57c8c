-- ===== src/Models/Partition.antt =====
-- models/kv.go, `Partition`: the operations of a history by their keys. The type of operations is
-- that of the checker, a parameter, with the input of an operation.
use Prim.Native.String.{String}
use mathlib.Core.List.Perm
use mathlib.Core.List.{Perm, append_assoc, append-nil, perm_middle}
use mit.Prelude.{
  ◌≡◌, ◌≢◌, ◌⊎◌, inl, inr, refl, sym, ap, ap₂, subst, ◌∙◌, true, false, Bool-cases, none, List, [],
  ◌∷◌, ◌++◌, Map, empty_map, insert, get_or, map, string_key, if◌then◌else◌,
}
use mit.MapReduce.Order.{less, less_irrefl}
use mit.Models.Kv.{KvInput}

abbrev pub InKeys : String → List String → Type 0
InKeys k [] = ⊥
InKeys k (x ∷ keys) = (k ≡ x) ⊎ InKeys k keys

-- Every key of the list is larger, and a list in strictly increasing order.
abbrev Above : String → List String → Type 0
Above k [] = Unit
Above k (x ∷ keys) = (less k x ≡ true) × Above k keys

abbrev pub Increasing : List String → Type 0
Increasing [] = Unit
Increasing (k ∷ keys) = Above k keys × Increasing keys

abbrev pub concat {ℓ} : {O : Type ℓ} → List (List O) → List O
concat [] = []
concat (g ∷ gs) = g ++ concat gs

Above-apart :
    (k j : String) (keys : List String) → Above k keys → InKeys j keys → string_key.same k j ≡ false
Above-apart k j [] a i = absurd i
Above-apart k j (x ∷ keys) (lt, a) (inr i) = Above-apart k j keys a i
Above-apart k j (x ∷ keys) (lt, a) (inl e) = elim (Bool-cases (string_key.same k j)) [
  | inr apart ↦ apart
  | inl same ↦
      let eq : k ≡ x = (string_key.same_iff k j).0 same ∙ e in
      absurd (cc (subst (λ y. less k y ≡ true) (sym eq) lt, less_irrefl k))
]

module _ {O : Type 0} (input_of : O → KvInput) where
  -- The loop over the history.
  unfoldable pub group_by_key : List O → Map String (List O) → Map String (List O)
  group_by_key [] m = m
  group_by_key (v ∷ history) m =
      let key = (input_of v).key in
      group_by_key history (insert key (get_or (m key) [] ++ (v ∷ [])) m)

  -- `keys` are the keys of the map as `sort.Strings` leaves them.
  unfoldable pub partition : List O → List String → List (List O)
  partition history keys = let m = group_by_key history empty_map in map (λ k. get_or (m k) []) keys

  -- The operations on a key, in order, and the others.
  abbrev pub of_key : String → List O → List O
  of_key k [] = []
  of_key k (v ∷ history) =
      if string_key.same (input_of v).key k then v ∷ of_key k history else of_key k history

  abbrev without_key : String → List O → List O
  without_key k [] = []
  without_key k (v ∷ history) =
      if string_key.same (input_of v).key k
      then without_key k history
      else v ∷ without_key k history

  abbrev pub Covers : List String → List O → Type 0
  Covers keys [] = Unit
  Covers keys (v ∷ history) = InKeys (input_of v).key keys × Covers keys history

  group_by_key-of_key :
      (k : String) (history : List O) (m : Map String (List O))
      → get_or (group_by_key history m k) [] ≡ get_or (m k) [] ++ of_key k history
  unfolding group_by_key
  group_by_key-of_key k [] m = sym (append-nil (get_or (m k) []))
  group_by_key-of_key k (v ∷ history) m =
      let key = (input_of v).key in
      let next = insert key (get_or (m key) [] ++ (v ∷ [])) m in
      let rest = group_by_key-of_key k history next in
      elim (Bool-cases (string_key.same key k)) [
        | inl same ↦
            let eq : key ≡ k = (string_key.same_iff key k).0 same in
            let found : get_or (next k) [] ≡ get_or (m key) [] ++ (v ∷ []) = rw same refl in
            rw same (
              rest
              ∙ ap (λ g. g ++ of_key k history) found
              ∙ append_assoc (get_or (m key) []) (v ∷ []) (of_key k history)
              ∙ ap (λ x. get_or (m x) [] ++ (v ∷ of_key k history)) eq)
        | inr other ↦
            let kept : get_or (next k) [] ≡ get_or (m k) [] = rw other refl in
            rw other (rest ∙ ap (λ g. g ++ of_key k history) kept)
      ]

  split_key :
      (k : String) (history : List O) → Perm (of_key k history ++ without_key k history) history
  split_key k [] = Perm.nil
  split_key k (v ∷ history) = elim (Bool-cases (string_key.same (input_of v).key k)) [
    | inl same ↦ rw same (Perm.cons v (split_key k history))
    | inr other ↦ rw other (
        Perm.trans (perm_middle (of_key k history) (without_key k history))
          (Perm.cons v (split_key k history)))
  ]

  of_key-without :
      (j k : String) (history : List O)
      → string_key.same k j ≡ false
      → of_key j (without_key k history) ≡ of_key j history
  of_key-without j k [] ne = refl
  of_key-without j k (v ∷ history) ne = elim (Bool-cases (string_key.same (input_of v).key k)) [
    | inl same ↦
        let e = (string_key.same_iff (input_of v).key k).0 same in
        let apart : string_key.same (input_of v).key j ≡ false =
          subst (λ x. string_key.same x j ≡ false) (sym e) ne in
        rw (same, apart) (of_key-without j k history ne)
    | inr other ↦ elim (Bool-cases (string_key.same (input_of v).key j)) [
      | inl here ↦ rw (other, here) (ap (λ x. v ∷ x) (of_key-without j k history ne))
      | inr there ↦ rw (other, there) (of_key-without j k history ne)
    ]
  ]

  -- The groups of the keys behind `k` are those of the history without it.
  groups_without :
      (k : String) (keys : List String) (history : List O)
      → Above k keys
      → map (λ j. of_key j (without_key k history)) keys ≡ map (λ j. of_key j history) keys
  groups_without k [] history a = refl
  groups_without k (j ∷ keys) history (lt, a) =
      ap₂ ◌∷◌ (of_key-without j k history (Above-apart k j (j ∷ keys) (lt, a) (inl refl)))
        (groups_without k keys history a)

  Covers-without :
      (k : String) (keys : List String) (history : List O)
      → Covers (k ∷ keys) history
      → Covers keys (without_key k history)
  Covers-without k keys [] c = tt
  Covers-without k keys (v ∷ history) (here, c) =
      elim (Bool-cases (string_key.same (input_of v).key k)) [
        | inl same ↦ rw same (Covers-without k keys history c)
        | inr other ↦ rw other (elim here [
          | inl e ↦ absurd (cc ((string_key.same_iff (input_of v).key k).1 e, other))
          | inr i ↦ (i, Covers-without k keys history c)
        ])
      ]

  covered-Perm :
      (keys : List String) (history : List O)
      → Increasing keys
      → Covers keys history
      → Perm (concat (map (λ k. of_key k history) keys)) history
  covered-Perm [] [] up c = Perm.nil
  covered-Perm [] (v ∷ history) up (i, c) = absurd i
  covered-Perm (k ∷ keys) history (a, up) c =
      let rest = covered-Perm keys (without_key k history) up (Covers-without k keys history c) in
      Perm.trans
        (Perm.append_left (of_key k history) (
          subst (λ gs. Perm (concat gs) (without_key k history)) (groups_without k keys history a)
            rest))
        (split_key k history)

  groups_lem :
      (history : List O) (keys : List String)
      → partition history keys ≡ map (λ k. of_key k history) keys
  unfolding partition
  groups_lem history [] = refl
  groups_lem history (k ∷ keys) =
      ap₂ ◌∷◌ (group_by_key-of_key k history empty_map) (groups_lem history keys)

  present :
      (k : String) (history : List O) (m : Map String (List O))
      → m k ≢ none
      → group_by_key history m k ≢ none
  unfolding group_by_key
  present k [] m h = h
  present k (v ∷ history) m h =
      let key = (input_of v).key in
      present k history (insert key (get_or (m key) [] ++ (v ∷ [])) m)
        (elim (Bool-cases (string_key.same key k)) [
          | inl same ↦ rw same (λ e. cc e)
          | inr other ↦ rw other h
        ])

  covered :
      (keys : List String) (history : List O) (m : Map String (List O))
      → ((k : String) → group_by_key history m k ≢ none → InKeys k keys)
      → Covers keys history
  unfolding group_by_key
  covered keys [] m all = tt
  covered keys (v ∷ history) m all =
      let key = (input_of v).key in
      let next = insert key (get_or (m key) [] ++ (v ∷ [])) m in
      let here : next key ≢ none = rw ((string_key.same_iff key key).1 refl) (λ e. cc e) in
      (all key (present key history next here), covered keys history next all)

  -- Where `keys` are the keys of the map in strictly increasing order: `Partition` gives for each of
  -- them the operations on that key, in the order of the history; together the groups are a permutation
  -- of the history.
  pub partition-Perm :
      (history : List O) (keys : List String)
      → Increasing keys
      → ((k : String) → group_by_key history empty_map k ≢ none → InKeys k keys)
      → (partition history keys ≡ map (λ k. of_key k history) keys)
        × Perm (concat (partition history keys)) history
  partition-Perm history keys up all =
      let e = groups_lem history keys in
      (
        e,
        subst (λ gs. Perm (concat gs) history) (sym e)
            (covered-Perm keys history up (covered keys history empty_map all)),
      )
