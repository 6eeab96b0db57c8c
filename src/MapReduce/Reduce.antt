-- ===== src/MapReduce/Reduce.antt =====
-- main/mrsequential.go: the output, against the pairs that Map has produced.
use Prim.Native.String.{String}
use mathlib.Core.List.Perm
use mathlib.Core.List.{Perm, filter_map}
use mit.Prelude.{
  ℕ, zero, suc, ◌<◌, ◌≡◌, ◌≢◌, inl, inr, refl, sym, ap, ap₂, subst, ◌∙◌, true, Bool-cases, some,
  List, [], ◌∷◌, arith, length, string_key,
}
use mit.MapReduce.Order.{less}
use mit.MapReduce.Sequential.{
  KeyValue, Reducef, take_values, Line, reduce_groups, value_for, values_of, IsSorted, KeysAbove,
  IsIncreasing, InLines,
}
use mit.MapReduce.Groups.{
  AllAbove, above_ne, values_of-same, values_of-other, Taken, take_values-Taken,
}

-- The lines are what Reduce makes of each key and its values, once for each key.
record Reduced (reducef : Reducef) (kvs : List KeyValue) (lines : List Line) : Type 0 where
  increasing : IsIncreasing lines
  sound :
      (k o : String)
      → InLines k o lines
      → (o ≡ reducef k (values_of k kvs)) × (values_of k kvs ≢ [])
  complete : (k : String) → values_of k kvs ≢ [] → InLines k (reducef k (values_of k kvs)) lines

keys_above :
    (key : String) (lines : List Line)
    → ((k o : String) → InLines k o lines → less key k ≡ true)
    → KeysAbove key lines
keys_above key [] h = tt
keys_above key ((k, o) ∷ lines) h =
    (h k o (inl (refl, refl)), keys_above key lines (λ k' o' i. h k' o' (inr i)))

occurs-AllAbove :
    (key : String) (kvs : List KeyValue)
    → AllAbove key kvs
    → (k : String) → values_of k kvs ≢ []
    → less key k ≡ true
unfolding AllAbove
occurs-AllAbove key [] a k ne = absurd (ne (unfold filter_map in refl))
occurs-AllAbove key (kv ∷ kvs) (lt, a) k ne = elim (Bool-cases (string_key.same kv.key k)) [
  | inl same ↦ subst (λ x. less key x ≡ true) ((string_key.same_iff kv.key k).0 same) lt
  | inr other ↦ occurs-AllAbove key kvs a k (λ e.
      ne (values_of-other k kv kvs (λ e'. cc ((string_key.same_iff kv.key k).1 e', other)) ∙ e))
]

-- One group in front of the lines for the pairs behind it.
group_first :
    (reducef : Reducef) (kv : KeyValue) (kvs : List KeyValue) (values : List String)
    (rest : List KeyValue) (lines : List Line)
    → Taken kv.key kvs values rest
    → Reduced reducef rest lines
    → Reduced reducef (kv ∷ kvs) ((kv.key, reducef kv.key (kv.value ∷ values)) ∷ lines)
group_first reducef kv kvs values rest lines t r =
    let own : values_of kv.key (kv ∷ kvs) ≡ kv.value ∷ values =
      values_of-same kv.key kv kvs refl ∙ ap (◌∷◌ kv.value) (sym t.all) in
    let own_at : (k : String) → k ≡ kv.key → values_of k (kv ∷ kvs) ≡ kv.value ∷ values =
      λ k same. ap (λ x. values_of x (kv ∷ kvs)) same ∙ own in
    let above =
      λ (k : String) (ne : values_of k rest ≢ []). occurs-AllAbove kv.key rest t.above k ne in
    let later : (k : String) → k ≢ kv.key → values_of k (kv ∷ kvs) ≡ values_of k rest =
      λ k ne. values_of-other k kv kvs (λ e. ne (sym e)) ∙ sym (t.others k ne) in
    record {
      increasing = (keys_above kv.key lines (λ k o i. above k (r.sound k o i).1), r.increasing);
      sound = λ k o i. elim i [
        | inl (same, out) ↦
            (out ∙ sym (ap₂ reducef same (own_at k same)), λ e. cc (sym (own_at k same) ∙ e))
        | inr i' ↦
            let (out, ne) = r.sound k o i' in
            let e = later k (above_ne kv.key k (above k ne)) in
            (out ∙ ap (reducef k) (sym e), λ e'. ne (sym e ∙ e'))
      ];
      complete = λ k ne. elim (Bool-cases (string_key.same k kv.key)) [
        | inl same ↦ inl (
          (string_key.same_iff k kv.key).0 same,
          (let e = (string_key.same_iff k kv.key).0 same in ap₂ reducef e (own_at k e)),
        )
        | inr other ↦
            let e = later k (λ e'. cc ((string_key.same_iff k kv.key).1 e', other)) in
            inr (
              subst (λ vs. InLines k (reducef k vs) lines) (sym e)
                (r.complete k (λ e'. ne (e ∙ e'))))
      ];
    }

reduce_groups-Reduced :
    (reducef : Reducef) (fuel : ℕ) (kvs : List KeyValue)
    → length kvs < fuel
    → IsSorted kvs
    → (lines : List Line) × (reduce_groups fuel reducef kvs ≡ some lines)
      × Reduced reducef kvs lines
unfolding reduce_groups
reduce_groups-Reduced reducef zero kvs lt s = elim lt [ ]
reduce_groups-Reduced reducef (suc fuel) [] lt s = (
  [],
  refl,
  record {
    increasing = tt;
    sound = λ k o i. elim i [ ];
    complete = λ k ne. ne (unfold filter_map in refl);
  },
)
reduce_groups-Reduced reducef (suc fuel) (kv ∷ kvs) lt (first, s) =
    let (values, rest) = take_values kv.key kvs in
    let t : Taken kv.key kvs values rest = take_values-Taken kv kvs first s in
    let (lines, e, r) =
      reduce_groups-Reduced reducef fuel rest (omega (arith, t.shorter)) t.sorted in
    (_, rw e refl, group_first reducef kv kvs values rest lines t r)

-- Whatever order `sort.Sort` puts the pairs of one key in, the loop ends with fuel above their number;
-- the keys of the lines increase strictly; each line has what Reduce returns for its key and a
-- permutation of all values that Map has produced for it, of which there is one at least; and every
-- key that Map has produced has its line.
pub sequential_reduces :
    (reducef : Reducef) (intermediate sorted : List KeyValue)
    → Perm sorted intermediate
    → IsSorted sorted
    → (lines : List Line) × (reduce_groups (suc (length sorted)) reducef sorted ≡ some lines)
      × IsIncreasing lines
      × ((k o : String)
          → InLines k o lines
          → (values : List String) × Perm values (values_of k intermediate)
            × (values ≢ [])
            × (o ≡ reducef k values))
      × ((k : String) → values_of k intermediate ≢ [] → (o : String) × InLines k o lines)
sequential_reduces reducef intermediate sorted p s =
    let (lines, e, r) =
      reduce_groups-Reduced reducef (suc (length sorted)) sorted (omega arith) s in
    (
      lines,
      e,
      r.increasing,
      λ k o i.
          let (out, ne) = r.sound k o i in
          (values_of k sorted, Perm.filter_map (value_for k) p, ne, out),
      λ k ne. (
        _,
        r.complete k (λ none'. ne (
            Perm.eq-nil (
              subst (Perm (values_of k intermediate)) none'
                (Perm.symm (Perm.filter_map (value_for k) p))))),
      ),
    )
