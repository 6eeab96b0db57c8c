-- ===== src/MapReduce/Groups.antt =====
-- main/mrsequential.go: the loop over the sorted pairs calls Reduce once for each key, with all of its
-- values.
use Prim.Native.String.{String}
use mathlib.Core.List.{filter_map}
use mit.Prelude.{
  ◌≤◌, ◌≡◌, ◌≢◌, inl, inr, refl, sym, ap, subst, ◌∙◌, true, false, Bool-cases, List, [], ◌∷◌, arith,
  length, string_key,
}
use mit.MapReduce.Order.{less, less_irrefl, less_trans, less_total}
use mit.MapReduce.Sequential.{KeyValue, take_values, values_of, NotBelow, IsSorted}

-- Every key of the list is larger.
unfoldable pub AllAbove : String → List KeyValue → Type 0
AllAbove key [] = Unit
AllAbove key (kv ∷ kvs) = (less key kv.key ≡ true) × AllAbove key kvs

same_refl : (s : String) → string_key.same s s ≡ true
same_refl s = (string_key.same_iff s s).1 refl

pub values_of-same :
    (key : String) (kv : KeyValue) (kvs : List KeyValue)
    → kv.key ≡ key
    → values_of key (kv ∷ kvs) ≡ kv.value ∷ values_of key kvs
unfolding filter_map
values_of-same key kv kvs e = ground (arith, (string_key.same_iff kv.key key).1 e)

pub values_of-other :
    (key : String) (kv : KeyValue) (kvs : List KeyValue)
    → kv.key ≢ key
    → values_of key (kv ∷ kvs) ≡ values_of key kvs
unfolding filter_map
values_of-other key kv kvs ne = elim (Bool-cases (string_key.same kv.key key)) [
  | inl same ↦ absurd (ne ((string_key.same_iff kv.key key).0 same))
  | inr other ↦ ground (arith, other)
]

-- A key that is not smaller and not the same is larger.
pub less_of_ne : (s t : String) → less t s ≡ false → t ≢ s → less s t ≡ true
less_of_ne s t h ne = elim (Bool-cases (less s t)) [
  | inl lt ↦ lt
  | inr le ↦ absurd (ne (less_total t s h le))
]

pub above_ne : (s t : String) → less s t ≡ true → t ≢ s
above_ne s t lt e =
    let h : less s s ≡ true = subst (λ x. less s x ≡ true) e lt in cc (h, less_irrefl s)

above_later :
    (key : String) (b : KeyValue) (kvs : List KeyValue)
    → less key b.key ≡ true
    → NotBelow b kvs
    → AllAbove key kvs
unfolding AllAbove
above_later key b [] lt nb = tt
above_later key b (c ∷ kvs) lt (le, nb) = (
  elim (Bool-cases (string_key.same c.key b.key)) [
    | inl same ↦ subst (λ x. less key x ≡ true) (sym ((string_key.same_iff c.key b.key).0 same)) lt
    | inr other ↦
        less_trans key b.key c.key lt
          (less_of_ne b.key c.key le (λ e. cc ((string_key.same_iff c.key b.key).1 e, other)))
  ],
  above_later key b kvs lt nb,
)

pub values_of-AllAbove :
    (key : String) (kvs : List KeyValue) → AllAbove key kvs → values_of key kvs ≡ []
unfolding AllAbove
values_of-AllAbove key [] a = unfold filter_map in refl
values_of-AllAbove key (kv ∷ kvs) (lt, a) =
    values_of-other key kv kvs (above_ne key kv.key lt) ∙ values_of-AllAbove key kvs a

-- What the inner loops take and leave of sorted pairs that begin with the key.
pub record Taken (key : String) (kvs : List KeyValue) (values : List String) (rest : List KeyValue)
    : Type 0 where
  pub all : values ≡ values_of key kvs
  pub above : AllAbove key rest
  pub sorted : IsSorted rest
  pub others : (j : String) → j ≢ key → values_of j rest ≡ values_of j kvs
  pub shorter : length rest ≤ length kvs

pub take_values-Taken :
    (a : KeyValue) (kvs : List KeyValue)
    → NotBelow a kvs
    → IsSorted kvs
    → let (values, rest) = take_values a.key kvs in Taken a.key kvs values rest
unfolding take_values
take_values-Taken a [] nb s = record {
  all = unfold filter_map in refl;
  above = unfold AllAbove in tt;
  sorted = tt;
  others = λ j ne. refl;
  shorter = omega arith;
}
take_values-Taken a (b ∷ kvs) (le, nb) (first, s) =
    elim (Bool-cases (string_key.same b.key a.key)) [
      | inl same ↦
          let t = take_values-Taken a kvs nb s in
          let e = (string_key.same_iff b.key a.key).0 same in
          rw same (record {
            all = ap (◌∷◌ b.value) t.all ∙ sym (values_of-same a.key b kvs e);
            above = t.above;
            sorted = t.sorted;
            others = λ j ne. t.others j ne ∙ sym (values_of-other j b kvs (λ e'. ne (sym e' ∙ e)));
            shorter = omega (arith, t.shorter);
          })
      | inr other ↦
          let ne : b.key ≢ a.key = λ e. cc ((string_key.same_iff b.key a.key).1 e, other) in
          let lt = less_of_ne a.key b.key le ne in
          let above : AllAbove a.key (b ∷ kvs) =
            unfold AllAbove in (lt, above_later a.key b kvs lt first) in
          rw other (record {
            all = sym (values_of-AllAbove a.key (b ∷ kvs) above);
            above = above;
            sorted = (first, s);
            others = λ j ne'. refl;
            shorter = omega arith;
          })
    ]
