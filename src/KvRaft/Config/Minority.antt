-- ===== src/KvRaft/Config/Minority.antt =====
-- kvraft/config.go: `make_partition` puts the leader into the smaller part.
use mit.Prelude.{
  ℕ, zero, suc, ◌+◌, ◌-◌, ◌*◌, ◌/◌, ◌<◌, ◌≡◌, ◌⊎◌, inl, inr, refl, sym, ap, ap₂, subst, ◌∙◌, Bool,
  true, false, Bool-cases, Option-cases, some, List, [], ◌∷◌, ◌++◌, nat_key, arith, length,
  length-append, set, length-set, In, In-append, Distinct, ℕ_discrete as dec_eq,
}
use mathlib.Core.List.{append-nil}
use mathlib.Core.Option.{some-injective}
use mit.Raft.Roles.{get_state}
use mit.KvRaft.Config.{
  Config, count_up, all, leader_among, leader, fill_parts, set_last, zeros, make_partition,
  partition,
}
use mit.KvRaft.Config.Turns.{Started}
use mit.KvRaft.Config.Partition.{SamePart, partition_splits}
use mit.KvRaft.Config.Filling.{others, set_right, set_next, length-zeros, fill_parts-Filled}
use mit.KvRaft.Config.Servers.{
  count_up-In, In-count_up, count_up-Distinct, In-others, others-In, others-Distinct, length-others,
  length-count_up, append-In, append-Distinct, Distinct-parts,
}

last_set : (l x : ℕ) (xs : List ℕ) → In l (set (x ∷ xs) (length xs) l)
last_set l x [] = inl refl
last_set l x (y ∷ xs) = inr (last_set l y xs)

-- The leader is in the last place of the smaller part.
with_leader :
    (l : ℕ) (q1 q2 rest : List ℕ)
    → 0 < length q2
    → q1 ++ q2 ≡ rest ++ (0 ∷ [])
    → (q : List ℕ) × (set_last l q2 ≡ some q)
      × (length q ≡ length q2)
      × In l q
      × (q1 ++ q ≡ rest ++ (l ∷ []))
with_leader l q1 [] rest pos e = absurd (omega arith)
with_leader l q1 (x ∷ xs) rest pos e =
    let q = set (x ∷ xs) (length xs) l in
    let total : length q1 + suc (length xs) ≡ length rest + 1 =
      sym (length-append q1 (x ∷ xs)) ∙ ap length e ∙ length-append rest (0 ∷ []) in
    let at : length q1 + length xs ≡ length rest = omega (arith, total) in
    let moved : q1 ++ q ≡ set (q1 ++ (x ∷ xs)) (length q1 + length xs) l =
      ap (λ k. q1 ++ set (x ∷ xs) k l) (omega arith)
      ∙ sym (set_right q1 (x ∷ xs) (length q1 + length xs) l (omega arith)) in
    (
      q,
      refl,
      length-set (x ∷ xs) (length xs) l,
      last_set l x xs,
      moved ∙ ap₂ (λ ys k. set ys k l) e at ∙ set_next rest [] 0 l ∙ append-nil (rest ++ (l ∷ [])),
    )

leader_among-In :
    (is : List ℕ) (cfg : Config) (found : Bool) (l : ℕ)
    → leader_among is cfg ≡ some (found, l)
    → In l is ⊎ (l ≡ 0)
unfolding leader_among
leader_among-In [] cfg found l h =
    inr (sym (ap (λ p. p.1) (some-injective (false, 0) (found, l) h)))
leader_among-In (i ∷ is) cfg found l h = elim (Option-cases (cfg.kvservers i)) [
  | inl down ↦ absurd (cc (rw (leader_among, down) at h))
  | inr ((kv, rf), up) ↦ elim (Bool-cases (get_state rf).1) [
    | inl leads ↦ inl (
        inl (
          sym (
            ap (λ p. p.1)
              (some-injective (true, i) (found, l) (rw (leader_among, up, leads) at h)))))
    | inr follows ↦ elim (leader_among-In is cfg found l (rw (leader_among, up, follows) at h)) [
      | inl later ↦ inl (inr later)
      | inr zero' ↦ inr zero'
    ]
  ]
]

zeros_append : (a b : ℕ) → zeros a ++ zeros b ≡ zeros (a + b)
zeros_append zero b = ap zeros (omega arith)
zeros_append (suc a) b =
    let e : suc (a + b) ≡ suc a + b = omega arith in ap (◌∷◌ 0) (zeros_append a b) ∙ ap zeros e

everyone : (l n x : ℕ) → x < n → In x (others l (count_up 0 n) ++ (l ∷ []))
everyone l n x lt = append-In x (others l (count_up 0 n)) (l ∷ []) (elim (dec_eq x l) [
  | yes same ↦ inr (inl same)
  | no other ↦
      inl (others-In l x (count_up 0 n) (count_up-In x 0 n (omega arith) (omega arith)) other)
])

-- Both parts, of an odd number of servers.
record Parts (n k l : ℕ) (cfg : Config) : Type 0 where
  p1 : List ℕ
  p2 : List ℕ
  made : make_partition cfg ≡ some (p1, p2)
  size1 : length p1 ≡ k + 1
  size2 : length p2 ≡ k
  last : In l p2
  total : p1 ++ p2 ≡ others l (count_up 0 n) ++ (l ∷ [])

make_partition-some :
    (k l : ℕ) (found : Bool) (cfg : Config) (q1 q2 q : List ℕ)
    → leader cfg ≡ some (found, l)
    → cfg.n / 2 ≡ k
    → fill_parts l (all cfg) (0, zeros (k + 1), zeros k) ≡ some (q1, q2)
    → set_last l q2 ≡ some q
    → make_partition cfg ≡ some (q1, q)
unfolding make_partition
make_partition-some k l found cfg q1 q2 q h half filled last = rw (h, half, filled, last) refl

make_partition-Parts :
    (k l : ℕ) (found : Bool) (cfg : Config)
    → cfg.n ≡ 2 * k + 1
    → 0 < k
    → l < cfg.n
    → leader cfg ≡ some (found, l)
    → Parts cfg.n k l cfg
make_partition-Parts k l found cfg odd pos lt h =
    let servers = count_up 0 cfg.n in
    let half : cfg.n / 2 ≡ k = omega (arith, odd) in
    let less : suc (length (others l servers)) ≡ cfg.n =
      length-others cfg.n l servers (count_up-Distinct cfg.n 0 cfg.n (omega arith))
        (count_up-In l 0 cfg.n (omega arith) (omega arith))
      ∙ length-count_up 0 cfg.n in
    let f =
      fill_parts-Filled l servers [] (zeros (k + 1)) (zeros k) (2 * k + 1)
        (zeros_append (k + 1) k ∙ ap zeros (omega arith)) (omega (arith, less, odd)) in
    let one_left : 2 * k + 1 - length (others l servers) ≡ 1 = omega (arith, less, odd) in
    let one : f.q1 ++ f.q2 ≡ others l servers ++ (0 ∷ []) =
      f.both ∙ ap (λ r. others l servers ++ zeros r) one_left in
    let (q, e, size, at, total) =
      with_leader l f.q1 f.q2 (others l servers) (omega (arith, f.size2, length-zeros k)) one in
    record {
      p1 = f.q1;
      p2 = q;
      made = make_partition-some k l found cfg f.q1 f.q2 q h half f.ends e;
      size1 = f.size1 ∙ length-zeros (k + 1);
      size2 = size ∙ f.size2 ∙ length-zeros k;
      last = at;
      total = total;
    }

-- An odd number of servers, more than one, all started: `make_partition` makes a part of more than half
-- of the servers and one of the others, which has the leader, if there is one. Then `partition` into
-- these parts does not panic, and afterwards the end from a server to another is on exactly if both are
-- in the same part.
pub minority_gets_leader :
    (name : ℕ → ℕ → ℕ) (k l : ℕ) (found : Bool) (cfg : Config)
    → Started name cfg
    → cfg.n ≡ 2 * k + 1
    → 0 < k
    → leader cfg ≡ some (found, l)
    → (p1 : List ℕ) × (p2 : List ℕ) × (cfg' : Config) × (make_partition cfg ≡ some (p1, p2))
      × (length p1 ≡ k + 1)
      × (length p2 ≡ k)
      × In l p2
      × (partition p1 p2 cfg ≡ some cfg')
      × ((a b : ℕ)
          → a < cfg.n
          → b < cfg.n
          → (SamePart p1 p2 a b → cfg'.net.enabled (name a b) ≡ some true)
            × (¬ SamePart p1 p2 a b → cfg'.net.enabled (name a b) ≡ some false))
minority_gets_leader name k l found cfg s odd pos h =
    let servers = count_up 0 cfg.n in
    let lt : l < cfg.n = elim (leader_among-In servers cfg found l h) [
      | inl i ↦ omega (arith, (In-count_up l 0 cfg.n i).1)
      | inr e ↦ omega (arith, e, odd)
    ] in
    let p = make_partition-Parts k l found cfg odd pos lt h in
    let rest-Distinct =
      others-Distinct cfg.n l servers (count_up-Distinct cfg.n 0 cfg.n (omega arith)) in
    let whole : Distinct cfg.n (p.p1 ++ p.p2) = subst (Distinct cfg.n) (sym p.total) (
      append-Distinct cfg.n l (others l servers) rest-Distinct lt
        (λ i. (In-others l l servers i).1 refl)) in
    let (d1, d2, apart) = Distinct-parts cfg.n p.p1 p.p2 whole in
    let (cfg', e, ends) = partition_splits name p.p1 p.p2 cfg s d1 d2 apart in
    let in_parts = λ (x : ℕ) (ltx : x < cfg.n).
      In-append x p.p1 p.p2 (subst (In x) (sym p.total) (everyone l cfg.n x ltx)) in
    (
      p.p1,
      p.p2,
      cfg',
      p.made,
      p.size1,
      p.size2,
      p.last,
      e,
      λ a b la lb. ends a b (in_parts a la) (in_parts b lb),
    )
