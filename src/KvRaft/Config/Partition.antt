-- ===== src/KvRaft/Config/Partition.antt =====
-- kvraft/config.go: `partition` connects the servers of each part with each other, and with no server
-- of the other part.
use mit.Prelude.{
  ℕ, ◌<◌, ◌≡◌, ◌⊎◌, inl, inr, refl, sym, ap, subst, ◌∙◌, Bool, true, false, Bool-cases, some, List,
  [], ◌∷◌, nat_key, ==_iff, ◌==◌, arith, In, Distinct, Distinct-length,
}
use mit.Labrpc.Network.{Network, enable}
use mit.KvRaft.Config.{Config, partition}
use mit.KvRaft.Config.Turns.{writes, Started, cut, joined, turns, Below, moved, isolate_lem}

-- One end: what it is set to is always the same.
writes-keeps :
    (f : ℕ → ℕ) (js : List ℕ) (on v : Bool) (name : ℕ) (net : Network)
    → ((j : ℕ) → In j js → f j ≡ name → on ≡ v)
    → net.enabled name ≡ some v
    → (writes f js on net).enabled name ≡ some v
unfolding writes enable
writes-keeps f [] on v name net fits h = h
writes-keeps f (j ∷ js) on v name net fits h =
    writes-keeps f js on v name (enable (f j) on net) (λ k i. fits k (inr i))
      (elim (Bool-cases (f j == name)) [
        | inl same ↦ ground (arith, same, fits j (inl refl) ((==_iff (f j) name).0 same))
        | inr other ↦ ground (arith, other, h)
      ])

writes-hits :
    (f : ℕ → ℕ) (js : List ℕ) (on : Bool) (k : ℕ) (net : Network)
    → In k js
    → (writes f js on net).enabled (f k) ≡ some on
unfolding writes enable
writes-hits f (j ∷ js) on k net (inr later) = writes-hits f js on k (enable (f j) on net) later
writes-hits f (j ∷ js) on k net (inl same) =
    writes-keeps f js on on (f k) (enable (f j) on net) (λ x i e. refl)
      (ground (arith, (==_iff (f j) (f k)).1 (ap f (sym same))))
writes-hits f [] on k net i = absurd i

-- What the turns of the servers in `mine` set the end from `a` to `b` to, if they set it.
record Fits (mine other : List ℕ) (a b : ℕ) (v : Bool) : Type 0 where
  together : In a mine → In b mine → true ≡ v
  outwards : In a mine → In b other → false ≡ v
  inwards : In a other → In b mine → false ≡ v

module _ (name : ℕ → ℕ → ℕ) (cfg : Config) (s : Started name cfg) (mine other : List ℕ)
    (lm : Below cfg.n mine) (lo : Below cfg.n other) (a b : ℕ) (la : a < cfg.n) (lb : b < cfg.n)
    (v : Bool) (fits : Fits mine other a b v) where
  abbrev SetTo : Network → Type 0
  SetTo net = net.enabled (name a b) ≡ some v

  cut-keeps : (i : ℕ) (net : Network) → In i mine → SetTo net → SetTo (cut name i other net)
  cut-keeps i net im h =
      writes-keeps (λ j. name j i) other false v (name a b) _
        (λ j io e.
          let (ea, eb) = s.apart j i a b (lo j io) (lm i im) la lb e in
          fits.inwards (subst (λ x. In x other) ea io) (subst (λ x. In x mine) eb im))
        (writes-keeps (name i) other false v (name a b) net
          (λ j io e.
            let (ea, eb) = s.apart i j a b (lm i im) (lo j io) la lb e in
            fits.outwards (subst (λ x. In x mine) ea im) (subst (λ x. In x other) eb io))
          h)

  incoming-keeps :
      (i : ℕ) (net : Network) → In i mine → SetTo net → SetTo (writes (λ j. name j i) mine true net)
  incoming-keeps i net im h =
      writes-keeps (λ j. name j i) mine true v (name a b) net
        (λ j jm e.
          let (ea, eb) = s.apart j i a b (lm j jm) (lm i im) la lb e in
          fits.together (subst (λ x. In x mine) ea jm) (subst (λ x. In x mine) eb im))
        h

  joined-keeps : (i : ℕ) (net : Network) → In i mine → SetTo net → SetTo (joined name i mine net)
  joined-keeps i net im h = incoming-keeps i _ im (
      writes-keeps (name i) mine true v (name a b) net
        (λ j jm e.
          let (ea, eb) = s.apart i j a b (lm i im) (lm j jm) la lb e in
          fits.together (subst (λ x. In x mine) ea im) (subst (λ x. In x mine) eb jm))
        h)

  turns-keeps :
      (todo : List ℕ) (net : Network)
      → ((i : ℕ) → In i todo → In i mine)
      → SetTo net
      → SetTo (turns name todo mine other net)
  unfolding turns
  turns-keeps [] net sub h = h
  turns-keeps (i ∷ todo) net sub h =
      turns-keeps todo _ (λ j k. sub j (inr k))
        (joined-keeps i _ (sub i (inl refl)) (cut-keeps i net (sub i (inl refl)) h))

  -- The turn of `a` sets it.
  turn-hits :
      (net : Network)
      → In a mine
      → (In b mine) ⊎ (In b other)
      → SetTo (joined name a mine (cut name a other net))
  turn-hits net am (inl bm) =
      incoming-keeps a _ am (writes-hits (name a) mine true b _ bm ∙ ap some (fits.together am bm))
  turn-hits net am (inr bo) = joined-keeps a _ am (
      writes-keeps (λ j. name j a) other false v (name a b) _
        (λ j jo e.
          let (ea, eb) = s.apart j a a b (lo j jo) la la lb e in
          fits.inwards (subst (λ x. In x other) ea jo) (subst (λ x. In x mine) eb am))
        (writes-hits (name a) other false b net bo ∙ ap some (fits.outwards am bo)))

  turns-hits :
      (todo : List ℕ) (net : Network)
      → ((i : ℕ) → In i todo → In i mine)
      → In a todo
      → (In b mine) ⊎ (In b other)
      → SetTo (turns name todo mine other net)
  unfolding turns
  turns-hits [] net sub at side = absurd at
  turns-hits (i ∷ todo) net sub (inr later) side =
      turns-hits todo _ (λ j k. sub j (inr k)) later side
  turns-hits (i ∷ todo) net sub (inl same) side =
      turns-keeps todo _ (λ j k. sub j (inr k))
        (subst (λ x. SetTo (joined name x mine (cut name x other net))) same
          (turn-hits net (subst (λ x. In x mine) (sym same) (sub i (inl refl))) side))

Distinct-Below : (n : ℕ) (xs : List ℕ) → Distinct n xs → Below n xs
Distinct-Below n [] d j i = absurd i
Distinct-Below n (x ∷ xs) (lt, new, d) j (inl same) = omega (arith, same)
Distinct-Below n (x ∷ xs) (lt, new, d) j (inr later) = Distinct-Below n xs d j later

-- The server is in one of the parts.
abbrev pub InParts : List ℕ → List ℕ → ℕ → Type 0
InParts p1 p2 a = In a p1 ⊎ In a p2

abbrev pub SamePart : List ℕ → List ℕ → ℕ → ℕ → Type 0
SamePart p1 p2 a b = (In a p1 × In b p1) ⊎ (In a p2 × In b p2)

swap_sum : {A B : Type 0} → A ⊎ B → B ⊎ A
swap_sum (inl a) = inr a
swap_sum (inr b) = inl b

same-Fits :
    (p1 p2 : List ℕ)
    → ((x : ℕ) → In x p1 → In x p2 → ⊥)
    → (a b : ℕ) → SamePart p1 p2 a b
    → Fits p1 p2 a b true
same-Fits p1 p2 apart a b same = record {
  together = λ i j. refl;
  outwards = λ i j. elim same [
    | inl (a1, b1) ↦ absurd (apart b b1 j)
    | inr (a2, b2) ↦ absurd (apart a i a2)
  ];
  inwards = λ i j. elim same [
    | inl (a1, b1) ↦ absurd (apart a a1 i)
    | inr (a2, b2) ↦ absurd (apart b j b2)
  ];
}

other-Fits : (p1 p2 : List ℕ) (a b : ℕ) → ¬ SamePart p1 p2 a b → Fits p1 p2 a b false
other-Fits p1 p2 a b other = record {
  together = λ i j. absurd (other (inl (i, j)));
  outwards = λ i j. refl;
  inwards = λ i j. refl;
}

-- After the turns of both parts.
both_turns :
    (name : ℕ → ℕ → ℕ) (p1 p2 : List ℕ) (cfg : Config)
    → Started name cfg
    → Below cfg.n p1
    → Below cfg.n p2
    → (a b : ℕ) (v : Bool) → Fits p1 p2 a b v
    → Fits p2 p1 a b v
    → InParts p1 p2 a
    → InParts p1 p2 b
    → (turns name p2 p2 p1 (turns name p1 p1 p2 cfg.net)).enabled (name a b) ≡ some v
both_turns name p1 p2 cfg s l1 l2 a b v f g ia ib =
    let la : a < cfg.n = elim ia [ inl i ↦ l1 a i | inr i ↦ l2 a i ] in
    let lb : b < cfg.n = elim ib [ inl i ↦ l1 b i | inr i ↦ l2 b i ] in
    elim ia [
      | inl a1 ↦
          turns-keeps name cfg s p2 p1 l2 l1 a b la lb v g p2 _ (λ i k. k)
            (turns-hits name cfg s p1 p2 l1 l2 a b la lb v f p1 cfg.net (λ i k. k) a1 ib)
      | inr a2 ↦ turns-hits name cfg s p2 p1 l2 l1 a b la lb v g p2 _ (λ i k. k) a2 (swap_sum ib)
    ]

-- Servers that have been started, in two parts without a common server: `partition` does not panic, and
-- afterwards the end from one of these servers to another is on if both are in the same part, and off
-- if they are not.
pub partition_splits :
    (name : ℕ → ℕ → ℕ) (p1 p2 : List ℕ) (cfg : Config)
    → Started name cfg
    → Distinct cfg.n p1
    → Distinct cfg.n p2
    → ((x : ℕ) → In x p1 → In x p2 → ⊥)
    → (cfg' : Config) × (partition p1 p2 cfg ≡ some cfg')
      × ((a b : ℕ)
          → InParts p1 p2 a
          → InParts p1 p2 b
          → (SamePart p1 p2 a b → cfg'.net.enabled (name a b) ≡ some true)
            × (¬ SamePart p1 p2 a b → cfg'.net.enabled (name a b) ≡ some false))
unfolding partition
partition_splits name p1 p2 cfg s d1 d2 apart =
    let l1 = Distinct-Below cfg.n p1 d1 in
    let l2 = Distinct-Below cfg.n p2 d2 in
    let net1 = turns name p1 p1 p2 cfg.net in
    let net2 = turns name p2 p2 p1 net1 in
    let set =
      λ (a b : ℕ) (v : Bool) (ia : InParts p1 p2 a) (ib : InParts p1 p2 b) (f : Fits p1 p2 a b v)
          (g : Fits p2 p1 a b v).
        (both_turns name p1 p2 cfg s l1 l2 a b v f g ia ib) in
    (
      record cfg { net = net2 },
      rw (isolate_lem name p1 p1 p2 cfg s l1 l1 l2 (Distinct-length cfg.n p2 d2)) (
          isolate_lem name p2 p2 p1 (record cfg { net = net1 }) (moved name cfg net1 s) l2 l2 l1
            (Distinct-length cfg.n p1 d1)),
      λ a b ia ib. (
        (λ same.
            set a b true ia ib (same-Fits p1 p2 apart a b same)
              (same-Fits p2 p1 (λ x i j. apart x j i) a b (swap_sum same))),
        λ other.
            set a b false ia ib (other-Fits p1 p2 a b other)
              (other-Fits p2 p1 a b (λ t. other (swap_sum t))),
      ),
    )
