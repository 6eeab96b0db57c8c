-- ===== src/Raft/Config/Enabling.antt =====
-- raft/config.go: what the loops over `Enable` and over `MakeEnd` do to the tables of the network.
use mit.Prelude.{
  ℕ, zero, suc, ◌+◌, ◌≤◌, ◌<◌, ◌≡◌, ◌≢◌, inl, inr, sym, ap, subst, ◌∙◌, Bool, false, Bool-cases,
  Option-cases, none, some, nat_key, ==_iff, ◌==◌, arith, dec_lt, >>=-eq-some,
}
use mit.Labrpc.Network.{Network, ClientEnd, enable, make_end}
use mit.Labrpc.Network as Network
use mit.Raft.Config.{End, skip, missing, named, enable_end, enable_ends}
use mit.Raft.Config.Nodes.{make_ends}

pub named_inj : (a b : ℕ) → named a ≡ named b → a ≡ b
named_inj a b h = cc

-- One call.
enable_end-hit :
    (e : End) (on : Bool) (net : Network) {net' : Network} (name : ℕ)
    → enable_end e on net ≡ some net'
    → e ≡ named name
    → net'.enabled name ≡ some on
unfolding enable
enable_end-hit skip on net name h same = cc
enable_end-hit missing on net name h same = cc
enable_end-hit (named n) on net name h same = grind (arith, ==_iff n name, named_inj n name)

enable_end-miss :
    (e : End) (on : Bool) (net : Network) {net' : Network} (name : ℕ)
    → enable_end e on net ≡ some net'
    → e ≢ named name
    → net'.enabled name ≡ net.enabled name
unfolding enable
enable_end-miss skip on net name h other = cc
enable_end-miss missing on net name h other = cc
enable_end-miss (named n) on net name h other = elim (Bool-cases (n == name)) [
  | inl same ↦ absurd (other (ap named ((==_iff n name).0 same)))
  | inr apart ↦ ground (arith, apart)
]

enable_end-keeps :
    (e : End) (on : Bool) (net : Network) {net' : Network} (name : ℕ)
    → enable_end e on net ≡ some net'
    → net.enabled name ≡ some on
    → net'.enabled name ≡ some on
unfolding enable
enable_end-keeps skip on net name h old = cc
enable_end-keeps missing on net name h old = cc
enable_end-keeps (named n) on net name h old = ground arith

enable_end-ends :
    (e : End) (on : Bool) (net : Network) {net' : Network}
    → enable_end e on net ≡ some net'
    → net'.ends ≡ net.ends
unfolding enable
enable_end-ends skip on net h = ground arith
enable_end-ends missing on net h = cc
enable_end-ends (named n) on net h = ground arith

-- The loop, call by call.
enable_ends-suc :
    (ends : ℕ → End) (j left : ℕ) (on : Bool) (net : Network) {net' : Network}
    → enable_ends ends j (suc left) on net ≡ some net'
    → (net1 : Network) × (enable_end (ends j) on net ≡ some net1)
      × (enable_ends ends (j + 1) left on net1 ≡ some net')
unfolding enable_ends
enable_ends-suc ends j left on net h =
    >>=-eq-some (enable_end (ends j) on net) (enable_ends ends (j + 1) left on) h

module _ (ends : ℕ → End) (on : Bool) where
  pub enable_ends-keeps :
      (j left : ℕ) (net : Network) {net' : Network} (name : ℕ)
      → enable_ends ends j left on net ≡ some net'
      → net.enabled name ≡ some on
      → net'.enabled name ≡ some on
  enable_ends-keeps j zero net name h old = unfold enable_ends in ground arith
  enable_ends-keeps j (suc left) net name h old =
      let (net1, h1, h2) = enable_ends-suc ends j left on net h in
      enable_ends-keeps (j + 1) left net1 name h2 (enable_end-keeps (ends j) on net name h1 old)

  -- A name in the range of the loop is switched.
  pub enable_ends-hit :
      (j left : ℕ) (net : Network) {net' : Network} (name k : ℕ)
      → enable_ends ends j left on net ≡ some net'
      → j ≤ k
      → k < j + left
      → ends k ≡ named name
      → net'.enabled name ≡ some on
  enable_ends-hit j zero net name k h le lt at = absurd (omega arith)
  enable_ends-hit j (suc left) net name k h le lt at =
      let (net1, h1, h2) = enable_ends-suc ends j left on net h in
      elim (dec_lt j k) [
        | yes later ↦ enable_ends-hit (j + 1) left net1 name k h2 (omega arith) (omega arith) at
        | no here ↦
            let same : k ≡ j = omega arith in
            enable_ends-keeps (j + 1) left net1 name h2
              (enable_end-hit (ends j) on net name h1 (ap ends (sym same) ∙ at))
      ]

  -- Another name is left alone.
  pub enable_ends-miss :
      (j left : ℕ) (net : Network) {net' : Network} (name : ℕ)
      → enable_ends ends j left on net ≡ some net'
      → ((k : ℕ) → j ≤ k → k < j + left → ends k ≢ named name)
      → net'.enabled name ≡ net.enabled name
  enable_ends-miss j zero net name h apart = unfold enable_ends in ground arith
  enable_ends-miss j (suc left) net name h apart =
      let (net1, h1, h2) = enable_ends-suc ends j left on net h in
      enable_ends-miss (j + 1) left net1 name h2 (λ k le lt. apart k (omega arith) (omega arith))
      ∙ enable_end-miss (ends j) on net name h1 (apart j (omega arith) (omega arith))

  pub enable_ends-ends :
      (j left : ℕ) (net : Network) {net' : Network}
      → enable_ends ends j left on net ≡ some net'
      → net'.ends ≡ net.ends
  enable_ends-ends j zero net h = unfold enable_ends in ground arith
  enable_ends-ends j (suc left) net h =
      let (net1, h1, h2) = enable_ends-suc ends j left on net h in
      enable_ends-ends (j + 1) left net1 h2 ∙ enable_end-ends (ends j) on net h1

-- One call of `MakeEnd` that does not end the program: the name is new, the end is off, and the other
-- ends are as before.
make_end-new :
    (name : ℕ) (net : Network) {net' : Network} {c : ClientEnd}
    → make_end name net ≡ some (net', c)
    → (net.ends name ≡ none)
      × ((c' : ClientEnd) × (net'.ends name ≡ some c'))
      × (net'.enabled name ≡ some false)
unfolding make_end
make_end-new name net {net'} {c} h = elim (Option-cases (net.ends name)) [
  | inr (old, found) ↦ absurd (ground (arith, found))
  | inl new ↦ (
    new,
    (record { endname = name }, grind (arith, new, ==_iff name name)),
    grind (arith, new, ==_iff name name),
  )
]

make_end-old :
    (name : ℕ) (net : Network) {net' : Network} {c : ClientEnd} (other : ℕ) (old : ClientEnd)
    → make_end name net ≡ some (net', c)
    → net.ends other ≡ some old
    → (net'.ends other ≡ some old) × (net'.enabled other ≡ net.enabled other)
unfolding make_end
make_end-old name net other old h known = elim (Option-cases (net.ends name)) [
  | inr (old', found) ↦ absurd (ground (arith, found))
  | inl new ↦ elim (Bool-cases (name == other)) [
    | inl same ↦ let e = ap net.ends ((==_iff name other).0 same) in cc (sym new ∙ e, known)
    | inr apart ↦ (ground (arith, new, apart), ground (arith, new, apart))
  ]
]

module _ (names : ℕ → ℕ) where
  make_ends-suc :
      (j left : ℕ) (net : Network) {net' : Network}
      → make_ends names j (suc left) net ≡ some net'
      → (net1 : Network) × (c : ClientEnd) × (make_end (names j) net ≡ some (net1, c))
        × (make_ends names (j + 1) left (Network.connect (names j) j net1) ≡ some net')
  unfolding make_ends
  make_ends-suc j left net h =
      let ((net1, c), h1, h2) = >>=-eq-some (make_end (names j) net) _ h in (net1, c, h1, h2)

  -- What was there is left alone.
  pub make_ends-old :
      (j left : ℕ) (net : Network) {net' : Network} (other : ℕ) (old : ClientEnd)
      → make_ends names j left net ≡ some net'
      → net.ends other ≡ some old
      → (net'.ends other ≡ some old) × (net'.enabled other ≡ net.enabled other)
  make_ends-old j zero net other old h known = unfold make_ends in (ground arith, ground arith)
  make_ends-old j (suc left) net other old h known =
      let (net1, c, h1, h2) = make_ends-suc j left net h in
      let (known1, same1) = make_end-old (names j) net other old h1 known in
      let (known2, same2) =
        make_ends-old (j + 1) left (Network.connect (names j) j net1) other old h2
          (unfold Network.connect in known1) in
      (known2, same2 ∙ (unfold Network.connect in same1))

  -- An end that was new, and is there now, switched off.
  abbrev pub NewEnd : Network → Network → ℕ → Type 0
  NewEnd net net' name =
      (net.ends name ≡ none)
      × ((c : ClientEnd) × (net'.ends name ≡ some c))
      × (net'.enabled name ≡ some false)

  still_new :
      (name other j : ℕ) (net : Network) {net1 : Network} {c : ClientEnd}
      → make_end name net ≡ some (net1, c)
      → (Network.connect name j net1).ends other ≡ none
      → net.ends other ≡ none
  unfolding Network.connect
  still_new name other j net h fresh = elim (Option-cases (net.ends other)) [
    | inl new ↦ new
    | inr (old, known) ↦ cc (fresh, (make_end-old name net other old h known).0)
  ]

  -- The new ends are there, off, and all of them were new.
  pub make_ends-new :
      (j left : ℕ) (net : Network) {net' : Network} (k : ℕ)
      → make_ends names j left net ≡ some net'
      → j ≤ k
      → k < j + left
      → NewEnd net net' (names k)
  make_ends-new j zero net k h le lt = absurd (omega arith)
  make_ends-new j (suc left) net {net'} k h le lt =
      let (net1, c, h1, h2) = make_ends-suc j left net h in
      let (new, (c1, known1), off) = make_end-new (names j) net h1 in
      elim (dec_lt j k) [
        | no here ↦
            let at : j ≡ k = omega arith in
            let (known2, same2) =
              make_ends-old (j + 1) left (Network.connect (names j) j net1) (names j) c1 h2
                (unfold Network.connect in known1) in
            subst (λ x. NewEnd net net' (names x)) at
              (new, (c1, known2), same2 ∙ (unfold Network.connect in off))
        | yes later ↦
            let (fresh, known, off2) =
              make_ends-new (j + 1) left (Network.connect (names j) j net1) k h2 (omega arith)
                (omega arith) in
            (still_new (names j) (names k) j net h1 fresh, known, off2)
      ]

  -- And they are different from each other.
  pub make_ends-inj :
      (j left : ℕ) (net : Network) {net' : Network} (k k' : ℕ)
      → make_ends names j left net ≡ some net'
      → j ≤ k
      → k < k'
      → k' < j + left
      → names k ≢ names k'
  make_ends-inj j zero net k k' h le lt lt' = absurd (omega arith)
  make_ends-inj j (suc left) net k k' h le lt lt' =
      let (net1, c, h1, h2) = make_ends-suc j left net h in
      elim (dec_lt j k) [
        | yes later ↦
            make_ends-inj (j + 1) left (Network.connect (names j) j net1) k k' h2 (omega arith) lt
              (omega arith)
        | no here ↦ λ same.
            let at : j ≡ k = omega arith in
            let (new, (c1, known1), off) = make_end-new (names j) net h1 in
            let (fresh, known, off2) =
              make_ends-new (j + 1) left (Network.connect (names j) j net1) k' h2 (omega arith)
                (omega arith) in
            let e : names j ≡ names k' = ap names at ∙ same in
            let fresh' : net1.ends (names k') ≡ none = unfold Network.connect in fresh in
            cc (ap net1.ends e, known1, fresh')
      ]
