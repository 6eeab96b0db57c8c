-- ===== src/Raft/Config/Wiring.antt =====
-- raft/config.go: a peer's end for another peer is switched on exactly while both are connected.
use mit.Prelude.{
  ℕ, ◌<◌, ◌≡◌, ◌≢◌, inl, inr, refl, sym, ap, subst, ◌∙◌, Bool, true, false, ◌&&◌, Bool-cases,
  Option, none, some, Map, nat_key, arith, ℕ_discrete as dec_eq, get_or, >>=-eq-some, if◌then◌else◌,
}
use mit.Labrpc.Network.{Network, ClientEnd}
use mit.Raft.Config.{
  Config, End, skip, named, end_name, end_if_named, enable_ends, put_at, connect, disconnect,
}
use mit.Raft.Config.Enabling.{
  enable_ends-keeps, enable_ends-hit, enable_ends-miss, enable_ends-ends,
}

-- Of the tables: every end has been made, no two ends have one name, and an end is on exactly if both
-- peers are connected.
pub record Wires (n : ℕ) (ends : Map ℕ ClientEnd) (enabled : Map ℕ Bool)
    (endnames : ℕ → Option (ℕ → ℕ)) (connected : ℕ → Bool) : Type 0 where
  pub known :
      (i j name : ℕ)
      → i < n
      → j < n
      → end_name (endnames i) j ≡ named name
      → (c : ClientEnd) × (ends name ≡ some c)
  pub apart :
      (i j i' j' name : ℕ)
      → i < n
      → j < n
      → i' < n
      → j' < n
      → end_name (endnames i) j ≡ named name
      → end_name (endnames i') j' ≡ named name
      → (i ≡ i') × (j ≡ j')
  pub switched :
      (i j name : ℕ)
      → i < n
      → j < n
      → end_name (endnames i) j ≡ named name
      → get_or (enabled name) false ≡ (connected i && connected j)

abbrev pub Wired : {C : Type 0} → Config C → Type 0
Wired cfg = Wires cfg.n cfg.net.ends cfg.net.enabled cfg.endnames cfg.connected

-- Two loops over `Enable`, one after the other.
pub record Switched (first second : ℕ → End) (n : ℕ) (on : Bool) (net net' : Network) : Type 0 where
  same_ends : net'.ends ≡ net.ends
  hit_first : (name k : ℕ) → k < n → first k ≡ named name → net'.enabled name ≡ some on
  hit_second : (name k : ℕ) → k < n → second k ≡ named name → net'.enabled name ≡ some on
  missed :
      (name : ℕ)
      → ((k : ℕ) → k < n → first k ≢ named name)
      → ((k : ℕ) → k < n → second k ≢ named name)
      → net'.enabled name ≡ net.enabled name

both_loops :
    (first second : ℕ → End) (n : ℕ) (on : Bool) (net net1 net2 : Network)
    → enable_ends first 0 n on net ≡ some net1
    → enable_ends second 0 n on net1 ≡ some net2
    → Switched first second n on net net2
both_loops first second n on net net1 net2 h1 h2 = record {
  same_ends = enable_ends-ends second on 0 n net1 h2 ∙ enable_ends-ends first on 0 n net h1;
  hit_first = λ name k lt at.
      enable_ends-keeps second on 0 n net1 name h2
        (enable_ends-hit first on 0 n net name k h1 (omega arith) (omega arith) at);
  hit_second =
      λ name k lt at. enable_ends-hit second on 0 n net1 name k h2 (omega arith) (omega arith) at;
  missed = λ name m1 m2.
      enable_ends-miss second on 0 n net1 name h2 (λ k le lt. m2 k (omega arith))
      ∙ enable_ends-miss first on 0 n net name h1 (λ k le lt. m1 k (omega arith));
}

if_named :
    (o : Option (ℕ → ℕ)) (j name : ℕ) → end_name o j ≡ named name → end_if_named o j ≡ named name
if_named none j name h = cc
if_named (some names) j name h = h

named_if :
    (o : Option (ℕ → ℕ)) (j name : ℕ) → end_if_named o j ≡ named name → end_name o j ≡ named name
named_if none j name h = cc
named_if (some names) j name h = h

-- where a loop of `connect` names an end, the other peer is connected
named_then :
    (b : Bool) (e : End) (name : ℕ)
    → (if b then e else skip) ≡ named name
    → (b ≡ true) × (e ≡ named name)
named_then true e name h = (refl, h)
named_then false e name h = cc

module _ {C : Type 0} where
  pub disconnect-parts :
      (i : ℕ) (cfg : Config C) {cfg' : Config C}
      → disconnect i cfg ≡ some cfg'
      → (net' : Network) × Switched
          (end_if_named (cfg.endnames i))
          (λ j. end_if_named (cfg.endnames j) i)
          cfg.n
          false
          cfg.net
          net'
        × (cfg' ≡ record cfg { connected = put_at i false cfg.connected; net = net' })
  unfolding disconnect
  disconnect-parts i cfg h =
      let (net1, h1, rest) =
        >>=-eq-some (enable_ends (end_if_named (cfg.endnames i)) 0 cfg.n false cfg.net) _ h in
      let (net2, h2, last) =
        >>=-eq-some (enable_ends (λ j. end_if_named (cfg.endnames j) i) 0 cfg.n false net1) _
          rest in
      (net2, both_loops _ _ cfg.n false cfg.net net1 net2 h1 h2, ground arith)

  pub disconnect-Wired :
      (i : ℕ) (cfg : Config C) {cfg' : Config C}
      → i < cfg.n
      → disconnect i cfg ≡ some cfg'
      → Wired cfg
      → Wired cfg'
  disconnect-Wired i cfg lt h w =
      let (net', s, last) = disconnect-parts i cfg h in
      subst Wired (sym last) (record {
        known = λ a b name la lb at.
            let (c, k) = w.known a b name la lb at in (c, ap (λ f. f name) s.same_ends ∙ k);
        apart = w.apart;
        switched = λ a b name la lb at. elim (dec_eq i a) [
          | yes out ↦
              let off = s.hit_first name b lb (
                if_named (cfg.endnames i) b name
                  (subst (λ x. end_name (cfg.endnames x) b ≡ named name) (sym out) at)) in
              ground (arith, off, out)
          | no other ↦ elim (dec_eq i b) [
            | yes into ↦
                let off = s.hit_second name a la (
                  if_named (cfg.endnames a) i name
                    (subst (λ x. end_name (cfg.endnames a) x ≡ named name) (sym into) at)) in
                ground (arith, off, into)
            | no other' ↦
                let same =
                  s.missed name
                    (λ k lk atk. other (
                      (w.apart i k a b name lt lk la lb (named_if (cfg.endnames i) k name atk)
                        at).0))
                    (λ k lk atk. other' (
                      (w.apart k i a b name lk lt la lb (named_if (cfg.endnames k) i name atk)
                        at).1)) in
                ground (arith, same, w.switched a b name la lb at)
          ]
        ];
      })

  -- the ends that the two loops of `connect` switch on
  abbrev outgoing : ℕ → Config C → ℕ → End
  outgoing i cfg j = if put_at i true cfg.connected j then end_name (cfg.endnames i) j else skip

  abbrev incoming : ℕ → Config C → ℕ → End
  incoming i cfg j = if put_at i true cfg.connected j then end_name (cfg.endnames j) i else skip

  pub connect-parts :
      (i : ℕ) (cfg : Config C) {cfg' : Config C}
      → connect i cfg ≡ some cfg'
      → (net' : Network) × Switched (outgoing i cfg) (incoming i cfg) cfg.n true cfg.net net'
        × (cfg' ≡ record cfg { connected = put_at i true cfg.connected; net = net' })
  unfolding connect
  connect-parts i cfg h =
      let (net1, h1, rest) = >>=-eq-some (enable_ends (outgoing i cfg) 0 cfg.n true cfg.net) _ h in
      let (net2, h2, last) = >>=-eq-some (enable_ends (incoming i cfg) 0 cfg.n true net1) _ rest in
      (net2, both_loops _ _ cfg.n true cfg.net net1 net2 h1 h2, ground arith)

  pub connect-Wired :
      (i : ℕ) (cfg : Config C) {cfg' : Config C}
      → i < cfg.n
      → connect i cfg ≡ some cfg'
      → Wired cfg
      → Wired cfg'
  connect-Wired i cfg lt h w =
      let (net', s, last) = connect-parts i cfg h in
      let on = put_at i true cfg.connected in
      subst Wired (sym last) (record {
        known = λ a b name la lb at.
            let (c, k) = w.known a b name la lb at in (c, ap (λ f. f name) s.same_ends ∙ k);
        apart = w.apart;
        switched = λ a b name la lb at.
            let from =
              λ (x : i ≡ a). subst (λ x. end_name (cfg.endnames x) b ≡ named name) (sym x) at in
            let into =
              λ (x : i ≡ b). subst (λ x. end_name (cfg.endnames a) x ≡ named name) (sym x) at in
            let missed = λ (m1 : i ≡ a → on b ≡ false) (m2 : i ≡ b → on a ≡ false).
              s.missed name
                (λ k lk atk.
                  let (conn, atk') = named_then (on k) (end_name (cfg.endnames i) k) name atk in
                  let (ea, eb) = w.apart i k a b name lt lk la lb atk' at in
                  cc (subst (λ x. on x ≡ true) eb conn, m1 ea))
                (λ k lk atk.
                  let (conn, atk') = named_then (on k) (end_name (cfg.endnames k) i) name atk in
                  let (ea, eb) = w.apart k i a b name lk lt la lb atk' at in
                  cc (subst (λ x. on x ≡ true) ea conn, m2 eb)) in
            let old = w.switched a b name la lb at in
            elim (dec_eq i a) [
              | yes out ↦ elim (Bool-cases (on b)) [
                | inl ob ↦
                    let hit = s.hit_first name b lb (rw ob (from out)) in
                    ground (arith, hit, out, ob)
                | inr ob ↦
                    let same = missed (λ x. ob) (λ x. absurd (ground (arith, x, ob))) in
                    ground (arith, same, old, ob)
              ]
              | no other ↦ elim (dec_eq i b) [
                | yes back ↦ elim (Bool-cases (on a)) [
                  | inl oa ↦
                      let hit = s.hit_second name a la (rw oa (into back)) in
                      ground (arith, hit, back, oa)
                  | inr oa ↦
                      let same = missed (λ x. absurd (other x)) (λ x. oa) in
                      ground (arith, same, old, oa)
                ]
                | no other' ↦
                    let same = missed (λ x. absurd (other x)) (λ x. absurd (other' x)) in
                    ground (arith, same, old, other, other')
              ]
            ];
      })
