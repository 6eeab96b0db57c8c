-- ===== src/Raft/Config/Steps.antt =====
-- raft/config.go: a network of peers that are connected, disconnected, crashed and started again.
use mathlib.Core.Option.{some-injective}
use mit.Prelude.{
  ℕ, zero, suc, ◌+◌, ◌<◌, ◌≡◌, refl, sym, ap, subst, ◌∙◌, Bool, true, false, ◌&&◌, some, nat_key,
  arith, get_or, >>=-eq-some,
}
use mit.Raft.Types.{Tick}
use mit.Raft.Persist.{Codec}
use mit.Labrpc.Network.{read_endname_info}
use mit.Labrpc.Request.{Route, route}
use mit.Raft.Config.{Config, named, end_name, new_config, connect, disconnect}
use mit.Raft.Config.Nodes.{SnapshotCodec, crash1, start1, start_all, connect_all, make_config}
use mit.Raft.Config.Wiring.{Wires, Wired, connect-Wired, disconnect-Wired, connect-parts}
use mit.Raft.Config.Crash.{crash1-Down}
use mit.Raft.Config.Restart.{start1-Started}

module _ {C : Type 0} (codec : Codec C) (snapshots : SnapshotCodec C) where
  -- What happens between two states of a test; `elsewhere` is everything that leaves the ends and the
  -- connections alone: the peers run, requests are answered, the checks look at the peers.
  pub data Step : Config C → Config C → Type 0 where
    connects : {cfg cfg' : Config C} (i : ℕ) → i < cfg.n → connect i cfg ≡ some cfg' → Step cfg cfg'
    disconnects :
        {cfg cfg' : Config C} (i : ℕ) → i < cfg.n → disconnect i cfg ≡ some cfg' → Step cfg cfg'
    crashes : {cfg cfg' : Config C} (i : ℕ) → i < cfg.n → crash1 i cfg ≡ some cfg' → Step cfg cfg'
    starts :
        {cfg cfg' : Config C} (i : ℕ) (names : ℕ → ℕ) (server : ℕ) (tick : Tick)
        → i < cfg.n
        → start1 codec snapshots i names server tick cfg ≡ some cfg'
        → Step cfg cfg'
    elsewhere :
        {cfg cfg' : Config C}
        → cfg'.n ≡ cfg.n
        → cfg'.net.ends ≡ cfg.net.ends
        → cfg'.net.enabled ≡ cfg.net.enabled
        → cfg'.endnames ≡ cfg.endnames
        → cfg'.connected ≡ cfg.connected
        → Step cfg cfg'

  pub data Reaches : Config C → Config C → Type 0 where
    here : {cfg : Config C} → Reaches cfg cfg
    next : {cfg cfg' cfg'' : Config C} → Reaches cfg cfg' → Step cfg' cfg'' → Reaches cfg cfg''

  Step-Wired : {cfg cfg' : Config C} → Step cfg cfg' → Wired cfg → Wired cfg'
  Step-Wired {cfg} (connects i lt h) w = connect-Wired i cfg lt h w
  Step-Wired {cfg} (disconnects i lt h) w = disconnect-Wired i cfg lt h w
  Step-Wired {cfg} (crashes i lt h) w = (crash1-Down i cfg lt h).wired w
  Step-Wired {cfg} (starts i names server tick lt h) w =
      (start1-Started codec snapshots i names server tick cfg lt h).wired w
  Step-Wired {cfg} {cfg'} (elsewhere n ends enabled endnames connected) w =
      subst (λ k. Wires k cfg'.net.ends cfg'.net.enabled cfg'.endnames cfg'.connected) (sym n)
        (subst (λ e. Wires cfg.n e cfg'.net.enabled cfg'.endnames cfg'.connected) (sym ends)
          (subst (λ e. Wires cfg.n cfg.net.ends e cfg'.endnames cfg'.connected) (sym enabled)
            (subst (λ e. Wires cfg.n cfg.net.ends cfg.net.enabled e cfg'.connected) (sym endnames)
              (subst (λ e. Wires cfg.n cfg.net.ends cfg.net.enabled cfg.endnames e) (sym connected)
                w))))

  Reaches-Wired : {cfg cfg' : Config C} → Reaches cfg cfg' → Wired cfg → Wired cfg'
  Reaches-Wired here w = w
  Reaches-Wired (next steps step) w = Step-Wired step (Reaches-Wired steps w)

  new_config-Wired : (n : ℕ) (unreliable : Bool) → Wired (new_config {C = C} n unreliable)
  new_config-Wired n unreliable = record {
    known = λ i j name li lj at. absurd (cc at);
    apart = λ i j i' j' name li lj li' lj' at at'. absurd (cc at);
    switched = λ i j name li lj at. absurd (cc at);
  }

  start_all-Wired :
      (names : ℕ → ℕ → ℕ) (server : ℕ → ℕ) (ticks : ℕ → Tick) (i left : ℕ) (cfg : Config C)
      {cfg' : Config C}
      → i + left ≡ cfg.n
      → start_all codec snapshots names server ticks i left cfg ≡ some cfg'
      → Wired cfg
      → Wired cfg' × (cfg'.n ≡ cfg.n)
  unfolding start_all
  start_all-Wired names server ticks i zero cfg {cfg'} e h w =
      subst (λ c. Wired c × (c.n ≡ cfg.n)) (some-injective cfg cfg' h) (w, refl)
  start_all-Wired names server ticks i (suc left) cfg e h w =
      let (mid, h1, rest) =
        >>=-eq-some (start1 codec snapshots i (names i) (server i) (ticks i) cfg) _ h in
      let s =
        start1-Started codec snapshots i (names i) (server i) (ticks i) cfg (omega (arith, e)) h1 in
      let (w', n') =
        start_all-Wired names server ticks (i + 1) left mid (omega (arith, e, s.same_n)) rest
          (s.wired w) in
      (w', n' ∙ s.same_n)

  connect_all-Wired :
      (i left : ℕ) (cfg : Config C) {cfg' : Config C}
      → i + left ≡ cfg.n
      → connect_all i left cfg ≡ some cfg'
      → Wired cfg
      → Wired cfg'
  unfolding connect_all
  connect_all-Wired i zero cfg {cfg'} e h w = subst Wired (some-injective cfg cfg' h) w
  connect_all-Wired i (suc left) cfg e h w =
      let (mid, h1, rest) = >>=-eq-some (connect i cfg) _ h in
      let (net', sw, same) = connect-parts i cfg h1 in
      let n' : mid.n ≡ cfg.n = ap (λ c. c.n) same in
      connect_all-Wired (i + 1) left mid (omega (arith, e, n')) rest
        (connect-Wired i cfg (omega (arith, e)) h1 w)

  make_config-Wired :
      (names : ℕ → ℕ → ℕ) (server : ℕ → ℕ) (ticks : ℕ → Tick) (n : ℕ) (unreliable : Bool)
      {cfg : Config C}
      → make_config codec snapshots names server ticks n unreliable ≡ some cfg
      → Wired cfg
  unfolding make_config
  make_config-Wired names server ticks n unreliable h =
      let (mid, h1, rest) =
        >>=-eq-some (start_all codec snapshots names server ticks 0 n (new_config n unreliable)) _
          h in
      let (w, same) =
        start_all-Wired names server ticks 0 n (new_config n unreliable) (omega arith) h1
          (new_config-Wired n unreliable) in
      connect_all-Wired 0 n mid (omega (arith, same)) rest w

  -- Whatever tests do to a configuration that `make_config` has made, while they do not fail: the end
  -- from a peer `i` to a peer `j` is enabled exactly if both are connected, and a request over it has a
  -- route only then.
  pub routed_if_connected :
      (names : ℕ → ℕ → ℕ) (server : ℕ → ℕ) (ticks : ℕ → Tick) (n : ℕ) (unreliable : Bool)
      {made cfg : Config C}
      → make_config codec snapshots names server ticks n unreliable ≡ some made
      → Reaches made cfg
      → (i j name : ℕ) → i < cfg.n
      → j < cfg.n
      → end_name (cfg.endnames i) j ≡ named name
      → (get_or (cfg.net.enabled name) false ≡ (cfg.connected i && cfg.connected j))
        × ((r : Route)
            → route name cfg.net ≡ some r
            → (cfg.connected i ≡ true) × (cfg.connected j ≡ true))
  unfolding route read_endname_info
  routed_if_connected names server ticks n unreliable {made} {cfg} h steps i j name li lj at =
      let on =
        (Reaches-Wired steps (make_config-Wired names server ticks n unreliable h)).switched i j
          name li lj at in
      (on, λ r e. ground (arith, on, e))
