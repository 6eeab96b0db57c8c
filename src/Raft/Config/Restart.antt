-- ===== src/Raft/Config/Restart.antt =====
-- raft/config.go: `crash1` and `start1` keep the wiring, and a restart brings back what is durable.
use mathlib.Core.Option.{some-injective}
use mit.Prelude.{
  ℕ, ◌<◌, ◌≡◌, inl, inr, refl, sym, ap, subst, ◌∙◌, false, Option, none, some, [], nat_key, arith,
  dec_lt, get_or, >>=-eq-some,
}
use mit.Raft.Types.{Raft, Persister, Tick}
use mit.Raft.Persist.{Codec, durable}
use mit.Raft.Roles.{make}
use mit.Raft.Node.Durable.{IsDurable}
use mit.Raft.Node.Recovery.{make-apply_ch}
use mit.Labrpc.Network.{Network, ClientEnd, add_server}
use mit.Raft.Config.{Config, named, end_name, put_at}
use mit.Raft.Config.Nodes.{
  SnapshotCodec, disk, copied, saved_again, crash1, make_ends, next_persister, ingest_saved, start1,
}
use mit.Raft.Config.Enabling.{make_ends-old, make_ends-new, make_ends-inj}
use mit.Raft.Config.Wiring.{Wires, Wired}
use mit.Raft.Config.Crash.{
  new_name, put_same, restored, Down, crash1-Down, Ingested, ingest_saved-Ingested,
}

module _ {C : Type 0} where
  -- The peer that a start makes, and the wiring that it leaves.
  pub record Started (codec : Codec C) (i : ℕ) (tick : Tick) (cfg started : Config C) : Type 0 where
    pub wired : Wired cfg → Wired started
    pub same_n : started.n ≡ cfg.n
    pub running :
        started.rafts i
        ≡ some (make codec cfg.n i (next_persister (saved_again (copied (disk cfg i)))) tick)
    pub off : started.connected i ≡ false

  -- The tables after the new ends were made.
  fresh-Wires :
      (i : ℕ) (names : ℕ → ℕ) (down : Config C) {net : Network}
      → down.connected i ≡ false
      → make_ends names 0 down.n down.net ≡ some net
      → Wired down
      → Wires down.n net.ends net.enabled (put_at i (some names) down.endnames) down.connected
  fresh-Wires i names down {net} off h w =
      let new = λ (k : ℕ) (lt : k < down.n).
        make_ends-new names 0 down.n down.net k h (omega arith) (omega arith) in
      let old = λ (name : ℕ) (c : ClientEnd) (k : down.net.ends name ≡ some c).
        make_ends-old names 0 down.n down.net name c h k in
      -- a new end has no old name
      let strange : (a b k name : ℕ)
          → a < down.n
          → b < down.n
          → k < down.n
          → names k ≡ name
          → end_name (down.endnames a) b ≡ named name
          → ⊥ =
        λ a b k name la lb lk e at.
          let (c, known) = w.known a b name la lb at in
          cc (subst (λ x. down.net.ends x ≡ none) e (new k lk).0, known) in
      let inj : (b b' : ℕ) → b < down.n → b' < down.n → names b ≡ names b' → b ≡ b' =
        λ b b' lb lb' same. elim (dec_lt b b') [
          | yes less ↦
              absurd
                (make_ends-inj names 0 down.n down.net b b' h (omega arith) less (omega arith) same)
          | no above ↦ elim (dec_lt b' b) [
            | yes less ↦ absurd (
                make_ends-inj names 0 down.n down.net b' b h (omega arith) less (omega arith)
                  (sym same))
            | no below ↦ omega arith
          ]
        ] in
      record {
        known = λ a b name la lb at. elim (new_name i a b name names down.endnames at) [
          | inl (ia, e) ↦ subst (λ x. (c : ClientEnd) × (net.ends x ≡ some c)) e (new b lb).1
          | inr (ia, at') ↦ let (c, known) = w.known a b name la lb at' in (c, (old name c known).0)
        ];
        apart = λ a b a' b' name la lb la' lb' at at'.
            elim (new_name i a b name names down.endnames at) [
              | inl (ia, e) ↦ elim (new_name i a' b' name names down.endnames at') [
                | inl (ia', e') ↦ (sym ia ∙ ia', inj b b' lb lb' (e ∙ sym e'))
                | inr (ia', o') ↦ absurd (strange a' b' b name la' lb' lb e o')
              ]
              | inr (ia, o) ↦ elim (new_name i a' b' name names down.endnames at') [
                | inl (ia', e') ↦ absurd (strange a b b' name la lb lb' e' o)
                | inr (ia', o') ↦ w.apart a b a' b' name la lb la' lb' o o'
              ]
            ];
        switched = λ a b name la lb at. elim (new_name i a b name names down.endnames at) [
          | inl (ia, e) ↦
              let dark : net.enabled name ≡ some false =
                subst (λ x. net.enabled x ≡ some false) e (new b lb).2 in
              let idle : down.connected a ≡ false = subst (λ x. down.connected x ≡ false) ia off in
              ground (arith, dark, idle)
          | inr (ia, o) ↦
              let (c, known) = w.known a b name la lb o in
              ap (λ x. get_or x false) (old name c known).1 ∙ w.switched a b name la lb o
        ];
      }

  module _ (codec : Codec C) (snapshots : SnapshotCodec C) (i : ℕ) (names : ℕ → ℕ) (server : ℕ)
      (tick : Tick) (cfg : Config C) (lt : i < cfg.n) where
    -- the new ends, and the new peer
    abbrev wired_up : Config C → Network → Config C
    wired_up down net = record down {
      net = net;
      endnames = put_at i (some names) down.endnames;
      last_applied = put_at i 0 down.last_applied;
    }

    abbrev running : Option Persister → Config C → Config C
    running saved up = record up {
      saved = put_at i (some (next_persister saved)) up.saved;
      rafts = put_at i (some (make codec up.n i (next_persister saved) tick)) up.rafts;
      net = add_server i server up.net;
    }

    running-Started :
        (down : Config C) (net : Network) (up : Config C)
        → Down i cfg down
        → make_ends names 0 down.n down.net ≡ some net
        → Ingested (wired_up down net) up
        → Started codec i tick cfg (running (down.saved i) up)
    unfolding add_server
    running-Started down net up d h g = record {
      wired = λ w.
          subst (λ cn. Wires up.n up.net.ends up.net.enabled up.endnames cn) (sym g.same_connected)
            (subst (λ en. Wires up.n up.net.ends up.net.enabled en down.connected)
              (sym g.same_endnames)
              (subst
                (λ nt.
                  Wires up.n nt.ends nt.enabled (put_at i (some names) down.endnames)
                    down.connected)
                (sym g.same_net)
                (subst
                  (λ k.
                    Wires k net.ends net.enabled (put_at i (some names) down.endnames)
                      down.connected)
                  (sym g.same_n) (fresh-Wires i names down d.off h (d.wired w)))));
      same_n = g.same_n ∙ d.same_n;
      running =
          put_same i _ up.rafts
          ∙ ap (λ k. some (make codec k i (next_persister (down.saved i)) tick))
              (g.same_n ∙ d.same_n)
          ∙ ap (λ sv. some (make codec cfg.n i (next_persister sv) tick)) d.stored;
      off = ap (λ f. f i) g.same_connected ∙ d.off;
    }

    pub start1-Started :
        {cfg' : Config C}
        → start1 codec snapshots i names server tick cfg ≡ some cfg'
        → Started codec i tick cfg cfg'
    unfolding start1
    start1-Started {cfg'} h =
        let (down, h1, rest1) = >>=-eq-some (crash1 i cfg) _ h in
        let (net, h2, rest2) = >>=-eq-some (make_ends names 0 down.n down.net) _ rest1 in
        let (up, h3, last) =
          >>=-eq-some (ingest_saved snapshots i (down.saved i) (wired_up down net)) _ rest2 in
        subst (Started codec i tick cfg) (some-injective _ _ last) (
          running-Started down net up (crash1-Down i cfg lt h1) h2
            (ingest_saved-Ingested snapshots i (down.saved i) (wired_up down net) h3))

    -- A peer that is restarted, for which what is durable would survive a crash, has after the restart
    -- the term, the vote and the log that it had, an empty channel of messages, and is not connected.
    pub restart_recovers :
        (rf : Raft C) {cfg' : Config C}
        → cfg.rafts i ≡ some rf
        → IsDurable codec rf
        → start1 codec snapshots i names server tick cfg ≡ some cfg'
        → (rf' : Raft C) × (cfg'.rafts i ≡ some rf')
          × (durable rf' ≡ durable rf)
          × (rf'.apply_ch ≡ [])
          × (cfg'.connected i ≡ false)
    restart_recovers rf {cfg'} up good h =
        let s = start1-Started h in
        let on_disk : disk cfg i ≡ some rf.persister = rw (disk, up) refl in
        let running : cfg'.rafts i ≡ some (make codec cfg.n i rf.persister tick) =
          s.running
          ∙ ap (λ d. some (make codec cfg.n i (next_persister (saved_again (copied d))) tick))
              on_disk
          ∙ ap (λ p. some (make codec cfg.n i p tick)) (restored rf.persister) in
        (
          make codec cfg.n i rf.persister tick,
          running,
          good.recovers cfg.n i tick,
          make-apply_ch codec cfg.n i rf.persister tick,
          s.off,
        )
