-- ===== src/Raft/Config/Agreement.antt =====
-- raft/config.go: what the checks of the appliers show of the logs of the peers.
use mathlib.Core.Option.{some-injective}
use mit.Prelude.{
  ℕ, zero, suc, ◌+◌, ◌-◌, ◌≤◌, ◌<◌, ◌≡◌, ◌⊎◌, inl, inr, refl, sym, ap, subst, ◌∙◌, true, false,
  Bool-cases, Option, Option-cases, none, some, List, [], ◌∷◌, Map, insert, Key, nat_key, ==_iff,
  ◌==◌, arith, dec_lt,
}
use mit.Raft.Types.{ApplyMsg}
use mit.Raft.Config.{Config, put_at}
use mit.Raft.Config.Logs.{same_command, any_differs, is_present, check_logs, applier_step}

module _ {C : Type 0} where
  -- No two peers have different commands at an index.
  abbrev pub Agree : Config C → Type 0
  Agree cfg =
      (i j index : ℕ) (v w : Option C)
      → i < cfg.n
      → j < cfg.n
      → cfg.logs i index ≡ some v
      → cfg.logs j index ≡ some w
      → v ≡ w

  -- Each log that has an index above 1 has the index before it.
  abbrev pub Gapless : Config C → Type 0
  Gapless cfg =
      (i index : ℕ)
      → i < cfg.n
      → is_present (cfg.logs i (index + 2)) ≡ true
      → is_present (cfg.logs i (index + 1)) ≡ true

module _ {C : Type 0} ⦃e : Key C⦄ where
  pub same_command-eq : (a b : Option C) → same_command a b ≡ true → a ≡ b
  same_command-eq none none h = refl
  same_command-eq none (some b) h = cc
  same_command-eq (some a) none h = cc
  same_command-eq (some a) (some b) h = ap some ((e.same_iff a b).0 h)

  pub same_command_refl : (a : Option C) → same_command a a ≡ true
  same_command_refl none = refl
  same_command_refl (some a) = (e.same_iff a a).1 refl

  none_differs :
      (logs : ℕ → Map ℕ (Option C)) (index : ℕ) (v : Option C) (j left : ℕ)
      → any_differs logs index v j left ≡ false
      → (k : ℕ) (w : Option C) → j ≤ k
      → k < j + left
      → logs k index ≡ some w
      → w ≡ v
  unfolding any_differs
  none_differs logs index v j zero h k w le lt found = absurd (omega arith)
  none_differs logs index v j (suc left) h k w le lt found = elim (dec_lt j k) [
    | yes later ↦
        none_differs logs index v (j + 1) left (ground arith) k w (omega arith) (omega arith) found
    | no here ↦
        let at : k ≡ j = omega arith in
        let found' : logs j index ≡ some w = subst (λ x. logs x index ≡ some w) at found in
        same_command-eq w v (ground (arith, found'))
  ]

  -- A message that passed the checks: what it has put into the log of its peer.
  record Passed (i : ℕ) (m : ApplyMsg C) (cfg cfg' : Config C) : Type 0 where
    same_n : cfg'.n ≡ cfg.n
    logged : cfg'.logs ≡ put_at i (insert m.command_index m.command (cfg.logs i)) cfg.logs
    agrees : any_differs cfg.logs m.command_index m.command 0 cfg.n ≡ false
    follows : 1 < m.command_index → is_present (cfg.logs i (m.command_index - 1)) ≡ true

  applier_step-Passed :
      (i : ℕ) (m : ApplyMsg C) (cfg : Config C) {cfg' : Config C}
      → applier_step i m cfg ≡ some cfg'
      → (cfg' ≡ cfg) ⊎ Passed i m cfg cfg'
  unfolding applier_step check_logs
  applier_step-Passed i m cfg h = elim (Bool-cases m.command_valid) [
    | inr ignored ↦ inl (ground (arith, ignored))
    | inl valid ↦ inr (record {
      same_n = ground (arith, valid);
      logged = ground (arith, valid);
      agrees = ground (arith, valid);
      follows = λ lt. ground (arith, valid);
    })
  ]

  -- an entry of the new log of a peer
  logged_entry :
      (i k index j : ℕ) (v x : Option C) (logs : ℕ → Map ℕ (Option C))
      → put_at i (insert index v (logs i)) logs k j ≡ some x
      → ((k ≡ i) × (j ≡ index) × (x ≡ v)) ⊎ (logs k j ≡ some x)
  logged_entry i k index j v x logs h = elim (Bool-cases (i == k)) [
    | inr other ↦ inr (rw other at h)
    | inl same ↦ elim (Bool-cases (index == j)) [
      | inl here ↦
          inl (sym ((==_iff i k).0 same), sym ((==_iff index j).0 here), ground (arith, same, here))
      | inr before ↦
          inr (subst (λ y. logs y j ≡ some x) ((==_iff i k).0 same) (ground (arith, same, before)))
    ]
  ]

  -- a logged entry and an entry of another log, or of the same
  new_agrees :
      (i : ℕ) (m : ApplyMsg C) (cfg cfg' : Config C)
      → Passed i m cfg cfg'
      → (b : ℕ) (w : Option C) → b < cfg.n
      → cfg.logs b m.command_index ≡ some w
      → w ≡ m.command
  new_agrees i m cfg cfg' p b w lt found =
      none_differs cfg.logs m.command_index m.command 0 cfg.n p.agrees b w (omega arith)
        (omega arith) found

  entry_of :
      (i : ℕ) (m : ApplyMsg C) (cfg cfg' : Config C)
      → Passed i m cfg cfg'
      → (k index : ℕ) (x : Option C) → cfg'.logs k index ≡ some x
      → ((k ≡ i) × (index ≡ m.command_index) × (x ≡ m.command)) ⊎ (cfg.logs k index ≡ some x)
  entry_of i m cfg cfg' p k index x h =
      logged_entry i k m.command_index index m.command x cfg.logs
        (subst (λ l. l k index ≡ some x) p.logged h)

  Passed-Agree :
      (i : ℕ) (m : ApplyMsg C) (cfg cfg' : Config C) → Passed i m cfg cfg' → Agree cfg → Agree cfg'
  Passed-Agree i m cfg cfg' p agree a b index v w la lb ha hb =
      let old =
        λ (k : ℕ) (x : Option C) (lt : k < cfg'.n) (at : index ≡ m.command_index)
            (h : cfg.logs k index ≡ some x).
          new_agrees i m cfg cfg' p k x (omega (arith, p.same_n))
            (subst (λ j. cfg.logs k j ≡ some x) at h) in
      elim (entry_of i m cfg cfg' p a index v ha) [
        | inl (ea, ia, va) ↦ elim (entry_of i m cfg cfg' p b index w hb) [
          | inl (eb, ib, wb) ↦ va ∙ sym wb
          | inr hb' ↦ va ∙ sym (old b w lb ia hb')
        ]
        | inr ha' ↦ elim (entry_of i m cfg cfg' p b index w hb) [
          | inl (eb, ib, wb) ↦ old a v la ib ha' ∙ sym wb
          | inr hb' ↦
              agree a b index v w (omega (arith, p.same_n)) (omega (arith, p.same_n)) ha' hb'
        ]
      ]

  kept_present :
      (i k index j : ℕ) (v : Option C) (logs : ℕ → Map ℕ (Option C))
      → is_present (logs k j) ≡ true
      → is_present (put_at i (insert index v (logs i)) logs k j) ≡ true
  kept_present i k index j v logs h = elim (Bool-cases (i == k)) [
    | inr other ↦ rw other h
    | inl same ↦ elim (Bool-cases (index == j)) [
      | inl here ↦ rw (same, here) refl
      | inr before ↦
          rw (same, before)
            (subst (λ y. is_present (logs y j) ≡ true) (sym ((==_iff i k).0 same)) h)
    ]
  ]

  present-some : (o : Option (Option C)) → is_present o ≡ true → (x : Option C) × (o ≡ some x)
  present-some none h = cc
  present-some (some x) h = (x, refl)

  Passed-Gapless :
      (i : ℕ) (m : ApplyMsg C) (cfg cfg' : Config C)
      → Passed i m cfg cfg'
      → Gapless cfg
      → Gapless cfg'
  Passed-Gapless i m cfg cfg' p gapless k index lt h =
      let (x, found) = present-some (cfg'.logs k (index + 2)) h in
      let before : is_present (cfg.logs k (index + 1)) ≡ true =
        elim (entry_of i m cfg cfg' p k (index + 2) x found) [
          | inl (same, at, val) ↦
              let back : m.command_index - 1 ≡ index + 1 = omega (arith, at) in
              subst (λ y. is_present (cfg.logs y (index + 1)) ≡ true) (sym same)
                (subst (λ j. is_present (cfg.logs i j) ≡ true) back (p.follows (omega (arith, at))))
          | inr old ↦ gapless k index (omega (arith, p.same_n)) (ap is_present old)
        ] in
      subst (λ l. is_present (l k (index + 1)) ≡ true) (sym p.logged)
        (kept_present i k m.command_index (index + 1) m.command cfg.logs before)

  applier_step-Agree :
      (i : ℕ) (m : ApplyMsg C) (cfg : Config C) {cfg' : Config C}
      → applier_step i m cfg ≡ some cfg'
      → Agree cfg × Gapless cfg
      → Agree cfg' × Gapless cfg'
  applier_step-Agree i m cfg {cfg'} h (agree, gapless) = elim (applier_step-Passed i m cfg h) [
    | inl same ↦ (subst Agree (sym same) agree, subst Gapless (sym same) gapless)
    | inr p ↦ (Passed-Agree i m cfg cfg' p agree, Passed-Gapless i m cfg cfg' p gapless)
  ]

  -- Messages that the appliers of the peers take, in any order.
  unfoldable pub run_appliers : List (ℕ × ApplyMsg C) → Config C → Option (Config C)
  run_appliers [] cfg = some cfg
  run_appliers ((i, m) ∷ msgs) cfg = elim (applier_step i m cfg) [
    | none ↦ none
    | some cfg' ↦ run_appliers msgs cfg'
  ]

  -- If a test has not failed, whatever messages the appliers of the peers have taken in whatever order,
  -- then no two peers have applied different commands at an index, and none has left out an index.
  pub run_appliers-Agree :
      (msgs : List (ℕ × ApplyMsg C)) (cfg : Config C) {cfg' : Config C}
      → run_appliers msgs cfg ≡ some cfg'
      → Agree cfg × Gapless cfg
      → Agree cfg' × Gapless cfg'
  unfolding run_appliers
  run_appliers-Agree [] cfg {cfg'} h inv =
      subst (λ c. Agree c × Gapless c) (some-injective cfg cfg' h) inv
  run_appliers-Agree ((i, m) ∷ msgs) cfg {cfg'} h inv = elim (Option-cases (applier_step i m cfg)) [
    | inl failed ↦ cc (rw (run_appliers, failed) at h)
    | inr (next, passed) ↦
        run_appliers-Agree msgs next (rw (run_appliers, passed) at h)
          (applier_step-Agree i m cfg passed inv)
  ]
