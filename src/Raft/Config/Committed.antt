-- ===== src/Raft/Config/Committed.antt =====
-- raft/config.go, `nCommitted`: where the logs agree it does not fail, and what it returns.
use mit.Prelude.{
  ℕ, zero, suc, ◌+◌, ◌≤◌, ◌<◌, ◌≡◌, inl, inr, refl, ap, subst, ◌∙◌, true, false, not, ◌&&◌, Option,
  Option-cases, none, some, Map, Key, nat_key, arith, ltb, if◌then◌else◌, dec_lt,
}
use mit.Raft.Config.{Config}
use mit.Raft.Config.Logs.{same_command, is_present, count_committed, n_committed}
use mit.Raft.Config.Agreement.{Agree, same_command_refl}

module _ {C : Type 0} where
  -- How many of the logs `i, i + 1, …` have the index.
  unfoldable pub holders : (ℕ → Map ℕ (Option C)) → ℕ → ℕ → ℕ → ℕ
  holders logs index i zero = 0
  holders logs index i (suc left) =
      (if is_present (logs i index) then 1 else 0) + holders logs index (i + 1) left

  -- The value stands at the index in one of the logs.
  abbrev pub Stands : (ℕ → Map ℕ (Option C)) → ℕ → ℕ → Option C → Type 0
  Stands logs index n cmd = (k : ℕ) × (k < n) × (logs k index ≡ some cmd)

  -- The logs agree at the index.
  abbrev AgreeAt : (ℕ → Map ℕ (Option C)) → ℕ → ℕ → Type 0
  AgreeAt logs index n =
      (j k : ℕ) (v w : Option C)
      → j < n
      → k < n
      → logs j index ≡ some v
      → logs k index ≡ some w
      → v ≡ w

module _ {C : Type 0} ⦃e : Key C⦄ (logs : ℕ → Map ℕ (Option C)) (index n : ℕ)
    (agree : AgreeAt logs index n) where
  matches :
      (i count : ℕ) (cmd cmd1 : Option C)
      → (0 < count → Stands logs index n cmd)
      → i < n
      → logs i index ≡ some cmd1
      → (ltb 0 count && not (same_command cmd cmd1)) ≡ false
  matches i count cmd cmd1 seen lt found = elim (dec_lt 0 count) [
    | no none' ↦ ground arith
    | yes pos ↦
        let (k, ltk, foundk) = seen pos in
        let same = agree k i cmd cmd1 ltk lt foundk found in
        ground (arith, subst (λ x. same_command cmd x ≡ true) same (same_command_refl cmd))
  ]

  step_missing :
      (i left count : ℕ) (cmd : Option C)
      → logs i index ≡ none
      → (count_committed logs index i (suc left) (count, cmd)
          ≡ count_committed logs index (i + 1) left (count, cmd))
        × (holders logs index i (suc left) ≡ holders logs index (i + 1) left)
  unfolding holders
  step_missing i left count cmd missing =
      (unfold count_committed in rw (count_committed, missing) refl, ground (arith, missing))

  step_found :
      (i left count : ℕ) (cmd cmd1 : Option C)
      → logs i index ≡ some cmd1
      → (ltb 0 count && not (same_command cmd cmd1)) ≡ false
      → (count_committed logs index i (suc left) (count, cmd)
          ≡ count_committed logs index (i + 1) left (count + 1, cmd1))
        × (holders logs index i (suc left) ≡ 1 + holders logs index (i + 1) left)
  unfolding holders
  step_found i left count cmd cmd1 found same =
      (unfold count_committed in rw (count_committed, found, same) refl, ground (arith, found))

  -- What the rest of the loop does.
  abbrev Counts : ℕ → ℕ → ℕ → Option C → Type 0
  Counts i left count cmd =
      (cmd' : Option C) × (count_committed logs index i left (count, cmd)
        ≡ some (count + holders logs index i left, cmd'))
      × (0 < count + holders logs index i left → Stands logs index n cmd')

  count_committed-holders :
      (i left count : ℕ) (cmd : Option C)
      → i + left ≡ n
      → (0 < count → Stands logs index n cmd)
      → Counts i left count cmd
  count_committed-holders i zero count cmd at seen =
      unfold count_committed in unfold holders in (cmd, ground arith, λ pos. seen (omega arith))
  count_committed-holders i (suc left) count cmd at seen = elim (Option-cases (logs i index)) [
    | inl missing ↦
        let (cmd', e', pos) = count_committed-holders (i + 1) left count cmd (omega arith) seen in
        let (f, g) = step_missing i left count cmd missing in
        let total : count + holders logs index (i + 1) left
            ≡ count + holders logs index i (suc left) =
          omega (arith, g) in
        (cmd', f ∙ e' ∙ ap (λ t. some (t, cmd')) total, λ p. pos (omega (arith, total)))
    | inr (cmd1, found) ↦
        let (cmd', e', pos) =
          count_committed-holders (i + 1) left (count + 1) cmd1 (omega arith)
            (λ p. (i, omega arith, found)) in
        let (f, g) =
          step_found i left count cmd cmd1 found
            (matches i count cmd cmd1 seen (omega arith) found) in
        let total : count + 1 + holders logs index (i + 1) left
            ≡ count + holders logs index i (suc left) =
          omega (arith, g) in
        (cmd', f ∙ e' ∙ ap (λ t. some (t, cmd')) total, λ p. pos (omega (arith, total)))
  ]

module _ {C : Type 0} ⦃e : Key C⦄ where
  holders_pos :
      (logs : ℕ → Map ℕ (Option C)) (index i left j : ℕ) (v : Option C)
      → i ≤ j
      → j < i + left
      → logs j index ≡ some v
      → 0 < holders logs index i left
  unfolding holders
  holders_pos logs index i zero j v le lt found = absurd (omega arith)
  holders_pos logs index i (suc left) j v le lt found = elim (dec_lt i j) [
    | yes later ↦
        omega (arith, holders_pos logs index (i + 1) left j v (omega arith) (omega arith) found)
    | no here ↦
        let at : j ≡ i = omega arith in
        let found' : logs i index ≡ some v = subst (λ x. logs x index ≡ some v) at found in
        ground (arith, found')
  ]

  -- Where the logs agree, `nCommitted` does not fail; it returns how many peers have a command at the
  -- index, and if there is one, the command that every one of them has there.
  pub n_committed-Agree :
      (index : ℕ) (cfg : Config C)
      → Agree cfg
      → (cmd : Option C) × (n_committed index cfg ≡ some (holders cfg.logs index 0 cfg.n, cmd))
        × ((j : ℕ) (v : Option C) → j < cfg.n → cfg.logs j index ≡ some v → v ≡ cmd)
  unfolding n_committed
  n_committed-Agree index cfg agree =
      let (cmd, found, stands) =
        count_committed-holders cfg.logs index cfg.n
          (λ j k v w lj lk hj hk. agree j k index v w lj lk hj hk) 0 cfg.n 0 none (omega arith)
          (λ p. absurd (omega arith)) in
      let total : 0 + holders cfg.logs index 0 cfg.n ≡ holders cfg.logs index 0 cfg.n =
        omega arith in
      (
        cmd,
        found ∙ ap (λ t. some (t, cmd)) total,
        λ j v lt h.
            let (k, ltk, hk) = stands (
              omega
                (arith, holders_pos cfg.logs index 0 cfg.n j v (omega arith) (omega arith) h)) in
            agree j k index v cmd lt ltk h hk,
      )
