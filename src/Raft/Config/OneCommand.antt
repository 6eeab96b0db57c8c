-- ===== src/Raft/Config/OneCommand.antt =====
-- raft/config.go: what `nCommitted` and `one` have found out when the test goes on.
use mathlib.Core.Option.{some-injective}
use mit.Prelude.{
  ℕ, zero, suc, ◌+◌, ◌≤◌, ◌<◌, ◌≡◌, ◌⊎◌, inl, inr, sym, ap, subst, ◌∙◌, Bool, true, false,
  Bool-cases, not, ◌&&◌, Option, Option-cases, none, some, List, [], ◌∷◌, Map, Key, nat_key, arith,
  ltb, leb, ℕ_discrete as dec_eq, >>=-eq-some,
}
use mit.Raft.Persist.{Codec}
use mit.Raft.Config.{Config}
use mit.Raft.Config.Logs.{same_command, count_committed, n_committed}
use mit.Raft.Config.Checks.{try_start, poll, one}
use mit.Raft.Config.Agreement.{same_command-eq}
use mit.Raft.Config.Committed.{holders}
use mit.Raft.Config.OneLeader.{Any}

module _ {C : Type 0} ⦃e : Key C⦄ where
  -- What a count has seen: how many of the logs have the index, and that they have this command there.
  pub record Counted (logs : ℕ → Map ℕ (Option C)) (index i left count : ℕ) (cmd : Option C)
      (nd : ℕ) (last : Option C) : Type 0 where
    pub total : nd ≡ count + holders logs index i left
    pub kept : 0 < count → cmd ≡ last
    pub all : (j : ℕ) (v : Option C) → i ≤ j → j < i + left → logs j index ≡ some v → v ≡ last

  skipped :
      (logs : ℕ → Map ℕ (Option C)) (index i left count nd : ℕ) (cmd last : Option C)
      → logs i index ≡ none
      → Counted logs index (i + 1) left count cmd nd last
      → Counted logs index i (suc left) count cmd nd last
  unfolding holders
  skipped logs index i left count nd cmd last missing s = record {
    total = ground (arith, missing, s.total);
    kept = s.kept;
    all = λ j v le lt h. elim (dec_eq i j) [
      | yes same ↦ absurd (cc (subst (λ x. logs x index ≡ none) same missing, h))
      | no other ↦ s.all j v (omega (arith, other)) (omega arith) h
    ];
  }

  counted :
      (logs : ℕ → Map ℕ (Option C)) (index i left count nd : ℕ) (cmd cmd1 last : Option C)
      → logs i index ≡ some cmd1
      → (ltb 0 count && not (same_command cmd cmd1)) ≡ false
      → Counted logs index (i + 1) left (count + 1) cmd1 nd last
      → Counted logs index i (suc left) count cmd nd last
  unfolding holders
  counted logs index i left count nd cmd cmd1 last found same s =
      let here : cmd1 ≡ last = s.kept (omega arith) in
      record {
        total = ground (arith, found, s.total);
        kept = λ pos. same_command-eq cmd cmd1 (ground (arith, same)) ∙ here;
        all = λ j v le lt h. elim (dec_eq i j) [
          | yes at ↦
              some-injective v cmd1 (sym h ∙ subst (λ x. logs x index ≡ some cmd1) at found) ∙ here
          | no other ↦ s.all j v (omega (arith, other)) (omega arith) h
        ];
      }

  count_committed-Counted :
      (logs : ℕ → Map ℕ (Option C)) (index i left count nd : ℕ) (cmd last : Option C)
      → count_committed logs index i left (count, cmd) ≡ some (nd, last)
      → Counted logs index i left count cmd nd last
  unfolding count_committed holders
  count_committed-Counted logs index i zero count nd cmd last h =
      let same = some-injective (count, cmd) (nd, last) h in
      record {
        total = omega (arith, ap (λ p. p.0) same);
        kept = λ pos. ap (λ p. p.1) same;
        all = λ j v le lt found. absurd (omega arith);
      }
  count_committed-Counted logs index i (suc left) count nd cmd last h =
      elim (Option-cases (logs i index)) [
        | inl missing ↦ skipped logs index i left count nd cmd last missing (
            count_committed-Counted logs index (i + 1) left count nd cmd last
              (rw (count_committed, missing) at h))
        | inr (cmd1, found) ↦ elim (Bool-cases (ltb 0 count && not (same_command cmd cmd1))) [
          | inl bad ↦ absurd (cc (rw (count_committed, found, bad) at h))
          | inr ok ↦ counted logs index i left count nd cmd cmd1 last found ok (
              count_committed-Counted logs index (i + 1) left (count + 1) nd cmd1 last
                (rw (count_committed, found, ok) at h))
        ]
      ]

  -- At least so many peers have applied the command at the index, and no peer has another one there.
  abbrev pub AppliedBy : ℕ → ℕ → C → Config C → Type 0
  AppliedBy expected index cmd cfg =
      (0 < holders cfg.logs index 0 cfg.n)
      × (expected ≤ holders cfg.logs index 0 cfg.n)
      × ((j : ℕ) (v : Option C) → j < cfg.n → cfg.logs j index ≡ some v → v ≡ some cmd)

  poll-AppliedBy :
      (index : ℕ) (cmd : C) (expected : ℕ) (looks : List (Config C))
      → poll index cmd expected looks ≡ some true
      → Any (AppliedBy expected index cmd) looks
  unfolding poll n_committed
  poll-AppliedBy index cmd expected [] h = absurd (cc h)
  poll-AppliedBy index cmd expected (cfg ∷ later) h =
      let ((nd, cmd1), h1, rest) = >>=-eq-some (n_committed index cfg) _ h in
      elim (Bool-cases (ltb 0 nd && (leb expected nd && same_command cmd1 (some cmd)))) [
        | inr no_yet ↦ inr (poll-AppliedBy index cmd expected later (rw no_yet at rest))
        | inl good ↦
            let s = count_committed-Counted cfg.logs index 0 cfg.n 0 nd none cmd1 h1 in
            let total : nd ≡ holders cfg.logs index 0 cfg.n = omega (arith, s.total) in
            let same : cmd1 ≡ some cmd = same_command-eq cmd1 (some cmd) (ground (arith, good)) in
            inl (
              ground (arith, total, good),
              ground (arith, total, good),
              λ j v lt found. s.all j v (omega arith) (omega arith) found ∙ same,
            )
      ]

  abbrev pub AnyLook : (Config C → Type 0) → List (Config C × List (Config C)) → Type 0
  AnyLook P [] = ⊥
  AnyLook P ((cfg, looks) ∷ rounds) = Any P looks ⊎ AnyLook P rounds

  -- If `one` returns an index, then in one of the configurations that it has looked at a peer has
  -- applied the command at that index, the number of such peers is at least the expected one, and no
  -- peer has applied another command there.
  pub one-AppliedBy :
      (codec : Codec C) (cmd : C) (expected : ℕ) (retry finished : Bool) (starts index : ℕ)
      (rounds : List (Config C × List (Config C)))
      → one codec cmd expected retry finished starts rounds ≡ some (some index)
      → AnyLook (AppliedBy expected index cmd) rounds
  unfolding one
  one-AppliedBy codec cmd expected retry true starts index [] h = absurd (cc h)
  one-AppliedBy codec cmd expected retry false starts index [] h = absurd (cc h)
  one-AppliedBy codec cmd expected retry finished starts index ((cfg, looks) ∷ rounds) h =
      let (starts', started, cfg') = try_start codec cmd starts cfg.n cfg in
      elim (Option-cases started) [
        | inl nobody ↦ inr (
            one-AppliedBy codec cmd expected retry finished starts' index rounds
              (rw (one, nobody) at h))
        | inr (i, taken) ↦ elim (Option-cases (poll i cmd expected looks)) [
          | inl failed ↦ absurd (cc (rw (one, taken, failed) at h))
          | inr (true, done) ↦
              let same : i ≡ index =
                some-injective i index
                  (some-injective (some i) (some index) (rw (one, taken, done) at h)) in
              inl (
                poll-AppliedBy index cmd expected looks
                  (subst (λ x. poll x cmd expected looks ≡ some true) same done))
          | inr (false, late) ↦ elim (Bool-cases retry) [
            | inl again ↦ inr (
                one-AppliedBy codec cmd expected retry finished starts' index rounds
                  (rw (one, taken, late, again) at h))
            | inr once ↦ absurd (cc (rw (one, taken, late, once) at h))
          ]
        ]
      ]
