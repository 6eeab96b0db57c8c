-- ===== src/Raft/Commit/Advance.antt =====
-- raft.go, `tryAdvanceCommitLocked`: the index that a leader commits.
use mit.Prelude.{
  ℕ, zero, suc, ◌+◌, ◌-◌, ◌*◌, ◌/◌, ◌≤◌, ◌<◌, ◌≡◌, ◌↔◌, ◌⊎◌, inl, inr, refl, ap, Bool, true, false,
  some, List, [], ◌∷◌, arith, ltb, leb, ◌==◌, if◌then◌else◌, length, get_elem?, dec_lt, subst, ◌&&◌,
  drop, drop-suc, get_elem?_in_range, drop_of_length-le,
}
use mit.Raft.Types.{Raft, LogEntry, is_leader, last_log_index}
use mit.Raft.Commit.{count_holders, majority_holds, can_commit, search_commit, try_advance_commit}

-- How many of the peers `i, i + 1, …`, whose match indices are listed, hold entry `n`, but for `me`.
pub holders : ℕ → ℕ → List ℕ → ℕ → ℕ
holders n me [] i = 0
holders n me (m ∷ ms) i =
    (if i == me then 0 else if leb n m then 1 else 0) + holders n me ms (i + 1)

count_holders-holders :
    (n me : ℕ) (ms : List ℕ) (i left : ℕ)
    → i + left ≡ length ms
    → count_holders n me ms i left ≡ some (holders n me (drop i ms) i)
unfolding count_holders holders
count_holders-holders n me ms i zero h =
    let e = drop_of_length-le i ms (omega arith) in ground (arith, e)
count_holders-holders n me ms i (suc left) h =
    let (m, found) = get_elem?_in_range ms i (omega arith) in
    let e : suc i ≡ i + 1 = omega arith in
    ground (
      arith,
      found,
      drop-suc i ms found,
      ap (λ k. drop k ms) e,
      count_holders-holders n me ms (i + 1) left (omega arith),
    )

module _ {C : Type 0} where
  -- Entry `n` is of the leader's own term, and more than half of the peers hold it, the leader
  -- included.
  pub Committable : Raft C → ℕ → Type 0
  Committable rf n =
      (e : LogEntry C) × (get_elem? rf.log n ≡ some e)
      × (e.term ≡ rf.current_term)
      × (rf.peers < 2 * (1 + holders n rf.me rf.match_index 0))

  majority_holds-holders :
      (rf : Raft C) (n : ℕ)
      → length rf.match_index ≡ rf.peers
      → majority_holds rf n ≡ some (ltb (rf.peers / 2) (1 + holders n rf.me rf.match_index 0))
  unfolding majority_holds
  majority_holds-holders rf n h =
      rw (count_holders-holders n rf.me rf.match_index 0 rf.peers (omega (arith, h)))

  can_commit-Committable :
      (rf : Raft C) (n : ℕ)
      → length rf.match_index ≡ rf.peers
      → n < length rf.log
      → (b : Bool) × (can_commit rf n ≡ some b) × ((b ≡ true) ↔ Committable rf n)
  unfolding can_commit Committable
  can_commit-Committable rf n h lt =
      let (e, found) = get_elem?_in_range rf.log n lt in
      let holds = majority_holds-holders rf n h in
      (
        (e.term == rf.current_term) && ltb (rf.peers / 2) (1 + holders n rf.me rf.match_index 0),
        ground (arith, found, holds),
        (λ t. (e, found, ground arith, ground arith), λ c. ground (arith, found, c.1, c.2, c.3)),
      )

  -- The largest index that qualifies, or the old commit index.
  pub record Advance (rf : Raft C) (top n : ℕ) : Type 0 where
    pub grows : rf.commit_index ≤ n
    pub fits : n ≤ top
    pub chosen : (n ≡ rf.commit_index) ⊎ Committable rf n
    pub largest : (k : ℕ) → n < k → k ≤ top → ¬ Committable rf k

  search_commit-Advance :
      (rf : Raft C) (d : ℕ)
      → length rf.match_index ≡ rf.peers
      → rf.commit_index + d < length rf.log
      → (n : ℕ) × (search_commit rf d ≡ some n) × Advance rf (rf.commit_index + d) n
  unfolding search_commit
  search_commit-Advance rf zero h lt = (
    rf.commit_index,
    refl,
    record {
      grows = omega arith;
      fits = omega arith;
      chosen = inl refl;
      largest = λ k above below. absurd (omega arith);
    },
  )
  search_commit-Advance rf (suc d) h lt =
      let (found, computed, means) = can_commit-Committable rf (rf.commit_index + suc d) h lt in
      go found computed means (search_commit-Advance rf d h (omega arith))
    where
      go :
          (b : Bool)
          → can_commit rf (rf.commit_index + suc d) ≡ some b
          → (b ≡ true) ↔ Committable rf (rf.commit_index + suc d)
          → (n : ℕ) × (search_commit rf d ≡ some n) × Advance rf (rf.commit_index + d) n
          → (n : ℕ) × (search_commit rf (suc d) ≡ some n) × Advance rf (rf.commit_index + suc d) n
      go true e means rest = (
        rf.commit_index + suc d,
        rw e refl,
        record {
          grows = omega arith;
          fits = omega arith;
          chosen = inr (means.0 refl);
          largest = λ k above below. absurd (omega arith);
        },
      )
      go false e means (n, found, a) = (
        n,
        rw e found,
        record {
          grows = a.grows;
          fits = omega (arith, a.fits);
          chosen = a.chosen;
          largest = λ k above below. elim (dec_lt k (rf.commit_index + suc d)) [
            | yes before ↦ a.largest k above (omega arith)
            | no last ↦ λ c.
                let e : k ≡ rf.commit_index + suc d = omega arith in
                cc (means.1 (subst (Committable rf) e c))
          ];
        },
      )

  -- A leader whose match indices cover its peers commits the largest index above its commit index
  -- that is of its own term and held by a majority; if there is none it changes nothing. No index is
  -- out of range.
  pub try_advance_commit_largest :
      (rf : Raft C)
      → is_leader rf.state ≡ true
      → length rf.match_index ≡ rf.peers
      → rf.commit_index < length rf.log
      → (n : ℕ) × (try_advance_commit rf ≡ some (record rf { commit_index = n }))
        × Advance rf (last_log_index rf) n
  unfolding try_advance_commit
  try_advance_commit_largest rf lead sizes lt =
      let e : rf.commit_index + (last_log_index rf - rf.commit_index) ≡ last_log_index rf =
        omega arith in
      let (n, found, a) =
        search_commit-Advance rf (last_log_index rf - rf.commit_index) sizes (omega arith) in
      (n, rw (lead, found), subst (λ t. Advance rf t n) e a)
