-- ===== src/Raft/Election/Majority.antt =====
-- raft.go, `startElection`: when the candidate becomes leader.
use mit.Prelude.{
  ℕ, ◌+◌, ◌-◌, ◌*◌, ◌/◌, ◌≤◌, ◌<◌, ◌≡◌, ◌↔◌, refl, true, false, none, some, List, [], ◌∷◌, arith,
  length, if◌then◌else◌, ◌⊎◌, ◌≢◌,
}
use mit.Raft.Types.{Raft, is_leader, is_candidate}
use mit.Raft.Election.{Tally, own_vote, VoteResult, count_reply, collect, finish_election}

-- The votes among the results.
unfoldable pub granted : List VoteResult → ℕ
granted [] = 0
granted (none ∷ rs) = granted rs
granted (some reply ∷ rs) = (if reply.vote_granted then 1 else 0) + granted rs

-- The wait never stops before the votes that come in are enough.
collect_enough :
    (peers term : ℕ) (rs : List VoteResult) (tally : Tally)
    → tally.election_done ≡ false
    → tally.finished + length rs ≤ peers - 1
    → peers / 2 < tally.votes + granted rs
    → peers / 2 < (collect peers term rs tally).votes
unfolding collect granted
collect_enough peers term [] tally open' room h = omega arith
collect_enough peers term (none ∷ rs) tally open' room h =
    ground (arith, collect_enough peers term rs (count_reply term none tally).0)
collect_enough peers term (some reply ∷ rs) tally open' room h =
    ground (arith, collect_enough peers term rs (count_reply term (some reply) tally).0)

-- No vote is counted that did not come in.
pub collect_sound :
    (peers term : ℕ) (rs : List VoteResult) (tally : Tally)
    → (collect peers term rs tally).votes ≤ tally.votes + granted rs
unfolding collect granted
collect_sound peers term [] tally = omega arith
collect_sound peers term (none ∷ rs) tally =
    ground (arith, collect_sound peers term rs (count_reply term none tally).0)
collect_sound peers term (some reply ∷ rs) tally =
    ground (arith, collect_sound peers term rs (count_reply term (some reply) tally).0)

module _ {C : Type 0} where
  -- A candidate whose election is still on becomes leader exactly if the votes among the results
  -- and its own are more than half of the peers, whatever the order of the results.
  pub election_won_iff :
      (term : ℕ) (rs : List VoteResult) (rf : Raft C)
      → rf.current_term ≡ term
      → is_candidate rf.state ≡ true
      → length rs ≤ rf.peers - 1
      → (is_leader (finish_election rf.peers term (collect rf.peers term rs own_vote) rf).0.state
          ≡ true)
        ↔ (rf.peers < 2 * (1 + granted rs))
  unfolding finish_election
  election_won_iff term rs rf now cand room = (
    λ won. ground (arith, collect_sound rf.peers term rs own_vote),
    λ most.
        ground (arith, collect_enough rf.peers term rs own_vote refl (omega arith) (omega arith)),
  )

  -- An election that is over, or lost, changes nothing.
  pub election_stale :
      (term : ℕ) (tally : Tally) (rf : Raft C)
      → (is_candidate rf.state ≡ false) ⊎ (rf.current_term ≢ term)
      → (finish_election rf.peers term tally rf).0 ≡ rf
  unfolding finish_election
  election_stale term tally rf h = ground arith
