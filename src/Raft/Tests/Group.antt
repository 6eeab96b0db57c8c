-- ===== src/Raft/Tests/Group.antt =====
-- raft/raft.go: the election of a leader among three peers.
use mit.Prelude.{
  none, ℕ, suc, ap, sym, ◌⊎◌, ◌≡◌, refl, inl, inr, true, some, none, List, [], ◌∷◌, arith,
}
use mit.Raft.Types.{AppendEntriesArgs, RequestVoteArgs, follower, leader, is_leader}
use mit.Raft.Persister.{make_persister, clone}
use mit.Raft.Persist.{read_persist}
use mit.Raft.Roles.{make, become_leader}
use mit.Raft.Vote.{request_vote}
use mit.Raft.Election.{VoteResult, own_vote, collect, finish_election, tick_round}
use mit.Raft.Election.Majority.{granted}
use mit.Raft.Group.{
  Group, Cast, GroupSteps, here, next, votes, ticks, elects, put, ballot_if, stands, start_group,
}
use mit.Raft.Group.Quorum.{Voters}
use mit.Raft.Replicate.{heartbeat}
use mit.Raft.Group.Wire.{Wire, WireSteps, heard, start_wire}
use mit.Raft.Group.Split.{two_leaders}
use mit.Raft.Group.Leaders.{one_leader_per_term}
use mit.Raft.Tests.Data.{numbers, tick}

abbrev group : Group ℕ
group = start_group numbers 3 (λ v. tick)

-- Peer 0 has waited for a second, peer 1 gives it its vote, and peer 2 does not answer.
abbrev standing : Group ℕ
standing =
    put 0 (tick_round numbers follower 0 1_000_000_000 tick (group.peer 0)).0
      (ballot_if (stands follower 1_000_000_000 (group.peer 0)) (suc (group.peer 0).current_term) 0
        0 [])
      group

abbrev request : RequestVoteArgs
request = record { term = 1; candidate_id = 0; last_log_index = 0; last_log_term = 0 }

abbrev voted : Group ℕ
voted =
    put 1 (request_vote numbers request tick tick (standing.peer 1)).0
      (ballot_if (request_vote numbers request tick tick (standing.peer 1)).1.vote_granted 1 1 0
        standing.ballots)
      standing

abbrev results : List VoteResult
results = none ∷ some (record { term = 0; vote_granted = true }) ∷ []

abbrev elected : Group ℕ
elected =
    put 0
      (finish_election (voted.peer 0).peers 1 (collect (voted.peer 0).peers 1 results own_vote)
        (voted.peer 0)).0
      voted.ballots voted

vote-Cast : (x : ℕ) → (x ≡ 1) ⊎ ⊥ → Cast 1 x 0 voted.ballots
unfolding request_vote make make_persister clone read_persist tick_round
vote-Cast x (inl same) = inl (refl, sym same, refl)
vote-Cast x (inr i) = absurd i

one_vote_test : granted results ≡ 1
unfolding granted
one_vote_test = refl

two-Voters : Voters 3 (0 ∷ 1 ∷ [])
two-Voters =
    (omega arith, (λ i. elim i [ inl e ↦ ground arith | inr j ↦ j ]), (omega arith, (λ i. i), tt))

election : GroupSteps numbers 3 1 group elected
election =
    next
      (next (next here (ticks 0 follower 0 1_000_000_000 tick (omega arith)))
        (votes 1 request tick tick (omega arith)))
      (elects 0 1 (1 ∷ []) results (omega arith) two-Voters vote-Cast one_vote_test)

elected_test : (elected.peer 0).state ≡ leader
unfolding request_vote make make_persister clone read_persist tick_round finish_election
    become_leader collect
elected_test = refl

elected_term_test : (elected.peer 0).current_term ≡ 1
unfolding request_vote make make_persister clone read_persist tick_round finish_election
    become_leader collect
elected_term_test = refl

one_leader_per_term_example : ◌≡◌ {A = ℕ} 0 0
one_leader_per_term_example =
    one_leader_per_term numbers 3 1 (λ v. tick) 0 0 election (omega arith) (omega arith)
      (ap is_leader elected_test) elected_term_test (ap is_leader elected_test) elected_term_test

two_leaders_example :
    (w1 w3 : Wire ℕ) × (args : AppendEntriesArgs ℕ) × let w2 =
        heard numbers 1 args tick tick (record w1 { heartbeats = args ∷ w1.heartbeats }) in
      WireSteps numbers 3 (start_wire numbers 3 (λ v. tick)) w1
      × ((w1.peer 0).state ≡ leader)
      × ((w1.peer 0).current_term ≡ 1)
      × ((w1.peer 1).voted_for ≡ some 0)
      × ((w1.peer 1).current_term ≡ 1)
      × (heartbeat (w1.peer 0) ≡ some args)
      × WireSteps numbers 3 w1 w2
      × ((w2.peer 1).voted_for ≡ none)
      × ((w2.peer 1).current_term ≡ 1)
      × WireSteps numbers 3 w2 w3
      × ((w3.peer 0).state ≡ leader)
      × ((w3.peer 0).current_term ≡ 1)
      × ((w3.peer 2).state ≡ leader)
      × ((w3.peer 2).current_term ≡ 1)
two_leaders_example = two_leaders numbers (λ v. tick)
