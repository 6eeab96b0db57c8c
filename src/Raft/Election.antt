-- ===== src/Raft/Election.antt =====
-- raft.go: `ticker` and `startElection`, each as the parts that run under a lock.
pub mod Majority
use mit.Prelude.{
  ℕ, ◌+◌, ◌-◌, ◌/◌, Bool, true, false, not, ◌&&◌, ◌||◌, Option, none, some, List, [], ◌∷◌, ltb, leb,
  ◌==◌, if◌then◌else◌,
}
use mit.Raft.Types.{
  Raft, State, leader, is_candidate, RequestVoteArgs, RequestVoteReply, Task,
  broadcast_append_entries, start_election, Tick, last_log_index, last_log_term,
}
use mit.Raft.Persist.{Codec}
use mit.Raft.Roles.{become_candidate, become_leader}

-- The local variables that the goroutines of one election share.
pub record Tally : Type 0 where
  pub votes : ℕ
  pub finished : ℕ
  pub election_done : Bool

abbrev pub own_vote : Tally
own_vote = record { votes = 1; finished = 0; election_done = false }

-- What came back from one peer: nothing, or its reply.
abbrev pub VoteResult : Type 0
VoteResult = Option RequestVoteReply

-- One goroutine after its RPC. A reply with a larger term makes a step down to that term follow.
unfoldable pub count_reply : ℕ → VoteResult → Tally → Tally × Option ℕ
count_reply term none tally = (record tally { finished = tally.finished + 1 }, none)
count_reply term (some reply) tally =
    if tally.election_done
    then (tally, none)
    else if reply.vote_granted
    then (record tally { votes = tally.votes + 1; finished = tally.finished + 1 }, none)
    else (
      record tally { finished = tally.finished + 1 },
      if ltb term reply.term then some reply.term else none,
    )

-- The condition of the wait, for `peers` peers.
unfoldable pub must_wait : ℕ → Tally → Bool
must_wait peers tally =
    leb tally.votes (peers / 2) && ltb tally.finished (peers - 1) && not tally.election_done

-- The goroutines that finish while the election waits, in the order in which they take the lock.
unfoldable pub collect : ℕ → ℕ → List VoteResult → Tally → Tally
unfolding count_reply must_wait
collect peers term [] tally = tally
collect peers term (r ∷ rs) tally = elim (must_wait peers tally) [
  | true ↦ collect peers term rs (count_reply term r tally).0
  | false ↦ tally
]

module _ {C : Type 0} where
  -- The request for every other peer, if the election is still this peer's business.
  unfoldable pub begin_election : ℕ → Raft C → Option RequestVoteArgs
  begin_election term rf =
      if not (rf.current_term == term) || not (is_candidate rf.state)
      then none
      else some (record {
        term = term;
        candidate_id = rf.me;
        last_log_index = last_log_index rf;
        last_log_term = last_log_term rf;
      })

  -- After the wait.
  unfoldable pub finish_election : ℕ → ℕ → Tally → Raft C → Raft C × List Task
  unfolding become_leader
  finish_election peers term tally rf =
      if ltb (peers / 2) tally.votes
      then (if (rf.current_term == term) && is_candidate rf.state
          then become_leader rf
          else (rf, []))
      else (rf, [])

  module _ (codec : Codec C) where
    -- One round of `ticker`: `state` and `term` were read before, under a lock of their own, and
    -- `now` is the clock at `time.Since`.
    unfoldable pub tick_round : State → ℕ → ℕ → Tick → Raft C → Raft C × List Task
    unfolding become_candidate
    tick_round leader term now tick rf = (rf, broadcast_append_entries ∷ [])
    tick_round _ term now tick rf =
        if leb rf.election_timeout (now - rf.last_election_reset)
        then (become_candidate codec tick rf, start_election (term + 1) ∷ [])
        else (rf, [])
