-- ===== src/Raft/Vote.antt =====
-- raft.go: the `RequestVote` handler.
pub mod Once
pub mod Grant
use mit.Prelude.{ℕ, Bool, true, false, not, Option, none, some, ltb, leb, ◌==◌, if◌then◌else◌}
use mit.Raft.Types.{Raft, RequestVoteArgs, RequestVoteReply, Tick, last_log_index, last_log_term}
use mit.Raft.Persist.{Codec, persist}
use mit.Raft.Roles.{reset_election_timer, become_follower}

-- `rf.votedFor != -1 && rf.votedFor != args.CandidateId`
abbrev pub voted_for_other : Option ℕ → ℕ → Bool
voted_for_other none c = false
voted_for_other (some v) c = not (v == c)

module _ {C : Type 0} where
  unfoldable pub candidate_up_to_date : RequestVoteArgs → Raft C → Bool
  candidate_up_to_date args rf =
      if args.last_log_term == last_log_term rf
      then leb (last_log_index rf) args.last_log_index
      else ltb (last_log_term rf) args.last_log_term

  module _ (codec : Codec C) where
    -- `becomeFollowerLocked` where the other side has a larger term
    unfoldable pub step_down_if_newer : ℕ → Tick → Raft C → Raft C
    unfolding become_follower
    step_down_if_newer term tick rf =
        if ltb rf.current_term term then become_follower codec term tick rf else rf

    unfoldable pub grant_vote : RequestVoteArgs → Tick → Raft C → Raft C
    unfolding reset_election_timer persist
    grant_vote args tick rf =
        reset_election_timer tick (persist codec (record rf { voted_for = some args.candidate_id }))

    -- The checks that follow the comparison of terms.
    unfoldable pub consider_vote :
        RequestVoteArgs → Tick → RequestVoteReply → Raft C → Raft C × RequestVoteReply
    unfolding candidate_up_to_date grant_vote
    consider_vote args tick reply rf =
        if voted_for_other rf.voted_for args.candidate_id
        then (rf, reply)
        else if candidate_up_to_date args rf
        then (grant_vote args tick rf, record reply { vote_granted = true })
        else (rf, reply)

    -- The reply carries the term from before a step down.
    unfoldable pub request_vote : RequestVoteArgs → Tick → Tick → Raft C → Raft C × RequestVoteReply
    unfolding step_down_if_newer consider_vote
    request_vote args t1 t2 rf =
        let reply : RequestVoteReply = record { term = rf.current_term; vote_granted = false } in
        if ltb args.term rf.current_term
        then (rf, reply)
        else consider_vote args t2 reply (step_down_if_newer args.term t1 rf)
