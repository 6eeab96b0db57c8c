-- ===== src/Raft/Vote/Grant.antt =====
-- raft.go, `RequestVote`: when a vote is granted, and what a grant leaves behind.
use mit.Prelude.{◌≤◌, ◌<◌, ◌≡◌, ◌↔◌, ◌⊎◌, true, false, none, some, arith, ◌∙◌, ap}
use mit.Raft.Types.{Raft, RequestVoteArgs, RequestVoteReply, Tick, last_log_index, last_log_term}
use mit.Raft.Persister.{raftstate-save}
use mit.Raft.Persist.{Codec, Durable, durable}
use mit.Raft.Vote.{consider_vote, request_vote}

module _ {C : Type 0} where
  -- The election restriction, as an order of pairs (term, index).
  abbrev pub UpToDate : RequestVoteArgs → Raft C → Type 0
  UpToDate args rf =
      (last_log_term rf < args.last_log_term)
      ⊎ ((args.last_log_term ≡ last_log_term rf) × (last_log_index rf ≤ args.last_log_index))

  -- The term of the request is newer, or is the peer's own, in which no vote went to another candidate.
  abbrev pub IsFree : RequestVoteArgs → Raft C → Type 0
  IsFree args rf =
      (rf.current_term < args.term)
      ⊎ ((rf.current_term ≡ args.term)
          × ((rf.voted_for ≡ none) ⊎ (rf.voted_for ≡ some args.candidate_id)))

  module _ (codec : Codec C) where
    consider_vote_grants :
        (args : RequestVoteArgs) (t : Tick) (reply : RequestVoteReply) (rf : Raft C)
        → reply.vote_granted ≡ false
        → ((consider_vote codec args t reply rf).1.vote_granted ≡ true)
          ↔ (((rf.voted_for ≡ none) ⊎ (rf.voted_for ≡ some args.candidate_id)) × UpToDate args rf)
    unfolding consider_vote
    consider_vote_grants args t reply rf h = ground arith

    -- `RequestVote` grants the vote exactly if the request's term is newer than the peer's, or is the
    -- peer's own and no vote in it went to another candidate, and the candidate's log is at least as up
    -- to date in the order of last term and last index. A request of an older term is refused.
    pub request_vote_grants :
        (args : RequestVoteArgs) (t1 t2 : Tick) (rf : Raft C)
        → ((request_vote codec args t1 t2 rf).1.vote_granted ≡ true)
          ↔ (IsFree args rf × UpToDate args rf)
    unfolding request_vote
    request_vote_grants args t1 t2 rf = ground arith

    -- What a peer that granted a vote has in memory.
    granted_in_memory :
        (args : RequestVoteArgs) (t1 t2 : Tick) (rf : Raft C)
        → (request_vote codec args t1 t2 rf).1.vote_granted ≡ true
        → durable (request_vote codec args t1 t2 rf).0
          ≡ record { current_term = args.term; voted_for = some args.candidate_id; log = rf.log }
    unfolding request_vote
    granted_in_memory args t1 t2 rf h = ground arith

    granted_on_disk :
        (args : RequestVoteArgs) (t1 t2 : Tick) (rf : Raft C)
        → (request_vote codec args t1 t2 rf).1.vote_granted ≡ true
        → (request_vote codec args t1 t2 rf).0.persister.raftstate
          ≡ codec.encode (durable (request_vote codec args t1 t2 rf).0)
    unfolding request_vote
    granted_on_disk args t1 t2 rf h = grind (arith, raftstate-save)

    -- A peer that grants a vote has its term, the vote and its old log in memory and on disk before
    -- it answers.
    pub request_vote_granted :
        (args : RequestVoteArgs) (t1 t2 : Tick) (rf : Raft C)
        → (request_vote codec args t1 t2 rf).1.vote_granted ≡ true
        → let rf' = (request_vote codec args t1 t2 rf).0 in
          let promise : Durable C = record {
            current_term = args.term;
            voted_for = some args.candidate_id;
            log = rf.log;
          } in
          (durable rf' ≡ promise) × (codec.decode rf'.persister.raftstate ≡ some promise)
    request_vote_granted args t1 t2 rf h =
        let memory = granted_in_memory args t1 t2 rf h in
        (
          memory,
          ap codec.decode (granted_on_disk args t1 t2 rf h)
              ∙ codec.decode-encode _
              ∙ ap some memory,
        )
