-- ===== src/Raft/Group/Split.antt =====
-- raft.go: a group of three peers after a heartbeat. `AppendEntries` forgets the vote of its own term.
use mit.Prelude.{ℕ, ◌+◌, ◌<◌, ◌≡◌, inl, inr, refl, ap, ◌∙◌, true, none, some, [], ◌∷◌, arith}
use mit.Raft.Types.{
  AppendEntriesArgs, RequestVoteArgs, RequestVoteReply, follower, leader, Tick,
  election_timeout_min, sentinel,
}
use mit.Raft.Persister.{make_persister, clone}
use mit.Raft.Persist.{Codec, read_persist}
use mit.Raft.Roles.{make, become_leader}
use mit.Raft.Vote.{request_vote}
use mit.Raft.Vote.Grant.{request_vote_grants}
use mit.Raft.Append.{append_entries, follow_commit, store_entries}
use mit.Raft.Election.{begin_election, collect, finish_election, tick_round}
use mit.Raft.Replicate.{heartbeat}
use mit.Raft.Group.Quorum.{Voters}
use mit.Raft.Group.Wire.{
  Wire, WireSteps, here, ticks, asks, votes, elects, beats, hears, ticked, voted, counted, heard,
  start_wire,
}

module _ {C : Type 0} (codec : Codec C) (first : ℕ → Tick) where
  -- Peer `u` has waited for its whole timeout.
  abbrev late : ℕ → ℕ
  late u = (first u).now + (election_timeout_min + (first u).delta)

  abbrev request : ℕ → RequestVoteArgs
  request u = record { term = 1; candidate_id = u; last_log_index = 0; last_log_term = 0 }

  -- Peer `u` times out in the wire `w`, and asks for votes.
  abbrev stood : ℕ → Wire C → Wire C
  stood u w =
      let w' = ticked codec u follower 0 (late u) (first u) w in
      record w' { requests = request u ∷ w'.requests }

  -- Peer 1 handles the request of candidate `c`.
  abbrev asked : ℕ → Wire C → Wire C
  asked c w = voted codec 1 (request c) (first 1) (first 1) w

  abbrev result : ℕ → Wire C → RequestVoteReply
  result c w = (request_vote codec (request c) (first 1) (first 1) (w.peer 1)).1

  abbrev elected : ℕ → Wire C → Wire C
  elected u w = counted codec u 1 (some (result u (stood u w)) ∷ []) (asked u (stood u w))

  abbrev beat : AppendEntriesArgs C
  beat = record {
    term = 1;
    leader_id = 0;
    prev_log_index = 0;
    prev_log_term = 0;
    entries = [];
    leader_commit = 0;
  }

  abbrev one_leader : Wire C
  one_leader = elected 0 (start_wire codec 3 first)

  abbrev beating : Wire C
  beating = record one_leader { heartbeats = beat ∷ one_leader.heartbeats }

  abbrev forgetful : Wire C
  forgetful = heard codec 1 beat (first 1) (first 1) beating

  abbrev split_group : Wire C
  split_group = elected 2 forgetful

  two_Voters : (u : ℕ) → u < 3 → ¬ (u ≡ 1) → Voters 3 (u ∷ 1 ∷ [])
  two_Voters u lt other =
      (lt, (λ i. elim i [ inl e ↦ absurd (other e) | inr j ↦ j ]), (omega arith, (λ i. i), tt))

  -- Peer `u`, other than the voter, stands and is elected by the vote of peer 1.
  election :
      (u : ℕ) (w0 w : Wire C)
      → u < 3
      → ¬ (u ≡ 1)
      → begin_election 1 ((ticked codec u follower 0 (late u) (first u) w).peer u)
        ≡ some (request u)
      → WireSteps codec 3 w0 w
      → WireSteps codec 3 w0 (elected u w)
  election u w0 w lt other e r =
      elects u 1 (1 ∷ []) (some (result u (stood u w)) ∷ []) lt (two_Voters u lt other)
        ((request u, refl, refl, inl refl), tt)
        (votes 1 (request u) (first 1) (first 1) (omega arith) (inl refl)
          (asks u 1 (request u) lt e (ticks u follower 0 (late u) (first u) lt r)))

  first_request :
      begin_election 1
        ((ticked codec 0 follower 0 (late 0) (first 0) (start_wire codec 3 first)).peer 0)
      ≡ some (request 0)
  unfolding make make_persister clone read_persist tick_round begin_election
  first_request = ground arith

  first_leader :
      ((one_leader.peer 0).state ≡ leader)
      × ((one_leader.peer 0).current_term ≡ 1)
      × ((one_leader.peer 1).voted_for ≡ some 0)
      × ((one_leader.peer 1).current_term ≡ 1)
  unfolding make make_persister clone read_persist request_vote tick_round finish_election
      become_leader collect
  first_leader = ground arith

  beat_lem : heartbeat (one_leader.peer 0) ≡ some beat
  unfolding make make_persister clone read_persist request_vote tick_round finish_election
      become_leader collect heartbeat
  beat_lem = ground arith

  -- What the heartbeat leaves of the voter.
  forgotten :
      ((forgetful.peer 1).voted_for ≡ none)
      × ((forgetful.peer 1).current_term ≡ 1)
      × ((forgetful.peer 1).log ≡ sentinel ∷ [])
  unfolding make make_persister clone read_persist request_vote tick_round append_entries
      follow_commit store_entries finish_election become_leader collect
  forgotten = ground arith

  second_request :
      begin_election 1 ((ticked codec 2 follower 0 (late 2) (first 2) forgetful).peer 2)
      ≡ some (request 2)
  unfolding make make_persister clone read_persist tick_round begin_election
  second_request = ground arith

  second_vote : (result 2 (stood 2 forgetful)).vote_granted ≡ true
  second_vote =
      let (vote, term, log) = forgotten in
      (request_vote_grants codec (request 2) (first 1) (first 1) (forgetful.peer 1)).1
        (inr (term, inl vote), inr (ground (arith, log), ground (arith, log)))

  second_leader : ((split_group.peer 2).state ≡ leader) × ((split_group.peer 2).current_term ≡ 1)
  unfolding make make_persister clone read_persist tick_round finish_election become_leader collect
  second_leader = ground (arith, second_vote)

  kept_leader : split_group.peer 0 ≡ one_leader.peer 0
  kept_leader = refl

  -- Whatever the codec and the clocks, three peers that have started for the first time can come to
  -- have two leaders of term 1, with no message handled that was not sent. Peer 0 becomes the leader
  -- with the vote of peer 1; when peer 1 handles the heartbeat of peer 0, it forgets that vote, in the
  -- same term; and from there peer 2 becomes a leader of the term too, and peer 0 is still one.
  pub two_leaders :
      (w1 w3 : Wire C) × (args : AppendEntriesArgs C) × let w2 =
          heard codec 1 args
            (first 1)
            (first 1)
            (record w1 { heartbeats = args ∷ w1.heartbeats }) in
        WireSteps codec 3 (start_wire codec 3 first) w1
        × ((w1.peer 0).state ≡ leader)
        × ((w1.peer 0).current_term ≡ 1)
        × ((w1.peer 1).voted_for ≡ some 0)
        × ((w1.peer 1).current_term ≡ 1)
        × (heartbeat (w1.peer 0) ≡ some args)
        × WireSteps codec 3 w1 w2
        × ((w2.peer 1).voted_for ≡ none)
        × ((w2.peer 1).current_term ≡ 1)
        × WireSteps codec 3 w2 w3
        × ((w3.peer 0).state ≡ leader)
        × ((w3.peer 0).current_term ≡ 1)
        × ((w3.peer 2).state ≡ leader)
        × ((w3.peer 2).current_term ≡ 1)
  two_leaders =
      let (state, term, vote, same) = first_leader in
      let (none_left, kept, _) = forgotten in
      let (state', term') = second_leader in
      (
        one_leader,
        split_group,
        beat,
        (
          election 0 _ _ (omega arith) (omega arith) first_request here,
          state,
          term,
          vote,
          same,
          beat_lem,
          hears 1 beat (first 1) (first 1) (omega arith) (inl refl)
              (beats 0 beat (omega arith) beat_lem here),
          none_left,
          kept,
          election 2 _ _ (omega arith) (omega arith) second_request here,
          ap (λ r. r.state) kept_leader ∙ state,
          ap (λ r. r.current_term) kept_leader ∙ term,
          state',
          term',
        ),
      )
