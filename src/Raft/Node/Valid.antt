-- ===== src/Raft/Node/Valid.antt =====
-- raft/raft.go: each critical section keeps a peer well formed. `AppendEntries` does so for requests
-- that contradict no entry that the peer knows to be committed.
use mit.Prelude.{
  ℕ, ◌+◌, ◌≡◌, ◌∙◌, ◌⊎◌, inl, inr, true, Bool-cases, Option, some, [], ◌∷◌, arith, length-append,
  length-replicate, get_elem?-replicate,
}
use mit.Raft.Types.{
  Raft, LogEntry, State, leader, is_leader, Tick, RequestVoteArgs, AppendEntriesArgs, ApplyMsg,
  last_log_index,
}
use mit.Raft.Invariant.{IsValid}
use mit.Raft.Persist.{Codec}
use mit.Raft.Roles.{become_leader}
use mit.Raft.Vote.{request_vote}
use mit.Raft.Append.{append_entries, follow_commit, store_entries}
use mit.Raft.Append.Committed.{RespectsCommitted, kept_length, append_commit}
use mit.Raft.Replicate.Indices.{length-raise_to, get_elem?-raise_to}
use mit.Raft.Commit.{take_committed}
use mit.Raft.Replicate.{start}
use mit.Raft.Election.{Tally, finish_election, tick_round}

module _ {C : Type 0} where
  module _ (codec : Codec C) where
    pub request_vote-IsValid :
        (args : RequestVoteArgs) (t1 t2 : Tick) (rf : Raft C)
        → IsValid rf
        → IsValid (request_vote codec args t1 t2 rf).0
    unfolding request_vote
    request_vote-IsValid args t1 t2 rf v = grind (arith, v.next_pos)

    pub tick_round-IsValid :
        (state : State) (term now : ℕ) (tick : Tick) (rf : Raft C)
        → IsValid rf
        → IsValid (tick_round codec state term now tick rf).0
    unfolding tick_round
    tick_round-IsValid leader term now tick rf v = v
    tick_round-IsValid _ term now tick rf v = grind (arith, v.next_pos)

    pub append_entries-IsValid :
        (args : AppendEntriesArgs C) (t1 t2 : Tick) (rf : Raft C)
        → RespectsCommitted args rf
        → IsValid rf
        → IsValid (append_entries codec args t1 t2 rf).0
    unfolding append_entries follow_commit store_entries
    append_entries-IsValid args t1 t2 rf r v =
        let kept = kept_length codec args t1 t2 rf r v.committed in
        let (up, low) = append_commit codec args t1 t2 rf kept in
        record {
          me_in = ground arith;
          next_size = ground arith;
          match_size = ground arith;
          next_pos = λ i n h. v.next_pos i n (ground arith);
          committed = low;
          applied = ground arith;
        }

    started :
        (command : C) (rf : Raft C)
        → is_leader rf.state ≡ true
        → IsValid rf
        → IsValid (start codec command rf).0
    unfolding start
    started command rf lead v =
        let entry : LogEntry C = record { term = rf.current_term; command = some command } in
        rw lead (record {
          me_in = v.me_in;
          next_size = λ _. length-raise_to rf.next_index rf.me _ ∙ v.next_size lead;
          match_size = λ _. length-raise_to rf.match_index rf.me _ ∙ v.match_size lead;
          next_pos = λ i n h. elim (get_elem?-raise_to rf.next_index rf.me _ i h) [
            | inl new ↦ omega (arith, new)
            | inr old ↦ v.next_pos i n old
          ];
          committed = omega (arith, v.committed, length-append rf.log (entry ∷ []));
          applied = v.applied;
        })

    pub start-IsValid :
        (command : C) (rf : Raft C) → IsValid rf → IsValid (start codec command rf).0
    start-IsValid command rf v = elim (Bool-cases (is_leader rf.state)) [
      | inr other ↦ unfold start in rw other v
      | inl lead ↦ started command rf lead v
    ]

  become_leader-IsValid : (rf : Raft C) → IsValid rf → IsValid (become_leader rf).0
  unfolding become_leader
  become_leader-IsValid rf v = record {
    me_in = v.me_in;
    next_size = λ _. length-replicate rf.peers _;
    match_size = λ _. length-replicate rf.peers 0;
    next_pos = λ i n h. omega (arith, get_elem?-replicate rf.peers (last_log_index rf + 1) i h);
    committed = v.committed;
    applied = v.applied;
  }

  pub finish_election_cases :
      (peers term : ℕ) (tally : Tally) (rf : Raft C)
      → ((finish_election peers term tally rf).0 ≡ rf)
        ⊎ ((finish_election peers term tally rf).0 ≡ (become_leader rf).0)
  unfolding finish_election
  finish_election_cases peers term tally rf = ground arith

  pub finish_election-IsValid :
      (peers term : ℕ) (tally : Tally) (rf : Raft C)
      → IsValid rf
      → IsValid (finish_election peers term tally rf).0
  finish_election-IsValid peers term tally rf v = elim (finish_election_cases peers term tally rf) [
    | inl same ↦ rw same v
    | inr lead ↦ rw lead (become_leader-IsValid rf v)
  ]

  pub take_committed-IsValid :
      (rf : Raft C) {rf' : Raft C} {msg : Option (ApplyMsg C)}
      → take_committed rf ≡ some (rf', msg)
      → IsValid rf
      → IsValid rf'
  unfolding take_committed
  take_committed-IsValid rf {rf'} e v = record {
    me_in = ground arith;
    next_size = ground arith;
    match_size = ground arith;
    next_pos = λ i n h. v.next_pos i n (ground arith);
    committed = ground arith;
    applied = ground arith;
  }
