-- ===== src/Raft/Group/Roles.antt =====
-- raft/raft.go: what the steps of a peer do to its place in the group and to its role.
use mit.Prelude.{ℕ, ◌≡◌, refl, ap, ◌⊎◌, inl, inr, false, some, List, arith}
use mit.Raft.Types.{
  Raft, State, leader, is_leader, is_candidate, Task, Tick, RequestVoteArgs, AppendEntriesArgs,
  AppendEntriesReply,
}
use mit.Raft.Persist.{Codec}
use mit.Raft.Roles.{make, kill}
use mit.Raft.Vote.{request_vote, step_down_if_newer}
use mit.Raft.Append.{append_entries, follow_commit, store_entries}
use mit.Raft.Commit.{take_committed, deliver, try_advance_commit}
use mit.Raft.Replicate.{Next, start, handle_reply, record_success, record_failure}
use mit.Raft.Election.{finish_election, tick_round}
use mit.Raft.Node.{
  Step, vote_requested, entries_received, command_started, ticked, newer_term_seen, reply_received,
  election_finished, entry_taken, message_sent, killed, restarted,
}
use mit.Raft.Node.Safe.{make-quiet}
use mit.Raft.Group.{Plain}

module _ {C : Type 0} (codec : Codec C) where
  -- The same place in the same group.
  abbrev pub SamePlace : Raft C → Raft C → Type 0
  SamePlace rf rf' = (rf'.me ≡ rf.me) × (rf'.peers ≡ rf.peers)

  handle_reply-SamePlace :
      (peer ts : ℕ) (args : AppendEntriesArgs C) (reply : AppendEntriesReply) (tick : Tick)
      (rf : Raft C) {rf' : Raft C} {n : Next} {tasks : List Task}
      → handle_reply codec peer ts args reply tick rf ≡ some (rf', n, tasks)
      → SamePlace rf rf'
  unfolding handle_reply record_success record_failure try_advance_commit
  handle_reply-SamePlace peer ts args reply tick rf e = (ground arith, ground arith)

  tick_round-SamePlace :
      (state : State) (term now : ℕ) (tick : Tick) (rf : Raft C)
      → SamePlace rf (tick_round codec state term now tick rf).0
  unfolding tick_round
  tick_round-SamePlace leader term now tick rf = (refl, refl)
  tick_round-SamePlace _ term now tick rf = (ground arith, ground arith)

  pub Step-SamePlace : {rf rf' : Raft C} → Step codec rf rf' → SamePlace rf rf'
  unfolding request_vote append_entries follow_commit store_entries start step_down_if_newer
      finish_election take_committed deliver kill
  Step-SamePlace (vote_requested args t1 t2) = (ground arith, ground arith)
  Step-SamePlace (entries_received args t1 t2) = (ground arith, ground arith)
  Step-SamePlace (command_started command) = (ground arith, ground arith)
  Step-SamePlace {rf} (ticked state term now tick) = tick_round-SamePlace state term now tick rf
  Step-SamePlace (newer_term_seen term tick) = (ground arith, ground arith)
  Step-SamePlace {rf} (reply_received peer ts args reply tick lt e) =
      handle_reply-SamePlace peer ts args reply tick rf e
  Step-SamePlace (election_finished term tally) = (ground arith, ground arith)
  Step-SamePlace (entry_taken e) = (ground arith, ground arith)
  Step-SamePlace (message_sent msg) = (refl, refl)
  Step-SamePlace killed = (refl, refl)
  Step-SamePlace {rf} (restarted tick) =
      let quiet = make-quiet codec rf.peers rf.me rf.persister tick in (quiet.0, quiet.1)

  -- A role in a term is not new.
  abbrev pub OldRole : Raft C → Raft C → Type 0
  OldRole rf rf' =
      ((rf'.state ≡ rf.state) × (rf'.current_term ≡ rf.current_term))
      ⊎ ((is_candidate rf'.state ≡ false) × (is_leader rf'.state ≡ false))

  handle_reply-OldRole :
      (peer ts : ℕ) (args : AppendEntriesArgs C) (reply : AppendEntriesReply) (tick : Tick)
      (rf : Raft C) {rf' : Raft C} {n : Next} {tasks : List Task}
      → handle_reply codec peer ts args reply tick rf ≡ some (rf', n, tasks)
      → OldRole rf rf'
  unfolding handle_reply record_success record_failure try_advance_commit
  handle_reply-OldRole peer ts args reply tick rf e = ground arith

  restart-OldRole :
      (rf : Raft C) (tick : Tick) → OldRole rf (make codec rf.peers rf.me rf.persister tick)
  restart-OldRole rf tick =
      let quiet = make-quiet codec rf.peers rf.me rf.persister tick in
      inr (ap is_candidate quiet.2, ap is_leader quiet.2)

  pub request_vote-OldRole :
      (args : RequestVoteArgs) (t1 t2 : Tick) (rf : Raft C)
      → OldRole rf (request_vote codec args t1 t2 rf).0
  unfolding request_vote
  request_vote-OldRole args t1 t2 rf = ground arith

  pub Step-OldRole : {rf rf' : Raft C} (s : Step codec rf rf') → Plain s → OldRole rf rf'
  unfolding append_entries follow_commit store_entries start step_down_if_newer take_committed
      deliver kill
  Step-OldRole (vote_requested args t1 t2) p = absurd p
  Step-OldRole (entries_received args t1 t2) p = ground arith
  Step-OldRole (command_started command) p = ground arith
  Step-OldRole (ticked state term now tick) p = absurd p
  Step-OldRole (newer_term_seen term tick) p = ground arith
  Step-OldRole {rf} (reply_received peer ts args reply tick lt e) p =
      handle_reply-OldRole peer ts args reply tick rf e
  Step-OldRole (election_finished term tally) p = absurd p
  Step-OldRole (entry_taken e) p = ground arith
  Step-OldRole (message_sent msg) p = inl (refl, refl)
  Step-OldRole killed p = inl (refl, refl)
  Step-OldRole {rf} (restarted tick) p = restart-OldRole rf tick
