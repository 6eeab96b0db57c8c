-- ===== src/Raft/Node/Terms.antt =====
-- raft/raft.go: the term of a peer over every run, restarts included.
use mit.Prelude.{ℕ, ◌≤◌, ◌≡◌, ap, some, List, arith}
use mit.Raft.Types.{Raft, State, leader, Task, Tick, AppendEntriesArgs, AppendEntriesReply}
use mit.Raft.Persist.{Codec}
use mit.Raft.Roles.{kill}
use mit.Raft.Vote.{request_vote, step_down_if_newer}
use mit.Raft.Append.{append_entries, follow_commit, store_entries}
use mit.Raft.Commit.{take_committed, deliver, try_advance_commit}
use mit.Raft.Replicate.{Next, start, handle_reply, record_success, record_failure}
use mit.Raft.Election.{finish_election, tick_round}
use mit.Raft.Node.{
  Step, vote_requested, entries_received, command_started, ticked, newer_term_seen, reply_received,
  election_finished, entry_taken, message_sent, killed, restarted, Steps, here, next, boot,
}
use mit.Raft.Node.Durable.{IsDurable}
use mit.Raft.Node.Recovery.{Steps-IsDurable, boot_Steps-IsDurable}

module _ {C : Type 0} (codec : Codec C) where
  handle_reply-term :
      (peer ts : ℕ) (args : AppendEntriesArgs C) (reply : AppendEntriesReply) (tick : Tick)
      (rf : Raft C) {rf' : Raft C} {n : Next} {tasks : List Task}
      → handle_reply codec peer ts args reply tick rf ≡ some (rf', n, tasks)
      → rf.current_term ≤ rf'.current_term
  unfolding handle_reply record_success record_failure try_advance_commit
  handle_reply-term peer ts args reply tick rf e = ground arith

  tick_round-term :
      (state : State) (term now : ℕ) (tick : Tick) (rf : Raft C)
      → rf.current_term ≤ (tick_round codec state term now tick rf).0.current_term
  unfolding tick_round
  tick_round-term leader term now tick rf = omega arith
  tick_round-term _ term now tick rf = ground arith

  -- No step takes the term of a durable peer back.
  pub Step-term-le :
      {rf rf' : Raft C}
      → Step codec rf rf'
      → IsDurable codec rf
      → rf.current_term ≤ rf'.current_term
  unfolding request_vote append_entries follow_commit store_entries start step_down_if_newer
      finish_election take_committed deliver kill
  Step-term-le (vote_requested args t1 t2) v = ground arith
  Step-term-le (entries_received args t1 t2) v = ground arith
  Step-term-le (command_started command) v = ground arith
  Step-term-le {rf} (ticked state term now tick) v = tick_round-term state term now tick rf
  Step-term-le (newer_term_seen term tick) v = ground arith
  Step-term-le {rf} (reply_received peer ts args reply tick lt e) v =
      handle_reply-term peer ts args reply tick rf e
  Step-term-le (election_finished term tally) v = ground arith
  Step-term-le (entry_taken e) v = ground arith
  Step-term-le (message_sent msg) v = omega arith
  Step-term-le killed v = omega arith
  Step-term-le {rf} (restarted tick) v =
      omega (arith, ap (λ d. d.current_term) (v.recovers rf.peers rf.me tick))

  Steps-term-le :
      {rf rf' : Raft C}
      → Steps codec rf rf'
      → IsDurable codec rf
      → rf.current_term ≤ rf'.current_term
  Steps-term-le here v = omega arith
  Steps-term-le (next r s) v =
      omega (arith, Steps-term-le r v, Step-term-le s (Steps-IsDurable codec r v))

  -- The term of a peer never falls, through any steps and any crashes since its first start.
  pub term_mono :
      (peers me : ℕ) (t0 : Tick) {rf rf' : Raft C}
      → Steps codec (boot codec peers me t0) rf
      → Steps codec rf rf'
      → rf.current_term ≤ rf'.current_term
  term_mono peers me t0 r r' = Steps-term-le r' (boot_Steps-IsDurable codec peers me t0 r)
