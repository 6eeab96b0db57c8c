-- ===== src/Raft/Node.antt =====
-- The life of one Raft peer of raft/raft.go as a step relation: each step is what one goroutine does
-- while it holds the lock, in any order, with any requests and replies from the network, any clock
-- and any random numbers. A crash keeps the persister, and `Make` starts from it.
pub mod Durable
pub mod Recovery
pub mod Terms
pub mod Valid
pub mod Safe
use mit.Prelude.{ℕ, ◌<◌, ◌≡◌, Option, some, List, []}
use mit.Raft.Types.{
  Raft, State, RequestVoteArgs, AppendEntriesArgs, AppendEntriesReply, ApplyMsg, Task, Tick,
}
use mit.Raft.Persister.{make_persister}
use mit.Raft.Persist.{Codec}
use mit.Raft.Roles.{make, kill}
use mit.Raft.Vote.{request_vote, step_down_if_newer}
use mit.Raft.Append.{append_entries}
use mit.Raft.Commit.{take_committed, deliver}
use mit.Raft.Replicate.{Next, start, handle_reply}
use mit.Raft.Election.{Tally, finish_election, tick_round}

module _ {C : Type 0} (codec : Codec C) where
  pub data Step (rf : Raft C) : Raft C → Type 0 where
    vote_requested :
        (args : RequestVoteArgs) (t1 t2 : Tick) → Step rf (request_vote codec args t1 t2 rf).0
    entries_received :
        (args : AppendEntriesArgs C) (t1 t2 : Tick) → Step rf (append_entries codec args t1 t2 rf).0
    command_started : (command : C) → Step rf (start codec command rf).0
    ticked :
        (state : State) (term now : ℕ) (tick : Tick)
        → Step rf (tick_round codec state term now tick rf).0
    newer_term_seen : (term : ℕ) (tick : Tick) → Step rf (step_down_if_newer codec term tick rf)
    reply_received :
        (peer term_started : ℕ) (args : AppendEntriesArgs C) (reply : AppendEntriesReply)
        (tick : Tick) {rf' : Raft C} {next : Next} {tasks : List Task}
        → peer < rf.peers
        → handle_reply codec peer term_started args reply tick rf ≡ some (rf', next, tasks)
        → Step rf rf'
    election_finished :
        (term : ℕ) (tally : Tally) → Step rf (finish_election rf.peers term tally rf).0
    entry_taken :
        {rf' : Raft C} {msg : Option (ApplyMsg C)}
        → take_committed rf ≡ some (rf', msg)
        → Step rf rf'
    message_sent : (msg : ApplyMsg C) → Step rf (deliver msg rf)
    killed : Step rf (kill rf)
    restarted : (tick : Tick) → Step rf (make codec rf.peers rf.me rf.persister tick)

  pub data Steps (rf : Raft C) : Raft C → Type 0 where
    here : Steps rf rf
    next : {rf' rf'' : Raft C} → Steps rf rf' → Step rf' rf'' → Steps rf rf''

  -- A peer that starts for the first time, with nothing on disk.
  abbrev pub boot : ℕ → ℕ → Tick → Raft C
  boot peers me tick = make codec peers me make_persister tick
