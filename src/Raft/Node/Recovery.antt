-- ===== src/Raft/Node/Recovery.antt =====
-- raft/raft.go: what a crash and a restart bring back, over every run of a peer.
use mit.Prelude.{ℕ, ◌≡◌, refl, ap, inl, Option, some, List, [], ◌∷◌, arith, length-append}
use mit.Raft.Types.{
  RequestVoteArgs, ApplyMsg, Raft, Bytes, Persister, Tick, State, leader, Task, AppendEntriesArgs,
  AppendEntriesReply,
}
use mit.Raft.Persister.{make_persister, clone}
use mit.Raft.Persist.{Codec, durable, read_persist}
use mit.Raft.Roles.{make, kill}
use mit.Raft.Vote.{request_vote, step_down_if_newer}
use mit.Raft.Commit.{take_committed, deliver, try_advance_commit}
use mit.Raft.Replicate.{Next, start, handle_reply, record_success, record_failure}
use mit.Raft.Election.{Tally, finish_election, tick_round}
use mit.Raft.Node.{
  Step, vote_requested, entries_received, command_started, ticked, newer_term_seen, reply_received,
  election_finished, entry_taken, message_sent, killed, restarted, Steps, here, next, boot,
}
use mit.Raft.Node.Durable.{
  HasLog, IsDurable, IsDurable-Writes, request_vote-Writes, append_entries-Writes,
  append_entries-HasLog, start-Writes, step_down-Writes, tick_round-Writes, handle_reply-Writes,
}

module _ {C : Type 0} (codec : Codec C) where
  read_persist-persister :
      (bytes : Bytes) (rf : Raft C) → (read_persist codec bytes rf).persister ≡ rf.persister
  unfolding read_persist
  read_persist-persister [] rf = refl
  read_persist-persister (b ∷ bytes) rf = ground arith

  make-persister :
      (peers me : ℕ) (ps : Persister) (tick : Tick) → (make codec peers me ps tick).persister ≡ ps
  unfolding make
  make-persister peers me ps tick = read_persist-persister _ _

  read_persist-apply_ch :
      (bytes : Bytes) (rf : Raft C) → (read_persist codec bytes rf).apply_ch ≡ rf.apply_ch
  unfolding read_persist
  read_persist-apply_ch [] rf = refl
  read_persist-apply_ch (b ∷ bytes) rf = ground arith

  -- A peer starts with an empty channel.
  pub make-apply_ch :
      (peers me : ℕ) (ps : Persister) (tick : Tick) → (make codec peers me ps tick).apply_ch ≡ []
  unfolding make
  make-apply_ch peers me ps tick = read_persist-apply_ch _ _

  pub boot-IsDurable : (peers me : ℕ) (tick : Tick) → IsDurable codec (boot codec peers me tick)
  unfolding make read_persist make_persister clone
  boot-IsDurable peers me tick = record { has_log = omega arith; recovers = λ p m t. refl }

  request_vote-HasLog :
      (args : RequestVoteArgs) (t1 t2 : Tick) (rf : Raft C)
      → HasLog codec rf
      → HasLog codec (request_vote codec args t1 t2 rf).0
  unfolding request_vote
  request_vote-HasLog args t1 t2 rf h = ground arith

  start-HasLog :
      (command : C) (rf : Raft C) → HasLog codec rf → HasLog codec (start codec command rf).0
  unfolding start
  start-HasLog command rf h =
      ground (
        arith,
        length-append rf.log (record { term = rf.current_term; command = some command } ∷ []),
      )

  step_down-HasLog :
      (term : ℕ) (tick : Tick) (rf : Raft C)
      → HasLog codec rf
      → HasLog codec (step_down_if_newer codec term tick rf)
  unfolding step_down_if_newer
  step_down-HasLog term tick rf h = ground arith

  tick_round-HasLog :
      (state : State) (term now : ℕ) (tick : Tick) (rf : Raft C)
      → HasLog codec rf
      → HasLog codec (tick_round codec state term now tick rf).0
  unfolding tick_round
  tick_round-HasLog leader term now tick rf h = h
  tick_round-HasLog _ term now tick rf h = ground arith

  handle_reply-HasLog :
      (peer ts : ℕ) (args : AppendEntriesArgs C) (reply : AppendEntriesReply) (tick : Tick)
      (rf : Raft C) {rf' : Raft C} {n : Next} {tasks : List Task}
      → handle_reply codec peer ts args reply tick rf ≡ some (rf', n, tasks)
      → HasLog codec rf
      → HasLog codec rf'
  unfolding handle_reply record_success record_failure try_advance_commit
  handle_reply-HasLog peer ts args reply tick rf e h = ground arith

  -- The steps that leave the persister and everything durable alone.
  quiet :
      (rf : Raft C) {rf' : Raft C}
      → rf'.persister ≡ rf.persister
      → durable rf' ≡ durable rf
      → IsDurable codec rf
      → IsDurable codec rf'
  quiet rf {rf'} p d v =
      IsDurable-Writes codec rf rf' (inl (p, d)) (rw (ap (λ x. x.log) d) v.has_log) v

  restart-IsDurable :
      (rf : Raft C) (tick : Tick)
      → IsDurable codec rf
      → IsDurable codec (make codec rf.peers rf.me rf.persister tick)
  restart-IsDurable rf tick v =
      quiet rf (make-persister rf.peers rf.me rf.persister tick) (v.recovers rf.peers rf.me tick) v

  finish_election-IsDurable :
      (peers term : ℕ) (tally : Tally) (rf : Raft C)
      → IsDurable codec rf
      → IsDurable codec (finish_election peers term tally rf).0
  unfolding finish_election
  finish_election-IsDurable peers term tally rf v = quiet rf (ground arith) (ground arith) v

  take_committed-IsDurable :
      (rf : Raft C) {rf' : Raft C} {msg : Option (ApplyMsg C)}
      → take_committed rf ≡ some (rf', msg)
      → IsDurable codec rf
      → IsDurable codec rf'
  unfolding take_committed
  take_committed-IsDurable rf e v = quiet rf (ground arith) (ground arith) v

  pub Step-IsDurable :
      {rf rf' : Raft C} → Step codec rf rf' → IsDurable codec rf → IsDurable codec rf'
  unfolding deliver kill
  Step-IsDurable {rf} (vote_requested args t1 t2) v =
      IsDurable-Writes codec rf _ (request_vote-Writes codec args t1 t2 rf)
        (request_vote-HasLog args t1 t2 rf v.has_log) v
  Step-IsDurable {rf} (entries_received args t1 t2) v =
      IsDurable-Writes codec rf _ (append_entries-Writes codec args t1 t2 rf)
        (append_entries-HasLog codec args t1 t2 rf v.has_log) v
  Step-IsDurable {rf} (command_started command) v =
      IsDurable-Writes codec rf _ (start-Writes codec command rf)
        (start-HasLog command rf v.has_log) v
  Step-IsDurable {rf} (ticked state term now tick) v =
      IsDurable-Writes codec rf _ (tick_round-Writes codec state term now tick rf)
        (tick_round-HasLog state term now tick rf v.has_log) v
  Step-IsDurable {rf} (newer_term_seen term tick) v =
      IsDurable-Writes codec rf _ (step_down-Writes codec term tick rf)
        (step_down-HasLog term tick rf v.has_log) v
  Step-IsDurable {rf} (reply_received peer ts args reply tick lt e) v =
      IsDurable-Writes codec rf _ (handle_reply-Writes codec peer ts args reply tick rf e)
        (handle_reply-HasLog peer ts args reply tick rf e v.has_log) v
  Step-IsDurable {rf} (election_finished term tally) v =
      finish_election-IsDurable rf.peers term tally rf v
  Step-IsDurable {rf} (entry_taken e) v = take_committed-IsDurable rf e v
  Step-IsDurable {rf} (message_sent msg) v = quiet rf refl refl v
  Step-IsDurable {rf} killed v = quiet rf refl refl v
  Step-IsDurable {rf} (restarted tick) v = restart-IsDurable rf tick v

  pub Steps-IsDurable :
      {rf rf' : Raft C} → Steps codec rf rf' → IsDurable codec rf → IsDurable codec rf'
  Steps-IsDurable here v = v
  Steps-IsDurable (next r s) v = Step-IsDurable s (Steps-IsDurable r v)

  pub boot_Steps-IsDurable :
      (peers me : ℕ) (tick : Tick) {rf : Raft C}
      → Steps codec (boot codec peers me tick) rf
      → IsDurable codec rf
  boot_Steps-IsDurable peers me tick r = Steps-IsDurable r (boot-IsDurable peers me tick)

  -- Whatever a peer did since it first started, a crash at any point between two critical sections
  -- and a restart bring back its term, its vote and its log.
  pub crash_recovery :
      (peers me : ℕ) (t0 : Tick) {rf : Raft C}
      → Steps codec (boot codec peers me t0) rf
      → (tick : Tick) → durable (make codec rf.peers rf.me rf.persister tick) ≡ durable rf
  crash_recovery peers me t0 {rf} r tick =
      (boot_Steps-IsDurable peers me t0 r).recovers rf.peers rf.me tick
