-- ===== src/Raft/Vote/Once.antt =====
-- raft.go, `RequestVote`: one vote in a term, and the way in which a peer votes twice.
use mit.Prelude.{ℕ, ◌<◌, ◌≡◌, ◌≢◌, ◌⊎◌, inl, inr, ap, true, some, none, List, arith}
use mit.Raft.Types.{
  Raft, State, leader, Task, Tick, RequestVoteArgs, AppendEntriesArgs, AppendEntriesReply,
}
use mit.Raft.Persist.{Codec}
use mit.Raft.Roles.{make, kill}
use mit.Raft.Vote.{request_vote, step_down_if_newer}
use mit.Raft.Vote.Grant.{UpToDate, request_vote_grants, request_vote_granted}
use mit.Raft.Append.{append_entries, follow_commit, store_entries}
use mit.Raft.Commit.{take_committed, deliver, try_advance_commit}
use mit.Raft.Replicate.{Next, start, handle_reply, record_success, record_failure}
use mit.Raft.Election.{finish_election, tick_round}
use mit.Raft.Node.{
  Step, vote_requested, entries_received, command_started, ticked, newer_term_seen, reply_received,
  election_finished, entry_taken, message_sent, killed, restarted,
}
use mit.Raft.Node.Durable.{IsDurable}
use mit.Raft.Node.Recovery.{Step-IsDurable}

module _ {C : Type 0} (codec : Codec C) where
  -- The step is not an `AppendEntries` request of this term.
  abbrev pub NoAppend : ℕ → {rf rf' : Raft C} → Step codec rf rf' → Type 0
  NoAppend term (entries_received args t1 t2) = args.term ≢ term
  NoAppend term _ = Unit

  -- Steps among which there is no such request.
  pub data QuietSteps (term : ℕ) (rf : Raft C) : Raft C → Type 0 where
    here : QuietSteps term rf rf
    next :
        {rf' rf'' : Raft C}
        → QuietSteps term rf rf'
        → (s : Step codec rf' rf'') → NoAppend term s
        → QuietSteps term rf rf''

  -- The vote of this term stands, or the term is over.
  abbrev pub Holds : ℕ → ℕ → Raft C → Type 0
  Holds term c rf = (term < rf.current_term) ⊎ ((rf.current_term ≡ term) × (rf.voted_for ≡ some c))

  handle_reply-Holds :
      (term c peer ts : ℕ) (args : AppendEntriesArgs C) (reply : AppendEntriesReply) (tick : Tick)
      (rf : Raft C) {rf' : Raft C} {n : Next} {tasks : List Task}
      → handle_reply codec peer ts args reply tick rf ≡ some (rf', n, tasks)
      → Holds term c rf
      → Holds term c rf'
  unfolding handle_reply record_success record_failure try_advance_commit
  handle_reply-Holds term c peer ts args reply tick rf e h = ground arith

  tick_round-Holds :
      (t c : ℕ) (state : State) (term now : ℕ) (tick : Tick) (rf : Raft C)
      → Holds t c rf
      → Holds t c (tick_round codec state term now tick rf).0
  unfolding tick_round
  tick_round-Holds t c leader term now tick rf h = h
  tick_round-Holds t c _ term now tick rf h = ground arith

  restart-Holds :
      (t c : ℕ) (rf : Raft C) (tick : Tick)
      → IsDurable codec rf
      → Holds t c rf
      → Holds t c (make codec rf.peers rf.me rf.persister tick)
  restart-Holds t c rf tick v h = ground (
    arith,
    ap (λ d. d.current_term) (v.recovers rf.peers rf.me tick),
    ap (λ d. d.voted_for) (v.recovers rf.peers rf.me tick),
  )

  pub Step-Holds :
      (t c : ℕ) {rf rf' : Raft C} (s : Step codec rf rf')
      → NoAppend t s
      → IsDurable codec rf
      → Holds t c rf
      → Holds t c rf'
  unfolding request_vote append_entries follow_commit store_entries start step_down_if_newer
      finish_election take_committed deliver kill
  Step-Holds t c (vote_requested args t1 t2) q v h = ground arith
  Step-Holds t c (entries_received args t1 t2) q v h = ground arith
  Step-Holds t c (command_started command) q v h = ground arith
  Step-Holds t c {rf} (ticked state term now tick) q v h =
      tick_round-Holds t c state term now tick rf h
  Step-Holds t c (newer_term_seen term tick) q v h = ground arith
  Step-Holds t c {rf} (reply_received peer ts args reply tick lt e) q v h =
      handle_reply-Holds t c peer ts args reply tick rf e h
  Step-Holds t c (election_finished term tally) q v h = ground arith
  Step-Holds t c (entry_taken e) q v h = ground arith
  Step-Holds t c (message_sent msg) q v h = h
  Step-Holds t c killed q v h = h
  Step-Holds t c {rf} (restarted tick) q v h = restart-Holds t c rf tick v h

  QuietSteps-keep :
      (t c : ℕ) {rf rf' : Raft C}
      → QuietSteps t rf rf'
      → IsDurable codec rf
      → Holds t c rf
      → IsDurable codec rf' × Holds t c rf'
  QuietSteps-keep t c here v h = (v, h)
  QuietSteps-keep t c (next r s q) v h =
      let (v', h') = QuietSteps-keep t c r v h in
      (Step-IsDurable codec s v', Step-Holds t c s q v' h')

  -- A peer that granted a vote grants none to another candidate of the same term, whatever requests,
  -- replies, timeouts, crashes and restarts come between, as long as none of them is an
  -- `AppendEntries` request of that term.
  pub one_vote_per_term :
      (a b : RequestVoteArgs) (t1 t2 u1 u2 : Tick) (rf : Raft C) {rf' : Raft C}
      → IsDurable codec rf
      → (request_vote codec a t1 t2 rf).1.vote_granted ≡ true
      → QuietSteps a.term (request_vote codec a t1 t2 rf).0 rf'
      → (request_vote codec b u1 u2 rf').1.vote_granted ≡ true
      → b.term ≡ a.term
      → b.candidate_id ≡ a.candidate_id
  one_vote_per_term a b t1 t2 u1 u2 rf {rf'} v ga r gb same =
      let promise = (request_vote_granted codec a t1 t2 rf ga).0 in
      let (v', held) =
        QuietSteps-keep a.term a.candidate_id r (Step-IsDurable codec (vote_requested a t1 t2) v)
          (inr (ap (λ d. d.current_term) promise, ap (λ d. d.voted_for) promise)) in
      ground (arith, (request_vote_grants codec b u1 u2 rf').0 gb)

  forgets_vote :
      (args : AppendEntriesArgs C) (t1 t2 : Tick) (rf : Raft C)
      → args.term ≡ rf.current_term
      → let rf' = (append_entries codec args t1 t2 rf).0 in
        (rf'.current_term ≡ rf.current_term) × (rf'.voted_for ≡ none)
  unfolding append_entries follow_commit store_entries
  forgets_vote args t1 t2 rf e = ground arith

  -- Any `AppendEntries` of the peer's own term makes it forget its vote: it then grants its vote in
  -- that term to every candidate whose log is up to date, whomever it voted for before.
  pub second_vote :
      (heartbeat : AppendEntriesArgs C) (b : RequestVoteArgs) (t1 t2 u1 u2 : Tick) (rf : Raft C)
      → heartbeat.term ≡ rf.current_term
      → b.term ≡ rf.current_term
      → UpToDate b (append_entries codec heartbeat t1 t2 rf).0
      → (request_vote codec b u1 u2 (append_entries codec heartbeat t1 t2 rf).0).1.vote_granted
        ≡ true
  second_vote heartbeat b t1 t2 u1 u2 rf eh eb up =
      let (term, vote) = forgets_vote heartbeat t1 t2 rf eh in
      (request_vote_grants codec b u1 u2 _).1 (inr (omega (arith, term), inl vote), up)
