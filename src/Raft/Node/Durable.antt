-- ===== src/Raft/Node/Durable.antt =====
-- Every step of raft/raft.go that changes the term, the vote or the log writes them to the persister.
use mit.Prelude.{
  sym, zero, suc, ◌+◌, ◌<◌, length, take, length-append, ℕ, ◌≡◌, refl, ◌⊎◌, inl, inr, some, List,
  [], ◌∷◌, arith, ap, ◌∙◌,
}
use mit.Raft.Types.{
  LogEntry, Raft, State, Bytes, RequestVoteArgs, Tick, AppendEntriesArgs, leader,
  AppendEntriesReply, Task,
}
use mit.Raft.Persister.{raftstate-save, clone_lem}
use mit.Raft.Persist.{or_sentinel, Codec, Durable, durable, persist, read_persist}
use mit.Raft.Roles.{make}
use mit.Raft.Vote.{request_vote, step_down_if_newer}
use mit.Raft.Append.{scan, append_rest, append_entries, follow_commit, store_entries}
use mit.Raft.Commit.{try_advance_commit}
use mit.Raft.Replicate.{start, handle_reply, record_success, record_failure, Next}
use mit.Raft.Election.{tick_round}

module _ {C : Type 0} (codec : Codec C) where
  -- The persister holds what the peer has in memory.
  abbrev pub OnDisk : Raft C → Type 0
  OnDisk rf = rf.persister.raftstate ≡ codec.encode (durable rf)

  -- From `rf` to `rf'` nothing durable changed, or it was written.
  abbrev pub Writes : Raft C → Raft C → Type 0
  Writes rf rf' = ((rf'.persister ≡ rf.persister) × (durable rf' ≡ durable rf)) ⊎ OnDisk rf'

  pub persist-OnDisk : (rf : Raft C) → OnDisk (persist codec rf)
  unfolding persist
  persist-OnDisk rf = grind (arith, raftstate-save)

  pub request_vote-Writes :
      (args : RequestVoteArgs) (t1 t2 : Tick) (rf : Raft C)
      → Writes rf (request_vote codec args t1 t2 rf).0
  unfolding request_vote
  request_vote-Writes args t1 t2 rf = grind (arith, raftstate-save)

  pub append_entries-Writes :
      (args : AppendEntriesArgs C) (t1 t2 : Tick) (rf : Raft C)
      → Writes rf (append_entries codec args t1 t2 rf).0
  unfolding append_entries follow_commit store_entries
  append_entries-Writes args t1 t2 rf = grind (arith, raftstate-save)

  pub start-Writes : (command : C) (rf : Raft C) → Writes rf (start codec command rf).0
  unfolding start
  start-Writes command rf = grind (arith, raftstate-save)

  pub step_down-Writes :
      (term : ℕ) (tick : Tick) (rf : Raft C) → Writes rf (step_down_if_newer codec term tick rf)
  unfolding step_down_if_newer
  step_down-Writes term tick rf = grind (arith, raftstate-save)

  pub tick_round-Writes :
      (state : State) (term now : ℕ) (tick : Tick) (rf : Raft C)
      → Writes rf (tick_round codec state term now tick rf).0
  unfolding tick_round
  tick_round-Writes leader term now tick rf = grind arith
  tick_round-Writes _ term now tick rf = grind (arith, raftstate-save)

  pub handle_reply-Writes :
      (peer ts : ℕ) (args : AppendEntriesArgs C) (reply : AppendEntriesReply) (tick : Tick)
      (rf : Raft C) {rf' : Raft C} {n : Next} {tasks : List Task}
      → handle_reply codec peer ts args reply tick rf ≡ some (rf', n, tasks)
      → Writes rf rf'
  unfolding handle_reply record_success record_failure try_advance_commit
  handle_reply-Writes peer ts args reply tick rf h = grind (arith, raftstate-save)

  append_rest-ne-nil :
      (log es : List (LogEntry C)) (i : ℕ)
      → 0 < length log
      → 0 < i
      → 0 < length (append_rest (scan log es i))
  unfolding scan
  append_rest-ne-nil log [] i h p = h
  append_rest-ne-nil (l ∷ log) (e ∷ es) (suc i) h p = ground (
    arith,
    append_rest-ne-nil (l ∷ log) es (suc i + 1),
    length-append (l ∷ log) (e ∷ es),
    length-append (take (suc i) (l ∷ log)) (e ∷ es),
  )
  append_rest-ne-nil [] (e ∷ es) i h p = elim h [ ]
  append_rest-ne-nil (l ∷ log) (e ∷ es) zero h p = elim p [ ]

  -- The sentinel stays: no step leaves an empty log.
  abbrev pub HasLog : Raft C → Type 0
  HasLog rf = 0 < length rf.log

  pub append_entries-HasLog :
      (args : AppendEntriesArgs C) (t1 t2 : Tick) (rf : Raft C)
      → HasLog rf
      → HasLog (append_entries codec args t1 t2 rf).0
  unfolding append_entries follow_commit store_entries
  append_entries-HasLog args t1 t2 rf h =
      ground (arith, append_rest-ne-nil rf.log args.entries (args.prev_log_index + 1))

  or_sentinel-HasLog : (log : List (LogEntry C)) → 0 < length log → or_sentinel log ≡ log
  or_sentinel-HasLog [] h = elim h [ ]
  or_sentinel-HasLog (e ∷ log) h = refl

  -- `readPersist` gives back what `persist` wrote.
  pub read_persist-restores :
      (bytes : Bytes) (d : Durable C) (rf : Raft C)
      → bytes ≡ codec.encode d
      → 0 < length d.log
      → durable (read_persist codec bytes rf) ≡ d
  unfolding read_persist
  read_persist-restores [] d rf e h = absurd (codec.encode-ne-nil d (sym e))
  read_persist-restores (b ∷ bytes) d rf e h =
      ground (arith, ap codec.decode e, codec.decode-encode d, or_sentinel-HasLog d.log h)

  -- A restart brings back the term, the vote and the log.
  abbrev pub Recovers : Raft C → Type 0
  Recovers rf =
      (peers me : ℕ) (tick : Tick) → durable (make codec peers me rf.persister tick) ≡ durable rf

  Recovers-OnDisk : (rf : Raft C) → HasLog rf → OnDisk rf → Recovers rf
  unfolding make
  Recovers-OnDisk rf log disk peers me tick =
      read_persist-restores _ (durable rf) _ (clone_lem rf.persister.raftstate ∙ disk) log

  pub Recovers-same :
      (rf rf' : Raft C)
      → rf'.persister ≡ rf.persister
      → durable rf' ≡ durable rf
      → Recovers rf
      → Recovers rf'
  Recovers-same rf rf' p d h peers me tick = rw (p, d) (h peers me tick)

  pub record IsDurable (rf : Raft C) : Type 0 where
    pub has_log : HasLog rf
    pub recovers : Recovers rf

  pub IsDurable-Writes :
      (rf rf' : Raft C) → Writes rf rf' → HasLog rf' → IsDurable rf → IsDurable rf'
  IsDurable-Writes rf rf' (inl (p, d)) log v = record {
    has_log = log;
    recovers = Recovers-same rf rf' p d v.recovers;
  }
  IsDurable-Writes rf rf' (inr disk) log v = record {
    has_log = log;
    recovers = Recovers-OnDisk rf' log disk;
  }
