-- ===== src/Raft/Node/Safe.antt =====
-- raft/raft.go: the well-formedness of a peer over its runs. The premise on `AppendEntries` requests is Raft's: no
-- request contradicts an entry that the peer knows to be committed.
use mit.Prelude.{ℕ, ◌<◌, ◌≡◌, refl, [], ◌∷◌, arith, length}
use mit.Raft.Types.{Bytes, Persister, Raft, follower, Tick}
use mit.Raft.Invariant.{IsValid}
use mit.Raft.Replicate.Reply.{step_down-IsValid, handle_reply-IsValid}
use mit.Raft.Persister.{make_persister}
use mit.Raft.Persist.{Codec, read_persist}
use mit.Raft.Node.Durable.{IsDurable}
use mit.Raft.Node.Recovery.{Step-IsDurable, boot-IsDurable}
use mit.Raft.Node.{
  Step, vote_requested, entries_received, command_started, ticked, newer_term_seen, reply_received,
  election_finished, entry_taken, message_sent, killed, restarted, boot,
}
use mit.Raft.Roles.{make, kill}
use mit.Raft.Append.Committed.{RespectsCommitted}
use mit.Raft.Commit.{deliver}
use mit.Raft.Node.Valid.{
  request_vote-IsValid, tick_round-IsValid, append_entries-IsValid, start-IsValid,
  finish_election-IsValid, take_committed-IsValid,
}

module _ {C : Type 0} where
  -- Sequences of steps in which no request contradicts a committed entry.
  module _ (codec : Codec C) where
    abbrev pub Respects : {rf rf' : Raft C} → Step codec rf rf' → Type 0
    Respects {rf} (entries_received args t1 t2) = RespectsCommitted args rf
    Respects _ = Unit

    pub data SafeSteps (rf : Raft C) : Raft C → Type 0 where
      here : SafeSteps rf rf
      next :
          {rf' rf'' : Raft C}
          → SafeSteps rf rf'
          → (s : Step codec rf' rf'') → Respects s
          → SafeSteps rf rf''

    -- A restart keeps the peer's place in the group and its log.
    read_persist-quiet :
        (bytes : Bytes) (rf : Raft C)
        → let rf' = read_persist codec bytes rf in
          (rf'.me ≡ rf.me)
          × (rf'.peers ≡ rf.peers)
          × (rf'.state ≡ rf.state)
          × (rf'.next_index ≡ rf.next_index)
          × (rf'.commit_index ≡ rf.commit_index)
          × (rf'.last_applied ≡ rf.last_applied)
    unfolding read_persist
    read_persist-quiet [] rf = (refl, refl, refl, refl, refl, refl)
    read_persist-quiet (b ∷ bytes) rf = ground arith

    pub make-quiet :
        (peers me : ℕ) (ps : Persister) (tick : Tick)
        → let rf = make codec peers me ps tick in
          (rf.me ≡ me)
          × (rf.peers ≡ peers)
          × (rf.state ≡ follower)
          × (rf.next_index ≡ [])
          × (rf.commit_index ≡ 0)
          × (rf.last_applied ≡ 0)
    unfolding make
    make-quiet peers me ps tick = read_persist-quiet _ _

    make-IsValid :
        (peers me : ℕ) (ps : Persister) (tick : Tick)
        → me < peers
        → 0 < length (make codec peers me ps tick).log
        → IsValid (make codec peers me ps tick)
    make-IsValid peers me ps tick lt h =
        let (is_me, is_peers, is_state, no_next, no_commit, no_applied) =
          make-quiet peers me ps tick in
        record {
          me_in = omega (arith, is_me, is_peers);
          next_size = λ lead. absurd (ground arith);
          match_size = λ lead. absurd (ground arith);
          next_pos = λ i n found. absurd (ground arith);
          committed = omega (arith, no_commit);
          applied = omega (arith, no_applied);
        }

    pub Step-IsValid :
        {rf rf' : Raft C} (s : Step codec rf rf')
        → Respects s
        → IsDurable codec rf
        → IsValid rf
        → IsValid rf'
    unfolding deliver kill
    Step-IsValid {rf} (vote_requested args t1 t2) r d v = request_vote-IsValid codec args t1 t2 rf v
    Step-IsValid {rf} (entries_received args t1 t2) r d v =
        append_entries-IsValid codec args t1 t2 rf r v
    Step-IsValid {rf} (command_started command) r d v = start-IsValid codec command rf v
    Step-IsValid {rf} (ticked state term now tick) r d v =
        tick_round-IsValid codec state term now tick rf v
    Step-IsValid {rf} (newer_term_seen term tick) r d v = step_down-IsValid codec term tick rf v
    Step-IsValid {rf} (reply_received peer ts args reply tick lt e) r d v =
        handle_reply-IsValid codec peer ts args reply tick rf lt e v
    Step-IsValid {rf} (election_finished term tally) r d v =
        finish_election-IsValid rf.peers term tally rf v
    Step-IsValid {rf} (entry_taken e) r d v = take_committed-IsValid rf e v
    Step-IsValid {rf} (message_sent msg) r d v = record {
      me_in = v.me_in;
      next_size = v.next_size;
      match_size = v.match_size;
      next_pos = v.next_pos;
      committed = v.committed;
      applied = v.applied;
    }
    Step-IsValid {rf} killed r d v = record {
      me_in = v.me_in;
      next_size = v.next_size;
      match_size = v.match_size;
      next_pos = v.next_pos;
      committed = v.committed;
      applied = v.applied;
    }
    Step-IsValid {rf} (restarted tick) r d v =
        make-IsValid rf.peers rf.me rf.persister tick v.me_in
          (Step-IsDurable codec (restarted tick) d).has_log

    SafeSteps-keep :
        {rf rf' : Raft C}
        → SafeSteps rf rf'
        → IsDurable codec rf
        → IsValid rf
        → IsDurable codec rf' × IsValid rf'
    SafeSteps-keep here d v = (d, v)
    SafeSteps-keep (next r s q) d v =
        let (d', v') = SafeSteps-keep r d v in (Step-IsDurable codec s d', Step-IsValid s q d' v')

    -- From its first start on, whatever it does, a peer stays well formed: a leader has one next and
    -- one match index for each peer, next indices are positive, the applied entries are committed and
    -- the committed ones are in the log; provided that no request contradicts a committed entry.
    pub boot_SafeSteps-IsValid :
        (peers me : ℕ) (tick : Tick) {rf : Raft C}
        → me < peers
        → SafeSteps (boot codec peers me tick) rf
        → IsValid rf
    boot_SafeSteps-IsValid peers me tick lt r =
        (SafeSteps-keep r (boot-IsDurable codec peers me tick) (
          make-IsValid peers me make_persister tick lt
            (boot-IsDurable codec peers me tick).has_log)).1
