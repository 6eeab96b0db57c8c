-- ===== src/Raft/Replicate/Reply.antt =====
-- raft.go, `replicateToPeer` after the RPC: no index is out of range, and the indices stay well formed.
use mit.Prelude.{
  ℕ, ◌+◌, ◌-◌, ◌<◌, ◌≡◌, subst, ◌∙◌, inl, inr, true, false, Bool-cases, some, List, [], ◌∷◌, arith,
  not, ◌||◌, ◌==◌, ◌⊎◌, Option, ltb, if◌then◌else◌, length, set, length-set, get_elem?-set,
  get_elem?_in_range,
}
use mit.Raft.Types.{
  Raft, AppendEntriesArgs, AppendEntriesReply, Task, apply_committed_entries, Tick, is_leader,
}
use mit.Raft.Invariant.{IsValid}
use mit.Raft.Persist.{Codec}
use mit.Raft.Vote.{step_down_if_newer}
use mit.Raft.Commit.{try_advance_commit}
use mit.Raft.Commit.Advance.{try_advance_commit_largest}
use mit.Raft.Replicate.{
  Next, stop, again, again_later, record_success, record_failure, handle_reply,
}

module _ {C : Type 0} where
  -- the peer with its indices for one follower changed
  abbrev indexed : Raft C → ℕ → ℕ → ℕ → Raft C
  indexed rf peer matched next = record rf {
    match_index = set rf.match_index peer matched;
    next_index = set rf.next_index peer next;
  }

  indexed-IsValid :
      (rf : Raft C) (peer matched next : ℕ)
      → 0 < next
      → IsValid rf
      → IsValid (indexed rf peer matched next)
  indexed-IsValid rf peer matched next pos v = record {
    me_in = v.me_in;
    next_size = λ lead. length-set rf.next_index peer next ∙ v.next_size lead;
    match_size = λ lead. length-set rf.match_index peer matched ∙ v.match_size lead;
    next_pos = λ i n h. elim (get_elem?-set rf.next_index peer i next h) [
      | inl new ↦ omega (arith, new)
      | inr old ↦ v.next_pos i n old
    ];
    committed = v.committed;
    applied = v.applied;
  }

  try_advance_commit-IsValid :
      (rf : Raft C)
      → is_leader rf.state ≡ true
      → IsValid rf
      → (rf' : Raft C) × (try_advance_commit rf ≡ some rf') × IsValid rf'
  try_advance_commit-IsValid rf lead v =
      let (n, found, a) = try_advance_commit_largest rf lead (v.match_size lead) v.committed in
      (
        record rf { commit_index = n },
        found,
        record {
          me_in = v.me_in;
          next_size = v.next_size;
          match_size = v.match_size;
          next_pos = v.next_pos;
          committed = omega (arith, a.fits, v.committed);
          applied = omega (arith, a.grows, v.applied);
        },
      )

  -- The result of a block that does not panic, in a state that is well formed.
  abbrev Returns : Option (Raft C × Next × List Task) → Type 0
  Returns r =
      (rf : Raft C) × (n : Next) × (tasks : List Task) × (r ≡ some (rf, n, tasks)) × IsValid rf

  record_success-IsValid :
      (peer : ℕ) (args : AppendEntriesArgs C) (rf : Raft C)
      → is_leader rf.state ≡ true
      → peer < rf.peers
      → IsValid rf
      → Returns (record_success peer args rf)
  unfolding record_success
  record_success-IsValid peer args rf lead lt v =
      let (old, found) =
        get_elem?_in_range rf.match_index peer (omega (arith, v.match_size lead)) in
      let (_, there) = get_elem?_in_range rf.next_index peer (omega (arith, v.next_size lead)) in
      let new = args.prev_log_index + length args.entries in
      let matched = if ltb old new then new else old in
      let (rf', committed, v') =
        try_advance_commit-IsValid (indexed rf peer matched (matched + 1)) lead
          (indexed-IsValid rf peer matched (matched + 1) (omega arith) v) in
      (
        rf',
        again,
        if ltb rf.commit_index rf'.commit_index then apply_committed_entries ∷ [] else [],
        rw (found, there, committed),
        v',
      )

  record_failure-IsValid :
      (peer : ℕ) (rf : Raft C)
      → is_leader rf.state ≡ true
      → peer < rf.peers
      → IsValid rf
      → Returns (record_failure peer rf)
  unfolding record_failure
  record_failure-IsValid peer rf lead lt v =
      let (next, found) = get_elem?_in_range rf.next_index peer (omega (arith, v.next_size lead)) in
      (_, again_later, [], rw found, stepped_back next (Bool-cases (ltb 1 next)))
    where
      back : ℕ → List ℕ
      back next = if ltb 1 next then set rf.next_index peer (next - 1) else rf.next_index

      stepped_back :
          (next : ℕ)
          → (ltb 1 next ≡ true) ⊎ (ltb 1 next ≡ false)
          → IsValid (record rf { next_index = back next })
      stepped_back next (inl above) = record {
        me_in = v.me_in;
        next_size = λ l. rw above (length-set rf.next_index peer (next - 1) ∙ v.next_size l);
        match_size = v.match_size;
        next_pos = λ i n h. elim (get_elem?-set rf.next_index peer i (next - 1) (rw above at h)) [
          | inl new ↦ ground arith
          | inr old ↦ v.next_pos i n old
        ];
        committed = v.committed;
        applied = v.applied;
      }
      stepped_back next (inr first) = rw first v

  pub step_down-IsValid :
      (codec : Codec C) (term : ℕ) (tick : Tick) (rf : Raft C)
      → IsValid rf
      → IsValid (step_down_if_newer codec term tick rf)
  unfolding step_down_if_newer
  step_down-IsValid codec term tick rf v = grind (arith, v.next_pos)

  -- Whatever the reply, a well-formed peer handles it without a panic and stays well formed.
  pub handle_reply_total :
      (codec : Codec C) (peer ts : ℕ) (args : AppendEntriesArgs C) (reply : AppendEntriesReply)
      (tick : Tick) (rf : Raft C)
      → peer < rf.peers
      → IsValid rf
      → Returns (handle_reply codec peer ts args reply tick rf)
  unfolding handle_reply
  handle_reply_total codec peer ts args reply tick rf lt v =
      elim (Bool-cases (not (is_leader rf.state) || not (rf.current_term == ts))) [
        | inl over ↦ (rf, stop, [], rw over, v)
        | inr on ↦ elim (Bool-cases (ltb rf.current_term reply.term)) [
          | inl newer ↦ (_, stop, [], rw (on, newer), step_down-IsValid codec reply.term tick rf v)
          | inr same ↦ elim (Bool-cases reply.success) [
            | inl ok ↦ rw (on, same, ok) (record_success-IsValid peer args rf (ground arith) lt v)
            | inr bad ↦ rw (on, same, bad) (record_failure-IsValid peer rf (ground arith) lt v)
          ]
        ]
      ]

  pub handle_reply-IsValid :
      (codec : Codec C) (peer ts : ℕ) (args : AppendEntriesArgs C) (reply : AppendEntriesReply)
      (tick : Tick) (rf : Raft C) {rf' : Raft C} {n : Next} {tasks : List Task}
      → peer < rf.peers
      → handle_reply codec peer ts args reply tick rf ≡ some (rf', n, tasks)
      → IsValid rf
      → IsValid rf'
  handle_reply-IsValid codec peer ts args reply tick rf {rf'} lt e v =
      let (rf'', n'', tasks'', e'', v'') =
        handle_reply_total codec peer ts args reply tick rf lt v in
      let same : rf'' ≡ rf' = cc in subst IsValid same v''
