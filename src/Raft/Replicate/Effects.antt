-- ===== src/Raft/Replicate/Effects.antt =====
-- raft.go, `replicateToPeer`: what one round of the loop does to a leader and to the follower, as
-- long as the leader keeps its role and the follower's term is not newer.
use mit.Prelude.{
  ℕ, ◌+◌, ◌-◌, ◌≤◌, ◌<◌, ◌≡◌, ◌≢◌, refl, ◌∙◌, true, false, ltb, if◌then◌else◌, none, some, List, [],
  ◌∷◌, arith, length, get_elem?, set, get_elem?-set_same, length-set, in_range_of_get_elem?,
}
use mit.Raft.Types.{
  Raft, AppendEntriesArgs, AppendEntriesReply, Task, apply_committed_entries, Tick, is_leader,
}
use mit.Raft.Invariant.{IsValid}
use mit.Raft.Persist.{Codec}
use mit.Raft.Roles.{become_follower, reset_election_timer}
use mit.Raft.Append.{append_entries, store_entries, follow_commit}
use mit.Raft.Append.Laws.{after}
use mit.Raft.Commit.Advance.{try_advance_commit_largest}
use mit.Raft.Replicate.{
  again, again_later, is_nil, build_request, prepare_request, record_success, record_failure,
  handle_reply,
}
use mit.Raft.Replicate.Reply.{handle_reply-IsValid}

module _ {C : Type 0} where
  -- A leader that replicates to `peer`, with its two indices for that peer.
  pub record Leads (peer ts : ℕ) (rf : Raft C) (next matched : ℕ) : Type 0 where
    pub valid : IsValid rf
    pub leads : is_leader rf.state ≡ true
    pub in_term : rf.current_term ≡ ts
    pub alive : rf.dead ≡ false
    pub in_range : peer < rf.peers
    pub other : peer ≢ rf.me
    pub next_at : get_elem? rf.next_index peer ≡ some next
    pub matched_at : get_elem? rf.match_index peer ≡ some matched

  module _ {peer ts next matched : ℕ} {rf : Raft C} (l : Leads peer ts rf next matched) where
    pub lead_has_log : 0 < length rf.log
    lead_has_log = omega (arith, l.valid.committed)

    is_nil-false : (xs : List ℕ) {x : ℕ} → get_elem? xs peer ≡ some x → is_nil xs ≡ false
    is_nil-false [] h = cc
    is_nil-false (y ∷ xs) h = refl

    pub prepares :
        next < length rf.log → prepare_request peer ts rf ≡ some (some (build_request rf next))
    unfolding prepare_request
    prepares lt = ground (
      arith,
      l.leads,
      l.in_term,
      l.other,
      l.next_at,
      is_nil-false rf.next_index l.next_at,
      is_nil-false rf.match_index l.matched_at,
    )

    pub prepares_nothing : length rf.log ≤ next → prepare_request peer ts rf ≡ some none
    unfolding prepare_request
    prepares_nothing le = ground (
      arith,
      lead_has_log,
      l.leads,
      l.in_term,
      l.other,
      l.next_at,
      is_nil-false rf.next_index l.next_at,
      is_nil-false rf.match_index l.matched_at,
    )

    -- the leader with new indices for the peer
    abbrev pub indexed : ℕ → ℕ → ℕ → Raft C
    indexed commit m n = record rf {
      next_index = set rf.next_index peer n;
      match_index = set rf.match_index peer m;
      commit_index = commit;
    }

    module _ (codec : Codec C) (args : AppendEntriesArgs C) (reply : AppendEntriesReply)
        (t : Tick) where
      handled_refusal :
          reply.term ≤ ts
          → reply.success ≡ false
          → 1 < next
          → handle_reply codec peer ts args reply t rf
            ≡ some (record rf { next_index = set rf.next_index peer (next - 1) }, again_later, [])
      unfolding handle_reply record_failure
      handled_refusal le bad lt = ground (arith, l.leads, l.in_term, l.next_at)

      -- A refusal by a follower of no newer term: one step back.
      pub refused :
          reply.term ≤ ts
          → reply.success ≡ false
          → 1 < next
          → (rf' : Raft C) × (handle_reply codec peer ts args reply t rf
              ≡ some (rf', again_later, []))
            × (rf'.log ≡ rf.log)
            × Leads peer ts rf' (next - 1) matched
      refused le bad lt =
          let e = handled_refusal le bad lt in
          (
            _,
            e,
            refl,
            record {
              valid = handle_reply-IsValid codec peer ts args reply t rf l.in_range e l.valid;
              leads = l.leads;
              in_term = l.in_term;
              alive = l.alive;
              in_range = l.in_range;
              other = l.other;
              next_at =
                  get_elem?-set_same rf.next_index peer (next - 1)
                    (in_range_of_get_elem? rf.next_index peer l.next_at);
              matched_at = l.matched_at;
            },
          )

      handled_success :
          reply.term ≤ ts
          → reply.success ≡ true
          → matched < args.prev_log_index + length args.entries
          → let m = args.prev_log_index + length args.entries in
            (commit : ℕ) × (tasks : List Task) × (handle_reply codec peer ts args reply t rf
              ≡ some (indexed commit m (m + 1), again, tasks))
      unfolding handle_reply record_success
      handled_success le ok lt =
          let m = args.prev_log_index + length args.entries in
          let (n, found, a) =
            try_advance_commit_largest (indexed rf.commit_index m (m + 1)) l.leads
              (length-set rf.match_index peer m ∙ l.valid.match_size l.leads) l.valid.committed in
          (
            n,
            (if ltb rf.commit_index n then apply_committed_entries ∷ [] else []),
            ground (arith, l.leads, l.in_term, l.matched_at, found),
          )

      -- A success: the two indices stand behind what the request carried.
      pub succeeded :
          reply.term ≤ ts
          → reply.success ≡ true
          → matched < args.prev_log_index + length args.entries
          → (rf' : Raft C) × (tasks : List Task) × (handle_reply codec peer ts args reply t rf
              ≡ some (rf', again, tasks))
            × (rf'.log ≡ rf.log)
            × Leads peer ts rf'
                (args.prev_log_index + length args.entries + 1)
                (args.prev_log_index + length args.entries)
      succeeded le ok lt =
          let (n, tasks, e) = handled_success le ok lt in
          let m = args.prev_log_index + length args.entries in
          (
            _,
            tasks,
            e,
            refl,
            record {
              valid = handle_reply-IsValid codec peer ts args reply t rf l.in_range e l.valid;
              leads = l.leads;
              in_term = l.in_term;
              alive = l.alive;
              in_range = l.in_range;
              other = l.other;
              next_at =
                  get_elem?-set_same rf.next_index peer (m + 1)
                    (in_range_of_get_elem? rf.next_index peer l.next_at);
              matched_at =
                  get_elem?-set_same rf.match_index peer m
                    (in_range_of_get_elem? rf.match_index peer l.matched_at);
            },
          )

  -- The follower's side: its term afterwards is the request's, and its answer carries the old one.
  module _ (codec : Codec C) (args : AppendEntriesArgs C) (t1 t2 : Tick) (rf : Raft C) where
    pub append_entries-reply_term : (append_entries codec args t1 t2 rf).1.term ≡ rf.current_term
    unfolding append_entries
    append_entries-reply_term = ground arith

    pub append_entries-current_term :
        rf.current_term ≤ args.term → (after codec args t1 t2 rf).current_term ≡ args.term
    unfolding append_entries follow_commit store_entries become_follower reset_election_timer
    append_entries-current_term le = ground arith
