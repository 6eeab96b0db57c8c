-- ===== src/Raft/Replicate.antt =====
-- raft.go: `Start`, `broadcastAppendEntries` and `replicateToPeer`, each as the parts that run
-- under the lock. The RPC between two parts is the business of the caller.
pub mod Exchange
pub mod Indices
pub mod Reply
pub mod Loop
pub mod Effects
pub mod CatchUp
pub mod Progress
pub mod Rounds
pub mod Liveness
use mit.Prelude.{
  ℕ, zero, suc, ◌+◌, ◌-◌, Bool, true, false, not, ◌&&◌, ◌||◌, Option, none, some, List, [], ◌∷◌,
  ◌++◌, ltb, ◌==◌, if◌then◌else◌, length, get_elem?, set, take, drop, ◌>>=◌,
}
use mit.Raft.Types.{
  Raft, LogEntry, AppendEntriesArgs, AppendEntriesReply, Task, replicate_to_peer,
  apply_committed_entries, Tick, min, is_leader, last_log_index, term_or_zero,
}
use mit.Raft.Persist.{Codec, persist}
use mit.Raft.Vote.{step_down_if_newer}
use mit.Raft.Commit.{try_advance_commit}

-- `if xs != nil && i < len(xs) && xs[i] < v { xs[i] = v }`
abbrev pub raise_to : List ℕ → ℕ → ℕ → List ℕ
raise_to [] i v = []
raise_to (x ∷ xs) zero v = if ltb x v then v ∷ xs else x ∷ xs
raise_to (x ∷ xs) (suc i) v = x ∷ raise_to xs i v

-- The tasks that `Start` begins: one for each peer `i, i + 1, …` but `me`.
unfoldable pub replicate_tasks : ℕ → ℕ → ℕ → ℕ → List Task
replicate_tasks me term i zero = []
replicate_tasks me term i (suc left) =
    let rest = replicate_tasks me term (i + 1) left in
    if i == me then rest else replicate_to_peer i term ∷ rest

abbrev pub is_nil : List ℕ → Bool
is_nil [] = true
is_nil (x ∷ xs) = false

-- What `Start` returns: the index (`none` for -1), the term, and whether this peer leads.
abbrev pub StartResult : Type 0
StartResult = Option ℕ × ℕ × Bool

-- What a round of `replicateToPeer` does next.
pub data Next : Type 0 where
  stop again again_later : Next

module _ {C : Type 0} where
  -- The bounds are checked by the slice expression `rf.log[lo : lo+n]`.
  abbrev pub slice : List (LogEntry C) → ℕ → ℕ → List (LogEntry C)
  slice log lo n = take n (drop lo log)

  -- The heartbeat that goes to every other peer, if this one leads.
  unfoldable pub heartbeat : Raft C → Option (AppendEntriesArgs C)
  heartbeat rf =
      if is_leader rf.state
      then some (record {
        term = rf.current_term;
        leader_id = rf.me;
        prev_log_index = last_log_index rf;
        prev_log_term =
            if ltb 0 (last_log_index rf)
            then term_or_zero (get_elem? rf.log (last_log_index rf))
            else 0;
        entries = [];
        leader_commit = rf.commit_index;
      })
      else none

  -- The request for a follower whose next entry is at `next`: at most 100 entries.
  unfoldable pub build_request : Raft C → ℕ → AppendEntriesArgs C
  unfolding min
  build_request rf next = record {
    term = rf.current_term;
    leader_id = rf.me;
    prev_log_index = next - 1;
    prev_log_term =
        if ltb 0 (next - 1) && ltb (next - 1) (length rf.log)
        then term_or_zero (get_elem? rf.log (next - 1))
        else 0;
    entries = slice rf.log next (min 100 (last_log_index rf - next + 1));
    leader_commit = rf.commit_index;
  }

  -- Before the RPC. The outer `none` is a panic; the inner one ends the loop.
  unfoldable pub prepare_request : ℕ → ℕ → Raft C → Option (Option (AppendEntriesArgs C))
  prepare_request peer term_started rf =
      if not (is_leader rf.state) || not (rf.current_term == term_started)
      then some none
      else if peer == rf.me
      then some none
      else if is_nil rf.next_index || is_nil rf.match_index
      then some none
      else (do
        next ← get_elem? rf.next_index peer
        if ltb (last_log_index rf) next then some none else some (some (build_request rf next)))

  -- `reply.Success`: the indices of the peer go up, and perhaps the commit index. `none` where an index
  -- that is read or written is out of range.
  unfoldable pub record_success :
      ℕ → AppendEntriesArgs C → Raft C → Option (Raft C × Next × List Task)
  record_success peer args rf = do
    old ← get_elem? rf.match_index peer
    written ← get_elem? rf.next_index peer
    let new = args.prev_log_index + length args.entries
    let matched = if ltb old new then new else old
    let rf' = record rf {
      match_index = set rf.match_index peer matched;
      next_index = set rf.next_index peer (matched + 1);
    }
    rf'' ← try_advance_commit rf'
    some (
      rf'',
      again,
      if ltb rf.commit_index rf''.commit_index then apply_committed_entries ∷ [] else [],
    )

  -- The consistency check failed: one step back, not below 1.
  unfoldable pub record_failure : ℕ → Raft C → Option (Raft C × Next × List Task)
  record_failure peer rf = do
    next ← get_elem? rf.next_index peer
    some (
      record rf {
        next_index = if ltb 1 next then set rf.next_index peer (next - 1) else rf.next_index;
      },
      again_later,
      [],
    )

  module _ (codec : Codec C) where
    unfoldable pub start : C → Raft C → Raft C × StartResult × List Task
    unfolding persist replicate_tasks
    start command rf =
        if not (is_leader rf.state)
        then (rf, (none, rf.current_term, false), [])
        else (let index = last_log_index rf + 1 in
            let entry : LogEntry C = record { term = rf.current_term; command = some command } in
            let rf' = persist codec (record rf { log = rf.log ++ (entry ∷ []) }) in
            (
              record rf' {
                match_index = raise_to rf.match_index rf.me index;
                next_index = raise_to rf.next_index rf.me (index + 1);
              },
              (some index, rf.current_term, true),
              replicate_tasks rf.me rf.current_term 0 rf.peers,
            ))

    -- After the RPC.
    unfoldable pub handle_reply :
        ℕ
        → ℕ
        → AppendEntriesArgs C
        → AppendEntriesReply
        → Tick
        → Raft C
        → Option (Raft C × Next × List Task)
    unfolding step_down_if_newer
    handle_reply peer term_started args reply tick rf =
        if not (is_leader rf.state) || not (rf.current_term == term_started)
        then some (rf, stop, [])
        else if ltb rf.current_term reply.term
        then some (step_down_if_newer codec reply.term tick rf, stop, [])
        else if reply.success
        then record_success peer args rf
        else record_failure peer rf
