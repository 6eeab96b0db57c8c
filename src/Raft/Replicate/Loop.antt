-- ===== src/Raft/Replicate/Loop.antt =====
-- raft.go, `replicateToPeer`: the loop, with the follower at the other end. What becomes of each call
-- is an argument.
use mit.Prelude.{ℕ, true, false, Option, none, some, List, [], ◌∷◌, ◌>>=◌}
use mit.Raft.Types.{Raft, AppendEntriesArgs, Tick}
use mit.Raft.Persist.{Codec}
use mit.Raft.Roles.{killed}
use mit.Raft.Append.{append_entries}
use mit.Raft.Replicate.{Next, stop, again, again_later, prepare_request, handle_reply}

-- What becomes of one call of `sendAppendEntries`, with the readings of the clocks it needs.
pub data Fate : Type 0 where
  request_lost : Fate
  reply_lost : Tick → Tick → Fate
  delivered : Tick → Tick → Tick → Fate

module _ {C : Type 0} (codec : Codec C) (peer term_started : ℕ) where
  -- From the call to the end of the round: the leader, the follower, and what comes next.
  unfoldable pub finish_round :
      Fate → AppendEntriesArgs C → Raft C → Raft C → Option (Raft C × Raft C × Next)
  finish_round request_lost args lead follower = some (lead, follower, again_later)
  finish_round (reply_lost t1 t2) args lead follower =
      some (lead, (append_entries codec args t1 t2 follower).0, again_later)
  finish_round (delivered t1 t2 t3) args lead follower =
      let (follower', reply, tasks) = append_entries codec args t1 t2 follower in
      do
        (lead', next, tasks') ← handle_reply codec peer term_started args reply t3 lead
        some (lead', follower', next)

  -- The leader and the follower when the loop has ended, or when the list of calls has.
  unfoldable pub replicate_loop : List Fate → Raft C → Raft C → Option (Raft C × Raft C)
  replicate_loop [] lead follower = some (lead, follower)
  replicate_loop (fate ∷ fates) lead follower = elim (killed lead) [
    | true ↦ some (lead, follower)
    | false ↦ elim (prepare_request peer term_started lead) [
      | none ↦ none
      | some none ↦ some (lead, follower)
      | some (some args) ↦ elim (finish_round fate args lead follower) [
        | none ↦ none
        | some (lead', follower', stop) ↦ some (lead', follower')
        | some (lead', follower', again) ↦ replicate_loop fates lead' follower'
        | some (lead', follower', again_later) ↦ replicate_loop fates lead' follower'
      ]
    ]
  ]
