-- ===== src/Raft/Commit/Apply.antt =====
-- raft.go, `applyCommittedEntries`: what one goroutine alone sends on the channel.
use mit.Prelude.{
  ℕ, zero, suc, ◌+◌, ◌≤◌, ◌<◌, ◌≡◌, ap, ◌∙◌, none, some, List, [], ◌∷◌, ◌++◌, arith, length,
  get_elem?, take, drop, drop-suc, get_elem?_in_range,
}
use mathlib.Core.List.{append-nil, append_assoc}
use mit.Raft.Types.{Raft, LogEntry, ApplyMsg}
use mit.Raft.Commit.{apply_msg, take_committed, deliver, apply_committed}

module _ {C : Type 0} where
  -- The messages for consecutive entries, the first of which has index `i`.
  unfoldable pub messages : ℕ → List (LogEntry C) → List (ApplyMsg C)
  messages i [] = []
  messages i (e ∷ es) = apply_msg e i ∷ messages (i + 1) es

  pub take_committed-next :
      (rf : Raft C) (e : LogEntry C)
      → get_elem? rf.log (rf.last_applied + 1) ≡ some e
      → rf.last_applied < rf.commit_index
      → take_committed rf
        ≡ some (
          record rf { last_applied = rf.last_applied + 1 },
          some (apply_msg e (rf.last_applied + 1)),
        )
  unfolding take_committed
  take_committed-next rf e found lt = ground arith

  take_committed-done :
      (rf : Raft C) → rf.commit_index ≤ rf.last_applied → take_committed rf ≡ some (rf, none)
  unfolding take_committed
  take_committed-done rf le = ground arith

  -- Everything committed and not applied is sent, in the order of the log, each entry once with its
  -- index; then the goroutine ends. Fuel above the number of entries is enough.
  pub apply_committed_all :
      (rf : Raft C) (fuel d : ℕ)
      → rf.last_applied + d ≡ rf.commit_index
      → rf.commit_index < length rf.log
      → d < fuel
      → apply_committed fuel rf
        ≡ some (record rf {
          last_applied = rf.commit_index;
          apply_ch =
              rf.apply_ch
              ++ messages (rf.last_applied + 1) (take d (drop (rf.last_applied + 1) rf.log));
        })
  unfolding apply_committed messages
  apply_committed_all rf zero d e lt h = elim h [ ]
  apply_committed_all rf (suc fuel) zero e lt h =
      rw (take_committed-done rf (omega arith), apply_committed)
        (ground (arith, append-nil rf.apply_ch))
  apply_committed_all rf (suc fuel) (suc d) e lt h =
      let (x, found) = get_elem?_in_range rf.log (rf.last_applied + 1) (omega arith) in
      let msg = apply_msg x (rf.last_applied + 1) in
      let rf' = deliver msg (record rf { last_applied = rf.last_applied + 1 }) in
      let rest = take d (drop (rf.last_applied + 1 + 1) rf.log) in
      let sent = λ (ms : List (ApplyMsg C)).
        some (record rf { last_applied = rf.commit_index; apply_ch = ms }) in
      let ih = apply_committed_all rf' fuel d (omega arith) lt (omega arith) in
      let up : suc (rf.last_applied + 1) ≡ rf.last_applied + 1 + 1 = omega arith in
      let next : drop (rf.last_applied + 1) rf.log ≡ x ∷ drop (rf.last_applied + 1 + 1) rf.log =
        drop-suc (rf.last_applied + 1) rf.log found ∙ ap (λ k. x ∷ drop k rf.log) up in
      rw (take_committed-next rf x found (omega arith), apply_committed)
        (rw next (
          ih
          ∙ ap sent
              (append_assoc rf.apply_ch (msg ∷ []) (messages (rf.last_applied + 1 + 1) rest))))
