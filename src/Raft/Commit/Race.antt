-- ===== src/Raft/Commit/Race.antt =====
-- raft.go, `applyCommittedEntries`: two goroutines at a time. Every advance of the commit index starts
-- one, and each sends its message after it has released the lock.
use mit.Prelude.{◌+◌, ◌≤◌, ◌≡◌, refl, ap, ◌∙◌, Option, none, some, [], ◌∷◌, ◌++◌, arith, get_elem?}
use mit.Raft.Types.{Raft, LogEntry, ApplyMsg}
use mit.Raft.Commit.{apply_msg, take_committed, deliver}
use mit.Raft.Commit.Apply.{take_committed-next}

-- The peer, and what each goroutine has taken and not yet sent.
pub record Appliers (C : Type 0) : Type 0 where
  pub raft : Raft C
  pub held_a : Option (ApplyMsg C)
  pub held_b : Option (ApplyMsg C)

module _ {C : Type 0} where
  pub data Move (s : Appliers C) : Appliers C → Type 0 where
    take_a :
        {rf : Raft C} {msg : ApplyMsg C}
        → s.held_a ≡ none
        → take_committed s.raft ≡ some (rf, some msg)
        → Move s (record s { raft = rf; held_a = some msg })
    take_b :
        {rf : Raft C} {msg : ApplyMsg C}
        → s.held_b ≡ none
        → take_committed s.raft ≡ some (rf, some msg)
        → Move s (record s { raft = rf; held_b = some msg })
    send_a :
        {msg : ApplyMsg C}
        → s.held_a ≡ some msg
        → Move s (record s { raft = deliver msg s.raft; held_a = none })
    send_b :
        {msg : ApplyMsg C}
        → s.held_b ≡ some msg
        → Move s (record s { raft = deliver msg s.raft; held_b = none })

  pub data Moves (s : Appliers C) : Appliers C → Type 0 where
    start : Moves s s
    later : {t u : Appliers C} → Moves s t → Move t u → Moves s u

  abbrev pub both_idle : Raft C → Appliers C
  both_idle rf = record { raft = rf; held_a = none; held_b = none }

  -- Two goroutines that run at the same time can send two messages in the reverse of the order of the
  -- log, from every state in which two entries are committed and not yet applied.
  pub apply_out_of_order :
      (rf : Raft C) (e f : LogEntry C)
      → get_elem? rf.log (rf.last_applied + 1) ≡ some e
      → get_elem? rf.log (rf.last_applied + 2) ≡ some f
      → rf.last_applied + 2 ≤ rf.commit_index
      → (s : Appliers C) × Moves (both_idle rf) s
        × (s.held_a ≡ none)
        × (s.held_b ≡ none)
        × (s.raft.apply_ch
            ≡ (rf.apply_ch ++ (apply_msg f (rf.last_applied + 2) ∷ []))
              ++ (apply_msg e (rf.last_applied + 1) ∷ []))
  unfolding deliver
  apply_out_of_order rf e f he hf two =
      let rf1 = record rf { last_applied = rf.last_applied + 1 } in
      let up : rf.last_applied + 1 + 1 ≡ rf.last_applied + 2 = omega arith in
      let first = take_committed-next rf e he (omega arith) in
      let second = take_committed-next rf1 f (ap (get_elem? rf.log) up ∙ hf) (omega arith) in
      (
        _,
        later (later (later (later start (take_a refl first)) (take_b refl second)) (send_b refl))
            (send_a refl),
        refl,
        refl,
        ap (λ i. (rf.apply_ch ++ (apply_msg f i ∷ [])) ++ (apply_msg e (rf.last_applied + 1) ∷ []))
            up,
      )
