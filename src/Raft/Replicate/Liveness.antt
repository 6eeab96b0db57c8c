-- ===== src/Raft/Replicate/Liveness.antt =====
-- raft.go, `replicateToPeer`: the loop ends, with the follower's log caught up, once enough of its
-- calls have been delivered.
use mit.Prelude.{
  ℕ, suc, ◌+◌, ◌≤◌, ◌<◌, ◌≡◌, ◌⊎◌, inl, inr, refl, ap, ◌∙◌, false, some, List, [], ◌∷◌, arith,
  length, dec_lt,
}
use mit.Raft.Types.{Raft, LogEntry}
use mit.Raft.Persist.{Codec}
use mit.Raft.Roles.{killed}
use mit.Raft.Replicate.{Next, again, again_later, build_request}
use mit.Raft.Replicate.Loop.{
  Fate, request_lost, reply_lost, delivered, finish_round, replicate_loop,
}
use mit.Raft.Replicate.Effects.{Leads, prepares, prepares_nothing}
use mit.Raft.Replicate.CatchUp.{LogMatching}
use mit.Raft.Replicate.Progress.{Progress}
use mit.Raft.Replicate.Rounds.{
  Paired, CaughtUp, spent, kept-Progress, after-Paired, goes_on, caught_up,
}

-- How many of the calls are answered.
abbrev pub deliveries : List Fate → ℕ
deliveries [] = 0
deliveries (delivered t1 t2 t3 ∷ fates) = suc (deliveries fates)
deliveries (_ ∷ fates) = deliveries fates

module _ {C : Type 0} where
  module _ (codec : Codec C) (peer ts : ℕ) (log : List (LogEntry C)) where
    next_pos :
        {lead other : Raft C} {next matched : ℕ}
        → Paired codec peer ts log lead other next matched
        → 0 < next
    next_pos p = p.leading.valid.next_pos peer _ p.leading.next_at

    Ends : List Fate → Raft C → Raft C → Type 0
    Ends fates lead other =
        (lead' other' : Raft C) × (replicate_loop codec peer ts fates lead other
          ≡ some (lead', other'))
        × CaughtUp codec peer ts log lead' other'

    running :
        {lead other : Raft C} {next matched : ℕ}
        → Paired codec peer ts log lead other next matched
        → killed lead ≡ false
    unfolding killed
    running p = p.leading.alive

    loop_stops :
        {lead other : Raft C} {next matched : ℕ} (fates : List Fate)
        → Paired codec peer ts log lead other next matched
        → length log ≤ next
        → replicate_loop codec peer ts fates lead other ≡ some (lead, other)
    unfolding replicate_loop
    loop_stops [] p le = refl
    loop_stops (fate ∷ fates) p le =
        rw
          (
            replicate_loop,
            running p,
            prepares_nothing p.leading (omega (arith, ap length p.same_log)),
          )
          refl

    loop_goes_on :
        {lead other lead' other' : Raft C} {next matched : ℕ} {then : Next} (fate : Fate)
        (fates : List Fate)
        → Paired codec peer ts log lead other next matched
        → next < length log
        → finish_round codec peer ts fate (build_request lead next) lead other
          ≡ some (lead', other', then)
        → (then ≡ again) ⊎ (then ≡ again_later)
        → replicate_loop codec peer ts (fate ∷ fates) lead other
          ≡ replicate_loop codec peer ts fates lead' other'
    unfolding replicate_loop
    loop_goes_on fate fates p lt e (inl on) =
        rw
          (
            replicate_loop,
            running p,
            prepares p.leading (omega (arith, ap length p.same_log)),
            e,
            on,
          )
          refl
    loop_goes_on fate fates p lt e (inr on) =
        rw
          (
            replicate_loop,
            running p,
            prepares p.leading (omega (arith, ap length p.same_log)),
            e,
            on,
          )
          refl

    Ending : List Fate → Type 0
    Ending fates =
        (lead other : Raft C) (next matched : ℕ)
        → Paired codec peer ts log lead other next matched
        → Progress log other.log next matched (deliveries fates)
        → Ends fates lead other

    Ends-later :
        (lead other lead' other' : Raft C) (fate : Fate) (fates : List Fate)
        → replicate_loop codec peer ts (fate ∷ fates) lead other
          ≡ replicate_loop codec peer ts fates lead' other'
        → Ends fates lead' other'
        → Ends (fate ∷ fates) lead other
    unfolding Ends
    Ends-later lead other lead' other' fate fates e (a, b, e', caught) = (a, b, e ∙ e', caught)

    one_call :
        (fate : Fate) (fates : List Fate)
        → Ending fates
        → {lead other : Raft C} {next matched : ℕ}
        → Paired codec peer ts log lead other next matched
        → Progress log other.log next matched (deliveries (fate ∷ fates))
        → next < length log
        → Ends (fate ∷ fates) lead other
    unfolding Ending finish_round
    one_call request_lost fates rest p progress lt =
        Ends-later _ _ _ _ request_lost fates (loop_goes_on request_lost fates p lt refl (inr refl))
          (rest _ _ _ _ p progress)
    one_call (reply_lost t1 t2) fates rest {lead} {other} {next} {matched} p progress lt =
        Ends-later _ _ _ _ (reply_lost t1 t2) fates
          (loop_goes_on (reply_lost t1 t2) fates p lt refl (inr refl))
          (rest _ _ _ _ (after-Paired codec peer ts log t1 t2 p)
            (kept-Progress codec peer ts log t1 t2 p progress lt))
    one_call (delivered t1 t2 t3) fates rest p progress lt =
        let g = goes_on codec peer ts log t1 t2 t3 p progress lt (next_pos p) in
        Ends-later _ _ _ _ (delivered t1 t2 t3) fates
          (loop_goes_on (delivered t1 t2 t3) fates p lt g.returned g.on)
          (rest _ _ _ _ g.paired g.progress)

    loop_ends : (fates : List Fate) → Ending fates
    unfolding Ending Ends
    loop_ends [] lead other next matched p progress = (
      lead,
      other,
      loop_stops [] p (spent codec peer ts log other.log progress),
      caught_up codec peer ts log p progress (spent codec peer ts log other.log progress),
    )
    loop_ends (fate ∷ fates) lead other next matched p progress = elim (dec_lt next (length log)) [
      | no all ↦ (
        lead,
        other,
        loop_stops (fate ∷ fates) p (omega arith),
        caught_up codec peer ts log p progress (omega arith),
      )
      | yes lt ↦ one_call fate fates (loop_ends fates) p progress lt
    ]

  -- A leader that has just been elected, and has then got a command, replicates to a follower of no
  -- newer term whose log matches its own. If enough of the calls are answered, whichever others are
  -- lost on the way to the follower or back, the loop does not panic, and the follower ends up with
  -- an entry of the leader's term at each index of the leader's log, which the leader knows.
  pub catches_up :
      (codec : Codec C) (peer ts : ℕ) (fates : List Fate) (lead other : Raft C) {next : ℕ}
      → Leads peer ts lead next 0
      → next < length lead.log
      → 0 < length other.log
      → other.current_term ≤ ts
      → LogMatching lead.log other.log
      → next + length lead.log ≤ deliveries fates
      → (lead' other' : Raft C) × (replicate_loop codec peer ts fates lead other
          ≡ some (lead', other'))
        × CaughtUp codec peer ts lead.log lead' other'
  unfolding Ending Ends
  catches_up codec peer ts fates lead other {next} leading lt has le matching many =
      loop_ends codec peer ts lead.log fates lead other next 0
        (record { leading = leading; same_log = refl; has_log = has; behind = le })
        (inl (refl, matching, lt, many))
