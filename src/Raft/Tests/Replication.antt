-- ===== src/Raft/Tests/Replication.antt =====
-- raft/raft.go: a run of the replication loop at a concrete leader and follower.
use mit.Prelude.{ℕ, zero, suc, ◌<◌, ◌≡◌, refl, some, List, [], ◌∷◌, arith, get_elem?}
use mit.Raft.Types.{Raft}
use mit.Raft.Invariant.{IsValid}
use mit.Raft.Persister.{make_persister, clone}
use mit.Raft.Roles.{make}
use mit.Raft.Replicate.Loop.{Fate, request_lost, reply_lost, delivered, replicate_loop}
use mit.Raft.Replicate.Effects.{Leads}
use mit.Raft.Replicate.CatchUp.{LogMatching}
use mit.Raft.Replicate.Rounds.{CaughtUp}
use mit.Raft.Replicate.Liveness.{catches_up}
use mit.Raft.Tests.Data.{numbers, tick, leader_peer, follower_peer}

-- The leader of term 2 believes that peer 1 has two entries.
abbrev replicating_peer : Raft ℕ
replicating_peer = record leader_peer { next_index = 4 ∷ 3 ∷ 1 ∷ []; match_index = 3 ∷ 0 ∷ 0 ∷ [] }

replicating_IsValid : IsValid replicating_peer
unfolding make make_persister clone
replicating_IsValid = record {
  me_in = omega arith;
  next_size = λ lead. refl;
  match_size = λ lead. refl;
  next_pos = positive;
  committed = omega arith;
  applied = omega arith;
}
  where
    positive : (i n : ℕ) → get_elem? (4 ∷ 3 ∷ 1 ∷ []) i ≡ some n → 0 < n
    positive zero n h = ground arith
    positive (suc zero) n h = ground arith
    positive (suc (suc zero)) n h = ground arith
    positive (suc (suc (suc i))) n h = cc

replicating_Leads : Leads 1 2 replicating_peer 3 0
unfolding make make_persister clone
replicating_Leads = record {
  valid = replicating_IsValid;
  leads = refl;
  in_term = refl;
  alive = refl;
  in_range = omega arith;
  other = omega arith;
  next_at = refl;
  matched_at = refl;
}

-- The follower has the first entry, and another one in the place of the second.
follower_matches : LogMatching replicating_peer.log follower_peer.log
follower_matches zero same j above below = absurd (omega arith)
follower_matches (suc zero) (l, f, here, there, same) zero above below = elim above [ ]
follower_matches (suc zero) (l, f, here, there, same) (suc zero) above below =
    (l, f, here, there, same)
follower_matches (suc zero) (l, f, here, there, same) (suc (suc j)) above below =
    absurd (omega arith)
follower_matches (suc (suc zero)) (l, f, here, there, same) j above below = absurd (ground arith)
follower_matches (suc (suc (suc i))) (l, f, here, there, same) j above below = cc

abbrev calls : List Fate
calls =
    request_lost
    ∷ delivered tick tick tick
    ∷ reply_lost tick tick
    ∷ delivered tick tick tick
    ∷ delivered tick tick tick
    ∷ delivered tick tick tick
    ∷ delivered tick tick tick
    ∷ delivered tick tick tick
    ∷ delivered tick tick tick
    ∷ []

catches_up_example :
    (lead' other' : Raft ℕ) × (replicate_loop numbers 1 2 calls replicating_peer follower_peer
      ≡ some (lead', other'))
    × CaughtUp numbers 1 2 replicating_peer.log lead' other'
unfolding make make_persister clone
catches_up_example =
    catches_up numbers 1 2 calls replicating_peer follower_peer replicating_Leads (omega arith)
      (omega arith) (omega arith) follower_matches (omega arith)
