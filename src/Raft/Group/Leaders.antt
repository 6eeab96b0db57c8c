-- ===== src/Raft/Group/Leaders.antt =====
-- A group of peers of raft/raft.go: how many leaders a term has.
use mit.Prelude.{ℕ, ◌<◌, ◌≡◌, true, [], arith}
use mit.Raft.Types.{is_leader, Tick}
use mit.Raft.Persist.{Codec}
use mit.Raft.Node.{boot}
use mit.Raft.Node.Recovery.{boot-IsDurable}
use mit.Raft.Node.Safe.{make-quiet}
use mit.Raft.Group.{
  Group, GroupStep, votes, ticks, elects, moves, GroupSteps, here, next, start_group,
}
use mit.Raft.Group.Quorum.{majorities_meet}
use mit.Raft.Group.Roles.{Step-OldRole}
use mit.Raft.Group.Ballots.{Seat, IsFair}
use mit.Raft.Group.Seats.{Grows-same, quiet_step}
use mit.Raft.Group.Steps.{votes-IsFair, ticks-IsFair, elects-IsFair}

module _ {C : Type 0} (codec : Codec C) (n term : ℕ) where
  GroupStep-IsFair :
      {g g' : Group C}
      → GroupStep codec n term g g'
      → IsFair codec n term g
      → IsFair codec n term g'
  GroupStep-IsFair {g} (votes u args t1 t2 lt) f = votes-IsFair codec n term u args t1 t2 g lt f
  GroupStep-IsFair {g} (ticks u state t now tick lt) f =
      ticks-IsFair codec n term u state t now tick g lt f
  GroupStep-IsFair {g} (elects u t others results lt different cast count) f =
      elects-IsFair codec n term u t others results g lt different cast count f
  GroupStep-IsFair {g} (moves u {rf} s lt plain q) f =
      quiet_step codec n term u rf g.ballots g s lt q (Step-OldRole codec s plain)
        (Grows-same codec n term u rf g.ballots) f

  start-Seat : (v : ℕ) (tick : Tick) → Seat codec n term v (boot codec n v tick) []
  start-Seat v tick =
      let quiet = make-quiet codec n v _ tick in
      record {
        is_me = quiet.0;
        is_peers = quiet.1;
        durable = boot-IsDurable codec n v tick;
        stand = λ c b. absurd b;
        own = λ is_c at. absurd (ground (arith, quiet.2, is_c));
        won = λ is_l at. absurd (ground (arith, quiet.2, is_l));
      }

  GroupSteps-IsFair :
      (first : ℕ → Tick) {g : Group C}
      → GroupSteps codec n term (start_group codec n first) g
      → IsFair codec n term g
  GroupSteps-IsFair first here = record {
    seats = λ v lt. start-Seat v (first v);
    unique = λ v c d b b'. absurd b;
  }
  GroupSteps-IsFair first (next r s) = GroupStep-IsFair s (GroupSteps-IsFair first r)

  -- From the first start of all peers on, with any requests, losses, timeouts, crashes and restarts, a
  -- term has at most one leader, as long as no peer handles an `AppendEntries` request of that term.
  pub one_leader_per_term :
      (first : ℕ → Tick) {g : Group C} (a b : ℕ)
      → GroupSteps codec n term (start_group codec n first) g
      → a < n
      → b < n
      → is_leader (g.peer a).state ≡ true
      → (g.peer a).current_term ≡ term
      → is_leader (g.peer b).state ≡ true
      → (g.peer b).current_term ≡ term
      → a ≡ b
  one_leader_per_term first {g} a b r la lb lead_a at_a lead_b at_b =
      let f = GroupSteps-IsFair first r in
      let ma = (f.seats a la).won lead_a at_a in
      let mb = (f.seats b lb).won lead_b at_b in
      let (x, in_a, in_b) =
        majorities_meet n ma.voters mb.voters ma.different mb.different
          (omega (arith, ma.most, mb.most)) in
      f.unique x a b (ma.cast x in_a) (mb.cast x in_b)
