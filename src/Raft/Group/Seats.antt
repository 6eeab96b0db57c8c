-- ===== src/Raft/Group/Seats.antt =====
-- A group of peers of raft/raft.go: a step of one peer that changes no role in a term.
use mit.Prelude.{ℕ, ◌<◌, ◌≡◌, refl, sym, ap, ◌∙◌, inl, inr, Bool, true, false, some, List, arith}
use mit.Raft.Types.{Raft, is_leader, is_candidate}
use mit.Raft.Persist.{Codec}
use mit.Raft.Vote.Once.{Holds, Step-Holds, NoAppend}
use mit.Raft.Node.{Step}
use mit.Raft.Node.Durable.{IsDurable}
use mit.Raft.Node.Recovery.{Step-IsDurable}
use mit.Raft.Group.{Group, Ballot, ballot_if, put}
use mit.Raft.Group.Roles.{SamePlace, Step-SamePlace, OldRole}
use mit.Raft.Group.Ballots.{Seat, IsFair, Grows, Majority-keep, put-IsFair}

module _ {C : Type 0} (codec : Codec C) (n term : ℕ) where
  -- no new ballot
  pub Grows-same : (u : ℕ) (rf : Raft C) (bs : List Ballot) → Grows codec n term u rf bs bs
  Grows-same u rf bs = record { keep = λ v c b. b; only = λ v c b. inl b }

  -- one ballot of the peer, if `b`
  pub Grows-ballot :
      (b : Bool) (t u c : ℕ) (rf : Raft C) (bs : List Ballot)
      → (b ≡ true → (rf.current_term ≡ t) × (rf.voted_for ≡ some c))
      → Grows codec n term u rf bs (ballot_if b t u c bs)
  Grows-ballot false t u c rf bs h = Grows-same u rf bs
  Grows-ballot true t u c rf bs h = record {
    keep = λ v d b. inr b;
    only = λ v d b. elim b [
      | inl new ↦ inr (sym new.1, (h refl).0 ∙ new.0, (h refl).1 ∙ ap some new.2)
      | inr old ↦ inl old
    ];
  }

  -- The seat of the peer that has moved.
  moved-Seat :
      (u : ℕ) (rf rf' : Raft C) (bs bs' : List Ballot)
      → Seat codec n term u rf bs
      → Grows codec n term u rf' bs bs'
      → SamePlace codec rf rf'
      → IsDurable codec rf'
      → ((c : ℕ) → Holds codec term c rf → Holds codec term c rf')
      → OldRole codec rf rf'
      → Seat codec n term u rf' bs'
  moved-Seat u rf rf' bs bs' s grows place durable' hold role = record {
    is_me = place.0 ∙ s.is_me;
    is_peers = place.1 ∙ s.is_peers;
    durable = durable';
    stand = λ c b. elim (grows.only u c b) [
      | inl old ↦ hold c (s.stand c old)
      | inr new ↦ inr (new.1, new.2)
    ];
    own = λ is_c now. elim role [
      | inl (same, t) ↦ grows.keep u u (s.own (ap is_candidate (sym same) ∙ is_c) (sym t ∙ now))
      | inr (never, _) ↦ absurd (ground (arith, never, is_c))
    ];
    won = λ is_l now. elim role [
      | inl (same, t) ↦
          Majority-keep codec n term u u rf' bs bs' grows
            (s.won (ap is_leader (sym same) ∙ is_l) (sym t ∙ now))
      | inr (_, never) ↦ absurd (ground (arith, never, is_l))
    ];
  }

  -- A step of the peer that changes no role in a term.
  pub quiet_step :
      (u : ℕ) (rf' : Raft C) (bs' : List Ballot) (g : Group C) (s : Step codec (g.peer u) rf')
      → u < n
      → NoAppend codec term s
      → OldRole codec (g.peer u) rf'
      → Grows codec n term u rf' g.ballots bs'
      → IsFair codec n term g
      → IsFair codec n term (put u rf' bs' g)
  quiet_step u rf' bs' g s lt q role grows f =
      let seat = f.seats u lt in
      let hold : (c : ℕ) → Holds codec term c (g.peer u) → Holds codec term c rf' =
        λ c h. Step-Holds codec term c s q seat.durable h in
      put-IsFair codec n term u rf' bs' g f grows (λ c b. hold c (seat.stand c b))
        (moved-Seat u (g.peer u) rf' g.ballots bs' seat grows (Step-SamePlace codec s)
          (Step-IsDurable codec s seat.durable) hold role)
