-- ===== src/Raft/Group/Ballots.antt =====
-- The invariant of a group of peers of raft/raft.go, for one term.
use mit.Prelude.{
  In, ℕ, ◌*◌, ◌<◌, ◌==◌, ==_iff, ◌≡◌, ◌≢◌, sym, ◌⊎◌, inl, inr, true, Bool-cases, some, List, arith,
  length, subst,
}
use mit.Raft.Types.{Raft, is_leader, is_candidate}
use mit.Raft.Persist.{Codec}
use mit.Raft.Vote.Once.{Holds}
use mit.Raft.Node.Durable.{IsDurable}
use mit.Raft.Group.{Group, Ballot, Cast, put}
use mit.Raft.Group.Quorum.{Voters}

module _ {C : Type 0} (codec : Codec C) (n term : ℕ) where
  -- More than half of the peers have voted for the candidate.
  pub record Majority (c : ℕ) (bs : List Ballot) : Type 0 where
    pub voters : List ℕ
    pub different : Voters n voters
    pub most : n < 2 * length voters
    pub cast : (x : ℕ) → In x voters → Cast term x c bs

  -- What holds of a peer at its place: ballots of the term stand or are over, and a candidate or leader of
  -- the term has its votes.
  pub record Seat (v : ℕ) (rf : Raft C) (bs : List Ballot) : Type 0 where
    pub is_me : rf.me ≡ v
    pub is_peers : rf.peers ≡ n
    pub durable : IsDurable codec rf
    pub stand : (c : ℕ) → Cast term v c bs → Holds codec term c rf
    pub own : is_candidate rf.state ≡ true → rf.current_term ≡ term → Cast term v v bs
    pub won : is_leader rf.state ≡ true → rf.current_term ≡ term → Majority v bs

  pub record IsFair (g : Group C) : Type 0 where
    pub seats : (v : ℕ) → v < n → Seat v (g.peer v) g.ballots
    pub unique : (v c d : ℕ) → Cast term v c g.ballots → Cast term v d g.ballots → c ≡ d

  -- The ballots after a step of peer `u` to `rf`: the old ones, and at most one of its own, which it
  -- remembers.
  pub record Grows (u : ℕ) (rf : Raft C) (bs bs' : List Ballot) : Type 0 where
    pub keep : (v c : ℕ) → Cast term v c bs → Cast term v c bs'
    pub only :
        (v c : ℕ)
        → Cast term v c bs'
        → (Cast term v c bs) ⊎ ((v ≡ u) × (rf.current_term ≡ term) × (rf.voted_for ≡ some c))

  pub Majority-keep :
      (u c : ℕ) (rf : Raft C) (bs bs' : List Ballot)
      → Grows u rf bs bs'
      → Majority c bs
      → Majority c bs'
  Majority-keep u c rf bs bs' grows m = record {
    voters = m.voters;
    different = m.different;
    most = m.most;
    cast = λ x i. grows.keep x c (m.cast x i);
  }

  -- another peer's seat
  other-Seat :
      (u v : ℕ) (rf x : Raft C) (bs bs' : List Ballot)
      → v ≢ u
      → Grows u rf bs bs'
      → Seat v x bs
      → Seat v x bs'
  other-Seat u v rf x bs bs' ne grows s = record {
    is_me = s.is_me;
    is_peers = s.is_peers;
    durable = s.durable;
    stand =
        λ c b. elim (grows.only v c b) [ inl old ↦ s.stand c old | inr new ↦ absurd (ne (new.0)) ];
    own = λ is_c now. grows.keep v v (s.own is_c now);
    won = λ is_l now. Majority-keep u v rf bs bs' grows (s.won is_l now);
  }

  agree :
      (rf : Raft C) (c d : ℕ)
      → rf.current_term ≡ term
      → rf.voted_for ≡ some d
      → Holds codec term c rf
      → c ≡ d
  agree rf c d now vote h = ground arith

  pub put-IsFair :
      (u : ℕ) (rf : Raft C) (bs' : List Ballot) (g : Group C)
      → IsFair g
      → Grows u rf g.ballots bs'
      → ((c : ℕ) → Cast term u c g.ballots → Holds codec term c rf)
      → Seat u rf bs'
      → IsFair (put u rf bs' g)
  put-IsFair u rf bs' g f grows hold seat = record {
    seats = λ v lt. elim (Bool-cases (v == u)) [
      | inl same ↦ rw same (subst (λ w. Seat w rf bs') (sym ((==_iff v u).0 same)) seat)
      | inr other ↦ rw other (
          other-Seat u v rf (g.peer v) g.ballots bs' (λ e. ground (arith, other, e)) grows
            (f.seats v lt))
    ];
    unique = λ v c d b b'. elim (grows.only v c b) [
      | inl old ↦ elim (grows.only v d b') [
        | inl old' ↦ f.unique v c d old old'
        | inr new' ↦
            agree rf c d new'.1 new'.2 (hold c (subst (λ w. Cast term w c g.ballots) new'.0 old))
      ]
      | inr new ↦ elim (grows.only v d b') [
        | inl old' ↦
            sym
              (agree rf d c new.1 new.2 (hold d (subst (λ w. Cast term w d g.ballots) new.0 old')))
        | inr new' ↦ ground (arith, new.2, new'.2)
      ]
    ];
  }
