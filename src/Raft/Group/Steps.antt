-- ===== src/Raft/Group/Steps.antt =====
-- A group of peers of raft/raft.go: votes, timeouts and the ends of elections.
use mit.Prelude.{
  In, ℕ, suc, ◌+◌, ◌*◌, ◌<◌, ◌≡◌, refl, sym, ap, ◌∙◌, ◌⊎◌, inl, inr, Bool, true, false, Bool-cases,
  some, List, ◌∷◌, arith, length, subst,
}
use mit.Raft.Types.{Raft, State, leader, follower, candidate, is_candidate, RequestVoteArgs, Tick}
use mit.Raft.Persist.{Codec}
use mit.Raft.Roles.{become_leader}
use mit.Raft.Vote.{request_vote}
use mit.Raft.Vote.Grant.{request_vote_granted}
use mit.Raft.Vote.Once.{Holds, Step-Holds}
use mit.Raft.Election.{VoteResult, own_vote, collect, finish_election, tick_round}
use mit.Raft.Election.Majority.{granted, collect_sound}
use mit.Raft.Node.{Step, vote_requested, ticked, election_finished}
use mit.Raft.Node.Recovery.{Step-IsDurable}
use mit.Raft.Group.{Group, Ballot, Cast, ballot_if, put, stands}
use mit.Raft.Group.Quorum.{Voters}
use mit.Raft.Group.Roles.{Step-SamePlace, request_vote-OldRole}
use mit.Raft.Group.Ballots.{Majority, IsFair, Grows, put-IsFair}
use mit.Raft.Group.Seats.{Grows-same, Grows-ballot, quiet_step}

module _ {C : Type 0} (codec : Codec C) (n term : ℕ) where
  pub votes-IsFair :
      (u : ℕ) (args : RequestVoteArgs) (t1 t2 : Tick) (g : Group C)
      → u < n
      → IsFair codec n term g
      → IsFair codec n term (
          put u
            (request_vote codec args t1 t2 (g.peer u)).0
            (ballot_if
              (request_vote codec args t1 t2 (g.peer u)).1.vote_granted
              args.term
              u
              args.candidate_id
              g.ballots)
            g)
  votes-IsFair u args t1 t2 g lt f =
      quiet_step codec n term u _ _ g (vote_requested args t1 t2) lt tt
        (request_vote-OldRole codec args t1 t2 (g.peer u))
        (Grows-ballot codec n term _ args.term u args.candidate_id _ g.ballots (λ granted'.
          let promise = (request_vote_granted codec args t1 t2 (g.peer u) granted').0 in
          (ap (λ d. d.current_term) promise, ap (λ d. d.voted_for) promise)))
        f

  -- a round of `ticker` that stands, and one that does not
  stood :
      (state : State) (t now : ℕ) (tick : Tick) (rf : Raft C)
      → stands state now rf ≡ true
      → let rf' = (tick_round codec state t now tick rf).0 in
        (rf'.current_term ≡ suc rf.current_term)
        × (rf'.voted_for ≡ some rf.me)
        × (rf'.state ≡ candidate)
  unfolding tick_round
  stood leader t now tick rf h = cc
  stood follower t now tick rf h = (ground arith, ground arith, ground arith)
  stood candidate t now tick rf h = (ground arith, ground arith, ground arith)

  waited :
      (state : State) (t now : ℕ) (tick : Tick) (rf : Raft C)
      → stands state now rf ≡ false
      → (tick_round codec state t now tick rf).0 ≡ rf
  unfolding tick_round
  waited leader t now tick rf h = refl
  waited follower t now tick rf h = ground arith
  waited candidate t now tick rf h = ground arith

  Cast-if :
      (b : Bool) (t u : ℕ) (bs : List Ballot)
      → b ≡ true
      → t ≡ term
      → Cast term u u (ballot_if b t u u bs)
  Cast-if true t u bs h e = inl (e, refl, refl)
  Cast-if false t u bs h e = cc

  pub ticks-IsFair :
      (u : ℕ) (state : State) (t now : ℕ) (tick : Tick) (g : Group C)
      → u < n
      → IsFair codec n term g
      → IsFair codec n term (
          put u
            (tick_round codec state t now tick (g.peer u)).0
            (ballot_if (stands state now (g.peer u)) (suc (g.peer u).current_term) u u g.ballots)
            g)
  ticks-IsFair u state t now tick g lt f =
      let rf = g.peer u in
      let rf' = (tick_round codec state t now tick rf).0 in
      let bs' = ballot_if (stands state now rf) (suc rf.current_term) u u g.ballots in
      let seat = f.seats u lt in
      let s : Step codec rf rf' = ticked state t now tick in
      let grows : Grows codec n term u rf' g.ballots bs' =
        Grows-ballot codec n term (stands state now rf) (suc rf.current_term) u u rf' g.ballots
          (λ h.
            let (up, vote, role) = stood state t now tick rf h in
            (up, vote ∙ ap some seat.is_me)) in
      let hold : (c : ℕ) → Holds codec term c rf → Holds codec term c rf' =
        λ c h. Step-Holds codec term c s tt seat.durable h in
      elim (Bool-cases (stands state now rf)) [
        | inr idle ↦
            let same = waited state t now tick rf idle in
            quiet_step codec n term u rf' bs' g s lt tt
              (inl (ap (λ r. r.state) same, ap (λ r. r.current_term) same)) grows f
        | inl up ↦
            let (next_term, vote, role) = stood state t now tick rf up in
            put-IsFair codec n term u rf' bs' g f grows (λ c b. hold c (seat.stand c b))
              (record {
                is_me = (Step-SamePlace codec s).0 ∙ seat.is_me;
                is_peers = (Step-SamePlace codec s).1 ∙ seat.is_peers;
                durable = Step-IsDurable codec s seat.durable;
                stand = λ c b. elim (grows.only u c b) [
                  | inl old ↦ hold c (seat.stand c old)
                  | inr new ↦ inr (new.1, new.2)
                ];
                own = λ is_c at.
                    Cast-if (stands state now rf) (suc rf.current_term) u g.ballots up
                      (sym next_term ∙ at);
                won = λ is_l at. absurd (ground (arith, role, is_l));
              })
      ]

  -- the two ways in which an election ends
  finished :
      (peers t : ℕ) (results : List VoteResult) (rf : Raft C)
      → let rf' = (finish_election peers t (collect peers t results own_vote) rf).0 in
        (rf'.current_term ≡ rf.current_term)
        × ((rf'.state ≡ rf.state)
            ⊎ ((rf'.state ≡ leader)
                × (is_candidate rf.state ≡ true)
                × (rf.current_term ≡ t)
                × (peers < 2 * (1 + granted results))))
  unfolding finish_election become_leader
  finished peers t results rf = ground (arith, collect_sound peers t results own_vote)

  -- A candidate that has counted more than half of the votes has a majority.
  counted :
      (u t : ℕ) (others : List ℕ) (results : List VoteResult) (bs : List Ballot)
      → Voters n (u ∷ others)
      → ((x : ℕ) → In x others → Cast t x u bs)
      → granted results ≡ length others
      → t ≡ term
      → n < 2 * (1 + granted results)
      → Cast term u u bs
      → Majority codec n term u bs
  counted u t others results bs different cast count at most own = record {
    voters = u ∷ others;
    different = different;
    most = omega (arith, count, most);
    cast = λ x i. elim i [
      | inl same ↦ subst (λ y. Cast term y u bs) (sym same) own
      | inr other ↦ subst (λ k. Cast k x u bs) at (cast x other)
    ];
  }

  pub elects-IsFair :
      (u t : ℕ) (others : List ℕ) (results : List VoteResult) (g : Group C)
      → u < n
      → Voters n (u ∷ others)
      → ((x : ℕ) → In x others → Cast t x u g.ballots)
      → granted results ≡ length others
      → IsFair codec n term g
      → IsFair codec n term (
          put u
            (finish_election
              (g.peer u).peers
              t
              (collect (g.peer u).peers t results own_vote)
              (g.peer u)).0
            g.ballots
            g)
  elects-IsFair u t others results g lt different cast count f =
      let rf = g.peer u in
      let tally = collect rf.peers t results own_vote in
      let rf' = (finish_election rf.peers t tally rf).0 in
      let s : Step codec rf rf' = election_finished t tally in
      let seat = f.seats u lt in
      let grows = Grows-same codec n term u rf' g.ballots in
      let (same_term, ends) = finished rf.peers t results rf in
      elim ends [
        | inl same ↦
            quiet_step codec n term u rf' g.ballots g s lt tt (inl (same, same_term)) grows f
        | inr (leads, cand, now, most) ↦
            let hold : (c : ℕ) → Holds codec term c rf → Holds codec term c rf' =
              λ c h. Step-Holds codec term c s tt seat.durable h in
            put-IsFair codec n term u rf' g.ballots g f grows (λ c b. hold c (seat.stand c b))
              (record {
                is_me = (Step-SamePlace codec s).0 ∙ seat.is_me;
                is_peers = (Step-SamePlace codec s).1 ∙ seat.is_peers;
                durable = Step-IsDurable codec s seat.durable;
                stand = λ c b. hold c (seat.stand c b);
                own = λ is_c at. absurd (ground (arith, leads, is_c));
                won = λ is_l at.
                    counted u t others results g.ballots different cast count
                      (sym now ∙ sym same_term ∙ at) (omega (arith, most, seat.is_peers))
                      (seat.own cand (sym same_term ∙ at));
              })
      ]
