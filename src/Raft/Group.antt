-- ===== src/Raft/Group.antt =====
-- A group of `n` peers of raft/raft.go, with a record of the votes that were given. A step is a step of
-- one peer. An election counts each granted vote of another peer once, since there is one goroutine
-- for each peer.
pub mod Quorum
pub mod Roles
pub mod Ballots
pub mod Seats
pub mod Steps
pub mod Leaders
pub mod Wire
pub mod Split
use mit.Prelude.{
  In, ℕ, suc, ◌+◌, ◌-◌, ◌≡◌, ◌<◌, ◌⊎◌, Bool, true, false, List, [], ◌∷◌, leb, ◌==◌, if◌then◌else◌,
  length,
}
use mit.Raft.Types.{Raft, State, leader, RequestVoteArgs, Tick}
use mit.Raft.Persist.{Codec}
use mit.Raft.Vote.{request_vote}
use mit.Raft.Vote.Once.{NoAppend}
use mit.Raft.Election.{VoteResult, own_vote, collect, finish_election, tick_round}
use mit.Raft.Election.Majority.{granted}
use mit.Raft.Node.{Step, vote_requested, ticked, election_finished, boot}
use mit.Raft.Group.Quorum.{Voters}

pub record Ballot : Type 0 where
  pub term : ℕ
  pub voter : ℕ
  pub candidate : ℕ

pub record Group (C : Type 0) : Type 0 where
  pub peer : ℕ → Raft C
  pub ballots : List Ballot

-- The voter has voted for the candidate in the term.
abbrev pub Cast : ℕ → ℕ → ℕ → List Ballot → Type 0
Cast t v c [] = ⊥
Cast t v c (b ∷ bs) = ((b.term ≡ t) × (b.voter ≡ v) × (b.candidate ≡ c)) ⊎ Cast t v c bs

abbrev pub ballot_if : Bool → ℕ → ℕ → ℕ → List Ballot → List Ballot
ballot_if true t v c bs = record { term = t; voter = v; candidate = c } ∷ bs
ballot_if false t v c bs = bs

module _ {C : Type 0} where
  abbrev pub put : ℕ → Raft C → List Ballot → Group C → Group C
  put u rf bs g = record { peer = λ v. if v == u then rf else g.peer v; ballots = bs }

  -- A round of `ticker` that makes the peer a candidate, who votes for itself.
  abbrev pub stands : State → ℕ → Raft C → Bool
  stands leader now rf = false
  stands _ now rf = leb rf.election_timeout (now - rf.last_election_reset)

  -- The steps that neither give a vote nor end an election.
  abbrev pub Plain : {codec : Codec C} {rf rf' : Raft C} → Step codec rf rf' → Type 0
  Plain (vote_requested args t1 t2) = ⊥
  Plain (ticked state term now tick) = ⊥
  Plain (election_finished term tally) = ⊥
  Plain _ = Unit

  -- Steps of the group in which no peer handles an `AppendEntries` request of the term.
  pub data GroupStep (codec : Codec C) (n term : ℕ) (g : Group C) : Group C → Type 0 where
    votes :
        (u : ℕ) (args : RequestVoteArgs) (t1 t2 : Tick)
        → u < n
        → GroupStep codec n term g (
            put u
              (request_vote codec args t1 t2 (g.peer u)).0
              (ballot_if
                (request_vote codec args t1 t2 (g.peer u)).1.vote_granted
                args.term
                u
                args.candidate_id
                g.ballots)
              g)
    ticks :
        (u : ℕ) (state : State) (t now : ℕ) (tick : Tick)
        → u < n
        → GroupStep codec n term g (
            put u
              (tick_round codec state t now tick (g.peer u)).0
              (ballot_if (stands state now (g.peer u)) (suc (g.peer u).current_term) u u g.ballots)
              g)
    elects :
        (u t : ℕ) (others : List ℕ) (results : List VoteResult)
        → u < n
        → Voters n (u ∷ others)
        → ((x : ℕ) → In x others → Cast t x u g.ballots)
        → granted results ≡ length others
        → GroupStep codec n term g (
            put u
              (finish_election
                (g.peer u).peers
                t
                (collect (g.peer u).peers t results own_vote)
                (g.peer u)).0
              g.ballots
              g)
    moves :
        (u : ℕ) {rf : Raft C} (s : Step codec (g.peer u) rf)
        → u < n
        → Plain s
        → NoAppend codec term s
        → GroupStep codec n term g (put u rf g.ballots g)

  pub data GroupSteps (codec : Codec C) (n term : ℕ) (g : Group C) : Group C → Type 0 where
    here : GroupSteps codec n term g g
    next :
        {g' g'' : Group C}
        → GroupSteps codec n term g g'
        → GroupStep codec n term g' g''
        → GroupSteps codec n term g g''

  -- All peers start for the first time.
  abbrev pub start_group : Codec C → ℕ → (ℕ → Tick) → Group C
  start_group codec n first = record { peer = λ v. boot codec n v (first v); ballots = [] }
