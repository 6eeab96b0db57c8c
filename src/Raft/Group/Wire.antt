-- ===== src/Raft/Group/Wire.antt =====
-- raft.go: a group of `n` peers and the messages between them. A message stays on its way for good: it
-- may be lost, delayed or handled again, but what is handled was sent.
use mit.Prelude.{ℕ, ◌≡◌, ◌<◌, ◌⊎◌, List, [], ◌∷◌, some, if◌then◌else◌, ◌==◌}
use mit.Raft.Types.{Raft, State, RequestVoteArgs, RequestVoteReply, AppendEntriesArgs, Tick}
use mit.Raft.Persist.{Codec}
use mit.Raft.Vote.{request_vote}
use mit.Raft.Append.{append_entries}
use mit.Raft.Election.{VoteResult, own_vote, begin_election, collect, finish_election, tick_round}
use mit.Raft.Replicate.{heartbeat}
use mit.Raft.Node.{boot}
use mit.Raft.Group.Quorum.{Voters}

-- What a peer has replied to a request.
pub record Answer : Type 0 where
  pub voter : ℕ
  pub request : RequestVoteArgs
  pub reply : RequestVoteReply

pub record Wire (C : Type 0) : Type 0 where
  pub peer : ℕ → Raft C
  pub requests : List RequestVoteArgs
  pub answers : List Answer
  pub heartbeats : List (AppendEntriesArgs C)

module _ {A : Type 0} where
  abbrev pub Sent : A → List A → Type 0
  Sent x [] = ⊥
  Sent x (y ∷ ys) = (x ≡ y) ⊎ Sent x ys

-- One reply of each of the voters to the candidate's request of the term.
abbrev pub Replied : ℕ → ℕ → List Answer → List ℕ → List VoteResult → Type 0
Replied candidate term sent [] [] = Unit
Replied candidate term sent (v ∷ vs) (some reply ∷ rs) =
    ((request : RequestVoteArgs) × (request.candidate_id ≡ candidate)
      × (request.term ≡ term)
      × Sent (record { voter = v; request = request; reply = reply }) sent)
    × Replied candidate term sent vs rs
Replied _ _ _ _ _ = ⊥

module _ {C : Type 0} (codec : Codec C) where
  abbrev pub set_peer : ℕ → Raft C → Wire C → Wire C
  set_peer u rf w = record w { peer = λ v. if v == u then rf else w.peer v }

  -- A round of `ticker` in the state that it has read.
  abbrev pub ticked : ℕ → State → ℕ → ℕ → Tick → Wire C → Wire C
  ticked u state term now tick w = set_peer u (tick_round codec state term now tick (w.peer u)).0 w

  -- The peer handles the request, and its reply is sent.
  abbrev pub voted : ℕ → RequestVoteArgs → Tick → Tick → Wire C → Wire C
  voted u args t1 t2 w =
      let (rf, reply) = request_vote codec args t1 t2 (w.peer u) in
      record (set_peer u rf w) {
        answers = record { voter = u; request = args; reply = reply } ∷ w.answers;
      }

  abbrev pub counted : ℕ → ℕ → List VoteResult → Wire C → Wire C
  counted u term results w =
      set_peer u
        (finish_election (w.peer u).peers term (collect (w.peer u).peers term results own_vote)
          (w.peer u)).0
        w

  abbrev pub heard : ℕ → AppendEntriesArgs C → Tick → Tick → Wire C → Wire C
  heard u args t1 t2 w = set_peer u (append_entries codec args t1 t2 (w.peer u)).0 w

  pub data WireSteps (n : ℕ) (w : Wire C) : Wire C → Type 0 where
    here : WireSteps n w w
    ticks :
        {w' : Wire C} (u : ℕ) (state : State) (term now : ℕ) (tick : Tick)
        → u < n
        → WireSteps n w w'
        → WireSteps n w (ticked u state term now tick w')
    asks :
        {w' : Wire C} (u term : ℕ) (args : RequestVoteArgs)
        → u < n
        → begin_election term (w'.peer u) ≡ some args
        → WireSteps n w w'
        → WireSteps n w (record w' { requests = args ∷ w'.requests })
    votes :
        {w' : Wire C} (u : ℕ) (args : RequestVoteArgs) (t1 t2 : Tick)
        → u < n
        → Sent args w'.requests
        → WireSteps n w w'
        → WireSteps n w (voted u args t1 t2 w')
    elects :
        {w' : Wire C} (u term : ℕ) (others : List ℕ) (results : List VoteResult)
        → u < n
        → Voters n (u ∷ others)
        → Replied u term w'.answers others results
        → WireSteps n w w'
        → WireSteps n w (counted u term results w')
    beats :
        {w' : Wire C} (u : ℕ) (args : AppendEntriesArgs C)
        → u < n
        → heartbeat (w'.peer u) ≡ some args
        → WireSteps n w w'
        → WireSteps n w (record w' { heartbeats = args ∷ w'.heartbeats })
    hears :
        {w' : Wire C} (u : ℕ) (args : AppendEntriesArgs C) (t1 t2 : Tick)
        → u < n
        → Sent args w'.heartbeats
        → WireSteps n w w'
        → WireSteps n w (heard u args t1 t2 w')

  -- All peers start for the first time.
  abbrev pub start_wire : ℕ → (ℕ → Tick) → Wire C
  start_wire n first = record {
    peer = λ v. boot codec n v (first v);
    requests = [];
    answers = [];
    heartbeats = [];
  }
