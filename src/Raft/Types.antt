-- ===== src/Raft/Types.antt =====
-- raft.go: the types of a Raft peer and of its RPCs, and the small readers of the log.
-- A Go slice is a list and `nil` is the empty list; `-1` (no vote, no index) is `none`. Commands are
-- opaque to Raft: a parameter `C`, with `none` for the nil command of the sentinel entry.
use mit.Prelude.{
  ℕ, ◌-◌, ◌*◌, Bool, true, false, Option, none, some, List, ltb, if◌then◌else◌, length, get_elem?,
}

abbrev pub Bytes : Type 0
Bytes = List ℕ

pub record LogEntry (C : Type 0) : Type 0 where
  pub term : ℕ
  pub command : Option C

pub record ApplyMsg (C : Type 0) : Type 0 where
  pub command_valid : Bool
  pub command : Option C
  pub command_index : ℕ
  pub snapshot_valid : Bool
  pub snapshot : Bytes
  pub snapshot_term : ℕ
  pub snapshot_index : ℕ

pub data State : Type 0 where
  follower candidate leader : State

pub State-discrete : Discrete State
State-discrete = hlevel

-- `state == Leader`, `state == Candidate`
abbrev pub is_leader : State → Bool
is_leader leader = true
is_leader _ = false

abbrev pub is_candidate : State → Bool
is_candidate candidate = true
is_candidate _ = false

-- Durations are in nanoseconds.
abbrev pub millisecond : ℕ
millisecond = 1_000_000

abbrev pub election_timeout_min : ℕ
election_timeout_min = 300 * millisecond

abbrev pub election_timeout_max : ℕ
election_timeout_max = 600 * millisecond

pub record Persister : Type 0 where
  pub raftstate : Bytes
  pub snapshot : Bytes

-- `peers` is the length of the slice of end points. `apply_ch` holds the messages that were sent on
-- the channel, oldest first.
pub record Raft (C : Type 0) : Type 0 where
  pub peers : ℕ
  pub persister : Persister
  pub me : ℕ
  pub dead : Bool
  pub current_term : ℕ
  pub voted_for : Option ℕ
  pub log : List (LogEntry C)
  pub commit_index : ℕ
  pub last_applied : ℕ
  pub next_index : List ℕ
  pub match_index : List ℕ
  pub state : State
  pub apply_ch : List (ApplyMsg C)
  pub last_election_reset : ℕ
  pub election_timeout : ℕ

pub record RequestVoteArgs : Type 0 where
  pub term : ℕ
  pub candidate_id : ℕ
  pub last_log_index : ℕ
  pub last_log_term : ℕ

pub record RequestVoteReply : Type 0 where
  pub term : ℕ
  pub vote_granted : Bool

pub record AppendEntriesArgs (C : Type 0) : Type 0 where
  pub term : ℕ
  pub leader_id : ℕ
  pub prev_log_index : ℕ
  pub prev_log_term : ℕ
  pub entries : List (LogEntry C)
  pub leader_commit : ℕ

pub record AppendEntriesReply : Type 0 where
  pub term : ℕ
  pub success : Bool

-- What a `go` statement starts.
pub data Task : Type 0 where
  broadcast_append_entries : Task
  replicate_to_peer : (peer term_started : ℕ) → Task
  start_election : (term : ℕ) → Task
  apply_committed_entries : Task

-- One reading of the clock and of the random source: `time.Now()` and `rand.Int63n(max - min)`.
pub record Tick : Type 0 where
  pub now : ℕ
  pub delta : ℕ

unfoldable pub min : ℕ → ℕ → ℕ
min a b = if ltb a b then a else b

unfoldable pub max : ℕ → ℕ → ℕ
max a b = if ltb b a then a else b

module _ {C : Type 0} where
  -- `len(rf.log) - 1`, for a log that is not empty: every peer keeps the sentinel at index 0.
  abbrev pub last_log_index : Raft C → ℕ
  last_log_index rf = length rf.log - 1

  abbrev pub term_or_zero : Option (LogEntry C) → ℕ
  term_or_zero none = 0
  term_or_zero (some e) = e.term

  -- On an empty log the last term is 0.
  abbrev pub last_log_term : Raft C → ℕ
  last_log_term rf = term_or_zero (get_elem? rf.log (length rf.log - 1))

  abbrev pub sentinel : LogEntry C
  sentinel = record { term = 0; command = none }
