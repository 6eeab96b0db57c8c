-- ===== src/Raft/Tests/Data.antt =====
-- Test data for raft/raft.go: a codec for numbers as commands, and some peers.
use mit.Prelude.{ℕ, zero, suc, ◌≡◌, refl, Option, none, some, List, [], ◌∷◌}
use mit.Raft.Types.{
  Bytes, LogEntry, Raft, candidate, leader, Tick, sentinel, RequestVoteArgs, AppendEntriesArgs,
}
use mit.Raft.Persist.{Durable, Codec}
use mit.Raft.Node.{boot}

abbrev pub number : Option ℕ → ℕ
number none = 0
number (some v) = suc v

abbrev pub optional : ℕ → Option ℕ
optional zero = none
optional (suc v) = some v

abbrev pub optional-number : (o : Option ℕ) → optional (number o) ≡ o
optional-number none = refl
optional-number (some v) = refl

abbrev encode_log : List (LogEntry ℕ) → Bytes
encode_log [] = []
encode_log (e ∷ log) = e.term ∷ number e.command ∷ encode_log log

abbrev push : LogEntry ℕ → Option (List (LogEntry ℕ)) → Option (List (LogEntry ℕ))
push e none = none
push e (some log) = some (e ∷ log)

abbrev decode_log : Bytes → Option (List (LogEntry ℕ))
decode_log [] = some []
decode_log (t ∷ []) = none
decode_log (t ∷ c ∷ bytes) = push (record { term = t; command = optional c }) (decode_log bytes)

abbrev decode_log-encode : (log : List (LogEntry ℕ)) → decode_log (encode_log log) ≡ some log
decode_log-encode [] = refl
decode_log-encode (e ∷ log) = rw (decode_log-encode log, optional-number e.command)

abbrev with_log : ℕ → ℕ → Option (List (LogEntry ℕ)) → Option (Durable ℕ)
with_log t v none = none
with_log t v (some log) = some (record { current_term = t; voted_for = optional v; log = log })

abbrev decode : Bytes → Option (Durable ℕ)
decode [] = none
decode (t ∷ []) = none
decode (t ∷ v ∷ bytes) = with_log t v (decode_log bytes)

abbrev pub numbers : Codec ℕ
numbers = record {
  encode = λ d. d.current_term ∷ number d.voted_for ∷ encode_log d.log;
  decode = decode;
  decode-encode = λ d. rw (decode_log-encode d.log, optional-number d.voted_for);
  encode-ne-nil = λ d. cc;
}

abbrev pub tick : Tick
tick = record { now = 7; delta = 3 }

-- Peer 1 of 3, just started.
abbrev pub new_peer : Raft ℕ
new_peer = boot numbers 3 1 tick

abbrev pub entry : ℕ → ℕ → LogEntry ℕ
entry term command = record { term = term; command = some command }

-- The follower 1 in term 2, with two entries, the first of which is committed.
abbrev pub follower_peer : Raft ℕ
follower_peer = record new_peer {
  current_term = 2;
  log = sentinel ∷ entry 1 10 ∷ entry 1 11 ∷ [];
  commit_index = 1;
}

-- The leader 0 of term 2, with three entries, of which peer 1 has all and peer 2 none.
abbrev pub leader_peer : Raft ℕ
leader_peer = record new_peer {
  me = 0;
  state = leader;
  current_term = 2;
  log = sentinel ∷ entry 1 10 ∷ entry 2 20 ∷ entry 2 21 ∷ [];
  commit_index = 1;
  next_index = 4 ∷ 4 ∷ 1 ∷ [];
  match_index = 3 ∷ 3 ∷ 0 ∷ [];
}

abbrev pub candidate_peer : Raft ℕ
candidate_peer = record new_peer { current_term = 3; state = candidate; voted_for = some 1 }

-- Candidate 2 asks for a vote in a term.
abbrev pub ask : ℕ → ℕ → RequestVoteArgs
ask term candidate_id = record {
  term = term;
  candidate_id = candidate_id;
  last_log_index = 5;
  last_log_term = 2;
}

-- The leader of term 2 sends its entries behind the first.
abbrev pub entries_of_leader : AppendEntriesArgs ℕ
entries_of_leader = record {
  term = 2;
  leader_id = 0;
  prev_log_index = 1;
  prev_log_term = 1;
  entries = entry 2 20 ∷ entry 2 21 ∷ [];
  leader_commit = 2;
}
