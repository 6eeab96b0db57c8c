-- ===== src/Raft/Tests/Follower.antt =====
-- raft/raft.go: runs of the handlers of a follower, and the theorems about them at concrete requests.
use mit.Prelude.{ℕ, ◌≤◌, ◌<◌, ◌+◌, ◌≡◌, ◌↔◌, refl, inl, true, some, [], ◌∷◌, arith, get_elem?}
use mit.Raft.Types.{Raft, LogEntry, AppendEntriesArgs, sentinel}
use mit.Raft.Persister.{make_persister, clone, save, copy, read_raft_state}
use mit.Raft.Persist.{durable, persist, read_persist}
use mit.Raft.Persist.RoundTrip.{with_durable, read_persist-persist}
use mit.Raft.Roles.{make}
use mit.Raft.Vote.{request_vote}
use mit.Raft.Vote.Grant.{IsFree, UpToDate, request_vote_grants}
use mit.Raft.Vote.Once.{QuietSteps, here, next, one_vote_per_term}
use mit.Raft.Append.{append_entries, scan, store_entries, follow_commit}
use mit.Raft.Append.Laws.{Accepted, append_entries_stores}
use mit.Raft.Append.Effects.{append_entries_twice, commit_overrun}
use mit.Raft.Node.{Steps, next as and_then, here as at_boot, vote_requested, restarted}
use mit.Raft.Node.Recovery.{boot-IsDurable, crash_recovery}
use mit.Raft.Tests.Data.{numbers, tick, new_peer, follower_peer, ask, entries_of_leader, entry}

-- The new peer after a vote in term 3 for candidate 2, and after a crash and a restart.
abbrev voter : Raft ℕ
voter = (request_vote numbers (ask 3 2) tick tick new_peer).0

abbrev restarted_voter : Raft ℕ
restarted_voter = make numbers voter.peers voter.me voter.persister tick

voted : Steps numbers new_peer voter
voted = and_then at_boot (vote_requested (ask 3 2) tick tick)

vote_granted_test : (request_vote numbers (ask 3 2) tick tick new_peer).1.vote_granted ≡ true
unfolding request_vote make make_persister clone
vote_granted_test = refl

crash_recovery_example : durable restarted_voter ≡ durable voter
crash_recovery_example = crash_recovery numbers 3 1 tick voted tick

quiet : QuietSteps numbers 3 voter restarted_voter
quiet = next here (restarted tick) tt

granted_again_test :
    (request_vote numbers (ask 3 2) tick tick restarted_voter).1.vote_granted ≡ true
unfolding request_vote make make_persister clone save read_persist
granted_again_test = refl

one_vote_per_term_example : (ask 3 2).candidate_id ≡ (ask 3 2).candidate_id
one_vote_per_term_example =
    one_vote_per_term numbers (ask 3 2) (ask 3 2) tick tick tick tick new_peer
      (boot-IsDurable numbers 3 1 tick) vote_granted_test quiet granted_again_test refl

request_vote_grants_example :
    ((request_vote numbers (ask 3 2) tick tick new_peer).1.vote_granted ≡ true)
    ↔ (IsFree (ask 3 2) new_peer × UpToDate (ask 3 2) new_peer)
request_vote_grants_example = request_vote_grants numbers (ask 3 2) tick tick new_peer

-- The follower takes the two entries of the leader in place of its conflicting one.
accepted_test : Accepted numbers entries_of_leader tick tick follower_peer
unfolding append_entries make make_persister clone
accepted_test = refl

stored_test :
    (append_entries numbers entries_of_leader tick tick follower_peer).0.log
    ≡ sentinel ∷ entry 1 10 ∷ entry 2 20 ∷ entry 2 21 ∷ []
unfolding append_entries make make_persister clone scan store_entries follow_commit
stored_test = refl

-- The follower after the request, with the log that the leader has.
abbrev caught_up : Raft ℕ
caught_up = (append_entries numbers entries_of_leader tick tick follower_peer).0

append_entries_stores_example :
    ((j : ℕ) → j ≤ 1 → get_elem? caught_up.log j ≡ get_elem? follower_peer.log j)
    × ((k : ℕ) (e : LogEntry ℕ)
        → get_elem? entries_of_leader.entries k ≡ some e
        → (l : LogEntry ℕ) × (get_elem? caught_up.log (1 + 1 + k) ≡ some l) × (l.term ≡ e.term))
append_entries_stores_example =
    append_entries_stores numbers entries_of_leader tick tick follower_peer (omega arith)
      accepted_test

append_entries_twice_example :
    (append_entries numbers entries_of_leader tick tick caught_up).0.log ≡ caught_up.log
append_entries_twice_example =
    append_entries_twice numbers entries_of_leader tick tick tick tick follower_peer (omega arith)

-- A heartbeat of term 2 that vouches for nothing behind the first entry.
abbrev short_heartbeat : AppendEntriesArgs ℕ
short_heartbeat = record entries_of_leader { entries = [] }

heartbeat_accepted_test : Accepted numbers short_heartbeat tick tick follower_peer
unfolding append_entries make make_persister clone
heartbeat_accepted_test = refl

heartbeat_keeps_log_test :
    (append_entries numbers short_heartbeat tick tick follower_peer).0.log ≡ follower_peer.log
unfolding append_entries make make_persister clone store_entries follow_commit
heartbeat_keeps_log_test = refl

commit_overrun_example :
    1 < (append_entries numbers short_heartbeat tick tick follower_peer).0.commit_index
commit_overrun_example =
    commit_overrun numbers short_heartbeat tick tick follower_peer heartbeat_accepted_test
      (omega arith) (omega arith) (rw heartbeat_keeps_log_test (omega arith))

-- The voter of term 3 after a heartbeat of term 3: it votes for candidate 0 as well.
abbrev heartbeat_of_term : AppendEntriesArgs ℕ
heartbeat_of_term = record short_heartbeat { term = 3; prev_log_index = 0 }

voter_term_test : voter.current_term ≡ 3
unfolding request_vote make make_persister clone
voter_term_test = refl

still-UpToDate_test :
    UpToDate (ask 3 0) (append_entries numbers heartbeat_of_term tick tick voter).0
unfolding append_entries request_vote make make_persister clone store_entries follow_commit
still-UpToDate_test = inl (omega arith)

read_persist-persist_example :
    read_persist numbers (read_raft_state (copy (persist numbers follower_peer).persister)) new_peer
    ≡ with_durable numbers (durable follower_peer) new_peer
read_persist-persist_example = read_persist-persist numbers follower_peer new_peer (omega arith)
