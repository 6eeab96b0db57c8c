-- ===== src/Raft/Tests/Leader.antt =====
-- raft/raft.go: runs of a leader and of a candidate, and the theorems about them at concrete states.
use mit.Prelude.{
  ℕ, zero, suc, ◌+◌, ◌*◌, ◌≤◌, ◌<◌, ◌≡◌, ◌↔◌, refl, true, false, some, List, [], ◌∷◌, arith, length,
  get_elem?,
}
use mit.Raft.Types.{Raft, LogEntry, AppendEntriesArgs, is_leader, last_log_index, Task}
use mit.Raft.Invariant.{IsValid}
use mit.Raft.Persister.{make_persister, clone}
use mit.Raft.Roles.{make}
use mit.Raft.Append.{append_entries}
use mit.Raft.Append.Laws.{Accepted, after}
use mit.Raft.Commit.{
  try_advance_commit, search_commit, can_commit, majority_holds, apply_msg, apply_committed,
}
use mit.Raft.Commit.Advance.{Advance, try_advance_commit_largest}
use mit.Raft.Commit.Apply.{messages, apply_committed_all}
use mit.Raft.Replicate.{Next, prepare_request, build_request, handle_reply}
use mit.Raft.Replicate.Exchange.{exchange_matches}
use mit.Raft.Replicate.Reply.{handle_reply_total}
use mit.Raft.Election.{VoteResult, own_vote, collect, finish_election}
use mit.Raft.Election.Majority.{granted, election_won_iff}
use mit.Raft.Node.{entries_received}
use mit.Raft.Node.Safe.{SafeSteps, here, next, boot_SafeSteps-IsValid}
use mit.Raft.Tests.Data.{numbers, tick, new_peer, leader_peer, follower_peer, candidate_peer, entry}

try_advance_commit_largest_example :
    (n : ℕ) × (try_advance_commit leader_peer ≡ some (record leader_peer { commit_index = n }))
    × Advance leader_peer (last_log_index leader_peer) n
unfolding make make_persister clone
try_advance_commit_largest_example = try_advance_commit_largest leader_peer refl refl (omega arith)

-- It is the last index, which peers 0 and 1 hold.
advanced_test : try_advance_commit leader_peer ≡ some (record leader_peer { commit_index = 3 })
unfolding try_advance_commit make make_persister clone search_commit can_commit majority_holds
advanced_test = refl

-- Peer 0 refuses, peer 2 votes: two of three.
abbrev results : List VoteResult
results =
    some (record { term = 3; vote_granted = false })
    ∷ some (record { term = 2; vote_granted = true })
    ∷ []

election_won_iff_example :
    (is_leader (finish_election 3 3 (collect 3 3 results own_vote) candidate_peer).0.state ≡ true)
    ↔ (3 < 2 * (1 + granted results))
unfolding make make_persister clone
election_won_iff_example = election_won_iff 3 results candidate_peer refl refl (omega arith)

-- The leader sends peer 2 its whole log.
abbrev request_to_2 : AppendEntriesArgs ℕ
request_to_2 = build_request leader_peer 1

prepared_test : prepare_request 2 2 leader_peer ≡ some (some request_to_2)
unfolding prepare_request make make_persister clone
prepared_test = refl

accepted_by_2_test : Accepted numbers request_to_2 tick tick new_peer
unfolding append_entries make make_persister clone build_request
accepted_by_2_test = refl

exchange_matches_example :
    (request_to_2.prev_log_index + length request_to_2.entries ≤ last_log_index leader_peer)
    × ((k : ℕ)
        → k < length request_to_2.entries
        → (l f : LogEntry ℕ) × (get_elem? leader_peer.log (1 + k) ≡ some l)
          × (get_elem? (after numbers request_to_2 tick tick new_peer).log (1 + k) ≡ some f)
          × (f.term ≡ l.term))
unfolding make make_persister clone
exchange_matches_example =
    exchange_matches numbers 2 2 1 leader_peer new_peer tick tick (omega arith) (omega arith)
      (omega arith) refl prepared_test accepted_by_2_test

-- The follower knows its two entries to be committed, and has sent none to the service.
abbrev applying_peer : Raft ℕ
applying_peer = record follower_peer { commit_index = 2 }

apply_committed_all_example :
    apply_committed 5 applying_peer
    ≡ some (record applying_peer {
      last_applied = 2;
      apply_ch = apply_msg (entry 1 10) 1 ∷ apply_msg (entry 1 11) 2 ∷ [];
    })
unfolding messages make make_persister clone
apply_committed_all_example = apply_committed_all applying_peer 5 2 refl (omega arith) (omega arith)

leader_IsValid : IsValid leader_peer
unfolding make make_persister clone
leader_IsValid = record {
  me_in = omega arith;
  next_size = λ lead. refl;
  match_size = λ lead. refl;
  next_pos = positive;
  committed = omega arith;
  applied = omega arith;
}
  where
    positive : (i n : ℕ) → get_elem? (4 ∷ 4 ∷ 1 ∷ []) i ≡ some n → 0 < n
    positive zero n h = ground arith
    positive (suc zero) n h = ground arith
    positive (suc (suc zero)) n h = ground arith
    positive (suc (suc (suc i))) n h = cc

-- Peer 2 rejects what was sent, and its next index goes back.
handle_reply_total_example :
    (rf : Raft ℕ) × (n : Next) × (tasks : List Task) × (handle_reply numbers 2 2 request_to_2
        (record { term = 2; success = false })
        tick
        leader_peer
      ≡ some (rf, n, tasks))
    × IsValid rf
unfolding make make_persister clone
handle_reply_total_example =
    handle_reply_total numbers 2 2 request_to_2 (record { term = 2; success = false }) tick
      leader_peer (omega arith) leader_IsValid

no_commit : (k : ℕ) → request_to_2.prev_log_index + 1 + k ≤ new_peer.commit_index → ⊥
unfolding make make_persister clone
no_commit k le = omega arith

-- A new peer takes the entries of a leader: none of them stands where a committed entry does.
first_entries :
    SafeSteps numbers new_peer (append_entries numbers request_to_2 tick tick new_peer).0
first_entries =
    next here (entries_received request_to_2 tick tick) (λ k l e le hl he. absurd (no_commit k le))

boot_SafeSteps-IsValid_example : IsValid (append_entries numbers request_to_2 tick tick new_peer).0
boot_SafeSteps-IsValid_example = boot_SafeSteps-IsValid numbers 3 1 tick (omega arith) first_entries
