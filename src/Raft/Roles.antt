-- ===== src/Raft/Roles.antt =====
-- raft.go: the election timer and the changes of role, `Make`, `Kill` and `GetState`.
use mit.Prelude.{ℕ, ◌+◌, Bool, true, false, none, some, List, [], ◌∷◌, replicate}
use mit.Raft.Types.{
  Raft, follower, candidate, leader, is_leader, Persister, Task, broadcast_append_entries, Tick,
  election_timeout_min, last_log_index, sentinel,
}
use mit.Raft.Persister.{read_raft_state}
use mit.Raft.Persist.{Codec, persist, read_persist}

module _ {C : Type 0} where
  unfoldable pub get_state : Raft C → ℕ × Bool
  get_state rf = (rf.current_term, is_leader rf.state)

  unfoldable pub kill : Raft C → Raft C
  kill rf = record rf { dead = true }

  unfoldable pub killed : Raft C → Bool
  killed rf = rf.dead

  unfoldable pub reset_election_timer : Tick → Raft C → Raft C
  reset_election_timer tick rf = record rf {
    last_election_reset = tick.now;
    election_timeout = election_timeout_min + tick.delta;
  }

  -- Next and match indices for every peer, and a heartbeat at once.
  unfoldable pub become_leader : Raft C → Raft C × List Task
  become_leader rf = (
    record rf {
      state = leader;
      next_index = replicate rf.peers (last_log_index rf + 1);
      match_index = replicate rf.peers 0;
    },
    broadcast_append_entries ∷ [],
  )

  module _ (codec : Codec C) where
    unfoldable pub become_follower : ℕ → Tick → Raft C → Raft C
    unfolding reset_election_timer persist
    become_follower term tick rf =
        reset_election_timer tick
          (persist codec (record rf { state = follower; current_term = term; voted_for = none }))

    unfoldable pub become_candidate : Tick → Raft C → Raft C
    unfolding reset_election_timer persist
    become_candidate tick rf = reset_election_timer tick (
        persist codec (record rf {
          state = candidate;
          current_term = rf.current_term + 1;
          voted_for = some rf.me;
        }))

    -- A new peer: the zero values of Go, then the fields that `Make` sets, then what was persisted.
    abbrev fresh : ℕ → ℕ → Persister → Raft C
    fresh peers me persister = record {
      peers = peers;
      persister = persister;
      me = me;
      dead = false;
      current_term = 0;
      voted_for = none;
      log = sentinel ∷ [];
      commit_index = 0;
      last_applied = 0;
      next_index = [];
      match_index = [];
      state = follower;
      apply_ch = [];
      last_election_reset = 0;
      election_timeout = 0;
    }

    unfoldable pub make : ℕ → ℕ → Persister → Tick → Raft C
    unfolding reset_election_timer read_persist read_raft_state
    make peers me persister tick =
        read_persist codec (read_raft_state persister)
          (reset_election_timer tick (fresh peers me persister))
