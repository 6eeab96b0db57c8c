-- ===== src/Raft/Invariant.antt =====
-- raft.go: what holds of the fields of a peer between two critical sections.
use mit.Prelude.{ℕ, ◌≤◌, ◌<◌, ◌≡◌, true, some, length, get_elem?}
use mit.Raft.Types.{Raft, is_leader}

module _ {C : Type 0} where
  pub record IsValid (rf : Raft C) : Type 0 where
    pub me_in : rf.me < rf.peers
    pub next_size : is_leader rf.state ≡ true → length rf.next_index ≡ rf.peers
    pub match_size : is_leader rf.state ≡ true → length rf.match_index ≡ rf.peers
    pub next_pos : (i n : ℕ) → get_elem? rf.next_index i ≡ some n → 0 < n
    pub committed : rf.commit_index < length rf.log
    pub applied : rf.last_applied ≤ rf.commit_index
