-- ===== src/KvRaft/Tests/Config.antt =====
-- kvraft/config.go: three servers, of which server 1 leads, and their parts.
use mit.Prelude.{
  ℕ, ◌+◌, ◌*◌, ◌<◌, ◌≡◌, refl, true, false, none, some, List, [], ◌∷◌, empty_map, nat_key, arith,
  length, ◌==◌, if◌then◌else◌, In,
}
use mit.Raft.Types.{Raft, State, follower, leader as leads, sentinel}
use mit.Raft.Roles.{get_state}
use mit.Labrpc.Network.{make_network}
use mit.KvRaft.Types.{Op}
use mit.KvRaft.Server.{new_server}
use mit.KvRaft.Config.{
  Config, count_up, leader_among, leader, fill_parts, make_partition, partition,
}
use mit.KvRaft.Config.Turns.{Started}
use mit.KvRaft.Config.Partition.{SamePart}
use mit.KvRaft.Config.Minority.{minority_gets_leader}

abbrev peer : ℕ → State → Raft Op
peer me state = record {
  peers = 3;
  persister = record { raftstate = []; snapshot = [] };
  me = me;
  dead = false;
  current_term = 1;
  voted_for = none;
  log = sentinel ∷ [];
  commit_index = 0;
  last_applied = 0;
  next_index = 1 ∷ 1 ∷ 1 ∷ [];
  match_index = 0 ∷ 0 ∷ 0 ∷ [];
  state = state;
  apply_ch = [];
  last_election_reset = 0;
  election_timeout = 0;
}

abbrev name : ℕ → ℕ → ℕ
name i j = 10 * i + j

abbrev three : Config
three = record {
  net = make_network;
  n = 3;
  kvservers = λ i. some (new_server i none, peer i (if i == 1 then leads else follower));
  saved = λ i. none;
  endnames = λ i. some (name i);
  clerks = empty_map;
  next_client_id = 1003;
  maxraftstate = none;
  rpcs0 = 0;
  ops = 0;
}

three-Started : Started name three
three-Started = record {
  started = λ i lt. refl;
  apart = λ i j i' j' li lj li' lj' e. (omega (arith, e), omega (arith, e));
}

parts_test : make_partition three ≡ some (0 ∷ 2 ∷ [], 1 ∷ [])
unfolding make_partition leader_among count_up fill_parts get_state
parts_test = refl

leader_test : leader three ≡ some (true, 1)
unfolding leader_among count_up get_state
leader_test = refl

minority_gets_leader_example :
    (p1 : List ℕ) × (p2 : List ℕ) × (cfg' : Config) × (make_partition three ≡ some (p1, p2))
    × (length p1 ≡ 1 + 1)
    × (length p2 ≡ 1)
    × In 1 p2
    × (partition p1 p2 three ≡ some cfg')
    × ((a b : ℕ)
        → a < 3
        → b < 3
        → (SamePart p1 p2 a b → cfg'.net.enabled (name a b) ≡ some true)
          × (¬ SamePart p1 p2 a b → cfg'.net.enabled (name a b) ≡ some false))
minority_gets_leader_example =
    minority_gets_leader name 1 1 true three three-Started refl (omega arith) leader_test
