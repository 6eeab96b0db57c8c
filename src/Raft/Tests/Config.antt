-- ===== src/Raft/Tests/Config.antt =====
-- raft/config.go: two peers on a network, and the theorems about the checks at concrete runs.
use mit.Prelude.{
  ℕ, ◌+◌, ◌*◌, ◌≡◌, refl, ap, true, false, ◌&&◌, Option, none, some, List, [], ◌∷◌, nat_key, arith,
  get_or, ◌==◌, if◌then◌else◌,
}
use mit.Raft.Types.{Raft, Bytes, ApplyMsg}
use mit.Raft.Persister.{make_persister, clone, save, copy, read_raft_state, read_snapshot}
use mit.Raft.Persist.{durable, read_persist}
use mit.Raft.Roles.{make, get_state}
use mit.Raft.Replicate.{start}
use mit.Raft.Commit.{apply_msg}
use mit.Raft.Node.Recovery.{boot-IsDurable}
use mit.Labrpc.Network.{
  Network, make_network, set_reliable, set_long_delays, enable, make_end, add_server, delete_server,
}
use mit.Labrpc.Network as Network
use mit.Labrpc.Request.{Route, route}
use mit.Raft.Config.{Config, new_config, put_at, enable_ends, connect, disconnect}
use mit.Raft.Config.Nodes.{
  SnapshotCodec, crash1, make_ends, ingest_saved, start1, start_all, connect_all, make_config,
}
use mit.Raft.Config.Logs.{any_differs, check_logs, applier_step, count_committed, n_committed}
use mit.Raft.Config.Checks.{find_leaders, pick_leader, check_one_leader, try_start, poll, one}
use mit.Raft.Config.Agreement.{Agree, Gapless, run_appliers, run_appliers-Agree}
use mit.Raft.Config.Restart.{restart_recovers}
use mit.Raft.Config.Steps.{here, next, disconnects, routed_if_connected}
use mit.Raft.Config.OneLeader.{Any, OneLeader, check_one_leader-OneLeader}
use mit.Raft.Config.OneCommand.{AnyLook, AppliedBy, one-AppliedBy}
use mit.Raft.Tests.Data.{
  numbers, number, optional, optional-number, tick, new_peer, leader_peer, entry,
}

abbrev optionals : Bytes → List (Option ℕ)
optionals [] = []
optionals (b ∷ bytes) = optional b ∷ optionals bytes

abbrev numbered : List (Option ℕ) → Bytes
numbered [] = []
numbered (o ∷ os) = number o ∷ numbered os

abbrev optionals-numbered : (os : List (Option ℕ)) → optionals (numbered os) ≡ os
optionals-numbered [] = refl
optionals-numbered (o ∷ os) = rw (optional-number o, optionals-numbered os)

abbrev read_snap : Bytes → Option (ℕ × List (Option ℕ))
read_snap [] = none
read_snap (n ∷ bytes) = some (n, optionals bytes)

abbrev snapshots : SnapshotCodec ℕ
snapshots = record {
  encode = λ s. s.0 ∷ numbered s.1;
  decode = read_snap;
  decode-encode = λ s. ap (λ os. some (s.0, os)) (optionals-numbered s.1);
  decode-nil = refl;
}

abbrev or_new : Option (Config ℕ) → Config ℕ
or_new none = new_config 2 false
or_new (some cfg) = cfg

-- The end from `i` to `j` has the name `10 * i + j`.
abbrev names : ℕ → ℕ → ℕ
names i j = 10 * i + j

abbrev made : Config ℕ
made = or_new (make_config numbers snapshots names (λ i. 100 + i) (λ i. tick) 2 false)

made_test : make_config numbers snapshots names (λ i. 100 + i) (λ i. tick) 2 false ≡ some made
unfolding make_config start_all connect_all start1 crash1 make_ends ingest_saved connect disconnect
    enable_ends make_network set_reliable set_long_delays enable make_end add_server delete_server
    make_persister Network.connect
made_test = refl

abbrev cut : Config ℕ
cut = or_new (disconnect 1 made)

cut_test : disconnect 1 made ≡ some cut
unfolding make_config start_all connect_all start1 crash1 make_ends ingest_saved connect disconnect
    enable_ends make_network set_reliable set_long_delays enable make_end add_server delete_server
    make_persister Network.connect
cut_test = refl

routed_if_connected_example :
    (get_or (cut.net.enabled 1) false ≡ (cut.connected 0 && cut.connected 1))
    × ((r : Route) → route 1 cut.net ≡ some r → (cut.connected 0 ≡ true) × (cut.connected 1 ≡ true))
unfolding make_config start_all connect_all start1 crash1 make_ends ingest_saved connect disconnect
    enable_ends make_network set_reliable set_long_delays enable make_end add_server delete_server
    make_persister Network.connect
routed_if_connected_example =
    routed_if_connected numbers snapshots names (λ i. 100 + i) (λ i. tick) 2 false made_test
      (next here (disconnects 1 (omega arith) cut_test)) 0 1 1 (omega arith) (omega arith) refl

-- Peer 1 runs; it is started again.
abbrev running : Config ℕ
running = record (new_config 2 false) { rafts = put_at 1 (some new_peer) (λ i. none) }

abbrev again : Config ℕ
again = or_new (start1 numbers snapshots 1 (names 1) 101 tick running)

again_test : start1 numbers snapshots 1 (names 1) 101 tick running ≡ some again
unfolding start1 crash1 make_ends ingest_saved disconnect enable_ends make_network set_reliable
    set_long_delays make_end add_server delete_server copy save read_raft_state read_snapshot clone
    make make_persister read_persist Network.connect
again_test = refl

restart_recovers_example :
    (rf' : Raft ℕ) × (again.rafts 1 ≡ some rf')
    × (durable rf' ≡ durable new_peer)
    × (rf'.apply_ch ≡ [])
    × (again.connected 1 ≡ false)
restart_recovers_example =
    restart_recovers numbers snapshots 1 (names 1) 101 tick running (omega arith) new_peer refl
      (boot-IsDurable numbers 3 1 tick) again_test

abbrev command_at : ℕ → ℕ → ApplyMsg ℕ
command_at index command = apply_msg (entry 1 command) index

abbrev messages : List (ℕ × ApplyMsg ℕ)
messages = (0, command_at 1 30) ∷ (1, command_at 1 30) ∷ (0, command_at 2 31) ∷ []

abbrev applied : Config ℕ
applied = or_new (run_appliers messages (new_config 2 false))

applied_test : run_appliers messages (new_config 2 false) ≡ some applied
unfolding run_appliers applier_step check_logs any_differs
applied_test = refl

failed_test : run_appliers ((1, command_at 2 30) ∷ []) (new_config 2 false) ≡ none
unfolding run_appliers applier_step check_logs any_differs
failed_test = refl

new_logs : Agree (new_config {C = ℕ} 2 false) × Gapless (new_config {C = ℕ} 2 false)
new_logs = ((λ i j index v w li lj e e'. absurd (cc e)), λ i index lt e. absurd (cc e))

run_appliers-Agree_example : Agree applied × Gapless applied
run_appliers-Agree_example = run_appliers-Agree messages (new_config 2 false) applied_test new_logs

-- Peer 0 leads, and both are connected.
abbrev led : Config ℕ
led = record (new_config 2 false) {
  rafts = put_at 0 (some leader_peer) (put_at 1 (some new_peer) (λ i. none));
  connected = λ i. true;
}

one_leader_test : check_one_leader (running ∷ led ∷ []) ≡ some 0
unfolding check_one_leader find_leaders pick_leader get_state make make_persister clone read_persist
one_leader_test = refl

check_one_leader-OneLeader_example : Any (λ cfg. OneLeader cfg 0) (running ∷ led ∷ [])
check_one_leader-OneLeader_example =
    check_one_leader-OneLeader (running ∷ led ∷ []) 0 one_leader_test

-- The command 30 is started at index 4, and both peers have applied it when `one` looks again.
abbrev done : Config ℕ
done = record led { logs = λ i. λ j. if j == 4 then some (some 30) else none }

one_test : one numbers 30 2 false false 0 ((led, led ∷ done ∷ []) ∷ []) ≡ some (some 4)
unfolding one try_start poll n_committed count_committed start save make make_persister clone
    read_persist
one_test = refl

one-AppliedBy_example : AnyLook (AppliedBy 2 4 30) ((led, led ∷ done ∷ []) ∷ [])
one-AppliedBy_example =
    one-AppliedBy numbers 30 2 false false 0 4 ((led, led ∷ done ∷ []) ∷ []) one_test
