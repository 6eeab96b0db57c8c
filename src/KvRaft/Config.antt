-- ===== src/KvRaft/Config.antt =====
-- kvraft/config.go: the configuration of a group of key/value servers and their clerks on a simulated
-- network. A slice with one element for each of the `n` servers is a function, and an index that is
-- out of range a panic, which is `none`.
pub mod Turns
pub mod Partition
pub mod Filling
pub mod Servers
pub mod Minority
use mit.Prelude.{
  ℕ, zero, suc, ◌+◌, ◌-◌, ◌/◌, Bool, true, false, not, ◌&&◌, Option, none, some, List, [], ◌∷◌, Map,
  empty_map, insert, delete, nat_key, ◌>>=◌, ◌==◌, ltb, length, set, map, if◌then◌else◌,
}
use mit.Raft.Types.{Raft, Persister, Tick}
use mit.Raft.Persister.{raft_state_size, snapshot_size}
use mit.Raft.Persist.{Codec}
use mit.Raft.Roles.{get_state}
use mit.Labrpc.Network.{
  Network, make_network, set_reliable, add_server, delete_server, get_total_count,
}
use mit.Labrpc.Network as Network
use mit.Raft.Config.{End, skip, missing, end_name, enable_end, put_at}
use mit.Raft.Config.Nodes.{make_ends, next_persister, copied}
use mit.KvRaft.Types.{Op, KvServer}
use mit.KvRaft.Server.{start_kv_server, kill_server}
use mit.KvRaft.Clerk.{Clerk, make_clerk}

-- A server with its peer; the persister of a server that runs is the one of its peer. A clerk stands
-- for its pointer, a number, in the table of the names of its ends.
pub record Config : Type 0 where
  pub net : Network
  pub n : ℕ
  pub kvservers : ℕ → Option (KvServer × Raft Op)
  pub saved : ℕ → Option Persister
  pub endnames : ℕ → Option (ℕ → ℕ)
  pub clerks : Map ℕ (ℕ → ℕ)
  pub next_client_id : ℕ
  pub maxraftstate : Option ℕ
  pub rpcs0 : ℕ
  pub ops : ℕ

-- What is on the disk of a server.
abbrev pub disk : Config → ℕ → Option Persister
disk cfg i = elim (cfg.kvservers i) [ none ↦ cfg.saved i | some (kv, rf) ↦ some rf.persister ]

-- `cfg.endnames[i][j]`
abbrev pub name_at : Config → ℕ → ℕ → End
name_at cfg i j = if ltb i cfg.n && ltb j cfg.n then end_name (cfg.endnames i) j else missing

-- The same where `cfg.endnames[guard]` is tested first.
abbrev pub name_unless_nil : Config → ℕ → ℕ → ℕ → End
name_unless_nil cfg guard i j =
    if not (ltb guard cfg.n)
    then missing
    else elim (cfg.endnames guard) [ none ↦ skip | some names ↦ name_at cfg i j ]

-- A loop over `Enable`.
unfoldable pub enable_list : List End → Bool → Network → Option Network
enable_list [] on net = some net
enable_list (e ∷ es) on net = do net' ← enable_end e on net; enable_list es on net'

unfoldable pub connect_unlocked : ℕ → List ℕ → Config → Option Config
connect_unlocked i to cfg = do
  net ← enable_list (map (name_at cfg i) to) true cfg.net
  net' ← enable_list (map (λ j. name_at cfg j i) to) true net
  some (record cfg { net = net' })

-- The incoming ends, from position `j` on: the test is on the name at the position, not on that of the
-- server.
unfoldable pub incoming_from : Config → ℕ → ℕ → List ℕ → List End
incoming_from cfg i j [] = []
incoming_from cfg i j (f ∷ from) = name_unless_nil cfg j f i ∷ incoming_from cfg i (j + 1) from

unfoldable pub disconnect_unlocked : ℕ → List ℕ → Config → Option Config
disconnect_unlocked i from cfg = do
  net ← enable_list (map (name_unless_nil cfg i i) from) false cfg.net
  net' ← enable_list (incoming_from cfg i 0 from) false net
  some (record cfg { net = net' })

-- The numbers `i, i + 1, …`
unfoldable pub count_up : ℕ → ℕ → List ℕ
count_up i zero = []
count_up i (suc left) = i ∷ count_up (i + 1) left

abbrev pub all : Config → List ℕ
all cfg = count_up 0 cfg.n

unfoldable pub connect_each : List ℕ → Config → Option Config
connect_each [] cfg = some cfg
connect_each (i ∷ is) cfg = do cfg' ← connect_unlocked i (all cfg) cfg; connect_each is cfg'

abbrev pub connect_all : Config → Option Config
connect_all cfg = connect_each (all cfg) cfg

-- A loop of `partition`: the servers of one part, with the other part.
unfoldable pub isolate : (todo mine other : List ℕ) → Config → Option Config
isolate [] mine other cfg = some cfg
isolate (i ∷ todo) mine other cfg = do
  cfg1 ← disconnect_unlocked i other cfg
  cfg2 ← connect_unlocked i mine cfg1
  isolate todo mine other cfg2

unfoldable pub partition : List ℕ → List ℕ → Config → Option Config
partition p1 p2 cfg = do cfg' ← isolate p1 p1 p2 cfg; isolate p2 p2 p1 cfg'

abbrev clerk_end : Config → Option (ℕ → ℕ) → ℕ → End
clerk_end cfg none j = missing
clerk_end cfg (some names) j = if ltb j cfg.n then end_name (some names) j else missing

unfoldable pub switch_client : Bool → ℕ → List ℕ → Config → Option Config
switch_client on ck to cfg = do
  net ← enable_list (map (clerk_end cfg (cfg.clerks ck)) to) on cfg.net
  some (record cfg { net = net })

abbrev pub connect_client : ℕ → List ℕ → Config → Option Config
connect_client = switch_client true

abbrev pub disconnect_client : ℕ → List ℕ → Config → Option Config
disconnect_client = switch_client false

-- `ck` is the pointer to the new clerk, `id` its client id, and `names` are the names of its ends. That
-- the clerk gets the ends in a random order is left to the numbers of the servers in its calls.
unfoldable pub make_client : (ck id : ℕ) → (ℕ → ℕ) → List ℕ → Config → Option (Config × Clerk)
make_client ck id names to cfg = do
  net ← make_ends names 0 cfg.n cfg.net
  cfg' ← connect_client ck to (record cfg {
    net = net;
    clerks = insert ck names cfg.clerks;
    next_client_id = cfg.next_client_id + 1;
  })
  some (cfg', make_clerk cfg.n id)

abbrev pub delete_client : ℕ → Config → Config
delete_client ck cfg = record cfg { clerks = delete ck cfg.clerks }

unfoldable pub shutdown_server : ℕ → Config → Option Config
shutdown_server i cfg = do
  cfg' ← disconnect_unlocked i (all cfg) cfg
  some (record cfg' {
    net = delete_server i cfg'.net;
    saved = put_at i (copied (disk cfg i)) cfg.saved;
    kvservers = put_at i none cfg.kvservers;
  })

-- `server` is the new server of the network.
unfoldable pub start_server : Codec Op → ℕ → (ℕ → ℕ) → ℕ → Tick → Config → Option Config
start_server codec i names server tick cfg = do
  net ← make_ends names 0 cfg.n cfg.net
  let ps = next_persister (disk cfg i)
  some (record cfg {
    net = add_server i server net;
    endnames = put_at i (some names) cfg.endnames;
    saved = put_at i (some ps) cfg.saved;
    kvservers =
        put_at i (some (start_kv_server codec cfg.n i ps cfg.maxraftstate tick)) cfg.kvservers;
  })

unfoldable pub start_servers :
    Codec Op → (ℕ → ℕ → ℕ) → (ℕ → ℕ) → (ℕ → Tick) → List ℕ → Config → Option Config
start_servers codec names server ticks [] cfg = some cfg
start_servers codec names server ticks (i ∷ is) cfg = do
  cfg' ← start_server codec i (names i) (server i) (ticks i) cfg
  start_servers codec names server ticks is cfg'

unfoldable pub make_config :
    Codec Op → (ℕ → ℕ → ℕ) → (ℕ → ℕ) → (ℕ → Tick) → ℕ → Bool → Option ℕ → Option Config
make_config codec names server ticks n unreliable maxraftstate =
    let cfg : Config = record {
      net = make_network;
      n = n;
      kvservers = λ i. none;
      saved = λ i. none;
      endnames = λ i. none;
      clerks = empty_map;
      next_client_id = n + 1000;
      maxraftstate = maxraftstate;
      rpcs0 = 0;
      ops = 0;
    } in
    do
      started ← start_servers codec names server ticks (all cfg) cfg
      connected ← connect_all started
      some (record connected { net = set_reliable (not unreliable) connected.net })

abbrev kill_running : Option (KvServer × Raft Op) → Option (KvServer × Raft Op)
kill_running none = none
kill_running (some s) = some (kill_server s)

unfoldable pub clean_up : Config → Config
clean_up cfg = record cfg {
  kvservers = λ i. kill_running (cfg.kvservers i);
  net = Network.cleanup cfg.net;
}

-- The first of the servers that takes itself for the leader; `(false, 0)` if there is none.
unfoldable pub leader_among : List ℕ → Config → Option (Bool × ℕ)
leader_among [] cfg = some (false, 0)
leader_among (i ∷ is) cfg = elim (cfg.kvservers i) [
  | none ↦ none
  | some (kv, rf) ↦ elim (get_state rf).1 [ true ↦ some (true, i) | false ↦ leader_among is cfg ]
]

abbrev pub leader : Config → Option (Bool × ℕ)
leader cfg = leader_among (all cfg) cfg

-- The loop of `make_partition` over the servers: the next free position, and both parts.
unfoldable pub fill_parts : ℕ → List ℕ → ℕ × List ℕ × List ℕ → Option (List ℕ × List ℕ)
fill_parts l [] (j, p1, p2) = some (p1, p2)
fill_parts l (i ∷ is) (j, p1, p2) = elim (i == l) [
  | true ↦ fill_parts l is (j, p1, p2)
  | false ↦ elim (ltb j (length p1)) [
    | true ↦ fill_parts l is (j + 1, set p1 j i, p2)
    | false ↦ elim (ltb (j - length p1) (length p2)) [
      | true ↦ fill_parts l is (j + 1, p1, set p2 (j - length p1) i)
      | false ↦ none
    ]
  ]
]

-- `p2[len(p2)-1] = l`
abbrev pub set_last : ℕ → List ℕ → Option (List ℕ)
set_last l [] = none
set_last l (x ∷ xs) = some (set (x ∷ xs) (length xs) l)

abbrev pub zeros : ℕ → List ℕ
zeros zero = []
zeros (suc n) = 0 ∷ zeros n

unfoldable pub make_partition : Config → Option (List ℕ × List ℕ)
make_partition cfg = do
  (found, l) ← leader cfg
  (p1, p2) ← fill_parts l (all cfg) (0, zeros (cfg.n / 2 + 1), zeros (cfg.n / 2))
  p2' ← set_last l p2
  some (p1, p2')

unfoldable pub largest : (Persister → ℕ) → List ℕ → ℕ → Config → Option ℕ
largest size [] top cfg = some top
largest size (i ∷ is) top cfg = do
  ps ← disk cfg i
  largest size is (if ltb top (size ps) then size ps else top) cfg

abbrev pub log_size : Config → Option ℕ
log_size cfg = largest raft_state_size (all cfg) 0 cfg

abbrev pub snapshot_size_of_all : Config → Option ℕ
snapshot_size_of_all cfg = largest snapshot_size (all cfg) 0 cfg

abbrev pub rpc_total : Config → ℕ
rpc_total cfg = get_total_count cfg.net

unfoldable pub begin : Config → Config
begin cfg = record cfg { rpcs0 = rpc_total cfg; ops = 0 }

abbrev pub op : Config → Config
op cfg = record cfg { ops = cfg.ops + 1 }

-- What `end` prints besides the time: servers, calls, and operations of the clerks.
unfoldable pub end : Config → ℕ × ℕ × ℕ
end cfg = (cfg.n, rpc_total cfg - cfg.rpcs0, cfg.ops)
