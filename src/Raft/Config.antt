-- ===== src/Raft/Config.antt =====
-- raft/config.go: the configuration of a group of peers on a simulated network. Its slices have one
-- element for each of the `n` peers: they are functions of the peer's number. `t.Fatal` and
-- `log.Fatal`, which end the test, and a panic are `none`.
pub mod Nodes
pub mod Logs
pub mod Checks
pub mod Agreement
pub mod Committed
pub mod Enabling
pub mod Wiring
pub mod Crash
pub mod Restart
pub mod Steps
pub mod Leaders
pub mod OneLeader
pub mod OneCommand
use Prim.Native.String.{String}
use mit.Prelude.{
  ℕ, zero, suc, ◌+◌, ◌-◌, Bool, true, false, not, Option, none, some, Map, empty_map, ◌>>=◌, ◌==◌,
  if◌then◌else◌, nat_key,
}
use mit.Raft.Types.{Raft, Persister}
use mit.Labrpc.Network.{
  Network, make_network, set_reliable, set_long_delays,
  set_long_reordering as set_long_reordering_net, enable, get_total_count, get_total_bytes, cleanup,
}

-- The persister of a running peer is the one that its `Raft` holds; `saved` is that of a peer that is
-- down. The names of the ends of a peer are none before it has been started.
pub record Config (C : Type 0) : Type 0 where
  pub finished : Bool
  pub net : Network
  pub n : ℕ
  pub rafts : ℕ → Option (Raft C)
  pub apply_err : ℕ → String
  pub connected : ℕ → Bool
  pub saved : ℕ → Option Persister
  pub endnames : ℕ → Option (ℕ → ℕ)
  pub logs : ℕ → Map ℕ (Option C)
  pub last_applied : ℕ → ℕ
  pub rpcs0 : ℕ
  pub cmds0 : ℕ
  pub bytes0 : ℕ
  pub max_index : ℕ
  pub max_index0 : ℕ

-- `xs[i] = x`
abbrev pub put_at : {A : Type 0} → ℕ → A → (ℕ → A) → ℕ → A
put_at i x xs j = if i == j then x else xs j

-- The fields before the peers are started.
abbrev pub new_config : {C : Type 0} → ℕ → Bool → Config C
new_config n unreliable = record {
  finished = false;
  net = set_long_delays true (set_reliable (not unreliable) make_network);
  n = n;
  rafts = λ i. none;
  apply_err = λ i. "";
  connected = λ i. false;
  saved = λ i. none;
  endnames = λ i. none;
  logs = λ i. empty_map;
  last_applied = λ i. 0;
  rpcs0 = 0;
  cmds0 = 0;
  bytes0 = 0;
  max_index = 0;
  max_index0 = 0;
}

-- What a loop over the peers does about the end for peer `j`.
pub data End : Type 0 where
  skip missing : End
  named : ℕ → End

abbrev pub end_name : Option (ℕ → ℕ) → ℕ → End
end_name none j = missing
end_name (some names) j = named (names j)

-- The same where a missing slice is tested for.
abbrev pub end_if_named : Option (ℕ → ℕ) → ℕ → End
end_if_named none j = skip
end_if_named (some names) j = named (names j)

abbrev pub enable_end : End → Bool → Network → Option Network
enable_end skip on net = some net
enable_end missing on net = none
enable_end (named e) on net = some (enable e on net)

-- `for j := …; j < n; j++ { cfg.net.Enable(…, on) }`
unfoldable pub enable_ends : (ℕ → End) → ℕ → ℕ → Bool → Network → Option Network
enable_ends ends j zero on net = some net
enable_ends ends j (suc left) on net = do
  net' ← enable_end (ends j) on net
  enable_ends ends (j + 1) left on net'

module _ {C : Type 0} where
  unfoldable pub connect : ℕ → Config C → Option (Config C)
  connect i cfg =
      let connected = put_at i true cfg.connected in
      do
        net ←
            enable_ends (λ j. if connected j then end_name (cfg.endnames i) j else skip) 0 cfg.n
              true cfg.net
        net' ←
            enable_ends (λ j. if connected j then end_name (cfg.endnames j) i else skip) 0 cfg.n
              true net
        some (record cfg { connected = connected; net = net' })

  unfoldable pub disconnect : ℕ → Config C → Option (Config C)
  disconnect i cfg = do
    net ← enable_ends (end_if_named (cfg.endnames i)) 0 cfg.n false cfg.net
    net' ← enable_ends (λ j. end_if_named (cfg.endnames j) i) 0 cfg.n false net
    some (record cfg { connected = put_at i false cfg.connected; net = net' })

  abbrev pub rpc_total : Config C → ℕ
  rpc_total cfg = get_total_count cfg.net

  abbrev pub bytes_total : Config C → ℕ
  bytes_total cfg = get_total_bytes cfg.net

  abbrev pub set_unreliable : Bool → Config C → Config C
  set_unreliable unrel cfg = record cfg { net = set_reliable (not unrel) cfg.net }

  abbrev pub set_long_reordering : Bool → Config C → Config C
  set_long_reordering longrel cfg = record cfg { net = set_long_reordering_net longrel cfg.net }

  unfoldable pub begin : Config C → Config C
  begin cfg = record cfg {
    rpcs0 = rpc_total cfg;
    bytes0 = bytes_total cfg;
    cmds0 = 0;
    max_index0 = cfg.max_index;
  }

  -- What `end` prints besides the time: peers, calls, bytes and commands of this test.
  unfoldable pub end : Config C → ℕ × ℕ × ℕ × ℕ
  end cfg = (
    cfg.n,
    rpc_total cfg - cfg.rpcs0,
    bytes_total cfg - cfg.bytes0,
    cfg.max_index - cfg.max_index0,
  )
