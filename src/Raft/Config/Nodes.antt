-- ===== src/Raft/Config/Nodes.antt =====
-- raft/config.go: peers that crash and start again.
use mit.Prelude.{
  ℕ, zero, suc, ◌+◌, ◌≡◌, Bool, true, false, not, Option, none, some, List, [], ◌∷◌, Map, empty_map,
  insert, nat_key, ◌>>=◌, ◌==◌, if◌then◌else◌,
}
use mit.Raft.Types.{Raft, Persister, Tick, Bytes}
use mit.Raft.Persister.{make_persister, copy, read_raft_state, read_snapshot, save}
use mit.Raft.Persist.{Codec}
use mit.Raft.Roles.{make, kill}
use mit.Labrpc.Network.{Network, delete_server, make_end, add_server, cleanup}
use mit.Labrpc.Network as Network
use mit.Raft.Config.{Config, put_at, new_config, connect, disconnect}

-- A snapshot of the test: the last index and the commands up to it, in gob's encoding, a parameter.
pub record SnapshotCodec (C : Type 0) : Type 0 where
  pub encode : ℕ × List (Option C) → Bytes
  pub decode : Bytes → Option (ℕ × List (Option C))
  pub decode-encode : (s : ℕ × List (Option C)) → decode (encode s) ≡ some s
  pub decode-nil : decode [] ≡ none

abbrev pub copied : Option Persister → Option Persister
copied none = none
copied (some ps) = some (copy ps)

-- the contents, saved in an empty persister
abbrev pub saved_again : Option Persister → Option Persister
saved_again none = none
saved_again (some ps) =
    some (save (read_raft_state ps) (read_snapshot ps) (record { raftstate = []; snapshot = [] }))

-- The ends `i, i + 1, …` of a peer, each connected to its server.
unfoldable pub make_ends : (ℕ → ℕ) → ℕ → ℕ → Network.Network → Option Network.Network
make_ends names j zero net = some net
make_ends names j (suc left) net = do
  (net', e) ← make_end (names j) net
  make_ends names (j + 1) left (Network.connect (names j) j net')

-- The persister that the new peer starts from.
abbrev pub next_persister : Option Persister → Persister
next_persister none = make_persister
next_persister (some ps) = copy ps

-- `index != -1 && index != lastIncludedIndex`
abbrev pub mismatch : Option ℕ → ℕ → Bool
mismatch none last = false
mismatch (some index) last = not (index == last)

module _ {C : Type 0} where
  -- What is on the disk of a peer.
  abbrev pub disk : Config C → ℕ → Option Persister
  disk cfg i = elim (cfg.rafts i) [ none ↦ cfg.saved i | some rf ↦ some rf.persister ]

  -- The killed peer is gone with its persister.
  unfoldable pub crash1 : ℕ → Config C → Option (Config C)
  crash1 i cfg = do
    cfg' ← disconnect i cfg
    some (record cfg' {
      net = delete_server i cfg'.net;
      rafts = put_at i none cfg.rafts;
      saved = put_at i (saved_again (copied (disk cfg i))) cfg.saved;
    })

  -- `cfg.logs[i][j] = xlog[j]` for every `j`
  abbrev pub log_of : ℕ → List (Option C) → Map ℕ (Option C)
  log_of j [] = empty_map
  log_of j (v ∷ xlog) = insert j v (log_of (j + 1) xlog)

  -- The index is `none` for -1.
  unfoldable pub ingest_snap : SnapshotCodec C → ℕ → Bytes → Option ℕ → Config C → Option (Config C)
  ingest_snap snapshots i snapshot index cfg = do
    (last, xlog) ← snapshots.decode snapshot
    if mismatch index last
        then none
        else some (record cfg {
          logs = put_at i (log_of 0 xlog) cfg.logs;
          last_applied = put_at i last cfg.last_applied;
        })

  unfoldable pub ingest_saved :
      SnapshotCodec C → ℕ → Option Persister → Config C → Option (Config C)
  ingest_saved snapshots i none cfg = some cfg
  ingest_saved snapshots i (some ps) cfg = elim (read_snapshot (copy ps)) [
    | [] ↦ some cfg
    | b ∷ snapshot ↦ ingest_snap snapshots i (b ∷ snapshot) none cfg
  ]

  -- `names` are the random names of the new ends, and `server` is the new server of the peer.
  unfoldable pub start1 :
      Codec C → SnapshotCodec C → ℕ → (ℕ → ℕ) → ℕ → Tick → Config C → Option (Config C)
  start1 codec snapshots i names server tick cfg = do
    down ← crash1 i cfg
    net ← make_ends names 0 down.n down.net
    let fresh : Config C = record down {
      net = net;
      endnames = put_at i (some names) down.endnames;
      last_applied = put_at i 0 down.last_applied;
    }
    cfg' ← ingest_saved snapshots i (down.saved i) fresh
    let ps = next_persister (down.saved i)
    some (record cfg' {
      saved = put_at i (some ps) cfg'.saved;
      rafts = put_at i (some (make codec cfg'.n i ps tick)) cfg'.rafts;
      net = add_server i server cfg'.net;
    })

  -- All peers are started, with the names `names i j` and the servers `server i`, and then connected.
  unfoldable pub start_all :
      Codec C
      → SnapshotCodec C
      → (ℕ → ℕ → ℕ)
      → (ℕ → ℕ)
      → (ℕ → Tick)
      → ℕ
      → ℕ
      → Config C
      → Option (Config C)
  start_all codec snapshots names server ticks i zero cfg = some cfg
  start_all codec snapshots names server ticks i (suc left) cfg = do
    cfg' ← start1 codec snapshots i (names i) (server i) (ticks i) cfg
    start_all codec snapshots names server ticks (i + 1) left cfg'

  unfoldable pub connect_all : ℕ → ℕ → Config C → Option (Config C)
  connect_all i zero cfg = some cfg
  connect_all i (suc left) cfg = do cfg' ← connect i cfg; connect_all (i + 1) left cfg'

  unfoldable pub make_config :
      Codec C → SnapshotCodec C → (ℕ → ℕ → ℕ) → (ℕ → ℕ) → (ℕ → Tick) → ℕ → Bool → Option (Config C)
  make_config codec snapshots names server ticks n unreliable = do
    cfg ← start_all codec snapshots names server ticks 0 n (new_config n unreliable)
    connect_all 0 n cfg

  abbrev kill_running : Option (Raft C) → Option (Raft C)
  kill_running none = none
  kill_running (some rf) = some (kill rf)

  -- The test of its time limit is left out.
  unfoldable pub clean_up : Config C → Config C
  clean_up cfg = record cfg {
    finished = true;
    rafts = λ i. kill_running (cfg.rafts i);
    net = cleanup cfg.net;
  }
