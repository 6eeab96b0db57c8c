-- ===== src/Raft/Config/Logs.antt =====
-- raft/config.go: the copies of the logs that the test keeps, and what it checks when a peer applies a
-- command. Commands are compared by an instance of `Key`.
use mit.Prelude.{
  ℕ, zero, suc, ◌+◌, ◌-◌, ◌%◌, Bool, true, false, not, ◌&&◌, ◌||◌, Option, none, some, List, [],
  ◌∷◌, Map, insert, Key, nat_key, get_or, ◌>>=◌, ◌==◌, ltb, if◌then◌else◌,
}
use mit.Raft.Types.{ApplyMsg, Bytes}
use mit.Raft.Config.{Config, put_at}
use mit.Raft.Config.Nodes.{SnapshotCodec, ingest_snap}

-- the text that a check puts together is one of two
pub data CheckError : Type 0 where
  values_differ out_of_order : CheckError

abbrev pub ordered : ℕ → Bool → Option CheckError → Option CheckError
ordered index prevok err = if ltb 1 index && not prevok then some out_of_order else err

abbrev pub snap_shot_interval : ℕ
snap_shot_interval = 10

abbrev pub is_present {ℓ} : {A : Type ℓ} → Option A → Bool
is_present none = false
is_present (some v) = true

module _ {C : Type 0} ⦃e : Key C⦄ where
  abbrev pub same_command : Option C → Option C → Bool
  same_command none none = true
  same_command (some a) (some b) = e.same a b
  same_command _ _ = false

  -- `old, oldok := logs[j][index]; oldok && old != v`
  abbrev pub differs : Option (Option C) → Option C → Bool
  differs none v = false
  differs (some old) v = not (same_command old v)

  -- Does one of the logs `j, j + 1, …` have another value at the index?
  unfoldable pub any_differs : (ℕ → Map ℕ (Option C)) → ℕ → Option C → ℕ → ℕ → Bool
  any_differs logs index v j zero = false
  any_differs logs index v j (suc left) =
      differs (logs j index) v || any_differs logs index v (j + 1) left

  -- The error if there is one, and whether the index before is there.
  unfoldable pub check_logs : ℕ → ApplyMsg C → Config C → Config C × Option CheckError × Bool
  check_logs i m cfg =
      let v = m.command in
      (
        record cfg {
          logs = put_at i (insert m.command_index v (cfg.logs i)) cfg.logs;
          max_index = if ltb cfg.max_index m.command_index then m.command_index else cfg.max_index;
        },
        if any_differs cfg.logs m.command_index v 0 cfg.n then some values_differ else none,
        ltb 0 m.command_index && is_present (cfg.logs i (m.command_index - 1)),
      )

  -- An error ends the test (`log.Fatalf`).
  abbrev pub unless_failed : Config C → Option CheckError → Option (Config C)
  unless_failed cfg none = some cfg
  unless_failed cfg (some err) = none

  -- One message of `applier`.
  unfoldable pub applier_step : ℕ → ApplyMsg C → Config C → Option (Config C)
  applier_step i m cfg =
      if not m.command_valid
      then some cfg
      else (let (cfg', err, prevok) = check_logs i m cfg in
          unless_failed cfg' (ordered m.command_index prevok err))

  unfoldable pub applier : ℕ → List (ApplyMsg C) → Config C → Option (Config C)
  applier i [] cfg = some cfg
  applier i (m ∷ msgs) cfg = do cfg' ← applier_step i m cfg; applier i msgs cfg'

  -- Commands are in order with the last one applied, and then as in `applier`.
  unfoldable pub check_in_order : ℕ → ApplyMsg C → Config C → Config C × Option CheckError
  check_in_order i m cfg =
      if m.command_index == cfg.last_applied i + 1
      then (let (cfg', err, prevok) = check_logs i m cfg in
          (cfg', ordered m.command_index prevok err))
      else (cfg, some out_of_order)

  -- The commands at the indices `j, j + 1, …`; a missing one is nil.
  unfoldable pub commands_from : Map ℕ (Option C) → ℕ → ℕ → List (Option C)
  commands_from log j zero = []
  commands_from log j (suc left) = get_or (log j) none ∷ commands_from log (j + 1) left

  -- What is given to `Raft.Snapshot`, which does nothing.
  unfoldable pub snapshot_at : SnapshotCodec C → ℕ → ℕ → Config C → Option Bytes
  snapshot_at snapshots i index cfg =
      if (index + 1) % snap_shot_interval == 0
      then some (snapshots.encode (index, commands_from (cfg.logs i) 0 (index + 1)))
      else none

  -- One message of `applierSnap`, with the snapshot that is taken.
  unfoldable pub applier_snap_step :
      SnapshotCodec C → ℕ → ApplyMsg C → Config C → Option (Config C × Option Bytes)
  applier_snap_step snapshots i m cfg =
      if m.snapshot_valid
      then (do
        cfg' ← ingest_snap snapshots i m.snapshot (some m.snapshot_index) cfg
        some (cfg', none))
      else if m.command_valid
      then (let (cfg', err) = check_in_order i m cfg in
          let next : Config C = record cfg' {
            last_applied = put_at i m.command_index cfg'.last_applied;
          } in
          do
            cfg'' ← unless_failed next err
            some (cfg'', snapshot_at snapshots i m.command_index cfg''))
      else some (cfg, none)

  -- `nCommitted`, over the peers `i, i + 1, …`, with the count and the command so far.
  unfoldable pub count_committed :
      (ℕ → Map ℕ (Option C)) → ℕ → ℕ → ℕ → ℕ × Option C → Option (ℕ × Option C)
  count_committed logs index i zero found = some found
  count_committed logs index i (suc left) (count, cmd) = elim (logs i index) [
    | none ↦ count_committed logs index (i + 1) left (count, cmd)
    | some cmd1 ↦ elim (ltb 0 count && not (same_command cmd cmd1)) [
      | true ↦ none
      | false ↦ count_committed logs index (i + 1) left (count + 1, cmd1)
    ]
  ]

  -- The test of `applyErr` is left out: `log.Fatalf` has ended the test before it is set.
  unfoldable pub n_committed : ℕ → Config C → Option (ℕ × Option C)
  n_committed index cfg = count_committed cfg.logs index 0 cfg.n (0, none)
