-- ===== src/Raft/Config/Crash.antt =====
-- raft/config.go: what `crash1` leaves, and what a snapshot on the disk changes.
use mathlib.Core.Option.{some-injective}
use mit.Prelude.{
  ℕ, ◌<◌, ◌≡◌, ◌≢◌, ◌⊎◌, inl, inr, refl, sym, ap, subst, ◌∙◌, false, Bool-cases, Option, none, some,
  [], ◌∷◌, nat_key, ==_iff, ◌==◌, arith, >>=-eq-some,
}
use mit.Raft.Types.{Persister, Bytes}
use mit.Raft.Persister.{copy, read_raft_state, read_snapshot, save, clone_lem, clone}
use mit.Labrpc.Network.{delete_server}
use mit.Raft.Config.{Config, named, end_name, put_at, disconnect}
use mit.Raft.Config.Nodes.{
  SnapshotCodec, disk, copied, saved_again, crash1, ingest_snap, next_persister, ingest_saved,
}
use mit.Raft.Config.Enabling.{named_inj}
use mit.Raft.Config.Wiring.{Wired, disconnect-Wired, disconnect-parts}

bytes_cases : (bytes : Bytes) → (bytes ≡ []) ⊎ ((b : ℕ) × (rest : Bytes) × (bytes ≡ b ∷ rest))
bytes_cases [] = inl refl
bytes_cases (b ∷ rest) = inr (b, rest, refl)

pub new_name :
    (i a b name : ℕ) (names : ℕ → ℕ) (endnames : ℕ → Option (ℕ → ℕ))
    → end_name (put_at i (some names) endnames a) b ≡ named name
    → ((i ≡ a) × (names b ≡ name)) ⊎ ((i ≢ a) × (end_name (endnames a) b ≡ named name))
new_name i a b name names endnames h = elim (Bool-cases (i == a)) [
  | inl same ↦ inl ((==_iff i a).0 same, named_inj (names b) name (rw same at h))
  | inr other ↦ inr ((λ e. cc ((==_iff i a).1 e, other)), rw other at h)
]

pub put_same : {A : Type 0} (i : ℕ) (x : A) (xs : ℕ → A) → put_at i x xs i ≡ x
put_same i x xs = ground (arith, ==_iff i i)

-- What a new peer starts from is what the old one had.
pub restored : (ps : Persister) → next_persister (saved_again (some (copy ps))) ≡ ps
unfolding copy save read_raft_state read_snapshot
restored ps =
    ap (λ b. record ps { raftstate = b; snapshot = clone (clone ps.snapshot) })
      (clone_lem (clone ps.raftstate) ∙ clone_lem ps.raftstate)
    ∙ ap (λ b. record ps { snapshot = b }) (clone_lem (clone ps.snapshot) ∙ clone_lem ps.snapshot)

module _ {C : Type 0} where
  -- What `crash1` leaves.
  pub record Down (i : ℕ) (cfg down : Config C) : Type 0 where
    pub wired : Wired cfg → Wired down
    pub same_n : down.n ≡ cfg.n
    pub off : down.connected i ≡ false
    pub stored : down.saved i ≡ saved_again (copied (disk cfg i))
    gone : down.net.servers i ≡ some none

  pub crash1-Down :
      (i : ℕ) (cfg : Config C) {down : Config C}
      → i < cfg.n
      → crash1 i cfg ≡ some down
      → Down i cfg down
  unfolding crash1 delete_server
  crash1-Down i cfg {down} lt h =
      let (cfg', h1, last) = >>=-eq-some (disconnect i cfg) _ h in
      let (net', sw, same) = disconnect-parts i cfg h1 in
      let e : down ≡ record cfg' {
        net = delete_server i cfg'.net;
        rafts = put_at i none cfg.rafts;
        saved = put_at i (saved_again (copied (disk cfg i))) cfg.saved;
      } =
        ground arith in
      subst (Down i cfg) (sym e) (record {
        wired = λ w. disconnect-Wired i cfg lt h1 w;
        same_n = ap (λ c. c.n) same;
        off = ap (λ c. c.connected i) same ∙ (ground (arith, ==_iff i i));
        stored = ground (arith, ==_iff i i);
        gone = ground (arith, ==_iff i i);
      })

  -- What a snapshot on the disk changes.
  pub record Ingested (cfg cfg' : Config C) : Type 0 where
    pub same_n : cfg'.n ≡ cfg.n
    pub same_net : cfg'.net ≡ cfg.net
    pub same_endnames : cfg'.endnames ≡ cfg.endnames
    pub same_connected : cfg'.connected ≡ cfg.connected

  ingest_snap-Ingested :
      (snapshots : SnapshotCodec C) (i : ℕ) (snapshot : Bytes) (cfg : Config C) {cfg' : Config C}
      → ingest_snap snapshots i snapshot none cfg ≡ some cfg'
      → Ingested cfg cfg'
  unfolding ingest_snap
  ingest_snap-Ingested snapshots i snapshot cfg {cfg'} h =
      let ((last, xlog), h1, rest) = >>=-eq-some (snapshots.decode snapshot) _ h in
      record {
        same_n = ground arith;
        same_net = ground arith;
        same_endnames = ground arith;
        same_connected = ground arith;
      }

  pub ingest_saved-Ingested :
      (snapshots : SnapshotCodec C) (i : ℕ) (ps : Option Persister) (cfg : Config C)
      {cfg' : Config C}
      → ingest_saved snapshots i ps cfg ≡ some cfg'
      → Ingested cfg cfg'
  unfolding ingest_saved
  ingest_saved-Ingested snapshots i none cfg {cfg'} h =
      subst (Ingested cfg) (some-injective cfg cfg' h)
        (record { same_n = refl; same_net = refl; same_endnames = refl; same_connected = refl })
  ingest_saved-Ingested snapshots i (some ps) cfg {cfg'} h =
      elim (bytes_cases (read_snapshot (copy ps))) [
        | inl empty ↦
            subst (Ingested cfg) (some-injective cfg cfg' (rw (ingest_saved, empty) at h)) (record {
              same_n = refl;
              same_net = refl;
              same_endnames = refl;
              same_connected = refl;
            })
        | inr (b, rest, full) ↦
            ingest_snap-Ingested snapshots i (b ∷ rest) cfg (rw (ingest_saved, full) at h)
      ]
