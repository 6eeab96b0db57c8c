-- ===== src/KvRaft/Server/Sessions.antt =====
-- kvraft/server.go: what the committed operations do to the store, against the list of the operations
-- that a client session has not seen before.
use Prim.Native.String.{String}
use mathlib.Core.List.{◌++◌}
use mit.Prelude.{
  ℕ, ◌+◌, ◌<◌, ◌≡◌, refl, sym, ap, ap₂, ◌∙◌, inl, inr, true, false, Bool-cases, some, List, [], ◌∷◌,
  arith, ◌==◌, ==_iff, Map, insert, nat_key,
}
use mit.Raft.Types.{ApplyMsg}
use mit.Raft.Commit.{apply_msg}
use mit.KvRaft.Types.{Op, KvServer}
use mit.KvRaft.Server.{
  stale, execute_operation, apply_op, notify, apply_command, applier_step, applier,
}

-- The messages for operations at consecutive indices from `i`, each with the term of its delivery.
unfoldable pub delivery : (ℕ → ℕ) → ℕ → List Op → List (ℕ × ApplyMsg Op)
delivery terms i [] = []
delivery terms i (op ∷ ops) =
    (terms i, apply_msg (record { term = 0; command = some op }) i) ∷ delivery terms (i + 1) ops

-- The operations that are newer than all that was seen of their client.
unfoldable pub fresh : Map ℕ ℕ → List Op → List Op
fresh seen [] = []
fresh seen (op ∷ ops) = elim (stale (seen op.client_id) op.seq_num) [
  | true ↦ fresh seen ops
  | false ↦ op ∷ fresh (insert op.client_id op.seq_num seen) ops
]

fresh-old :
    (op : Op) (ops : List Op) (seen : Map ℕ ℕ)
    → stale (seen op.client_id) op.seq_num ≡ true
    → fresh seen (op ∷ ops) ≡ fresh seen ops
fresh-old op ops seen old = unfold fresh in rw (old, fresh)

fresh-new :
    (op : Op) (ops : List Op) (seen : Map ℕ ℕ)
    → stale (seen op.client_id) op.seq_num ≡ false
    → fresh seen (op ∷ ops) ≡ op ∷ fresh (insert op.client_id op.seq_num seen) ops
fresh-new op ops seen new = unfold fresh in rw (new, fresh)

-- The store after operations that are all executed.
unfoldable pub run_store : List Op → Map String String → Map String String
run_store [] m = m
run_store (op ∷ ops) m = run_store ops (execute_operation op m).0

module _ (term i : ℕ) (op : Op) (kv : KvServer) (new : kv.last_applied_index < i) where
  abbrev pub next : KvServer
  next = applier_step term (apply_msg (record { term = 0; command = some op }) i) kv

  pub next_index : next.last_applied_index ≡ i
  unfolding applier_step apply_command apply_op notify
  next_index = ground arith

  next_stale :
      stale (kv.last_applied op.client_id) op.seq_num ≡ true
      → (next.last_applied ≡ kv.last_applied) × (next.kv_store ≡ kv.kv_store)
  unfolding applier_step apply_command apply_op notify
  next_stale old = ground arith

  next_fresh :
      stale (kv.last_applied op.client_id) op.seq_num ≡ false
      → (next.last_applied ≡ insert op.client_id op.seq_num kv.last_applied)
        × (next.kv_store ≡ (execute_operation op kv.kv_store).0)
  unfolding applier_step apply_command apply_op notify
  next_fresh unseen = ground arith

-- One command more, as the list of the fresh commands has it.
pub command_executed :
    (term i : ℕ) (op : Op) (ops : List Op) (kv : KvServer) (new : kv.last_applied_index < i)
    → let kv' = next term i op kv new in
      run_store (fresh kv'.last_applied ops) kv'.kv_store
      ≡ run_store (fresh kv.last_applied (op ∷ ops)) kv.kv_store
unfolding run_store
command_executed term i op ops kv new =
    elim (Bool-cases (stale (kv.last_applied op.client_id) op.seq_num)) [
      | inl old ↦
          let (seen, store) = next_stale term i op kv new old in
          cc (seen, store, fresh-old op ops kv.last_applied old)
      | inr unseen ↦
          let (seen, store) = next_fresh term i op kv new unseen in
          ap₂ (λ seen' m. run_store (fresh seen' ops) m) seen store
          ∙ ap (λ l. run_store l kv.kv_store) (sym (fresh-new op ops kv.last_applied unseen))
    ]

pub applier_executes_fresh :
    (terms : ℕ → ℕ) (i : ℕ) (ops : List Op) (kv : KvServer)
    → kv.last_applied_index < i
    → (applier (delivery terms i ops) kv).kv_store
      ≡ run_store (fresh kv.last_applied ops) kv.kv_store
unfolding applier delivery run_store
applier_executes_fresh terms i [] kv new = unfold fresh in refl
applier_executes_fresh terms i (op ∷ ops) kv new =
    let kv' = next (terms i) i op kv new in
    let ih =
      applier_executes_fresh terms (i + 1) ops kv'
        (omega (arith, next_index (terms i) i op kv new)) in
    ih ∙ command_executed (terms i) i op ops kv new

stale-insert :
    (op : Op) (seen : Map ℕ ℕ)
    → stale (insert op.client_id op.seq_num seen op.client_id) op.seq_num ≡ true
stale-insert op seen = ground (arith, ==_iff op.client_id op.client_id)

still_stale :
    (op x : Op) (seen : Map ℕ ℕ)
    → stale (seen op.client_id) op.seq_num ≡ true
    → stale (seen x.client_id) x.seq_num ≡ false
    → stale (insert x.client_id x.seq_num seen op.client_id) op.seq_num ≡ true
still_stale op x seen old new = elim (Bool-cases (x.client_id == op.client_id)) [
  | inr other ↦ rw other old
  | inl same ↦
      let e : seen x.client_id ≡ seen op.client_id =
        ap seen ((==_iff x.client_id op.client_id).0 same) in
      ground (arith, e, same)
]

-- Once a request is covered by what was seen, it stays covered, and another copy of it is skipped.
fresh_skips :
    (op : Op) (mid rest : List Op) (seen : Map ℕ ℕ)
    → stale (seen op.client_id) op.seq_num ≡ true
    → fresh seen (mid ++ (op ∷ rest)) ≡ fresh seen (mid ++ rest)
fresh_skips op [] rest seen old = fresh-old op rest seen old
fresh_skips op (x ∷ mid) rest seen old = elim (Bool-cases (stale (seen x.client_id) x.seq_num)) [
  | inl skip ↦
      fresh-old x (mid ++ (op ∷ rest)) seen skip
      ∙ fresh_skips op mid rest seen old
      ∙ sym (fresh-old x (mid ++ rest) seen skip)
  | inr take ↦
      fresh-new x (mid ++ (op ∷ rest)) seen take
      ∙ ap (◌∷◌ x) (
          fresh_skips op mid rest (insert x.client_id x.seq_num seen)
            (still_stale op x seen old take))
      ∙ sym (fresh-new x (mid ++ rest) seen take)
]

fresh_once :
    (op : Op) (mid rest : List Op) (seen : Map ℕ ℕ)
    → fresh seen (op ∷ mid ++ (op ∷ rest)) ≡ fresh seen (op ∷ mid ++ rest)
fresh_once op mid rest seen = elim (Bool-cases (stale (seen op.client_id) op.seq_num)) [
  | inl skip ↦
      fresh-old op (mid ++ (op ∷ rest)) seen skip
      ∙ fresh_skips op mid rest seen skip
      ∙ sym (fresh-old op (mid ++ rest) seen skip)
  | inr take ↦
      fresh-new op (mid ++ (op ∷ rest)) seen take
      ∙ ap (◌∷◌ op)
          (fresh_skips op mid rest (insert op.client_id op.seq_num seen) (stale-insert op seen))
      ∙ sym (fresh-new op (mid ++ rest) seen take)
]

-- A request that a clerk has sent again, and that was committed twice with anything in between, has
-- the effect of one: the stores are equal.
pub committed_twice :
    (terms terms' : ℕ → ℕ) (i : ℕ) (op : Op) (mid rest : List Op) (kv : KvServer)
    → kv.last_applied_index < i
    → (applier (delivery terms i (op ∷ mid ++ (op ∷ rest))) kv).kv_store
      ≡ (applier (delivery terms' i (op ∷ mid ++ rest)) kv).kv_store
committed_twice terms terms' i op mid rest kv new =
    applier_executes_fresh terms i (op ∷ mid ++ (op ∷ rest)) kv new
    ∙ ap (λ l. run_store l kv.kv_store) (fresh_once op mid rest kv.last_applied)
    ∙ sym (applier_executes_fresh terms' i (op ∷ mid ++ rest) kv new)
