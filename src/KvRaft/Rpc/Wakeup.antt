-- ===== src/KvRaft/Rpc/Wakeup.antt =====
-- kvraft/server.go, `waitForApply` and `applyCommand`: a handler that has registered its channel in time
-- gets the result of its index.
use mathlib.Core.List.{◌++◌}
use mathlib.Core.Option.{some-injective}
use mit.Prelude.{
  ℕ, ◌⊎◌, ◌<◌, ◌≤◌, ◌≡◌, ◌≢◌, inl, inr, refl, sym, subst, true, false, Bool-cases, Option-cases,
  leb, get_or, ◌==◌, ==_iff, Map, ap, ◌∙◌, Option, none, some, List, [], ◌∷◌, arith, length,
  get_elem?, set, delete, nat_key,
}
use mit.Raft.Commit.{apply_msg}
use Prim.Native.String.{String}
use mit.KvRaft.Types.{
  ok, err_wrong_leader, OpType, get, put, append, other, GetReply, Op, NotifyCh, KvServer,
}
use mit.KvRaft.Server.{
  stale, execute_operation, offer, apply_op, notify, apply_command, applier_step,
}
use mit.KvRaft.Rpc.{Wait, register, received, checked, receive}

received-offer :
    (cs : List (Option NotifyCh)) (result : NotifyCh)
    → received (get_elem? (offer (cs ++ (none ∷ [])) (length cs) result) (length cs)) ≡ some result
received-offer [] result = refl
received-offer (none ∷ cs) result = received-offer cs result
received-offer (some c ∷ cs) result = received-offer cs result

receive-some :
    (w : Wait) (kv : KvServer) (result : NotifyCh)
    → received (get_elem? kv.channels w.channel) ≡ some result
    → receive w kv
      ≡ some (
        record kv {
          channels = set kv.channels w.channel none;
          notify_chans = delete w.index kv.notify_chans;
        },
        checked w.term result,
      )
unfolding receive
receive-some w kv result h = ground arith

module _ (index term term' : ℕ) (op : Op) (kv : KvServer)
    (new : kv.last_applied_index < index) where
  -- the server with the handler registered, and after the entry was applied
  abbrev waiting : KvServer
  waiting = (register index term kv).0

  abbrev applied : KvServer
  applied = applier_step term' (apply_msg (record { term = term; command = some op }) index) waiting

  applied_fields :
      (applied.channels
        ≡ offer (kv.channels ++ (none ∷ [])) (length kv.channels) (apply_op term' op kv).1)
      × (applied.kv_store ≡ (apply_op term' op kv).0.kv_store)
  unfolding register applier_step apply_command notify apply_op
  applied_fields = (ground (arith, ==_iff index index), ground (arith, ==_iff index index))

-- The request is not newer than the last one of its client that the server has executed.
abbrev pub Repeated : Op → KvServer → Type 0
Repeated op kv = (last : ℕ) × (kv.last_applied op.client_id ≡ some last) × (op.seq_num ≤ last)

-- What the handler answers: that the leader is wrong if the term has changed; otherwise the error and
-- the value of a new operation, for a repeated Get the value kept for the client, and OK for another
-- repeated operation.
pub data HandlerGets (term term' : ℕ) (op : Op) (kv : KvServer) (reply : GetReply) : Type 0 where
  new_term :
      term' ≢ term
      → reply ≡ record { err = err_wrong_leader; value = "" }
      → HandlerGets term term' op kv reply
  executed :
      term' ≡ term
      → ¬ Repeated op kv
      → reply ≡ record {
        err = (execute_operation op kv.kv_store).1;
        value = (execute_operation op kv.kv_store).2;
      }
      → HandlerGets term term' op kv reply
  kept :
      term' ≡ term
      → Repeated op kv
      → op.op_type ≡ get
      → reply ≡ record { err = ok; value = get_or (kv.last_result op.client_id) "" }
      → HandlerGets term term' op kv reply
  acknowledged :
      term' ≡ term
      → Repeated op kv
      → op.op_type ≢ get
      → reply.err ≡ ok
      → HandlerGets term term' op kv reply

-- The store after the operation: a repeated one leaves it as it was.
pub data StoreAfter (op : Op) (kv : KvServer) (store : Map String String) : Type 0 where
  run : ¬ Repeated op kv → store ≡ (execute_operation op kv.kv_store).0 → StoreAfter op kv store
  unchanged : Repeated op kv → store ≡ kv.kv_store → StoreAfter op kv store

stale-Repeated :
    (op : Op) (kv : KvServer)
    → Repeated op kv
    → stale (kv.last_applied op.client_id) op.seq_num ≡ true
stale-Repeated op kv (last, e, le) = ground (arith, e, le)

fresh_request :
    (op : Op) (kv : KvServer)
    → ¬ Repeated op kv
    → stale (kv.last_applied op.client_id) op.seq_num ≡ false
fresh_request op kv new = elim (Option-cases (kv.last_applied op.client_id)) [
  | inl e ↦ rw e refl
  | inr (last, e) ↦ elim (Bool-cases (leb op.seq_num last)) [
    | inl le ↦ absurd (new (last, e, ground (arith, le)))
    | inr above ↦ rw e above
  ]
]

apply_op_term : (term : ℕ) (op : Op) (kv : KvServer) → (apply_op term op kv).1.term ≡ term
unfolding apply_op
apply_op_term term op kv = elim (Bool-cases (stale (kv.last_applied op.client_id) op.seq_num)) [
  | inl old ↦ rw old refl
  | inr new ↦ rw new refl
]

checked_other :
    (term : ℕ) (result : NotifyCh)
    → result.term ≢ term
    → checked term result ≡ record { err = err_wrong_leader; value = "" }
unfolding checked
checked_other term result changed = ground (arith, ==_iff result.term term)

checked_same :
    (term : ℕ) (result : NotifyCh)
    → result.term ≡ term
    → checked term result ≡ record { err = result.err; value = result.value }
unfolding checked
checked_same term result same = ground (arith, ==_iff result.term term)

Repeated-cases : (op : Op) (kv : KvServer) → Repeated op kv ⊎ ¬ Repeated op kv
Repeated-cases op kv = elim (Option-cases (kv.last_applied op.client_id)) [
  | inl e ↦ inr (λ (last, e', le). ground (arith, e, e'))
  | inr (last, e) ↦ elim (Bool-cases (leb op.seq_num last)) [
    | inl le ↦ inl (last, e, ground (arith, le))
    | inr above ↦ inr (λ (last', e', le).
        let same : last ≡ last' = some-injective _ _ (sym e ∙ e') in
        ground (arith, above, same, le))
  ]
]

get-cases : (t : OpType) → (t ≡ get) ⊎ (t ≢ get)
get-cases get = inl refl
get-cases put = inr (λ e. ground (arith, e))
get-cases append = inr (λ e. ground (arith, e))
get-cases (other x) = inr (λ e. ground (arith, e))

apply_op_first :
    (term : ℕ) (op : Op) (kv : KvServer)
    → ¬ Repeated op kv
    → let (store, err, value) = execute_operation op kv.kv_store in
      ((apply_op term op kv).0.kv_store ≡ store)
      × ((apply_op term op kv).1.err ≡ err)
      × ((apply_op term op kv).1.value ≡ value)
unfolding apply_op
apply_op_first term op kv new = let f = fresh_request op kv new in rw f (refl, refl, refl)

apply_op-Repeated :
    (term : ℕ) (op : Op) (kv : KvServer)
    → Repeated op kv
    → ((apply_op term op kv).0.kv_store ≡ kv.kv_store) × ((apply_op term op kv).1.err ≡ ok)
unfolding apply_op
apply_op-Repeated term op kv old = let f = stale-Repeated op kv old in rw f (refl, refl)

apply_op_kept :
    (term : ℕ) (op : Op) (kv : KvServer)
    → Repeated op kv
    → op.op_type ≡ get
    → (apply_op term op kv).1.value ≡ get_or (kv.last_result op.client_id) ""
unfolding apply_op
apply_op_kept term op kv old g = let f = stale-Repeated op kv old in rw (f, g) refl

checked-HandlerGets :
    (term term' : ℕ) (op : Op) (kv : KvServer)
    → HandlerGets term term' op kv (checked term (apply_op term' op kv).1)
checked-HandlerGets term term' op kv =
    let result = (apply_op term' op kv).1 in
    let own = apply_op_term term' op kv in
    elim (Bool-cases (term' == term)) [
      | inr e ↦
          let changed : term' ≢ term = ground (arith, e, ==_iff term' term) in
          new_term changed (checked_other term result (λ e'. changed (sym own ∙ e')))
      | inl e ↦
          let same : term' ≡ term = ground (arith, e, ==_iff term' term) in
          let answered = checked_same term result (own ∙ same) in
          elim (Repeated-cases op kv) [
            | inr new ↦
                let (_, err, value) = apply_op_first term' op kv new in
                executed same new (answered ∙ rw (err, value) refl)
            | inl old ↦
                let (_, err) = apply_op-Repeated term' op kv old in
                elim (get-cases op.op_type) [
                  | inl g ↦
                      let value = apply_op_kept term' op kv old g in
                      kept same old g (answered ∙ rw (err, value) refl)
                  | inr n ↦ acknowledged same old n (ap (λ r. r.err) answered ∙ err)
                ]
          ]
    ]

apply_op-StoreAfter :
    (term : ℕ) (op : Op) (kv : KvServer) → StoreAfter op kv (apply_op term op kv).0.kv_store
apply_op-StoreAfter term op kv = elim (Repeated-cases op kv) [
  | inl old ↦ unchanged old (apply_op-Repeated term op kv old).0
  | inr new ↦ run new (apply_op_first term op kv new).0
]

-- When the entry of the index is the next to be applied after the handler has registered, the handler
-- receives an answer: ErrWrongLeader if the term has changed since the submission; otherwise the error
-- and the value of the operation, executed on the server's store, or for a repeated request OK, with
-- the value kept for the client if it is a Get. The store is that of the operation, or for a repeated
-- request as it was; and the registration is gone.
pub registered_gets_result :
    (index term term' : ℕ) (op : Op) (kv : KvServer)
    → kv.last_applied_index < index
    → let (kv1, w) = register index term kv in
      let kv2 =
        applier_step term' (apply_msg (record { term = term; command = some op }) index) kv1 in
      (kv3 : KvServer) × (reply : GetReply) × (receive w kv2 ≡ some (kv3, reply))
      × (kv3.notify_chans index ≡ none)
      × HandlerGets term term' op kv reply
      × StoreAfter op kv kv3.kv_store
unfolding register
registered_gets_result index term term' op kv new =
    let (sent, store) = applied_fields index term term' op kv new in
    (
      _,
      _,
      receive-some _ (applied index term term' op kv new) (apply_op term' op kv).1 (
          ap (λ cs. received (get_elem? cs (length kv.channels))) sent
          ∙ received-offer kv.channels (apply_op term' op kv).1),
      ground (arith, ==_iff index index),
      checked-HandlerGets term term' op kv,
      subst (StoreAfter op kv) (sym store) (apply_op-StoreAfter term' op kv),
    )
