-- ===== src/KvRaft/Rpc/Timeout.antt =====
-- kvraft/server.go: a handler that gives up, and the request that the clerk then sends again.
use mit.Prelude.{ℕ, ◌<◌, ◌≡◌, refl, false, none, some, arith, ==_iff, nat_key, string_key}
use mit.Raft.Commit.{apply_msg}
use mit.KvRaft.Types.{ok, err_no_key, err_timeout, get, GetArgs, PutAppendArgs, Op, KvServer}
use mit.KvRaft.Server.{stale, execute_operation, apply_op, notify, apply_command, applier_step}
use mit.KvRaft.Rpc.{register, time_out, get_begin, put_append_begin, answer}

abbrev pub get_op : GetArgs → Op
get_op args = record {
  op_type = get;
  key = args.key;
  value = "";
  client_id = args.client_id;
  seq_num = args.seq_num;
}

abbrev pub put_append_op : PutAppendArgs → Op
put_append_op args = record {
  op_type = args.op;
  key = args.key;
  value = args.value;
  client_id = args.client_id;
  seq_num = args.seq_num;
}

-- The server after a handler has registered for `index` and has given up.
abbrev pub gave_up : ℕ → ℕ → KvServer → KvServer
gave_up index term kv = let (kv', w) = register index term kv in (time_out w kv').0

-- The server after the entry of `index` was applied later on.
abbrev pub applied_late : ℕ → ℕ → ℕ → Op → KvServer → KvServer
applied_late index term term' op kv =
    applier_step term' (apply_msg (record { term = term; command = some op }) index)
      (gave_up index term kv)

-- A Get that was given up and whose entry is then applied is answered at once when it is sent again,
-- with the value that the store had for the key at that point. Nobody is notified of the late result.
pub get_after_timeout :
    (index term term' : ℕ) (args : GetArgs) (kv : KvServer)
    → kv.last_applied_index < index
    → stale (kv.last_applied args.client_id) args.seq_num ≡ false
    → let (kv1, w) = register index term kv in
      let kv' = applied_late index term term' (get_op args) kv in
      ((time_out w kv1).1.err ≡ err_timeout)
      × (kv'.channels ≡ kv1.channels)
      × (get_begin args kv'
          ≡ answer (record { err = ok; value = (execute_operation (get_op args) kv.kv_store).2 }))
unfolding register time_out applier_step apply_command apply_op notify get_begin
get_after_timeout index term term' args kv new unseen =
    (refl, ground (arith, ==_iff index index), ground (arith, ==_iff args.client_id args.client_id))

-- A Put or Append that was given up and whose entry is then applied is answered with OK at once when
-- it is sent again; it has been executed once, and nobody is notified of the late result.
pub put_append_after_timeout :
    (index term term' : ℕ) (args : PutAppendArgs) (kv : KvServer)
    → kv.last_applied_index < index
    → stale (kv.last_applied args.client_id) args.seq_num ≡ false
    → let (kv1, w) = register index term kv in
      let kv' = applied_late index term term' (put_append_op args) kv in
      ((time_out w kv1).1.err ≡ err_timeout)
      × (kv'.channels ≡ kv1.channels)
      × (kv'.kv_store ≡ (execute_operation (put_append_op args) kv.kv_store).0)
      × (put_append_begin args kv' ≡ answer (record { err = ok; value = "" }))
unfolding register time_out applier_step apply_command apply_op notify put_append_begin
put_append_after_timeout index term term' args kv new unseen = (
  refl,
  ground (arith, ==_iff index index),
  ground (arith, ==_iff index index),
  ground (arith, ==_iff args.client_id args.client_id),
)

-- A Get of a missing key that is sent again is answered with OK and an empty value, where the
-- operation was answered with ErrNoKey.
pub missing_key_again :
    (term : ℕ) (args : GetArgs) (kv : KvServer)
    → kv.kv_store args.key ≡ none
    → stale (kv.last_applied args.client_id) args.seq_num ≡ false
    → let (kv', result) = apply_op term (get_op args) kv in
      (result.err ≡ err_no_key) × (get_begin args kv' ≡ answer (record { err = ok; value = "" }))
unfolding apply_op execute_operation get_begin
missing_key_again term args kv missing unseen =
    (ground (arith, missing), ground (arith, missing, ==_iff args.client_id args.client_id))
