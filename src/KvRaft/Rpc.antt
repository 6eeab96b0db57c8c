-- ===== src/KvRaft/Rpc.antt =====
-- kvraft/server.go: the RPC handlers `Get` and `PutAppend` and `waitForApply`, each as the parts
-- between which the handler waits.
pub mod Wakeup
pub mod Timeout
use Prim.Native.String.{String}
use mathlib.Core.List.{◌++◌}
use mit.Prelude.{
  ℕ, zero, suc, ◌==◌, Bool, true, false, Option, none, some, List, [], ◌∷◌, if◌then◌else◌, length,
  get_elem?, set, insert, delete, get_or, nat_key,
}
use mit.Raft.Types.{Raft, Task}
use mit.Raft.Persist.{Codec}
use mit.Raft.Replicate.{start}
use mit.KvRaft.Types.{
  Err, ok, err_wrong_leader, err_timeout, get, GetArgs, PutAppendArgs, GetReply, Op, NotifyCh,
  KvServer,
}
use mit.KvRaft.Server.{stale}

-- A handler answers at once or submits an operation.
pub data Begin : Type 0 where
  answer : GetReply → Begin
  submit : Op → Begin

unfoldable pub get_begin : GetArgs → KvServer → Begin
get_begin args kv =
    if stale (kv.last_applied args.client_id) args.seq_num
    then answer (record { err = ok; value = get_or (kv.last_result args.client_id) "" })
    else submit (record {
      op_type = get;
      key = args.key;
      value = "";
      client_id = args.client_id;
      seq_num = args.seq_num;
    })

-- A `PutAppendReply` has an error only: its value here is "".
unfoldable pub put_append_begin : PutAppendArgs → KvServer → Begin
put_append_begin args kv =
    if stale (kv.last_applied args.client_id) args.seq_num
    then answer (record { err = ok; value = "" })
    else submit (record {
      op_type = args.op;
      key = args.key;
      value = args.value;
      client_id = args.client_id;
      seq_num = args.seq_num;
    })

-- The handlers `Put` and `Append` call `PutAppend`.
abbrev pub put_begin : PutAppendArgs → KvServer → Begin
put_begin args kv = put_append_begin args kv

abbrev pub append_begin : PutAppendArgs → KvServer → Begin
append_begin args kv = put_append_begin args kv

-- What `waitForApply` waits for: the index, the term at the start, and the channel.
pub record Wait : Type 0 where
  pub index : ℕ
  pub term : ℕ
  pub channel : ℕ

-- A new channel, registered under the index.
unfoldable pub register : ℕ → ℕ → KvServer → KvServer × Wait
register index term kv = (
  record kv {
    channels = kv.channels ++ (none ∷ []);
    notify_chans = insert index (length kv.channels) kv.notify_chans;
  },
  record { index = index; term = term; channel = length kv.channels },
)

-- The submission to Raft. The channel is registered after `Start` has returned, under another lock:
-- the two parts are apart, and the applier may run between them.
pub data Submitted : Type 0 where
  refused : GetReply → Submitted
  accepted : (index term : ℕ) → Submitted

abbrev submitted : Option ℕ → ℕ → Bool → Submitted
submitted (some index) term true = accepted index term
submitted _ _ _ = refused (record { err = err_wrong_leader; value = "" })

unfoldable pub submit_op : Codec Op → Op → Raft Op → Raft Op × Submitted × List Task
submit_op codec op rf =
    let (rf', (index, term, is_leader), tasks) = start codec op rf in
    (rf', submitted index term is_leader, tasks)

-- the value in the channel, taken out
abbrev pub received : Option (Option NotifyCh) → Option NotifyCh
received none = none
received (some c) = c

-- The term that came with the result is compared with the term at the start.
unfoldable pub checked : ℕ → NotifyCh → GetReply
checked term result =
    if result.term == term
    then record { err = result.err; value = result.value }
    else record { err = err_wrong_leader; value = "" }

-- One look at the channel: nothing yet, or the answer; the index is then unregistered.
unfoldable pub receive : Wait → KvServer → Option (KvServer × GetReply)
unfolding checked
receive w kv = elim (received (get_elem? kv.channels w.channel)) [
  | none ↦ none
  | some result ↦ some (
    record kv {
      channels = set kv.channels w.channel none;
      notify_chans = delete w.index kv.notify_chans;
    },
    checked w.term result,
  )
]

-- After 500 ms.
unfoldable pub time_out : Wait → KvServer → KvServer × GetReply
time_out w kv = (
  record kv { notify_chans = delete w.index kv.notify_chans },
  record { err = err_timeout; value = "" },
)
