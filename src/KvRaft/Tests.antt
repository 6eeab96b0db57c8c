-- ===== src/KvRaft/Tests.antt =====
-- Tests of kvraft: concrete operations, and the theorems about them.
mod Config
use Prim.Native.String.{String}
use mit.Prelude.{
  inl, ℕ, ◌≡◌, ◌⊎◌, refl, true, false, none, some, List, [], ◌∷◌, string_key, map, Map, empty_map,
  get_or, arith,
}
use mit.Models.Kv.{step}
use mit.Raft.Types.{Raft, LogEntry, follower, sentinel}
use mit.Raft.Commit.{apply_msg}
use mit.Raft.Commit.Race.{Appliers, Moves, both_idle}
use mit.KvRaft.Types.{
  ok, err_no_key, err_wrong_leader, err_timeout, OpType, get, put, append, GetArgs, GetReply, Op,
  KvServer,
}
use mit.KvRaft.Server.{
  new_server, execute_operation, apply_op, notify, apply_command, applier_step, applier,
}
use mit.KvRaft.Server.Sessions.{delivery}
use mit.KvRaft.Server.Replicas.{
  SameMachine, command, SameCommands, over, both, passed, repeated, replicas_agree,
}
use mit.KvRaft.Server.Model.{execute_refines_model}
use mit.KvRaft.Server.Lost.{in_term, committed_command_lost}
use mit.KvRaft.Rpc.{register, receive, checked, time_out, get_begin, answer}
use mit.KvRaft.Rpc.Timeout.{get_op, applied_late, get_after_timeout, missing_key_again}
use mit.KvRaft.Rpc.Wakeup.{HandlerGets, StoreAfter, registered_gets_result}
use mit.KvRaft.Clerk.{Clerk, clerk_get}
use mit.KvRaft.Clerk.Rounds.{Answered, clerk_get-Answered}

abbrev op_of : OpType → String → ℕ → Op
op_of op_type value seq_num = record {
  op_type = op_type;
  key = "k";
  value = value;
  client_id = 9;
  seq_num = seq_num;
}

abbrev server : KvServer
server = new_server 0 none

-- A put, an append, and the append again.
abbrev ops : List Op
ops = op_of put "a" 1 ∷ op_of append "b" 2 ∷ op_of append "b" 2 ∷ []

store_test : (applier (delivery (λ i. 1) 1 ops) server).kv_store "k" ≡ some "ab"
unfolding applier delivery applier_step apply_command notify apply_op execute_operation
store_test = refl

-- Two replicas in different terms; in one of them a handler waits for index 1, and it gets the command
-- again at its index, and the client's second request at a new one.
abbrev waiting : KvServer
waiting = (register 1 4 (new_server 1 (some 1000))).0

same_machine : SameMachine server waiting
unfolding register
same_machine = record { store = refl; last_applied = refl; last_result = refl }

same_commands : SameCommands server waiting ((4, command 1 (op_of put "a" 1)) ∷ []) (
    (5, command 1 (op_of put "a" 1))
    ∷ (5, command 1 (op_of put "a" 1))
    ∷ (5, command 2 (op_of put "a" 1))
    ∷ [])
unfolding register applier_step apply_command notify apply_op
same_commands = both 4 5 1 1 (op_of put "a" 1) (omega arith) (omega arith) (
    passed 5 1 (op_of put "a" 1) (omega arith)
      (repeated 5 2 1 (op_of put "a" 1) refl (omega arith) over))

replicas_agree_example : SameMachine (applier ((4, command 1 (op_of put "a" 1)) ∷ []) server) (
    applier
      ((5, command 1 (op_of put "a" 1))
        ∷ (5, command 1 (op_of put "a" 1))
        ∷ (5, command 2 (op_of put "a" 1))
        ∷ [])
      waiting)
replicas_agree_example = replicas_agree server waiting same_machine same_commands

abbrev no_keys : Map String String
no_keys = empty_map

execute_refines_model_example :
    (step ""
        (record { op = 2; key = "k"; value = "b" })
        (record { value = (execute_operation (op_of append "b" 1) no_keys).2 })
      ≡ (true, get_or ((execute_operation (op_of append "b" 1) no_keys).0 "k") ""))
    × ((j : String)
        → string_key.same "k" j ≡ false
        → (execute_operation (op_of append "b" 1) no_keys).0 j ≡ no_keys j)
    × (((execute_operation (op_of append "b" 1) no_keys).1 ≡ ok)
        ⊎ (((execute_operation (op_of append "b" 1) no_keys).1 ≡ err_no_key)
            × (append ≡ get)
            × (no_keys "k" ≡ none)))
execute_refines_model_example = execute_refines_model (op_of append "b" 1) 2 no_keys refl

-- A peer that has two commands to apply.
abbrev committed_peer : Raft Op
committed_peer = record {
  peers = 3;
  persister = record { raftstate = []; snapshot = [] };
  me = 0;
  dead = false;
  current_term = 1;
  voted_for = none;
  log =
      sentinel
      ∷ record { term = 1; command = some (op_of put "a" 1) }
      ∷ record { term = 1; command = some (op_of append "b" 2) }
      ∷ [];
  commit_index = 2;
  last_applied = 0;
  next_index = [];
  match_index = [];
  state = follower;
  apply_ch = [];
  last_election_reset = 0;
  election_timeout = 0;
}

abbrev entry_of : Op → LogEntry Op
entry_of op = record { term = 1; command = some op }

committed_command_lost_example :
    (s : Appliers Op) × Moves (both_idle committed_peer) s
    × (s.held_a ≡ none)
    × (s.held_b ≡ none)
    × ((term : ℕ) (kv : KvServer)
        → kv.last_applied_index ≡ 0
        → applier (in_term term s.raft.apply_ch) kv
          ≡ applier (in_term term (apply_msg (entry_of (op_of append "b" 2)) 2 ∷ [])) kv)
committed_command_lost_example =
    committed_command_lost committed_peer (entry_of (op_of put "a" 1))
      (entry_of (op_of append "b" 2)) refl refl refl (omega arith)

-- Server 2 does not answer, server 0 is no leader, server 1 answers.
abbrev clerk : Clerk
clerk = record { servers = 3; client_id = 9; seq_num = 4; last_leader = 2 }

clerk_get-Answered_example :
    Answered
      (record { key = "k"; client_id = 9; seq_num = 5 })
      (record clerk { seq_num = 5 })
      2
      2
      "a"
      (clerk_get "k" clerk (
        none
        ∷ some (record { err = err_wrong_leader; value = "" })
        ∷ some (record { err = ok; value = "a" })
        ∷ []))
clerk_get-Answered_example =
    clerk_get-Answered "k" clerk (none ∷ some (record { err = err_wrong_leader; value = "" }) ∷ [])
      [] (record { err = ok; value = "a" }) "a" (omega arith) (tt, (inl refl, tt))
      (inl (refl, refl))

-- A handler waits for an append at index 1, submitted in term 4 and applied in term 4.
registered_gets_result_example :
    (kv : KvServer) × (reply : GetReply) × (receive (register 1 4 server).1 (
        applier_step 4
          (apply_msg (record { term = 4; command = some (op_of append "b" 1) }) 1)
          (register 1 4 server).0)
      ≡ some (kv, reply))
    × (kv.notify_chans 1 ≡ none)
    × HandlerGets 4 4 (op_of append "b" 1) server reply
    × StoreAfter (op_of append "b" 1) server kv.kv_store
registered_gets_result_example =
    registered_gets_result 1 4 4 (op_of append "b" 1) server (omega arith)

-- The store has a value for the key, and the client has sent one request so far.
abbrev used : KvServer
used = (applier (delivery (λ i. 1) 1 (op_of put "a" 1 ∷ [])) server)

abbrev wanted : GetArgs
wanted = record { key = "k"; client_id = 9; seq_num = 2 }

get_after_timeout_example :
    ((time_out (register 2 4 used).1 (register 2 4 used).0).1.err ≡ err_timeout)
    × ((applied_late 2 4 5 (get_op wanted) used).channels ≡ (register 2 4 used).0.channels)
    × (get_begin wanted (applied_late 2 4 5 (get_op wanted) used)
        ≡ answer (record { err = ok; value = (execute_operation (get_op wanted) used.kv_store).2 }))
unfolding applier delivery applier_step apply_command notify apply_op execute_operation
get_after_timeout_example = get_after_timeout 2 4 5 wanted used (omega arith) refl
