-- ===== src/KvSrv/Tests.antt =====
-- Tests of kvsrv: concrete requests, and the theorems about them.
use Prim.Native.String.{String}
use mit.Prelude.{ℕ, ◌≡◌, refl, true, false, List, [], ◌∷◌, ◌++◌, string_key}
use mit.Models.Kv.{step}
use mit.KvSrv.Server.{
  PutAppendArgs, KvServer, start_kv_server, append, Request, gets, puts, appends, handle, serve,
}
use mit.KvSrv.Server.Retry.{Others}
use mit.KvSrv.Server.Model.{value_at, IsNew, handle_refines_model}
use mit.KvSrv.Clerk.{append as append_op}
use mit.KvSrv.Clerk.Once.{Attempt, after_attempts, all_others, exactly_once}

abbrev args_of : String → ℕ → ℕ → PutAppendArgs
args_of value client_id request_id = record {
  key = "k";
  value = value;
  client_id = client_id;
  request_id = request_id;
}

-- The server after client 1 has put "a".
abbrev with_a : KvServer
with_a = (handle (puts (args_of "a" 1 1)) start_kv_server).0

abbrev of_client_2 : List Request
of_client_2 =
    appends (args_of "c" 2 1) ∷ gets (record { key = "k"; client_id = 2; request_id = 2 }) ∷ []

append_test : (append (args_of "b" 1 2) with_a).1 ≡ "a"
unfolding append handle
append_test = refl

not_client_1 : Others 1 of_client_2
not_client_1 = ((λ e. cc), ((λ e. cc), tt))

IsNew-test : IsNew (appends (args_of "b" 1 2)) with_a
unfolding handle
IsNew-test = refl

handle_refines_model_example :
    (step
        (value_at with_a "k")
        (record { op = 3; key = "k"; value = "b" })
        (record { value = (handle (appends (args_of "b" 1 2)) with_a).1 })
      ≡ (true, value_at (handle (appends (args_of "b" 1 2)) with_a).0 "k"))
    × ((j : String)
        → string_key.same "k" j ≡ false
        → value_at (handle (appends (args_of "b" 1 2)) with_a).0 j ≡ value_at with_a j)
handle_refines_model_example = handle_refines_model (appends (args_of "b" 1 2)) with_a IsNew-test

-- A call that is lost on its way, and one whose answer is lost, with client 2 in between.
abbrev attempts : List Attempt
attempts =
    record { executed = false; others = [] } ∷ record { executed = true; others = of_client_2 } ∷ []

exactly_once_example :
    (before after : List Request) × (before ++ after ≡ all_others attempts)
    × (handle
          (appends (args_of "b" 1 2))
          (after_attempts (appends (args_of "b" 1 2)) attempts with_a)
        ≡ (
          serve (before ++ (appends (args_of "b" 1 2) ∷ after)) with_a,
          (handle (appends (args_of "b" 1 2)) (serve before with_a)).1,
        ))
exactly_once_example =
    exactly_once append_op (args_of "b" 1 2) attempts with_a (tt, (not_client_1, tt))
