-- ===== src/KvSrv/Server/Model.antt =====
-- kvsrv/server.go against models/kv.go: requests that are not repeated.
use Prim.Native.String.{String}
use text.Mathlib.TextPositions.{eq_refl}
use mit.Prelude.{◌≡◌, refl, true, false, none, arith, get_or, string_key}
use mit.Models.Kv.{KvInput, step}
use mit.KvSrv.Server.{KvServer, repeated, Request, gets, puts, appends, handle}

-- The key and the input of the model for a request. An append returns the old value: operation 3.
abbrev pub key : Request → String
key (gets args) = args.key
key (puts args) = args.key
key (appends args) = args.key

abbrev pub input : Request → KvInput
input (gets args) = record { op = 0; key = args.key; value = "" }
input (puts args) = record { op = 1; key = args.key; value = args.value }
input (appends args) = record { op = 3; key = args.key; value = args.value }

abbrev pub IsNew : Request → KvServer → Type 0
IsNew (gets args) kv = Unit
IsNew (puts args) kv = repeated (kv.last_request args.client_id) args.request_id ≡ none
IsNew (appends args) kv = repeated (kv.last_request args.client_id) args.request_id ≡ none

-- the value of a key, as the model has it
abbrev pub value_at : KvServer → String → String
value_at kv k = get_or (kv.store k) ""

-- A new request is a step of the model at its key, with the response as its output, and leaves the
-- other keys alone.
pub handle_refines_model :
    (r : Request) (kv : KvServer)
    → IsNew r kv
    → (step (value_at kv (key r)) (input r) (record { value = (handle r kv).1 })
        ≡ (true, value_at (handle r kv).0 (key r)))
      × ((j : String)
          → string_key.same (key r) j ≡ false
          → value_at (handle r kv).0 j ≡ value_at kv j)
unfolding step handle
handle_refines_model (gets args) kv new =
    (ground (arith, eq_refl (value_at kv args.key)), λ j ne. refl)
handle_refines_model (puts args) kv new = (ground (arith, eq_refl args.key), λ j ne. ground arith)
handle_refines_model (appends args) kv new =
    (ground (arith, eq_refl args.key, eq_refl (value_at kv args.key)), λ j ne. ground arith)
