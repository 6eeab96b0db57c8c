-- ===== src/KvRaft/Server/Model.antt =====
-- kvraft/server.go against models/kv.go: the execution of an operation.
use Prim.Native.String.{String}
use text.Mathlib.TextPositions.{eq_refl}
use mit.Prelude.{ℕ, ◌≡◌, ◌⊎◌, refl, true, false, Option, none, some, arith, get_or, string_key, Map}
use mit.Models.Kv.{step}
use mit.KvRaft.Types.{OpType, get, put, append, other, Op, err_no_key, ok}
use mit.KvRaft.Server.{execute_operation}

-- The number of the operation in the model: 0 get, 1 put, 2 append.
abbrev pub number : OpType → Option ℕ
number get = some 0
number put = some 1
number append = some 2
number (other _) = none

-- The operation, as its type is known, agrees with the model.
as_model :
    (t : OpType) (op : Op) (n : ℕ) (m : Map String String)
    → op.op_type ≡ t
    → number t ≡ some n
    → let (m', err, value) = execute_operation op m in
      (step
          (get_or (m op.key) "")
          (record { op = n; key = op.key; value = op.value })
          (record { value = value })
        ≡ (true, get_or (m' op.key) ""))
      × ((j : String) → string_key.same op.key j ≡ false → m' j ≡ m j)
      × ((err ≡ ok) ⊎ ((err ≡ err_no_key) × (op.op_type ≡ get) × (m op.key ≡ none)))
unfolding step execute_operation
as_model get op n m e h =
    (ground (arith, eq_refl (get_or (m op.key) "")), λ j ne. ground arith, ground arith)
as_model put op n m e h = (ground (arith, eq_refl op.key), λ j ne. ground arith, ground arith)
as_model append op n m e h = (ground (arith, eq_refl op.key), λ j ne. ground arith, ground arith)
as_model (other s) op n m e h = cc

-- Executing a get, a put or an append is a step of the model at the operation's key, with the value
-- as its output, and leaves the other keys alone. The error is OK, but for a get of a missing key.
pub execute_refines_model :
    (op : Op) (n : ℕ) (m : Map String String)
    → number op.op_type ≡ some n
    → let (m', err, value) = execute_operation op m in
      (step
          (get_or (m op.key) "")
          (record { op = n; key = op.key; value = op.value })
          (record { value = value })
        ≡ (true, get_or (m' op.key) ""))
      × ((j : String) → string_key.same op.key j ≡ false → m' j ≡ m j)
      × ((err ≡ ok) ⊎ ((err ≡ err_no_key) × (op.op_type ≡ get) × (m op.key ≡ none)))
unfolding step execute_operation
execute_refines_model op n m h = as_model op.op_type op n m refl h
