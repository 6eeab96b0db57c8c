-- ===== src/Models/Kv.antt =====
-- models/kv.go: the sequential model of one key.
use Prim.Native.String.{String, ◌++◌}
use mit.Prelude.{ℕ, Bool, true, ◌==◌, if◌then◌else◌, string_key}

-- `op`: 0 get, 1 put, 2 append, any other an append that returns the old value (a uint8).
pub record KvInput : Type 0 where
  pub op : ℕ
  pub key : String
  pub value : String

pub record KvOutput : Type 0 where
  pub value : String

abbrev pub init : String
init = ""

-- Is the output right, and what is the new value?
unfoldable pub step : String → KvInput → KvOutput → Bool × String
step st inp out =
    if inp.op == 0
    then (string_key.same out.value st, st)
    else if inp.op == 1
    then (true, inp.value)
    else if inp.op == 2
    then (true, st ++ inp.value)
    else (string_key.same out.value st, st ++ inp.value)

unfoldable pub describe_operation : KvInput → KvOutput → String
describe_operation inp out =
    if inp.op == 0
    then "get('" ++ (inp.key ++ ("') -> '" ++ (out.value ++ "'")))
    else if inp.op == 1
    then "put('" ++ (inp.key ++ ("', '" ++ (inp.value ++ "')")))
    else if inp.op == 2
    then "append('" ++ (inp.key ++ ("', '" ++ (inp.value ++ "')")))
    else "<invalid>"
