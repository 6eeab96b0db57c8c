-- ===== src/ShardKv/Clerk.antt =====
-- shardkv/client.go and common.go. The outcome of a call is `none` where `Call` returns false; each
-- round after the first starts with the configuration that `Query(-1)` returned.
use Prim.Native.Char.{Char, code}
use Prim.Native.String.{String, [] as empty, ◌∷◌ as char_cons}
use mit.Prelude.{
  suc, ℕ, ◌+◌, ◌/◌, ◌%◌, ltb, Option, none, some, List, [], ◌∷◌, if◌then◌else◌, get_elem?,
}
use mit.ShardCtrler.Clerk.{n_shards, Config}

-- The first byte of a character in UTF-8.
unfoldable pub lead_byte : Char → ℕ
lead_byte c =
    if ltb (code c) 128
    then code c
    else if ltb (code c) 2048
    then 192 + code c / 64
    else if ltb (code c) 65536
    then 224 + code c / 4096
    else 240 + code c / 262144

unfoldable pub key2shard : String → ℕ
unfolding lead_byte
key2shard empty = 0 % n_shards
key2shard (char_cons c s) = lead_byte c % n_shards

pub data Err : Type 0 where
  ok err_no_key err_wrong_group err_wrong_leader : Err

pub record GetReply : Type 0 where
  pub err : Err
  pub value : String

-- The `op` is "Put" or "Append".
pub record PutAppendArgs : Type 0 where
  pub key : String
  pub value : String
  pub op : String

-- What the loop over the servers does after a call.
pub data Verdict : Type 0 where
  returns : String → Verdict
  leaves : Verdict
  goes_on : Verdict

abbrev pub get_verdict : Option GetReply → Verdict
get_verdict none = goes_on
get_verdict (some r) = by_err r.err r.value
  where
    by_err : Err → String → Verdict
    by_err ok v = returns v
    by_err err_no_key v = returns v
    by_err err_wrong_group v = leaves
    by_err err_wrong_leader v = goes_on

abbrev pub put_verdict : Option Err → Verdict
put_verdict (some ok) = returns ""
put_verdict (some err_wrong_group) = leaves
put_verdict _ = goes_on

pub record Call (Args Reply : Type 0) : Type 0 where
  pub server : String
  pub args : Args
  pub reply : Option Reply

-- One configuration, and the outcome that a call to the server with index `si` has under it.
pub record Round (Reply : Type 0) : Type 0 where
  pub config : Config
  pub outcomes : ℕ → Option Reply

module _ {Args Reply : Type 0} (verdict : Option Reply → Verdict) (args : Args) where
  -- the value to return, if there is one, and the calls
  abbrev Result : Type 0
  Result = Option String × List (Call Args Reply)

  abbrev pub call_to : String → Option Reply → Call Args Reply
  call_to server reply = record { server = server; args = args; reply = reply }

  -- `for si := 0; si < len(servers); si++`, from `si` on
  unfoldable pub try_servers : ℕ → List String → (ℕ → Option Reply) → Result
  try_servers si [] outcomes = (none, [])
  try_servers si (s ∷ ss) outcomes =
      let (v, cs) = try_servers (suc si) ss outcomes in
      elim (verdict (outcomes si)) [
        | returns v ↦ (some v, call_to s (outcomes si) ∷ [])
        | leaves ↦ (none, call_to s (outcomes si) ∷ [])
        | goes_on ↦ (v, call_to s (outcomes si) ∷ cs)
      ]

  -- The servers of the group that the configuration gives the shard to. A shard past the array would
  -- be a panic: here it has no group.
  abbrev pub servers_of : Config → Option ℕ → Option (List String)
  servers_of config none = none
  servers_of config (some gid) = config.groups gid

  abbrev try_group : Option (List String) → (ℕ → Option Reply) → Result
  try_group none outcomes = (none, [])
  try_group (some servers) outcomes = try_servers 0 servers outcomes

  unfoldable pub one_round : ℕ → Round Reply → Result
  unfolding try_servers
  one_round shard r = try_group (servers_of r.config (get_elem? r.config.shards shard)) r.outcomes

  -- The loop: the value, and the calls of each round.
  abbrev pub and_then :
      Result
      → Option String × List (List (Call Args Reply))
      → Option String × List (List (Call Args Reply))
  and_then (some v, cs) later = (some v, cs ∷ [])
  and_then (none, cs) (w, blocks) = (w, cs ∷ blocks)

  unfoldable pub rounds : ℕ → List (Round Reply) → Option String × List (List (Call Args Reply))
  unfolding one_round
  rounds shard [] = (none, [])
  rounds shard (r ∷ rs) = and_then (one_round shard r) (rounds shard rs)

abbrev pub clerk_get :
    String → List (Round GetReply) → Option String × List (List (Call String GetReply))
clerk_get key rs = rounds get_verdict key (key2shard key) rs

abbrev pub clerk_put_append :
    String
    → String
    → String
    → List (Round Err)
    → Option String × List (List (Call PutAppendArgs Err))
clerk_put_append key value op rs =
    rounds put_verdict (record { key = key; value = value; op = op }) (key2shard key) rs

abbrev pub clerk_put :
    String → String → List (Round Err) → Option String × List (List (Call PutAppendArgs Err))
clerk_put key value rs = clerk_put_append key value "Put" rs

abbrev pub clerk_append :
    String → String → List (Round Err) → Option String × List (List (Call PutAppendArgs Err))
clerk_append key value rs = clerk_put_append key value "Append" rs
