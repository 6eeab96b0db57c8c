-- ===== src/ShardCtrler/Clerk.antt =====
-- shardctrler/client.go and common.go. The outcomes of the calls of one operation are a list, `none`
-- where `Call` returns false. The error field of the replies, which the clerk does not read, is left out.
use Prim.Native.String.{String}
use mit.Prelude.{
  ℕ, zero, suc, ◌+◌, ◌==◌, Bool, true, false, Option, none, some, List, [], ◌∷◌, if◌then◌else◌, Map,
}

abbrev pub n_shards : ℕ
n_shards = 10

-- `shards` is an array of `n_shards` group numbers.
pub record Config : Type 0 where
  pub num : ℕ
  pub shards : List ℕ
  pub groups : Map ℕ (List String)

-- The number of the wanted configuration: `none` for -1, the latest.
pub record QueryArgs : Type 0 where
  pub num : Option ℕ

pub record JoinArgs : Type 0 where
  pub servers : Map ℕ (List String)

pub record LeaveArgs : Type 0 where
  pub gids : List ℕ

pub record MoveArgs : Type 0 where
  pub shard : ℕ
  pub gid : ℕ

-- A reply with what it carries: a configuration for `Query`, nothing for the others.
pub record Reply (A : Type 0) : Type 0 where
  pub wrong_leader : Bool
  pub content : A

pub record Call (Args : Type 0) : Type 0 where
  pub server : ℕ
  pub args : Args

abbrev called :
    {A Args : Type 0} → Call Args → Option A × List (Call Args) → Option A × List (Call Args)
called c (a, cs) = (a, c ∷ cs)

-- The end of `for _, srv := range ck.servers` and its next round.
abbrev pub next_server : ℕ → ℕ → ℕ
next_server servers i = if i + 1 == servers then 0 else i + 1

-- The loops of the four operations, from server `i` of a group that is not empty on.
unfoldable pub ask :
    {A Args : Type 0} → ℕ → Args → ℕ → List (Option (Reply A)) → Option A × List (Call Args)
ask servers args i [] = (none, [])
ask servers args i (none ∷ rs) =
    called (record { server = i; args = args }) (ask servers args (next_server servers i) rs)
ask servers args i (some r ∷ rs) = elim r.wrong_leader [
  | false ↦ (some r.content, record { server = i; args = args } ∷ [])
  | true ↦ called (record { server = i; args = args }) (ask servers args (next_server servers i) rs)
]

-- Without servers the loop makes no call and does not end.
unfoldable pub operate :
    {A Args : Type 0} → ℕ → Args → List (Option (Reply A)) → Option A × List (Call Args)
unfolding ask
operate zero args rs = (none, [])
operate (suc n) args rs = ask (suc n) args 0 rs

abbrev pub query :
    ℕ → Option ℕ → List (Option (Reply Config)) → Option Config × List (Call QueryArgs)
query servers num rs = operate servers (record { num = num }) rs

abbrev pub join :
    ℕ
    → Map ℕ (List String)
    → List (Option (Reply (Unit {0})))
    → Option (Unit {0}) × List (Call JoinArgs)
join servers groups rs = operate servers (record { servers = groups }) rs

abbrev pub leave :
    ℕ → List ℕ → List (Option (Reply (Unit {0}))) → Option (Unit {0}) × List (Call LeaveArgs)
leave servers gids rs = operate servers (record { gids = gids }) rs

abbrev pub move :
    ℕ → ℕ → ℕ → List (Option (Reply (Unit {0}))) → Option (Unit {0}) × List (Call MoveArgs)
move servers shard gid rs = operate servers (record { shard = shard; gid = gid }) rs
