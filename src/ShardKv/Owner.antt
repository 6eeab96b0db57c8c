-- ===== src/ShardKv/Owner.antt =====
-- shardkv/client.go: the shard of a key, and the servers that the clerk asks.
use Prim.Native.String.{String, [] as empty, ◌∷◌ as char_cons}
use native.Mathlib.Nat.{mod-lt}
use mit.Prelude.{
  ℕ, suc, ap, ◌<◌, ◌≡◌, refl, ◌⊎◌, inl, inr, Option, none, some, List, [], ◌∷◌, ◌++◌, arith,
  get_elem?, Option-cases,
}
use mit.ShardCtrler.Clerk.{n_shards, Config}
use mit.ShardKv.Clerk.{
  ok, err_no_key, err_wrong_group, err_wrong_leader, key2shard, lead_byte, Verdict, returns, leaves,
  goes_on, get_verdict, Call, Round, try_servers, one_round, and_then, rounds, GetReply, Err,
  PutAppendArgs, put_verdict, clerk_get, clerk_put_append,
}

-- The shard of a key is one of the shards.
pub key2shard-lt : (key : String) → key2shard key < n_shards
unfolding key2shard
key2shard-lt empty = omega arith
key2shard-lt (char_cons c s) = mod-lt (lead_byte c) (omega arith)

module _ {A : Type 0} where
  abbrev pub All : (A → Type 0) → List A → Type 0
  All P [] = Unit
  All P (x ∷ xs) = P x × All P xs

-- The configuration gives the shard to the group of these servers.
abbrev pub Given : ℕ → Config → List String → Type 0
Given shard config servers =
    (gid : ℕ) × (get_elem? config.shards shard ≡ some gid) × (config.groups gid ≡ some servers)

-- The configuration names no servers for the shard.
abbrev pub Unowned : ℕ → Config → Type 0
Unowned shard config =
    (get_elem? config.shards shard ≡ none)
    ⊎ ((gid : ℕ) × (get_elem? config.shards shard ≡ some gid) × (config.groups gid ≡ none))

module _ {Args Reply : Type 0} where
  -- One call to each of the servers, in their order, with the arguments and the outcomes from `si` on.
  abbrev pub calls : Args → (ℕ → Option Reply) → ℕ → List String → List (Call Args Reply)
  calls args outcomes si [] = []
  calls args outcomes si (s ∷ ss) =
      record { server = s; args = args; reply = outcomes si } ∷ calls args outcomes (suc si) ss

module _ {Args Reply : Type 0} (args : Args) (Final : String → Option Reply → Type 0)
    (WrongGroup Failed : Option Reply → Type 0) where
  -- A round that could make these calls has made those, and has returned the value or nothing: it has
  -- made all of them if all failed, or stopped after the first with another outcome.
  pub data Tried (all : List (Call Args Reply))
      : Option String → List (Call Args Reply) → Type 0 where
    failed : All (λ c. Failed c.reply) all → Tried all none all
    left :
        (before : List (Call Args Reply)) (c : Call Args Reply) (rest : List (Call Args Reply))
        → before ++ (c ∷ rest) ≡ all
        → All (λ d. Failed d.reply) before
        → WrongGroup c.reply
        → Tried all none (before ++ (c ∷ []))
    answered :
        (v : String) (before : List (Call Args Reply)) (c : Call Args Reply)
        (rest : List (Call Args Reply))
        → before ++ (c ∷ rest) ≡ all
        → All (λ d. Failed d.reply) before
        → Final v c.reply
        → Tried all (some v) (before ++ (c ∷ []))

  -- The value and the calls of every round, each round with its own configuration.
  pub data Served (shard : ℕ)
      : List (Round Reply) → Option String → List (List (Call Args Reply)) → Type 0 where
    over : Served shard [] none []
    no_group :
        {r : Round Reply} {rs : List (Round Reply)} {w : Option String}
        {blocks : List (List (Call Args Reply))}
        → Unowned shard r.config
        → Served shard rs w blocks
        → Served shard (r ∷ rs) w ([] ∷ blocks)
    next :
        {r : Round Reply} {rs : List (Round Reply)} {w : Option String}
        {block : List (Call Args Reply)} {blocks : List (List (Call Args Reply))}
        (servers : List String)
        → Given shard r.config servers
        → Tried (calls args r.outcomes 0 servers) none block
        → Served shard rs w blocks
        → Served shard (r ∷ rs) w (block ∷ blocks)
    done :
        {r : Round Reply} {rs : List (Round Reply)} {v : String} {block : List (Call Args Reply)}
        (servers : List String)
        → Given shard r.config servers
        → Tried (calls args r.outcomes 0 servers) (some v) block
        → Served shard (r ∷ rs) (some v) (block ∷ [])

  module _ (verdict : Option Reply → Verdict)
      (judge : (o : Option Reply)
        → ((v : String) × (verdict o ≡ returns v) × Final v o)
          ⊎ ((verdict o ≡ leaves) × WrongGroup o)
          ⊎ ((verdict o ≡ goes_on) × Failed o)) where
    Tried-later :
        {all cs : List (Call Args Reply)} {w : Option String} (c : Call Args Reply)
        → Failed c.reply
        → Tried all w cs
        → Tried (c ∷ all) w (c ∷ cs)
    Tried-later c f (failed fs) = failed (f, fs)
    Tried-later c f (left before d rest e fs g) =
        left (c ∷ before) d rest (ap (λ l. c ∷ l) e) (f, fs) g
    Tried-later c f (answered v before d rest e fs g) =
        answered v (c ∷ before) d rest (ap (λ l. c ∷ l) e) (f, fs) g

    try_servers-Tried :
        (si : ℕ) (ss : List String) (outcomes : ℕ → Option Reply)
        → let (w, cs) = try_servers verdict args si ss outcomes in
          Tried (calls args outcomes si ss) w cs
    unfolding try_servers
    try_servers-Tried si [] outcomes = failed tt
    try_servers-Tried si (s ∷ ss) outcomes = elim (judge (outcomes si)) [
      | inl (v, e, f) ↦ rw (try_servers, e) (answered v [] _ _ refl tt f)
      | inr (inl (e, f)) ↦ rw (try_servers, e) (left [] _ _ refl tt f)
      | inr (inr (e, f)) ↦
          rw (try_servers, e) (Tried-later _ f (try_servers-Tried (suc si) ss outcomes))
    ]

    group_round :
        (shard : ℕ) (r : Round Reply) (rs : List (Round Reply)) (servers : List String)
        (w : Option String) (cs : List (Call Args Reply))
        (later : Option String × List (List (Call Args Reply)))
        → Given shard r.config servers
        → Tried (calls args r.outcomes 0 servers) w cs
        → Served shard rs later.0 later.1
        → let (v, blocks) = and_then verdict args (w, cs) later in Served shard (r ∷ rs) v blocks
    group_round shard r rs servers none cs later g t s = next servers g t s
    group_round shard r rs servers (some v) cs later g t s = done servers g t

    rounds-Served :
        (shard : ℕ) (rs : List (Round Reply))
        → let (w, blocks) = rounds verdict args shard rs in Served shard rs w blocks
    unfolding rounds one_round
    rounds-Served shard [] = over
    rounds-Served shard (r ∷ rs) = elim (Option-cases (get_elem? r.config.shards shard)) [
      | inl e ↦ rw (rounds, one_round, e) (no_group (inl e) (rounds-Served shard rs))
      | inr (gid, e) ↦ elim (Option-cases (r.config.groups gid)) [
        | inl f ↦ rw (rounds, one_round, e, f) (no_group (inr (gid, e, f)) (rounds-Served shard rs))
        | inr (servers, f) ↦
            rw (rounds, one_round, e, f)
              (group_round shard r rs servers (try_servers verdict args 0 servers r.outcomes).0
                (try_servers verdict args 0 servers r.outcomes).1 (rounds verdict args shard rs)
                (gid, e, f) (try_servers-Tried 0 servers r.outcomes) (rounds-Served shard rs))
      ]
    ]

-- What ends a `Get`: a reply with OK or with a missing key, and this value.
abbrev pub Got : String → Option GetReply → Type 0
Got v o =
    (reply : GetReply) × (o ≡ some reply)
    × ((reply.err ≡ ok) ⊎ (reply.err ≡ err_no_key))
    × (reply.value ≡ v)

abbrev pub GetLeft : Option GetReply → Type 0
GetLeft o = (reply : GetReply) × (o ≡ some reply) × (reply.err ≡ err_wrong_group)

abbrev pub GetFailed : Option GetReply → Type 0
GetFailed o = (o ≡ none) ⊎ ((reply : GetReply) × (o ≡ some reply) × (reply.err ≡ err_wrong_leader))

judge_reply :
    (e : Err) (v : String)
    → let o : Option GetReply = some (record { err = e; value = v }) in
      ((u : String) × (get_verdict o ≡ returns u) × Got u o)
      ⊎ ((get_verdict o ≡ leaves) × GetLeft o)
      ⊎ ((get_verdict o ≡ goes_on) × GetFailed o)
judge_reply ok v = inl (v, refl, (_, refl, inl refl, refl))
judge_reply err_no_key v = inl (v, refl, (_, refl, inr refl, refl))
judge_reply err_wrong_group v = inr (inl (refl, (_, refl, refl)))
judge_reply err_wrong_leader v = inr (inr (refl, inr (_, refl, refl)))

judge_get :
    (o : Option GetReply)
    → ((v : String) × (get_verdict o ≡ returns v) × Got v o)
      ⊎ ((get_verdict o ≡ leaves) × GetLeft o)
      ⊎ ((get_verdict o ≡ goes_on) × GetFailed o)
judge_get none = inr (inr (refl, inl refl))
judge_get (some r) = judge_reply r.err r.value

-- In each of its rounds the clerk's `Get` calls, one after the other and for the given key, the servers
-- of the group to which that round's own configuration gives the shard of the key, and none if there is
-- no such group. It goes on to the next server after a call without an answer or with a wrong leader,
-- and to the next round after a wrong group or when no server is left. It returns at the first answer
-- with OK or with a missing key, and what it returns is the value of that answer.
pub clerk_get_owner :
    (key : String) (rs : List (Round GetReply))
    → let (w, blocks) = clerk_get key rs in
      Served key Got GetLeft GetFailed (key2shard key) rs w blocks
clerk_get_owner key rs =
    rounds-Served key Got GetLeft GetFailed get_verdict judge_get (key2shard key) rs

-- What ends a `PutAppend`: a reply with OK.
abbrev pub Stored : String → Option Err → Type 0
Stored v o = (o ≡ some ok) × (v ≡ "")

abbrev pub PutLeft : Option Err → Type 0
PutLeft o = o ≡ some err_wrong_group

abbrev pub PutFailed : Option Err → Type 0
PutFailed o = (o ≡ none) ⊎ (o ≡ some err_no_key) ⊎ (o ≡ some err_wrong_leader)

judge_put :
    (o : Option Err)
    → ((v : String) × (put_verdict o ≡ returns v) × Stored v o)
      ⊎ ((put_verdict o ≡ leaves) × PutLeft o)
      ⊎ ((put_verdict o ≡ goes_on) × PutFailed o)
judge_put none = inr (inr (refl, inl refl))
judge_put (some ok) = inl ("", refl, (refl, refl))
judge_put (some err_no_key) = inr (inr (refl, inr (inl refl)))
judge_put (some err_wrong_group) = inr (inl (refl, refl))
judge_put (some err_wrong_leader) = inr (inr (refl, inr (inr refl)))

-- The clerk's `PutAppend` calls the servers in the same way, always with the same arguments, and returns
-- at the first OK.
pub clerk_put_append_owner :
    (key value op : String) (rs : List (Round Err))
    → let (w, blocks) = clerk_put_append key value op rs in
      let args : PutAppendArgs = record { key = key; value = value; op = op } in
      Served args Stored PutLeft PutFailed (key2shard key) rs w blocks
clerk_put_append_owner key value op rs =
    rounds-Served (record { key = key; value = value; op = op }) Stored PutLeft PutFailed
      put_verdict judge_put (key2shard key) rs
