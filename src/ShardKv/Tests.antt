-- ===== src/ShardKv/Tests.antt =====
-- Tests of the clerk of the sharded store: two rounds of a `Get`.
use mit.Prelude.{
  Option, none, get_or, get_elem?, ℕ, ◌≡◌, refl, some, List, [], ◌∷◌, empty_map, insert, nat_key,
  replicate,
}
use mit.ShardCtrler.Clerk.{Config}
use mit.ShardKv.Clerk.{
  key2shard, ok, err_wrong_group, err_wrong_leader, GetReply, Round, rounds, one_round, try_servers,
  clerk_get,
}
use mit.ShardKv.Owner.{Served, Got, GetLeft, GetFailed, clerk_get_owner}

key2shard_test : key2shard "a" ≡ 7
unfolding key2shard
key2shard_test = refl

-- All shards belong to one group, of two servers.
abbrev config_of : ℕ → ℕ → Config
config_of num gid = record {
  num = num;
  shards = replicate 10 gid;
  groups = insert 100 ("x" ∷ "y" ∷ []) (insert 200 ("z" ∷ []) empty_map);
}

abbrev by_index : List (Option GetReply) → ℕ → Option GetReply
by_index os si = get_or (get_elem? os si) none

-- The first group has lost the shard; the second one answers.
abbrev get_rounds : List (Round GetReply)
get_rounds =
    record {
      config = config_of 1 100;
      outcomes = by_index (
          some (record { err = err_wrong_leader; value = "" })
          ∷ some (record { err = err_wrong_group; value = "" })
          ∷ []);
    }
    ∷ record {
      config = config_of 2 200;
      outcomes = by_index (some (record { err = ok; value = "v" }) ∷ []);
    }
    ∷ []

get_test : (clerk_get "a" get_rounds).0 ≡ some "v"
unfolding rounds one_round try_servers key2shard
get_test = refl

clerk_get_owner_example :
    let (w, blocks) = clerk_get "a" get_rounds in
    Served "a" Got GetLeft GetFailed (key2shard "a") get_rounds w blocks
clerk_get_owner_example = clerk_get_owner "a" get_rounds
