-- ===== src/ShardCtrler/Tests.antt =====
-- Tests of the clerk of the shard controller.
use mit.Prelude.{refl, true, false, none, some, [], ◌∷◌, empty_map, arith}
use mit.ShardCtrler.Clerk.{Config, QueryArgs, query}
use mit.ShardCtrler.Rounds.{Answered, operate-Answered}

abbrev config : Config
config = record { num = 3; shards = []; groups = empty_map }

abbrev query_args : QueryArgs
query_args = record { num = none }

-- Server 0 does not answer, server 1 does not lead, server 0 answers.
operate-Answered_example : Answered 2 query_args 0 2 config (
    query 2 none (
      none
      ∷ some (record { wrong_leader = true; content = config })
      ∷ some (record { wrong_leader = false; content = config })
      ∷ []))
operate-Answered_example =
    operate-Answered 2 query_args
      (none ∷ some (record { wrong_leader = true; content = config }) ∷ []) []
      (record { wrong_leader = false; content = config }) (omega arith) (refl, tt) refl
