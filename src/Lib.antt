-- ===== src/Lib.antt =====
-- Verification of the Raft and key/value services of the 6.5840 labs.
--
-- The program. A Raft peer (src/raft/raft.go) keeps a replicated log and its persistent part in a
-- persister (src/raft/persister.go); it sends committed commands over a channel to the key/value
-- server (src/kvraft/server.go), which executes them with one session for each client and answers the
-- clerks (src/kvraft/client.go). A single server (src/kvsrv) offers the same store without Raft.
-- The linearizability tests compare both with a sequential model (src/models/kv.go).
--
-- The files.
--   Prelude and below: lists over native numbers, Boolean tests, maps, panics as options.
--   Raft.Types: the structs of raft.go. Raft.Persister: persister.go. Raft.Persist: persist and
--     readPersist. Raft.Roles: GetState, Kill, the timer, becomeFollowerLocked and its kin, Make.
--   Raft.Vote: RequestVote. Raft.Election: ticker and startElection. Raft.Append: AppendEntries.
--   Raft.Commit: tryAdvanceCommitLocked and applyCommittedEntries. Raft.Replicate: Start,
--     broadcastAppendEntries and replicateToPeer, whose loop is Raft.Replicate.Loop.
--   Raft.Node: the life of one peer as a step relation, with crashes and restarts. Raft.Group: a group
--     of peers with a record of their votes; Raft.Group.Wire: a group and the messages that it has sent.
--   Raft.Config, with Nodes, Logs and Checks below it: src/raft/config.go, the configuration in which
--     the tests start, crash, connect and check the peers.
--   KvRaft.Types, KvRaft.Server, KvRaft.Rpc: server.go and common.go of src/kvraft;
--     KvRaft.Clerk: client.go. KvSrv.Server and KvSrv.Clerk: the same of src/kvsrv.
--   KvRaft.Config: src/kvraft/config.go, the configuration of the tests of that service.
--   Models.Kv and Models.Partition: src/models/kv.go.
--   Labrpc.Network, Labrpc.Service, Labrpc.Request: the simulated network of src/labrpc/labrpc.go:
--     its tables, servers and services, and processReq.
--   Labgob.Types and Labgob.Default: checkType and checkDefault of src/labgob/labgob.go.
--   MapReduce.Sequential and MapReduce.WordCount: src/main/mrsequential.go and src/mrapps/wc.go.
--   ShardCtrler.Clerk and ShardKv.Clerk: client.go and common.go of src/shardctrler and src/shardkv.
--   Names are those of the source in lower case: request_vote is RequestVote, apply_command is
--   applyCommand. A module below one of these holds what is proved about it, and a module Tests the
--   runs on concrete data.
--
-- The modelling.
--   State is passed explicitly; a function that runs under one lock is one definition, and a function
--   that waits for the network, a channel or the clock is cut into its parts between the waits. What a
--   go statement starts is a list of tasks. The relations Step (Raft.Node), GroupStep (Raft.Group),
--   WireSteps (Raft.Group.Wire) and Move (Raft.Commit.Race) take these parts in any order. The clock
--   and the random source are arguments (Tick).
--   Terms, indices and counts are natural numbers: the wrap-around of int at 2^63 is not modelled, and
--   -1 (no vote, no index) is none. lastLogIndex is the length of the log less one, on a log that has
--   its sentinel. A run-time panic (an index out of range) is none of an option. Commands are a type
--   parameter of Raft; encoding/gob is the parameter Codec, of which the theorems use that decoding
--   gives back what was encoded, and that no encoding is empty.
--   The names and the pointers to servers that the network compares are numbers; a random draw is an
--   argument, and so is how the wait for a handler ended.
--   Go maps are functions of their look-ups. The strings that name operations and errors are
--   constructors.
--   The loops over the log, the peers and the replies are structural. The loop of
--   applyCommittedEntries is on fuel, and fuel above the number of committed and unapplied entries is
--   enough. The loops of the clerks and of replicateToPeer run over the list of the outcomes of their
--   calls; those of the sharded store run over the rounds, each with its outcome for each server. The
--   loop of the server's applier runs over the messages that it takes until it is killed.
--   The walk over types is on fuel, and fuel above the number of types is enough; the grouping
--   of pairs is on fuel, and fuel above the number of pairs is enough.
--   In Raft.Config and KvRaft.Config a slice with one element for each peer is a function; a failure
--   that ends the test is none; the configurations that a check finds after each of its sleeps are an
--   argument, and the encoding of a snapshot is the parameter SnapshotCodec, of which the theorems use
--   no law.
--   sort.Sort leaves any sorted permutation. unicode.IsLetter is an argument.
--
-- Not modelled: log output; Snapshot and applySnapshot, which the source leaves empty; the sleeps of
-- the network (the delay of a timer is a number) and the reflection of MakeService; the servers of the
-- shard controller and of the sharded store, the coordinator and the worker of src/mr, which are
-- stubs; the applications in src/mrapps besides wc; the vendored checker src/porcupine; the programs in
-- src/main besides mrsequential, and the test harnesses besides those of Raft and KVRaft, of which the
-- time limits are left out.
pub mod Prelude
pub mod Raft
pub mod KvRaft
pub mod KvSrv
pub mod Models
pub mod Labrpc
pub mod ShardCtrler
pub mod ShardKv
pub mod MapReduce
pub mod Labgob
