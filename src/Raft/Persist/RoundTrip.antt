-- ===== src/Raft/Persist/RoundTrip.antt =====
-- raft.go and persister.go: what `persist` wrote is what `readPersist` reads, also from a copy of the
-- persister.
use mit.Prelude.{◌≡◌, ◌<◌, refl, ap, ◌∙◌, some, List, [], ◌∷◌, length}
use mit.Raft.Types.{Bytes, Raft, LogEntry}
use mit.Raft.Persister.{copy, read_raft_state, clone_lem, raftstate-save}
use mit.Raft.Persist.{Codec, Durable, durable, or_sentinel, restore, persist, read_persist}

module _ {C : Type 0} (codec : Codec C) where
  -- a state with what is durable of another
  abbrev pub with_durable : Durable C → Raft C → Raft C
  with_durable d rf = record rf {
    current_term = d.current_term;
    voted_for = d.voted_for;
    log = d.log;
  }

  or_sentinel_lem : (log : List (LogEntry C)) → 0 < length log → or_sentinel log ≡ log
  or_sentinel_lem [] lt = elim lt [ ]
  or_sentinel_lem (e ∷ log) lt = refl

  read_persist-some :
      (bytes : Bytes) (d : Durable C) (rf : Raft C)
      → 0 < length d.log
      → ¬ (bytes ≡ [])
      → codec.decode bytes ≡ some d
      → read_persist codec bytes rf ≡ with_durable d rf
  unfolding read_persist restore
  read_persist-some [] d rf lt ne e = absurd (ne refl)
  read_persist-some (b ∷ bytes) d rf lt ne e = rw e (
      ap (λ l. record rf { current_term = d.current_term; voted_for = d.voted_for; log = l })
        (or_sentinel_lem d.log lt))

  -- Reading from a copy of the persister gives back the term, the vote and the log that were
  -- persisted, if the log has its sentinel, and changes nothing else.
  pub read_persist-persist :
      (rf other : Raft C)
      → 0 < length rf.log
      → read_persist codec (read_raft_state (copy (persist codec rf).persister)) other
        ≡ with_durable (durable rf) other
  unfolding copy read_raft_state persist
  read_persist-persist rf other lt =
      let d = durable rf in
      let same : read_raft_state (copy (persist codec rf).persister) ≡ codec.encode d =
        clone_lem _ ∙ raftstate-save (codec.encode d) [] rf.persister in
      ap (λ b. read_persist codec b other) same
      ∙ read_persist-some (codec.encode d) d other lt (codec.encode-ne-nil d)
          (codec.decode-encode d)
