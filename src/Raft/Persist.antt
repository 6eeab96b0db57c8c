-- ===== src/Raft/Persist.antt =====
-- raft.go: `persist` and `readPersist`. labgob (encoding/gob) is the parameter `Codec`.
pub mod RoundTrip
use mit.Prelude.{ℕ, ◌≡◌, ◌≢◌, Option, none, some, List, [], ◌∷◌}
use mit.Raft.Types.{Bytes, LogEntry, Raft, sentinel}
use mit.Raft.Persister.{save}

-- The three values that are encoded one after the other.
pub record Durable (C : Type 0) : Type 0 where
  pub current_term : ℕ
  pub voted_for : Option ℕ
  pub log : List (LogEntry C)

-- `encode` is what three `Encode` calls leave in the buffer, `decode` three `Decode` calls, `none`
-- if one of them fails. gob gives back what was encoded, and never writes an empty stream.
pub record Codec (C : Type 0) : Type 0 where
  pub encode : Durable C → Bytes
  pub decode : Bytes → Option (Durable C)
  pub decode-encode : (d : Durable C) → decode (encode d) ≡ some d
  pub encode-ne-nil : (d : Durable C) → encode d ≢ []

module _ {C : Type 0} where
  abbrev pub durable : Raft C → Durable C
  durable rf = record { current_term = rf.current_term; voted_for = rf.voted_for; log = rf.log }

  -- a decoded log that is empty is replaced by the sentinel alone
  abbrev pub or_sentinel : List (LogEntry C) → List (LogEntry C)
  or_sentinel [] = sentinel ∷ []
  or_sentinel (e ∷ l) = e ∷ l

  restore : Option (Durable C) → Raft C → Raft C
  restore none rf = rf
  restore (some d) rf = record rf {
    current_term = d.current_term;
    voted_for = d.voted_for;
    log = or_sentinel d.log;
  }

  module _ (codec : Codec C) where
    unfoldable pub persist : Raft C → Raft C
    persist rf = record rf { persister = save (codec.encode (durable rf)) [] rf.persister }

    unfoldable pub read_persist : Bytes → Raft C → Raft C
    unfolding restore
    read_persist [] rf = rf
    read_persist (b ∷ bytes) rf = restore (codec.decode (b ∷ bytes)) rf
