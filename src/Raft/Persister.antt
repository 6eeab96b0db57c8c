-- ===== src/Raft/Persister.antt =====
-- persister.go: the stable storage of a peer; every read and write copies the bytes.
use mit.Prelude.{ℕ, ◌≡◌, refl, ap, [], ◌∷◌, length, replicate}
use mit.Raft.Types.{Bytes, Persister}

unfoldable pub make_persister : Persister
make_persister = record { raftstate = []; snapshot = [] }

-- The built-in `copy(dst, src)`: `dst` with its first bytes overwritten.
copy_into : Bytes → Bytes → Bytes
copy_into [] src = []
copy_into (d ∷ dst) [] = d ∷ dst
copy_into (d ∷ dst) (s ∷ src) = s ∷ copy_into dst src

unfoldable pub clone : Bytes → Bytes
unfolding copy_into
clone orig = copy_into (replicate (length orig) 0) orig

unfoldable pub copy : Persister → Persister
unfolding make_persister
copy ps = record make_persister { raftstate = ps.raftstate; snapshot = ps.snapshot }

unfoldable pub read_raft_state : Persister → Bytes
read_raft_state ps = clone ps.raftstate

unfoldable pub raft_state_size : Persister → ℕ
raft_state_size ps = length ps.raftstate

unfoldable pub save : Bytes → Bytes → Persister → Persister
save raftstate snapshot ps = record ps { raftstate = clone raftstate; snapshot = clone snapshot }

unfoldable pub read_snapshot : Persister → Bytes
read_snapshot ps = clone ps.snapshot

unfoldable pub snapshot_size : Persister → ℕ
snapshot_size ps = length ps.snapshot

-- A clone holds the same bytes.
pub clone_lem : (b : Bytes) → clone b ≡ b
unfolding clone
clone_lem [] = refl
clone_lem (x ∷ b) = ap (◌∷◌ x) (clone_lem b)

-- What was saved is what is read.
pub raftstate-save : (b s : Bytes) (ps : Persister) → (save b s ps).raftstate ≡ b
unfolding save
raftstate-save b s ps = clone_lem b
