-- ===== src/KvRaft/Config/Turns.antt =====
-- kvraft/config.go: what `partition` does to the network, without the panics.
use mit.Prelude.{
  ℕ, ◌+◌, ◌≤◌, ◌<◌, ◌≡◌, inl, inr, refl, ap₂, Bool, true, false, some, List, [], ◌∷◌, nat_key,
  arith, length, map, In,
}
use mit.Labrpc.Network.{Network, enable}
use mit.Raft.Config.{named}
use mit.KvRaft.Config.{
  Config, name_at, name_unless_nil, enable_list, connect_unlocked, incoming_from,
  disconnect_unlocked, isolate,
}

-- `Enable` for the names `f j` of a list of servers.
unfoldable pub writes : (ℕ → ℕ) → List ℕ → Bool → Network → Network
writes f [] on net = net
writes f (j ∷ js) on net = writes f js on (enable (f j) on net)

enable_list-writes :
    (f : ℕ → ℕ) (js : List ℕ) (on : Bool) (net : Network)
    → enable_list (map (λ j. named (f j)) js) on net ≡ some (writes f js on net)
unfolding enable_list writes
enable_list-writes f [] on net = refl
enable_list-writes f (j ∷ js) on net = enable_list-writes f js on (enable (f j) on net)

-- The servers have been started, and no two of their ends have one name.
pub record Started (name : ℕ → ℕ → ℕ) (cfg : Config) : Type 0 where
  pub started : (i : ℕ) → i < cfg.n → cfg.endnames i ≡ some (name i)
  pub apart :
      (i j i' j' : ℕ)
      → i < cfg.n
      → j < cfg.n
      → i' < cfg.n
      → j' < cfg.n
      → name i j ≡ name i' j'
      → (i ≡ i') × (j ≡ j')

-- What a server's turn in `partition` makes of the network.
abbrev pub cut : (ℕ → ℕ → ℕ) → ℕ → List ℕ → Network → Network
cut name i other net = writes (λ j. name j i) other false (writes (name i) other false net)

abbrev pub joined : (ℕ → ℕ → ℕ) → ℕ → List ℕ → Network → Network
joined name i mine net = writes (λ j. name j i) mine true (writes (name i) mine true net)

unfoldable pub turns : (ℕ → ℕ → ℕ) → (todo mine other : List ℕ) → Network → Network
turns name [] mine other net = net
turns name (i ∷ todo) mine other net =
    turns name todo mine other (joined name i mine (cut name i other net))

abbrev pub Below : ℕ → List ℕ → Type 0
Below n js = (j : ℕ) → In j js → j < n

module _ (name : ℕ → ℕ → ℕ) (cfg : Config) (s : Started name cfg) where
  name_at_lem : (i j : ℕ) → i < cfg.n → j < cfg.n → name_at cfg i j ≡ named (name i j)
  name_at_lem i j li lj = ground (arith, s.started i li)

  outgoing_names :
      (i : ℕ) (js : List ℕ)
      → i < cfg.n
      → Below cfg.n js
      → map (name_at cfg i) js ≡ map (λ j. named (name i j)) js
  outgoing_names i [] li lt = refl
  outgoing_names i (j ∷ js) li lt =
      ap₂ ◌∷◌ (name_at_lem i j li (lt j (inl refl))) (outgoing_names i js li (λ k h. lt k (inr h)))

  incoming_names :
      (i : ℕ) (js : List ℕ)
      → i < cfg.n
      → Below cfg.n js
      → map (λ j. name_at cfg j i) js ≡ map (λ j. named (name j i)) js
  incoming_names i [] li lt = refl
  incoming_names i (j ∷ js) li lt =
      ap₂ ◌∷◌ (name_at_lem j i (lt j (inl refl)) li) (incoming_names i js li (λ k h. lt k (inr h)))

  guarded_lem :
      (g i j : ℕ) → g < cfg.n → i < cfg.n → j < cfg.n → name_unless_nil cfg g i j ≡ named (name i j)
  guarded_lem g i j lg li lj = ground (arith, s.started g lg, s.started i li)

  guarded_names :
      (i : ℕ) (js : List ℕ)
      → i < cfg.n
      → Below cfg.n js
      → map (name_unless_nil cfg i i) js ≡ map (λ j. named (name i j)) js
  guarded_names i [] li lt = refl
  guarded_names i (j ∷ js) li lt =
      ap₂ ◌∷◌ (guarded_lem i i j li li (lt j (inl refl)))
        (guarded_names i js li (λ k h. lt k (inr h)))

  position_names :
      (i k : ℕ) (js : List ℕ)
      → i < cfg.n
      → k + length js ≤ cfg.n
      → Below cfg.n js
      → incoming_from cfg i k js ≡ map (λ j. named (name j i)) js
  unfolding incoming_from
  position_names i k [] li enough lt = refl
  position_names i k (j ∷ js) li enough lt =
      ap₂ ◌∷◌ (guarded_lem k j i (omega arith) (lt j (inl refl)) li)
        (position_names i (k + 1) js li (omega arith) (λ x h. lt x (inr h)))

  disconnect_unlocked_lem :
      (i : ℕ) (other : List ℕ)
      → i < cfg.n
      → Below cfg.n other
      → length other ≤ cfg.n
      → disconnect_unlocked i other cfg ≡ some (record cfg { net = cut name i other cfg.net })
  unfolding disconnect_unlocked
  disconnect_unlocked_lem i other li lt enough =
      rw
        (
          guarded_names i other li lt,
          enable_list-writes (name i) other false cfg.net,
          position_names i 0 other li (omega arith) lt,
          enable_list-writes (λ j. name j i) other false (writes (name i) other false cfg.net),
        )
        refl

  connect_unlocked_lem :
      (i : ℕ) (mine : List ℕ)
      → i < cfg.n
      → Below cfg.n mine
      → connect_unlocked i mine cfg ≡ some (record cfg { net = joined name i mine cfg.net })
  unfolding connect_unlocked
  connect_unlocked_lem i mine li lt =
      rw
        (
          outgoing_names i mine li lt,
          enable_list-writes (name i) mine true cfg.net,
          incoming_names i mine li lt,
          enable_list-writes (λ j. name j i) mine true (writes (name i) mine true cfg.net),
        )
        refl

pub moved :
    (name : ℕ → ℕ → ℕ) (cfg : Config) (net : Network)
    → Started name cfg
    → Started name (record cfg { net = net })
moved name cfg net s = record { started = s.started; apart = s.apart }

pub isolate_lem :
    (name : ℕ → ℕ → ℕ) (todo mine other : List ℕ) (cfg : Config)
    → Started name cfg
    → Below cfg.n todo
    → Below cfg.n mine
    → Below cfg.n other
    → length other ≤ cfg.n
    → isolate todo mine other cfg ≡ some (record cfg { net = turns name todo mine other cfg.net })
unfolding isolate turns
isolate_lem name [] mine other cfg s lt lm lo enough = refl
isolate_lem name (i ∷ todo) mine other cfg s lt lm lo enough =
    let net1 = cut name i other cfg.net in
    let net2 = joined name i mine net1 in
    rw
      (
        disconnect_unlocked_lem name cfg s i other (lt i (inl refl)) lo enough,
        connect_unlocked_lem name (record cfg { net = net1 }) (moved name cfg net1 s) i mine
            (lt i (inl refl)) lm,
      )
      (isolate_lem name todo mine other (record cfg { net = net2 }) (moved name cfg net2 s)
        (λ j h. lt j (inr h)) lm lo enough)
