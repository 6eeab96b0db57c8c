-- ===== src/Raft/Config/Checks.antt =====
-- raft/config.go: what a test asks about the peers. A check that fails, which ends the test, is `none`.
use mit.Prelude.{
  ℕ, zero, suc, ◌+◌, ◌%◌, Bool, true, false, ◌&&◌, ◌||◌, Option, none, some, List, [], ◌∷◌, Key,
  nat_key, ◌>>=◌, ◌==◌, ltb, leb, length, if◌then◌else◌,
}
use mit.Raft.Persister.{raft_state_size}
use mit.Raft.Persist.{Codec}
use mit.Raft.Roles.{get_state}
use mit.Raft.Replicate.{start}
use mit.Raft.Config.{Config, put_at}
use mit.Raft.Config.Nodes.{disk}
use mit.Raft.Config.Logs.{same_command, n_committed}

module _ {C : Type 0} where
  -- `GetState` of peer `i`; of a peer that is down it panics.
  abbrev pub state_of : Config C → ℕ → Option (ℕ × Bool)
  state_of cfg i = elim (cfg.rafts i) [ none ↦ none | some rf ↦ some (get_state rf) ]

  -- The connected leaders among the peers `i, i + 1, …`, each with its term, in order.
  unfoldable pub find_leaders : Config C → ℕ → ℕ → Option (List (ℕ × ℕ))
  find_leaders cfg i zero = some []
  find_leaders cfg i (suc left) = do
    rest ← find_leaders cfg (i + 1) left
    if cfg.connected i
        then (do (term, leads) ← state_of cfg i; some (if leads then (term, i) ∷ rest else rest))
        else some rest

-- `leaders[term]`
abbrev pub leaders_of : ℕ → List (ℕ × ℕ) → List ℕ
leaders_of term [] = []
leaders_of term ((t, i) ∷ found) =
    if t == term then i ∷ leaders_of term found else leaders_of term found

-- A term of `found` has more than one leader in `all`.
abbrev pub has_two : List (ℕ × ℕ) → List (ℕ × ℕ) → Bool
has_two all [] = false
has_two all ((t, i) ∷ found) = ltb 1 (length (leaders_of t all)) || has_two all found

abbrev pub last_term : List (ℕ × ℕ) → Option ℕ → Option ℕ
last_term [] last = last
last_term ((t, i) ∷ found) none = last_term found (some t)
last_term ((t, i) ∷ found) (some last) = last_term found (some (if ltb last t then t else last))

abbrev pub first_of : List ℕ → Option ℕ
first_of [] = none
first_of (i ∷ is) = some i

-- The inner `none`: there is no leader.
unfoldable pub pick_leader : List (ℕ × ℕ) → Option (Option ℕ)
pick_leader found = elim (has_two found found) [
  | true ↦ none
  | false ↦ elim (last_term found none) [
    | none ↦ some none
    | some last ↦ elim (first_of (leaders_of last found)) [ none ↦ none | some i ↦ some (some i) ]
  ]
]

abbrev pub agree_on : Option ℕ → ℕ → Option ℕ
agree_on none xterm = some xterm
agree_on (some term) xterm = if term == xterm then some term else none

abbrev no_leader_in : Option (List (ℕ × ℕ)) → Bool
no_leader_in none = false
no_leader_in (some []) = true
no_leader_in (some (p ∷ ps)) = false

module _ {C : Type 0} where
  -- The configuration as each of the iterations finds it, after its sleep.
  unfoldable pub check_one_leader : List (Config C) → Option ℕ
  check_one_leader [] = none
  check_one_leader (cfg ∷ later) = do
    found ← find_leaders cfg 0 cfg.n
    picked ← pick_leader found
    elim picked [ some i ↦ some i | none ↦ check_one_leader later ]

  -- The term so far is `none` for -1.
  unfoldable pub check_terms_from : Config C → ℕ → ℕ → Option ℕ → Option (Option ℕ)
  check_terms_from cfg i zero term = some term
  check_terms_from cfg i (suc left) term = elim (cfg.connected i) [
    | false ↦ check_terms_from cfg (i + 1) left term
    | true ↦ elim (state_of cfg i) [
      | none ↦ none
      | some (xterm, leads) ↦ elim (agree_on term xterm) [
        | none ↦ none
        | some t ↦ check_terms_from cfg (i + 1) left (some t)
      ]
    ]
  ]

  unfoldable pub check_terms : Config C → Option (Option ℕ)
  check_terms cfg = check_terms_from cfg 0 cfg.n none

  -- True if the check passes.
  unfoldable pub check_no_leader : Config C → Bool
  check_no_leader cfg = no_leader_in (find_leaders cfg 0 cfg.n)

  -- Is one of the peers `i, i + 1, …` in a newer term?
  unfoldable pub any_newer : Config C → ℕ → ℕ → ℕ → Option Bool
  any_newer cfg term i zero = some false
  any_newer cfg term i (suc left) = do
    (t, leads) ← state_of cfg i
    elim (ltb term t) [ true ↦ some true | false ↦ any_newer cfg term (i + 1) left ]

  unfoldable pub newer_than : Option ℕ → Config C → Option Bool
  newer_than none cfg = some false
  newer_than (some term) cfg = any_newer cfg term 0 cfg.n

  -- `LogSize`
  unfoldable pub max_size : Config C → ℕ → ℕ → ℕ → Option ℕ
  max_size cfg i zero size = some size
  max_size cfg i (suc left) size = do
    ps ← disk cfg i
    max_size cfg (i + 1) left (if ltb size (raft_state_size ps) then raft_state_size ps else size)

  unfoldable pub log_size : Config C → Option ℕ
  log_size cfg = max_size cfg 0 cfg.n 0

-- How a wait ends, if the test goes on: with the command, or because of a new term.
pub data Waited (C : Type 0) : Type 0 where
  command : Option C → Waited C
  new_term : Waited C

module _ {C : Type 0} ⦃e : Key C⦄ where
  -- After the loop.
  unfoldable pub decided : ℕ → ℕ → Config C → Option (Waited C)
  decided index n cfg = do
    (nd, cmd) ← n_committed index cfg
    if ltb nd n then none else some (command cmd)

  -- Each iteration with the configuration before and after its sleep; then the last look.
  unfoldable pub wait : ℕ → ℕ → Option ℕ → List (Config C × Config C) → Config C → Option (Waited C)
  wait index n start_term [] last = decided index n last
  wait index n start_term ((cfg, cfg') ∷ later) last = do
    (nd, cmd) ← n_committed index cfg
    elim (leb n nd) [
      | true ↦ decided index n last
      | false ↦ elim (newer_than start_term cfg') [
        | none ↦ none
        | some true ↦ some new_term
        | some false ↦ wait index n start_term later last
      ]
    ]

  -- The peers in turn, until one of them takes the command; with the peer at which the next round goes on.
  module _ (codec : Codec C) where
    unfoldable pub try_start : C → ℕ → ℕ → Config C → ℕ × Option ℕ × Config C
    try_start cmd starts zero cfg = (starts, none, cfg)
    try_start cmd starts (suc left) cfg =
        let i = (starts + 1) % cfg.n in
        elim (if cfg.connected i then cfg.rafts i else none) [
          | none ↦ try_start cmd i left cfg
          | some rf ↦
              let (rf', (index, term, ok), tasks) = start codec cmd rf in
              let cfg' : Config C = record cfg { rafts = put_at i (some rf') cfg.rafts } in
              elim ok [ true ↦ (i, index, cfg') | false ↦ try_start cmd i left cfg' ]
        ]

  -- The looks at the commit of an index within two seconds.
  unfoldable pub poll : ℕ → C → ℕ → List (Config C) → Option Bool
  poll index cmd expected [] = some false
  poll index cmd expected (cfg ∷ later) = do
    (nd, cmd1) ← n_committed index cfg
    if ltb 0 nd && (leb expected nd && same_command cmd1 (some cmd))
        then some true
        else poll index cmd expected later

  -- A round of the outer loop of `one`: the configuration when it begins, and as each look finds it.
  -- The result is the index, or `none` for -1, when the test was finished in the meantime.
  unfoldable pub one :
      Codec C → C → ℕ → Bool → Bool → ℕ → List (Config C × List (Config C)) → Option (Option ℕ)
  one codec cmd expected retry finished starts [] = if finished then some none else none
  one codec cmd expected retry finished starts ((cfg, looks) ∷ rounds) =
      let (starts', index, cfg') = try_start codec cmd starts cfg.n cfg in
      elim index [
        | none ↦ one codec cmd expected retry finished starts' rounds
        | some i ↦ elim (poll i cmd expected looks) [
          | none ↦ none
          | some true ↦ some (some i)
          | some false ↦ elim retry [
            | true ↦ one codec cmd expected retry finished starts' rounds
            | false ↦ none
          ]
        ]
      ]
