-- ===== src/ShardCtrler/Rounds.antt =====
-- shardctrler/client.go: the calls of one operation, up to the first answer from a leader.
use mathlib.Core.List.{◌++◌}
use native.Mathlib.Nat.{mod-add-mod, mod-eq_of_lt, mod_self}
use mit.Prelude.{
  ℕ, zero, suc, ◌+◌, ◌%◌, ◌==◌, ◌≤◌, ◌<◌, ◌≡◌, refl, sym, ap, ◌∙◌, inl, inr, true, false, Option,
  none, some, List, [], ◌∷◌, arith, length, get_elem?, Bool-cases,
}
use mit.ShardCtrler.Clerk.{Reply, Call, ask, operate, next_server}

-- No answer, or one from a server that does not lead.
abbrev pub Fails : {A : Type 0} → List (Option (Reply A)) → Type 0
Fails [] = Unit
Fails (none ∷ rs) = Fails rs
Fails (some r ∷ rs) = (r.wrong_leader ≡ true) × Fails rs

-- The content is returned after `k + 1` calls with the same arguments, to the servers `s`, `s + 1` and
-- so on, modulo their number.
pub record Answered {A Args : Type 0} (servers : ℕ) (args : Args) (s k : ℕ) (a : A)
    (o : Option A × List (Call Args)) : Type 0 where
  pub result : o.0 ≡ some a
  pub count : length o.1 ≡ k + 1
  pub targets :
      (j : ℕ) → j ≤ k → get_elem? o.1 j ≡ some (record { server = (s + j) % servers; args = args })

next_server-mod : (n s : ℕ) → s < n → next_server n s ≡ (s + 1) % n
next_server-mod n s lt = elim (Bool-cases (s + 1 == n)) [
  | inl last ↦
      let e : s + 1 ≡ n = ground arith in ground (arith, last, ap (λ m. m % n) e, mod_self n)
  | inr more ↦
      let in_range : s + 1 < n = ground arith in ground (arith, more, mod-eq_of_lt in_range)
]

zero_right : (s n : ℕ) → s < n → s ≡ (s + 0) % n
zero_right s n lt = let e : s + 0 ≡ s = omega arith in sym (ap (λ m. m % n) e ∙ mod-eq_of_lt lt)

next_in_range : (n s : ℕ) → s < n → next_server n s < n
next_in_range n s lt = ground arith

abbrev to : {Args : Type 0} → Args → ℕ → Call Args
to args s = record { server = s; args = args }

module _ {A Args : Type 0} (servers : ℕ) (args : Args) where
  failed_first :
      (s k : ℕ) (a : A) (o : Option A × List (Call Args))
      → s < servers
      → Answered servers args (next_server servers s) k a o
      → Answered servers args s (suc k) a (o.0, to args s ∷ o.1)
  failed_first s k a o lt rest = record {
    result = rest.result;
    count = omega (arith, rest.count);
    targets = at;
  }
    where
      at : (j : ℕ) → j ≤ suc k → get_elem? (to args s ∷ o.1) j ≡ some (to args ((s + j) % servers))
      at zero le = ap (λ m. some (to args m)) (zero_right s servers lt)
      at (suc j) le =
          let e : s + 1 + j ≡ s + suc j = omega arith in
          rest.targets j (omega arith)
          ∙ ap (λ m. some (to args m))
              (ap (λ m. (m + j) % servers) (next_server-mod servers s lt)
                ∙ mod-add-mod (s + 1) servers j
                ∙ ap (λ m. m % servers) e)

  ask-Answered :
      (ks rest : List (Option (Reply A))) (r : Reply A) (s : ℕ)
      → s < servers
      → Fails ks
      → r.wrong_leader ≡ false
      → Answered servers args s (length ks) r.content (ask servers args s (ks ++ (some r ∷ rest)))
  unfolding ask
  ask-Answered [] rest r s lt f e = rw e (record { result = refl; count = refl; targets = at })
    where
      at : (j : ℕ) → j ≤ 0 → get_elem? (to args s ∷ []) j ≡ some (to args ((s + j) % servers))
      at zero le = ap (λ m. some (to args m)) (zero_right s servers lt)
      at (suc j) le = elim le [ ]
  ask-Answered (none ∷ ks) rest r s lt f e =
      failed_first s (length ks) r.content _ lt
        (ask-Answered ks rest r (next_server servers s) (next_in_range servers s lt) f e)
  ask-Answered (some q ∷ ks) rest r s lt f e = rw (f.0) (
      failed_first s (length ks) r.content _ lt
        (ask-Answered ks rest r (next_server servers s) (next_in_range servers s lt) f.1 e))

-- An operation of the clerk of a group that is not empty, whose calls fail until a leader answers,
-- returns what that answer carries; its calls have the same arguments and go to the servers in
-- order, from the first on, and from the last to the first again.
pub operate-Answered :
    {A Args : Type 0} (servers : ℕ) (args : Args) (ks rest : List (Option (Reply A))) (r : Reply A)
    → 0 < servers
    → Fails ks
    → r.wrong_leader ≡ false
    → Answered servers args 0 (length ks) r.content (operate servers args (ks ++ (some r ∷ rest)))
unfolding operate
operate-Answered zero args ks rest r pos f e = elim pos [ ]
operate-Answered (suc n) args ks rest r pos f e = ask-Answered (suc n) args ks rest r 0 pos f e
