-- ===== src/KvRaft/Clerk/Rounds.antt =====
-- kvraft/client.go: the calls of one operation of a clerk, up to the first final answer.
use Prim.Native.String.{String}
use mathlib.Core.List.{◌++◌}
use native.Mathlib.Nat.{mod-add-mod, mod-eq_of_lt, mod-lt}
use mit.Prelude.{
  ℕ, zero, suc, ◌+◌, ◌%◌, ◌≤◌, ◌<◌, ◌≡◌, ◌⊎◌, inl, inr, refl, sym, ap, ◌∙◌, Option, none, some,
  List, [], ◌∷◌, arith, length, get_elem?,
}
use mit.KvRaft.Types.{
  Err, ok, err_no_key, err_wrong_leader, err_timeout, err_unknown_op, OpType, GetReply,
}
use mit.KvRaft.Clerk.{
  Clerk, Call, Outcome, get_value, put_value, retry, clerk_get, clerk_put_append,
}

-- No answer, or one after which the clerk goes on.
abbrev pub Fails : {Reply : Type 0} → (Reply → Option String) → List (Option Reply) → Type 0
Fails final [] = Unit
Fails final (none ∷ rs) = Fails final rs
Fails final (some reply ∷ rs) = (final reply ≡ none) × Fails final rs

-- What the clerk has done when the call after `k` failed ones, the first to server `s`, is answered
-- with `v`: it remembers that server, and made all calls with the same arguments, to one server after
-- the other.
pub record Answered {Args : Type 0} (args : Args) (ck : Clerk) (s k : ℕ) (v : String)
    (o : Outcome Args) : Type 0 where
  pub result : o.returned ≡ some (record ck { last_leader = (s + k) % ck.servers }, v)
  pub count : length o.calls ≡ k + 1
  pub targets :
      (j : ℕ)
      → j ≤ k
      → get_elem? o.calls j ≡ some (record { server = (s + j) % ck.servers; args = args })

zero_right : (s : ℕ) → s + 0 ≡ s
zero_right s = omega arith

module _ {Args Reply : Type 0} (final : Reply → Option String) (args : Args) (ck : Clerk) where
  failed_first :
      (s k : ℕ) (v : String) (o : Outcome Args)
      → s < ck.servers
      → Answered args ck ((s + 1) % ck.servers) k v o
      → Answered args ck s
          (suc k)
          v
          (record { returned = o.returned; calls = record { server = s; args = args } ∷ o.calls })
  failed_first s k v o lt a = record {
    result = a.result ∙ ap (λ l. some (record ck { last_leader = l }, v)) (shift k);
    count = omega (arith, a.count);
    targets = λ j le. at j le;
  }
    where
      shift : (j : ℕ) → ((s + 1) % ck.servers + j) % ck.servers ≡ (s + suc j) % ck.servers
      shift j =
          let e : s + 1 + j ≡ s + suc j = omega arith in
          mod-add-mod (s + 1) ck.servers j ∙ ap (λ m. m % ck.servers) e

      at :
          (j : ℕ)
          → j ≤ suc k
          → get_elem? (record { server = s; args = args } ∷ o.calls) j
            ≡ some (record { server = (s + j) % ck.servers; args = args })
      at zero le =
          ap (λ m. some (record { server = m; args = args }))
            (sym (mod-eq_of_lt (omega arith) ∙ zero_right s))
      at (suc j) le =
          a.targets j (omega arith) ∙ ap (λ m. some (record { server = m; args = args })) (shift j)

  retry-Answered :
      (ks rest : List (Option Reply)) (reply : Reply) (v : String) (s : ℕ)
      → s < ck.servers
      → Fails final ks
      → final reply ≡ some v
      → Answered args ck s (length ks) v (retry final args ck s (ks ++ (some reply ∷ rest)))
  unfolding retry
  retry-Answered [] rest reply v s lt f e = rw e (record {
    result = ap (λ m. some (record ck { last_leader = m }, v)) here;
    count = refl;
    targets = at;
  })
    where
      here : s ≡ (s + 0) % ck.servers
      here = sym (mod-eq_of_lt (omega arith) ∙ zero_right s)

      at :
          (j : ℕ)
          → j ≤ 0
          → get_elem? {A = Call Args} (record { server = s; args = args } ∷ []) j
            ≡ some (record { server = (s + j) % ck.servers; args = args })
      at zero le = ap (λ m. some (record { server = m; args = args })) here
      at (suc j) le = elim le [ ]
  retry-Answered (none ∷ ks) rest reply v s lt f e =
      failed_first s (length ks) v _ lt
        (retry-Answered ks rest reply v ((s + 1) % ck.servers) (mod-lt (s + 1) (omega arith)) f e)
  retry-Answered (some r ∷ ks) rest reply v s lt f e = rw (f.0) (
      failed_first s (length ks) v _ lt (
        retry-Answered ks rest reply v ((s + 1) % ck.servers) (mod-lt (s + 1) (omega arith)) f.1 e))

-- A call of `Get` that does not end the loop: it was not answered, or with a wrong leader, a timeout or
-- an unknown operation.
abbrev pub NotAnswered : Option GetReply → Type 0
NotAnswered none = Unit
NotAnswered (some r) = (r.err ≡ err_wrong_leader) ⊎ (r.err ≡ err_timeout) ⊎ (r.err ≡ err_unknown_op)

abbrev pub NoneAnswered : List (Option GetReply) → Type 0
NoneAnswered [] = Unit
NoneAnswered (o ∷ os) = NotAnswered o × NoneAnswered os

-- An answer that ends it with a value: OK with the reply's own, or a missing key with the empty one.
abbrev pub Ends : GetReply → String → Type 0
Ends r v = ((r.err ≡ ok) × (v ≡ r.value)) ⊎ ((r.err ≡ err_no_key) × (v ≡ ""))

NotAnswered-Fails : (os : List (Option GetReply)) → NoneAnswered os → Fails get_value os
NotAnswered-Fails [] n = tt
NotAnswered-Fails (none ∷ os) n = NotAnswered-Fails os n.1
NotAnswered-Fails (some r ∷ os) n = (
  elim n.0 [ inl e ↦ rw e refl | inr (inl e) ↦ rw e refl | inr (inr e) ↦ rw e refl ],
  NotAnswered-Fails os n.1,
)

get_value-Ends : (r : GetReply) (v : String) → Ends r v → get_value r ≡ some v
get_value-Ends r v (inl (e, same)) = rw e (ap some (sym same))
get_value-Ends r v (inr (e, same)) = rw e (ap some (sym same))

-- A `Get` whose calls are not answered, or with a wrong leader, a timeout or an unknown operation, until
-- one is answered with OK or a missing key, returns the value of that answer, which for a missing key
-- is the empty one. Every call carries one new sequence number; the calls go round the servers, from
-- the remembered leader on; the server that answered is remembered.
pub clerk_get-Answered :
    (key : String) (ck : Clerk) (ks rest : List (Option GetReply)) (reply : GetReply) (v : String)
    → ck.last_leader < ck.servers
    → NoneAnswered ks
    → Ends reply v
    → let seq = ck.seq_num + 1 in
      Answered
        (record { key = key; client_id = ck.client_id; seq_num = seq })
        (record ck { seq_num = seq })
        ck.last_leader
        (length ks)
        v
        (clerk_get key ck (ks ++ (some reply ∷ rest)))
unfolding clerk_get
clerk_get-Answered key ck ks rest reply v lt f e =
    retry-Answered get_value _ _ ks rest reply v ck.last_leader lt (NotAnswered-Fails ks f)
      (get_value-Ends reply v e)

-- A `PutAppend` whose calls fail (no answer, or any answer but OK) until one is answered OK returns then.
-- Every call carries one new sequence number; the calls go round the servers, from the remembered
-- leader on; the server that answered is remembered.
pub clerk_put_append-Answered :
    (key value : String) (op : OpType) (ck : Clerk) (ks rest : List (Option Err)) (reply : Err)
    (v : String)
    → ck.last_leader < ck.servers
    → Fails put_value ks
    → put_value reply ≡ some v
    → let seq = ck.seq_num + 1 in
      Answered
        (record { key = key; value = value; op = op; client_id = ck.client_id; seq_num = seq })
        (record ck { seq_num = seq })
        ck.last_leader
        (length ks)
        v
        (clerk_put_append key value op ck (ks ++ (some reply ∷ rest)))
unfolding clerk_put_append
clerk_put_append-Answered key value op ck ks rest reply v lt f e =
    retry-Answered put_value _ _ ks rest reply v ck.last_leader lt f e
