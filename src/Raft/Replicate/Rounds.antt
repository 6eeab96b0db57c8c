-- ===== src/Raft/Replicate/Rounds.antt =====
-- raft.go, `replicateToPeer`: one answered call, on both sides.
use mit.Prelude.{
  ℕ, suc, ◌+◌, ◌-◌, ◌≤◌, ◌<◌, ◌≡◌, ◌⊎◌, inl, inr, refl, sym, subst, ap, ◌∙◌, Bool-cases, none, some,
  List, arith, length,
}
use mit.Raft.Types.{Raft, LogEntry, Tick}
use mit.Raft.Persist.{Codec}
use mit.Raft.Append.{append_entries}
use mit.Raft.Append.Laws.{after}
use mit.Raft.Node.Durable.{append_entries-HasLog}
use mit.Raft.Replicate.{Next, again, again_later, build_request, prepare_request}
use mit.Raft.Replicate.Exchange.{build_request-Carries}
use mit.Raft.Replicate.Loop.{delivered, finish_round}
use mit.Raft.Replicate.Effects.{
  Leads, prepares_nothing, refused, succeeded, append_entries-reply_term,
  append_entries-current_term,
}
use mit.Raft.Replicate.CatchUp.{Agrees, refusal_later}
use mit.Raft.Replicate.Progress.{
  Progress, enough, lost-Progress, refused-Progress, accepted-Progress,
}

module _ {C : Type 0} where
  module _ (codec : Codec C) (peer ts : ℕ) (log : List (LogEntry C)) where
    -- A leader with `log`, and a follower of no newer term.
    pub record Paired (lead other : Raft C) (next matched : ℕ) : Type 0 where
      pub leading : Leads peer ts lead next matched
      pub same_log : lead.log ≡ log
      pub has_log : 0 < length other.log
      pub behind : other.current_term ≤ ts

    -- The leader knows the follower to have the whole log, and it has.
    pub record CaughtUp (lead other : Raft C) : Type 0 where
      pub leading : Leads peer ts lead (length log) (length log - 1)
      pub same_log : lead.log ≡ log
      pub agrees : Agrees log other.log (length log)
      pub over : prepare_request peer ts lead ≡ some none

    pub spent :
        (other : List (LogEntry C)) {next matched : ℕ}
        → Progress log other next matched 0
        → length log ≤ next
    spent other (inl s) = absurd (omega (arith, s.2, s.3))
    spent other (inr f) = omega (arith, f.3)

    pub caught_up :
        {lead other : Raft C} {next matched n : ℕ}
        → Paired lead other next matched
        → Progress log other.log next matched n
        → length log ≤ next
        → CaughtUp lead other
    caught_up p (inl s) le = absurd (omega (arith, s.2))
    caught_up {lead} {other} {next} {matched} p (inr (lt, agrees, fits, enough, last)) le =
        let whole : next ≡ length log = omega (arith, fits) in
        let m : matched ≡ length log - 1 = omega (arith, last whole) in
        record {
          leading =
              subst (λ x. Leads peer ts lead x (length log - 1)) whole
                (subst (Leads peer ts lead next) m p.leading);
          same_log = p.same_log;
          agrees = subst (Agrees log other.log) whole agrees;
          over = prepares_nothing p.leading (omega (arith, ap length p.same_log));
        }

    pub kept-Progress :
        {lead other : Raft C} {next matched n : ℕ} (t1 t2 : Tick)
        → Paired lead other next matched
        → Progress log other.log next matched n
        → next < length log
        → Progress log (after codec (build_request lead next) t1 t2 other).log next matched n
    kept-Progress {lead} {other} {next} {matched} {n} t1 t2 p progress lt =
        subst
          (λ l. Progress l (after codec (build_request lead next) t1 t2 other).log next matched n)
          p.same_log
          (lost-Progress codec lead other next matched t1 t2 (omega (arith, ap length p.same_log))
            (p.leading.valid.next_pos peer next p.leading.next_at) p.has_log
            (omega (arith, p.behind, p.leading.in_term))
            (subst (λ l. Progress l other.log next matched n) (sym p.same_log) progress))

    pub after-Paired :
        {lead other : Raft C} {next matched : ℕ} (t1 t2 : Tick)
        → Paired lead other next matched
        → Paired lead (after codec (build_request lead next) t1 t2 other) next matched
    unfolding build_request
    after-Paired {lead} {other} {next} t1 t2 p =
        let args = build_request lead next in
        record {
          leading = p.leading;
          same_log = p.same_log;
          has_log = append_entries-HasLog codec args t1 t2 other p.has_log;
          behind = omega (
            arith,
            p.behind,
            p.leading.in_term,
            append_entries-current_term codec args t1 t2 other
                (omega (arith, p.behind, p.leading.in_term)),
          );
        }

    -- After an answered call the loop goes on, with one call less to go.
    pub record GoesOn (t1 t2 t3 : Tick) (lead other : Raft C) (next n : ℕ) : Type 0 where
      pub lead' : Raft C
      pub next' : ℕ
      pub matched' : ℕ
      pub then : Next
      pub returned :
          finish_round codec peer ts (delivered t1 t2 t3) (build_request lead next) lead other
          ≡ some (lead', after codec (build_request lead next) t1 t2 other, then)
      pub on : (then ≡ again) ⊎ (then ≡ again_later)
      pub paired : Paired lead' (after codec (build_request lead next) t1 t2 other) next' matched'
      pub progress :
          Progress log (after codec (build_request lead next) t1 t2 other).log next' matched' n

    pub goes_on :
        {lead other : Raft C} {next matched n : ℕ} (t1 t2 t3 : Tick)
        → Paired lead other next matched
        → Progress log other.log next matched (suc n)
        → next < length log
        → 0 < next
        → GoesOn t1 t2 t3 lead other next n
    unfolding finish_round
    goes_on {lead} {other} {next} {matched} {n} t1 t2 t3 p progress lt pos =
        let args = build_request lead next in
        let reply = (append_entries codec args t1 t2 other).1 in
        let le : other.current_term ≤ lead.current_term =
          omega (arith, p.behind, p.leading.in_term) in
        let term : reply.term ≤ ts =
          omega (arith, p.behind, append_entries-reply_term codec args t1 t2 other) in
        let lt' : next < length lead.log = omega (arith, ap length p.same_log) in
        let q = subst (λ l. Progress l other.log next matched (suc n)) (sym p.same_log) progress in
        let p' = after-Paired t1 t2 p in
        let c = build_request-Carries lead next lt' in
        let grows = enough codec lead other next matched t1 t2 lt' pos p.has_log le q in
        elim (Bool-cases reply.success) [
          | inr bad ↦
              let (rf', e, same, l) =
                refused p.leading codec args reply t3 term bad
                  (refusal_later lead next lt' pos codec t1 t2 other p.has_log le bad) in
              record {
                lead' = rf';
                next' = next - 1;
                matched' = matched;
                then = again_later;
                returned = rw e refl;
                on = inr refl;
                paired = record {
                  leading = l;
                  same_log = same ∙ p.same_log;
                  has_log = p'.has_log;
                  behind = p'.behind;
                };
                progress =
                    subst (λ l. Progress l (after codec args t1 t2 other).log (next - 1) matched n)
                      p.same_log
                      (refused-Progress codec lead other next matched t1 t2 lt' pos p.has_log le bad
                        q);
              }
          | inl ok ↦
              let (rf', tasks, e, same, l) =
                succeeded p.leading codec args reply t3 term ok
                  (omega (arith, grows.0, c.prev, c.some_entries)) in
              record {
                lead' = rf';
                next' = args.prev_log_index + length args.entries + 1;
                matched' = args.prev_log_index + length args.entries;
                then = again;
                returned = rw e refl;
                on = inl refl;
                paired = record {
                  leading = l;
                  same_log = same ∙ p.same_log;
                  has_log = p'.has_log;
                  behind = p'.behind;
                };
                progress =
                    subst
                      (λ l.
                        Progress l (after codec args t1 t2 other).log
                          (args.prev_log_index + length args.entries + 1)
                          (args.prev_log_index + length args.entries) n)
                      p.same_log
                      (accepted-Progress codec lead other next matched t1 t2 lt' pos p.has_log le ok
                        q);
              }
        ]
