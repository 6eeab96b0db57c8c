-- ===== src/Labrpc/Delivery.antt =====
-- labrpc.go, `processReq` and `isServerDead`: which calls get a positive answer.
pub mod Deletion
use mathlib.Core.Option.{some-injective}
use mit.Prelude.{
  ◌&&◌, subst, ℕ, ◌≤◌, ◌%◌, ◌⊎◌, leb, ltb, ◌≡◌, ◌↔◌, inl, inr, refl, sym, ap, ◌∙◌, Bool, true,
  false, ==_iff, none, some, arith, nat_key, Bool-cases, Option-cases,
}
use mit.Labrpc.Network.{
  Network, ClientEnd, read_endname_info, server_named, same_server, is_server_dead, make_end,
  delete_end, add_server, delete_server, connect, enable, set_reliable, set_long_delays,
  set_long_reordering, cleanup,
}
use mit.Labrpc.Service.{ReqMsg, ReplyMsg, failed}
use mit.Labrpc.Request.{
  Route, route, dropped, Waited, Draws, message, count_request, answer, no_reply, process_req,
}

-- The end was enabled and connected to a server when the request arrived in the network `rn`, neither
-- the request nor the reply was lost, the handler returned the message, and in the network `rn'` the
-- end was enabled and the same server stood under its name.
pub record Delivered (req : ReqMsg) (draws : Draws) (waited : Waited) (rn rn' : Network)
    (msg : ReplyMsg) : Type 0 where
  pub servername : ℕ
  pub server : ℕ
  pub was_enabled : rn.enabled req.endname ≡ some true
  pub was_connected : rn.connections req.endname ≡ some (some servername)
  pub was_there : rn.servers servername ≡ some (some server)
  pub request_kept : (rn.reliable ≡ true) ⊎ (100 ≤ draws.request % 1000)
  pub returned : waited ≡ some msg
  pub still_enabled : rn'.enabled req.endname ≡ some true
  pub still_there : rn'.servers servername ≡ some (some server)
  pub reply_kept : (rn.reliable ≡ true) ⊎ (100 ≤ draws.reply % 1000)

kept_iff : (on : Bool) (draw : ℕ) → (dropped on draw ≡ false) ↔ ((on ≡ true) ⊎ (100 ≤ draw % 1000))
kept_iff true draw = (λ h. inl refl, λ h. refl)
kept_iff false draw = (λ h. inr (ground (arith, h)), λ h. ground (arith, h))

-- A route, through the tables of the network.
record Routed (endname : ℕ) (rn : Network) (r : Route) : Type 0 where
  on : rn.enabled endname ≡ some true
  to : rn.connections endname ≡ some (some r.servername)
  there : rn.servers r.servername ≡ some (some r.server)
  setting : r.reliable ≡ rn.reliable

Routed-route :
    (endname servername server : ℕ) (rn : Network)
    → rn.enabled endname ≡ some true
    → rn.connections endname ≡ some (some servername)
    → rn.servers servername ≡ some (some server)
    → (r : Route) × (route endname rn ≡ some r)
      × (r.servername ≡ servername)
      × (r.server ≡ server)
      × (r.reliable ≡ rn.reliable)
unfolding route read_endname_info
Routed-route endname servername server rn on to there = (
  record {
    servername = servername;
    server = server;
    reliable = rn.reliable;
    longreordering = rn.long_reordering;
  },
  ground (arith, on, to, there),
  refl,
  refl,
  refl,
)

route-Routed :
    (endname : ℕ) (rn : Network) (r : Route) → route endname rn ≡ some r → Routed endname rn r
unfolding route read_endname_info
route-Routed endname rn r h = elim (Option-cases (rn.connections endname)) [
  | inl e ↦ absurd (ground (arith, e, h))
  | inr (none, e) ↦ absurd (ground (arith, e, h))
  | inr (some name, to) ↦ elim (Option-cases (rn.servers name)) [
    | inl e ↦ absurd (ground (arith, to, e, h))
    | inr (none, e) ↦ absurd (ground (arith, to, e, h))
    | inr (some server, there) ↦ elim (Option-cases (rn.enabled endname)) [
      | inl e ↦ absurd (ground (arith, to, there, e, h))
      | inr (false, e) ↦ absurd (ground (arith, to, there, e, h))
      | inr (true, on) ↦
          let (r', to', name', server', setting) =
            Routed-route endname name server rn on to there in
          subst (Routed endname rn) (some-injective _ _ (sym to' ∙ h)) (record {
            on = on;
            to = to ∙ ap (λ n. some (some n)) (sym name');
            there = ap rn.servers name' ∙ there ∙ ap (λ n. some (some n)) (sym server');
            setting = setting;
          })
    ]
  ]
]

alive_there :
    (endname servername server : ℕ) (rn : Network)
    → is_server_dead endname servername server rn ≡ false
    → rn.servers servername ≡ some (some server)
unfolding is_server_dead
alive_there endname servername server rn h = elim (Option-cases (rn.servers servername)) [
  | inl e ↦ absurd (ground (arith, e, h))
  | inr (none, e) ↦ absurd (ground (arith, e, h))
  | inr (some s, e) ↦
      let same : s ≡ server = ground (arith, e, h, ==_iff s server) in
      e ∙ ap (λ n. some (some n)) same
]

alive_iff :
    (endname servername server : ℕ) (rn : Network)
    → (is_server_dead endname servername server rn ≡ false)
      ↔ ((rn.enabled endname ≡ some true) × (rn.servers servername ≡ some (some server)))
unfolding is_server_dead
alive_iff endname servername server rn = (
  λ h. (ground (arith, h), alive_there endname servername server rn h),
  λ (on, there). ground (arith, on, there, ==_iff server server),
)

answer_msg :
    (endname : ℕ) (r : Route) (msg : ReplyMsg) (draws : Draws) (rn : Network)
    → is_server_dead endname r.servername r.server rn ≡ false
    → dropped r.reliable draws.reply ≡ false
    → message (answer endname r (some msg) draws rn).1 ≡ msg
unfolding answer
answer_msg endname r msg draws rn alive kept =
    elim (Bool-cases (r.longreordering && ltb (draws.late % 900) 600)) [
      | inl late ↦ rw (alive, kept, late)
      | inr prompt ↦ rw (alive, kept, prompt)
    ]

answer_ok :
    (endname : ℕ) (r : Route) (waited : Waited) (draws : Draws) (rn : Network)
    → let msg = message (answer endname r waited draws rn).1 in
      msg.ok ≡ true
      → (waited ≡ some msg)
        × (is_server_dead endname r.servername r.server rn ≡ false)
        × (dropped r.reliable draws.reply ≡ false)
unfolding answer
answer_ok endname r none draws rn h = absurd (ground arith)
answer_ok endname r (some msg) draws rn h =
    elim (Bool-cases (is_server_dead endname r.servername r.server rn)) [
      | inl dead ↦ absurd (ground (arith, h, dead))
      | inr alive ↦ elim (Bool-cases (dropped r.reliable draws.reply)) [
        | inl lost ↦ absurd (ground (arith, h, alive, lost))
        | inr kept ↦ (ap some (sym (answer_msg endname r msg draws rn alive kept)), alive, kept)
      ]
    ]

module _ (req : ReqMsg) (draws : Draws) (waited : Waited) (rn rn' : Network) where
  abbrev result : ReplyMsg
  result = message (process_req req draws waited rn rn').1

  unrouted : route req.endname rn ≡ none → result ≡ failed
  unfolding process_req no_reply
  unrouted h = ground arith

  lost_request :
      (r : Route)
      → route req.endname rn ≡ some r
      → dropped r.reliable draws.request ≡ true
      → result ≡ failed
  unfolding process_req
  lost_request r h lost = ground arith

  sent_request :
      (r : Route)
      → route req.endname rn ≡ some r
      → dropped r.reliable draws.request ≡ false
      → result ≡ message (answer req.endname r waited draws rn').1
  unfolding process_req
  sent_request r h sent = ground (arith, h, sent)

  delivered :
      (msg : ReplyMsg) → msg.ok ≡ true → result ≡ msg → Delivered req draws waited rn rn' msg
  delivered msg good same = elim (Option-cases (route req.endname rn)) [
    | inl nowhere ↦
        let e = unrouted nowhere in absurd (ground (arith, ap (λ m. m.ok) (sym e ∙ same)))
    | inr (r, to) ↦ elim (Bool-cases (dropped r.reliable draws.request)) [
      | inl lost ↦
          let e = lost_request r to lost in absurd (ground (arith, ap (λ m. m.ok) (sym e ∙ same)))
      | inr sent ↦
          let e = sym (sent_request r to sent) ∙ same in
          let (got, alive, kept) =
            answer_ok req.endname r waited draws rn' (ap (λ m. m.ok) e ∙ good) in
          let way = route-Routed req.endname rn r to in
          let (on, there) = (alive_iff req.endname r.servername r.server rn').0 alive in
          record {
            servername = r.servername;
            server = r.server;
            was_enabled = way.on;
            was_connected = way.to;
            was_there = way.there;
            request_kept =
                (kept_iff rn.reliable draws.request).0
                  (ap (λ b. dropped b draws.request) (sym way.setting) ∙ sent);
            returned = got ∙ ap some e;
            still_enabled = on;
            still_there = there;
            reply_kept =
                (kept_iff rn.reliable draws.reply).0
                  (ap (λ b. dropped b draws.reply) (sym way.setting) ∙ kept);
          }
    ]
  ]

  answered : (msg : ReplyMsg) → Delivered req draws waited rn rn' msg → result ≡ msg
  answered msg d =
      let (r, to, name, srv, setting) =
        Routed-route req.endname d.servername d.server rn d.was_enabled d.was_connected
          d.was_there in
      let sent : dropped r.reliable draws.request ≡ false =
        ap (λ b. dropped b draws.request) setting
        ∙ (kept_iff rn.reliable draws.request).1 d.request_kept in
      let kept : dropped r.reliable draws.reply ≡ false =
        ap (λ b. dropped b draws.reply) setting
        ∙ (kept_iff rn.reliable draws.reply).1 d.reply_kept in
      let alive : is_server_dead req.endname r.servername r.server rn' ≡ false =
        rw (name, srv)
          ((alive_iff req.endname d.servername d.server rn').1 (d.still_enabled, d.still_there)) in
      sent_request r to sent
      ∙ ap (λ w. message (answer req.endname r w draws rn').1) d.returned
      ∙ answer_msg req.endname r msg draws rn' alive kept

-- The message that a call gets, at once or later, is a given positive one exactly if its end was
-- enabled and connected to a server when it arrived, neither the request nor the reply was lost (which
-- on an unreliable network each is with the first 100 of 1000 draws), the handler returned that
-- message, and at the last test the end was still enabled and the server the same.
pub process_req_ok_iff :
    (req : ReqMsg) (draws : Draws) (waited : Waited) (rn rn' : Network) (msg : ReplyMsg)
    → msg.ok ≡ true
    → (message (process_req req draws waited rn rn').1 ≡ msg)
      ↔ Delivered req draws waited rn rn' msg
process_req_ok_iff req draws waited rn rn' msg good =
    (delivered req draws waited rn rn' msg good, answered req draws waited rn rn' msg)
