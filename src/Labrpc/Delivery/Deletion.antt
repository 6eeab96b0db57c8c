-- ===== src/Labrpc/Delivery/Deletion.antt =====
-- labrpc.go: what `DeleteServer` promises for the requests under way.
use native.Mathlib.Nat.{mod-lt}
use mit.Prelude.{
  inl, inr, ℕ, ◌≡◌, ◌≤◌, ◌<◌, ◌+◌, ◌%◌, refl, ap, Bool, true, false, ==_iff, none, some, arith,
  nat_key, Bool-cases,
}
use mit.Labrpc.Network.{
  Network, ClientEnd, server_named, same_server, is_server_dead, make_end, delete_end, add_server,
  delete_server, connect, enable, set_reliable, set_long_delays, set_long_reordering, cleanup,
}
use mit.Labrpc.Service.{ReqMsg, ReplyMsg, failed}
use mit.Labrpc.Request.{
  Route, route, dropped, Waited, Draws, after, message, late_delay, fire, count_request, answer,
  process_req,
}

-- What the owner of a network can do to it, but for the servers that are added.
pub data Change (rn : Network) : Network → Type 0 where
  end_made :
      {rn' : Network} {e : ClientEnd} (endname : ℕ)
      → make_end endname rn ≡ some (rn', e)
      → Change rn rn'
  end_deleted : {rn' : Network} (endname : ℕ) → delete_end endname rn ≡ some rn' → Change rn rn'
  server_added : (servername server : ℕ) → Change rn (add_server servername server rn)
  server_deleted : (servername : ℕ) → Change rn (delete_server servername rn)
  connected : (endname servername : ℕ) → Change rn (connect endname servername rn)
  enabled : (endname : ℕ) (on : Bool) → Change rn (enable endname on rn)
  made_reliable : (on : Bool) → Change rn (set_reliable on rn)
  made_slow : (on : Bool) → Change rn (set_long_delays on rn)
  made_reordering : (on : Bool) → Change rn (set_long_reordering on rn)
  cleaned_up : Change rn (cleanup rn)
  request_counted : (req : ReqMsg) → Change rn (count_request req rn)

-- The change does not add this server.
abbrev pub Adds : ℕ → {rn rn' : Network} → Change rn rn' → Type 0
Adds server (server_added servername s) = s ≡ server
Adds server _ = ⊥

pub data Changes (server : ℕ) (rn : Network) : Network → Type 0 where
  here : Changes server rn rn
  next :
      {rn' rn'' : Network}
      → Changes server rn rn'
      → (c : Change rn' rn'') → ¬ Adds server c
      → Changes server rn rn''

-- The server does not stand under the name.
abbrev Absent : ℕ → ℕ → Network → Type 0
Absent servername server rn = same_server (server_named rn (some servername)) server ≡ false

Change-Absent :
    (servername server : ℕ) {rn rn' : Network} (c : Change rn rn')
    → ¬ Adds server c
    → Absent servername server rn
    → Absent servername server rn'
unfolding make_end delete_end add_server delete_server connect enable set_reliable set_long_delays
    set_long_reordering cleanup count_request
Change-Absent servername server (end_made endname e) n h = ground arith
Change-Absent servername server (end_deleted endname e) n h = ground arith
Change-Absent servername server (server_added name s) n h = ground arith
Change-Absent servername server (server_deleted name) n h = ground arith
Change-Absent servername server (connected endname name) n h = h
Change-Absent servername server (enabled endname on) n h = h
Change-Absent servername server (made_reliable on) n h = h
Change-Absent servername server (made_slow on) n h = h
Change-Absent servername server (made_reordering on) n h = h
Change-Absent servername server cleaned_up n h = h
Change-Absent servername server (request_counted req) n h = h

Changes-Absent :
    (servername server : ℕ) {rn rn' : Network}
    → Changes server rn rn'
    → Absent servername server rn
    → Absent servername server rn'
Changes-Absent servername server here h = h
Changes-Absent servername server (next r c n) h =
    Change-Absent servername server c n (Changes-Absent servername server r h)

delete_server-Absent :
    (servername server : ℕ) (rn : Network) → Absent servername server (delete_server servername rn)
unfolding delete_server
delete_server-Absent servername server rn = ground (arith, ==_iff servername servername)

answer_silent :
    (endname : ℕ) (r : Route) (waited : Waited) (draws : Draws) (rn : Network)
    → Absent r.servername r.server rn
    → message (answer endname r waited draws rn).1 ≡ failed
unfolding answer is_server_dead
answer_silent endname r none draws rn gone = refl
answer_silent endname r (some msg) draws rn gone = ground (arith, gone)

-- A server that is deleted after a request was routed to it, and before the last test of the request,
-- gives no positive answer to it, at once or later, whatever else is done to the network in between, as
-- long as that very server is not added again.
pub deleted_server_silent :
    (req : ReqMsg) (draws : Draws) (waited : Waited) (r : Route) (rn rn1 : Network) {rn' : Network}
    → route req.endname rn ≡ some r
    → Changes r.server (delete_server r.servername rn1) rn'
    → (message (process_req req draws waited rn rn').1).ok ≡ false
unfolding process_req
deleted_server_silent req draws waited r rn rn1 {rn'} to c =
    let gone =
      Changes-Absent r.servername r.server c (delete_server-Absent r.servername r.server rn1) in
    let silent = answer_silent req.endname r waited draws rn' gone in
    elim (Bool-cases (dropped r.reliable draws.request)) [
      | inl lost ↦ ground (arith, to, lost)
      | inr sent ↦ ground (arith, to, sent, ap (λ m. m.ok) silent)
    ]

late_delay_bounds : (draws : Draws) → (200 ≤ late_delay draws) × (late_delay draws < 2200)
unfolding late_delay
late_delay_bounds draws =
    let spread : draws.spread % 2000 < 2000 = mod-lt draws.spread (omega arith) in
    let delay : draws.delay % (1 + draws.spread % 2000) < 1 + draws.spread % 2000 =
      mod-lt draws.delay (omega arith) in
    (omega arith, omega arith)

late_answer :
    (endname : ℕ) (r : Route) (msg : ReplyMsg) (draws : Draws) (rn : Network)
    → r.longreordering ≡ true
    → dropped r.reliable draws.reply ≡ false
    → is_server_dead endname r.servername r.server rn ≡ false
    → draws.late % 900 < 600
    → answer endname r (some msg) draws rn ≡ (rn, after (late_delay draws) msg)
unfolding answer
late_answer endname r msg draws rn on kept alive late = ground (arith, on, kept, alive, late)

-- With long reordering, a reply that is delayed after the last test arrives at least 200 ms and less
-- than 2200 ms later, also in a network from which its server was deleted in the meantime.
pub deleted_server_heard :
    (req : ReqMsg) (draws : Draws) (r : Route) (msg : ReplyMsg) (rn rn' : Network)
    → route req.endname rn ≡ some r
    → r.longreordering ≡ true
    → dropped r.reliable draws.request ≡ false
    → dropped r.reliable draws.reply ≡ false
    → is_server_dead req.endname r.servername r.server rn' ≡ false
    → draws.late % 900 < 600
    → (ms : ℕ) × (200 ≤ ms)
      × (ms < 2200)
      × (process_req req draws (some msg) rn rn' ≡ (rn', after ms msg))
      × ((fire msg (delete_server r.servername rn')).1 ≡ msg)
unfolding process_req fire
deleted_server_heard req draws r msg rn rn' to on sent kept alive late =
    let (low, high) = late_delay_bounds draws in
    (
      late_delay draws,
      low,
      high,
      ground (arith, to, sent, late_answer req.endname r msg draws rn' on kept alive late),
      refl,
    )
