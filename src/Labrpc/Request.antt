-- ===== src/Labrpc/Request.antt =====
-- labrpc.go: `processReq`, as its parts before, during and after the execution of the request, each
-- with the network as it is at that time. The delay of a timer is a number of milliseconds; that of a
-- `Sleep` is not modelled.
use mit.Prelude.{ℕ, ◌+◌, ◌%◌, Bool, not, ◌&&◌, Option, none, some, List, if◌then◌else◌, ltb, length}
use mit.Labrpc.Network.{Network, EndnameInfo, read_endname_info, is_server_dead}
use mit.Labrpc.Service.{ReqMsg, ReplyMsg, failed}

-- The goroutine of `MakeNetwork` counts each request.
unfoldable pub count_request : ReqMsg → Network → Network
count_request req rn = record rn { count = rn.count + 1; bytes = rn.bytes + length req.args }

-- Where a request goes, and the settings that hold for it.
pub record Route : Type 0 where
  pub servername : ℕ
  pub server : ℕ
  pub reliable : Bool
  pub longreordering : Bool

abbrev route_of : EndnameInfo → Option ℕ → Option ℕ → Option Route
route_of info (some name) (some server) =
    if info.enabled
    then some (record {
      servername = name;
      server = server;
      reliable = info.reliable;
      longreordering = info.longreordering;
    })
    else none
route_of info _ _ = none

-- `enabled && servername != nil && server != nil`
unfoldable pub route : ℕ → Network → Option Route
unfolding read_endname_info
route endname rn =
    let info = read_endname_info endname rn in route_of info info.servername info.server

-- `reliable == false && (rand.Int()%1000) < 100`
abbrev pub dropped : Bool → ℕ → Bool
dropped reliable draw = not reliable && ltb (draw % 1000) 100

-- How the wait ended: the handler returned a reply, or the server was found dead.
abbrev pub Waited : Type 0
Waited = Option ReplyMsg

-- A message for the channel of the call is sent at once, or by a timer after some milliseconds.
pub data Sending : Type 0 where
  now : ReplyMsg → Sending
  after : (ms : ℕ) → ReplyMsg → Sending

abbrev pub message : Sending → ReplyMsg
message (now msg) = msg
message (after ms msg) = msg

unfoldable pub count_reply : ReplyMsg → Network → Network
count_reply msg rn = record rn { bytes = rn.bytes + length msg.reply }

-- The random numbers of one request: for the loss of the request and of the reply, for a late reply,
-- and for the delay of a late reply and of a call that goes nowhere.
pub record Draws : Type 0 where
  pub request : ℕ
  pub reply : ℕ
  pub late : ℕ
  pub spread : ℕ
  pub delay : ℕ

-- `200 + rand.Intn(1+rand.Intn(2000))`
unfoldable pub late_delay : Draws → ℕ
late_delay draws = 200 + draws.delay % (1 + draws.spread % 2000)

-- The end of a request that was sent to a server, in the network of the last `isServerDead`. A reply
-- that a timer sends is not tested again, and is counted when it is sent.
unfoldable pub answer : ℕ → Route → Waited → Draws → Network → Network × Sending
unfolding is_server_dead count_reply late_delay
answer endname r none draws rn = (rn, now failed)
answer endname r (some msg) draws rn =
    if is_server_dead endname r.servername r.server rn
    then (rn, now failed)
    else if dropped r.reliable draws.reply
    then (rn, now failed)
    else if r.longreordering && ltb (draws.late % 900) 600
    then (rn, after (late_delay draws) msg)
    else (count_reply msg rn, now msg)

-- The timer of a late message fires, in the network of that time: the message goes into the channel. A
-- failure has no bytes.
unfoldable pub fire : ReplyMsg → Network → Network × ReplyMsg
unfolding count_reply
fire msg rn = (count_reply msg rn, msg)

-- The call is never answered by a server: "simulate no reply and eventual timeout".
unfoldable pub no_reply : Draws → Network → Sending
no_reply draws rn = after (draws.delay % (if rn.long_delays then 7000 else 100)) failed

-- A request from its arrival in the network `rn` to the end of `processReq` in the network `rn'`, with
-- `waited` for how the wait ended in between, if the request got so far.
unfoldable pub process_req : ReqMsg → Draws → Waited → Network → Network → Network × Sending
unfolding no_reply
process_req req draws waited rn rn' = elim (route req.endname rn) [
  | none ↦ (rn', no_reply draws rn)
  | some r ↦
      if dropped r.reliable draws.request
      then (rn', now failed)
      else answer req.endname r waited draws rn'
]

-- What `Call` makes of the answer: true and the reply, or false.
abbrev pub call_result : ReplyMsg → Option (List ℕ)
call_result msg = if msg.ok then some msg.reply else none
