-- ===== src/Labrpc/Tests.antt =====
-- Tests of labrpc: a network with one server, and the theorems at its requests.
use mit.Prelude.{
  ℕ, ◌+◌, ◌≡◌, ◌↔◌, refl, true, false, none, some, [], ◌∷◌, empty_map, insert, string_key, nat_key,
}
use mit.Labrpc.Network.{set_long_reordering, Network, make_network, delete_server, connect}
use mit.Labrpc.Service.{ReqMsg, ReplyMsg, Method, split_last_dot}
use mit.Labrpc.Request.{Route, route, Draws, message, after, late_delay, answer, process_req}
use mit.Labrpc.Delivery.{Delivered, process_req_ok_iff}
use mit.Labrpc.Delivery.Deletion.{Changes, here, next, connected, deleted_server_silent}

-- End 1 is connected to server 5, at address 50, and the network loses messages.
abbrev network : Network
network = record make_network {
  reliable = false;
  ends = insert 1 (record { endname = 1 }) empty_map;
  enabled = insert 1 true empty_map;
  servers = insert 5 (some 50) empty_map;
  connections = insert 1 (some 5) empty_map;
}

abbrev req : ReqMsg
req = record { endname = 1; svc_meth = "Junk.Add"; args = 4 ∷ [] }

abbrev draws : Draws
draws = record { request = 500; reply = 600; late = 0; spread = 30; delay = 45 }

abbrev reply : ReplyMsg
reply = record { ok = true; reply = 5 ∷ [] }

answered_test : message (process_req req draws (some reply) network network).1 ≡ reply
unfolding process_req route answer make_network
answered_test = refl

process_req_ok_iff_example :
    (message (process_req req draws (some reply) network network).1 ≡ reply)
    ↔ Delivered req draws (some reply) network network reply
process_req_ok_iff_example = process_req_ok_iff req draws (some reply) network network reply refl

abbrev to_server : Route
to_server = record { servername = 5; server = 50; reliable = false; longreordering = false }

-- Server 5 is deleted, and the end is connected to it again.
reconnected : Changes 50 (delete_server 5 network) (connect 1 5 (delete_server 5 network))
reconnected = next here (connected 1 5) (λ a. a)

routed : route 1 network ≡ some to_server
unfolding route make_network
routed = refl

deleted_server_silent_example :
    (message
      (process_req req draws (some reply) network (connect 1 5 (delete_server 5 network))).1).ok
    ≡ false
deleted_server_silent_example =
    deleted_server_silent req draws (some reply) to_server network network routed reconnected

-- The reply comes 200 + 45 % 31 ms after the test.
late_test :
    (process_req req draws (some reply) (set_long_reordering true network) network).1
    ≡ after 214 reply
unfolding process_req route answer late_delay set_long_reordering
late_test = refl

-- A service whose state is a number, to which a method adds.
abbrev add : Method ℕ
add s args = (s + 1, s ∷ args)

no_dot_test : split_last_dot "Add" ≡ none
unfolding split_last_dot
no_dot_test = refl
