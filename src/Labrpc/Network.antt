-- ===== src/Labrpc/Network.antt =====
-- labrpc.go: the tables of a `Network`: which end point is connected to which server. The names, of
-- type `interface{}`, are only compared: they are numbers here, as are the pointers to servers.
use mit.Prelude.{
  ℕ, Bool, true, false, not, ◌||◌, Option, none, some, Map, empty_map, insert, delete, get_or,
  nat_key, ◌==◌,
}

-- An end point, reduced to its name: the channels are those of its network.
pub record ClientEnd : Type 0 where
  pub endname : ℕ

-- `done` says that the channel of that name is closed. A server that is nil is `none`.
pub record Network : Type 0 where
  pub reliable : Bool
  pub long_delays : Bool
  pub long_reordering : Bool
  pub ends : Map ℕ ClientEnd
  pub enabled : Map ℕ Bool
  pub servers : Map ℕ (Option ℕ)
  pub connections : Map ℕ (Option ℕ)
  pub done : Bool
  pub count : ℕ
  pub bytes : ℕ

unfoldable pub make_network : Network
make_network = record {
  reliable = true;
  long_delays = false;
  long_reordering = false;
  ends = empty_map;
  enabled = empty_map;
  servers = empty_map;
  connections = empty_map;
  done = false;
  count = 0;
  bytes = 0;
}

unfoldable pub cleanup : Network → Network
cleanup rn = record rn { done = true }

unfoldable pub set_reliable : Bool → Network → Network
set_reliable on rn = record rn { reliable = on }

unfoldable pub set_long_reordering : Bool → Network → Network
set_long_reordering on rn = record rn { long_reordering = on }

unfoldable pub set_long_delays : Bool → Network → Network
set_long_delays on rn = record rn { long_delays = on }

-- The server that a name stands for; a missing key of a map is nil.
abbrev pub server_named : Network → Option ℕ → Option ℕ
server_named rn none = none
server_named rn (some name) = get_or (rn.servers name) none

pub record EndnameInfo : Type 0 where
  pub enabled : Bool
  pub servername : Option ℕ
  pub server : Option ℕ
  pub reliable : Bool
  pub longreordering : Bool

unfoldable pub read_endname_info : ℕ → Network → EndnameInfo
read_endname_info endname rn =
    let servername = get_or (rn.connections endname) none in
    record {
      enabled = get_or (rn.enabled endname) false;
      servername = servername;
      server = server_named rn servername;
      reliable = rn.reliable;
      longreordering = rn.long_reordering;
    }

-- `rn.servers[servername] == server`, for a server that is not nil
abbrev pub same_server : Option ℕ → ℕ → Bool
same_server none server = false
same_server (some s) server = s == server

unfoldable pub is_server_dead : ℕ → ℕ → ℕ → Network → Bool
is_server_dead endname servername server rn =
    not (get_or (rn.enabled endname) false)
    || not (same_server (server_named rn (some servername)) server)

-- `none` where the program exits: the end exists already.
unfoldable pub make_end : ℕ → Network → Option (Network × ClientEnd)
make_end endname rn = elim (rn.ends endname) [
  | some e ↦ none
  | none ↦
      let e : ClientEnd = record { endname = endname } in
      some (
        record rn {
          ends = insert endname e rn.ends;
          enabled = insert endname false rn.enabled;
          connections = insert endname none rn.connections;
        },
        e,
      )
]

-- `none` where the program exits: there is no such end.
unfoldable pub delete_end : ℕ → Network → Option Network
delete_end endname rn = elim (rn.ends endname) [
  | none ↦ none
  | some e ↦ some (record rn {
    ends = delete endname rn.ends;
    enabled = delete endname rn.enabled;
    connections = delete endname rn.connections;
  })
]

unfoldable pub add_server : ℕ → ℕ → Network → Network
add_server servername server rn = record rn { servers = insert servername (some server) rn.servers }

unfoldable pub delete_server : ℕ → Network → Network
delete_server servername rn = record rn { servers = insert servername none rn.servers }

unfoldable pub connect : ℕ → ℕ → Network → Network
connect endname servername rn = record rn {
  connections = insert endname (some servername) rn.connections;
}

unfoldable pub enable : ℕ → Bool → Network → Network
enable endname enabled rn = record rn { enabled = insert endname enabled rn.enabled }

unfoldable pub get_total_count : Network → ℕ
get_total_count rn = rn.count

unfoldable pub get_total_bytes : Network → ℕ
get_total_bytes rn = rn.bytes
