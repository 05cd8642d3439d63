-- ===== src/Node/Start.antt =====
-- How `Node::start` of src/node.rs sets a node up, what the services that it starts report, and
-- which addresses `run_command_loop` of src/network.rs connects to.
pub mod Addresses
use opencord.Base.{
  ℕ, ◌==◌, Bool, true, false, not, ◌&&◌, List, [], ◌∷◌, ◌++◌, Option, none, some, if◌then◌else◌,
  filterb, map, ltb, ◌⊎◌, inl, inr,
}
use opencord.Text.{Text, codes, text_eq}
use opencord.Model.ByteId.{display}
use opencord.Crypto.{Identity, IdentityFile, peer_id}
use opencord.Store.{Store, order_by}
use opencord.Store.Peers.{known_endpoints}
use opencord.Network.State.{Address, bump, note, new, add_advertised}
use opencord.Network.Wire.{NetCrates}
use opencord.Node.{Ip, Net, Node, NetworkCommand, connect_to, connect, connect_each, noted}

-- `Vec::dedup`: of equal neighbours the first is kept.
unfoldable pub dedup_from : Address → List Address → List Address
dedup_from x [] = x ∷ []
dedup_from x (y ∷ ys) = if x == y then dedup_from x ys else x ∷ dedup_from y ys

unfoldable pub dedup : List Address → List Address
unfolding dedup_from
dedup [] = []
dedup (x ∷ xs) = dedup_from x xs

module _ (net : Net) where
  -- `local_addresses` on the addresses of the interfaces
  unfoldable pub local_addresses : List Ip → ℕ → List Address
  unfolding dedup order_by
  local_addresses interfaces port =
      let found =
        filterb (λ ip. not (net.is_unspecified ip) && not (net.is_loopback ip)) interfaces in
      dedup (
        order_by ltb (
          map (λ ip. net.socket_address ip port) found
          ++ net.socket_address net.localhost port ∷ []))

-- `run_command_loop` of src/network.rs: the addresses to which connections are opened.
unfoldable pub dialed : Address → List NetworkCommand → List Address
dialed listen_address [] = []
dialed listen_address (connect_to address ∷ rest) =
    let others = dialed listen_address rest in
    if address == listen_address then others else address ∷ others

-- What the browsing thread of `start_discovery` does with a resolved service: the peer that it
-- names, and its addresses.
unfoldable pub connect_found : NetCrates → Net → List Ip → ℕ → Node → Node
unfolding connect note bump
connect_found x net [] port n = n
connect_found x net (ip ∷ rest) port n = connect_found x net rest port (
    if net.is_loopback ip
    then n
    else let address = net.socket_address ip port in
      (connect net address (noted (codes "Discovered LAN peer at " ++ x.show_address address) n)).1)

abbrev is_own : NetCrates → Node → Option Text → Bool
is_own x n none = false
is_own x n (some peer) = text_eq peer (display x.crates.base64 32 (peer_id x.crates n.identity))

unfoldable pub discover : NetCrates → Net → Option Text → List Ip → ℕ → Node → Node
unfolding connect_found
discover x net peer ips port n = if is_own x n peer then n else connect_found x net ips port n

-- What the thread of `start_port_mapping` reports: the mapped address, or the error.
unfoldable pub map_port : NetCrates → Address ⊎ Text → Node → Node
unfolding add_advertised note bump
map_port x (inl external) n =
    noted (codes "Router mapped public peer address " ++ x.show_address external)
      (record n { state = add_advertised external n.state })
map_port x (inr error) n =
    noted
      (codes "Direct internet mapping unavailable ("
        ++ (error ++ codes "); LAN and manual addresses still work"))
      n

abbrev report : Option Text → Node → Node
report none n = n
report (some error) n = noted (codes "LAN discovery unavailable: " ++ error) n

-- The node that `start` makes before it connects to known peers.
abbrev pub initial : NetCrates → Net → Identity → IdentityFile → Store → Address → List Ip → Node
initial x net identity saved store listen_address interfaces = record {
  identity = identity;
  saved = saved;
  store = store;
  state =
      new x.show_address listen_address (local_addresses net interfaces (net.port listen_address));
  running = true;
  commands = [];
  live_events = [];
  voice_packets = [];
  metadata = [];
}

-- `start` with what it found: the identity that was loaded or created, the contents of its file, the
-- opened store, the bound address, the addresses of the interfaces, and the error with which discovery
-- failed to start.
unfoldable pub start :
    NetCrates → Net → Identity → IdentityFile → Store → Address → List Ip → Option Text → Node
unfolding local_addresses connect_each new known_endpoints note bump
start x net identity saved store listen_address interfaces discovery_error =
    report discovery_error (
      connect_each net (map (λ known. known.1) (known_endpoints store))
        (initial x net identity saved store listen_address interfaces))
