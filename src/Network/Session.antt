-- ===== src/Network/Session.antt =====
-- `run_session` and the exchange of logs in `run_authenticated_session` of src/network.rs.
pub mod Batches
pub mod Complete
pub mod Converges
pub mod Cursor
pub mod Ends
pub mod Enough
pub mod Expects
pub mod Keeps
pub mod Outgoing
pub mod Pages
pub mod Private
pub mod Rounds
pub mod Sends
pub mod Serves
pub mod Stores
pub mod Takes
pub mod Talks
pub mod Transfers
pub mod Writes
use opencord.Base.{
  ℕ, ◌==◌, Bool, true, false, not, List, [], ◌∷◌, ◌++◌, filterb, is_empty, Option, none, some,
  Result, ok, err, no_hello, self_connection, peer_is_blocked, no_group_proofs, no_common_group,
  no_channel_metadata, no_inventories, no_requests,
}
use opencord.Model.{GroupId, Group, Channel, GroupInventory}
use opencord.Crypto.{peer_id}
use opencord.Store.Groups.{groups, channels, merge_channel}
use opencord.Store.Peers.{is_blocked, remember_peer}
use opencord.Store.Events.{inventories}
use opencord.Network.State.{OnlinePeer, online, offline}
use opencord.Network.Wire.{
  Wire, PeerHello, GroupProof, RangeRequest, VoiceDatagram, hello, group_proofs, requests,
}
use opencord.Network.Wire
use opencord.Network.Ranges.{missing_ranges}
use opencord.Network.Handshake.{make_hello, verify_hello, local_proofs, shared_groups, member}
use opencord.Network.Transfer.{send_requested_events, receive_requested_events}
use opencord.Network.Task.{
  Context, Task, M, ◌>>=◌, ◌>>◌, pure, lift, check, fail, read_store, write_store, change_state,
  receive, send, now, draw,
}
use opencord.Network.Live.{Input, find_group, seal_channel, open_channel, live_loop}

-- The record that the protocol has next, or the session's error.
unfoldable pub expect_hello : Wire → M PeerHello
expect_hello (hello h) = pure h
expect_hello _ = fail no_hello

unfoldable pub expect_proofs : Wire → M (List GroupProof)
expect_proofs (group_proofs ps) = pure ps
expect_proofs _ = fail no_group_proofs

unfoldable pub expect_channels : Wire → M (List VoiceDatagram)
expect_channels (Wire.channels ds) = pure ds
expect_channels _ = fail no_channel_metadata

unfoldable pub expect_inventories : Wire → M (List GroupInventory)
expect_inventories (Wire.inventories is) = pure is
expect_inventories _ = fail no_inventories

unfoldable pub expect_requests : Wire → M (List RangeRequest)
expect_requests (requests rs) = pure rs
expect_requests _ = fail no_requests

abbrev pub of_shared : List GroupId → List GroupInventory → List GroupInventory
of_shared shared = filterb (λ i. member i.group_id shared)

module _ (x : Context) where
  unfoldable pub seal_channels : List Channel → Group → M (List VoiceDatagram)
  seal_channels [] g = pure []
  seal_channels (ch ∷ chs) g = do d ← seal_channel x ch g; ds ← seal_channels chs g; pure (d ∷ ds)

  -- The metadata of the channels of the shared groups.
  unfoldable pub local_channels : List GroupId → M (List VoiceDatagram)
  local_channels [] = pure []
  local_channels (id ∷ ids) = do
    g ← find_group x id
    chs ← read_store (λ s. ok (channels id s))
    ds ← seal_channels chs g
    rest ← local_channels ids
    pure (ds ++ rest)

  unfoldable pub merge_channels : List GroupId → List VoiceDatagram → M (Unit {0})
  merge_channels shared [] = pure tt
  merge_channels shared (d ∷ ds) = do
    channel ← open_channel x shared d
    _ ← write_store (merge_channel channel)
    merge_channels shared ds

  -- `run_authenticated_session` before its loop
  unfoldable pub synchronize : PeerHello → List GroupId → M (Unit {0})
  synchronize remote_hello shared = do
    metadata ← local_channels shared
    send x (Wire.channels metadata)
    frame ← receive
    remote_channels ← expect_channels frame
    merge_channels shared remote_channels
    local ← read_store (λ s. ok (of_shared shared (inventories s)))
    send x (Wire.inventories local)
    frame' ← receive
    remote ← expect_inventories frame'
    send x (requests (missing_ranges local (of_shared shared remote)))
    frame'' ← receive
    remote_requests ← expect_requests frame''
    send_requested_events x shared remote_requests
    receive_requested_events x remote_hello

  -- `run_authenticated_session`
  unfoldable pub run_authenticated_session : PeerHello → List GroupId → List Input → M (Unit {0})
  run_authenticated_session remote_hello shared inputs = do
    synchronize remote_hello shared
    live_loop x remote_hello shared inputs

  -- The hellos: the local one and the peer's, which is verified.
  unfoldable pub exchange_hellos : ℕ → M (PeerHello × PeerHello)
  exchange_hellos listen_port = do
    nonce ← draw x
    local ← lift (make_hello x.net x.identity listen_port nonce)
    send x (hello local)
    frame ← receive
    remote ← expect_hello frame
    lift (verify_hello x.net remote)
    check (not (remote.body.peer == peer_id x.net.crates x.identity)) self_connection
    blocked ← read_store (λ s. ok (is_blocked remote.body.peer s))
    check (not blocked) peer_is_blocked
    pure (local, remote)

  -- The proofs, and the groups that are shared by them.
  unfoldable pub exchange_proofs : PeerHello → PeerHello → M (List GroupId)
  exchange_proofs local remote = do
    gs ← read_store (λ s. ok (groups s))
    send x (group_proofs (local_proofs x.net gs local.body remote.body))
    frame ← receive
    proofs ← expect_proofs frame
    let shared : List GroupId = shared_groups x.net gs local.body remote.body proofs
    check (not (is_empty shared)) no_common_group
    pure shared

  abbrev pub online_peer : PeerHello → List GroupId → OnlinePeer
  online_peer remote shared = record {
    id = remote.body.peer;
    name = remote.body.display_name;
    address = x.remote_address;
    shared_groups = shared;
    latency_ms = none;
  }

  -- `store.lock().remember_peer(..)?`
  unfoldable pub remember : PeerHello → M (Unit {0})
  remember remote = do
    at ← now x
    later ← now x
    write_store (λ s. ok (
      tt,
      remember_peer x.net.crates remote.body.peer remote.body.display_name
          (some (x.net.show_address x.remote_address)) at later s,
    ))

  -- A session of a peer that has been authenticated, with its result kept until the peer is
  -- offline again.
  unfoldable pub run_online : PeerHello → List GroupId → List Input → M (Unit {0})
  run_online remote shared inputs t =
      let (result, t') = run_authenticated_session remote shared inputs t in
      (change_state (offline remote.body.peer) >>= λ _. lift result) t'

  -- `run_session`; `listen_port` is `state.listen_address.port()`.
  unfoldable pub run_session : ℕ → List Input → M (Unit {0})
  run_session listen_port inputs = do
    (local, remote) ← exchange_hellos listen_port
    shared ← exchange_proofs local remote
    remember remote
    change_state (online x.net.show_address (online_peer remote shared))
    run_online remote shared inputs
