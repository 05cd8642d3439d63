-- ===== src/Node.antt =====
-- `Node` of src/node.rs: what a running peer offers to its user interface. The store and the network
-- state are shared with the network tasks under their locks, so a call is one step on both. What is
-- sent to a broadcast channel is appended to a list; random values and the clock are arguments. The
-- sockets, the TLS configuration, mDNS and UPnP are third-party services: what they report is an
-- argument of the definitions of `Start`.
pub mod Delivery
pub mod Demo
pub mod Joining
pub mod Start
use opencord.Base.{
  ℕ, ◌==◌, Bool, true, false, not, ◌||◌, List, [], ◌∷◌, ◌++◌, Option, none, some, ℤ, if◌then◌else◌,
  filterb, map, ltb, Result, ok, err, io_error, network_stopped,
}
use opencord.Text.{Text, codes, text_eq}
use opencord.Model.{
  Bytes, Key, Nonce, PeerId, GroupId, ChannelId, Group, Channel, EventEnvelope, MessagePayload,
  TimelineEntry, GroupInvite,
}
use opencord.Model.ByteId.{short, display}
use opencord.Crates.{Crates}
use opencord.Crypto.{Identity, IdentityFile, rename, identity_file, peer_id}
use opencord.Store.{Store, order_by}
use opencord.Store.Groups
use opencord.Store.Peers
use opencord.Store.Events
use opencord.Store.Events.{append}
use opencord.Store.Invites
use opencord.Store.Invites.{build_invite}
use opencord.Network.State.{NetworkState, NetworkSnapshot, Address, bump, note, new, add_advertised}
use opencord.Network.State
use opencord.Network.Wire.{NetCrates, LiveEvent, VoicePacket}

-- `IpAddr`, as a number
abbrev pub Ip : Type 0
Ip = ℕ

-- The functions of std::net that node.rs calls.
pub record Net : Type 0 where
  pub parse : Text → Option Address
  pub socket_address : Ip → ℕ → Address
  pub port : Address → ℕ
  pub is_unspecified : Ip → Bool
  pub is_loopback : Ip → Bool
  pub localhost : Ip

pub data NetworkCommand : Type 0 where
  connect_to : Address → NetworkCommand

pub record Node : Type 0 where
  pub identity : Identity
  -- the contents of identity.ocid
  pub saved : IdentityFile
  pub store : Store
  pub state : NetworkState
  -- whether the command loop still receives
  pub running : Bool
  pub commands : List NetworkCommand
  pub live_events : List LiveEvent
  pub voice_packets : List VoicePacket
  pub metadata : List Channel

module _ (net : Net) where
  -- `commands.send(..)`, which fails once the loop has ended.
  unfoldable pub connect : Address → Node → Result (Unit {0}) × Node
  connect address n =
      if n.running
      then (ok tt, record n { commands = n.commands ++ connect_to address ∷ [] })
      else (err network_stopped, n)

  -- The loops that connect to each address that parses, whatever `connect` returns.
  unfoldable pub connect_each : List Text → Node → Node
  unfolding connect
  connect_each [] n = n
  connect_each (endpoint ∷ rest) n =
      connect_each rest
        (elim (net.parse endpoint) [ some address ↦ (connect address n).1 | none ↦ n ])

abbrev pub bumped : Node → Node
bumped n = record n { state = bump n.state }

abbrev pub noted : Text → Node → Node
noted line n = record n { state = note line n.state }

module _ (c : Crates) where
  -- `rename_profile`; `writable`: the file can be written. The name changes whether or not it is.
  unfoldable pub rename_profile : Text → Bool → Node → Result Text × Node
  unfolding rename identity_file note bump
  rename_profile display_name writable n =
      let identity = rename n.identity display_name in
      if writable
      then (
        ok identity.display_name,
        noted (codes "Profile updated to " ++ identity.display_name)
            (record n { identity = identity; saved = identity_file c identity }),
      )
      else (err io_error, record n { identity = identity })

  created_channel : Result (Channel × Store) → Node → Result Channel × Node
  created_channel (ok (channel, s)) n =
      (ok channel, bumped (record n { store = s; metadata = n.metadata ++ channel ∷ [] }))
  created_channel (err e) n = (err e, n)

  -- `create_channel`
  unfoldable pub create_channel : GroupId → Text → ChannelId → Node → Result Channel × Node
  unfolding created_channel bump
  create_channel group_id name channel_id n =
      created_channel (Groups.create_channel c group_id name channel_id n.store) n

  -- `timeline`
  abbrev pub timeline : ChannelId → ℕ → Node → Result (List TimelineEntry)
  timeline channel_id limit n = Events.timeline c channel_id limit n.store

  created_group : Result (Group × Channel × Store) → Node → Result (Group × Channel) × Node
  created_group (ok (group, channel, s)) n = (ok (group, channel), bumped (record n { store = s }))
  created_group (err e) n = (err e, n)

  -- `create_group`
  unfoldable pub create_group :
      Text → GroupId → ChannelId → Key → ℤ → Node → Result (Group × Channel) × Node
  unfolding created_group bump
  create_group name group_id channel_id secret now n =
      created_group (Groups.create_group name group_id channel_id secret now n.store) n

  -- `invite`, with the `Display` of addresses
  unfoldable pub invite : (Address → Text) → GroupId → ℤ → Node → Result Text
  unfolding State.snapshot
  invite show group_id now n =
      build_invite c n.identity group_id (map show (State.snapshot n.state).advertised_addresses)
        now n.store

  imported_invite : Net → Result (GroupInvite × Store) → Node → Result GroupInvite × Node
  unfolding connect_each
  imported_invite net (ok (invite, s)) n =
      (ok invite, bumped (connect_each net invite.body.endpoints (record n { store = s })))
  imported_invite net (err e) n = (err e, n)

  -- `import_invite`
  unfoldable pub import_invite : Net → Text → Node → Result GroupInvite × Node
  unfolding imported_invite connect_each bump
  import_invite net value n = imported_invite net (Invites.import_invite c value n.store) n

  abbrev pub sent : Result (EventEnvelope × Store) → Node → Result EventEnvelope × Node
  sent (ok (event, s)) n = (
    ok event,
    bumped (record n {
      store = s;
      live_events =
          n.live_events ++ record { event = event; author_name = n.identity.display_name } ∷ [];
    }),
  )
  sent (err e) n = (err e, n)

  -- `send`
  unfoldable pub send :
      ChannelId → MessagePayload → Option Nonce → ℤ → ℤ → Node → Result EventEnvelope × Node
  unfolding bump
  send channel_id payload drawn sent_at now n =
      sent (append c n.identity channel_id payload drawn sent_at now n.store) n

  -- `block_peer`
  unfoldable pub block_peer : PeerId → ℤ → Node → Node
  unfolding note bump
  block_peer peer now n =
      noted (codes "Blocked peer " ++ (short c.base64 32 peer ++ codes " locally")) (record n {
        store = Peers.block_peer peer (codes "Blocked from the desktop UI") now n.store;
      })

  -- `unblock_peer`
  unfoldable pub unblock_peer : PeerId → Node → Node
  unfolding note bump
  unblock_peer peer n =
      noted (codes "Unblocked peer " ++ short c.base64 32 peer)
        (record n { store = Peers.unblock_peer peer n.store })

-- `snapshot`, `groups`, `channels` and `broadcast_voice`
abbrev pub snapshot : Node → NetworkSnapshot
snapshot n = State.snapshot n.state

abbrev pub groups : Node → List Group
groups n = Groups.groups n.store

abbrev pub channels : GroupId → Node → List Channel
channels group_id n = Groups.channels group_id n.store

unfoldable pub broadcast_voice : GroupId → Bytes → Node → Node
broadcast_voice group_id packet n = record n {
  voice_packets = n.voice_packets ++ record { group_id = group_id; bytes = packet } ∷ [];
}
