-- ===== src/Network/Wire.antt =====
-- The wire records of src/network.rs, and the codecs of those that are serialized on their own.
use opencord.Base.{ℕ, ℤ, List}
use opencord.Text.{Text}
use opencord.Model.{Bytes, Key, Nonce, GroupId, PeerId, EventEnvelope, GroupInventory}
use opencord.Crates.{Crates, Codec}
use opencord.Network.State.{Address}

pub record UnsignedPeerHello : Type 0 where
  pub version : ℕ
  pub nonce : Key
  pub peer : PeerId
  pub display_name : Text
  pub listen_port : ℕ

pub record PeerHello : Type 0 where
  pub body : UnsignedPeerHello
  pub signature : Bytes

pub record GroupProof : Type 0 where
  pub group_id : GroupId
  pub proof : Key

pub record RangeRequest : Type 0 where
  pub group_id : GroupId
  pub author : PeerId
  pub first : ℕ
  pub last : ℕ

pub record WireEvent : Type 0 where
  pub event : EventEnvelope
  pub author_name : Text

pub record VoiceDatagram : Type 0 where
  pub group_id : GroupId
  pub nonce : Nonce
  pub ciphertext : Bytes

pub data Wire : Type 0 where
  hello : PeerHello → Wire
  group_proofs : List GroupProof → Wire
  channels : List VoiceDatagram → Wire
  inventories : List GroupInventory → Wire
  requests : List RangeRequest → Wire
  event_batch : List WireEvent → Wire
  sync_done : Wire
  live_event : WireEvent → Wire
  channel_upsert : VoiceDatagram → Wire
  screen_frame : VoiceDatagram → Wire
  ping : ℤ → Wire
  pong : ℤ → Wire

-- The broadcasts between the tasks of a node.
pub record LiveEvent : Type 0 where
  pub event : EventEnvelope
  pub author_name : Text

pub record VoicePacket : Type 0 where
  pub group_id : GroupId
  pub bytes : Bytes

pub record IncomingVoice : Type 0 where
  pub peer : PeerId
  pub group_id : GroupId
  pub bytes : Bytes

pub record ScreenPacket : Type 0 where
  pub group_id : GroupId
  pub jpeg : Bytes

pub record IncomingScreen : Type 0 where
  pub peer : PeerId
  pub group_id : GroupId
  pub jpeg : Bytes

-- The third-party code that src/network.rs uses beyond that of the store.
pub record NetCrates : Type 0 where
  pub crates : Crates
  pub hello_codec : Codec UnsignedPeerHello
  pub wire_codec : Codec Wire
  pub voice_codec : Codec VoiceDatagram
  -- `SocketAddr::to_string`
  pub show_address : Address → Text
