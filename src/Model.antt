-- ===== src/Model.antt =====
-- src/model.rs: identifiers, groups, channels, invites, messages and event envelopes.
-- A fixed-size byte array ([u8; N]: the identifiers, keys and nonces) is the number that it spells
-- in base 256, most significant byte first; the derived order of the arrays is that of the numbers.
-- Times (`i64`) are integers, and `u8`, `u16`, `u32`, `u64` and `usize` are numbers.
pub mod ByteId
use opencord.Base.{
  ℕ, zero, suc, ◌*◌, ℤ, List, Bool, not, Option, leb, ◌==◌, length, Result, ok, ensure, ◌>>◌,
  message_is_empty, message_too_long, attachment_has_no_name, attachment_too_long, caption_too_long,
  is_empty,
}
use opencord.Text.{Text, trim, byte_len}

abbrev pub Bytes : Type 0
Bytes = List ℕ

abbrev pub GroupId : Type 0
GroupId = ℕ

abbrev pub ChannelId : Type 0
ChannelId = ℕ

abbrev pub EventId : Type 0
EventId = ℕ

abbrev pub PeerId : Type 0
PeerId = ℕ

-- [u8; 32] and [u8; 24]
abbrev pub Key : Type 0
Key = ℕ

abbrev pub Nonce : Type 0
Nonce = ℕ

abbrev pub protocol_version : ℕ
protocol_version = 1

abbrev pub max_text_bytes : ℕ
max_text_bytes = 64 * 1024

abbrev pub max_attachment_bytes : ℕ
max_attachment_bytes = 8 * 1024 * 1024

pub record Group : Type 0 where
  pub id : GroupId
  pub name : Text
  pub secret : Key
  pub created_at_ms : ℤ

pub record Channel : Type 0 where
  pub id : ChannelId
  pub group_id : GroupId
  pub name : Text
  pub position : ℕ

pub record InviteChannel : Type 0 where
  pub id : ChannelId
  pub name : Text
  pub position : ℕ

pub record UnsignedGroupInvite : Type 0 where
  pub version : ℕ
  pub group_id : GroupId
  pub group_name : Text
  pub group_secret : Key
  pub channels : List InviteChannel
  pub inviter : PeerId
  pub inviter_name : Text
  pub endpoints : List Text
  pub created_at_ms : ℤ

pub record GroupInvite : Type 0 where
  pub body : UnsignedGroupInvite
  pub signature : Bytes

pub data MessagePayload : Type 0 where
  -- body
  text : Text → MessagePayload
  -- file_name, mime, bytes, caption
  attachment : Text → Text → Bytes → Text → MessagePayload
  -- body
  system : Text → MessagePayload

-- `MessagePayload::kind`
unfoldable pub kind : MessagePayload → ℕ
kind (text _) = 1
kind (attachment _ _ _ _) = 2
kind (system _) = 3

validate_body : Text → Result (Unit {0})
validate_body body = do
  ensure (not (is_empty (trim body))) message_is_empty
  ensure (leb (byte_len body) max_text_bytes) message_too_long

-- `MessagePayload::validate`
unfoldable pub validate : MessagePayload → Result (Unit {0})
unfolding validate_body
validate (text body) = validate_body body
validate (system body) = validate_body body
validate (attachment file_name mime bytes caption) = do
  ensure (not (is_empty (trim file_name))) attachment_has_no_name
  ensure (leb (length bytes) max_attachment_bytes) attachment_too_long
  ensure (leb (byte_len caption) max_text_bytes) caption_too_long

pub record EventHeaderWithoutId : Type 0 where
  pub version : ℕ
  pub group_id : GroupId
  pub channel_id : ChannelId
  pub author : PeerId
  pub author_sequence : ℕ
  pub sent_at_ms : ℤ
  pub payload_kind : ℕ
  pub nonce : Nonce

pub record EventHeader : Type 0 where
  pub version : ℕ
  pub id : EventId
  pub group_id : GroupId
  pub channel_id : ChannelId
  pub author : PeerId
  pub author_sequence : ℕ
  pub sent_at_ms : ℤ
  pub payload_kind : ℕ
  pub nonce : Nonce

-- `EventHeader::without_id`
abbrev pub without_id : EventHeader → EventHeaderWithoutId
without_id h = record {
  version = h.version;
  group_id = h.group_id;
  channel_id = h.channel_id;
  author = h.author;
  author_sequence = h.author_sequence;
  sent_at_ms = h.sent_at_ms;
  payload_kind = h.payload_kind;
  nonce = h.nonce;
}

pub record EventEnvelope : Type 0 where
  pub header : EventHeader
  pub ciphertext : Bytes
  pub signature : Bytes

pub record TimelineEntry : Type 0 where
  pub event : EventEnvelope
  pub author_name : Text
  pub payload : MessagePayload

pub record AuthorHead : Type 0 where
  pub author : PeerId
  pub sequence : ℕ

pub record GroupInventory : Type 0 where
  pub group_id : GroupId
  pub heads : List AuthorHead
