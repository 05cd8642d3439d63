-- ===== src/Crypto.antt =====
-- src/crypto.rs: identities, event sealing and opening, invites and their signatures.
-- The key file is not modelled but for what `load_or_create` and `save` make of its contents; random
-- values are arguments (`none`: the operating system gave none).
pub mod Events
pub mod Identities
pub mod KeyFile
use opencord.Base.{
  ℕ, ◌==◌, Bool, List, Option, none, some, ℤ, ◌++◌, length, Result, ok, err, ensure, or_error, ◌>>◌,
  ◌>>=◌, randomness, encode, decode, encryption_failed, unsupported_event_version,
  event_id_mismatch, bad_signature, event_authentication_failed, payload_kind_mismatch,
  unsupported_invite_version, unsupported_identity_file, invalid_secret_length, if◌then◌else◌,
}
use opencord.Text.{Text, codes, sanitize_name, new_peer}
use opencord.Model.{
  Bytes, Key, Nonce, PeerId, GroupId, ChannelId, EventId, EventHeader, EventHeaderWithoutId,
  EventEnvelope, MessagePayload, UnsignedGroupInvite, GroupInvite, protocol_version, kind, validate,
  without_id,
}
use opencord.Model.ByteId.{be_bytes, be_value}
use opencord.Crates.{Crates}

pub record Identity : Type 0 where
  pub signing_key : Key
  pub display_name : Text

abbrev pub identity_file_version : ℕ
identity_file_version = 1

pub record IdentityFile : Type 0 where
  pub version : ℕ
  pub display_name : Text
  pub secret : Text

-- `Identity::generate`; the secret is the random value.
unfoldable pub generate : Key → Text → Identity
generate secret display_name = record {
  signing_key = secret;
  display_name = sanitize_name display_name;
}

-- `Identity::rename`
unfoldable pub rename : Identity → Text → Identity
rename i display_name = record i { display_name = sanitize_name display_name }

module _ (c : Crates) where
  -- `Identity::peer_id`
  abbrev pub peer_id : Identity → PeerId
  peer_id i = c.verifying_key i.signing_key

  -- `Identity::sign`
  abbrev pub sign : Identity → Bytes → Bytes
  sign i bytes = c.signature_of i.signing_key bytes

  -- `Identity::save`: the record that it writes.
  unfoldable pub identity_file : Identity → IdentityFile
  identity_file i = record {
    version = identity_file_version;
    display_name = i.display_name;
    secret = c.base64.encode (be_bytes 32 i.signing_key);
  }

  requested_or : Option Text → Text → Text
  requested_or (some name) stored = sanitize_name name
  requested_or none stored = sanitize_name stored

  -- `Identity::load_or_create` on a file that exists and decodes.
  unfoldable pub load : IdentityFile → Option Text → Result Identity
  unfolding requested_or
  load file requested_name = do
    ensure (file.version == identity_file_version) unsupported_identity_file
    bytes ← or_error (c.base64.decode file.secret) decode
    ensure (length bytes == 32) invalid_secret_length
    ok (record {
      signing_key = be_value bytes;
      display_name = requested_or requested_name file.display_name;
    })

  -- `Identity::load_or_create` on a path where no file exists.
  unfoldable pub create : Key → Option Text → Identity
  create secret (some name) = generate secret name
  create secret none = generate secret new_peer

  unfoldable pub compute_event_id : EventHeaderWithoutId → Bytes → Result EventId
  compute_event_id header ciphertext = do
    bytes ← or_error (c.header_without_id.to_stdvec header) encode
    ok (c.blake3 (codes "opencord-event-v1" ++ (bytes ++ ciphertext)))

  unfoldable pub event_signing_bytes : EventHeader → Bytes → Result Bytes
  event_signing_bytes header ciphertext = do
    bytes ← or_error (c.header.to_stdvec header) encode
    ok (bytes ++ ciphertext)

  unfoldable pub verify_signature : PeerId → Bytes → Bytes → Result (Unit {0})
  verify_signature peer bytes signature = do
    ensure (c.key_is_valid peer) bad_signature
    ensure (length signature == 64) bad_signature
    ensure (c.verify peer bytes signature) bad_signature

  unfoldable pub seal_event :
      Identity
      → GroupId
      → ChannelId
      → Key
      → ℕ
      → ℤ
      → Option Nonce
      → MessagePayload
      → Result EventEnvelope
  seal_event i group_id channel_id group_secret author_sequence sent_at_ms drawn payload = do
    validate payload
    nonce ← or_error drawn randomness
    let header : EventHeaderWithoutId = record {
      version = protocol_version;
      group_id = group_id;
      channel_id = channel_id;
      author = peer_id i;
      author_sequence = author_sequence;
      sent_at_ms = sent_at_ms;
      payload_kind = kind payload;
      nonce = nonce;
    }
    associated_data ← or_error (c.header_without_id.to_stdvec header) encode
    plaintext ← or_error (c.payload.to_stdvec payload) encode
    ciphertext ← or_error (c.encrypt group_secret nonce plaintext associated_data) encryption_failed
    id ← compute_event_id header ciphertext
    let full : EventHeader = record {
      version = header.version;
      id = id;
      group_id = group_id;
      channel_id = channel_id;
      author = header.author;
      author_sequence = author_sequence;
      sent_at_ms = sent_at_ms;
      payload_kind = header.payload_kind;
      nonce = nonce;
    }
    signing_bytes ← event_signing_bytes full ciphertext
    ok (record { header = full; ciphertext = ciphertext; signature = sign i signing_bytes })

  unfoldable pub validate_and_open_event : EventEnvelope → Key → Result MessagePayload
  validate_and_open_event event group_secret = do
    ensure (event.header.version == protocol_version) unsupported_event_version
    expected_id ← compute_event_id (without_id event.header) event.ciphertext
    ensure (expected_id == event.header.id) event_id_mismatch
    signing_bytes ← event_signing_bytes event.header event.ciphertext
    verify_signature event.header.author signing_bytes event.signature
    associated_data ← or_error (c.header_without_id.to_stdvec (without_id event.header)) encode
    plaintext ←
        or_error (c.decrypt group_secret event.header.nonce event.ciphertext associated_data)
          event_authentication_failed
    payload ← or_error (c.payload.from_bytes plaintext) decode
    ensure (kind payload == event.header.payload_kind) payload_kind_mismatch
    validate payload
    ok payload

  -- `Identity::sign_invite`
  unfoldable pub sign_invite : Identity → UnsignedGroupInvite → Result GroupInvite
  sign_invite i body = do
    bytes ← or_error (c.unsigned_invite.to_stdvec body) encode
    ok (record { body = body; signature = sign i bytes })

  unfoldable pub verify_invite : GroupInvite → Result (Unit {0})
  verify_invite invite = do
    ensure (invite.body.version == protocol_version) unsupported_invite_version
    bytes ← or_error (c.unsigned_invite.to_stdvec invite.body) encode
    verify_signature invite.body.inviter bytes invite.signature
