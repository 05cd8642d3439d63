-- ===== src/Crates.antt =====
-- The third-party crates that the sources call, as parameters: postcard (serialization),
-- ed25519_dalek (signatures), chacha20poly1305 (sealing), blake3, hmac and base64, and the two
-- functions of the standard library that are taken as they are (`str::to_lowercase` and the test
-- `str::parse::<SocketAddr>().is_ok()`). What the code relies on is the record `CratesLaws`.
use opencord.Base.{ℕ, ◌<◌, ◌≡◌, Bool, true, Option, some, length, All}
use opencord.Text.{Text}
use opencord.Model.{
  Bytes, Key, Nonce, PeerId, EventHeader, EventHeaderWithoutId, MessagePayload, UnsignedGroupInvite,
  GroupInvite, Channel,
}
use opencord.Model.ByteId.{Base64}

-- `postcard::to_stdvec` and `postcard::from_bytes` at one type.
pub record Codec {ℓ} (A : Type ℓ) : Type ℓ where
  pub to_stdvec : A → Option Bytes
  pub from_bytes : Bytes → Option A

pub record CodecLaw {ℓ} {A : Type ℓ} (c : Codec A) : Type ℓ where
  pub from_bytes-to_stdvec :
      (a : A) (bytes : Bytes) → c.to_stdvec a ≡ some bytes → c.from_bytes bytes ≡ some a

pub record Crates : Type 0 where
  pub header_without_id : Codec EventHeaderWithoutId
  pub header : Codec EventHeader
  pub payload : Codec MessagePayload
  pub unsigned_invite : Codec UnsignedGroupInvite
  pub invite : Codec GroupInvite
  pub channel : Codec Channel
  -- `SigningKey::verifying_key`, `SigningKey::sign`
  pub verifying_key : Key → PeerId
  pub signature_of : Key → Bytes → Bytes
  -- `VerifyingKey::from_bytes(..).is_ok()` and `VerifyingKey::verify`
  pub key_is_valid : PeerId → Bool
  pub verify : PeerId → Bytes → Bytes → Bool
  -- `XChaCha20Poly1305`: key, nonce, message, associated data
  pub encrypt : Key → Nonce → Bytes → Bytes → Option Bytes
  pub decrypt : Key → Nonce → Bytes → Bytes → Option Bytes
  -- `blake3::Hasher` over the bytes handed to it, and `Hmac<Sha256>` under a key
  pub blake3 : Bytes → ℕ
  pub hmac_sha256 : Key → Bytes → ℕ
  pub base64 : Base64
  pub to_lowercase : Text → Text
  pub is_socket_address : Text → Bool

-- The documented behaviour on which the theorems rest.
pub record CratesLaws (c : Crates) : Type 0 where
  pub payload_law : CodecLaw c.payload
  pub invite_law : CodecLaw c.invite
  pub channel_law : CodecLaw c.channel
  pub key-verifying_key : (k : Key) → c.key_is_valid (c.verifying_key k) ≡ true
  pub length-signature : (k : Key) (m : Bytes) → length (c.signature_of k m) ≡ 64
  pub verify-signature :
      (k : Key) (m : Bytes) → c.verify (c.verifying_key k) m (c.signature_of k m) ≡ true
  pub decrypt-encrypt :
      (k : Key) (n : Nonce) (m aad sealed : Bytes)
      → c.encrypt k n m aad ≡ some sealed
      → c.decrypt k n sealed aad ≡ some m
  pub decode-encode :
      (bytes : Bytes)
      → All (λ b. b < 256) bytes
      → c.base64.decode (c.base64.encode bytes) ≡ some bytes
  -- serialization yields bytes
  pub invite_bytes :
      (i : GroupInvite) (bytes : Bytes)
      → c.invite.to_stdvec i ≡ some bytes
      → All (λ b. b < 256) bytes
