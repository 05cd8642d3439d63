-- ===== src/Crypto/Events.antt =====
-- Sealed events open: `seal_event` and `validate_and_open_event` of src/crypto.rs.
use opencord.Base.{ℕ, ℤ, ◌≡◌, Option, ok, arith, bind-inv, ensure-inv, or_error-inv, ◌==◌}
use opencord.Model.{
  Bytes, Key, Nonce, GroupId, ChannelId, EventEnvelope, MessagePayload, protocol_version, kind,
  validate, without_id, UnsignedGroupInvite, GroupInvite,
}
use opencord.Crates.{Crates, CratesLaws}
use opencord.Crypto.{
  Identity, peer_id, sign, compute_event_id, event_signing_bytes, verify_signature, seal_event,
  validate_and_open_event, sign_invite, verify_invite,
}

module _ (c : Crates) (laws : CratesLaws c) where
  pub verify_signature-sign :
      (i : Identity) (bytes : Bytes)
      → verify_signature c (peer_id c i) bytes (sign c i bytes) ≡ ok tt
  unfolding verify_signature
  verify_signature-sign i bytes = rw (
    laws.key-verifying_key i.signing_key,
    laws.length-signature i.signing_key bytes,
    laws.verify-signature i.signing_key bytes,
  )

  -- Under the laws of the crates, an event that `seal_event` returns opens under the group's key
  -- to the payload that was sealed, and its header says who sealed it, where, when, and with which
  -- sequence number.
  pub open-seal :
      (i : Identity) (g : GroupId) (ch : ChannelId) (secret : Key) (n : ℕ) (at : ℤ)
      (drawn : Option Nonce) (p : MessagePayload) (e : EventEnvelope)
      → seal_event c i g ch secret n at drawn p ≡ ok e
      → (validate_and_open_event c e secret ≡ ok p)
        × (e.header.author ≡ peer_id c i)
        × (e.header.group_id ≡ g)
        × (e.header.channel_id ≡ ch)
        × (e.header.author_sequence ≡ n)
        × (e.header.sent_at_ms ≡ at)
  unfolding seal_event validate_and_open_event
  open-seal i g ch secret n at drawn p e h = bind-inv (validate p) _ h λ _ valid h1.
      or_error-inv drawn _ _ h1 λ nonce _ h2.
        or_error-inv (c.header_without_id.to_stdvec _) _ _ h2 λ ad ad_eq h3.
          or_error-inv (c.payload.to_stdvec p) _ _ h3 λ plain plain_eq h4.
            or_error-inv (c.encrypt secret nonce plain ad) _ _ h4 λ sealed sealed_eq h5.
              bind-inv (compute_event_id c _ sealed) _ h5 λ id id_eq h6.
                bind-inv (event_signing_bytes c _ sealed) _ h6 λ bytes bytes_eq h7. ground (
                  arith,
                  verify_signature-sign i bytes,
                  laws.decrypt-encrypt secret nonce plain ad sealed sealed_eq,
                  laws.payload_law.from_bytes-to_stdvec p plain plain_eq,
                )

  -- Under the laws of the crates, an invite of the current version that an identity signs for
  -- itself verifies.
  pub verify_invite-sign_invite :
      (i : Identity) (body : UnsignedGroupInvite) (invite : GroupInvite)
      → body.version ≡ protocol_version
      → body.inviter ≡ peer_id c i
      → sign_invite c i body ≡ ok invite
      → verify_invite c invite ≡ ok tt
  unfolding sign_invite verify_invite
  verify_invite-sign_invite i body invite v who h =
      or_error-inv (c.unsigned_invite.to_stdvec body) _ _ h
        λ bytes bytes_eq h1. ground (arith, verify_signature-sign i bytes)

module _ (c : Crates) where
  pub open-IsAuthentic :
      (e : EventEnvelope) (secret : Key) (p : MessagePayload)
      → validate_and_open_event c e secret ≡ ok p
      → (e.header.version ≡ protocol_version)
        × (compute_event_id c (without_id e.header) e.ciphertext ≡ ok e.header.id)
        × ((bytes : Bytes) × (event_signing_bytes c e.header e.ciphertext ≡ ok bytes)
            × (verify_signature c e.header.author bytes e.signature ≡ ok tt))
        × (kind p ≡ e.header.payload_kind)
        × (validate p ≡ ok tt)
  unfolding validate_and_open_event
  open-IsAuthentic e secret p h =
      ensure-inv (e.header.version == protocol_version) _ _ h λ version h1.
        bind-inv (compute_event_id c _ e.ciphertext) _ h1 λ id id_eq h2.
          ensure-inv (id == e.header.id) _ _ h2 λ same h3.
            bind-inv (event_signing_bytes c _ e.ciphertext) _ h3 λ bytes bytes_eq h4.
              bind-inv (verify_signature c _ bytes _) _ h4 λ u signed h5.
                or_error-inv (c.header_without_id.to_stdvec _) _ _ h5 λ ad _ h6.
                  or_error-inv (c.decrypt secret _ _ ad) _ _ h6 λ plain _ h7.
                    or_error-inv (c.payload.from_bytes plain) _ _ h7 λ q _ h8.
                      ensure-inv (kind q == e.header.payload_kind) _ _ h8 λ same_kind h9.
                        bind-inv (validate q) _ h9 λ v valid h10. (
                          ground arith,
                          ground arith,
                          (bytes, bytes_eq, ground arith),
                          ground arith,
                          ground arith,
                        )
