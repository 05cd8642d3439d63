-- ===== src/Network/Handshake.antt =====
-- The handshake of src/network.rs: signed hellos, proofs of the group keys, and the sealing of
-- channel metadata, voice packets and screen frames under a group's key.
pub mod Binding
pub mod Hello
pub mod Shared
use opencord.Base.{
  ℕ, ◌==◌, ◌&&◌, Bool, true, false, not, List, [], ◌∷◌, ◌++◌, Option, none, some, ltb, leb,
  if◌then◌else◌, any, filterb, map, is_empty, Result, ok, err, ensure, or_error, ◌>>◌, ◌>>=◌,
  randomness, encode, decode, incompatible_version, invalid_peer_name, voice_encryption_failed,
  voice_authentication_failed,
}
use opencord.Text.{Text, codes, trim, byte_len}
use opencord.Model.{Bytes, Key, Nonce, GroupId, PeerId, Group, protocol_version}
use opencord.Model.ByteId.{be_bytes}
use opencord.Crypto.{Identity, peer_id, sign, verify_signature}
use opencord.Network.Wire.{NetCrates, UnsignedPeerHello, PeerHello, GroupProof, VoiceDatagram}

module _ (n : NetCrates) where
  -- `make_hello`; the nonce is drawn.
  unfoldable pub make_hello : Identity → ℕ → Option Key → Result PeerHello
  make_hello identity listen_port drawn = do
    nonce ← or_error drawn randomness
    let body : UnsignedPeerHello = record {
      version = protocol_version;
      nonce = nonce;
      peer = peer_id n.crates identity;
      display_name = identity.display_name;
      listen_port = listen_port;
    }
    bytes ← or_error (n.hello_codec.to_stdvec body) encode
    ok (record { body = body; signature = sign n.crates identity bytes })

  -- `verify_hello`
  unfoldable pub verify_hello : PeerHello → Result (Unit {0})
  verify_hello h = do
    ensure (h.body.version == protocol_version) incompatible_version
    ensure (not (is_empty (trim h.body.display_name)) && leb (byte_len h.body.display_name) 192)
        invalid_peer_name
    bytes ← or_error (n.hello_codec.to_stdvec h.body) encode
    verify_signature n.crates h.body.peer bytes h.signature

  -- `group_proof`
  unfoldable pub group_proof : Key → GroupId → UnsignedPeerHello → UnsignedPeerHello → Key
  group_proof secret group_id sender receiver = n.crates.hmac_sha256 secret (
      codes "opencord-group-proof-v1"
      ++ (be_bytes 16 group_id
          ++ (be_bytes 32 sender.peer
              ++ (be_bytes 32 sender.nonce
                  ++ (be_bytes 32 receiver.peer ++ be_bytes 32 receiver.nonce)))))

  -- The proofs that `run_session` sends.
  unfoldable pub local_proofs : List Group → UnsignedPeerHello → UnsignedPeerHello → List GroupProof
  local_proofs groups local remote =
      map (λ g. record { group_id = g.id; proof = group_proof g.secret g.id local remote }) groups

  -- The test of `run_session` on a local group, with `constant_time_eq`.
  unfoldable pub is_authenticated :
      UnsignedPeerHello → UnsignedPeerHello → List GroupProof → Group → Bool
  is_authenticated local remote proofs g =
      any (λ p. p.group_id == g.id && p.proof == group_proof g.secret g.id remote local) proofs

  -- `seal_voice`
  unfoldable pub seal_voice : GroupId → Key → Bytes → Option Nonce → Result VoiceDatagram
  seal_voice group_id secret bytes drawn = do
    nonce ← or_error drawn randomness
    ciphertext ←
        or_error (n.crates.encrypt secret nonce bytes (be_bytes 16 group_id))
          voice_encryption_failed
    ok (record { group_id = group_id; nonce = nonce; ciphertext = ciphertext })

  -- `open_voice`
  unfoldable pub open_voice : VoiceDatagram → Key → Result Bytes
  open_voice datagram secret =
      or_error
        (n.crates.decrypt secret datagram.nonce datagram.ciphertext (be_bytes 16 datagram.group_id))
        voice_authentication_failed

-- `collect::<BTreeSet<_>>()`: the members in increasing order, each once.
unfoldable pub insert_set : ℕ → List ℕ → List ℕ
insert_set x [] = x ∷ []
insert_set x (y ∷ ys) =
    if x == y then y ∷ ys else if ltb x y then x ∷ y ∷ ys else y ∷ insert_set x ys

unfoldable pub set_of : List ℕ → List ℕ
unfolding insert_set
set_of [] = []
set_of (x ∷ xs) = insert_set x (set_of xs)

abbrev pub member : ℕ → List ℕ → Bool
member x xs = any (λ y. y == x) xs

module _ (n : NetCrates) where
  -- The set `shared_groups` of `run_session`.
  unfoldable pub shared_groups :
      List Group → UnsignedPeerHello → UnsignedPeerHello → List GroupProof → List GroupId
  unfolding set_of is_authenticated
  shared_groups groups local remote proofs =
      set_of (map (λ g. g.id) (filterb (is_authenticated n local remote proofs) groups))
