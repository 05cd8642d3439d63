-- ===== src/Tests/Toy.antt =====
-- Third-party crates that are small enough to run: a cipher that writes the key and the nonce in
-- front, a signature that anyone can make, an encoding that does nothing.
use opencord.Base.{
  ℕ, ◌+◌, ◌*◌, ◌≡◌, refl, true, [], ◌∷◌, ◌++◌, Option, none, some, ◌==◌, ◌&&◌, if◌then◌else◌, arith,
  subst,
}
use opencord.Text.{text_eq}
use opencord.Model.{
  Bytes, Key, Nonce, EventHeaderWithoutId, MessagePayload, Channel, text, attachment, system,
}
use opencord.Crates.{Crates, CratesLaws}
use opencord.Network.Wire.{
  NetCrates, Wire, sync_done, hello, group_proofs, channels, inventories, requests, event_batch,
  live_event, channel_upsert, screen_frame, ping, pong,
}

abbrev pub header_bytes : EventHeaderWithoutId → Option Bytes
header_bytes h =
    some (h.group_id ∷ h.channel_id ∷ h.author ∷ h.author_sequence ∷ h.payload_kind ∷ h.nonce ∷ [])

abbrev pub payload_bytes : MessagePayload → Option Bytes
payload_bytes (text body) = some body
payload_bytes _ = none

abbrev pub channel_bytes : Channel → Option Bytes
channel_bytes ch = some (ch.id ∷ ch.group_id ∷ ch.position ∷ ch.name)

abbrev pub bytes_channel : Bytes → Option Channel
bytes_channel (id ∷ group_id ∷ position ∷ name) =
    some (record { id = id; group_id = group_id; name = name; position = position })
bytes_channel _ = none

abbrev pub open_toy : Key → Nonce → Bytes → Option Bytes
open_toy k n (k' ∷ n' ∷ m) = if k == k' && n == n' then some m else none
open_toy k n _ = none

abbrev pub zeros : Bytes
zeros =
    let eight : Bytes = 0 ∷ 0 ∷ 0 ∷ 0 ∷ 0 ∷ 0 ∷ 0 ∷ 0 ∷ [] in
    eight ++ (eight ++ (eight ++ (eight ++ (eight ++ (eight ++ (eight ++ eight))))))

abbrev pub sum : Bytes → ℕ
sum [] = 7
sum (b ∷ bs) = b + 3 * sum bs

abbrev pub toy : Crates
toy = record {
  header_without_id = record { to_stdvec = header_bytes; from_bytes = λ bs. none };
  header = record { to_stdvec = λ h. some (h.id ∷ []); from_bytes = λ bs. none };
  payload = record { to_stdvec = payload_bytes; from_bytes = λ bs. some (text bs) };
  unsigned_invite = record {
    to_stdvec = λ i. some (i.group_id ∷ i.group_name);
    from_bytes = λ bs. none;
  };
  invite = record { to_stdvec = λ i. none; from_bytes = λ bs. none };
  channel = record { to_stdvec = channel_bytes; from_bytes = bytes_channel };
  verifying_key = λ k. k;
  signature_of = λ k m. zeros;
  key_is_valid = λ p. true;
  verify = λ p m s. text_eq s zeros;
  encrypt = λ k n m aad. some (k ∷ n ∷ m);
  decrypt = λ k n sealed aad. open_toy k n sealed;
  blake3 = sum;
  hmac_sha256 = λ k m. k + sum m;
  base64 = record { encode = λ bs. bs; decode = λ t. some t };
  to_lowercase = λ t. t;
  is_socket_address = λ t. true;
}

some_inj {ℓ} : {A : Type ℓ} {a b : A} → some a ≡ some b → a ≡ b
some_inj h = cc

payload_lem :
    (p : MessagePayload) (bytes : Bytes) → payload_bytes p ≡ some bytes → some (text bytes) ≡ some p
payload_lem (text body) bytes h = cc
payload_lem (attachment _ _ _ _) bytes h = absurd (cc)
payload_lem (system _) bytes h = absurd (cc)

channel_lem :
    (ch : Channel) (bytes : Bytes) → channel_bytes ch ≡ some bytes → bytes_channel bytes ≡ some ch
channel_lem ch bytes h = subst (λ b. bytes_channel b ≡ some ch) (some_inj h) refl

open_toy_lem : (k n : ℕ) (m : Bytes) → open_toy k n (k ∷ n ∷ m) ≡ some m
open_toy_lem k n m = ground arith

pub toy_laws : CratesLaws toy
unfolding text_eq
toy_laws = record {
  payload_law = record { from_bytes-to_stdvec = payload_lem };
  invite_law = record { from_bytes-to_stdvec = λ i bytes h. absurd (cc) };
  channel_law = record { from_bytes-to_stdvec = channel_lem };
  key-verifying_key = λ k. refl;
  length-signature = λ k m. refl;
  verify-signature = λ k m. refl;
  decrypt-encrypt =
      λ k n m aad sealed h. subst (λ b. open_toy k n b ≡ some m) (some_inj h) (open_toy_lem k n m);
  decode-encode = λ bytes h. refl;
  invite_bytes = λ i bytes h. absurd (cc);
}

-- A wire on which only the end of a transfer can be written.
abbrev pub wire_bytes : Wire → Option Bytes
wire_bytes sync_done = some (9 ∷ [])
wire_bytes _ = none

pub wire_lem : (w : Wire) (bytes : Bytes) → wire_bytes w ≡ some bytes → some sync_done ≡ some w
wire_lem sync_done bytes h = refl
wire_lem (hello _) bytes h = absurd (cc)
wire_lem (group_proofs _) bytes h = absurd (cc)
wire_lem (channels _) bytes h = absurd (cc)
wire_lem (inventories _) bytes h = absurd (cc)
wire_lem (requests _) bytes h = absurd (cc)
wire_lem (event_batch _) bytes h = absurd (cc)
wire_lem (live_event _) bytes h = absurd (cc)
wire_lem (channel_upsert _) bytes h = absurd (cc)
wire_lem (screen_frame _) bytes h = absurd (cc)
wire_lem (ping _) bytes h = absurd (cc)
wire_lem (pong _) bytes h = absurd (cc)

abbrev pub toy_net : NetCrates
toy_net = record {
  crates = toy;
  hello_codec = record { to_stdvec = λ h. some (h.peer ∷ h.display_name); from_bytes = λ bs. none };
  wire_codec = record { to_stdvec = wire_bytes; from_bytes = λ bs. some sync_done };
  voice_codec = record { to_stdvec = λ d. some d.ciphertext; from_bytes = λ bs. none };
  show_address = λ a. [];
}

-- A wire of which only what is written is looked at, not the bytes.
abbrev pub loose_net : NetCrates
loose_net = record toy_net {
  wire_codec = record { to_stdvec = λ w. some (0 ∷ []); from_bytes = λ bs. none };
}
