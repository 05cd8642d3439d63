-- ===== src/Audio/Mixer.antt =====
-- The threads of src/audio.rs between the devices and the network: `encode_loop` and
-- `decode_mix_loop`, a round of their loops at a time. Samples (`f32`), the Opus coders and postcard
-- are parameters; times are milliseconds. `push_resampled`, a loop on an `f64`, is not modelled.
pub mod Bounds
use opencord.Base.{
  ℕ, zero, suc, ◌+◌, ◌-◌, ◌*◌, ◌^◌, ◌%◌, ◌==◌, Bool, true, false, not, ◌||◌, List, [], ◌∷◌, ◌++◌,
  Option, none, some, if◌then◌else◌, drop, filterb, is_empty, length, ltb,
}
use opencord.Model.{Bytes, PeerId, GroupId}
use opencord.Crates.{Codec}
use opencord.Network.Wire.{IncomingVoice, VoicePacket}
use opencord.Audio.{sequence_is_newer}

abbrev pub frame_samples : ℕ
frame_samples = 960

pub record EncodedAudioFrame : Type 0 where
  pub sequence : ℕ
  pub opus : Bytes

-- `opus::Encoder`, `opus::Decoder` and the arithmetic of samples.
pub record Sound : Type 1 where
  pub Sample : Type 0
  pub Encoder : Type 0
  pub Decoder : Type 0
  pub encode_float : Encoder → List Sample → Option (Bytes × Encoder)
  pub decode_float : Decoder → Bytes → Option (List Sample × Decoder)
  pub new_decoder : Decoder
  pub silence : Sample
  pub add : Sample → Sample → Sample
  -- a sample times the gain for a number of active peers
  pub scaled : ℕ → Sample → Sample
  pub frame_codec : Codec EncodedAudioFrame

module _ (sound : Sound) where
  pub record EncodeState : Type 0 where
    pub encoder : sound.Encoder
    pub sequence : ℕ

  pub record PeerDecoder : Type 0 where
    pub peer : PeerId
    pub decoder : sound.Decoder
    pub queued : List sound.Sample
    pub last_sequence : Option ℕ
    pub last_packet : ℕ

module _ (sound : Sound) where
  -- The packet that `encode_loop` hands to the sessions, if postcard encodes it.
  abbrev packet_of : GroupId → EncodedAudioFrame → List VoicePacket
  packet_of group_id frame = elim (sound.frame_codec.to_stdvec frame) [
    | some bytes ↦ record { group_id = group_id; bytes = bytes } ∷ []
    | none ↦ []
  ]

  -- What `encode_loop` does with a captured frame: the packets that it sends, and its next state.
  -- The number is taken by `fetch_add`, which wraps around.
  unfoldable pub encode_frame :
      GroupId → Bool → List sound.Sample → EncodeState sound → List VoicePacket × EncodeState sound
  encode_frame group_id muted frame st =
      if muted || not (length frame == frame_samples)
      then ([], st)
      else elim (sound.encode_float st.encoder frame) [
        | none ↦ ([], st)
        | some (opus, encoder) ↦ (
          packet_of group_id (record { sequence = st.sequence; opus = opus }),
          record { encoder = encoder; sequence = (st.sequence + 1) % 2 ^ 32 },
        )
      ]

  abbrev pub is_stale : ℕ → Option ℕ → Bool
  is_stale sequence none = false
  is_stale sequence (some last) = not (sequence_is_newer sequence last)

  -- while queued.len() > FRAME_SAMPLES * 10 { pop_front }
  abbrev pub last_ten_frames : List sound.Sample → List sound.Sample
  last_ten_frames queued = drop (length queued - frame_samples * 10) queued

  -- What Opus made of the frame goes into the decoder of its peer.
  abbrev pub accept_decoded :
      ℕ → ℕ → PeerDecoder sound → Option (List sound.Sample × sound.Decoder) → PeerDecoder sound
  accept_decoded sequence now p none = p
  accept_decoded sequence now p (some (pcm, decoder)) = record p {
    decoder = decoder;
    queued = last_ten_frames (p.queued ++ pcm);
    last_sequence = some sequence;
    last_packet = now;
  }

  unfoldable pub accept_frame : EncodedAudioFrame → ℕ → PeerDecoder sound → PeerDecoder sound
  accept_frame frame now p =
      if is_stale frame.sequence p.last_sequence
      then p
      else accept_decoded frame.sequence now p (sound.decode_float p.decoder frame.opus)

  -- `peers.entry(packet.peer).or_insert_with(..)`, and the update of what it gives.
  unfoldable pub at_peer :
      PeerId
      → ℕ
      → (PeerDecoder sound → PeerDecoder sound)
      → List (PeerDecoder sound)
      → List (PeerDecoder sound)
  at_peer id now f [] =
      f (record {
        peer = id;
        decoder = sound.new_decoder;
        queued = [];
        last_sequence = none;
        last_packet = now;
      })
      ∷ []
  at_peer id now f (p ∷ ps) = if p.peer == id then f p ∷ ps else p ∷ at_peer id now f ps

  abbrev pub receive_frame :
      PeerId → ℕ → List (PeerDecoder sound) → Option EncodedAudioFrame → List (PeerDecoder sound)
  receive_frame peer now peers none = peers
  receive_frame peer now peers (some frame) = at_peer peer now (accept_frame frame now) peers

  -- The arm of `decode_mix_loop` for a packet.
  unfoldable pub receive_packet :
      GroupId → IncomingVoice → ℕ → List (PeerDecoder sound) → List (PeerDecoder sound)
  unfolding at_peer accept_frame
  receive_packet group_id packet now peers =
      if packet.group_id == group_id
      then receive_frame packet.peer now peers (sound.frame_codec.from_bytes packet.bytes)
      else peers

  -- for sample in &mut mixed { *sample += queued.pop_front().unwrap_or(0.0) * gain }
  abbrev pub add_queue : ℕ → List sound.Sample → List sound.Sample → List sound.Sample
  add_queue active [] queued = []
  add_queue active (m ∷ mixed) [] =
      sound.add m (sound.scaled active sound.silence) ∷ add_queue active mixed []
  add_queue active (m ∷ mixed) (q ∷ queued) =
      sound.add m (sound.scaled active q) ∷ add_queue active mixed queued

  abbrev pub silent : ℕ → List sound.Sample
  silent zero = []
  silent (suc n) = sound.silence ∷ silent n

  abbrev pub mix_queues : ℕ → List sound.Sample → List (PeerDecoder sound) → List sound.Sample
  mix_queues active mixed [] = mixed
  mix_queues active mixed (p ∷ ps) = mix_queues active (add_queue active mixed p.queued) ps

  abbrev pub active_peers : List (PeerDecoder sound) → ℕ
  active_peers peers = length (filterb (λ p. not (is_empty p.queued)) peers)

  abbrev pub take_frames : List (PeerDecoder sound) → List (PeerDecoder sound)
  take_frames [] = []
  take_frames (p ∷ ps) = record p { queued = drop frame_samples p.queued } ∷ take_frames ps

  abbrev pub mix_unless :
      Bool → List (PeerDecoder sound) → Option (List sound.Sample) × List (PeerDecoder sound)
  mix_unless true heard = (none, heard)
  mix_unless false heard =
      (some (mix_queues (active_peers heard) (silent frame_samples) heard), take_frames heard)

  -- The mix that is due: peers that were silent for five seconds are forgotten, and a frame of each
  -- queue is mixed, unless nothing is to be heard. The result has the mixed frame.
  unfoldable pub mix :
      Bool → ℕ → List (PeerDecoder sound) → Option (List sound.Sample) × List (PeerDecoder sound)
  mix deafened now peers =
      let heard = filterb (λ p. ltb (now - p.last_packet) 5000) peers in
      mix_unless (deafened || active_peers heard == 0) heard
