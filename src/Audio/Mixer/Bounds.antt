-- ===== src/Audio/Mixer/Bounds.antt =====
-- How much `decode_mix_loop` of src/audio.rs keeps and how much it hands on.
use opencord.Base.{
  ℕ, zero, suc, ◌-◌, ◌*◌, ◌≤◌, ◌≡◌, refl, ◌∙◌, Bool, true, false, ◌==◌, List, [], ◌∷◌, ◌++◌, Option,
  none, some, All, All-filterb, arith, if◌then◌else◌, drop, length,
}
use opencord.Model.{PeerId, GroupId}
use opencord.Network.Wire.{IncomingVoice}
use opencord.Audio.Mixer.{
  Sound, PeerDecoder, EncodedAudioFrame, frame_samples, is_stale, accept_frame, at_peer,
  receive_packet, add_queue, silent, mix_queues, take_frames, mix_unless, mix, accept_decoded,
  receive_frame,
}

length-drop {ℓ} : {A : Type ℓ} (n : ℕ) (xs : List A) → length (drop n xs) ≡ length xs - n
length-drop zero xs = omega arith
length-drop (suc n) [] = omega arith
length-drop (suc n) (x ∷ xs) = omega (arith, length-drop n xs)

module _ (sound : Sound) where
  -- At most ten frames wait to be mixed.
  abbrev pub IsBounded : PeerDecoder sound → Type 0
  IsBounded p = length p.queued ≤ frame_samples * 10

  accept_decoded-IsBounded :
      (n at : ℕ) (p : PeerDecoder sound) (decoded : Option (List sound.Sample × sound.Decoder))
      → IsBounded p
      → IsBounded (accept_decoded sound n at p decoded)
  accept_decoded-IsBounded n at p none v = v
  accept_decoded-IsBounded n at p (some (pcm, decoder)) v =
      omega (arith, length-drop (length (p.queued ++ pcm) - frame_samples * 10) (p.queued ++ pcm))

  accept_frame-IsBounded :
      (frame : EncodedAudioFrame) (at : ℕ) (p : PeerDecoder sound)
      → IsBounded p
      → IsBounded (accept_frame sound frame at p)
  unfolding accept_frame
  accept_frame-IsBounded frame at p v =
      let decoded =
        accept_decoded sound frame.sequence at p (sound.decode_float p.decoder frame.opus) in
      elim (is_stale sound frame.sequence p.last_sequence)
        as (λ b. IsBounded (if b then p else decoded)) [
          | true ↦ v
          | false ↦ accept_decoded-IsBounded frame.sequence at p _ v
        ]

  at_peer-All :
      (id : PeerId) (at : ℕ) (f : PeerDecoder sound → PeerDecoder sound)
      (ps : List (PeerDecoder sound))
      → ((p : PeerDecoder sound) → IsBounded p → IsBounded (f p))
      → All IsBounded ps
      → All IsBounded (at_peer sound id at f ps)
  unfolding at_peer
  at_peer-All id at f [] h v = (h _ (omega arith), tt)
  at_peer-All id at f (p ∷ ps) h v =
      elim (p.peer == id)
        as (λ b. All IsBounded (if b then f p ∷ ps else p ∷ at_peer sound id at f ps)) [
          | true ↦ (h p v.0, v.1)
          | false ↦ (v.0, at_peer-All id at f ps h v.1)
        ]

  receive_frame-All :
      (id : PeerId) (at : ℕ) (ps : List (PeerDecoder sound)) (decoded : Option EncodedAudioFrame)
      → All IsBounded ps
      → All IsBounded (receive_frame sound id at ps decoded)
  receive_frame-All id at ps none v = v
  receive_frame-All id at ps (some frame) v =
      at_peer-All id at (accept_frame sound frame at) ps (λ p. accept_frame-IsBounded frame at p) v

  receive_packet-All :
      (g : GroupId) (packet : IncomingVoice) (at : ℕ) (ps : List (PeerDecoder sound))
      → All IsBounded ps
      → All IsBounded (receive_packet sound g packet at ps)
  unfolding receive_packet
  receive_packet-All g packet at ps v =
      let frame = sound.frame_codec.from_bytes packet.bytes in
      elim (packet.group_id == g)
        as (λ b. All IsBounded (if b then receive_frame sound packet.peer at ps frame else ps)) [
          | true ↦ receive_frame-All packet.peer at ps frame v
          | false ↦ v
        ]

  take_frames-All :
      (ps : List (PeerDecoder sound)) → All IsBounded ps → All IsBounded (take_frames sound ps)
  take_frames-All [] v = tt
  take_frames-All (p ∷ ps) v =
      (omega (arith, length-drop frame_samples p.queued, v.0), take_frames-All ps v.1)

  length-add_queue :
      (n : ℕ) (mixed queued : List sound.Sample)
      → length (add_queue sound n mixed queued) ≡ length mixed
  length-add_queue n [] queued = refl
  length-add_queue n (m ∷ mixed) [] = omega (arith, length-add_queue n mixed [])
  length-add_queue n (m ∷ mixed) (q ∷ queued) = omega (arith, length-add_queue n mixed queued)

  length-mix_queues :
      (n : ℕ) (mixed : List sound.Sample) (ps : List (PeerDecoder sound))
      → length (mix_queues sound n mixed ps) ≡ length mixed
  length-mix_queues n mixed [] = refl
  length-mix_queues n mixed (p ∷ ps) =
      length-mix_queues n (add_queue sound n mixed p.queued) ps ∙ length-add_queue n mixed p.queued

  length-silent : (n : ℕ) → length (silent sound n) ≡ n
  length-silent zero = refl
  length-silent (suc n) = omega (arith, length-silent n)

  -- A whole frame, or nothing.
  abbrev pub IsFrame : Option (List sound.Sample) → Type 0
  IsFrame none = Unit
  IsFrame (some samples) = length samples ≡ frame_samples

  mix_unless_lem :
      (b : Bool) (ps : List (PeerDecoder sound))
      → All IsBounded ps
      → IsFrame (mix_unless sound b ps).0 × All IsBounded (mix_unless sound b ps).1
  mix_unless_lem true ps v = (tt, v)
  mix_unless_lem false ps v = (
    length-mix_queues _ (silent sound frame_samples) ps ∙ length-silent frame_samples,
    take_frames-All ps v,
  )

  mix_lem :
      (deafened : Bool) (at : ℕ) (ps : List (PeerDecoder sound))
      → All IsBounded ps
      → IsFrame (mix sound deafened at ps).0 × All IsBounded (mix sound deafened at ps).1
  unfolding mix
  mix_lem deafened at ps v = mix_unless_lem _ _ (All-filterb IsBounded _ ps v)

-- What a round of the loop does.
pub data Round : Type 0 where
  packet : IncomingVoice → ℕ → Round
  mixes : Bool → ℕ → Round

module _ (sound : Sound) (g : GroupId) where
  abbrev pub after : List Round → List (PeerDecoder sound) → List (PeerDecoder sound)
  after [] ps = ps
  after (packet p at ∷ rest) ps = after rest (receive_packet sound g p at ps)
  after (mixes deafened at ∷ rest) ps = after rest (mix sound deafened at ps).1

  after-All :
      (rounds : List Round) (ps : List (PeerDecoder sound))
      → All (IsBounded sound) ps
      → All (IsBounded sound) (after rounds ps)
  after-All [] ps v = v
  after-All (packet p at ∷ rest) ps v = after-All rest _ (receive_packet-All sound g p at ps v)
  after-All (mixes deafened at ∷ rest) ps v = after-All rest _ (mix_lem sound deafened at ps v).1

  -- Whatever packets arrive and however they and the mixes alternate, the queue of every peer has at
  -- most ten frames of samples, and the next mix gives a whole frame or nothing.
  pub after-IsBounded :
      (rounds : List Round) (deafened : Bool) (at : ℕ)
      → All (IsBounded sound) (after rounds [])
        × IsFrame sound (mix sound deafened at (after rounds [])).0
  after-IsBounded rounds deafened at =
      let v = after-All rounds [] tt in (v, (mix_lem sound deafened at (after rounds []) v).0)
