-- ===== src/Network/Handshake/Hello.antt =====
-- Hellos and sealed records of src/network.rs: what one side makes the other accepts.
use opencord.Base.{
  ap, ◌∙◌, ℕ, ◌≤◌, ◌<◌, ◌≡◌, refl, false, true, not, [], ◌∷◌, Option, ok, err, arith, or_error-inv,
  is_empty, length, le→leb, All, filterb, take_all, ◌++◌, invalid_peer_name,
}
use opencord.Text.{
  Text, trim, byte_len, sanitize_name, new_peer, clean_label, is_control, is_whitespace, trim_end,
  trim_start,
}
use opencord.Text.Clean.{NoControl, byte_len-le, clean_label_lem}
use opencord.Model.{Bytes, Key, Nonce, GroupId}
use opencord.Model.ByteId.{be_bytes}
use opencord.Crates.{CratesLaws}
use opencord.Crypto.{generate}
use opencord.Crypto.Events.{verify_signature-sign}
use opencord.Network.Wire.{NetCrates, PeerHello, VoiceDatagram}
use opencord.Network.Handshake.{make_hello, verify_hello, seal_voice, open_voice}

-- A cleaned name is between one and 48 characters, so at most 192 bytes, with no control characters.
pub sanitize_name_lem :
    (value : Text)
    → (0 < length (sanitize_name value))
      × (byte_len (sanitize_name value) ≤ 192)
      × NoControl (sanitize_name value)
unfolding sanitize_name clean_label is_control
sanitize_name_lem value =
    let (some_char, fits, plain) =
      clean_label_lem value new_peer 48 (omega arith) (omega arith) (ground arith) in
    (some_char, omega (arith, byte_len-le (sanitize_name value)), plain)

-- White space that is no control character.
abbrev pub IsBlank : Text → Type 0
IsBlank = All (λ c. (is_whitespace c ≡ true) × (is_control c ≡ false))

trim_start-blank : (s : Text) → IsBlank s → trim_start s ≡ []
unfolding trim_start
trim_start-blank [] h = refl
trim_start-blank (c ∷ s) h = ground (arith, h.0.0, trim_start-blank s h.1)

trim-blank : (s : Text) → IsBlank s → trim s ≡ []
trim-blank s h = unfold trim in rw (trim_start-blank s h)

trim_end-end : (d : ℕ) (s : Text) → is_whitespace d ≡ false → trim_end (s ++ d ∷ []) ≡ s ++ d ∷ []
unfolding trim_end
trim_end-end d [] h = ground (arith, h)
trim_end-end d (c ∷ []) h = ground (arith, h)
trim_end-end d (c ∷ c' ∷ s) h = rw (trim_end-end d (c' ∷ s) h)

filter-blank :
    (d : ℕ) (s : Text)
    → is_control d ≡ true
    → IsBlank s
    → filterb (λ c. not (is_control c)) (s ++ d ∷ []) ≡ s
filter-blank d [] control h = ground (arith, control)
filter-blank d (c ∷ s) control h = ground (arith, h.0.1, filter-blank d s control h.1)

-- A control character that is not trimmed.
abbrev pub IsHidden : ℕ → Type 0
IsHidden c = (is_control c ≡ true) × (is_whitespace c ≡ false)

trim_start-hidden : (c : ℕ) (s : Text) → IsHidden c → trim_start (c ∷ s) ≡ c ∷ s
unfolding trim_start
trim_start-hidden c s h = ground (arith, h.1)

trim-hidden :
    (c d : ℕ) (s : Text) → IsHidden c → IsHidden d → trim (c ∷ s ++ d ∷ []) ≡ c ∷ s ++ d ∷ []
unfolding trim
trim-hidden c d s hc hd =
    ap trim_end (trim_start-hidden c (s ++ d ∷ []) hc) ∙ trim_end-end d (c ∷ s) hd.1

sanitize_name-blank :
    (c d : ℕ) (s : Text)
    → IsHidden c
    → IsHidden d
    → IsBlank s
    → 0 < length s
    → length s ≤ 48
    → sanitize_name (c ∷ s ++ d ∷ []) ≡ s
unfolding sanitize_name
sanitize_name-blank c d [] hc hd h some_char fits = absurd (omega arith)
sanitize_name-blank c d (b ∷ s) hc hd h some_char fits =
    rw
      (trim-hidden c d (b ∷ s) hc hd, hc.0, filter-blank d (b ∷ s) hd.0 h, take_all (b ∷ s) 48 fits)

module _ (n : NetCrates) (laws : CratesLaws n.crates) where
  -- Under the laws of the crates, the hello of an identity whose name was cleaned passes the other
  -- side's check, unless the cleaned name is nothing but white space.
  pub verify_hello-make_hello :
      (key : Key) (name : Text) (port : ℕ) (drawn : Option Key) (h : PeerHello)
      → is_empty (trim (sanitize_name name)) ≡ false
      → make_hello n (generate key name) port drawn ≡ ok h
      → verify_hello n h ≡ ok tt
  unfolding make_hello verify_hello generate
  verify_hello-make_hello key name port drawn h shows made =
      or_error-inv drawn _ _ made λ nonce _ h1.
        or_error-inv (n.hello_codec.to_stdvec _) _ _ h1 λ bytes encoded h2.
          let (_, fits, _) = sanitize_name_lem name in
          ground (
            arith,
            verify_signature-sign n.crates laws (generate key name) bytes,
            le→leb (byte_len (sanitize_name name)) 192 fits,
          )

  -- A name of one to 48 spaces between two control characters, neither of them white space, which
  -- `trim` takes off, is cleaned to a blank one, since `sanitize_name` trims before it takes the
  -- control characters out: a hello that an identity of such a name makes is refused by
  -- `verify_hello`.
  pub verify_hello-blank :
      (key : Key) (c d : ℕ) (spaces : Text) (port : ℕ) (drawn : Option Key) (h : PeerHello)
      → IsHidden c
      → IsHidden d
      → IsBlank spaces
      → 0 < length spaces
      → length spaces ≤ 48
      → make_hello n (generate key (c ∷ spaces ++ d ∷ [])) port drawn ≡ ok h
      → verify_hello n h ≡ err invalid_peer_name
  unfolding make_hello verify_hello generate
  verify_hello-blank key c d spaces port drawn h hc hd blank some_char fits made =
      or_error-inv drawn _ _ made λ nonce _ h1.
        or_error-inv (n.hello_codec.to_stdvec _) _ _ h1 λ bytes encoded h2. ground (
          arith,
          sanitize_name-blank c d spaces hc hd blank some_char fits,
          trim-blank spaces blank,
        )

  -- Under the laws of the crates, what `seal_voice` seals for a group `open_voice` opens under the
  -- same key.
  pub open_voice-seal_voice :
      (g : GroupId) (secret : Key) (bytes : Bytes) (drawn : Option Nonce) (d : VoiceDatagram)
      → seal_voice n g secret bytes drawn ≡ ok d
      → (open_voice n d secret ≡ ok bytes) × (d.group_id ≡ g)
  unfolding seal_voice open_voice
  open_voice-seal_voice g secret bytes drawn d h = or_error-inv drawn _ _ h λ nonce _ h1.
      or_error-inv (n.crates.encrypt secret nonce bytes (be_bytes 16 g)) _ _ h1
        λ sealed encrypted h2.
          ground (arith, laws.decrypt-encrypt secret nonce bytes (be_bytes 16 g) sealed encrypted)
