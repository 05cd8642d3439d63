-- ===== src/Tests/Files.antt =====
-- Examples of the theorems on the key file and on the settings.
use opencord.Base.{
  ℕ, zero, suc, ◌≡◌, refl, [], ◌∷◌, ◌++◌, ok, arith, Option, some, none, length, take, drop,
  take-append, drop-append, subst, Bool, true, false, if◌then◌else◌, ◌==◌,
}
use opencord.Text.{
  codes, is_whitespace, is_control, trim_start, trim_end, trim, text_eq, text_lt, strip_prefix,
  clean_label, sanitize_name,
}
use opencord.Model.{Bytes}
use opencord.Files.{Disk, Faults, no_faults, blank, after, replace_file, save_bytes, save_encoded}
use opencord.Settings
use opencord.Settings.{
  ThemeChoice, midnight, graphite, aurora, daylight, AccentChoice, violet, blue, mint, coral,
  MessageDensity, compact, cozy, Scales, AppSettings, default_settings, normalize,
}
use opencord.Model.ByteId.{be_bytes, be_value_from, be_value, display, short, from_str}
use opencord.Crypto.{
  generate, rename, identity_file, load, create, compute_event_id, event_signing_bytes,
  verify_signature, seal_event, validate_and_open_event, sign_invite, verify_invite,
}
use opencord.Crypto.KeyFile.{save, load_or_create}
use opencord.Entry.{default_display_name, display_name, start_identity, save_profile}
use opencord.Crates.{Codec, CodecLaw}
use opencord.Crypto.{Identity, IdentityFile, peer_id}
use opencord.Crypto.KeyFile.Starts.{load_or_create-again}
use opencord.Files.Recovers.{IsRecoverable, IsSaved, save_bytes-IsRecoverable}
use opencord.Entry.{Profile, start_identity-save_profile}
use opencord.Tests.Toy.{toy, toy_laws}

program : Unit {0}
unfolding is_whitespace is_control trim_start trim_end trim text_eq text_lt strip_prefix clean_label
    sanitize_name be_bytes be_value_from be_value display short from_str generate rename
    identity_file load create compute_event_id event_signing_bytes verify_signature seal_event
    validate_and_open_event sign_invite verify_invite replace_file save_bytes save_encoded save
    load_or_create normalize Settings.load Settings.save default_display_name display_name
    start_identity save_profile
program = tt

-- A toy encoding of the key file: the version, the length of the name, the name and the secret.
abbrev file_bytes : IdentityFile → Bytes
file_bytes f = f.version ∷ length f.display_name ∷ f.display_name ++ f.secret

abbrev file_of : Bytes → Option IdentityFile
file_of (version ∷ n ∷ rest) =
    some (record { version = version; display_name = take n rest; secret = drop n rest })
file_of _ = none

abbrev file_codec : Codec IdentityFile
file_codec = record { to_stdvec = λ f. some (file_bytes f); from_bytes = file_of }

file_of-bytes : (f : IdentityFile) → file_of (file_bytes f) ≡ some f
file_of-bytes f = rw (take-append f.display_name f.secret, drop-append f.display_name f.secret) refl

file_law : CodecLaw file_codec
file_law = record {
  from_bytes-to_stdvec =
      λ f bytes h. subst (λ b. file_of b ≡ some f) (some-injective h) (file_of-bytes f);
}
  where
    some-injective : {a b : Bytes} → some a ≡ some b → a ≡ b
    some-injective h = cc

abbrev ann : Identity
ann = record { signing_key = 3; display_name = codes "Ann" }

abbrev saved : Disk
saved = record { file = some (file_bytes (identity_file toy ann)); temporary = none }

load_or_create-again_example :
    (j : Identity) × (load_or_create toy file_codec no_faults 9 none saved ≡ (ok j, saved))
    × (peer_id toy j ≡ peer_id toy ann)
unfolding program
load_or_create-again_example =
    load_or_create-again toy file_codec toy_laws file_law no_faults no_faults 3 9
      (some (codes "Ann")) none blank (omega arith) refl refl

abbrev cut : Faults
cut = record no_faults { copy = some (after 1) }

save_bytes-IsRecoverable_example :
    IsRecoverable (7 ∷ 8 ∷ []) saved (save_bytes cut (7 ∷ 8 ∷ []) saved).1
    × ((save_bytes cut (7 ∷ 8 ∷ []) saved).0 ≡ ok tt
        → IsSaved (7 ∷ 8 ∷ []) (save_bytes cut (7 ∷ 8 ∷ []) saved).1)
save_bytes-IsRecoverable_example = save_bytes-IsRecoverable cut (7 ∷ 8 ∷ []) saved

-- A toy encoding of the settings: the numbers of the choices and the flags, and the name.
abbrev scales : Scales
scales = record { Scale = Unit {0}; one = tt; clamped = λ u. u }

abbrev theme_number : ThemeChoice → ℕ
theme_number midnight = 0
theme_number graphite = 1
theme_number aurora = 2
theme_number daylight = 3

abbrev theme_of : ℕ → ThemeChoice
theme_of zero = midnight
theme_of (suc zero) = graphite
theme_of (suc (suc zero)) = aurora
theme_of _ = daylight

theme_of-number : (t : ThemeChoice) → theme_of (theme_number t) ≡ t
theme_of-number midnight = refl
theme_of-number graphite = refl
theme_of-number aurora = refl
theme_of-number daylight = refl

abbrev accent_number : AccentChoice → ℕ
accent_number violet = 0
accent_number blue = 1
accent_number mint = 2
accent_number coral = 3

abbrev accent_of : ℕ → AccentChoice
accent_of zero = violet
accent_of (suc zero) = blue
accent_of (suc (suc zero)) = mint
accent_of _ = coral

accent_of-number : (a : AccentChoice) → accent_of (accent_number a) ≡ a
accent_of-number violet = refl
accent_of-number blue = refl
accent_of-number mint = refl
accent_of-number coral = refl

abbrev density_number : MessageDensity → ℕ
density_number compact = 0
density_number cozy = 1

abbrev density_of : ℕ → MessageDensity
density_of zero = compact
density_of _ = cozy

density_of-number : (d : MessageDensity) → density_of (density_number d) ≡ d
density_of-number compact = refl
density_of-number cozy = refl

abbrev flag : Bool → ℕ
flag b = if b then 1 else 0

abbrev flag_of : ℕ → Bool
flag_of n = n == 1

flag_of-flag : (b : Bool) → flag_of (flag b) ≡ b
flag_of-flag true = refl
flag_of-flag false = refl

abbrev settings_bytes : AppSettings scales → Bytes
settings_bytes s =
    s.version
    ∷ theme_number s.theme
    ∷ accent_number s.accent
    ∷ density_number s.density
    ∷ flag s.show_member_list
    ∷ flag s.show_message_ids
    ∷ flag s.enter_to_send
    ∷ flag s.reduced_motion
    ∷ flag s.show_channel_intro
    ∷ s.profile_name

abbrev settings_of : Bytes → Option (AppSettings scales)
settings_of (v ∷ t ∷ a ∷ d ∷ b ∷ b' ∷ e ∷ r ∷ i ∷ name) = some (record {
  version = v;
  profile_name = name;
  theme = theme_of t;
  accent = accent_of a;
  density = density_of d;
  ui_scale = tt;
  show_member_list = flag_of b;
  show_message_ids = flag_of b';
  enter_to_send = flag_of e;
  reduced_motion = flag_of r;
  show_channel_intro = flag_of i;
})
settings_of _ = none

settings_of-bytes : (s : AppSettings scales) → settings_of (settings_bytes s) ≡ some s
settings_of-bytes s =
    rw
      (
        theme_of-number s.theme,
        accent_of-number s.accent,
        density_of-number s.density,
        flag_of-flag s.show_member_list,
        flag_of-flag s.show_message_ids,
        flag_of-flag s.enter_to_send,
        flag_of-flag s.reduced_motion,
        flag_of-flag s.show_channel_intro,
      )
      refl

abbrev settings_codec : Codec (AppSettings scales)
settings_codec = record { to_stdvec = λ s. some (settings_bytes s); from_bytes = settings_of }

settings_law : CodecLaw settings_codec
settings_law = record {
  from_bytes-to_stdvec =
      λ s bytes h. subst (λ b. settings_of b ≡ some s) (some-injective h) (settings_of-bytes s);
}
  where
    some-injective : {a b : Bytes} → some a ≡ some b → a ≡ b
    some-injective h = cc

abbrev profile : Profile
profile = record { key_file = saved; settings_file = blank }

start_identity-save_profile_example :
    (j : Identity) × ((start_identity scales toy file_codec settings_codec no_faults no_faults 9
        none
        (some (codes "cody"))
        (save_profile scales toy file_codec settings_codec no_faults no_faults
          (codes "Eve")
          ann
          (default_settings scales)
          profile).1).0
      ≡ ok j)
    × (peer_id toy j ≡ peer_id toy ann)
    × (j.display_name
        ≡ sanitize_name (take 48 (trim (take 48 (trim (sanitize_name (codes "Eve")))))))
unfolding program
start_identity-save_profile_example =
    start_identity-save_profile scales toy file_codec settings_codec no_faults no_faults no_faults
      no_faults (codes "Eve") ann (default_settings scales) profile 9 (some (codes "cody")) toy_laws
      file_law settings_law (omega arith) refl refl refl refl
