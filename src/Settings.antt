-- ===== src/Settings.antt =====
-- src/settings.rs: the choices and their labels, `AppSettings`, its defaults, what `normalize` makes
-- of it, and its file. The file is JSON, which serde_json reads and writes, a parameter; `ui_scale`
-- is an `f32`, whose clamp to 0.85 .. 1.20 is a parameter.
use opencord.Base.{
  ℕ, Bool, true, false, none, some, List, [], ◌∷◌, take, Result, ok, or_error, decode, ◌>>=◌, ◌≡◌,
  refl,
}
use opencord.Text.{Text, codes, trim}
use opencord.Model.{Bytes}
use opencord.Crates.{Codec, CodecLaw}
use opencord.Files.{Disk, Faults, read_file, save_encoded}
use opencord.Files.Recovers.{save_encoded-IsSaved}

pub data ThemeChoice : Type 0 where
  midnight graphite aurora daylight : ThemeChoice

pub data AccentChoice : Type 0 where
  violet blue mint coral : AccentChoice

pub data MessageDensity : Type 0 where
  compact cozy : MessageDensity

-- `ALL` and `label`
abbrev pub all_themes : List ThemeChoice
all_themes = midnight ∷ graphite ∷ aurora ∷ daylight ∷ []

unfoldable pub theme_label : ThemeChoice → Text
theme_label midnight = codes "Midnight"
theme_label graphite = codes "Graphite"
theme_label aurora = codes "Aurora"
theme_label daylight = codes "Daylight"

abbrev pub all_accents : List AccentChoice
all_accents = violet ∷ blue ∷ mint ∷ coral ∷ []

unfoldable pub accent_label : AccentChoice → Text
accent_label violet = codes "Violet"
accent_label blue = codes "Blue"
accent_label mint = codes "Mint"
accent_label coral = codes "Coral"

unfoldable pub density_label : MessageDensity → Text
density_label compact = codes "Compact"
density_label cozy = codes "Cozy"

abbrev pub settings_version : ℕ
settings_version = 1

-- The arithmetic of `ui_scale`.
pub record Scales : Type 1 where
  pub Scale : Type 0
  pub one : Scale
  pub clamped : Scale → Scale

module _ (scales : Scales) where
  pub record AppSettings : Type 0 where
    pub version : ℕ
    pub profile_name : Text
    pub theme : ThemeChoice
    pub accent : AccentChoice
    pub density : MessageDensity
    pub ui_scale : scales.Scale
    pub show_member_list : Bool
    pub show_message_ids : Bool
    pub enter_to_send : Bool
    pub reduced_motion : Bool
    pub show_channel_intro : Bool

module _ (scales : Scales) where
  -- `AppSettings::default`
  abbrev pub default_settings : AppSettings scales
  default_settings = record {
    version = settings_version;
    profile_name = [];
    theme = midnight;
    accent = violet;
    density = cozy;
    ui_scale = scales.one;
    show_member_list = true;
    show_message_ids = false;
    enter_to_send = true;
    reduced_motion = false;
    show_channel_intro = true;
  }

  -- `normalize`
  unfoldable pub normalize : AppSettings scales → AppSettings scales
  normalize settings = record settings {
    version = settings_version;
    profile_name = take 48 (trim settings.profile_name);
    ui_scale = scales.clamped settings.ui_scale;
  }

  -- `AppSettings::load`; the faults are those of the call.
  unfoldable pub load : Codec (AppSettings scales) → Faults → Disk → Result (AppSettings scales)
  unfolding normalize
  load codec faults d = elim d.file [
    | none ↦ ok default_settings
    | some raw ↦ (do
      bytes ← read_file faults raw
      settings ← or_error (codec.from_bytes bytes) decode
      ok (normalize settings))
  ]

  -- `AppSettings::save`
  unfoldable pub save :
      Codec (AppSettings scales) → Faults → AppSettings scales → Disk → Result (Unit {0}) × Disk
  save codec faults settings d = save_encoded faults (codec.to_stdvec settings) d

  load-file :
      (codec : Codec (AppSettings scales)) (faults : Faults) (settings : AppSettings scales)
      (d : Disk) {bytes : Bytes}
      → d.file ≡ some bytes
      → faults.read ≡ none
      → codec.from_bytes bytes ≡ some settings
      → load codec faults d ≡ ok (normalize settings)
  unfolding load
  load-file codec faults settings d there readable decoded = rw (there, readable, decoded) refl

  -- Settings that are saved without an error are read again, normalized.
  pub load-save :
      (codec : Codec (AppSettings scales)) (faults faults' : Faults) (settings : AppSettings scales)
      (d : Disk)
      → CodecLaw codec
      → (save codec faults settings d).0 ≡ ok tt
      → faults'.read ≡ none
      → load codec faults' (save codec faults settings d).1 ≡ ok (normalize settings)
  unfolding save
  load-save codec faults faults' settings d law saved readable =
      let (bytes, encoded, is_saved) =
        save_encoded-IsSaved faults (codec.to_stdvec settings) d saved in
      load-file codec faults' settings _ is_saved.0 readable
        (law.from_bytes-to_stdvec settings bytes encoded)
