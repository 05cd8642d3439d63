-- ===== src/Entry.antt =====
-- From the arguments of `main` (src/main.rs) to the identity of the node, and the button of the profile
-- dialog (`save_profile` in src/app.rs) that decides on its name at the next start. Each of the two
-- files has its disk. The window, logging and the other options are left out.
use opencord.Base.{
  ◌<◌, ◌^◌, ◌≡◌, refl, sym, ap, subst, ◌∙◌, false, not, Option, none, some, take, is_empty,
  if◌then◌else◌, Result, ok, err,
}
use opencord.Text.{Text, trim, sanitize_name}
use opencord.Model.{Key}
use opencord.Crates.{Crates, CratesLaws, Codec, CodecLaw}
use opencord.Files.{Disk, Faults}
use opencord.Crypto.{Identity, IdentityFile, rename, peer_id}
use opencord.Crypto.KeyFile.{save, load_or_create}
use opencord.Crypto.KeyFile.Starts.{load_or_create-save}
use opencord.Settings.{Scales, AppSettings, default_settings, normalize, load, load-save}
use opencord.Settings

pub record Profile : Type 0 where
  pub key_file : Disk
  pub settings_file : Disk

-- `default_display_name`, of the value of USERNAME.
unfoldable pub default_display_name : Option Text → Option Text
default_display_name none = none
default_display_name (some value) = if is_empty (trim value) then none else some value

module _ (scales : Scales) where
  -- `options.display_name`, of the argument `--name`, the settings and the value of USERNAME.
  unfoldable pub display_name : Option Text → AppSettings scales → Option Text → Option Text
  display_name (some name) settings user = some name
  display_name none settings user =
      if not (is_empty (trim settings.profile_name))
      then some settings.profile_name
      else default_display_name user

  -- `unwrap_or_default`
  abbrev pub or_default : Result (AppSettings scales) → AppSettings scales
  or_default (ok settings) = settings
  or_default (err e) = default_settings scales

  module _ (c : Crates) (key_codec : Codec IdentityFile)
      (settings_codec : Codec (AppSettings scales)) where
    -- `AppSettings::load`, and what `Node::start` makes of the key file.
    unfoldable pub start_identity :
        Faults → Faults → Key → Option Text → Option Text → Profile → Result Identity × Disk
    start_identity key_faults settings_faults drawn name user p =
        let settings = or_default (load scales settings_codec settings_faults p.settings_file) in
        load_or_create c key_codec key_faults drawn (display_name name settings user) p.key_file

    -- What `save_profile` makes of the settings, and `persist_settings`.
    abbrev pub profile_settings : Text → AppSettings scales → AppSettings scales
    profile_settings name settings = normalize scales (record settings { profile_name = name })

    save_named :
        Faults
        → Text
        → AppSettings scales
        → Profile
        → Result (Unit {0}) × Disk
        → Result (Unit {0}) × Profile
    save_named faults name settings p (err e, d) = (err e, record p { key_file = d })
    save_named faults name settings p (ok done, d) =
        let (r, d') =
          Settings.save scales settings_codec faults (profile_settings name settings)
            p.settings_file in
        (r, record { key_file = d; settings_file = d' })

    -- `save_profile` with `Node::rename_profile` and `persist_settings`; the draft is the text of the
    -- dialog. The result is that of the call that failed.
    unfoldable pub save_profile :
        Faults
        → Faults
        → Text
        → Identity
        → AppSettings scales
        → Profile
        → Result (Unit {0}) × Profile
    unfolding save_named
    save_profile key_faults settings_faults draft i settings p =
        let renamed : Identity = rename i draft in
        save_named settings_faults renamed.display_name settings p
          (save c key_codec key_faults renamed p.key_file)

    save_named-inv :
        (faults : Faults) (name : Text) (settings : AppSettings scales) (p : Profile)
        (r : Result (Unit {0}) × Disk)
        → (save_named faults name settings p r).0 ≡ ok tt
        → (r.0 ≡ ok tt)
          × ((Settings.save scales settings_codec faults
                (profile_settings name settings)
                p.settings_file).0
              ≡ ok tt)
          × ((save_named faults name settings p r).1 ≡ record {
            key_file = r.1;
            settings_file =
                (Settings.save scales settings_codec faults
                  (profile_settings name settings)
                  p.settings_file).1;
          })
    unfolding save_named
    save_named-inv faults name settings p (ok tt, d) h = (refl, h, refl)
    save_named-inv faults name settings p (err e, d) h = absurd (cc)

    -- The name that is saved is requested at the next start, if it is not blank.
    display_name-saved :
        (settings : AppSettings scales) (user : Option Text)
        → is_empty (trim settings.profile_name) ≡ false
        → display_name none settings user ≡ some settings.profile_name
    unfolding display_name
    display_name-saved settings user h = rw h refl

    start_identity_named :
        (kf sf : Faults) (drawn : Key) (user : Option Text) (p : Profile)
        {settings : AppSettings scales} {wanted : Text}
        → load scales settings_codec sf p.settings_file ≡ ok settings
        → display_name none settings user ≡ some wanted
        → start_identity kf sf drawn none user p
          ≡ load_or_create c key_codec kf drawn (some wanted) p.key_file
    unfolding start_identity
    start_identity_named kf sf drawn user p loaded named = rw (loaded, named) refl

    -- Under the laws of the crates, and if the codecs of the two files decode what they encode:
    -- where the profile dialog has saved a name for an identity with a key of 32 bytes without an
    -- error, a start without `--name` that can read both files has the same peer identifier,
    -- whatever the name of the user is. Its name is the one of the dialog as it was cleaned for
    -- the identity and normalized for the settings, when they were saved and again when they were
    -- loaded, if that is not blank; it is cleaned once more.
    pub start_identity-save_profile :
        (kf sf kf' sf' : Faults) (draft : Text) (i : Identity) (settings : AppSettings scales)
        (p : Profile) (drawn : Key) (user : Option Text)
        → CratesLaws c
        → CodecLaw key_codec
        → CodecLaw settings_codec
        → i.signing_key < 256 ^ 32
        → (save_profile kf sf draft i settings p).0 ≡ ok tt
        → kf'.read ≡ none
        → sf'.read ≡ none
        → let kept : Text → Text = λ (n : Text). take 48 (trim n) in
          is_empty (trim (kept (kept (sanitize_name draft)))) ≡ false
          → (j : Identity) × ((start_identity kf' sf' drawn none user
                (save_profile kf sf draft i settings p).1).0
              ≡ ok j)
            × (peer_id c j ≡ peer_id c i)
            × (j.display_name ≡ sanitize_name (kept (kept (sanitize_name draft))))
    unfolding save_profile rename normalize
    start_identity-save_profile kf sf kf' sf' draft i settings p drawn user laws key_law
          settings_law key_fits saved readable readable' named =
        let (key_saved, settings_saved, left) =
          save_named-inv sf (rename i draft).display_name settings p
            (save c key_codec kf (rename i draft) p.key_file) saved in
        let loaded =
          load-save scales settings_codec sf sf' (profile_settings (sanitize_name draft) settings)
            p.settings_file settings_law settings_saved readable' in
        let wanted =
          display_name-saved (normalize scales (profile_settings (sanitize_name draft) settings))
            user named in
        let (j, found, same, shown) =
          load_or_create-save c key_codec laws key_law kf kf' i draft drawn
            (some (take 48 (trim (take 48 (trim (sanitize_name draft)))))) p.key_file key_fits
            key_saved readable in
        (
          j,
          subst (λ q. (start_identity kf' sf' drawn none user q).0 ≡ ok j) (sym left)
              (ap (λ r. r.0) (start_identity_named kf' sf' drawn user _ loaded wanted ∙ found)),
          same,
          shown,
        )
