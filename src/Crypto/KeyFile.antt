-- ===== src/Crypto/KeyFile.antt =====
-- `Identity::save` and `Identity::load_or_create` of src/crypto.rs on the key file. The file's
-- encoding is postcard's, a parameter.
pub mod Starts
use opencord.Base.{
  ℕ, take, ◌<◌, ◌^◌, ◌≡◌, refl, ap, sym, subst, ◌∙◌, Option, none, some, Option-cases, inl, inr,
  Result, ok, err, ◌>>=◌, or_error, bind-inv, ensure-inv, or_error-inv, ok-injective, decode,
  io_error, ◌==◌, length,
}
use opencord.Text.{Text, sanitize_name, new_peer}
use opencord.Model.{Bytes, Key}
use opencord.Crates.{Crates, CratesLaws, Codec, CodecLaw}
use opencord.Files.{Disk, Fault, Faults, after, save_bytes, replace_file, save_encoded, read_file}
use opencord.Files.Recovers.{save_encoded-IsSaved}
use opencord.Crypto.{Identity, IdentityFile, identity_file, load, create, generate, rename, peer_id}
use opencord.Crypto.Identities.{load-identity_file}

module _ (c : Crates) (codec : Codec IdentityFile) where
  -- `Identity::save`
  unfoldable pub save : Faults → Identity → Disk → Result (Unit {0}) × Disk
  save faults i d = save_encoded faults (codec.to_stdvec (identity_file c i)) d

  load_raw : Faults → Bytes → Option Text → Result Identity
  load_raw faults raw requested_name = do
    bytes ← read_file faults raw
    file ← or_error (codec.from_bytes bytes) decode
    load c file requested_name

  created : Identity → Result (Unit {0}) × Disk → Result Identity × Disk
  created identity (ok done, d) = (ok identity, d)
  created identity (err e, d) = (err e, d)

  -- `Identity::load_or_create`; the random secret is an argument.
  unfoldable pub load_or_create : Faults → Key → Option Text → Disk → Result Identity × Disk
  unfolding load_raw created
  load_or_create faults drawn requested_name d = elim d.file [
    | some raw ↦ (load_raw faults raw requested_name, d)
    | none ↦
        let identity : Identity = create c drawn requested_name in
        created identity (save faults identity d)
  ]
