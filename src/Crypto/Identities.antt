-- ===== src/Crypto/Identities.antt =====
-- src/crypto.rs: what an identity keeps through its file.
use opencord.Base.{◌<◌, ◌^◌, ◌≡◌, none, some, ok, arith, Option, refl}
use opencord.Text.{Text, sanitize_name}
use opencord.Model.ByteId.{be_bytes, be_bytes-AreBytes, length-be_bytes, be_value-be_bytes}
use opencord.Crates.{Crates, CratesLaws}
use opencord.Crypto.{Identity, identity_file, load, rename, requested_or, peer_id}

module _ (c : Crates) (laws : CratesLaws c) where
  -- Under the laws of the crates, a renamed identity with a key of 32 bytes that is saved and
  -- loaded again has the same peer identifier; its name is the requested one if there is one and
  -- otherwise the saved one, cleaned once more.
  pub load-identity_file :
      (i : Identity) (name : Text) (requested : Option Text)
      → i.signing_key < 256 ^ 32
      → (j : Identity) × (load c (identity_file c (rename i name)) requested ≡ ok j)
        × (peer_id c j ≡ peer_id c i)
        × (j.display_name ≡ (elim requested [
          | some wanted ↦ sanitize_name wanted
          | none ↦ sanitize_name (sanitize_name name)
        ]))
  unfolding load identity_file rename requested_or
  load-identity_file i name requested h = (
    record {
      signing_key = i.signing_key;
      display_name = requested_or c requested (sanitize_name name);
    },
    rw (
      laws.decode-encode (be_bytes 32 i.signing_key) (be_bytes-AreBytes 32 i.signing_key),
      length-be_bytes,
      be_value-be_bytes 32 i.signing_key h,
    ),
    refl,
    ground arith,
  )
