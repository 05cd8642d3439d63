-- ===== src/Crypto/KeyFile/Starts.antt =====
-- Saves and starts on the key file of src/crypto.rs: what the next start finds.
use opencord.Base.{
  ◌<◌, ◌^◌, ◌≡◌, refl, ap, sym, subst, ◌∙◌, Option, none, some, Option-cases, inl, inr, Result, ok,
  err, bind-inv, ensure-inv, or_error-inv, ok-injective, io_error, ◌==◌, length,
}
use opencord.Text.{Text, sanitize_name, new_peer}
use opencord.Model.{Bytes, Key}
use opencord.Crates.{Crates, CratesLaws, Codec, CodecLaw}
use opencord.Files.{Disk, Fault, Faults, read_file}
use opencord.Files.Recovers.{save_encoded-IsSaved}
use opencord.Crypto.{Identity, IdentityFile, identity_file, load, create, generate, rename, peer_id}
use opencord.Crypto.Identities.{load-identity_file}
use opencord.Crypto.KeyFile.{save, load_raw, created, load_or_create}

module _ (c : Crates) (codec : Codec IdentityFile) where
  -- What is read of a file that decodes and has a key.
  load_raw-ok :
      (faults : Faults) (raw : Bytes) (requested : Option Text) (file : IdentityFile) (i : Identity)
      → faults.read ≡ none
      → codec.from_bytes raw ≡ some file
      → load c file requested ≡ ok i
      → load_raw c codec faults raw requested ≡ ok i
  unfolding load_raw
  load_raw-ok faults raw requested file i readable decoded loaded = rw (readable, decoded) loaded

  load_raw-inv :
      (faults : Faults) (raw : Bytes) (requested : Option Text) {i : Identity}
      → load_raw c codec faults raw requested ≡ ok i
      → (file : IdentityFile) × (codec.from_bytes raw ≡ some file) × (load c file requested ≡ ok i)
  unfolding load_raw
  load_raw-inv faults raw requested h = bind-inv (read_file faults raw) _ h λ bytes was_read h1.
      or_error-inv (codec.from_bytes bytes) _ _ h1 λ file decoded h2. (
        file,
        subst (λ b. codec.from_bytes b ≡ some file) (same_bytes faults.read was_read) decoded,
        h2,
      )
    where
      same_bytes :
          {bytes : Bytes} (fault : Option Fault)
          → (elim fault [ none ↦ ok raw | some f ↦ err io_error ]) ≡ ok bytes
          → bytes ≡ raw
      same_bytes none h = sym (ok-injective h)
      same_bytes (some f) h = absurd (cc)

  -- The requested name decides on the name only.
  load-any_name :
      (file : IdentityFile) (requested other : Option Text) {i : Identity}
      → load c file requested ≡ ok i
      → (j : Identity) × (load c file other ≡ ok j) × (peer_id c j ≡ peer_id c i)
  unfolding load
  load-any_name file requested other h = ensure-inv (file.version == 1) _ _ h λ known h1.
      or_error-inv (c.base64.decode file.secret) _ _ h1 λ bytes decoded h2.
        ensure-inv (length bytes == 32) _ _ h2 λ sized h3.
          rw (known, decoded, sized)
            (_, refl, ap (λ i. c.verifying_key i.signing_key) (ok-injective h3))

  load_or_create-file :
      (faults : Faults) (drawn : Key) (requested : Option Text) (d : Disk) {raw : Bytes}
      → d.file ≡ some raw
      → load_or_create c codec faults drawn requested d ≡ (load_raw c codec faults raw requested, d)
  unfolding load_or_create
  load_or_create-file faults drawn requested d there = rw there refl

  load_or_create-none :
      (faults : Faults) (drawn : Key) (requested : Option Text) (d : Disk)
      → d.file ≡ none
      → load_or_create c codec faults drawn requested d
        ≡ created c codec
            (create c drawn requested)
            (save c codec faults (create c drawn requested) d)
  unfolding load_or_create
  load_or_create-none faults drawn requested d absent = rw absent refl

  module _ (laws : CratesLaws c) (codec_law : CodecLaw codec) where
    -- Under the laws of the crates, and if the codec of the key file decodes what it encodes:
    -- where a renamed identity with a key of 32 bytes is saved without an error, the next start
    -- that can read the file has the same peer identifier and leaves the disk as it is; its name
    -- is the requested one if there is one and otherwise the saved one, cleaned once more.
    pub load_or_create-save :
        (faults faults' : Faults) (i : Identity) (name : Text) (drawn : Key)
        (requested : Option Text) (d : Disk)
        → i.signing_key < 256 ^ 32
        → (save c codec faults (rename i name) d).0 ≡ ok tt
        → faults'.read ≡ none
        → (j : Identity) × (load_or_create c codec faults' drawn requested
              (save c codec faults (rename i name) d).1
            ≡ (ok j, (save c codec faults (rename i name) d).1))
          × (peer_id c j ≡ peer_id c i)
          × (j.display_name ≡ (elim requested [
            | some wanted ↦ sanitize_name wanted
            | none ↦ sanitize_name (sanitize_name name)
          ]))
    unfolding save
    load_or_create-save faults faults' i name drawn requested d key_fits saved readable =
        let (bytes, encoded, is_saved) =
          save_encoded-IsSaved faults (codec.to_stdvec (identity_file c (rename i name))) d saved in
        let (j, loaded, same, named) = load-identity_file c laws i name requested key_fits in
        let decoded = codec_law.from_bytes-to_stdvec _ bytes encoded in
        let d' : Disk = (save c codec faults (rename i name) d).1 in
        (
          j,
          load_or_create-file faults' drawn requested d' is_saved.0
              ∙ ap (λ r. (r, d')) (load_raw-ok faults' bytes requested _ j readable decoded loaded),
          same,
          named,
        )

    created-inv :
        (identity : Identity) (r : Result (Unit {0}) × Disk) {i : Identity} {d' : Disk}
        → created c codec identity r ≡ (ok i, d')
        → (r.0 ≡ ok tt) × (identity ≡ i) × (r.1 ≡ d')
    unfolding created
    created-inv identity (ok tt, d) h = (refl, ok-injective (ap (λ q. q.0) h), ap (λ q. q.1) h)
    created-inv identity (err e, d) h = absurd (not_ok (ap (λ q. q.0) h))
      where
        not_ok : {i : Identity} → err e ≡ ok i → ⊥
        not_ok h = cc

    -- A created identity is a renamed one.
    create-rename :
        (drawn : Key) (requested : Option Text)
        → (name : Text) × (create c drawn requested
            ≡ rename (record { signing_key = drawn; display_name = name }) name)
    unfolding create generate rename
    create-rename drawn (some name) = (name, refl)
    create-rename drawn none = (new_peer, refl)

    Again : Faults → Identity → Disk → Type 0
    Again faults i d =
        (drawn : Key) (requested : Option Text)
        → (j : Identity) × (load_or_create c codec faults drawn requested d ≡ (ok j, d))
          × (peer_id c j ≡ peer_id c i)

    created-Again :
        (faults faults' : Faults) (drawn : Key) (requested : Option Text) (d : Disk)
        → drawn < 256 ^ 32
        → (save c codec faults (create c drawn requested) d).0 ≡ ok tt
        → faults'.read ≡ none
        → Again faults'
            (create c drawn requested)
            (save c codec faults (create c drawn requested) d).1
    unfolding Again rename
    created-Again faults faults' drawn requested d key_fits saved readable drawn' requested' =
        let (name, is) = create-rename drawn requested in
        let i : Identity = record { signing_key = drawn; display_name = name } in
        subst
          (λ k.
            (j : Identity) × (load_or_create c codec faults' drawn' requested'
                (save c codec faults k d).1
              ≡ (ok j, (save c codec faults k d).1))
            × (peer_id c j ≡ peer_id c k))
          (sym is)
          (let found =
              load_or_create-save faults faults' i name drawn' requested' d key_fits
                (subst (λ k. (save c codec faults k d).0 ≡ ok tt) is saved) readable in
            (found.0, found.1, found.2))

    -- Under the laws of the crates, and if the codec of the key file decodes what it encodes:
    -- after a start that ended without an error, whether it found the file or created it with a
    -- secret of 32 bytes, a start that can read the file has the same peer identifier, whatever
    -- name it requests, and leaves the disk as it is.
    pub load_or_create-again :
        (faults faults' : Faults) (drawn drawn' : Key) (requested requested' : Option Text)
        (d : Disk) {i : Identity} {d' : Disk}
        → drawn < 256 ^ 32
        → load_or_create c codec faults drawn requested d ≡ (ok i, d')
        → faults'.read ≡ none
        → (j : Identity) × (load_or_create c codec faults' drawn' requested' d' ≡ (ok j, d'))
          × (peer_id c j ≡ peer_id c i)
    unfolding Again
    load_or_create-again faults faults' drawn drawn' requested requested' d {i} {d'} key_fits h
          readable =
        elim (Option-cases d.file) [
          | inr (raw, there) ↦
              let read = sym (load_or_create-file faults drawn requested d there) ∙ h in
              let (file, decoded, loaded) =
                load_raw-inv faults raw requested (ap (λ q. q.0) read) in
              let (j, loaded', same) = load-any_name file requested requested' loaded in
              (
                j,
                subst (λ k. load_or_create c codec faults' drawn' requested' k ≡ (ok j, k))
                    (ap (λ q. q.1) read)
                    (load_or_create-file faults' drawn' requested' d there
                      ∙ ap (λ r. (r, d))
                          (load_raw-ok faults' raw requested' file j readable decoded loaded')),
                same,
              )
          | inl blank_is ↦
              let identity : Identity = create c drawn requested in
              let (saved, is, left) =
                created-inv identity (save c codec faults identity d)
                  (sym (load_or_create-none faults drawn requested d blank_is) ∙ h) in
              subst (Again faults' i) left
                (subst (λ k. Again faults' k (save c codec faults identity d).1) is
                  (created-Again faults faults' drawn requested d key_fits saved readable))
                drawn' requested'
        ]
