-- ===== src/Files/Recovers.antt =====
-- What the disk holds after `save` of src/crypto.rs and src/settings.rs, however it was interrupted.
use opencord.Base.{
  ◌≡◌, ◌⊎◌, Option-cases, inl, inr, refl, Option, none, some, Result, ok, err, encode,
}
use opencord.Model.{Bytes}
use opencord.Files.{Disk, Fault, Faults, then_do, replace_file, save_bytes, save_encoded}

-- Where a save ends well, the file is what was to be saved and the temporary file is gone.
abbrev pub IsSaved : Bytes → Disk → Type 0
IsSaved bytes d = (d.file ≡ some bytes) × (d.temporary ≡ none)

-- Nothing is lost: the file is as it was or as it was to be, or, where there was a file, the
-- temporary one is as it was to be.
abbrev pub IsRecoverable : Bytes → Disk → Disk → Type 0
IsRecoverable bytes d d' =
    (d'.file ≡ d.file)
    ⊎ ((d'.file ≡ some bytes) ⊎ ((old : Bytes) × (d.file ≡ some old) × (d'.temporary ≡ some bytes)))

-- How a run of `save` ended.
abbrev Ended : Bytes → Disk → Result (Unit {0}) × Disk → Type 0
Ended bytes d r = IsRecoverable bytes d r.1 × (r.0 ≡ ok tt → IsSaved bytes r.1)

replace_file-Ended :
    (faults : Faults) (bytes : Bytes) (old : Option Bytes)
    → Ended bytes
        (record { file = old; temporary = none })
        (replace_file faults bytes (record { file = old; temporary = some bytes }))
unfolding replace_file
replace_file-Ended faults bytes none = elim (Option-cases faults.rename) [
  | inl done ↦ rw done (inr (inl refl), λ h. (refl, refl))
  | inr (fault, failed) ↦ rw failed (inl refl, λ h. absurd (cc))
]
replace_file-Ended faults bytes (some old) = elim (Option-cases faults.copy) [
  | inr (fault, failed) ↦ rw failed (inr (inr (old, refl, refl)), λ h. absurd (cc))
  | inl copied ↦ elim (Option-cases faults.remove) [
    | inl done ↦ rw (copied, done) (inr (inl refl), λ h. (refl, refl))
    | inr (fault, failed) ↦ rw (copied, failed) (inr (inl refl), λ h. absurd (cc))
  ]
]

-- However a save is interrupted, the file is as it was or as it was to be, or there was a file and
-- the temporary one is as it was to be; and a save that ends without an error has written the file
-- and left no temporary one.
pub save_bytes-IsRecoverable :
    (faults : Faults) (bytes : Bytes) (d : Disk)
    → IsRecoverable bytes d (save_bytes faults bytes d).1
      × ((save_bytes faults bytes d).0 ≡ ok tt → IsSaved bytes (save_bytes faults bytes d).1)
unfolding save_bytes
save_bytes-IsRecoverable faults bytes d = elim (Option-cases faults.create_dir) [
  | inr (fault, failed) ↦ rw failed (inl refl, λ h. absurd (cc))
  | inl created ↦ elim (Option-cases faults.write) [
    | inr (fault, failed) ↦ rw (created, failed) (inl refl, λ h. absurd (cc))
    | inl wrote ↦ rw (created, wrote) (replace_file-Ended faults bytes d.file)
  ]
]

pub save_encoded-IsSaved :
    (faults : Faults) (encoded : Option Bytes) (d : Disk)
    → (save_encoded faults encoded d).0 ≡ ok tt
    → (bytes : Bytes) × (encoded ≡ some bytes) × IsSaved bytes (save_encoded faults encoded d).1
unfolding save_encoded
save_encoded-IsSaved faults (some bytes) d h =
    (bytes, refl, (save_bytes-IsRecoverable faults bytes d).1 h)
save_encoded-IsSaved faults none d h = absurd (not_encoded faults.create_dir h)
  where
    not_encoded : (fault : Option Fault) → (then_do fault d (λ d'. (err encode, d'))).0 ≡ ok tt → ⊥
    not_encoded none h = cc
    not_encoded (some f) h = cc
