-- ===== src/Files.antt =====
-- The files that `Identity::save` of src/crypto.rs and `AppSettings::save` of src/settings.rs write:
-- the file itself and, beside it, the temporary one, with what a call of std::fs leaves when it is
-- interrupted, by an error or by the end of the process. Both functions write the file in the same
-- steps, from the encoded bytes on. Of the directories, only that they could be created is modelled.
pub mod Recovers
use opencord.Base.{
  ℕ, Bool, true, false, List, Option, none, some, take, Result, ok, err, encode, io_error,
}
use opencord.Model.{Bytes}

pub record Disk : Type 0 where
  pub file : Option Bytes
  pub temporary : Option Bytes

-- A disk on which nothing was saved.
abbrev pub blank : Disk
blank = record { file = none; temporary = none }

-- What interrupts a call: it does nothing, or, where it writes, it has written so many bytes.
pub data Fault : Type 0 where
  unstarted : Fault
  after : ℕ → Fault

-- What happens to each call of a run (`none`: it is done).
pub record Faults : Type 0 where
  pub create_dir : Option Fault
  pub write : Option Fault
  pub copy : Option Fault
  pub remove : Option Fault
  pub rename : Option Fault
  pub read : Option Fault

abbrev pub no_faults : Faults
no_faults = record {
  create_dir = none;
  write = none;
  copy = none;
  remove = none;
  rename = none;
  read = none;
}

-- What a write of all the bytes leaves where there was `old`.
abbrev pub written : Option Fault → Bytes → Option Bytes → Option Bytes
written none bytes old = some bytes
written (some unstarted) bytes old = old
written (some (after n)) bytes old = some (take n bytes)

abbrev pub outcome : Option Fault → Result (Unit {0})
outcome none = ok tt
outcome (some fault) = err io_error

-- A call, and what follows where it succeeds.
abbrev pub then_do :
    Option Fault → Disk → (Disk → Result (Unit {0}) × Disk) → Result (Unit {0}) × Disk
then_do none d next = next d
then_do (some fault) d next = (err io_error, d)

-- `fs::rename`, `fs::remove_file`: done whole or not at all.
abbrev pub moved : Option Fault → Disk → Disk
moved none d = record { file = d.temporary; temporary = none }
moved (some fault) d = d

abbrev pub removed : Option Fault → Disk → Disk
removed none d = record d { temporary = none }
removed (some fault) d = d

-- The temporary file takes the place of the file: it is copied over one that exists, and renamed
-- where there is none.
unfoldable pub replace_file : Faults → Bytes → Disk → Result (Unit {0}) × Disk
replace_file faults bytes d = elim d.file [
  | some old ↦
      then_do faults.copy (record d { file = written faults.copy bytes d.file })
        (λ d'. (outcome faults.remove, removed faults.remove d'))
  | none ↦ (outcome faults.rename, moved faults.rename d)
]

-- `save`, from the encoded bytes on.
unfoldable pub save_bytes : Faults → Bytes → Disk → Result (Unit {0}) × Disk
unfolding replace_file
save_bytes faults bytes d = then_do faults.create_dir d (λ d1.
    then_do faults.write (record d1 { temporary = written faults.write bytes d1.temporary })
      (λ d2. replace_file faults bytes d2))

-- `save` as a whole: the directories are created before the record is encoded.
unfoldable pub save_encoded : Faults → Option Bytes → Disk → Result (Unit {0}) × Disk
save_encoded faults (some bytes) d = save_bytes faults bytes d
save_encoded faults none d = then_do faults.create_dir d (λ d'. (err encode, d'))

-- `fs::read`
abbrev pub read_file : Faults → Bytes → Result Bytes
read_file faults bytes = elim faults.read [ none ↦ ok bytes | some fault ↦ err io_error ]
