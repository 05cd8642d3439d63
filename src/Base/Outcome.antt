-- ===== src/Base/Outcome.antt =====
-- `anyhow::Result`: every error message of the crate that the model names is a constructor.
use mathlib.Core.Path.{◌≡◌, refl}
use mathlib.Core.Logic.{◌⊎◌, inl, inr}
use mathlib.Core.Bool.{Bool, true, false}
use mathlib.Core.Option.{Option, none, some}

pub data Error : Type 0 where
  -- model.rs
  message_is_empty message_too_long attachment_has_no_name attachment_too_long : Error
  caption_too_long decode_id invalid_length : Error
  -- crypto.rs
  randomness encode decode encryption_failed unsupported_event_version event_id_mismatch : Error
  bad_signature event_authentication_failed payload_kind_mismatch : Error
  unsupported_invite_version unsupported_identity_file invalid_secret_length : Error
  -- store.rs
  constraint_violation no_rows integer_out_of_range channel_does_not_exist : Error
  author_is_blocked unknown_group unknown_channel equivocation invalid_event_range : Error
  group_not_found invite_prefix decode_invite invite_has_no_channels : Error
  invite_key_conflict channel_position_overflow channel_of_unknown_group : Error
  -- network.rs
  read_frame frame_too_long no_hello incompatible_version invalid_peer_name : Error
  self_connection peer_is_blocked no_group_proofs no_common_group : Error
  shared_group_disappeared no_channel_metadata unauthorized_group channel_group_mismatch : Error
  no_inventories no_requests invalid_requested_range unexpected_record : Error
  voice_encryption_failed voice_authentication_failed screen_frame_too_long : Error
  fuel_exhausted network_stopped io_error : Error

pub data Result {ℓ} (A : Type ℓ) : Type ℓ where
  err : Error → Result A
  ok : A → Result A

infixl 5 ◌>>◌ ◌>>=◌
abbrev pub ◌>>=◌ {ℓ κ} : {A : Type ℓ} {B : Type κ} → Result A → (A → Result B) → Result B
err e >>= f = err e
ok a >>= f = f a

abbrev pub ◌>>◌ {ℓ} : {B : Type ℓ} → Result (Unit {0}) → Result B → Result B
m >> k = m >>= (λ done. k)

-- `anyhow::ensure!`
abbrev pub ensure : Bool → Error → Result (Unit {0})
ensure true e = ok tt
ensure false e = err e

-- `.context(..)` on an `Option`, and `map_err` on a third-party result.
abbrev pub or_error {ℓ} : {A : Type ℓ} → Option A → Error → Result A
or_error (some a) e = ok a
or_error none e = err e

pub Result-cases {ℓ} :
    {A : Type ℓ} (r : Result A) → ((a : A) × (r ≡ ok a)) ⊎ ((e : Error) × (r ≡ err e))
Result-cases (ok a) = inl (a, refl)
Result-cases (err e) = inr (e, refl)

pub ok-injective {ℓ} : {A : Type ℓ} {a b : A} → ok a ≡ ok b → a ≡ b
ok-injective h = cc

-- Inversion of a chain that succeeded, a step at a time: what is to be proved may use the value of
-- the first step, and that the rest succeeded on it.
module _ {ℓ κ} {A : Type ℓ} {B : Type ℓ} {P : Type κ} where
  pub bind-inv :
      (m : Result A) (f : A → Result B) {b : B}
      → (m >>= f) ≡ ok b
      → ((a : A) → m ≡ ok a → f a ≡ ok b → P)
      → P
  bind-inv (ok a) f h use_it = use_it a refl h
  bind-inv (err e) f h use_it = absurd (cc)

  pub or_error-inv :
      (o : Option A) (e : Error) (f : A → Result B) {b : B}
      → (or_error o e >>= f) ≡ ok b
      → ((a : A) → o ≡ some a → f a ≡ ok b → P)
      → P
  or_error-inv (some a) e f h use_it = use_it a refl h
  or_error-inv none e f h use_it = absurd (cc)

module _ {ℓ κ} {B : Type ℓ} {P : Type κ} where
  pub ensure-inv :
      (t : Bool) (e : Error) (k : Result B) {b : B}
      → (ensure t e >>= λ _. k) ≡ ok b
      → (t ≡ true → k ≡ ok b → P)
      → P
  ensure-inv true e k h use_it = use_it refl h
  ensure-inv false e k h use_it = absurd (cc)
