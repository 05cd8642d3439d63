-- ===== src/Model/ByteId.antt =====
-- The macro `byte_id!` of src/model.rs over the base64 codec, which is a parameter, and the
-- big-endian byte strings of fixed width on which it and the frame prefix of src/network.rs rest.
use native.Mathlib.Nat.{pow-suc}
use opencord.Base.{
  ==_self, ℕ, zero, suc, ◌+◌, ◌*◌, ◌/◌, ◌%◌, ◌^◌, ◌<◌, ◌≡◌, refl, [], ◌∷◌, ◌++◌, Option, some,
  arith, ◌==◌, if◌then◌else◌, length, length-append, All, All-append, Result, ok, err, or_error,
  decode_id, invalid_length, ◌>>=◌, take,
}
use opencord.Text.{Text}
use opencord.Model.{Bytes}

-- The `width` bytes of a number below 256 ^ width, most significant first (`to_be_bytes`).
unfoldable pub be_bytes : ℕ → ℕ → Bytes
be_bytes zero n = []
be_bytes (suc width) n = be_bytes width (n / 256) ++ (n % 256) ∷ []

unfoldable pub be_value_from : ℕ → Bytes → ℕ
be_value_from acc [] = acc
be_value_from acc (b ∷ bs) = be_value_from (acc * 256 + b) bs

-- `from_be_bytes`
unfoldable pub be_value : Bytes → ℕ
unfolding be_value_from
be_value bs = be_value_from 0 bs

pub length-be_bytes : (width n : ℕ) → length (be_bytes width n) ≡ width
unfolding be_bytes
length-be_bytes zero n = refl
length-be_bytes (suc width) n = omega (
  arith,
  length-append (be_bytes width (n / 256)) ((n % 256) ∷ []),
  length-be_bytes width (n / 256),
)

be_value_from-append :
    (acc : ℕ) (xs : Bytes) (b : ℕ)
    → be_value_from acc (xs ++ b ∷ []) ≡ be_value_from acc xs * 256 + b
unfolding be_value_from
be_value_from-append acc [] b = refl
be_value_from-append acc (x ∷ xs) b = be_value_from-append (acc * 256 + x) xs b

pub be_value-be_bytes : (width n : ℕ) → n < 256 ^ width → be_value (be_bytes width n) ≡ n
unfolding be_value be_bytes
be_value-be_bytes zero n h = omega arith
be_value-be_bytes (suc width) n h = omega (
  arith,
  be_value_from-append 0 (be_bytes width (n / 256)) (n % 256),
  be_value-be_bytes width (n / 256) (omega (arith, pow-suc 256 width)),
)

pub be_bytes-AreBytes : (width n : ℕ) → All (λ b. b < 256) (be_bytes width n)
unfolding be_bytes
be_bytes-AreBytes zero n = tt
be_bytes-AreBytes (suc width) n =
    All-append _ (be_bytes width (n / 256)) _ (be_bytes-AreBytes width (n / 256)) (omega arith, tt)

-- `base64::engine::general_purpose::URL_SAFE_NO_PAD`
pub record Base64 : Type 0 where
  pub encode : Bytes → Text
  pub decode : Text → Option Bytes

module _ (b64 : Base64) (size : ℕ) where
  -- `impl Display`
  unfoldable pub display : ℕ → Text
  display id = b64.encode (be_bytes size id)

  -- `short`
  unfoldable pub short : ℕ → Text
  short id = take 8 (b64.encode (be_bytes size id))

  -- `impl FromStr`
  unfoldable pub from_str : Text → Result ℕ
  from_str value = do
    bytes ← or_error (b64.decode value) decode_id
    if length bytes == size then ok (be_value bytes) else err invalid_length

  -- If base64 decodes what it encodes, the text of an identifier of `size` bytes parses back to
  -- it.
  pub from_str-display :
      ((bytes : Bytes) → All (λ b. b < 256) bytes → b64.decode (b64.encode bytes) ≡ some bytes)
      → (id : ℕ) → id < 256 ^ size
      → from_str (display id) ≡ ok id
  unfolding from_str display
  from_str-display law id h = rw (
    law (be_bytes size id) (be_bytes-AreBytes size id),
    length-be_bytes,
    ==_self,
    be_value-be_bytes size id h,
  )
