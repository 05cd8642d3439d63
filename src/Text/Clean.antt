-- ===== src/Text/Clean.antt =====
-- What the label cleaners `clean_label` (src/store.rs) and `sanitize_name` (src/crypto.rs) promise.
use opencord.Base.{
  ℕ, ◌*◌, ◌<◌, ◌≤◌, ◌≡◌, false, not, [], ◌∷◌, arith, if◌then◌else◌, take, filterb, is_empty, length,
  All, All-take, length-take-le,
}
use opencord.Text.{Text, is_control, byte_len, trim, clean_label}

abbrev pub NoControl : Text → Type 0
NoControl = All (λ c. is_control c ≡ false)

pub byte_len-le : (s : Text) → byte_len s ≤ 4 * length s
byte_len-le [] = omega arith
byte_len-le (c ∷ s) = ground (arith, byte_len-le s)

filter-NoControl : (s : Text) → NoControl (filterb (λ c. not (is_control c)) s)
filter-NoControl [] = tt
filter-NoControl (c ∷ s) = ground (arith, filter-NoControl s)

-- A cleaned label is one to `max` characters long, none of them a control character, if the
-- fallback is.
pub clean_label_lem :
    (value fallback : Text) (max : ℕ)
    → 0 < length fallback
    → length fallback ≤ max
    → NoControl fallback
    → (0 < length (clean_label value fallback max))
      × (length (clean_label value fallback max) ≤ max)
      × NoControl (clean_label value fallback max)
unfolding clean_label
clean_label_lem value fallback max h k n =
    go (take max (filterb (λ c. not (is_control c)) (trim value))) (length-take-le max _)
      (All-take _ max _ (filter-NoControl (trim value)))
  where
    go :
        (t : Text)
        → length t ≤ max
        → NoControl t
        → (0 < length (if is_empty t then fallback else t))
          × (length (if is_empty t then fallback else t) ≤ max)
          × NoControl (if is_empty t then fallback else t)
    go [] l m = (h, k, n)
    go (c ∷ t) l m = (omega arith, l, m)
