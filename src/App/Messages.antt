-- ===== src/App/Messages.antt =====
-- What src/app.rs makes of a message: its text for the clipboard, a quotation, the search, and its
-- age.
use opencord.Base.{
  ℕ, ◌/◌, ◌==◌, ◌||◌, Bool, [], ◌∷◌, ◌++◌, if◌then◌else◌, any, is_empty, leb, map, take,
}
use opencord.Text.{Text, codes, trim, contains}
use opencord.Model.{MessagePayload, text, attachment, system, TimelineEntry}
use opencord.Crates.{Crates}

-- `message_copy_text`
unfoldable pub message_copy_text : MessagePayload → Text
message_copy_text (text body) = body
message_copy_text (system body) = body
message_copy_text (attachment file_name mime bytes caption) =
    if is_empty caption then file_name else file_name ++ (codes " — " ++ caption)

-- `message_quote`
unfoldable pub message_quote : TimelineEntry → Text
unfolding message_copy_text
message_quote entry =
    let body : Text =
      map (λ ch. if ch == 0xa then 0x20 else ch) (message_copy_text entry.payload) in
    codes "> " ++ (entry.author_name ++ (codes ": " ++ (take 120 body ++ 0xa ∷ [])))

module _ (c : Crates) where
  abbrev has_needle : Text → Text → Bool
  has_needle needle value = contains (c.to_lowercase value) needle

  payload_matches : Text → MessagePayload → Bool
  payload_matches needle (text body) = has_needle needle body
  payload_matches needle (system body) = has_needle needle body
  payload_matches needle (attachment file_name mime bytes caption) =
      any (has_needle needle) (file_name ∷ mime ∷ caption ∷ [])

  -- `message_matches`
  unfoldable pub message_matches : TimelineEntry → Text → Bool
  unfolding payload_matches
  message_matches entry query =
      let needle : Text = c.to_lowercase (trim query) in
      is_empty needle || has_needle needle entry.author_name || payload_matches needle entry.payload

-- `relative_time`, for the milliseconds that have passed (0 for a time to come), with the `Display`
-- of numbers.
unfoldable pub relative_time : (ℕ → Text) → ℕ → Text
relative_time show elapsed_ms =
    let seconds = elapsed_ms / 1000 in
    if leb seconds 4
    then codes "just now"
    else if leb seconds 59
    then show seconds ++ codes "s ago"
    else if leb seconds 3599
    then show (seconds / 60) ++ codes "m ago"
    else if leb seconds 86399
    then show (seconds / 3600) ++ codes "h ago"
    else show (seconds / 86400) ++ codes "d ago"
