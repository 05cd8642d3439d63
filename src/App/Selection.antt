-- ===== src/App/Selection.antt =====
-- What src/app.rs keeps true of the selection, whatever the user does and the network changes.
use opencord.Base.{
  ℕ, ◌≡◌, refl, true, false, ◌==◌, List, [], ◌∷◌, Option, none, some, ℤ, any, All, All-filterb-true,
  All-map, if◌then◌else◌, Result, ok, err, arith, Bool-cases, inl, inr,
}
use opencord.Text.{Text, codes}
use opencord.Model.{
  TimelineEntry, Nonce, GroupId, ChannelId, Group, Channel, EventEnvelope, text, attachment,
}
use opencord.Crates.{Crates}
use opencord.Store.Groups.{channels}
use opencord.Store.Order.{All-order_by}
use opencord.Store.Shown.{timeline-All}
use opencord.Node.{Node, send, timeline}
use opencord.Node
use opencord.App.{
  App, notice, refresh, select_or_first, first_group, first_channel, rows_of, is_selected,
  save_current_draft, restore_current_draft, select_group, select_channel, after_send,
  after_attachment, send_body, send_file,
}

-- A selection from some rows: one of them, or none where there are none.
abbrev pub IsFrom : {A : Type 0} → (A → ℕ) → List A → Option ℕ → Type 0
IsFrom key rows none = rows ≡ []
IsFrom key rows (some id) = any (λ r. key r == id) rows ≡ true

-- The selected group is one of those shown, the channels shown are channels of it, the selected channel
-- is one of these, and the entries shown are of it; nothing is selected only where nothing is shown.
pub record IsSelection (groups : List Group) (group : Option GroupId) (shown : List Channel)
    (channel : Option ChannelId) (entries : List TimelineEntry) : Type 0 where
  pub group_shown : IsFrom (λ g. g.id) groups group
  pub channels_of_group : All (λ ch. is_selected ch.group_id group ≡ true) shown
  pub channel_shown : IsFrom (λ ch. ch.id) shown channel
  pub entries_of_channel : All (λ e. is_selected e.event.header.channel_id channel ≡ true) entries

abbrev pub IsConsistent : App → Type 0
IsConsistent app =
    IsSelection app.groups app.selected_group app.channels app.selected_channel app.timeline

group_first : (gs : List Group) → IsFrom (λ g. g.id) gs (first_group gs)
group_first [] = refl
group_first (g ∷ gs) = ground arith

channel_first : (chs : List Channel) → IsFrom (λ ch. ch.id) chs (first_channel chs)
channel_first [] = refl
channel_first (ch ∷ chs) = ground arith

select_or_first-IsFrom :
    {A : Type 0} (key : A → ℕ) (rows : List A) (selected first : Option ℕ)
    → IsFrom key rows first
    → IsFrom key rows (select_or_first (λ id. any (λ r. key r == id) rows) selected first)
select_or_first-IsFrom key rows none first h = h
select_or_first-IsFrom key rows (some id) first h =
    elim (Bool-cases (any (λ r. key r == id) rows)) [
      | inl known ↦ rw known known
      | inr unknown ↦ rw unknown h
    ]

channels-of_group :
    (selected : Option GroupId) (n : Node)
    → All
        (λ ch. is_selected ch.group_id selected ≡ true)
        (rows_of (λ id. ok (Node.channels id n)) selected)
unfolding channels
channels-of_group none n = tt
channels-of_group (some id) n = All-order_by _ _ _ (
    All-map _ _ _ (λ ch h. ground (arith, h))
      (All-filterb-true (λ ch. ch.group_id == id) n.store.channels))

rows_of_result-All :
    {A : Type 0} (P : A → Type 0) (r : Result (List A))
    → ((rows : List A) → r ≡ ok rows → All P rows)
    → All P (elim r [ ok rows ↦ rows | err e ↦ [] ])
rows_of_result-All P (ok rows) h = h rows refl
rows_of_result-All P (err e) h = tt

entries-of_channel :
    (c : Crates) (selected : Option ChannelId) (n : Node)
    → All
        (λ e. is_selected e.event.header.channel_id selected ≡ true)
        (rows_of (λ id. timeline c id 500 n) selected)
entries-of_channel c none n = tt
entries-of_channel c (some id) n = rows_of_result-All _ (timeline c id 500 n) (λ rows found.
    All-map _ _ rows (λ e h. ground (arith, h)) (timeline-All c id 500 n.store found))

module _ (c : Crates) where
  pub refresh-IsConsistent : (app : App) → IsConsistent (refresh c app)
  unfolding refresh
  refresh-IsConsistent app = record {
    group_shown = select_or_first-IsFrom (λ g. g.id) _ app.selected_group _ (group_first _);
    channels_of_group = channels-of_group _ app.node;
    channel_shown = select_or_first-IsFrom (λ ch. ch.id) _ app.selected_channel _ (channel_first _);
    entries_of_channel = entries-of_channel c _ app.node;
  }

  pub select_group-IsConsistent :
      (id : GroupId) (app : App) → IsConsistent app → IsConsistent (select_group c id app)
  unfolding select_group restore_current_draft
  select_group-IsConsistent id app v =
      let moved : App = record (save_current_draft app) {
        selected_group = some id;
        selected_channel = none;
      } in
      elim (is_selected id app.selected_group)
        as (λ b. IsConsistent (if b then app else restore_current_draft (refresh c moved))) [
          | true ↦ v
          | false ↦ refresh-IsConsistent moved
        ]

  pub select_channel-IsConsistent :
      (id : ChannelId) (app : App) → IsConsistent app → IsConsistent (select_channel c id app)
  unfolding select_channel restore_current_draft
  select_channel-IsConsistent id app v =
      let moved : App = record (save_current_draft app) { selected_channel = some id } in
      elim (is_selected id app.selected_channel)
        as (λ b. IsConsistent (if b then app else restore_current_draft (refresh c moved))) [
          | true ↦ v
          | false ↦ refresh-IsConsistent moved
        ]

  after_send-IsConsistent :
      (r : Result EventEnvelope × Node) (app : App)
      → IsConsistent app
      → IsConsistent (after_send c r app)
  after_send-IsConsistent (ok event, n) app v =
      refresh-IsConsistent (record app { node = n; composer = [] })
  after_send-IsConsistent (err e, n) app v = v

  after_attachment-IsConsistent :
      (r : Result EventEnvelope × Node) (app : App)
      → IsConsistent app
      → IsConsistent (after_attachment c r app)
  after_attachment-IsConsistent (ok event, n) app v =
      refresh-IsConsistent
        (record app { node = n; toast = some (notice (codes "Encrypted attachment added")) })
  after_attachment-IsConsistent (err e, n) app v = v

  pub send_body-IsConsistent :
      (body : Text) (drawn : Option Nonce) (sent_at later : ℤ) (selected : Option ChannelId)
      (app : App)
      → IsConsistent app
      → IsConsistent (send_body c body drawn sent_at later selected app)
  send_body-IsConsistent body drawn sent_at later none app v = v
  send_body-IsConsistent [] drawn sent_at later (some channel) app v = v
  send_body-IsConsistent (ch ∷ body) drawn sent_at later (some channel) app v =
      after_send-IsConsistent (send c channel (text (ch ∷ body)) drawn sent_at later app.node) app v

  pub send_file-IsConsistent :
      (name mime : Text) (bytes : List ℕ) (drawn : Option Nonce) (sent_at later : ℤ)
      (selected : Option ChannelId) (app : App)
      → IsConsistent app
      → IsConsistent (send_file c name mime bytes drawn sent_at later selected app)
  send_file-IsConsistent name mime bytes drawn sent_at later none app v = v
  send_file-IsConsistent name mime bytes drawn sent_at later (some channel) app v =
      after_attachment-IsConsistent
        (send c channel (attachment name mime bytes []) drawn sent_at later app.node) app v
