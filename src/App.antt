-- ===== src/App.antt =====
-- `OpencordApp` of src/app.rs: the selection, the drafts of the composer, and what the handlers do
-- to them. Windows, widgets and painting are egui's; a handler is the function that a widget's
-- callback calls. Of a toast the time is left out. `refresh` reads the node, which the model's reads
-- do not change; a group's or channel's rows are always read, since an SQLite error is not modelled.
pub mod Actions
pub mod Handlers
pub mod Messages
pub mod Selection
pub mod Drafts
use opencord.Base.{
  ℕ, ◌==◌, Bool, true, false, not, ◌||◌, List, [], ◌∷◌, ◌++◌, Option, none, some, ℤ, if◌then◌else◌,
  any, find, filterb, head?, is_empty, map, take, Result, ok, err, Error,
}
use opencord.Text.{Text, codes, trim, contains}
use opencord.Model.{
  Nonce, GroupId, ChannelId, Group, Channel, MessagePayload, text, attachment, system,
  TimelineEntry, EventEnvelope,
}
use opencord.Crates.{Crates}
use opencord.Network.State.{NetworkSnapshot}
use opencord.Node.{Node, send, snapshot, timeline}
use opencord.Node

pub data Toast : Type 0 where
  notice : Text → Toast
  failure : Error → Toast

pub record Draft : Type 0 where
  pub channel : ChannelId
  pub body : Text

pub record App : Type 0 where
  pub node : Node
  pub groups : List Group
  pub channels : List Channel
  pub timeline : List TimelineEntry
  pub network : NetworkSnapshot
  pub selected_group : Option GroupId
  pub selected_channel : Option ChannelId
  pub composer : Text
  -- `HashMap<ChannelId, String>`
  pub drafts : List Draft
  pub toast : Option Toast
  pub last_generation : ℕ

-- The selection if one of the rows has it, and else the first row.
abbrev pub select_or_first : (ℕ → Bool) → Option ℕ → Option ℕ → Option ℕ
select_or_first known none first = first
select_or_first known (some id) first = if known id then some id else first

-- `and_then(..)` and `unwrap_or_default()` on lists
abbrev pub rows_of {ℓ} : {A : Type ℓ} → (ℕ → Result (List A)) → Option ℕ → List A
rows_of read none = []
rows_of read (some id) = elim (read id) [ ok rows ↦ rows | err e ↦ [] ]

abbrev pub first_group : List Group → Option GroupId
first_group [] = none
first_group (g ∷ gs) = some g.id

abbrev pub first_channel : List Channel → Option ChannelId
first_channel [] = none
first_channel (ch ∷ chs) = some ch.id

-- `HashMap::remove`, and the value that it returns
abbrev pub without : ChannelId → List Draft → List Draft
without id drafts = filterb (λ d. not (d.channel == id)) drafts

abbrev pub draft_of : ChannelId → List Draft → Option Text
draft_of id [] = none
draft_of id (d ∷ ds) = if d.channel == id then some d.body else draft_of id ds

module _ (c : Crates) where
  -- `refresh`
  unfoldable pub refresh : App → App
  refresh app =
      let network = snapshot app.node in
      let groups = Node.groups app.node in
      let selected_group =
        select_or_first (λ id. any (λ g. g.id == id) groups) app.selected_group
          (first_group groups) in
      let channels = rows_of (λ id. ok (Node.channels id app.node)) selected_group in
      let selected_channel =
        select_or_first (λ id. any (λ ch. ch.id == id) channels) app.selected_channel
          (first_channel channels) in
      record app {
        network = network;
        last_generation = network.generation;
        groups = groups;
        selected_group = selected_group;
        channels = channels;
        selected_channel = selected_channel;
        timeline = rows_of (λ id. timeline c id 500 app.node) selected_channel;
      }

-- `save_current_draft`: a blank text is not kept as a draft, and stays in the composer.
unfoldable pub save_current_draft : App → App
save_current_draft app =
    let blank = is_empty (trim app.composer) in
    record app {
      drafts = elim app.selected_channel [
        | none ↦ app.drafts
        | some channel ↦
            if blank
            then without channel app.drafts
            else record { channel = channel; body = app.composer } ∷ without channel app.drafts
      ];
      composer = elim app.selected_channel [
        | none ↦ app.composer
        | some channel ↦ if blank then app.composer else []
      ];
    }

-- The draft that `restore_current_draft` takes out of the map.
abbrev pub draft_or_empty : Option ChannelId → List Draft → Text
draft_or_empty none drafts = []
draft_or_empty (some id) drafts = elim (draft_of id drafts) [ some body ↦ body | none ↦ [] ]

-- `restore_current_draft`
unfoldable pub restore_current_draft : App → App
restore_current_draft app = record app {
  composer = draft_or_empty app.selected_channel app.drafts;
  drafts = elim app.selected_channel [
    | none ↦ app.drafts
    | some channel ↦ without channel app.drafts
  ];
}

abbrev pub is_selected : ℕ → Option ℕ → Bool
is_selected id none = false
is_selected id (some selected) = selected == id

module _ (c : Crates) where
  -- `select_group`
  unfoldable pub select_group : GroupId → App → App
  unfolding refresh save_current_draft restore_current_draft
  select_group id app =
      if is_selected id app.selected_group
      then app
      else restore_current_draft (
          refresh c
            (record (save_current_draft app) { selected_group = some id; selected_channel = none }))

  -- `select_channel`
  unfoldable pub select_channel : ChannelId → App → App
  unfolding refresh save_current_draft restore_current_draft
  select_channel id app =
      if is_selected id app.selected_channel
      then app
      else restore_current_draft
          (refresh c (record (save_current_draft app) { selected_channel = some id }))

  -- What follows `node.send` in `send_composer` and in `send_attachment`.
  abbrev pub after_send : Result EventEnvelope × Node → App → App
  after_send (ok event, node) app = refresh c (record app { node = node; composer = [] })
  after_send (err e, node) app = record app { node = node; toast = some (failure e) }

  abbrev pub after_attachment : Result EventEnvelope × Node → App → App
  after_attachment (ok event, node) app =
      refresh c
        (record app { node = node; toast = some (notice (codes "Encrypted attachment added")) })
  after_attachment (err e, node) app = record app { node = node; toast = some (failure e) }

  abbrev pub send_body : Text → Option Nonce → ℤ → ℤ → Option ChannelId → App → App
  send_body body drawn sent_at now none app = app
  send_body body drawn sent_at now (some channel) app =
      if is_empty body
      then app
      else after_send (send c channel (text body) drawn sent_at now app.node) app

  -- `send_composer`
  unfoldable pub send_composer : Option Nonce → ℤ → ℤ → App → App
  send_composer drawn sent_at now app =
      send_body (trim app.composer) drawn sent_at now app.selected_channel app

  abbrev pub send_file : Text → Text → List ℕ → Option Nonce → ℤ → ℤ → Option ChannelId → App → App
  send_file file_name mime bytes drawn sent_at now none app = app
  send_file file_name mime bytes drawn sent_at now (some channel) app =
      after_attachment
        (send c channel (attachment file_name mime bytes []) drawn sent_at now app.node) app

  -- `send_attachment`, with the name, the type and the contents of a file that was read.
  unfoldable pub send_attachment : Text → Text → List ℕ → Option Nonce → ℤ → ℤ → App → App
  send_attachment file_name mime bytes drawn sent_at now app =
      send_file file_name mime bytes drawn sent_at now app.selected_channel app

-- `current_group` and `current_channel`
abbrev pub current_group : App → Option Group
current_group app = elim app.selected_group [
  | none ↦ none
  | some id ↦ find (λ g. g.id == id) app.groups
]

abbrev pub current_channel : App → Option Channel
current_channel app = elim app.selected_channel [
  | none ↦ none
  | some id ↦ find (λ ch. ch.id == id) app.channels
]
