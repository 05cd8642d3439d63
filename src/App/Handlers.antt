-- ===== src/App/Handlers.antt =====
-- The handlers of src/app.rs that the keyboard, a new frame and the dialogs call: moving to the
-- channel above or below, the refresh after the network changed something, and the dialogs that
-- create a channel or a group and that join a group.
use opencord.Base.{
  ℕ, zero, suc, ◌+◌, ◌-◌, ◌%◌, max, ◌==◌, ◌&&◌, Bool, true, false, not, List, [], ◌∷◌, ◌++◌, Option,
  none, some, ℤ, if◌then◌else◌, filterb, length, Result, ok, err,
}
use opencord.Text.{Text, codes, trim, contains}
use opencord.Model.{Key, GroupId, ChannelId, Group, Channel, TimelineEntry, GroupInvite}
use opencord.Crates.{Crates}
use opencord.Crypto.{peer_id}
use opencord.Node.{Node, Net, snapshot}
use opencord.Node
use opencord.App.{App, notice, failure, refresh, select_channel}

-- `iter().position(..)`
abbrev pub position : ChannelId → List Channel → Option ℕ
position id [] = none
position id (ch ∷ chs) =
    if ch.id == id then some 0 else (elim (position id chs) [ some n ↦ some (suc n) | none ↦ none ])

-- `get(index)`
abbrev pub channel_at : ℕ → List Channel → Option Channel
channel_at n [] = none
channel_at zero (ch ∷ chs) = some ch
channel_at (suc n) (ch ∷ chs) = channel_at n chs

-- `index.checked_sub(1).unwrap_or(len.saturating_sub(1))`, and the next index around the end
abbrev pub target : Bool → ℕ → ℕ → ℕ
target true zero len = len - 1
target true (suc index) len = index
target false index len = (index + 1) % max len 1

-- `timeline.last()`
abbrev pub last_entry : List TimelineEntry → Option TimelineEntry
last_entry [] = none
last_entry (e ∷ []) = some e
last_entry (e ∷ f ∷ es) = last_entry (f ∷ es)

abbrev pub is_same_place : TimelineEntry → Option TimelineEntry → Bool
is_same_place e none = false
is_same_place e (some f) =
    f.event.header.author == e.event.header.author
    && f.event.header.author_sequence == e.event.header.author_sequence

module _ (c : Crates) where
  abbrev pub go_to : Option Channel → App → App
  go_to none app = app
  go_to (some channel) app = select_channel c channel.id app

  abbrev pub go_from : Bool → Option ℕ → App → App
  go_from previous none app = app
  go_from previous (some index) app =
      go_to (channel_at (target previous index (length app.channels)) app.channels) app

  abbrev pub position_of : Option ChannelId → List Channel → Option ℕ
  position_of none channels = none
  position_of (some id) channels = position id channels

  -- Alt with an arrow key: the channel above (`true`) or below, around the ends.
  unfoldable pub step_channel : Bool → App → App
  step_channel previous app = go_from previous (position_of app.selected_channel app.channels) app

  abbrev pub announce : Option TimelineEntry → Option TimelineEntry → App → App
  announce previous none app = app
  announce previous (some entry) app =
      if not (is_same_place entry previous)
        && not (entry.event.header.author == peer_id c app.node.identity)
      then record app { toast = some (notice (codes "New message from " ++ entry.author_name)) }
      else app

  abbrev pub announced : Option TimelineEntry → App → App
  announced previous app = announce previous (last_entry app.timeline) app

  -- At the beginning of a frame: a change of the node's generation leads to a refresh, and to a
  -- notice where the last entry shown is a new one of another author.
  unfoldable pub notice_changes : App → App
  notice_changes app =
      if (snapshot app.node).generation == app.last_generation
      then app
      else announced (last_entry app.timeline) (refresh c app)

  abbrev pub channel_created : Result Channel × Node → App → App
  channel_created (ok channel, node) app =
      refresh c (record app { node = node; selected_channel = some channel.id })
  channel_created (err e, node) app = record app { node = node; toast = some (failure e) }

  abbrev pub create_in : Text → ChannelId → Option GroupId → App → App
  create_in name channel_id none app = app
  create_in name channel_id (some group) app =
      channel_created (Node.create_channel c group name channel_id app.node) app

  -- The dialog that creates a channel. It does not save the draft of the channel that it leaves.
  unfoldable pub create_channel : Text → ChannelId → App → App
  create_channel name channel_id app = create_in name channel_id app.selected_group app

  abbrev pub group_created : Result (Group × Channel) × Node → App → App
  group_created (ok created, node) app =
      refresh c
        (record app { node = node; toast = some (notice (codes "Encrypted group created")) })
  group_created (err e, node) app = record app { node = node; toast = some (failure e) }

  -- The dialog that creates a group.
  unfoldable pub create_group : Text → GroupId → ChannelId → Key → ℤ → App → App
  create_group name group_id channel_id secret now app =
      group_created (Node.create_group c name group_id channel_id secret now app.node) app

  abbrev pub group_joined : Result GroupInvite × Node → App → App
  group_joined (ok invite, node) app = refresh c (record app {
    node = node;
    toast = some (notice (codes "Invite verified — rebuilding from online peers"));
  })
  group_joined (err e, node) app = record app { node = node; toast = some (failure e) }

  -- The dialog that joins a group.
  unfoldable pub join_group : Net → Text → App → App
  join_group net invite app = group_joined (Node.import_invite c net invite app.node) app

  -- The channels that the quick switcher offers; the Enter key takes the first.
  unfoldable pub switcher_matches : Text → List Channel → List Channel
  switcher_matches query channels =
      filterb (λ ch. contains (c.to_lowercase ch.name) (c.to_lowercase (trim query))) channels
