-- ===== src/App/Actions.antt =====
-- Whatever the user does and the network changes, the application of src/app.rs stays consistent.
use opencord.Base.{
  ℕ, Bool, true, false, not, ◌==◌, ◌&&◌, List, [], ◌∷◌, ◌++◌, Option, none, some, ℤ, if◌then◌else◌,
  Result, ok, err,
}
use opencord.Text.{Text, trim, codes}
use opencord.Model.{Key, Nonce, GroupId, ChannelId, Group, Channel, TimelineEntry, GroupInvite}
use opencord.Crates.{Crates}
use opencord.Crypto.{peer_id}
use opencord.Node.{Node, Net, snapshot}
use opencord.Node
use opencord.App.{
  App, notice, refresh, select_group, select_channel, send_composer, send_attachment,
}
use opencord.App.Handlers.{
  go_to, go_from, position_of, last_entry, is_same_place, announce, announced, channel_created,
  create_in, group_created, group_joined, step_channel, notice_changes, create_channel,
  create_group, join_group,
}
use opencord.App.Selection.{
  IsConsistent, refresh-IsConsistent, select_group-IsConsistent, select_channel-IsConsistent,
  send_body-IsConsistent, send_file-IsConsistent,
}

module _ (c : Crates) where
  go_to-IsConsistent :
      (to : Option Channel) (app : App) → IsConsistent app → IsConsistent (go_to c to app)
  go_to-IsConsistent none app v = v
  go_to-IsConsistent (some channel) app v = select_channel-IsConsistent c channel.id app v

  go_from-IsConsistent :
      (previous : Bool) (at : Option ℕ) (app : App)
      → IsConsistent app
      → IsConsistent (go_from c previous at app)
  go_from-IsConsistent previous none app v = v
  go_from-IsConsistent previous (some index) app v = go_to-IsConsistent _ app v

  announce-IsConsistent :
      (previous last : Option TimelineEntry) (app : App)
      → IsConsistent app
      → IsConsistent (announce c previous last app)
  announce-IsConsistent previous none app v = v
  announce-IsConsistent previous (some entry) app v =
      elim (not (is_same_place entry previous)
          && not (entry.event.header.author == peer_id c app.node.identity))
        as (λ b. IsConsistent (
          if b
          then record app { toast = some (notice (codes "New message from " ++ entry.author_name)) }
          else app)) [ true ↦ v | false ↦ v ]

  channel_created-IsConsistent :
      (r : Result Channel × Node) (app : App)
      → IsConsistent app
      → IsConsistent (channel_created c r app)
  channel_created-IsConsistent (ok channel, n) app v =
      refresh-IsConsistent c (record app { node = n; selected_channel = some channel.id })
  channel_created-IsConsistent (err e, n) app v = v

  create_in-IsConsistent :
      (name : Text) (id : ChannelId) (group : Option GroupId) (app : App)
      → IsConsistent app
      → IsConsistent (create_in c name id group app)
  create_in-IsConsistent name id none app v = v
  create_in-IsConsistent name id (some group) app v =
      channel_created-IsConsistent (Node.create_channel c group name id app.node) app v

  group_created-IsConsistent :
      (r : Result (Group × Channel) × Node) (app : App)
      → IsConsistent app
      → IsConsistent (group_created c r app)
  group_created-IsConsistent (ok created, n) app v =
      refresh-IsConsistent c
        (record app { node = n; toast = some (notice (codes "Encrypted group created")) })
  group_created-IsConsistent (err e, n) app v = v

  group_joined-IsConsistent :
      (r : Result GroupInvite × Node) (app : App)
      → IsConsistent app
      → IsConsistent (group_joined c r app)
  group_joined-IsConsistent (ok invite, n) app v = refresh-IsConsistent c (record app {
    node = n;
    toast = some (notice (codes "Invite verified — rebuilding from online peers"));
  })
  group_joined-IsConsistent (err e, n) app v = v

-- What happens to the application: a handler runs, the user types, or the node, on which the network
-- tasks work too, becomes another one, which the application sees at its next refresh.
pub data Action : Type 0 where
  picks_group : GroupId → Action
  picks_channel : ChannelId → Action
  types : Text → Action
  sends : Option Nonce → ℤ → ℤ → Action
  attaches : Text → Text → List ℕ → Option Nonce → ℤ → ℤ → Action
  node_becomes : Node → Action
  refreshes : Action
  notices : Action
  steps : Bool → Action
  creates_channel : Text → ChannelId → Action
  creates_group : Text → GroupId → ChannelId → Key → ℤ → Action
  joins : Net → Text → Action

module _ (c : Crates) where
  abbrev pub act : Action → App → App
  act (picks_group id) app = select_group c id app
  act (picks_channel id) app = select_channel c id app
  act (types body) app = record app { composer = body }
  act (sends drawn sent_at later) app = send_composer c drawn sent_at later app
  act (attaches name mime bytes drawn sent_at later) app =
      send_attachment c name mime bytes drawn sent_at later app
  act (node_becomes node) app = record app { node = node }
  act refreshes app = refresh c app
  act notices app = notice_changes c app
  act (steps previous) app = step_channel c previous app
  act (creates_channel name channel_id) app = create_channel c name channel_id app
  act (creates_group name group_id channel_id secret at) app =
      create_group c name group_id channel_id secret at app
  act (joins net invite) app = join_group c net invite app

  abbrev pub run : List Action → App → App
  run [] app = app
  run (a ∷ rest) app = run rest (act a app)

  act-IsConsistent : (a : Action) (app : App) → IsConsistent app → IsConsistent (act a app)
  unfolding send_composer send_attachment notice_changes step_channel create_channel create_group
      join_group
  act-IsConsistent (picks_group id) app v = select_group-IsConsistent c id app v
  act-IsConsistent (picks_channel id) app v = select_channel-IsConsistent c id app v
  act-IsConsistent (types body) app v = v
  act-IsConsistent (sends drawn sent_at later) app v =
      send_body-IsConsistent c (trim app.composer) drawn sent_at later app.selected_channel app v
  act-IsConsistent (attaches name mime bytes drawn sent_at later) app v =
      send_file-IsConsistent c name mime bytes drawn sent_at later app.selected_channel app v
  act-IsConsistent (node_becomes node) app v = v
  act-IsConsistent refreshes app v = refresh-IsConsistent c app
  act-IsConsistent notices app v =
      elim ((snapshot app.node).generation == app.last_generation)
        as (λ b.
          IsConsistent (if b then app else announced c (last_entry app.timeline) (refresh c app))) [
            | true ↦ v
            | false ↦
                announce-IsConsistent c (last_entry app.timeline)
                  (last_entry (refresh c app).timeline) (refresh c app) (refresh-IsConsistent c app)
          ]
  act-IsConsistent (steps previous) app v =
      go_from-IsConsistent c previous (position_of c app.selected_channel app.channels) app v
  act-IsConsistent (creates_channel name channel_id) app v =
      create_in-IsConsistent c name channel_id app.selected_group app v
  act-IsConsistent (creates_group name group_id channel_id secret at) app v =
      group_created-IsConsistent c (Node.create_group c name group_id channel_id secret at app.node)
        app v
  act-IsConsistent (joins net invite) app v =
      group_joined-IsConsistent c (Node.import_invite c net invite app.node) app v

  run_from : (actions : List Action) (app : App) → IsConsistent app → IsConsistent (run actions app)
  run_from [] app v = v
  run_from (a ∷ rest) app v = run_from rest (act a app) (act-IsConsistent a app v)

  -- Once it is refreshed, the application is consistent after any sequence of handlers, typing and
  -- changes of its node: the selected group is one of the groups shown, the channels shown are all
  -- of that group, the selected channel is one of these, and the messages shown are all of that
  -- channel; nothing is selected only where nothing is shown.
  pub run-IsConsistent :
      (actions : List Action) (app : App) → IsConsistent (run actions (refresh c app))
  run-IsConsistent actions app = run_from actions (refresh c app) (refresh-IsConsistent c app)
