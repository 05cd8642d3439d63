-- ===== src/App/Drafts.antt =====
-- The drafts of src/app.rs: what is typed in a channel is there again on the way back.
use opencord.Base.{
  ◌≡◌, ◌≢◌, refl, sym, ap, ◌∙◌, true, false, ◌==◌, ==_ne, List, [], ◌∷◌, none, some, any, arith,
  if◌then◌else◌, is_empty,
}
use opencord.Text.{trim}
use opencord.Model.{GroupId, ChannelId}
use opencord.Crates.{Crates}
use opencord.Node.{Node}
use opencord.Node
use opencord.App.{
  App, Draft, refresh, is_selected, save_current_draft, restore_current_draft, select_channel,
  without, draft_of, draft_or_empty,
}

draft_of-without :
    (a b : ChannelId) (ds : List Draft)
    → (b == a) ≡ false
    → draft_of a (without b ds) ≡ draft_of a ds
draft_of-without a b [] other = refl
draft_of-without a b (d ∷ ds) other = ground (arith, draft_of-without a b ds other)

-- The channel is one of the selected group, as the node has them.
pub record CanSelect (app : App) (group : GroupId) (channel : ChannelId) : Type 0 where
  pub group_is : app.selected_group ≡ some group
  pub group_known : any (λ g. g.id == group) (Node.groups app.node) ≡ true
  pub channel_known : any (λ ch. ch.id == channel) (Node.channels group app.node) ≡ true

module _ (c : Crates) where
  -- A refresh keeps a selection that the node has.
  refresh-CanSelect :
      (app : App) (group : GroupId) (channel : ChannelId)
      → CanSelect app group channel
      → app.selected_channel ≡ some channel
      → ((refresh c app).selected_group ≡ some group)
        × ((refresh c app).selected_channel ≡ some channel)
  unfolding refresh
  refresh-CanSelect app group channel can selected =
      rw (can.group_is, can.group_known, selected, can.channel_known) (refl, refl)

draft_of-save_other :
    (app : App) (a b : ChannelId)
    → app.selected_channel ≡ some b
    → (b == a) ≡ false
    → draft_of a (save_current_draft app).drafts ≡ draft_of a app.drafts
unfolding save_current_draft
draft_of-save_other app a b selected other =
    let left = draft_of-without a b app.drafts other in
    rw selected
      (elim (is_empty (trim app.composer))
        as (λ blank.
          draft_of a (
            if blank
            then without b app.drafts
            else record { channel = b; body = app.composer } ∷ without b app.drafts)
          ≡ draft_of a app.drafts) [ true ↦ left | false ↦ rw other left ])

draft_of-save_own :
    (app : App) (a : ChannelId)
    → app.selected_channel ≡ some a
    → is_empty (trim app.composer) ≡ false
    → draft_of a (save_current_draft app).drafts ≡ some app.composer
unfolding save_current_draft
draft_of-save_own app a selected typed = rw (selected, typed) (ground arith)

module _ (c : Crates) where
  -- What a handler that changes the channel leaves, if the node has the channel.
  record Moved (group : GroupId) (b : ChannelId) (app after : App) : Type 0 where
    pub same_node : after.node ≡ app.node
    pub group_is : after.selected_group ≡ some group
    pub channel_is : after.selected_channel ≡ some b
    pub composer_is : after.composer ≡ draft_or_empty (some b) (save_current_draft app).drafts
    pub drafts_are : after.drafts ≡ without b (save_current_draft app).drafts

  select_channel-Moved :
      (app : App) (group : GroupId) (b : ChannelId)
      → CanSelect app group b
      → is_selected b app.selected_channel ≡ false
      → Moved group b app (select_channel c b app)
  unfolding select_channel restore_current_draft refresh save_current_draft
  select_channel-Moved app group b can other =
      let saved = save_current_draft app in
      let moved : App = record saved { selected_channel = some b } in
      let kept =
        refresh-CanSelect c moved group b
          (record {
            group_is = can.group_is;
            group_known = can.group_known;
            channel_known = can.channel_known;
          })
          refl in
      rw other (record {
        same_node = refl;
        group_is = kept.0;
        channel_is = kept.1;
        composer_is = ap (λ sel. draft_or_empty sel saved.drafts) kept.1;
        drafts_are =
            ap
              (λ sel. elim sel [
                | none ↦ saved.drafts
                | some channel ↦ without channel saved.drafts
              ])
              kept.1;
      })

  -- What is typed in the selected channel, unless it is blank, is in the composer again after a
  -- visit to a different channel of the selected group, and the channel is selected again, if the
  -- node has the group and both channels.
  pub select_channel-back :
      (app : App) (group : GroupId) (a b : ChannelId)
      → CanSelect app group a
      → CanSelect app group b
      → app.selected_channel ≡ some a
      → a ≢ b
      → is_empty (trim app.composer) ≡ false
      → ((select_channel c a (select_channel c b app)).composer ≡ app.composer)
        × ((select_channel c a (select_channel c b app)).selected_channel ≡ some a)
  select_channel-back app group a b has_a has_b here apart typed =
      let differ : (a == b) ≡ false = ==_ne a b apart in
      let differ' : (b == a) ≡ false = ==_ne b a (λ e. apart (sym e)) in
      let there = select_channel-Moved app group b has_b (rw here differ) in
      let away = select_channel c b app in
      let can : CanSelect away group a = record {
        group_is = there.group_is;
        group_known = rw there.same_node has_a.group_known;
        channel_known = rw there.same_node has_a.channel_known;
      } in
      let again = select_channel-Moved away group a can (rw there.channel_is differ') in
      let found : draft_of a (save_current_draft away).drafts ≡ some app.composer =
        draft_of-save_other away a b there.channel_is differ'
        ∙ ap (draft_of a) there.drafts_are
        ∙ draft_of-without a b _ differ'
        ∙ draft_of-save_own app a here typed in
      (
        again.composer_is ∙ ap (λ d. elim d [ some body ↦ body | none ↦ [] ]) found,
        again.channel_is,
      )
