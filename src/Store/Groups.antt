-- ===== src/Store/Groups.antt =====
-- src/store.rs: groups and channels. Random identifiers and keys are arguments.
use opencord.Base.{
  ℕ, ◌+◌, ℤ, ltb_ℤ, Bool, false, ◌||◌, List, [], ◌∷◌, Option, ltb, leb, ◌==◌, if◌then◌else◌, any,
  filterb, find, map, Result, ok, ensure, ◌>>◌, ◌>>=◌, channel_position_overflow,
  channel_of_unknown_group, max,
}
use opencord.Text.{Text, codes, text_lt, clean_label, is_whitespace}
use opencord.Model.{Key, GroupId, ChannelId, Group, Channel}
use opencord.Crates.{Crates}
use opencord.Store.{
  Store, has_group_id, insert_group, insert_channel, insert_or_ignore_channel, order_by, u32_max,
}

-- `Store::create_group`
unfoldable pub create_group :
    Text → GroupId → ChannelId → Key → ℤ → Store → Result (Group × Channel × Store)
unfolding insert_group insert_channel
create_group name group_id channel_id secret now s = do
  let group : Group = record {
    id = group_id;
    name = clean_label name (codes "New group") 64;
    secret = secret;
    created_at_ms = now;
  }
  let channel : Channel = record {
    id = channel_id;
    group_id = group_id;
    name = codes "general";
    position = 0;
  }
  s1 ← insert_group group s
  s2 ← insert_channel channel s1
  ok (group, channel, s2)

group_before : Group → Group → Bool
group_before g h =
    ltb_ℤ g.created_at_ms h.created_at_ms
    || (if ltb_ℤ h.created_at_ms g.created_at_ms then false else text_lt g.name h.name)

-- `Store::groups`
unfoldable pub groups : Store → List Group
unfolding order_by group_before
groups s = order_by group_before s.groups

-- `Store::group`
abbrev pub group : GroupId → Store → Option Group
group id s = find (has_group_id id) s.groups

channel_before : Channel → Channel → Bool
channel_before c d =
    ltb c.position d.position
    || (if ltb d.position c.position then false else text_lt c.name d.name)

-- `Store::channels`
unfoldable pub channels : GroupId → Store → List Channel
unfolding order_by channel_before
channels group_id s = order_by channel_before (filterb (λ ch. ch.group_id == group_id) s.channels)

-- COALESCE(MAX(position), -1) + 1
unfoldable pub next_position : List Channel → ℕ
next_position [] = 0
next_position (ch ∷ rest) = max (ch.position + 1) (next_position rest)

module _ (c : Crates) where
  -- The name that `create_channel` makes of what was typed.
  unfoldable pub channel_name : Text → Text
  channel_name name =
      map (λ character. if is_whitespace character then 0x2d else character)
        (c.to_lowercase (clean_label name (codes "new-channel") 64))

  -- `Store::create_channel`
  unfoldable pub create_channel : GroupId → Text → ChannelId → Store → Result (Channel × Store)
  create_channel group_id name channel_id s = do
    let position : ℕ = next_position (filterb (λ ch. ch.group_id == group_id) s.channels)
    ensure (leb position u32_max) channel_position_overflow
    let channel : Channel = record {
      id = channel_id;
      group_id = group_id;
      name = channel_name name;
      position = position;
    }
    s1 ← insert_channel channel s
    ok (channel, s1)

-- `Store::merge_channel`
unfoldable pub merge_channel : Channel → Store → Result (Bool × Store)
merge_channel channel s = do
  ensure (any (has_group_id channel.group_id) s.groups) channel_of_unknown_group
  insert_or_ignore_channel (record channel { name = clean_label channel.name (codes "channel") 64 })
      s
