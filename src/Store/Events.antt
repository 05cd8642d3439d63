-- ===== src/Store/Events.antt =====
-- src/store.rs: the event log. `append` writes the local author's next event, `insert_remote_event`
-- what a peer sent; `timeline`, `inventories`, `events_range` and `event_count` read it.
use opencord.Base.{
  ℕ, ◌+◌, ℤ, ltb_ℤ, Bool, true, false, not, ◌&&◌, ◌||◌, List, [], ◌∷◌, Option, none, some, ltb, leb,
  ◌==◌, if◌then◌else◌, any, filterb, find, map, take, length, Result, ok, ensure, or_error, ◌>>◌,
  ◌>>=◌, integer_out_of_range, channel_does_not_exist, author_is_blocked, unknown_group,
  unknown_channel, equivocation, invalid_event_range, no_rows, max, min,
}
use mathlib.Core.List.{reverse}
use opencord.Text.{Text, codes, clean_label}
use opencord.Model.{
  Key, Nonce, GroupId, ChannelId, PeerId, Group, EventEnvelope, MessagePayload, TimelineEntry,
  AuthorHead, GroupInventory, validate,
}
use opencord.Crates.{Crates}
use opencord.Crypto.{Identity, peer_id, seal_event, validate_and_open_event}
use opencord.Store.{
  Store, EventRow, has_group_id, has_channel_id, has_peer_id, is_event_at, insert_event,
  event_from_row, upsert_peer, order_by, i64_limit, sql_u64, next_u64,
}
use opencord.Store.Groups.{group, groups}
use opencord.Store.Peers.{is_blocked}

-- SELECT .. FROM groups g JOIN channels c ON c.group_id = g.id WHERE c.id = ?
unfoldable pub group_of_channel : ChannelId → Store → Option Group
group_of_channel id s = elim (find (has_channel_id id) s.channels) [
  | some ch ↦ find (has_group_id ch.group_id) s.groups
  | none ↦ none
]

-- COALESCE(MAX(author_sequence), 0)
unfoldable pub max_sequence : GroupId → PeerId → List EventRow → ℕ
max_sequence g a [] = 0
max_sequence g a (e ∷ es) =
    if e.group_id == g && e.author == a
    then max e.author_sequence (max_sequence g a es)
    else max_sequence g a es

-- LEFT JOIN peers and COALESCE(p.display_name, 'Unknown peer')
abbrev pub sender_name : PeerId → Store → Text
sender_name author s = elim (find (has_peer_id author) s.peers) [
  | some p ↦ p.display_name
  | none ↦ codes "Unknown peer"
]

module _ (c : Crates) where
  -- `Store::append`. A sum past i64::MAX would be a REAL in SQLite, which `row.get` refuses.
  unfoldable pub append :
      Identity
      → ChannelId
      → MessagePayload
      → Option Nonce
      → ℤ
      → ℤ
      → Store
      → Result (EventEnvelope × Store)
  append identity channel_id payload drawn sent_at now s = do
    validate payload
    g ← or_error (group_of_channel channel_id s) channel_does_not_exist
    let next_sequence : ℕ = max_sequence g.id (peer_id c identity) s.events + 1
    ensure (ltb next_sequence i64_limit) integer_out_of_range
    event ← seal_event c identity g.id channel_id g.secret next_sequence sent_at drawn payload
    s1 ← insert_event event s
    ok (event, upsert_peer (peer_id c identity) identity.display_name now s1)

  unfoldable pub insert_if_new :
      EventEnvelope → Text → ℤ → Store → Option EventRow → Result (Bool × Store)
  insert_if_new event author now s (some existing) = do
    ensure (existing.id == event.header.id) equivocation
    ok (false, s)
  insert_if_new event author now s none = do
    s1 ← insert_event event s
    ok (true, upsert_peer event.header.author (clean_label author (codes "Unknown peer") 48) now s1)

  -- `Store::insert_remote_event`
  unfoldable pub insert_remote_event : EventEnvelope → Text → ℤ → Store → Result (Bool × Store)
  unfolding insert_if_new
  insert_remote_event event author now s = do
    ensure (not (is_blocked event.header.author s)) author_is_blocked
    g ← or_error (group event.header.group_id s) unknown_group
    _ ← validate_and_open_event c event g.secret
    ensure
        (any
          (λ ch. has_channel_id event.header.channel_id ch && ch.group_id == event.header.group_id)
          s.channels)
        unknown_channel
    sequence ← sql_u64 event.header.author_sequence
    insert_if_new event author now s
        (find (is_event_at event.header.group_id event.header.author sequence) s.events)

  -- The loop of `timeline`: each row is opened, and one that does not open fails the whole read.
  unfoldable pub open_rows : Key → Store → List EventRow → Result (List TimelineEntry)
  open_rows secret s [] = ok []
  open_rows secret s (row ∷ rows) = do
    payload ← validate_and_open_event c (event_from_row row) secret
    rest ← open_rows secret s rows
    ok (
        record {
          event = event_from_row row;
          author_name = sender_name row.author s;
          payload = payload;
        }
        ∷ rest)

-- ORDER BY sent_at_ms DESC, author DESC, author_sequence DESC
unfoldable pub newer : EventRow → EventRow → Bool
newer e f =
    ltb_ℤ f.sent_at_ms e.sent_at_ms
    || (if ltb_ℤ e.sent_at_ms f.sent_at_ms
        then false
        else (ltb f.author e.author
            || (if ltb e.author f.author then false else ltb f.author_sequence e.author_sequence)))

unfoldable pub timeline_rows : ChannelId → ℕ → Store → List EventRow
timeline_rows channel_id limit s =
    take (min limit 2000) (order_by newer (filterb (λ e. e.channel_id == channel_id) s.events))

module _ (c : Crates) where
  -- `Store::timeline`
  unfoldable pub timeline : ChannelId → ℕ → Store → Result (List TimelineEntry)
  timeline channel_id limit s = do
    g ← or_error (group_of_channel channel_id s) no_rows
    entries ← open_rows c g.secret s (timeline_rows channel_id limit s)
    ok (reverse entries)

-- ORDER BY author, author_sequence
unfoldable pub by_author : EventRow → EventRow → Bool
by_author e f =
    ltb e.author f.author
    || (if ltb f.author e.author then false else ltb e.author_sequence f.author_sequence)

-- `*head = sequence` where the sequence is the next one.
unfoldable pub advance : ℕ → ℕ → ℕ
unfolding next_u64
advance head sequence = if sequence == next_u64 head then sequence else head

-- `BTreeMap::entry(author).or_default()` and the update of its value, in a map sorted by author.
unfoldable pub note_sequence : PeerId → ℕ → List AuthorHead → List AuthorHead
note_sequence author sequence [] = record { author = author; sequence = advance 0 sequence } ∷ []
note_sequence author sequence (h ∷ hs) =
    if h.author == author
    then record h { sequence = advance h.sequence sequence } ∷ hs
    else if ltb author h.author
    then record { author = author; sequence = advance 0 sequence } ∷ h ∷ hs
    else h ∷ note_sequence author sequence hs

unfoldable pub contiguous : List AuthorHead → List EventRow → List AuthorHead
contiguous heads [] = heads
contiguous heads (row ∷ rows) = contiguous (note_sequence row.author row.author_sequence heads) rows

-- The body of the loop of `inventories`, for one group.
unfoldable pub inventory : GroupId → Store → GroupInventory
inventory group_id s = record {
  group_id = group_id;
  heads = contiguous [] (order_by by_author (filterb (λ e. e.group_id == group_id) s.events));
}

-- `Store::inventories`
unfoldable pub inventories : Store → List GroupInventory
inventories s = map (λ g. inventory g.id s) (groups s)

-- The rows that `events_range` selects.
unfoldable pub range_rows : GroupId → PeerId → ℕ → ℕ → Store → List EventRow
range_rows group_id author first last s =
    order_by (λ e f. ltb e.author_sequence f.author_sequence)
      (filterb
        (λ e.
          e.group_id == group_id
          && (e.author == author && (leb first e.author_sequence && leb e.author_sequence last)))
        s.events)

-- `Store::events_range`
unfoldable pub events_range : GroupId → PeerId → ℕ → ℕ → Store → Result (List EventEnvelope)
events_range group_id author first last s = do
  ensure (ltb 0 first && leb first last) invalid_event_range
  first' ← sql_u64 first
  last' ← sql_u64 last
  ok (map event_from_row (take 128 (range_rows group_id author first' last' s)))

-- `Store::event_count`
unfoldable pub event_count : GroupId → Store → ℕ
event_count group_id s = length (filterb (λ e. e.group_id == group_id) s.events)
