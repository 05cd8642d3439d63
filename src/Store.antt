-- ===== src/Store.antt =====
-- src/store.rs: the SQLite store as its six tables (`migrate`), the constraints that the schema
-- declares, and the statements that the operations run. A row that is inserted goes to the end of
-- its table. An operation that fails leaves the store as it was: each runs one statement, or all of
-- its statements in one transaction that is rolled back on an error. `ORDER BY` is a stable sort:
-- what SQLite leaves open, the order of rows that tie, is here the order of insertion.
pub mod Groups
pub mod Order
pub mod Reach
pub mod Receipts
pub mod Accept
pub mod Append
pub mod Arrival
pub mod Imports
pub mod Range
pub mod Page
pub mod Permuted
pub mod Positions
pub mod Remote
pub mod Shown
pub mod Timeline
pub mod Heads
pub mod Inventory
pub mod Invariant
pub mod Peers
pub mod Events
pub mod Invites
use opencord.Base.{
  ℕ, zero, suc, ◌+◌, ◌-◌, ◌*◌, ◌^◌, ℤ, pos, ltb_ℤ, Bool, true, false, not, ◌&&◌, ◌||◌, List, [],
  ◌∷◌, ◌++◌, Option, none, some, ltb, leb, ◌==◌, if◌then◌else◌, length, any, filterb, find, map,
  Result, ok, err, ensure, ◌>>◌, ◌>>=◌, constraint_violation, integer_out_of_range, min,
}
use opencord.Text.{Text, text_eq, text_lt}
use opencord.Model.{
  Bytes, Key, Nonce, GroupId, ChannelId, EventId, PeerId, Group, Channel, EventEnvelope,
  protocol_version,
}

pub record PeerRow : Type 0 where
  pub id : PeerId
  pub display_name : Text
  pub last_seen_ms : ℤ

pub record EndpointRow : Type 0 where
  pub peer_id : PeerId
  pub address : Text
  pub last_seen_ms : ℤ

pub record EventRow : Type 0 where
  pub id : EventId
  pub group_id : GroupId
  pub channel_id : ChannelId
  pub author : PeerId
  pub author_sequence : ℕ
  pub sent_at_ms : ℤ
  pub payload_kind : ℕ
  pub nonce : Nonce
  pub ciphertext : Bytes
  pub signature : Bytes

pub record BlockedRow : Type 0 where
  pub peer_id : PeerId
  pub reason : Text
  pub blocked_at_ms : ℤ

pub record Store : Type 0 where
  pub groups : List Group
  pub channels : List Channel
  pub peers : List PeerRow
  pub peer_endpoints : List EndpointRow
  pub events : List EventRow
  pub blocked_peers : List BlockedRow

-- The store that `open` creates on a path with no database: `migrate` makes empty tables.
abbrev pub empty_store : Store
empty_store = record {
  groups = [];
  channels = [];
  peers = [];
  peer_endpoints = [];
  events = [];
  blocked_peers = [];
}

-- `ORDER BY`
module _ {ℓ} {A : Type ℓ} (before : A → A → Bool) where
  unfoldable pub insert_sorted : A → List A → List A
  insert_sorted x [] = x ∷ []
  insert_sorted x (y ∷ ys) = if before y x then y ∷ insert_sorted x ys else x ∷ y ∷ ys

  unfoldable pub order_by : List A → List A
  order_by [] = []
  order_by (x ∷ xs) = insert_sorted x (order_by xs)

-- i64::MAX + 1 and u32::MAX
abbrev pub i64_limit : ℕ
i64_limit = 2 ^ 63

abbrev pub u32_max : ℕ
u32_max = 2 ^ 32 - 1

abbrev pub u64_max : ℕ
u64_max = 2 ^ 64 - 1

-- `u64::saturating_add(1)`
unfoldable pub next_u64 : ℕ → ℕ
next_u64 n = min (n + 1) u64_max

-- `now_ms`: the milliseconds since the epoch that the clock shows (`none`: a time before it).
unfoldable pub now_ms : Option ℕ → ℤ
now_ms none = pos 0
now_ms (some elapsed) = pos (min elapsed (i64_limit - 1))

-- `sql_u64`
abbrev pub sql_u64 : ℕ → Result ℕ
sql_u64 value = if ltb value i64_limit then ok value else err integer_out_of_range

-- The tests of the statements' WHERE clauses and of the constraints.
abbrev pub has_group_id : GroupId → Group → Bool
has_group_id id g = g.id == id

abbrev pub has_channel_id : ChannelId → Channel → Bool
has_channel_id id ch = ch.id == id

abbrev pub has_peer_id : PeerId → PeerRow → Bool
has_peer_id id p = p.id == id

abbrev pub has_event_id : EventId → EventRow → Bool
has_event_id id e = e.id == id

abbrev pub is_event_at : GroupId → PeerId → ℕ → EventRow → Bool
is_event_at g a n e = e.group_id == g && (e.author == a && e.author_sequence == n)

abbrev pub is_endpoint : PeerId → Text → EndpointRow → Bool
is_endpoint p address e = e.peer_id == p && text_eq e.address address

abbrev pub blocks : PeerId → BlockedRow → Bool
blocks p b = b.peer_id == p

-- INSERT INTO groups: the primary key.
unfoldable pub insert_group : Group → Store → Result Store
insert_group g s = do
  ensure (not (any (has_group_id g.id) s.groups)) constraint_violation
  ok (record s { groups = s.groups ++ g ∷ [] })

-- INSERT INTO channels: the primary key and the reference to groups.
unfoldable pub insert_channel : Channel → Store → Result Store
insert_channel ch s = do
  ensure (not (any (has_channel_id ch.id) s.channels)) constraint_violation
  ensure (any (has_group_id ch.group_id) s.groups) constraint_violation
  ok (record s { channels = s.channels ++ ch ∷ [] })

-- INSERT OR IGNORE INTO channels: a row with a known key is left out; a dangling reference is an
-- error all the same. The flag says whether a row was inserted.
unfoldable pub insert_or_ignore_channel : Channel → Store → Result (Bool × Store)
insert_or_ignore_channel ch s = if any (has_channel_id ch.id) s.channels then ok (false, s) else (do
  ensure (any (has_group_id ch.group_id) s.groups) constraint_violation
  ok (true, record s { channels = s.channels ++ ch ∷ [] }))

-- INSERT INTO .. ON CONFLICT DO UPDATE: the first row that passes the test is replaced by its
-- update, and the new row is inserted where none does.
unfoldable pub upsert {ℓ} : {A : Type ℓ} → (A → Bool) → (A → A) → A → List A → List A
upsert hit update row [] = row ∷ []
upsert hit update row (r ∷ rs) = if hit r then update r ∷ rs else r ∷ upsert hit update row rs

-- The upsert of peers that sets the name and the time.
unfoldable pub upsert_peer : PeerId → Text → ℤ → Store → Store
upsert_peer id name seen s = record s {
  peers =
      upsert (has_peer_id id) (λ p. record p { display_name = name; last_seen_ms = seen })
        (record { id = id; display_name = name; last_seen_ms = seen }) s.peers;
}

unfoldable pub row_of_event : EventEnvelope → EventRow
row_of_event event = record {
  id = event.header.id;
  group_id = event.header.group_id;
  channel_id = event.header.channel_id;
  author = event.header.author;
  author_sequence = event.header.author_sequence;
  sent_at_ms = event.header.sent_at_ms;
  payload_kind = event.header.payload_kind;
  nonce = event.header.nonce;
  ciphertext = event.ciphertext;
  signature = event.signature;
}

-- `event_from_row`: the version is not stored. The stored blobs have the lengths that the schema
-- checks, so `blob_array` does not fail on them.
unfoldable pub event_from_row : EventRow → EventEnvelope
event_from_row row = record {
  header = record {
    version = protocol_version;
    id = row.id;
    group_id = row.group_id;
    channel_id = row.channel_id;
    author = row.author;
    author_sequence = row.author_sequence;
    sent_at_ms = row.sent_at_ms;
    payload_kind = row.payload_kind;
    nonce = row.nonce;
  };
  ciphertext = row.ciphertext;
  signature = row.signature;
}

-- `insert_event`: the primary key, the checks on the sequence number and on the length of the
-- signature, the unique triple, and the references to groups and channels.
unfoldable pub insert_event : EventEnvelope → Store → Result Store
unfolding row_of_event
insert_event event s = do
  sequence ← sql_u64 event.header.author_sequence
  ensure (not (any (has_event_id event.header.id) s.events)) constraint_violation
  ensure (ltb 0 sequence) constraint_violation
  ensure (length event.signature == 64) constraint_violation
  ensure (not (any (is_event_at event.header.group_id event.header.author sequence) s.events))
      constraint_violation
  ensure (any (has_group_id event.header.group_id) s.groups) constraint_violation
  ensure (any (has_channel_id event.header.channel_id) s.channels) constraint_violation
  ok (record s { events = s.events ++ row_of_event event ∷ [] })
