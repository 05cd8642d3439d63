-- ===== src/Store/Invariant.antt =====
-- The invariant of the store: its keys are unique, its references resolve, and every stored event
-- belongs to a channel of its group and opens under the group's key.
pub mod Contacts
pub mod Imports
pub mod Keeps
pub mod Operations
use opencord.Base.{
  ℕ, ◌<◌, ◌≡◌, Bool, true, false, ◌&&◌, List, Option, none, some, ◌==◌, any, find, All, Distinct,
  Result, ok, All-map, find-some_append, arith, ◌++◌, [], ◌∷◌, refl, All-append,
}
use opencord.Model.{Group, Channel, EventEnvelope, MessagePayload}
use opencord.Crates.{Crates}
use opencord.Crypto.{validate_and_open_event}
use opencord.Store.{
  Store, EventRow, event_from_row, has_group_id, has_channel_id, has_event_id, is_event_at,
  i64_limit, empty_store,
}

-- The uniqueness constraints, on a later row and an earlier one.
abbrev pub same_group : Group → Group → Bool
same_group g h = has_group_id g.id h

abbrev pub same_channel : Channel → Channel → Bool
same_channel c d = has_channel_id c.id d

abbrev pub same_event : EventRow → EventRow → Bool
same_event e f = has_event_id e.id f

abbrev pub same_slot : EventRow → EventRow → Bool
same_slot e f = is_event_at e.group_id e.author e.author_sequence f

-- What is found in the one table is found in the other.
abbrev pub Grows {ℓ} : {A : Type ℓ} → List A → List A → Type ℓ
Grows {A = A} xs ys = (p : A → Bool) (x : A) → find p xs ≡ some x → find p ys ≡ some x

pub Grows-append {ℓ} : {A : Type ℓ} (xs ys : List A) → Grows xs (xs ++ ys)
Grows-append xs ys p x h = find-some_append p xs ys h

pub Grows-refl {ℓ} : {A : Type ℓ} (xs : List A) → Grows xs xs
Grows-refl xs p x h = h

module _ (c : Crates) where
  -- The event's group and channel are known, the channel is the group's, the event opens under the
  -- group's key, and its sequence number is a positive i64.
  pub record IsReadable (gs : List Group) (cs : List Channel) (e : EventRow) : Type 0 where
    pub in_group : Group
    pub in_channel : Channel
    pub payload : MessagePayload
    pub group_known : find (has_group_id e.group_id) gs ≡ some in_group
    pub channel_known : find (has_channel_id e.channel_id) cs ≡ some in_channel
    pub channel_of_group : in_channel.group_id ≡ e.group_id
    pub opens : validate_and_open_event c (event_from_row e) in_group.secret ≡ ok payload
    pub positive : 0 < e.author_sequence
    pub in_range : e.author_sequence < i64_limit

  pub record IsSound (s : Store) : Type 0 where
    pub group_keys : Distinct same_group s.groups
    pub channel_keys : Distinct same_channel s.channels
    pub channel_groups : All (λ ch. any (has_group_id ch.group_id) s.groups ≡ true) s.channels
    pub event_keys : Distinct same_event s.events
    pub event_slots : Distinct same_slot s.events
    pub readable : All (IsReadable s.groups s.channels) s.events

  pub empty_store-IsSound : IsSound empty_store
  empty_store-IsSound = record {
    group_keys = tt;
    channel_keys = tt;
    channel_groups = tt;
    event_keys = tt;
    event_slots = tt;
    readable = tt;
  }

  -- Events stay readable when groups and channels are added.
  pub IsReadable-grow :
      (gs gs' : List Group) (cs cs' : List Channel) (e : EventRow)
      → Grows gs gs'
      → Grows cs cs'
      → IsReadable gs cs e
      → IsReadable gs' cs' e
  IsReadable-grow gs gs' cs cs' e more_gs more_cs r = record {
    in_group = r.in_group;
    in_channel = r.in_channel;
    payload = r.payload;
    group_known = more_gs _ r.in_group r.group_known;
    channel_known = more_cs _ r.in_channel r.channel_known;
    channel_of_group = r.channel_of_group;
    opens = r.opens;
    positive = r.positive;
    in_range = r.in_range;
  }
