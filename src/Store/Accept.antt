-- ===== src/Store/Accept.antt =====
-- `insert_remote_event` of src/store.rs on an event that the store has every reason to take.
pub mod Taken
use opencord.Base.{
  ℕ, ◌<◌, ◌≡◌, refl, sym, subst, ◌∙◌, Bool, true, false, ◌&&◌, ◌||◌, List, [], ◌∷◌, ◌++◌, ℤ, none,
  some, All, All-append, arith, ◌==◌, any, any-append, find, find-any, find-true, find-All,
  find-none, any-find, Option-cases, Bool-cases, inl, inr, ok, length, lt→ltb,
}
use opencord.Text.{Text}
use opencord.Model.{GroupId, PeerId, Group, EventEnvelope, MessagePayload}
use opencord.Crates.{Crates}
use opencord.Crypto.{validate_and_open_event}
use opencord.Store.{
  Store, EventRow, row_of_event, has_event_id, has_channel_id, has_group_id, is_event_at,
  insert_event, upsert_peer, blocks, i64_limit,
}
use opencord.Store.Groups.{group}
use opencord.Store.Page.{is_at}
use opencord.Store.Peers.{is_blocked}
use opencord.Store.Events.{insert_remote_event, insert_if_new}

pub any-weaken :
    {A : Type 0} (p q : A → Bool) (xs : List A) → any (λ x. p x && q x) xs ≡ true → any p xs ≡ true
any-weaken p q [] h = absurd (cc)
any-weaken p q (x ∷ xs) h = ground (arith, any-weaken p q xs)

pub find-none_of : {A : Type 0} (p : A → Bool) (xs : List A) → any p xs ≡ false → find p xs ≡ none
find-none_of p [] h = refl
find-none_of p (x ∷ xs) h = ground (arith, find-none_of p xs)

pub insert_event-ok :
    (e : EventEnvelope) (s : Store)
    → e.header.author_sequence < i64_limit
    → 0 < e.header.author_sequence
    → any (has_event_id e.header.id) s.events ≡ false
    → any (is_event_at e.header.group_id e.header.author e.header.author_sequence) s.events ≡ false
    → length e.signature ≡ 64
    → any (has_group_id e.header.group_id) s.groups ≡ true
    → any (has_channel_id e.header.channel_id) s.channels ≡ true
    → insert_event e s ≡ ok (record s { events = s.events ++ row_of_event e ∷ [] })
unfolding insert_event
insert_event-ok e s small positive fresh open_slot signed group_known channel_known =
    rw
      (
        lt→ltb e.header.author_sequence i64_limit small,
        fresh,
        lt→ltb 0 e.header.author_sequence positive,
        signed,
        open_slot,
        group_known,
        channel_known,
      )
      refl

-- The two rows have one identifier just where they have one place, the group, the author and the
-- number: no identifier was used twice and no place was filled twice.
abbrev pub AgreesWith : EventRow → EventRow → Type 0
AgreesWith r q = has_event_id r.id q ≡ is_event_at r.group_id r.author r.author_sequence q

abbrev pub Agrees : List EventRow → EventRow → Type 0
Agrees rows q = All (λ r. AgreesWith r q) rows

AgreesWith-sym : (r q : EventRow) → AgreesWith r q → AgreesWith q r
AgreesWith-sym r q h = ground (arith, h)

pub Agrees-sym : (rows : List EventRow) (q : EventRow) → All (AgreesWith q) rows → Agrees rows q
Agrees-sym [] q h = tt
Agrees-sym (r ∷ rows) q h = (AgreesWith-sym q r h.0, Agrees-sym rows q h.1)

-- `rows` are those of the sender, `s0` is the store of the receiver before it takes anything.
module _ (c : Crates) (rows : List EventRow) (s0 : Store) where
  -- The event is one of the sender's, no other row of the sender has its identifier or its place,
  -- and the receiver has its group and its channel, can open it, and has not blocked its author.
  pub record IsWelcome (e : EventEnvelope) : Type 0 where
    pub known : Group
    pub known_is : group e.header.group_id s0 ≡ some known
    pub payload : MessagePayload
    pub opens : validate_and_open_event c e known.secret ≡ ok payload
    pub channel_known :
        any
          (λ ch. has_channel_id e.header.channel_id ch && ch.group_id == e.header.group_id)
          s0.channels
        ≡ true
    pub allowed : is_blocked e.header.author s0 ≡ false
    pub small : e.header.author_sequence < i64_limit
    pub positive : 0 < e.header.author_sequence
    pub signed : length e.signature ≡ 64
    pub listed :
        any (is_event_at e.header.group_id e.header.author e.header.author_sequence) rows ≡ true
    pub agrees : All (AgreesWith (row_of_event e)) rows

  -- The store knows what it knew, and its rows agree with the sender's.
  pub record IsOpen (s : Store) : Type 0 where
    pub groups : s.groups ≡ s0.groups
    pub channels : s.channels ≡ s0.channels
    pub blocked : s.blocked_peers ≡ s0.blocked_peers
    pub agree : All (Agrees rows) s.events

  -- A row of the receiver agrees with the event, since it agrees with the sender's row of the event.
  pub row_of_event-AgreesWith :
      (e : EventEnvelope) (q : EventRow)
      → IsWelcome e
      → Agrees rows q
      → AgreesWith (row_of_event e) q
  unfolding row_of_event
  row_of_event-AgreesWith e q w h =
      let at = is_event_at e.header.group_id e.header.author e.header.author_sequence in
      let (r, found) = any-find at rows w.listed in
      let hit = find-true at rows found in
      let same = find-All (AgreesWith (row_of_event e)) at rows w.agrees found in
      let here = find-All (λ r. AgreesWith r q) at rows h found in ground (arith, hit, same, here)

  pub rows_fresh :
      (e : EventEnvelope) (qs : List EventRow)
      → IsWelcome e
      → All (Agrees rows) qs
      → any (is_event_at e.header.group_id e.header.author e.header.author_sequence) qs ≡ false
      → any (has_event_id e.header.id) qs ≡ false
  unfolding row_of_event
  rows_fresh e [] w h free = refl
  rows_fresh e (q ∷ qs) w h free =
      let here = row_of_event-AgreesWith e q w h.0 in
      ground (arith, here, rows_fresh e qs w h.1, free)
