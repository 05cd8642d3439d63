-- ===== src/Store/Arrival.antt =====
-- The order in which events arrive, and what `inventories` and `timeline` of src/store.rs make of it.
use mathlib.Core.List.{Permᴰ, reverse, reverse_aux}
use opencord.Base.{
  ℕ, ◌≡◌, refl, sym, ap, ◌∙◌, true, false, List, [], ◌∷◌, All-every, filterb, find, map, take,
  Option, some, none, Result, ok, err, ok-injective, or_error, ◌>>=◌, no_rows, min, ==_iff, arith,
  ◌==◌,
}
use mathlib.Core.Path.{ap₂}
use opencord.Model.{
  Key, GroupId, ChannelId, Group, Channel, TimelineEntry, EventEnvelope, MessagePayload,
}
use opencord.Crates.{Crates}
use opencord.Crypto.{validate_and_open_event}
use opencord.Store.{Store, EventRow, has_channel_id, event_from_row}
use opencord.Store.Events.{
  by_author, newer, contiguous, inventory, inventories, timeline, timeline_rows, open_rows,
  group_of_channel,
}
use opencord.Store.Groups.{groups}
use opencord.Store.Invariant.{IsSound, IsReadable, same_slot}
use opencord.Store.Inventory.{by_author-asym, by_author-weak}
use opencord.Store.Receipts.{Delivery, Received, Received-Permᴰ, Received-IsSound}
use opencord.Store.Permuted.{IsApart, filterb-Permᴰ, order_by-Permᴰ, AllApart-filterb}

by_author-tells :
    (g : GroupId) (x y : EventRow)
    → (x.group_id == g) ≡ true
    → (y.group_id == g) ≡ true
    → same_slot y x ≡ false
    → IsApart by_author x y
unfolding by_author
by_author-tells g x y h k other = ground (arith, h, k, other)

newer-tells : (x y : EventRow) → x.group_id ≡ y.group_id → same_slot y x ≡ false → IsApart newer x y
unfolding newer
newer-tells x y same other = ground (arith, same, other)

newer-asym : (x y : EventRow) → newer x y ≡ true → newer y x ≡ false
unfolding newer
newer-asym x y h = ground (arith, h)

newer-weak : (x y z : EventRow) → newer y x ≡ false → newer z y ≡ false → newer z x ≡ false
unfolding newer
newer-weak x y z h k = ground (arith, h, k)

-- The channel of a readable event says which group it is in.
channel_group :
    (c : Crates) (gs : List Group) (cs : List Channel) (x y : EventRow)
    → IsReadable c gs cs x
    → IsReadable c gs cs y
    → x.channel_id ≡ y.channel_id
    → x.group_id ≡ y.group_id
channel_group c gs cs x y r r' same =
    let one : r.in_channel ≡ r'.in_channel =
      same_channel_row
        (sym r.channel_known ∙ ap (λ ch. find (has_channel_id ch) cs) same ∙ r'.channel_known) in
    sym r.channel_of_group ∙ ap (λ ch. ch.group_id) one ∙ r'.channel_of_group
  where
    same_channel_row : {a b : Channel} → some a ≡ some b → a ≡ b
    same_channel_row h = cc

-- What is shown of a message but for its author's name.
abbrev pub message : TimelineEntry → EventEnvelope × MessagePayload
message entry = (entry.event, entry.payload)

abbrev pub messages : Result (List TimelineEntry) → Result (List (EventEnvelope × MessagePayload))
messages entries = entries >>= λ es. ok (map message es)

map-reverse_aux :
    {A B : Type 0} (f : A → B) (xs ys : List A)
    → map f (reverse_aux xs ys) ≡ reverse_aux (map f xs) (map f ys)
map-reverse_aux f [] ys = refl
map-reverse_aux f (x ∷ xs) ys = map-reverse_aux f xs (x ∷ ys)

map-reverse : {A B : Type 0} (f : A → B) (xs : List A) → map f (reverse xs) ≡ reverse (map f xs)
map-reverse f xs = map-reverse_aux f xs []

-- One more row, and what follows it.
messages_cons :
    (opened : Result MessagePayload) (one other : MessagePayload → TimelineEntry)
    (rest rest' : Result (List TimelineEntry))
    → ((p : MessagePayload) → message (one p) ≡ message (other p))
    → messages rest ≡ messages rest'
    → messages (opened >>= λ p. rest >>= λ es. ok (one p ∷ es))
      ≡ messages (opened >>= λ p. rest' >>= λ es. ok (other p ∷ es))
messages_cons (err e) one other rest rest' same h = refl
messages_cons (ok p) one other (ok es) (ok es') same h = ap ok (ap₂ ◌∷◌ (same p) (ok-injective h))
messages_cons (ok p) one other (err e) (err e') same h = h
messages_cons (ok p) one other (ok es) (err e') same h = absurd (cc)
messages_cons (ok p) one other (err e) (ok es') same h = absurd (cc)

messages-reverse :
    (rest rest' : Result (List TimelineEntry))
    → messages rest ≡ messages rest'
    → messages (rest >>= λ es. ok (reverse es)) ≡ messages (rest' >>= λ es. ok (reverse es))
messages-reverse (ok es) (ok es') h =
    ap ok (map-reverse message es ∙ ap reverse (ok-injective h) ∙ sym (map-reverse message es'))
messages-reverse (err e) (err e') h = h
messages-reverse (ok es) (err e') h = absurd (cc)
messages-reverse (err e) (ok es') h = absurd (cc)

-- The names of the peers have no part in what is opened.
open_rows_same :
    (c : Crates) (k : Key) (s s' : Store) (rows : List EventRow)
    → messages (open_rows c k s rows) ≡ messages (open_rows c k s' rows)
unfolding open_rows
open_rows_same c k s s' [] = refl
open_rows_same c k s s' (row ∷ rows) =
    messages_cons (validate_and_open_event c (event_from_row row) k) _ _ _ _ (λ p. refl)
      (open_rows_same c k s s' rows)

module _ (c : Crates) (s : Store) (v : IsSound c s) {es : List EventRow}
    (p : Permᴰ s.events es) where
  inventory-Permᴰ : (g : GroupId) → inventory g (record s { events = es }) ≡ inventory g s
  unfolding inventory
  inventory-Permᴰ g =
      let kept = λ (rows : List EventRow). filterb (λ e. e.group_id == g) rows in
      let apart =
        AllApart-filterb by_author by_author-asym by_author-weak (λ e. Unit {0}) same_slot
          (λ e. e.group_id == g) (λ x y u w. by_author-tells g x y) s.events
          (All-every _ s.events (λ e. tt)) v.event_slots in
      ap (λ rows. record { group_id = g; heads = contiguous [] rows })
        (sym (
          order_by-Permᴰ by_author by_author-asym by_author-weak
            (filterb-Permᴰ (λ e. e.group_id == g) p) apart))

  timeline_rows-Permᴰ :
      (ch : ChannelId) (limit : ℕ)
      → timeline_rows ch limit (record s { events = es }) ≡ timeline_rows ch limit s
  unfolding timeline_rows
  timeline_rows-Permᴰ ch limit =
      let apart =
        AllApart-filterb newer newer-asym newer-weak (IsReadable c s.groups s.channels) same_slot
          (λ e. e.channel_id == ch)
          (λ x y r r' in_ch in_ch'. newer-tells x y (
            channel_group c s.groups s.channels x y r r'
              ((==_iff x.channel_id ch).0 in_ch ∙ sym ((==_iff y.channel_id ch).0 in_ch'))))
          s.events v.readable v.event_slots in
      ap (take (min limit 2000)) (
        sym (
          order_by-Permᴰ newer newer-asym newer-weak (filterb-Permᴰ (λ e. e.channel_id == ch) p)
            apart))

-- Two stores of the same groups, channels and events.
module _ (c : Crates) (s t : Store) (v : IsSound c s) (same_groups : s.groups ≡ t.groups)
    (same_channels : s.channels ≡ t.channels) (p : Permᴰ s.events t.events) where
  inventories_same : inventories t ≡ inventories s
  unfolding inventories groups inventory
  inventories_same = rw (← same_groups) (map_same (groups s))
    where
      map_same : (gs : List Group) → map (λ g. inventory g.id t) gs ≡ map (λ g. inventory g.id s) gs
      map_same [] = refl
      map_same (g ∷ gs) = ap₂ (λ i is. i ∷ is) (inventory-Permᴰ c s v p g.id) (map_same gs)

  group_same : (ch : ChannelId) → group_of_channel ch t ≡ group_of_channel ch s
  unfolding group_of_channel
  group_same ch = rw (← same_groups, ← same_channels) refl

  timeline_same :
      (ch : ChannelId) (limit : ℕ)
      → messages (timeline c ch limit t) ≡ messages (timeline c ch limit s)
  unfolding timeline timeline_rows
  timeline_same ch limit = ap (λ o. shown o t) (group_same ch) ∙ opened (group_of_channel ch s)
    where
      shown : Option Group → Store → Result (List (EventEnvelope × MessagePayload))
      shown o u = messages (
          or_error o no_rows >>= λ g.
          open_rows c g.secret u (timeline_rows ch limit u) >>= λ es. ok (reverse es))

      opened : (o : Option Group) → shown o t ≡ shown o s
      opened none = refl
      opened (some g) = messages-reverse _ _ (
          open_rows_same c g.secret t s (timeline_rows ch limit t)
          ∙ ap (λ rows. messages (open_rows c g.secret s rows))
              (timeline_rows-Permᴰ c s v p ch limit))

-- Where a sound store receives a series of remote events from peers, each as new, it also receives
-- them in every other order, each as new. The inventories are the same afterwards, and so is the
-- timeline of every channel but for the names of the authors.
pub Received-order :
    (c : Crates) {ds ds' : List Delivery} {s t : Store}
    → Permᴰ ds ds'
    → IsSound c s
    → Received c ds s t
    → (t' : Store) × Received c ds' s t'
      × (inventories t' ≡ inventories t)
      × ((ch : ChannelId) (limit : ℕ)
          → messages (timeline c ch limit t') ≡ messages (timeline c ch limit t))
Received-order c {s = s} {t = t} p v r =
    let (t', r', same_groups, same_channels, q) = Received-Permᴰ c p r in
    let sound = Received-IsSound c r v in
    (
      t',
      r',
      inventories_same c t t' sound same_groups same_channels q,
      timeline_same c t t' sound same_groups same_channels q,
    )
