-- ===== src/Store/Timeline.antt =====
-- `timeline` of src/store.rs on a sound store.
use opencord.Base.{
  ℕ, ◌≡◌, refl, sym, ap, List, [], ◌∷◌, some, true, ok, arith, All, All-take, All-filterb,
  All-filterb-true, All-zip, subst, map, filterb, min, ◌==◌, ◌∙◌,
}
use mathlib.Core.List.{reverse}
use opencord.Model.{ChannelId, Group, TimelineEntry, MessagePayload}
use opencord.Crates.{Crates}
use opencord.Crypto.{validate_and_open_event}
use opencord.Store.{Store, EventRow, event_from_row}
use opencord.Store.Events.{timeline, timeline_rows, open_rows, group_of_channel, newer, sender_name}
use opencord.Store.Order.{All-order_by}
use opencord.Store.Invariant.{IsSound, IsReadable}
use opencord.Store.Invariant.Operations.{group_of_channel-inv}

module _ (c : Crates) where
  abbrev pub Opens : ℕ → EventRow → Type 0
  Opens secret e =
      (p : MessagePayload) × (validate_and_open_event c (event_from_row e) secret ≡ ok p)

  open_rows-ok :
      (secret : ℕ) (s : Store) (rows : List EventRow)
      → All (Opens secret) rows
      → (entries : List TimelineEntry) × (open_rows c secret s rows ≡ ok entries)
        × (map (λ t. t.event) entries ≡ map event_from_row rows)
        × All (λ t. validate_and_open_event c t.event secret ≡ ok t.payload) entries
  unfolding open_rows
  open_rows-ok secret s [] h = ([], refl, refl, tt)
  open_rows-ok secret s (row ∷ rows) h =
      let (p, opens) = h.0 in
      let (entries, opened, events, payloads) = open_rows-ok secret s rows h.1 in
      (
        record { event = event_from_row row; author_name = sender_name row.author s; payload = p }
            ∷ entries,
        rw (opens, opened),
        ap (◌∷◌ (event_from_row row)) events,
        (opens, payloads),
      )

  -- A readable event of a known channel opens under the key of the channel's group.
  readable-Opens :
      (s : Store) (id : ChannelId) (g : Group) (e : EventRow)
      → group_of_channel id s ≡ some g
      → (e.channel_id == id) ≡ true
      → IsReadable c s.groups s.channels e
      → Opens g.secret e
  readable-Opens s id g e h here r =
      let (ch, ch_known, g_known, same) = group_of_channel-inv id s g h in
      let at : e.channel_id ≡ id = ground arith in
      let one : some r.in_channel ≡ some ch = sym r.channel_known ∙ rw at ch_known in
      let group_id : e.group_id ≡ g.id = ground (arith, r.channel_of_group) in
      let two : some r.in_group ≡ some g = sym r.group_known ∙ rw group_id g_known in
      (
        r.payload,
        subst (λ k. validate_and_open_event c (event_from_row e) k ≡ ok r.payload) (ground arith)
            r.opens,
      )

  -- On a sound store the timeline of every known channel can be read: no stored event fails the
  -- read. Before it is reversed the result has the events of the first `limit` rows, at most 2000,
  -- in the order of the rows, each with the payload to which it opens under the group's key.
  pub timeline-ok :
      (s : Store) (id : ChannelId) (limit : ℕ) (g : Group)
      → IsSound c s
      → group_of_channel id s ≡ some g
      → (entries : List TimelineEntry) × (timeline c id limit s ≡ ok (reverse entries))
        × (map (λ t. t.event) entries ≡ map event_from_row (timeline_rows id limit s))
        × All (λ t. validate_and_open_event c t.event g.secret ≡ ok t.payload) entries
  unfolding timeline timeline_rows
  timeline-ok s id limit g v h =
      let here = All-filterb-true (λ e. e.channel_id == id) s.events in
      let known = All-filterb _ (λ e. e.channel_id == id) s.events v.readable in
      let all =
        All-zip _ _ _ (filterb (λ e. e.channel_id == id) s.events)
          (λ e at r. readable-Opens s id g e h at r) here known in
      let (entries, opened, events, payloads) =
        open_rows-ok g.secret s (timeline_rows id limit s)
          (All-take _ (min limit 2000) _ (All-order_by _ newer _ all)) in
      (entries, rw (h, opened), events, payloads)
