-- ===== src/Store/Invariant/Keeps.antt =====
-- Every operation of the store (src/store.rs) keeps its invariant.
use opencord.Base.{
  ℕ, ℤ, ◌<◌, ◌≡◌, Bool, true, false, not, ◌==◌, any, Distinct-append, ok, All-map, any-append_left,
  arith, ◌++◌, [], ◌∷◌, ap, All-append, ltb, bind-inv, ensure-inv, ok-injective, subst, Bool-cases,
  inl, inr, length,
}
use opencord.Text.{Text}
use opencord.Model.{Group, Channel, EventEnvelope, protocol_version}
use opencord.Crates.{Crates}
use opencord.Store.{
  Store, event_from_row, row_of_event, has_group_id, has_channel_id, has_event_id, is_event_at,
  i64_limit, insert_group, insert_channel, insert_or_ignore_channel, insert_event, upsert_peer,
  sql_u64,
}
use opencord.Store.Invariant.{
  IsSound, IsReadable, IsReadable-grow, Grows-append, Grows-refl, same_group, same_channel,
  same_event, same_slot,
}

pub event_from_row-row_of_event :
    (e : EventEnvelope) → e.header.version ≡ protocol_version → event_from_row (row_of_event e) ≡ e
unfolding event_from_row row_of_event
event_from_row-row_of_event e h = ground arith

-- What a successful `insert_event` has checked, and what it wrote.
pub insert_event-inv :
    (e : EventEnvelope) (s s' : Store)
    → insert_event e s ≡ ok s'
    → (e.header.author_sequence < i64_limit)
      × (0 < e.header.author_sequence)
      × (any (has_event_id e.header.id) s.events ≡ false)
      × (any (is_event_at e.header.group_id e.header.author e.header.author_sequence) s.events
          ≡ false)
      × (length e.signature ≡ 64)
      × (record s { events = s.events ++ row_of_event e ∷ [] } ≡ s')
unfolding insert_event
insert_event-inv e s s' h = elim (Bool-cases (ltb e.header.author_sequence i64_limit)) [
  | inr over ↦ absurd (bind-inv (sql_u64 e.header.author_sequence) _ h (λ n n_eq _. ground arith))
  | inl fits ↦
      let h1 = rw fits at h in
      ensure-inv (not (any (has_event_id e.header.id) s.events)) _ _ h1 λ fresh h2.
        ensure-inv (ltb 0 e.header.author_sequence) _ _ h2 λ positive h3.
          ensure-inv (length e.signature == 64) _ _ h3 λ signed h4.
            ensure-inv
              (not (
                any (is_event_at e.header.group_id e.header.author e.header.author_sequence)
                  s.events))
              _ _ h4
              λ open_slot h5.
                ensure-inv (any (has_group_id e.header.group_id) s.groups) _ _ h5 λ _ h6.
                  ensure-inv (any (has_channel_id e.header.channel_id) s.channels) _ _ h6 λ _ h7. (
                    ground arith,
                    ground arith,
                    ground arith,
                    ground arith,
                    ground arith,
                    ok-injective h7,
                  )
]

module _ (c : Crates) where
  pub insert_group-IsSound :
      (g : Group) (s s' : Store) → IsSound c s → insert_group g s ≡ ok s' → IsSound c s'
  unfolding insert_group
  insert_group-IsSound g s s' v h =
      ensure-inv (not (any (has_group_id g.id) s.groups)) _ _ h λ fresh h1.
        subst (IsSound c) (ok-injective h1) (record {
          group_keys = Distinct-append same_group s.groups g v.group_keys (ground arith);
          channel_keys = v.channel_keys;
          channel_groups =
              All-map _ _ s.channels (λ ch k. any-append_left _ s.groups (g ∷ []) k)
                v.channel_groups;
          event_keys = v.event_keys;
          event_slots = v.event_slots;
          readable =
              All-map _ _ s.events
                (λ e r.
                  IsReadable-grow c s.groups _ s.channels _ e (Grows-append s.groups (g ∷ []))
                    (Grows-refl s.channels) r)
                v.readable;
        })

  add_channel-IsSound :
      (ch : Channel) (s : Store)
      → IsSound c s
      → any (has_channel_id ch.id) s.channels ≡ false
      → any (has_group_id ch.group_id) s.groups ≡ true
      → IsSound c (record s { channels = s.channels ++ ch ∷ [] })
  add_channel-IsSound ch s v fresh known = record {
    group_keys = v.group_keys;
    channel_keys = Distinct-append same_channel s.channels ch v.channel_keys fresh;
    channel_groups = All-append _ s.channels (ch ∷ []) v.channel_groups (known, tt);
    event_keys = v.event_keys;
    event_slots = v.event_slots;
    readable =
        All-map _ _ s.events
          (λ e r.
            IsReadable-grow c s.groups _ s.channels _ e (Grows-refl s.groups)
              (Grows-append s.channels (ch ∷ [])) r)
          v.readable;
  }

  pub insert_channel-IsSound :
      (ch : Channel) (s s' : Store) → IsSound c s → insert_channel ch s ≡ ok s' → IsSound c s'
  unfolding insert_channel
  insert_channel-IsSound ch s s' v h =
      ensure-inv (not (any (has_channel_id ch.id) s.channels)) _ _ h λ fresh h1.
        ensure-inv (any (has_group_id ch.group_id) s.groups) _ _ h1 λ known h2.
          subst (IsSound c) (ok-injective h2) (add_channel-IsSound ch s v (ground arith) known)

  pub insert_or_ignore_channel-IsSound :
      (ch : Channel) (s : Store) (b : Bool) (s' : Store)
      → IsSound c s
      → insert_or_ignore_channel ch s ≡ ok (b, s')
      → IsSound c s'
  unfolding insert_or_ignore_channel
  insert_or_ignore_channel-IsSound ch s b s' v h =
      elim (Bool-cases (any (has_channel_id ch.id) s.channels)) [
        | inl known ↦ subst (IsSound c) (ground arith) v
        | inr fresh ↦
            ensure-inv (any (has_group_id ch.group_id) s.groups) _ _ (rw fresh at h) λ known h2.
              subst (IsSound c) (ap (λ p. p.1) (ok-injective h2))
                (add_channel-IsSound ch s v fresh known)
      ]

  pub upsert_peer-IsSound :
      (p : ℕ) (name : Text) (now : ℤ) (s : Store)
      → IsSound c s
      → IsSound c (upsert_peer p name now s)
  unfolding upsert_peer
  upsert_peer-IsSound p name now s v = record {
    group_keys = v.group_keys;
    channel_keys = v.channel_keys;
    channel_groups = v.channel_groups;
    event_keys = v.event_keys;
    event_slots = v.event_slots;
    readable = v.readable;
  }

  -- An event may be inserted into a sound store if it would be readable there.
  pub insert_event-IsSound :
      (e : EventEnvelope) (s s' : Store)
      → IsSound c s
      → (0 < e.header.author_sequence
          → e.header.author_sequence < i64_limit
          → IsReadable c s.groups s.channels (row_of_event e))
      → insert_event e s ≡ ok s'
      → IsSound c s'
  unfolding row_of_event
  insert_event-IsSound e s s' v readable h =
      let (fits, positive, fresh, open_slot, _, written) = insert_event-inv e s s' h in
      subst (IsSound c) written (record {
        group_keys = v.group_keys;
        channel_keys = v.channel_keys;
        channel_groups = v.channel_groups;
        event_keys = Distinct-append same_event s.events (row_of_event e) v.event_keys fresh;
        event_slots = Distinct-append same_slot s.events (row_of_event e) v.event_slots open_slot;
        readable =
            All-append _ s.events (row_of_event e ∷ []) v.readable (readable positive fits, tt);
      })
