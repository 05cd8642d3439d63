-- ===== src/Store/Accept/Taken.antt =====
-- What `insert_remote_event` of src/store.rs leaves when it takes an event.
use opencord.Base.{
  ℕ, ◌≡◌, refl, sym, subst, ◌∙◌, Bool, true, false, ◌&&◌, ◌||◌, List, [], ◌∷◌, ◌++◌, ℤ, some,
  All-append, arith, ◌==◌, any, any-append, find, find-any, find-true, find-All, find-none,
  Option-cases, Bool-cases, inl, inr, ok, lt→ltb,
}
use opencord.Text.{Text}
use opencord.Model.{GroupId, PeerId, EventEnvelope}
use opencord.Crates.{Crates}
use opencord.Store.{
  Store, EventRow, row_of_event, has_channel_id, has_group_id, is_event_at, upsert_peer, blocks,
  i64_limit,
}
use opencord.Store.Page.{is_at}
use opencord.Store.Events.{insert_remote_event, insert_if_new}
use opencord.Store.Accept.{
  any-weaken, insert_event-ok, Agrees, Agrees-sym, IsWelcome, IsOpen, row_of_event-AgreesWith,
  rows_fresh,
}

module _ (c : Crates) (rows : List EventRow) (s0 : Store) where
  -- What taking an event leaves: the store is open to further events, and holds what it held and
  -- the event.
  pub record IsTaken (e : EventEnvelope) (s s' : Store) : Type 0 where
    pub still : IsOpen c rows s0 s'
    pub held :
        (g : GroupId) (a : PeerId) (k : ℕ)
        → (any (is_event_at g a k) s.events || is_at g a k e) ≡ true
        → any (is_event_at g a k) s'.events ≡ true

  known-IsTaken :
      (e : EventEnvelope) (s : Store)
      → IsOpen c rows s0 s
      → any (is_event_at e.header.group_id e.header.author e.header.author_sequence) s.events ≡ true
      → IsTaken e s s
  known-IsTaken e s open_to there = record {
    still = open_to;
    held = λ g a k h. elim (Bool-cases (is_at g a k e)) [
      | inl here ↦ any_place s.events there g a k here
      | inr other ↦ ground (arith, h, other)
    ];
  }
    where
      any_place :
          (qs : List EventRow)
          → any (is_event_at e.header.group_id e.header.author e.header.author_sequence) qs ≡ true
          → (g : GroupId) (a : PeerId) (k : ℕ) → is_at g a k e ≡ true
          → any (is_event_at g a k) qs ≡ true
      any_place [] h g a k here = absurd (cc)
      any_place (q ∷ qs) h g a k here = ground (arith, h, here, any_place qs)

  new-IsTaken :
      (e : EventEnvelope) (s : Store)
      → IsWelcome c rows s0 e
      → IsOpen c rows s0 s
      → IsTaken e s (record s { events = s.events ++ row_of_event e ∷ [] })
  unfolding row_of_event
  new-IsTaken e s w open_to = record {
    still = record {
      groups = open_to.groups;
      channels = open_to.channels;
      blocked = open_to.blocked;
      agree =
          All-append (Agrees rows) s.events (row_of_event e ∷ []) open_to.agree
            (Agrees-sym rows (row_of_event e) w.agrees, tt);
    };
    held = λ g a k h.
        any-append (is_event_at g a k) s.events (row_of_event e ∷ []) ∙ ground (arith, h);
  }

  insert_if_new-IsTaken :
      (e : EventEnvelope) (name : Text) (now : ℤ) (s : Store)
      → IsWelcome c rows s0 e
      → IsOpen c rows s0 s
      → (b : Bool) × (s' : Store) × (insert_if_new c e name now s
            (find (is_event_at e.header.group_id e.header.author e.header.author_sequence) s.events)
          ≡ ok (b, s'))
        × IsTaken e s s'
  unfolding insert_if_new upsert_peer row_of_event
  insert_if_new-IsTaken e name now s w open_to =
      let at = is_event_at e.header.group_id e.header.author e.header.author_sequence in
      elim (Option-cases (find at s.events)) [
        | inr (q, found) ↦
            let agrees =
              row_of_event-AgreesWith c rows s0 e q w
                (find-All (Agrees rows) at s.events open_to.agree found) in
            let hit = find-true at s.events found in
            let same : (q.id == e.header.id) ≡ true = ground (arith, agrees, hit) in
            rw (found, same)
              (false, s, refl, known-IsTaken e s open_to (find-any at s.events found))
        | inl fresh ↦
            let free = find-none at s.events fresh in
            let inserted =
              insert_event-ok e s w.small w.positive
                (rows_fresh c rows s0 e s.events w open_to.agree free) free w.signed
                (subst (λ gs. any (has_group_id e.header.group_id) gs ≡ true) (sym open_to.groups)
                  (find-any (has_group_id e.header.group_id) s0.groups w.known_is))
                (subst (λ cs. any (has_channel_id e.header.channel_id) cs ≡ true)
                  (sym open_to.channels)
                  (any-weaken (has_channel_id e.header.channel_id) _ s0.channels
                    w.channel_known)) in
            let taken = new-IsTaken e s w open_to in
            rw (fresh, inserted)
              (
                true,
                _,
                refl,
                record {
                  still = record {
                    groups = taken.still.groups;
                    channels = taken.still.channels;
                    blocked = taken.still.blocked;
                    agree = taken.still.agree;
                  };
                  held = taken.held;
                },
              )
      ]

  -- A welcome event is taken, as new or as known.
  pub insert_remote_event-IsTaken :
      (e : EventEnvelope) (name : Text) (now : ℤ) (s : Store)
      → IsWelcome c rows s0 e
      → IsOpen c rows s0 s
      → (b : Bool) × (s' : Store) × (insert_remote_event c e name now s ≡ ok (b, s'))
        × IsTaken e s s'
  unfolding insert_remote_event
  insert_remote_event-IsTaken e name now s w open_to =
      let allowed =
        subst (λ bs. any (blocks e.header.author) bs ≡ false) (sym open_to.blocked) w.allowed in
      let known_is =
        subst (λ gs. find (has_group_id e.header.group_id) gs ≡ some w.known) (sym open_to.groups)
          w.known_is in
      let channel_known =
        subst
          (λ cs.
            any (λ ch. has_channel_id e.header.channel_id ch && ch.group_id == e.header.group_id) cs
            ≡ true)
          (sym open_to.channels) w.channel_known in
      rw
        (
          allowed,
          known_is,
          w.opens,
          channel_known,
          lt→ltb e.header.author_sequence i64_limit w.small,
        )
        (insert_if_new-IsTaken e name now s w open_to)
