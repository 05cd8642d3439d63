-- ===== src/Store/Receipts.antt =====
-- A series of events that `insert_remote_event` of src/store.rs takes as new, in one order or another.
use mathlib.Core.List.{Permᴰ, append_assoc}
use mathlib.Core.List.Permᴰ
use opencord.Base.{
  ◌<◌, ◌≡◌, refl, sym, ap, subst, ◌∙◌, Bool, true, false, not, ◌&&◌, List, [], ◌∷◌, ◌++◌, ℤ, Option,
  none, some, arith, ◌==◌, any, any-append, find, find-any, map, length, ok, bind-inv, ensure-inv,
  or_error-inv, ok-injective, lt→ltb,
}
use opencord.Text.{Text}
use opencord.Model.{Group, EventEnvelope, MessagePayload}
use opencord.Crates.{Crates}
use opencord.Crypto.{validate_and_open_event}
use opencord.Store.{
  Store, EventRow, row_of_event, has_event_id, has_channel_id, has_group_id, is_event_at,
  insert_event, upsert_peer, i64_limit, sql_u64,
}
use opencord.Store.Groups.{group}
use opencord.Store.Peers.{is_blocked}
use opencord.Store.Events.{insert_remote_event, insert_if_new}
use opencord.Store.Accept.{any-weaken, find-none_of, insert_event-ok}
use opencord.Store.Invariant.{IsSound}
use opencord.Store.Invariant.Keeps.{insert_event-inv}
use opencord.Store.Invariant.Operations.{insert_remote_event-IsSound}

-- An event as a peer delivers it: with its author's name, and when it comes.
pub record Delivery : Type 0 where
  pub event : EventEnvelope
  pub name : Text
  pub at : ℤ

-- The deliveries are taken one after the other, each as new.
pub data Received (c : Crates) : List Delivery → Store → Store → Type 0 where
  nothing : {s : Store} → Received c [] s s
  taken :
      {s s1 t : Store} (d : Delivery) {ds : List Delivery}
      → insert_remote_event c d.event d.name d.at s ≡ ok (true, s1)
      → Received c ds s1 t
      → Received c (d ∷ ds) s t

-- The log with the event.
abbrev pub add : EventEnvelope → Store → Store
add e s = record s { events = s.events ++ row_of_event e ∷ [] }

abbrev pub rows_of : List Delivery → List EventRow
rows_of = map (λ d. row_of_event d.event)

-- Stores with the same groups, channels and blocked peers, and the same events in some order.
pub record Alike (s s' : Store) : Type 0 where
  pub groups : s.groups ≡ s'.groups
  pub channels : s.channels ≡ s'.channels
  pub blocked : s.blocked_peers ≡ s'.blocked_peers
  pub events : Permᴰ s.events s'.events

Alike-add : (e : EventEnvelope) (s s' : Store) → Alike s s' → Alike (add e s) (add e s')
Alike-add e s s' v = record {
  groups = v.groups;
  channels = v.channels;
  blocked = v.blocked;
  events = Permᴰ.append_right (row_of_event e ∷ []) v.events;
}

Alike-refl : (s : Store) → Alike s s
Alike-refl s = record {
  groups = refl;
  channels = refl;
  blocked = refl;
  events = Permᴰ.refl s.events;
}

Alike-sym : (s s' : Store) → Alike s s' → Alike s' s
Alike-sym s s' v = record {
  groups = sym v.groups;
  channels = sym v.channels;
  blocked = sym v.blocked;
  events = Permᴰ.symm v.events;
}

any-Permᴰ : {A : Type 0} (p : A → Bool) {xs ys : List A} → Permᴰ xs ys → any p xs ≡ any p ys
any-Permᴰ p Permᴰ.nil = refl
any-Permᴰ p (Permᴰ.cons same q) = rw (same, any-Permᴰ p q) refl
any-Permᴰ p (Permᴰ.swap {a = a} {b = b} first second) = rw (← first, ← second) (ground arith)
any-Permᴰ p (Permᴰ.trans q r) = any-Permᴰ p q ∙ any-Permᴰ p r

module _ (c : Crates) where
  -- What makes `insert_remote_event` take an event as new.
  pub record Takes (e : EventEnvelope) (s : Store) : Type 0 where
    pub known : Group
    pub payload : MessagePayload
    pub allowed : is_blocked e.header.author s ≡ false
    pub known_is : group e.header.group_id s ≡ some known
    pub opens : validate_and_open_event c e known.secret ≡ ok payload
    pub in_channel :
        any
          (λ ch. has_channel_id e.header.channel_id ch && ch.group_id == e.header.group_id)
          s.channels
        ≡ true
    pub small : e.header.author_sequence < i64_limit
    pub positive : 0 < e.header.author_sequence
    pub signed : length e.signature ≡ 64
    pub fresh : any (has_event_id e.header.id) s.events ≡ false
    pub open_slot :
        any (is_event_at e.header.group_id e.header.author e.header.author_sequence) s.events
        ≡ false

  Takes-Alike : (e : EventEnvelope) (s s' : Store) → Alike s s' → Takes e s → Takes e s'
  Takes-Alike e s s' v t = record {
    known = t.known;
    payload = t.payload;
    allowed = rw (← v.blocked) t.allowed;
    known_is = rw (← v.groups) t.known_is;
    opens = t.opens;
    in_channel = rw (← v.channels) t.in_channel;
    small = t.small;
    positive = t.positive;
    signed = t.signed;
    fresh = sym (any-Permᴰ (has_event_id e.header.id) v.events) ∙ t.fresh;
    open_slot =
        sym (
          any-Permᴰ (is_event_at e.header.group_id e.header.author e.header.author_sequence)
            v.events)
        ∙ t.open_slot;
  }

  -- Of two events that are taken one after the other, either may come first.
  Takes-add :
      (e f : EventEnvelope) (s : Store)
      → Takes e s
      → Takes f (add e s)
      → Takes f s × Takes e (add f s)
  unfolding row_of_event
  Takes-add e f s t u =
      let at = is_event_at f.header.group_id f.header.author f.header.author_sequence in
      let ids =
        sym (any-append (has_event_id f.header.id) s.events (row_of_event e ∷ [])) ∙ u.fresh in
      let slots = sym (any-append at s.events (row_of_event e ∷ [])) ∙ u.open_slot in
      (
        record {
          known = u.known;
          payload = u.payload;
          allowed = u.allowed;
          known_is = u.known_is;
          opens = u.opens;
          in_channel = u.in_channel;
          small = u.small;
          positive = u.positive;
          signed = u.signed;
          fresh = ground (arith, ids);
          open_slot = ground (arith, slots);
        },
        record {
          known = t.known;
          payload = t.payload;
          allowed = t.allowed;
          known_is = t.known_is;
          opens = t.opens;
          in_channel = t.in_channel;
          small = t.small;
          positive = t.positive;
          signed = t.signed;
          fresh =
              any-append (has_event_id e.header.id) s.events (row_of_event f ∷ [])
              ∙ ground (arith, t.fresh, ids);
          open_slot =
              any-append (is_event_at e.header.group_id e.header.author e.header.author_sequence)
                s.events (row_of_event f ∷ [])
              ∙ ground (arith, t.open_slot, slots);
        },
      )

  insert_if_new-Alike :
      (e : EventEnvelope) (name : Text) (now : ℤ) (s : Store) (known : Option EventRow) {t : Store}
      → insert_if_new c e name now s known ≡ ok (true, t)
      → (s1 : Store) × (insert_event e s ≡ ok s1) × Alike s1 t
  unfolding insert_if_new upsert_peer
  insert_if_new-Alike e name now s (some row) h =
      ensure-inv (row.id == e.header.id) _ _ h
        λ _ h1. let no : false ≡ true = ap (λ q. q.0) (ok-injective h1) in absurd (cc)
  insert_if_new-Alike e name now s none h = bind-inv (insert_event e s) _ h λ s1 inserted h1. (
    s1,
    inserted,
    subst (Alike s1) (ap (λ q. q.1) (ok-injective h1))
        (record { groups = refl; channels = refl; blocked = refl; events = Permᴰ.refl s1.events }),
  )

  insert_remote_event-Takes :
      (e : EventEnvelope) (name : Text) (now : ℤ) (s : Store) {t : Store}
      → insert_remote_event c e name now s ≡ ok (true, t)
      → Takes e s × Alike (add e s) t
  unfolding insert_remote_event
  insert_remote_event-Takes e name now s {t} h =
      ensure-inv (not (is_blocked e.header.author s)) _ _ h λ allowed h1.
        or_error-inv (group e.header.group_id s) _ _ h1 λ g g_known h2.
          bind-inv (validate_and_open_event c e g.secret) _ h2 λ p opens h3.
            ensure-inv (any _ s.channels) _ _ h3 λ in_channel h4.
              bind-inv (sql_u64 e.header.author_sequence) _ h4 λ n _ h5.
                let (s1, inserted, same) = insert_if_new-Alike e name now s (find _ s.events) h5 in
                let (small, positive, fresh, open_slot, signed, written) =
                  insert_event-inv e s s1 inserted in
                (
                  record {
                    known = g;
                    payload = p;
                    allowed = ground (arith, allowed);
                    known_is = g_known;
                    opens = opens;
                    in_channel = in_channel;
                    small = small;
                    positive = positive;
                    signed = signed;
                    fresh = fresh;
                    open_slot = open_slot;
                  },
                  subst (λ r. Alike r t) (sym written) same,
                )

  insert_remote_event-ok :
      (e : EventEnvelope) (name : Text) (now : ℤ) (s : Store)
      → Takes e s
      → (t : Store) × (insert_remote_event c e name now s ≡ ok (true, t)) × Alike (add e s) t
  unfolding insert_remote_event insert_if_new upsert_peer
  insert_remote_event-ok e name now s t =
      let at = is_event_at e.header.group_id e.header.author e.header.author_sequence in
      let inserted =
        insert_event-ok e s t.small t.positive t.fresh t.open_slot t.signed
          (find-any (has_group_id e.header.group_id) s.groups t.known_is)
          (any-weaken (has_channel_id e.header.channel_id) _ s.channels t.in_channel) in
      rw
        (
          t.allowed,
          t.known_is,
          t.opens,
          t.in_channel,
          lt→ltb e.header.author_sequence i64_limit t.small,
          find-none_of at s.events t.open_slot,
          inserted,
        )
        (
          _,
          refl,
          record {
            groups = refl;
            channels = refl;
            blocked = refl;
            events = Permᴰ.refl (s.events ++ row_of_event e ∷ []);
          },
        )

  -- Each event is taken by the store that the earlier ones leave.
  abbrev pub AllTake : List Delivery → Store → Type 0
  AllTake [] s = Unit
  AllTake (d ∷ ds) s = Takes d.event s × AllTake ds (add d.event s)

  AllTake-Alike : (ds : List Delivery) (s s' : Store) → Alike s s' → AllTake ds s → AllTake ds s'
  AllTake-Alike [] s s' v h = tt
  AllTake-Alike (d ∷ ds) s s' v h = (
    Takes-Alike d.event s s' v h.0,
    AllTake-Alike ds (add d.event s) (add d.event s') (Alike-add d.event s s' v) h.1,
  )

  AllTake-swap :
      (a b : Delivery) (l : List Delivery) (s : Store)
      → AllTake (a ∷ b ∷ l) s
      → AllTake (b ∷ a ∷ l) s
  AllTake-swap a b l s h =
      let (first, second) = Takes-add a.event b.event s h.0 h.1.0 in
      (
        first,
        (
          second,
          AllTake-Alike l (add b.event (add a.event s)) (add a.event (add b.event s))
              (record {
                groups = refl;
                channels = refl;
                blocked = refl;
                events = swapped_last s.events (row_of_event a.event) (row_of_event b.event);
              })
              h.1.1,
        ),
      )
    where
      swapped_last :
          (rows : List EventRow) (x y : EventRow)
          → Permᴰ ((rows ++ x ∷ []) ++ y ∷ []) ((rows ++ y ∷ []) ++ x ∷ [])
      swapped_last [] x y = Permᴰ.swap refl refl
      swapped_last (r ∷ rows) x y = Permᴰ.cons refl (swapped_last rows x y)

  AllTake-Permᴰ :
      {ds ds' : List Delivery} → Permᴰ ds ds' → (s : Store) → AllTake ds s → AllTake ds' s
  AllTake-Permᴰ Permᴰ.nil s h = tt
  AllTake-Permᴰ (Permᴰ.cons {a = a} {l₂ = ds'} same p) s h =
      subst (λ d. AllTake (d ∷ ds') s) same (h.0, AllTake-Permᴰ p (add a.event s) h.1)
  AllTake-Permᴰ (Permᴰ.swap {a = a} {b = b} {a' = a'} {b' = b'} {l = l} first second) s h =
      subst (λ u. AllTake (u ∷ b' ∷ l) s) second
        (subst (λ w. AllTake (b ∷ w ∷ l) s) first (AllTake-swap a b l s h))
  AllTake-Permᴰ (Permᴰ.trans p q) s h = AllTake-Permᴰ q s (AllTake-Permᴰ p s h)

  -- What a series leaves: the log with its events, and groups and channels as they were.
  pub record IsGrown (ds : List Delivery) (s t : Store) : Type 0 where
    pub groups : s.groups ≡ t.groups
    pub channels : s.channels ≡ t.channels
    pub events : Permᴰ (s.events ++ rows_of ds) t.events

  IsGrown-step :
      (d : Delivery) (ds : List Delivery) (s s1 t : Store)
      → Alike (add d.event s) s1
      → IsGrown ds s1 t
      → IsGrown (d ∷ ds) s t
  IsGrown-step d ds s s1 t v g = record {
    groups = v.groups ∙ g.groups;
    channels = v.channels ∙ g.channels;
    events =
        subst (λ rows. Permᴰ rows t.events)
          (append_assoc s.events (row_of_event d.event ∷ []) (rows_of ds))
          (Permᴰ.trans (Permᴰ.append_right (rows_of ds) v.events) g.events);
  }

  IsGrown-nil : (s : Store) → IsGrown [] s s
  IsGrown-nil s = record { groups = refl; channels = refl; events = Permᴰ.append-nil s.events }

  Received-IsGrown : {ds : List Delivery} {s t : Store} → Received c ds s t → IsGrown ds s t
  Received-IsGrown (nothing {s = s}) = IsGrown-nil s
  Received-IsGrown (taken {s = s} {s1 = s1} {t = t} d {ds = ds} h r) =
      IsGrown-step d ds s s1 t (insert_remote_event-Takes d.event d.name d.at s h).1
        (Received-IsGrown r)

  Received-AllTake : {ds : List Delivery} {s t : Store} → Received c ds s t → AllTake ds s
  Received-AllTake nothing = tt
  Received-AllTake (taken {s = s} {s1 = s1} d {ds = ds} h r) =
      let (takes, same) = insert_remote_event-Takes d.event d.name d.at s h in
      (
        takes,
        AllTake-Alike ds s1 (add d.event s) (Alike-sym (add d.event s) s1 same)
            (Received-AllTake r),
      )

  pub Received-IsSound :
      {ds : List Delivery} {s t : Store} → Received c ds s t → IsSound c s → IsSound c t
  Received-IsSound nothing v = v
  Received-IsSound (taken {s = s} d h r) v =
      Received-IsSound r (insert_remote_event-IsSound c d.event d.name d.at s v h)

  AllTake-Received :
      (ds : List Delivery) (s : Store) → AllTake ds s → (t : Store) × Received c ds s t
  AllTake-Received [] s h = (s, nothing)
  AllTake-Received (d ∷ ds) s h =
      let (s1, done, same) = insert_remote_event-ok d.event d.name d.at s h.0 in
      let (t, rest) = AllTake-Received ds s1 (AllTake-Alike ds (add d.event s) s1 same h.1) in
      (t, taken d done rest)

  rows_of-Permᴰ : {ds ds' : List Delivery} → Permᴰ ds ds' → Permᴰ (rows_of ds) (rows_of ds')
  rows_of-Permᴰ Permᴰ.nil = Permᴰ.nil
  rows_of-Permᴰ (Permᴰ.cons same p) =
      Permᴰ.cons (ap (λ d. row_of_event d.event) same) (rows_of-Permᴰ p)
  rows_of-Permᴰ (Permᴰ.swap first second) =
      Permᴰ.swap (ap (λ d. row_of_event d.event) first) (ap (λ d. row_of_event d.event) second)
  rows_of-Permᴰ (Permᴰ.trans p q) = Permᴰ.trans (rows_of-Permᴰ p) (rows_of-Permᴰ q)

  -- A series that is taken in one order is taken in every other, with the same log but for the order.
  pub Received-Permᴰ :
      {ds ds' : List Delivery} {s t : Store}
      → Permᴰ ds ds'
      → Received c ds s t
      → (t' : Store) × Received c ds' s t'
        × (t.groups ≡ t'.groups)
        × (t.channels ≡ t'.channels)
        × Permᴰ t.events t'.events
  Received-Permᴰ {ds} {ds'} {s} {t} p r =
      let (t', r') = AllTake-Received ds' s (AllTake-Permᴰ p s (Received-AllTake r)) in
      let g = Received-IsGrown r in
      let g' = Received-IsGrown r' in
      (
        t',
        r',
        sym g.groups ∙ g'.groups,
        sym g.channels ∙ g'.channels,
        Permᴰ.trans (Permᴰ.symm g.events)
            (Permᴰ.trans (Permᴰ.append_left s.events (rows_of-Permᴰ p)) g'.events),
      )
