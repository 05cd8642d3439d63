-- ===== src/Store/Invariant/Operations.antt =====
-- Every operation of the store (src/store.rs) that writes keeps the invariant.
use opencord.Base.{
  ℤ, ◌+◌, ◌<◌, ◌≡◌, Bool, true, false, not, ◌&&◌, List, Option, none, some, ◌==◌, any, find,
  find-true, any-find, ok, arith, [], ◌∷◌, sym, ap, ◌∙◌, find-All, Distinct, ltb, leb, bind-inv,
  ensure-inv, or_error-inv, ok-injective, subst, Bool-cases, Option-cases, inl, inr, filterb,
}
use opencord.Text.{Text}
use opencord.Model.{
  Key, Nonce, GroupId, ChannelId, Group, Channel, EventEnvelope, MessagePayload, validate,
}
use opencord.Crates.{Crates, CratesLaws}
use opencord.Crypto.{Identity, peer_id, seal_event, validate_and_open_event}
use opencord.Crypto.Events.{open-seal, open-IsAuthentic}
use opencord.Store.{
  Store, EventRow, row_of_event, has_group_id, has_channel_id, i64_limit, insert_group,
  insert_channel, insert_event, sql_u64, u32_max,
}
use opencord.Store.Groups.{create_group, create_channel, merge_channel, group, next_position}
use opencord.Store.Events.{
  append, group_of_channel, insert_remote_event, insert_if_new, max_sequence,
}
use opencord.Store.Peers.{is_blocked}
use opencord.Store.Invariant.{IsSound, IsReadable, same_channel}
use opencord.Store.Invariant.Keeps.{
  event_from_row-row_of_event, insert_group-IsSound, insert_channel-IsSound,
  insert_or_ignore_channel-IsSound, upsert_peer-IsSound, insert_event-IsSound,
}

pub group_of_channel-inv :
    (id : ChannelId) (s : Store) (g : Group)
    → group_of_channel id s ≡ some g
    → (ch : Channel) × (find (has_channel_id id) s.channels ≡ some ch)
      × (find (has_group_id g.id) s.groups ≡ some g)
      × (ch.group_id ≡ g.id)
unfolding group_of_channel
group_of_channel-inv id s g h = elim (Option-cases (find (has_channel_id id) s.channels)) [
  | inl missing ↦ absurd (ground arith)
  | inr (ch, found) ↦
      let known : find (has_group_id ch.group_id) s.groups ≡ some g = ground arith in
      let same : g.id ≡ ch.group_id =
        ground (arith, find-true (has_group_id ch.group_id) s.groups known) in
      (ch, found, subst (λ k. find (has_group_id k) s.groups ≡ some g) (sym same) known, sym same)
]

-- Under unique keys, a channel with the identifier that is in the group is the one that is found.
pub channel_in_group :
    (id : ChannelId) (g : GroupId) (cs : List Channel)
    → Distinct same_channel cs
    → any (λ ch. has_channel_id id ch && ch.group_id == g) cs ≡ true
    → (ch : Channel) × (find (has_channel_id id) cs ≡ some ch) × (ch.group_id ≡ g)
channel_in_group id g [] d h = absurd (cc)
channel_in_group id g (x ∷ xs) d h = elim (Bool-cases (x.id == id)) [
  | inr miss ↦
      let (ch, found, same) = channel_in_group id g xs d.1 (rw miss at h) in
      (ch, rw miss found, same)
  | inl hit ↦ elim (Bool-cases (x.group_id == g)) [
    | inl same ↦ (x, rw hit, ground arith)
    | inr other ↦
        let (y, found) = any-find _ xs (rw (hit, other) at h) in
        let p = find-true (λ ch. has_channel_id id ch && ch.group_id == g) xs found in
        let q : has_channel_id y.id x ≡ false = find-All _ _ xs d.0 found in absurd (ground arith)
  ]
]

module _ (c : Crates) where
  -- An authentic event of a known group, in a channel of that group, is readable.
  IsReadable-event :
      (e : EventEnvelope) (s : Store) (g : Group) (ch : Channel) (p : MessagePayload)
      → find (has_group_id e.header.group_id) s.groups ≡ some g
      → find (has_channel_id e.header.channel_id) s.channels ≡ some ch
      → ch.group_id ≡ e.header.group_id
      → validate_and_open_event c e g.secret ≡ ok p
      → 0 < e.header.author_sequence
      → e.header.author_sequence < i64_limit
      → IsReadable c s.groups s.channels (row_of_event e)
  unfolding row_of_event
  IsReadable-event e s g ch p g_known ch_known same opens positive fits =
      let (version, _, _, _, _) = open-IsAuthentic c e g.secret p opens in
      record {
        in_group = g;
        in_channel = ch;
        payload = p;
        group_known = g_known;
        channel_known = ch_known;
        channel_of_group = same;
        opens = rw (event_from_row-row_of_event e version) opens;
        positive = positive;
        in_range = fits;
      }

  -- `create_group` keeps the store sound.
  pub create_group-IsSound :
      (name : Text) (gid : GroupId) (cid : ChannelId) (secret : Key) (now : ℤ) (s : Store)
      {g : Group} {ch : Channel} {s' : Store}
      → IsSound c s
      → create_group name gid cid secret now s ≡ ok (g, ch, s')
      → IsSound c s'
  unfolding create_group
  create_group-IsSound name gid cid secret now s v h = bind-inv (insert_group _ s) _ h λ s1 e1 h1.
      bind-inv (insert_channel _ s1) _ h1 λ s2 e2 h2.
        subst (IsSound c) (ap (λ p. p.2) (ok-injective h2))
          (insert_channel-IsSound c _ s1 s2 (insert_group-IsSound c _ s s1 v e1) e2)

  -- `create_channel` keeps the store sound.
  pub create_channel-IsSound :
      (g : GroupId) (name : Text) (cid : ChannelId) (s : Store) {ch : Channel} {s' : Store}
      → IsSound c s
      → create_channel c g name cid s ≡ ok (ch, s')
      → IsSound c s'
  unfolding create_channel
  create_channel-IsSound g name cid s v h =
      ensure-inv (leb (next_position (filterb (λ x. x.group_id == g) s.channels)) u32_max) _ _ h
        λ _ h1. bind-inv (insert_channel _ s) _ h1 λ s1 e1 h2.
          subst (IsSound c) (ap (λ p. p.1) (ok-injective h2)) (insert_channel-IsSound c _ s s1 v e1)

  -- `merge_channel` keeps the store sound.
  pub merge_channel-IsSound :
      (ch : Channel) (s : Store) {b : Bool} {s' : Store}
      → IsSound c s
      → merge_channel ch s ≡ ok (b, s')
      → IsSound c s'
  unfolding merge_channel
  merge_channel-IsSound ch s {b} {s'} v h =
      ensure-inv (any (has_group_id ch.group_id) s.groups) _ _ h
        λ _ h1. insert_or_ignore_channel-IsSound c _ s b s' v h1

  -- An event that `append` writes is readable by everyone who has the group's key, and the store
  -- stays sound.
  pub append-IsSound :
      CratesLaws c
      → (i : Identity) (cid : ChannelId) (p : MessagePayload) (drawn : Option Nonce)
        (sent_at now : ℤ) (s : Store) {e : EventEnvelope} {s' : Store}
      → IsSound c s
      → append c i cid p drawn sent_at now s ≡ ok (e, s')
      → IsSound c s'
  unfolding append
  append-IsSound laws i cid p drawn sent_at now s {e} {s'} v h = bind-inv (validate p) _ h λ _ _ h1.
      or_error-inv (group_of_channel cid s) _ _ h1 λ g g_eq h2.
        ensure-inv (ltb (max_sequence g.id (peer_id c i) s.events + 1) i64_limit) _ _ h2 λ _ h3.
          bind-inv (seal_event c i g.id cid g.secret _ sent_at drawn p) _ h3 λ e1 sealed h4.
            bind-inv (insert_event e1 s) _ h4 λ s1 inserted h5.
              let (opens, _, same_g, same_ch, _, _) =
                open-seal c laws i g.id cid g.secret _ sent_at drawn p e1 sealed in
              let (ch, ch_known, g_known, ch_of_g) = group_of_channel-inv cid s g g_eq in
              subst (IsSound c) (ap (λ q. q.1) (ok-injective h5)) (
                upsert_peer-IsSound c _ _ now s1 (
                  insert_event-IsSound c e1 s s1 v
                    (IsReadable-event e1 s g ch p (rw same_g g_known) (rw same_ch ch_known)
                      (ch_of_g ∙ sym same_g) opens)
                    inserted))

  insert_if_new-IsSound :
      (e : EventEnvelope) (name : Text) (now : ℤ) (s : Store) (known : Option EventRow) {b : Bool}
      {s' : Store}
      → IsSound c s
      → (0 < e.header.author_sequence
          → e.header.author_sequence < i64_limit
          → IsReadable c s.groups s.channels (row_of_event e))
      → insert_if_new c e name now s known ≡ ok (b, s')
      → IsSound c s'
  unfolding insert_if_new
  insert_if_new-IsSound e name now s (some existing) v readable h =
      ensure-inv (existing.id == e.header.id) _ _ h
        λ _ h1. subst (IsSound c) (ap (λ q. q.1) (ok-injective h1)) v
  insert_if_new-IsSound e name now s none v readable h =
      bind-inv (insert_event e s) _ h λ s1 inserted h1.
        subst (IsSound c) (ap (λ q. q.1) (ok-injective h1))
          (upsert_peer-IsSound c _ _ now s1 (insert_event-IsSound c e s s1 v readable inserted))

  -- `insert_remote_event` keeps the store sound, whatever the peer sent.
  pub insert_remote_event-IsSound :
      (e : EventEnvelope) (name : Text) (now : ℤ) (s : Store) {b : Bool} {s' : Store}
      → IsSound c s
      → insert_remote_event c e name now s ≡ ok (b, s')
      → IsSound c s'
  unfolding insert_remote_event
  insert_remote_event-IsSound e name now s {b} {s'} v h =
      ensure-inv (not (is_blocked e.header.author s)) _ _ h λ _ h1.
        or_error-inv (group e.header.group_id s) _ _ h1 λ g g_known h2.
          bind-inv (validate_and_open_event c e g.secret) _ h2 λ p opens h3.
            ensure-inv (any _ s.channels) _ _ h3 λ in_channel h4.
              bind-inv (sql_u64 e.header.author_sequence) _ h4 λ n _ h5.
                let (ch, ch_known, same) =
                  channel_in_group e.header.channel_id e.header.group_id s.channels v.channel_keys
                    in_channel in
                insert_if_new-IsSound e name now s (find _ s.events) v
                  (IsReadable-event e s g ch p g_known ch_known same opens) h5
