-- ===== src/Store/Invariant/Contacts/Operations.antt =====
-- Every operation of the store (src/store.rs) that writes keeps the keys of its contacts.
use opencord.Base.{
  ℤ, ◌+◌, ◌≡◌, refl, Bool, true, not, Option, none, some, ◌==◌, any, find, filterb, leb, ltb, ok,
  subst, ap, bind-inv, ensure-inv, or_error-inv, ok-injective, Bool-cases, inl, inr, arith,
}
use opencord.Text.{Text, codes, clean_label}
use opencord.Model.{
  Key, Nonce, GroupId, ChannelId, PeerId, Group, Channel, EventEnvelope, MessagePayload, validate,
}
use opencord.Crates.{Crates}
use opencord.Crypto.{Identity, peer_id, seal_event, validate_and_open_event}
use opencord.Store.{
  Store, EventRow, has_group_id, has_channel_id, has_peer_id, blocks, i64_limit, u32_max,
  insert_group, insert_channel, insert_or_ignore_channel, insert_event, upsert_peer, sql_u64,
}
use opencord.Store.Groups.{create_group, create_channel, merge_channel, group, next_position}
use opencord.Store.Events.{
  append, group_of_channel, insert_remote_event, insert_if_new, max_sequence,
}
use opencord.Store.Peers.{remember_peer, block_peer, unblock_peer, is_blocked}
use opencord.Store.Invariant.Keeps.{insert_event-inv}
use opencord.Store.Invariant.Contacts.{
  HasContacts, SameContacts, SameContacts-refl, SameContacts-trans, SameContacts-HasContacts,
  same_blocked, Distinct-upsert, Distinct-filterb, upsert-HasContacts, endpoint-HasContacts,
}

pub insert_group-SameContacts :
    (g : Group) (s s' : Store) → insert_group g s ≡ ok s' → SameContacts s s'
unfolding insert_group
insert_group-SameContacts g s s' h =
    ensure-inv (not (any (has_group_id g.id) s.groups)) _ _ h λ _ h1.
      subst (SameContacts s) (ok-injective h1)
        (record { peers = refl; endpoints = refl; blocked = refl })

insert_channel-SameContacts :
    (ch : Channel) (s s' : Store) → insert_channel ch s ≡ ok s' → SameContacts s s'
unfolding insert_channel
insert_channel-SameContacts ch s s' h =
    ensure-inv (not (any (has_channel_id ch.id) s.channels)) _ _ h λ _ h1.
      ensure-inv (any (has_group_id ch.group_id) s.groups) _ _ h1 λ _ h2.
        subst (SameContacts s) (ok-injective h2)
          (record { peers = refl; endpoints = refl; blocked = refl })

pub insert_or_ignore_channel-SameContacts :
    (ch : Channel) (s : Store) (b : Bool) (s' : Store)
    → insert_or_ignore_channel ch s ≡ ok (b, s')
    → SameContacts s s'
unfolding insert_or_ignore_channel
insert_or_ignore_channel-SameContacts ch s b s' h =
    elim (Bool-cases (any (has_channel_id ch.id) s.channels)) [
      | inl known ↦ subst (SameContacts s) (ground arith) (SameContacts-refl s)
      | inr fresh ↦ ensure-inv (any (has_group_id ch.group_id) s.groups) _ _ (rw fresh at h) λ _ h2.
          subst (SameContacts s) (ap (λ p. p.1) (ok-injective h2))
            (record { peers = refl; endpoints = refl; blocked = refl })
    ]

insert_event-SameContacts :
    (e : EventEnvelope) (s s' : Store) → insert_event e s ≡ ok s' → SameContacts s s'
insert_event-SameContacts e s s' h =
    let (_, _, _, _, _, written) = insert_event-inv e s s' h in
    subst (SameContacts s) written (record { peers = refl; endpoints = refl; blocked = refl })

create_group-SameContacts :
    (name : Text) (gid : GroupId) (cid : ChannelId) (secret : Key) (now : ℤ) (s : Store) {g : Group}
    {ch : Channel} {s' : Store}
    → create_group name gid cid secret now s ≡ ok (g, ch, s')
    → SameContacts s s'
unfolding create_group
create_group-SameContacts name gid cid secret now s h = bind-inv (insert_group _ s) _ h λ s1 e1 h1.
    bind-inv (insert_channel _ s1) _ h1 λ s2 e2 h2.
      subst (SameContacts s) (ap (λ p. p.2) (ok-injective h2)) (
        SameContacts-trans s s1 s2 (insert_group-SameContacts _ s s1 e1)
          (insert_channel-SameContacts _ s1 s2 e2))

pub merge_channel-SameContacts :
    (ch : Channel) (s : Store) {b : Bool} {s' : Store}
    → merge_channel ch s ≡ ok (b, s')
    → SameContacts s s'
unfolding merge_channel
merge_channel-SameContacts ch s {b} {s'} h =
    ensure-inv (any (has_group_id ch.group_id) s.groups) _ _ h
      λ _ h1. insert_or_ignore_channel-SameContacts _ s b s' h1

upsert_peer-HasContacts :
    (p : PeerId) (name : Text) (now : ℤ) (s : Store)
    → HasContacts s
    → HasContacts (upsert_peer p name now s)
      × (any (has_peer_id p) (upsert_peer p name now s).peers ≡ true)
unfolding upsert_peer
upsert_peer-HasContacts p name now s v = upsert-HasContacts p _ _ s (λ q. refl) refl v

pub create_group-HasContacts :
    (name : Text) (gid : GroupId) (cid : ChannelId) (secret : Key) (now : ℤ) (s : Store) {g : Group}
    {ch : Channel} {s' : Store}
    → HasContacts s
    → create_group name gid cid secret now s ≡ ok (g, ch, s')
    → HasContacts s'
create_group-HasContacts name gid cid secret now s {s' = s'} v h =
    SameContacts-HasContacts s s' (create_group-SameContacts name gid cid secret now s h) v

module _ (c : Crates) where
  create_channel-SameContacts :
      (g : GroupId) (name : Text) (cid : ChannelId) (s : Store) {ch : Channel} {s' : Store}
      → create_channel c g name cid s ≡ ok (ch, s')
      → SameContacts s s'
  unfolding create_channel
  create_channel-SameContacts g name cid s h =
      ensure-inv (leb (next_position (filterb (λ x. x.group_id == g) s.channels)) u32_max) _ _ h
        λ _ h1. bind-inv (insert_channel _ s) _ h1 λ s1 e1 h2.
          subst (SameContacts s) (ap (λ p. p.1) (ok-injective h2))
            (insert_channel-SameContacts _ s s1 e1)

  pub create_channel-HasContacts :
      (g : GroupId) (name : Text) (cid : ChannelId) (s : Store) {ch : Channel} {s' : Store}
      → HasContacts s
      → create_channel c g name cid s ≡ ok (ch, s')
      → HasContacts s'
  create_channel-HasContacts g name cid s {s' = s'} v h =
      SameContacts-HasContacts s s' (create_channel-SameContacts g name cid s h) v

  -- An event that is inserted and its author.
  authored-HasContacts :
      (e : EventEnvelope) (p : PeerId) (name : Text) (now : ℤ) (s s1 : Store)
      → HasContacts s
      → insert_event e s ≡ ok s1
      → HasContacts (upsert_peer p name now s1)
  authored-HasContacts e p name now s s1 v h =
      (upsert_peer-HasContacts p name now s1
        (SameContacts-HasContacts s s1 (insert_event-SameContacts e s s1 h) v)).0

  pub append-HasContacts :
      (i : Identity) (cid : ChannelId) (p : MessagePayload) (drawn : Option Nonce) (sent_at now : ℤ)
      (s : Store) {e : EventEnvelope} {s' : Store}
      → HasContacts s
      → append c i cid p drawn sent_at now s ≡ ok (e, s')
      → HasContacts s'
  unfolding append
  append-HasContacts i cid p drawn sent_at now s {e} {s'} v h = bind-inv (validate p) _ h λ _ _ h1.
      or_error-inv (group_of_channel cid s) _ _ h1 λ g g_eq h2.
        ensure-inv (ltb (max_sequence g.id (peer_id c i) s.events + 1) i64_limit) _ _ h2 λ _ h3.
          bind-inv (seal_event c i g.id cid g.secret _ sent_at drawn p) _ h3 λ e1 sealed h4.
            bind-inv (insert_event e1 s) _ h4 λ s1 inserted h5.
              subst HasContacts (ap (λ q. q.1) (ok-injective h5))
                (authored-HasContacts e1 _ _ now s s1 v inserted)

  insert_if_new-HasContacts :
      (e : EventEnvelope) (name : Text) (now : ℤ) (s : Store) (known : Option EventRow) {b : Bool}
      {s' : Store}
      → HasContacts s
      → insert_if_new c e name now s known ≡ ok (b, s')
      → HasContacts s'
  unfolding insert_if_new
  insert_if_new-HasContacts e name now s (some existing) v h =
      ensure-inv (existing.id == e.header.id) _ _ h
        λ _ h1. subst HasContacts (ap (λ q. q.1) (ok-injective h1)) v
  insert_if_new-HasContacts e name now s none v h =
      bind-inv (insert_event e s) _ h λ s1 inserted h1.
        subst HasContacts (ap (λ q. q.1) (ok-injective h1))
          (authored-HasContacts e _ _ now s s1 v inserted)

  pub insert_remote_event-HasContacts :
      (e : EventEnvelope) (name : Text) (now : ℤ) (s : Store) {b : Bool} {s' : Store}
      → HasContacts s
      → insert_remote_event c e name now s ≡ ok (b, s')
      → HasContacts s'
  unfolding insert_remote_event
  insert_remote_event-HasContacts e name now s {b} {s'} v h =
      ensure-inv (not (is_blocked e.header.author s)) _ _ h λ _ h1.
        or_error-inv (group e.header.group_id s) _ _ h1 λ g _ h2.
          bind-inv (validate_and_open_event c e g.secret) _ h2 λ p _ h3.
            ensure-inv (any _ s.channels) _ _ h3 λ _ h4.
              bind-inv (sql_u64 e.header.author_sequence) _ h4
                λ n _ h5. insert_if_new-HasContacts e name now s (find _ s.events) v h5

  pub remember_peer-HasContacts :
      (p : PeerId) (name : Text) (endpoint : Option Text) (now later : ℤ) (s : Store)
      → HasContacts s
      → HasContacts (remember_peer c p name endpoint now later s)
  unfolding remember_peer
  remember_peer-HasContacts p name none now later s v = (upsert_peer-HasContacts p _ now s v).0
  remember_peer-HasContacts p name (some address) now later s v =
      let (kept, known) =
        upsert_peer-HasContacts p (clean_label name (codes "Unknown peer") 48) now s v in
      elim (Bool-cases (c.is_socket_address address)) [
        | inl parses ↦
            rw parses (endpoint-HasContacts p address _ later _ (λ r. refl) (λ r. refl) known kept)
        | inr bad ↦ rw bad kept
      ]

pub block_peer-HasContacts :
    (p : PeerId) (reason : Text) (now : ℤ) (s : Store)
    → HasContacts s
    → HasContacts (block_peer p reason now s)
unfolding block_peer
block_peer-HasContacts p reason now s v = record {
  peer_keys = v.peer_keys;
  endpoint_keys = v.endpoint_keys;
  endpoint_peers = v.endpoint_peers;
  blocked_keys =
      Distinct-upsert (blocks p) _ _ same_blocked s.blocked_peers (λ x. refl) (λ x y. refl)
        (λ x y. refl) v.blocked_keys;
}

pub unblock_peer-HasContacts :
    (p : PeerId) (s : Store) → HasContacts s → HasContacts (unblock_peer p s)
unfolding unblock_peer
unblock_peer-HasContacts p s v = record {
  peer_keys = v.peer_keys;
  endpoint_keys = v.endpoint_keys;
  endpoint_peers = v.endpoint_peers;
  blocked_keys = Distinct-filterb same_blocked _ s.blocked_peers v.blocked_keys;
}
