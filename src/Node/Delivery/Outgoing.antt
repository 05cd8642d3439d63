-- ===== src/Node/Delivery/Outgoing.antt =====
-- What `Node::send` of src/node.rs and `append` of src/store.rs promise of the event that they return.
use opencord.Base.{
  ◌+◌, ◌<◌, ◌≡◌, sym, ap, subst, ◌∙◌, [], ◌∷◌, ◌++◌, ℤ, Option, some, arith, ltb, Result, ok, err,
  bind-inv, ensure-inv, ok-injective, length,
}
use opencord.Model.{Nonce, ChannelId, Group, EventEnvelope, MessagePayload, validate}
use opencord.Crates.{Crates, CratesLaws}
use opencord.Crypto.{Identity, peer_id, seal_event, validate_and_open_event}
use opencord.Crypto.Events.{open-seal}
use opencord.Store.{Store, insert_event, i64_limit}
use opencord.Store.Events.{append, group_of_channel, max_sequence}
use opencord.Store.Invariant.Keeps.{insert_event-inv}
use opencord.Node.{Node, send, sent}

-- What the rest of the network can rely on in an event that `append` returned.
pub record Sent (c : Crates) (i : Identity) (cid : ChannelId) (p : MessagePayload) (g : Group)
    (e : EventEnvelope) : Type 0 where
  pub author : e.header.author ≡ peer_id c i
  pub in_group : e.header.group_id ≡ g.id
  pub in_channel : e.header.channel_id ≡ cid
  pub small : e.header.author_sequence < i64_limit
  pub positive : 0 < e.header.author_sequence
  pub signed : length e.signature ≡ 64
  pub opens : validate_and_open_event c e g.secret ≡ ok p

module _ (c : Crates) (laws : CratesLaws c) where
  pub append-Sent :
      (i : Identity) (cid : ChannelId) (p : MessagePayload) (drawn : Option Nonce)
      (sent_at later : ℤ) (s : Store) (g : Group) {e : EventEnvelope} {s' : Store}
      → group_of_channel cid s ≡ some g
      → append c i cid p drawn sent_at later s ≡ ok (e, s')
      → Sent c i cid p g e
  unfolding append
  append-Sent i cid p drawn sent_at later s g {e} {s'} known h = bind-inv (validate p) _ h λ _ _ h1.
      let h2 = rw known at h1 in
      ensure-inv (ltb (max_sequence g.id (peer_id c i) s.events + 1) i64_limit) _ _ h2 λ _ h3.
        bind-inv (seal_event c i g.id cid g.secret _ sent_at drawn p) _ h3 λ sealed_event sealed h4.
          bind-inv (insert_event sealed_event s) _ h4 λ s1 inserted h5.
            let (opens, who, where_, channel, _, _) =
              open-seal c laws i g.id cid g.secret _ sent_at drawn p sealed_event sealed in
            let (small, positive, _, _, signed, _) = insert_event-inv sealed_event s s1 inserted in
            subst (Sent c i cid p g) (ap (λ q. q.0) (ok-injective h5)) (record {
              author = who;
              in_group = where_;
              in_channel = channel;
              small = small;
              positive = positive;
              signed = signed;
              opens = opens;
            })

-- A successful `send` has appended to the store, and hands the event to the sessions.
sent-inv :
    (c : Crates) (r : Result (EventEnvelope × Store)) (n n' : Node) {e : EventEnvelope}
    → sent c r n ≡ (ok e, n')
    → (s' : Store) × (r ≡ ok (e, s'))
      × (n'.live_events
          ≡ n.live_events ++ record { event = e; author_name = n.identity.display_name } ∷ [])
sent-inv c (ok (event, s)) n n' {e} h =
    let same : event ≡ e = ok-injective (ap (λ q. q.0) h) in
    (
      s,
      ap (λ x. ok (x, s)) same,
      sym (ap (λ q. q.1.live_events) h)
          ∙ ap
              (λ x.
                n.live_events ++ record { event = x; author_name = n.identity.display_name } ∷ [])
              same,
    )
sent-inv c (err f) n n' h = absurd (ground (arith, ap (λ q. q.0) h))

pub send-inv :
    (c : Crates) (cid : ChannelId) (p : MessagePayload) (drawn : Option Nonce) (sent_at later : ℤ)
    (n n' : Node) {e : EventEnvelope}
    → send c cid p drawn sent_at later n ≡ (ok e, n')
    → (s' : Store) × (append c n.identity cid p drawn sent_at later n.store ≡ ok (e, s'))
      × (n'.live_events
          ≡ n.live_events ++ record { event = e; author_name = n.identity.display_name } ∷ [])
unfolding send
send-inv c cid p drawn sent_at later n n' h = sent-inv c _ n n' h
