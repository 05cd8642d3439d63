-- ===== src/Node/Delivery.antt =====
-- A message from `Node::send` of src/node.rs to the store of another node, by way of `forward_event`
-- and `handle_frame`, the two ends of the live loop of src/network.rs.
pub mod Outgoing
use opencord.Base.{
  ℕ, ◌+◌, ◌<◌, ◌≡◌, refl, sym, ap, subst, ◌∙◌, Bool, true, false, ◌&&◌, List, [], ◌∷◌, ◌++◌, ℤ,
  Option, none, some, arith, ◌==◌, ltb, any, find, find-any, Result, ok, err, bind-inv, ensure-inv,
  ok-injective, length, lt→ltb,
}
use opencord.Text.{Text}
use opencord.Model.{Nonce, GroupId, ChannelId, Group, EventEnvelope, MessagePayload, validate}
use opencord.Crates.{Crates, CratesLaws}
use opencord.Crypto.{Identity, peer_id, seal_event, validate_and_open_event}
use opencord.Crypto.Events.{open-seal}
use opencord.Store.{
  Store, row_of_event, has_event_id, has_channel_id, has_group_id, is_event_at, insert_event,
  upsert_peer, i64_limit,
}
use opencord.Store.Groups.{group}
use opencord.Store.Peers.{is_blocked}
use opencord.Store.Events.{
  append, group_of_channel, max_sequence, insert_remote_event, insert_if_new,
}
use opencord.Store.Accept.{any-weaken, find-none_of, insert_event-ok}
use opencord.Store.Invariant.Keeps.{insert_event-inv}
use opencord.Network.Wire.{Wire, WireEvent, PeerHello, LiveEvent, live_event}
use opencord.Network.Frames.{send_frame}
use opencord.Network.Handshake.{member}
use opencord.Network.Task.{
  Context, Task, M, ◌>>=◌, check, now, write_store, write_result, change_state, publish_event, when,
  send_result, continue,
}
use opencord.Network.Live.{handle_frame, forward_event, publish_if_fresh}
use opencord.Node.{Node, send, sent}
use opencord.Node.Delivery.Outgoing.{Sent, append-Sent, send-inv}

-- What the receiver must know for an event to be stored: the key of the group, the channel, and
-- nothing yet at the place of the event or under its identifier.
pub record IsReady (cid : ChannelId) (g : Group) (e : EventEnvelope) (s : Store) : Type 0 where
  pub known : Group
  pub known_is : group g.id s ≡ some known
  pub same_key : known.secret ≡ g.secret
  pub channel_known : any (λ ch. has_channel_id cid ch && ch.group_id == g.id) s.channels ≡ true
  pub allowed : is_blocked e.header.author s ≡ false
  pub fresh : any (has_event_id e.header.id) s.events ≡ false
  pub open_slot : any (is_event_at g.id e.header.author e.header.author_sequence) s.events ≡ false

module _ (c : Crates) (i : Identity) (cid : ChannelId) (p : MessagePayload) (g : Group)
    (e : EventEnvelope) (sent : Sent c i cid p g e) where
  insert_remote_event-ready :
      (name : Text) (at : ℤ) (s : Store)
      → IsReady cid g e s
      → (s' : Store) × (insert_remote_event c e name at s ≡ ok (true, s'))
        × (s'.events ≡ s.events ++ row_of_event e ∷ [])
  unfolding insert_remote_event insert_if_new upsert_peer
  insert_remote_event-ready name at s ready =
      let here = sym sent.in_group in
      let there = sym sent.in_channel in
      let known_is = subst (λ x. group x s ≡ some ready.known) here ready.known_is in
      let channel_known =
        subst
          (λ x.
            any (λ ch. has_channel_id x ch && ch.group_id == e.header.group_id) s.channels ≡ true)
          there
          (subst (λ x. any (λ ch. has_channel_id cid ch && ch.group_id == x) s.channels ≡ true) here
            ready.channel_known) in
      let open_slot =
        subst (λ x. any (is_event_at x e.header.author e.header.author_sequence) s.events ≡ false)
          here ready.open_slot in
      let opens =
        subst (λ k. validate_and_open_event c e k ≡ ok p) (sym ready.same_key) sent.opens in
      let inserted =
        insert_event-ok e s sent.small sent.positive ready.fresh open_slot sent.signed
          (find-any (has_group_id e.header.group_id) s.groups known_is)
          (any-weaken (has_channel_id e.header.channel_id) _ s.channels channel_known) in
      rw
        (
          ready.allowed,
          known_is,
          opens,
          channel_known,
          lt→ltb e.header.author_sequence i64_limit sent.small,
          find-none_of _ s.events open_slot,
          inserted,
        )
        (_, refl, refl)

module _ (y : Context) (hello : PeerHello) (shared : List GroupId) where
  handle_live_event :
      (w : WireEvent) (u : Task) (s' : Store)
      → member w.event.header.group_id shared ≡ true
      → insert_remote_event y.net.crates w.event w.author_name (y.clock u.reads) u.store
        ≡ ok (true, s')
      → ((handle_frame y hello shared (live_event w) u).0 ≡ ok tt)
        × ((handle_frame y hello shared (live_event w) u).1.store ≡ s')
        × ((handle_frame y hello shared (live_event w) u).1.live_events
            ≡ u.live_events ++ record { event = w.event; author_name = w.author_name } ∷ [])
  unfolding handle_frame ◌>>=◌ check now write_store write_result publish_if_fresh change_state
      publish_event
  handle_live_event w u s' known stored = rw (known, stored) (refl, refl, refl)

forward_event_lem :
    (x : Context) (hello : PeerHello) (shared : List GroupId) (l : LiveEvent) (t : Task)
    {bytes : List ℕ}
    → member l.event.header.group_id shared ≡ true
    → (l.event.header.author == hello.body.peer) ≡ false
    → send_frame x.net.wire_codec
        (live_event (record { event = l.event; author_name = l.author_name }))
      ≡ ok bytes
    → (forward_event x hello shared l t).1.outbox
      ≡ t.outbox ++ live_event (record { event = l.event; author_name = l.author_name }) ∷ []
unfolding forward_event when opencord.Network.Task.send send_result
forward_event_lem x hello shared l t known other encoded = rw (known, other, encoded) refl

module _ (x y : Context) (laws : CratesLaws y.net.crates) where
  -- Under the laws of the crates, a message that `send` of one node returns reaches another: the
  -- node hands its event to the sessions; a session with a peer that shares the group and is not
  -- the author writes it, if it fits a frame; and where the group is shared in the session of a
  -- node that has its key and the channel, has not blocked the author, and has no event under the
  -- identifier or at the place of this one, the frame is handled without an error, the event is
  -- the only addition to the log, and it is handed on to the other sessions.
  pub send_delivered :
      (n n' : Node) (cid : ChannelId) (p : MessagePayload) (drawn : Option Nonce)
      (sent_at later : ℤ) (g : Group) (e : EventEnvelope) (hello back : PeerHello)
      (shared also : List GroupId) (t u : Task) {bytes : List ℕ}
      → group_of_channel cid n.store ≡ some g
      → send y.net.crates cid p drawn sent_at later n ≡ (ok e, n')
      → member g.id shared ≡ true
      → (peer_id y.net.crates n.identity == hello.body.peer) ≡ false
      → send_frame x.net.wire_codec
          (live_event (record { event = e; author_name = n.identity.display_name }))
        ≡ ok bytes
      → member g.id also ≡ true
      → IsReady cid g e u.store
      → let l : LiveEvent = record { event = e; author_name = n.identity.display_name } in
        let w : Wire = live_event (record { event = e; author_name = n.identity.display_name }) in
        (n'.live_events ≡ n.live_events ++ l ∷ [])
        × ((forward_event x hello shared l t).1.outbox ≡ t.outbox ++ w ∷ [])
        × ((handle_frame y back also w u).0 ≡ ok tt)
        × ((handle_frame y back also w u).1.store.events ≡ u.store.events ++ row_of_event e ∷ [])
        × ((handle_frame y back also w u).1.live_events ≡ u.live_events ++ l ∷ [])
  send_delivered n n' cid p drawn sent_at later g e hello back shared also t u known done to_peer
        other encoded from_peer ready =
      let (s', appended, handed) = send-inv y.net.crates cid p drawn sent_at later n n' done in
      let sent_event =
        append-Sent y.net.crates laws n.identity cid p drawn sent_at later n.store g known
          appended in
      let l : LiveEvent = record { event = e; author_name = n.identity.display_name } in
      let (s'', stored, added) =
        insert_remote_event-ready y.net.crates n.identity cid p g e sent_event
          n.identity.display_name (y.clock u.reads) u.store ready in
      let (fine, same, passed) =
        handle_live_event y back also (record { event = e; author_name = n.identity.display_name })
          u s'' (subst (λ i. member i also ≡ true) (sym sent_event.in_group) from_peer) stored in
      (
        handed,
        forward_event_lem x hello shared l t
            (subst (λ i. member i shared ≡ true) (sym sent_event.in_group) to_peer)
            (subst (λ a. (a == hello.body.peer) ≡ false) (sym sent_event.author) other) encoded,
        fine,
        ap (λ s. s.events) same ∙ added,
        passed,
      )
