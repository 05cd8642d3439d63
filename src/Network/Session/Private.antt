-- ===== src/Network/Session/Private.antt =====
-- What an authenticated session of src/network.rs writes names shared groups only.
use mathlib.Core.List.{append-nil}
use opencord.Base.{
  ◌≡◌, sym, subst, true, ◌==◌, ==_iff, List, [], ◌∷◌, All, All-append, All-map, All-filterb-true,
  arith, ok-injective,
}
use opencord.Model.{GroupId, Channel, Group}
use opencord.Store.Groups.{channels}
use opencord.Store.Order.{All-order_by}
use opencord.Network.Wire.{
  Wire, PeerHello, VoiceDatagram, hello, group_proofs, requests, event_batch, sync_done, live_event,
  channel_upsert, screen_frame, ping, pong,
}
use opencord.Network.Ranges.{missing_ranges}
use opencord.Network.Ranges.Groups.{missing_ranges-All}
use opencord.Network.Handshake.{member}
use opencord.Network.Task.{Context, Task}
use opencord.Network.Task.Holds.{
  Holds, Holds-bind_where, Holds-bind, Holds-read_bind, Returns, Returns-bind, Returns-read_store,
  Returns-pure, Returns-Anything, Anything,
}
use opencord.Network.Live.{Input}
use opencord.Network.Session.{
  expect_channels, expect_inventories, expect_requests, of_shared, seal_channels, local_channels,
  merge_channels, synchronize, run_authenticated_session,
}
use opencord.Network.Session.Outgoing.{
  IsShared, IsDiscreet, Discreet, discreet, send-Discreet, seal_channel-Returns, receive-Discreet,
}
use opencord.Network.Session.Sends.{
  send_requested_events-Discreet, receive_requested_events-Discreet,
}
use opencord.Network.Session.Talks.{
  find_group-Discreet, seal_channel-Discreet, open_channel-Discreet, live_loop-Discreet,
}

members : (shared : List GroupId) → All (IsShared shared) shared
members [] = tt
members (g ∷ gs) = (ground arith, All-map _ _ gs (λ y k. ground arith) (members gs))

channels-group : (id : GroupId) (s : _) → All (λ ch. (ch.group_id == id) ≡ true) (channels id s)
unfolding channels
channels-group id s = All-order_by _ _ _ (All-filterb-true (λ ch. ch.group_id == id) s.channels)

module _ (x : Context) (shared : List GroupId) (sent : List Wire) (said : List VoiceDatagram) where
  -- Sealed metadata of shared groups.
  abbrev AreShared : List VoiceDatagram → Type 0
  AreShared = All (λ d. IsShared shared d.group_id)

  seal_channels-Returns :
      (chs : List Channel) (g : Group)
      → All (λ ch. IsShared shared ch.group_id) chs
      → Returns AreShared (seal_channels x chs g)
  unfolding seal_channels
  seal_channels-Returns [] g h = Returns-pure _ _ tt
  seal_channels-Returns (ch ∷ chs) g h = Returns-bind _ _ _ _ (seal_channel-Returns x ch g) (λ d e.
      Returns-bind _ _ _ _ (seal_channels-Returns chs g h.1)
        (λ ds k. Returns-pure _ _ (subst (IsShared shared) (sym e) h.0, k)))

  local_channels-Returns :
      (ids : List GroupId) → All (IsShared shared) ids → Returns AreShared (local_channels x ids)
  unfolding local_channels
  local_channels-Returns [] h = Returns-pure _ _ tt
  local_channels-Returns (id ∷ ids) h = Returns-bind Anything _ _ _ (Returns-Anything _) (λ g _.
      Returns-bind (All (λ ch. IsShared shared ch.group_id)) _ _ _
        (Returns-read_store _ _ (λ s chs e.
          subst (All (λ ch. IsShared shared ch.group_id)) (ok-injective e) (
            All-map _ _ (channels id s)
              (λ ch k. subst (IsShared shared) (sym ((==_iff ch.group_id id).0 k)) h.0)
              (channels-group id s))))
        (λ chs all. Returns-bind _ _ _ _ (seal_channels-Returns chs g all) (λ ds k.
          Returns-bind _ _ _ _ (local_channels-Returns ids h.1)
            (λ rest l. Returns-pure _ _ (All-append _ ds rest k l)))))

  seal_channels-Discreet :
      (chs : List Channel) (g : Group) → Discreet shared sent said (seal_channels x chs g)
  unfolding seal_channels
  seal_channels-Discreet [] g = search discreet
  seal_channels-Discreet (ch ∷ chs) g =
      search (discreet, seal_channel-Discreet, seal_channels-Discreet chs g)

  local_channels-Discreet : (ids : List GroupId) → Discreet shared sent said (local_channels x ids)
  unfolding local_channels
  local_channels-Discreet [] = search discreet
  local_channels-Discreet (id ∷ ids) =
      search (discreet, find_group-Discreet, seal_channels-Discreet, local_channels-Discreet ids)
        depth 12

  merge_channels-Discreet :
      (ds : List VoiceDatagram) → Discreet shared sent said (merge_channels x shared ds)
  unfolding merge_channels
  merge_channels-Discreet [] = search discreet
  merge_channels-Discreet (d ∷ ds) =
      search (discreet, open_channel-Discreet, merge_channels-Discreet ds) depth 12

  expect_channels-Discreet : (w : Wire) → Discreet shared sent said (expect_channels w)
  unfolding expect_channels
  expect_channels-Discreet (hello _) = search discreet
  expect_channels-Discreet (group_proofs _) = search discreet
  expect_channels-Discreet (Wire.channels _) = search discreet
  expect_channels-Discreet (Wire.inventories _) = search discreet
  expect_channels-Discreet (requests _) = search discreet
  expect_channels-Discreet (event_batch _) = search discreet
  expect_channels-Discreet sync_done = search discreet
  expect_channels-Discreet (live_event _) = search discreet
  expect_channels-Discreet (channel_upsert _) = search discreet
  expect_channels-Discreet (screen_frame _) = search discreet
  expect_channels-Discreet (ping _) = search discreet
  expect_channels-Discreet (pong _) = search discreet

  expect_inventories-Discreet : (w : Wire) → Discreet shared sent said (expect_inventories w)
  unfolding expect_inventories
  expect_inventories-Discreet (hello _) = search discreet
  expect_inventories-Discreet (group_proofs _) = search discreet
  expect_inventories-Discreet (Wire.channels _) = search discreet
  expect_inventories-Discreet (Wire.inventories _) = search discreet
  expect_inventories-Discreet (requests _) = search discreet
  expect_inventories-Discreet (event_batch _) = search discreet
  expect_inventories-Discreet sync_done = search discreet
  expect_inventories-Discreet (live_event _) = search discreet
  expect_inventories-Discreet (channel_upsert _) = search discreet
  expect_inventories-Discreet (screen_frame _) = search discreet
  expect_inventories-Discreet (ping _) = search discreet
  expect_inventories-Discreet (pong _) = search discreet

  expect_requests-Discreet : (w : Wire) → Discreet shared sent said (expect_requests w)
  unfolding expect_requests
  expect_requests-Discreet (hello _) = search discreet
  expect_requests-Discreet (group_proofs _) = search discreet
  expect_requests-Discreet (Wire.channels _) = search discreet
  expect_requests-Discreet (Wire.inventories _) = search discreet
  expect_requests-Discreet (requests _) = search discreet
  expect_requests-Discreet (event_batch _) = search discreet
  expect_requests-Discreet sync_done = search discreet
  expect_requests-Discreet (live_event _) = search discreet
  expect_requests-Discreet (channel_upsert _) = search discreet
  expect_requests-Discreet (screen_frame _) = search discreet
  expect_requests-Discreet (ping _) = search discreet
  expect_requests-Discreet (pong _) = search discreet

  synchronize-Discreet : (h : PeerHello) → Discreet shared sent said (synchronize x h shared)
  unfolding synchronize Returns
  synchronize-Discreet h =
      Holds-bind_where _ AreShared _ _ (local_channels-Discreet shared)
        (local_channels-Returns shared (members shared))
        (λ metadata about.
          Holds-bind _ _ _ (send-Discreet shared sent said x (Wire.channels metadata) about) (λ _.
            Holds-bind _ _ _ (receive-Discreet shared sent said) (λ frame.
              Holds-bind _ _ _ (expect_channels-Discreet frame) (λ remote_channels.
                Holds-bind _ _ _ (merge_channels-Discreet remote_channels) (λ _.
                  Holds-read_bind _ _ _ (λ s local local_is.
                    Holds-bind _ _ _
                      (send-Discreet shared sent said x (Wire.inventories local) (
                        subst (All (λ i. IsShared shared i.group_id)) (ok-injective local_is)
                          (All-filterb-true (λ i. member i.group_id shared) _)))
                      (λ _. Holds-bind _ _ _ (receive-Discreet shared sent said) (λ frame'.
                        Holds-bind _ _ _ (expect_inventories-Discreet frame') (λ remote.
                          Holds-bind _ _ _
                            (send-Discreet shared sent said x
                              (requests (missing_ranges local (of_shared shared remote)))
                              (missing_ranges-All (IsShared shared) local (of_shared shared remote)
                                (All-filterb-true (λ i. member i.group_id shared) remote)))
                            (λ _.
                              search
                                (
                                  discreet, expect_requests-Discreet,
                                  send_requested_events-Discreet, receive_requested_events-Discreet,
                                )
                                depth 12))))))))))

module _ (x : Context) (shared : List GroupId) where
  -- Whatever the peer sends and the inputs are, and however an authenticated session goes on: it
  -- only adds to what was written before it, and every record and voice datagram that it adds
  -- names no groups but those that were found to be shared, group proofs included. What
  -- `run_session` writes before it, the proofs of all local groups among them, is not meant.
  pub run_authenticated_session-IsDiscreet :
      (h : PeerHello) (is : List Input) (t : Task)
      → IsDiscreet shared t.outbox t.datagrams (run_authenticated_session x h shared is t).1
  unfolding run_authenticated_session Holds
  run_authenticated_session-IsDiscreet h is t =
      Holds-bind (IsDiscreet shared t.outbox t.datagrams) _ _
        (synchronize-Discreet x shared t.outbox t.datagrams h)
        (λ _. live_loop-Discreet x shared t.outbox t.datagrams h is) t
        (record {
          frames = [];
          frames_is = sym (append-nil t.outbox);
          about = tt;
          voices = [];
          voices_is = sym (append-nil t.datagrams);
          named = tt;
        })
