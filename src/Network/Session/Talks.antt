-- ===== src/Network/Session/Talks.antt =====
-- What the rounds of the live loop of src/network.rs write names shared groups only.
use opencord.Base.{◌≡◌, sym, subst, Bool, true, false, ◌&&◌, List, [], ◌∷◌, none, some, arith}
use opencord.Model.{GroupId, Group, Channel, Bytes}
use opencord.Network.Wire.{
  Wire, WireEvent, VoiceDatagram, LiveEvent, VoicePacket, ScreenPacket, PeerHello, hello,
  group_proofs, channels, inventories, requests, event_batch, sync_done, live_event, channel_upsert,
  screen_frame, ping, pong,
}
use opencord.Network.Task.{Context, M, ◌>>=◌}
use opencord.Network.Task.Holds.{Holds-bind_where, Holds-bind, Holds-when, Returns}
use opencord.Network.Live.{
  find_group, seal, open_channel, seal_channel, publish_if_fresh, publish_if_merged, handle_frame,
  forward_event, forward_voice, forward_channel, forward_screen, open_datagram, handle_datagram,
  round, live_loop, Input, incoming, live, voice, metadata, screen, datagram, tick, received,
  lagged, closed,
}
use opencord.Network.Session.Outgoing.{
  IsShared, Discreet, discreet, send-Discreet, now-Discreet, send_datagram-Discreet, seal-Returns,
  seal_channel-Returns,
}

and_left : (a b : Bool) → (a && b) ≡ true → a ≡ true
and_left a b h = ground arith

module _ (x : Context) (shared : List GroupId) (sent : List Wire) (said : List VoiceDatagram) where
  pub find_group-Discreet : (id : GroupId) → Discreet shared sent said (find_group x id)
  unfolding find_group
  find_group-Discreet id = search discreet

  seal-Discreet :
      (id : GroupId) (g : Group) (bytes : Bytes) → Discreet shared sent said (seal x id g bytes)
  unfolding seal
  seal-Discreet id g bytes = search discreet

  pub seal_channel-Discreet :
      (ch : Channel) (g : Group) → Discreet shared sent said (seal_channel x ch g)
  unfolding seal_channel
  seal_channel-Discreet ch g = search (discreet, seal-Discreet)

  pub open_channel-Discreet :
      (d : VoiceDatagram) → Discreet shared sent said (open_channel x shared d)
  unfolding open_channel
  open_channel-Discreet d = search (discreet, find_group-Discreet) depth 12

  publish_if_fresh-Discreet :
      (b : Bool) (w : WireEvent) → Discreet shared sent said (publish_if_fresh x b w)
  unfolding publish_if_fresh
  publish_if_fresh-Discreet true w = search discreet
  publish_if_fresh-Discreet false w = search discreet

  publish_if_merged-Discreet :
      (b : Bool) (ch : Channel) → Discreet shared sent said (publish_if_merged x b ch)
  unfolding publish_if_merged
  publish_if_merged-Discreet true ch = search discreet
  publish_if_merged-Discreet false ch = search discreet

  handle_frame-Discreet :
      (h : PeerHello) (w : Wire) → Discreet shared sent said (handle_frame x h shared w)
  unfolding handle_frame
  handle_frame-Discreet h (live_event w) = search (discreet, publish_if_fresh-Discreet) depth 12
  handle_frame-Discreet h (channel_upsert d) =
      search (discreet, open_channel-Discreet, publish_if_merged-Discreet) depth 12
  handle_frame-Discreet h (screen_frame d) = search (discreet, find_group-Discreet) depth 12
  handle_frame-Discreet h (ping at) = send-Discreet shared sent said x (pong at) tt
  handle_frame-Discreet h (hello _) = search discreet
  handle_frame-Discreet h (group_proofs _) = search discreet
  handle_frame-Discreet h (channels _) = search discreet
  handle_frame-Discreet h (inventories _) = search discreet
  handle_frame-Discreet h (requests _) = search discreet
  handle_frame-Discreet h (event_batch _) = search discreet
  handle_frame-Discreet h sync_done = search discreet
  handle_frame-Discreet h (pong _) = search discreet

  forward_event-Discreet :
      (h : PeerHello) (e : LiveEvent) → Discreet shared sent said (forward_event x h shared e)
  unfolding forward_event
  forward_event-Discreet h e =
      Holds-when _ _ _ (λ allowed. send-Discreet shared sent said x _ (and_left _ _ allowed))

  -- A datagram or frame that is sealed for a shared group may be written.
  seal_bind-Discreet :
      {B : Type 0} (id : GroupId) (g : Group) (bytes : Bytes) (f : VoiceDatagram → M B)
      → IsShared shared id
      → ((d : VoiceDatagram) → IsShared shared d.group_id → Discreet shared sent said (f d))
      → Discreet shared sent said (seal x id g bytes >>= f)
  unfolding Returns
  seal_bind-Discreet id g bytes f h k =
      Holds-bind_where _ (λ d. d.group_id ≡ id) _ _ (seal-Discreet id g bytes)
        (seal-Returns x id g bytes) (λ d e. k d (subst (IsShared shared) (sym e) h))

  pub seal_channel_bind-Discreet :
      {B : Type 0} (ch : Channel) (g : Group) (f : VoiceDatagram → M B)
      → IsShared shared ch.group_id
      → ((d : VoiceDatagram) → IsShared shared d.group_id → Discreet shared sent said (f d))
      → Discreet shared sent said (seal_channel x ch g >>= f)
  unfolding Returns
  seal_channel_bind-Discreet ch g f h k =
      Holds-bind_where _ (λ d. d.group_id ≡ ch.group_id) _ _ (seal_channel-Discreet ch g)
        (seal_channel-Returns x ch g) (λ d e. k d (subst (IsShared shared) (sym e) h))

  forward_voice-Discreet : (p : VoicePacket) → Discreet shared sent said (forward_voice x shared p)
  unfolding forward_voice
  forward_voice-Discreet p = Holds-when _ _ _ (λ h.
      Holds-bind _ _ _ (find_group-Discreet p.group_id) (λ g.
        seal_bind-Discreet p.group_id g p.bytes _ h
          (λ d k. search (discreet, send_datagram-Discreet))))

  forward_channel-Discreet :
      (ch : Channel) → Discreet shared sent said (forward_channel x shared ch)
  unfolding forward_channel
  forward_channel-Discreet ch = Holds-when _ _ _ (λ h.
      Holds-bind _ _ _ (find_group-Discreet ch.group_id) (λ g.
        seal_channel_bind-Discreet ch g _ h
          (λ d k. send-Discreet shared sent said x (channel_upsert d) k)))

  forward_screen-Discreet :
      (p : ScreenPacket) → Discreet shared sent said (forward_screen x shared p)
  unfolding forward_screen
  forward_screen-Discreet p = Holds-when _ _ _ (λ h.
      Holds-bind _ _ _ (find_group-Discreet p.group_id) (λ g.
        seal_bind-Discreet p.group_id g p.jpeg _ h
          (λ d k. send-Discreet shared sent said x (screen_frame d) k)))

  open_datagram-Discreet :
      (h : PeerHello) (bytes : Bytes) → Discreet shared sent said (open_datagram x h shared bytes)
  unfolding open_datagram
  open_datagram-Discreet h bytes = search (discreet, find_group-Discreet) depth 14

  handle_datagram-Discreet :
      (h : PeerHello) (bytes : Bytes) → Discreet shared sent said (handle_datagram x h shared bytes)
  unfolding handle_datagram
  handle_datagram-Discreet h [] = search discreet
  handle_datagram-Discreet h (b ∷ bytes) = search (discreet, open_datagram-Discreet)

  round-Discreet : (h : PeerHello) (i : Input) → Discreet shared sent said (round x h shared i)
  unfolding round
  round-Discreet h incoming = search (discreet, handle_frame-Discreet)
  round-Discreet h (live (received e)) = search (discreet, forward_event-Discreet)
  round-Discreet h (live lagged) = search discreet
  round-Discreet h (live closed) = search discreet
  round-Discreet h (voice (received p)) = search (discreet, forward_voice-Discreet)
  round-Discreet h (voice lagged) = search discreet
  round-Discreet h (voice closed) = search discreet
  round-Discreet h (metadata (received ch)) = search (discreet, forward_channel-Discreet)
  round-Discreet h (metadata lagged) = search discreet
  round-Discreet h (metadata closed) = search discreet
  round-Discreet h (screen (received p)) = search (discreet, forward_screen-Discreet)
  round-Discreet h (screen lagged) = search discreet
  round-Discreet h (screen closed) = search discreet
  round-Discreet h (datagram (some bytes)) = search (discreet, handle_datagram-Discreet)
  round-Discreet h (datagram none) = search discreet
  round-Discreet h tick = Holds-bind _ _ _ (now-Discreet shared sent said x) (λ at.
      Holds-bind _ _ _ (send-Discreet shared sent said x (ping at) tt) (λ _. search discreet))

  pub live_loop-Discreet :
      (h : PeerHello) (is : List Input) → Discreet shared sent said (live_loop x h shared is)
  unfolding live_loop
  live_loop-Discreet h [] = search discreet
  live_loop-Discreet h (i ∷ is) = search (discreet, round-Discreet, live_loop-Discreet h is)
