-- ===== src/Network/Session/Rounds.antt =====
-- The store under the rounds of the live loop of src/network.rs, whether they succeed or fail.
use opencord.Base.{refl, Bool, true, false, List, [], ◌∷◌, none, some}
use opencord.Model.{GroupId, Group, Channel, Bytes}
use opencord.Store.Reach.{receives, merges_channel}
use opencord.Network.Session.Keeps.{Kept-same, Keeps, keeps, Keeps-write}
use opencord.Network.Wire.{
  hello, group_proofs, channels, inventories, requests, event_batch, sync_done, live_event,
  channel_upsert, screen_frame, ping, pong, Wire, PeerHello, WireEvent, VoiceDatagram, LiveEvent,
  VoicePacket, ScreenPacket,
}
use opencord.Network.Task.{
  Context, publish_event, publish_channel, deliver_voice, deliver_screen, send_datagram,
}
use opencord.Network.Live.{
  find_group, seal, open_channel, seal_channel, publish_if_fresh, publish_if_merged, handle_frame,
  forward_event, forward_voice, forward_channel, forward_screen, open_datagram, handle_datagram,
  round, live_loop, Input, incoming, live, voice, metadata, screen, datagram, tick, received,
  lagged, closed,
}
use opencord.Crates.{Crates}

module _ (c : Crates) where
  publish_event-Keeps : (e : LiveEvent) → Keeps c (publish_event e)
  unfolding Keeps publish_event
  publish_event-Keeps e t = Kept-same c t _ refl refl

  publish_channel-Keeps : (e : Channel) → Keeps c (publish_channel e)
  unfolding Keeps publish_channel
  publish_channel-Keeps e t = Kept-same c t _ refl refl

  deliver_voice-Keeps : (v : _) → Keeps c (deliver_voice v)
  unfolding Keeps deliver_voice
  deliver_voice-Keeps v t = Kept-same c t _ refl refl

  deliver_screen-Keeps : (v : _) → Keeps c (deliver_screen v)
  unfolding Keeps deliver_screen
  deliver_screen-Keeps v t = Kept-same c t _ refl refl

  send_datagram-Keeps : (d : VoiceDatagram) → Keeps c (send_datagram d)
  unfolding Keeps send_datagram
  send_datagram-Keeps d t = Kept-same c t _ refl refl

module _ (x : Context) where
  pub find_group-Keeps : (id : GroupId) → Keeps x.net.crates (find_group x id)
  unfolding find_group
  find_group-Keeps id = search keeps

  seal-Keeps : (id : GroupId) (g : Group) (bytes : Bytes) → Keeps x.net.crates (seal x id g bytes)
  unfolding seal
  seal-Keeps id g bytes = search keeps

  pub open_channel-Keeps :
      (shared : List GroupId) (d : VoiceDatagram) → Keeps x.net.crates (open_channel x shared d)
  unfolding open_channel
  open_channel-Keeps shared d = search (keeps, find_group-Keeps) depth 12

  pub seal_channel-Keeps : (ch : Channel) (g : Group) → Keeps x.net.crates (seal_channel x ch g)
  unfolding seal_channel
  seal_channel-Keeps ch g = search (keeps, seal-Keeps)

  publish_if_fresh-Keeps : (b : Bool) (w : WireEvent) → Keeps x.net.crates (publish_if_fresh x b w)
  unfolding publish_if_fresh
  publish_if_fresh-Keeps true w = search (keeps, publish_event-Keeps)
  publish_if_fresh-Keeps false w = search keeps

  publish_if_merged-Keeps :
      (b : Bool) (ch : Channel) → Keeps x.net.crates (publish_if_merged x b ch)
  unfolding publish_if_merged
  publish_if_merged-Keeps true ch = search (keeps, publish_channel-Keeps)
  publish_if_merged-Keeps false ch = search keeps

  handle_frame-Keeps :
      (h : PeerHello) (shared : List GroupId) (w : Wire)
      → Keeps x.net.crates (handle_frame x h shared w)
  unfolding handle_frame
  handle_frame-Keeps h shared (live_event w) =
      search (keeps, Keeps-write, receives, publish_if_fresh-Keeps) depth 12
  handle_frame-Keeps h shared (channel_upsert d) =
      search (keeps, open_channel-Keeps, Keeps-write, merges_channel, publish_if_merged-Keeps) depth
        12
  handle_frame-Keeps h shared (screen_frame d) =
      search (keeps, find_group-Keeps, deliver_screen-Keeps) depth 12
  handle_frame-Keeps h shared (ping at) = search keeps
  handle_frame-Keeps h shared (pong at) = search keeps
  handle_frame-Keeps h shared (hello _) = search keeps
  handle_frame-Keeps h shared (group_proofs _) = search keeps
  handle_frame-Keeps h shared (channels _) = search keeps
  handle_frame-Keeps h shared (inventories _) = search keeps
  handle_frame-Keeps h shared (requests _) = search keeps
  handle_frame-Keeps h shared (event_batch _) = search keeps
  handle_frame-Keeps h shared sync_done = search keeps

  forward-Keeps :
      (h : PeerHello) (shared : List GroupId) (e : LiveEvent)
      → Keeps x.net.crates (forward_event x h shared e)
  unfolding forward_event
  forward-Keeps h shared e = search keeps

  forward_voice-Keeps :
      (shared : List GroupId) (p : VoicePacket) → Keeps x.net.crates (forward_voice x shared p)
  unfolding forward_voice
  forward_voice-Keeps shared p =
      search (keeps, find_group-Keeps, seal-Keeps, send_datagram-Keeps) depth 12

  forward_channel-Keeps :
      (shared : List GroupId) (ch : Channel) → Keeps x.net.crates (forward_channel x shared ch)
  unfolding forward_channel
  forward_channel-Keeps shared ch = search (keeps, find_group-Keeps, seal_channel-Keeps) depth 12

  forward_screen-Keeps :
      (shared : List GroupId) (p : ScreenPacket) → Keeps x.net.crates (forward_screen x shared p)
  unfolding forward_screen
  forward_screen-Keeps shared p = search (keeps, find_group-Keeps, seal-Keeps) depth 12

  open_datagram-Keeps :
      (h : PeerHello) (shared : List GroupId) (bytes : Bytes)
      → Keeps x.net.crates (open_datagram x h shared bytes)
  unfolding open_datagram
  open_datagram-Keeps h shared bytes =
      search (keeps, find_group-Keeps, deliver_voice-Keeps) depth 12

  handle_datagram-Keeps :
      (h : PeerHello) (shared : List GroupId) (bytes : Bytes)
      → Keeps x.net.crates (handle_datagram x h shared bytes)
  unfolding handle_datagram
  handle_datagram-Keeps h shared [] = search keeps
  handle_datagram-Keeps h shared (b ∷ bytes) = search (keeps, open_datagram-Keeps)

  round-Keeps :
      (h : PeerHello) (shared : List GroupId) (i : Input) → Keeps x.net.crates (round x h shared i)
  unfolding round
  round-Keeps h shared incoming = search (keeps, handle_frame-Keeps)
  round-Keeps h shared (live (received e)) = search (keeps, forward-Keeps)
  round-Keeps h shared (live lagged) = search keeps
  round-Keeps h shared (live closed) = search keeps
  round-Keeps h shared (voice (received p)) = search (keeps, forward_voice-Keeps)
  round-Keeps h shared (voice lagged) = search keeps
  round-Keeps h shared (voice closed) = search keeps
  round-Keeps h shared (metadata (received ch)) = search (keeps, forward_channel-Keeps)
  round-Keeps h shared (metadata lagged) = search keeps
  round-Keeps h shared (metadata closed) = search keeps
  round-Keeps h shared (screen (received p)) = search (keeps, forward_screen-Keeps)
  round-Keeps h shared (screen lagged) = search keeps
  round-Keeps h shared (screen closed) = search keeps
  round-Keeps h shared (datagram (some bytes)) = search (keeps, handle_datagram-Keeps)
  round-Keeps h shared (datagram none) = search keeps
  round-Keeps h shared tick = search keeps

  pub live_loop-Keeps :
      (h : PeerHello) (shared : List GroupId) (is : List Input)
      → Keeps x.net.crates (live_loop x h shared is)
  unfolding live_loop
  live_loop-Keeps h shared [] = search keeps
  live_loop-Keeps h shared (i ∷ is) = search (keeps, round-Keeps, live_loop-Keeps h shared is)
