-- ===== src/Network/Live.antt =====
-- The loop of `run_authenticated_session` in src/network.rs once the logs are exchanged: each round
-- is one branch of its `select!`. A frame is read whole: that another branch can drop a frame that is
-- half read is not modelled.
use opencord.Base.{
  ℕ, ◌+◌, ◌*◌, ◌==◌, ◌&&◌, Bool, true, false, not, List, [], ◌∷◌, Option, none, some, leb, length,
  or_error, encode, decode, read_frame, unauthorized_group, shared_group_disappeared,
  channel_group_mismatch, screen_frame_too_long, unexpected_record,
}
use opencord.Model.{Bytes, GroupId, Group, Channel}
use opencord.Store.Groups.{group, merge_channel}
use opencord.Store.Events.{insert_remote_event}
use opencord.Network.State.{bump}
use opencord.Network.Wire.{
  Wire, WireEvent, PeerHello, VoiceDatagram, LiveEvent, VoicePacket, ScreenPacket, live_event,
  channel_upsert, screen_frame, ping, pong,
}
use opencord.Network.Handshake.{member, seal_voice, open_voice}
use opencord.Network.Task.{
  Context, M, ◌>>=◌, ◌>>◌, pure, lift, check, fail, read_store, write_store, change_state, receive,
  send, now, draw, when, publish_event, publish_channel, deliver_voice, deliver_screen,
  send_datagram,
}

-- `broadcast::Receiver::recv`
pub data Recv (A : Type 0) : Type 0 where
  received : A → Recv A
  lagged : Recv A
  closed : Recv A

-- What a round of the loop finds first.
pub data Input : Type 0 where
  incoming : Input
  live : Recv LiveEvent → Input
  voice : Recv VoicePacket → Input
  metadata : Recv Channel → Input
  screen : Recv ScreenPacket → Input
  datagram : Option Bytes → Input
  tick : Input

module _ (x : Context) where
  -- `store.lock().group(id)?.context(..)?`
  unfoldable pub find_group : GroupId → M Group
  find_group id = read_store (λ s. or_error (group id s) shared_group_disappeared)

  -- `seal_voice(..)?`, with its drawn nonce
  unfoldable pub seal : GroupId → Group → Bytes → M VoiceDatagram
  seal id g bytes = do nonce ← draw x; lift (seal_voice x.net id g.secret bytes nonce)

  -- The channel that a peer's encrypted metadata holds.
  unfoldable pub open_channel : List GroupId → VoiceDatagram → M Channel
  open_channel shared encrypted = do
    check (member encrypted.group_id shared) unauthorized_group
    g ← find_group encrypted.group_id
    bytes ← lift (open_voice x.net encrypted g.secret)
    channel ← lift (or_error (x.net.crates.channel.from_bytes bytes) decode)
    check (channel.group_id == encrypted.group_id) channel_group_mismatch
    pure channel

  -- A channel's metadata, encoded and encrypted.
  unfoldable pub seal_channel : Channel → Group → M VoiceDatagram
  seal_channel channel g = do
    bytes ← lift (or_error (x.net.crates.channel.to_stdvec channel) encode)
    seal channel.group_id g bytes

  unfoldable pub publish_if_fresh : Bool → WireEvent → M (Unit {0})
  publish_if_fresh true w = do
    change_state bump
    publish_event (record { event = w.event; author_name = w.author_name })
  publish_if_fresh false w = pure tt

  unfoldable pub publish_if_merged : Bool → Channel → M (Unit {0})
  publish_if_merged true channel = do change_state bump; publish_channel channel
  publish_if_merged false channel = pure tt

  -- The `match incoming?`.
  unfoldable pub handle_frame : PeerHello → List GroupId → Wire → M (Unit {0})
  handle_frame hello shared (live_event w) = do
    check (member w.event.header.group_id shared) unauthorized_group
    at ← now x
    fresh ← write_store (insert_remote_event x.net.crates w.event w.author_name at)
    publish_if_fresh fresh w
  handle_frame hello shared (channel_upsert encrypted) = do
    channel ← open_channel shared encrypted
    merged ← write_store (merge_channel channel)
    publish_if_merged merged channel
  handle_frame hello shared (screen_frame encrypted) = do
    check (member encrypted.group_id shared) unauthorized_group
    g ← find_group encrypted.group_id
    jpeg ← lift (open_voice x.net encrypted g.secret)
    check (leb (length jpeg) (4 * 1024 * 1024)) screen_frame_too_long
    deliver_screen (record { peer = hello.body.peer; group_id = encrypted.group_id; jpeg = jpeg })
    change_state bump
  handle_frame hello shared (ping sent_at_ms) = send x (pong sent_at_ms)
  handle_frame hello shared (pong sent_at_ms) = pure tt
  handle_frame hello shared _ = fail unexpected_record

  unfoldable pub forward_event : PeerHello → List GroupId → LiveEvent → M (Unit {0})
  forward_event hello shared e =
      when (member e.event.header.group_id shared && not (e.event.header.author == hello.body.peer))
        (send x (live_event (record { event = e.event; author_name = e.author_name })))

  -- `datagram.len() <= connection.max_datagram_size().unwrap_or(0)`, with the byte put in front
  unfoldable pub fits : Bytes → Option ℕ → Bool
  fits encoded none = leb (1 + length encoded) 0
  fits encoded (some most) = leb (1 + length encoded) most

  unfoldable pub forward_voice : List GroupId → VoicePacket → M (Unit {0})
  forward_voice shared packet = when (member packet.group_id shared) (do
    g ← find_group packet.group_id
    encrypted ← seal packet.group_id g packet.bytes
    encoded ← lift (or_error (x.net.voice_codec.to_stdvec encrypted) encode)
    when (fits encoded x.max_datagram_size) (send_datagram encrypted))

  unfoldable pub forward_channel : List GroupId → Channel → M (Unit {0})
  forward_channel shared channel = when (member channel.group_id shared) (do
    g ← find_group channel.group_id
    encrypted ← seal_channel channel g
    send x (channel_upsert encrypted))

  unfoldable pub forward_screen : List GroupId → ScreenPacket → M (Unit {0})
  forward_screen shared packet = when (member packet.group_id shared) (do
    g ← find_group packet.group_id
    encrypted ← seal packet.group_id g packet.jpeg
    send x (screen_frame encrypted))

  unfoldable pub open_datagram : PeerHello → List GroupId → Bytes → M (Unit {0})
  open_datagram hello shared bytes = do
    encrypted ← lift (or_error (x.net.voice_codec.from_bytes bytes) decode)
    when (member encrypted.group_id shared) (do
      g ← find_group encrypted.group_id
      opened ← lift (open_voice x.net encrypted g.secret)
      deliver_voice
          (record { peer = hello.body.peer; group_id = encrypted.group_id; bytes = opened }))

  -- The branch of `read_datagram`, by the first byte.
  unfoldable pub handle_datagram : PeerHello → List GroupId → Bytes → M (Unit {0})
  handle_datagram hello shared [] = pure tt
  handle_datagram hello shared (b ∷ bytes) = when (b == 1) (open_datagram hello shared bytes)

  -- One round; the result tells whether the loop goes on.
  unfoldable pub round : PeerHello → List GroupId → Input → M Bool
  round hello shared incoming = do frame ← receive; handle_frame hello shared frame; pure true
  round hello shared (live (received e)) = do forward_event hello shared e; pure true
  round hello shared (live lagged) = pure true
  round hello shared (live closed) = pure false
  round hello shared (voice (received p)) = do forward_voice shared p; pure true
  round hello shared (voice _) = pure true
  round hello shared (metadata (received ch)) = do forward_channel shared ch; pure true
  round hello shared (metadata _) = pure true
  round hello shared (screen (received p)) = do forward_screen shared p; pure true
  round hello shared (screen _) = pure true
  round hello shared (datagram (some bytes)) = do handle_datagram hello shared bytes; pure true
  round hello shared (datagram none) = fail read_frame
  round hello shared tick = do at ← now x; send x (ping at); pure true

  -- The loop; after the last input the connection is lost.
  unfoldable pub live_loop : PeerHello → List GroupId → List Input → M (Unit {0})
  live_loop hello shared [] = fail read_frame
  live_loop hello shared (i ∷ is) = do
    more ← round hello shared i
    when more (live_loop hello shared is)
