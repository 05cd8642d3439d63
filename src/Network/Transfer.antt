-- ===== src/Network/Transfer.antt =====
-- `send_requested_events` and `receive_requested_events` of src/network.rs: the log ranges that the
-- peer asked for go out in batches, and the batches that the peer sends are stored.
use opencord.Base.{
  ℕ, zero, suc, ◌+◌, ◌*◌, Bool, true, false, not, ◌&&◌, List, [], ◌∷◌, ◌++◌, leb, ltb, ◌==◌,
  if◌then◌else◌, take, length, is_empty, ok, unauthorized_group, invalid_requested_range,
  unexpected_record, fuel_exhausted,
}
use opencord.Text.{Text, trim, byte_len}
use opencord.Model.{GroupId, EventEnvelope}
use opencord.Store.{next_u64}
use opencord.Store.Peers.{author_name}
use opencord.Store.Events.{events_range, insert_remote_event}
use opencord.Network.State.{bump}
use opencord.Network.Wire.{Wire, WireEvent, RangeRequest, PeerHello, event_batch, sync_done}
use opencord.Network.Handshake.{member}
use opencord.Network.Task.{
  Context, M, ◌>>=◌, ◌>>◌, pure, check, fail, read_store, write_store, change_state, receive, send,
  now, when,
}

abbrev pub sync_batch_bytes : ℕ
sync_batch_bytes = 12 * 1024 * 1024

-- The size that is reckoned for an event.
abbrev pub event_size : WireEvent → ℕ
event_size w = length w.event.ciphertext + length w.event.signature + byte_len w.author_name + 256

abbrev pub must_flush : List WireEvent → ℕ → WireEvent → Bool
must_flush batch bytes w = not (is_empty batch) && ltb sync_batch_bytes (bytes + event_size w)

module _ (x : Context) where
  unfoldable pub send_batch_if : Bool → List WireEvent → M (Unit {0})
  send_batch_if true batch = send x (event_batch batch)
  send_batch_if false batch = pure tt

  -- The loop over the events of one page, with the cursor, the batch and its bytes; it ends with the
  -- batch that is left, and returns the cursor.
  unfoldable pub send_page : List EventEnvelope → ℕ → List WireEvent → ℕ → M ℕ
  send_page [] cursor batch bytes = do send_batch_if (not (is_empty batch)) batch; pure cursor
  send_page (event ∷ events) cursor batch bytes = do
    name ← read_store (λ s. ok (author_name x.net.crates event.header.author s))
    let w : WireEvent = record { event = event; author_name = name }
    let flush : Bool = must_flush batch bytes w
    send_batch_if flush batch
    send_page events (next_u64 event.header.author_sequence)
        ((if flush then [] else batch) ++ w ∷ []) ((if flush then 0 else bytes) + event_size w)

  -- `while cursor <= request.last`. A page that is not empty moves the cursor, so as many rounds as
  -- there are stored events, and one more, are enough.
  unfoldable pub send_range : ℕ → RangeRequest → ℕ → M (Unit {0})
  send_range zero request cursor = fail fuel_exhausted
  send_range (suc fuel) request cursor = when (leb cursor request.last) (do
    events ← read_store (events_range request.group_id request.author cursor request.last)
    when (not (is_empty events)) (do
      cursor' ← send_page events cursor [] 0
      when (not (cursor' == 0)) (send_range fuel request cursor')))

  unfoldable pub send_ranges : List GroupId → List RangeRequest → M (Unit {0})
  send_ranges shared [] = pure tt
  send_ranges shared (request ∷ requests) = do
    check (member request.group_id shared) unauthorized_group
    check (ltb 0 request.first && leb request.first request.last) invalid_requested_range
    rounds ← read_store (λ s. ok (suc (length s.events)))
    send_range rounds request request.first
    send_ranges shared requests

  -- `send_requested_events`
  unfoldable pub send_requested_events : List GroupId → List RangeRequest → M (Unit {0})
  send_requested_events shared requests = do
    send_ranges shared (take 10000 requests)
    send x sync_done

  unfoldable pub bump_if : Bool → M (Unit {0})
  bump_if true = change_state bump
  bump_if false = pure tt

  -- The name under which an event of a batch is stored.
  abbrev pub name_for : PeerHello → WireEvent → Text
  name_for hello w =
      if is_empty (trim w.author_name) then hello.body.display_name else w.author_name

  unfoldable pub store_batch : PeerHello → List WireEvent → M (Unit {0})
  store_batch hello [] = pure tt
  store_batch hello (w ∷ ws) = do
    at ← now x
    fresh ← write_store (insert_remote_event x.net.crates w.event (name_for hello w) at)
    bump_if fresh
    store_batch hello ws

  unfoldable pub receive_one : PeerHello → Wire → M Bool
  receive_one hello (event_batch events) = do store_batch hello events; pure true
  receive_one hello sync_done = pure false
  receive_one hello _ = fail unexpected_record

  -- The loop of `receive_requested_events`: a round for each frame, so with more rounds than there
  -- are frames in the inbox it ends by itself or by a failed read.
  unfoldable pub receive_rounds : ℕ → PeerHello → M (Unit {0})
  receive_rounds zero hello = fail fuel_exhausted
  receive_rounds (suc fuel) hello = do
    frame ← receive
    more ← receive_one hello frame
    when more (receive_rounds fuel hello)

  -- `receive_requested_events`
  unfoldable pub receive_requested_events : PeerHello → M (Unit {0})
  receive_requested_events hello t = receive_rounds (suc (length t.inbox)) hello t
