-- ===== src/Network/Session/Transfers.antt =====
-- The store under the transfer of events in src/network.rs, whether it succeeds or fails.
use opencord.Base.{length, ℕ, zero, suc, Bool, true, false, List, [], ◌∷◌}
use opencord.Model.{GroupId, EventEnvelope}
use opencord.Store.Reach.{receives}
use opencord.Network.Session.Keeps.{Keeps, keeps, Keeps-write}
use opencord.Network.Wire.{
  hello, group_proofs, channels, inventories, requests, event_batch, sync_done, live_event,
  channel_upsert, screen_frame, ping, pong, Wire, RangeRequest, PeerHello, WireEvent,
}
use opencord.Network.Task.{Context}
use opencord.Network.Transfer.{
  send_batch_if, send_page, send_range, send_ranges, send_requested_events, bump_if, store_batch,
  receive_one, receive_rounds, receive_requested_events,
}

module _ (x : Context) where
  send_batch_if-Keeps :
      (b : Bool) (batch : List WireEvent) → Keeps x.net.crates (send_batch_if x b batch)
  unfolding send_batch_if
  send_batch_if-Keeps true batch = search keeps
  send_batch_if-Keeps false batch = search keeps

  send_page-Keeps :
      (events : List EventEnvelope) (cursor : ℕ) (batch : List WireEvent) (bytes : ℕ)
      → Keeps x.net.crates (send_page x events cursor batch bytes)
  unfolding send_page
  send_page-Keeps [] cursor batch bytes = search (keeps, send_batch_if-Keeps)
  send_page-Keeps (e ∷ es) cursor batch bytes =
      search (keeps, send_batch_if-Keeps, send_page-Keeps es)

  send_range-Keeps :
      (fuel : ℕ) (r : RangeRequest) (cursor : ℕ) → Keeps x.net.crates (send_range x fuel r cursor)
  unfolding send_range
  send_range-Keeps zero r cursor = search keeps
  send_range-Keeps (suc fuel) r cursor =
      search (keeps, send_page-Keeps, send_range-Keeps fuel) depth 12

  send_ranges-Keeps :
      (shared : List GroupId) (rs : List RangeRequest)
      → Keeps x.net.crates (send_ranges x shared rs)
  unfolding send_ranges
  send_ranges-Keeps shared [] = search keeps
  send_ranges-Keeps shared (r ∷ rs) =
      search (keeps, send_range-Keeps, send_ranges-Keeps shared rs) depth 12

  bump_if-Keeps : (b : Bool) → Keeps x.net.crates (bump_if x b)
  unfolding bump_if
  bump_if-Keeps true = search keeps
  bump_if-Keeps false = search keeps

  store_batch-Keeps :
      (h : PeerHello) (ws : List WireEvent) → Keeps x.net.crates (store_batch x h ws)
  unfolding store_batch
  store_batch-Keeps h [] = search keeps
  store_batch-Keeps h (w ∷ ws) =
      search (keeps, bump_if-Keeps, Keeps-write, receives, store_batch-Keeps h ws) depth 12

  receive_one-Keeps : (h : PeerHello) (w : Wire) → Keeps x.net.crates (receive_one x h w)
  unfolding receive_one
  receive_one-Keeps h (event_batch events) = search (keeps, store_batch-Keeps)
  receive_one-Keeps h (hello _) = search keeps
  receive_one-Keeps h (group_proofs _) = search keeps
  receive_one-Keeps h (channels _) = search keeps
  receive_one-Keeps h (inventories _) = search keeps
  receive_one-Keeps h (requests _) = search keeps
  receive_one-Keeps h sync_done = search keeps
  receive_one-Keeps h (live_event _) = search keeps
  receive_one-Keeps h (channel_upsert _) = search keeps
  receive_one-Keeps h (screen_frame _) = search keeps
  receive_one-Keeps h (ping _) = search keeps
  receive_one-Keeps h (pong _) = search keeps

  receive_rounds-Keeps : (fuel : ℕ) (h : PeerHello) → Keeps x.net.crates (receive_rounds x fuel h)
  unfolding receive_rounds
  receive_rounds-Keeps zero h = search keeps
  receive_rounds-Keeps (suc fuel) h = search (keeps, receive_one-Keeps, receive_rounds-Keeps fuel)

  pub send_requested_events-Keeps :
      (shared : List GroupId) (rs : List RangeRequest)
      → Keeps x.net.crates (send_requested_events x shared rs)
  unfolding send_requested_events
  send_requested_events-Keeps shared rs = search (keeps, send_ranges-Keeps)

  pub receive_requested_events-Keeps :
      (h : PeerHello) → Keeps x.net.crates (receive_requested_events x h)
  unfolding receive_requested_events Keeps
  receive_requested_events-Keeps h t = receive_rounds-Keeps (suc (length t.inbox)) h t
