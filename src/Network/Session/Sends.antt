-- ===== src/Network/Session/Sends.antt =====
-- What the transfer and the live loop of src/network.rs write names shared groups only.
use opencord.Base.{
  ℕ, zero, suc, ◌≡◌, sym, subst, Bool, true, false, ==_iff, List, [], ◌∷◌, All, All-append, ok,
  if◌then◌else◌, arith, length,
}
use opencord.Model.{GroupId, EventEnvelope}
use opencord.Store.{event_from_row}
use opencord.Store.Events.{events_range}
use opencord.Store.Range.{events_range-All}
use opencord.Network.Wire.{
  Wire, VoiceDatagram, WireEvent, RangeRequest, PeerHello, hello, group_proofs, channels,
  inventories, requests, event_batch, sync_done, live_event, channel_upsert, screen_frame, ping,
  pong,
}
use opencord.Network.Task.{Context}
use opencord.Network.Task.Holds.{Holds, Holds-bind, Holds-when, Holds-read_bind}
use opencord.Network.Transfer.{
  send_batch_if, send_page, send_range, send_ranges, send_requested_events, bump_if, store_batch,
  receive_one, receive_rounds, receive_requested_events, must_flush,
}
use opencord.Network.Session.Outgoing.{IsShared, Discreet, discreet, send-Discreet}

module _ (x : Context) (shared : List GroupId) (sent : List Wire) (said : List VoiceDatagram) where
  -- The events of a batch.
  abbrev AreShared : List WireEvent → Type 0
  AreShared = All (λ w. IsShared shared w.event.header.group_id)

  send_batch_if-Discreet :
      (b : Bool) (batch : List WireEvent)
      → AreShared batch
      → Discreet shared sent said (send_batch_if x b batch)
  unfolding send_batch_if
  send_batch_if-Discreet true batch h = send-Discreet shared sent said x (event_batch batch) h
  send_batch_if-Discreet false batch h = search (discreet)

  send_page-Discreet :
      (es : List EventEnvelope) (cursor : ℕ) (batch : List WireEvent) (bytes : ℕ)
      → All (λ e. IsShared shared e.header.group_id) es
      → AreShared batch
      → Discreet shared sent said (send_page x es cursor batch bytes)
  unfolding send_page
  send_page-Discreet [] cursor batch bytes all h = search (discreet, send_batch_if-Discreet)
  send_page-Discreet (e ∷ es) cursor batch bytes all h = Holds-read_bind _ _ _ (λ s name _.
      let w : WireEvent = record { event = e; author_name = name } in
      let kept : AreShared (if must_flush batch bytes w then [] else batch) =
        elim (must_flush batch bytes w) as (λ b. AreShared (if b then [] else batch)) [
          | true ↦ tt
          | false ↦ h
        ] in
      Holds-bind _ _ _ (send_batch_if-Discreet _ batch h)
        (λ _. send_page-Discreet es _ _ _ all.1 (All-append _ _ (w ∷ []) kept (all.0, tt))))

  -- A page of a shared group has events of that group.
  page-IsShared :
      (r : RangeRequest) (cursor : ℕ) (s : _) {es : List EventEnvelope}
      → IsShared shared r.group_id
      → events_range r.group_id r.author cursor r.last s ≡ ok es
      → All (λ e. IsShared shared e.header.group_id) es
  unfolding event_from_row
  page-IsShared r cursor s h found =
      events_range-All r.group_id r.author cursor r.last s _
        (λ row k _.
          subst (IsShared shared) (sym ((==_iff row.group_id r.group_id).0 (ground arith))) h)
        found

  send_range-Discreet :
      (fuel : ℕ) (r : RangeRequest) (cursor : ℕ)
      → IsShared shared r.group_id
      → Discreet shared sent said (send_range x fuel r cursor)
  unfolding send_range
  send_range-Discreet zero r cursor h = search discreet
  send_range-Discreet (suc fuel) r cursor h = Holds-when _ _ _ (λ _.
      Holds-read_bind _ _ _ (λ s es found. Holds-when _ _ _ (λ _.
        Holds-bind _ _ _ (send_page-Discreet es cursor [] 0 (page-IsShared r cursor s h found) tt)
          (λ c. Holds-when _ _ _ (λ _. send_range-Discreet fuel r c h)))))

  send_ranges-Discreet :
      (rs : List RangeRequest) → Discreet shared sent said (send_ranges x shared rs)
  unfolding send_ranges
  send_ranges-Discreet [] = search discreet
  send_ranges-Discreet (r ∷ rs) =
      search (discreet, send_range-Discreet, send_ranges-Discreet rs) depth 12

  pub send_requested_events-Discreet :
      (rs : List RangeRequest) → Discreet shared sent said (send_requested_events x shared rs)
  unfolding send_requested_events
  send_requested_events-Discreet rs =
      search (discreet, send_ranges-Discreet, send-Discreet) depth 12

  bump_if-Discreet : (b : Bool) → Discreet shared sent said (bump_if x b)
  unfolding bump_if
  bump_if-Discreet true = search discreet
  bump_if-Discreet false = search discreet

  store_batch-Discreet :
      (h : PeerHello) (ws : List WireEvent) → Discreet shared sent said (store_batch x h ws)
  unfolding store_batch
  store_batch-Discreet h [] = search discreet
  store_batch-Discreet h (w ∷ ws) =
      search (discreet, bump_if-Discreet, store_batch-Discreet h ws) depth 12

  receive_one-Discreet : (h : PeerHello) (w : Wire) → Discreet shared sent said (receive_one x h w)
  unfolding receive_one
  receive_one-Discreet h (event_batch events) = search (discreet, store_batch-Discreet)
  receive_one-Discreet h (hello _) = search discreet
  receive_one-Discreet h (group_proofs _) = search discreet
  receive_one-Discreet h (channels _) = search discreet
  receive_one-Discreet h (inventories _) = search discreet
  receive_one-Discreet h (requests _) = search discreet
  receive_one-Discreet h sync_done = search discreet
  receive_one-Discreet h (live_event _) = search discreet
  receive_one-Discreet h (channel_upsert _) = search discreet
  receive_one-Discreet h (screen_frame _) = search discreet
  receive_one-Discreet h (ping _) = search discreet
  receive_one-Discreet h (pong _) = search discreet

  receive_rounds-Discreet :
      (fuel : ℕ) (h : PeerHello) → Discreet shared sent said (receive_rounds x fuel h)
  unfolding receive_rounds
  receive_rounds-Discreet zero h = search discreet
  receive_rounds-Discreet (suc fuel) h =
      search (discreet, receive_one-Discreet, receive_rounds-Discreet fuel)

  pub receive_requested_events-Discreet :
      (h : PeerHello) → Discreet shared sent said (receive_requested_events x h)
  unfolding receive_requested_events Holds
  receive_requested_events-Discreet h t r = receive_rounds-Discreet (suc (length t.inbox)) h t r
