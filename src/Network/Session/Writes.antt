-- ===== src/Network/Session/Writes.antt =====
-- What `send_requested_events` of src/network.rs writes: batches of stored events.
use opencord.Base.{
  All-both, ℕ, zero, suc, ◌≡◌, sym, ap, subst, ◌∙◌, Bool, true, false, List, [], ◌∷◌, ◌++◌, All,
  All-append, All-map, arith, if◌then◌else◌, Result, ok, err,
}
use mathlib.Core.List.{append_assoc}
use opencord.Model.{GroupId, EventEnvelope}
use opencord.Store.{Store, event_from_row}
use opencord.Store.Events.{events_range}
use opencord.Store.Page.{page-All}
use opencord.Store.Range.{events_range-inv, events_range-All}
use opencord.Network.Handshake.{member}
use opencord.Network.Wire.{Wire, WireEvent, RangeRequest, event_batch}
use opencord.Network.Task.{Context, Task, pure, send, send_result}
use opencord.Network.Task.Holds.{Holds, Holds-bind, Holds-read_bind_at, Holds-when, holds}
use opencord.Network.Transfer.{send_batch_if, send_page, send_range, send_ranges}
use opencord.Network.Session.Batches.{IsBatchOf}

-- The stored events of the shared groups have the property.
abbrev pub SharedRows : List GroupId → (EventEnvelope → Type 0) → Store → Type 0
SharedRows shared P s = All (λ r. member r.group_id shared ≡ true → P (event_from_row r)) s.events

page-good :
    (shared : List GroupId) (P : EventEnvelope → Type 0) (request : RangeRequest) (cursor : ℕ)
    (s : Store) {es : List EventEnvelope}
    → SharedRows shared P s
    → member request.group_id shared ≡ true
    → events_range request.group_id request.author cursor request.last s ≡ ok es
    → All P es
unfolding event_from_row
page-good shared P request cursor s {es} stored known found =
    let Q : EventEnvelope → Type 0 = λ e. member e.header.group_id shared ≡ true → P e in
    let good : All Q es =
      subst (All Q)
        (sym (events_range-inv request.group_id request.author cursor request.last s found).0)
        (page-All request.group_id request.author cursor request.last s Q stored) in
    let in_group =
      events_range-All request.group_id request.author cursor request.last s
        (λ e. e.header.group_id ≡ request.group_id) (λ r k _. ground (arith, k)) found in
    All-map _ P es (λ e h. h.0 (subst (λ g. member g shared ≡ true) (sym h.1) known))
      (All-both Q (λ e. e.header.group_id ≡ request.group_id) es good in_group)

module _ (x : Context) (shared : List GroupId) (P : EventEnvelope → Type 0) (s0 : Store)
    (stored : SharedRows shared P s0) (base : List Wire) where
  -- The store is as it was, and only batches of events with the property have been written.
  abbrev pub WroteOnly : Task → Type 0
  WroteOnly t = (t.store ≡ s0) × (fs : List Wire) × (t.outbox ≡ base ++ fs) × All (IsBatchOf P) fs

  send_result-Holds :
      (ws : List WireEvent) (r : Result (List ℕ)) (t : Task)
      → All (λ w. P w.event) ws
      → WroteOnly t
      → WroteOnly (send_result x (event_batch ws) r t).1
  unfolding send_result
  send_result-Holds ws (ok bytes) t good (same, fs, out, all) = (
    same,
    fs ++ event_batch ws ∷ [],
    ap (λ o. o ++ event_batch ws ∷ []) out ∙ append_assoc base fs (event_batch ws ∷ []),
    All-append (IsBatchOf P) fs (event_batch ws ∷ []) all (good, tt),
  )
  send_result-Holds ws (err e) t good h = h

  send_batch_if-Holds :
      (b : Bool) (ws : List WireEvent)
      → All (λ w. P w.event) ws
      → Holds WroteOnly (send_batch_if x b ws)
  unfolding Holds send_batch_if send pure
  send_batch_if-Holds true ws good t h = send_result-Holds ws _ t good h
  send_batch_if-Holds false ws good t h = h

  push-All :
      (flush : Bool) (batch : List WireEvent) (w : WireEvent)
      → All (λ v. P v.event) batch
      → P w.event
      → All (λ v. P v.event) ((if flush then [] else batch) ++ w ∷ [])
  push-All true batch w good p = (p, tt)
  push-All false batch w good p = All-append _ batch (w ∷ []) good (p, tt)

  send_page-Holds :
      (es : List EventEnvelope) (cursor : ℕ) (batch : List WireEvent) (bytes : ℕ)
      → All P es
      → All (λ w. P w.event) batch
      → Holds WroteOnly (send_page x es cursor batch bytes)
  unfolding send_page
  send_page-Holds [] cursor batch bytes all good = search (holds, send_batch_if-Holds)
  send_page-Holds (e ∷ es) cursor batch bytes all good =
      Holds-read_bind_at WroteOnly _ _ (λ t h name found.
        Holds-bind WroteOnly _ _ (send_batch_if-Holds _ batch good)
          (λ done. send_page-Holds es _ _ _ all.1 (push-All _ batch _ good all.0)))

  pub send_range-Holds :
      (fuel : ℕ) (request : RangeRequest) (cursor : ℕ)
      → member request.group_id shared ≡ true
      → Holds WroteOnly (send_range x fuel request cursor)
  unfolding send_range
  send_range-Holds zero request cursor known = search holds
  send_range-Holds (suc fuel) request cursor known = Holds-when WroteOnly _ _ (λ more.
      Holds-read_bind_at WroteOnly _ _ (λ t h es found.
        let all : All P es =
          page-good shared P request cursor t.store (subst (SharedRows shared P) (sym h.0) stored)
            known found in
        Holds-when WroteOnly _ _ (λ some.
          Holds-bind WroteOnly _ _ (send_page-Holds es cursor [] 0 all tt)
            (λ next. Holds-when WroteOnly _ _ (λ on. send_range-Holds fuel request next known)))))

  pub send_ranges-Holds :
      (requests : List RangeRequest) → Holds WroteOnly (send_ranges x shared requests)
  unfolding send_ranges
  send_ranges-Holds [] = search holds
  send_ranges-Holds (request ∷ requests) =
      search (holds, send_range-Holds, send_ranges-Holds requests) depth 12
