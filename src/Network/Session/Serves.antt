-- ===== src/Network/Session/Serves.antt =====
-- `send_requested_events` of src/network.rs on requests that the responder can answer.
use opencord.Base.{
  ℕ, suc, ◌<◌, ◌≤◌, ◌≡◌, refl, sym, ap, subst, ◌∙◌, Bool, true, ◌||◌, List, [], ◌∷◌, ◌++◌, All, any,
  any-append_left, length, Result, ok, arith, Bool-cases, inl, inr, take_all, lt→ltb, le→leb,
}
use mathlib.Core.List.{append-nil}
use opencord.Model.{GroupId, PeerId, EventEnvelope}
use opencord.Store.{Store, EventRow, is_event_at, i64_limit}
use opencord.Store.Page.{is_at}
use opencord.Network.Frames.{send_frame}
use opencord.Network.Handshake.{member}
use opencord.Network.Ranges.{covers}
use opencord.Network.Wire.{Wire, WireEvent, RangeRequest, event_batch, sync_done}
use opencord.Network.Task.{Context, Task, M, ◌>>=◌, pure, check, read_store, send, send_result}
use opencord.Network.Task.Holds.{Holds}
use opencord.Network.Transfer.{send_range, send_ranges, send_requested_events}
use opencord.Network.Session.Batches.{IsBatch, IsBatchOf, was_sent, frame_has, bind_ok}
use opencord.Network.Session.Complete.{AllSmall, send_range-Completed}
use opencord.Network.Session.Cursor.{left-length}
use opencord.Network.Session.Writes.{SharedRows, send_range-Holds, send_ranges-Holds}

-- A request that the responder answers: for a shared group, with a positive first number, and a last
-- one below 2 ^ 63.
abbrev pub IsAnswered : List GroupId → RangeRequest → Type 0
IsAnswered shared r =
    (member r.group_id shared ≡ true) × (0 < r.first) × (r.first ≤ r.last) × (r.last < i64_limit)

SharedRows-anything : (shared : List GroupId) (s : Store) → SharedRows shared (λ e. Unit {0}) s
SharedRows-anything shared s = every_row s.events
  where
    every_row : (rows : List EventRow) → All (λ r. member r.group_id shared ≡ true → Unit {0}) rows
    every_row [] = tt
    every_row (r ∷ rows) = (λ h. tt, every_row rows)

covers-inv :
    (g : GroupId) (a : PeerId) (k : ℕ) (r : RangeRequest)
    → covers g a k r ≡ true
    → (r.group_id ≡ g) × (r.author ≡ a) × (r.first ≤ k) × (k ≤ r.last)
covers-inv g a k r h = (ground (arith, h), ground (arith, h), ground (arith, h), ground (arith, h))

module _ (x : Context) (shared : List GroupId) (g : GroupId) (a : PeerId) (k : ℕ)
    (fits : (ws : List WireEvent)
      → IsBatch ws
      → (bytes : List ℕ) × (send_frame x.net.wire_codec (event_batch ws) ≡ ok bytes)) where
  abbrev sent_one : Task → Bool
  sent_one = was_sent (is_at g a k)

  -- What was written stays written.
  send_range-keeps_sent :
      (fuel : ℕ) (r : RangeRequest) (n : ℕ) (t : Task)
      → member r.group_id shared ≡ true
      → sent_one t ≡ true
      → sent_one (send_range x fuel r n t).1 ≡ true
  unfolding Holds
  send_range-keeps_sent fuel r n t known h =
      let (same, fs, out, all) =
        send_range-Holds x shared (λ e. Unit {0}) t.store (SharedRows-anything shared t.store)
          t.outbox fuel r n known t (refl, [], sym (append-nil t.outbox), tt) in
      subst (λ o. any (frame_has (is_at g a k)) o ≡ true) (sym out)
        (any-append_left (frame_has (is_at g a k)) t.outbox fs h)

  -- The loop ends without an error, the store is the same, and the event was written if `b`.
  abbrev Served : Bool → Task → Result (Unit {0}) × Task → Type 0
  Served b t r =
      (r.0 ≡ ok tt) × (r.1.store ≡ t.store) × ((sent_one t || b) ≡ true → sent_one r.1 ≡ true)

  one_range :
      (r : RangeRequest) (t : Task)
      → IsAnswered shared r
      → AllSmall x t.store
      → any (is_event_at g a k) t.store.events ≡ true
      → Served (covers g a k r) t (send_range x (suc (length t.store.events)) r r.first t)
  one_range r t fair small found =
      let rounds : ℕ = suc (length t.store.events) in
      let there : Store → GroupId → PeerId → Type 0 =
        λ s g' a'. any (is_event_at g' a' k) s.events ≡ true in
      let enough = left-length r.group_id r.author r.first t.store.events in
      let place = covers-inv g a k r in
      let done =
        send_range-Completed x r k fits fair.3 (covers g a k r) (λ w. (place w).3) rounds r.first t
          (omega (arith, enough)) fair.1 small
          (λ w.
            subst (λ g'. there t.store g' r.author) (sym (place w).0)
              (subst (λ a'. there t.store g a') (sym (place w).1) found))
          (λ w. ground (arith, (place w).2)) in
      let after : Task = (send_range x rounds r r.first t).1 in
      (
        done.0,
        done.1,
        λ h. elim (Bool-cases (sent_one t)) [
          | inl before ↦ send_range-keeps_sent rounds r r.first t fair.0 before
          | inr not_yet ↦
              let w : covers g a k r ≡ true = ground (arith, h, not_yet) in
              subst (λ g'. was_sent (is_at g' a k) after ≡ true) (place w).0
                (subst (λ a'. was_sent (is_at r.group_id a' k) after ≡ true) (place w).1 (done.2 w))
        ],
      )

  Served-then :
      (m : M (Unit {0})) (f : M (Unit {0})) (t : Task) (b b' : Bool)
      → Served b t (m t)
      → Served b' (m t).1 (f (m t).1)
      → Served (b || b') t ((m >>= λ _. f) t)
  Served-then m f t b b' (done, same, sent) (done', same', sent') =
      subst (Served (b || b') t) (sym (bind_ok m (λ _. f) t tt done))
        (done', same' ∙ same, λ h. sent' (ground (arith, h, sent)))

  send_ranges_step :
      (r : RangeRequest) (rs : List RangeRequest) (t : Task)
      → IsAnswered shared r
      → send_ranges x shared (r ∷ rs) t
        ≡ (send_range x (suc (length t.store.events)) r r.first >>= λ _. send_ranges x shared rs) t
  unfolding send_ranges check read_store ◌>>=◌
  send_ranges_step r rs t (known, some, ordered, _) =
      rw (known, lt→ltb 0 r.first some, le→leb r.first r.last ordered) refl

  pub send_ranges-Served :
      (rs : List RangeRequest) (t : Task)
      → All (IsAnswered shared) rs
      → AllSmall x t.store
      → any (is_event_at g a k) t.store.events ≡ true
      → Served (any (covers g a k) rs) t (send_ranges x shared rs t)
  unfolding send_ranges pure
  send_ranges-Served [] t fair small found = (refl, refl, λ h. ground (arith, h))
  send_ranges-Served (r ∷ rs) t fair small found =
      let first = one_range r t fair.0 small found in
      let after : Task = (send_range x (suc (length t.store.events)) r r.first t).1 in
      let rest =
        send_ranges-Served rs after fair.1 (subst (AllSmall x) (sym first.1) small)
          (subst (λ s. any (is_event_at g a k) s.events ≡ true) (sym first.1) found) in
      subst (λ b. Served b t (send_ranges x shared (r ∷ rs) t)) (ground arith)
        (subst (Served _ t) (sym (send_ranges_step r rs t fair.0)) (
          Served-then (send_range x (suc (length t.store.events)) r r.first)
            (send_ranges x shared rs) t (covers g a k r) (any (covers g a k) rs) first rest))

  -- What was written is batches of events with the property, one of them with the event if a
  -- request covers it, and the end marker after them.
  abbrev pub Answered :
      List RangeRequest → (EventEnvelope → Type 0) → Result (Unit {0}) × Task → Type 0
  Answered rs P r =
      (fs : List Wire) × (r.0 ≡ ok tt)
      × (r.1.outbox ≡ fs ++ sync_done ∷ [])
      × All (IsBatchOf P) fs
      × (any (covers g a k) rs ≡ true → any (frame_has (is_at g a k)) fs ≡ true)

  sync_done-sent :
      {bytes : List ℕ} (t : Task)
      → send_frame x.net.wire_codec sync_done ≡ ok bytes
      → send x sync_done t ≡ (ok tt, record t { outbox = t.outbox ++ sync_done ∷ [] })
  unfolding send send_result
  sync_done-sent t h = rw h refl

  pub send_requested_events-Answered :
      {bytes : List ℕ} (rs : List RangeRequest) (t : Task) (P : EventEnvelope → Type 0)
      → All (IsAnswered shared) rs
      → length rs ≤ 10000
      → AllSmall x t.store
      → any (is_event_at g a k) t.store.events ≡ true
      → send_frame x.net.wire_codec sync_done ≡ ok bytes
      → SharedRows shared P t.store
      → t.outbox ≡ []
      → Answered rs P (send_requested_events x shared rs t)
  unfolding send_requested_events Holds
  send_requested_events-Answered rs t P fair few small found end_fits good fresh =
      let served = send_ranges-Served rs t fair small found in
      let after : Task = (send_ranges x shared rs t).1 in
      let (same, fs, out, all) =
        send_ranges-Holds x shared P t.store good [] rs t (refl, [], fresh, tt) in
      let last_step = sync_done-sent after end_fits in
      subst (λ l. Answered rs P ((send_ranges x shared l >>= λ _. send x sync_done) t))
        (sym (take_all rs 10000 few))
        (subst (Answered rs P)
          (sym
            (bind_ok (send_ranges x shared rs) (λ _. send x sync_done) t tt served.0 ∙ last_step))
          (
            fs,
            refl,
            ap (λ o. o ++ sync_done ∷ []) out,
            all,
            λ h.
                subst (λ o. any (frame_has (is_at g a k)) o ≡ true) out
                  (served.2 (ground (arith, h))),
          ))
