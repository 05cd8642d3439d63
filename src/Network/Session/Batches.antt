-- ===== src/Network/Session/Batches.antt =====
-- What `send_page` of src/network.rs writes: every event of the page, in batches of bounded size.
use opencord.Base.{
  ℕ, ◌+◌, ◌≤◌, ◌≡◌, refl, sym, ap, subst, ◌∙◌, Bool, true, false, not, ◌&&◌, ◌||◌, List, [], ◌∷◌,
  ◌++◌, All, any, any-append, is_empty, if◌then◌else◌, Result, ok, arith,
}
use opencord.Model.{EventEnvelope}
use opencord.Store.{Store, next_u64}
use opencord.Crates.{Crates}
use opencord.Store.Peers.{author_name}
use opencord.Network.Frames.{send_frame}
use opencord.Network.Wire.{Wire, WireEvent, event_batch}
use opencord.Network.Task.{Context, Task, M, ◌>>=◌, pure, read_store, continue, send, send_result}
use opencord.Network.Transfer.{send_batch_if, send_page, event_size, must_flush, sync_batch_bytes}

-- The sum that the loop keeps in `bytes`.
abbrev pub total_size : List WireEvent → ℕ
total_size [] = 0
total_size (w ∷ ws) = event_size w + total_size ws

-- The reckoned size of a batch is within the bound.
abbrev pub IsBatch : List WireEvent → Type 0
IsBatch ws = total_size ws ≤ sync_batch_bytes

-- A frame with a batch of events, each with the property.
abbrev pub IsBatchOf : (EventEnvelope → Type 0) → Wire → Type 0
IsBatchOf P (event_batch ws) = All (λ w. P w.event) ws
IsBatchOf P _ = ⊥

-- The event alone is within the bound.
abbrev pub IsSmall : Crates → Store → EventEnvelope → Type 0
IsSmall crates s e =
    event_size (record { event = e; author_name = author_name crates e.header.author s })
    ≤ sync_batch_bytes

module _ (p : EventEnvelope → Bool) where
  abbrev pub any_event : List WireEvent → Bool
  any_event = any (λ w. p w.event)

  abbrev pub frame_has : Wire → Bool
  frame_has (event_batch ws) = any_event ws
  frame_has _ = false

  -- An event with the property stands in a batch that was written.
  abbrev pub was_sent : Task → Bool
  was_sent t = any frame_has t.outbox

module _ (p : EventEnvelope → Bool) where
  flush-end :
      (batch : List WireEvent)
      → (not (is_empty batch) && any_event p batch || false) ≡ (any_event p batch || false)
  flush-end [] = refl
  flush-end (w ∷ ws) = refl

  flush-push :
      (flush : Bool) (batch : List WireEvent) (w : WireEvent) (b : Bool)
      → (flush && any_event p batch || (any_event p ((if flush then [] else batch) ++ w ∷ []) || b))
        ≡ (any_event p batch || (if p w.event then true else b))
  flush-push true batch w b = ground arith
  flush-push false batch w b = ground (arith, any-append (λ v. p v.event) batch (w ∷ []))

must_flush-some :
    (batch : List WireEvent) (bytes : ℕ) (w : WireEvent)
    → must_flush batch bytes w ≡ true
    → is_empty batch ≡ false
must_flush-some batch bytes w h = ground arith

pub bind_ok :
    {A B : Type 0} (m : M A) (f : A → M B) (t : Task) (a : A)
    → (m t).0 ≡ ok a
    → (m >>= f) t ≡ f a (m t).1
unfolding ◌>>=◌
bind_ok m f t a h = ap (λ r. continue r f (m t).1) h

total_size-append :
    (ws : List WireEvent) (w : WireEvent) → total_size (ws ++ w ∷ []) ≡ total_size ws + event_size w
total_size-append [] w = omega arith
total_size-append (u ∷ us) w = omega (arith, total_size-append us w)

-- A batch is written before it would grow too large.
push-IsBatch :
    (flush : Bool) (batch : List WireEvent) (bytes : ℕ) (w : WireEvent)
    → must_flush batch bytes w ≡ flush
    → bytes ≡ total_size batch
    → event_size w ≤ sync_batch_bytes
    → IsBatch ((if flush then [] else batch) ++ w ∷ [])
      × ((if flush then 0 else bytes) + event_size w
          ≡ total_size ((if flush then [] else batch) ++ w ∷ []))
push-IsBatch true batch bytes w e h small = (omega (arith, small), omega arith)
push-IsBatch false [] bytes w e h small = (omega (arith, small), omega (arith, h))
push-IsBatch false (u ∷ us) bytes w e h small =
    let sum = total_size-append (u ∷ us) w in (ground (arith, sum), omega (arith, sum))

module _ (x : Context) (p : EventEnvelope → Bool)
    (fits : (ws : List WireEvent)
      → IsBatch ws
      → (bytes : List ℕ) × (send_frame x.net.wire_codec (event_batch ws) ≡ ok bytes)) where
  -- A batch that is written is written whole.
  send_batch_lem :
      (ws : List WireEvent) (t : Task)
      → IsBatch ws
      → (send x (event_batch ws) t).0 ≡ ok tt
        × ((send x (event_batch ws) t).1.store ≡ t.store)
        × (was_sent p (send x (event_batch ws) t).1 ≡ (was_sent p t || any_event p ws))
  unfolding send send_result
  send_batch_lem ws t h =
      rw (fits ws h).1
        (refl, refl, any-append (frame_has p) t.outbox (event_batch ws ∷ []) ∙ ground arith)

  abbrev pub Wrote : {A : Type 0} → Task → Bool → Result A × Task → Type 0
  Wrote {A} t more r =
      (a : A) × (r.0 ≡ ok a) × (r.1.store ≡ t.store) × (was_sent p r.1 ≡ (was_sent p t || more))

  send_batch_if_lem :
      (b : Bool) (ws : List WireEvent) (t : Task)
      → (b ≡ true → IsBatch ws)
      → Wrote t (b && any_event p ws) (send_batch_if x b ws t)
  unfolding send_batch_if pure
  send_batch_if_lem true ws t h =
      let (done, same, sent) = send_batch_lem ws t (h refl) in (tt, done, same, sent)
  send_batch_if_lem false ws t h = (tt, refl, refl, ground arith)

  pub Wrote-bind :
      {A B : Type 0} (m : M A) (f : A → M B) (t : Task) (b b' : Bool) (w : Wrote t b (m t))
      → Wrote (m t).1 b' (f w.0 (m t).1)
      → Wrote t (b || b') ((m >>= f) t)
  Wrote-bind m f t b b' (a, done, same, sent) (c, done', same', sent') =
      subst (Wrote t (b || b')) (sym (bind_ok m f t a done))
        (c, done', same' ∙ same, sent' ∙ ground arith)

  pub send_page_lem :
      (es : List EventEnvelope) (cursor : ℕ) (batch : List WireEvent) (bytes : ℕ) (t : Task)
      → bytes ≡ total_size batch
      → (is_empty batch ≡ false → IsBatch batch)
      → All (IsSmall x.net.crates t.store) es
      → Wrote t (any_event p batch || any p es) (send_page x es cursor batch bytes t)
  unfolding send_page pure read_store
  send_page_lem [] cursor batch bytes t h k small =
      let sent = send_batch_if_lem (not (is_empty batch)) batch t (λ e. k (ground arith)) in
      subst (λ b. Wrote t b (send_page x [] cursor batch bytes t)) (flush-end p batch)
        (Wrote-bind (send_batch_if x (not (is_empty batch)) batch) (λ _. pure cursor) t _ false sent
          (cursor, refl, refl, ground arith))
  send_page_lem (e ∷ es) cursor batch bytes t h k small =
      let name = author_name x.net.crates e.header.author t.store in
      let w : WireEvent = record { event = e; author_name = name } in
      let flush = must_flush batch bytes w in
      let (is_batch, sum) = push-IsBatch flush batch bytes w refl h small.0 in
      let sent = send_batch_if_lem flush batch t (λ e. k (must_flush-some batch bytes w e)) in
      let rest =
        send_page_lem es (next_u64 e.header.author_sequence) _ _ (send_batch_if x flush batch t).1
          sum (λ _. is_batch) (subst (λ s. All (IsSmall x.net.crates s) es) (sym sent.2) small.1) in
      subst (λ b. Wrote t b (send_page x (e ∷ es) cursor batch bytes t))
        (flush-push p flush batch w (any p es))
        (subst (Wrote t _) (sym (bind_ok (read_store _) _ t name refl))
          (Wrote-bind _ _ t _ _ sent rest))
