-- ===== src/Network/Session/Enough.antt =====
-- The rounds of `receive_requested_events` in src/network.rs: as many as there are frames, and one
-- more, are enough.
use opencord.Base.{
  ℕ, zero, suc, ◌<◌, ◌≤◌, ◌≡◌, refl, sym, subst, ◌∙◌, Bool, true, false, List, [], ◌∷◌, length,
  Result, ok, err, Error, arith,
}
use opencord.Store.{Store}
use opencord.Network.State.{NetworkState}
use opencord.Network.Wire.{
  Wire, PeerHello, WireEvent, hello, group_proofs, channels, inventories, requests, event_batch,
  sync_done, live_event, channel_upsert, screen_frame, ping, pong,
}
use opencord.Network.Task.{
  Context, Task, M, ◌>>=◌, pure, fail, when, write_store, write_result, change_state, now, continue,
  receive, take_frame,
}
use opencord.Network.Transfer.{
  bump_if, store_batch, receive_one, receive_rounds, receive_requested_events,
}

-- A step that reads no frame.
unfoldable IsDeaf : {A : Type 0} → M A → Type 0
IsDeaf m = (t : Task) → (m t).1.inbox ≡ t.inbox

continue-IsDeaf :
    {A B : Type 0} (r : Result A) (f : A → M B)
    → ((a : A) → IsDeaf (f a))
    → (t : Task) → (continue r f t).1.inbox ≡ t.inbox
unfolding IsDeaf
continue-IsDeaf (ok a) f g t = g a t
continue-IsDeaf (err e) f g t = refl

bind-IsDeaf :
    {A B : Type 0} (m : M A) (f : A → M B) → IsDeaf m → ((a : A) → IsDeaf (f a)) → IsDeaf (m >>= f)
unfolding IsDeaf ◌>>=◌
bind-IsDeaf m f d g t = continue-IsDeaf (m t).0 f g (m t).1 ∙ d t

pure-IsDeaf : {A : Type 0} (a : A) → IsDeaf (pure a)
unfolding IsDeaf pure
pure-IsDeaf a t = refl

fail-IsDeaf : (A : Type 0) (e : Error) → IsDeaf (fail {A = A} e)
unfolding IsDeaf fail
fail-IsDeaf A e t = refl

write_result-IsDeaf :
    {A : Type 0} (r : Result (A × Store)) (t : Task) → (write_result r t).1.inbox ≡ t.inbox
unfolding write_result
write_result-IsDeaf (ok (a, s)) t = refl
write_result-IsDeaf (err e) t = refl

write_store-IsDeaf : {A : Type 0} (f : Store → Result (A × Store)) → IsDeaf (write_store f)
unfolding IsDeaf write_store
write_store-IsDeaf f t = write_result-IsDeaf (f t.store) t

change_state-IsDeaf : (f : NetworkState → NetworkState) → IsDeaf (change_state f)
unfolding IsDeaf change_state
change_state-IsDeaf f t = refl

now-IsDeaf : (x : Context) → IsDeaf (now x)
unfolding IsDeaf now
now-IsDeaf x t = refl

ruleset deaf =
    (bind-IsDeaf, pure-IsDeaf, fail-IsDeaf, write_store-IsDeaf, change_state-IsDeaf, now-IsDeaf)

module _ (x : Context) where
  bump_if-IsDeaf : (b : Bool) → IsDeaf (bump_if x b)
  unfolding bump_if
  bump_if-IsDeaf true = search deaf
  bump_if-IsDeaf false = search deaf

  store_batch-IsDeaf : (h : PeerHello) (ws : List WireEvent) → IsDeaf (store_batch x h ws)
  unfolding store_batch
  store_batch-IsDeaf h [] = search deaf
  store_batch-IsDeaf h (w ∷ ws) = search (deaf, bump_if-IsDeaf, store_batch-IsDeaf h ws) depth 12

  receive_one-IsDeaf : (h : PeerHello) (w : Wire) → IsDeaf (receive_one x h w)
  unfolding receive_one
  receive_one-IsDeaf h (event_batch events) = search (deaf, store_batch-IsDeaf)
  receive_one-IsDeaf h (hello _) = search deaf
  receive_one-IsDeaf h (group_proofs _) = search deaf
  receive_one-IsDeaf h (channels _) = search deaf
  receive_one-IsDeaf h (inventories _) = search deaf
  receive_one-IsDeaf h (requests _) = search deaf
  receive_one-IsDeaf h sync_done = search deaf
  receive_one-IsDeaf h (live_event _) = search deaf
  receive_one-IsDeaf h (channel_upsert _) = search deaf
  receive_one-IsDeaf h (screen_frame _) = search deaf
  receive_one-IsDeaf h (ping _) = search deaf
  receive_one-IsDeaf h (pong _) = search deaf

  module _ (h : PeerHello) (n m : ℕ)
      (agree : (t : Task)
        → length t.inbox < n
        → receive_rounds x n h t ≡ receive_rounds x m h t) where
    agree-when :
        (r : Result Bool) (t : Task)
        → length t.inbox < n
        → continue r (λ more. when more (receive_rounds x n h)) t
          ≡ continue r (λ more. when more (receive_rounds x m h)) t
    unfolding when
    agree-when (ok true) t k = agree t k
    agree-when (ok false) t k = refl
    agree-when (err e) t k = refl

    agree-frames :
        (frames : List (Result Wire)) (t : Task)
        → length frames < suc n
        → (take_frame frames >>= λ frame.
              receive_one x h frame >>= λ more. when more (receive_rounds x n h))
            t
          ≡ (take_frame frames >>= λ frame.
                receive_one x h frame >>= λ more. when more (receive_rounds x m h))
              t
    unfolding take_frame ◌>>=◌ IsDeaf
    agree-frames [] t k = refl
    agree-frames (err e ∷ rest) t k = refl
    agree-frames (ok frame ∷ rest) t k =
        let next : Task = record t { inbox = rest } in
        agree-when (receive_one x h frame next).0 (receive_one x h frame next).1
          (subst (λ fs. length fs < n) (sym (receive_one-IsDeaf h frame next)) (omega arith))

  receive_rounds-agree :
      (h : PeerHello) (n m : ℕ) (t : Task)
      → length t.inbox < n
      → n ≤ m
      → receive_rounds x n h t ≡ receive_rounds x m h t
  unfolding receive_rounds receive ◌>>=◌
  receive_rounds-agree h (suc n) (suc m) t k l =
      agree-frames h n m (λ t' k'. receive_rounds-agree h n m t' k' (omega arith)) t.inbox t k
  receive_rounds-agree h zero m t k l = absurd (omega arith)
  receive_rounds-agree h (suc n) zero t k l = absurd (omega arith)

  -- With more rounds than there are frames in the inbox, the loop of `receive_requested_events` does
  -- what it does with any greater number of rounds: it never stops for lack of them.
  receive_requested_events-enough :
      (h : PeerHello) (rounds : ℕ) (t : Task)
      → length t.inbox < rounds
      → receive_rounds x rounds h t ≡ receive_requested_events x h t
  unfolding receive_requested_events
  receive_requested_events-enough h rounds t k =
      sym (receive_rounds-agree h (suc (length t.inbox)) rounds t (omega arith) (omega arith))
