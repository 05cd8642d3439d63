-- ===== src/Network/Session/Takes.antt =====
-- `receive_requested_events` of src/network.rs on batches of events that the store takes.
use opencord.Base.{
  ℕ, zero, suc, ◌<◌, ◌≡◌, refl, sym, ap, subst, ◌∙◌, Bool, true, false, ◌||◌, List, [], ◌∷◌, ℤ,
  ◌++◌, All, any, length, map, Result, ok, arith, length-append,
}
use opencord.Text.{Text}
use opencord.Model.{GroupId, PeerId}
use opencord.Store.{Store, EventRow, is_event_at}
use opencord.Store.Accept.{IsWelcome, IsOpen}
use opencord.Store.Accept.Taken.{insert_remote_event-IsTaken}
use opencord.Store.Page.{is_at}
use opencord.Store.Events.{insert_remote_event}
use opencord.Network.Wire.{Wire, WireEvent, PeerHello, event_batch, sync_done}
use opencord.Network.Task.{
  Context, Task, M, ◌>>=◌, now, write_store, write_result, change_state, pure, receive, take_frame,
  when,
}
use opencord.Network.Transfer.{
  bump_if, name_for, store_batch, receive_one, receive_rounds, receive_requested_events,
}
use opencord.Network.Session.Batches.{IsBatchOf, any_event, frame_has, bind_ok}

module _ (x : Context) (rows : List EventRow) (s0 : Store) (hello : PeerHello) (g : GroupId)
    (a : PeerId) (k : ℕ) where
  abbrev pub there : Store → Bool
  there s = any (is_event_at g a k) s.events

  abbrev pub IsWelcomeBatch : List WireEvent → Type 0
  IsWelcomeBatch ws = All (λ w. IsWelcome x.net.crates rows s0 w.event) ws

  abbrev Ready : Store → Type 0
  Ready s = IsOpen x.net.crates rows s0 s

  -- The step succeeds, leaves the inbox alone and a store that is open to further events; the event
  -- is stored afterwards if it was before, or if `b`.
  abbrev Took : {A : Type 0} → Bool → Task → Result A × Task → Type 0
  Took {A} b t r =
      (v : A) × (r.0 ≡ ok v)
      × Ready r.1.store
      × (r.1.inbox ≡ t.inbox)
      × ((there t.store || b) ≡ true → there r.1.store ≡ true)

  Took-bind :
      {A B : Type 0} (m : M A) (f : A → M B) (t : Task) (b b' : Bool) (w : Took b t (m t))
      → Took b' (m t).1 (f w.0 (m t).1)
      → Took (b || b') t ((m >>= f) t)
  Took-bind m f t b b' (v, done, open_to, same, held) (v', done', open', same', held') =
      subst (Took (b || b') t) (sym (bind_ok m f t v done))
        (v', done', open', same' ∙ same, λ h. held' (ground (arith, h, held)))

  now-Took : (t : Task) → Ready t.store → Took false t (now x t)
  unfolding now
  now-Took t open_to = (_, refl, open_to, refl, λ h. ground (arith, h))

  bump_if-Took : (b : Bool) (t : Task) → Ready t.store → Took false t (bump_if x b t)
  unfolding bump_if change_state pure
  bump_if-Took true t open_to = (tt, refl, open_to, refl, λ h. ground (arith, h))
  bump_if-Took false t open_to = (tt, refl, open_to, refl, λ h. ground (arith, h))

  write-Took :
      (w : WireEvent) (name : Text) (at : ℤ) (t : Task)
      → IsWelcome x.net.crates rows s0 w.event
      → Ready t.store
      → Took
          (is_at g a k w.event)
          t
          (write_store (insert_remote_event x.net.crates w.event name at) t)
  unfolding write_store write_result
  write-Took w name at t welcome open_to =
      let (b, s', done, taken) =
        insert_remote_event-IsTaken x.net.crates rows s0 w.event name at t.store welcome open_to in
      rw done (b, refl, taken.still, refl, taken.held g a k)

  store_batch-Took :
      (ws : List WireEvent) (t : Task)
      → IsWelcomeBatch ws
      → Ready t.store
      → Took (any_event (is_at g a k) ws) t (store_batch x hello ws t)
  unfolding store_batch pure
  store_batch-Took [] t welcome open_to = (tt, refl, open_to, refl, λ h. ground (arith, h))
  store_batch-Took (w ∷ ws) t welcome open_to =
      let first = now-Took t open_to in
      let stored = write-Took w (name_for x hello w) first.0 (now x t).1 welcome.0 first.2 in
      let bumped = bump_if-Took stored.0 (write_store _ (now x t).1).1 stored.2 in
      let rest = store_batch-Took ws (bump_if x stored.0 _).1 welcome.1 bumped.2 in
      subst (λ b. Took b t (store_batch x hello (w ∷ ws) t)) (ground arith)
        (Took-bind (now x) _ t false _ first (
          Took-bind (write_store _) _ _ (is_at g a k w.event) _ stored
            (Took-bind (bump_if x stored.0) _ _ false (any_event (is_at g a k) ws) bumped rest)))

  -- A batch of welcome events.
  abbrev pub IsWelcomeFrame : Wire → Type 0
  IsWelcomeFrame = IsBatchOf (IsWelcome x.net.crates rows s0)

  -- The loop ends without an error, having read its frames and the end marker.
  abbrev pub Finished : List (Result Wire) → Bool → Task → Result (Unit {0}) × Task → Type 0
  Finished rest b t r =
      (r.0 ≡ ok tt)
      × Ready r.1.store
      × (r.1.inbox ≡ rest)
      × ((there t.store || b) ≡ true → there r.1.store ≡ true)

  receive_lem :
      (f : Wire) (rest : List (Result Wire)) (t : Task)
      → t.inbox ≡ ok f ∷ rest
      → receive t ≡ (ok f, record t { inbox = rest })
  unfolding receive take_frame
  receive_lem f rest t h = rw h refl

  receive_round :
      (fuel : ℕ) (f : Wire) (rest : List (Result Wire)) (t : Task)
      → t.inbox ≡ ok f ∷ rest
      → receive_rounds x (suc fuel) hello t
        ≡ (receive_one x hello f >>= λ more. when more (receive_rounds x fuel hello))
            (record t { inbox = rest })
  unfolding receive_rounds ◌>>=◌
  receive_round fuel f rest t h = rw (receive_lem f rest t h) refl

  batch_round :
      (fuel : ℕ) (ws : List WireEvent) (t : Task)
      → IsWelcomeBatch ws
      → Ready t.store
      → (t' : Task) × Took (any_event (is_at g a k) ws) t (ok tt, t')
        × ((receive_one x hello (event_batch ws) >>= λ more.
                when more (receive_rounds x fuel hello))
              t
            ≡ receive_rounds x fuel hello t')
  unfolding receive_one ◌>>=◌ pure when
  batch_round fuel ws t welcome open_to =
      let took = store_batch-Took ws t welcome open_to in
      ((store_batch x hello ws t).1, (tt, refl, took.2, took.3, took.4), rw took.1 refl)

  last_round :
      (fuel : ℕ) (t : Task)
      → (receive_one x hello sync_done >>= λ more. when more (receive_rounds x fuel hello)) t
        ≡ (ok tt, t)
  unfolding receive_one ◌>>=◌ pure when
  last_round fuel t = refl

  receive_rounds-Finished :
      (fuel : ℕ) (fs : List Wire) (rest : List (Result Wire)) (t : Task)
      → length fs < fuel
      → t.inbox ≡ map ok fs ++ ok sync_done ∷ rest
      → All IsWelcomeFrame fs
      → Ready t.store
      → Finished rest (any (frame_has (is_at g a k)) fs) t (receive_rounds x fuel hello t)
  receive_rounds-Finished zero fs rest t enough inbox welcome open_to =
      absurd (omega (arith, enough))
  receive_rounds-Finished (suc fuel) [] rest t enough inbox welcome open_to =
      subst (Finished rest false t)
        (sym (receive_round fuel sync_done rest t inbox ∙ last_round fuel _))
        (refl, open_to, refl, λ h. ground (arith, h))
  receive_rounds-Finished (suc fuel) (event_batch ws ∷ fs) rest t enough inbox welcome open_to =
      let more : List (Result Wire) = map ok fs ++ ok sync_done ∷ rest in
      let (t', took, goes_on) = batch_round fuel ws (record t { inbox = more }) welcome.0 open_to in
      let (fine, ready, left, holds) =
        receive_rounds-Finished fuel fs rest t' (omega (arith, enough)) took.3 welcome.1 took.2 in
      subst (Finished rest (any (frame_has (is_at g a k)) (event_batch ws ∷ fs)) t)
        (sym (receive_round fuel (event_batch ws) more t inbox ∙ goes_on))
        (fine, ready, left, λ h. holds (ground (arith, h, took.4)))
  receive_rounds-Finished (suc fuel) (_ ∷ fs) rest t enough inbox welcome open_to = absurd welcome.0

  pub receive_requested_events-Finished :
      (fs : List Wire) (rest : List (Result Wire)) (t : Task)
      → t.inbox ≡ map ok fs ++ ok sync_done ∷ rest
      → All IsWelcomeFrame fs
      → Ready t.store
      → Finished rest (any (frame_has (is_at g a k)) fs) t (receive_requested_events x hello t)
  unfolding receive_requested_events
  receive_requested_events-Finished fs rest t inbox welcome open_to =
      receive_rounds-Finished (suc (length t.inbox)) fs rest t
        (rw (inbox, length-append (map ok fs) (ok sync_done ∷ rest)) (omega (arith, length-map fs)))
        inbox welcome open_to
    where
      length-map : (ws : List Wire) → length (map {B = Result Wire} ok ws) ≡ length ws
      length-map [] = refl
      length-map (w ∷ ws) = ap suc (length-map ws)
