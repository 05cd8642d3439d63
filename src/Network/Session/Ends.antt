-- ===== src/Network/Session/Ends.antt =====
-- How a session of src/network.rs ends: the live loop leaves by `break` where the node's own queue of
-- live events is closed, and in every other case by an error.
use opencord.Base.{
  ℕ, ◌≡◌, refl, sym, subst, Bool, true, false, List, [], ◌∷◌, any, some, none, Bool-cases, inl, inr,
  ok, arith,
}
use opencord.Model.{GroupId}
use opencord.Network.Wire.{PeerHello}
use opencord.Network.Task.{Context, Task, M, ◌>>=◌, pure, lift, change_state, when}
use opencord.Network.Task.Holds.{
  Returns, Returns-bind, Returns-pure, Returns-Anything, Returns-fail, Returns-always,
  Returns-weaken, Anything,
}
use opencord.Network.Live.{
  Input, incoming, live, voice, metadata, screen, datagram, tick, received, lagged, closed, round,
  live_loop,
}
use opencord.Network.Session.{run_authenticated_session, run_online, run_session}

abbrev pub is_closed : Input → Bool
is_closed (live closed) = true
is_closed _ = false

abbrev GoesOn : Bool → Type 0
GoesOn more = more ≡ true

abbrev WasClosed : List Input → Unit {0} → Type 0
WasClosed is done = any is_closed is ≡ true

module _ (x : Context) (hello : PeerHello) (shared : List GroupId) where
  last_true : {A : Type 0} (m : M A) → Returns GoesOn (m >>= λ _. pure true)
  last_true m =
      Returns-bind Anything GoesOn m _ (Returns-Anything m) (λ _ _. Returns-pure GoesOn true refl)

  round-GoesOn : (i : Input) → is_closed i ≡ false → Returns GoesOn (round x hello shared i)
  unfolding round
  round-GoesOn incoming h =
      Returns-bind Anything GoesOn _ _ (Returns-Anything _) (λ f _. last_true _)
  round-GoesOn (live (received e)) h = last_true _
  round-GoesOn (live lagged) h = Returns-pure GoesOn true refl
  round-GoesOn (live closed) h = absurd (cc)
  round-GoesOn (voice (received p)) h = last_true _
  round-GoesOn (voice lagged) h = Returns-pure GoesOn true refl
  round-GoesOn (voice closed) h = Returns-pure GoesOn true refl
  round-GoesOn (metadata (received ch)) h = last_true _
  round-GoesOn (metadata lagged) h = Returns-pure GoesOn true refl
  round-GoesOn (metadata closed) h = Returns-pure GoesOn true refl
  round-GoesOn (screen (received p)) h = last_true _
  round-GoesOn (screen lagged) h = Returns-pure GoesOn true refl
  round-GoesOn (screen closed) h = Returns-pure GoesOn true refl
  round-GoesOn (datagram (some bytes)) h = last_true _
  round-GoesOn (datagram none) h = Returns-fail GoesOn _
  round-GoesOn tick h = Returns-bind Anything GoesOn _ _ (Returns-Anything _) (λ at _. last_true _)

  live_loop-WasClosed : (is : List Input) → Returns (WasClosed is) (live_loop x hello shared is)
  unfolding live_loop when
  live_loop-WasClosed [] = Returns-fail (WasClosed []) _
  live_loop-WasClosed (i ∷ is) = elim (Bool-cases (is_closed i)) [
    | inl here ↦ Returns-always _ _ (λ done. ground (arith, here))
    | inr not_here ↦
        Returns-bind GoesOn (WasClosed (i ∷ is)) _ _ (round-GoesOn i not_here) (λ more goes_on.
          subst (λ b. Returns (WasClosed (i ∷ is)) (when b (live_loop x hello shared is)))
            (sym goes_on)
            (Returns-weaken (WasClosed is) (WasClosed (i ∷ is)) _ (λ done h. ground (arith, h))
              (live_loop-WasClosed is)))
  ]

  run_authenticated-WasClosed :
      (is : List Input) → Returns (WasClosed is) (run_authenticated_session x hello shared is)
  unfolding run_authenticated_session
  run_authenticated-WasClosed is =
      Returns-bind Anything (WasClosed is) _ _ (Returns-Anything _) (λ _ _. live_loop-WasClosed is)

  run_online-WasClosed : (is : List Input) → Returns (WasClosed is) (run_online x hello shared is)
  unfolding Returns run_online ◌>>=◌ change_state lift
  run_online-WasClosed is t a h = run_authenticated-WasClosed is t a h

module _ (x : Context) (port : ℕ) (is : List Input) where
  run_session-WasClosed : Returns (WasClosed is) (run_session x port is)
  unfolding run_session
  run_session-WasClosed = Returns-bind Anything (WasClosed is) _ _ (Returns-Anything _) (λ hellos _.
      Returns-bind Anything (WasClosed is) _ _ (Returns-Anything _) (λ shared _.
        Returns-bind Anything (WasClosed is) _ _ (Returns-Anything _) (λ _ _.
          Returns-bind Anything (WasClosed is) _ _ (Returns-Anything _)
            (λ _ _. run_online-WasClosed x hellos.1 shared is))))

  pub run_session-closed :
      (t : Task) → (run_session x port is t).0 ≡ ok tt → any is_closed is ≡ true
  unfolding Returns
  run_session-closed t h = run_session-WasClosed t tt h
