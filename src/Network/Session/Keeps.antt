-- ===== src/Network/Session/Keeps.antt =====
-- The node under the steps of a session of src/network.rs: a step keeps the store reachable when all
-- that it does to the store is calls of its operations, and leaves alone which peers are online.
use opencord.Base.{
  ℕ, ◌≡◌, refl, sym, subst, ◌∙◌, Bool, true, false, List, [], ◌∷◌, Result, ok, err, Error,
}
use opencord.Store.{Store}
use opencord.Store.Reach.{Step, Reach, next}
use opencord.Network.State.{bump}
use opencord.Network.Wire.{Wire}
use opencord.Network.Task.{
  Context, Task, M, ◌>>=◌, pure, lift, check, fail, read_store, write_store, change_state, receive,
  send, now, draw, when, continue, take_frame, write_result, send_result,
}
use opencord.Crates.{Crates}

module _ (c : Crates) where
  -- What a step from the one task to the other has left.
  pub record Kept (t t' : Task) : Type 0 where
    pub reach : Reach c t.store → Reach c t'.store
    pub peers : t'.state.peers ≡ t.state.peers

  pub Kept-same : (t t' : Task) → t'.store ≡ t.store → t'.state.peers ≡ t.state.peers → Kept t t'
  Kept-same t t' same peers = record { reach = λ h. subst (Reach c) (sym same) h; peers = peers }

  Kept-trans : {t t' t'' : Task} → Kept t t' → Kept t' t'' → Kept t t''
  Kept-trans k l = record { reach = λ h. l.reach (k.reach h); peers = l.peers ∙ k.peers }

  unfoldable pub Keeps : {A : Type 0} → M A → Type 0
  Keeps m = (t : Task) → Kept t (m t).1

  Keeps-continue :
      {A B : Type 0} (r : Result A) (f : A → M B)
      → ((a : A) → Keeps (f a))
      → (t : Task) → Kept t (continue r f t).1
  unfolding Keeps
  Keeps-continue (ok a) f g t = g a t
  Keeps-continue (err e) f g t = Kept-same t t refl refl

  pub Keeps-bind :
      {A B : Type 0} (m : M A) (f : A → M B) → Keeps m → ((a : A) → Keeps (f a)) → Keeps (m >>= f)
  unfolding Keeps ◌>>=◌
  Keeps-bind m f k g t = Kept-trans (k t) (Keeps-continue (m t).0 f g (m t).1)

  pub Keeps-pure : {A : Type 0} (a : A) → Keeps (pure a)
  unfolding Keeps pure
  Keeps-pure a t = Kept-same t _ refl refl

  pub Keeps-lift : {A : Type 0} (r : Result A) → Keeps (lift r)
  unfolding Keeps lift
  Keeps-lift r t = Kept-same t _ refl refl

  pub Keeps-fail : (A : Type 0) (e : Error) → Keeps (fail {A = A} e)
  unfolding Keeps fail
  Keeps-fail A e t = Kept-same t _ refl refl

  pub Keeps-check : (b : Bool) (e : Error) → Keeps (check b e)
  unfolding Keeps check
  Keeps-check true e t = Kept-same t _ refl refl
  Keeps-check false e t = Kept-same t _ refl refl

  pub Keeps-when : (b : Bool) (m : M (Unit {0})) → Keeps m → Keeps (when b m)
  unfolding when
  Keeps-when true m k = k
  Keeps-when false m k = Keeps-pure tt

  pub Keeps-read : {A : Type 0} (f : Store → Result A) → Keeps (read_store f)
  unfolding Keeps read_store
  Keeps-read f t = Kept-same t _ refl refl

  pub Keeps-bump : Keeps (change_state bump)
  unfolding Keeps change_state bump
  Keeps-bump t = Kept-same t _ refl refl

  Keeps-take_frame : (rs : List (Result Wire)) (t : Task) → Kept t (take_frame rs t).1
  unfolding take_frame
  Keeps-take_frame [] t = Kept-same t _ refl refl
  Keeps-take_frame (r ∷ rs) t = Kept-same t _ refl refl

  pub Keeps-receive : Keeps receive
  unfolding Keeps receive
  Keeps-receive t = Keeps-take_frame t.inbox t

  Keeps-write_result :
      {A : Type 0} (r : Result (A × Store)) (t : Task)
      → ((a : A) (s' : Store) → r ≡ ok (a, s') → Step c t.store s')
      → Kept t (write_result r t).1
  unfolding write_result
  Keeps-write_result (ok (a, s)) t f = record { reach = λ h. next h (f a s refl); peers = refl }
  Keeps-write_result (err e) t f = Kept-same t _ refl refl

  pub Keeps-write :
      {A : Type 0} (f : Store → Result (A × Store))
      → ((s : Store) (a : A) (s' : Store) → f s ≡ ok (a, s') → Step c s s')
      → Keeps (write_store f)
  unfolding Keeps write_store
  Keeps-write f g t = Keeps-write_result (f t.store) t (g t.store)

  -- A write that cannot fail.
  pub Keeps-write_ok :
      (f : Store → Store)
      → ((s : Store) → Step c s (f s))
      → Keeps (write_store {A = Unit {0}} (λ s. ok (tt, f s)))
  unfolding Keeps write_store write_result
  Keeps-write_ok f g t = record { reach = λ h. next h (g t.store); peers = refl }

  module _ (x : Context) where
    pub Keeps-now : Keeps (now x)
    unfolding Keeps now
    Keeps-now t = Kept-same t _ refl refl

    pub Keeps-draw : Keeps (draw x)
    unfolding Keeps draw
    Keeps-draw t = Kept-same t _ refl refl

    Keeps-send_result : (w : Wire) (r : Result (List ℕ)) (t : Task) → Kept t (send_result x w r t).1
    unfolding send_result
    Keeps-send_result w (ok bytes) t = Kept-same t _ refl refl
    Keeps-send_result w (err e) t = Kept-same t _ refl refl

    pub Keeps-send : (w : Wire) → Keeps (send x w)
    unfolding Keeps send
    Keeps-send w t = Keeps-send_result w _ t

  pub ruleset keeps = (
    Keeps-bind, Keeps-pure, Keeps-lift, Keeps-fail, Keeps-check, Keeps-read, Keeps-bump,
    Keeps-receive, Keeps-now, Keeps-when, Keeps-draw, Keeps-send,
  )
