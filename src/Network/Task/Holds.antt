-- ===== src/Network/Task/Holds.antt =====
-- Steps of a session (src/network.rs) that keep an invariant of the task, whether they succeed or
-- fail, and the rules for their composition. Where the rest of a step needs to know how a value came
-- about, there is a rule for bind at that kind of first step.
use opencord.Base.{◌≡◌, refl, Bool, true, false, Result, ok, err, Error, subst, ok-injective}
use opencord.Store.{Store}
use opencord.Network.Task.{Task, M, ◌>>=◌, pure, lift, check, fail, when, read_store, continue}

module _ (I : Task → Type 0) where
  unfoldable pub Holds : {A : Type 0} → M A → Type 0
  Holds m = (t : Task) → I t → I (m t).1

  Holds-continue :
      {A B : Type 0} (r : Result A) (f : A → M B)
      → ((a : A) → r ≡ ok a → Holds (f a))
      → (t : Task) → I t
      → I (continue r f t).1
  unfolding Holds
  Holds-continue (ok a) f g t h = g a refl t h
  Holds-continue (err e) f g t h = h

  pub Holds-bind :
      {A B : Type 0} (m : M A) (f : A → M B) → Holds m → ((a : A) → Holds (f a)) → Holds (m >>= f)
  unfolding Holds ◌>>=◌
  Holds-bind m f k g t h = Holds-continue (m t).0 f (λ a _. g a) (m t).1 (k t h)

  -- What `m` returns has the property `P`.
  pub Holds-bind_where :
      {A B : Type 0} (P : A → Type 0) (m : M A) (f : A → M B)
      → Holds m
      → ((t : Task) (a : A) → (m t).0 ≡ ok a → P a)
      → ((a : A) → P a → Holds (f a))
      → Holds (m >>= f)
  unfolding Holds ◌>>=◌
  Holds-bind_where P m f k p g t h = Holds-continue (m t).0 f (λ a e. g a (p t a e)) (m t).1 (k t h)

  pub Holds-pure : {A : Type 0} (a : A) → Holds (pure a)
  unfolding Holds pure
  Holds-pure a t h = h

  pub Holds-fail : (A : Type 0) (e : Error) → Holds (fail {A = A} e)
  unfolding Holds fail
  Holds-fail A e t h = h

  pub Holds-lift : {A : Type 0} (r : Result A) → Holds (lift r)
  unfolding Holds lift
  Holds-lift r t h = h

  pub Holds-check : (b : Bool) (e : Error) → Holds (check b e)
  unfolding Holds check
  Holds-check true e t h = h
  Holds-check false e t h = h

  pub Holds-read_store : {A : Type 0} (f : Store → Result A) → Holds (read_store f)
  unfolding Holds read_store
  Holds-read_store f t h = h

  pub Holds-when : (b : Bool) (m : M (Unit {0})) → (b ≡ true → Holds m) → Holds (when b m)
  unfolding when
  Holds-when true m k = k refl
  Holds-when false m k = Holds-pure tt

  pub Holds-check_bind :
      {B : Type 0} (b : Bool) (e : Error) (m : M B)
      → (b ≡ true → Holds m)
      → Holds (check b e >>= λ _. m)
  unfolding Holds check ◌>>=◌
  Holds-check_bind true e m k t h = k refl t h
  Holds-check_bind false e m k t h = h

  pub Holds-lift_bind :
      {A B : Type 0} (r : Result A) (f : A → M B)
      → ((a : A) → r ≡ ok a → Holds (f a))
      → Holds (lift r >>= f)
  unfolding Holds lift ◌>>=◌
  Holds-lift_bind r f k t h = Holds-continue r f k t h

  pub Holds-read_bind :
      {A B : Type 0} (f : Store → Result A) (g : A → M B)
      → ((s : Store) (a : A) → f s ≡ ok a → Holds (g a))
      → Holds (read_store f >>= g)
  unfolding Holds read_store ◌>>=◌
  Holds-read_bind f g k t h = Holds-continue (f t.store) g (k t.store) t h

  -- The value is what is read of the store of a task with the invariant.
  pub Holds-read_bind_at :
      {A B : Type 0} (f : Store → Result A) (g : A → M B)
      → ((t : Task) → I t → (a : A) → f t.store ≡ ok a → Holds (g a))
      → Holds (read_store f >>= g)
  unfolding Holds read_store ◌>>=◌
  Holds-read_bind_at f g k t h = Holds-continue (f t.store) g (k t h) t h

  pub ruleset holds = (
    Holds-check_bind, Holds-lift_bind, Holds-read_bind, Holds-bind, Holds-pure, Holds-lift,
    Holds-fail, Holds-check, Holds-read_store, Holds-when,
  )

-- What a step returns where it succeeds.
unfoldable pub Returns : {A : Type 0} → (A → Type 0) → M A → Type 0
Returns P m = (t : Task) (a : _) → (m t).0 ≡ ok a → P a

Returns-continue :
    {A B : Type 0} (Q : A → Type 0) (P : B → Type 0) (r : Result A) (f : A → M B)
    → ((a : A) → r ≡ ok a → Q a)
    → ((a : A) → Q a → Returns P (f a))
    → (t : Task) (b : B) → (continue r f t).0 ≡ ok b
    → P b
unfolding Returns
Returns-continue Q P (ok a) f q g t b h = g a (q a refl) t b h
Returns-continue Q P (err e) f q g t b h = absurd (cc)

pub Returns-bind :
    {A B : Type 0} (Q : A → Type 0) (P : B → Type 0) (m : M A) (f : A → M B)
    → Returns Q m
    → ((a : A) → Q a → Returns P (f a))
    → Returns P (m >>= f)
unfolding Returns ◌>>=◌
Returns-bind Q P m f q g t b h = Returns-continue Q P (m t).0 f (q t) g (m t).1 b h

abbrev pub Anything : {A : Type 0} → A → Type 0
Anything a = Unit {0}

pub Returns-Anything : {A : Type 0} (m : M A) → Returns Anything m
unfolding Returns
Returns-Anything m t a h = tt

pub Returns-pure : {A : Type 0} (P : A → Type 0) (a : A) → P a → Returns P (pure a)
unfolding Returns pure
Returns-pure P a p t b h = subst P (ok-injective h) p

pub Returns-fail : {A : Type 0} (P : A → Type 0) (e : Error) → Returns P (fail e)
unfolding Returns fail
Returns-fail P e t a h = absurd (cc)

-- What holds of every value.
pub Returns-always : {A : Type 0} (P : A → Type 0) (m : M A) → ((a : A) → P a) → Returns P m
unfolding Returns
Returns-always P m f t a h = f a

pub Returns-weaken :
    {A : Type 0} (P Q : A → Type 0) (m : M A) → ((a : A) → P a → Q a) → Returns P m → Returns Q m
unfolding Returns
Returns-weaken P Q m f k t a h = f a (k t a h)

pub Returns-lift :
    {A : Type 0} (P : A → Type 0) (r : Result A) → ((a : A) → r ≡ ok a → P a) → Returns P (lift r)
unfolding Returns lift
Returns-lift P r f t a h = f a h

pub Returns-read_store :
    {A : Type 0} (P : A → Type 0) (f : Store → Result A)
    → ((s : Store) (a : A) → f s ≡ ok a → P a)
    → Returns P (read_store f)
unfolding Returns read_store
Returns-read_store P f g t a h = g t.store a h
