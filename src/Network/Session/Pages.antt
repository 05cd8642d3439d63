-- ===== src/Network/Session/Pages.antt =====
-- The loop over pages of `send_requested_events` in src/network.rs: as many rounds as there are
-- stored events, and one more, are enough.
use opencord.Base.{
  ℕ, zero, suc, ◌<◌, ◌≤◌, ◌≡◌, refl, sym, subst, ◌∙◌, Bool, true, false, not, List, [], ◌∷◌, All,
  is_empty, length, ◌==◌, Result, ok, err, arith, ok-injective,
}
use opencord.Model.{EventEnvelope}
use opencord.Store.{Store, next_u64}
use opencord.Store.Events.{events_range}
use opencord.Network.Wire.{Wire, WireEvent, RangeRequest}
use opencord.Network.Task.{
  Context, Task, M, ◌>>=◌, pure, when, read_store, continue, send, send_result,
}
use opencord.Network.Transfer.{send_batch_if, send_page, send_range}
use opencord.Network.Session.Cursor.{left, left-length, events_range-left}

-- A step that leaves the store as it is, with a result that has a property where it has one.
unfoldable IsReader : {A : Type 0} (P : A → Type 0) → M A → Type 0
IsReader P m = (t : Task) → ((m t).1.store ≡ t.store) × ((a : _) → (m t).0 ≡ ok a → P a)

continue-IsReader :
    {A B : Type 0} (P : A → Type 0) (Q : B → Type 0) (r : Result A) (f : A → M B)
    → ((a : A) → P a → IsReader Q (f a))
    → ((a : A) → r ≡ ok a → P a)
    → (t : Task)
    → ((continue r f t).1.store ≡ t.store) × ((b : B) → (continue r f t).0 ≡ ok b → Q b)
unfolding IsReader
continue-IsReader P Q (ok a) f g h t = g a (h a refl) t
continue-IsReader P Q (err e) f g h t = (refl, λ b k. absurd (cc))

bind-IsReader :
    {A B : Type 0} (P : A → Type 0) (Q : B → Type 0) (m : M A) (f : A → M B)
    → IsReader P m
    → ((a : A) → P a → IsReader Q (f a))
    → IsReader Q (m >>= f)
unfolding IsReader ◌>>=◌
bind-IsReader P Q m f h g t =
    let both = continue-IsReader P Q (m t).0 f g (h t).1 (m t).1 in (both.0 ∙ (h t).0, both.1)

pure-IsReader : {A : Type 0} (P : A → Type 0) (a : A) → P a → IsReader P (pure a)
unfolding IsReader pure
pure-IsReader P a p t = (refl, λ b k. subst P (ok-injective k) p)

abbrev Anything : {A : Type 0} → A → Type 0
Anything a = Unit {0}

read_store-IsReader : {A : Type 0} (f : Store → Result A) → IsReader Anything (read_store f)
unfolding IsReader read_store
read_store-IsReader f t = (refl, λ a k. tt)

module _ (x : Context) where
  send_result-store :
      (w : Wire) (r : Result (List ℕ)) (t : Task) → (send_result x w r t).1.store ≡ t.store
  unfolding send_result
  send_result-store w (ok bytes) t = refl
  send_result-store w (err e) t = refl

  send-IsReader : (w : Wire) → IsReader Anything (send x w)
  unfolding IsReader send
  send-IsReader w t = (send_result-store w _ t, λ a k. tt)

  send_batch_if-IsReader :
      (b : Bool) (batch : List WireEvent) → IsReader Anything (send_batch_if x b batch)
  unfolding send_batch_if
  send_batch_if-IsReader true batch = send-IsReader _
  send_batch_if-IsReader false batch = pure-IsReader Anything tt tt

  -- The cursor after a page is that after one of its events, or the first one.
  send_page-IsReader :
      (Q : ℕ → Type 0) (es : List EventEnvelope) (cursor : ℕ) (batch : List WireEvent) (bytes : ℕ)
      → Q cursor
      → All (λ e. Q (next_u64 e.header.author_sequence)) es
      → IsReader Q (send_page x es cursor batch bytes)
  unfolding send_page
  send_page-IsReader Q [] cursor batch bytes q all =
      bind-IsReader Anything Q _ _ (send_batch_if-IsReader _ batch)
        (λ _ _. pure-IsReader Q cursor q)
  send_page-IsReader Q (e ∷ es) cursor batch bytes q all =
      bind-IsReader Anything Q _ _ (read_store-IsReader _) (λ name _.
        bind-IsReader Anything Q _ _ (send_batch_if-IsReader _ batch)
          (λ _ _. send_page-IsReader Q es _ _ _ all.0 all.1))

  send_page-next :
      (Q : ℕ → Type 0) (es : List EventEnvelope) (cursor : ℕ)
      → is_empty es ≡ false
      → All (λ e. Q (next_u64 e.header.author_sequence)) es
      → IsReader Q (send_page x es cursor [] 0)
  unfolding send_page
  send_page-next Q [] cursor some_are all = absurd (cc)
  send_page-next Q (e ∷ es) cursor some_are all =
      bind-IsReader Anything Q _ _ (read_store-IsReader _) (λ name _.
        bind-IsReader Anything Q _ _ (send_batch_if-IsReader _ _)
          (λ _ _. send_page-IsReader Q es _ _ _ all.0 all.1))

-- What holds after every event of a page, holds of the cursor that the page returns.
pub send_page-cursor :
    (x : Context) (Q : ℕ → Type 0) (es : List EventEnvelope) (cursor c : ℕ) (t : Task)
    → is_empty es ≡ false
    → All (λ e. Q (next_u64 e.header.author_sequence)) es
    → (send_page x es cursor [] 0 t).0 ≡ ok c
    → Q c
unfolding IsReader
send_page-cursor x Q es cursor c t some_are all h =
    (send_page-next x Q es cursor some_are all t).1 c h

when-agree :
    (b : Bool) (m k : M (Unit {0})) (t : Task) → (b ≡ true → m t ≡ k t) → when b m t ≡ when b k t
unfolding when
when-agree true m k t h = h refl
when-agree false m k t h = refl

module _ (x : Context) (r : RangeRequest) where
  -- What is left of the range.
  abbrev remaining : ℕ → Task → ℕ
  remaining cursor t = left r.group_id r.author cursor t.store.events

  module _ (n m : ℕ)
      (agree : (cursor : ℕ) (t : Task)
        → remaining cursor t < n
        → send_range x n r cursor t ≡ send_range x m r cursor t) where
    agree-cursor :
        (result : Result ℕ) (t : Task)
        → ((cursor : ℕ) → result ≡ ok cursor → remaining cursor t < n)
        → continue result (λ cursor. when (not (cursor == 0)) (send_range x n r cursor)) t
          ≡ continue result (λ cursor. when (not (cursor == 0)) (send_range x m r cursor)) t
    agree-cursor (ok cursor) t h = when-agree _ _ _ t (λ _. agree cursor t (h cursor refl))
    agree-cursor (err e) t h = refl

    agree-page :
        (cursor : ℕ) (t : Task) (page : Result (List EventEnvelope))
        → events_range r.group_id r.author cursor r.last t.store ≡ page
        → remaining cursor t < suc n
        → continue page
            (λ events.
              when
                (not (is_empty events))
                (send_page x events cursor [] 0 >>= λ c. when (not (c == 0)) (send_range x n r c)))
            t
          ≡ continue page
              (λ events.
                when (not (is_empty events)) (
                  send_page x events cursor [] 0 >>= λ c. when (not (c == 0)) (send_range x m r c)))
              t
    unfolding ◌>>=◌ IsReader
    agree-page cursor t (err e) found k = refl
    agree-page cursor t (ok events) found k = when-agree _ _ _ t (λ some_are.
        let sent =
          send_page-next x (λ c. remaining c t < remaining cursor t) events cursor (ground arith)
            (events_range-left r.group_id r.author cursor r.last t.store events found) t in
        agree-cursor (send_page x events cursor [] 0 t).0 (send_page x events cursor [] 0 t).1
          (λ c c_is.
            subst (λ s. left r.group_id r.author c s.events < n) (sym sent.0)
              (omega (arith, sent.1 c c_is))))

  send_range-agree :
      (n m cursor : ℕ) (t : Task)
      → remaining cursor t < n
      → n ≤ m
      → send_range x n r cursor t ≡ send_range x m r cursor t
  unfolding send_range ◌>>=◌ read_store
  send_range-agree zero m cursor t k l = absurd (omega arith)
  send_range-agree (suc n) zero cursor t k l = absurd (omega arith)
  send_range-agree (suc n) (suc m) cursor t k l = when-agree _ _ _ t (λ _.
      agree-page n m (λ c t' k'. send_range-agree n m c t' k' (omega arith)) cursor t _ refl k)

  -- With more rounds than there are stored events, the loop over the pages of a range does what it
  -- does with one round more than that, which is what `send_requested_events` gives it: it never
  -- stops for lack of rounds.
  pub send_range-enough :
      (rounds cursor : ℕ) (t : Task)
      → length t.store.events < rounds
      → send_range x rounds r cursor t ≡ send_range x (suc (length t.store.events)) r cursor t
  send_range-enough rounds cursor t k =
      let few = left-length r.group_id r.author cursor t.store.events in
      sym (
        send_range-agree (suc (length t.store.events)) rounds cursor t (omega (arith, few))
          (omega arith))
