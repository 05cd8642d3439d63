-- ===== src/Network/Session/Complete.antt =====
-- `send_range` of src/network.rs writes every stored event of the range.
use opencord.Base.{
  All-both, ℕ, zero, suc, ◌+◌, ◌<◌, ◌≤◌, ◌≡◌, refl, sym, subst, ◌∙◌, Bool, true, false, not, ◌||◌,
  List, [], All, All-map, any, is_empty, length, leb, ◌==◌, Result, ok, arith, Bool-cases, inl, inr,
}
use opencord.Model.{EventEnvelope}
use opencord.Store.{Store, event_from_row, is_event_at, next_u64, i64_limit}
use opencord.Store.Events.{events_range}
use opencord.Store.Page.{is_at, page, page_or_before, page-empty, page-All, events_range-page}
use opencord.Store.Range.{events_range-All}
use opencord.Network.Frames.{send_frame}
use opencord.Network.Wire.{WireEvent, RangeRequest, event_batch}
use opencord.Network.Task.{Context, Task, M, ◌>>=◌, pure, when, read_store}
use opencord.Network.Transfer.{send_page, send_range}
use opencord.Network.Session.Batches.{IsBatch, IsSmall, was_sent, send_page_lem, bind_ok}
use opencord.Network.Session.Cursor.{left, left-length, events_range-left, next_u64-add}
use opencord.Network.Session.Pages.{send_page-cursor}

-- Every stored event is within the bound of a batch alone.
abbrev pub AllSmall : Context → Store → Type 0
AllSmall x s = All (λ row. IsSmall x.net.crates s (event_from_row row)) s.events

when-true : (b : Bool) (m : M (Unit {0})) (t : Task) → b ≡ true → when b m t ≡ m t
unfolding when
when-true true m t h = refl
when-true false m t h = absurd (cc)

when-false : (b : Bool) (m : M (Unit {0})) (t : Task) → b ≡ false → when b m t ≡ (ok tt, t)
unfolding when pure
when-false true m t h = absurd (cc)
when-false false m t h = refl

not_zero : (c : ℕ) → 0 < c → not (c == 0) ≡ true
not_zero c h = ground (arith, h)

sent_or_ahead : (a b c d : Bool) → d ≡ (a || b) → ((a || b) || c) ≡ true → (c || d) ≡ true
sent_or_ahead a b c d e h = ground (arith, e, h)

module _ (x : Context) (request : RangeRequest) (k : ℕ)
    (fits : (ws : List WireEvent)
      → IsBatch ws
      → (bytes : List ℕ) × (send_frame x.net.wire_codec (event_batch ws) ≡ ok bytes))
    (last_fits : request.last < i64_limit)
    -- whether the event is looked for
    (wanted : Bool) (in_range : wanted ≡ true → k ≤ request.last) where
  abbrev pub goal : EventEnvelope → Bool
  goal = is_at request.group_id request.author k

  abbrev pub IsThere : Store → Type 0
  IsThere s = any (is_event_at request.group_id request.author k) s.events ≡ true

  abbrev first_page : ℕ → Store → List EventEnvelope
  first_page cursor s = page request.group_id request.author cursor request.last s

  -- What is left of the range.
  abbrev pub ahead : ℕ → Store → ℕ
  ahead cursor s = left request.group_id request.author cursor s.events

  abbrev pub Completed : Task → Result (Unit {0}) × Task → Type 0
  Completed t r = (r.0 ≡ ok tt) × (r.1.store ≡ t.store) × (wanted ≡ true → was_sent goal r.1 ≡ true)

  -- A cursor after a page: it has moved on, and the event was sent or is still ahead.
  abbrev IsNext : ℕ → Task → ℕ → Type 0
  IsNext cursor t c =
      (ahead c t.store < ahead cursor t.store)
      × (0 < c)
      × (wanted ≡ true
          → ((was_sent goal t || any goal (first_page cursor t.store)) || leb c k) ≡ true)

  -- The numbers of a page do not wrap.
  page-next :
      (cursor : ℕ) (s : Store)
      → events_range request.group_id request.author cursor request.last s
        ≡ ok (first_page cursor s)
      → All
          (λ e. next_u64 e.header.author_sequence ≡ e.header.author_sequence + 1)
          (first_page cursor s)
  unfolding event_from_row
  page-next cursor s valid =
      events_range-All request.group_id request.author cursor request.last s _
        (λ row k' found. next_u64-add row.author_sequence (ground (arith, last_fits))) valid

  page-IsNext :
      (cursor : ℕ) (t : Task)
      → events_range request.group_id request.author cursor request.last t.store
        ≡ ok (first_page cursor t.store)
      → (wanted ≡ true → IsThere t.store)
      → (wanted ≡ true → (leb cursor k || was_sent goal t) ≡ true)
      → All (λ e. IsNext cursor t (next_u64 e.header.author_sequence)) (first_page cursor t.store)
  page-IsNext cursor t valid found h =
      let es = first_page cursor t.store in
      let next = page-next cursor t.store valid in
      let moved =
        events_range-left request.group_id request.author cursor request.last t.store es valid in
      let both = All-both _ _ es next moved in
      elim (Bool-cases wanted) [
        | inr idle ↦
            All-map _ _ es
              (λ e h'. (h'.1, omega (arith, h'.0), λ w. absurd (ground (arith, idle, w)))) both
        | inl w ↦ elim (Bool-cases (was_sent goal t || any goal es)) [
          | inl sent ↦
              All-map _ _ es (λ e h'. (h'.1, omega (arith, h'.0), λ _. ground (arith, sent))) both
          | inr unsent ↦
              elim (page_or_before request.group_id request.author cursor request.last t.store k
                (ground (arith, h w, unsent)) (in_range w) (found w)) [
                  | inl here ↦ absurd (ground (arith, here, unsent))
                  | inr before ↦
                      All-map _ _ es
                        (λ e h'. (h'.0.1, omega (arith, h'.0.0), λ _. ground (arith, h'.0.0, h'.1)))
                        (All-both _ _ es both before)
                ]
        ]
      ]

  -- The rounds after a page do what is left, given that they do it with less of the range left.
  module _ (fuel cursor : ℕ) (t : Task) (small : AllSmall x t.store)
      (found : wanted ≡ true → IsThere t.store)
      (h : wanted ≡ true → (leb cursor k || was_sent goal t) ≡ true)
      (again : (c : ℕ) (t' : Task)
        → ahead c t'.store < ahead cursor t.store
        → 0 < c
        → AllSmall x t'.store
        → (wanted ≡ true → IsThere t'.store)
        → (wanted ≡ true → (leb c k || was_sent goal t') ≡ true)
        → Completed t' (send_range x fuel request c t')) where
    abbrev next_rounds : ℕ → M (Unit {0})
    next_rounds c = when (not (c == 0)) (send_range x fuel request c)

    abbrev first_round : M (Unit {0})
    first_round = send_page x (first_page cursor t.store) cursor [] 0 >>= next_rounds

    page-Completed :
        events_range request.group_id request.author cursor request.last t.store
          ≡ ok (first_page cursor t.store)
        → is_empty (first_page cursor t.store) ≡ false
        → Completed t (first_round t)
    page-Completed valid some_are =
        let es = first_page cursor t.store in
        let (c, done, same, sent) =
          send_page_lem x goal fits es cursor [] 0 t refl (λ e. absurd (cc))
            (page-All request.group_id request.author cursor request.last t.store _ small) in
        let t' : Task = (send_page x es cursor [] 0 t).1 in
        let (closer, positive, hit) =
          send_page-cursor x (IsNext cursor t) es cursor c t some_are
            (page-IsNext cursor t valid found h) done in
        let rest : Completed t' (send_range x fuel request c t') =
          again c t' (subst (λ s. ahead c s < ahead cursor t.store) (sym same) closer) positive
            (subst (AllSmall x) (sym same) small) (λ w. subst IsThere (sym same) (found w))
            (λ w.
              sent_or_ahead (was_sent goal t) (any goal es) (leb c k) (was_sent goal t') sent
                (hit w)) in
        let last_step =
          when-true (not (c == 0)) (send_range x fuel request c) t' (not_zero c positive) in
        subst (Completed t) (sym (bind_ok _ next_rounds t c done ∙ last_step))
          (rest.0, rest.1 ∙ same, rest.2)

    range-Completed :
        0 < cursor
        → leb cursor request.last ≡ true
        → Completed t (
            (read_store (events_range request.group_id request.author cursor request.last)
                >>= λ events.
                    when (not (is_empty events)) (send_page x events cursor [] 0 >>= next_rounds))
              t)
    unfolding read_store
    range-Completed some more =
        let g = request.group_id in
        let valid =
          events_range-page g request.author cursor request.last t.store some (ground (arith, more))
            last_fits in
        subst (Completed t)
          (sym (
            bind_ok (read_store (events_range g request.author cursor request.last))
              (λ events.
                when (not (is_empty events)) (send_page x events cursor [] 0 >>= next_rounds))
              t (first_page cursor t.store) valid))
          (elim (Bool-cases (is_empty (first_page cursor t.store))) [
            | inl none_left ↦
                subst (Completed t) (sym (when-false _ first_round t (ground (arith, none_left)))) (
                  refl,
                  refl,
                  λ w. ground (
                    arith,
                    in_range w,
                    found w,
                    h w,
                    page-empty g request.author cursor request.last t.store k,
                  ),
                )
            | inr some_are ↦
                subst (Completed t) (sym (when-true _ first_round t (ground (arith, some_are))))
                  (page-Completed valid some_are)
          ])

  pub send_range-Completed :
      (fuel cursor : ℕ) (t : Task)
      → ahead cursor t.store < fuel
      → 0 < cursor
      → AllSmall x t.store
      → (wanted ≡ true → IsThere t.store)
      → (wanted ≡ true → (leb cursor k || was_sent goal t) ≡ true)
      → Completed t (send_range x fuel request cursor t)
  unfolding send_range
  send_range-Completed zero cursor t enough some small found h = absurd (omega (arith, enough))
  send_range-Completed (suc fuel) cursor t enough some small found h =
      elim (Bool-cases (leb cursor request.last)) [
        | inl more ↦ subst (Completed t) (sym (when-true _ _ t more)) (
            range-Completed fuel cursor t small found h
              (λ c t' less. send_range-Completed fuel c t' (omega (arith, less, enough))) some more)
        | inr over ↦
            subst (Completed t) (sym (when-false _ _ t over))
              (refl, refl, λ w. ground (arith, in_range w, h w))
      ]

module _ (x : Context) (request : RangeRequest) (k : ℕ)
    (fits : (ws : List WireEvent)
      → IsBatch ws
      → (bytes : List ℕ) × (send_frame x.net.wire_codec (event_batch ws) ≡ ok bytes))
    (last_fits : request.last < i64_limit) (in_range : k ≤ request.last) where
  -- For a range with a positive first number and a last one below 2 ^ 63, if every batch within
  -- the bound fits a frame and every stored event is within the bound alone: the loop over the
  -- pages of the range ends without an error and has written each stored event whose number is in
  -- the range.
  pub send_range_complete :
      (t : Task)
      → 0 < request.first
      → request.first ≤ k
      → AllSmall x t.store
      → any (is_event_at request.group_id request.author k) t.store.events ≡ true
      → ((send_range x (suc (length t.store.events)) request request.first t).0 ≡ ok tt)
        × (was_sent
              (is_at request.group_id request.author k)
              (send_range x (suc (length t.store.events)) request request.first t).1
            ≡ true)
  send_range_complete t some low small found =
      let enough = left-length request.group_id request.author request.first t.store.events in
      let done =
        send_range-Completed x request k fits last_fits true (λ _. in_range)
          (suc (length t.store.events)) request.first t (omega (arith, enough)) some small
          (λ _. found) (λ _. ground (arith, low)) in
      (done.0, done.2 refl)
