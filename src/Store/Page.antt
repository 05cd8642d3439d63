-- ===== src/Store/Page.antt =====
-- Which events of a range `events_range` of src/store.rs puts on the first page.
use opencord.Base.{
  ℕ, zero, suc, ◌<◌, ◌≤◌, ◌≡◌, refl, sym, ap, ◌∙◌, Bool, true, false, ◌==◌, ◌&&◌, if◌then◌else◌,
  List, [], ◌∷◌, All, All-map, Bool-cases, inl, inr, ◌⊎◌, All-filterb-true, All-filterb, All-take,
  any, filterb, map, take, ltb, is_empty, ok, arith,
}
use opencord.Model.{GroupId, PeerId, EventEnvelope}
use opencord.Store.{Store, EventRow, event_from_row, is_event_at, i64_limit}
use opencord.Store.Order.{All-order_by, IsOrdered, order_by-IsOrdered, any-order_by}
use opencord.Store.Events.{events_range, range_rows}
use opencord.Store.Range.{in_range, All-of_map}

-- The event stands at a place of an author's log.
abbrev pub is_at : GroupId → PeerId → ℕ → EventEnvelope → Bool
is_at g a k e = e.header.group_id == g && (e.header.author == a && e.header.author_sequence == k)

-- ORDER BY author_sequence
abbrev by_sequence : EventRow → EventRow → Bool
by_sequence e f = ltb e.author_sequence f.author_sequence

module _ (g : GroupId) (a : PeerId) (k : ℕ) where
  pub any-is_at :
      (rs : List EventRow) → any (is_at g a k) (map event_from_row rs) ≡ any (is_event_at g a k) rs
  unfolding event_from_row
  any-is_at [] = refl
  any-is_at (r ∷ rs) = ap (λ b. if is_event_at g a k r then true else b) (any-is_at rs)

  not-above :
      (m : ℕ) (rs : List EventRow)
      → All (λ r. ltb r.author_sequence m ≡ false) rs
      → any (is_event_at g a k) rs ≡ true
      → m ≤ k
  not-above m [] h e = absurd (cc)
  not-above m (r ∷ rs) h e = ground (arith, not-above m rs h.1)

  -- Of sorted rows of the author, the first ones have the row at `k` or all stand before it.
  take_or_before :
      (n : ℕ) (rs : List EventRow)
      → All (λ r. (r.group_id == g && r.author == a) ≡ true) rs
      → IsOrdered by_sequence rs
      → any (is_event_at g a k) rs ≡ true
      → (any (is_event_at g a k) (take n rs) ≡ true) ⊎ All (λ r. r.author_sequence < k) (take n rs)
  take_or_before zero rs mine sorted h = inr tt
  take_or_before (suc n) [] mine sorted h = inr tt
  take_or_before (suc n) (r ∷ rs) mine sorted h = elim (Bool-cases (is_event_at g a k r)) [
    | inl hit ↦ inl (ground arith)
    | inr miss ↦
        let later : any (is_event_at g a k) rs ≡ true = ground arith in
        let before : r.author_sequence < k =
          ground (arith, mine.0, not-above r.author_sequence rs sorted.0 later) in
        elim (take_or_before n rs mine.1 sorted.1 later) [
          | inl found ↦ inl (ground arith)
          | inr all ↦ inr (before, all)
        ]
  ]

  any-filterb_of :
      (p : EventRow → Bool) (rs : List EventRow)
      → ((r : EventRow) → is_event_at g a k r ≡ true → p r ≡ true)
      → any (is_event_at g a k) (filterb p rs) ≡ any (is_event_at g a k) rs
  any-filterb_of p [] h = refl
  any-filterb_of p (r ∷ rs) h = ground (arith, h r, any-filterb_of p rs h)

no_rows :
    (q : EventRow → Bool) (rs : List EventRow)
    → is_empty (map event_from_row (take 128 rs)) ≡ true
    → any q rs ≡ false
no_rows q [] h = refl
no_rows q (r ∷ rs) h = absurd (cc)

before_of_row :
    (k : ℕ) (rs : List EventRow)
    → All (λ r. r.author_sequence < k) rs
    → All (λ r. (event_from_row r).header.author_sequence < k) rs
unfolding event_from_row
before_of_row k rs h = h

module _ (g : GroupId) (a : PeerId) (n last : ℕ) (s : Store) where
  any-range_rows :
      (k : ℕ)
      → n ≤ k
      → k ≤ last
      → any (is_event_at g a k) (range_rows g a n last s) ≡ any (is_event_at g a k) s.events
  unfolding range_rows
  any-range_rows k low high =
      any-order_by by_sequence (is_event_at g a k) _
      ∙ any-filterb_of g a k (in_range g a n last) s.events (λ r e. ground arith)

  range_rows-mine : All (λ r. (r.group_id == g && r.author == a) ≡ true) (range_rows g a n last s)
  unfolding range_rows
  range_rows-mine =
      All-order_by _ _ _
        (All-map _ _ _ (λ r k. ground arith) (All-filterb-true (in_range g a n last) s.events))

  range_rows-IsOrdered : IsOrdered by_sequence (range_rows g a n last s)
  unfolding range_rows
  range_rows-IsOrdered =
      order_by-IsOrdered by_sequence (λ x y h. ground arith) (λ x y z h k. ground arith) _

  -- The page of a valid range.
  abbrev pub page : List EventEnvelope
  page = map event_from_row (take 128 (range_rows g a n last s))

  pub events_range-page : 0 < n → n ≤ last → last < i64_limit → events_range g a n last s ≡ ok page
  unfolding events_range
  events_range-page h k l = ground arith

  -- The first page has the event at `k`, or all of its events stand before it.
  pub page_or_before :
      (k : ℕ)
      → n ≤ k
      → k ≤ last
      → any (is_event_at g a k) s.events ≡ true
      → (any (is_at g a k) page ≡ true) ⊎ All (λ e. e.header.author_sequence < k) page
  page_or_before k low high h =
      let rows = range_rows g a n last s in
      elim (take_or_before g a k 128 rows range_rows-mine range_rows-IsOrdered
        (any-range_rows k low high ∙ h)) [
          | inl found ↦ inl (any-is_at g a k (take 128 rows) ∙ found)
          | inr all ↦
              inr
                (All-of_map _ event_from_row (take 128 rows) (before_of_row k (take 128 rows) all))
        ]

  -- What every stored row has, every event of the page has.
  pub page-All :
      (P : EventEnvelope → Type 0) → All (λ r. P (event_from_row r)) s.events → All P page
  unfolding range_rows
  page-All P h =
      All-of_map P event_from_row _
        (All-take _ 128 _ (All-order_by _ _ _ (All-filterb _ (in_range g a n last) s.events h)))

  pub page-empty :
      (k : ℕ) → n ≤ k → k ≤ last → is_empty page ≡ true → any (is_event_at g a k) s.events ≡ false
  page-empty k low high h = sym (any-range_rows k low high) ∙ no_rows _ _ h
