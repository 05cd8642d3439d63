-- ===== src/Store/Range.antt =====
-- The pages that `events_range` of src/store.rs returns.
use opencord.Base.{
  ℕ, ◌<◌, ◌≡◌, sym, subst, Bool, true, ◌==◌, ◌&&◌, List, [], ◌∷◌, All, All-map, All-take,
  All-filterb, All-filterb-true, All-both, any, map, take, leb, ltb, ok, arith, ok-injective,
  ensure-inv, bind-inv,
}
use opencord.Model.{GroupId, PeerId, EventEnvelope}
use opencord.Store.{Store, EventRow, event_from_row, is_event_at, sql_u64, i64_limit}
use opencord.Store.Order.{All-order_by}
use opencord.Store.Events.{events_range, range_rows}

-- The test of the WHERE clause.
abbrev pub in_range : GroupId → PeerId → ℕ → ℕ → EventRow → Bool
in_range g a n last r =
    r.group_id == g && (r.author == a && (leb n r.author_sequence && leb r.author_sequence last))

-- The row is found by its key.
abbrev pub IsStored : List EventRow → EventRow → Type 0
IsStored rs r = any (is_event_at r.group_id r.author r.author_sequence) rs ≡ true

pub IsStored-All : (rs : List EventRow) → All (IsStored rs) rs
IsStored-All [] = tt
IsStored-All (r ∷ rs) = (ground arith, All-map _ _ rs (λ q k. ground arith) (IsStored-All rs))

pub All-of_map {ℓ κ} :
    {A B : Type ℓ} (P : B → Type κ) (f : A → B) (xs : List A)
    → All (λ x. P (f x)) xs
    → All P (map f xs)
All-of_map P f [] h = tt
All-of_map P f (x ∷ xs) h = (h.0, All-of_map P f xs h.1)

sql_u64_lem : (n m : ℕ) → sql_u64 n ≡ ok m → (m ≡ n) × (n < i64_limit)
sql_u64_lem n m h = (ground arith, ground arith)

module _ (g : GroupId) (a : PeerId) (n last : ℕ) (s : Store) where
  pub events_range-inv :
      {es : List EventEnvelope}
      → events_range g a n last s ≡ ok es
      → (es ≡ map event_from_row (take 128 (range_rows g a n last s))) × (last < i64_limit)
  unfolding events_range
  events_range-inv {es} h = ensure-inv (ltb 0 n && leb n last) _ _ h λ _ h1.
      bind-inv (sql_u64 n) _ h1 λ n' n_is h2. bind-inv (sql_u64 last) _ h2 λ last' last_is h3. (
        subst (λ m. es ≡ map event_from_row (take 128 (range_rows g a m last s)))
            (sql_u64_lem n n' n_is).0
            (subst (λ m. es ≡ map event_from_row (take 128 (range_rows g a n' m s)))
              (sql_u64_lem last last' last_is).0 (sym (ok-injective h3))),
        (sql_u64_lem last last' last_is).1,
      )

  -- What a row in the range has, an event of the page has.
  pub events_range-All :
      (P : EventEnvelope → Type 0) {es : List EventEnvelope}
      → ((r : EventRow) → in_range g a n last r ≡ true → IsStored s.events r → P (event_from_row r))
      → events_range g a n last s ≡ ok es
      → All P es
  unfolding range_rows
  events_range-All P f h =
      let rows =
        All-map _ _ _ (λ r k. f r k.0 k.1)
          (All-both (λ r. in_range g a n last r ≡ true) (IsStored s.events) _
            (All-filterb-true _ s.events)
            (All-filterb (IsStored s.events) _ s.events (IsStored-All s.events))) in
      subst (All P) (sym (events_range-inv h).0)
        (All-of_map P event_from_row _ (All-take _ 128 _ (All-order_by _ _ _ rows)))
