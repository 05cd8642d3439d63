-- ===== src/Network/Session/Cursor.antt =====
-- What a page of `events_range` (src/store.rs) leaves of a range, for the loop over pages in
-- `send_requested_events` of src/network.rs.
use opencord.Base.{
  ℕ, ◌+◌, ◌<◌, ◌≤◌, ◌≡◌, sym, subst, true, ◌==◌, ◌&&◌, ==_iff, if◌then◌else◌, List, [], ◌∷◌, All,
  any, length, leb, ok, arith,
}
use opencord.Model.{GroupId, PeerId, EventEnvelope}
use opencord.Store.{Store, EventRow, event_from_row, is_event_at, next_u64, i64_limit}
use opencord.Store.Events.{events_range}
use opencord.Store.Range.{IsStored, events_range-inv, events_range-All}

-- The stored events of an author from a sequence number on.
abbrev pub left : GroupId → PeerId → ℕ → List EventRow → ℕ
left g a n [] = 0
left g a n (r ∷ rs) =
    (if (r.group_id == g && r.author == a) && leb n r.author_sequence then 1 else 0) + left g a n rs

module _ (g : GroupId) (a : PeerId) where
  left-le : (n m : ℕ) (rs : List EventRow) → n ≤ m → left g a m rs ≤ left g a n rs
  left-le n m [] h = omega arith
  left-le n m (r ∷ rs) h = ground (arith, left-le n m rs h)

  left-lt :
      (n k : ℕ) (rs : List EventRow)
      → any (is_event_at g a k) rs ≡ true
      → n ≤ k
      → left g a (k + 1) rs < left g a n rs
  left-lt n k [] h l = absurd (cc)
  left-lt n k (r ∷ rs) h l = ground (arith, left-lt n k rs, left-le n (k + 1) rs)

  pub left-length : (n : ℕ) (rs : List EventRow) → left g a n rs ≤ length rs
  left-length n [] = omega arith
  left-length n (r ∷ rs) = ground (arith, left-length n rs)

pub next_u64-add : (n : ℕ) → n < i64_limit → next_u64 n ≡ n + 1
unfolding next_u64
next_u64-add n h = omega arith

module _ (g : GroupId) (a : PeerId) (n last : ℕ) (rs : List EventRow) where
  row-left :
      (r : EventRow)
      → (r.group_id == g
          && (r.author == a && (leb n r.author_sequence && leb r.author_sequence last)))
        ≡ true
      → IsStored rs r
      → last < i64_limit
      → left g a (next_u64 r.author_sequence) rs < left g a n rs
  row-left r h k l =
      let same_g : r.group_id ≡ g = (==_iff r.group_id g).0 (ground arith) in
      let same_a : r.author ≡ a = (==_iff r.author a).0 (ground arith) in
      let small : r.author_sequence < i64_limit = ground arith in
      let moved : any (is_event_at g a r.author_sequence) rs ≡ true =
        subst (λ x. any (is_event_at x a r.author_sequence) rs ≡ true) same_g
          (subst (λ y. any (is_event_at r.group_id y r.author_sequence) rs ≡ true) same_a k) in
      subst (λ m. left g a m rs < left g a n rs) (sym (next_u64-add r.author_sequence small))
        (left-lt g a n r.author_sequence rs moved (ground arith))

-- After any event of a page less of the range is left than before the page.
pub events_range-left :
    (g : GroupId) (a : PeerId) (n last : ℕ) (s : Store) (es : List EventEnvelope)
    → events_range g a n last s ≡ ok es
    → All (λ e. left g a (next_u64 e.header.author_sequence) s.events < left g a n s.events) es
unfolding event_from_row
events_range-left g a n last s es h =
    events_range-All g a n last s _
      (λ r k stored. row-left g a n last s.events r k stored (events_range-inv g a n last s h).1) h
