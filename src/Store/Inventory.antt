-- ===== src/Store/Inventory.antt =====
-- `inventories` of src/store.rs: the head of an author in a group's inventory is the length of the
-- gap-free prefix of the stored log.
use opencord.Base.{
  ℕ, ◌+◌, ◌≤◌, ◌<◌, ◌≡◌, refl, true, false, ◌&&◌, List, [], ◌∷◌, arith, ◌==◌, All-map, All-filterb,
  any, filterb, ◌∙◌, All, subst, sym,
}
use opencord.Model.{GroupId, PeerId, AuthorHead}
use opencord.Crates.{Crates}
use opencord.Store.{Store, EventRow, is_event_at, order_by, i64_limit}
use opencord.Store.Events.{by_author, inventory}
use opencord.Store.Order.{All-order_by, IsOrdered, order_by-IsOrdered, any-order_by}
use opencord.Store.Invariant.{IsSound}
use opencord.Store.Heads.{
  head_of, contiguous-head_of, contiguous-scan, scan, scan-IsPrefix, IsAscending, has,
}

pub by_author-asym : (x y : EventRow) → by_author x y ≡ true → by_author y x ≡ false
unfolding by_author
by_author-asym x y h = ground arith

pub by_author-weak :
    (x y z : EventRow) → by_author y x ≡ false → by_author z y ≡ false → by_author z x ≡ false
unfolding by_author
by_author-weak x y z h k = ground arith

IsOrdered-IsAscending :
    (a : PeerId) (rows : List EventRow) → IsOrdered by_author rows → IsAscending a rows
unfolding by_author
IsOrdered-IsAscending a [] h = tt
IsOrdered-IsAscending a (e ∷ es) h =
    (λ mine. All-map _ _ es (λ f k same. ground arith) h.0, IsOrdered-IsAscending a es h.1)

has-filterb :
    (g : GroupId) (a n : ℕ) (es : List EventRow)
    → has a n (filterb (λ e. e.group_id == g) es) ≡ any (is_event_at g a n) es
has-filterb g a n [] = refl
has-filterb g a n (e ∷ es) = ground (arith, has-filterb g a n es)

-- In a sound store the head of an author in a group's inventory is the length of the gap-free prefix
-- of the author's stored log: every sequence number from 1 to the head is stored, and the next one
-- is not.
pub inventory-IsContiguous :
    (c : Crates) (s : Store) (g : GroupId) (a : PeerId)
    → IsSound c s
    → ((k : ℕ)
        → 0 < k
        → k ≤ head_of a (inventory g s).heads
        → any (is_event_at g a k) s.events ≡ true)
      × (any (is_event_at g a (head_of a (inventory g s).heads + 1)) s.events ≡ false)
unfolding inventory
inventory-IsContiguous c s g a v =
    let rows = order_by by_author (filterb (λ e. e.group_id == g) s.events) in
    let fits =
      All-order_by (λ e. e.author_sequence < i64_limit) by_author _
        (All-filterb _ (λ e. e.group_id == g) s.events
          (All-map _ (λ e. e.author_sequence < i64_limit) s.events (λ e r. r.in_range)
            v.readable)) in
    let ordered =
      order_by-IsOrdered by_author by_author-asym by_author-weak
        (filterb (λ e. e.group_id == g) s.events) in
    let p =
      scan-IsPrefix a 0 rows (omega arith) fits (All-map _ _ rows (λ e _ _. omega arith) fits)
        (IsOrdered-IsAscending a rows ordered) in
    let e = contiguous-scan a [] rows tt in
    let same = λ (k : ℕ).
      any-order_by by_author (λ f. f.author == a && f.author_sequence == k)
        (filterb (λ f. f.group_id == g) s.events)
      ∙ has-filterb g a k s.events in
    (
      λ k lo hi. rw (← same k) (p.stored k lo (rw e at hi)),
      rw (e, ← same (scan a 0 rows + 1)) p.ends,
    )

-- Every number up to the head is stored.
abbrev pub IsBacked : Store → GroupId → AuthorHead → Type 0
IsBacked s g h = (k : ℕ) → 0 < k → k ≤ h.sequence → any (is_event_at g h.author k) s.events ≡ true

pub inventory-IsBacked :
    (c : Crates) (s : Store) (g : GroupId) → IsSound c s → All (IsBacked s g) (inventory g s).heads
unfolding inventory
inventory-IsBacked c s g v =
    All-map _ (IsBacked s g) _
      (λ h same k low high.
        (inventory-IsContiguous c s g h.author v).0 k low (subst (λ n. k ≤ n) (sym same) high))
      (contiguous-head_of (order_by by_author (filterb (λ e. e.group_id == g) s.events)))
