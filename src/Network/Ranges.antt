-- ===== src/Network/Ranges.antt =====
-- `missing_ranges` of src/network.rs: what to request of a peer, from the inventories of both.
pub mod Advertised
pub mod Groups
use mathlib.Core.Path.{ap₂}
use opencord.Base.{
  ℕ, ◌+◌, ◌≤◌, ◌<◌, ◌≡◌, refl, Bool, true, ◌&&◌, List, [], ◌∷◌, ◌++◌, Option, none, some, ltb, leb,
  ◌==◌, if◌then◌else◌, any, any-append, All, All-append, arith, ◌∙◌, ==_iff,
}
use opencord.Model.{GroupId, PeerId, AuthorHead, GroupInventory}
use opencord.Store.{next_u64, u64_max}
use opencord.Network.Wire.{RangeRequest}

-- One entry of the HashMap `local_heads`.
pub record LocalHead : Type 0 where
  pub group_id : GroupId
  pub author : PeerId
  pub sequence : ℕ

heads_of : GroupId → List AuthorHead → List LocalHead
heads_of g [] = []
heads_of g (h ∷ hs) =
    record { group_id = g; author = h.author; sequence = h.sequence } ∷ heads_of g hs

-- The pairs that are collected into `local_heads`, in order.
unfoldable pub local_heads : List GroupInventory → List LocalHead
unfolding heads_of
local_heads [] = []
local_heads (i ∷ is) = heads_of i.group_id i.heads ++ local_heads is

-- `local_heads.get(..).copied().unwrap_or(0)`: of pairs with one key the map keeps the last.
unfoldable pub local_head : GroupId → PeerId → List LocalHead → Option ℕ
local_head g a [] = none
local_head g a (h ∷ hs) = elim (local_head g a hs) [
  | some n ↦ some n
  | none ↦ if h.group_id == g && h.author == a then some h.sequence else none
]

unfoldable pub known : GroupId → PeerId → List LocalHead → ℕ
known g a hs = elim (local_head g a hs) [ some n ↦ n | none ↦ 0 ]

-- The closure of `filter_map`.
unfoldable pub range_for : List LocalHead → GroupId → AuthorHead → Option RangeRequest
range_for heads g h =
    let n : ℕ = known g h.author heads in
    if ltb n h.sequence
    then some (record { group_id = g; author = h.author; first = next_u64 n; last = h.sequence })
    else none

ranges_of : List LocalHead → GroupId → List AuthorHead → List RangeRequest
ranges_of heads g [] = []
ranges_of heads g (h ∷ hs) = elim (range_for heads g h) [
  | some r ↦ r ∷ ranges_of heads g hs
  | none ↦ ranges_of heads g hs
]

ranges_from : List LocalHead → List GroupInventory → List RangeRequest
ranges_from heads [] = []
ranges_from heads (i ∷ is) = ranges_of heads i.group_id i.heads ++ ranges_from heads is

unfoldable pub missing_ranges : List GroupInventory → List GroupInventory → List RangeRequest
unfolding ranges_from ranges_of
missing_ranges local remote = ranges_from (local_heads local) remote

-- A request covers an event.
abbrev pub covers : GroupId → PeerId → ℕ → RangeRequest → Bool
covers g a n r = (r.group_id == g && r.author == a) && (leb r.first n && leb n r.last)

-- The peer advertises an event: it is at most the head of its author in an inventory.
abbrev pub advertises : GroupId → PeerId → ℕ → GroupInventory → Bool
advertises g a n i = i.group_id == g && any (λ h. h.author == a && leb n h.sequence) i.heads

abbrev pub AreU64 : List GroupInventory → Type 0
AreU64 = All (λ i. All (λ h. h.sequence ≤ u64_max) i.heads)

next_u64_lem : (n m : ℕ) → n < m → m ≤ u64_max → next_u64 n ≡ n + 1
unfolding next_u64
next_u64_lem n m h k = omega arith

module _ (heads : List LocalHead) (g : GroupId) (a : PeerId) (n : ℕ) where
  known-same : (i b : ℕ) → (i == g) ≡ true → (b == a) ≡ true → known i b heads ≡ known g a heads
  known-same i b p q = ap₂ (λ x y. known x y heads) ((==_iff i g).0 p) ((==_iff b a).0 q)

  covers-range_for :
      (i : GroupId) (h : AuthorHead)
      → h.sequence ≤ u64_max
      → any (covers g a n) (elim (range_for heads i h) [ some r ↦ r ∷ [] | none ↦ [] ])
        ≡ ((i == g && (h.author == a && leb n h.sequence)) && ltb (known g a heads) n)
  unfolding range_for
  covers-range_for i h fits =
      ground (arith, next_u64_lem (known i h.author heads) h.sequence, known-same i h.author)

  covers-ranges_of :
      (i : GroupId) (hs : List AuthorHead)
      → All (λ h. h.sequence ≤ u64_max) hs
      → any (covers g a n) (ranges_of heads i hs)
        ≡ ((i == g && any (λ h. h.author == a && leb n h.sequence) hs) && ltb (known g a heads) n)
  unfolding ranges_of
  covers-ranges_of i [] fits = ground arith
  covers-ranges_of i (h ∷ hs) fits =
      ground (arith, covers-range_for i h fits.0, covers-ranges_of i hs fits.1)

  covers-ranges_from :
      (is : List GroupInventory)
      → AreU64 is
      → any (covers g a n) (ranges_from heads is)
        ≡ (any (advertises g a n) is && ltb (known g a heads) n)
  unfolding ranges_from
  covers-ranges_from [] fits = refl
  covers-ranges_from (i ∷ is) fits =
      any-append (covers g a n) (ranges_of heads i.group_id i.heads) (ranges_from heads is)
      ∙ ground (arith, covers-ranges_of i.group_id i.heads fits.0, covers-ranges_from is fits.1)

-- If the sequence numbers that the peer advertises are u64, the requests cover exactly the events
-- that it advertises and that lie above the local head of their author in their group, which is 0
-- where the local inventory has none.
pub covers-missing_ranges :
    (local remote : List GroupInventory) (g : GroupId) (a : PeerId) (n : ℕ)
    → AreU64 remote
    → any (covers g a n) (missing_ranges local remote)
      ≡ (any (advertises g a n) remote && ltb (known g a (local_heads local)) n)
unfolding missing_ranges
covers-missing_ranges local remote g a n fits =
    covers-ranges_from (local_heads local) g a n remote fits

abbrev pub IsValidRange : RangeRequest → Type 0
IsValidRange r = (0 < r.first) × (r.first ≤ r.last)

range_for-IsValidRange :
    (heads : List LocalHead) (g : GroupId) (h : AuthorHead)
    → h.sequence ≤ u64_max
    → All IsValidRange (elim (range_for heads g h) [ some r ↦ r ∷ [] | none ↦ [] ])
unfolding range_for
range_for-IsValidRange heads g h fits =
    ground (arith, next_u64_lem (known g h.author heads) h.sequence)

ranges_of-IsValidRange :
    (heads : List LocalHead) (g : GroupId) (hs : List AuthorHead)
    → All (λ h. h.sequence ≤ u64_max) hs
    → All IsValidRange (ranges_of heads g hs)
unfolding ranges_of
ranges_of-IsValidRange heads g [] fits = tt
ranges_of-IsValidRange heads g (h ∷ hs) fits =
    ground
      (arith, range_for-IsValidRange heads g h fits.0, ranges_of-IsValidRange heads g hs fits.1)

ranges_from-IsValidRange :
    (heads : List LocalHead) (is : List GroupInventory)
    → AreU64 is
    → All IsValidRange (ranges_from heads is)
unfolding ranges_from
ranges_from-IsValidRange heads [] fits = tt
ranges_from-IsValidRange heads (i ∷ is) fits =
    All-append IsValidRange (ranges_of heads i.group_id i.heads) (ranges_from heads is)
      (ranges_of-IsValidRange heads i.group_id i.heads fits.0)
      (ranges_from-IsValidRange heads is fits.1)

-- If the sequence numbers that the peer advertises are u64, every request that is sent has a
-- positive first number that is at most the last.
pub missing_ranges-IsValidRange :
    (local remote : List GroupInventory)
    → AreU64 remote
    → All IsValidRange (missing_ranges local remote)
unfolding missing_ranges
missing_ranges-IsValidRange local remote fits =
    ranges_from-IsValidRange (local_heads local) remote fits
