-- ===== src/Network/Ranges/Groups.antt =====
-- The groups and the last numbers of what `missing_ranges` of src/network.rs requests.
use opencord.Base.{
  ℕ, List, [], ◌∷◌, All, All-append, some, none, ◌≡◌, refl, sym, subst, arith, All-map, All-every,
}
use opencord.Network.Wire.{RangeRequest}
use opencord.Model.{GroupId, AuthorHead, GroupInventory}
use opencord.Network.Ranges.{
  LocalHead, local_heads, range_for, ranges_of, ranges_from, missing_ranges,
}

-- A request is for a group of the peer's inventories, up to a head of that group.
range_for-from :
    (heads : List LocalHead) (g : GroupId) (h : AuthorHead) {r : RangeRequest}
    → range_for heads g h ≡ some r
    → (g ≡ r.group_id) × (h.sequence ≡ r.last)
unfolding range_for
range_for-from heads g h found = (ground arith, ground arith)

module _ (P : GroupId → ℕ → Type 0) (heads : List LocalHead) where
  ranges_of-All :
      (g : GroupId) (hs : List AuthorHead)
      → All (λ h. P g h.sequence) hs
      → All (λ r. P r.group_id r.last) (ranges_of heads g hs)
  unfolding ranges_of
  ranges_of-All g [] p = tt
  ranges_of-All g (h ∷ hs) p =
      elim (range_for heads g h)
          as (λ o.
            (o ≡ range_for heads g h)
            → All (λ r. P r.group_id r.last)
                (elim o [ some r ↦ r ∷ ranges_of heads g hs | none ↦ ranges_of heads g hs ])) [
                  | some r ↦ λ found.
                      let (group_is, last_is) = range_for-from heads g h (sym found) in
                      (
                        subst (λ n. P r.group_id n) last_is
                            (subst (λ i. P i h.sequence) group_is p.0),
                        ranges_of-All g hs p.1,
                      )
                  | none ↦ λ found. ranges_of-All g hs p.1
                ]
        refl

  ranges_from-All :
      (is : List GroupInventory)
      → All (λ i. All (λ h. P i.group_id h.sequence) i.heads) is
      → All (λ r. P r.group_id r.last) (ranges_from heads is)
  unfolding ranges_from
  ranges_from-All [] h = tt
  ranges_from-All (i ∷ is) h =
      All-append _ (ranges_of heads i.group_id i.heads) (ranges_from heads is)
        (ranges_of-All i.group_id i.heads h.0) (ranges_from-All is h.1)

pub missing_ranges-All_last :
    (P : GroupId → ℕ → Type 0) (local remote : List GroupInventory)
    → All (λ i. All (λ h. P i.group_id h.sequence) i.heads) remote
    → All (λ r. P r.group_id r.last) (missing_ranges local remote)
unfolding missing_ranges
missing_ranges-All_last P local remote h = ranges_from-All P (local_heads local) remote h

pub missing_ranges-All :
    (P : GroupId → Type 0) (local remote : List GroupInventory)
    → All (λ i. P i.group_id) remote
    → All (λ r. P r.group_id) (missing_ranges local remote)
missing_ranges-All P local remote h =
    missing_ranges-All_last (λ g n. P g) local remote
      (All-map _ _ remote (λ i p. All-every (λ h. P i.group_id) i.heads (λ h. p)) h)
