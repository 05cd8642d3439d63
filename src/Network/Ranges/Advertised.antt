-- ===== src/Network/Ranges/Advertised.antt =====
-- `missing_ranges` of src/network.rs on the inventories that `inventories` of src/store.rs computes.
use opencord.Base.{
  ℕ, ◌<◌, ◌≤◌, ◌≡◌, sym, subst, ◌∙◌, true, ◌&&◌, List, [], ◌∷◌, Option, none, some, All, All-append,
  All-both, All-every, All-filterb, All-filterb-true, All-map, any, any-find, find-All, find-any,
  find-true, leb, ltb, ◌==◌, arith, Bool-cases, inl, inr, if◌then◌else◌, map, ==_iff, ==_self,
}
use opencord.Model.{GroupId, PeerId, Group, AuthorHead, GroupInventory}
use opencord.Crates.{Crates}
use opencord.Store.{Store, has_group_id, is_event_at, i64_limit, u64_max}
use opencord.Store.Events.{inventory, inventories}
use opencord.Store.Groups.{groups}
use opencord.Store.Heads.{head_of}
use opencord.Store.Invariant.{IsSound, IsReadable}
use opencord.Store.Inventory.{IsBacked, inventory-IsBacked, inventory-IsContiguous}
use opencord.Store.Order.{any-order_by}
use opencord.Store.Range.{All-of_map}
use opencord.Network.Handshake.{member}
use opencord.Network.Ranges.{
  LocalHead, heads_of, local_head, local_heads, known, advertises, missing_ranges, AreU64,
  IsValidRange, missing_ranges-IsValidRange,
}
use opencord.Network.Ranges.Groups.{missing_ranges-All, missing_ranges-All_last}
use opencord.Network.Session.{of_shared}
use opencord.Network.Session.Serves.{IsAnswered}

-- The value of the map is that of one of its pairs, or 0.
module _ (P : GroupId → PeerId → ℕ → Type 0) (g : GroupId) (a : PeerId) where
  abbrev HasP : Option ℕ → Type 0
  HasP none = Unit
  HasP (some n) = P g a n

  local_head-HasP :
      (hs : List LocalHead)
      → All (λ h. P h.group_id h.author h.sequence) hs
      → HasP (local_head g a hs)
  unfolding local_head
  local_head-HasP [] all = tt
  local_head-HasP (h ∷ hs) all =
      elim (local_head g a hs)
          as (λ o.
            HasP o
            → HasP (elim o [
              | some n ↦ some n
              | none ↦ if h.group_id == g && h.author == a then some h.sequence else none
            ])) [
              | some n ↦ λ p. p
              | none ↦ λ p. elim (Bool-cases (h.group_id == g && h.author == a)) [
                | inl here ↦
                    let in_group : h.group_id ≡ g = ground (arith, here) in
                    let by_author : h.author ≡ a = ground (arith, here) in
                    rw here (
                      subst (λ b. P g b h.sequence) by_author
                        (subst (λ i. P i h.author h.sequence) in_group all.0))
                | inr other ↦ rw other tt
              ]
            ]
        (local_head-HasP hs all.1)

  known-All :
      (hs : List LocalHead)
      → P g a 0
      → All (λ h. P h.group_id h.author h.sequence) hs
      → P g a (known g a hs)
  unfolding known
  known-All hs none_known all =
      elim (local_head g a hs) as (λ o. HasP o → P g a (elim o [ some n ↦ n | none ↦ 0 ])) [
        | some n ↦ λ p. p
        | none ↦ λ p. none_known
      ]
        (local_head-HasP hs all)

-- What one group's inventory says, the pairs of the map say.
local_heads-All :
    (P : GroupId → PeerId → ℕ → Type 0) (is : List GroupInventory)
    → All (λ i. All (λ h. P i.group_id h.author h.sequence) i.heads) is
    → All (λ h. P h.group_id h.author h.sequence) (local_heads is)
unfolding local_heads
local_heads-All P [] all = tt
local_heads-All P (i ∷ is) all =
    All-append _ _ (local_heads is) (each_head i.heads all.0) (local_heads-All P is all.1)
  where
    each_head :
        (hs : List AuthorHead)
        → All (λ h. P i.group_id h.author h.sequence) hs
        → All (λ h. P h.group_id h.author h.sequence) (heads_of i.group_id hs)
    each_head [] h = tt
    each_head (x ∷ xs) h = (h.0, each_head xs h.1)

module _ (c : Crates) (s : Store) (v : IsSound c s) (shared : List GroupId) where
  abbrev pub offered : List GroupInventory
  offered = of_shared shared (inventories s)

  offered-IsBacked : All (λ i. All (IsBacked s i.group_id) i.heads) offered
  unfolding inventories inventory
  offered-IsBacked =
      All-filterb _ (λ i. member i.group_id shared) (inventories s)
        (All-of_map (λ i. All (IsBacked s i.group_id) i.heads) (λ g. inventory g.id s) (groups s)
          (All-every _ (groups s) (λ g. inventory-IsBacked c s g.id v)))

  -- An event that is stored has a number below 2 ^ 63, and its group is known.
  stored-small :
      (g : GroupId) (a : PeerId) (k : ℕ)
      → any (is_event_at g a k) s.events ≡ true
      → (k < i64_limit) × (any (has_group_id g) s.groups ≡ true)
  stored-small g a k h =
      let (row, found) = any-find (is_event_at g a k) s.events h in
      let r = find-All (IsReadable c s.groups s.channels) _ s.events v.readable found in
      let hit = find-true (is_event_at g a k) s.events found in
      let in_group : row.group_id ≡ g = ground (arith, hit) in
      (
        ground (arith, hit, r.in_range),
        subst (λ i. any (has_group_id i) s.groups ≡ true) in_group
            (find-any (has_group_id row.group_id) s.groups r.group_known),
      )

  backed-small : (g : GroupId) (h : AuthorHead) → IsBacked s g h → h.sequence < i64_limit
  backed-small g h backed = elim (Bool-cases (ltb 0 h.sequence)) [
    | inl some_are ↦
        (stored-small g h.author h.sequence
          (backed h.sequence (ground (arith, some_are)) (omega arith))).0
    | inr none_is ↦ ground (arith, none_is)
  ]

  offered-small : All (λ i. All (λ h. h.sequence < i64_limit) i.heads) offered
  offered-small =
      All-map _ _ offered
        (λ i. All-map _ (λ h. h.sequence < i64_limit) i.heads (λ h. backed-small i.group_id h))
        offered-IsBacked

  pub offered-AreU64 : AreU64 offered
  offered-AreU64 =
      All-map _ _ offered
        (λ i.
          All-map (λ h. h.sequence < i64_limit) (λ h. h.sequence ≤ u64_max) i.heads
            (λ h less. omega (arith, less)))
        offered-small

  -- The requests for what the store offers are answered.
  pub missing_ranges-IsAnswered :
      (local : List GroupInventory) → All (IsAnswered shared) (missing_ranges local offered)
  missing_ranges-IsAnswered local =
      let rs = missing_ranges local offered in
      let small = missing_ranges-All_last (λ g n. n < i64_limit) local offered offered-small in
      let in_groups =
        missing_ranges-All (λ g. member g shared ≡ true) local offered
          (All-filterb-true (λ i. member i.group_id shared) (inventories s)) in
      let valid = missing_ranges-IsValidRange local offered offered-AreU64 in
      All-map _ (IsAnswered shared) rs (λ r h. (h.0, h.1.0.0, h.1.0.1, h.1.1))
        (All-both _ _ rs in_groups (All-both IsValidRange _ rs valid small))

  -- What the map of the store's own heads says of an author is stored.
  pub known-stored :
      (g : GroupId) (a : PeerId) (k : ℕ)
      → 0 < k
      → k ≤ known g a (local_heads offered)
      → any (is_event_at g a k) s.events ≡ true
  known-stored g a =
      known-All (λ i b n. (k : ℕ) → 0 < k → k ≤ n → any (is_event_at i b k) s.events ≡ true) g a
        (local_heads offered) (λ k low high. absurd (omega (arith, low, high)))
        (local_heads-All
          (λ i b n. (k : ℕ) → 0 < k → k ≤ n → any (is_event_at i b k) s.events ≡ true) offered
          offered-IsBacked)

  head_of-any :
      (a : PeerId) (k : ℕ) (hs : List AuthorHead)
      → 0 < k
      → k ≤ head_of a hs
      → any (λ h. h.author == a && leb k h.sequence) hs ≡ true
  head_of-any a k [] low high = absurd (omega (arith, low, high))
  head_of-any a k (h ∷ hs) low high = ground (arith, high, head_of-any a k hs low)

  module _ (g : GroupId) (a : PeerId) (k : ℕ) (in_shared : member g shared ≡ true) where
    here_advertised :
        (i : GroupId)
        → (i == g) ≡ true
        → any (λ h. h.author == a && leb k h.sequence) (inventory g s).heads ≡ true
        → (member i shared ≡ true) × (advertises g a k (inventory i s) ≡ true)
    unfolding inventory
    here_advertised i same has =
        subst (λ j. (member j shared ≡ true) × (advertises g a k (inventory j s) ≡ true))
          (sym ((==_iff i g).0 same)) (in_shared, rw (==_self g) has)

    any-offered :
        (gs : List Group)
        → any (λ h. h.author == a && leb k h.sequence) (inventory g s).heads ≡ true
        → any (has_group_id g) gs ≡ true
        → any (advertises g a k) (of_shared shared (map (λ x. inventory x.id s) gs)) ≡ true
    unfolding inventory
    any-offered [] has h = absurd (cc)
    any-offered (x ∷ xs) has h = elim (Bool-cases (x.id == g)) [
      | inl same ↦ let here = here_advertised x.id same has in ground (arith, here.0, here.1)
      | inr other ↦
          let rest = any-offered xs has (ground (arith, h, other)) in
          elim (Bool-cases (member x.id shared)) [
            | inl in_it ↦ ground (arith, rest, in_it)
            | inr left_out ↦ ground (arith, rest, left_out)
          ]
    ]

    -- What is under the head of an author in a shared group's inventory is advertised.
    pub offered-advertises :
        0 < k → k ≤ head_of a (inventory g s).heads → any (advertises g a k) offered ≡ true
    unfolding inventories groups
    offered-advertises low high =
        let stored = (inventory-IsContiguous c s g a v).0 k low high in
        any-offered (groups s) (head_of-any a k (inventory g s).heads low high)
          (any-order_by _ (has_group_id g) s.groups ∙ (stored-small g a k stored).1)
