-- ===== src/Node/Start/Addresses/Increasing.antt =====
-- Sorted lists of addresses: `sort` and `dedup` as `local_addresses` of src/node.rs and
-- `add_advertised` of src/network.rs use them.
use opencord.Base.{
  ◌≡◌, refl, ◌∙◌, Bool, true, false, ◌==◌, leb, ltb, List, [], ◌∷◌, ◌++◌, All, All-map, any,
  any-append, arith, if◌then◌else◌, Bool-cases, inl, inr,
}
use opencord.Store.{order_by, insert_sorted}
use opencord.Store.Order.{IsOrdered, All-insert_sorted, any-order_by}
use opencord.Network.State.{Address}
use opencord.Node.Start.{dedup_from, dedup}

-- In increasing order, each once.
abbrev pub IsIncreasing : List Address → Type 0
IsIncreasing = IsOrdered leb

abbrev pub has : Address → List Address → Bool
has a = any (λ b. b == a)

dedup_from-above :
    (m x : Address) (ys : List Address)
    → All (λ y. leb y m ≡ false) (x ∷ ys)
    → All (λ y. leb y m ≡ false) (dedup_from x ys)
unfolding dedup_from
dedup_from-above m x [] h = h
dedup_from-above m x (y ∷ ys) h =
    elim (x == y)
      as (λ b. All (λ z. leb z m ≡ false) (if b then dedup_from x ys else x ∷ dedup_from y ys)) [
        | true ↦ dedup_from-above m x ys (h.0, h.1.1)
        | false ↦ (h.0, dedup_from-above m y ys h.1)
      ]

dedup_from-IsIncreasing :
    (x : Address) (ys : List Address) → IsOrdered ltb (x ∷ ys) → IsIncreasing (dedup_from x ys)
unfolding dedup_from
dedup_from-IsIncreasing x [] h = (tt, tt)
dedup_from-IsIncreasing x (y ∷ ys) h = elim (Bool-cases (x == y)) [
  | inl same ↦ rw same (dedup_from-IsIncreasing x ys (h.0.1, h.1.1))
  | inr apart ↦ rw apart (
    dedup_from-above x y ys
        (ground (arith, h.0.0), All-map _ _ ys (λ z k. ground (arith, h.0.0, k)) h.1.0),
    dedup_from-IsIncreasing y ys h.1,
  )
]

pub dedup-IsIncreasing : (xs : List Address) → IsOrdered ltb xs → IsIncreasing (dedup xs)
unfolding dedup
dedup-IsIncreasing [] h = tt
dedup-IsIncreasing (x ∷ xs) h = dedup_from-IsIncreasing x xs h

has-dedup_from : (a x : Address) (ys : List Address) → has a (dedup_from x ys) ≡ has a (x ∷ ys)
unfolding dedup_from
has-dedup_from a x [] = refl
has-dedup_from a x (y ∷ ys) = ground (arith, has-dedup_from a x ys, has-dedup_from a y ys)

pub has-dedup : (a : Address) (xs : List Address) → has a (dedup xs) ≡ has a xs
unfolding dedup
has-dedup a [] = refl
has-dedup a (x ∷ xs) = has-dedup_from a x xs

abbrev pub AreDistinct : List Address → Type 0
AreDistinct [] = Unit
AreDistinct (x ∷ xs) = (has x xs ≡ false) × AreDistinct xs

has-above : (x : Address) (xs : List Address) → All (λ y. leb y x ≡ false) xs → has x xs ≡ false
has-above x [] h = refl
has-above x (y ∷ ys) h = ground (arith, has-above x ys h.1, h.0)

pub distinct-append :
    (xs : List Address) (a : Address)
    → IsIncreasing xs
    → has a xs ≡ false
    → AreDistinct (xs ++ a ∷ [])
distinct-append [] a h k = (refl, tt)
distinct-append (x ∷ xs) a h k = (
  any-append (λ b. b == x) xs (a ∷ []) ∙ ground (arith, has-above x xs h.0),
  distinct-append xs a h.1 (ground arith),
)

insert_sorted-IsIncreasing :
    (x : Address) (ys : List Address)
    → has x ys ≡ false
    → IsIncreasing ys
    → IsIncreasing (insert_sorted ltb x ys)
unfolding insert_sorted
insert_sorted-IsIncreasing x [] k h = (tt, tt)
insert_sorted-IsIncreasing x (y ∷ ys) k h = elim (Bool-cases (ltb y x)) [
  | inl first ↦ rw first (
    All-insert_sorted (λ z. leb z y ≡ false) ltb x ys (ground arith) h.0,
    insert_sorted-IsIncreasing x ys (ground arith) h.1,
  )
  | inr last ↦ rw last ((ground arith, All-map _ _ ys (λ z j. ground arith) h.0), h)
]

pub order_by-IsIncreasing : (xs : List Address) → AreDistinct xs → IsIncreasing (order_by ltb xs)
unfolding order_by
order_by-IsIncreasing [] h = tt
order_by-IsIncreasing (x ∷ xs) h =
    insert_sorted-IsIncreasing x (order_by ltb xs) (any-order_by ltb (λ b. b == x) xs ∙ h.0)
      (order_by-IsIncreasing xs h.1)
