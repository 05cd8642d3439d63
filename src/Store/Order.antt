-- ===== src/Store/Order.antt =====
-- `ORDER BY` as the sort `order_by`: it keeps the rows and puts them in order.
use mathlib.Core.List.{Perm}
use mathlib.Core.List.Perm
use opencord.Base.{
  ◌≡◌, refl, ◌∙◌, arith, any, Bool, true, false, List, [], ◌∷◌, All, All-map, if◌then◌else◌,
  Bool-cases, inl, inr,
}
use opencord.Store.{order_by, insert_sorted}

module _ {ℓ κ} {A : Type ℓ} (P : A → Type κ) (before : A → A → Bool) where
  pub All-insert_sorted : (x : A) (xs : List A) → P x → All P xs → All P (insert_sorted before x xs)
  unfolding insert_sorted
  All-insert_sorted x [] p h = (p, tt)
  All-insert_sorted x (y ∷ ys) p h =
      elim (before y x) as (λ b. All P (if b then y ∷ insert_sorted before x ys else x ∷ y ∷ ys)) [
        | true ↦ (h.0, All-insert_sorted x ys p h.1)
        | false ↦ (p, h)
      ]

  pub All-order_by : (xs : List A) → All P xs → All P (order_by before xs)
  unfolding order_by
  All-order_by [] h = tt
  All-order_by (x ∷ xs) h = All-insert_sorted x (order_by before xs) h.0 (All-order_by xs h.1)

module _ {ℓ} {A : Type ℓ} (before : A → A → Bool) where
  -- No row comes before one that stands above it.
  abbrev pub IsOrdered : List A → Type 0
  IsOrdered [] = Unit
  IsOrdered (x ∷ xs) = All (λ y. before y x ≡ false) xs × IsOrdered xs

  insert_sorted-perm : (x : A) (xs : List A) → Perm (insert_sorted before x xs) (x ∷ xs)
  unfolding insert_sorted
  insert_sorted-perm x [] = Perm.refl (x ∷ [])
  insert_sorted-perm x (y ∷ ys) =
      elim (before y x)
        as (λ b. Perm (if b then y ∷ insert_sorted before x ys else x ∷ y ∷ ys) (x ∷ y ∷ ys)) [
          | true ↦ Perm.trans (Perm.cons y (insert_sorted-perm x ys)) (Perm.swap x y ys)
          | false ↦ Perm.refl (x ∷ y ∷ ys)
        ]

  pub order_by-perm : (xs : List A) → Perm (order_by before xs) xs
  unfolding order_by
  order_by-perm [] = Perm.refl []
  order_by-perm (x ∷ xs) =
      Perm.trans (insert_sorted-perm x (order_by before xs)) (Perm.cons x (order_by-perm xs))

module _ {ℓ} {A : Type ℓ} (before : A → A → Bool) (p : A → Bool) where
  any-insert_sorted : (x : A) (xs : List A) → any p (insert_sorted before x xs) ≡ any p (x ∷ xs)
  unfolding insert_sorted
  any-insert_sorted x [] = refl
  any-insert_sorted x (y ∷ ys) = ground (arith, any-insert_sorted x ys)

  pub any-order_by : (xs : List A) → any p (order_by before xs) ≡ any p xs
  unfolding order_by
  any-order_by [] = refl
  any-order_by (x ∷ xs) = any-insert_sorted x (order_by before xs) ∙ ground (arith, any-order_by xs)

-- The relations that the statements sort by are asymmetric, and "not before" is transitive.
module _ {ℓ} {A : Type ℓ} (before : A → A → Bool)
    (asym : (x y : A) → before x y ≡ true → before y x ≡ false)
    (weak : (x y z : A) → before y x ≡ false → before z y ≡ false → before z x ≡ false) where
  insert_sorted-IsOrdered :
      (x : A) (xs : List A) → IsOrdered before xs → IsOrdered before (insert_sorted before x xs)
  unfolding insert_sorted
  insert_sorted-IsOrdered x [] h = (tt, tt)
  insert_sorted-IsOrdered x (y ∷ ys) h = elim (Bool-cases (before y x)) [
    | inl first ↦ rw first (
      All-insert_sorted (λ z. before z y ≡ false) before x ys (asym y x first) h.0,
      insert_sorted-IsOrdered x ys h.1,
    )
    | inr last ↦ rw last ((last, All-map _ _ ys (λ z k. weak x y z last k) h.0), h)
  ]

  pub order_by-IsOrdered : (xs : List A) → IsOrdered before (order_by before xs)
  unfolding order_by
  order_by-IsOrdered [] = tt
  order_by-IsOrdered (x ∷ xs) =
      insert_sorted-IsOrdered x (order_by before xs) (order_by-IsOrdered xs)
