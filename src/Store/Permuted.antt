-- ===== src/Store/Permuted.antt =====
-- Rows in another order, under the `ORDER BY` and the WHERE clauses of src/store.rs.
use mathlib.Core.List.{Permᴰ}
use mathlib.Core.List.Permᴰ
use opencord.Base.{
  ◌≡◌, refl, ap, subst, ◌∙◌, Bool, true, false, ◌||◌, List, [], ◌∷◌, All, All-both, All-map,
  All-filterb, All-filterb-true, Distinct, filterb, if◌then◌else◌, Bool-cases, inl, inr, arith,
}
use opencord.Store.{insert_sorted, order_by}

All-Permᴰ {ℓ κ} : {A : Type ℓ} (P : A → Type κ) {xs ys : List A} → Permᴰ xs ys → All P xs → All P ys
All-Permᴰ P Permᴰ.nil h = h
All-Permᴰ P (Permᴰ.cons same p) h = (subst P same h.0, All-Permᴰ P p h.1)
All-Permᴰ P (Permᴰ.swap first second) h = (subst P second h.1.0, (subst P first h.0, h.1.1))
All-Permᴰ P (Permᴰ.trans p q) h = All-Permᴰ P q (All-Permᴰ P p h)

-- A property of a list that a step of a permutation keeps.
module _ {ℓ κ} {A : Type ℓ} (R : List A → List A → Type κ) where
  swapped :
      (a b a' b' : A) (l : List A)
      → a ≡ b'
      → b ≡ a'
      → R (a ∷ b ∷ l) (b ∷ a ∷ l)
      → R (a ∷ b ∷ l) (a' ∷ b' ∷ l)
  swapped a b a' b' l first second h =
      subst (λ u. R (a ∷ b ∷ l) (u ∷ b' ∷ l)) second
        (subst (λ v. R (a ∷ b ∷ l) (b ∷ v ∷ l)) first h)

abbrev kept_if {ℓ} : {A : Type ℓ} → Bool → A → List A → List A
kept_if t a l = if t then a ∷ l else l

kept_two {ℓ} :
    {A : Type ℓ} (t u : Bool) (a b : A) (l : List A)
    → Permᴰ (kept_if t a (kept_if u b l)) (kept_if u b (kept_if t a l))
kept_two true true a b l = Permᴰ.swap refl refl
kept_two true false a b l = Permᴰ.refl (a ∷ l)
kept_two false true a b l = Permᴰ.refl (b ∷ l)
kept_two false false a b l = Permᴰ.refl l

pub filterb-Permᴰ {ℓ} :
    {A : Type ℓ} (p : A → Bool) {xs ys : List A} → Permᴰ xs ys → Permᴰ (filterb p xs) (filterb p ys)
filterb-Permᴰ p Permᴰ.nil = Permᴰ.nil
filterb-Permᴰ p (Permᴰ.cons {a = a} {l₁ = xs} {l₂ = ys} same q) =
    subst (λ b. Permᴰ (filterb p (a ∷ xs)) (filterb p (b ∷ ys))) same
      (elim (p a)
        as (λ t.
          Permᴰ (if t then a ∷ filterb p xs else filterb p xs)
            (if t then a ∷ filterb p ys else filterb p ys)) [
              | true ↦ Permᴰ.cons refl (filterb-Permᴰ p q)
              | false ↦ filterb-Permᴰ p q
            ])
filterb-Permᴰ p (Permᴰ.swap {a = a} {b = b} {a' = a'} {b' = b'} {l = l} first second) =
    swapped (λ xs ys. Permᴰ (filterb p xs) (filterb p ys)) a b a' b' l first second
      (kept_two (p a) (p b) a b (filterb p l))
filterb-Permᴰ p (Permᴰ.trans q r) = Permᴰ.trans (filterb-Permᴰ p q) (filterb-Permᴰ p r)

module _ {ℓ} {A : Type ℓ} (before : A → A → Bool) where
  -- The order says which of the two is first.
  abbrev pub IsApart : A → A → Type 0
  IsApart x y = (before x y || before y x) ≡ true

  abbrev pub AllApart : List A → Type ℓ
  AllApart [] = Unit
  AllApart (x ∷ xs) = All (IsApart x) xs × AllApart xs

module _ {ℓ} {A : Type ℓ} (before : A → A → Bool)
    (asym : (x y : A) → before x y ≡ true → before y x ≡ false)
    (weak : (x y z : A) → before y x ≡ false → before z y ≡ false → before z x ≡ false) where
  insert_sorted_twice :
      (x y : A) (zs : List A)
      → IsApart before x y
      → insert_sorted before x (insert_sorted before y zs)
        ≡ insert_sorted before y (insert_sorted before x zs)
  unfolding insert_sorted
  insert_sorted_twice x y [] apart = ground (arith, apart, asym x y, asym y x)
  insert_sorted_twice x y (z ∷ zs) apart =
      ground
        (arith, apart, asym x y, asym y x, weak y x z, weak x y z, insert_sorted_twice x y zs apart)

  IsApart-sym : (x y : A) → IsApart before x y → IsApart before y x
  IsApart-sym x y h = ground (arith, h)

  AllApart-Permᴰ : {xs ys : List A} → Permᴰ xs ys → AllApart before xs → AllApart before ys
  AllApart-Permᴰ Permᴰ.nil h = h
  AllApart-Permᴰ (Permᴰ.cons {a = a} {l₂ = ys} same p) h =
      subst (λ b. AllApart before (b ∷ ys)) same
        (All-Permᴰ (IsApart before a) p h.0, AllApart-Permᴰ p h.1)
  AllApart-Permᴰ (Permᴰ.swap {a = a} {b = b} {a' = a'} {b' = b'} {l = l} first second) h =
      swapped (λ xs ys. AllApart before ys) a b a' b' l first second
        ((IsApart-sym a b h.0.0, h.1.0), (h.0.1, h.1.1))
  AllApart-Permᴰ (Permᴰ.trans p q) h = AllApart-Permᴰ q (AllApart-Permᴰ p h)

  -- The sort does not depend on the order of rows that the order tells apart.
  pub order_by-Permᴰ :
      {xs ys : List A} → Permᴰ xs ys → AllApart before xs → order_by before xs ≡ order_by before ys
  unfolding order_by
  order_by-Permᴰ Permᴰ.nil h = refl
  order_by-Permᴰ (Permᴰ.cons {a = a} {l₂ = ys} same p) h =
      ap (insert_sorted before a) (order_by-Permᴰ p h.1)
      ∙ ap (λ b. insert_sorted before b (order_by before ys)) same
  order_by-Permᴰ (Permᴰ.swap {a = a} {b = b} {a' = a'} {b' = b'} {l = l} first second) h =
      swapped (λ xs ys. order_by before xs ≡ order_by before ys) a b a' b' l first second
        (insert_sorted_twice a b (order_by before l) h.0.0)
  order_by-Permᴰ (Permᴰ.trans p q) h = order_by-Permᴰ p h ∙ order_by-Permᴰ q (AllApart-Permᴰ p h)

  -- What is kept of rows of which no two clash is told apart, where the order does so.
  pub AllApart-filterb :
      (V : A → Type 0) (clash : A → A → Bool) (p : A → Bool)
      → ((x y : A) → V x → V y → p x ≡ true → p y ≡ true → clash y x ≡ false → IsApart before x y)
      → (xs : List A) → All V xs
      → Distinct clash xs
      → AllApart before (filterb p xs)
  AllApart-filterb V clash p tells [] v d = tt
  AllApart-filterb V clash p tells (x ∷ xs) v d =
      let rest = AllApart-filterb V clash p tells xs v.1 d.1 in
      elim (Bool-cases (p x)) [
        | inr left_out ↦ rw left_out rest
        | inl kept ↦
            let kept_rows = All-both _ _ (filterb p xs) (All-filterb V p xs v.1) (
              All-both _ _ (filterb p xs) (All-filterb-true p xs)
                (All-filterb (λ y. clash y x ≡ false) p xs d.0)) in
            rw kept (
              All-map _ (IsApart before x) (filterb p xs)
                  (λ y h. tells x y v.0 h.0 kept h.1.0 h.1.1) kept_rows,
              rest,
            )
      ]
