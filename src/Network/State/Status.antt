-- ===== src/Network/State/Status.antt =====
-- The status lines of `SharedNetworkState` (src/network.rs): the last twelve notes.
use mathlib.Core.List.{append-nil, append_assoc}
use native.Mathlib.Nat.{zero-add, suc-add}
use opencord.Base.{
  ℕ, zero, suc, ◌+◌, ◌-◌, ◌≤◌, ◌≡◌, refl, List, [], ◌∷◌, ◌++◌, drop, length, length-append, arith,
  sym, ap, ◌∙◌,
}
use opencord.Text.{Text}
use opencord.Network.State.{NetworkState, note, last_twelve}

length-drop : (n : ℕ) (xs : List Text) → length (drop n xs) ≡ length xs - n
length-drop zero xs = omega arith
length-drop (suc n) [] = omega arith
length-drop (suc n) (x ∷ xs) = omega (arith, length-drop n xs)

drop-append : (n : ℕ) (xs ys : List Text) → n ≤ length xs → drop n (xs ++ ys) ≡ drop n xs ++ ys
drop-append zero xs ys h = refl
drop-append (suc n) [] ys h = absurd (omega arith)
drop-append (suc n) (x ∷ xs) ys h = drop-append n xs ys (omega arith)

drop-nil : (n : ℕ) → drop {A = Text} n [] ≡ []
drop-nil zero = refl
drop-nil (suc n) = refl

drop-drop : (m n : ℕ) (xs : List Text) → drop m (drop n xs) ≡ drop (n + m) xs
drop-drop m zero xs = rw zero-add
drop-drop m (suc n) [] = rw (suc-add, drop-nil m)
drop-drop m (suc n) (x ∷ xs) = rw suc-add (drop-drop m n xs)

last_twelve-append :
    (xs ys : List Text) → last_twelve (last_twelve xs ++ ys) ≡ last_twelve (xs ++ ys)
last_twelve-append xs ys =
    let n = length xs - 12 in
    let e : drop n xs ++ ys ≡ drop n (xs ++ ys) = sym (drop-append n xs ys (omega arith)) in
    let k : n + (length (drop n (xs ++ ys)) - 12) ≡ length (xs ++ ys) - 12 =
      omega (arith, length-drop n (xs ++ ys), length-append xs ys) in
    rw e (drop-drop _ n (xs ++ ys) ∙ rw k)

-- The notes made on a state, oldest first.
abbrev pub note_all : List Text → NetworkState → NetworkState
note_all [] st = st
note_all (v ∷ vs) st = note_all vs (note v st)

-- From a status of at most twelve lines on, after any notes the status shows the last twelve lines
-- of all that was ever there, in order.
pub status-note_all :
    (vs : List Text) (st : NetworkState)
    → length st.status ≤ 12
    → (note_all vs st).status ≡ last_twelve (st.status ++ vs)
unfolding note
status-note_all [] st h =
    let e : length (st.status ++ []) - 12 ≡ 0 = omega (arith, length-append st.status []) in
    rw e (sym (append-nil st.status))
status-note_all (v ∷ vs) st h =
    status-note_all vs (note v st)
      (omega (arith, length-drop (length (st.status ++ v ∷ []) - 12) (st.status ++ v ∷ [])))
    ∙ last_twelve-append (st.status ++ v ∷ []) vs
    ∙ ap last_twelve (append_assoc st.status (v ∷ []) vs)
