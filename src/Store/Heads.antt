-- ===== src/Store/Heads.antt =====
-- The loop of `inventories` (src/store.rs): its map from authors to heads, and how a head advances.
use opencord.Base.{
  ℕ, ◌+◌, ◌≤◌, ◌<◌, ◌≡◌, refl, Bool, true, false, ◌&&◌, List, [], ◌∷◌, arith, ◌==◌, if◌then◌else◌,
  All, All-both, All-map, any, Bool-cases, inl, inr, ◌∙◌, ◌≢◌,
}
use opencord.Model.{PeerId, AuthorHead}
use opencord.Store.{EventRow, i64_limit}
use opencord.Store.Events.{advance, note_sequence, contiguous}

-- The head of an author in a map, 0 where it has no entry.
abbrev pub head_of : PeerId → List AuthorHead → ℕ
head_of a [] = 0
head_of a (h ∷ hs) = if h.author == a then h.sequence else head_of a hs

abbrev pub Above : ℕ → List AuthorHead → Type 0
Above x = All (λ h. x < h.author)

abbrev pub IsMap : List AuthorHead → Type 0
IsMap [] = Unit
IsMap (h ∷ hs) = Above h.author hs × IsMap hs

head_of-Above : (a x : PeerId) (m : List AuthorHead) → Above x m → a ≤ x → head_of a m ≡ 0
head_of-Above a x [] h k = refl
head_of-Above a x (e ∷ m) h k = ground (arith, head_of-Above a x m)

note_sequence-Above :
    (x b n : ℕ) (m : List AuthorHead) → Above x m → x < b → Above x (note_sequence b n m)
unfolding note_sequence
note_sequence-Above x b n [] h k = (k, tt)
note_sequence-Above x b n (e ∷ m) h k = ground (arith, note_sequence-Above x b n m)

note_sequence-IsMap : (b n : ℕ) (m : List AuthorHead) → IsMap m → IsMap (note_sequence b n m)
unfolding note_sequence
note_sequence-IsMap b n [] h = (tt, tt)
note_sequence-IsMap b n (e ∷ m) h = ground (
  arith,
  note_sequence-IsMap b n m,
  note_sequence-Above e.author b n m,
  All-map (λ k. e.author < k.author) (λ k. b < k.author) m,
)

head_of-note_sequence :
    (a b n : ℕ) (m : List AuthorHead)
    → IsMap m
    → head_of a (note_sequence b n m) ≡ (if b == a then advance (head_of a m) n else head_of a m)
unfolding note_sequence
head_of-note_sequence a b n [] h = ground arith
head_of-note_sequence a b n (e ∷ m) h =
    ground (arith, head_of-note_sequence a b n m, head_of-Above a e.author m)

contiguous-IsMap :
    (m : List AuthorHead) (rows : List EventRow) → IsMap m → IsMap (contiguous m rows)
unfolding contiguous
contiguous-IsMap m [] h = h
contiguous-IsMap m (e ∷ es) h =
    contiguous-IsMap (note_sequence e.author e.author_sequence m) es
      (note_sequence-IsMap e.author e.author_sequence m h)

-- Each entry of a map is found under its author.
IsMap-head_of : (m : List AuthorHead) → IsMap m → All (λ h. head_of h.author m ≡ h.sequence) m
IsMap-head_of [] h = tt
IsMap-head_of (e ∷ m) (above, rest) = (
  ground arith,
  All-map _ _ m (λ f k. ground (arith, k.0, k.1))
      (All-both (λ f. e.author < f.author) (λ f. head_of f.author m ≡ f.sequence) m above
        (IsMap-head_of m rest)),
)

pub contiguous-head_of :
    (rows : List EventRow)
    → All (λ h. head_of h.author (contiguous [] rows) ≡ h.sequence) (contiguous [] rows)
contiguous-head_of rows = IsMap-head_of (contiguous [] rows) (contiguous-IsMap [] rows tt)

-- The loop of `inventories` as one author sees it.
pub scan : PeerId → ℕ → List EventRow → ℕ
scan a acc [] = acc
scan a acc (e ∷ es) = scan a (if e.author == a then advance acc e.author_sequence else acc) es

pub contiguous-scan :
    (a : PeerId) (m : List AuthorHead) (rows : List EventRow)
    → IsMap m
    → head_of a (contiguous m rows) ≡ scan a (head_of a m) rows
unfolding contiguous scan
contiguous-scan a m [] h = refl
contiguous-scan a m (e ∷ es) h =
    contiguous-scan a (note_sequence e.author e.author_sequence m) es
      (note_sequence-IsMap e.author e.author_sequence m h)
    ∙ rw (head_of-note_sequence a e.author e.author_sequence m h)

-- What the rows of an author satisfy, in the order in which they are read.
abbrev pub AtLeast : PeerId → ℕ → List EventRow → Type 0
AtLeast a n = All (λ e. (e.author == a) ≡ true → n ≤ e.author_sequence)

abbrev pub IsAscending : PeerId → List EventRow → Type 0
IsAscending a [] = Unit
IsAscending a (e ∷ es) =
    ((e.author == a) ≡ true → AtLeast a e.author_sequence es) × IsAscending a es

abbrev pub Fits : List EventRow → Type 0
Fits = All (λ e. e.author_sequence < i64_limit)

abbrev pub has : PeerId → ℕ → List EventRow → Bool
has a n = any (λ e. e.author == a && e.author_sequence == n)

advance_lem : (acc n : ℕ) → acc < i64_limit → advance acc n ≡ (if n == acc + 1 then n else acc)
unfolding advance
advance_lem acc n h = ground arith

-- The head after the loop, and what it says of the rows.
pub record IsPrefix (a : PeerId) (acc head : ℕ) (rows : List EventRow) : Type 0 where
  pub grows : acc ≤ head
  pub stored : (k : ℕ) → acc < k → k ≤ head → has a k rows ≡ true
  pub ends : has a (head + 1) rows ≡ false

has-AtLeast : (a n k : ℕ) (rows : List EventRow) → AtLeast a n rows → k < n → has a k rows ≡ false
has-AtLeast a n k [] h lt = refl
has-AtLeast a n k (e ∷ es) h lt = ground (arith, h.0, has-AtLeast a n k es)

module _ (a acc head : ℕ) (e : EventRow) (es : List EventRow) where
  IsPrefix-other : (e.author == a) ≡ false → IsPrefix a acc head es → IsPrefix a acc head (e ∷ es)
  IsPrefix-other other p = record {
    grows = p.grows;
    stored = λ k lo hi. rw other (p.stored k lo hi);
    ends = rw other p.ends;
  }

  IsPrefix-next :
      (e.author == a) ≡ true
      → e.author_sequence ≡ acc + 1
      → IsPrefix a e.author_sequence head es
      → IsPrefix a acc head (e ∷ es)
  IsPrefix-next mine next p = record {
    grows = omega (arith, p.grows);
    stored = λ k lo hi. elim (Bool-cases (e.author_sequence == k)) [
      | inl here ↦ rw (mine, here)
      | inr later ↦ rw (mine, later) (p.stored k (ground arith) hi)
    ];
    ends = ground (arith, p.ends, p.grows);
  }

  IsPrefix-apart :
      acc ≤ e.author_sequence
      → e.author_sequence ≢ acc + 1
      → AtLeast a e.author_sequence es
      → IsPrefix a acc head es
      → IsPrefix a acc head (e ∷ es)
  IsPrefix-apart least apart above p = record {
    grows = p.grows;
    stored = λ k lo hi. ground (arith, p.stored k lo hi);
    ends = ground (
      arith,
      p.ends,
      p.grows,
      p.stored (acc + 1),
      has-AtLeast a e.author_sequence (acc + 1) es above,
    );
  }

pub scan-IsPrefix :
    (a acc : ℕ) (rows : List EventRow)
    → acc < i64_limit
    → Fits rows
    → AtLeast a acc rows
    → IsAscending a rows
    → IsPrefix a acc (scan a acc rows) rows
unfolding scan
scan-IsPrefix a acc [] lt fits least asc = record {
  grows = omega arith;
  stored = λ k p q. absurd (omega arith);
  ends = refl;
}
scan-IsPrefix a acc (e ∷ es) lt fits least asc = elim (Bool-cases (e.author == a)) [
  | inr other ↦
      rw other (IsPrefix-other a acc _ e es other (scan-IsPrefix a acc es lt fits.1 least.1 asc.1))
  | inl mine ↦ elim (Bool-cases (e.author_sequence == acc + 1)) [
    | inl next ↦
        rw (mine, advance_lem acc e.author_sequence lt, next)
          (IsPrefix-next a acc _ e es mine (ground arith)
            (scan-IsPrefix a e.author_sequence es fits.0 fits.1 (asc.0 mine) asc.1))
    | inr apart ↦
        rw (mine, advance_lem acc e.author_sequence lt, apart)
          (IsPrefix-apart a acc _ e es (least.0 mine) (ground arith) (asc.0 mine)
            (scan-IsPrefix a acc es lt fits.1 least.1 asc.1))
  ]
]
