-- ===== src/Store/Imports/Channels.antt =====
-- The channels of an invite (`import_invite` of src/store.rs): which rows they become.
use mathlib.Core.List.{append_assoc, append-nil}
use opencord.Base.{
  ◌≡◌, refl, sym, ap, ◌∙◌, Bool, true, false, not, List, [], ◌∷◌, ◌++◌, arith, All, All-map,
  Distinct, map, any, any-append, filterb, if◌then◌else◌, ◌==◌, Bool-cases, inl, inr, ok,
}
use opencord.Text.{codes, clean_label}
use opencord.Model.{GroupId, Channel, InviteChannel}
use opencord.Crates.{Crates}
use opencord.Store.{
  Store, has_group_id, has_channel_id, insert_or_ignore_channel, order_by, insert_sorted,
}
use opencord.Store.Groups.{channels}
use opencord.Store.Order.{All-insert_sorted, All-order_by}
use opencord.Store.Invites.{import_channels}
use opencord.Store.Invariant.{same_channel}
use opencord.Store.Invariant.Contacts.{Distinct-filterb}

abbrev pub row_of : GroupId → InviteChannel → Channel
row_of group_id ch = record {
  id = ch.id;
  group_id = group_id;
  name = clean_label ch.name (codes "channel") 64;
  position = ch.position;
}

-- What an invite has of a channel.
abbrev pub invited : Channel → InviteChannel
invited ch = record { id = ch.id; name = ch.name; position = ch.position }

abbrev pub same_invited : InviteChannel → InviteChannel → Bool
same_invited c d = d.id == c.id

-- No channel has the identifier.
abbrev pub is_new : List Channel → InviteChannel → Bool
is_new rows ch = not (any (has_channel_id ch.id) rows)

filterb_same :
    {A : Type 0} (p q : A → Bool) (xs : List A)
    → All (λ x. p x ≡ q x) xs
    → filterb p xs ≡ filterb q xs
filterb_same p q [] h = refl
filterb_same p q (x ∷ xs) h = ground (arith, h.0, filterb_same p q xs h.1)

filterb-map :
    {A B : Type 0} (p : B → Bool) (f : A → B) (xs : List A)
    → filterb p (map f xs) ≡ map f (filterb (λ x. p (f x)) xs)
filterb-map p f [] = refl
filterb-map p f (x ∷ xs) = ground (arith, filterb-map p f xs)

map-map :
    {A B C : Type 0} (f : B → C) (g : A → B) (xs : List A)
    → map f (map g xs) ≡ map (λ x. f (g x)) xs
map-map f g [] = refl
map-map f g (x ∷ xs) = ap (◌∷◌ (f (g x))) (map-map f g xs)

All-invited :
    (x : Channel) (rows : List Channel)
    → All (λ y. same_channel y x ≡ false) rows
    → All (λ y. same_invited y (invited x) ≡ false) (map invited rows)
All-invited x [] h = tt
All-invited x (y ∷ ys) h = (h.0, All-invited x ys h.1)

pub Distinct-invited :
    (rows : List Channel) → Distinct same_channel rows → Distinct same_invited (map invited rows)
Distinct-invited [] d = tt
Distinct-invited (x ∷ xs) d = (All-invited x xs d.0, Distinct-invited xs d.1)

same_channel-sym : (x y : Channel) → same_channel y x ≡ false → same_channel x y ≡ false
same_channel-sym x y h = ground (arith, h)

module _ (before : Channel → Channel → Bool) where
  Distinct-insert_sorted :
      (x : Channel) (ys : List Channel)
      → All (λ y. same_channel y x ≡ false) ys
      → Distinct same_channel ys
      → Distinct same_channel (insert_sorted before x ys)
  unfolding insert_sorted
  Distinct-insert_sorted x [] h d = (tt, tt)
  Distinct-insert_sorted x (y ∷ ys) h d =
      elim (before y x)
        as (λ b. Distinct same_channel (if b then y ∷ insert_sorted before x ys else x ∷ y ∷ ys)) [
          | true ↦ (
            All-insert_sorted (λ z. same_channel z y ≡ false) before x ys (same_channel-sym x y h.0)
                d.0,
            Distinct-insert_sorted x ys h.1 d.1,
          )
          | false ↦ (h, d)
        ]

  Distinct-order_by :
      (rows : List Channel)
      → Distinct same_channel rows
      → Distinct same_channel (order_by before rows)
  unfolding order_by
  Distinct-order_by [] d = tt
  Distinct-order_by (x ∷ xs) d =
      Distinct-insert_sorted x (order_by before xs)
        (All-order_by (λ y. same_channel y x ≡ false) before xs d.0) (Distinct-order_by xs d.1)

pub channels-Distinct :
    (g : GroupId) (s : Store)
    → Distinct same_channel s.channels
    → Distinct same_channel (channels g s)
unfolding channels
channels-Distinct g s d = Distinct-order_by _ _ (Distinct-filterb same_channel _ s.channels d)

-- A channel that was added makes no other one known.
is_new-append :
    (rows : List Channel) (g : GroupId) (ch : InviteChannel) (chs : List InviteChannel)
    → All (λ y. same_invited y ch ≡ false) chs
    → All (λ y. is_new (rows ++ row_of g ch ∷ []) y ≡ is_new rows y) chs
is_new-append rows g ch chs h =
    All-map _ _ chs
      (λ y other. ground (arith, any-append (has_channel_id y.id) rows (row_of g ch ∷ []), other)) h

-- The channels that the store does not have are added in their order, under the group of the invite,
-- with their names cleaned and their positions as they are; the others stay as they were.
pub import_channels-ok :
    (c : Crates) (id : GroupId) (chs : List InviteChannel) (s : Store)
    → any (has_group_id id) s.groups ≡ true
    → Distinct same_invited chs
    → (s' : Store) × (import_channels c id chs s ≡ ok s')
      × (s'.groups ≡ s.groups)
      × (s'.channels ≡ s.channels ++ map (row_of id) (filterb (is_new s.channels) chs))
unfolding import_channels insert_or_ignore_channel
import_channels-ok c id [] s known d = (s, refl, refl, sym (append-nil s.channels))
import_channels-ok c id (ch ∷ chs) s known d =
    elim (Bool-cases (any (has_channel_id ch.id) s.channels)) [
      | inl there ↦
          let (s', done, same, rows) = import_channels-ok c id chs s known d.1 in
          rw there (s', done, same, rows)
      | inr absent ↦
          let (s', done, same, rows) =
            import_channels-ok c id chs (record s { channels = s.channels ++ row_of id ch ∷ [] })
              known d.1 in
          rw (absent, known)
            (
              s',
              done,
              same,
              rows
                  ∙ ap (λ new. (s.channels ++ row_of id ch ∷ []) ++ map (row_of id) new)
                      (filterb_same _ _ chs (is_new-append s.channels id ch chs d.0))
                  ∙ append_assoc s.channels (row_of id ch ∷ [])
                      (map (row_of id) (filterb (is_new s.channels) chs)),
            )
    ]

-- A channel of another node as an import stores it, and whether the store lacks its identifier.
abbrev pub imported : GroupId → Channel → Channel
imported id ch = row_of id (invited ch)

abbrev pub is_unknown : List Channel → Channel → Bool
is_unknown rows ch = is_new rows (invited ch)

pub row_of-invited :
    (id : GroupId) (rows known : List Channel)
    → map (row_of id) (filterb (is_new known) (map invited rows))
      ≡ map (imported id) (filterb (is_unknown known) rows)
row_of-invited id rows known =
    ap (map (row_of id)) (filterb-map (is_new known) invited rows)
    ∙ map-map (row_of id) invited (filterb (is_unknown known) rows)
