-- ===== src/Store/Invariant/Contacts.antt =====
-- The tables of peers, endpoints and blocked peers of src/store.rs: their keys are unique, and every
-- endpoint is of a known peer.
pub mod Imports
pub mod Operations
use opencord.Base.{
  ℤ, ◌≡◌, refl, sym, subst, ap, ◌∙◌, Bool, true, false, not, List, [], ◌∷◌, Option, none, some,
  ◌==◌, ◌&&◌, any, filterb, All, All-map, Distinct, All-filterb, Bool-cases, inl, inr, arith,
  if◌then◌else◌, ==_iff,
}
use opencord.Text.{Text}
use opencord.Model.{PeerId}
use opencord.Store.{
  Store, PeerRow, EndpointRow, BlockedRow, has_peer_id, is_endpoint, blocks, upsert, empty_store,
}

-- The uniqueness constraints, on a later row and an earlier one.
abbrev pub same_peer : PeerRow → PeerRow → Bool
same_peer p q = has_peer_id p.id q

abbrev pub same_endpoint : EndpointRow → EndpointRow → Bool
same_endpoint e f = is_endpoint e.peer_id e.address f

abbrev pub same_blocked : BlockedRow → BlockedRow → Bool
same_blocked b d = blocks b.peer_id d

pub record HasContacts (s : Store) : Type 0 where
  pub peer_keys : Distinct same_peer s.peers
  pub endpoint_keys : Distinct same_endpoint s.peer_endpoints
  pub endpoint_peers : All (λ e. any (has_peer_id e.peer_id) s.peers ≡ true) s.peer_endpoints
  pub blocked_keys : Distinct same_blocked s.blocked_peers

pub empty_store-HasContacts : HasContacts empty_store
empty_store-HasContacts = record {
  peer_keys = tt;
  endpoint_keys = tt;
  endpoint_peers = tt;
  blocked_keys = tt;
}

-- Stores with the same peers, endpoints and blocked peers.
pub record SameContacts (s s' : Store) : Type 0 where
  pub peers : s.peers ≡ s'.peers
  pub endpoints : s.peer_endpoints ≡ s'.peer_endpoints
  pub blocked : s.blocked_peers ≡ s'.blocked_peers

pub SameContacts-refl : (s : Store) → SameContacts s s
SameContacts-refl s = record { peers = refl; endpoints = refl; blocked = refl }

pub SameContacts-trans :
    (s s1 s2 : Store) → SameContacts s s1 → SameContacts s1 s2 → SameContacts s s2
SameContacts-trans s s1 s2 p q = record {
  peers = p.peers ∙ q.peers;
  endpoints = p.endpoints ∙ q.endpoints;
  blocked = p.blocked ∙ q.blocked;
}

pub SameContacts-HasContacts : (s s' : Store) → SameContacts s s' → HasContacts s → HasContacts s'
SameContacts-HasContacts s s' same v = record {
  peer_keys = rw (← same.peers) v.peer_keys;
  endpoint_keys = rw (← same.endpoints) v.endpoint_keys;
  endpoint_peers = rw (← same.endpoints, ← same.peers) v.endpoint_peers;
  blocked_keys = rw (← same.blocked) v.blocked_keys;
}

-- An upsert of a row under its own key, where an update leaves the key alone.
module _ {A : Type 0} (hit : A → Bool) (update : A → A) (row : A) where
  All-upsert :
      (P : A → Type 0) (rows : List A)
      → ((x : A) → P x → P (update x))
      → All P rows
      → P row
      → All P (upsert hit update row rows)
  unfolding upsert
  All-upsert P [] keep all own = (own, tt)
  All-upsert P (r ∷ rs) keep all own =
      elim (hit r) as (λ b. All P (if b then update r ∷ rs else r ∷ upsert hit update row rs)) [
        | true ↦ (keep r all.0, all.1)
        | false ↦ (all.0, All-upsert P rs keep all.1 own)
      ]

  pub Distinct-upsert :
      (clash : A → A → Bool) (rows : List A)
      → ((x : A) → clash row x ≡ hit x)
      → ((x y : A) → clash (update x) y ≡ clash x y)
      → ((x y : A) → clash y (update x) ≡ clash y x)
      → Distinct clash rows
      → Distinct clash (upsert hit update row rows)
  unfolding upsert
  Distinct-upsert clash [] own later earlier d = (tt, tt)
  Distinct-upsert clash (r ∷ rs) own later earlier d = elim (Bool-cases (hit r)) [
    | inl found ↦ rw found (All-map _ _ rs (λ y apart. earlier r y ∙ apart) d.0, d.1)
    | inr missed ↦ rw missed (
      All-upsert (λ y. clash y r ≡ false) rs (λ y apart. later y r ∙ apart) d.0 (own r ∙ missed),
      Distinct-upsert clash rs own later earlier d.1,
    )
  ]

  any-upsert_old :
      (p : A → Bool) (rows : List A)
      → ((x : A) → p (update x) ≡ p x)
      → any p rows ≡ true
      → any p (upsert hit update row rows) ≡ true
  unfolding upsert
  any-upsert_old p [] keep h = absurd (cc)
  any-upsert_old p (r ∷ rs) keep h = ground (arith, keep r, any-upsert_old p rs keep)

  any-upsert_new :
      (p : A → Bool) (rows : List A)
      → ((x : A) → hit x ≡ true → p (update x) ≡ true)
      → p row ≡ true
      → any p (upsert hit update row rows) ≡ true
  unfolding upsert
  any-upsert_new p [] keep own = rw own
  any-upsert_new p (r ∷ rs) keep own = ground (arith, keep r, any-upsert_new p rs keep own)

pub Distinct-filterb :
    {A : Type 0} (clash : A → A → Bool) (p : A → Bool) (rows : List A)
    → Distinct clash rows
    → Distinct clash (filterb p rows)
Distinct-filterb clash p [] d = tt
Distinct-filterb clash p (r ∷ rs) d =
    elim (p r) as (λ b. Distinct clash (if b then r ∷ filterb p rs else filterb p rs)) [
      | true ↦ (All-filterb _ p rs d.0, Distinct-filterb clash p rs d.1)
      | false ↦ Distinct-filterb clash p rs d.1
    ]

-- An upsert of a peer.
pub upsert-HasContacts :
    (id : PeerId) (update : PeerRow → PeerRow) (row : PeerRow) (s : Store)
    → ((p : PeerRow) → (update p).id ≡ p.id)
    → row.id ≡ id
    → HasContacts s
    → HasContacts (record s { peers = upsert (has_peer_id id) update row s.peers })
      × (any (has_peer_id id) (upsert (has_peer_id id) update row s.peers) ≡ true)
upsert-HasContacts id update row s keep own v = (
  record {
    peer_keys =
        Distinct-upsert (has_peer_id id) update row same_peer s.peers
          (λ x. ap (λ k. has_peer_id k x) own) (λ x y. ap (λ k. has_peer_id k y) (keep x))
          (λ x y. ap (λ k. k == y.id) (keep x)) v.peer_keys;
    endpoint_keys = v.endpoint_keys;
    endpoint_peers =
        All-map _ _ s.peer_endpoints
          (λ e known.
            any-upsert_old (has_peer_id id) update row (has_peer_id e.peer_id) s.peers
              (λ x. ap (λ k. k == e.peer_id) (keep x)) known)
          v.endpoint_peers;
    blocked_keys = v.blocked_keys;
  },
  any-upsert_new (has_peer_id id) update row (has_peer_id id) s.peers
      (λ x found. ap (λ k. k == id) (keep x) ∙ found) ((==_iff row.id id).1 own),
)

-- An upsert of an endpoint of a known peer.
pub endpoint-HasContacts :
    (id : PeerId) (address : Text) (update : EndpointRow → EndpointRow) (seen : ℤ) (s : Store)
    → ((e : EndpointRow) → (update e).peer_id ≡ e.peer_id)
    → ((e : EndpointRow) → (update e).address ≡ e.address)
    → any (has_peer_id id) s.peers ≡ true
    → HasContacts s
    → HasContacts (record s {
      peer_endpoints =
          upsert
            (is_endpoint id address)
            update
            (record { peer_id = id; address = address; last_seen_ms = seen })
            s.peer_endpoints;
    })
endpoint-HasContacts id address update seen s keep keep' known v = record {
  peer_keys = v.peer_keys;
  endpoint_keys =
      Distinct-upsert (is_endpoint id address) update _ same_endpoint s.peer_endpoints (λ x. refl)
        (λ x y. rw (keep x, keep' x) refl) (λ x y. rw (keep x, keep' x) refl) v.endpoint_keys;
  endpoint_peers =
      All-upsert (is_endpoint id address) update _ (λ e. any (has_peer_id e.peer_id) s.peers ≡ true)
        s.peer_endpoints (λ x h. rw (keep x) h) v.endpoint_peers known;
  blocked_keys = v.blocked_keys;
}
