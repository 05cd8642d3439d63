-- ===== src/Network/State/Sessions.antt =====
-- Presence in `SharedNetworkState` (src/network.rs) against the sessions that are open: `run_session`
-- calls `online` when a session is authenticated and `offline` when it ends.
use opencord.Base.{
  ℕ, suc, ◌+◌, ◌-◌, ◌≤◌, ◌<◌, ◌≡◌, refl, Bool, List, [], ◌∷◌, some, ltb, ◌==◌, if◌then◌else◌, any,
  All, arith, Bool-cases, inl, inr,
}
use opencord.Model.{PeerId}
use opencord.Network.State.{
  OnlinePeer, Entry, NetworkState, update_entry, modify_entry, enter, leave,
}

-- The peers of the open sessions, one entry for each session.
abbrev pub count : PeerId → List PeerId → ℕ
count id [] = 0
count id (x ∷ xs) = if x == id then suc (count id xs) else count id xs

-- A session of the peer ends.
abbrev pub close : PeerId → List PeerId → List PeerId
close id [] = []
close id (x ∷ xs) = if x == id then xs else x ∷ close id xs

abbrev pub sessions_of : PeerId → List Entry → ℕ
sessions_of id [] = 0
sessions_of id (e ∷ es) = if e.key == id then e.presence.sessions else sessions_of id es

abbrev pub Above : PeerId → List Entry → Type 0
Above x = All (λ e. x < e.key)

abbrev pub IsMap : List Entry → Type 0
IsMap [] = Unit
IsMap (e ∷ es) = Above e.key es × IsMap es

-- Each entry shows a peer of its own key.
abbrev pub IsNamed : List Entry → Type 0
IsNamed = All (λ e. (q : OnlinePeer) × (e.presence.peer ≡ some q) × (q.id ≡ e.key))

abbrev pub is_online : PeerId → List OnlinePeer → Bool
is_online id ps = any (λ p. p.id == id) ps

pub record Tracks (st : NetworkState) (open_sessions : List PeerId) : Type 0 where
  pub ordered : IsMap st.peers
  pub named : IsNamed st.peers
  pub counted : (id : PeerId) → sessions_of id st.peers ≡ count id open_sessions

pub count-close :
    (a id : PeerId) (xs : List PeerId)
    → count id (close a xs) ≡ (if a == id then count id xs - 1 else count id xs)
count-close a id [] = ground arith
count-close a id (x ∷ xs) = ground (arith, count-close a id xs)

pub sessions_of-Above :
    (x id : PeerId) (es : List Entry) → Above x es → id ≤ x → sessions_of id es ≡ 0
sessions_of-Above x id [] h k = refl
sessions_of-Above x id (e ∷ es) h k = ground (arith, sessions_of-Above x id es)

module _ (p : OnlinePeer) where
  update_entry-Above :
      (x : PeerId) (es : List Entry)
      → Above x es
      → x < p.id
      → Above x (update_entry p.id (enter p) es)
  unfolding update_entry
  update_entry-Above x [] h k = (k, tt)
  update_entry-Above x (e ∷ es) h k = ground (arith, update_entry-Above x es)

  Above-trans : (x y : PeerId) (es : List Entry) → Above y es → x < y → Above x es
  Above-trans x y [] h k = tt
  Above-trans x y (e ∷ es) h k = (omega arith, Above-trans x y es h.1 k)

  pub update_entry-IsMap : (es : List Entry) → IsMap es → IsMap (update_entry p.id (enter p) es)
  unfolding update_entry
  update_entry-IsMap [] h = (tt, tt)
  update_entry-IsMap (e ∷ es) h =
      ground (arith, update_entry-IsMap es, update_entry-Above e.key es, Above-trans p.id e.key es)

  pub update_entry-IsNamed :
      (es : List Entry) → IsNamed es → IsNamed (update_entry p.id (enter p) es)
  unfolding update_entry
  update_entry-IsNamed [] h = ((p, refl, refl), tt)
  update_entry-IsNamed (e ∷ es) h = elim (Bool-cases (e.key == p.id)) [
    | inl same ↦ rw same ((p, refl, ground arith), h.1)
    | inr other ↦ elim (Bool-cases (ltb p.id e.key)) [
      | inl before ↦ rw (other, before) ((p, refl, refl), h)
      | inr after ↦ rw (other, after) (h.0, update_entry-IsNamed es h.1)
    ]
  ]

  pub sessions_of-update_entry :
      (id : PeerId) (es : List Entry)
      → IsMap es
      → sessions_of id (update_entry p.id (enter p) es)
        ≡ (if p.id == id then sessions_of id es + 1 else sessions_of id es)
  unfolding update_entry
  sessions_of-update_entry id [] h = ground arith
  sessions_of-update_entry id (e ∷ es) h =
      ground (arith, sessions_of-update_entry id es, sessions_of-Above e.key id es)

module _ (a : PeerId) where
  modify_entry-Above :
      (x : PeerId) (es : List Entry) → Above x es → Above x (modify_entry a leave es)
  unfolding modify_entry
  modify_entry-Above x [] h = tt
  modify_entry-Above x (e ∷ es) h = ground (arith, modify_entry-Above x es)

  pub modify_entry-IsMap : (es : List Entry) → IsMap es → IsMap (modify_entry a leave es)
  unfolding modify_entry
  modify_entry-IsMap [] h = tt
  modify_entry-IsMap (e ∷ es) h = ground (arith, modify_entry-IsMap es, modify_entry-Above e.key es)

  pub modify_entry-IsNamed : (es : List Entry) → IsNamed es → IsNamed (modify_entry a leave es)
  unfolding modify_entry
  modify_entry-IsNamed [] h = tt
  modify_entry-IsNamed (e ∷ es) h = elim (Bool-cases (e.key == a)) [
    | inl same ↦ rw same h
    | inr other ↦ rw other (h.0, modify_entry-IsNamed es h.1)
  ]

  pub sessions_of-modify_entry :
      (id : PeerId) (es : List Entry)
      → sessions_of id (modify_entry a leave es)
        ≡ (if a == id then sessions_of id es - 1 else sessions_of id es)
  unfolding modify_entry
  sessions_of-modify_entry id [] = ground arith
  sessions_of-modify_entry id (e ∷ es) = ground (arith, sessions_of-modify_entry id es)
