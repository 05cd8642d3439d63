-- ===== src/Network/State.antt =====
-- `SharedNetworkState` of src/network.rs: presence, status lines and the generation counter. Socket
-- addresses are numbers, in the order of `SocketAddr`; `show` is their `Display`. The waker, a
-- callback of the user interface, is not modelled. Each method runs under the state's locks.
pub mod Online
pub mod Sessions
pub mod Status
use opencord.Base.{
  ℕ, zero, suc, ◌+◌, ◌-◌, ◌^◌, ◌%◌, Bool, true, false, not, List, [], ◌∷◌, ◌++◌, Option, none, some,
  ltb, ◌==◌, if◌then◌else◌, any, drop, length, map,
}
use opencord.Text.{Text, codes}
use opencord.Model.{PeerId, GroupId}
use opencord.Store.{order_by}

abbrev pub Address : Type 0
Address = ℕ

pub record OnlinePeer : Type 0 where
  pub id : PeerId
  pub name : Text
  pub address : Address
  pub shared_groups : List GroupId
  pub latency_ms : Option ℕ

pub record Presence : Type 0 where
  pub peer : Option OnlinePeer
  pub sessions : ℕ

pub record Entry : Type 0 where
  pub key : PeerId
  pub presence : Presence

pub record NetworkState : Type 0 where
  pub listen_address : Address
  pub advertised_addresses : List Address
  -- `BTreeMap<PeerId, Presence>`, its entries in the order of the keys
  pub peers : List Entry
  pub status : List Text
  pub generation : ℕ

pub record NetworkSnapshot : Type 0 where
  pub listen_address : Option Address
  pub advertised_addresses : List Address
  pub online_peers : List OnlinePeer
  pub status : List Text
  pub generation : ℕ

-- `bump`: the counter is an AtomicU64.
unfoldable pub bump : NetworkState → NetworkState
bump st = record st { generation = (st.generation + 1) % 2 ^ 64 }

-- while status.len() > 12 { pop_front }
abbrev pub last_twelve : List Text → List Text
last_twelve lines = drop (length lines - 12) lines

-- `note`
unfoldable pub note : Text → NetworkState → NetworkState
unfolding bump
note value st = bump (record st { status = last_twelve (st.status ++ value ∷ []) })

-- The presence that a snapshot shows.
unfoldable pub shown : Presence → Option OnlinePeer
shown p = if ltb 0 p.sessions then p.peer else none

unfoldable pub online_peers : List Entry → List OnlinePeer
unfolding shown
online_peers [] = []
online_peers (e ∷ es) =
    let rest = online_peers es in elim (shown e.presence) [ some p ↦ p ∷ rest | none ↦ rest ]

-- `snapshot`
unfoldable pub snapshot : NetworkState → NetworkSnapshot
snapshot st = record {
  listen_address = some st.listen_address;
  advertised_addresses = st.advertised_addresses;
  online_peers = online_peers st.peers;
  status = st.status;
  generation = st.generation;
}

-- `add_advertised`
unfoldable pub add_advertised : Address → NetworkState → NetworkState
unfolding bump
add_advertised address st =
    if any (λ a. a == address) st.advertised_addresses
    then st
    else bump (record st {
      advertised_addresses = order_by ltb (st.advertised_addresses ++ address ∷ []);
    })

-- `peers.entry(id).or_default()`, and an update of what it gives.
unfoldable pub update_entry : PeerId → (Presence → Presence) → List Entry → List Entry
update_entry id f [] = record { key = id; presence = f (record { peer = none; sessions = 0 }) } ∷ []
update_entry id f (e ∷ es) =
    if e.key == id
    then record e { presence = f e.presence } ∷ es
    else if ltb id e.key
    then record { key = id; presence = f (record { peer = none; sessions = 0 }) } ∷ e ∷ es
    else e ∷ update_entry id f es

-- `peers.get_mut(id)`, and an update of what it gives.
unfoldable pub modify_entry : PeerId → (Presence → Presence) → List Entry → List Entry
modify_entry id f [] = []
modify_entry id f (e ∷ es) =
    if e.key == id then record e { presence = f e.presence } ∷ es else e ∷ modify_entry id f es

abbrev pub get_entry : PeerId → List Entry → Option Presence
get_entry id [] = none
get_entry id (e ∷ es) = if e.key == id then some e.presence else get_entry id es

abbrev pub enter : OnlinePeer → Presence → Presence
enter peer p = record { peer = some peer; sessions = p.sessions + 1 }

-- `saturating_sub(1)`
abbrev pub leave : Presence → Presence
leave p = record p { sessions = p.sessions - 1 }

module _ (show : Address → Text) where
  -- `new`
  unfoldable pub new : Address → List Address → NetworkState
  new listen_address advertised_addresses = record {
    listen_address = listen_address;
    advertised_addresses = advertised_addresses;
    peers = [];
    status = (codes "Listening on " ++ show listen_address) ∷ [];
    generation = 1;
  }

  -- `online`
  unfoldable pub online : OnlinePeer → NetworkState → NetworkState
  unfolding note
  online peer st =
      note (peer.name ++ (codes " connected from " ++ show peer.address))
        (record st { peers = update_entry peer.id (enter peer) st.peers })

-- The name to report where the last session of a peer ended.
unfoldable pub offline_name : Option Presence → Option Text
offline_name none = none
offline_name (some p) =
    if p.sessions == 0 then (elim p.peer [ some q ↦ some q.name | none ↦ none ]) else none

-- `offline`
unfoldable pub offline : PeerId → NetworkState → NetworkState
unfolding note bump
offline peer st =
    let peers = modify_entry peer leave st.peers in
    let left : NetworkState = record st { peers = peers } in
    elim (offline_name (get_entry peer peers)) [
      | some name ↦ note (name ++ codes " went offline") left
      | none ↦ bump left
    ]
