-- ===== src/Node/Start/Addresses.antt =====
-- The advertised addresses of a node: `local_addresses` of src/node.rs and `add_advertised` of
-- src/network.rs.
pub mod Increasing
use opencord.Base.{
  ℕ, ◌≡◌, refl, sym, ap, subst, ◌∙◌, Bool, true, false, not, ◌&&◌, ◌||◌, ◌==◌, ==_iff, leb, ltb,
  List, [], ◌∷◌, ◌++◌, Option, none, some, All, All-map, any, any-append, map, filterb, arith,
  if◌then◌else◌, Bool-cases, ◌⊎◌, inl, inr,
}
use opencord.Text.{Text}
use opencord.Crypto.{Identity, IdentityFile}
use opencord.Store.{Store, order_by, insert_sorted}
use opencord.Store.Peers.{known_endpoints}
use opencord.Store.Order.{IsOrdered, order_by-IsOrdered, All-insert_sorted, any-order_by}
use opencord.Network.State.{Address, NetworkState, add_advertised, new, note, bump}
use opencord.Network.Wire.{NetCrates}
use opencord.Node.{Ip, Net, Node, connect, connect_each}
use opencord.Node.Start.{dedup_from, dedup, local_addresses, map_port, initial, start}
use opencord.Node.Start.Addresses.Increasing.{
  IsIncreasing, has, AreDistinct, dedup-IsIncreasing, has-dedup, distinct-append,
  order_by-IsIncreasing,
}

-- The addresses that `local_addresses` sorts: those of the interfaces that other hosts can reach, and
-- that of the loopback.
abbrev pub candidates : Net → List Ip → ℕ → List Address
candidates net interfaces port =
    map (λ ip. net.socket_address ip port)
      (filterb (λ ip. not (net.is_unspecified ip) && not (net.is_loopback ip)) interfaces)
    ++ net.socket_address net.localhost port ∷ []

local_addresses-IsIncreasing :
    (net : Net) (interfaces : List Ip) (port : ℕ)
    → IsIncreasing (local_addresses net interfaces port)
unfolding local_addresses
local_addresses-IsIncreasing net interfaces port = dedup-IsIncreasing _ (
    order_by-IsOrdered ltb (λ x y h. ground arith) (λ x y z h k. ground arith)
      (candidates net interfaces port))

has-local_addresses :
    (a : Address) (net : Net) (interfaces : List Ip) (port : ℕ)
    → has a (local_addresses net interfaces port) ≡ has a (candidates net interfaces port)
unfolding local_addresses
has-local_addresses a net interfaces port =
    has-dedup a _ ∙ any-order_by ltb (λ b. b == a) (candidates net interfaces port)

has-known : (a b : Address) (xs : List Address) → has b xs ≡ true → has a xs ≡ (has a xs || b == a)
has-known a b xs known = elim (Bool-cases (b == a)) [
  | inl same ↦
      let there = subst (λ y. has y xs ≡ true) ((==_iff b a).0 same) known in rw (there) refl
  | inr apart ↦ ground (arith, apart)
]

-- What `add_advertised` makes of the list.
add_advertised_lem :
    (a b : Address) (st : NetworkState)
    → IsIncreasing st.advertised_addresses
    → IsIncreasing (add_advertised b st).advertised_addresses
      × (has a (add_advertised b st).advertised_addresses
          ≡ (has a st.advertised_addresses || b == a))
unfolding add_advertised bump
add_advertised_lem a b st h = elim (Bool-cases (has b st.advertised_addresses)) [
  | inl known ↦ rw known (h, has-known a b st.advertised_addresses known)
  | inr unknown ↦ rw unknown (
    order_by-IsIncreasing _ (distinct-append st.advertised_addresses b h unknown),
    any-order_by ltb (λ x. x == a) (st.advertised_addresses ++ b ∷ [])
        ∙ any-append (λ x. x == a) st.advertised_addresses (b ∷ [])
        ∙ ground arith,
  )
]

-- The reports of the port mapping thread.
abbrev pub map_ports : NetCrates → List (Address ⊎ Text) → Node → Node
map_ports x [] n = n
map_ports x (r ∷ rs) n = map_ports x rs (map_port x r n)

abbrev pub is_mapped : Address → List (Address ⊎ Text) → Bool
is_mapped a [] = false
is_mapped a (inl external ∷ rs) = external == a || is_mapped a rs
is_mapped a (inr error ∷ rs) = is_mapped a rs

map_port-inr :
    (x : NetCrates) (error : Text) (n : Node)
    → (map_port x (inr error) n).state.advertised_addresses ≡ n.state.advertised_addresses
unfolding map_port note bump
map_port-inr x error n = refl

map_port-inl :
    (x : NetCrates) (a : Address) (n : Node)
    → (map_port x (inl a) n).state.advertised_addresses
      ≡ (add_advertised a n.state).advertised_addresses
unfolding map_port note bump
map_port-inl x a n = refl

connect_each-state :
    (net : Net) (es : List Text) (n : Node) → (connect_each net es n).state ≡ n.state
unfolding connect_each connect
connect_each-state net [] n = refl
connect_each-state net (e ∷ es) n = connect_each-state net es _ ∙ ground arith

start-advertised :
    (x : NetCrates) (net : Net) (i : Identity) (saved : IdentityFile) (s : Store) (at : Address)
    (interfaces : List Ip) (error : Option Text)
    → (start x net i saved s at interfaces error).state.advertised_addresses
      ≡ local_addresses net interfaces (net.port at)
unfolding start new note bump
start-advertised x net i saved s at interfaces none =
    ap (λ st. st.advertised_addresses)
      (connect_each-state net (map (λ known. known.1) (known_endpoints s))
        (initial x net i saved s at interfaces))
start-advertised x net i saved s at interfaces (some error) =
    ap (λ st. st.advertised_addresses)
      (connect_each-state net (map (λ known. known.1) (known_endpoints s))
        (initial x net i saved s at interfaces))

map_ports-advertised :
    (x : NetCrates) (reports : List (Address ⊎ Text)) (n : Node)
    → IsIncreasing n.state.advertised_addresses
    → IsIncreasing (map_ports x reports n).state.advertised_addresses
      × ((a : Address)
          → has a (map_ports x reports n).state.advertised_addresses
            ≡ (has a n.state.advertised_addresses || is_mapped a reports))
map_ports-advertised x [] n h = (h, λ a. ground arith)
map_ports-advertised x (inl b ∷ reports) n h =
    let step = λ (a : Address). add_advertised_lem a b n.state h in
    let rest =
      map_ports-advertised x reports (map_port x (inl b) n) (rw (map_port-inl x b n) (step b).0) in
    (rest.0, λ a. rest.1 a ∙ (rw (map_port-inl x b n, (step a).1) (ground arith)))
map_ports-advertised x (inr error ∷ reports) n h =
    let rest =
      map_ports-advertised x reports (map_port x (inr error) n) (rw (map_port-inr x error n) h) in
    (rest.0, λ a. rest.1 a ∙ (rw (map_port-inr x error n) refl))

-- However a node was started and whatever the port mapping reports, it advertises its addresses in
-- increasing order and each once, and they are those of its interfaces that other hosts can reach,
-- that of the loopback, and those that were mapped.
pub map_ports-start :
    (x : NetCrates) (net : Net) (i : Identity) (saved : IdentityFile) (s : Store) (at : Address)
    (interfaces : List Ip) (error : Option Text) (reports : List (Address ⊎ Text))
    → let n = map_ports x reports (start x net i saved s at interfaces error) in
      IsIncreasing n.state.advertised_addresses
      × ((a : Address)
          → has a n.state.advertised_addresses
            ≡ (has a (candidates net interfaces (net.port at)) || is_mapped a reports))
map_ports-start x net i saved s at interfaces error reports =
    let begin = start-advertised x net i saved s at interfaces error in
    let rest = map_ports-advertised x reports (start x net i saved s at interfaces error) (
      subst IsIncreasing (sym begin) (local_addresses-IsIncreasing net interfaces (net.port at))) in
    (
      rest.0,
      λ a.
          rest.1 a
          ∙ ap (λ b. b || is_mapped a reports)
              (ap (has a) begin ∙ has-local_addresses a net interfaces (net.port at)),
    )
