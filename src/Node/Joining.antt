-- ===== src/Node/Joining.antt =====
-- `Node::invite` and `Node::import_invite` of src/node.rs, of two nodes.
use opencord.Base.{
  Distinct, filterb, ℕ, ◌≡◌, refl, sym, ap, subst, ◌∙◌, true, false, arith, List, [], ◌∷◌, ◌++◌,
  some, ℤ, map, is_empty, ok,
}
use mathlib.Core.List.{append_assoc, append-nil}
use opencord.Text.{Text}
use opencord.Model.{GroupId, Group, GroupInvite}
use opencord.Crates.{Crates, CratesLaws}
use opencord.Store.Groups
use opencord.Store.Invites.{invite_body}
use opencord.Store.Imports.{IsSolid, HasGroup, NoConflict, import_invite-build_invite}
use opencord.Store.Imports.Channels.{imported, is_unknown}
use opencord.Store.Invariant.{same_channel}
use opencord.Network.State.{Address, snapshot}
use opencord.Node.{Net, Node, connect_to, connect, connect_each, invite, import_invite}

module _ (net : Net) (show : Address → Text)
    (parse-show : (a : Address) → net.parse (show a) ≡ some a) where
  connect_each-step :
      (a : Address) (rest : List Text) (n : Node)
      → n.running ≡ true
      → connect_each net (show a ∷ rest) n
        ≡ connect_each net rest (record n { commands = n.commands ++ connect_to a ∷ [] })
  unfolding connect_each connect
  connect_each-step a rest n on = ap (connect_each net rest) (ground (parse-show a, on, arith))

  connect_each-map :
      (to : List Address) (n : Node)
      → n.running ≡ true
      → ((connect_each net (map show to) n).commands ≡ n.commands ++ map connect_to to)
        × ((connect_each net (map show to) n).store ≡ n.store)
  unfolding connect_each connect
  connect_each-map [] n on = (sym (append-nil n.commands), refl)
  connect_each-map (a ∷ to) n on =
      let next : Node = record n { commands = n.commands ++ connect_to a ∷ [] } in
      let rest = connect_each-map to next on in
      subst (λ r. (r.commands ≡ n.commands ++ map connect_to (a ∷ to)) × (r.store ≡ n.store))
        (sym (connect_each-step a (map show to) n on))
        (rest.0 ∙ append_assoc n.commands (connect_to a ∷ []) (map connect_to to), rest.1)

-- Under the laws of the crates, if base64 text has no white space and `parse` reads what `Display`
-- shows of an address: an invite that a node with unique channel identifiers writes for a group
-- that has a channel is accepted by every running node that does not have the group under another
-- key. That node then has the group with its key; the channels of the inviter in the group whose
-- identifiers it did not have are added to its own in the order in which the inviter shows them,
-- in the same group, with their positions and with their names as `clean_label` leaves them; and
-- it connects to every address that the inviter advertises.
pub import_invite-invite :
    (c : Crates) (laws : CratesLaws c) (solid : (bytes : List ℕ) → IsSolid (c.base64.encode bytes))
    (net : Net) (show : Address → Text) (parse-show : (a : Address) → net.parse (show a) ≡ some a)
    (n m : Node) (id : GroupId) (at : ℤ) (g : Group) {value : Text}
    → Groups.group id n.store ≡ some g
    → is_empty (Groups.channels g.id n.store) ≡ false
    → invite c show id at n ≡ ok value
    → NoConflict g.id g.secret m.store
    → Distinct same_channel n.store.channels
    → m.running ≡ true
    → (accepted : GroupInvite) × ((import_invite c net value m).0 ≡ ok accepted)
      × HasGroup g.id g.secret (import_invite c net value m).1.store
      × ((import_invite c net value m).1.store.channels
          ≡ m.store.channels
            ++ map
                (imported g.id)
                (filterb (is_unknown m.store.channels) (Groups.channels g.id n.store)))
      × ((import_invite c net value m).1.commands
          ≡ m.commands ++ map connect_to n.state.advertised_addresses)
unfolding invite import_invite invite_body snapshot
import_invite-invite c laws solid net show parse-show n m id at g {value} known some_channels built
      agree once on =
    let shown = map show n.state.advertised_addresses in
    let (accepted, s', done, body_is, has, all) =
      import_invite-build_invite c laws solid n.identity id shown at n.store m.store g known
        some_channels built agree once in
    let after : Node = record m { store = s' } in
    let (dialed, same) =
      subst
        (λ es.
          ((connect_each net es after).commands
            ≡ m.commands ++ map connect_to n.state.advertised_addresses)
          × ((connect_each net es after).store ≡ s'))
        (sym (ap (λ b. b.endpoints) body_is))
        (connect_each-map net show parse-show n.state.advertised_addresses after on) in
    rw done (
      accepted,
      refl,
      subst (HasGroup g.id g.secret) (sym same) has,
      ap (λ s. s.channels) same ∙ all,
      dialed,
    )
