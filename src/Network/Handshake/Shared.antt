-- ===== src/Network/Handshake/Shared.antt =====
-- The groups that a session of src/network.rs exposes.
use opencord.Base.{
  ℕ, ◌≡◌, refl, Bool, true, ◌&&◌, List, [], ◌∷◌, ◌==◌, if◌then◌else◌, any, filterb, map, arith, ◌∙◌,
}
use opencord.Model.{GroupId, Group}
use opencord.Network.Wire.{NetCrates, UnsignedPeerHello, GroupProof}
use opencord.Network.Handshake.{
  group_proof, local_proofs, is_authenticated, insert_set, set_of, member, shared_groups,
}

member-insert_set :
    (x y : ℕ) (ys : List ℕ) → member x (insert_set y ys) ≡ (if y == x then true else member x ys)
unfolding insert_set
member-insert_set x y [] = refl
member-insert_set x y (z ∷ zs) = ground (arith, member-insert_set x y zs)

member-set_of : (x : ℕ) (xs : List ℕ) → member x (set_of xs) ≡ member x xs
unfolding set_of
member-set_of x [] = refl
member-set_of x (y ∷ ys) = member-insert_set x y (set_of ys) ∙ ground (arith, member-set_of x ys)

member-map :
    (x : ℕ) (p : Group → Bool) (gs : List Group)
    → member x (map (λ g. g.id) (filterb p gs)) ≡ any (λ g. g.id == x && p g) gs
member-map x p [] = refl
member-map x p (g ∷ gs) = ground (arith, member-map x p gs)

-- A group is shared in a session exactly if it is a local group for which the peer sent, under the
-- group's identifier, the proof that the group's key gives for the peer as sender.
pub member-shared_groups :
    (n : NetCrates) (groups : List Group) (local remote : UnsignedPeerHello)
    (proofs : List GroupProof) (x : GroupId)
    → member x (shared_groups n groups local remote proofs)
      ≡ any
          (λ g.
            g.id == x
            && any
                (λ p. p.group_id == g.id && p.proof == group_proof n g.secret g.id remote local)
                proofs)
          groups
unfolding shared_groups is_authenticated
member-shared_groups n groups local remote proofs x =
    member-set_of x (map (λ g. g.id) (filterb (is_authenticated n local remote proofs) groups))
    ∙ member-map x (is_authenticated n local remote proofs) groups

any_mono :
    {p q : Group → Bool} (gs : List Group)
    → ((g : Group) → p g ≡ true → q g ≡ true)
    → any p gs ≡ true
    → any q gs ≡ true
any_mono [] f h = cc
any_mono {p} {q} (g ∷ gs) f h = ground (arith, f g, any_mono {p = p} {q = q} gs f)

proof-sent :
    (n : NetCrates) (local remote : UnsignedPeerHello) (g : Group) (theirs : List Group)
    → any (λ h. h.id == g.id && h.secret == g.secret) theirs ≡ true
    → is_authenticated n local remote (local_proofs n theirs remote local) g ≡ true
unfolding is_authenticated local_proofs
proof-sent n local remote g [] h = absurd (cc)
proof-sent n local remote g (x ∷ xs) h = ground (arith, proof-sent n local remote g xs)

-- Two honest peers share every group that both have with the same key: the proofs that the one
-- sends authenticate it to the other.
pub shared_complete :
    (n : NetCrates) (ours theirs : List Group) (local remote : UnsignedPeerHello) (x : GroupId)
    → any (λ g. g.id == x && any (λ h. h.id == g.id && h.secret == g.secret) theirs) ours ≡ true
    → member x (shared_groups n ours local remote (local_proofs n theirs remote local)) ≡ true
unfolding shared_groups
shared_complete n ours theirs local remote x h =
    member-set_of x (map (λ g. g.id) (filterb (is_authenticated n local remote proofs) ours))
    ∙ member-map x (is_authenticated n local remote proofs) ours
    ∙ any_mono ours (λ g k. ground (arith, proof-sent n local remote g theirs)) h
  where
    proofs : List GroupProof
    proofs = local_proofs n theirs remote local
