-- ===== src/Network/Handshake/Binding.antt =====
-- What the group proofs of src/network.rs bind: the key, the peers and the nonces.
use opencord.Base.{
  ℕ, ◌<◌, ◌≡◌, ◌^◌, ◌↔◌, refl, sym, ap, ◌∙◌, Bool, true, ◌&&◌, List, [], ◌∷◌, ◌++◌, All, ◌==◌, any,
  arith, take, drop, take-append, drop-append, Bool-cases, inl, inr,
}
use opencord.Text.{codes}
use opencord.Model.{Bytes, Key, GroupId, Group}
use opencord.Model.ByteId.{be_bytes, be_value, be_value-be_bytes, length-be_bytes}
use opencord.Network.Wire.{NetCrates, UnsignedPeerHello}
use opencord.Network.Handshake.{group_proof, local_proofs, is_authenticated, member, shared_groups}
use opencord.Network.Handshake.Shared.{member-shared_groups, shared_complete}

-- The bytes that a proof is made of.
abbrev pub proof_input : GroupId → UnsignedPeerHello → UnsignedPeerHello → Bytes
proof_input group_id sender receiver =
    codes "opencord-group-proof-v1"
    ++ (be_bytes 16 group_id
        ++ (be_bytes 32 sender.peer
            ++ (be_bytes 32 sender.nonce
                ++ (be_bytes 32 receiver.peer ++ be_bytes 32 receiver.nonce))))

-- The HMACs of two calls are the same only if their keys and their inputs are.
abbrev pub NoCollision : NetCrates → Key → Bytes → Key → Bytes → Type 0
NoCollision n k m k' m' =
    n.crates.hmac_sha256 k m ≡ n.crates.hmac_sha256 k' m' → (k ≡ k') × (m ≡ m')

-- The peer and the nonce of a hello have 32 bytes.
pub record Fits (h : UnsignedPeerHello) : Type 0 where
  pub peer : h.peer < 256 ^ 32
  pub nonce : h.nonce < 256 ^ 32

-- The same peer with the same nonce.
pub record IsSameEnd (h k : UnsignedPeerHello) : Type 0 where
  pub peer : h.peer ≡ k.peer
  pub nonce : h.nonce ≡ k.nonce

module _ (width a b : ℕ) (xs ys : Bytes) where
  left_part : be_bytes width a ++ xs ≡ be_bytes width b ++ ys → be_bytes width a ≡ be_bytes width b
  left_part h = sym (taken a xs) ∙ ap (take width) h ∙ taken b ys
    where
      taken : (c : ℕ) (zs : Bytes) → take width (be_bytes width c ++ zs) ≡ be_bytes width c
      taken c zs =
          ap (λ w. take w (be_bytes width c ++ zs)) (sym (length-be_bytes width c))
          ∙ take-append (be_bytes width c) zs

  right_part : be_bytes width a ++ xs ≡ be_bytes width b ++ ys → xs ≡ ys
  right_part h = sym (dropped a xs) ∙ ap (drop width) h ∙ dropped b ys
    where
      dropped : (c : ℕ) (zs : Bytes) → drop width (be_bytes width c ++ zs) ≡ zs
      dropped c zs =
          ap (λ w. drop w (be_bytes width c ++ zs)) (sym (length-be_bytes width c))
          ∙ drop-append (be_bytes width c) zs

be_bytes-injective :
    (width a b : ℕ)
    → a < 256 ^ width
    → b < 256 ^ width
    → be_bytes width a ≡ be_bytes width b
    → a ≡ b
be_bytes-injective width a b h k same =
    sym (be_value-be_bytes width a h) ∙ ap be_value same ∙ be_value-be_bytes width b k

proof_input-injective :
    (g : GroupId) (s r s' r' : UnsignedPeerHello)
    → Fits s
    → Fits r
    → Fits s'
    → Fits r'
    → proof_input g s r ≡ proof_input g s' r'
    → IsSameEnd s s' × IsSameEnd r r'
proof_input-injective g s r s' r' hs hr hs' hr' h =
    let h1 = right_part 16 g g _ _ (ap (drop 23) h) in
    let h2 = right_part 32 s.peer s'.peer _ _ h1 in
    let h3 = right_part 32 s.nonce s'.nonce _ _ h2 in
    let h4 = right_part 32 r.peer r'.peer _ _ h3 in
    (
      record {
        peer = be_bytes-injective 32 s.peer s'.peer hs.peer hs'.peer (left_part 32 _ _ _ _ h1);
        nonce = be_bytes-injective 32 s.nonce s'.nonce hs.nonce hs'.nonce (left_part 32 _ _ _ _ h2);
      },
      record {
        peer = be_bytes-injective 32 r.peer r'.peer hr.peer hr'.peer (left_part 32 _ _ _ _ h3);
        nonce = be_bytes-injective 32 r.nonce r'.nonce hr.nonce hr'.nonce h4;
      },
    )

module _ (n : NetCrates) (local remote s r : UnsignedPeerHello) where
  -- What the proof of one group in one session and that of another in another can have in common.
  abbrev pub Differ : List Group → Group → Type 0
  Differ theirs g =
      All
        (λ h.
          NoCollision n h.secret (proof_input h.id s r) g.secret (proof_input g.id remote local))
        theirs

  -- The node of `theirs` has the group under the same key.
  abbrev pub has_key : List Group → Group → Bool
  has_key theirs g = any (λ h. h.id == g.id && h.secret == g.secret) theirs

  -- The proofs were made for the very session in which they are looked at.
  abbrev pub AreFresh : Type 0
  AreFresh = IsSameEnd s remote × IsSameEnd r local

  module _ (fits_s : Fits s) (fits_r : Fits r) (fits_remote : Fits remote)
      (fits_local : Fits local) where
    group_proof-AreFresh :
        (g h : Group)
        → NoCollision n h.secret (proof_input h.id s r) g.secret (proof_input g.id remote local)
        → h.id ≡ g.id
        → group_proof n h.secret h.id s r ≡ group_proof n g.secret g.id remote local
        → (h.secret ≡ g.secret) × AreFresh
    unfolding group_proof
    group_proof-AreFresh g h free same_id same =
        let (key, input) = free same in
        (
          key,
          proof_input-injective g.id s r remote local fits_s fits_r fits_remote fits_local
              (ap (λ id. proof_input id s r) (sym same_id) ∙ input),
        )

    is_authenticated-AreFresh :
        (g : Group) (theirs : List Group)
        → Differ theirs g
        → is_authenticated n local remote (local_proofs n theirs s r) g ≡ true
        → (has_key theirs g ≡ true) × AreFresh
    unfolding is_authenticated local_proofs
    is_authenticated-AreFresh g [] free accepted = absurd (cc)
    is_authenticated-AreFresh g (h ∷ hs) free accepted =
        elim (Bool-cases (
          h.id == g.id
          && group_proof n h.secret h.id s r == group_proof n g.secret g.id remote local)) [
            | inl hit ↦
                let (key, fresh) =
                  group_proof-AreFresh g h free.0 (ground (arith, hit)) (ground (arith, hit)) in
                (ground (arith, hit, key), fresh)
            | inr miss ↦
                let (key, fresh) = is_authenticated-AreFresh g hs free.1 (rw miss at accepted) in
                (ground (arith, key), fresh)
          ]

    any-AreFresh :
        (x : GroupId) (ours theirs : List Group)
        → All (Differ theirs) ours
        → any (λ g. g.id == x && is_authenticated n local remote (local_proofs n theirs s r) g) ours
          ≡ true
        → (any (λ g. g.id == x && has_key theirs g) ours ≡ true) × AreFresh
    any-AreFresh x [] theirs free accepted = absurd (cc)
    any-AreFresh x (g ∷ gs) theirs free accepted =
        elim (Bool-cases
          (g.id == x && is_authenticated n local remote (local_proofs n theirs s r) g)) [
            | inl hit ↦
                let (key, fresh) =
                  is_authenticated-AreFresh g theirs free.0 (ground (arith, hit)) in
                (ground (arith, hit, key), fresh)
            | inr miss ↦
                let (key, fresh) = any-AreFresh x gs theirs free.1 (rw miss at accepted) in
                (ground (arith, key), fresh)
          ]

  local_proofs-AreFresh :
      (theirs : List Group)
      → AreFresh
      → local_proofs n theirs s r ≡ local_proofs n theirs remote local
  unfolding local_proofs group_proof
  local_proofs-AreFresh [] fresh = refl
  local_proofs-AreFresh (h ∷ hs) (one, other) =
      rw (one.peer, one.nonce, other.peer, other.nonce, local_proofs-AreFresh hs (one, other)) refl

  -- A node looks at the proofs that another node made, for the same or any other session, where
  -- the peers and nonces of both have 32 bytes and none of the HMACs of these proofs collides with
  -- one that is computed to check it: a group is shared exactly if both nodes have it under the
  -- same key, and the proofs were made by the peer of this session for this node, under the nonces
  -- of this session. A proof that is replayed in another session shares nothing.
  pub member-shared_groups-local_proofs :
      (ours theirs : List Group) (x : GroupId)
      → Fits s
      → Fits r
      → Fits remote
      → Fits local
      → All (Differ theirs) ours
      → (member x (shared_groups n ours local remote (local_proofs n theirs s r)) ≡ true)
        ↔ ((any (λ g. g.id == x && has_key theirs g) ours ≡ true) × AreFresh)
  unfolding is_authenticated
  member-shared_groups-local_proofs ours theirs x fs fr fm fl free = (
    λ h.
        any-AreFresh fs fr fm fl x ours theirs free
          (sym (member-shared_groups n ours local remote (local_proofs n theirs s r) x) ∙ h),
    λ (known, fresh).
        ap (λ ps. member x (shared_groups n ours local remote ps))
          (local_proofs-AreFresh theirs fresh)
        ∙ shared_complete n ours theirs local remote x known,
  )
