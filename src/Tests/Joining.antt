-- ===== src/Tests/Joining.antt =====
-- An invite from one node to another, with an encoding of small invites.
use opencord.Base.{
  ℕ, ◌+◌, ◌-◌, ◌<◌, ◌≡◌, refl, ap, Bool, true, false, ◌&&◌, List, [], ◌∷◌, ◌++◌, Option, none, some,
  ℤ, pos, negsuc, map, All, ltb, arith, if◌then◌else◌, Bool-cases, inl, inr, ok, err, subst, length,
  take, drop, take-append, drop-append,
}
use opencord.Text.{Text, codes, is_whitespace, is_control, trim, trim_start, trim_end, clean_label}
use opencord.Model.{Bytes, Group, InviteChannel, GroupInvite}
use opencord.Crates.{Crates, CratesLaws}
use opencord.Crypto.{sign_invite}
use opencord.Store.{empty_store, order_by, insert_sorted}
use opencord.Store.Invites.{build_invite, invite_body}
use opencord.Store.Groups.{channels}
use opencord.Store.Imports.{IsSolid, HasGroup}
use opencord.Network.State.{Address, new, snapshot}
use opencord.Node.{Net, Node, connect_to, invite, import_invite}
use opencord.Node.Joining.{import_invite-invite}
use opencord.Tests.Toy.{toy, toy_laws}

abbrev are_small : Bytes → Bool
are_small [] = true
are_small (b ∷ bs) = ltb b 256 && are_small bs

abbrev if_small : Bytes → Option Bytes
if_small bytes = if are_small bytes then some bytes else none

-- An invite without names of the group and of the inviter, with one endpoint of one character and one
-- channel.
abbrev fields :
    ℕ → ℕ → Text → ℕ → List InviteChannel → ℕ → Text → List Text → ℤ → Bytes → Option Bytes
fields v g [] k (ch ∷ []) i [] ((e ∷ []) ∷ []) (pos at) signature =
    if_small
      (v ∷ g ∷ k ∷ i ∷ e ∷ at ∷ ch.id ∷ ch.position ∷ length ch.name ∷ (ch.name ++ signature))
fields _ _ _ _ _ _ _ _ _ _ = none

abbrev bytes_of : GroupInvite → Option Bytes
bytes_of invite =
    let b = invite.body in
    fields b.version b.group_id b.group_name b.group_secret b.channels b.inviter b.inviter_name
      b.endpoints b.created_at_ms invite.signature

abbrev invite_of : Bytes → Option GroupInvite
invite_of (v ∷ g ∷ k ∷ i ∷ e ∷ at ∷ id ∷ p ∷ n ∷ rest) = some (record {
  body = record {
    version = v;
    group_id = g;
    group_name = [];
    group_secret = k;
    channels = record { id = id; name = take n rest; position = p } ∷ [];
    inviter = i;
    inviter_name = [];
    endpoints = (e ∷ []) ∷ [];
    created_at_ms = pos at;
  };
  signature = drop n rest;
})
invite_of _ = none

if_small-inv :
    (bytes out : Bytes) → if_small bytes ≡ some out → (bytes ≡ out) × (are_small bytes ≡ true)
if_small-inv bytes out h = elim (Bool-cases (are_small bytes)) [
  | inl small ↦ (ground (arith, h, small), small)
  | inr large ↦ absurd (ground (arith, h, large))
]

All-small : (bytes : Bytes) → are_small bytes ≡ true → All (λ b. b < 256) bytes
All-small [] h = tt
All-small (b ∷ bs) h = (ground (arith, h), All-small bs (ground (arith, h)))

abbrev invite_with :
    ℕ → ℕ → Text → ℕ → List InviteChannel → ℕ → Text → List Text → ℤ → Bytes → GroupInvite
invite_with v g name k chs i who ends at signature = record {
  body = record {
    version = v;
    group_id = g;
    group_name = name;
    group_secret = k;
    channels = chs;
    inviter = i;
    inviter_name = who;
    endpoints = ends;
    created_at_ms = at;
  };
  signature = signature;
}

-- What `invite_of` reads back, and that bytes were written.
fields_lem :
    (v g : ℕ) (name : Text) (k : ℕ) (chs : List InviteChannel) (i : ℕ) (who : Text)
    (ends : List Text) (at : ℤ) (signature out : Bytes)
    → fields v g name k chs i who ends at signature ≡ some out
    → (invite_of out ≡ some (invite_with v g name k chs i who ends at signature))
      × All (λ b. b < 256) out
fields_lem v g [] k (ch ∷ []) i [] ((e ∷ []) ∷ []) (pos at) signature out h =
    let (written, small) =
      if_small-inv
        (v ∷ g ∷ k ∷ i ∷ e ∷ at ∷ ch.id ∷ ch.position ∷ length ch.name ∷ (ch.name ++ signature)) out
        h in
    (
      subst
          (λ b.
            invite_of b
            ≡ some (invite_with v g [] k (ch ∷ []) i [] ((e ∷ []) ∷ []) (pos at) signature))
          written (rw (take-append ch.name signature, drop-append ch.name signature) refl),
      subst (All (λ b. b < 256)) written (
          All-small
            (v ∷ g ∷ k ∷ i ∷ e ∷ at ∷ ch.id ∷ ch.position ∷ length ch.name ∷ (ch.name ++ signature))
            small),
    )
fields_lem v g (x ∷ xs) k chs i who ends at signature out h = absurd (cc)
fields_lem v g [] k [] i who ends at signature out h = absurd (cc)
fields_lem v g [] k (ch ∷ d ∷ chs) i who ends at signature out h = absurd (cc)
fields_lem v g [] k (ch ∷ []) i (x ∷ xs) ends at signature out h = absurd (cc)
fields_lem v g [] k (ch ∷ []) i [] [] at signature out h = absurd (cc)
fields_lem v g [] k (ch ∷ []) i [] ([] ∷ es) at signature out h = absurd (cc)
fields_lem v g [] k (ch ∷ []) i [] ((e ∷ f ∷ x) ∷ es) at signature out h = absurd (cc)
fields_lem v g [] k (ch ∷ []) i [] ((e ∷ []) ∷ f ∷ es) at signature out h = absurd (cc)
fields_lem v g [] k (ch ∷ []) i [] ((e ∷ []) ∷ []) (negsuc at) signature out h = absurd (cc)

-- Letters in a block without white space.
abbrev letters : Bytes → Text
letters = map (λ b. b + 20000)

abbrev bytes_of_letters : Text → Bytes
bytes_of_letters = map (λ ch. ch - 20000)

read_letters : (bytes : Bytes) → bytes_of_letters (letters bytes) ≡ bytes
read_letters [] = refl
read_letters (b ∷ bs) =
    let back : b + 20000 - 20000 ≡ b = omega arith in rw (back, read_letters bs) refl

letters-IsSolid : (bytes : Bytes) → IsSolid (letters bytes)
unfolding is_whitespace
letters-IsSolid [] = tt
letters-IsSolid (b ∷ bs) = (ground arith, letters-IsSolid bs)

abbrev postal : Crates
postal = record toy {
  invite = record { to_stdvec = bytes_of; from_bytes = invite_of };
  base64 = record { encode = letters; decode = λ t. some (bytes_of_letters t) };
}

postal_laws : CratesLaws postal
postal_laws = record {
  payload_law = record { from_bytes-to_stdvec = toy_laws.payload_law.from_bytes-to_stdvec };
  invite_law = record {
    from_bytes-to_stdvec = λ v bytes h.
        (fields_lem v.body.version v.body.group_id v.body.group_name v.body.group_secret
          v.body.channels v.body.inviter v.body.inviter_name v.body.endpoints v.body.created_at_ms
          v.signature bytes h).0;
  };
  channel_law = record { from_bytes-to_stdvec = toy_laws.channel_law.from_bytes-to_stdvec };
  key-verifying_key = toy_laws.key-verifying_key;
  length-signature = toy_laws.length-signature;
  verify-signature = toy_laws.verify-signature;
  decrypt-encrypt = toy_laws.decrypt-encrypt;
  decode-encode = λ bytes h. ap some (read_letters bytes);
  invite_bytes = λ v bytes h.
      (fields_lem v.body.version v.body.group_id v.body.group_name v.body.group_secret
        v.body.channels v.body.inviter v.body.inviter_name v.body.endpoints v.body.created_at_ms
        v.signature bytes h).1;
}

abbrev net : Net
net = record {
  parse = λ t. elim t [ [] ↦ none | a ∷ rest ↦ some a ];
  socket_address = λ ip port. ip + port;
  port = λ a. 0;
  is_unspecified = λ ip. false;
  is_loopback = λ ip. false;
  localhost = 1;
}

abbrev show : Address → Text
show a = a ∷ []

abbrev plain : Group
plain = record { id = 5; name = []; secret = 42; created_at_ms = pos 0 }

abbrev inviter : Node
inviter = record {
  identity = record { signing_key = 3; display_name = [] };
  saved = record { version = 1; display_name = []; secret = [] };
  store = record empty_store {
    groups = plain ∷ [];
    channels = record { id = 6; group_id = 5; name = codes "a"; position = 0 } ∷ [];
  };
  state = new (λ a. []) 16 (16 ∷ []);
  running = true;
  commands = [];
  live_events = [];
  voice_packets = [];
  metadata = [];
}

abbrev invited : Node
invited = record inviter { store = empty_store; state = new (λ a. []) 17 (17 ∷ []) }

abbrev value : Text
value = elim (invite postal show 5 (pos 9) inviter) [ ok v ↦ v | err e ↦ [] ]

import_invite-invite_example :
    (accepted : GroupInvite) × ((import_invite postal net value invited).0 ≡ ok accepted)
    × HasGroup 5 42 (import_invite postal net value invited).1.store
    × ((import_invite postal net value invited).1.store.channels
        ≡ record { id = 6; group_id = 5; name = codes "a"; position = 0 } ∷ [])
    × ((import_invite postal net value invited).1.commands ≡ connect_to 16 ∷ [])
unfolding invite build_invite invite_body sign_invite channels order_by insert_sorted snapshot new
    clean_label is_whitespace is_control trim trim_start trim_end
import_invite-invite_example =
    import_invite-invite postal postal_laws letters-IsSolid net show (λ a. refl) inviter invited 5
      (pos 9) plain refl refl refl (λ g h. absurd (cc)) (tt, tt) refl
