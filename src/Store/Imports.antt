-- ===== src/Store/Imports.antt =====
-- An invite that `build_invite` of src/store.rs writes is one that `import_invite` reads.
pub mod Channels
use opencord.Base.{
  Distinct, filterb, ℕ, ◌≡◌, refl, sym, ap, subst, ◌∙◌, true, false, List, [], ◌∷◌, ◌++◌, Option,
  none, some, ℤ, arith, All, All-append, map, any, find, find-append_self, find-none, find-any,
  is_empty, Bool-cases, inl, inr, any-append_left, any-append_self, ok, bind-inv, or_error-inv,
  ok-injective,
}
use opencord.Text.{
  Text, codes, is_whitespace, trim, trim_start, trim_end, strip_prefix, clean_label,
}
use opencord.Model.{
  GroupId, Group, Channel, InviteChannel, UnsignedGroupInvite, GroupInvite, PeerId,
}
use opencord.Crates.{Crates, CratesLaws}
use opencord.Crypto.{Identity, sign_invite, verify_invite}
use opencord.Crypto.Events.{verify_invite-sign_invite}
use opencord.Store.{Store, has_group_id, has_channel_id, insert_group, insert_or_ignore_channel}
use opencord.Store.Groups.{group, channels}
use opencord.Store.Invariant.{same_channel}
use opencord.Store.Imports.Channels.{
  row_of, same_invited, is_new, imported, is_unknown, Distinct-invited, channels-Distinct,
  import_channels-ok, row_of-invited,
}
use opencord.Store.Invites.{
  invite_scheme, invite_body, build_invite, import_group, import_channels, import_inviter,
  import_endpoints, import_body, import_invite,
}

-- No white space.
abbrev pub IsSolid : Text → Type 0
IsSolid = All (λ ch. is_whitespace ch ≡ false)

trim_end-IsSolid : (s : Text) → IsSolid s → trim_end s ≡ s
unfolding trim_end
trim_end-IsSolid [] h = refl
trim_end-IsSolid (ch ∷ s) h = rw (trim_end-IsSolid s h.1, h.0) (ground arith)

trim_start-IsSolid : (s : Text) → IsSolid s → trim_start s ≡ s
unfolding trim_start
trim_start-IsSolid [] h = refl
trim_start-IsSolid (ch ∷ s) h = ground (arith, h.0)

trim-IsSolid : (s : Text) → IsSolid s → trim s ≡ s
unfolding trim
trim-IsSolid s h = ap trim_end (trim_start-IsSolid s h) ∙ trim_end-IsSolid s h

strip_prefix-append : (p s : Text) → strip_prefix p (p ++ s) ≡ some s
unfolding strip_prefix
strip_prefix-append [] s = refl
strip_prefix-append (ch ∷ p) s = ground (arith, strip_prefix-append p s)

invite_scheme-IsSolid : IsSolid invite_scheme
unfolding is_whitespace
invite_scheme-IsSolid = ground arith

-- The group with its key is in the store.
abbrev pub HasGroup : GroupId → ℕ → Store → Type 0
HasGroup id secret s = (g : Group) × (group id s ≡ some g) × (g.secret ≡ secret)

-- The store does not know the group under another key.
abbrev pub NoConflict : GroupId → ℕ → Store → Type 0
NoConflict id secret s = (g : Group) → group id s ≡ some g → g.secret ≡ secret

module _ (c : Crates) where
  import_group-ok :
      (body : UnsignedGroupInvite) (s : Store) (known : Option Group)
      → group body.group_id s ≡ known
      → NoConflict body.group_id body.group_secret s
      → (s' : Store) × (import_group c body s known ≡ ok s')
        × (s'.channels ≡ s.channels)
        × HasGroup body.group_id body.group_secret s'
  unfolding import_group insert_group
  import_group-ok body s (some g) found agree =
      rw (agree g found) (s, ground arith, refl, (g, found, agree g found))
  import_group-ok body s none found agree =
      let fresh = find-none (has_group_id body.group_id) s.groups found in
      rw fresh (
        _,
        refl,
        refl,
        (_, find-append_self (has_group_id body.group_id) s.groups _ fresh (ground arith), refl),
      )

  import_endpoints-keeps :
      (peer : PeerId) (endpoints : List Text) (s : Store)
      → ((import_endpoints c peer endpoints s).groups ≡ s.groups)
        × ((import_endpoints c peer endpoints s).channels ≡ s.channels)
  unfolding import_endpoints
  import_endpoints-keeps peer [] s = (refl, refl)
  import_endpoints-keeps peer (e ∷ es) s =
      let rest = import_endpoints-keeps peer es _ in (rest.0 ∙ ground arith, rest.1 ∙ ground arith)

  import_body-ok :
      (body : UnsignedGroupInvite) (s : Store)
      → NoConflict body.group_id body.group_secret s
      → Distinct same_invited body.channels
      → (s' : Store) × (import_body c body s ≡ ok s')
        × HasGroup body.group_id body.group_secret s'
        × (s'.channels
            ≡ s.channels ++ map (row_of body.group_id) (filterb (is_new s.channels) body.channels))
  unfolding import_body import_inviter
  import_body-ok body s agree once =
      let (s1, first, rows, (g, found, key)) =
        import_group-ok body s (group body.group_id s) refl agree in
      let (s2, second, same, rows') =
        import_channels-ok c body.group_id body.channels s1
          (find-any (has_group_id body.group_id) s1.groups found) once in
      let keeps = import_endpoints-keeps body.inviter body.endpoints (import_inviter c body s2) in
      rw (first, second)
        (
          _,
          refl,
          (g, ap (find (has_group_id body.group_id)) (keeps.0 ∙ same) ∙ found, key),
          keeps.1
              ∙ rows'
              ∙ ap (λ cs. cs ++ map (row_of body.group_id) (filterb (is_new cs) body.channels))
                  rows,
        )

  sign_invite-body :
      (i : Identity) (body : UnsignedGroupInvite) {invite : GroupInvite}
      → sign_invite c i body ≡ ok invite
      → invite.body ≡ body
  unfolding sign_invite
  sign_invite-body i body h =
      or_error-inv (c.unsigned_invite.to_stdvec body) _ _ h
        λ _ _ h1. sym (ap (λ x. x.body) (ok-injective h1))

  -- The steps of `import_invite`, one by one.
  import_invite-ok :
      (value encoded : Text) (bytes : List ℕ) (invite : GroupInvite) (s s' : Store)
      → trim value ≡ value
      → strip_prefix invite_scheme value ≡ some encoded
      → c.base64.decode encoded ≡ some bytes
      → c.invite.from_bytes bytes ≡ some invite
      → verify_invite c invite ≡ ok tt
      → is_empty invite.body.channels ≡ false
      → import_body c invite.body s ≡ ok s'
      → import_invite c value s ≡ ok (invite, s')
  unfolding import_invite
  import_invite-ok value encoded bytes invite s s' trimmed stripped decoded parsed valid
        some_channels done =
      rw (trimmed, stripped, decoded, parsed, valid, some_channels, done) refl

is_empty-map : {A B : Type 0} (f : A → B) (xs : List A) → is_empty (map f xs) ≡ is_empty xs
is_empty-map f [] = refl
is_empty-map f (x ∷ xs) = refl

module _ (c : Crates) (laws : CratesLaws c)
    (solid : (bytes : List ℕ) → IsSolid (c.base64.encode bytes)) where
  -- What `import_invite` makes of an invite that was built, in a store that does not have the group
  -- under another key.
  pub import_invite-build_invite :
      (i : Identity) (id : GroupId) (endpoints : List Text) (at : ℤ) (s t : Store) (g : Group)
      {value : Text}
      → group id s ≡ some g
      → is_empty (channels g.id s) ≡ false
      → build_invite c i id endpoints at s ≡ ok value
      → NoConflict g.id g.secret t
      → Distinct same_channel s.channels
      → (invite : GroupInvite) × (t' : Store) × (import_invite c value t ≡ ok (invite, t'))
        × (invite.body ≡ invite_body c i g endpoints at s)
        × HasGroup g.id g.secret t'
        × (t'.channels
            ≡ t.channels ++ map (imported g.id) (filterb (is_unknown t.channels) (channels g.id s)))
  unfolding build_invite invite_body
  import_invite-build_invite i id endpoints at s t g {value} known some_channels built agree once =
      let b1 = rw known at built in
      bind-inv (sign_invite c i (invite_body c i g endpoints at s)) _ b1 λ invite signed b2.
        or_error-inv (c.invite.to_stdvec invite) _ _ b2 λ bytes encoded b3.
          let body_is : invite.body ≡ invite_body c i g endpoints at s =
            sign_invite-body c i _ signed in
          let valid =
            verify_invite-sign_invite c laws i (invite_body c i g endpoints at s) invite refl refl
              signed in
          let (t', done, has, all) =
            import_body-ok c (invite_body c i g endpoints at s) t agree
              (Distinct-invited (channels g.id s) (channels-Distinct g.id s once)) in
          let trimmed =
            trim-IsSolid (invite_scheme ++ c.base64.encode bytes)
              (All-append _ invite_scheme _ invite_scheme-IsSolid (solid bytes)) in
          let stripped = strip_prefix-append invite_scheme (c.base64.encode bytes) in
          let decoded = laws.decode-encode bytes (laws.invite_bytes invite bytes encoded) in
          let parsed = laws.invite_law.from_bytes-to_stdvec invite bytes encoded in
          let imported =
            import_invite-ok c (invite_scheme ++ c.base64.encode bytes) (c.base64.encode bytes)
              bytes invite t t' trimmed stripped decoded parsed valid
              (subst (λ b. is_empty b.channels ≡ false) (sym body_is)
                (is_empty-map _ (channels g.id s) ∙ some_channels))
              (subst (λ b. import_body c b t ≡ ok t') (sym body_is) done) in
          (
            invite,
            t',
            subst (λ v. import_invite c v t ≡ ok (invite, t')) (ok-injective b3) imported,
            body_is,
            has,
            all
                ∙ ap (λ rows. t.channels ++ rows)
                    (row_of-invited g.id (channels g.id s) t.channels),
          )
