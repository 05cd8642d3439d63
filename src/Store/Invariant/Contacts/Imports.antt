-- ===== src/Store/Invariant/Contacts/Imports.antt =====
-- `import_invite` of src/store.rs keeps the keys of the contacts.
use opencord.Base.{
  ◌≡◌, refl, true, not, List, [], ◌∷◌, Option, none, some, ◌==◌, any, ok, subst, ap, bind-inv,
  ensure-inv, or_error-inv, ok-injective, Bool-cases, inl, inr, is_empty,
}
use opencord.Text.{Text, trim, strip_prefix}
use opencord.Model.{GroupId, PeerId, Group, InviteChannel, UnsignedGroupInvite, GroupInvite}
use opencord.Crates.{Crates}
use opencord.Crypto.{verify_invite}
use opencord.Store.{Store, has_peer_id, insert_or_ignore_channel}
use opencord.Store.Invites.{
  import_group, import_channels, import_inviter, import_endpoints, import_body, import_invite,
  invite_scheme,
}
use opencord.Store.Invariant.Contacts.{
  HasContacts, SameContacts, SameContacts-refl, SameContacts-trans, SameContacts-HasContacts,
  upsert-HasContacts, endpoint-HasContacts,
}
use opencord.Store.Invariant.Contacts.Operations.{
  insert_group-SameContacts, insert_or_ignore_channel-SameContacts,
}

module _ (c : Crates) where
  import_group-SameContacts :
      (body : UnsignedGroupInvite) (s : Store) (known : Option Group) (s' : Store)
      → import_group c body s known ≡ ok s'
      → SameContacts s s'
  unfolding import_group
  import_group-SameContacts body s (some g) s' h =
      ensure-inv (g.secret == body.group_secret) _ _ h
        λ _ h1. subst (SameContacts s) (ok-injective h1) (SameContacts-refl s)
  import_group-SameContacts body s none s' h = insert_group-SameContacts _ s s' h

  import_channels-SameContacts :
      (g : GroupId) (chs : List InviteChannel) (s s' : Store)
      → import_channels c g chs s ≡ ok s'
      → SameContacts s s'
  unfolding import_channels
  import_channels-SameContacts g [] s s' h =
      subst (SameContacts s) (ok-injective h) (SameContacts-refl s)
  import_channels-SameContacts g (ch ∷ rest) s s' h =
      bind-inv (insert_or_ignore_channel _ s) _ h λ r e1 h1.
        SameContacts-trans s r.1 s' (insert_or_ignore_channel-SameContacts _ s r.0 r.1 e1)
          (import_channels-SameContacts g rest r.1 s' h1)

  import_endpoints-HasContacts :
      (p : PeerId) (es : List Text) (s : Store)
      → any (has_peer_id p) s.peers ≡ true
      → HasContacts s
      → HasContacts (import_endpoints c p es s)
  unfolding import_endpoints
  import_endpoints-HasContacts p [] s known v = v
  import_endpoints-HasContacts p (e ∷ es) s known v = elim (Bool-cases (c.is_socket_address e)) [
    | inl parses ↦ rw parses (
        import_endpoints-HasContacts p es _ known
          (endpoint-HasContacts p e _ _ s (λ r. refl) (λ r. refl) known v))
    | inr bad ↦ rw bad (import_endpoints-HasContacts p es s known v)
  ]

  import_inviter-HasContacts :
      (body : UnsignedGroupInvite) (s : Store)
      → HasContacts s
      → HasContacts (import_inviter c body s)
        × (any (has_peer_id body.inviter) (import_inviter c body s).peers ≡ true)
  unfolding import_inviter
  import_inviter-HasContacts body s v = upsert-HasContacts body.inviter _ _ s (λ q. refl) refl v

  import_body-HasContacts :
      (body : UnsignedGroupInvite) (s s' : Store)
      → HasContacts s
      → import_body c body s ≡ ok s'
      → HasContacts s'
  unfolding import_body
  import_body-HasContacts body s s' v h = bind-inv (import_group c body s _) _ h λ s1 e1 h1.
      bind-inv (import_channels c body.group_id body.channels s1) _ h1 λ s2 e2 h2.
        let same =
          SameContacts-trans s s1 s2 (import_group-SameContacts body s _ s1 e1)
            (import_channels-SameContacts body.group_id body.channels s1 s2 e2) in
        let (kept, known) =
          import_inviter-HasContacts body s2 (SameContacts-HasContacts s s2 same v) in
        subst HasContacts (ok-injective h2) (
          import_endpoints-HasContacts body.inviter body.endpoints (import_inviter c body s2) known
            kept)

  pub import_invite-HasContacts :
      (value : Text) (s : Store) {invite : GroupInvite} {s' : Store}
      → HasContacts s
      → import_invite c value s ≡ ok (invite, s')
      → HasContacts s'
  unfolding import_invite
  import_invite-HasContacts value s v h =
      or_error-inv (strip_prefix invite_scheme (trim value)) _ _ h λ encoded _ h1.
        or_error-inv (c.base64.decode encoded) _ _ h1 λ bytes _ h2.
          or_error-inv (c.invite.from_bytes bytes) _ _ h2 λ invite _ h3.
            bind-inv (verify_invite c invite) _ h3 λ _ _ h4.
              ensure-inv (not (is_empty invite.body.channels)) _ _ h4 λ _ h5.
                bind-inv (import_body c invite.body s) _ h5 λ s1 e1 h6.
                  subst HasContacts (ap (λ q. q.1) (ok-injective h6))
                    (import_body-HasContacts invite.body s s1 v e1)
