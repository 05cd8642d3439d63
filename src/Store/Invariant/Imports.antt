-- ===== src/Store/Invariant/Imports.antt =====
-- `import_invite` of src/store.rs, and the operations on peers, keep the invariant.
use opencord.Base.{
  ℤ, ◌≡◌, not, List, Option, none, some, ok, [], ◌∷◌, bind-inv, ensure-inv, or_error-inv,
  ok-injective, subst, is_empty, ap, ◌==◌, arith, refl, ◌∙◌, Bool-cases, inl, inr,
}
use opencord.Text.{Text, trim, strip_prefix}
use opencord.Model.{GroupId, PeerId, Group, InviteChannel, UnsignedGroupInvite, GroupInvite}
use opencord.Crates.{Crates}
use opencord.Crypto.{verify_invite}
use opencord.Store.{Store, insert_or_ignore_channel}
use opencord.Store.Peers.{remember_peer, block_peer, unblock_peer}
use opencord.Store.Invites.{
  import_group, import_channels, import_inviter, import_endpoints, import_body, import_invite,
  invite_scheme,
}
use opencord.Store.Invariant.{IsSound}
use opencord.Store.Invariant.Keeps.{insert_group-IsSound, insert_or_ignore_channel-IsSound}

-- The invariant speaks of groups, channels and events alone.
record SameLog (s s' : Store) : Type 0 where
  groups : s.groups ≡ s'.groups
  channels : s.channels ≡ s'.channels
  events : s.events ≡ s'.events

SameLog-trans : (s s1 s2 : Store) → SameLog s s1 → SameLog s1 s2 → SameLog s s2
SameLog-trans s s1 s2 p q = record {
  groups = p.groups ∙ q.groups;
  channels = p.channels ∙ q.channels;
  events = p.events ∙ q.events;
}

module _ (c : Crates) where
  SameLog-IsSound : (s s' : Store) → SameLog s s' → IsSound c s → IsSound c s'
  SameLog-IsSound s s' same v = record {
    group_keys = rw (← same.groups) v.group_keys;
    channel_keys = rw (← same.channels) v.channel_keys;
    channel_groups = rw (← same.channels, ← same.groups) v.channel_groups;
    event_keys = rw (← same.events) v.event_keys;
    event_slots = rw (← same.events) v.event_slots;
    readable = rw (← same.events, ← same.channels, ← same.groups) v.readable;
  }

  import_endpoints-SameLog :
      (p : PeerId) (es : List Text) (s : Store) → SameLog s (import_endpoints c p es s)
  unfolding import_endpoints
  import_endpoints-SameLog p [] s = ground arith
  import_endpoints-SameLog p (e ∷ es) s = elim (Bool-cases (c.is_socket_address e)) [
    | inl parses ↦ rw parses (
        SameLog-trans s _ _ (record { groups = refl; channels = refl; events = refl })
          (import_endpoints-SameLog p es _))
    | inr bad ↦ rw bad (import_endpoints-SameLog p es s)
  ]

  import_channels-IsSound :
      (g : GroupId) (chs : List InviteChannel) (s s' : Store)
      → IsSound c s
      → import_channels c g chs s ≡ ok s'
      → IsSound c s'
  unfolding import_channels
  import_channels-IsSound g [] s s' v h = subst (IsSound c) (ok-injective h) v
  import_channels-IsSound g (ch ∷ rest) s s' v h =
      bind-inv (insert_or_ignore_channel _ s) _ h λ r e1 h1.
        import_channels-IsSound g rest r.1 s' (insert_or_ignore_channel-IsSound c _ s r.0 r.1 v e1)
          h1

  import_group-IsSound :
      (body : UnsignedGroupInvite) (s : Store) (known : Option Group) (s' : Store)
      → IsSound c s
      → import_group c body s known ≡ ok s'
      → IsSound c s'
  unfolding import_group
  import_group-IsSound body s (some g) s' v h =
      ensure-inv (g.secret == body.group_secret) _ _ h λ _ h1. subst (IsSound c) (ok-injective h1) v
  import_group-IsSound body s none s' v h = insert_group-IsSound c _ s s' v h

  pub import_body-IsSound :
      (body : UnsignedGroupInvite) (s s' : Store)
      → IsSound c s
      → import_body c body s ≡ ok s'
      → IsSound c s'
  unfolding import_body import_inviter
  import_body-IsSound body s s' v h = bind-inv (import_group c body s _) _ h λ s1 e1 h1.
      bind-inv (import_channels c body.group_id body.channels s1) _ h1 λ s2 e2 h2.
        let v2 =
          import_channels-IsSound body.group_id body.channels s1 s2
            (import_group-IsSound body s _ s1 v e1) e2 in
        subst (IsSound c) (ok-injective h2) (
          SameLog-IsSound s2 _
            (let same =
                import_endpoints-SameLog body.inviter body.endpoints (import_inviter c body s2) in
              record { groups = same.groups; channels = same.channels; events = same.events })
            v2)

  -- `import_invite` keeps the store sound.
  pub import_invite-IsSound :
      (value : Text) (s : Store) {invite : GroupInvite} {s' : Store}
      → IsSound c s
      → import_invite c value s ≡ ok (invite, s')
      → IsSound c s'
  unfolding import_invite
  import_invite-IsSound value s v h =
      or_error-inv (strip_prefix invite_scheme (trim value)) _ _ h λ encoded _ h1.
        or_error-inv (c.base64.decode encoded) _ _ h1 λ bytes _ h2.
          or_error-inv (c.invite.from_bytes bytes) _ _ h2 λ invite _ h3.
            bind-inv (verify_invite c invite) _ h3 λ _ _ h4.
              ensure-inv (not (is_empty invite.body.channels)) _ _ h4 λ _ h5.
                bind-inv (import_body c invite.body s) _ h5 λ s1 e1 h6.
                  subst (IsSound c) (ap (λ q. q.1) (ok-injective h6))
                    (import_body-IsSound invite.body s s1 v e1)

  pub remember_peer-IsSound :
      (p : PeerId) (name : Text) (endpoint : Option Text) (now later : ℤ) (s : Store)
      → IsSound c s
      → IsSound c (remember_peer c p name endpoint now later s)
  unfolding remember_peer
  remember_peer-IsSound p name endpoint now later s v = SameLog-IsSound s _ (same endpoint) v
    where
      same : (e : Option Text) → SameLog s (remember_peer c p name e now later s)
      same none = record { groups = refl; channels = refl; events = refl }
      same (some address) = ground arith

  pub block_peer-IsSound :
      (p : PeerId) (reason : Text) (now : ℤ) (s : Store)
      → IsSound c s
      → IsSound c (block_peer p reason now s)
  unfolding block_peer
  block_peer-IsSound p reason now s v =
      SameLog-IsSound s _ (record { groups = refl; channels = refl; events = refl }) v

  pub unblock_peer-IsSound : (p : PeerId) (s : Store) → IsSound c s → IsSound c (unblock_peer p s)
  unfolding unblock_peer
  unblock_peer-IsSound p s v =
      SameLog-IsSound s _ (record { groups = refl; channels = refl; events = refl }) v
