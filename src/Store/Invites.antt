-- ===== src/Store/Invites.antt =====
-- src/store.rs: invites. `build_invite` writes a group, its key and its channels into a signed text,
-- and `import_invite` reads such a text into a store.
use opencord.Base.{
  ℤ, pos, not, List, [], ◌∷◌, ◌++◌, Option, none, some, ◌==◌, if◌then◌else◌, map, is_empty, Result,
  ok, ensure, or_error, ◌>>◌, ◌>>=◌, group_not_found, encode, invite_prefix, decode_invite, decode,
  invite_has_no_channels, invite_key_conflict,
}
use opencord.Text.{Text, codes, trim, strip_prefix, clean_label}
use opencord.Model.{
  GroupId, PeerId, Group, InviteChannel, UnsignedGroupInvite, GroupInvite, protocol_version,
}
use opencord.Crates.{Crates}
use opencord.Crypto.{Identity, peer_id, sign_invite, verify_invite}
use opencord.Store.{Store, has_peer_id, is_endpoint, insert_group, insert_or_ignore_channel, upsert}
use opencord.Store.Groups.{group, channels}

abbrev pub invite_scheme : Text
invite_scheme = codes "opencord://join/"

module _ (c : Crates) where
  -- The body that `build_invite` signs.
  unfoldable pub invite_body : Identity → Group → List Text → ℤ → Store → UnsignedGroupInvite
  invite_body identity g endpoints now s = record {
    version = protocol_version;
    group_id = g.id;
    group_name = g.name;
    group_secret = g.secret;
    channels =
        map (λ ch. record { id = ch.id; name = ch.name; position = ch.position }) (channels g.id s);
    inviter = peer_id c identity;
    inviter_name = identity.display_name;
    endpoints = endpoints;
    created_at_ms = now;
  }

  -- `Store::build_invite`
  unfoldable pub build_invite : Identity → GroupId → List Text → ℤ → Store → Result Text
  build_invite identity group_id endpoints now s = do
    g ← or_error (group group_id s) group_not_found
    invite ← sign_invite c identity (invite_body identity g endpoints now s)
    bytes ← or_error (c.invite.to_stdvec invite) encode
    ok (invite_scheme ++ c.base64.encode bytes)

  -- The group of the invite: it must have the known key, or is inserted.
  unfoldable pub import_group : UnsignedGroupInvite → Store → Option Group → Result Store
  import_group body s (some known) = do
    ensure (known.secret == body.group_secret) invite_key_conflict
    ok s
  import_group body s none =
      insert_group
        (record {
          id = body.group_id;
          name = clean_label body.group_name (codes "Imported group") 64;
          secret = body.group_secret;
          created_at_ms = body.created_at_ms;
        })
        s

  unfoldable pub import_channels : GroupId → List InviteChannel → Store → Result Store
  import_channels group_id [] s = ok s
  import_channels group_id (ch ∷ rest) s = do
    (_, s1) ←
        insert_or_ignore_channel
          (record {
            id = ch.id;
            group_id = group_id;
            name = clean_label ch.name (codes "channel") 64;
            position = ch.position;
          })
          s
    import_channels group_id rest s1

  unfoldable pub import_inviter : UnsignedGroupInvite → Store → Store
  import_inviter body s =
      let name : Text = clean_label body.inviter_name (codes "Inviter") 48 in
      record s {
        peers =
            upsert (has_peer_id body.inviter) (λ p. record p { display_name = name })
              (record { id = body.inviter; display_name = name; last_seen_ms = pos 0 }) s.peers;
      }

  -- INSERT OR IGNORE INTO peer_endpoints, for each address that parses.
  unfoldable pub import_endpoints : PeerId → List Text → Store → Store
  import_endpoints peer [] s = s
  import_endpoints peer (endpoint ∷ rest) s = import_endpoints peer rest (
      if c.is_socket_address endpoint
      then record s {
        peer_endpoints =
            upsert (is_endpoint peer endpoint) (λ e. e)
              (record { peer_id = peer; address = endpoint; last_seen_ms = pos 0 })
              s.peer_endpoints;
      }
      else s)

  -- The transaction of `import_invite`.
  unfoldable pub import_body : UnsignedGroupInvite → Store → Result Store
  import_body body s = do
    s1 ← import_group body s (group body.group_id s)
    s2 ← import_channels body.group_id body.channels s1
    ok (import_endpoints body.inviter body.endpoints (import_inviter body s2))

  -- `Store::import_invite`
  unfoldable pub import_invite : Text → Store → Result (GroupInvite × Store)
  import_invite value s = do
    encoded ← or_error (strip_prefix invite_scheme (trim value)) invite_prefix
    bytes ← or_error (c.base64.decode encoded) decode_invite
    invite ← or_error (c.invite.from_bytes bytes) decode
    verify_invite c invite
    ensure (not (is_empty invite.body.channels)) invite_has_no_channels
    s1 ← import_body invite.body s
    ok (invite, s1)
