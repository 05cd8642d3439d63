-- ===== src/Store/Peers.antt =====
-- src/store.rs: known peers, their endpoints, and the peers blocked locally.
use opencord.Base.{
  ℤ, ltb_ℤ, Bool, not, List, ◌++◌, Option, none, some, if◌then◌else◌, any, filterb, find, map, ltb,
}
use opencord.Text.{Text, codes, clean_label}
use opencord.Model.{PeerId}
use opencord.Model.ByteId.{short}
use opencord.Crates.{Crates}
use opencord.Store.{Store, has_peer_id, is_endpoint, blocks, upsert, upsert_peer, order_by}

module _ (c : Crates) where
  remember_endpoint : PeerId → Option Text → ℤ → Store → Store
  remember_endpoint peer none now s = s
  remember_endpoint peer (some endpoint) now s =
      if c.is_socket_address endpoint
      then record s {
        peer_endpoints =
            upsert (is_endpoint peer endpoint) (λ e. record e { last_seen_ms = now })
              (record { peer_id = peer; address = endpoint; last_seen_ms = now }) s.peer_endpoints;
      }
      else s

  -- `Store::remember_peer`; the clock is read for the peer and then for the endpoint.
  unfoldable pub remember_peer : PeerId → Text → Option Text → ℤ → ℤ → Store → Store
  unfolding remember_endpoint upsert_peer
  remember_peer peer name endpoint now later s =
      remember_endpoint peer endpoint later
        (upsert_peer peer (clean_label name (codes "Unknown peer") 48) now s)

  -- `Store::author_name`
  unfoldable pub author_name : PeerId → Store → Text
  author_name author s = elim (find (has_peer_id author) s.peers) [
    | some p ↦ p.display_name
    | none ↦ codes "Peer " ++ short c.base64 32 author
  ]

-- `Store::known_endpoints`
unfoldable pub known_endpoints : Store → List (PeerId × Text)
known_endpoints s =
    map (λ e. (e.peer_id, e.address))
      (order_by (λ e f. ltb_ℤ f.last_seen_ms e.last_seen_ms) s.peer_endpoints)

-- `Store::peers`: a `BTreeMap`, in the order of its keys, which are those of the table.
unfoldable pub peers : Store → List (PeerId × Text)
unfolding order_by
peers s = order_by (λ p q. ltb p.0 q.0) (map (λ p. (p.id, p.display_name)) s.peers)

-- `Store::block_peer`
unfoldable pub block_peer : PeerId → Text → ℤ → Store → Store
unfolding upsert
block_peer peer reason now s =
    let cleaned : Text = clean_label reason (codes "Blocked locally") 256 in
    record s {
      blocked_peers =
          upsert (blocks peer) (λ b. record b { reason = cleaned; blocked_at_ms = now })
            (record { peer_id = peer; reason = cleaned; blocked_at_ms = now }) s.blocked_peers;
    }

-- `Store::unblock_peer`
unfoldable pub unblock_peer : PeerId → Store → Store
unblock_peer peer s = record s {
  blocked_peers = filterb (λ b. not (blocks peer b)) s.blocked_peers;
}

-- `Store::is_blocked`
abbrev pub is_blocked : PeerId → Store → Bool
is_blocked peer s = any (blocks peer) s.blocked_peers
