-- ===== src/Store/Remote.antt =====
-- `insert_remote_event` and the block list of src/store.rs: what they accept and write.
use opencord.Base.{
  ℕ, ◌≡◌, refl, sym, ap, ◌∙◌, Bool, true, false, not, List, [], ◌∷◌, ℤ, Option, none, some, arith,
  ◌==◌, if◌then◌else◌, any, find, find-append_self, filterb, ok, bind-inv, ensure-inv, or_error-inv,
  ok-injective, subst, ==_self,
}
use opencord.Text.{Text}
use opencord.Model.{PeerId, EventEnvelope}
use opencord.Crates.{Crates}
use opencord.Crypto.{validate_and_open_event}
use opencord.Store.{
  Store, EventRow, BlockedRow, row_of_event, is_event_at, blocks, insert_event, upsert, upsert_peer,
  sql_u64,
}
use opencord.Store.Groups.{group}
use opencord.Store.Peers.{is_blocked, block_peer, unblock_peer}
use opencord.Store.Events.{insert_remote_event, insert_if_new}
use opencord.Store.Invariant.Keeps.{insert_event-inv}

-- What an insertion of an event leaves alone, and where the event is found afterwards.
record Stored (e : EventEnvelope) (s s' : Store) : Type 0 where
  pub groups : s'.groups ≡ s.groups
  pub channels : s'.channels ≡ s.channels
  pub blocked : s'.blocked_peers ≡ s.blocked_peers
  pub row : EventRow
  pub found :
      find (is_event_at e.header.group_id e.header.author e.header.author_sequence) s'.events
      ≡ some row
  pub same_id : row.id ≡ e.header.id

insert_event-Stored :
    (e : EventEnvelope) (p : PeerId) (name : Text) (now : ℤ) (s s1 : Store)
    → insert_event e s ≡ ok s1
    → Stored e s (upsert_peer p name now s1)
unfolding upsert_peer row_of_event
insert_event-Stored e p name now s s1 h =
    let (_, _, _, open_slot, _, written) = insert_event-inv e s s1 h in
    record {
      groups = sym (ap (λ t. t.groups) written);
      channels = sym (ap (λ t. t.channels) written);
      blocked = sym (ap (λ t. t.blocked_peers) written);
      row = row_of_event e;
      found =
          ap
            (λ t.
              find (is_event_at e.header.group_id e.header.author e.header.author_sequence)
                t.events)
            (sym written)
          ∙ find-append_self _ s.events (row_of_event e) open_slot (ground arith);
      same_id = refl;
    }

module _ (c : Crates) where
  insert_if_new-Stored :
      (e : EventEnvelope) (name : Text) (now : ℤ) (s : Store) (known : Option EventRow) (b : Bool)
      (s' : Store)
      → find (is_event_at e.header.group_id e.header.author e.header.author_sequence) s.events
        ≡ known
      → insert_if_new c e name now s known ≡ ok (b, s')
      → Stored e s s'
  unfolding insert_if_new
  insert_if_new-Stored e name now s (some row) b s' found h =
      ensure-inv (row.id == e.header.id) _ _ h λ same h1.
        subst (Stored e s) (ap (λ q. q.1) (ok-injective h1)) (record {
          groups = refl;
          channels = refl;
          blocked = refl;
          row = row;
          found = found;
          same_id = ground arith;
        })
  insert_if_new-Stored e name now s none b s' found h =
      bind-inv (insert_event e s) _ h λ s1 inserted h1.
        subst (Stored e s) (ap (λ q. q.1) (ok-injective h1))
          (insert_event-Stored e _ _ now s s1 inserted)

  sql_u64-inv : (n : ℕ) {m : ℕ} → sql_u64 n ≡ ok m → m ≡ n
  sql_u64-inv n h = ground arith

  -- Receiving is idempotent: an event that was accepted, as new or as known, is accepted as known
  -- ever after while nothing else is written, whoever sends it, and the store stays as it is.
  pub insert_remote_event-again :
      (e : EventEnvelope) (name other : Text) (now later : ℤ) (s : Store) {b : Bool} {s' : Store}
      → insert_remote_event c e name now s ≡ ok (b, s')
      → insert_remote_event c e other later s' ≡ ok (false, s')
  unfolding insert_remote_event insert_if_new
  insert_remote_event-again e name other now later s {b} {s'} h =
      ensure-inv (not (is_blocked e.header.author s)) _ _ h λ allowed h1.
        or_error-inv (group e.header.group_id s) _ _ h1 λ g g_known h2.
          bind-inv (validate_and_open_event c e g.secret) _ h2 λ p opens h3.
            ensure-inv (any _ s.channels) _ _ h3 λ in_channel h4.
              bind-inv (sql_u64 e.header.author_sequence) _ h4 λ n n_eq h5.
                let same : n ≡ e.header.author_sequence = sql_u64-inv _ n_eq in
                let st : Stored e s s' = insert_if_new-Stored e name now s _ b s' refl (
                  subst
                    (λ k.
                      insert_if_new c e name now s
                        (find (is_event_at e.header.group_id e.header.author k) s.events)
                      ≡ ok (b, s'))
                    same h5) in
                rw (
                  st.blocked, allowed, st.groups, g_known, opens, st.channels, in_channel, n_eq,
                  same, st.found, st.same_id, ==_self,
                )

any-upsert :
    (p q : PeerId) (update : BlockedRow → BlockedRow) (row : BlockedRow) (rows : List BlockedRow)
    → ((r : BlockedRow) → (update r).peer_id ≡ r.peer_id)
    → row.peer_id ≡ p
    → any (blocks q) (upsert (blocks p) update row rows)
      ≡ (if p == q then true else any (blocks q) rows)
unfolding upsert
any-upsert p q update row [] keeps own = ground arith
any-upsert p q update row (r ∷ rows) keeps own =
    ground (arith, keeps r, any-upsert p q update row rows keeps)

any-unblock :
    (p q : PeerId) (rows : List BlockedRow)
    → any (blocks q) (filterb (λ b. not (blocks p b)) rows)
      ≡ (if p == q then false else any (blocks q) rows)
any-unblock p q [] = ground arith
any-unblock p q (r ∷ rows) = ground (arith, any-unblock p q rows)

-- Blocking and unblocking change the answer for the peer concerned and for no other: it is blocked
-- after `block_peer`, not blocked after `unblock_peer`, and other peers are as they were.
pub is_blocked-block_peer :
    (p q : PeerId) (reason : Text) (now : ℤ) (s : Store)
    → (is_blocked q (block_peer p reason now s) ≡ (if p == q then true else is_blocked q s))
      × (is_blocked q (unblock_peer p s) ≡ (if p == q then false else is_blocked q s))
unfolding block_peer unblock_peer
is_blocked-block_peer p q reason now s =
    (any-upsert p q _ _ s.blocked_peers (λ r. refl) refl, any-unblock p q s.blocked_peers)
