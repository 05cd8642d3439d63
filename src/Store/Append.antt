-- ===== src/Store/Append.antt =====
-- `append` of src/store.rs: the event that it adds to the log.
use opencord.Base.{
  ℕ, ◌+◌, ◌≤◌, ◌<◌, ◌≡◌, refl, sym, ap, ◌∙◌, true, ◌&&◌, ◌||◌, ◌-◌, List, [], ◌∷◌, ◌++◌, ℤ, Option,
  some, arith, ltb, ◌==◌, All, any, ok, bind-inv, ensure-inv, ok-injective, subst, All-map,
}
use opencord.Model.{
  Nonce, GroupId, ChannelId, PeerId, Group, EventEnvelope, MessagePayload, validate,
}
use opencord.Crates.{Crates, CratesLaws}
use opencord.Crypto.{Identity, peer_id, seal_event, validate_and_open_event}
use opencord.Crypto.Events.{open-seal}
use opencord.Store.{
  Store, EventRow, row_of_event, is_event_at, insert_event, upsert_peer, i64_limit,
}
use opencord.Store.Events.{append, group_of_channel, max_sequence}
use opencord.Store.Invariant.Keeps.{insert_event-inv}

le-max_sequence :
    (g a : ℕ) (es : List EventRow)
    → All
        (λ e. (e.group_id == g && e.author == a) ≡ true → e.author_sequence ≤ max_sequence g a es)
        es
unfolding max_sequence
le-max_sequence g a [] = tt
le-max_sequence g a (e ∷ es) = (
  λ mine. ground arith,
  All-map _ _ es (λ f k mine. ground (arith, k mine)) (le-max_sequence g a es),
)

-- The greatest sequence number is 0 or stored.
max_sequence-stored :
    (g : GroupId) (a : PeerId) (es : List EventRow)
    → (max_sequence g a es == 0 || any (is_event_at g a (max_sequence g a es)) es) ≡ true
unfolding max_sequence
max_sequence-stored g a [] = refl
max_sequence-stored g a (e ∷ es) = ground (arith, max_sequence-stored g a es)

follows-max_sequence :
    (g : GroupId) (a : PeerId) (es : List EventRow)
    → (max_sequence g a es + 1 == 1 || any (is_event_at g a (max_sequence g a es + 1 - 1)) es)
      ≡ true
follows-max_sequence g a es =
    let n = max_sequence g a es in
    let back : n + 1 - 1 ≡ n = omega arith in rw back (ground (arith, max_sequence-stored g a es))

-- Under the laws of the crates, a successful `append` to a channel of a group adds one event to
-- the log and changes neither groups nor channels. The event carries the next sequence number of
-- its author in the group: it is above every stored one, and it is 1 or the one before it is
-- stored. It opens under the group's key to the payload.
pub append_lem :
    (c : Crates)
    → CratesLaws c
    → (i : Identity) (cid : ChannelId) (p : MessagePayload) (drawn : Option Nonce) (sent_at now : ℤ)
      (s : Store) (g : Group) {e : EventEnvelope} {s' : Store}
    → group_of_channel cid s ≡ some g
    → append c i cid p drawn sent_at now s ≡ ok (e, s')
    → (s'.events ≡ s.events ++ row_of_event e ∷ [])
      × (s'.groups ≡ s.groups)
      × (s'.channels ≡ s.channels)
      × (e.header.author ≡ peer_id c i)
      × ((e.header.author_sequence == 1
            || any (is_event_at g.id (peer_id c i) (e.header.author_sequence - 1)) s.events)
          ≡ true)
      × All
          (λ f.
            (f.group_id == g.id && f.author == peer_id c i) ≡ true
            → f.author_sequence < e.header.author_sequence)
          s.events
      × (validate_and_open_event c e g.secret ≡ ok p)
unfolding append upsert_peer
append_lem c laws i cid p drawn sent_at now s g {e} {s'} known h =
    bind-inv (validate p) _ h λ _ _ h1.
      let h1' = rw known at h1 in
      ensure-inv (ltb (max_sequence g.id (peer_id c i) s.events + 1) i64_limit) _ _ h1' λ _ h3.
        bind-inv (seal_event c i g.id cid g.secret _ sent_at drawn p) _ h3 λ e1 sealed h4.
          bind-inv (insert_event e1 s) _ h4 λ s1 inserted h5.
            let (opens, who, _, _, number, _) =
              open-seal c laws i g.id cid g.secret _ sent_at drawn p e1 sealed in
            let (_, _, _, _, _, written) = insert_event-inv e1 s s1 inserted in
            let e_eq : e1 ≡ e = ap (λ q. q.0) (ok-injective h5) in
            let s_eq = ap (λ q. q.1) (ok-injective h5) in
            (
              sym (ap (λ t. t.events) s_eq)
                  ∙ sym (ap (λ t. t.events) written)
                  ∙ ap (λ x. s.events ++ row_of_event x ∷ []) e_eq,
              sym (ap (λ t. t.groups) s_eq) ∙ sym (ap (λ t. t.groups) written),
              sym (ap (λ t. t.channels) s_eq) ∙ sym (ap (λ t. t.channels) written),
              sym (ap (λ x. x.header.author) e_eq) ∙ who,
              subst (λ n. (n == 1 || any (is_event_at g.id (peer_id c i) (n - 1)) s.events) ≡ true)
                  (sym number ∙ ap (λ x. x.header.author_sequence) e_eq)
                  (follows-max_sequence g.id (peer_id c i) s.events),
              All-map _ _ s.events
                  (λ f k mine.
                    omega (arith, k mine, number, ap (λ x. x.header.author_sequence) e_eq))
                  (le-max_sequence g.id (peer_id c i) s.events),
              subst (λ x. validate_and_open_event c x g.secret ≡ ok p) e_eq opens,
            )
