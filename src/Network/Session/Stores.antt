-- ===== src/Network/Session/Stores.antt =====
-- The store and the presence of peers at the end of a session of src/network.rs, however the
-- session ends.
use opencord.Base.{ℕ, refl, List, [], ◌∷◌, some, Result, ok, err, subst, ==_self}
use opencord.Model.{PeerId, GroupId, Group, Channel}
use opencord.Crates.{CratesLaws}
use opencord.Store.Reach.{merges_channel, remembers, Reach, Reach-IsSound}
use opencord.Store.Invariant.{IsSound}
use opencord.Network.Session.Keeps.{Keeps, keeps, Keeps-bind, Keeps-write, Keeps-write_ok}
use opencord.Network.Session.Transfers.{send_requested_events-Keeps, receive_requested_events-Keeps}
use opencord.Network.Session.Rounds.{
  find_group-Keeps, open_channel-Keeps, seal_channel-Keeps, live_loop-Keeps,
}
use opencord.Network.State.{online, offline}
use opencord.Network.State.Sessions.{Tracks}
use opencord.Network.State.Online.{Tracks-peers, Tracks-online, Tracks-offline}
use opencord.Network.Wire.{PeerHello, VoiceDatagram}
use opencord.Network.Task.{Context, Task, M, ◌>>=◌, lift, change_state, continue}
use opencord.Network.Live.{Input}
use opencord.Network.Session.{
  seal_channels, local_channels, merge_channels, synchronize, run_authenticated_session,
  exchange_hellos, exchange_proofs, remember, online_peer, run_online, run_session,
}
use opencord.Network.Session.Expects.{
  expect_hello-Keeps, expect_proofs-Keeps, expect_channels-Keeps, expect_inventories-Keeps,
  expect_requests-Keeps,
}

module _ (x : Context) where
  seal_channels-Keeps :
      (chs : List Channel) (g : Group) → Keeps x.net.crates (seal_channels x chs g)
  unfolding seal_channels
  seal_channels-Keeps [] g = search keeps
  seal_channels-Keeps (ch ∷ chs) g = search (keeps, seal_channel-Keeps, seal_channels-Keeps chs g)

  local_channels-Keeps : (ids : List GroupId) → Keeps x.net.crates (local_channels x ids)
  unfolding local_channels
  local_channels-Keeps [] = search keeps
  local_channels-Keeps (id ∷ ids) =
      search (keeps, find_group-Keeps, seal_channels-Keeps, local_channels-Keeps ids) depth 12

  merge_channels-Keeps :
      (shared : List GroupId) (ds : List VoiceDatagram)
      → Keeps x.net.crates (merge_channels x shared ds)
  unfolding merge_channels
  merge_channels-Keeps shared [] = search keeps
  merge_channels-Keeps shared (d ∷ ds) =
      search
        (keeps, open_channel-Keeps, Keeps-write, merges_channel, merge_channels-Keeps shared ds)
        depth 12

  synchronize-Keeps :
      (h : PeerHello) (shared : List GroupId) → Keeps x.net.crates (synchronize x h shared)
  unfolding synchronize
  synchronize-Keeps h shared =
      search
        (
          keeps, local_channels-Keeps, expect_channels-Keeps, merge_channels-Keeps,
          expect_inventories-Keeps, expect_requests-Keeps, send_requested_events-Keeps,
          receive_requested_events-Keeps,
        )
        depth 20

  run_authenticated-Keeps :
      (h : PeerHello) (shared : List GroupId) (is : List Input)
      → Keeps x.net.crates (run_authenticated_session x h shared is)
  unfolding run_authenticated_session
  run_authenticated-Keeps h shared is = search (keeps, synchronize-Keeps, live_loop-Keeps)

  exchange_hellos-Keeps : (port : ℕ) → Keeps x.net.crates (exchange_hellos x port)
  unfolding exchange_hellos
  exchange_hellos-Keeps port = search (keeps, expect_hello-Keeps) depth 20

  exchange_proofs-Keeps : (l r : PeerHello) → Keeps x.net.crates (exchange_proofs x l r)
  unfolding exchange_proofs
  exchange_proofs-Keeps l r = search (keeps, expect_proofs-Keeps) depth 20

  remember-Keeps : (r : PeerHello) → Keeps x.net.crates (remember x r)
  unfolding remember
  remember-Keeps r = Keeps-bind _ _ _ (search keeps) (λ at.
      Keeps-bind _ _ _ (search keeps) (λ later. Keeps-write_ok _ _ (λ s.
        remembers r.body.peer r.body.display_name (some (x.net.show_address x.remote_address)) at
          later refl)))

  -- A step keeps the store reachable, and where presence follows the open sessions it still does.
  module _ (os : List PeerId) where
    Leaves : {A : Type 0} → M A → Type 0
    Leaves m =
        (t : Task)
        → (Reach x.net.crates t.store → Reach x.net.crates (m t).1.store)
          × (Tracks t.state os → Tracks (m t).1.state os)

    Keeps-Leaves : {A : Type 0} (m : M A) → Keeps x.net.crates m → Leaves m
    unfolding Leaves Keeps
    Keeps-Leaves m k t = ((k t).reach, Tracks-peers t.state (m t).1.state os (k t).peers)

    Leaves-continue :
        {A B : Type 0} (r : Result A) (f : A → M B)
        → ((a : A) → Leaves (f a))
        → (t : Task)
        → (Reach x.net.crates t.store → Reach x.net.crates (continue r f t).1.store)
          × (Tracks t.state os → Tracks (continue r f t).1.state os)
    unfolding Leaves
    Leaves-continue (ok a) f g t = g a t
    Leaves-continue (err e) f g t = (λ h. h, λ h. h)

    Leaves-bind :
        {A B : Type 0} (m : M A) (f : A → M B)
        → Keeps x.net.crates m
        → ((a : A) → Leaves (f a))
        → Leaves (m >>= f)
    unfolding Leaves Keeps ◌>>=◌
    Leaves-bind m f k g t =
        let first = Keeps-Leaves m k t in
        let rest = Leaves-continue (m t).0 f g (m t).1 in
        (λ h. rest.0 (first.0 h), λ h. rest.1 (first.1 h))

    -- The peer goes online before the session proper and offline after it, whatever its result is.
    online-Leaves :
        (r : PeerHello) (shared : List GroupId) (is : List Input)
        → Leaves (
            change_state (online x.net.show_address (online_peer x r shared)) >>= λ _.
            run_online x r shared is)
    unfolding Leaves Keeps run_online ◌>>=◌ change_state lift
    online-Leaves r shared is t =
        let p = online_peer x r shared in
        let st = online x.net.show_address p t.state in
        let t1 : Task = record t { state = st } in
        let kept = run_authenticated-Keeps r shared is t1 in
        let st' = (run_authenticated_session x r shared is t1).1.state in
        (
          kept.reach,
          λ h. subst (Tracks (offline p.id st')) (rw (==_self p.id) refl) (
              Tracks-offline x.net.show_address p.id st' (p.id ∷ os) (
                Tracks-peers st st' (p.id ∷ os) kept.peers
                  (Tracks-online x.net.show_address p t.state os h))),
        )

    run_session-Leaves : (port : ℕ) (is : List Input) → Leaves (run_session x port is)
    unfolding run_session
    run_session-Leaves port is = Leaves-bind _ _ (exchange_hellos-Keeps port) (λ hellos.
        Leaves-bind _ _ (exchange_proofs-Keeps hellos.0 hellos.1) (λ shared.
          Leaves-bind _ _ (remember-Keeps hellos.1) (λ done. online-Leaves hellos.1 shared is)))

    -- Where the peers shown as online are those of some open sessions, with their numbers, they
    -- are the same after another session, whatever its peer sends, whatever its inputs are and
    -- however it ends.
    pub run_session-Tracks :
        (port : ℕ) (is : List Input) (t : Task)
        → Tracks t.state os
        → Tracks (run_session x port is t).1.state os
    unfolding Leaves
    run_session-Tracks port is t = (run_session-Leaves port is t).1

  -- Under the laws of the crates, whatever a peer sends in a session and whatever its inputs are,
  -- and however the session ends, a store that was built by the operations is sound afterwards.
  pub run_session-IsSound :
      CratesLaws x.net.crates
      → (port : ℕ) (is : List Input) (t : Task) → Reach x.net.crates t.store
      → IsSound x.net.crates (run_session x port is t).1.store
  unfolding Leaves
  run_session-IsSound laws port is t r =
      Reach-IsSound x.net.crates laws ((run_session-Leaves [] port is t).0 r)
