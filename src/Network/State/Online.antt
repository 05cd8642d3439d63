-- ===== src/Network/State/Online.antt =====
-- What a snapshot of `SharedNetworkState` (src/network.rs) shows of the sessions, however the
-- sessions of a node interleave.
use opencord.Base.{◌≡◌, refl, List, [], ◌∷◌, ltb, arith, ap, ◌∙◌}
use opencord.Text.{Text}
use opencord.Model.{PeerId}
use opencord.Network.State.{
  Address, OnlinePeer, Entry, NetworkState, bump, note, add_advertised, snapshot, online_peers, new,
  online, offline, modify_entry, leave,
}
use opencord.Network.State.Sessions.{
  Tracks, IsMap, IsNamed, is_online, sessions_of, count, close, count-close, update_entry-IsMap,
  update_entry-IsNamed, sessions_of-update_entry, modify_entry-IsMap, modify_entry-IsNamed,
  sessions_of-modify_entry, sessions_of-Above,
}

-- The calls of the methods that write, in the order in which they take the locks.
pub data Call : Type 0 where
  arrives : OnlinePeer → Call
  departs : PeerId → Call
  notes : Text → Call
  bumps : Call
  advertises : Address → Call

module _ (show : Address → Text) where
  abbrev pub call : Call → NetworkState → NetworkState
  call (arrives p) st = online show p st
  call (departs id) st = offline id st
  call (notes v) st = note v st
  call bumps st = bump st
  call (advertises a) st = add_advertised a st

  abbrev pub run : List Call → NetworkState → NetworkState
  run [] st = st
  run (x ∷ xs) st = run xs (call x st)

-- The sessions that are open after the calls, by peer.
abbrev pub after : List Call → List PeerId → List PeerId
after [] open_sessions = open_sessions
after (arrives p ∷ xs) open_sessions = after xs (p.id ∷ open_sessions)
after (departs id ∷ xs) open_sessions = after xs (close id open_sessions)
after (_ ∷ xs) open_sessions = after xs open_sessions

pub Tracks-peers :
    (st st' : NetworkState) (l : List PeerId) → st'.peers ≡ st.peers → Tracks st l → Tracks st' l
Tracks-peers st st' l e t = record {
  ordered = rw e t.ordered;
  named = rw e t.named;
  counted = λ id. rw e (t.counted id);
}

peers-offline :
    (id : PeerId) (st : NetworkState) → (offline id st).peers ≡ modify_entry id leave st.peers
unfolding offline
peers-offline id st = ground arith

peers-add_advertised : (a : Address) (st : NetworkState) → (add_advertised a st).peers ≡ st.peers
unfolding add_advertised
peers-add_advertised a st = ground arith

module _ (show : Address → Text) where
  pub Tracks-online :
      (p : OnlinePeer) (st : NetworkState) (l : List PeerId)
      → Tracks st l
      → Tracks (online show p st) (p.id ∷ l)
  unfolding online
  Tracks-online p st l t = record {
    ordered = update_entry-IsMap p st.peers t.ordered;
    named = update_entry-IsNamed p st.peers t.named;
    counted = λ id. sessions_of-update_entry p id st.peers t.ordered ∙ ground (arith, t.counted id);
  }

  pub Tracks-offline :
      (a : PeerId) (st : NetworkState) (l : List PeerId)
      → Tracks st l
      → Tracks (offline a st) (close a l)
  Tracks-offline a st l t = record {
    ordered = rw (peers-offline a st) (modify_entry-IsMap a st.peers t.ordered);
    named = rw (peers-offline a st) (modify_entry-IsNamed a st.peers t.named);
    counted = λ id.
        rw (peers-offline a st) (
          sessions_of-modify_entry a id st.peers
          ∙ ground (arith, t.counted id, count-close a id l));
  }

  run-Tracks :
      (xs : List Call) (st : NetworkState) (l : List PeerId)
      → Tracks st l
      → Tracks (run show xs st) (after xs l)
  unfolding note bump
  run-Tracks [] st l t = t
  run-Tracks (arrives p ∷ xs) st l t = run-Tracks xs (online show p st) _ (Tracks-online p st l t)
  run-Tracks (departs a ∷ xs) st l t = run-Tracks xs (offline a st) _ (Tracks-offline a st l t)
  run-Tracks (notes v ∷ xs) st l t = run-Tracks xs (note v st) l (Tracks-peers st _ l refl t)
  run-Tracks (bumps ∷ xs) st l t = run-Tracks xs (bump st) l (Tracks-peers st _ l refl t)
  run-Tracks (advertises a ∷ xs) st l t =
      run-Tracks xs (add_advertised a st) l (Tracks-peers st _ l (peers-add_advertised a st) t)

-- A peer is shown as online exactly if it has a session.
is_online-online_peers :
    (id : PeerId) (es : List Entry)
    → IsMap es
    → IsNamed es
    → is_online id (online_peers es) ≡ ltb 0 (sessions_of id es)
unfolding online_peers
is_online-online_peers id [] m n = refl
is_online-online_peers id (e ∷ es) m n =
    let (q, shows, same) = n.0 in
    ground
      (arith, shows, same, is_online-online_peers id es m.1 n.1, sessions_of-Above e.key id es m.0)

-- However the arrivals and departures of sessions interleave with one another and with the other
-- calls, a snapshot shows a peer as online exactly if it has an open session, from the new state on.
pub snapshot-run :
    (show : Address → Text) (listen : Address) (advertised : List Address) (xs : List Call)
    (id : PeerId)
    → is_online id (snapshot (run show xs (new show listen advertised))).online_peers
      ≡ ltb 0 (count id (after xs []))
unfolding snapshot new
snapshot-run show listen advertised xs id =
    let t =
      run-Tracks show xs (new show listen advertised) []
        (record { ordered = tt; named = tt; counted = λ k. refl }) in
    is_online-online_peers id (run show xs (new show listen advertised)).peers t.ordered t.named
    ∙ ap (λ n. ltb 0 n) (t.counted id)
