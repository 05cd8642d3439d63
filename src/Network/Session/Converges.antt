-- ===== src/Network/Session/Converges.antt =====
-- The exchange of logs of src/network.rs from both ends: what `send_requested_events` of one node
-- writes, read by `receive_requested_events` of the other.
use opencord.Base.{
  ℕ, ◌≤◌, ◌≡◌, refl, ap, ◌∙◌, Bool, true, List, [], ◌∷◌, ◌++◌, All, any, map, ◌<◌, ◌||◌, ltb,
  Bool-cases, inl, inr, length, Result, ok, arith,
}
use opencord.Model.{GroupId, PeerId, EventEnvelope}
use opencord.Crates.{Crates}
use opencord.Store.{Store, is_event_at}
use opencord.Store.Accept.{Agrees, IsOpen, IsWelcome}
use opencord.Store.Events.{inventory, inventories}
use opencord.Store.Heads.{head_of}
use opencord.Store.Inventory.{inventory-IsContiguous}
use opencord.Store.Invariant.{IsSound}
use opencord.Store.Page.{is_at}
use opencord.Network.Frames.{send_frame}
use opencord.Network.Handshake.{member}
use opencord.Network.Ranges.{covers, covers-missing_ranges, missing_ranges, local_heads}
use opencord.Network.Ranges.Advertised.{
  offered-AreU64, missing_ranges-IsAnswered, known-stored, offered-advertises,
}
use opencord.Network.Session.{of_shared}
use opencord.Network.Wire.{Wire, WireEvent, RangeRequest, PeerHello, event_batch, sync_done}
use opencord.Network.Task.{Context, Task}
use opencord.Network.Transfer.{send_requested_events, receive_requested_events}
use opencord.Network.Session.Batches.{IsBatch, frame_has}
use opencord.Network.Session.Complete.{AllSmall}
use opencord.Network.Session.Serves.{IsAnswered, send_requested_events-Answered}
use opencord.Network.Session.Takes.{receive_requested_events-Finished}
use opencord.Network.Session.Writes.{SharedRows}

map-ok_append :
    (fs : List Wire) (w : Wire) (rest : List (Result Wire))
    → map {B = Result Wire} ok (fs ++ w ∷ []) ++ rest ≡ map ok fs ++ ok w ∷ rest
map-ok_append [] w rest = refl
map-ok_append (f ∷ fs) w rest = ap (◌∷◌ (ok f)) (map-ok_append fs w rest)

here_or_sent :
    (here covered sent : Bool)
    → (here || covered) ≡ true
    → (covered ≡ true → sent ≡ true)
    → (here || sent) ≡ true
here_or_sent here covered sent h k = ground (arith, h, k)

-- The sender's log and the receiver's store agree, and the receiver has every reason to take the
-- sender's events of the shared groups.
pub record IsCompatible (c : Crates) (shared : List GroupId) (sender receiver : Store)
    : Type 0 where
  pub agree : All (Agrees sender.events) receiver.events
  pub welcome : SharedRows shared (IsWelcome c sender.events receiver) sender

-- The requests of a node with the one store to a node with the other.
abbrev pub asked : List GroupId → Store → Store → List RangeRequest
asked shared receiver sender =
    missing_ranges (of_shared shared (inventories receiver)) (of_shared shared (inventories sender))

module _ (x y : Context) (hello : PeerHello) (shared : List GroupId)
    (fits : (ws : List WireEvent)
      → IsBatch ws
      → (bytes : List ℕ) × (send_frame x.net.wire_codec (event_batch ws) ≡ ok bytes)) where
  -- For requests that the responder answers, at most 10000 of them, where its log and the store of
  -- the requester are compatible: both ends of the transfer finish without an error, the requester
  -- has read just the frames of the transfer, and an event of the responder that a request covers,
  -- or that the requester had, is in the requester's store.
  pub transfer_complete :
      {bytes : List ℕ} (requests : List RangeRequest) (rest : List (Result Wire)) (t u : Task)
      (g : GroupId) (a : PeerId) (k : ℕ)
      → send_frame x.net.wire_codec sync_done ≡ ok bytes
      → All (IsAnswered shared) requests
      → length requests ≤ 10000
      → AllSmall x t.store
      → IsCompatible y.net.crates shared t.store u.store
      → t.outbox ≡ []
      → u.inbox ≡ map ok (send_requested_events x shared requests t).1.outbox ++ rest
      → any (is_event_at g a k) t.store.events ≡ true
      → (any (is_event_at g a k) u.store.events || any (covers g a k) requests) ≡ true
      → ((send_requested_events x shared requests t).0 ≡ ok tt)
        × ((receive_requested_events y hello u).0 ≡ ok tt)
        × ((receive_requested_events y hello u).1.inbox ≡ rest)
        × (any (is_event_at g a k) (receive_requested_events y hello u).1.store.events ≡ true)
  transfer_complete requests rest t u g a k end_fits fair few small compatible fresh inbox stored
        wanted =
      let P : EventEnvelope → Type 0 = IsWelcome y.net.crates t.store.events u.store in
      let (fs, sent, out, good, has) =
        send_requested_events-Answered x shared g a k fits requests t P fair few small stored
          end_fits compatible.welcome fresh in
      let frames : u.inbox ≡ map ok fs ++ ok sync_done ∷ rest =
        inbox ∙ ap (λ o. map ok o ++ rest) out ∙ map-ok_append fs sync_done rest in
      let open_to : IsOpen y.net.crates t.store.events u.store u.store = record {
        groups = refl;
        channels = refl;
        blocked = refl;
        agree = compatible.agree;
      } in
      let (done, _, left, there) =
        receive_requested_events-Finished y t.store.events u.store hello g a k fs rest u frames good
          open_to in
      (
        sent,
        done,
        left,
        there (
            here_or_sent (any (is_event_at g a k) u.store.events) (any (covers g a k) requests)
              (any (frame_has (is_at g a k)) fs) wanted has),
      )

  -- Two nodes with sound stores have found groups to be shared. The sender can frame the end
  -- marker and every batch within the bound, each of its events is within the bound alone, and it
  -- writes first what is asked for; its log agrees with itself and with the store of the receiver,
  -- in that no identifier and no place of an author's log is used for different events, and the
  -- receiver knows the groups and channels of the sender's events in shared groups, can open them,
  -- has not blocked their authors, and may store their numbers and signatures. If the receiver
  -- asks for what is missing by the inventories of both, in at most 10000 requests, and next reads
  -- what the sender writes: both ends of the transfer finish without an error, with just the
  -- frames of the transfer read, and every event that the sender's inventory offers in a shared
  -- group is in the receiver's store.
  pub logs_converge :
      {bytes : List ℕ} (rest : List (Result Wire)) (t u : Task) (g : GroupId) (a : PeerId) (k : ℕ)
      → IsSound x.net.crates t.store
      → IsSound y.net.crates u.store
      → send_frame x.net.wire_codec sync_done ≡ ok bytes
      → length (asked shared u.store t.store) ≤ 10000
      → AllSmall x t.store
      → IsCompatible y.net.crates shared t.store u.store
      → t.outbox ≡ []
      → u.inbox
        ≡ map ok (send_requested_events x shared (asked shared u.store t.store) t).1.outbox ++ rest
      → member g shared ≡ true
      → 0 < k
      → k ≤ head_of a (inventory g t.store).heads
      → ((send_requested_events x shared (asked shared u.store t.store) t).0 ≡ ok tt)
        × ((receive_requested_events y hello u).0 ≡ ok tt)
        × ((receive_requested_events y hello u).1.inbox ≡ rest)
        × (any (is_event_at g a k) (receive_requested_events y hello u).1.store.events ≡ true)
  logs_converge rest t u g a k v v' end_fits few small compatible fresh inbox known low high =
      let local = of_shared shared (inventories u.store) in
      let remote = of_shared shared (inventories t.store) in
      let covered =
        covers-missing_ranges local remote g a k (offered-AreU64 x.net.crates t.store v shared) in
      let advertised = offered-advertises x.net.crates t.store v shared g a k known low high in
      transfer_complete (asked shared u.store t.store) rest t u g a k end_fits
        (missing_ranges-IsAnswered x.net.crates t.store v shared local) few small compatible fresh
        inbox ((inventory-IsContiguous x.net.crates t.store g a v).0 k low high)
        (elim (Bool-cases (ltb (opencord.Network.Ranges.known g a (local_heads local)) k)) [
          | inl above ↦ ground (arith, covered, advertised, above)
          | inr below ↦
              let stored =
                known-stored y.net.crates u.store v' shared g a k low (ground (arith, below)) in
              ground (arith, stored)
        ])
