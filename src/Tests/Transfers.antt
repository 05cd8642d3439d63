-- ===== src/Tests/Transfers.antt =====
-- Examples of the theorems on what a session writes.
use opencord.Base.{◌≡◌, refl, true, [], ◌∷◌, ok, arith}
use opencord.Model.ByteId.{short, be_bytes}
use opencord.Store.{event_from_row, row_of_event}
use opencord.Store.Page.{is_at}
use opencord.Store.Peers.{author_name}
use opencord.Network.Frames.{send_frame}
use opencord.Network.Transfer.{send_range}
use opencord.Network.Session.{run_authenticated_session}
use opencord.Network.Session.Batches.{was_sent}
use opencord.Network.Session.Complete.{send_range_complete}
use opencord.Network.Session.Outgoing.{IsDiscreet}
use opencord.Network.Session.Private.{run_authenticated_session-IsDiscreet}
use opencord.Tests.Sessions.{context, start, bob_hello, stocked, request, inputs}

send_range_complete_example :
    ((send_range context 2 request 1 stocked).0 ≡ ok tt)
    × (was_sent (is_at 5 4 1) (send_range context 2 request 1 stocked).1 ≡ true)
unfolding send_frame author_name event_from_row row_of_event short be_bytes
send_range_complete_example =
    send_range_complete context request 1 (λ ws h. (_, refl)) (omega arith) (omega arith) stocked
      (omega arith) (omega arith) (omega arith, tt) refl

run_authenticated_session-IsDiscreet_example :
    IsDiscreet
      (5 ∷ [])
      start.outbox
      start.datagrams
      (run_authenticated_session context bob_hello (5 ∷ []) inputs start).1
run_authenticated_session-IsDiscreet_example =
    run_authenticated_session-IsDiscreet context (5 ∷ []) bob_hello inputs start
