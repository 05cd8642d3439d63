-- ===== src/Tests/Sessions.antt =====
-- Examples of the theorems on sessions: one whole session, and its parts.
use opencord.Base.{
  ◌↔◌, ◌+◌, ◌≡◌, refl, ◌==◌, ◌&&◌, Bool, true, List, [], ◌∷◌, ◌++◌, none, some, pos, any, ok, err,
  Error, arith, length, invalid_peer_name, ltb,
}
use opencord.Text.{
  codes, is_whitespace, is_control, trim_start, trim_end, trim, text_eq, text_lt, strip_prefix,
  clean_label, sanitize_name,
}
use opencord.Model.{Group, Channel, EventEnvelope, GroupInventory, kind, validate}
use opencord.Crypto.{
  generate, rename, identity_file, load, create, compute_event_id, event_signing_bytes,
  verify_signature, seal_event, validate_and_open_event, sign_invite, verify_invite,
}
use opencord.Store.{
  Store, empty_store, insert_sorted, order_by, next_u64, now_ms, insert_group, insert_channel,
  insert_or_ignore_channel, upsert, upsert_peer, row_of_event, event_from_row, insert_event,
}
use opencord.Network.State.{
  OnlinePeer, last_twelve, bump, note, shown, online_peers, snapshot, add_advertised, update_entry,
  modify_entry, new, online, offline_name, offline,
}
use opencord.Network.Wire.{
  Wire, hello, group_proofs, requests, event_batch, sync_done, PeerHello, UnsignedPeerHello,
  GroupProof, RangeRequest,
}
use opencord.Network.Ranges.{
  covers, advertises, local_heads, local_head, known, range_for, missing_ranges,
}
use opencord.Network.Handshake.{
  member, make_hello, verify_hello, group_proof, local_proofs, is_authenticated, seal_voice,
  open_voice, insert_set, set_of, shared_groups,
}
use opencord.Network.Task.{
  Context, Task, ◌>>=◌, pure, lift, check, fail, when, read_store, write_result, write_store,
  change_state, publish_event, publish_channel, deliver_voice, deliver_screen, send_datagram,
  take_frame, receive, now, draw, send_result, send,
}
use opencord.Network.Live.{
  Input, live, tick, closed, find_group, seal, open_channel, seal_channel, publish_if_fresh,
  publish_if_merged, handle_frame, forward_event, fits, forward_voice, forward_channel,
  forward_screen, open_datagram, handle_datagram, round, live_loop,
}
use opencord.Model.ByteId.{be_bytes, be_value_from, be_value, display, short, from_str}
use opencord.Store.Groups.{
  create_group, groups, channels, next_position, channel_name, create_channel, merge_channel,
}
use opencord.Store.Peers.{
  remember_peer, author_name, known_endpoints, peers, block_peer, unblock_peer,
}
use opencord.Store.Events.{
  group_of_channel, max_sequence, append, insert_if_new, insert_remote_event, open_rows, newer,
  timeline_rows, timeline, by_author, advance, note_sequence, contiguous, inventory, inventories,
  range_rows, events_range, event_count,
}
use opencord.Store.Invites.{
  invite_body, build_invite, import_group, import_channels, import_inviter, import_endpoints,
  import_body, import_invite,
}
use opencord.Network.Frames.{read_exact, send_frame, receive_frame}
use opencord.Network.Transfer.{
  send_batch_if, send_page, send_range, send_ranges, send_requested_events, bump_if, store_batch,
  receive_one, receive_rounds, receive_requested_events,
}
use opencord.Network.Session.{
  expect_hello, expect_proofs, expect_channels, expect_inventories, expect_requests, seal_channels,
  local_channels, merge_channels, synchronize, run_authenticated_session, exchange_hellos,
  exchange_proofs, remember, run_online, run_session,
}
use opencord.Crates.{CodecLaw}
use opencord.Store.Reach.{Reach, fresh, next, creates_group}
use opencord.Store.Invariant.{IsSound}
use opencord.Network.State.Online.{snapshot-run, Call, arrives, departs, run, after}
use opencord.Network.State.Sessions.{Tracks, is_online, count}
use opencord.Network.Frames.{receive_frame-send_frame}
use opencord.Network.Ranges.{covers-missing_ranges}
use opencord.Network.Handshake.Hello.{verify_hello-make_hello, verify_hello-blank}
use opencord.Network.Handshake.Binding.{has_key, AreFresh, member-shared_groups-local_proofs}
use opencord.Network.Session.Stores.{run_session-IsSound, run_session-Tracks}
use opencord.Network.Session.Pages.{send_range-enough}
use opencord.Network.Loops.{connect_one, failure_line, connect_one-noted}
use opencord.Tests.Toy.{toy, toy_laws, zeros, toy_net, loose_net, wire_lem}

program : Unit {0}
unfolding is_whitespace is_control trim_start trim_end trim text_eq text_lt strip_prefix clean_label
    sanitize_name kind validate be_bytes be_value_from be_value display short from_str generate
    rename identity_file load create compute_event_id event_signing_bytes verify_signature
    seal_event validate_and_open_event sign_invite verify_invite insert_sorted order_by next_u64
    now_ms insert_group insert_channel insert_or_ignore_channel upsert upsert_peer row_of_event
    event_from_row insert_event create_group groups channels next_position channel_name
    create_channel merge_channel remember_peer author_name known_endpoints peers block_peer
    unblock_peer group_of_channel max_sequence append insert_if_new insert_remote_event open_rows
    newer timeline_rows timeline by_author advance note_sequence contiguous inventory inventories
    range_rows events_range event_count invite_body build_invite import_group import_channels
    import_inviter import_endpoints import_body import_invite bump note shown online_peers snapshot
    add_advertised update_entry modify_entry new online offline_name offline read_exact send_frame
    receive_frame local_heads local_head known range_for missing_ranges make_hello verify_hello
    group_proof local_proofs is_authenticated seal_voice open_voice insert_set set_of shared_groups
    ◌>>=◌ pure lift check fail when read_store write_result write_store change_state publish_event
    publish_channel deliver_voice deliver_screen send_datagram take_frame receive now draw
    send_result send send_batch_if send_page send_range send_ranges send_requested_events bump_if
    store_batch receive_one receive_rounds receive_requested_events find_group seal open_channel
    seal_channel publish_if_fresh publish_if_merged handle_frame forward_event fits forward_voice
    forward_channel forward_screen open_datagram handle_datagram round live_loop expect_hello
    expect_proofs expect_channels expect_inventories expect_requests seal_channels local_channels
    merge_channels synchronize run_authenticated_session exchange_hellos exchange_proofs remember
    run_online run_session
program = tt

abbrev pub den : Group
den = record { id = 5; name = codes "Den"; secret = 42; created_at_ms = pos 0 }

abbrev pub general : Channel
general = record { id = 6; group_id = 5; name = codes "general"; position = 0 }

abbrev pub founded : Store
founded = record empty_store { groups = den ∷ []; channels = general ∷ [] }

founded_is : create_group (codes "Den") 5 6 42 (pos 0) empty_store ≡ ok (den, general, founded)
unfolding program
founded_is = refl

pub founded-Reach : Reach toy founded
founded-Reach = next fresh (creates_group (codes "Den") 5 6 42 (pos 0) den general founded_is)

abbrev pub context : Context
context = record {
  net = loose_net;
  identity = record { signing_key = 3; display_name = codes "Ann" };
  clock = λ n. pos n;
  random = λ n. some (n + 70);
  remote_address = 17;
  max_datagram_size = none;
}

abbrev ann_body : UnsignedPeerHello
ann_body = record {
  version = 1;
  nonce = 70;
  peer = 3;
  display_name = codes "Ann";
  listen_port = 4000;
}

abbrev bob_body : UnsignedPeerHello
bob_body = record {
  version = 1;
  nonce = 80;
  peer = 4;
  display_name = codes "Bob";
  listen_port = 4001;
}

abbrev pub bob_hello : PeerHello
bob_hello = record { body = bob_body; signature = zeros }

abbrev bob_proof : GroupProof
bob_proof = record { group_id = 5; proof = group_proof toy_net 42 5 bob_body ann_body }

abbrev pub bob_event : EventEnvelope
bob_event = record {
  header = record {
    version = 1;
    id = 444852374942715;
    group_id = 5;
    channel_id = 6;
    author = 4;
    author_sequence = 1;
    sent_at_ms = pos 10;
    payload_kind = 1;
    nonce = 9;
  };
  ciphertext = 42 ∷ 9 ∷ codes "yo";
  signature = zeros;
}

abbrev bob_inventory : GroupInventory
bob_inventory = record { group_id = 5; heads = record { author = 4; sequence = 1 } ∷ [] }

abbrev pub start : Task
start = record {
  store = founded;
  state = new (λ a. []) 16 [];
  inbox =
      ok (hello bob_hello)
      ∷ ok (group_proofs (bob_proof ∷ []))
      ∷ ok (Wire.channels [])
      ∷ ok (Wire.inventories (bob_inventory ∷ []))
      ∷ ok (requests [])
      ∷ ok (event_batch (record { event = bob_event; author_name = codes "Bob" } ∷ []))
      ∷ ok sync_done
      ∷ [];
  outbox = [];
  datagrams = [];
  live_events = [];
  metadata = [];
  incoming_voice = [];
  incoming_screen = [];
  reads = 0;
  draws = 0;
}

abbrev pub inputs : List Input
inputs = tick ∷ live closed ∷ []

-- The session ends well, with the peer's event in the store.
session :
    ((run_session context 4000 inputs start).0 ≡ ok tt)
    × ((run_session context 4000 inputs start).1.store.events ≡ row_of_event bob_event ∷ [])
    × (length (run_session context 4000 inputs start).1.outbox ≡ 7)
unfolding program
session = (refl, refl, refl)

run_session-IsSound_example : IsSound toy (run_session context 4000 inputs start).1.store
run_session-IsSound_example = run_session-IsSound context toy_laws 4000 inputs start founded-Reach

covers-missing_ranges_example :
    any (covers 5 4 1) (missing_ranges [] (bob_inventory ∷ []))
    ≡ (any (advertises 5 4 1) (bob_inventory ∷ []) && ltb (known 5 4 (local_heads [])) 1)
covers-missing_ranges_example =
    covers-missing_ranges [] (bob_inventory ∷ []) 5 4 1 ((omega arith, tt), tt)

abbrev bob : OnlinePeer
bob = record { id = 4; name = codes "Bob"; address = 17; shared_groups = 5 ∷ []; latency_ms = none }

abbrev calls : List Call
calls = arrives bob ∷ arrives bob ∷ departs 4 ∷ []

snapshot-run_example :
    is_online 4 (snapshot (run (λ a. []) calls (new (λ a. []) 16 []))).online_peers
    ≡ ltb 0 (count 4 (after calls []))
snapshot-run_example = snapshot-run (λ a. []) 16 [] calls 4

wire_law : CodecLaw toy_net.wire_codec
wire_law = record { from_bytes-to_stdvec = wire_lem }

receive_frame-send_frame_example :
    receive_frame toy_net.wire_codec (0 ∷ 0 ∷ 0 ∷ 1 ∷ 9 ∷ 1 ∷ 2 ∷ []) ≡ ok (sync_done, 1 ∷ 2 ∷ [])
unfolding program
receive_frame-send_frame_example =
    receive_frame-send_frame toy_net.wire_codec wire_law sync_done (0 ∷ 0 ∷ 0 ∷ 1 ∷ 9 ∷ [])
      (1 ∷ 2 ∷ []) refl

abbrev shared_with_bob : Bool
shared_with_bob = member 5 (
    shared_groups toy_net (den ∷ []) ann_body bob_body
      (local_proofs toy_net (den ∷ []) bob_body ann_body))

member-shared_groups-local_proofs_example : (shared_with_bob ≡ true) ↔ (
    (any
        (λ g. g.id == 5 && has_key toy_net ann_body bob_body bob_body ann_body (den ∷ []) g)
        (den ∷ [])
      ≡ true)
    × AreFresh toy_net ann_body bob_body bob_body ann_body)
member-shared_groups-local_proofs_example =
    member-shared_groups-local_proofs toy_net ann_body bob_body bob_body ann_body (den ∷ [])
      (den ∷ []) 5 (record { peer = omega arith; nonce = omega arith })
      (record { peer = omega arith; nonce = omega arith })
      (record { peer = omega arith; nonce = omega arith })
      (record { peer = omega arith; nonce = omega arith }) ((λ h. (refl, refl), tt), tt)

verify_hello-make_hello_example : verify_hello toy_net bob_hello ≡ ok tt
unfolding program
verify_hello-make_hello_example =
    verify_hello-make_hello toy_net toy_laws 4 (codes "Bob") 4001 (some 80) bob_hello refl refl

abbrev blank_hello : PeerHello
blank_hello = record { body = record bob_body { display_name = 32 ∷ 32 ∷ [] }; signature = zeros }

verify_hello-blank_example : verify_hello toy_net blank_hello ≡ err invalid_peer_name
unfolding program
verify_hello-blank_example =
    verify_hello-blank toy_net toy_laws 4 0x1 0x7f (32 ∷ 32 ∷ []) 4001 (some 80) blank_hello
      (refl, refl) (refl, refl) ((refl, refl), ((refl, refl), tt)) (omega arith) (omega arith) refl

abbrev pub stocked : Task
stocked = record start { store = record founded { events = row_of_event bob_event ∷ [] } }

abbrev pub request : RangeRequest
request = record { group_id = 5; author = 4; first = 1; last = 1 }

send_range-enough_example :
    send_range context 50 request 1 stocked ≡ send_range context 2 request 1 stocked
unfolding program
send_range-enough_example = send_range-enough context request 50 1 stocked (omega arith)

no_sessions-Tracks : Tracks start.state []
unfolding program
no_sessions-Tracks = record { ordered = tt; named = tt; counted = λ id. refl }

run_session-Tracks_example : Tracks (run_session context 4000 inputs start).1.state []
run_session-Tracks_example = run_session-Tracks context [] 4000 inputs start no_sessions-Tracks

connect_one-noted_example :
    (e : Error) × ((run_session context 4000 (tick ∷ []) start).0 ≡ err e)
    × ((connect_one context (λ e'. codes "lost") (ok tt) 4000 (tick ∷ []) start).state.status
        ≡ last_twelve (
            (run_session context 4000 (tick ∷ []) start).1.state.status
            ++ failure_line context (λ e'. codes "lost") e ∷ []))
unfolding program
connect_one-noted_example =
    connect_one-noted context (λ e'. codes "lost") 4000 (tick ∷ []) start refl refl
