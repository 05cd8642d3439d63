-- ===== src/Tests/Exchange.antt =====
-- Examples of the theorems on the exchange of logs from both ends.
use opencord.Base.{◌≡◌, refl, true, [], ◌∷◌, ◌++◌, ok, any, map, arith}
use opencord.Store.{
  is_event_at, insert_sorted, order_by, next_u64, now_ms, insert_group, insert_channel,
  insert_or_ignore_channel, upsert, upsert_peer, row_of_event, event_from_row, insert_event,
}
use opencord.Network.Task.{
  Task, ◌>>=◌, pure, lift, check, fail, when, read_store, write_result, write_store, change_state,
  publish_event, publish_channel, deliver_voice, deliver_screen, send_datagram, take_frame, receive,
  now, draw, send_result, send,
}
use opencord.Text.{
  is_whitespace, is_control, trim_start, trim_end, trim, text_eq, text_lt, strip_prefix,
  clean_label, sanitize_name,
}
use opencord.Model.{kind, validate}
use opencord.Model.ByteId.{be_bytes, be_value_from, be_value, display, short, from_str}
use opencord.Crypto.{
  generate, rename, identity_file, load, create, compute_event_id, event_signing_bytes,
  verify_signature, seal_event, validate_and_open_event, sign_invite, verify_invite,
}
use opencord.Store.Groups.{
  create_group, groups, channels, next_position, channel_name, create_channel, merge_channel,
}
use opencord.Store.Peers.{
  remember_peer, author_name, known_endpoints, peers, block_peer, unblock_peer,
}
use opencord.Store.Events.{
  group_of_channel, max_sequence, append, insert_if_new, insert_remote_event, open_rows, newer,
  timeline_rows, timeline, by_author, advance, note_sequence, contiguous, inventory, inventories,
  range_rows, events_range, event_count,
}
use opencord.Network.Frames.{read_exact, send_frame, receive_frame}
use opencord.Network.Ranges.{local_heads, local_head, known, range_for, missing_ranges}
use opencord.Network.Handshake.{
  make_hello, verify_hello, group_proof, local_proofs, is_authenticated, seal_voice, open_voice,
  insert_set, set_of, shared_groups,
}
use opencord.Network.Transfer.{
  send_batch_if, send_page, send_range, send_ranges, send_requested_events, bump_if, store_batch,
  receive_one, receive_rounds, receive_requested_events,
}
use opencord.Network.Session.{
  expect_hello, expect_proofs, expect_channels, expect_inventories, expect_requests, seal_channels,
  local_channels, merge_channels, synchronize, run_authenticated_session, exchange_hellos,
  exchange_proofs, remember, run_online, run_session,
}
use opencord.Store.Accept.{IsWelcome}
use opencord.Store.Reach.{Reach-IsSound}
use opencord.Network.Session.Converges.{asked, IsCompatible, logs_converge}
use opencord.Tests.Toy.{toy, toy_laws}
use opencord.Tests.Sessions.{context, bob_hello, founded, founded-Reach}
use opencord.Tests.Sessions
use opencord.Tests.Stores.{logged, logged-IsSound, message, den, hi}

program : Unit {0}
unfolding is_whitespace is_control trim_start trim_end trim text_eq text_lt strip_prefix clean_label
    sanitize_name kind validate be_bytes be_value_from be_value display short from_str generate
    rename identity_file load create compute_event_id event_signing_bytes verify_signature
    seal_event validate_and_open_event sign_invite verify_invite insert_sorted order_by next_u64
    now_ms insert_group insert_channel insert_or_ignore_channel upsert upsert_peer row_of_event
    event_from_row insert_event create_group groups channels next_position channel_name
    create_channel merge_channel remember_peer author_name known_endpoints peers block_peer
    unblock_peer group_of_channel max_sequence append insert_if_new insert_remote_event open_rows
    newer timeline_rows timeline by_author advance note_sequence contiguous inventory inventories
    range_rows events_range event_count read_exact send_frame receive_frame local_heads local_head
    known range_for missing_ranges make_hello verify_hello group_proof local_proofs is_authenticated
    seal_voice open_voice insert_set set_of shared_groups ◌>>=◌ pure lift check fail when read_store
    write_result write_store change_state publish_event publish_channel deliver_voice deliver_screen
    send_datagram take_frame receive now draw send_result send send_batch_if send_page send_range
    send_ranges send_requested_events bump_if store_batch receive_one receive_rounds
    receive_requested_events expect_hello expect_proofs expect_channels expect_inventories
    expect_requests seal_channels local_channels merge_channels synchronize
    run_authenticated_session exchange_hellos exchange_proofs remember run_online run_session
program = tt

-- The task of the node that has the message.
abbrev sender : Task
sender = record Sessions.start { store = logged; inbox = [] }

abbrev answer : Task
answer = (send_requested_events context (5 ∷ []) (asked (5 ∷ []) founded logged) sender).1

-- The task of the node that has nothing yet.
abbrev receiver : Task
receiver = record Sessions.start { inbox = map ok answer.outbox ++ [] }

message-IsWelcome : IsWelcome toy logged.events founded message
unfolding program
message-IsWelcome = record {
  known = den;
  known_is = refl;
  payload = hi;
  opens = refl;
  channel_known = refl;
  allowed = refl;
  small = omega arith;
  positive = omega arith;
  signed = refl;
  listed = refl;
  agrees = (refl, tt);
}

compatible : IsCompatible toy (5 ∷ []) logged founded
unfolding program
compatible = record { agree = tt; welcome = (λ known. message-IsWelcome, tt) }

logs_converge_example :
    ((send_requested_events context (5 ∷ []) (asked (5 ∷ []) founded logged) sender).0 ≡ ok tt)
    × ((receive_requested_events context bob_hello receiver).0 ≡ ok tt)
    × ((receive_requested_events context bob_hello receiver).1.inbox ≡ [])
    × (any (is_event_at 5 3 1) (receive_requested_events context bob_hello receiver).1.store.events
        ≡ true)
unfolding program
logs_converge_example =
    logs_converge context context bob_hello (5 ∷ []) (λ ws h. (_, refl)) [] sender receiver 5 3 1
      logged-IsSound (Reach-IsSound toy toy_laws founded-Reach) refl (omega arith) (omega arith, tt)
      compatible refl refl refl (omega arith) (omega arith)
