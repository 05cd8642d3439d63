-- ===== src/Tests/Stores.antt =====
-- Examples of the theorems on events and stores: a group with one message.
use opencord.Base.{
  ℕ, ◌+◌, ◌<◌, ◌≤◌, ◌≡◌, refl, ◌==◌, ◌&&◌, ◌||◌, ◌-◌, true, false, List, [], ◌∷◌, ◌++◌, some, pos,
  map, any, All, ok, err, channel_position_overflow,
}
use opencord.Text.{
  codes, is_whitespace, is_control, trim_start, trim_end, trim, text_eq, text_lt, strip_prefix,
  clean_label, sanitize_name,
}
use opencord.Model.{
  Group, Channel, EventEnvelope, MessagePayload, text, TimelineEntry, Bytes, without_id, kind,
  validate,
}
use opencord.Crypto.{
  Identity, peer_id, generate, rename, identity_file, load, create, compute_event_id,
  event_signing_bytes, verify_signature, seal_event, validate_and_open_event, sign_invite,
  verify_invite,
}
use opencord.Store.{
  Store, empty_store, is_event_at, u32_max, insert_sorted, order_by, next_u64, now_ms, insert_group,
  insert_channel, insert_or_ignore_channel, upsert, upsert_peer, row_of_event, event_from_row,
  insert_event,
}
use opencord.Store.Groups.{
  create_group, groups, channels, next_position, channel_name, create_channel, merge_channel,
}
use opencord.Store.Peers.{
  remember_peer, author_name, known_endpoints, peers, block_peer, unblock_peer,
}
use opencord.Model.ByteId.{be_bytes, be_value_from, be_value, display, short, from_str}
use opencord.Store.Events.{
  group_of_channel, max_sequence, append, insert_if_new, insert_remote_event, open_rows, newer,
  timeline_rows, timeline, by_author, advance, note_sequence, contiguous, inventory, inventories,
  range_rows, events_range, event_count,
}
use opencord.Store.Invites.{
  invite_body, build_invite, import_group, import_channels, import_inviter, import_endpoints,
  import_body, import_invite,
}
use mathlib.Core.List.{reverse}
use opencord.Crypto.Events.{open-seal}
use opencord.Store.Invariant.{IsSound}
use opencord.Store.Reach.{
  Reach, fresh, next, creates_group, appends, Reach-IsSound, Reach-IsSound-HasContacts,
}
use opencord.Store.Invariant.Contacts.{HasContacts}
use opencord.Store.Heads.{head_of}
use opencord.Store.Inventory.{inventory-IsContiguous}
use opencord.Store.Timeline.{timeline-ok}
use mathlib.Core.List.Permᴰ
use opencord.Store.Append.{append_lem}
use opencord.Store.Arrival.{messages, Received-order}
use opencord.Store.Receipts.{Delivery, Received, nothing, taken}
use opencord.Model.{ChannelId}
use opencord.Store.Positions.{create_channel-overflow}
use opencord.Store.Remote.{insert_remote_event-again}
use opencord.Tests.Toy.{toy, toy_laws, zeros}

program : Unit {0}
unfolding is_whitespace is_control trim_start trim_end trim text_eq text_lt strip_prefix clean_label
    sanitize_name kind validate be_bytes be_value_from be_value display short from_str generate
    rename identity_file load create compute_event_id event_signing_bytes verify_signature
    seal_event validate_and_open_event sign_invite verify_invite insert_sorted order_by next_u64
    now_ms insert_group insert_channel insert_or_ignore_channel upsert upsert_peer row_of_event
    event_from_row insert_event create_group groups channels next_position channel_name
    create_channel merge_channel remember_peer author_name known_endpoints peers block_peer
    unblock_peer group_of_channel max_sequence append insert_if_new insert_remote_event open_rows
    newer timeline_rows timeline by_author advance note_sequence contiguous inventory inventories
    range_rows events_range event_count invite_body build_invite import_group import_channels
    import_inviter import_endpoints import_body import_invite
program = tt

abbrev pub den : Group
den = record { id = 5; name = codes "Den"; secret = 42; created_at_ms = pos 0 }

abbrev pub general : Channel
general = record { id = 6; group_id = 5; name = codes "general"; position = 0 }

abbrev pub ann : Identity
ann = record { signing_key = 3; display_name = codes "Ann" }

abbrev pub founded : Store
founded = record empty_store { groups = den ∷ []; channels = general ∷ [] }

abbrev pub hi : MessagePayload
hi = text (codes "hi")

founded_is : create_group (codes "Den") 5 6 42 (pos 0) empty_store ≡ ok (den, general, founded)
unfolding program
founded_is = refl

abbrev sealed : Bytes
sealed = 42 ∷ 8 ∷ codes "hi"

abbrev event_id : ℕ
event_id = 414882300754653

abbrev pub message : EventEnvelope
message = record {
  header = record {
    version = 1;
    id = event_id;
    group_id = 5;
    channel_id = 6;
    author = 3;
    author_sequence = 1;
    sent_at_ms = pos 10;
    payload_kind = 1;
    nonce = 8;
  };
  ciphertext = sealed;
  signature = zeros;
}

abbrev pub logged : Store
logged = record founded {
  events = row_of_event message ∷ [];
  peers = record { id = 3; display_name = codes "Ann"; last_seen_ms = pos 11 } ∷ [];
}

id_is : compute_event_id toy (without_id message.header) sealed ≡ ok event_id
unfolding program
id_is = refl

pub logged_is : append toy ann 6 hi (some 8) (pos 10) (pos 11) founded ≡ ok (message, logged)
unfolding program
logged_is = refl

received_is : insert_remote_event toy message (codes "Ann") (pos 11) founded ≡ ok (true, logged)
unfolding program
received_is = refl

founded-Reach : Reach toy founded
founded-Reach = next fresh (creates_group (codes "Den") 5 6 42 (pos 0) den general founded_is)

logged-Reach : Reach toy logged
logged-Reach = next founded-Reach (appends ann 6 hi (some 8) (pos 10) (pos 11) message logged_is)

pub logged-IsSound : IsSound toy logged
logged-IsSound = Reach-IsSound toy toy_laws logged-Reach

Reach-IsSound-HasContacts_example : IsSound toy logged × HasContacts logged
Reach-IsSound-HasContacts_example = Reach-IsSound-HasContacts toy toy_laws logged-Reach

inventory-IsContiguous_example :
    ((k : ℕ)
      → 0 < k
      → k ≤ head_of 3 (inventory 5 logged).heads
      → any (is_event_at 5 3 k) logged.events ≡ true)
    × (any (is_event_at 5 3 (head_of 3 (inventory 5 logged).heads + 1)) logged.events ≡ false)
inventory-IsContiguous_example = inventory-IsContiguous toy logged 5 3 logged-IsSound

timeline-ok_example :
    (entries : List TimelineEntry) × (timeline toy 6 50 logged ≡ ok (reverse entries))
    × (map (λ t. t.event) entries ≡ map event_from_row (timeline_rows 6 50 logged))
    × All (λ t. validate_and_open_event toy t.event 42 ≡ ok t.payload) entries
unfolding program
timeline-ok_example = timeline-ok toy logged 6 50 den logged-IsSound refl

insert_remote_event-again_example :
    insert_remote_event toy message (codes "Bob") (pos 99) logged ≡ ok (false, logged)
insert_remote_event-again_example =
    insert_remote_event-again toy message (codes "Ann") (codes "Bob") (pos 11) (pos 99) founded
      received_is

append_lem_example :
    (logged.events ≡ [] ++ row_of_event message ∷ [])
    × (logged.groups ≡ founded.groups)
    × (logged.channels ≡ founded.channels)
    × (message.header.author ≡ peer_id toy ann)
    × ((message.header.author_sequence == 1
          || any (is_event_at 5 3 (message.header.author_sequence - 1)) founded.events)
        ≡ true)
    × All
        (λ f.
          (f.group_id == 5 && f.author == 3) ≡ true
          → f.author_sequence < message.header.author_sequence)
        founded.events
    × (validate_and_open_event toy message 42 ≡ ok hi)
unfolding program
append_lem_example =
    append_lem toy toy_laws ann 6 hi (some 8) (pos 10) (pos 11) founded den refl logged_is

open-seal_example :
    (validate_and_open_event toy message 42 ≡ ok hi)
    × (message.header.author ≡ 3)
    × (message.header.group_id ≡ 5)
    × (message.header.channel_id ≡ 6)
    × (message.header.author_sequence ≡ 1)
    × (message.header.sent_at_ms ≡ pos 10)
unfolding program
open-seal_example = open-seal toy toy_laws ann 5 6 42 1 (pos 10) (some 8) hi message refl

abbrev talk : Channel
talk = record { id = 7; group_id = 5; name = codes "talk"; position = 1 }

abbrev full : Store
full = record founded { channels = general ∷ record talk { position = u32_max } ∷ [] }

create_channel-overflow_example :
    create_channel toy 5 (codes "more") 8 full ≡ err channel_position_overflow
create_channel-overflow_example = create_channel-overflow toy 5 (codes "more") 8 full refl

abbrev second : EventEnvelope
second = record {
  header = record message.header {
    id = 430450793105118;
    author_sequence = 2;
    sent_at_ms = pos 20;
    nonce = 9;
  };
  ciphertext = 42 ∷ 9 ∷ codes "ho";
  signature = zeros;
}

abbrev twice : Store
twice = record founded {
  events = row_of_event message ∷ row_of_event second ∷ [];
  peers = record { id = 3; display_name = codes "Ann"; last_seen_ms = pos 21 } ∷ [];
}

second_is : insert_remote_event toy second (codes "Ann") (pos 21) logged ≡ ok (true, twice)
unfolding program
second_is = refl

abbrev first_delivery : Delivery
first_delivery = record { event = message; name = codes "Ann"; at = pos 11 }

abbrev second_delivery : Delivery
second_delivery = record { event = second; name = codes "Ann"; at = pos 21 }

both-Received : Received toy (first_delivery ∷ second_delivery ∷ []) founded twice
both-Received = taken first_delivery received_is (taken second_delivery second_is nothing)

Received-order_example :
    (t' : Store) × Received toy (second_delivery ∷ first_delivery ∷ []) founded t'
    × (inventories t' ≡ inventories twice)
    × ((ch : ChannelId) (limit : ℕ)
        → messages (timeline toy ch limit t') ≡ messages (timeline toy ch limit twice))
Received-order_example =
    Received-order toy (Permᴰ.swap refl refl) (Reach-IsSound toy toy_laws founded-Reach)
      both-Received
