-- ===== src/Tests/Nodes.antt =====
-- Examples of the theorems on nodes, on the user interface, and on the mixer.
use opencord.Base.{
  ℕ, ◌*◌, ◌+◌, ◌≡◌, refl, true, false, ◌==◌, List, [], ◌∷◌, none, some, pos, ok, arith, All, ◌||◌,
  inl,
}
use opencord.Text.{codes, is_whitespace, trim, trim_start, trim_end}
use opencord.Store.{row_of_event, order_by, insert_sorted}
use opencord.Network.State.{new, bump}
use opencord.Network.Frames.{send_frame}
use opencord.Network.Wire.{live_event}
use opencord.Network.Live.{forward_event, handle_frame}
use opencord.Node.{Net, Node, send}
use opencord.Node.Delivery.{send_delivered}
use opencord.Store.Groups.{groups, channels}
use opencord.Store.Events.{group_of_channel}
use opencord.Network.State.{Address}
use opencord.Node.Start.Addresses.Increasing.{IsIncreasing, has}
use opencord.Node.Start.Addresses.{candidates, map_ports, is_mapped, map_ports-start}
use opencord.Node.Start.{start as start_node}
use opencord.App.{App, refresh, select_channel}
use opencord.App.Selection.{IsConsistent}
use opencord.App.Actions.{creates_channel, picks_channel, sends, steps, run, run-IsConsistent}
use opencord.App.Drafts.{select_channel-back}
use opencord.Audio.Mixer.{Sound, mix}
use opencord.Audio.Mixer.Bounds.{IsBounded, IsFrame, Round, packet, mixes, after, after-IsBounded}
use opencord.Tests.Toy.{toy, toy_laws, loose_net}
use opencord.Tests.Stores.{ann, hi, message, logged, logged_is, founded, den, general}
use opencord.Tests.Sessions.{context, start, bob_hello}

abbrev ann_node : Node
ann_node = record {
  identity = ann;
  saved = record { version = 1; display_name = []; secret = [] };
  store = founded;
  state = new (λ a. []) 16 [];
  running = true;
  commands = [];
  live_events = [];
  voice_packets = [];
  metadata = [];
}

abbrev ann_later : Node
ann_later = record ann_node {
  store = logged;
  state = bump ann_node.state;
  live_events = record { event = message; author_name = codes "Ann" } ∷ [];
}

sent_is : send toy 6 hi (some 8) (pos 10) (pos 11) ann_node ≡ (ok message, ann_later)
unfolding send
sent_is = rw logged_is refl

send_delivered_example :
    let w = live_event (record { event = message; author_name = codes "Ann" }) in
    (ann_later.live_events ≡ record { event = message; author_name = codes "Ann" } ∷ [])
    × ((forward_event context bob_hello
          (5 ∷ [])
          (record { event = message; author_name = codes "Ann" })
          start).1.outbox
        ≡ w ∷ [])
    × ((handle_frame context bob_hello (5 ∷ []) w start).0 ≡ ok tt)
    × ((handle_frame context bob_hello (5 ∷ []) w start).1.store.events ≡ row_of_event message ∷ [])
    × ((handle_frame context bob_hello (5 ∷ []) w start).1.live_events
        ≡ record { event = message; author_name = codes "Ann" } ∷ [])
unfolding send_frame group_of_channel
send_delivered_example =
    send_delivered context context toy_laws ann_node ann_later 6 hi (some 8) (pos 10) (pos 11) den
      message bob_hello bob_hello (5 ∷ []) (5 ∷ []) start start refl sent_is refl refl refl refl
      (record {
        known = den;
        known_is = refl;
        same_key = refl;
        channel_known = refl;
        allowed = refl;
        fresh = refl;
        open_slot = refl;
      })

abbrev net : Net
net = record {
  parse = λ t. none;
  socket_address = λ ip port. ip * 10 + port;
  port = λ a. 4;
  is_unspecified = λ ip. ip == 0;
  is_loopback = λ ip. ip == 1;
  localhost = 1;
}

map_ports-start_example :
    let n =
      map_ports loose_net
        (inl 99 ∷ [])
        (start_node loose_net net ann ann_node.saved founded 4 (7 ∷ 0 ∷ 1 ∷ 7 ∷ []) none) in
    IsIncreasing n.state.advertised_addresses
    × ((a : Address)
        → has a n.state.advertised_addresses
          ≡ (has a (candidates net (7 ∷ 0 ∷ 1 ∷ 7 ∷ []) 4) || is_mapped a (inl 99 ∷ [])))
map_ports-start_example =
    map_ports-start loose_net net ann ann_node.saved founded 4 (7 ∷ 0 ∷ 1 ∷ 7 ∷ []) none
      (inl 99 ∷ [])

abbrev app : App
app = record {
  node = ann_node;
  groups = [];
  channels = [];
  timeline = [];
  network = record {
    listen_address = none;
    advertised_addresses = [];
    online_peers = [];
    status = [];
    generation = 0;
  };
  selected_group = some 5;
  selected_channel = some 6;
  composer = codes "draft";
  drafts = [];
  toast = none;
  last_generation = 0;
}

run-IsConsistent_example : IsConsistent (
    run toy
      (creates_channel (codes "news") 7
        ∷ picks_channel 6
        ∷ sends (some 8) (pos 10) (pos 11)
        ∷ steps true
        ∷ [])
      (refresh toy app))
run-IsConsistent_example =
    run-IsConsistent toy
      (creates_channel (codes "news") 7
        ∷ picks_channel 6
        ∷ sends (some 8) (pos 10) (pos 11)
        ∷ steps true
        ∷ [])
      app

abbrev two_channels : App
two_channels = record app {
  node = record ann_node {
    store = record founded {
      channels = general ∷ record { id = 7; group_id = 5; name = codes "news"; position = 1 } ∷ [];
    };
  };
}

select_channel-back_example :
    ((select_channel toy 6 (select_channel toy 7 two_channels)).composer ≡ codes "draft")
    × ((select_channel toy 6 (select_channel toy 7 two_channels)).selected_channel ≡ some 6)
unfolding trim trim_start trim_end is_whitespace groups channels order_by insert_sorted
select_channel-back_example =
    select_channel-back toy two_channels 5 6 7
      (record { group_is = refl; group_known = refl; channel_known = refl })
      (record { group_is = refl; group_known = refl; channel_known = refl }) refl
      (λ e. absurd (omega (arith, e))) refl

abbrev sound : Sound
sound = record {
  Sample = ℕ;
  Encoder = Unit {0};
  Decoder = Unit {0};
  encode_float = λ st frame. some (frame, st);
  decode_float = λ st bytes. some (bytes, st);
  new_decoder = tt;
  silence = 0;
  add = λ a b. a + b;
  scaled = λ n a. a;
  frame_codec = record {
    to_stdvec = λ f. some (f.sequence ∷ f.opus);
    from_bytes =
        λ bytes. elim bytes [ [] ↦ none | n ∷ opus ↦ some (record { sequence = n; opus = opus }) ];
  };
}

abbrev rounds : List Round
rounds = packet (record { peer = 4; group_id = 5; bytes = 1 ∷ 2 ∷ 3 ∷ [] }) 10 ∷ mixes false 20 ∷ []

after-IsBounded_example :
    All (IsBounded sound) (after sound 5 rounds [])
    × IsFrame sound (mix sound false 30 (after sound 5 rounds [])).0
after-IsBounded_example = after-IsBounded sound 5 rounds false 30
