-- ===== src/Lib.antt =====
-- OpenCord is a peer-to-peer chat program: every node keeps a local log of signed and encrypted events
-- in SQLite, and nodes that share a group's key exchange what the other is missing over QUIC, then pass
-- on live events, channel metadata, voice packets and screen frames. This library models the program's
-- logic as functions and proves what makes it correct.
--
-- Parts and files (source paths are relative to the repository's root):
-- - Base and its children: numbers, lists, results. `Base.Outcome.Result` is `anyhow::Result`, with a
--   constructor of `Error` for each message that the code can fail with.
-- - Text (src/store.rs, src/crypto.rs): strings as lists of code points; `clean_label`, `sanitize_name`.
-- - Model (src/model.rs): the data types, `validate`, and in Model.ByteId identifiers as text.
-- - Crates: the third-party crates as parameters. `Crates` has their functions, `CratesLaws` the
--   documented behaviour on which theorems rest: decoding undoes encoding, decryption undoes encryption,
--   a signature verifies. Nothing is assumed about forgeries; Network.Handshake.Binding
--   assumes of the proofs of two nodes that they do not collide.
-- - Files (src/crypto.rs, src/settings.rs): the file and the temporary file of `save`, and what each
--   call of std::fs leaves when it is interrupted.
-- - Crypto (src/crypto.rs): `Identity`, `seal_event`, `validate_and_open_event`, invites. The state of an
--   identity is its key and its name; random values are arguments. Crypto.KeyFile has `save` and
--   `load_or_create`.
-- - Store (src/store.rs): `Store` is the six tables as lists, and each SQL statement is a function with
--   the constraints of the schema. Store.Groups, Store.Peers, Store.Events and Store.Invites have the
--   methods of `Store`, under their names. A method that fails changes nothing, as its transaction is
--   rolled back. Store.Invariant defines a sound store, Store.Invariant.Contacts
--   the keys of peers, endpoints and blocked peers, Store.Reach the life of a store as steps,
--   Store.Receipts a series of events that peers deliver, Store.Imports the rows that an invite becomes.
-- - Network.State (src/network.rs): `SharedNetworkState`, without the waker. Each method that writes is
--   one step: what happens between two of its locks does not touch what the method reads.
-- - Network.Wire, Network.Frames, Network.Handshake, Network.Ranges (src/network.rs): the records, the
--   frames on a stream of bytes, hellos and group proofs, sealed datagrams, and the missing ranges.
--   Network.Handshake.Binding looks at proofs in another session than the one they were made for.
-- - Network.Task, Network.Transfer, Network.Live, Network.Session (src/network.rs): `run_session` in a
--   monad with the store, the network state, the frames that come in and those that go out. A session is
--   run by itself; Network.Session.Converges puts the two ends of the exchange of logs together,
--   one after the other: the flow control of the streams is not modelled. The rounds of its
--   `select!` are a list of inputs; after the last one the connection is lost. What was written before an
--   error stays written. A frame is read whole: that the `select!` can drop a frame that is half read is
--   not modelled.
--   Network.Loops has the task of an incoming and of an outgoing connection.
-- - Node and its children (src/node.rs, and `run_command_loop` of src/network.rs): `Node` is the identity,
--   the store, the network state and the queues that its methods fill; each method is a function on it.
--   Node.Start has `local_addresses`, what `Node::start` sets up, and what discovery and the port mapping
--   report; Node.Demo has `seed_demo` of src/main.rs. Node.Delivery and Node.Joining follow a message and
--   an invite from one node to another.
-- - App and its children (src/app.rs): the selection, the drafts and the timeline of `OpencordApp`, with
--   the handlers that change them; App.Handlers has those of the keyboard, of a new frame and of the
--   dialogs, App.Messages the functions on messages, App.Actions what can happen to the application.
-- - Audio (src/audio.rs): the order of wrapping packet numbers; Audio.Engine has what the user interface
--   reads and sets, Audio.Mixer a round of the encoding and of the mixing thread.
-- - Settings (src/settings.rs) and Screen (src/screen.rs): the settings, their choices and their file; the
--   state of screen sharing and the frames that are sent.
-- - Entry (src/main.rs, src/app.rs): from the arguments to the identity of the node, and the button of the
--   profile dialog that decides on its name at the next start.
-- - Tests: toy crates that satisfy the laws, and runs on them.
--
-- Fuel: `send_range` runs with one round more than the store has events, and a page that is not empty
-- moves the cursor past a stored event; `receive_rounds` runs with one round more than there are frames,
-- of which each round takes one.
--
-- Parameters beside the crates: `Node.Net` has the functions of std::net, `Audio.Mixer.Sound` samples and
-- Opus, `Settings.Scales` the scale of the user interface.
--
-- Not modelled: rendering and the settings window but for its profile button, audio devices and the
-- resampling of samples, screen capture, TLS, sockets, and the services of discovery and port mapping
-- but for what they report, the runtime's scheduling of several sessions, SQLite's own errors, and
-- the directories of the files on disk. The clock is a sequence of values.
pub mod Base
pub mod Text
pub mod Model
pub mod Crates
pub mod Files
pub mod Crypto
pub mod Store
pub mod Network
pub mod Node
pub mod App
pub mod Audio
pub mod Settings
pub mod Screen
pub mod Entry
pub mod Tests
