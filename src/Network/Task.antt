-- ===== src/Network/Task.antt =====
-- The state of one session task of src/network.rs and the monad of its steps. What a step wrote
-- before an error stays written. The store and the network state are those of the node, as the task
-- finds and leaves them; other tasks do not run in between. `inbox` holds what `receive_frame` will
-- return, `outbox` what `send_frame` wrote, and the other lists what was sent to the broadcast
-- channels and as datagrams. The clock and the random values are read from sequences.
pub mod Holds
use opencord.Base.{
  ℕ, ◌+◌, ℤ, List, [], ◌∷◌, ◌++◌, Option, Bool, true, false, Result, ok, err, Error, read_frame,
}
use opencord.Model.{Channel}
use opencord.Crypto.{Identity}
use opencord.Store.{Store}
use opencord.Network.State.{NetworkState, Address}
use opencord.Network.Wire.{NetCrates, Wire, LiveEvent, IncomingVoice, IncomingScreen, VoiceDatagram}
use opencord.Network.Frames.{send_frame}

-- `NetworkContext` and the `Connection`: what the session reads of its node and of its peer.
pub record Context : Type 0 where
  pub net : NetCrates
  pub identity : Identity
  pub clock : ℕ → ℤ
  pub random : ℕ → Option ℕ
  -- the peer's address, and the longest datagram that it takes
  pub remote_address : Address
  pub max_datagram_size : Option ℕ

pub record Task : Type 0 where
  pub store : Store
  pub state : NetworkState
  pub inbox : List (Result Wire)
  pub outbox : List Wire
  pub datagrams : List VoiceDatagram
  pub live_events : List LiveEvent
  pub metadata : List Channel
  pub incoming_voice : List IncomingVoice
  pub incoming_screen : List IncomingScreen
  pub reads : ℕ
  pub draws : ℕ

abbrev pub M : Type 0 → Type 0
M A = Task → Result A × Task

abbrev pub continue : {A B : Type 0} → Result A → (A → M B) → M B
continue (ok a) f t = f a t
continue (err e) f t = (err e, t)

infixl 5 ◌>>=◌ ◌>>◌
unfoldable pub ◌>>=◌ : {A B : Type 0} → M A → (A → M B) → M B
◌>>=◌ m f t = let (r, t') = m t in continue r f t'

abbrev pub ◌>>◌ : {B : Type 0} → M (Unit {0}) → M B → M B
m >> k = m >>= λ _. k

unfoldable pub pure : {A : Type 0} → A → M A
pure a t = (ok a, t)

unfoldable pub lift : {A : Type 0} → Result A → M A
lift r t = (r, t)

-- `anyhow::ensure!` and `bail!`
unfoldable pub check : Bool → Error → M (Unit {0})
check true e t = (ok tt, t)
check false e t = (err e, t)

unfoldable pub fail : {A : Type 0} → Error → M A
fail e t = (err e, t)

-- A branch that is taken only under its condition.
unfoldable pub when : Bool → M (Unit {0}) → M (Unit {0})
when true m = m
when false m = pure tt

-- A read of the locked store.
unfoldable pub read_store : {A : Type 0} → (Store → Result A) → M A
read_store f t = (f t.store, t)

unfoldable pub write_result : {A : Type 0} → Result (A × Store) → Task → Result A × Task
write_result (ok (a, s)) t = (ok a, record t { store = s })
write_result (err e) t = (err e, t)

-- A call of a writing operation of the locked store.
unfoldable pub write_store : {A : Type 0} → (Store → Result (A × Store)) → M A
unfolding write_result
write_store f t = write_result (f t.store) t

unfoldable pub change_state : (NetworkState → NetworkState) → M (Unit {0})
change_state f t = (ok tt, record t { state = f t.state })

unfoldable pub publish_event : LiveEvent → M (Unit {0})
publish_event e t = (ok tt, record t { live_events = t.live_events ++ e ∷ [] })

unfoldable pub publish_channel : Channel → M (Unit {0})
publish_channel ch t = (ok tt, record t { metadata = t.metadata ++ ch ∷ [] })

unfoldable pub deliver_voice : IncomingVoice → M (Unit {0})
deliver_voice v t = (ok tt, record t { incoming_voice = t.incoming_voice ++ v ∷ [] })

unfoldable pub deliver_screen : IncomingScreen → M (Unit {0})
deliver_screen v t = (ok tt, record t { incoming_screen = t.incoming_screen ++ v ∷ [] })

unfoldable pub send_datagram : VoiceDatagram → M (Unit {0})
send_datagram d t = (ok tt, record t { datagrams = t.datagrams ++ d ∷ [] })

unfoldable pub take_frame : List (Result Wire) → M Wire
take_frame [] t = (err read_frame, t)
take_frame (r ∷ rs) t = (r, record t { inbox = rs })

-- `receive_frame(receive).await`
unfoldable pub receive : M Wire
unfolding take_frame
receive t = take_frame t.inbox t

module _ (x : Context) where
  -- `now_ms()`
  unfoldable pub now : M ℤ
  now t = (ok (x.clock t.reads), record t { reads = t.reads + 1 })

  -- `getrandom::fill`
  unfoldable pub draw : M (Option ℕ)
  draw t = (ok (x.random t.draws), record t { draws = t.draws + 1 })

  unfoldable pub send_result : Wire → Result (List ℕ) → Task → Result (Unit {0}) × Task
  send_result frame (ok bytes) t = (ok tt, record t { outbox = t.outbox ++ frame ∷ [] })
  send_result frame (err e) t = (err e, t)

  -- `send_frame(send, frame).await`: a frame that does not encode or is too long is not written.
  unfoldable pub send : Wire → M (Unit {0})
  unfolding send_result
  send frame t = send_result frame (send_frame x.net.wire_codec frame) t
