-- ===== src/Network/Session/Outgoing.antt =====
-- What a session of src/network.rs may write once the shared groups are known, and the steps that
-- write no more than that.
use mathlib.Core.List.{append_assoc}
use opencord.Base.{
  ◌++◌, ◌∙◌, ℕ, ◌≡◌, refl, sym, ap, true, List, [], ◌∷◌, All, All-append, Option, Result, ok, err,
  ok-injective, or_error-inv,
}
use opencord.Model.{GroupId, Channel, Group, Bytes, Key, Nonce}
use opencord.Model.ByteId.{be_bytes}
use opencord.Store.{Store}
use opencord.Network.State.{NetworkState}
use opencord.Network.Wire.{
  NetCrates, Wire, VoiceDatagram, LiveEvent, IncomingVoice, IncomingScreen, hello, group_proofs,
  channels, inventories, requests, event_batch, sync_done, live_event, channel_upsert, screen_frame,
  ping, pong,
}
use opencord.Network.Handshake.{member, seal_voice}
use opencord.Network.Task.{
  Context, Task, M, write_store, write_result, change_state, receive, take_frame, send, send_result,
  now, draw, publish_event, publish_channel, deliver_voice, deliver_screen, send_datagram,
}
use opencord.Network.Task.Holds.{
  Holds, Returns, Returns-bind, Returns-lift, Returns-Anything, Anything, holds,
}
use opencord.Network.Live.{seal, seal_channel}

module _ (shared : List GroupId) where
  abbrev pub IsShared : GroupId → Type 0
  IsShared g = member g shared ≡ true

  -- The groups that a record names are shared.
  abbrev pub IsAbout : Wire → Type 0
  IsAbout (channels ds) = All (λ d. IsShared d.group_id) ds
  IsAbout (inventories is) = All (λ i. IsShared i.group_id) is
  IsAbout (requests rs) = All (λ r. IsShared r.group_id) rs
  IsAbout (event_batch ws) = All (λ w. IsShared w.event.header.group_id) ws
  IsAbout (live_event w) = IsShared w.event.header.group_id
  IsAbout (channel_upsert d) = IsShared d.group_id
  IsAbout (screen_frame d) = IsShared d.group_id
  IsAbout (hello h) = Unit
  IsAbout (group_proofs ps) = All (λ p. IsShared p.group_id) ps
  IsAbout sync_done = Unit
  IsAbout (ping at) = Unit
  IsAbout (pong at) = Unit

-- What was written after `sent` on the stream and after `said` in datagrams.
pub record IsDiscreet (shared : List GroupId) (sent : List Wire) (said : List VoiceDatagram)
    (t : Task) : Type 0 where
  pub frames : List Wire
  pub frames_is : t.outbox ≡ sent ++ frames
  pub about : All (IsAbout shared) frames
  pub voices : List VoiceDatagram
  pub voices_is : t.datagrams ≡ said ++ voices
  pub named : All (λ d. IsShared shared d.group_id) voices

module _ (shared : List GroupId) (sent : List Wire) (said : List VoiceDatagram) where
  abbrev pub Discreet : {A : Type 0} → M A → Type 0
  Discreet m = Holds (IsDiscreet shared sent said) m

  same-IsDiscreet :
      (t t' : Task)
      → t.outbox ≡ t'.outbox
      → t.datagrams ≡ t'.datagrams
      → IsDiscreet shared sent said t
      → IsDiscreet shared sent said t'
  same-IsDiscreet t t' e f v = record {
    frames = v.frames;
    frames_is = sym e ∙ v.frames_is;
    about = v.about;
    voices = v.voices;
    voices_is = sym f ∙ v.voices_is;
    named = v.named;
  }

  pub change_state-Discreet : (f : NetworkState → NetworkState) → Discreet (change_state f)
  unfolding Holds change_state
  change_state-Discreet f t v = same-IsDiscreet _ _ refl refl v

  write_result-IsDiscreet :
      {A : Type 0} (r : Result (A × Store)) (t : Task)
      → IsDiscreet shared sent said t
      → IsDiscreet shared sent said (write_result r t).1
  unfolding write_result
  write_result-IsDiscreet (ok (a, s)) t v = same-IsDiscreet _ _ refl refl v
  write_result-IsDiscreet (err e) t v = v

  pub write_store-Discreet :
      {A : Type 0} (f : Store → Result (A × Store)) → Discreet (write_store f)
  unfolding Holds write_store
  write_store-Discreet f t v = write_result-IsDiscreet (f t.store) t v

  take_frame-IsDiscreet :
      (rs : List (Result Wire)) (t : Task)
      → IsDiscreet shared sent said t
      → IsDiscreet shared sent said (take_frame rs t).1
  unfolding take_frame
  take_frame-IsDiscreet [] t v = v
  take_frame-IsDiscreet (r ∷ rs) t v = same-IsDiscreet _ _ refl refl v

  pub receive-Discreet : Discreet receive
  unfolding Holds receive
  receive-Discreet t v = take_frame-IsDiscreet t.inbox t v

  pub publish_event-Discreet : (e : LiveEvent) → Discreet (publish_event e)
  unfolding Holds publish_event
  publish_event-Discreet e t v = same-IsDiscreet _ _ refl refl v

  pub publish_channel-Discreet : (ch : Channel) → Discreet (publish_channel ch)
  unfolding Holds publish_channel
  publish_channel-Discreet ch t v = same-IsDiscreet _ _ refl refl v

  pub deliver_voice-Discreet : (p : IncomingVoice) → Discreet (deliver_voice p)
  unfolding Holds deliver_voice
  deliver_voice-Discreet p t v = same-IsDiscreet _ _ refl refl v

  pub deliver_screen-Discreet : (p : IncomingScreen) → Discreet (deliver_screen p)
  unfolding Holds deliver_screen
  deliver_screen-Discreet p t v = same-IsDiscreet _ _ refl refl v

  pub send_datagram-Discreet :
      (d : VoiceDatagram) → IsShared shared d.group_id → Discreet (send_datagram d)
  unfolding Holds send_datagram
  send_datagram-Discreet d h t v = record {
    frames = v.frames;
    frames_is = v.frames_is;
    about = v.about;
    voices = v.voices ++ d ∷ [];
    voices_is = ap (λ ds. ds ++ d ∷ []) v.voices_is ∙ append_assoc said v.voices (d ∷ []);
    named = All-append _ v.voices (d ∷ []) v.named (h, tt);
  }

  module _ (x : Context) where
    pub now-Discreet : Discreet (now x)
    unfolding Holds now
    now-Discreet t v = same-IsDiscreet _ _ refl refl v

    pub draw-Discreet : Discreet (draw x)
    unfolding Holds draw
    draw-Discreet t v = same-IsDiscreet _ _ refl refl v

    send_result-IsDiscreet :
        (w : Wire) (r : Result (List ℕ)) (t : Task)
        → IsAbout shared w
        → IsDiscreet shared sent said t
        → IsDiscreet shared sent said (send_result x w r t).1
    unfolding send_result
    send_result-IsDiscreet w (ok bytes) t h v = record {
      frames = v.frames ++ w ∷ [];
      frames_is = ap (λ ws. ws ++ w ∷ []) v.frames_is ∙ append_assoc sent v.frames (w ∷ []);
      about = All-append (IsAbout shared) v.frames (w ∷ []) v.about (h, tt);
      voices = v.voices;
      voices_is = v.voices_is;
      named = v.named;
    }
    send_result-IsDiscreet w (err e) t h v = v

    pub send-Discreet : (w : Wire) → IsAbout shared w → Discreet (send x w)
    unfolding Holds send
    send-Discreet w h t v = send_result-IsDiscreet w _ t h v

  pub ruleset discreet = (
    holds, change_state-Discreet, write_store-Discreet, receive-Discreet, publish_event-Discreet,
    publish_channel-Discreet, deliver_voice-Discreet, deliver_screen-Discreet, now-Discreet,
    draw-Discreet,
  )

-- What is sealed for a group names the group.
seal_voice-group :
    (n : NetCrates) (g : GroupId) (secret : Key) (bytes : Bytes) (drawn : Option Nonce)
    {d : VoiceDatagram}
    → seal_voice n g secret bytes drawn ≡ ok d
    → d.group_id ≡ g
unfolding seal_voice
seal_voice-group n g secret bytes drawn h = or_error-inv drawn _ _ h λ nonce _ h1.
    or_error-inv (n.crates.encrypt secret nonce bytes (be_bytes 16 g)) _ _ h1
      λ sealed _ h2. sym (ap (λ d. d.group_id) (ok-injective h2))

module _ (x : Context) where
  pub seal-Returns :
      (g : GroupId) (k : Group) (bytes : Bytes) → Returns (λ d. d.group_id ≡ g) (seal x g k bytes)
  unfolding seal
  seal-Returns g k bytes =
      Returns-bind Anything _ _ _ (Returns-Anything _)
        (λ nonce _. Returns-lift _ _ (λ d. seal_voice-group x.net g k.secret bytes nonce {d = d}))

  pub seal_channel-Returns :
      (ch : Channel) (k : Group) → Returns (λ d. d.group_id ≡ ch.group_id) (seal_channel x ch k)
  unfolding seal_channel
  seal_channel-Returns ch k =
      Returns-bind Anything _ _ _ (Returns-Anything _) (λ bytes _. seal-Returns ch.group_id k bytes)
