-- ===== src/Store/Reach.antt =====
-- The life of a store (src/store.rs) as a step relation: each step is one successful call of a
-- writing operation, with any arguments, and a failing call changes nothing.
use opencord.Base.{ℤ, ◌≡◌, Bool, Option, ok}
use opencord.Text.{Text}
use opencord.Model.{
  Key, Nonce, GroupId, ChannelId, PeerId, Group, Channel, EventEnvelope, MessagePayload,
  GroupInvite,
}
use opencord.Crates.{Crates, CratesLaws}
use opencord.Crypto.{Identity}
use opencord.Store.{Store, empty_store}
use opencord.Store.Groups.{create_group, create_channel, merge_channel}
use opencord.Store.Peers.{remember_peer, block_peer, unblock_peer}
use opencord.Store.Events.{append, insert_remote_event}
use opencord.Store.Invites.{import_invite}
use opencord.Store.Invariant.{IsSound, empty_store-IsSound}
use opencord.Store.Invariant.Operations.{
  create_group-IsSound, create_channel-IsSound, merge_channel-IsSound, append-IsSound,
  insert_remote_event-IsSound,
}
use opencord.Store.Invariant.Contacts.{
  HasContacts, SameContacts-HasContacts, empty_store-HasContacts,
}
use opencord.Store.Invariant.Contacts.Operations.{
  create_group-HasContacts, create_channel-HasContacts, merge_channel-SameContacts,
  append-HasContacts, insert_remote_event-HasContacts, remember_peer-HasContacts,
  block_peer-HasContacts, unblock_peer-HasContacts,
}
use opencord.Store.Invariant.Contacts.Imports.{import_invite-HasContacts}
use opencord.Store.Invariant.Imports.{
  import_invite-IsSound, remember_peer-IsSound, block_peer-IsSound, unblock_peer-IsSound,
}

pub data Step (c : Crates) (s s' : Store) : Type 0 where
  creates_group :
      (name : Text) (gid : GroupId) (cid : ChannelId) (secret : Key) (now : ℤ) (g : Group)
      (ch : Channel)
      → create_group name gid cid secret now s ≡ ok (g, ch, s')
      → Step c s s'
  creates_channel :
      (g : GroupId) (name : Text) (cid : ChannelId) (ch : Channel)
      → create_channel c g name cid s ≡ ok (ch, s')
      → Step c s s'
  merges_channel : (ch : Channel) (b : Bool) → merge_channel ch s ≡ ok (b, s') → Step c s s'
  appends :
      (i : Identity) (cid : ChannelId) (p : MessagePayload) (drawn : Option Nonce) (sent_at now : ℤ)
      (e : EventEnvelope)
      → append c i cid p drawn sent_at now s ≡ ok (e, s')
      → Step c s s'
  receives :
      (e : EventEnvelope) (name : Text) (now : ℤ) (b : Bool)
      → insert_remote_event c e name now s ≡ ok (b, s')
      → Step c s s'
  imports :
      (value : Text) (invite : GroupInvite)
      → import_invite c value s ≡ ok (invite, s')
      → Step c s s'
  remembers :
      (p : PeerId) (name : Text) (endpoint : Option Text) (now later : ℤ)
      → remember_peer c p name endpoint now later s ≡ s'
      → Step c s s'
  blocks_peer :
      (p : PeerId) (reason : Text) (now : ℤ) → block_peer p reason now s ≡ s' → Step c s s'
  unblocks_peer : (p : PeerId) → unblock_peer p s ≡ s' → Step c s s'

pub data Reach (c : Crates) : Store → Type 0 where
  fresh : Reach c empty_store
  next : {s s' : Store} → Reach c s → Step c s s' → Reach c s'

module _ (c : Crates) (laws : CratesLaws c) where
  Step-IsSound : {s s' : Store} → Step c s s' → IsSound c s → IsSound c s'
  Step-IsSound {s} (creates_group name gid cid secret now g ch h) v =
      create_group-IsSound c name gid cid secret now s v h
  Step-IsSound {s} (creates_channel g name cid ch h) v = create_channel-IsSound c g name cid s v h
  Step-IsSound {s} (merges_channel ch b h) v = merge_channel-IsSound c ch s v h
  Step-IsSound {s} (appends i cid p drawn sent_at now e h) v =
      append-IsSound c laws i cid p drawn sent_at now s v h
  Step-IsSound {s} (receives e name now b h) v = insert_remote_event-IsSound c e name now s v h
  Step-IsSound {s} (imports value invite h) v = import_invite-IsSound c value s v h
  Step-IsSound {s} (remembers p name endpoint now later h) v =
      rw (← h) (remember_peer-IsSound c p name endpoint now later s v)
  Step-IsSound {s} (blocks_peer p reason now h) v = rw (← h) (block_peer-IsSound c p reason now s v)
  Step-IsSound {s} (unblocks_peer p h) v = rw (← h) (unblock_peer-IsSound c p s v)

  pub Reach-IsSound : {s : Store} → Reach c s → IsSound c s
  Reach-IsSound fresh = empty_store-IsSound c
  Reach-IsSound (next r st) = Step-IsSound st (Reach-IsSound r)

  Step-HasContacts : {s s' : Store} → Step c s s' → HasContacts s → HasContacts s'
  Step-HasContacts {s} (creates_group name gid cid secret now g ch h) v =
      create_group-HasContacts name gid cid secret now s v h
  Step-HasContacts {s} (creates_channel g name cid ch h) v =
      create_channel-HasContacts c g name cid s v h
  Step-HasContacts {s} {s'} (merges_channel ch b h) v =
      SameContacts-HasContacts s s' (merge_channel-SameContacts ch s h) v
  Step-HasContacts {s} (appends i cid p drawn sent_at now e h) v =
      append-HasContacts c i cid p drawn sent_at now s v h
  Step-HasContacts {s} (receives e name now b h) v =
      insert_remote_event-HasContacts c e name now s v h
  Step-HasContacts {s} (imports value invite h) v = import_invite-HasContacts c value s v h
  Step-HasContacts {s} (remembers p name endpoint now later h) v =
      rw (← h) (remember_peer-HasContacts c p name endpoint now later s v)
  Step-HasContacts {s} (blocks_peer p reason now h) v =
      rw (← h) (block_peer-HasContacts p reason now s v)
  Step-HasContacts {s} (unblocks_peer p h) v = rw (← h) (unblock_peer-HasContacts p s v)

  Reach-HasContacts : {s : Store} → Reach c s → HasContacts s
  Reach-HasContacts fresh = empty_store-HasContacts
  Reach-HasContacts (next r st) = Step-HasContacts st (Reach-HasContacts r)

  -- Under the laws of the crates, whatever calls are made on a new store, in any order and with
  -- any arguments, remote events and invites included: the keys of the groups, channels, events
  -- and places of the logs, and of the peers, their endpoints and the blocked peers stay unique;
  -- the group of a channel, the group and channel of an event and the peer of an endpoint are in
  -- the store; and every stored event opens under the key of its group.
  pub Reach-IsSound-HasContacts : {s : Store} → Reach c s → IsSound c s × HasContacts s
  Reach-IsSound-HasContacts r = (Reach-IsSound r, Reach-HasContacts r)
