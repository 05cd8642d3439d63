-- ===== src/Network/Session/Expects.antt =====
-- What `run_session` of src/network.rs does with the frame that it expects next.
use opencord.Network.Session.Keeps.{Keeps, keeps}
use opencord.Network.Wire.{
  hello, group_proofs, channels, inventories, requests, event_batch, sync_done, live_event,
  channel_upsert, screen_frame, ping, pong, Wire,
}
use opencord.Network.Task.{Context}
use opencord.Network.Session.{
  expect_hello, expect_proofs, expect_channels, expect_inventories, expect_requests,
}

module _ (x : Context) where
  pub expect_hello-Keeps : (w : Wire) → Keeps x.net.crates (expect_hello w)
  unfolding expect_hello
  expect_hello-Keeps (hello _) = search keeps
  expect_hello-Keeps (group_proofs _) = search keeps
  expect_hello-Keeps (channels _) = search keeps
  expect_hello-Keeps (inventories _) = search keeps
  expect_hello-Keeps (requests _) = search keeps
  expect_hello-Keeps (event_batch _) = search keeps
  expect_hello-Keeps sync_done = search keeps
  expect_hello-Keeps (live_event _) = search keeps
  expect_hello-Keeps (channel_upsert _) = search keeps
  expect_hello-Keeps (screen_frame _) = search keeps
  expect_hello-Keeps (ping _) = search keeps
  expect_hello-Keeps (pong _) = search keeps

  pub expect_proofs-Keeps : (w : Wire) → Keeps x.net.crates (expect_proofs w)
  unfolding expect_proofs
  expect_proofs-Keeps (hello _) = search keeps
  expect_proofs-Keeps (group_proofs _) = search keeps
  expect_proofs-Keeps (channels _) = search keeps
  expect_proofs-Keeps (inventories _) = search keeps
  expect_proofs-Keeps (requests _) = search keeps
  expect_proofs-Keeps (event_batch _) = search keeps
  expect_proofs-Keeps sync_done = search keeps
  expect_proofs-Keeps (live_event _) = search keeps
  expect_proofs-Keeps (channel_upsert _) = search keeps
  expect_proofs-Keeps (screen_frame _) = search keeps
  expect_proofs-Keeps (ping _) = search keeps
  expect_proofs-Keeps (pong _) = search keeps

  pub expect_channels-Keeps : (w : Wire) → Keeps x.net.crates (expect_channels w)
  unfolding expect_channels
  expect_channels-Keeps (hello _) = search keeps
  expect_channels-Keeps (group_proofs _) = search keeps
  expect_channels-Keeps (channels _) = search keeps
  expect_channels-Keeps (inventories _) = search keeps
  expect_channels-Keeps (requests _) = search keeps
  expect_channels-Keeps (event_batch _) = search keeps
  expect_channels-Keeps sync_done = search keeps
  expect_channels-Keeps (live_event _) = search keeps
  expect_channels-Keeps (channel_upsert _) = search keeps
  expect_channels-Keeps (screen_frame _) = search keeps
  expect_channels-Keeps (ping _) = search keeps
  expect_channels-Keeps (pong _) = search keeps

  pub expect_inventories-Keeps : (w : Wire) → Keeps x.net.crates (expect_inventories w)
  unfolding expect_inventories
  expect_inventories-Keeps (hello _) = search keeps
  expect_inventories-Keeps (group_proofs _) = search keeps
  expect_inventories-Keeps (channels _) = search keeps
  expect_inventories-Keeps (inventories _) = search keeps
  expect_inventories-Keeps (requests _) = search keeps
  expect_inventories-Keeps (event_batch _) = search keeps
  expect_inventories-Keeps sync_done = search keeps
  expect_inventories-Keeps (live_event _) = search keeps
  expect_inventories-Keeps (channel_upsert _) = search keeps
  expect_inventories-Keeps (screen_frame _) = search keeps
  expect_inventories-Keeps (ping _) = search keeps
  expect_inventories-Keeps (pong _) = search keeps

  pub expect_requests-Keeps : (w : Wire) → Keeps x.net.crates (expect_requests w)
  unfolding expect_requests
  expect_requests-Keeps (hello _) = search keeps
  expect_requests-Keeps (group_proofs _) = search keeps
  expect_requests-Keeps (channels _) = search keeps
  expect_requests-Keeps (inventories _) = search keeps
  expect_requests-Keeps (requests _) = search keeps
  expect_requests-Keeps (event_batch _) = search keeps
  expect_requests-Keeps sync_done = search keeps
  expect_requests-Keeps (live_event _) = search keeps
  expect_requests-Keeps (channel_upsert _) = search keeps
  expect_requests-Keeps (screen_frame _) = search keeps
  expect_requests-Keeps (ping _) = search keeps
  expect_requests-Keeps (pong _) = search keeps
