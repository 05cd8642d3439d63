-- ===== src/Network.antt =====
-- src/network.rs: the shared peer state, the wire records, and the peer session. The children model
-- the state (`State`), the records (`Wire`), the frames (`Frames`), the handshake (`Handshake`), the
-- reconciliation of logs (`Ranges`, `Transfer`) and the session (`Session`, `Live`).
pub mod State
pub mod Wire
pub mod Frames
pub mod Ranges
pub mod Handshake
pub mod Task
pub mod Transfer
pub mod Live
pub mod Loops
pub mod Session
