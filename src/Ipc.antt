-- ===== src/Ipc.antt =====
-- The channel between the browser and the audio daemon: the frames and the client.
pub mod Protocol
pub mod Client
mod Tests
