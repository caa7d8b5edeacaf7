-- ===== src/Exchange.antt =====
-- A sender of src/pcutp/server.py and a receiver of src/pcutp/client.py, joined by a link.
mod Frames
pub mod Yields
mod Fills
mod Sends
mod Windows
mod Confirms
pub mod Files
mod Receives
mod Blocks
mod Downloads
pub mod Announced
pub mod Completes
pub mod Rounds
pub mod Sessions
