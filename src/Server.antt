-- ===== src/Server.antt =====
-- src/pcutp/server.py: the sender.
pub mod Session
pub mod Block
pub mod Recovery
pub mod Window
pub mod Transfer
pub mod Serve
pub mod Ensures
pub mod Recovers
pub mod Draining
pub mod Progress
pub mod Waits
pub mod SendsAll
pub mod Greeted
pub mod Serves
pub mod Persists
pub mod Resumes
pub mod Setbacks
pub mod Lines
pub mod Bounds
pub mod Attempts
pub mod Refusals
