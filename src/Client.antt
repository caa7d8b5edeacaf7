-- ===== src/Client.antt =====
-- src/pcutp/client.py: the receiver.
pub mod Header
pub mod Announce
pub mod Receive
pub mod Calls
pub mod Closes
pub mod Consistency
pub mod Limits
pub mod Final
pub mod Prefix
