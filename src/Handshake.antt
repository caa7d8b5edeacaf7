-- ===== src/Handshake.antt =====
-- The greeting of src/pcutp/server.py and src/pcutp/client.py: what the two sides offer, agree on
-- and check.
mod Tokens
pub mod Negotiate
pub mod Agreement
pub mod Greets
