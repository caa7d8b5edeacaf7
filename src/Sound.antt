-- ===== src/Sound.antt =====
-- src/pcutp/sound.py: which sound a control line has, and the player.
pub mod Samples
pub mod Fading
pub mod Player
pub mod Gapless
pub mod Chunks
pub mod Numbered
pub mod Newest
pub mod Words
pub mod Clips
pub mod Voices
pub mod Voiced
pub mod Turns
