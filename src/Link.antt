-- ===== src/Link.antt =====
-- src/pcutp/link.py: waiting for a control line, with the exchange that finds out whether the
-- link is still there.
pub mod Wait
pub mod Limits
pub mod Teardown
pub mod Stream
pub mod Cutting
pub mod Framing
pub mod Answers
pub mod Ends
