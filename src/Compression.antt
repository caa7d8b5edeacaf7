-- ===== src/Compression.antt =====
-- src/pcutp/compression.py: independent LZ4 blocks. `output` and `anchor`, `pos`, `matches` are
-- the loop variables of the encoder; the decoder's cursor `pos` is the input behind it.
pub mod Encoder
pub mod Decoder
pub mod Lengths
pub mod Copies
pub mod Sequences
pub mod Search
pub mod RoundTrip
pub mod Size
pub mod Worthwhile
