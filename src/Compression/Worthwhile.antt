-- ===== src/Compression/Worthwhile.antt =====
-- `worthwhile` of src/pcutp/compression.py. Its decimal fractions are scaled to whole numbers: by
-- 100 for the 85 percent, and by 2000000 * `baud` for the times, which are compared exactly.
use pcutp.Base.{
  ℕ, ◌+◌, ◌-◌, ◌*◌, ◌≤◌, ◌≡◌, ◌&&◌, Option, none, some, Bytes, arith, length, ltb, leb,
  if◌then◌else◌,
}
use pcutp.Errors.{ok}
use pcutp.Compression.Decoder.{decompress}
use pcutp.Compression.Encoder.{compress}
use pcutp.Compression.RoundTrip.{decompress-compress}

unfoldable pub worthwhile : Bytes → ℕ → Option Bytes
worthwhile raw baud =
    let (packed, matches) = compress raw in
    let saved = (length raw - length packed - 12) * 10 * 2000000 in
    let decode = (2000 + matches * 500 + length raw * 2) * 3 * baud in
    if ltb (length raw) 64
    then none
    else if leb (length packed * 100) (length raw * 85) && ltb decode saved
    then some packed
    else none

-- A block of at most 4096 bytes that is sent packed has at least 64 bytes, is packed to 85 percent of them or less, and
-- is unpacked by the receiver to the same bytes.
pub worthwhile_sound :
    (raw packed : Bytes) (baud : ℕ)
    → length raw ≤ 4096
    → worthwhile raw baud ≡ some packed
    → (64 ≤ length raw)
      × (length packed * 100 ≤ length raw * 85)
      × (decompress packed (length raw) ≡ ok raw)
unfolding worthwhile
worthwhile_sound raw packed baud small e = ground (arith, decompress-compress raw small)
