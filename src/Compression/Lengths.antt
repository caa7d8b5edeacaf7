-- ===== src/Compression/Lengths.antt =====
-- The two halves of a length: what `compress` writes, `decompress` reads back.
use Prim.Native.Nat.{min}
use pcutp.Base.{ℕ, zero, suc, ◌+◌, ◌-◌, ◌≤◌, ◌≡◌, ◌++◌, arith, Bytes}
use pcutp.Errors.{ok}
use pcutp.Compression.Decoder.{length_more, read_length}
use pcutp.Compression.Encoder.{length_bytes, extra_length}

length_more-length_bytes :
    (fuel v acc size : ℕ) (rest : Bytes)
    → v ≤ fuel
    → acc + v ≤ size
    → length_more size acc (length_bytes fuel v ++ rest) ≡ ok (acc + v, rest)
unfolding length_more length_bytes
length_more-length_bytes zero v acc size rest h k = ground arith
length_more-length_bytes (suc fuel) v acc size rest h k =
    ground (arith, length_more-length_bytes fuel (v - 255) (acc + 255) size rest)

-- The nibble and the extra bytes of a length give the length, in front of any input.
pub read_length-extra_length :
    (v size : ℕ) (rest : Bytes)
    → v ≤ size
    → read_length size (min v 15) (extra_length v ++ rest) ≡ ok (v, rest)
unfolding read_length extra_length
read_length-extra_length v size rest h =
    ground (arith, length_more-length_bytes v (v - 15) 15 size rest)
