-- ===== src/Tests/Compressions.antt =====
-- The packed blocks of src/pcutp/compression.py and the checksums of src/pcutp/crc.py.
use pcutp.Base.{◌≤◌, ◌≡◌, refl, [], ◌∷◌, Bytes, arith, length}
use pcutp.Errors.{ok}
use pcutp.Compression.Encoder.{compress}
use pcutp.Compression.Decoder.{decompress}
use pcutp.Compression.RoundTrip.{decompress-compress}
use pcutp.Compression.Size.{decompress_size}

abbrev words : Bytes
words = 7 ∷ 8 ∷ 9 ∷ 7 ∷ 8 ∷ 9 ∷ 7 ∷ 8 ∷ 9 ∷ 7 ∷ 8 ∷ 9 ∷ 7 ∷ 8 ∷ 9 ∷ 7 ∷ 8 ∷ 9 ∷ 7 ∷ 8 ∷ 9 ∷ 7 ∷ []

packs_words : compress words ≡ (58 ∷ 7 ∷ 8 ∷ 9 ∷ 3 ∷ 0 ∷ 80 ∷ 9 ∷ 7 ∷ 8 ∷ 9 ∷ 7 ∷ [], 1)
unfolding compress
packs_words = refl

decompress-compress_example : decompress (compress words).0 22 ≡ ok words
decompress-compress_example = decompress-compress words (omega arith)

packed_words : Bytes
packed_words = 58 ∷ 7 ∷ 8 ∷ 9 ∷ 3 ∷ 0 ∷ 80 ∷ 9 ∷ 7 ∷ 8 ∷ 9 ∷ 7 ∷ []

decompress_size_example : (length words ≡ 22) × (22 ≤ 4096)
unfolding decompress packed_words
decompress_size_example = decompress_size packed_words 22 words refl
