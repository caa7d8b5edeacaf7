-- ===== src/Compression/Size.antt =====
-- What `decompress` returns has the size that it was asked for.
use pcutp.Base.{
  ℕ, zero, suc, ◌/◌, ◌≤◌, ◌≡◌, [], ◌∷◌, ◌++◌, arith, Bytes, length, take, drop, inl, inr,
}
use pcutp.Errors.{ok, raise, Result-cases}
use pcutp.Compression.Decoder.{read_length, read_match, sequences, decompress}

sequences_size :
    (fuel size : ℕ) (rest output result : Bytes)
    → sequences fuel size rest output ≡ ok result
    → length result ≡ size
unfolding sequences raise
sequences_size zero size rest output result h = cc
sequences_size (suc fuel) size [] output result h = cc
sequences_size (suc fuel) size (token ∷ rest) output result h =
    elim (Result-cases (read_length size (token / 16) rest)) [
      | inl (e, failed) ↦ absurd (ground arith)
      | inr ((n, rest₁), read) ↦
          elim (Result-cases (read_match size token (drop n rest₁) (output ++ take n rest₁))) [
            | inl (e, failed) ↦ ground arith
            | inr ((rest₂, output₂), matched) ↦
                ground (arith, sequences_size fuel size rest₂ output₂ result)
          ]
    ]

-- A result of `decompress` has exactly the requested size, which is at most 4096.
pub decompress_size :
    (packed : Bytes) (size : ℕ) (result : Bytes)
    → decompress packed size ≡ ok result
    → (length result ≡ size) × (size ≤ 4096)
unfolding decompress raise
decompress_size packed size result h =
    ground (arith, sequences_size (length packed) size packed [] result)
