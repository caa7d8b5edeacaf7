-- ===== src/Server/Lines.antt =====
-- The DATA line of src/pcutp/server.py, as src/pcutp/client.py reads it.
use text.Mathlib.TextEquality.{eq_iff}
use text.Mathlib.Text.{◌==◌ as str_eq}
use pcutp.Base.{ℕ, ◌≡◌, ◌≢◌, refl, sym, ap, ◌∙◌, arith, false, [], ◌∷◌, Bytes, String, length}
use pcutp.Base.Text.{split, part, str, is_space}
use pcutp.Base.Words.{split-unwords}
use pcutp.Base.Decimal.{int-str, is_decimal-str, IsWord-str}
use pcutp.Crc.{crc32, crc32_hex}
use pcutp.Crc.HexRoundTrip.{upper-to_hex, IsWord-to_hex}
use pcutp.Client.Header.{Client, Header, starts, block_fields, classify}
use pcutp.Server.Block.{data_header}

module _ (zlib_crc32 : Bytes → ℕ → ℕ) where
  split-data_header :
      (seq : ℕ) (chunk : Bytes)
      → split (data_header zlib_crc32 seq chunk)
        ≡ "DATA" ∷ str seq ∷ str (length chunk) ∷ crc32_hex zlib_crc32 chunk 0 ∷ []
  unfolding data_header is_space crc32_hex
  split-data_header seq chunk =
      split-unwords ("DATA" ∷ str seq ∷ str (length chunk) ∷ crc32_hex zlib_crc32 chunk 0 ∷ []) (
        (refl, (refl, (refl, (refl, tt)))),
        (
          IsWord-str seq,
          (IsWord-str (length chunk), (IsWord-to_hex (crc32 zlib_crc32 chunk 0), tt)),
        ),
      )

  four_words : (line w₀ w₁ w₂ w₃ : String) → split line ≡ w₀ ∷ w₁ ∷ w₂ ∷ w₃ ∷ [] → line ≢ "CLOSE"
  four_words line w₀ w₁ w₂ w₃ h e = too_many (sym h ∙ ap split e ∙ one_word)
    where
      one_word : split "CLOSE" ≡ "CLOSE" ∷ []
      one_word = unfold split in refl

      too_many : w₀ ∷ w₁ ∷ w₂ ∷ w₃ ∷ [] ≡ "CLOSE" ∷ [] → ⊥
      too_many k = ground arith

  ne_close : (line : String) → line ≢ "CLOSE" → str_eq line "CLOSE" ≡ false
  ne_close line h = ground (arith, eq_iff line "CLOSE")

  -- The header that the sender writes for a block is read by the receiver as a block with the same
  -- number, the length of the chunk and its checksum.
  pub classify-data_header :
      (c : Client) (seq : ℕ) (chunk : Bytes)
      → classify c (data_header zlib_crc32 seq chunk)
        ≡ Header.block (record {
          packed = false;
          seq = seq;
          length = length chunk;
          raw_length = length chunk;
          want = crc32_hex zlib_crc32 chunk 0;
        })
  unfolding classify starts part block_fields
  classify-data_header c seq chunk =
      rw
        (
          split-data_header seq chunk,
          ne_close (data_header zlib_crc32 seq chunk) (
              four_words (data_header zlib_crc32 seq chunk) "DATA" (str seq) (str (length chunk))
                (crc32_hex zlib_crc32 chunk 0) (split-data_header seq chunk)),
          is_decimal-str seq,
          is_decimal-str (length chunk),
          int-str seq,
          int-str (length chunk),
        )
        (unfold crc32_hex in ground (arith, upper-to_hex (crc32 zlib_crc32 chunk 0)))
