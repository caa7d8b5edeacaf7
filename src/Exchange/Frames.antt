-- ===== src/Exchange/Frames.antt =====
-- The frames of a file, and how the receiver of src/pcutp/client.py reads them.
use text.Mathlib.Text.{◌==◌ as str_eq}
use text.Mathlib.TextEquality.{eq_iff}
use pcutp.Base.{
  ℕ, zero, suc, ◌+◌, ◌*◌, ◌≡◌, ◌≢◌, refl, sym, ap, ◌∙◌, Bool, true, false, Option, none, some, List,
  [], ◌∷◌, String, Bytes, length, arith, inl, inr, Bool-cases, if◌then◌else◌,
}
use pcutp.Base.Slices.{slice}
use pcutp.Base.Text.{split, is_space, part, unwords, str}
use pcutp.Base.Words.{split-unwords}
use pcutp.Base.Decimal.{int-str, is_decimal-str, IsWord-str}
use pcutp.Crc.{crc32, crc32_hex}
use pcutp.Crc.HexRoundTrip.{upper-to_hex, IsWord-to_hex}
use pcutp.Compression.Worthwhile.{worthwhile}
use pcutp.Client.Header.{Client, Block, Header, starts, block_fields, classify}
use pcutp.Server.Block.{data_header}
use pcutp.Server.Lines.{classify-data_header}

-- the packed form of a chunk that is sent packed
abbrev pub packed_of : Bool → ℕ → Bytes → Option Bytes
packed_of packing baud chunk = if packing then worthwhile chunk baud else none

module _ (zlib_crc32 : Bytes → ℕ → ℕ) where
  -- the header of a packed block
  abbrev pub zdata_words : ℕ → Bytes → Bytes → List String
  zdata_words seq chunk packed =
      "ZDATA"
      ∷ str seq
      ∷ str (length packed)
      ∷ str (length chunk)
      ∷ crc32_hex zlib_crc32 chunk 0
      ∷ []

  -- the frame of a chunk
  unfoldable pub frame_by : ℕ → Bytes → Option Bytes → String × Bytes
  frame_by seq chunk none = (data_header zlib_crc32 seq chunk, chunk)
  frame_by seq chunk (some packed) = (unwords (zdata_words seq chunk packed), packed)

  -- the block that the receiver reads in its header
  abbrev pub block_by : ℕ → Bytes → Option Bytes → Block
  block_by seq chunk none = record {
    packed = false;
    seq = seq;
    length = length chunk;
    raw_length = length chunk;
    want = crc32_hex zlib_crc32 chunk 0;
  }
  block_by seq chunk (some packed) = record {
    packed = true;
    seq = seq;
    length = length packed;
    raw_length = length chunk;
    want = crc32_hex zlib_crc32 chunk 0;
  }

  split-zdata :
      (seq : ℕ) (chunk packed : Bytes)
      → split (unwords (zdata_words seq chunk packed)) ≡ zdata_words seq chunk packed
  unfolding is_space crc32_hex
  split-zdata seq chunk packed = split-unwords (zdata_words seq chunk packed) (
    (refl, (refl, (refl, (refl, (refl, tt))))),
    (
      IsWord-str seq,
      (
        IsWord-str (length packed),
        (IsWord-str (length chunk), (IsWord-to_hex (crc32 zlib_crc32 chunk 0), tt)),
      ),
    ),
  )

  pub not_close :
      (line : String) (w v : String) (ws : List String)
      → split line ≡ w ∷ v ∷ ws
      → str_eq line "CLOSE" ≡ false
  not_close line w v ws h = elim (Bool-cases (str_eq line "CLOSE")) [
    | inl same ↦ absurd (too_many (sym h ∙ ap split ((eq_iff line "CLOSE").0 same) ∙ one_word))
    | inr other ↦ other
  ]
    where
      one_word : split "CLOSE" ≡ "CLOSE" ∷ []
      one_word = unfold split in refl

      too_many : w ∷ v ∷ ws ≡ "CLOSE" ∷ [] → ⊥
      too_many k = ground arith

  classify-zdata :
      (c : Client) (seq : ℕ) (chunk packed : Bytes)
      → c.compression ≡ true
      → classify c (unwords (zdata_words seq chunk packed))
        ≡ Header.block (block_by seq chunk (some packed))
  unfolding classify starts part block_fields
  classify-zdata c seq chunk packed on =
      rw
        (
          split-zdata seq chunk packed,
          not_close (unwords (zdata_words seq chunk packed)) "ZDATA" (str seq) _
              (split-zdata seq chunk packed),
          on,
          is_decimal-str seq,
          is_decimal-str (length packed),
          is_decimal-str (length chunk),
          int-str seq,
          int-str (length packed),
          int-str (length chunk),
        )
        (unfold crc32_hex in ground (arith, upper-to_hex (crc32 zlib_crc32 chunk 0)))

  pub classify-frame_by :
      (c : Client) (seq : ℕ) (chunk : Bytes) (packed : Option Bytes)
      → (packed ≢ none → c.compression ≡ true)
      → classify c (frame_by seq chunk packed).0 ≡ Header.block (block_by seq chunk packed)
  unfolding frame_by
  classify-frame_by c seq chunk none on = classify-data_header zlib_crc32 c seq chunk
  classify-frame_by c seq chunk (some packed) on =
      classify-zdata c seq chunk packed (on (λ e. ground arith))

  -- the frames of the file, `n` of them from `seq`
  unfoldable pub frame_of : Bool → ℕ → ℕ → Bytes → ℕ → String × Bytes
  frame_of packing baud size input seq =
      let chunk = slice (seq * size) size input in frame_by seq chunk (packed_of packing baud chunk)

  unfoldable pub frames : Bool → ℕ → ℕ → Bytes → ℕ → ℕ → List (String × Bytes)
  frames packing baud size input seq zero = []
  frames packing baud size input seq (suc n) =
      frame_of packing baud size input seq ∷ frames packing baud size input (seq + 1) n
