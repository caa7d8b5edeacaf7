-- ===== src/Exchange/Announced.antt =====
-- The META line of src/pcutp/server.py, as `_recv_meta` and `_receive` of src/pcutp/client.py
-- read it.
use native.Mathlib.Nat.{le_trans, mul-le-mul_right, div-add-mod', mod-lt}
use pcutp.Base.{
  ℕ, ◌+◌, ◌-◌, ◌*◌, ◌/◌, ◌%◌, ◌≤◌, ◌≡◌, refl, Option, none, some, List, [], ◌∷◌, String, Bytes,
  length, arith, max,
}
use pcutp.Base.Text.{split, is_space, part, upper, str}
use pcutp.Base.Words.{IsWord, split-unwords}
use pcutp.Base.Decimal.{int-str, is_decimal-str, IsWord-str}
use pcutp.Errors.{ok}
use pcutp.Names.{sanitize_filename}
use pcutp.Flow.{ceil_div}
use pcutp.Crc.{crc32, crc32_hex}
use pcutp.Crc.Hex.{to_hex, parse_hex}
use pcutp.Crc.HexRoundTrip.{IsWord-to_hex, upper-to_hex, parse_hex-to_hex}
use pcutp.Client.Header.{Client, starts}
use pcutp.Client.Announce.{take_meta, checked_meta, recv_meta}
use pcutp.Client.Receive.{Meta, meta_refusal, max_file_size}
use pcutp.Server.Transfer.{block_count, meta_line}

-- the blocks hold the file
pub block_count_enough :
    (size block_size : ℕ) → 1 ≤ block_size → size ≤ block_count size block_size * block_size
unfolding block_count ceil_div
block_count_enough size block_size h =
    let q = (size + (block_size - 1)) / block_size in
    let split : q * block_size + (size + (block_size - 1)) % block_size ≡ size + (block_size - 1) =
      div-add-mod' (size + (block_size - 1)) block_size in
    let small = mod-lt (size + (block_size - 1)) {m = block_size} (omega (arith, h)) in
    let enough : size ≤ q * block_size = omega (arith, split, small, h) in
    at_least (max 1 q) q (omega arith) enough
  where
    at_least : (n q : ℕ) → q ≤ n → size ≤ q * block_size → size ≤ n * block_size
    at_least n q le enough = le_trans enough (mul-le-mul_right block_size le)

module _ (zlib_crc32 : Bytes → ℕ → ℕ) (filename : String) (input : Bytes) (block_size : ℕ) where
  abbrev pub announced : Meta
  announced = record {
    filename = filename;
    size = length input;
    blocksize = block_size;
    blocks = block_count (length input) block_size;
    crc32 = crc32_hex zlib_crc32 input 0;
  }

  abbrev meta_words : List String
  meta_words =
      "META"
      ∷ filename
      ∷ str (length input)
      ∷ str block_size
      ∷ str (block_count (length input) block_size)
      ∷ crc32_hex zlib_crc32 input 0
      ∷ []

  abbrev pub announcement : String
  announcement =
      meta_line filename (length input) block_size (block_count (length input) block_size)
        (crc32_hex zlib_crc32 input 0)

  split-announcement : IsWord filename → split announcement ≡ meta_words
  unfolding is_space crc32_hex meta_line
  split-announcement w = split-unwords meta_words (
    (refl, (refl, (refl, (refl, tt)))),
    (
      w,
      (
        IsWord-str (length input),
        (
          IsWord-str block_size,
          (
            IsWord-str (block_count (length input) block_size),
            (IsWord-to_hex (crc32 zlib_crc32 input 0), tt),
          ),
        ),
      ),
    ),
  )

  parse-crc :
      parse_hex (upper (crc32_hex zlib_crc32 input 0))
      ≡ some (crc32 zlib_crc32 input 0 % 4294967296)
  unfolding crc32_hex
  parse-crc =
      rw (upper-to_hex (crc32 zlib_crc32 input 0)) (parse_hex-to_hex (crc32 zlib_crc32 input 0))

  upper-crc : upper (crc32_hex zlib_crc32 input 0) ≡ crc32_hex zlib_crc32 input 0
  unfolding crc32_hex
  upper-crc = upper-to_hex (crc32 zlib_crc32 input 0)

  checked_meta-announcement :
      IsWord filename
      → sanitize_filename filename ≡ ok filename
      → checked_meta announcement ≡ ok announced
  unfolding checked_meta take_meta starts part
  checked_meta-announcement w safe =
      rw
        (
          split-announcement w,
          is_decimal-str (length input),
          is_decimal-str block_size,
          is_decimal-str (block_count (length input) block_size),
          parse-crc,
          split-announcement w,
          safe,
          split-announcement w,
          int-str (length input),
          int-str block_size,
          int-str (block_count (length input) block_size),
          upper-crc,
        )
        refl

  pub recv_meta-announcement :
      IsWord filename
      → sanitize_filename filename ≡ ok filename
      → recv_meta (some "FETCHING") (some announcement) ≡ ok announced
  unfolding recv_meta
  recv_meta-announcement = checked_meta-announcement

  -- room on the receiver's disk
  abbrev pub HasRoom : Option ℕ → Type 0
  HasRoom none = Unit
  HasRoom (some free) = length input ≤ free

  parse_sum : (crc32_hex zlib_crc32 input 0 ≡ to_hex (crc32 zlib_crc32 input 0))
  unfolding crc32_hex
  parse_sum = refl

  pub announced-accepted :
      (c : Client) (room : Option ℕ)
      → c.free_space ≡ room
      → HasRoom room
      → sanitize_filename filename ≡ ok filename
      → 1 ≤ block_size
      → block_size ≤ c.max_block_size
      → length input ≤ max_file_size
      → meta_refusal zlib_crc32 c announced ≡ none
  unfolding meta_refusal block_count
  announced-accepted c none e room safe some_size fits small =
      rw (meta_refusal, safe, parse_sum, parse_hex-to_hex (crc32 zlib_crc32 input 0), e)
        (ground arith)
  announced-accepted c (some free) e room safe some_size fits small =
      rw (meta_refusal, safe, parse_sum, parse_hex-to_hex (crc32 zlib_crc32 input 0), e)
        (ground (arith, room))
