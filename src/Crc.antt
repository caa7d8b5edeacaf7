-- ===== src/Crc.antt =====
-- src/pcutp/crc.py. `zlib.crc32` is a parameter; the modules below have the hexadecimal form.
pub mod Hex
pub mod HexRoundTrip
use native.Mathlib.Nat.{mod-eq_of_lt}
use pcutp.Base.{ℕ, ◌^◌, ◌%◌, ◌<◌, ◌≡◌, ap, ◌∙◌, sym, [], ◌++◌, Bytes, String, arith}
use Hex.{to_hex}

-- What zlib documents of a running checksum: it has 32 bits, no data leaves it alone, and a
-- second call goes on where the first ended.
pub record IsRunning (zlib_crc32 : Bytes → ℕ → ℕ) : Type 0 where
  pub in_range : (xs : Bytes) (seed : ℕ) → seed < 2 ^ 32 → zlib_crc32 xs seed < 2 ^ 32
  pub at_nil : (seed : ℕ) → zlib_crc32 [] seed ≡ seed
  pub at_append :
      (xs ys : Bytes) (seed : ℕ) → zlib_crc32 (xs ++ ys) seed ≡ zlib_crc32 ys (zlib_crc32 xs seed)

module _ (zlib_crc32 : Bytes → ℕ → ℕ) where
  -- `zlib.crc32(data, seed) & 0xFFFFFFFF`
  unfoldable pub crc32 : Bytes → ℕ → ℕ
  crc32 input seed = zlib_crc32 input seed % 2 ^ 32

  unfoldable pub crc32_hex : Bytes → ℕ → String
  unfolding crc32
  crc32_hex input seed = to_hex (crc32 input seed)

module _ (zlib_crc32 : Bytes → ℕ → ℕ) (law : IsRunning zlib_crc32) where
  pub crc32-nil : crc32 zlib_crc32 [] 0 ≡ 0
  unfolding crc32
  crc32-nil = rw (law.at_nil 0)

  pub crc32-append :
      (xs ys : Bytes) → crc32 zlib_crc32 (xs ++ ys) 0 ≡ crc32 zlib_crc32 ys (crc32 zlib_crc32 xs 0)
  unfolding crc32
  crc32-append xs ys = rw (law.at_append xs ys 0, mod-eq_of_lt (law.in_range xs 0 (omega arith)))
