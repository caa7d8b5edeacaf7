-- ===== src/Client/Final.antt =====
-- When the receiver puts a file under its final name, and which.
use text.Mathlib.TextEquality.{eq_iff}
use pcutp.Base.{
  ℕ, ◌≡◌, ◌≢◌, refl, Bool, true, Option, none, some, List, [], ◌∷◌, arith, String, Bytes, length,
}
use pcutp.Crc.{IsRunning, crc32}
use pcutp.Crc.Hex.{to_hex}
use pcutp.Base.Text.{part, upper}
use pcutp.Client.Header.{Client, Block, Header, classify}
use pcutp.Client.Receive.{
  Meta, Receiver, Round, download, store, gap, accept, take_block, conclude, take_header, take_line,
  take_round, run, start,
}
use pcutp.Client.Consistency.{IsConsistent, take_round-IsConsistent, start-IsConsistent}

module _ (zlib_crc32 : Bytes → ℕ → ℕ) (m : Meta) where
  -- The final file is the part file, as META announced it, and the checkpoint is gone.
  pub record IsVerified (r : Receiver) : Type 0 where
    pub installed : r.final ≡ some r.handle
    pub sized : length r.handle ≡ m.size
    pub summed : to_hex (crc32 zlib_crc32 r.handle 0) ≡ m.crc32
    pub complete : r.expected ≡ m.blocks
    pub no_checkpoint : r.checkpoint ≡ none

module _ (zlib_crc32 : Bytes → ℕ → ℕ) (c : Client) (m : Meta) where
  conclude-IsVerified :
      (parts : List String) (r : Receiver)
      → IsConsistent zlib_crc32 m r
      → r.expected ≡ m.blocks
      → (conclude zlib_crc32 c m parts r).next ≡ download true
      → IsVerified zlib_crc32 m (conclude zlib_crc32 c m parts r).state
  unfolding conclude
  conclude-IsVerified parts r h all e =
      ground
        (arith, eq_iff (to_hex r.running) (upper (part parts 1)), eq_iff (to_hex r.running) m.crc32)

  accept-ne-download :
      (b : Block) (size : ℕ) (payload : Bytes) (writable : Bool) (r : Receiver)
      → (accept zlib_crc32 c m b size payload writable r).next ≢ download true
  unfolding accept gap
  accept-ne-download b size payload writable r e = ground arith

  take_block-ne-download :
      (b : Block) (arrived : Bytes) (writable : Bool) (r : Receiver)
      → (take_block zlib_crc32 c m b arrived writable r).next ≢ download true
  unfolding take_block
  take_block-ne-download b arrived writable r e = grind (arith, accept-ne-download)

  take_header-IsVerified :
      (x : Header) (arrived : Bytes) (writable : Bool) (r : Receiver)
      → IsConsistent zlib_crc32 m r
      → (take_header zlib_crc32 c m x arrived writable r).next ≡ download true
      → IsVerified zlib_crc32 m (take_header zlib_crc32 c m x arrived writable r).state
  unfolding take_header
  take_header-IsVerified (Header.block b) arrived writable r h e =
      absurd (take_block-ne-download b arrived writable r e)
  take_header-IsVerified (Header.finish parts) arrived writable r h e =
      ground (arith, conclude-IsVerified parts r h)
  take_header-IsVerified _ arrived writable r h e = cc

  take_line-IsVerified :
      (line : Option String) (arrived : Bytes) (writable : Bool) (r : Receiver)
      → IsConsistent zlib_crc32 m r
      → (take_line zlib_crc32 c m line arrived writable r).next ≡ download true
      → IsVerified zlib_crc32 m (take_line zlib_crc32 c m line arrived writable r).state
  unfolding take_line
  take_line-IsVerified none arrived writable r h e = cc
  take_line-IsVerified (some x) arrived writable r h e =
      take_header-IsVerified (classify c x) arrived writable r h e

  -- What does not end in a verified download leaves the final file alone.
  accept-final :
      (b : Block) (size : ℕ) (payload : Bytes) (writable : Bool) (r : Receiver)
      → (accept zlib_crc32 c m b size payload writable r).state.final ≡ r.final
  unfolding accept gap store
  accept-final b size payload writable r = ground arith

  take_block-final :
      (b : Block) (arrived : Bytes) (writable : Bool) (r : Receiver)
      → (take_block zlib_crc32 c m b arrived writable r).state.final ≡ r.final
  unfolding take_block
  take_block-final b arrived writable r = grind (arith, accept-final)

  take_header-final :
      (x : Header) (arrived : Bytes) (writable : Bool) (r : Receiver)
      → (take_header zlib_crc32 c m x arrived writable r).next ≢ download true
      → (take_header zlib_crc32 c m x arrived writable r).state.final ≡ r.final
  unfolding take_header conclude
  take_header-final (Header.block b) arrived writable r h = take_block-final b arrived writable r
  take_header-final _ arrived writable r h = ground arith

  take_line-final :
      (line : Option String) (arrived : Bytes) (writable : Bool) (r : Receiver)
      → (take_line zlib_crc32 c m line arrived writable r).next ≢ download true
      → (take_line zlib_crc32 c m line arrived writable r).state.final ≡ r.final
  unfolding take_line
  take_line-final none arrived writable r h = refl
  take_line-final (some x) arrived writable r h =
      take_header-final (classify c x) arrived writable r h

  take_round-final :
      (round : Round) (r : Receiver)
      → (take_round zlib_crc32 c m round r).next ≢ download true
      → (take_round zlib_crc32 c m round r).state.final ≡ r.final
  unfolding take_round
  take_round-final round = take_line-final round.header round.arrived round.writable

  take_round-IsVerified :
      (round : Round) (r : Receiver)
      → IsConsistent zlib_crc32 m r
      → (take_round zlib_crc32 c m round r).next ≡ download true
      → IsVerified zlib_crc32 m (take_round zlib_crc32 c m round r).state
  unfolding take_round
  take_round-IsVerified round = take_line-IsVerified round.header round.arrived round.writable

  -- Whatever the link delivers: a loop that does not end in a verified download leaves the file
  -- that had the final name as it was.
  pub run-final :
      (rounds : List Round) (r : Receiver)
      → (run zlib_crc32 c m rounds r).next ≢ download true
      → (run zlib_crc32 c m rounds r).state.final ≡ r.final
  unfolding run
  run-final [] r h = refl
  run-final (round ∷ rounds) r h =
      ground (
        arith,
        take_round-final round r,
        run-final rounds (take_round zlib_crc32 c m round r).state,
      )

module _ (zlib_crc32 : Bytes → ℕ → ℕ) (law : IsRunning zlib_crc32) (c : Client) (m : Meta) where
  run-IsVerified :
      (rounds : List Round) (r : Receiver)
      → IsConsistent zlib_crc32 m r
      → (run zlib_crc32 c m rounds r).next ≡ download true
      → IsVerified zlib_crc32 m (run zlib_crc32 c m rounds r).state
  unfolding run
  run-IsVerified [] r h e = cc
  run-IsVerified (round ∷ rounds) r h e = ground (
    arith,
    take_round-IsConsistent zlib_crc32 law c m round r h,
    take_round-IsVerified zlib_crc32 c m round r h,
    run-IsVerified rounds (take_round zlib_crc32 c m round r).state,
  )

  -- Whatever the link delivers behind READY: a download that ends with `ok` has replaced the final
  -- file by the part file, which has the size and the CRC of META and all its blocks, and has
  -- removed the checkpoint.
  pub download-IsVerified :
      (final : Option Bytes) (sent : List String) (closing : Bool) (rounds : List Round)
      → (run zlib_crc32 c m rounds (start zlib_crc32 c m final sent closing)).next ≡ download true
      → IsVerified zlib_crc32 m
          (run zlib_crc32 c m rounds (start zlib_crc32 c m final sent closing)).state
  download-IsVerified final sent closing rounds =
      run-IsVerified rounds (start zlib_crc32 c m final sent closing)
        (start-IsConsistent zlib_crc32 law c m final sent closing)
