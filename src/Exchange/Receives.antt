-- ===== src/Exchange/Receives.antt =====
-- The loop of `_receive` in src/pcutp/client.py, where the blocks come in order.
use text.Mathlib.TextEquality.{eq_iff}
use pcutp.Base.{
  ℕ, zero, suc, ◌+◌, ◌-◌, ◌≤◌, ◌<◌, ◌≡◌, ◌≢◌, refl, true, Option, none, some, List, [], ◌∷◌, String,
  Bytes, length, arith, min,
}
use pcutp.Base.Slices.{take_all}
use pcutp.Base.Text.{unwords, str}
use pcutp.Errors.{ok}
use pcutp.Crc.{crc32_hex}
use pcutp.Compression.Decoder.{decompress}
use pcutp.Client.Header.{Client, Block}
use pcutp.Client.Receive.{
  Meta, Receiver, Round, recv_exact, store, accept, take_block, take_header, take_line, take_round,
  continue,
}
use pcutp.Client.Consistency.{IsConsistent}
use pcutp.Exchange.Frames.{frame_by, block_by, classify-frame_by}

abbrev pub round_of : String × Bytes → Round
round_of frame = record { header = some (frame.0); arrived = frame.1; writable = true }

unfoldable pub rounds_of : List (String × Bytes) → List Round
rounds_of [] = []
rounds_of (f ∷ fs) = round_of f ∷ rounds_of fs

-- the lines of `n` acknowledgements
unfoldable pub ack_lines : ℕ → ℕ → List String
ack_lines seq zero = []
ack_lines seq (suc n) = unwords ("ACK" ∷ str seq ∷ []) ∷ ack_lines (seq + 1) n

recv_exact-all :
    (n : ℕ) (arrived : Bytes) → length arrived ≡ n → recv_exact n arrived ≡ some arrived
unfolding recv_exact
recv_exact-all n arrived h = ground (arith, take_all n arrived)

-- a packed form that the receiver reads
abbrev pub IsPackedBy : ℕ → Bytes → Option Bytes → Type 0
IsPackedBy blocksize chunk none = Unit
IsPackedBy blocksize chunk (some packed) =
    (length packed ≤ blocksize) × (decompress packed (length chunk) ≡ ok chunk)

module _ (zlib_crc32 : Bytes → ℕ → ℕ) (c : Client) (m : Meta) where
  accept-next :
      (b : Block) (size : ℕ) (payload : Bytes) (r : Receiver)
      → IsConsistent zlib_crc32 m r
      → b.want ≡ crc32_hex zlib_crc32 payload 0
      → b.seq ≡ r.expected
      → size ≡ min m.blocksize (m.size - r.received)
      → accept zlib_crc32 c m b size payload true r ≡ continue (store zlib_crc32 c m b payload r)
  unfolding accept
  accept-next b size payload r h want next sized =
      ground (arith, h.counted, eq_iff (crc32_hex zlib_crc32 payload 0) b.want)

  take_block-next :
      (seq : ℕ) (chunk : Bytes) (packed : Option Bytes) (r : Receiver)
      → IsConsistent zlib_crc32 m r
      → r.expected ≡ seq
      → seq < m.blocks
      → length chunk ≡ min m.blocksize (m.size - r.received)
      → IsPackedBy m.blocksize chunk packed
      → take_block zlib_crc32 c m
          (block_by zlib_crc32 seq chunk packed)
          (frame_by zlib_crc32 seq chunk packed).1
          true
          r
        ≡ continue (store zlib_crc32 c m (block_by zlib_crc32 seq chunk packed) chunk r)
  unfolding take_block frame_by
  take_block-next seq chunk none r h next room sized p = ground (
    arith,
    recv_exact-all (length chunk) chunk refl,
    accept-next (block_by zlib_crc32 seq chunk none) (length chunk) chunk r h,
  )
  take_block-next seq chunk (some packed) r h next room sized p = ground (
    arith,
    recv_exact-all (length packed) packed refl,
    accept-next (block_by zlib_crc32 seq chunk (some packed)) (length chunk) chunk r h,
  )

  pub take_round-next :
      (seq : ℕ) (chunk : Bytes) (packed : Option Bytes) (r : Receiver)
      → IsConsistent zlib_crc32 m r
      → r.expected ≡ seq
      → seq < m.blocks
      → length chunk ≡ min m.blocksize (m.size - r.received)
      → IsPackedBy m.blocksize chunk packed
      → (packed ≢ none → c.compression ≡ true)
      → take_round zlib_crc32 c m (round_of (frame_by zlib_crc32 seq chunk packed)) r
        ≡ continue (store zlib_crc32 c m (block_by zlib_crc32 seq chunk packed) chunk r)
  unfolding take_round take_line take_header
  take_round-next seq chunk packed r h next room sized p on =
      rw (classify-frame_by zlib_crc32 c seq chunk packed on)
        (take_block-next seq chunk packed r h next room sized p)
