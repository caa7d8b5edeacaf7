-- ===== src/Client/Consistency.antt =====
-- The invariant of the receiver's loop: its counters describe the part file.
use Prim.Native.Nat.{min}
use pcutp.Base.{
  ℕ, ◌+◌, ◌-◌, ◌*◌, ◌≤◌, ◌<◌, ◌≡◌, Bool, Option, none, some, List, [], ◌∷◌, arith, inl, inr, String,
  Bytes, length, length-append, length-take, Option-cases,
}
use pcutp.Errors.{Result-cases}
use pcutp.Crc.{IsRunning, crc32, crc32-nil, crc32-append}
use pcutp.Compression.Decoder.{decompress}
use pcutp.Compression.Size.{decompress_size}
use pcutp.Client.Header.{Client, Block, Header, classify}
use pcutp.Client.Receive.{
  Meta, Receiver, Round, recv_exact, store, gap, accept, take_block, take_header, take_line,
  take_round, run, start,
}

module _ (zlib_crc32 : Bytes → ℕ → ℕ) (m : Meta) where
  -- The counters describe the part file, which holds the blocks before `expected`.
  pub record IsConsistent (r : Receiver) : Type 0 where
    pub sized : length r.handle ≡ r.received
    pub summed : r.running ≡ crc32 zlib_crc32 r.handle 0
    pub counted : r.received ≡ min (r.expected * m.blocksize) m.size
    pub in_meta : r.expected ≤ m.blocks

module _ (zlib_crc32 : Bytes → ℕ → ℕ) (law : IsRunning zlib_crc32) (c : Client) (m : Meta) where
  next_count :
      (e s size received n : ℕ)
      → received ≡ min (e * s) size
      → n ≡ min s (size - received)
      → received + n ≡ min ((e + 1) * s) size
  next_count e s size received n h k = grind arith

  IsConsistent-store :
      (b : Block) (payload : Bytes) (r : Receiver)
      → IsConsistent zlib_crc32 m r
      → r.expected < m.blocks
      → length payload ≡ min m.blocksize (m.size - r.received)
      → IsConsistent zlib_crc32 m (store zlib_crc32 c m b payload r)
  unfolding store
  IsConsistent-store b payload r h room size = ground (
    arith,
    length-append r.handle payload,
    crc32-append zlib_crc32 law r.handle payload,
    next_count r.expected m.blocksize m.size r.received (length payload) h.counted size,
  )

  IsConsistent-gap :
      (b : Block) (r : Receiver)
      → IsConsistent zlib_crc32 m r
      → IsConsistent zlib_crc32 m (gap zlib_crc32 c m b r).state
  unfolding gap
  IsConsistent-gap b r h = ground (arith, crc32-nil zlib_crc32 law)

  IsConsistent-accept :
      (b : Block) (size : ℕ) (payload : Bytes) (writable : Bool) (r : Receiver)
      → IsConsistent zlib_crc32 m r
      → b.seq < m.blocks
      → length payload ≡ size
      → IsConsistent zlib_crc32 m (accept zlib_crc32 c m b size payload writable r).state
  unfolding accept
  IsConsistent-accept b size payload writable r h room fits =
      ground (arith, IsConsistent-gap b r h, IsConsistent-store b payload r h)

  length-recv_exact :
      (n : ℕ) (arrived payload : Bytes) → recv_exact n arrived ≡ some payload → length payload ≡ n
  unfolding recv_exact
  length-recv_exact n arrived payload h = ground (arith, length-take n arrived)

  IsConsistent-take_block :
      (b : Block) (arrived : Bytes) (writable : Bool) (r : Receiver)
      → IsConsistent zlib_crc32 m r
      → IsConsistent zlib_crc32 m (take_block zlib_crc32 c m b arrived writable r).state
  unfolding take_block
  IsConsistent-take_block b arrived writable r h =
      elim (Option-cases (recv_exact b.length arrived)) [
        | inl missing ↦ ground arith
        | inr (payload, got) ↦ elim (Result-cases (decompress payload b.raw_length)) [
          | inl (e, failed) ↦ ground (
            arith,
            length-recv_exact b.length arrived payload got,
            IsConsistent-accept b b.length payload writable r h,
          )
          | inr (raw, unpacked) ↦ ground (
            arith,
            length-recv_exact b.length arrived payload got,
            decompress_size payload b.raw_length raw unpacked,
            IsConsistent-accept b b.length payload writable r h,
            IsConsistent-accept b b.raw_length raw writable r h,
          )
        ]
      ]

  IsConsistent-take_header :
      (x : Header) (arrived : Bytes) (writable : Bool) (r : Receiver)
      → IsConsistent zlib_crc32 m r
      → IsConsistent zlib_crc32 m (take_header zlib_crc32 c m x arrived writable r).state
  unfolding take_header
  IsConsistent-take_header (Header.block b) arrived writable r h =
      IsConsistent-take_block b arrived writable r h
  IsConsistent-take_header _ arrived writable r h = ground (arith, crc32-nil zlib_crc32 law)

  IsConsistent-take_line :
      (line : Option String) (arrived : Bytes) (writable : Bool) (r : Receiver)
      → IsConsistent zlib_crc32 m r
      → IsConsistent zlib_crc32 m (take_line zlib_crc32 c m line arrived writable r).state
  unfolding take_line
  IsConsistent-take_line none arrived writable r h = h
  IsConsistent-take_line (some x) arrived writable r h =
      IsConsistent-take_header (classify c x) arrived writable r h

  -- Whatever the link delivers in a round, the counters go on describing the part file.
  pub take_round-IsConsistent :
      (round : Round) (r : Receiver)
      → IsConsistent zlib_crc32 m r
      → IsConsistent zlib_crc32 m (take_round zlib_crc32 c m round r).state
  unfolding take_round
  take_round-IsConsistent round = IsConsistent-take_line round.header round.arrived round.writable

  pub run-IsConsistent :
      (rounds : List Round) (r : Receiver)
      → IsConsistent zlib_crc32 m r
      → IsConsistent zlib_crc32 m (run zlib_crc32 c m rounds r).state
  unfolding run
  run-IsConsistent [] r h = h
  run-IsConsistent (round ∷ rounds) r h = ground (
    arith,
    take_round-IsConsistent round r h,
    run-IsConsistent rounds (take_round zlib_crc32 c m round r).state,
  )

  pub start-IsConsistent :
      (final : Option Bytes) (sent : List String) (closing : Bool)
      → IsConsistent zlib_crc32 m (start zlib_crc32 c m final sent closing)
  unfolding start
  start-IsConsistent final sent closing = ground (arith, crc32-nil zlib_crc32 law)
