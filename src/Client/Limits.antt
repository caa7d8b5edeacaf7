-- ===== src/Client/Limits.antt =====
-- How far the receiver's loop lets a sender lose blocks: its two counters in src/pcutp/client.py.
use pcutp.Base.{
  ℕ, ◌≤◌, ◌<◌, ◌≡◌, ◌⊎◌, inl, inr, Bool, Option, none, some, arith, Bytes, Option-cases, String,
}
use pcutp.Errors.{Kind, make, Result-cases}
use pcutp.Crc.{IsRunning}
use pcutp.Compression.Decoder.{decompress}
use pcutp.Client.Header.{Client, Block, Header, classify}
use pcutp.Client.Receive.{
  Meta, Receiver, Round, Turn, raised, recv_exact, store, gap, accept, take_block, take_header,
  take_line, take_round,
}
use pcutp.Client.Consistency.{IsConsistent, take_round-IsConsistent}

-- fewer than three drops, and at most two resets
pub record InLimits (r : Receiver) : Type 0 where
  pub drops : r.drops < 3
  pub resets : r.resets ≤ 2

-- a third drop with a third reset, which is a protocol error
pub record IsOver (t : Turn) : Type 0 where
  pub drops : t.state.drops ≡ 3
  pub resets : t.state.resets ≡ 3
  pub raises : t.next ≡ raised (make Kind.protocol)

abbrev Limited : Turn → Type 0
Limited t = InLimits t.state ⊎ IsOver t

module _ (zlib_crc32 : Bytes → ℕ → ℕ) (c : Client) (m : Meta) where
  gap-Limited : (b : Block) (r : Receiver) → InLimits r → Limited (gap zlib_crc32 c m b r)
  unfolding gap
  gap-Limited b r h = ground arith

  accept-Limited :
      (b : Block) (size : ℕ) (payload : Bytes) (writable : Bool) (r : Receiver)
      → InLimits r
      → Limited (accept zlib_crc32 c m b size payload writable r)
  unfolding accept store
  accept-Limited b size payload writable r h = ground (arith, gap-Limited b r h)

  take_block-Limited :
      (b : Block) (arrived : Bytes) (writable : Bool) (r : Receiver)
      → InLimits r
      → Limited (take_block zlib_crc32 c m b arrived writable r)
  unfolding take_block
  take_block-Limited b arrived writable r h = elim (Option-cases (recv_exact b.length arrived)) [
    | inl missing ↦ ground arith
    | inr (payload, got) ↦ elim (Result-cases (decompress payload b.raw_length)) [
      | inl (e, failed) ↦ ground (arith, accept-Limited b b.length payload writable r h)
      | inr (raw, unpacked) ↦ ground (
        arith,
        accept-Limited b b.length payload writable r h,
        accept-Limited b b.raw_length raw writable r h,
      )
    ]
  ]

  take_header-Limited :
      (x : Header) (arrived : Bytes) (writable : Bool) (r : Receiver)
      → InLimits r
      → Limited (take_header zlib_crc32 c m x arrived writable r)
  unfolding take_header
  take_header-Limited (Header.block b) arrived writable r h =
      take_block-Limited b arrived writable r h
  take_header-Limited _ arrived writable r h = ground arith

  take_line-Limited :
      (line : Option String) (arrived : Bytes) (writable : Bool) (r : Receiver)
      → InLimits r
      → Limited (take_line zlib_crc32 c m line arrived writable r)
  unfolding take_line
  take_line-Limited none arrived writable r h = inl h
  take_line-Limited (some x) arrived writable r h =
      take_header-Limited (classify c x) arrived writable r h

  -- Whatever the link delivers in a round, the counters go on describing the part file, and there
  -- stay fewer than three drops and at most two resets, unless the round is a third drop with a
  -- third reset, which raises ProtocolError.
  pub take_round-InLimits :
      IsRunning zlib_crc32
      → (round : Round) (r : Receiver) → IsConsistent zlib_crc32 m r
      → InLimits r
      → IsConsistent zlib_crc32 m (take_round zlib_crc32 c m round r).state
        × (InLimits (take_round zlib_crc32 c m round r).state
            ⊎ IsOver (take_round zlib_crc32 c m round r))
  unfolding take_round
  take_round-InLimits law round r k h = (
    take_round-IsConsistent zlib_crc32 law c m round r k,
    take_line-Limited round.header round.arrived round.writable r h,
  )
