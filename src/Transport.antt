-- ===== src/Transport.antt =====
-- src/pcutp/transport.py: how much a serial port is asked for, and the end of a pipe with its noise.
-- The queue of a pipe is what has been written and not yet read; the time is left out.
pub mod Noise
use pcutp.Base.{
  ℕ, zero, suc, ◌+◌, ◌-◌, Bool, true, false, ◌&&◌, List, [], ◌∷◌, ◌++◌, Bytes, take, drop, length,
  min, ltb, ◌==◌, if◌then◌else◌,
}

-- the size that `SerialTransport.read` asks for, with `waiting` bytes in the port's buffer
unfoldable pub serial_size : ℕ → ℕ → ℕ
serial_size waiting size = if ltb 0 waiting then min waiting size else 1

-- the attributes of `_PipeEnd` that `write` changes
pub record PipeEnd : Type 0 where
  pub corrupt_after_next_line : ℕ
  pub armed : Bool
  pub tx : Bytes

-- `byte ^= 0xFF`
unfoldable pub inverted : ℕ → ℕ
inverted byte = 255 - byte

unfoldable pub put : ℕ → PipeEnd → PipeEnd
put byte p = record p { tx = p.tx ++ byte ∷ [] }

-- a round of the loop of `write`
unfoldable pub write_byte : ℕ → PipeEnd → PipeEnd
unfolding put inverted
write_byte byte p =
    if p.armed && ltb 0 p.corrupt_after_next_line
    then put (inverted byte) (record p { corrupt_after_next_line = p.corrupt_after_next_line - 1 })
    else if byte == 10 && ltb 0 p.corrupt_after_next_line
    then put byte (record p { armed = true })
    else put byte p

unfoldable pub write : Bytes → PipeEnd → PipeEnd
unfolding write_byte
write [] p = p
write (byte ∷ bytes) p = write bytes (write_byte byte p)

-- `_PipeEnd.read`: what is read of the queue, and what is left
unfoldable pub read : ℕ → Bytes → Bytes × Bytes
read size rx = (take size rx, drop size rx)
