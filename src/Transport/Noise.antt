-- ===== src/Transport/Noise.antt =====
-- What the noise of a pipe in src/pcutp/transport.py does to the bytes that are written.
use pcutp.Base.{
  ℕ, ◌+◌, ◌≤◌, ◌≡◌, refl, ◌&&◌, [], ◌∷◌, ◌++◌, arith, append_assoc, append-nil, sym, ap, ◌∙◌, Bytes,
  length, ltb, ◌==◌, if◌then◌else◌,
}
use pcutp.Transport.{PipeEnd, inverted, put, write_byte, write}

-- in how many places two sequences of the same length differ
unfoldable pub changes : Bytes → Bytes → ℕ
changes [] ys = 0
changes (x ∷ xs) [] = 0
changes (x ∷ xs) (y ∷ ys) = (if x == y then 0 else 1) + changes xs ys

abbrev pub AreBytes : Bytes → Type 0
AreBytes [] = Unit
AreBytes (x ∷ xs) = (x ≤ 255) × AreBytes xs

-- From `p` to `q`, the bytes `out` have gone into the queue for `input`: as many, and changed in as
-- many places as the noise has been used up.
abbrev pub IsWritten : Bytes → PipeEnd → PipeEnd → Bytes → Type 0
IsWritten input p q out =
    (q.tx ≡ p.tx ++ out)
    × (length out ≡ length input)
    × (changes input out + q.corrupt_after_next_line ≡ p.corrupt_after_next_line)

-- what stands in the queue for a byte
abbrev put_for : ℕ → PipeEnd → ℕ
put_for byte p = if p.armed && ltb 0 p.corrupt_after_next_line then inverted byte else byte

write_byte_lem :
    (byte : ℕ) (p : PipeEnd)
    → byte ≤ 255
    → ((write_byte byte p).tx ≡ p.tx ++ put_for byte p ∷ [])
      × ((if byte == put_for byte p then 0 else 1) + (write_byte byte p).corrupt_after_next_line
          ≡ p.corrupt_after_next_line)
unfolding write_byte put inverted
write_byte_lem byte p le = ground arith

-- Whatever bytes are written, and whatever the state of the noise is: as many bytes go into the
-- queue, and exactly as many of them are changed as the count of bytes to corrupt goes down by.
pub write-IsWritten :
    (input : Bytes) (p : PipeEnd)
    → AreBytes input
    → (out : Bytes) × IsWritten input p (write input p) out
unfolding write changes
write-IsWritten [] p h = ([], (sym (append-nil p.tx), refl, omega arith))
write-IsWritten (byte ∷ bytes) p (le, h) =
    let first = write_byte_lem byte p le in
    let rest = write-IsWritten bytes (write_byte byte p) h in
    (
      put_for byte p ∷ rest.0,
      (
        rest.1.0 ∙ ap (λ l. l ++ rest.0) first.0 ∙ append_assoc p.tx (put_for byte p ∷ []) rest.0,
        omega (arith, rest.1.1),
        omega (arith, rest.1.2, first.1),
      ),
    )
