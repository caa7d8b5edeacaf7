-- ===== src/Compression/Decoder.antt =====
-- `decompress` of src/pcutp/compression.py. The closures `byte` and `length` read at the cursor
-- `pos`, which is here the unread input `data[pos:]`; they return the input behind what they read.
-- `byte() | (byte() << 8)` is a sum, since the first byte is below 256.
use pcutp.Base.{
  ℕ, zero, suc, ◌+◌, ◌-◌, ◌*◌, ◌/◌, ◌%◌, ◌≡◌, refl, [], ◌∷◌, ◌++◌, ◌||◌, Bytes, length, take, drop,
  ltb, leb, ◌==◌, if◌then◌else◌,
}
use pcutp.Base.Slices.{slice}
use pcutp.Errors.{Kind, Result, ok, ◌>>=◌, raise}

-- `byte()`
unfoldable pub byte : Bytes → Result (ℕ × Bytes)
byte [] = raise Kind.protocol
byte (value ∷ rest) = ok (value, rest)

-- the `while True` of `length`: a byte 255 says that one more follows
unfoldable pub length_more : ℕ → ℕ → Bytes → Result (ℕ × Bytes)
length_more size value [] = raise Kind.protocol
length_more size value (extra ∷ rest) =
    let more = length_more size (value + extra) rest in
    if ltb size (value + extra)
    then raise Kind.protocol
    else if extra == 255
    then more
    else ok (value + extra, rest)

-- `length(value)`
unfoldable pub read_length : ℕ → ℕ → Bytes → Result (ℕ × Bytes)
unfolding length_more
read_length size value rest = if value == 15 then length_more size value rest else ok (value, rest)

-- `while count:`, a chunk a round; each holds a byte, so `count` rounds are enough
unfoldable pub copy_match : ℕ → ℕ → ℕ → Bytes → Bytes
copy_match zero source count output = output
copy_match (suc fuel) source count output =
    let chunk = slice source count output in
    let more = copy_match fuel source (count - length chunk) (output ++ chunk) in
    if count == 0 then output else more

-- the match behind the literals of a sequence: the input behind it and the output
unfoldable pub read_match : ℕ → ℕ → Bytes → Bytes → Result (Bytes × Bytes)
unfolding byte read_length copy_match
read_match size token rest output = do
  (low, rest₁) ← byte rest
  (high, rest₂) ← byte rest₁
  let offset = low + high * 256
  (extra, rest₃) ← read_length size (token % 16) rest₂
  let count = extra + 4
  if ltb offset 1 || ltb (length output) offset || ltb size (length output + count)
      then raise Kind.protocol
      else ok (rest₃, copy_match count (length output - offset) count output)

-- `while pos < len(data):`, a sequence a round; each takes its token, so `len(data)` rounds are
-- enough, and no input is left when none is.
unfoldable pub sequences : ℕ → ℕ → Bytes → Bytes → Result Bytes
unfolding read_length read_match
sequences zero size rest output = raise Kind.protocol
sequences (suc fuel) size [] output = raise Kind.protocol
sequences (suc fuel) size (token ∷ rest) output = do
  (literals, rest₁) ← read_length size (token / 16) rest
  let output₁ = output ++ take literals rest₁
  let more = do
    (rest₂, output₂) ← read_match size token (drop literals rest₁) output₁
    sequences fuel size rest₂ output₂
  if ltb (length rest₁) literals || ltb size (length output + literals)
      then raise Kind.protocol
      else if length rest₁ == literals
      then (if length output₁ == size then ok output₁ else raise Kind.protocol)
      else more

unfoldable pub decompress : Bytes → ℕ → Result Bytes
unfolding sequences
decompress input size =
    if leb size 4096 then sequences (length input) size input [] else raise Kind.protocol

-- a match that overlaps its own copy
decompress_overlap :
    decompress (34 ∷ 1 ∷ 2 ∷ 2 ∷ 0 ∷ 16 ∷ 9 ∷ []) 9 ≡ ok (1 ∷ 2 ∷ 1 ∷ 2 ∷ 1 ∷ 2 ∷ 1 ∷ 2 ∷ 9 ∷ [])
unfolding decompress raise
decompress_overlap = refl
