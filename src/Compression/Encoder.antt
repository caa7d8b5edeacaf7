-- ===== src/Compression/Encoder.antt =====
-- `compress` of src/pcutp/compression.py. The dictionary `table` is the list of its writes, the
-- last one first. The shifted halves of a token are summed: the lower one is below 16.
use Prim.Native.Nat.{min}
use pcutp.Base.{
  ℕ, zero, suc, ◌+◌, ◌-◌, ◌*◌, ◌/◌, ◌%◌, Bool, true, false, ◌&&◌, Option, none, some, List, [], ◌∷◌,
  ◌++◌, Bytes, length, get_elem?, drop, ltb, leb, ◌==◌, if◌then◌else◌,
}
use pcutp.Base.Slices.{slice}

-- `data[i]`, for an index that is in range
unfoldable pub byte_at : Bytes → ℕ → ℕ
byte_at xs i = elim (get_elem? xs i) [ none ↦ 0 | some b ↦ b ]

unfoldable pub bytes_equal : Bytes → Bytes → Bool
bytes_equal [] [] = true
bytes_equal [] (y ∷ ys) = false
bytes_equal (x ∷ xs) [] = false
bytes_equal (x ∷ xs) (y ∷ ys) = x == y && bytes_equal xs ys

abbrev pub Table : Type 0
Table = List (Bytes × ℕ)

-- `table.get(key)`
unfoldable pub lookup : Bytes → Table → Option ℕ
unfolding bytes_equal
lookup key [] = none
lookup key ((k, v) ∷ table) = if bytes_equal k key then some v else lookup key table

-- `length(value)`: the bytes that it appends; `value` falls each round
unfoldable pub length_bytes : ℕ → ℕ → Bytes
length_bytes zero value = value ∷ []
length_bytes (suc fuel) value =
    let more = length_bytes fuel (value - 255) in if leb 255 value then 255 ∷ more else value ∷ []

-- `if value >= 15: length(value - 15)`
unfoldable pub extra_length : ℕ → Bytes
unfolding length_bytes
extra_length value = if leb 15 value then length_bytes value (value - 15) else []

-- the inner `while`: `count` grows as long as the bytes agree and five are left behind
unfoldable pub match_length : ℕ → Bytes → ℕ → ℕ → ℕ → ℕ
unfolding byte_at
match_length zero input previous pos count = count
match_length (suc fuel) input previous pos count =
    let more = match_length fuel input previous pos (count + 1) in
    if ltb (pos + count) (length input - 5)
      && byte_at input (previous + count) == byte_at input (pos + count)
    then more
    else count

-- the match to encode at `pos`: its source and its length
unfoldable pub find_match : Bytes → Table → ℕ → Option (ℕ × ℕ)
unfolding lookup match_length
find_match input table pos = elim (lookup (slice pos 4 input) table) [
  | none ↦ none
  | some previous ↦
      if ltb 65535 (pos - previous)
      then none
      else let count = match_length (length input) input previous pos 4 in
        if ltb count 12 then none else some (previous, count)
]

-- the bytes of one sequence: literals from `anchor`, then the match
unfoldable pub sequence : Bytes → ℕ → ℕ → ℕ → ℕ → Bytes
unfolding extra_length
sequence input anchor pos previous count =
    let literals = pos - anchor in
    (min literals 15 * 16 + min (count - 4) 15)
    ∷ (extra_length literals
        ++ (slice anchor literals input
            ++ ((pos - previous) % 256) ∷ ((pos - previous) / 256) ∷ extra_length (count - 4)))

-- the last literals
unfoldable pub last_sequence : Bytes → ℕ → Bytes
unfolding extra_length
last_sequence input anchor =
    let literals = length input - anchor in
    (min literals 15 * 16) ∷ (extra_length literals ++ drop anchor input)

-- the outer `while`; `pos` grows each round
unfoldable pub compress_from : ℕ → Bytes → Table → ℕ → ℕ → ℕ → Bytes → Bytes × ℕ
unfolding find_match sequence last_sequence
compress_from zero input table anchor pos matches output =
    (output ++ last_sequence input anchor, matches)
compress_from (suc fuel) input table anchor pos matches output =
    elim (leb (pos + 12) (length input)) [
      | false ↦ (output ++ last_sequence input anchor, matches)
      | true ↦ elim (find_match input table pos) [
        | none ↦
            compress_from fuel input ((slice pos 4 input, pos) ∷ table) anchor (pos + 1) matches
              output
        | some (previous, count) ↦
            compress_from fuel input ((slice pos 4 input, pos) ∷ table) (pos + count) (pos + count)
              (matches + 1) (output ++ sequence input anchor pos previous count)
      ]
    ]

unfoldable pub compress : Bytes → Bytes × ℕ
unfolding compress_from
compress input = compress_from (length input) input [] 0 0 0 []
