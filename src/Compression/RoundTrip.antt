-- ===== src/Compression/RoundTrip.antt =====
-- `decompress` undoes `compress`.
use pcutp.Base.{
  ℕ, zero, suc, ◌+◌, ◌-◌, ◌≤◌, ◌<◌, ◌≡◌, refl, ap, ◌∙◌, [], ◌∷◌, ◌++◌, arith, inl, inr, Bool-cases,
  Option-cases, append_assoc, Bytes, length, take, leb, leb→le, le→leb, length-append,
}
use pcutp.Base.Slices.{slice}
use pcutp.Errors.{ok}
use pcutp.Compression.Decoder.{sequences, decompress}
use pcutp.Compression.Encoder.{Table, find_match, sequence, last_sequence, compress_from, compress}
use pcutp.Compression.Search.{IsSound, IsSound-mono, IsMatch, find_match_sound}
use pcutp.Compression.Sequences.{sequences-sequence, sequences-last_sequence}

-- The decoder reads `out` in `count` rounds, and has then the first `anchor` bytes.
record Reads (xs out : Bytes) (anchor count : ℕ) : Type 0 where
  runs :
      (fuel : ℕ) (rest : Bytes)
      → sequences (fuel + count) (length xs) (out ++ rest) []
        ≡ sequences fuel (length xs) rest (take anchor xs)
  enough : count ≤ length out

Reads-nil : (xs : Bytes) → Reads xs [] 0 0
Reads-nil xs = record {
  runs = λ fuel rest. ap (λ f. sequences f (length xs) rest []) {x = fuel + 0} (omega arith);
  enough = omega arith;
}

module _ (xs out : Bytes) (anchor n : ℕ) (before : Reads xs out anchor n) where
  Reads-sequence :
      (pos previous count : ℕ)
      → anchor ≤ pos
      → IsMatch xs pos previous count
      → Reads xs (out ++ sequence xs anchor pos previous count) (pos + count) (n + 1)
  Reads-sequence pos previous count order m = record {
    runs = λ fuel rest.
        ap (λ f. sequences f (length xs) ((out ++ s) ++ rest) []) {y = suc fuel + n} (omega arith)
        ∙ ap (λ r. sequences (suc fuel + n) (length xs) r []) (append_assoc out s rest)
        ∙ before.runs (suc fuel) (s ++ rest)
        ∙ sequences-sequence (length xs) xs refl fuel anchor pos previous count rest order m.back
            m.near (omega arith) m.fits m.same;
    enough = unfold sequence in omega (arith, length-append out s, before.enough);
  }
    where
      s : Bytes
      s = sequence xs anchor pos previous count

  Reads-last_sequence :
      anchor ≤ length xs
      → let packed = out ++ last_sequence xs anchor in
        sequences (length packed) (length xs) packed [] ≡ ok xs
  Reads-last_sequence le =
      ap (λ f. sequences f (length xs) (out ++ last_sequence xs anchor) []) size
      ∙ before.runs (suc spare) (last_sequence xs anchor)
      ∙ sequences-last_sequence (length xs) xs refl spare anchor le
    where
      spare : ℕ
      spare = length (out ++ last_sequence xs anchor) - n - 1

      size : length (out ++ last_sequence xs anchor) ≡ suc spare + n
      size =
          unfold last_sequence in
          omega (arith, length-append out (last_sequence xs anchor), before.enough)

-- From any point of the encoder's loop that has been read so far, the whole block is read.
compress_from_lem :
    (fuel : ℕ) (xs : Bytes) (table : Table) (anchor pos n : ℕ) (out : Bytes)
    → anchor ≤ pos
    → anchor ≤ length xs
    → IsSound xs pos table
    → Reads xs out anchor n
    → let packed = (compress_from fuel xs table anchor pos n out).0 in
      sequences (length packed) (length xs) packed [] ≡ ok xs
unfolding compress_from
compress_from_lem zero xs table anchor pos n out order le sound before =
    Reads-last_sequence xs out anchor n before le
compress_from_lem (suc fuel) xs table anchor pos n out order le sound before =
    elim (Bool-cases (leb (pos + 12) (length xs))) [
      | inr end ↦ rw (end, compress_from) (Reads-last_sequence xs out anchor n before le)
      | inl room ↦ elim (Option-cases (find_match xs table pos)) [
        | inl no_match ↦
            rw (room, compress_from)
              (rw (no_match, compress_from)
                (compress_from_lem fuel xs _ anchor (pos + 1) n out (omega arith) le
                  (grown (pos + 1) (omega arith)) before))
        | inr ((previous, count), found) ↦
            rw (room, compress_from)
              (rw (found, compress_from)
                (let m : IsMatch xs pos previous count =
                    find_match_sound xs table pos previous count sound (leb→le _ _ room) found in
                  compress_from_lem fuel xs _ (pos + count) (pos + count) (n + 1)
                    (out ++ sequence xs anchor pos previous count) (omega arith) m.fits
                    (grown (pos + count) (omega (arith, m.long)))
                    (Reads-sequence xs out anchor n before pos previous count order m)))
      ]
    ]
  where
    grown : (pos' : ℕ) → pos < pos' → IsSound xs pos' ((slice pos 4 xs, pos) ∷ table)
    grown pos' lt = (refl, lt, IsSound-mono xs pos pos' table (omega arith) sound)

-- Whatever the bytes are, a block of at most 4096 of them that `compress` packs is unpacked by
-- `decompress` to the same block, with no error.
pub decompress-compress :
    (xs : Bytes) → length xs ≤ 4096 → decompress (compress xs).0 (length xs) ≡ ok xs
unfolding decompress compress
decompress-compress xs small =
    rw (le→leb (length xs) 4096 small)
      (compress_from_lem (length xs) xs [] 0 0 0 [] (omega arith) (omega arith) tt (Reads-nil xs))
