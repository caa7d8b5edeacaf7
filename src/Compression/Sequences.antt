-- ===== src/Compression/Sequences.antt =====
-- One sequence of the encoder, read by one round of the decoder.
use Prim.Native.Nat.{min}
use pcutp.Base.{
  ℕ, suc, ◌+◌, ◌-◌, ◌*◌, ◌/◌, ◌%◌, ◌≤◌, ◌<◌, ◌≡◌, sym, ap, ◌∙◌, ◌∷◌, ◌++◌, arith, append_assoc,
  Bytes, length, take, drop, length-append, length-take, length-drop, take-append-drop,
}
use pcutp.Base.Slices.{slice, take-add, take-append_left, drop-append_left, take_all}
use pcutp.Errors.{ok}
use pcutp.Compression.Decoder.{byte, read_match, sequences}
use pcutp.Compression.Encoder.{extra_length, sequence, last_sequence}
use pcutp.Compression.Lengths.{read_length-extra_length}
use pcutp.Compression.Copies.{copy_match-take}

sequence-append :
    (xs rest : Bytes) (anchor pos previous count : ℕ)
    → sequence xs anchor pos previous count ++ rest
      ≡ (min (pos - anchor) 15 * 16 + min (count - 4) 15)
        ∷ (extra_length (pos - anchor)
            ++ (slice anchor (pos - anchor) xs
                ++ ((pos - previous) % 256)
                  ∷ ((pos - previous) / 256)
                  ∷ (extra_length (count - 4) ++ rest)))
unfolding sequence
sequence-append xs rest anchor pos previous count = simp append_assoc

module _ (size : ℕ) (xs : Bytes) (within : size ≡ length xs) where
  -- The match of a sequence: its offset and its length are read back, and the copy repeats.
  read_match_lem :
      (pos previous count high : ℕ) (rest : Bytes)
      → previous < pos
      → pos - previous ≤ 65535
      → 4 ≤ count
      → pos + count ≤ length xs
      → slice pos count xs ≡ slice previous count xs
      → read_match size
          (high * 16 + min (count - 4) 15)
          (((pos - previous) % 256) ∷ ((pos - previous) / 256) ∷ (extra_length (count - 4) ++ rest))
          (take pos xs)
        ≡ ok (rest, take (pos + count) xs)
  unfolding read_match byte
  read_match_lem pos previous count high rest back near long fits same =
      let e : (high * 16 + min (count - 4) 15) % 16 ≡ min (count - 4) 15 = omega arith in
      let o : (pos - previous) % 256 + (pos - previous) / 256 * 256 ≡ pos - previous =
        omega arith in
      let l : length (take pos xs) ≡ pos = omega (arith, length-take pos xs) in
      let s : pos - (pos - previous) ≡ previous = omega arith in
      let c : count - 4 + 4 ≡ count = omega arith in
      rw (e, read_length-extra_length (count - 4) size rest (omega arith), o, l, s, c)
        (rw (copy_match-take count previous pos count xs back (omega arith) fits same)
          (ground arith))

  -- A round of the decoder reads one sequence of the encoder.
  pub sequences-sequence :
      (fuel anchor pos previous count : ℕ) (rest : Bytes)
      → anchor ≤ pos
      → previous < pos
      → pos - previous ≤ 65535
      → 4 ≤ count
      → pos + count ≤ length xs
      → slice pos count xs ≡ slice previous count xs
      → sequences (suc fuel) size (sequence xs anchor pos previous count ++ rest) (take anchor xs)
        ≡ sequences fuel size rest (take (pos + count) xs)
  unfolding sequences
  sequences-sequence fuel anchor pos previous count rest order back near long fits same =
      rw (sequence-append xs rest anchor pos previous count) (
        rw (e, read_length-extra_length (pos - anchor) size _ (omega arith))
          (rw (take-append_left n lits behind l, drop-append_left n lits behind l, round_lem)
            (rw (read_match_lem pos previous count (min n 15) rest back near long fits same)
              (rw (total, prefix) (ground arith)))))
    where
      n : ℕ
      n = pos - anchor

      lits : Bytes
      lits = slice anchor (pos - anchor) xs

      behind : Bytes
      behind =
          ((pos - previous) % 256) ∷ ((pos - previous) / 256) ∷ (extra_length (count - 4) ++ rest)

      e : (min (pos - anchor) 15 * 16 + min (count - 4) 15) / 16 ≡ min (pos - anchor) 15
      e = omega arith

      l : length lits ≡ n
      l = omega (arith, length-take n (drop anchor xs), length-drop anchor xs)

      total : length (lits ++ behind) ≡ n + length behind
      total = length-append lits behind ∙ ap (λ k. k + length behind) l

      prefix : length (take anchor xs) ≡ anchor
      prefix = omega (arith, length-take anchor xs)

      round_lem : take anchor xs ++ slice anchor (pos - anchor) xs ≡ take pos xs
      round_lem =
          sym (take-add anchor (pos - anchor) xs) ∙ ap (λ k. take k xs) {y = pos} (omega arith)

  -- The last sequence ends the block.
  pub sequences-last_sequence :
      (fuel anchor : ℕ)
      → anchor ≤ length xs
      → sequences (suc fuel) size (last_sequence xs anchor) (take anchor xs) ≡ ok xs
  unfolding sequences last_sequence
  sequences-last_sequence fuel anchor le =
      rw (e, read_length-extra_length n size (drop anchor xs) (omega arith))
        (rw
          (
            rest,
            prefix,
            take_all n (drop anchor xs) (omega (arith, rest)),
            take-append-drop anchor xs,
          )
          (ground arith))
    where
      n : ℕ
      n = length xs - anchor

      e : (min (length xs - anchor) 15 * 16) / 16 ≡ min (length xs - anchor) 15
      e = omega arith

      rest : length (drop anchor xs) ≡ n
      rest = length-drop anchor xs

      prefix : length (take anchor xs) ≡ anchor
      prefix = omega (arith, length-take anchor xs)
