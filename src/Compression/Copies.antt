-- ===== src/Compression/Copies.antt =====
-- The chunked copy of a match, overlapping or not, extends a prefix by what repeats in it.
use pcutp.Base.{
  ℕ, zero, suc, ◌+◌, ◌-◌, ◌≤◌, ◌<◌, ◌≡◌, sym, ap, ◌∙◌, ◌++◌, arith, Bytes, inl, inr, Bool-cases,
  leb, length, take, drop, length-take, length-drop, min, ◌≡⟨◌⟩◌, ◌∎, ◌==◌,
}
use pcutp.Base.Slices.{slice, drop-drop, take-add, take-take, drop-take, take-min}
use pcutp.Compression.Decoder.{copy_match}

-- A part of two equal slices.
slice_part :
    (a b n m : ℕ) (xs : Bytes) → n ≤ m → slice a m xs ≡ slice b m xs → slice a n xs ≡ slice b n xs
slice_part a b n m xs le h =
    sym (take-take n m (drop a xs) le) ∙ ap (take n) h ∙ take-take n m (drop b xs) le

-- A repetition of period `k` from `s` to `p`, read on behind its first period.
repeats_on :
    (s p k n : ℕ) (xs : Bytes)
    → s + k ≡ p
    → slice p (k + n) xs ≡ slice s (k + n) xs
    → slice (p + k) n xs ≡ slice s n xs
repeats_on s p k n xs e h =
    let le : n ≤ k + n = omega arith in
    slice (p + k) n xs
    ≡⟨ ap (take n) (sym (drop-drop p k xs)) ⟩ take n (drop k (drop p xs))
    ≡⟨ sym (drop-take k n (drop p xs)) ⟩ drop k (slice p (k + n) xs)
    ≡⟨ ap (drop k) h ⟩ drop k (slice s (k + n) xs)
    ≡⟨ drop-take k n (drop s xs) ⟩ take n (drop k (drop s xs))
    ≡⟨ ap (take n) (drop-drop s k xs) ⟩ slice (s + k) n xs
    ≡⟨ ap (λ q. slice q n xs) e ⟩ slice p n xs
    ≡⟨ slice_part p s n (k + n) xs le h ⟩ slice s n xs ∎

-- What a round takes from the output: no more than the output holds.
chunk_lem :
    (s p count : ℕ) (xs : Bytes)
    → s < p
    → slice s count (take p xs) ≡ slice s (min count (p - s)) xs
chunk_lem s p count xs h =
    let e : p ≡ s + (p - s) = omega arith in
    ap (λ q. slice s count (take q xs)) e
    ∙ ap (take count) (drop-take s (p - s) xs)
    ∙ take-min count (p - s) (drop s xs)

-- What a round appends extends the prefix.
round_lem :
    (s p n : ℕ) (xs : Bytes)
    → slice p n xs ≡ slice s n xs
    → take p xs ++ slice s n xs ≡ take (p + n) xs
round_lem s p n xs h = ap (λ c. take p xs ++ c) (sym h) ∙ sym (take-add p n xs)

-- What is left to copy repeats too.
rest_repeats :
    (s p count : ℕ) (xs : Bytes)
    → s < p
    → slice p count xs ≡ slice s count xs
    → let n = min count (p - s) in slice (p + n) (count - n) xs ≡ slice s (count - n) xs
rest_repeats s p count xs lt h = elim (Bool-cases (leb count (p - s))) [
  | inl all ↦ let e : count - min count (p - s) ≡ 0 = ground arith in rw e
  | inr more ↦
      let e : min count (p - s) ≡ p - s = ground arith in
      let c : p - s + (count - (p - s)) ≡ count = ground arith in
      rw e (
        repeats_on s p (p - s) (count - (p - s)) xs (omega arith)
          (ap (λ k. slice p k xs) c ∙ h ∙ ap (λ k. slice s k xs) (sym c)))
]

length-chunk :
    (s p count : ℕ) (xs : Bytes)
    → s < p
    → p ≤ length xs
    → length (slice s count (take p xs)) ≡ min count (p - s)
length-chunk s p count xs lt fits =
    omega
      (arith, length-take count (drop s (take p xs)), length-drop s (take p xs), length-take p xs)

-- The copy from `s` behind the prefix of length `p` is the longer prefix, if `xs` repeats there.
pub copy_match-take :
    (fuel s p count : ℕ) (xs : Bytes)
    → s < p
    → count ≤ fuel
    → p + count ≤ length xs
    → slice p count xs ≡ slice s count xs
    → copy_match fuel s count (take p xs) ≡ take (p + count) xs
unfolding copy_match
copy_match-take zero s p count xs lt enough fits h =
    ap (λ n. take n xs) {x = p} {y = p + count} (omega arith)
copy_match-take (suc fuel) s p count xs lt enough fits h = elim (Bool-cases (count == 0)) [
  | inl done ↦ rw done (ap (λ n. take n xs) {x = p} {y = p + count} (ground arith))
  | inr more ↦
      rw (more, length-chunk s p count xs lt (omega arith), chunk_lem s p count xs lt)
        (rw
          (round_lem s p (min count (p - s)) xs
            (slice_part p s (min count (p - s)) count xs (omega arith) h))
          (copy_match-take fuel s (p + min count (p - s)) (count - min count (p - s)) xs
              (omega arith) (ground arith) (omega arith) (rest_repeats s p count xs lt h)
            ∙ ap (λ n. take n xs) (omega arith)))
]
