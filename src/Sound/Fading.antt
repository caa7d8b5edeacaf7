-- ===== src/Sound/Fading.antt =====
-- The crossfade of src/pcutp/sound.py stays between the two sounds, so each sample fits into its two
-- bytes.
use pcutp.Base.{
  ℕ, zero, suc, ◌+◌, ◌-◌, ◌*◌, ◌/◌, ◌%◌, ◌≤◌, ◌<◌, ◌≡◌, refl, ap, ◌⊎◌, inl, inr, some, List, [],
  ◌∷◌, ◌++◌, Bytes, drop, length, min, arith, length-append, length-drop,
}
use native.Mathlib.Nat.{mul-le-mul_right}
use pcutp.Base.Int.{ℤ, pos, negsuc, pos_part, neg_part, ◌≤ℤ◌}
use pcutp.Sound.Samples.{unpack, pack_sample, pack, shrink, weigh, mix, mixed, crossfade}

shrink_bounds :
    (z w : ℤ)
    → (110 * pos_part z + neg_part w ≤ pos_part w + 110 * neg_part z → z ≤ℤ shrink w)
      × (pos_part w + 110 * neg_part z ≤ 110 * pos_part z + neg_part w → shrink w ≤ℤ z)
unfolding shrink
shrink_bounds (pos m) (pos n) = ground arith
shrink_bounds (negsuc m) (pos n) = ground arith
shrink_bounds (pos m) (negsuc n) = ground arith
shrink_bounds (negsuc m) (negsuc n) = ground arith

-- the weighted sum, by its parts
weigh_parts :
    (i j : ℕ) (a b : ℤ)
    → i + j ≡ 110
    → pos_part (weigh i a b) + (neg_part a * j + neg_part b * i)
      ≡ neg_part (weigh i a b) + (pos_part a * j + pos_part b * i)
unfolding weigh
weigh_parts i j a b h = let e : j ≡ 110 - i = omega arith in rw e (ground arith)

-- a product of the order by a weight
scaled :
    (i : ℕ) (a b : ℤ) → a ≤ℤ b → pos_part a * i + neg_part b * i ≤ pos_part b * i + neg_part a * i
scaled i a b h = omega (arith, mul-le-mul_right i h)

-- the weights add up to 110
whole : (i j x : ℕ) → i + j ≡ 110 → x * i + x * j ≡ 110 * x
whole i j x h = omega (arith, ap (λ (t : ℕ). x * t) h)

-- Each sample of a crossfade lies between the old sample and the new one at its place, whichever is
-- the larger.
pub mix_between :
    (i : ℕ) (a b : ℤ)
    → i ≤ 110
    → (a ≤ℤ b → (a ≤ℤ mix i a b) × (mix i a b ≤ℤ b))
      × (b ≤ℤ a → (b ≤ℤ mix i a b) × (mix i a b ≤ℤ a))
unfolding mix
mix_between i a b le = (
  λ h. (
    (shrink_bounds a (weigh i a b)).0 (omega (arith, parts, scaled i a b h, whole_a)),
    (shrink_bounds b (weigh i a b)).1 (omega (arith, parts, scaled j a b h, whole_b)),
  ),
  λ h. (
    (shrink_bounds b (weigh i a b)).0 (omega (arith, parts, scaled j b a h, whole_b)),
    (shrink_bounds a (weigh i a b)).1 (omega (arith, parts, scaled i b a h, whole_a)),
  ),
)
  where
    j : ℕ
    j = 110 - i

    e : i + j ≡ 110
    e = omega arith

    parts :
        pos_part (weigh i a b) + (neg_part a * j + neg_part b * i)
        ≡ neg_part (weigh i a b) + (pos_part a * j + pos_part b * i)
    parts = weigh_parts i j a b e

    whole_a :
        (pos_part a * i + pos_part a * j ≡ 110 * pos_part a)
        × (neg_part a * i + neg_part a * j ≡ 110 * neg_part a)
    whole_a = (whole i j (pos_part a) e, whole i j (neg_part a) e)

    whole_b :
        (pos_part b * i + pos_part b * j ≡ 110 * pos_part b)
        × (neg_part b * i + neg_part b * j ≡ 110 * neg_part b)
    whole_b = (whole i j (pos_part b) e, whole i j (neg_part b) e)

-- a number of 16 bits with a sign
abbrev Fits : ℤ → Type 0
Fits z = (pos_part z ≤ 32767) × (neg_part z ≤ 32768)

Fits-between : (a b z : ℤ) → Fits a → Fits b → a ≤ℤ z → z ≤ℤ b → Fits z
Fits-between a b (pos n) ha hb h h' = ground arith
Fits-between a b (negsuc n) ha hb h h' = ground arith

order : (a b : ℤ) → (a ≤ℤ b) ⊎ (b ≤ℤ a)
order a b = omega arith

mix-Fits : (i : ℕ) (a b : ℤ) → i ≤ 110 → Fits a → Fits b → Fits (mix i a b)
mix-Fits i a b le ha hb = elim (order a b) [
  | inl h ↦
      let (low, high) = (mix_between i a b le).0 h in Fits-between a b (mix i a b) ha hb low high
  | inr h ↦
      let (low, high) = (mix_between i a b le).1 h in Fits-between b a (mix i a b) hb ha low high
]

abbrev AllFit : List ℤ → Type 0
AllFit [] = Unit
AllFit (z ∷ zs) = Fits z × AllFit zs

abbrev pub AreBytes : Bytes → Type 0
AreBytes [] = Unit
AreBytes (b ∷ bs) = (b < 256) × AreBytes bs

pack_sample-some :
    (z : ℤ)
    → Fits z
    → (low high : ℕ) × (pack_sample z ≡ some (low ∷ high ∷ [])) × (low < 256) × (high < 256)
unfolding pack_sample
pack_sample-some (pos n) h = (n % 256, n / 256, ground arith, omega arith, omega arith)
pack_sample-some (negsuc n) h =
    ((65535 - n) % 256, (65535 - n) / 256, ground arith, omega arith, omega arith)

pack-some :
    (zs : List ℤ)
    → AllFit zs
    → (bs : Bytes) × (pack zs ≡ some bs) × (length bs ≡ 2 * length zs) × AreBytes bs
unfolding pack
pack-some [] h = ([], refl, omega arith, tt)
pack-some (z ∷ zs) h =
    let (low, high, e, hl, hh) = pack_sample-some z h.0 in
    let (bs, e', n, hb) = pack-some zs h.1 in
    (low ∷ high ∷ bs, ground arith, omega arith, (hl, (hh, hb)))

unpack-Fits : (bs : Bytes) → AreBytes bs → AllFit (unpack bs)
unfolding unpack
unpack-Fits [] h = tt
unpack-Fits (low ∷ []) h = tt
unpack-Fits (low ∷ high ∷ bs) h = (ground arith, unpack-Fits bs h.1.1)

length-unpack : (n : ℕ) (bs : Bytes) → length bs ≡ 2 * n → length (unpack bs) ≡ n
unfolding unpack
length-unpack n [] h = omega arith
length-unpack n (low ∷ []) h = absurd (omega arith)
length-unpack zero (low ∷ high ∷ bs) h = absurd (omega arith)
length-unpack (suc n) (low ∷ high ∷ bs) h = omega (arith, length-unpack n bs (omega arith))

mixed-Fits :
    (i : ℕ) (old new : List ℤ)
    → i + length old ≤ 110
    → AllFit old
    → AllFit new
    → AllFit (mixed i old new)
unfolding mixed
mixed-Fits i [] new le ho hn = tt
mixed-Fits i (a ∷ old) [] le ho hn = tt
mixed-Fits i (a ∷ old) (b ∷ new) le ho hn =
    (mix-Fits i a b (omega arith) ho.0 hn.0, mixed-Fits (i + 1) old new (omega arith) ho.1 hn.1)

length-mixed : (i : ℕ) (old new : List ℤ) → length (mixed i old new) ≡ min (length old) (length new)
unfolding mixed
length-mixed i [] new = omega arith
length-mixed i (a ∷ old) [] = omega arith
length-mixed i (a ∷ old) (b ∷ new) = omega (arith, length-mixed (i + 1) old new)

AllFit-append : (xs ys : List ℤ) → AllFit xs → AllFit ys → AllFit (xs ++ ys)
AllFit-append [] ys hx hy = hy
AllFit-append (x ∷ xs) ys hx hy = (hx.0, AllFit-append xs ys hx.1 hy)

AllFit-drop : (n : ℕ) (xs : List ℤ) → AllFit xs → AllFit (drop n xs)
AllFit-drop zero xs h = h
AllFit-drop (suc n) [] h = tt
AllFit-drop (suc n) (x ∷ xs) h = AllFit-drop n xs h.1

-- A crossfade of 110 samples into a chunk is a chunk: struct.pack does not refuse it.
pub crossfade-some :
    (fading chunk : Bytes)
    → length fading ≡ 220
    → length chunk ≡ 440
    → AreBytes fading
    → AreBytes chunk
    → (bs : Bytes) × (crossfade fading chunk ≡ some bs) × (length bs ≡ 440) × AreBytes bs
unfolding crossfade
crossfade-some fading chunk hf hc bf bc =
    let (bs, e, n, b) = pack-some (mixed 0 old new ++ drop 110 new) (
      AllFit-append (mixed 0 old new) (drop 110 new)
        (mixed-Fits 0 old new (omega (arith, count_old)) (unpack-Fits fading bf)
          (unpack-Fits chunk bc))
        (AllFit-drop 110 new (unpack-Fits chunk bc))) in
    (
      bs,
      e,
      omega (
        arith,
        length-append (mixed 0 old new) (drop 110 new),
        length-mixed 0 old new,
        length-drop 110 new,
        count_old,
        count_new,
      ),
      b,
    )
  where
    old : List ℤ
    old = unpack fading

    new : List ℤ
    new = unpack chunk

    count_old : length old ≡ 110
    count_old = length-unpack 110 fading hf

    count_new : length new ≡ 220
    count_new = length-unpack 220 chunk hc
