-- ===== src/Sound/Samples.antt =====
-- The samples of `_render` in src/pcutp/sound.py: `struct.unpack` and `struct.pack` of 16-bit
-- integers, low byte first, and the crossfade of two sequences of samples.
use pcutp.Base.{
  ℕ, suc, ◌+◌, ◌-◌, ◌*◌, ◌/◌, ◌%◌, Option, none, some, List, [], ◌∷◌, ◌++◌, Bytes, drop, ltb,
  if◌then◌else◌,
}
use pcutp.Base.Int.{ℤ, pos, negsuc, pos_part, neg_part, sub_ℕ}

abbrev pub chunk_frames : ℕ
chunk_frames = 220

abbrev pub fade_frames : ℕ
fade_frames = 110

unfoldable pub unpack_sample : ℕ → ℕ → ℤ
unpack_sample low high =
    let n = low + 256 * high in if ltb n 32768 then pos n else negsuc (65535 - n)

-- `struct.unpack`, on an even number of bytes
unfoldable pub unpack : Bytes → List ℤ
unfolding unpack_sample
unpack [] = []
unpack (low ∷ []) = []
unpack (low ∷ high ∷ bytes) = unpack_sample low high ∷ unpack bytes

-- `none` for struct.error, where the number does not fit
unfoldable pub pack_sample : ℤ → Option Bytes
pack_sample (pos n) = if ltb n 32768 then some (n % 256 ∷ n / 256 ∷ []) else none
pack_sample (negsuc n) =
    if ltb n 32768 then some ((65535 - n) % 256 ∷ (65535 - n) / 256 ∷ []) else none

unfoldable pub pack : List ℤ → Option Bytes
unfolding pack_sample
pack [] = some []
pack (z ∷ zs) = elim (pack_sample z) [
  | none ↦ none
  | some b ↦ elim (pack zs) [ none ↦ none | some bs ↦ some (b ++ bs) ]
]

-- `int(x / FADE_FRAMES)`, which rounds towards zero
unfoldable pub shrink : ℤ → ℤ
shrink (pos n) = pos (n / fade_frames)
shrink (negsuc n) = sub_ℕ 0 (suc n / fade_frames)

-- `a * (FADE_FRAMES - i) + b * i`
unfoldable pub weigh : ℕ → ℤ → ℤ → ℤ
weigh i a b =
    sub_ℕ (pos_part a * (fade_frames - i) + pos_part b * i)
      (neg_part a * (fade_frames - i) + neg_part b * i)

unfoldable pub mix : ℕ → ℤ → ℤ → ℤ
unfolding shrink weigh
mix i a b = shrink (weigh i a b)

-- `mixed`, from the index `i` on; `old` is the shorter one
unfoldable pub mixed : ℕ → List ℤ → List ℤ → List ℤ
unfolding mix
mixed i [] new = []
mixed i (a ∷ old) [] = []
mixed i (a ∷ old) (b ∷ new) = mix i a b ∷ mixed (i + 1) old new

-- the chunk that is written where an effect gives way to another
unfoldable pub crossfade : Bytes → Bytes → Option Bytes
unfolding unpack mixed pack
crossfade fading chunk =
    pack (mixed 0 (unpack fading) (unpack chunk) ++ drop fade_frames (unpack chunk))
