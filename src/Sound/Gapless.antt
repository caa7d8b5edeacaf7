-- ===== src/Sound/Gapless.antt =====
-- Where no effect gives way to another, the player of src/pcutp/sound.py gives the device the sound
-- without a gap.
use pcutp.Base.{
  ℕ, zero, suc, ◌+◌, ◌-◌, ◌*◌, ◌≡◌, refl, ap, sym, ◌∙◌, Bool, true, some, List, [], ◌∷◌, ◌++◌,
  Bytes, take, drop, length, replicate, arith, if◌then◌else◌,
}
use Prim.Native.Nat.add
use mathlib.Core.Path.{ap₂}
use native.Mathlib.Nat.{sub-zero}
use pcutp.Base.Slices.{slice, drop-drop}
use pcutp.Sound.Chunks.{pump-next}
use pcutp.Sound.Player.{
  Event, Player, Slot, ljust, push_all, is_last, next_chunk, advance, render_event, render, pump,
}

replicate_add : (n m : ℕ) → replicate {A = ℕ} (n + m) 0 ≡ replicate n 0 ++ replicate m 0
replicate_add zero m = rw add.zero
replicate_add (suc n) m = rw add.suc (ap (λ xs. 0 ∷ xs) (replicate_add n m))

take-nil : (n : ℕ) → take {A = ℕ} n [] ≡ []
take-nil zero = refl
take-nil (suc n) = refl

ljust-cons : (n x : ℕ) (xs : Bytes) → ljust (suc n) (x ∷ xs) ≡ x ∷ ljust n xs
unfolding ljust
ljust-cons n x xs =
    let e : suc n - suc (length xs) ≡ n - length xs = omega arith in
    ap (λ k. x ∷ (xs ++ replicate k 0)) e

ljust-nil : (n : ℕ) → ljust n [] ≡ replicate n 0
unfolding ljust
ljust-nil n = ap (λ k. replicate k 0) (sub-zero n)

-- two slices that follow one another
ljust-append :
    (n m : ℕ) (xs : Bytes)
    → ljust n (take n xs) ++ ljust m (take m (drop n xs)) ≡ ljust (n + m) (take (n + m) xs)
ljust-append zero m xs = rw (ljust-nil, add.zero) refl
ljust-append (suc n) m [] =
    rw (take-nil m, ljust-nil (suc n), ljust-nil m, add.suc)
      (rw (ljust-nil (suc (n + m))) (sym (ap (λ ys. 0 ∷ ys) (replicate_add n m))))
ljust-append (suc n) m (x ∷ xs) =
    rw (ljust-cons, add.suc, ljust-cons) (ap (λ ys. x ∷ ys) (ljust-append n m xs))

-- Nothing is asked for, and the device takes each chunk.
abbrev pub AreQuiet : List Slot → Type 0
AreQuiet [] = Unit
AreQuiet (t ∷ slots) = (t.asked ≡ []) × (t.writable ≡ true) × AreQuiet slots

quiet-next :
    (t : Slot) (e : Event) (p : Player)
    → t.asked ≡ []
    → p.event ≡ some e
    → is_last e p ≡ true
    → render t.now (push_all t.asked p) ≡ some (next_chunk p, advance p)
unfolding push_all render render_event
quiet-next t e p quiet h last = ground arith

-- the first chunk of a sound, and the rest
chunk-append :
    (k at : ℕ) (xs : Bytes)
    → ljust 440 (slice at 440 xs) ++ ljust (440 * k) (slice (at + 440) (440 * k) xs)
      ≡ ljust (440 * suc k) (slice at (440 * suc k) xs)
chunk-append k at xs =
    let e : 440 * suc k ≡ 440 + 440 * k = omega arith in
    rw (e, ← drop-drop at 440 xs) (ljust-append 440 (440 * k) (drop at xs))

given-append :
    (w : Bool) (k : ℕ) (p : Player)
    → w ≡ true
    → (if w then next_chunk p else [])
        ++ ljust (440 * k) (slice (advance p).position (440 * k) (advance p).current_pcm)
      ≡ ljust (440 * suc k) (slice p.position (440 * suc k) p.current_pcm)
unfolding next_chunk advance
given-append w k p h = rw h (chunk-append k p.position p.current_pcm)

advance-position : (k : ℕ) (p : Player) → (advance p).position + 440 * k ≡ p.position + 440 * suc k
unfolding advance
advance-position k p = omega arith

-- Once a sound is being rendered, and while nothing else is asked for, the device is given the sound
-- from where it stands, byte for byte and whatever the times of the rounds are, and zeros behind its
-- end.
pub pump_sound :
    (slots : List Slot) (e : Event) (p : Player)
    → AreQuiet slots
    → p.event ≡ some e
    → is_last e p ≡ true
    → pump slots p
      ≡ some (
        ljust (440 * length slots) (slice p.position (440 * length slots) p.current_pcm),
        record p { position = p.position + 440 * length slots },
      )
unfolding advance
pump_sound [] e p quiet h last = unfold pump ljust in ground arith
pump_sound (t ∷ slots) e p quiet h last =
    pump-next t slots p (advance p) (next_chunk p) _ _ (quiet-next t e p quiet.0 h last)
      (pump_sound slots e (advance p) quiet.2 h (unfold is_last in last))
    ∙ ap₂ (λ bytes at. some (bytes, record p { position = at }))
        (given-append t.writable (length slots) p quiet.1) (advance-position (length slots) p)
