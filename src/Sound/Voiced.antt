-- ===== src/Sound/Voiced.antt =====
-- Which control lines src/pcutp/sound.py voices.
use text.Mathlib.Text.{◌==◌ as str_eq}
use text.Mathlib.TextEquality.{eq_iff}
use pcutp.Base.{
  ℕ, ◌+◌, ◌%◌, ◌<◌, ◌≡◌, refl, sym, ap, ◌∙◌, arith, inl, inr, Bool, true, false, ◌&&◌, Option, none,
  some, List, [], ◌∷◌, ltb, ltb→lt, String, Bytes, min, Bool-cases, Option-cases, ◌==◌,
  if◌then◌else◌,
}
use mathlib.Core.Path.{subst}
use mathlib.Core.Option.{some-injective}
use pcutp.Sound.Words.{lookup, pitch}
use pcutp.Sound.Clips.{Tone, Clip, frame_count, Dictionaries, start}
use pcutp.Sound.Player.{push}
use pcutp.Sound.Voices.{
  Sound, first_word, rendered, push_clip, say_other, say_block, say_word, line,
}

abbrev no_dictionaries : Dictionaries
no_dictionaries = record { pcm = []; morse_rx = []; morse_tx = []; alt = []; net = []; hs = [] }

unfoldable pub started : Dictionaries
unfolding start
started = elim start [ none ↦ no_dictionaries | some d ↦ d ]

-- Each word that `_start` looks up stands in its table.
start-some : start ≡ some started
unfolding started
start-some = refl

found : {A : Type 0} → Option A → Bool
found none = false
found (some a) = true

and_left : (a b : Bool) → (a && b) ≡ true → a ≡ true
and_left a b h = ground arith

and_right : (a b : Bool) → (a && b) ≡ true → b ≡ true
and_right a b h = ground arith

-- no value is found and none
not_both : {A : Type 0} {o : Option A} → found o ≡ true → o ≡ none → ⊥
unfolding found
not_both {o} h e = ground arith

module _ {A B : Type 0} where
  -- each word of a table stands in another one
  all_found : List (String × A) → List (String × B) → Bool
  all_found [] ys = true
  all_found ((k, v) ∷ xs) ys = found (lookup k ys) && all_found xs ys

  lookup-all_found :
      (word : String) (xs : List (String × A)) (ys : List (String × B))
      → all_found xs ys ≡ true
      → lookup word ys ≡ none
      → lookup word xs ≡ none
  unfolding lookup all_found found
  lookup-all_found word [] ys h e = refl
  lookup-all_found word ((k, v) ∷ xs) ys h e = elim (Bool-cases (str_eq k word)) [
    | inl same ↦
        absurd (not_both (rw ((eq_iff k word).0 same) at (and_left (found (lookup k ys)) _ h)) e)
    | inr other ↦ rw other (lookup-all_found word xs ys (and_right (found (lookup k ys)) _ h) e)
  ]

-- how many frames a sound has
unfoldable pub frames : Clip → ℕ
unfolding frame_count
frames [] = 0
frames (tone ∷ tones) = frame_count tone + frames tones

-- the frames of the shorter one of two sounds
frames_of_both : Clip × Clip → ℕ
frames_of_both (even, odd) = min (frames even) (frames odd)

module _ {V : Type 0} (count : V → ℕ) where
  -- each sound of a table has a frame
  all_sound : List (String × V) → Bool
  all_sound [] = true
  all_sound ((k, v) ∷ table) = ltb 0 (count v) && all_sound table

  lookup-sounds :
      (word : String) (table : List (String × V)) (v : V)
      → all_sound table ≡ true
      → lookup word table ≡ some v
      → 0 < count v
  unfolding lookup all_sound
  lookup-sounds word [] v h e = cc
  lookup-sounds word ((k, u) ∷ table) v h e = elim (Bool-cases (str_eq k word)) [
    | inl same ↦
        subst (λ x. 0 < count x) (some-injective u v (rw same at e))
          (ltb→lt 0 (count u) (and_left (ltb 0 (count u)) _ h))
    | inr other ↦ lookup-sounds word table v (and_right (ltb 0 (count u)) _ h) (rw other at e)
  ]

-- the Morse dictionary of a direction
unfoldable pub morse_of : Bool → Dictionaries → List (String × Clip)
morse_of tx d = if tx then d.morse_tx else d.morse_rx

-- A sound with a frame is played at `now`.
abbrev pub IsVoiced : (Tone → Bytes) → ℕ → Sound → Sound → Type 0
IsVoiced synth now s s' =
    (clip : Clip) × (s'.player ≡ push now (rendered synth clip) s.player) × (0 < frames clip)

module _ (synth : Tone → Bytes) (now : ℕ) (s : Sound) (on : s.enabled ≡ true)
    (ready : s.dictionaries ≡ started) where
  push_clip-IsVoiced :
      (clip : Clip) → 0 < frames clip → IsVoiced synth now s (push_clip synth now (some clip) s)
  unfolding push_clip
  push_clip-IsVoiced clip h = (clip, rw on refl, h)

  module _ (word : String) where
    silent :
        (morse : List (String × Clip))
        → all_found morse pitch ≡ true
        → lookup word pitch ≡ none
        → say_word synth now word (lookup word morse) s ≡ s
    unfolding say_word push_clip started all_found lookup found
    silent morse h e = rw (lookup-all_found word morse pitch h e, no_alt, no_pcm)
      where
        no_alt : lookup word s.dictionaries.alt ≡ none
        no_alt =
            subst (λ (d : Dictionaries). lookup word d.alt ≡ none) (sym ready)
              (lookup-all_found word started.alt pitch refl e)

        no_pcm : lookup word s.dictionaries.pcm ≡ none
        no_pcm =
            subst (λ (d : Dictionaries). lookup word d.pcm ≡ none) (sym ready)
              (lookup-all_found word started.pcm pitch refl e)

    other-IsVoiced :
        (hz : ℕ) → lookup word pitch ≡ some hz → IsVoiced synth now s (say_other synth now word s)
    unfolding say_other started all_found found lookup all_sound frames
    other-IsVoiced hz e = elim (Option-cases (lookup word s.dictionaries.pcm)) [
      | inl missing ↦
          let h : lookup word started.pcm ≡ none =
            subst (λ (d : Dictionaries). lookup word d.pcm ≡ none) ready missing in
          let h' : lookup word pitch ≡ none = lookup-all_found word pitch started.pcm refl h in cc
      | inr (clip, there) ↦ rw there (
          push_clip-IsVoiced clip (
            lookup-sounds frames word started.pcm clip refl
              (subst (λ (d : Dictionaries). lookup word d.pcm ≡ some clip) ready there)))
    ]

    both_sound :
        (b : Bool) (even odd : Clip)
        → 0 < frames_of_both (even, odd)
        → 0 < frames (if b then even else odd)
    unfolding frames_of_both
    both_sound true even odd h = omega arith
    both_sound false even odd h = omega arith

    block-IsVoiced :
        (hz : ℕ)
        → lookup word pitch ≡ some hz
        → IsVoiced synth now s (say_block synth now word (lookup word s.dictionaries.alt) s)
    unfolding say_block started all_sound frames frames_of_both
    block-IsVoiced hz e = elim (Option-cases (lookup word s.dictionaries.alt)) [
      | inl missing ↦ rw missing (other-IsVoiced hz e)
      | inr ((even, odd), there) ↦
          let h =
            lookup-sounds frames_of_both word started.alt (even, odd) refl
              (subst (λ (d : Dictionaries). lookup word d.alt ≡ some (even, odd)) ready there) in
          rw there (
            push_clip-IsVoiced (if s.blip % 2 == 0 then even else odd)
              (both_sound (s.blip % 2 == 0) even odd h))
    ]

    voiced :
        (morse : List (String × Clip)) (hz : ℕ)
        → all_sound frames morse ≡ true
        → lookup word pitch ≡ some hz
        → IsVoiced synth now s (say_word synth now word (lookup word morse) s)
    unfolding say_word
    voiced morse hz h e = elim (Option-cases (lookup word morse)) [
      | inl missing ↦ rw missing (block-IsVoiced hz e)
      | inr (clip, there) ↦
          rw there (push_clip-IsVoiced clip (lookup-sounds frames word morse clip h there))
    ]

  pub spoken :
      (text : String) (tx : Bool)
      → line synth now text tx s
        ≡ say_word synth now (first_word text) (lookup (first_word text) (morse_of tx started)) s
  unfolding line morse_of
  spoken text tx =
      rw on refl
      ∙ ap
          (λ (d : Dictionaries).
            say_word synth now (first_word text) (lookup (first_word text) (morse_of tx d)) s)
          ready

  morse_found : (tx : Bool) → all_found (morse_of tx started) pitch ≡ true
  unfolding morse_of started all_found found lookup
  morse_found true = refl
  morse_found false = refl

  morse_sounds : (tx : Bool) → all_sound frames (morse_of tx started) ≡ true
  unfolding morse_of started all_sound frames
  morse_sounds true = refl
  morse_sounds false = refl

  -- Of a player that is on, and has been started: a line whose first word stands in the table of
  -- pitches is voiced, by a sound that has a frame, whatever else the line holds and whichever end
  -- sends it; any other line leaves the player as it is.
  pub line_lem :
      (text : String) (tx : Bool)
      → (lookup (first_word text) pitch ≡ none → line synth now text tx s ≡ s)
        × ((hz : ℕ)
            → lookup (first_word text) pitch ≡ some hz
            → IsVoiced synth now s (line synth now text tx s))
  line_lem text tx = (
    λ e. spoken text tx ∙ silent (first_word text) (morse_of tx started) (morse_found tx) e,
    λ hz e.
        subst (IsVoiced synth now s) (sym (spoken text tx))
          (voiced (first_word text) (morse_of tx started) hz (morse_sounds tx) e),
  )
