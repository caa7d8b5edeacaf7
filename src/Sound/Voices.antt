-- ===== src/Sound/Voices.antt =====
-- `Sound` of src/pcutp/sound.py: which sound a control line, a step of the greeting and a fetch have.
-- `synth` renders a tone. The process that plays, and the locks, are left out.
use Prim.Native.Char.{code}
use pcutp.Base.{
  ℕ, ◌+◌, ◌/◌, ◌%◌, min, max, Bool, not, Option, none, some, [], ◌∷◌, ◌++◌, String, Bytes, ◌==◌,
  if◌then◌else◌,
}
use pcutp.Base.Text.{◌<+>◌}
use pcutp.Sound.Words.{lookup}
use pcutp.Sound.Clips.{Tone, Clip, Dictionaries}
use pcutp.Sound.Player.{Player, push}

pub record Sound : Type 0 where
  pub enabled : Bool
  pub dictionaries : Dictionaries
  pub blip : ℕ
  pub player : Player

-- `text.split(" ", 1)[0]`
unfoldable pub first_word : String → String
first_word String.[] = String.[]
first_word (String.◌∷◌ c text) =
    if code c == b' ' then String.[] else String.◌∷◌ c (first_word text)

-- `carrier * reps`
unfoldable pub repeated : ℕ → Clip → Clip
repeated ℕ.zero clip = []
repeated (ℕ.suc n) clip = clip ++ repeated n clip

module _ (synth : Tone → Bytes) where
  unfoldable pub rendered : Clip → Bytes
  rendered [] = []
  rendered (tone ∷ tones) = synth tone ++ rendered tones

  -- `_push`, at the time `now`
  unfoldable pub push_clip : ℕ → Option Clip → Sound → Sound
  unfolding rendered
  push_clip now none s = s
  push_clip now (some clip) s =
      if not s.enabled then s else record s { player = push now (rendered clip) s.player }

  -- a word that is neither a Morse signature nor one of a block's words
  unfoldable pub say_other : ℕ → String → Sound → Sound
  say_other now word s = push_clip now (lookup word s.dictionaries.pcm) s

  unfoldable pub say_block : ℕ → String → Option (Clip × Clip) → Sound → Sound
  unfolding say_other
  say_block now word none s = say_other now word s
  say_block now word (some (even, odd)) s =
      record (push_clip now (some (if s.blip % 2 == 0 then even else odd)) s) { blip = s.blip + 1 }

  unfoldable pub say_word : ℕ → String → Option Clip → Sound → Sound
  unfolding say_block
  say_word now word (some clip) s = push_clip now (some clip) s
  say_word now word none s = say_block now word (lookup word s.dictionaries.alt) s

  -- `line`; the flag is `direction == "tx"`
  unfoldable pub line : ℕ → String → Bool → Sound → Sound
  unfolding say_word
  line now text tx s =
      let word = first_word text in
      let morse = if tx then s.dictionaries.morse_tx else s.dictionaries.morse_rx in
      if not s.enabled then s else say_word now word (lookup word morse) s

  -- `effect`
  unfoldable pub effect : ℕ → String → Sound → Sound
  effect now name s = push_clip now (lookup name s.dictionaries.net) s

  unfoldable pub net_request : ℕ → Sound → Sound
  unfolding effect
  net_request now s = effect now "dial" s

  -- `dial`, `handshake_ring`, `handshake_carrier`, `handshake_connected`, `disconnect` and `fanfare`
  unfoldable pub handshake : ℕ → String → Sound → Sound
  handshake now name s = push_clip now (lookup name s.dictionaries.hs) s

  -- `net_response`; `none` for KeyError
  unfoldable pub net_response : ℕ → ℕ → Sound → Option Sound
  net_response now nbytes s =
      let reps = max 1 (min 4 (1 + nbytes / 262144)) in
      if not s.enabled then some s else elim (lookup "carrier" s.dictionaries.net) [
        | none ↦ none
        | some carrier ↦ elim (lookup "hangup" s.dictionaries.net) [
          | none ↦ none
          | some hangup ↦ some (push_clip now (some (repeated reps carrier ++ hangup)) s)
        ]
      ]

  -- `net_error`, with the name of the exception's class
  unfoldable pub net_error : ℕ → String → Sound → Option Sound
  net_error now name s =
      if not s.enabled then some s else elim (lookup "hangup" s.dictionaries.net) [
        | none ↦ none
        | some hangup ↦ elim (lookup ("err:" <+> name) s.dictionaries.net) [
          | none ↦ some (push_clip now (some hangup) s)
          | some clip ↦ some (push_clip now (some clip) s)
        ]
      ]
