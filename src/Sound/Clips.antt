-- ===== src/Sound/Clips.antt =====
-- The sounds of src/pcutp/sound.py, as the tones that they are made of, and the dictionaries that
-- `_start` fills. The samples of a tone are floating-point numbers; a tone stands for the call that
-- makes them.
use Prim.Native.Char.{Char, code}
use pcutp.Base.{ℕ, ◌*◌, ◌/◌, Option, none, some, List, [], ◌∷◌, ◌++◌, String, ◌==◌, if◌then◌else◌}
use pcutp.Base.Text.{◌<+>◌}
use pcutp.Sound.Words.{
  pitch, morse_signatures, net_error_hz, dtmf_rows, dtmf_cols, short, squares, triangles, word_ms,
  blip_ms, morse_unit_ms, rate, is_in, lookup,
}

-- the pieces of a sound, with the arguments of the functions that render them: `_sine_frames`,
-- `_square_frames` and `_triangle_frames` with pitch and length, `_sweep`, `_warble` with its
-- length, a digit of `_dtmf` with its two pitches and its length, and a number of silent frames
pub data Tone : Type 0 where
  sine : ℕ → ℕ → Tone
  square : ℕ → ℕ → Tone
  triangle : ℕ → ℕ → Tone
  sweep : ℕ → ℕ → ℕ → Tone
  warble : ℕ → Tone
  dual : ℕ → ℕ → ℕ → Tone
  gap : ℕ → Tone

abbrev pub Clip : Type 0
Clip = List Tone

-- `int(RATE * ms / 1000)`
unfoldable pub frames_in : ℕ → ℕ
frames_in ms = rate * ms / 1000

-- how many frames a piece has
unfoldable pub frame_count : Tone → ℕ
unfolding frames_in
frame_count (sine hz ms) = frames_in ms
frame_count (square hz ms) = frames_in ms
frame_count (triangle hz ms) = frames_in ms
frame_count (sweep lo hi ms) = frames_in ms
frame_count (warble ms) = frames_in ms
frame_count (dual lo hi ms) = frames_in ms
frame_count (gap n) = n

-- `_morse`
unfoldable pub morse_mark : ℕ → Char → Clip
unfolding frames_in
morse_mark hz mark =
    if code mark == b' '
    then gap (2 * frames_in morse_unit_ms) ∷ []
    else sine hz (morse_unit_ms * (if code mark == b'-' then 3 else 1))
      ∷ gap (frames_in morse_unit_ms)
      ∷ []

unfoldable pub morse : ℕ → String → Clip
unfolding morse_mark
morse hz String.[] = []
morse hz (String.◌∷◌ mark marks) = morse_mark hz mark ++ morse hz marks

-- `_dtmf`; `none` for KeyError
unfoldable pub dtmf : List String → Option Clip
unfolding frames_in lookup
dtmf [] = some []
dtmf (digit ∷ digits) = elim (lookup digit dtmf_rows) [
  | none ↦ none
  | some lo ↦ elim (lookup digit dtmf_cols) [
    | none ↦ none
    | some hi ↦ elim (dtmf digits) [
      | none ↦ none
      | some clip ↦ some (dual lo hi 70 ∷ gap (frames_in 40) ∷ clip)
    ]
  ]
]

-- `_fanfare`
unfoldable pub fanfare_clip : Clip
fanfare_clip =
    sine 523 160 ∷ gap 882 ∷ sine 659 160 ∷ gap 882 ∷ sine 784 160 ∷ gap 882 ∷ sine 1047 450 ∷ []

-- a control word of the table of pitches
unfoldable pub word_clip : String → ℕ → Clip
unfolding is_in
word_clip word hz =
    let length = if is_in word short then blip_ms else word_ms in
    (if is_in word squares
      then square hz length
      else if is_in word triangles
      then triangle hz length
      else sine hz length)
    ∷ []

unfoldable pub word_clips : List (String × ℕ) → List (String × Clip)
unfolding word_clip
word_clips [] = []
word_clips ((word, hz) ∷ table) = (word, word_clip word hz) ∷ word_clips table

-- the Morse dictionaries, with a multiple of `PITCH[word]`; `none` for KeyError
unfoldable pub morse_clips : ℕ → List (String × String) → Option (List (String × Clip))
unfolding lookup morse
morse_clips factor [] = some []
morse_clips factor ((word, pattern) ∷ table) = elim (lookup word pitch) [
  | none ↦ none
  | some hz ↦ elim (morse_clips factor table) [
    | none ↦ none
    | some clips ↦ some ((word, morse (hz * factor) pattern) ∷ clips)
  ]
]

-- the two close pitches of a block's words; `hz * DETUNE` is rounded down to a whole number
unfoldable pub alternates : List String → Option (List (String × (Clip × Clip)))
unfolding lookup
alternates [] = some []
alternates (word ∷ words) = elim (lookup word pitch) [
  | none ↦ none
  | some hz ↦ elim (alternates words) [
    | none ↦ none
    | some clips ↦
        some ((word, (triangle hz blip_ms ∷ [], triangle (hz * 103 / 100) blip_ms ∷ [])) ∷ clips)
  ]
]

-- the dictionary of the internet leg
unfoldable pub error_clips : List (String × ℕ) → List (String × Clip)
unfolding ◌<+>◌
error_clips [] = []
error_clips ((k, hz) ∷ table) = ("err:" <+> k, sweep (hz * 3) hz 420 ∷ []) ∷ error_clips table

unfoldable pub net_clips : List (String × Clip)
unfolding error_clips
net_clips =
    ("dial", sweep 300 1400 260 ∷ [])
    ∷ ("carrier", warble 220 ∷ [])
    ∷ ("hangup", sweep 1200 400 200 ∷ [])
    ∷ error_clips net_error_hz

-- the dictionary of the handshake, with the sound of dialling
unfoldable pub handshake_clips : Clip → List (String × Clip)
unfolding fanfare_clip
handshake_clips dial =
    ("ring", sweep 1600 2100 240 ∷ [])
    ∷ ("carrier", warble 400 ∷ [])
    ∷ ("connected", sweep 1400 2600 140 ∷ [])
    ∷ ("dial", dial)
    ∷ ("disconnect", sweep 1600 200 320 ∷ [])
    ∷ ("fanfare", fanfare_clip)
    ∷ []

pub record Dictionaries : Type 0 where
  pub pcm : List (String × Clip)
  pub morse_rx : List (String × Clip)
  pub morse_tx : List (String × Clip)
  pub alt : List (String × (Clip × Clip))
  pub net : List (String × Clip)
  pub hs : List (String × Clip)

-- what `_start` renders; `none` for KeyError
unfoldable pub start : Option Dictionaries
unfolding word_clips morse_clips alternates net_clips handshake_clips dtmf
start = elim (morse_clips 1 morse_signatures) [
  | none ↦ none
  | some morse_rx ↦ elim (morse_clips 2 morse_signatures) [
    | none ↦ none
    | some morse_tx ↦ elim (alternates ("DATA" ∷ "ZDATA" ∷ "ACK" ∷ [])) [
      | none ↦ none
      | some alt ↦ elim (dtmf ("1" ∷ "6" ∷ "3" ∷ "8" ∷ [])) [
        | none ↦ none
        | some dial ↦ some (record {
          pcm = word_clips pitch;
          morse_rx = morse_rx;
          morse_tx = morse_tx;
          alt = alt;
          net = net_clips;
          hs = handshake_clips dial;
        })
      ]
    ]
  ]
]
