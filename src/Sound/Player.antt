-- ===== src/Sound/Player.antt =====
-- The player of src/pcutp/sound.py: `_push`, `_render` and the loop of `_pump`. Times are in
-- nanoseconds. An event is a new tuple, so `is` compares the numbers that `push` gives out. Its
-- sounds are bytes here; what stands in the dictionaries is that of Sound/Clips.
use pcutp.Base.{
  ℕ, ◌+◌, ◌-◌, ◌*◌, max, Bool, false, Option, none, some, List, [], ◌∷◌, ◌++◌, Bytes, length,
  replicate, ltb, ◌==◌, if◌then◌else◌,
}
use pcutp.Base.Slices.{slice}
use pcutp.Sound.Samples.{crossfade}

pub record Event : Type 0 where
  pub name : ℕ
  pub when : ℕ
  pub pcm : Bytes

-- the attributes that the player reads; `next_name` numbers the events
pub record Player : Type 0 where
  pub event : Option Event
  pub next_name : ℕ
  pub last_rendered : Option ℕ
  pub current_pcm : Bytes
  pub position : ℕ
  pub rendered_events : ℕ
  pub max_render_delay : ℕ

-- the player at the start
abbrev pub initial : Player
initial = record {
  event = none;
  next_name = 0;
  last_rendered = none;
  current_pcm = [];
  position = 0;
  rendered_events = 0;
  max_render_delay = 0;
}

-- the bytes of a chunk, and those of a crossfade
abbrev pub chunk_size : ℕ
chunk_size = 440

abbrev pub fade_size : ℕ
fade_size = 220

abbrev pub silence : Bytes
silence = replicate chunk_size 0

-- `bytes.ljust(n, b"\0")`
unfoldable pub ljust : ℕ → Bytes → Bytes
ljust n bytes = bytes ++ replicate (n - length bytes) 0

-- `_push` at a time, of an enabled player
unfoldable pub push : ℕ → Bytes → Player → Player
push now pcm p = record p {
  event = some (record { name = p.next_name; when = now; pcm = pcm });
  next_name = p.next_name + 1;
}

unfoldable pub is_last : Event → Player → Bool
is_last e p = elim p.last_rendered [ none ↦ false | some n ↦ e.name == n ]

-- an event that has not been rendered; one that came too late is dropped
unfoldable pub begin : ℕ → Event → Player → Player
begin now e p = record p {
  last_rendered = some e.name;
  rendered_events = p.rendered_events + 1;
  max_render_delay = max p.max_render_delay (now - e.when);
  current_pcm = if ltb ((now - e.when) * 44100) (length e.pcm * 1000000000) then e.pcm else [];
  position = 0;
}

unfoldable pub next_chunk : Player → Bytes
unfolding ljust
next_chunk p = ljust chunk_size (slice p.position chunk_size p.current_pcm)

unfoldable pub advance : Player → Player
advance p = record p { position = p.position + chunk_size }

-- what is left of the effect that gives way
unfoldable pub fading : Player → Bytes
unfolding ljust
fading p = ljust fade_size (slice p.position fade_size p.current_pcm)

-- `_render`, with the local variable `event`; `none` where `struct.pack` raises
unfoldable pub render_event : ℕ → Option Event → Player → Option (Bytes × Player)
unfolding is_last begin next_chunk advance fading
render_event now none p = some (silence, p)
render_event now (some e) p =
    let p' = begin now e p in
    if is_last e p
    then some (next_chunk p, advance p)
    else elim (crossfade (fading p) (next_chunk p')) [
      | none ↦ none
      | some chunk ↦ some (chunk, advance p')
    ]

unfoldable pub render : ℕ → Player → Option (Bytes × Player)
unfolding render_event
render now p = render_event now p.event p

-- what other threads have asked for, the oldest first
unfoldable pub push_all : List (ℕ × Bytes) → Player → Player
unfolding push
push_all [] p = p
push_all ((now, pcm) ∷ asked) p = push_all asked (push now pcm p)

-- a round of `_pump`: what has been asked for since the last one, the time, and whether the device
-- takes the chunk
pub record Slot : Type 0 where
  pub asked : List (ℕ × Bytes)
  pub now : ℕ
  pub writable : Bool

-- `_pump` until it is stopped: what the device has been given, and the player
unfoldable pub pump : List Slot → Player → Option (Bytes × Player)
unfolding push_all
pump [] p = some ([], p)
pump (t ∷ slots) p = elim (render t.now (push_all t.asked p)) [
  | none ↦ none
  | some (chunk, p') ↦ elim (pump slots p') [
    | none ↦ none
    | some (given, p'') ↦ some ((if t.writable then chunk else []) ++ given, p'')
  ]
]
