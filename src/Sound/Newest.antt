-- ===== src/Sound/Newest.antt =====
-- An effect gives way to the newest one, in src/pcutp/sound.py: what the player of `_pump` is for a
-- listener.
use pcutp.Base.{
  ℕ, ◌+◌, ◌-◌, ◌*◌, ◌<◌, ◌≡◌, refl, ap, ◌∙◌, Bool, true, false, Option, none, some, List, [], ◌∷◌,
  ◌++◌, Bytes, length, ltb, ◌==◌, arith, if◌then◌else◌,
}
use pcutp.Base.Slices.{slice}
use mathlib.Core.Path.{subst}
use pcutp.Sound.Samples.{crossfade}
use pcutp.Sound.Player.{
  Event, Player, Slot, ljust, push, push_all, initial, is_last, begin, next_chunk, advance, fading,
  render_event, render, pump, silence,
}
use pcutp.Sound.Numbered.{
  IsNumbered, AreNumbered, push-IsNumbered, push_all-IsNumbered, render-AreNumbered,
}

-- A voice that knows no events: it is silent, or plays a sound from a position on, or has one sound
-- that waits, with the time at which it was asked for.
pub data Phase : Type 0 where
  silent : Phase
  waiting : ℕ → Bytes → Phase
  playing : Phase

pub record Voice : Type 0 where
  pub phase : Phase
  pub current_pcm : Bytes
  pub position : ℕ

-- Of the sounds that are asked for between two chunks, the last one waits; the others, and one that
-- has waited, are gone.
unfoldable pub newest : List (ℕ × Bytes) → Option (ℕ × Bytes)
newest [] = none
newest (x ∷ asked) = elim (newest asked) [ none ↦ some x | some y ↦ some y ]

unfoldable pub wait_with : Option (ℕ × Bytes) → Voice → Voice
wait_with none v = v
wait_with (some (when, pcm)) v = record v { phase = waiting when pcm }

-- a sound that has waited for longer than it lasts is dropped
unfoldable pub in_time : ℕ → ℕ → Bytes → Bytes
in_time now when pcm = if ltb ((now - when) * 44100) (length pcm * 1000000000) then pcm else []

-- The next chunk. A sound that waits is faded in from its start, over what is left of the other.
unfoldable pub sounds : ℕ → Phase → Voice → Option (Bytes × Voice)
unfolding ljust in_time
sounds now silent v = some (silence, v)
sounds now playing v = some (
  ljust 440 (slice v.position 440 v.current_pcm),
  record { phase = playing; current_pcm = v.current_pcm; position = v.position + 440 },
)
sounds now (waiting when pcm) v =
    elim (crossfade (ljust 220 (slice v.position 220 v.current_pcm))
      (ljust 440 (slice 0 440 (in_time now when pcm)))) [
        | none ↦ none
        | some chunk ↦
            some (
              chunk,
              record { phase = playing; current_pcm = in_time now when pcm; position = 440 },
            )
      ]

unfoldable pub round_of : Slot → Voice → Option (Bytes × Voice)
unfolding newest wait_with sounds
round_of t v = let v' = wait_with (newest t.asked) v in sounds t.now v'.phase v'

-- what the device is given in these rounds
unfoldable pub voices : List Slot → Voice → Option Bytes
unfolding round_of
voices [] v = some []
voices (t ∷ slots) v = elim (round_of t v) [
  | none ↦ none
  | some (chunk, v') ↦ elim (voices slots v') [
    | none ↦ none
    | some given ↦ some ((if t.writable then chunk else []) ++ given)
  ]
]

-- the voice of a player
unfoldable pub phase_of : Option Event → Player → Phase
unfolding is_last
phase_of none p = silent
phase_of (some e) p = if is_last e p then playing else waiting e.when e.pcm

unfoldable pub voice_of : Player → Voice
unfolding phase_of
voice_of p = record {
  phase = phase_of p.event p;
  current_pcm = p.current_pcm;
  position = p.position;
}

is_new :
    (name : ℕ) (o : Option ℕ)
    → ((n : ℕ) → o ≡ some n → n < name)
    → (elim o [ none ↦ false | some n ↦ name == n ]) ≡ false
is_new name none h = refl
is_new name (some n) h = ground (arith, h n refl)

push-voice_of :
    (now : ℕ) (pcm : Bytes) (p : Player)
    → IsNumbered p
    → voice_of (push now pcm p) ≡ wait_with (some (now, pcm)) (voice_of p)
unfolding voice_of push phase_of is_last wait_with
push-voice_of now pcm p h = rw (is_new p.next_name p.last_rendered h.last) refl

wait_with-newest :
    (x : ℕ × Bytes) (asked : List (ℕ × Bytes)) (v : Voice)
    → wait_with (newest asked) (wait_with (some x) v) ≡ wait_with (newest (x ∷ asked)) v
unfolding newest wait_with
wait_with-newest x asked v =
    elim (newest asked)
      as (λ o.
        wait_with o (wait_with (some x) v)
        ≡ wait_with (elim o [ none ↦ some x | some y ↦ some y ]) v) [ none ↦ refl | some y ↦ refl ]

push_all-voice_of :
    (asked : List (ℕ × Bytes)) (p : Player)
    → IsNumbered p
    → voice_of (push_all asked p) ≡ wait_with (newest asked) (voice_of p)
unfolding push_all newest wait_with
push_all-voice_of [] p h = refl
push_all-voice_of ((now, pcm) ∷ asked) p h =
    push_all-voice_of asked (push now pcm p) (push-IsNumbered now pcm p h)
    ∙ ap (wait_with (newest asked)) (push-voice_of now pcm p h)
    ∙ wait_with-newest (now, pcm) asked (voice_of p)

-- a chunk, with the voice behind it
unfoldable pub seen : Option (Bytes × Player) → Option (Bytes × Voice)
seen none = none
seen (some (chunk, p)) = some (chunk, voice_of p)

seen-begin :
    (o : Option Bytes) (q : Player)
    → seen (elim o as (λ _. Option (Bytes × Player)) [ none ↦ none | some chunk ↦ some (chunk, q) ])
      ≡ (elim o as (λ _. Option (Bytes × Voice)) [
        | none ↦ none
        | some chunk ↦ some (chunk, voice_of q)
      ])
unfolding seen
seen-begin none q = refl
seen-begin (some chunk) q = refl

begun-voice_of :
    (now : ℕ) (e : Event) (p : Player)
    → p.event ≡ some e
    → voice_of (advance (begin now e p))
      ≡ record { phase = playing; current_pcm = in_time now e.when e.pcm; position = 440 }
unfolding voice_of advance begin phase_of is_last in_time
begun-voice_of now e p eq = rw eq (ground arith)

played-voice_of :
    (e : Event) (p : Player)
    → p.event ≡ some e
    → is_last e p ≡ true
    → voice_of (advance p)
      ≡ record { phase = playing; current_pcm = p.current_pcm; position = p.position + 440 }
unfolding voice_of advance phase_of is_last
played-voice_of e p eq last = rw (eq, last) refl

rendered :
    (now : ℕ) (e : Event) (p : Player)
    → p.event ≡ some e
    → (last : Bool) → is_last e p ≡ last
    → seen (render_event now (some e) p) ≡ sounds now (phase_of (some e) p) (voice_of p)
unfolding render_event phase_of
rendered now e p eq true last = rw last (
    unfold seen sounds next_chunk ljust voice_of in
    ap (λ (v : Voice). some (next_chunk p, v)) (played-voice_of e p eq last))
rendered now e p eq false last = rw last (
    seen-begin (crossfade (fading p) (next_chunk (begin now e p))) (advance (begin now e p))
    ∙ ap
        (λ (v : Voice).
          elim (crossfade (fading p) (next_chunk (begin now e p)))
            as (λ _. Option (Bytes × Voice)) [ none ↦ none | some chunk ↦ some (chunk, v) ])
        (begun-voice_of now e p eq)
    ∙ (unfold sounds fading next_chunk begin in_time voice_of ljust in refl))

render-seen :
    (now : ℕ) (event : Option Event) (p : Player)
    → p.event ≡ event
    → seen (render_event now event p) ≡ sounds now (phase_of event p) (voice_of p)
render-seen now none p eq = unfold render_event seen sounds phase_of in refl
render-seen now (some e) p eq = rendered now e p eq (is_last e p) refl

first_numbered :
    (t : Slot) (p : Player) → IsNumbered p → AreNumbered (render t.now (push_all t.asked p))
first_numbered t p h =
    unfold render in
    render-AreNumbered t.now (push_all t.asked p).event (push_all t.asked p) refl
      (push_all-IsNumbered t.asked p h)

render-round_of :
    (t : Slot) (p : Player)
    → IsNumbered p
    → seen (render t.now (push_all t.asked p)) ≡ round_of t (voice_of p)
unfolding round_of render
render-round_of t p h =
    render-seen t.now (push_all t.asked p).event (push_all t.asked p) refl
    ∙ (unfold voice_of in
        ap (λ (v : Voice). sounds t.now v.phase v) (push_all-voice_of t.asked p h))

-- what the device has been given
unfoldable pub given : Option (Bytes × Player) → Option Bytes
given none = none
given (some (bytes, p)) = some bytes

given-next :
    (chunk : Bytes) (o : Option (Bytes × Player))
    → given (elim o as (λ _. Option (Bytes × Player)) [
      | none ↦ none
      | some (more, p) ↦ some (chunk ++ more, p)
    ])
      ≡ (elim (given o) as (λ _. Option Bytes) [ none ↦ none | some more ↦ some (chunk ++ more) ])
unfolding given
given-next chunk none = refl
given-next chunk (some (more, p)) = refl

-- a round, and the rounds behind it
given-round :
    (t : Slot) (slots : List Slot) (o : Option (Bytes × Player))
    → ((chunk : Bytes) (q : Player)
        → o ≡ some (chunk, q)
        → given (pump slots q) ≡ voices slots (voice_of q))
    → given (elim o as (λ _. Option (Bytes × Player)) [
      | none ↦ none
      | some (chunk, q) ↦ elim (pump slots q) as (λ _. Option (Bytes × Player)) [
        | none ↦ none
        | some (more, r) ↦ some ((if t.writable then chunk else []) ++ more, r)
      ]
    ])
      ≡ (elim (seen o) as (λ _. Option Bytes) [
        | none ↦ none
        | some (chunk, v) ↦ elim (voices slots v) as (λ _. Option Bytes) [
          | none ↦ none
          | some more ↦ some ((if t.writable then chunk else []) ++ more)
        ]
      ])
given-round t slots none h = unfold seen given in refl
given-round t slots (some (chunk, q)) h =
    unfold seen in
    given-next (if t.writable then chunk else []) (pump slots q)
    ∙ ap
        (λ (o : Option Bytes). elim o as (λ _. Option Bytes) [
          | none ↦ none
          | some more ↦ some ((if t.writable then chunk else []) ++ more)
        ])
        (h chunk q refl)

pump-from :
    (slots : List Slot) (p : Player)
    → IsNumbered p
    → given (pump slots p) ≡ voices slots (voice_of p)
unfolding pump voices
pump-from [] p h = unfold given in refl
pump-from (t ∷ slots) p h =
    given-round t slots (render t.now p₁)
      (λ chunk q e. pump-from slots q (subst AreNumbered e (first_numbered t p h)))
    ∙ ap
        (λ (o : Option (Bytes × Voice)). elim o as (λ _. Option Bytes) [
          | none ↦ none
          | some (chunk, v) ↦ elim (voices slots v) as (λ _. Option Bytes) [
            | none ↦ none
            | some more ↦ some ((if t.writable then chunk else []) ++ more)
          ]
        ])
        (render-round_of t p h)
  where
    p₁ : Player
    p₁ = push_all t.asked p

-- Whatever is asked for and whenever: the device is given what a voice gives it that has one
-- sound waiting at most. Of the sounds asked for between two chunks only the last one is ever
-- heard; it is faded in from its start with the next chunk, over what is left of the sound before
-- it, of which no more is heard then, and where it has waited for longer than it lasts, silence
-- is faded in instead.
pub pump-voices :
    (slots : List Slot)
    → given (pump slots initial)
      ≡ voices slots (record { phase = silent; current_pcm = []; position = 0 })
pump-voices slots =
    pump-from slots initial (record { last = λ n e. cc; event = λ e h. cc })
    ∙ (unfold voice_of phase_of in refl)
