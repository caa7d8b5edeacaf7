-- ===== src/Sound/Chunks.antt =====
-- What the player of src/pcutp/sound.py gives to the device are whole chunks.
use pcutp.Base.{
  ℕ, zero, suc, ◌+◌, ◌-◌, ◌*◌, ◌≡◌, refl, ap, inl, inr, Bool-cases, Bool, true, false, Option, none,
  some, List, [], ◌∷◌, ◌++◌, Bytes, take, drop, length, replicate, ltb, arith, length-append,
  length-take, if◌then◌else◌,
}
use mathlib.Core.Path.{subst}
use pcutp.Base.Slices.{slice}
use pcutp.Sound.Fading.{AreBytes, crossfade-some}
use pcutp.Sound.Player.{
  Event, Player, Slot, silence, ljust, push, push_all, initial, is_last, begin, next_chunk, advance,
  fading, render_event, render, pump,
}

length-replicate : (n : ℕ) → length (replicate {A = ℕ} n 0) ≡ n
length-replicate zero = refl
length-replicate (suc n) = omega (arith, length-replicate n)

AreBytes-append : (xs ys : Bytes) → AreBytes xs → AreBytes ys → AreBytes (xs ++ ys)
AreBytes-append [] ys hx hy = hy
AreBytes-append (x ∷ xs) ys hx hy = (hx.0, AreBytes-append xs ys hx.1 hy)

AreBytes-replicate : (n : ℕ) → AreBytes (replicate n 0)
AreBytes-replicate zero = tt
AreBytes-replicate (suc n) = (omega arith, AreBytes-replicate n)

AreBytes-take : (n : ℕ) (xs : Bytes) → AreBytes xs → AreBytes (take n xs)
AreBytes-take zero xs h = tt
AreBytes-take (suc n) [] h = tt
AreBytes-take (suc n) (x ∷ xs) h = (h.0, AreBytes-take n xs h.1)

AreBytes-drop : (n : ℕ) (xs : Bytes) → AreBytes xs → AreBytes (drop n xs)
AreBytes-drop zero xs h = h
AreBytes-drop (suc n) [] h = tt
AreBytes-drop (suc n) (x ∷ xs) h = AreBytes-drop n xs h.1

-- a part of a sound, filled up with silence
ljust-slice :
    (n at : ℕ) (xs : Bytes)
    → AreBytes xs
    → (length (ljust n (slice at n xs)) ≡ n) × AreBytes (ljust n (slice at n xs))
unfolding ljust
ljust-slice n at xs h = (
  omega (
    arith,
    length-append (slice at n xs) (replicate (n - length (slice at n xs)) 0),
    length-replicate (n - length (slice at n xs)),
    length-take n (drop at xs),
  ),
  AreBytes-append (slice at n xs) (replicate (n - length (slice at n xs)) 0)
      (AreBytes-take n (drop at xs) (AreBytes-drop at xs h))
      (AreBytes-replicate (n - length (slice at n xs))),
)

-- The sounds of a player are bytes.
pub record HasBytes (p : Player) : Type 0 where
  pub current : AreBytes p.current_pcm
  pub pending : (e : Event) → p.event ≡ some e → AreBytes e.pcm

-- The sounds that are asked for are bytes.
abbrev pub AskBytes : List (ℕ × Bytes) → Type 0
AskBytes [] = Unit
AskBytes ((now, pcm) ∷ asked) = AreBytes pcm × AskBytes asked

-- A chunk has 440 bytes.
pub record IsChunk (r : Option (Bytes × Player)) : Type 0 where
  pub chunk : Bytes
  pub player : Player
  pub rendered : r ≡ some (chunk, player)
  pub size : length chunk ≡ 440
  pub bytes : AreBytes chunk
  pub after : HasBytes player

begin-HasBytes :
    (now : ℕ) (e : Event) (p : Player) → p.event ≡ some e → HasBytes p → HasBytes (begin now e p)
unfolding begin
begin-HasBytes now e p h b = record { current = current; pending = b.pending }
  where
    current :
        AreBytes (if ltb ((now - e.when) * 44100) (length e.pcm * 1000000000) then e.pcm else [])
    current = elim (Bool-cases (ltb ((now - e.when) * 44100) (length e.pcm * 1000000000))) [
      | inl soon ↦ rw soon (b.pending e h)
      | inr late ↦ rw late tt
    ]

next_chunk-IsChunk :
    (p : Player) → HasBytes p → (length (next_chunk p) ≡ 440) × AreBytes (next_chunk p)
unfolding next_chunk
next_chunk-IsChunk p b = ljust-slice 440 p.position p.current_pcm b.current

advance-HasBytes : (p : Player) → HasBytes p → HasBytes (advance p)
unfolding advance
advance-HasBytes p b = record { current = b.current; pending = b.pending }

is_last-IsChunk :
    (now : ℕ) (e : Event) (p : Player)
    → p.event ≡ some e
    → HasBytes p
    → (last : Bool) → is_last e p ≡ last
    → IsChunk (render_event now (some e) p)
unfolding render_event
is_last-IsChunk now e p h b true last = record {
  chunk = next_chunk p;
  player = advance p;
  rendered = rw last;
  size = (next_chunk-IsChunk p b).0;
  bytes = (next_chunk-IsChunk p b).1;
  after = advance-HasBytes p b;
}
is_last-IsChunk now e p h b false last =
    let b' = begin-HasBytes now e p h b in
    let (old_size, old_bytes) = ljust-slice 220 p.position p.current_pcm b.current in
    let (new_size, new_bytes) = next_chunk-IsChunk (begin now e p) b' in
    let (chunk, faded, size, bytes) =
      crossfade-some (fading p) (next_chunk (begin now e p)) (unfold fading in old_size) new_size
        (unfold fading in old_bytes) new_bytes in
    record {
      chunk = chunk;
      player = advance (begin now e p);
      rendered = rw (last, faded) refl;
      size = size;
      bytes = bytes;
      after = advance-HasBytes (begin now e p) b';
    }

event-IsChunk :
    (now : ℕ) (event : Option Event) (p : Player)
    → p.event ≡ event
    → HasBytes p
    → IsChunk (render_event now event p)
event-IsChunk now none p h b =
    unfold render_event in
    record {
      chunk = silence;
      player = p;
      rendered = refl;
      size = refl;
      bytes = AreBytes-replicate 440;
      after = b;
    }
event-IsChunk now (some e) p h b = is_last-IsChunk now e p h b (is_last e p) refl

-- Whatever is playing and whatever has been asked for since: rendering gives a chunk of 440 bytes.
pub render-IsChunk : (now : ℕ) (p : Player) → HasBytes p → IsChunk (render now p)
unfolding render
render-IsChunk now p b = event-IsChunk now p.event p refl b

pcm_of : Option Event → Bytes
pcm_of none = []
pcm_of (some e) = e.pcm

push-HasBytes :
    (now : ℕ) (pcm : Bytes) (p : Player) → AreBytes pcm → HasBytes p → HasBytes (push now pcm p)
unfolding push pcm_of
push-HasBytes now pcm p hp b = record {
  current = b.current;
  pending = λ e h. subst AreBytes (ap pcm_of h) hp;
}

push_all-HasBytes :
    (asked : List (ℕ × Bytes)) (p : Player)
    → AskBytes asked
    → HasBytes p
    → HasBytes (push_all asked p)
unfolding push_all
push_all-HasBytes [] p ha b = b
push_all-HasBytes ((now, pcm) ∷ asked) p ha b =
    push_all-HasBytes asked (push now pcm p) ha.1 (push-HasBytes now pcm p ha.0 b)

pub pump-next :
    (t : Slot) (slots : List Slot) (p q : Player) (chunk given : Bytes) (p' : Player)
    → render t.now (push_all t.asked p) ≡ some (chunk, q)
    → pump slots q ≡ some (given, p')
    → pump (t ∷ slots) p ≡ some ((if t.writable then chunk else []) ++ given, p')
unfolding pump
pump-next t slots p q chunk given p' h h' = ground arith

-- how many chunks the device has taken
unfoldable pub taken : List Slot → ℕ
taken [] = 0
taken (t ∷ slots) = (if t.writable then 1 else 0) + taken slots

abbrev pub AllAskBytes : List Slot → Type 0
AllAskBytes [] = Unit
AllAskBytes (t ∷ slots) = AskBytes t.asked × AllAskBytes slots

written :
    (w : Bool) (n : ℕ) (chunk given : Bytes)
    → length chunk ≡ 440
    → AreBytes chunk
    → length given ≡ 440 * n
    → AreBytes given
    → (length ((if w then chunk else []) ++ given) ≡ 440 * ((if w then 1 else 0) + n))
      × AreBytes ((if w then chunk else []) ++ given)
written true n chunk given size bytes e b =
    (omega (arith, length-append chunk given), AreBytes-append chunk given bytes b)
written false n chunk given size bytes e b = (omega arith, b)

pump_from-whole :
    (slots : List Slot) (p : Player)
    → AllAskBytes slots
    → HasBytes p
    → (given : Bytes) × (p' : Player) × (pump slots p ≡ some (given, p'))
      × (length given ≡ 440 * taken slots)
      × AreBytes given
unfolding taken
pump_from-whole [] p ha b = ([], p, unfold pump in refl, omega arith, tt)
pump_from-whole (t ∷ slots) p ha b =
    let first = render-IsChunk t.now (push_all t.asked p) (push_all-HasBytes t.asked p ha.0 b) in
    let (given, p', e, n, h) = pump_from-whole slots first.player ha.1 first.after in
    let out = written t.writable (taken slots) first.chunk given first.size first.bytes n h in
    (
      (if t.writable then first.chunk else []) ++ given,
      p',
      pump-next t slots p first.player first.chunk given p' first.rendered e,
      out.0,
      out.1,
    )

initial-HasBytes : HasBytes initial
initial-HasBytes = record { current = tt; pending = λ e h. cc }

-- Whatever is asked for, whenever, and whether or not the device stalls: the loop goes on, and the
-- device has been given 440 bytes for each round in which it took some.
pub pump-whole :
    (slots : List Slot)
    → AllAskBytes slots
    → (given : Bytes) × (p : Player) × (pump slots initial ≡ some (given, p))
      × (length given ≡ 440 * taken slots)
      × AreBytes given
pump-whole slots asked = pump_from-whole slots initial asked initial-HasBytes
