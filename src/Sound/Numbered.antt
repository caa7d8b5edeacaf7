-- ===== src/Sound/Numbered.antt =====
-- The numbers of the events in the player of src/pcutp/sound.py: an event that has been rendered is
-- older than the next one.
use pcutp.Base.{
  ℕ, ◌<◌, ◌≡◌, refl, ap, Bool, true, false, Option, none, some, List, [], ◌∷◌, Bytes, arith,
}
use pcutp.Sound.Samples.{crossfade}
use pcutp.Sound.Player.{
  Event, Player, push, push_all, is_last, begin, next_chunk, advance, fading, render_event,
}

-- The event that was rendered last is an old one.
abbrev pub IsFresh : Player → Type 0
IsFresh p = (n : ℕ) → p.last_rendered ≡ some n → n < p.next_name

-- That holds of the event to be rendered, too.
pub record IsNumbered (p : Player) : Type 0 where
  pub last : IsFresh p
  pub event : (e : Event) → p.event ≡ some e → e.name < p.next_name

abbrev pub AreNumbered : Option (Bytes × Player) → Type 0
AreNumbered none = Unit
AreNumbered (some r) = IsNumbered (r.1)

name_of : Option Event → ℕ
name_of none = 0
name_of (some e) = e.name

pub push-IsNumbered :
    (now : ℕ) (pcm : Bytes) (p : Player) → IsNumbered p → IsNumbered (push now pcm p)
unfolding push name_of
push-IsNumbered now pcm p h = record {
  last = λ n e. omega (arith, h.last n e);
  event = λ e eq. omega (arith, ap name_of eq);
}

pub push_all-IsNumbered :
    (asked : List (ℕ × Bytes)) (p : Player) → IsNumbered p → IsNumbered (push_all asked p)
unfolding push_all
push_all-IsNumbered [] p h = h
push_all-IsNumbered ((now, pcm) ∷ asked) p h =
    push_all-IsNumbered asked (push now pcm p) (push-IsNumbered now pcm p h)

begin-IsNumbered :
    (now : ℕ) (e : Event) (p : Player)
    → p.event ≡ some e
    → IsNumbered p
    → (o : Option Bytes)
    → AreNumbered (elim o as (λ _. Option (Bytes × Player)) [
      | none ↦ none
      | some chunk ↦ some (chunk, advance (begin now e p))
    ])
unfolding begin advance
begin-IsNumbered now e p eq h none = tt
begin-IsNumbered now e p eq h (some chunk) = record {
  last = λ n l. ground (arith, h.event e eq);
  event = h.event;
}

last-AreNumbered :
    (now : ℕ) (e : Event) (p : Player)
    → p.event ≡ some e
    → IsNumbered p
    → (last : Bool) → is_last e p ≡ last
    → AreNumbered (render_event now (some e) p)
unfolding render_event
last-AreNumbered now e p eq h true last =
    rw last (unfold advance in record { last = h.last; event = h.event })
last-AreNumbered now e p eq h false last =
    rw last (begin-IsNumbered now e p eq h (crossfade (fading p) (next_chunk (begin now e p))))

pub render-AreNumbered :
    (now : ℕ) (event : Option Event) (p : Player)
    → p.event ≡ event
    → IsNumbered p
    → AreNumbered (render_event now event p)
render-AreNumbered now none p eq h = unfold render_event in h
render-AreNumbered now (some e) p eq h = last-AreNumbered now e p eq h (is_last e p) refl
