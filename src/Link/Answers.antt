-- ===== src/Link/Answers.antt =====
-- The teardown of src/pcutp/link.py answers: each CLOSE that is read gets its BYE, and the CLOSE
-- lines that are sent are bounded.
use text.Mathlib.Text.{◌==◌ as str_eq}
use text.Mathlib.TextEquality.{eq_iff}
use pcutp.Base.{
  ℕ, zero, suc, ◌+◌, ◌≤◌, ◌≡◌, refl, Bool, true, false, List, [], ◌∷◌, ◌++◌, arith, String,
  if◌then◌else◌,
}
use pcutp.Server.Session.{Event, Reply, got, timed_out, too_long, lost}
use pcutp.Link.Teardown.{
  Closing, say, stop, wait_on, await_bye, send_fin, await_fin, linger, then_do,
}

-- how often a line stands in a list
unfoldable pub count : String → List String → ℕ
count w [] = 0
count w (l ∷ ls) = (if str_eq l w then 1 else 0) + count w ls

-- how often a line is delivered
unfoldable pub heard : String → List Event → ℕ
heard w [] = 0
heard w (e ∷ es) = elim e.reply [
  | got line ↦ (if str_eq line w then 1 else 0) + heard w es
  | timed_out ↦ heard w es
  | too_long ↦ heard w es
  | lost ↦ heard w es
]

-- With what is left, all that came: each CLOSE that was read is answered, at most `n` are sent,
-- and a success has read a BYE.
abbrev pub Answers : ℕ → List Event → Closing → Type 0
Answers n es c =
    (heard "CLOSE" es ≡ count "BYE" c.sent + heard "CLOSE" c.events) × (count "CLOSE" c.sent ≤ n)

bye-ne-close : (line : String) → str_eq line "BYE" ≡ true → str_eq line "CLOSE" ≡ false
bye-ne-close line h = rw ((eq_iff line "BYE").0 h) refl

await_bye-event :
    (n : ℕ) (reply : Reply) (late : Bool) (es : List Event)
    → ((m : ℕ) → Answers m es (await_bye m es))
    → Answers n
        (record { reply = reply; late = late } ∷ es)
        (await_bye n (record { reply = reply; late = late } ∷ es))
unfolding await_bye say stop count heard
await_bye-event zero (got line) late es h = ground (arith, h 0, bye-ne-close line)
await_bye-event (suc n) (got line) late es h = ground (arith, h n, h (suc n), bye-ne-close line)
await_bye-event zero _ late es h = ground arith
await_bye-event (suc n) _ late es h = ground (arith, h n)

await_bye-Answers : (es : List Event) (n : ℕ) → Answers n es (await_bye n es)
await_bye-Answers [] n = unfold await_bye wait_on count heard in ground arith
await_bye-Answers (e ∷ es) n = await_bye-event n e.reply e.late es (await_bye-Answers es)

pub send_fin-Answers : (n : ℕ) (es : List Event) → Answers n es (send_fin n es)
unfolding send_fin say stop count
send_fin-Answers zero es = ground arith
send_fin-Answers (suc n) es = ground (arith, await_bye-Answers es n)

await_fin-event :
    (reply : Reply) (late : Bool) (es : List Event)
    → Answers 0 es (await_fin es)
    → Answers 0
        (record { reply = reply; late = late } ∷ es)
        (await_fin (record { reply = reply; late = late } ∷ es))
unfolding await_fin say stop count heard
await_fin-event (got line) late es h = ground arith
await_fin-event _ late es h = ground arith

pub await_fin-Answers : (es : List Event) → Answers 0 es (await_fin es)
await_fin-Answers [] = unfold await_fin wait_on count heard in ground arith
await_fin-Answers (e ∷ es) = await_fin-event e.reply e.late es (await_fin-Answers es)

linger-event :
    (reply : Reply) (late : Bool) (es : List Event)
    → Answers 0 es (linger es)
    → Answers 0
        (record { reply = reply; late = late } ∷ es)
        (linger (record { reply = reply; late = late } ∷ es))
unfolding linger say stop count heard
linger-event (got line) late es h = ground arith
linger-event _ late es h = ground arith

pub linger-Answers : (es : List Event) → Answers 0 es (linger es)
linger-Answers [] = unfold linger wait_on count heard in ground arith
linger-Answers (e ∷ es) = linger-event e.reply e.late es (linger-Answers es)

count-append : (w : String) (xs ys : List String) → count w (xs ++ ys) ≡ count w xs + count w ys
unfolding count
count-append w [] ys = omega arith
count-append w (x ∷ xs) ys = omega (arith, count-append w xs ys)

pub then_do-Answers :
    (n k : ℕ) (es : List Event) (next : List Event → Closing) (c : Closing)
    → Answers n es c
    → ((es' : List Event) → Answers k es' (next es'))
    → Answers (n + k) es (then_do next c)
unfolding then_do
then_do-Answers n k es next c h hn = ground (
  arith,
  hn c.events,
  count-append "BYE" c.sent (next c.events).sent,
  count-append "CLOSE" c.sent (next c.events).sent,
)
