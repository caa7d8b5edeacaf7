-- ===== src/Client/Closes.antt =====
-- The end of a session by `close` of src/pcutp/client.py.
use pcutp.Base.{ℕ, ◌+◌, ◌≤◌, List, arith}
use pcutp.Server.Session.{Event}
use pcutp.Link.Teardown.{Closing, send_fin, await_fin, linger, then_do}
use pcutp.Link.Answers.{
  Answers, send_fin-Answers, await_fin-Answers, linger-Answers, then_do-Answers,
}
use pcutp.Client.Calls.{after_fin, close}

at_most : (n k : ℕ) (es : List Event) (c : Closing) → n ≤ k → Answers n es c → Answers k es c
at_most n k es c le h = (h.0, omega (arith, h.1))

after_fin-Answers :
    (n : ℕ) (es : List Event) (c : Closing) → Answers n es c → Answers n es (after_fin es c)
unfolding after_fin
after_fin-Answers n es c h = ground (
  arith,
  then_do-Answers n 0 es linger c h linger-Answers,
  then_do-Answers n 0 es await_fin c h await_fin-Answers,
  then_do-Answers n 0 es linger (then_do await_fin c)
      (at_most (n + 0) n es (then_do await_fin c) (omega arith)
        (then_do-Answers n 0 es await_fin c h await_fin-Answers))
      linger-Answers,
)

-- Whatever comes: `close` answers each CLOSE that it reads by a BYE, and sends at most three CLOSE.
pub close-Answers : (events : List Event) → Answers 3 events (close events)
unfolding close
close-Answers events = after_fin-Answers 3 events (send_fin 3 events) (send_fin-Answers 3 events)
