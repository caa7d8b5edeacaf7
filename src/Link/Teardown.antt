-- ===== src/Link/Teardown.antt =====
-- `send_fin`, `await_fin` and `linger` of src/pcutp/link.py. Each reads events of the link until
-- it is done; where they end, it is still waiting. `late` says that the deadline has passed when a
-- read ends. No read here has keep-alive, so `lost` does not come.
use text.Mathlib.Text.{◌==◌ as str_eq}
use pcutp.Base.{
  ℕ, zero, suc, Bool, true, false, Option, none, some, List, [], ◌∷◌, ◌++◌, String, if◌then◌else◌,
}
use pcutp.Server.Session.{Event, got, timed_out, too_long, lost}

abbrev pub close_retries : ℕ
close_retries = 3

-- the result, `none` while waiting; the lines sent, and the events that are left
pub record Closing : Type 0 where
  pub result : Option Bool
  pub sent : List String
  pub events : List Event

-- a line that is sent before the rest
unfoldable pub say : String → Closing → Closing
say line c = record c { sent = line ∷ c.sent }

unfoldable pub stop : Bool → List Event → Closing
stop b events = record { result = some b; sent = []; events = events }

unfoldable pub wait_on : Closing
wait_on = record { result = none; sent = []; events = [] }

-- the rounds of `send_fin`: `attempts` are left behind the one that waits for BYE
unfoldable pub await_bye : ℕ → List Event → Closing
unfolding say stop wait_on
await_bye attempts [] = wait_on
await_bye attempts (e ∷ events) =
    let again : Closing = elim attempts [
      | zero ↦ stop false events
      | suc n ↦ say "CLOSE" (await_bye n events)
    ] in
    let more = await_bye attempts events in
    elim e.reply [
      | got line ↦
          if str_eq line "BYE"
          then stop true events
          else if str_eq line "CLOSE"
          then say "BYE" (if e.late then again else more)
          else if e.late
          then again
          else more
      | timed_out ↦ again
      | too_long ↦ again
      | lost ↦ again
    ]

unfoldable pub send_fin : ℕ → List Event → Closing
unfolding await_bye say stop
send_fin zero events = stop false events
send_fin (suc attempts) events = say "CLOSE" (await_bye attempts events)

unfoldable pub await_fin : List Event → Closing
unfolding say stop wait_on
await_fin [] = wait_on
await_fin (e ∷ events) =
    let more = await_fin events in
    elim e.reply [
      | got line ↦
          if str_eq line "CLOSE"
          then say "BYE" (stop true events)
          else if e.late
          then stop false events
          else more
      | timed_out ↦ stop false events
      | too_long ↦ stop false events
      | lost ↦ stop false events
    ]

-- the result carries nothing
unfoldable pub linger : List Event → Closing
unfolding say stop wait_on
linger [] = wait_on
linger (e ∷ events) =
    let more = linger events in
    elim e.reply [
      | got line ↦
          if str_eq line "CLOSE"
          then say "BYE" (if e.late then stop true events else more)
          else if e.late
          then stop true events
          else more
      | timed_out ↦ stop true events
      | too_long ↦ stop true events
      | lost ↦ stop true events
    ]

-- a second step, on the events that the first has left, if the first is done
unfoldable pub then_do : (List Event → Closing) → Closing → Closing
then_do next c = elim c.result [
  | none ↦ c
  | some b ↦ let d = next c.events in record d { sent = c.sent ++ d.sent }
]
