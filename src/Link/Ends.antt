-- ===== src/Link/Ends.antt =====
-- The teardown of src/pcutp/link.py ends: it keeps to the events that it is given, and waits only at
-- their end.
use pcutp.Base.{ℕ, zero, suc, ◌≤◌, ◌≡◌, refl, none, List, [], ◌∷◌, arith, length}
use pcutp.Link.Teardown.{
  Closing, say, stop, wait_on, await_bye, send_fin, linger, then_do, close_retries,
}
use pcutp.Server.Session.{Event}

-- A teardown keeps to the events that it is given, and waits only at their end.
pub record Ends (n : ℕ) (c : Closing) : Type 0 where
  pub few : length c.events ≤ n
  pub all_read : c.result ≡ none → c.events ≡ []

await_bye-Ends :
    (attempts : ℕ) (events : List Event) (n : ℕ)
    → length events ≤ n
    → Ends n (await_bye attempts events)
unfolding await_bye say stop wait_on
await_bye-Ends attempts [] n h = record { few = omega arith; all_read = λ e. refl }
await_bye-Ends zero (e ∷ events) n h = ground (arith, await_bye-Ends zero events n (omega arith))
await_bye-Ends (suc attempts) (e ∷ events) n h = ground (
  arith,
  await_bye-Ends attempts events n (omega arith),
  await_bye-Ends (suc attempts) events n (omega arith),
)

linger-Ends : (events : List Event) (n : ℕ) → length events ≤ n → Ends n (linger events)
unfolding linger say stop wait_on
linger-Ends [] n h = record { few = omega arith; all_read = λ e. refl }
linger-Ends (e ∷ events) n h = ground (arith, linger-Ends events n (omega arith))

then_do-Ends :
    (next : List Event → Closing) (n : ℕ) (c : Closing)
    → Ends n c
    → Ends n (next c.events)
    → Ends n (then_do next c)
unfolding then_do
then_do-Ends next n c h h' = ground arith

pub hang_up-Ends :
    (events : List Event) → Ends (length events) (then_do linger (send_fin close_retries events))
unfolding send_fin say
hang_up-Ends events =
    then_do-Ends linger (length events) (send_fin 3 events) fin
      (linger-Ends (send_fin 3 events).events (length events) fin.few)
  where
    fin : Ends (length events) (send_fin 3 events)
    fin = ground (arith, await_bye-Ends 2 events (length events) (omega arith))
