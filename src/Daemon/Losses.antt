-- ===== src/Daemon/Losses.antt =====
-- When the daemon of src/pcutp/daemon.py gives up a port, and what its bar and its options are.
use pcutp.Base.{
  ℕ, zero, suc, ◌+◌, ◌-◌, ◌*◌, ◌/◌, ◌≤◌, ◌≡◌, refl, Bool, true, false, List, [], ◌∷◌, arith, length,
  length-append, ◌==◌, if◌then◌else◌, Bool-cases, inl, inr,
}
use native.Mathlib.Nat.{mul-le-mul_right, div-le_of_le-mul}
use pcutp.Daemon.{
  Ending, clean, disconnected, link_lost, failed, Supervisor, idle, after_session, run_serial,
  repeat, percent, bar_of,
}

-- Whether the port is given up at the end of a session, from the sessions before it, the newest
-- first: where the line is dead, or the link is lost for the second time since the last session
-- that was clean or ended by a dead line.
unfoldable pub losses : List Ending → ℕ
losses [] = 0
losses (clean ∷ before) = 0
losses (disconnected ∷ before) = 0
losses (link_lost ∷ before) = losses before + 1
losses (failed ∷ before) = losses before

unfoldable pub given_up : List Ending → ℕ
unfolding losses
given_up [] = 0
given_up (disconnected ∷ before) = given_up before + 1
given_up (link_lost ∷ before) = given_up before + (if losses before == 0 then 0 else 1)
given_up (e ∷ before) = given_up before

unfoldable pub newest_first : List Ending → List Ending → List Ending
newest_first before [] = before
newest_first before (e ∷ es) = newest_first (e ∷ before) es

-- the supervisor behind these sessions
abbrev pub Counts : List Ending → Supervisor → Type 0
Counts before s = (s.lost_streak ≡ losses before) × (s.reconnects ≡ given_up before)

after_session-Counts :
    (e : Ending) (before : List Ending) (s : Supervisor)
    → Counts before s
    → Counts (e ∷ before) (after_session e s)
unfolding after_session losses given_up
after_session-Counts clean before s h = ground arith
after_session-Counts disconnected before s h = ground arith
after_session-Counts link_lost before s h = ground arith
after_session-Counts failed before s h = ground arith

run_serial-from :
    (es before : List Ending) (s : Supervisor)
    → Counts before s
    → Counts (newest_first before es) (run_serial es s)
unfolding run_serial newest_first
run_serial-from [] before s h = h
run_serial-from (e ∷ es) before s h =
    run_serial-from es (e ∷ before) (after_session e s) (after_session-Counts e before s h)

-- However the sessions end: the daemon has reconnected once for each dead line and for each lost
-- link that is not the first since the last session that was clean or ended by a dead line, and
-- `lost_streak` is the number of links lost since then.
pub run_serial-Counts : (es : List Ending) → Counts (newest_first [] es) (run_serial es idle)
unfolding losses given_up
run_serial-Counts es = run_serial-from es [] idle (refl, refl)

length-repeat : (n : ℕ) (b : Bool) → length (repeat n b) ≡ n
unfolding repeat
length-repeat zero b = refl
length-repeat (suc n) b = omega (arith, length-repeat n b)

percent_bound : (done total : ℕ) → done ≤ total → percent done total ≤ 100
unfolding percent
percent_bound done total le = elim (Bool-cases (total == 0)) [
  | inl empty ↦ rw empty (omega arith)
  | inr some_bytes ↦
      rw some_bytes (div-le_of_le-mul total {m = done * 100} {n = 100} (mul-le-mul_right 100 le))
]

-- Up to the end of a file the bar is 20 characters wide and shows at most 100 percent.
pub bar_of_width :
    (done total : ℕ)
    → done ≤ total
    → (length (bar_of (percent done total)) ≡ 20) × (percent done total ≤ 100)
unfolding bar_of
bar_of_width done total le =
    let pct = percent done total in
    (
      omega (
        arith,
        percent_bound done total le,
        length-append (repeat (pct * 20 / 100) true) (repeat (20 - pct * 20 / 100) false),
        length-repeat (pct * 20 / 100) true,
        length-repeat (20 - pct * 20 / 100) false,
      ),
      percent_bound done total le,
    )
