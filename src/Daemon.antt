-- ===== src/Daemon.antt =====
-- src/pcutp/daemon.py: the decisions of the loop round `serve_once` in `run_serial`, the wait for a
-- port that is gone, the control commands, the progress bar and the block size of the command line.
-- Serial ports, sockets and printed texts are left out.
pub mod Losses
use text.Mathlib.Text.{◌==◌ as str_eq}
use pcutp.Base.{
  ℕ, zero, suc, ◌+◌, ◌-◌, ◌*◌, ◌/◌, Bool, true, false, ◌&&◌, ◌||◌, not, Option, none, some, List,
  [], ◌∷◌, ◌++◌, String, ltb, leb, ◌==◌, if◌then◌else◌,
}
use pcutp.Base.Text.{str, unwords}
use pcutp.Errors.{Kind, Result, ok, err, raise}

abbrev pub link_lost_threshold : ℕ
link_lost_threshold = 2

-- how a call of `serve_once` ends: it returns; SerialException or OSError; LinkLostError or
-- TimeoutError_; another PcutpError
pub data Ending : Type 0 where
  clean : Ending
  disconnected : Ending
  link_lost : Ending
  failed : Ending

-- `lost_streak`, how often `reconnect` was called, and how often the loop dropped its input
pub record Supervisor : Type 0 where
  pub lost_streak : ℕ
  pub reconnects : ℕ
  pub discards : ℕ

abbrev pub idle : Supervisor
idle = record { lost_streak = 0; reconnects = 0; discards = 0 }

-- a round of `while True`
unfoldable pub after_session : Ending → Supervisor → Supervisor
after_session clean s = record s { lost_streak = 0 }
after_session disconnected s = record s { lost_streak = 0; reconnects = s.reconnects + 1 }
after_session link_lost s =
    let s' = record s { lost_streak = s.lost_streak + 1 } in
    if ltb s'.lost_streak link_lost_threshold
    then record s' { discards = s'.discards + 1 }
    else record s' { reconnects = s'.reconnects + 1 }
after_session failed s = record s { discards = s.discards + 1 }

unfoldable pub run_serial : List Ending → Supervisor → Supervisor
unfolding after_session
run_serial [] s = s
run_serial (e ∷ es) s = run_serial es (after_session e s)

-- a look at the port: whether it exists, and whether the deadline has passed
pub record Look : Type 0 where
  pub exists : Bool
  pub late : Bool

-- `wait_for_port`; `none` while it polls
unfoldable pub wait_for_port : List Look → Option Bool
wait_for_port [] = none
wait_for_port (l ∷ ls) =
    let later = wait_for_port ls in
    if l.exists then some true else if l.late then some false else later

-- a round of `reconnect`: what the wait finds, and whether the port can be opened
pub record Attempt : Type 0 where
  pub looks : List Look
  pub opens : Bool

-- `reconnect`: whether it has a new transport, or TimeoutError_; `none` while it waits
unfoldable pub reconnect : List Attempt → Option (Result (Unit {0}))
unfolding wait_for_port
reconnect [] = none
reconnect (a ∷ attempts) =
    let again = reconnect attempts in
    elim (wait_for_port a.looks) [
      | none ↦ none
      | some found ↦
          if not found then some (raise Kind.timeout) else if a.opens then some (ok tt) else again
    ]

-- `resolve_port`, on the ports that `usb_ports` has found; `none` ends the program
unfoldable pub resolve_port : String → List (String × String) → Option String
resolve_port requested [] = if not (str_eq requested "auto") then some requested else none
resolve_port requested ((path, desc) ∷ []) =
    if not (str_eq requested "auto") then some requested else some path
resolve_port requested (port ∷ port' ∷ ports) =
    if not (str_eq requested "auto") then some requested else none

-- `control_idle`: the next bit, and the lines that are sent
unfoldable pub control_idle : List String → ℕ → ℕ × List String
control_idle [] control_bit = (control_bit, [])
control_idle (command ∷ commands) control_bit =
    let asked = control_idle commands (1 - control_bit) in
    let ignored = control_idle commands control_bit in
    if str_eq command "RMB"
    then (asked.0, unwords ("RMB?" ∷ str control_bit ∷ []) ∷ asked.1)
    else ignored

-- `Console`, with the bar, the percentage and the two counts of its text, if there is one; times
-- in milliseconds
pub record Console : Type 0 where
  pub show_bar : Bool
  pub bar : Option (List Bool × ℕ × ℕ × ℕ)
  pub last_progress_at : ℕ
  pub last_progress_bytes : ℕ

unfoldable pub repeat : ℕ → Bool → List Bool
repeat zero b = []
repeat (suc n) b = b ∷ repeat n b

-- the percentage, and the bar: `true` stands for `#` and `false` for `-`
unfoldable pub percent : ℕ → ℕ → ℕ
percent done total = if total == 0 then 100 else done * 100 / total

unfoldable pub bar_of : ℕ → List Bool
unfolding repeat
bar_of pct = let filled = pct * 20 / 100 in repeat filled true ++ repeat (20 - filled) false

-- `progress`, at the time `now`
unfoldable pub progress : ℕ → ℕ → ℕ → Console → Console
unfolding percent bar_of
progress now done total c =
    if not c.show_bar
    then c
    else if not (done == total)
        && (ltb done (c.last_progress_bytes + 65536) && ltb now (c.last_progress_at + 250))
    then c
    else record c {
      last_progress_at = now;
      last_progress_bytes = done;
      bar = some (bar_of (percent done total), percent done total, done, total);
    }

-- `done`
unfoldable pub finish : Console → Console
finish c = elim c.bar [
  | none ↦ c
  | some bar ↦ record c { bar = none; last_progress_at = 0; last_progress_bytes = 0 }
]

-- `_block_size`: `none` for ArgumentTypeError, and `auto` as `some none`. The parameter is `int`,
-- with `none` where it raises ValueError or is below zero, which is refused in the same words.
unfoldable pub block_size_arg : (String → Option ℕ) → String → Option (Option ℕ)
block_size_arg python_int value =
    if str_eq value "auto" then some none else elim (python_int value) [
      | none ↦ none
      | some size ↦ if leb 1 size && leb size 4096 then some (some size) else none
    ]
