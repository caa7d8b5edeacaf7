-- ===== src/Server/Bounds.antt =====
-- The window of the sender: what is in flight is bounded, and the end is reached with every block
-- acknowledged.
use Prim.Native.Nat.{min}
use pcutp.Base.{
  ℕ, zero, suc, ◌+◌, ◌-◌, ◌≤◌, ◌≡◌, refl, Bool, true, false, Option, none, some, List, String,
  Bytes, arith, length, ltb,
}
use pcutp.Base.Text.{split, int, part}
use pcutp.Errors.{Kind}
use pcutp.Client.Header.{starts}
use pcutp.Server.Session.{Server, Action, pure, raise, send_payload, recv_or_timeout, ◌>>=◌}
use pcutp.Server.Recovery.{probe_receiver, recover_window}
use pcutp.Server.Window.{
  Window, Reaction, wait, next, first_window, find_frame, make_frame, attempts_of, send_frame,
  send_next, fill, take_ack, restart_at, take_reset, recover_at, take_gap, judge, take_reply,
  after_wait, await_reply, go_on, await_loop, send_round, send_loop, send_window,
}
use pcutp.Server.Ensures.{
  Returns, Any, Ensures, Ensures-pure, Ensures-raise, Ensures-waiting, Ensures-if, Ensures-bind,
}
use pcutp.Server.Recovers.{
  Between, recv_or_timeout-Ensures, probe_receiver-Ensures, recover_window-Ensures,
}

-- The window is between the acknowledged blocks and the end of the file, and holds no more blocks
-- than were negotiated; the counters stay below their limits.
abbrev pub InWindow : ℕ → ℕ → ℕ → Window → Type 0
InWindow blocks window max_retries w =
    (w.base ≤ w.next_seq)
    × (w.next_seq ≤ blocks)
    × (w.next_seq ≤ w.base + window)
    × (1 ≤ w.cwnd)
    × (w.cwnd ≤ window)
    × (w.resets ≤ 2)
    × (w.recoveries ≤ max_retries)

-- A window that has reached the end of the file.
abbrev pub IsComplete : ℕ → ℕ → ℕ → Window → Type 0
IsComplete blocks window max_retries w =
    InWindow blocks window max_retries w × (w.base ≡ blocks) × (w.next_seq ≡ blocks)

abbrev pub OnReaction : (Window → Type 0) → Reaction → Type 0
OnReaction P (wait w) = P w
OnReaction P (next w) = P w

module _ (blocks window max_retries : ℕ) (room : 1 ≤ window) where
  abbrev Good : Window → Type 0
  Good = InWindow blocks window max_retries

  take_ack-Ensures :
      (w : Window) (ack : ℕ) (late : Bool)
      → Good w
      → Ensures window max_retries (OnReaction Good) (take_ack w ack late window)
  unfolding take_ack
  take_ack-Ensures w ack late g = record { at = λ s h. (ground arith, ground arith) }

  restart_at-Ensures :
      (w : Window) (seq : ℕ)
      → Good w
      → w.resets + 1 ≤ 2
      → Ensures window max_retries (OnReaction Good) (restart_at w seq)
  unfolding restart_at
  restart_at-Ensures w seq g few = record { at = λ s h. (ground arith, ground arith) }

  take_reset-Ensures :
      (w : Window) → Good w → Ensures window max_retries (OnReaction Good) (take_reset w)
  unfolding take_reset
  take_reset-Ensures w g =
      Ensures-if (OnReaction Good) _ (raise Kind.retry) _
        (λ _. Ensures-raise (OnReaction Good) Kind.retry)
        (λ few.
          Ensures-bind (Between 0 w.next_seq) (OnReaction Good) (recover_window 0 w.next_seq)
            (restart_at w) (recover_window-Ensures 0 w.next_seq)
            (λ seq p. restart_at-Ensures w seq g (ground arith)))

  recover_at-Ensures :
      (w : Window) (base : ℕ)
      → Good w
      → Between w.base w.next_seq base
      → Ensures window max_retries (OnReaction Good) (recover_at w max_retries base)
  unfolding recover_at
  recover_at-Ensures w base g b = record { at = λ s h. (ground arith, ground arith) }

  take_gap-Ensures :
      (w : Window) → Good w → Ensures window max_retries (OnReaction Good) (take_gap w max_retries)
  unfolding take_gap
  take_gap-Ensures w g =
      Ensures-bind (Between w.base w.next_seq) (OnReaction Good) (recover_window w.base w.next_seq)
        (recover_at w max_retries) (recover_window-Ensures w.base w.next_seq)
        (λ base b. recover_at-Ensures w base g b)

  judge-Ensures :
      (w : Window) (parts : List String) (late : Bool)
      → Good w
      → Ensures window max_retries (OnReaction Good) (judge w parts late)
  unfolding judge
  judge-Ensures w parts late g = record {
    at = λ s h. ground (
      arith,
      (take_ack-Ensures w (int (part parts 1)) late g).at s h,
      (take_reset-Ensures w g).at s h,
      (take_gap-Ensures w g).at s h,
    );
  }

  take_reply-Ensures :
      (w : Window) (reply : String) (late : Bool)
      → Good w
      → Ensures window max_retries (OnReaction Good) (take_reply w reply late)
  unfolding take_reply
  take_reply-Ensures w reply late g =
      Ensures-if (OnReaction Good) (starts (split reply) "HERE") _ (judge w (split reply) late)
        (λ _.
          Ensures-if (OnReaction Good) late _ (pure (wait w))
            (λ _.
              Ensures-bind Any (OnReaction Good) probe_receiver _ probe_receiver-Ensures
                (λ reply' _. judge-Ensures w (split reply') true g))
            (λ _. Ensures-pure (OnReaction Good) (wait w) g))
        (λ _. judge-Ensures w (split reply) late g)

  after_wait-Ensures :
      (w : Window) (read : Option (String × Bool))
      → Good w
      → Ensures window max_retries (OnReaction Good) (after_wait w read)
  unfolding after_wait
  after_wait-Ensures w (some (reply, late)) g = take_reply-Ensures w reply late g
  after_wait-Ensures w none g =
      Ensures-bind Any (OnReaction Good) probe_receiver _ probe_receiver-Ensures (λ reply _.
        take_reply-Ensures (record w { cwnd = 1; clean_acks = 0 }) reply true (ground arith))

  await_reply-Ensures :
      (w : Window) → Good w → Ensures window max_retries (OnReaction Good) (await_reply w)
  unfolding await_reply
  await_reply-Ensures w g =
      Ensures-bind Any (OnReaction Good) recv_or_timeout (after_wait w) recv_or_timeout-Ensures
        (λ read _. after_wait-Ensures w read g)

  go_on-Ensures :
      (more : Window → Action Window) (reaction : Reaction)
      → ((w : Window) → Good w → Ensures window max_retries Good (more w))
      → OnReaction Good reaction
      → Ensures window max_retries Good (go_on more reaction)
  unfolding go_on
  go_on-Ensures more (next w) hm g = Ensures-pure Good w g
  go_on-Ensures more (wait w) hm g = hm w g

  await_loop-Ensures :
      (fuel : ℕ) (w : Window) → Good w → Ensures window max_retries Good (await_loop fuel w)
  unfolding await_loop
  await_loop-Ensures zero w g = Ensures-waiting Good
  await_loop-Ensures (suc fuel) w g =
      Ensures-bind (OnReaction Good) Good (await_reply w) (go_on (await_loop fuel))
        (await_reply-Ensures w g)
        (λ reaction p.
          go_on-Ensures (await_loop fuel) reaction (λ w' g'. await_loop-Ensures fuel w' g') p)

module _ (zlib_crc32 : Bytes → ℕ → ℕ) (input : Bytes) (blocks window max_retries : ℕ)
    (room : 1 ≤ window) where
  HasSettings-find_frame :
      (seq : ℕ) (frames : List (ℕ × (String × Bytes)))
      → Ensures window max_retries Any (find_frame zlib_crc32 input blocks seq frames)
  unfolding find_frame make_frame
  HasSettings-find_frame seq frames = record { at = λ s h. (ground arith, ground arith) }

  abbrev HasRoom : ℕ → Window → Type 0
  HasRoom n w =
      InWindow blocks window max_retries w × (n ≤ min blocks (w.base + w.cwnd) - w.next_seq)

  send_frame-Ensures :
      (w : Window) (n count : ℕ) (frame : String × Bytes)
      → HasRoom (suc n) w
      → Ensures window max_retries (HasRoom n) (send_frame zlib_crc32 input blocks w count frame)
  unfolding send_frame send_payload
  send_frame-Ensures w n count frame (g, fits) = record { at = λ s h. (h, ground arith) }

  send_next-Ensures :
      (w : Window) (n : ℕ)
      → HasRoom (suc n) w
      → Ensures window max_retries (HasRoom n) (send_next zlib_crc32 input blocks w)
  unfolding send_next
  send_next-Ensures w n g = record { at = λ s h. ground (arith, sent.at s h) }
    where
      count : ℕ
      count = attempts_of zlib_crc32 input blocks w.next_seq w.attempts

      sent : Ensures window max_retries (HasRoom n) (
          find_frame zlib_crc32 input blocks w.next_seq w.frames
          >>= send_frame zlib_crc32 input blocks w count)
      sent =
          Ensures-bind Any (HasRoom n) (find_frame zlib_crc32 input blocks w.next_seq w.frames)
            (send_frame zlib_crc32 input blocks w count)
            (HasSettings-find_frame w.next_seq w.frames)
            (λ frame _. send_frame-Ensures w n count frame g)

  fill-Ensures :
      (n : ℕ) (w : Window)
      → HasRoom n w
      → Ensures window max_retries
          (InWindow blocks window max_retries)
          (fill zlib_crc32 input blocks n w)
  unfolding fill
  fill-Ensures zero w g = Ensures-pure (InWindow blocks window max_retries) w g.0
  fill-Ensures (suc n) w g =
      Ensures-bind (HasRoom n) (InWindow blocks window max_retries)
        (send_next zlib_crc32 input blocks w) (fill zlib_crc32 input blocks n)
        (send_next-Ensures w n g) (λ w' g'. fill-Ensures n w' g')

  send_round-Ensures :
      (fuel : ℕ) (more : Window → Action Window) (w : Window) (b : Bool)
      → ltb w.base blocks ≡ b
      → InWindow blocks window max_retries w
      → ((w' : Window)
          → InWindow blocks window max_retries w'
          → Ensures window max_retries (IsComplete blocks window max_retries) (more w'))
      → Ensures window max_retries
          (IsComplete blocks window max_retries)
          (send_round zlib_crc32 input blocks fuel more w b)
  unfolding send_round
  send_round-Ensures fuel more w false e g hm =
      Ensures-pure (IsComplete blocks window max_retries) w (g, ground arith, ground arith)
  send_round-Ensures fuel more w true e g hm =
      Ensures-bind (InWindow blocks window max_retries) (IsComplete blocks window max_retries)
        (fill zlib_crc32 input blocks (min blocks (w.base + w.cwnd) - w.next_seq) w) _
        (fill-Ensures (min blocks (w.base + w.cwnd) - w.next_seq) w (g, omega arith))
        (λ w₁ g₁.
          Ensures-bind (InWindow blocks window max_retries) (IsComplete blocks window max_retries)
            (await_loop fuel w₁) more (await_loop-Ensures blocks window max_retries room fuel w₁ g₁)
            hm)

  send_loop-Ensures :
      (fuel : ℕ) (w : Window)
      → InWindow blocks window max_retries w
      → Ensures window max_retries
          (IsComplete blocks window max_retries)
          (send_loop zlib_crc32 input blocks fuel w)
  unfolding send_loop
  send_loop-Ensures zero w g = Ensures-waiting (IsComplete blocks window max_retries)
  send_loop-Ensures (suc fuel) w g =
      send_round-Ensures (suc fuel) (send_loop zlib_crc32 input blocks fuel) w (ltb w.base blocks)
        refl g (λ w' g'. send_loop-Ensures fuel w' g')

-- Whatever replies come: a windowed transfer that returns has every block of the file
-- acknowledged and none in flight, after at most two resets and with the recovery counter within
-- its limit.
pub send_window-IsComplete :
    (zlib_crc32 : Bytes → ℕ → ℕ) (input : Bytes) (blocks : ℕ) (s : Server)
    → 1 ≤ s.window_size
    → Returns
        (IsComplete blocks s.window_size s.max_retries)
        (send_window zlib_crc32 input blocks s).0
unfolding send_window
send_window-IsComplete zlib_crc32 input blocks s room =
    ((send_loop-Ensures zlib_crc32 input blocks s.window_size s.max_retries room
        (length s.events + 2) first_window (omega arith)).at
      s (refl, refl)).1
