-- ===== src/Server/Waits.antt =====
-- The windowed transfer of src/pcutp/server.py ends: its fuel is enough for what the link
-- delivers.
use Prim.Native.Nat.{min}
use pcutp.Base.{
  ℕ, zero, suc, ◌+◌, ◌-◌, ◌≡◌, Bool, true, false, Option, none, some, List, [], arith, String,
  Bytes, length, ltb,
}
use pcutp.Base.Text.{split, int, part}
use pcutp.Client.Header.{starts}
use pcutp.Server.Session.{
  Server, Outcome, waiting, Action, pure, recv_or_timeout, send_payload, ◌>>=◌,
}
use pcutp.Server.Recovery.{probe_receiver, recover_window}
use pcutp.Server.Draining.{
  Leaves, Draining, Taking, Draining-pure, Draining-raise, Draining-if, Draining-Taking,
  Draining-bind, Taking-bind, Leaves-more,
}
use pcutp.Server.Progress.{recv_or_timeout-Taking, probe_receiver-Draining, recover_window-Draining}
use pcutp.Errors.{Kind}
use pcutp.Server.Window.{
  Window, Reaction, wait, next, first_window, find_frame, make_frame, take_ack, restart_at,
  take_reset, recover_at, take_gap, judge, take_reply, after_wait, await_reply, go_on, await_loop,
  send_frame, send_next, fill, send_round, send_loop, send_window, attempts_of,
}

take_ack-Draining :
    (k : ℕ) (w : Window) (ack : ℕ) (late : Bool) (window : ℕ)
    → Draining k (take_ack w ack late window)
unfolding take_ack
take_ack-Draining k w ack late window = record { at = λ n s h lt. ground arith }

take_reset-Draining : (k : ℕ) (w : Window) → Draining k (take_reset w)
unfolding take_reset restart_at
take_reset-Draining k w = Draining-if k _ _ _ (Draining-raise k Kind.retry) (
    Draining-bind (restart_at w) k (recover_window 0 w.next_seq)
      (recover_window-Draining k 0 w.next_seq) (λ seq. record { at = λ n s h lt. ground arith }))

take_gap-Draining : (k : ℕ) (w : Window) (max_retries : ℕ) → Draining k (take_gap w max_retries)
unfolding take_gap recover_at
take_gap-Draining k w max_retries =
    Draining-bind (recover_at w max_retries) k (recover_window w.base w.next_seq)
      (recover_window-Draining k w.base w.next_seq)
      (λ base. record { at = λ n s h lt. ground arith })

judge-Draining :
    (k : ℕ) (w : Window) (parts : List String) (late : Bool) → Draining k (judge w parts late)
unfolding judge
judge-Draining k w parts late = record {
  at = λ n s h lt. ground (
    arith,
    (take_ack-Draining k w (int (part parts 1)) late s.window_size).at n s h lt,
    (take_reset-Draining k w).at n s h lt,
    (take_gap-Draining k w s.max_retries).at n s h lt,
  );
}

take_reply-Draining :
    (k : ℕ) (w : Window) (reply : String) (late : Bool) → Draining k (take_reply w reply late)
unfolding take_reply
take_reply-Draining k w reply late =
    Draining-if k (starts (split reply) "HERE") _ (judge w (split reply) late)
      (Draining-if k late _ (pure (wait w))
        (Draining-bind _ k probe_receiver (probe_receiver-Draining k)
          (λ reply'. judge-Draining k w (split reply') true))
        (Draining-pure k (wait w)))
      (judge-Draining k w (split reply) late)

after_wait-Draining :
    (k : ℕ) (w : Window) (read : Option (String × Bool)) → Draining k (after_wait w read)
unfolding after_wait
after_wait-Draining k w (some (reply, late)) = take_reply-Draining k w reply late
after_wait-Draining k w none =
    Draining-bind _ k probe_receiver (probe_receiver-Draining k)
      (λ reply. take_reply-Draining k (record w { cwnd = 1; clean_acks = 0 }) reply true)

await_reply-Taking : (k : ℕ) (w : Window) → Taking (suc k) (await_reply w)
unfolding await_reply
await_reply-Taking k w =
    Taking-bind (after_wait w) k recv_or_timeout (recv_or_timeout-Taking (suc k))
      (after_wait-Draining k w)

go_on-Draining :
    (k : ℕ) (more : Window → Action Window) (reaction : Reaction)
    → ((w : Window) → Draining k (more w))
    → Draining k (go_on more reaction)
unfolding go_on
go_on-Draining k more (next w) hm = Draining-pure k w
go_on-Draining k more (wait w) hm = hm w

await_loop-Taking : (k : ℕ) (w : Window) → Taking k (await_loop k w)
unfolding await_loop
await_loop-Taking zero w = record { at = λ n s h lt. absurd (omega arith) }
await_loop-Taking (suc k) w =
    Taking-bind (go_on (await_loop k)) k (await_reply w) (await_reply-Taking k w) (λ reaction.
      go_on-Draining k (await_loop k) reaction
        (λ w'. Draining-Taking k (await_loop k w') (await_loop-Taking k w')))

module _ (zlib_crc32 : Bytes → ℕ → ℕ) (input : Bytes) (blocks : ℕ) where
  find_frame-Draining :
      (k seq : ℕ) (frames : List (ℕ × (String × Bytes)))
      → Draining k (find_frame zlib_crc32 input blocks seq frames)
  unfolding find_frame make_frame
  find_frame-Draining k seq frames = record { at = λ n s h lt. ground arith }

  send_frame-Draining :
      (k : ℕ) (w : Window) (count : ℕ) (frame : String × Bytes)
      → Draining k (send_frame zlib_crc32 input blocks w count frame)
  unfolding send_frame send_payload
  send_frame-Draining k w count frame = record { at = λ n s h lt. h }

  send_next-Draining : (k : ℕ) (w : Window) → Draining k (send_next zlib_crc32 input blocks w)
  unfolding send_next
  send_next-Draining k w = record { at = λ n s h lt. ground (arith, sent.at n s h lt) }
    where
      count : ℕ
      count = attempts_of zlib_crc32 input blocks w.next_seq w.attempts

      sent : Draining k (
          find_frame zlib_crc32 input blocks w.next_seq w.frames
          >>= send_frame zlib_crc32 input blocks w count)
      sent =
          Draining-bind (send_frame zlib_crc32 input blocks w count) k
            (find_frame zlib_crc32 input blocks w.next_seq w.frames)
            (find_frame-Draining k w.next_seq w.frames) (send_frame-Draining k w count)

  fill-Draining : (k n : ℕ) (w : Window) → Draining k (fill zlib_crc32 input blocks n w)
  unfolding fill
  fill-Draining k zero w = Draining-pure k w
  fill-Draining k (suc n) w =
      Draining-bind (fill zlib_crc32 input blocks n) k (send_next zlib_crc32 input blocks w)
        (send_next-Draining k w) (fill-Draining k n)

  send_round-Draining :
      (k : ℕ) (more : Window → Action Window) (w : Window) (b : Bool)
      → ((w' : Window) → Draining k (more w'))
      → Draining (suc k) (send_round zlib_crc32 input blocks (suc k) more w b)
  unfolding send_round
  send_round-Draining k more w false hm = Draining-pure (suc k) w
  send_round-Draining k more w true hm =
      Draining-bind _ (suc k)
        (fill zlib_crc32 input blocks (min blocks (w.base + w.cwnd) - w.next_seq) w)
        (fill-Draining (suc k) (min blocks (w.base + w.cwnd) - w.next_seq) w)
        (λ w₁.
          Draining-Taking (suc k) _
            (Taking-bind more k (await_loop (suc k) w₁) (await_loop-Taking (suc k) w₁) hm))

  send_loop-Draining : (k : ℕ) (w : Window) → Draining k (send_loop zlib_crc32 input blocks k w)
  unfolding send_loop
  send_loop-Draining zero w = record { at = λ n s h lt. absurd (omega arith) }
  send_loop-Draining (suc k) w =
      send_round-Draining k (send_loop zlib_crc32 input blocks k) w (ltb w.base blocks)
        (send_loop-Draining k)

  pub send_window-Draining : (k : ℕ) → Draining k (send_window zlib_crc32 input blocks)
  unfolding send_window
  send_window-Draining k = record {
    at = λ n s h lt.
        Leaves-more (length s.events) n
          (send_loop zlib_crc32 input blocks (length s.events + 2) first_window s) h
          ((send_loop-Draining (length s.events + 2) first_window).at (length s.events) s
            (omega arith) (omega arith));
  }

  waits : (n : ℕ) (p : Outcome Window × Server) → Leaves n p → p.0 ≡ waiting → p.1.events ≡ []
  waits n p h e = ground arith

  -- A windowed transfer returns or raises an error, unless the link has delivered all its events:
  -- the fuel of its loops and of the recoveries in them does not run out before.
  pub send_window-waits :
      (s : Server)
      → (send_window zlib_crc32 input blocks s).0 ≡ waiting
      → (send_window zlib_crc32 input blocks s).1.events ≡ []
  send_window-waits s = waits (length s.events) (send_window zlib_crc32 input blocks s) (
      (send_window-Draining (suc (length s.events))).at (length s.events) s (omega arith)
        (omega arith))
