-- ===== src/Exchange/Sends.antt =====
-- `_send_window` of src/pcutp/server.py, where the receiver acknowledges each block once.
use pcutp.Base.{
  ℕ, zero, suc, ◌+◌, ◌≤◌, ◌<◌, ◌≡◌, refl, Bool, false, some, List, [], ◌∷◌, String, arith, ltb, leb,
}
use pcutp.Base.Text.{split, is_space, part, unwords, str}
use pcutp.Base.Words.{split-unwords}
use pcutp.Base.Decimal.{int-str, is_decimal-str, IsWord-str}
use pcutp.Client.Header.{starts}
use pcutp.Server.Session.{
  Server, Event, got, Frame, Action, recv_or_timeout, recv_line, recv_from, timeout_none, is_rmb,
}
use pcutp.Server.Window.{
  Window, Reaction, wait, next, take_ack, judge, take_reply, after_wait, await_reply, go_on,
  await_loop, is_ack,
}
use pcutp.Exchange.Fills.{Fresh, entry-keep_from}
use pcutp.Exchange.Yields.{Knobs, Has, Yields, Yields-bind}

abbrev pub reply : String → Event
reply line = record { reply = got line; late = false }

abbrev pub ack_words : ℕ → List String
ack_words seq = "ACK" ∷ str seq ∷ []

-- `n` acknowledgements, from that of the block `seq`
unfoldable pub acks : ℕ → ℕ → List Event
acks seq zero = []
acks seq (suc n) = reply (unwords (ack_words seq)) ∷ acks (seq + 1) n

pub split-ack : (seq : ℕ) → split (unwords (ack_words seq)) ≡ ack_words seq
unfolding is_space
split-ack seq = split-unwords (ack_words seq) ((refl, (refl, (refl, tt))), (IsWord-str seq, tt))

module _ (k : Knobs) where
  -- a line that is no state notice is read as it is
  pub recv_or_timeout-reply :
      (line : String) (es : List Event) (sent : List Frame) (s : Server)
      → is_rmb (split line) ≡ false
      → Has k (reply line ∷ es) sent s
      → Yields (λ r s'. (r ≡ some (line, false)) × Has k es sent s') (recv_or_timeout s)
  unfolding recv_or_timeout recv_line recv_from timeout_none
  recv_or_timeout-reply line es sent s h hs =
      rw (hs.has_events, h)
        (
          refl,
          record {
            has_block = hs.has_block;
            has_window = hs.has_window;
            has_retries = hs.has_retries;
            has_baud = hs.has_baud;
            has_compression = hs.has_compression;
            has_barrier = hs.has_barrier;
            has_events = refl;
            has_sent = hs.has_sent;
          },
        )

module _ (k : Knobs) where
  -- the acknowledgement of the first block that has none
  abbrev pub Acked : Window → List Event → List Frame → ℕ → Reaction → Server → Type 0
  Acked w es sent blocks (next w') s' =
      Fresh blocks w' × (w'.next_seq ≡ w.next_seq) × (w'.base ≡ w.base + 1) × Has k es sent s'
  Acked w es sent blocks (wait w') s' = ⊥

  take_ack-Yields :
      (w : Window) (blocks ack : ℕ) (late : Bool) (es : List Event) (sent : List Frame) (s : Server)
      → Fresh blocks w
      → w.base < w.next_seq
      → ack ≡ w.base
      → 1 ≤ k.window_size
      → Has k es sent s
      → Yields (Acked w es sent blocks) (take_ack w ack late s.window_size s)
  unfolding take_ack
  take_ack-Yields w blocks ack late es sent s fresh more h room hs =
      let sent_one : leb w.next_seq ack ≡ false = ground arith in
      let is_next : ltb ack w.base ≡ false = ground arith in
      rw (Yields, take_ack, sent_one, is_next)
        (
          record {
            none_again = fresh.none_again;
            in_order = omega (arith, more, h);
            in_file = fresh.in_file;
            opened = ground (arith, fresh.opened, hs.has_window);
            no_attempts =
                λ seq le. entry-keep_from (ack + 1) seq w.attempts (fresh.no_attempts seq le);
            no_frames = λ seq le. entry-keep_from (ack + 1) seq w.frames (fresh.no_frames seq le);
          },
          refl,
          omega (arith, h),
          hs,
        )

  -- the reply is read as the acknowledgement that it is
  judge-ack :
      (w : Window) (seq : ℕ) (late : Bool) (s : Server)
      → judge w (ack_words seq) late s ≡ take_ack w seq late s.window_size s
  unfolding judge is_ack starts part
  judge-ack w seq late s = rw (is_decimal-str seq, int-str seq) refl

  take_reply-ack :
      (w : Window) (seq : ℕ) (s : Server)
      → take_reply w (unwords (ack_words seq)) false s ≡ take_ack w seq false s.window_size s
  unfolding take_reply starts part
  take_reply-ack w seq s = rw (split-ack seq) (judge-ack w seq false s)

  not_rmb : (seq : ℕ) → is_rmb (split (unwords (ack_words seq))) ≡ false
  unfolding is_rmb part
  not_rmb seq = rw (split-ack seq) refl

  take_reply-Yields :
      (w : Window) (blocks : ℕ) (es : List Event) (sent : List Frame) (s : Server)
      → Fresh blocks w
      → w.base < w.next_seq
      → 1 ≤ k.window_size
      → Has k es sent s
      → Yields (Acked w es sent blocks) (take_reply w (unwords (ack_words w.base)) false s)
  take_reply-Yields w blocks es sent s fresh more room hs =
      rw (take_reply-ack w w.base s)
        (take_ack-Yields w blocks w.base false es sent s fresh more refl room hs)

  await_reply-Yields :
      (w : Window) (blocks : ℕ) (es : List Event) (sent : List Frame) (s : Server)
      → Fresh blocks w
      → w.base < w.next_seq
      → 1 ≤ k.window_size
      → Has k (reply (unwords (ack_words w.base)) ∷ es) sent s
      → Yields (Acked w es sent blocks) (await_reply w s)
  unfolding await_reply after_wait
  await_reply-Yields w blocks es sent s fresh more room hs =
      Yields-bind (λ r s'. (r ≡ some (unwords (ack_words w.base), false)) × Has k es sent s')
        (Acked w es sent blocks) recv_or_timeout (after_wait w) s
        (recv_or_timeout-reply k (unwords (ack_words w.base)) es sent s (not_rmb w.base) hs)
        (λ r s' h. rw (h.0) (take_reply-Yields w blocks es sent s' fresh more room (h.1)))

  -- the window behind it
  abbrev pub Next : Window → List Event → List Frame → ℕ → Window → Server → Type 0
  Next w es sent blocks w' s' = Acked w es sent blocks (next w') s'

  go_on-Yields :
      (w : Window) (blocks : ℕ) (es : List Event) (sent : List Frame)
      (more : Window → Action Window) (r : Reaction) (s : Server)
      → Acked w es sent blocks r s
      → Yields (Next w es sent blocks) (go_on more r s)
  unfolding go_on
  go_on-Yields w blocks es sent more (next w') s h = h
  go_on-Yields w blocks es sent more (wait w') s h = absurd h

  pub await_loop-Yields :
      (fuel : ℕ) (w : Window) (blocks : ℕ) (es : List Event) (sent : List Frame) (s : Server)
      → Fresh blocks w
      → w.base < w.next_seq
      → 1 ≤ k.window_size
      → Has k (reply (unwords (ack_words w.base)) ∷ es) sent s
      → Yields (Next w es sent blocks) (await_loop (suc fuel) w s)
  unfolding await_loop
  await_loop-Yields fuel w blocks es sent s fresh more room hs =
      Yields-bind (Acked w es sent blocks) (Next w es sent blocks) (await_reply w)
        (go_on (await_loop fuel)) s (await_reply-Yields w blocks es sent s fresh more room hs)
        (λ r s' h. go_on-Yields w blocks es sent (await_loop fuel) r s' h)
