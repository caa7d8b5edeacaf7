-- ===== src/Exchange/Windows.antt =====
-- `_send_window` of src/pcutp/server.py, from its start to its return.
use Prim.Native.Nat.{min}
use mathlib.Core.Path.{subst}
use pcutp.Base.{
  ℕ, zero, suc, ◌+◌, ◌-◌, ◌≤◌, ◌<◌, ◌≡◌, refl, sym, ap, ◌∙◌, true, false, List, ◌∷◌, ◌++◌, Bytes,
  length, arith, append_assoc, append-nil, ltb,
}
use pcutp.Base.Text.{unwords}
use pcutp.Server.Session.{Server, Event, Frame, ◌>>=◌}
use pcutp.Server.Window.{
  Window, send_round, send_loop, send_window, fill, await_loop, first_window, entry,
}
use pcutp.Exchange.Frames.{frames}
use pcutp.Exchange.Fills.{Fresh, payload_of, frame_at, wired, frames_from, More, fill-Yields}
use pcutp.Exchange.Sends.{reply, ack_words, acks, Next, await_loop-Yields}
use pcutp.Exchange.Yields.{Knobs, Has, Yields, Yields-bind, Yields-weaken}

module _ (zlib_crc32 : Bytes → ℕ → ℕ) (input : Bytes) (blocks : ℕ) (k : Knobs) where
  -- the payloads of the `n` blocks from `seq`
  abbrev pub wire_from : ℕ → ℕ → List Frame
  wire_from seq n = wired (frames_from zlib_crc32 input blocks k seq n)

  wire_from-split : (n p seq : ℕ) → wire_from seq n ++ wire_from (seq + n) p ≡ wire_from seq (n + p)
  unfolding wired frames
  wire_from-split zero p seq =
      ap (λ q. wire_from q p) (omega arith) ∙ ap (λ n. wire_from seq n) (omega arith)
  wire_from-split (suc n) p seq =
      let shift : seq + suc n ≡ seq + 1 + n = omega arith in
      let step : suc (n + p) ≡ suc n + p = omega arith in
      ap (λ q. wire_from seq (suc n) ++ wire_from q p) shift
      ∙ ap (λ l. payload_of (frame_at zlib_crc32 input blocks k seq) ∷ l)
          (wire_from-split n p (seq + 1))
      ∙ ap (λ m. wire_from seq m) step

  -- all blocks are sent, none of them again
  abbrev pub AllSent : ℕ → List Event → List Frame → Window → Server → Type 0
  AllSent seq es sent w s = (w.retransmits ≡ 0) × Has k es (sent ++ wire_from seq (blocks - seq)) s

  AllSent-after :
      (seq n : ℕ) (es : List Event) (sent : List Frame) (w : Window) (s : Server)
      → seq + n ≤ blocks
      → AllSent (seq + n) es (sent ++ wire_from seq n) w s
      → AllSent seq es sent w s
  AllSent-after seq n es sent w s le h = (
    h.0,
    subst (λ l. Has k es l s)
        (append_assoc sent (wire_from seq n) (wire_from (seq + n) (blocks - (seq + n)))
          ∙ ap (λ l. sent ++ l) (wire_from-split n (blocks - (seq + n)) seq)
          ∙ ap (λ m. sent ++ wire_from seq m) (omega (arith, le)))
        (h.1),
  )

  abbrev Goes : ℕ → ℕ → Type 0
  Goes n fuel =
      (w : Window) (es : List Event) (sent : List Frame) (s : Server)
      → Fresh blocks w
      → w.base + n ≡ blocks
      → Has k (acks w.base n ++ es) sent s
      → Yields (AllSent w.next_seq es sent) (send_loop zlib_crc32 input blocks fuel w s)

  send_round-Yields :
      (n fuel : ℕ) (w : Window) (es : List Event) (sent : List Frame) (s : Server)
      → 1 ≤ k.window_size
      → Goes n fuel
      → Fresh blocks w
      → w.base + suc n ≡ blocks
      → Has k (acks w.base (suc n) ++ es) sent s
      → Yields (AllSent w.next_seq es sent) (
          send_round zlib_crc32 input blocks
            (suc fuel)
            (send_loop zlib_crc32 input blocks fuel)
            w
            true
            s)
  unfolding send_round acks
  send_round-Yields n fuel w es sent s room goes fresh count hs =
      Yields-bind (More zlib_crc32 input blocks k m w es₁ sent) (AllSent w.next_seq es sent)
        (fill zlib_crc32 input blocks m w)
        (λ w₁. await_loop (suc fuel) w₁ >>= send_loop zlib_crc32 input blocks fuel) s
        (fill-Yields zlib_crc32 input blocks k m w es₁ sent s fresh (omega (arith, fresh.in_file))
          hs)
        (λ w₁ s₁ h₁.
          Yields-bind (Next k w₁ (acks (w.base + 1) n ++ es) sent₁ blocks)
            (AllSent w.next_seq es sent) (await_loop (suc fuel) w₁)
            (send_loop zlib_crc32 input blocks fuel) s₁
            (await_loop-Yields k fuel w₁ blocks (acks (w.base + 1) n ++ es) sent₁ s₁ (h₁.0)
              (omega (arith, h₁.1, h₁.2, fresh.opened, fresh.in_order, count)) room
              (subst
                (λ b. Has k (reply (unwords (ack_words b)) ∷ acks (w.base + 1) n ++ es) sent₁ s₁)
                (sym (h₁.2)) (h₁.3)))
            (λ w₂ s₂ h₂.
              Yields-weaken (AllSent w₂.next_seq es sent₁) (AllSent w.next_seq es sent)
                (send_loop zlib_crc32 input blocks fuel w₂ s₂)
                (goes w₂ es sent₁ s₂ (h₂.0) (omega (arith, h₂.2, h₁.2, count)) (
                  subst (λ b. Has k (acks b n ++ es) sent₁ s₂) (sym (h₂.2 ∙ ap (λ b. b + 1) (h₁.2)))
                    (h₂.3)))
                (λ w₃ s₃ h₃.
                  AllSent-after w.next_seq m es sent w₃ s₃ (omega (arith, fresh.in_file))
                    (subst (λ q. AllSent q es sent₁ w₃ s₃) (h₂.1 ∙ h₁.1) h₃))))
    where
      m : ℕ
      m = min blocks (w.base + w.cwnd) - w.next_seq

      es₁ : List Event
      es₁ = acks w.base (suc n) ++ es

      sent₁ : List Frame
      sent₁ = sent ++ wire_from w.next_seq m

  send_loop-Yields : 1 ≤ k.window_size → (n fuel : ℕ) → n < fuel → Goes n fuel
  unfolding send_loop
  send_loop-Yields room n zero lt w es sent s fresh count hs = absurd (omega (arith, lt))
  send_loop-Yields room zero (suc fuel) lt w es sent s fresh count hs =
      let stop : ltb w.base blocks ≡ false = ground (arith, count) in
      let no_more : blocks - w.next_seq ≡ 0 = omega (arith, count, fresh.in_order) in
      let all_sent : sent ≡ sent ++ wire_from w.next_seq (blocks - w.next_seq) = sym (
        ap (λ m. sent ++ wire_from w.next_seq m) no_more
        ∙ unfold wired frames in append-nil sent) in
      rw (Yields, send_round, stop)
        (fresh.none_again, subst (λ l. Has k es l s) all_sent (unfold acks in hs))
  send_loop-Yields room (suc n) (suc fuel) lt w es sent s fresh count hs =
      let more : ltb w.base blocks ≡ true = ground (arith, count) in
      rw (Yields, more)
        (send_round-Yields n fuel w es sent s room
          (send_loop-Yields room n fuel (omega (arith, lt))) fresh count hs)

  length-acks : (seq n : ℕ) (es : List Event) → n ≤ length (acks seq n ++ es)
  unfolding acks
  length-acks seq zero es = omega arith
  length-acks seq (suc n) es = omega (arith, length-acks (seq + 1) n es)

  first_window-Fresh : Fresh blocks first_window
  unfolding entry
  first_window-Fresh = record {
    none_again = refl;
    in_order = omega arith;
    in_file = omega arith;
    opened = omega arith;
    no_attempts = λ seq le. refl;
    no_frames = λ seq le. refl;
  }

  pub send_window-Yields :
      (es : List Event) (sent : List Frame) (s : Server)
      → 1 ≤ k.window_size
      → Has k (acks 0 blocks ++ es) sent s
      → Yields (AllSent 0 es sent) (send_window zlib_crc32 input blocks s)
  unfolding send_window
  send_window-Yields es sent s room hs =
      send_loop-Yields room blocks (length s.events + 2)
        (omega (arith, length-acks 0 blocks es, ap (λ l. length l) hs.has_events)) first_window es
        sent s first_window-Fresh (omega arith) hs
