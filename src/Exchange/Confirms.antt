-- ===== src/Exchange/Confirms.antt =====
-- The end of `send_file` in src/pcutp/server.py, where the receiver confirms the file.
use text.Mathlib.TextEquality.{eq_iff}
use pcutp.Base.{
  ℕ, suc, ◌+◌, ◌≡◌, refl, ap, true, false, Option, some, List, [], ◌∷◌, ◌++◌, String, Bytes, length,
  arith,
}
use pcutp.Base.Text.{split, is_space, part, unwords}
use pcutp.Base.Words.{split-unwords}
use pcutp.Crc.{crc32, crc32_hex}
use pcutp.Crc.HexRoundTrip.{IsWord-to_hex}
use pcutp.Client.Header.{starts}
use pcutp.Server.Recovery.{old_resume}
use pcutp.Server.Session.{
  Server, Event, Frame, Outcome, returned, raised, waiting, Action, control, send_line, recv_line,
  recv_from, is_rmb,
}
use pcutp.Server.Transfer.{
  TransferResult, failing, or_fail, is_stale, judge_final, await_final, final_reply, is_verified,
  take_final, confirm,
}
use pcutp.Exchange.Sends.{reply}
use pcutp.Exchange.Yields.{Knobs, Has, Yields, Yields-bind}

module _ (k : Knobs) where
  pub send_line-Yields :
      (line : String) (es : List Event) (sent : List Frame) (s : Server)
      → Has k es sent s
      → Yields (λ _. Has k es (sent ++ control line ∷ [])) (send_line line s)
  unfolding send_line
  send_line-Yields line es sent s hs = record {
    has_block = hs.has_block;
    has_window = hs.has_window;
    has_retries = hs.has_retries;
    has_baud = hs.has_baud;
    has_compression = hs.has_compression;
    has_barrier = hs.has_barrier;
    has_events = hs.has_events;
    has_sent = ap (λ l. l ++ control line ∷ []) hs.has_sent;
  }

  pub recv_line-reply :
      (line : String) (es : List Event) (sent : List Frame) (s : Server)
      → is_rmb (split line) ≡ false
      → Has k (reply line ∷ es) sent s
      → Yields (λ r s'. (r ≡ (line, false)) × Has k es sent s') (recv_line s)
  unfolding recv_line recv_from
  recv_line-reply line es sent s h hs =
      rw (hs.has_events, h)
        (
          refl,
          record {
            has_block = hs.has_block;
            has_window = hs.has_window;
            has_retries = hs.has_retries;
            has_baud = hs.has_baud;
            has_compression = hs.has_compression;
            has_barrier = hs.has_barrier;
            has_events = refl;
            has_sent = hs.has_sent;
          },
        )

module _ {A : Type 0} (P : A → Server → Type 0) where
  failing-Yields : (o : Outcome A) (s : Server) → Yields P (o, s) → Yields P (failing o s)
  unfolding failing
  failing-Yields (returned a) s p = p
  failing-Yields (raised e) s p = absurd p
  failing-Yields waiting s p = absurd p

  pub or_fail-Yields : (m : Action A) (s : Server) → Yields P (m s) → Yields P (or_fail m s)
  unfolding or_fail
  or_fail-Yields m s h = failing-Yields (m s).0 (m s).1 h

module _ (zlib_crc32 : Bytes → ℕ → ℕ) where
  abbrev pub ok_words : Bytes → List String
  ok_words input = "OK" ∷ crc32_hex zlib_crc32 input 0 ∷ []

  pub split-ok : (input : Bytes) → split (unwords (ok_words input)) ≡ ok_words input
  unfolding is_space crc32_hex
  split-ok input =
      split-unwords (ok_words input)
        ((refl, (refl, tt)), (IsWord-to_hex (crc32 zlib_crc32 input 0), tt))

  ok-is_rmb : (input : Bytes) → is_rmb (split (unwords (ok_words input))) ≡ false
  unfolding is_rmb part
  ok-is_rmb input = rw (split-ok input) refl

  ok-is_stale :
      (barrier_id blocks : ℕ) (input : Bytes)
      → is_stale true barrier_id blocks (split (unwords (ok_words input))) ≡ false
  unfolding is_stale starts part old_resume
  ok-is_stale barrier_id blocks input = rw (split-ok input) refl

  ok-is_verified :
      (input : Bytes)
      → is_verified (crc32_hex zlib_crc32 input 0) (split (unwords (ok_words input))) ≡ true
  unfolding is_verified starts part
  ok-is_verified input =
      rw (split-ok input)
        ((eq_iff (crc32_hex zlib_crc32 input 0) (crc32_hex zlib_crc32 input 0)).1 refl)

  -- what the sender has told of a file that the receiver has confirmed
  abbrev pub Delivered :
      String → Bytes → ℕ → List Event → List Frame → Knobs → Option TransferResult → Server → Type 0
  Delivered filename input blocks es sent k r s =
      (r
        ≡ some (record {
          filename = filename;
          size = length input;
          blocks = blocks;
          crc32 = crc32_hex zlib_crc32 input 0;
          retransmits = 0;
          verified = true;
          compressed_blocks = s.compressed_blocks;
          data_wire_bytes = s.data_wire_bytes;
        }))
      × Has k es sent s

  abbrev pub done_line : Bytes → String
  done_line input = unwords ("DONE" ∷ crc32_hex zlib_crc32 input 0 ∷ [])

  module _ (k : Knobs) (input : Bytes) (blocks : ℕ) where
    final_reply-Yields :
        (es : List Event) (sent : List Frame) (s : Server)
        → Has k (reply (unwords (ok_words input)) ∷ es) sent s
        → Yields
            (λ r s'. (r ≡ unwords (ok_words input)) × Has k es sent s')
            (final_reply true blocks s)
    unfolding final_reply judge_final await_final recv_line
    final_reply-Yields es sent s hs =
        let fuel : length s.events + 1 ≡ suc (length s.events) = omega arith in
        rw fuel (
          Yields-bind (λ r s'. (r ≡ (unwords (ok_words input), false)) × Has k es sent s')
            (λ r s'. (r ≡ unwords (ok_words input)) × Has k es sent s') recv_line
            (judge_final (await_final (length s.events) true blocks) true blocks) s
            (recv_line-reply k (unwords (ok_words input)) es sent s (ok-is_rmb input) hs)
            (λ r s' h. rw (h.0, ok-is_stale s'.barrier_id blocks input) (refl, h.1)))

    take_final-Yields :
        (filename : String) (es : List Event) (sent : List Frame) (s : Server)
        → Has k es sent s
        → Yields (Delivered filename input blocks es sent k) (
            take_final zlib_crc32 filename input blocks
              (crc32_hex zlib_crc32 input 0)
              0
              (unwords (ok_words input))
              s)
    unfolding take_final
    take_final-Yields filename es sent s hs = rw (ok-is_verified input) (refl, hs)

    pub confirm-Yields :
        (filename : String) (es : List Event) (sent : List Frame) (s : Server)
        → Has k (reply (unwords (ok_words input)) ∷ es) sent s
        → Yields
            (Delivered filename input blocks es (sent ++ control (done_line input) ∷ []) k)
            (confirm zlib_crc32 true filename input blocks (crc32_hex zlib_crc32 input 0) 0 s)
    unfolding confirm
    confirm-Yields filename es sent s hs =
        Yields-bind (λ _. Has k (reply (unwords (ok_words input)) ∷ es) sent₁) Q
          (send_line (done_line input)) _ s (send_line-Yields k (done_line input) _ sent s hs)
          (λ _ s₁ h₁.
            Yields-bind (λ r s'. (r ≡ unwords (ok_words input)) × Has k es sent₁ s') Q
              (final_reply true blocks)
              (take_final zlib_crc32 filename input blocks (crc32_hex zlib_crc32 input 0) 0) s₁
              (final_reply-Yields es sent₁ s₁ h₁)
              (λ r s₂ h₂. rw (h₂.0) (take_final-Yields filename es sent₁ s₂ (h₂.1))))
      where
        sent₁ : List Frame
        sent₁ = sent ++ control (done_line input) ∷ []

        Q : Option TransferResult → Server → Type 0
        Q = Delivered filename input blocks es sent₁ k
