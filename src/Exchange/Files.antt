-- ===== src/Exchange/Files.antt =====
-- `send_file` of src/pcutp/server.py, where the receiver answers READY, acknowledges each block
-- once and confirms the file.
use mathlib.Core.Path.{subst}
use pcutp.Base.{
  ℕ, ◌≤◌, ◌≡◌, refl, Bool, true, false, Option, List, [], ◌∷◌, ◌++◌, String, Bytes, length, arith,
}
use pcutp.Base.Text.{split, part, unwords}
use pcutp.Crc.{crc32_hex}
use pcutp.Server.Session.{
  Server, Event, Frame, Action, control, pure, send_line, recv_line, is_rmb, ◌>>=◌,
}
use pcutp.Server.Window.{send_window}
use pcutp.Server.Transfer.{
  Setting, TransferResult, will_compress, transfer_block, block_count, meta_line, or_fail, send_all,
  confirm, take_ready, prepare, announce, send_file,
}
use pcutp.Exchange.Confirms.{
  send_line-Yields, recv_line-reply, or_fail-Yields, Delivered, ok_words, done_line, confirm-Yields,
}
use pcutp.Exchange.Sends.{reply, acks}
use pcutp.Exchange.Windows.{wire_from, AllSent, send_window-Yields}
use pcutp.Exchange.Yields.{Knobs, Has, Yields, Yields-bind}

module _ (zlib_crc32 : Bytes → ℕ → ℕ) where
  module _ (k : Knobs) (input : Bytes) (blocks : ℕ) where
    -- what is sent of a file
    abbrev pub sent_of : String → List Frame → List Frame
    sent_of filename sent =
        ((sent
            ++ control (
                meta_line filename (length input) k.block_size blocks
                  (crc32_hex zlib_crc32 input 0))
              ∷ [])
          ++ wire_from zlib_crc32 input blocks k 0 blocks)
        ++ control (done_line zlib_crc32 input) ∷ []

    take_ready-Yields :
        (filename : String) (es : List Event) (sent : List Frame) (s : Server)
        → 1 ≤ k.window_size
        → Has k (acks 0 blocks ++ reply (unwords (ok_words zlib_crc32 input)) ∷ es) sent s
        → Yields
            (Delivered zlib_crc32 filename input blocks es
              ((sent ++ wire_from zlib_crc32 input blocks k 0 blocks)
                ++ control (done_line zlib_crc32 input) ∷ [])
              k)
            (take_ready zlib_crc32 true filename input k.block_size blocks
              (crc32_hex zlib_crc32 input 0)
              "READY"
              s)
    unfolding take_ready send_all
    take_ready-Yields filename es sent s room hs =
        Yields-bind All Q (send_all zlib_crc32 true input k.block_size blocks)
          (λ n. confirm zlib_crc32 true filename input blocks (crc32_hex zlib_crc32 input 0) n) s
          (Yields-bind (AllSent zlib_crc32 input blocks k 0 es₁ sent) All
            (or_fail (send_window zlib_crc32 input blocks)) (λ w. pure w.retransmits) s
            (or_fail-Yields (AllSent zlib_crc32 input blocks k 0 es₁ sent)
              (send_window zlib_crc32 input blocks) s
              (send_window-Yields zlib_crc32 input blocks k es₁ sent s room hs))
            (λ w s₁ h. (
              h.0,
              subst (λ n. Has k es₁ (sent ++ wire_from zlib_crc32 input blocks k 0 n) s₁)
                  (omega arith) (h.1),
            )))
          (λ n s₁ h. rw (h.0) (confirm-Yields zlib_crc32 k input blocks filename es sent₁ s₁ (h.1)))
      where
        es₁ : List Event
        es₁ = reply (unwords (ok_words zlib_crc32 input)) ∷ es

        sent₁ : List Frame
        sent₁ = sent ++ wire_from zlib_crc32 input blocks k 0 blocks

        All : ℕ → Server → Type 0
        All n s' = (n ≡ 0) × Has k es₁ sent₁ s'

        Q : Option TransferResult → Server → Type 0
        Q =
            Delivered zlib_crc32 filename input blocks es
              (sent₁ ++ control (done_line zlib_crc32 input) ∷ []) k

    announce-Yields :
        (filename : String) (es : List Event) (sent : List Frame) (s : Server)
        → 1 ≤ k.window_size
        → Has k
            (reply "READY" ∷ acks 0 blocks ++ reply (unwords (ok_words zlib_crc32 input)) ∷ es)
            sent
            s
        → Yields
            (Delivered zlib_crc32 filename input blocks es (sent_of filename sent) k)
            (announce zlib_crc32 true filename input k.block_size blocks s)
    unfolding announce
    announce-Yields filename es sent s room hs =
        Yields-bind (λ _. Has k (reply "READY" ∷ es₁) sent₁) Q
          (send_line
            (meta_line filename (length input) k.block_size blocks (crc32_hex zlib_crc32 input 0)))
          (λ _. recv_line >>= ready) s (send_line-Yields k _ (reply "READY" ∷ es₁) sent s hs)
          (λ _ s₁ h₁.
            Yields-bind (λ r s'. (r ≡ ("READY", false)) × Has k es₁ sent₁ s') Q recv_line ready s₁
              (recv_line-reply k "READY" es₁ sent₁ s₁ (unfold is_rmb split part in refl) h₁)
              (λ r s₂ h₂. rw (h₂.0) (take_ready-Yields filename es sent₁ s₂ room (h₂.1))))
      where
        es₁ : List Event
        es₁ = acks 0 blocks ++ reply (unwords (ok_words zlib_crc32 input)) ∷ es

        sent₁ : List Frame
        sent₁ =
            sent
            ++ control (
                meta_line filename (length input) k.block_size blocks
                  (crc32_hex zlib_crc32 input 0))
              ∷ []

        ready : String × Bool → Action (Option TransferResult)
        ready r =
            take_ready zlib_crc32 true filename input k.block_size blocks
              (crc32_hex zlib_crc32 input 0) (r.0)

        Q : Option TransferResult → Server → Type 0
        Q = Delivered zlib_crc32 filename input blocks es (sent_of filename sent) k

  -- the attributes that `send_file` works with
  abbrev pub knobs : Setting → Bytes → Server → Knobs
  knobs c input s = record {
    block_size = transfer_block c s.window_size s.baud s.block_size input;
    window_size = s.window_size;
    max_retries = s.max_retries;
    baud = s.baud;
    use_compression = will_compress c input;
    barrier_id = s.barrier_id;
  }

  abbrev pub blocks_of : Setting → Bytes → Server → ℕ
  blocks_of c input s = block_count (length input) (knobs c input s).block_size

  pub send_file-Yields :
      (c : Setting) (filename : String) (input : Bytes) (es : List Event) (s : Server)
      → c.flow ≡ true
      → 1 ≤ s.window_size
      → s.events
        ≡ reply "READY" ∷ acks 0 (blocks_of c input s)
          ++ reply (unwords (ok_words zlib_crc32 input)) ∷ es
      → Yields
          (Delivered zlib_crc32 filename input
            (blocks_of c input s)
            es
            (sent_of (knobs c input s) input (blocks_of c input s) filename s.sent)
            (knobs c input s))
          (send_file zlib_crc32 c filename input s)
  unfolding send_file prepare transfer_block will_compress
  send_file-Yields c filename input es s flow room h = rw flow (
      announce-Yields (knobs c input s) input (blocks_of c input s) filename es s.sent _ room
        (record {
          has_block = refl;
          has_window = refl;
          has_retries = refl;
          has_baud = refl;
          has_compression = refl;
          has_barrier = refl;
          has_events = h;
          has_sent = refl;
        }))
