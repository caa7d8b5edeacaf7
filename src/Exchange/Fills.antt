-- ===== src/Exchange/Fills.antt =====
-- How `_send_window` of src/pcutp/server.py sends the blocks that its window has room for, each for
-- the first time.
use pcutp.Base.{
  ℕ, zero, suc, ◌+◌, ◌*◌, ◌≤◌, ◌<◌, ◌≡◌, refl, ap, ◌∙◌, false, Option, none, some, List, [], ◌∷◌,
  ◌++◌, String, Bytes, arith, inl, inr, Bool-cases, ltb, ◌==◌, append_assoc, append-nil,
}
use pcutp.Base.Slices.{slice}
use pcutp.Server.Session.{Server, Event, Frame, payload, pure, send_payload, ◌>>=◌}
use pcutp.Server.Window.{
  Window, entry, keep_from, make_frame, find_frame, attempts_of, send_frame, send_next, fill,
}
use pcutp.Exchange.Frames.{frame_by, frame_of, frames, packed_of}
use mathlib.Core.Path.{subst}
use pcutp.Exchange.Yields.{Knobs, Has, Yields, Yields-bind, Yields-weaken}

-- a window that sends each block for the first time
pub record Fresh (blocks : ℕ) (w : Window) : Type 0 where
  pub none_again : w.retransmits ≡ 0
  pub in_order : w.base ≤ w.next_seq
  pub in_file : w.next_seq ≤ blocks
  pub opened : 1 ≤ w.cwnd
  pub no_attempts : (seq : ℕ) → w.next_seq ≤ seq → entry seq w.attempts ≡ none
  pub no_frames : (seq : ℕ) → w.next_seq ≤ seq → entry seq w.frames ≡ none

abbrev pub payload_of : String × Bytes → Frame
payload_of frame = payload frame.0 frame.1

unfoldable pub wired : List (String × Bytes) → List Frame
wired [] = []
wired (f ∷ fs) = payload_of f ∷ wired fs

entry-other :
    {V : Type 0} (base seq : ℕ) (v : V) (d : List (ℕ × V))
    → base + 1 ≤ seq
    → entry seq ((base, v) ∷ d) ≡ entry seq d
unfolding entry
entry-other base seq v d h = ground arith

pub entry-keep_from :
    {V : Type 0} (base seq : ℕ) (d : List (ℕ × V))
    → entry seq d ≡ none
    → entry seq (keep_from base d) ≡ none
unfolding entry keep_from
entry-keep_from base seq [] h = refl
entry-keep_from base seq ((k, v) ∷ d) h = elim (Bool-cases (k == seq)) [
  | inl same ↦ ground arith
  | inr other ↦ ground (arith, entry-keep_from base seq d)
]

module _ (zlib_crc32 : Bytes → ℕ → ℕ) (input : Bytes) (blocks : ℕ) (k : Knobs) where
  -- the frame of a block, with the attributes of the transfer
  abbrev pub frame_at : ℕ → String × Bytes
  frame_at seq = frame_of zlib_crc32 k.use_compression k.baud k.block_size input seq

  abbrev pub frames_from : ℕ → ℕ → List (String × Bytes)
  frames_from seq n = frames zlib_crc32 k.use_compression k.baud k.block_size input seq n

  make_frame-packed :
      (seq : ℕ) (es : List Event) (sent : List Frame) (s : Server) (packed : Option Bytes)
      → packed_of s.use_compression s.baud (slice (seq * s.block_size) s.block_size input) ≡ packed
      → Has k es sent s
      → Yields
          (λ f s'.
            (f ≡ frame_by zlib_crc32 seq (slice (seq * s.block_size) s.block_size input) packed)
            × Has k es sent s')
          (make_frame zlib_crc32 input blocks seq s)
  unfolding make_frame frame_by
  make_frame-packed seq es sent s none h hs = rw (Yields, make_frame, h) (refl, hs)
  make_frame-packed seq es sent s (some packed) h hs =
      rw (Yields, make_frame, h)
        (
          refl,
          record {
            has_block = hs.has_block;
            has_window = hs.has_window;
            has_retries = hs.has_retries;
            has_baud = hs.has_baud;
            has_compression = hs.has_compression;
            has_barrier = hs.has_barrier;
            has_events = hs.has_events;
            has_sent = hs.has_sent;
          },
        )

  frame_at-of :
      (seq : ℕ) (es : List Event) (sent : List Frame) (s : Server)
      → Has k es sent s
      → frame_of zlib_crc32 s.use_compression s.baud s.block_size input seq ≡ frame_at seq
  frame_at-of seq es sent s hs =
      ap (λ b. frame_of zlib_crc32 b s.baud s.block_size input seq) hs.has_compression
      ∙ ap (λ b. frame_of zlib_crc32 k.use_compression b s.block_size input seq) hs.has_baud
      ∙ ap (λ b. frame_of zlib_crc32 k.use_compression k.baud b input seq) hs.has_block

  make_frame-Yields :
      (seq : ℕ) (es : List Event) (sent : List Frame) (s : Server)
      → Has k es sent s
      → Yields
          (λ f s'. (f ≡ frame_at seq) × Has k es sent s')
          (make_frame zlib_crc32 input blocks seq s)
  make_frame-Yields seq es sent s hs =
      Yields-weaken _ (λ f s'. (f ≡ frame_at seq) × Has k es sent s')
        (make_frame zlib_crc32 input blocks seq s) (make_frame-packed seq es sent s _ refl hs)
        (λ f s' h. (h.0 ∙ unfold frame_of in frame_at-of seq es sent s hs, h.1))

  send_payload-Has :
      (es : List Event) (sent : List Frame) (frame : String × Bytes) (s : Server)
      → Has k es sent s
      → Yields (λ _. Has k es (sent ++ payload_of frame ∷ [])) (send_payload frame.0 frame.1 s)
  unfolding send_payload
  send_payload-Has es sent frame s hs = record {
    has_block = hs.has_block;
    has_window = hs.has_window;
    has_retries = hs.has_retries;
    has_baud = hs.has_baud;
    has_compression = hs.has_compression;
    has_barrier = hs.has_barrier;
    has_events = hs.has_events;
    has_sent = ap (λ l. l ++ payload_of frame ∷ []) hs.has_sent;
  }

  abbrev sent_window : Window → Window
  sent_window w = record w {
    attempts = (w.next_seq, 1) ∷ w.attempts;
    retransmits = w.retransmits + 0;
    frames = (w.next_seq, frame_at w.next_seq) ∷ w.frames;
    next_seq = w.next_seq + 1;
  }

  sent_window-Fresh :
      (w : Window) → Fresh blocks w → w.next_seq < blocks → Fresh blocks (sent_window w)
  sent_window-Fresh w fresh more = record {
    none_again = omega (arith, fresh.none_again);
    in_order = omega (arith, fresh.in_order);
    in_file = omega (arith, more);
    opened = fresh.opened;
    no_attempts = λ seq le.
        entry-other w.next_seq seq 1 w.attempts le ∙ fresh.no_attempts seq (omega (arith, le));
    no_frames = λ seq le.
        entry-other w.next_seq seq (frame_at w.next_seq) w.frames le
        ∙ fresh.no_frames seq (omega (arith, le));
  }

  -- one more block is sent
  abbrev OneMore : Window → List Event → List Frame → Window → Server → Type 0
  OneMore w es sent w' s' =
      Fresh blocks w'
      × (w'.next_seq ≡ w.next_seq + 1)
      × (w'.base ≡ w.base)
      × Has k es (sent ++ payload_of (frame_at w.next_seq) ∷ []) s'

  send_frame-Yields :
      (w : Window) (es : List Event) (sent : List Frame) (s : Server)
      → Fresh blocks w
      → w.next_seq < blocks
      → Has k es sent s
      → Yields (OneMore w es sent) (send_frame zlib_crc32 input blocks w 0 (frame_at w.next_seq) s)
  unfolding send_frame
  send_frame-Yields w es sent s fresh more hs =
      Yields-bind (λ _. Has k es (sent ++ payload_of (frame_at w.next_seq) ∷ []))
        (OneMore w es sent) (send_payload (frame_at w.next_seq).0 (frame_at w.next_seq).1)
        (λ _. pure (sent_window w)) s (send_payload-Has es sent (frame_at w.next_seq) s hs)
        (λ _ s' h. (sent_window-Fresh w fresh more, refl, refl, h))

  attempts_of-none :
      (seq : ℕ) (d : List (ℕ × ℕ))
      → entry seq d ≡ none
      → attempts_of zlib_crc32 input blocks seq d ≡ 0
  unfolding attempts_of
  attempts_of-none seq d h = rw (attempts_of, h) refl

  find_frame-none :
      (seq : ℕ) (d : List (ℕ × (String × Bytes)))
      → entry seq d ≡ none
      → find_frame zlib_crc32 input blocks seq d ≡ make_frame zlib_crc32 input blocks seq
  unfolding find_frame
  find_frame-none seq d h = rw (find_frame, h) refl

  send_next-first :
      (w : Window) (s : Server)
      → Fresh blocks w
      → send_next zlib_crc32 input blocks w s
        ≡ (make_frame zlib_crc32 input blocks w.next_seq >>= send_frame zlib_crc32 input blocks w 0)
            s
  unfolding send_next
  send_next-first w s fresh =
      let few : ltb s.max_retries 0 ≡ false = ground arith in
      rw
        (
          attempts_of-none w.next_seq w.attempts (fresh.no_attempts w.next_seq (omega arith)),
          find_frame-none w.next_seq w.frames (fresh.no_frames w.next_seq (omega arith)),
          few,
        )
        refl

  send_next-Yields :
      (w : Window) (es : List Event) (sent : List Frame) (s : Server)
      → Fresh blocks w
      → w.next_seq < blocks
      → Has k es sent s
      → Yields (OneMore w es sent) (send_next zlib_crc32 input blocks w s)
  send_next-Yields w es sent s fresh more hs = rw (send_next-first w s fresh) (
      Yields-bind (λ f s'. (f ≡ frame_at w.next_seq) × Has k es sent s') (OneMore w es sent)
        (make_frame zlib_crc32 input blocks w.next_seq) (send_frame zlib_crc32 input blocks w 0) s
        (make_frame-Yields w.next_seq es sent s hs)
        (λ f s' h. rw (h.0) (send_frame-Yields w es sent s' fresh more (h.1))))

  -- `n` more blocks are sent
  abbrev pub More : ℕ → Window → List Event → List Frame → Window → Server → Type 0
  More n w es sent w' s' =
      Fresh blocks w'
      × (w'.next_seq ≡ w.next_seq + n)
      × (w'.base ≡ w.base)
      × Has k es (sent ++ wired (frames_from w.next_seq n)) s'

  pub fill-Yields :
      (n : ℕ) (w : Window) (es : List Event) (sent : List Frame) (s : Server)
      → Fresh blocks w
      → w.next_seq + n ≤ blocks
      → Has k es sent s
      → Yields (More n w es sent) (fill zlib_crc32 input blocks n w s)
  unfolding fill frames wired
  fill-Yields zero w es sent s fresh le hs = (fresh, omega arith, refl, rw (append-nil sent) hs)
  fill-Yields (suc n) w es sent s fresh le hs =
      Yields-bind (OneMore w es sent) (More (suc n) w es sent) (send_next zlib_crc32 input blocks w)
        (fill zlib_crc32 input blocks n) s
        (send_next-Yields w es sent s fresh (omega (arith, le)) hs)
        (λ w₁ s₁ h₁.
          Yields-weaken (More n w₁ es (sent ++ payload_of (frame_at w.next_seq) ∷ []))
            (More (suc n) w es sent) (fill zlib_crc32 input blocks n w₁ s₁)
            (fill-Yields n w₁ es (sent ++ payload_of (frame_at w.next_seq) ∷ []) s₁ (h₁.0)
              (omega (arith, h₁.1, le)) (h₁.3))
            (λ w₂ s₂ h₂. (
              h₂.0,
              omega (arith, h₁.1, h₂.1),
              h₂.2 ∙ h₁.2,
              subst (λ m. Has k es m s₂)
                  (ap
                      (λ q.
                        (sent ++ payload_of (frame_at w.next_seq) ∷ []) ++ wired (frames_from q n))
                      (h₁.1)
                    ∙ append_assoc sent (payload_of (frame_at w.next_seq) ∷ [])
                        (wired (frames_from (w.next_seq + 1) n)))
                  (h₂.3),
            )))
