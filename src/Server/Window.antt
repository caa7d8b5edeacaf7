-- ===== src/Server/Window.antt =====
-- `_send_window` of src/pcutp/server.py. `Window` has the local variables of the function; the
-- dictionaries are lists of their writes. The progress callback is left out.
use Prim.Native.Nat.{min}
use text.Mathlib.Text.{◌==◌ as str_eq}
use pcutp.Base.{
  ℕ, zero, suc, ◌+◌, ◌-◌, ◌*◌, Bool, true, false, ◌&&◌, ◌||◌, not, Option, none, some, List, [],
  ◌∷◌, String, Bytes, length, ltb, leb, ◌==◌, if◌then◌else◌,
}
use pcutp.Base.Slices.{slice}
use pcutp.Base.Text.{split, is_decimal, int, part, unwords, str}
use pcutp.Errors.{Kind}
use pcutp.Crc.{crc32_hex}
use pcutp.Compression.Worthwhile.{worthwhile}
use pcutp.Client.Header.{starts}
use pcutp.Server.Session.{Action, waiting, pure, raise, send_payload, recv_or_timeout, ◌>>=◌, ◌>>◌}
use pcutp.Server.Block.{data_header}
use pcutp.Server.Recovery.{is_one_of, probe_receiver, old_resume, recover_window}

abbrev pub max_window_resets : ℕ
max_window_resets = 2

abbrev pub flow_grow_acks : ℕ
flow_grow_acks = 8

pub record Window : Type 0 where
  pub base : ℕ
  pub next_seq : ℕ
  pub retransmits : ℕ
  pub recoveries : ℕ
  pub resets : ℕ
  pub cwnd : ℕ
  pub clean_acks : ℕ
  pub attempts : List (ℕ × ℕ)
  pub frames : List (ℕ × (String × Bytes))

-- the values at the top of `_send_window`
abbrev pub first_window : Window
first_window = record {
  base = 0;
  next_seq = 0;
  retransmits = 0;
  recoveries = 0;
  resets = 0;
  cwnd = 1;
  clean_acks = 0;
  attempts = [];
  frames = [];
}

module _ {V : Type 0} where
  -- `d.get(seq)`
  unfoldable pub entry : ℕ → List (ℕ × V) → Option V
  entry seq [] = none
  entry seq ((k, v) ∷ d) = if k == seq then some v else entry seq d

  -- `{seq: v for seq, v in d.items() if seq >= base}`
  unfoldable pub keep_from : ℕ → List (ℕ × V) → List (ℕ × V)
  keep_from base [] = []
  keep_from base ((k, v) ∷ d) =
      let rest = keep_from base d in if leb base k then (k, v) ∷ rest else rest

-- how the inner `while True` goes on: `continue`, or `break`
pub data Reaction : Type 0 where
  wait : Window → Reaction
  next : Window → Reaction

-- a cumulative ACK
unfoldable pub take_ack : Window → ℕ → Bool → ℕ → Action Reaction
take_ack w ack late window_size =
    if leb w.next_seq ack
    then raise Kind.protocol
    else if ltb ack w.base
    then (if late then raise Kind.timeout else pure (wait w))
    else pure (
        next (record w {
          base = ack + 1;
          clean_acks = w.clean_acks + 1;
          cwnd = if leb flow_grow_acks (w.clean_acks + 1) then window_size else w.cwnd;
          attempts = keep_from (ack + 1) w.attempts;
          frames = keep_from (ack + 1) w.frames;
          recoveries = 0;
        }))

-- the barrier of a reset must find the receiver at the first block
unfoldable pub restart_at : Window → ℕ → Action Reaction
restart_at w seq =
    if not (seq == 0)
    then raise Kind.protocol
    else pure (
        next (record w {
          base = 0;
          next_seq = 0;
          resets = w.resets + 1;
          cwnd = 1;
          clean_acks = 0;
          attempts = [];
          recoveries = 0;
        }))

-- RST 0
unfoldable pub take_reset : Window → Action Reaction
unfolding restart_at
take_reset w =
    if ltb max_window_resets (w.resets + 1)
    then raise Kind.retry
    else (do seq ← recover_window 0 w.next_seq; restart_at w seq)

-- behind a barrier: go back to the block that the receiver expects
unfoldable pub recover_at : Window → ℕ → ℕ → Action Reaction
recover_at w max_retries base =
    let recoveries = if ltb w.base base then 0 else w.recoveries + 1 in
    if ltb max_retries recoveries
    then raise Kind.retry
    else pure (
        next (record w {
          base = base;
          next_seq = base;
          recoveries = recoveries;
          cwnd = 1;
          clean_acks = 0;
          attempts = keep_from base w.attempts;
          frames = keep_from base w.frames;
        }))

-- NAK, DROP or an empty line
unfoldable pub take_gap : Window → ℕ → Action Reaction
unfolding recover_at
take_gap w max_retries = do base ← recover_window w.base w.next_seq; recover_at w max_retries base

unfoldable pub is_ack : List String → Bool
unfolding starts part
is_ack parts = length parts == 2 && (starts parts "ACK" && is_decimal (part parts 1))

unfoldable pub is_reset : List String → Bool
unfolding starts part
is_reset parts = length parts == 2 && (starts parts "RST" && str_eq (part parts 1) "0")

-- the tests on a reply, HERE aside
unfoldable pub judge : Window → List String → Bool → Action Reaction
unfolding is_ack is_reset
judge w parts late s =
    if is_ack parts
    then take_ack w (int (part parts 1)) late s.window_size s
    else if is_reset parts
    then take_reset w s
    else if length parts == 0 || is_one_of parts ("NAK" ∷ "DROP" ∷ [])
    then take_gap w s.max_retries s
    else if old_resume s.barrier_id parts && not late
    then pure (wait w) s
    else raise Kind.protocol s

-- a reply: a HERE behind the deadline is probed once more, and one before it is ignored
unfoldable pub take_reply : Window → String → Bool → Action Reaction
take_reply w reply late =
    let again = (do reply' ← probe_receiver; judge w (split reply') true) in
    if starts (split reply) "HERE"
    then (if late then again else pure (wait w))
    else judge w (split reply) late

-- behind a timeout the deadline has passed
unfoldable pub after_wait : Window → Option (String × Bool) → Action Reaction
after_wait w (some (reply, late)) = take_reply w reply late
after_wait w none = do
  reply ← probe_receiver
  take_reply (record w { cwnd = 1; clean_acks = 0 }) reply true

-- one round of the inner `while True`
unfoldable pub await_reply : Window → Action Reaction
unfolding after_wait
await_reply w = do r ← recv_or_timeout; after_wait w r

unfoldable pub go_on : (Window → Action Window) → Reaction → Action Window
go_on more (next w) = pure w
go_on more (wait w) = more w

-- the inner `while True`: a round takes an event
unfoldable pub await_loop : ℕ → Window → Action Window
unfolding go_on
await_loop zero w = λ s. (waiting, s)
await_loop (suc fuel) w = do r ← await_reply w; go_on (await_loop fuel) r

module _ (zlib_crc32 : Bytes → ℕ → ℕ) (input : Bytes) (blocks : ℕ) where
  -- the header and the payload of a block that has no frame
  unfoldable pub make_frame : ℕ → Action (String × Bytes)
  make_frame seq s =
      let chunk = slice (seq * s.block_size) s.block_size input in
      let raw : String × Bytes = (data_header zlib_crc32 seq chunk, chunk) in
      elim (if s.use_compression then worthwhile chunk s.baud else none) [
        | none ↦ pure raw s
        | some packed ↦
            pure
              (
                unwords (
                    "ZDATA"
                    ∷ str seq
                    ∷ str (length packed)
                    ∷ str (length chunk)
                    ∷ crc32_hex zlib_crc32 chunk 0
                    ∷ []),
                packed,
              )
              (record s { compressed_blocks = s.compressed_blocks + 1 })
      ]

  unfoldable pub find_frame : ℕ → List (ℕ × (String × Bytes)) → Action (String × Bytes)
  find_frame seq frames = elim (entry seq frames) [
    | some frame ↦ pure frame
    | none ↦ make_frame seq
  ]

  unfoldable pub attempts_of : ℕ → List (ℕ × ℕ) → ℕ
  attempts_of seq attempts = elim (entry seq attempts) [ none ↦ 0 | some n ↦ n ]

  -- one round of `while next_seq < min(blocks, base + cwnd)`, which sent a block `count` times before
  unfoldable pub send_frame : Window → ℕ → String × Bytes → Action Window
  send_frame w count frame = do
    send_payload frame.0 frame.1
    pure (record w {
      attempts = (w.next_seq, count + 1) ∷ w.attempts;
      retransmits = w.retransmits + (if count == 0 then 0 else 1);
      frames = (w.next_seq, frame) ∷ w.frames;
      next_seq = w.next_seq + 1;
    })

  unfoldable pub send_next : Window → Action Window
  unfolding attempts_of send_frame
  send_next w s =
      let count = attempts_of w.next_seq w.attempts in
      if ltb s.max_retries count
      then raise Kind.retry s
      else (do frame ← find_frame w.next_seq w.frames; send_frame w count frame) s

  -- the rounds that are left of it
  unfoldable pub fill : ℕ → Window → Action Window
  fill zero w = pure w
  fill (suc rounds) w = do w' ← send_next w; fill rounds w'

  -- a round of the outer loop, if its test holds
  unfoldable pub send_round : ℕ → (Window → Action Window) → Window → Bool → Action Window
  send_round fuel more w false = pure w
  send_round fuel more w true = do
    w₁ ← fill (min blocks (w.base + w.cwnd) - w.next_seq) w
    w₂ ← await_loop fuel w₁
    more w₂

  -- the outer `while base < blocks`: a round takes an event
  unfoldable pub send_loop : ℕ → Window → Action Window
  unfolding send_round
  send_loop zero w = λ s. (waiting, s)
  send_loop (suc fuel) w = send_round (suc fuel) (send_loop fuel) w (ltb w.base blocks)

  -- `_send_window`; the source returns `retransmits` of the last window
  unfoldable pub send_window : Action Window
  send_window s = send_loop (length s.events + 2) first_window s
