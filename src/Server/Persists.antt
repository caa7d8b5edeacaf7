-- ===== src/Server/Persists.antt =====
-- `_send_block` of src/pcutp/server.py gets a block through a link that loses or spoils some of what
-- is sent.
use text.Mathlib.TextEquality.{eq_iff}
use pcutp.Base.{
  ℕ, zero, suc, ◌+◌, ◌≤◌, ◌<◌, ◌≡◌, refl, sym, ap, ◌∙◌, arith, Bool, false, Option, none, some,
  List, [], ◌∷◌, ◌++◌, append_assoc, String, Bytes, length, replicate, leb, if◌then◌else◌,
}
use pcutp.Base.Text.{split, part, str}
use pcutp.Client.Header.{starts}
use mathlib.Core.Path.{subst}
use native.Mathlib.Nat.{add-zero, zero-add}
use pcutp.Errors.{Kind, make}
use pcutp.Server.Session.{
  Server, Event, got, timed_out, payload, Outcome, Action, pure, raise, fail, ◌>>◌, ◌>>=◌, returned,
  recv_or_timeout, recv_line, recv_from, timeout_none, is_rmb, send_payload,
}
use pcutp.Server.Block.{max_timeouts, data_header, block_reply, send_attempts, send_block}

-- what may happen to an attempt: no reply comes, or a NAK
pub data Setback : Type 0 where
  lost_reply : Bool → Setback
  nak : (text : String) (rest : List String) → split text ≡ "NAK" ∷ rest → Bool → Setback

unfoldable pub event_of : Setback → Event
event_of (lost_reply late) = record { reply = timed_out; late = late }
event_of (nak text rest e late) = record { reply = got text; late = late }

unfoldable pub events_of : List Setback → List Event
unfolding event_of
events_of [] = []
events_of (b ∷ setbacks) = event_of b ∷ events_of setbacks

unfoldable pub lost_replies : List Setback → ℕ
lost_replies [] = 0
lost_replies (lost_reply late ∷ setbacks) = suc (lost_replies setbacks)
lost_replies (nak text rest e late ∷ setbacks) = lost_replies setbacks

pub >>=-returned :
    {A B : Type 0} (m : Action A) (f : A → Action B) (s : Server) (a : A) (s' : Server)
    → m s ≡ (returned a, s')
    → (m >>= f) s ≡ f a s'
>>=-returned {A} m f s a s' h =
    ap (λ (p : Outcome A × Server). let m' : Action A = λ _. p in (m' >>= f) s) h

-- a read of a line that is no RMB
pub reads :
    (text : String) (late : Bool) (es : List Event) (s : Server)
    → is_rmb (split text) ≡ false
    → recv_or_timeout (record s { events = record { reply = got text; late = late } ∷ es })
      ≡ (returned (some (text, late)), record s { events = es })
unfolding recv_or_timeout recv_line recv_from timeout_none
reads text late es s h = ground arith

nak-ne-rmb :
    (text : String) (rest : List String) → split text ≡ "NAK" ∷ rest → is_rmb (split text) ≡ false
unfolding is_rmb part
nak-ne-rmb text rest e = rw e (ground arith)

ack-ne-rmb :
    (text : String) (rest : List String) → split text ≡ "ACK" ∷ rest → is_rmb (split text) ≡ false
unfolding is_rmb part
ack-ne-rmb text rest e = rw e (ground arith)

module _ (zlib_crc32 : Bytes → ℕ → ℕ) (seq : ℕ) (chunk : Bytes) (more : List Event) where
  -- the block has been sent `n` times, and `attempt` is returned
  pub record IsThrough (n attempt : ℕ) (s : Server) (p : Outcome ℕ × Server) : Type 0 where
    pub outcome : p.0 ≡ returned attempt
    pub events : p.1.events ≡ more
    pub sent : p.1.sent ≡ s.sent ++ replicate n (payload (data_header zlib_crc32 seq chunk) chunk)

  -- the state behind an attempt, but for the events
  payload_sent : Server → Server
  payload_sent s = (send_payload (data_header zlib_crc32 seq chunk) chunk s).1

  -- the state behind an attempt
  resent : List Event → Server → Server
  unfolding payload_sent
  resent events s = record (payload_sent s) { events = events }

  after_loss :
      (rounds attempt timeouts : ℕ) (late : Bool) (es : List Event) (s : Server)
      → timeouts + 1 < 5
      → send_attempts zlib_crc32
          (suc rounds)
          seq
          chunk
          attempt
          timeouts
          (record s { events = record { reply = timed_out; late = late } ∷ es })
        ≡ send_attempts zlib_crc32 rounds seq chunk (attempt + 1) (timeouts + 1) (resent es s)
  unfolding send_attempts recv_or_timeout recv_line recv_from timeout_none send_payload resent make
  after_loss rounds attempt timeouts late es s few =
      let h : leb max_timeouts (timeouts + 1) ≡ false = ground arith in rw h refl

  -- what `send_attempts` does with the verdict on a reply, and with a reply
  abbrev judged : ℕ → ℕ → ℕ → Option ℕ → Action ℕ
  judged rounds attempt timeouts done = elim done [
    | some n ↦ pure n
    | none ↦ send_attempts zlib_crc32 rounds seq chunk (attempt + 1) timeouts
  ]

  abbrev replied : ℕ → ℕ → ℕ → Option (String × Bool) → Action ℕ
  replied rounds attempt timeouts r = elim r [
    | none ↦
        let more = send_attempts zlib_crc32 rounds seq chunk (attempt + 1) (timeouts + 1) in
        if leb max_timeouts (timeouts + 1) then (do fail Kind.timeout; raise Kind.timeout) else more
    | some (reply, late) ↦
        block_reply zlib_crc32 seq attempt reply >>= judged rounds attempt timeouts
  ]

  nak_reply :
      (attempt : ℕ) (text : String) (rest : List String) (s : Server)
      → split text ≡ "NAK" ∷ rest
      → block_reply zlib_crc32 seq attempt text s ≡ (returned none, s)
  unfolding block_reply starts part
  nak_reply attempt text rest s e = rw (e, block_reply) (ground arith)

  ack_reply :
      (attempt : ℕ) (text : String) (rest : List String) (s : Server)
      → split text ≡ "ACK" ∷ str seq ∷ rest
      → block_reply zlib_crc32 seq attempt text s ≡ (returned (some attempt), s)
  unfolding block_reply starts part
  ack_reply attempt text rest s e = rw (e, block_reply) (ground (arith, eq_iff (str seq) (str seq)))

  after_nak :
      (rounds attempt timeouts : ℕ) (late : Bool) (text : String) (rest : List String)
      (es : List Event) (s : Server)
      → split text ≡ "NAK" ∷ rest
      → send_attempts zlib_crc32
          (suc rounds)
          seq
          chunk
          attempt
          timeouts
          (record s { events = record { reply = got text; late = late } ∷ es })
        ≡ send_attempts zlib_crc32 rounds seq chunk (attempt + 1) timeouts (resent es s)
  unfolding send_attempts send_payload resent
  after_nak rounds attempt timeouts late text rest es s e =
      >>=-returned recv_or_timeout (replied rounds attempt timeouts) _ _ _
        (reads text late es sent (nak-ne-rmb text rest e))
      ∙ >>=-returned (block_reply zlib_crc32 seq attempt text) (judged rounds attempt timeouts) _ _
          _ (nak_reply attempt text rest (record sent { events = es }) e)
    where
      sent : Server
      sent = resent es s

  after_ack :
      (rounds attempt timeouts : ℕ) (late : Bool) (text : String) (rest : List String) (s : Server)
      → split text ≡ "ACK" ∷ str seq ∷ rest
      → IsThrough 1 attempt s (
          send_attempts zlib_crc32
            (suc rounds)
            seq
            chunk
            attempt
            timeouts
            (record s { events = record { reply = got text; late = late } ∷ more }))
  unfolding send_attempts send_payload resent
  after_ack rounds attempt timeouts late text rest s e =
      subst (IsThrough 1 attempt s)
        (sym (
          >>=-returned recv_or_timeout (replied rounds attempt timeouts) _ _ _
            (reads text late more sent (ack-ne-rmb text (str seq ∷ rest) e))
          ∙ >>=-returned (block_reply zlib_crc32 seq attempt text) (judged rounds attempt timeouts)
              _ _ _ (ack_reply attempt text rest (record sent { events = more }) e)))
        (record { outcome = refl; events = refl; sent = refl })
    where
      sent : Server
      sent = resent more s

  -- one attempt more
  IsThrough-suc :
      (n attempt : ℕ) (s : Server) (p : Outcome ℕ × Server)
      → IsThrough (suc n) (attempt + 1 + n) (payload_sent s) p
      → IsThrough (suc (suc n)) (attempt + suc n) s p
  unfolding payload_sent send_payload
  IsThrough-suc n attempt s p h =
      let e : attempt + 1 + n ≡ attempt + suc n = omega arith in
      record {
        outcome = rw (← e) h.outcome;
        events = h.events;
        sent =
            h.sent
            ∙ append_assoc s.sent (payload (data_header zlib_crc32 seq chunk) chunk ∷ [])
                (replicate (suc n) (payload (data_header zlib_crc32 seq chunk) chunk));
      }

  -- the setbacks, and then the acknowledgement
  abbrev pub coming : List Setback → Bool → String → List Event
  coming setbacks late text = events_of setbacks ++ record { reply = got text; late = late } ∷ more

  attempts-IsThrough :
      (setbacks : List Setback) (rounds attempt timeouts : ℕ) (late : Bool) (text : String)
      (rest : List String) (s : Server)
      → split text ≡ "ACK" ∷ str seq ∷ rest
      → length setbacks < rounds
      → timeouts + lost_replies setbacks < 5
      → IsThrough (suc (length setbacks)) (attempt + length setbacks) s (
          send_attempts zlib_crc32 rounds seq chunk attempt timeouts
            (record s { events = coming setbacks late text }))
  unfolding events_of event_of lost_replies resent
  attempts-IsThrough setbacks zero attempt timeouts late text rest s e lt few = absurd (omega arith)
  attempts-IsThrough [] (suc rounds) attempt timeouts late text rest s e lt few =
      rw add-zero (after_ack rounds attempt timeouts late text rest s e)
  attempts-IsThrough (lost_reply late' ∷ setbacks) (suc rounds) attempt timeouts late text rest s e
        lt few =
      let k = length setbacks in
      subst (IsThrough (suc (suc k)) (attempt + suc k) s)
        (sym (after_loss rounds attempt timeouts late' (coming setbacks late text) s (omega arith)))
        (IsThrough-suc k attempt s _ (
          attempts-IsThrough setbacks rounds (attempt + 1) (timeouts + 1) late text rest
            (payload_sent s) e (omega arith) (omega arith)))
  attempts-IsThrough (nak text' rest' e' late' ∷ setbacks) (suc rounds) attempt timeouts late text
        rest s e lt few =
      let k = length setbacks in
      subst (IsThrough (suc (suc k)) (attempt + suc k) s)
        (sym (after_nak rounds attempt timeouts late' text' rest' (coming setbacks late text) s e'))
        (IsThrough-suc k attempt s _ (
          attempts-IsThrough setbacks rounds (attempt + 1) timeouts late text rest (payload_sent s)
            e (omega arith) (omega arith)))

  -- Whatever NAK and lost replies come first, with fewer than five lost replies and no more of both
  -- than retransmits are allowed: where an ACK of the block comes then, `send_block` returns the number
  -- of retransmits, has sent the block as often and once more, and has read no further.
  pub send_block-IsThrough :
      (setbacks : List Setback) (late : Bool) (text : String) (rest : List String) (s : Server)
      → split text ≡ "ACK" ∷ str seq ∷ rest
      → length setbacks ≤ s.max_retries
      → lost_replies setbacks < 5
      → IsThrough
          (suc (length setbacks))
          (length setbacks)
          s
          (send_block zlib_crc32 seq chunk (record s { events = coming setbacks late text }))
  unfolding send_block
  send_block-IsThrough setbacks late text rest s e le few = rw zero-add at (
      attempts-IsThrough setbacks (s.max_retries + 1) 0 0 late text rest s e (omega arith)
        (omega arith))
