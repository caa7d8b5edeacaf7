-- ===== src/Server/Attempts.antt =====
-- How often `_send_block` of src/pcutp/server.py sends its block.
use mathlib.Core.Path.{subst}
use text.Mathlib.Text.{◌==◌ as str_eq}
use pcutp.Base.{
  ℕ, zero, suc, ◌+◌, ◌≤◌, ◌<◌, ◌≡◌, refl, ◌∙◌, Bool, ◌&&◌, Option, none, some, List, [], ◌∷◌, ◌++◌,
  arith, String, Bytes, length, ltb, leb, if◌then◌else◌, Bool-cases, ◌⊎◌, inl, inr,
}
use pcutp.Base.Text.{split, part, unwords, str}
use pcutp.Errors.{Kind, PcutpError, make, wire}
use pcutp.Client.Header.{starts}
use pcutp.Server.Session.{
  Server, Event, Reply, got, timed_out, too_long, lost, Frame, control, payload, Outcome, returned,
  raised, waiting, Action, pure, raise, send_line, fail, send_payload, recv_from, recv_line,
  timeout_none, recv_or_timeout, ◌>>=◌, ◌>>◌,
}
use pcutp.Server.Block.{data_header, max_timeouts, block_reply, send_attempts, send_block}

-- how many payloads have been sent
unfoldable pub payloads : List Frame → ℕ
payloads [] = 0
payloads (control line ∷ fs) = payloads fs
payloads (payload header body ∷ fs) = payloads fs + 1

payloads-append : (fs gs : List Frame) → payloads (fs ++ gs) ≡ payloads fs + payloads gs
unfolding payloads
payloads-append [] gs = omega arith
payloads-append (control line ∷ fs) gs = payloads-append fs gs
payloads-append (payload header body ∷ fs) gs = omega (arith, payloads-append fs gs)

-- With `before` payloads and `attempt` attempts so far, and `rounds` left: a return of `n` behind
-- the attempt `n`, and otherwise no more payloads than rounds.
abbrev pub Counted : ℕ → ℕ → ℕ → Outcome ℕ × Server → Type 0
Counted before attempt rounds (returned n, s) =
    (payloads s.sent + attempt ≡ before + n + 1) × (n < attempt + rounds)
Counted before attempt rounds (raised e, s) = payloads s.sent ≤ before + rounds
Counted before attempt rounds (waiting, s) = payloads s.sent ≤ before + rounds

recv_event-payloads :
    (reply : Reply) (late : Bool) (es : List Event) (s : Server)
    → ((s' : Server) → payloads (recv_from es s').1.sent ≡ payloads s'.sent)
    → payloads (recv_from (record { reply = reply; late = late } ∷ es) s).1.sent ≡ payloads s.sent
unfolding recv_from payloads
recv_event-payloads timed_out late es s more = refl
recv_event-payloads too_long late es s more = refl
recv_event-payloads lost late es s more = refl
recv_event-payloads (got text) late es s more = ground (
  arith,
  more acked,
  payloads-append s.sent (control (unwords ("RMB-ACK" ∷ part (split text) 1 ∷ [])) ∷ []),
)
  where
    acked : Server
    acked = record s {
      sent = s.sent ++ control (unwords ("RMB-ACK" ∷ part (split text) 1 ∷ [])) ∷ [];
    }

recv_from-payloads :
    (es : List Event) (s : Server) → payloads (recv_from es s).1.sent ≡ payloads s.sent
recv_from-payloads [] s = unfold recv_from in refl
recv_from-payloads (e ∷ es) s = recv_event-payloads e.reply e.late es s (recv_from-payloads es)

fail-payloads : (k : Kind) (s : Server) → payloads (fail k s).1.sent ≡ payloads s.sent
unfolding fail send_line payloads
fail-payloads k s = omega (arith, payloads-append s.sent (control (wire (make k)) ∷ []))

send_payload-payloads :
    (header : String) (body : Bytes) (s : Server)
    → payloads (send_payload header body s).1.sent ≡ payloads s.sent + 1
unfolding send_payload payloads
send_payload-payloads header body s =
    omega (arith, payloads-append s.sent (payload header body ∷ []))

module _ (zlib_crc32 : Bytes → ℕ → ℕ) (seq : ℕ) (chunk : Bytes) where
  -- what follows a read, as `send_attempts` has it
  abbrev after_attempt : ℕ → ℕ → ℕ → Option (String × Bool) → Action ℕ
  after_attempt rounds attempt timeouts r = elim r [
    | none ↦
        let more = send_attempts zlib_crc32 rounds seq chunk (attempt + 1) (timeouts + 1) in
        if leb max_timeouts (timeouts + 1) then (do fail Kind.timeout; raise Kind.timeout) else more
    | some (reply, late) ↦ do
      done ← block_reply zlib_crc32 seq attempt reply
      elim done [
        | some n ↦ pure n
        | none ↦ send_attempts zlib_crc32 rounds seq chunk (attempt + 1) timeouts
      ]
  ]

  abbrev Tries : ℕ → Type 0
  Tries rounds =
      (attempt timeouts : ℕ) (s : Server)
      → Counted (payloads s.sent) attempt rounds
          (send_attempts zlib_crc32 rounds seq chunk attempt timeouts s)

  Counted-later :
      (before attempt rounds : ℕ) (r : Outcome ℕ × Server)
      → Counted (before + 1) (attempt + 1) rounds r
      → Counted before attempt (suc rounds) r
  Counted-later before attempt rounds (returned n, s) h = omega (arith, h.0, h.1)
  Counted-later before attempt rounds (raised e, s) h = omega (arith, h)
  Counted-later before attempt rounds (waiting, s) h = omega (arith, h)

  later :
      (before attempt timeouts rounds : ℕ) (s : Server)
      → Tries rounds
      → payloads s.sent ≡ before + 1
      → Counted before attempt
          (suc rounds)
          (send_attempts zlib_crc32 rounds seq chunk (attempt + 1) timeouts s)
  later before attempt timeouts rounds s attempts h =
      Counted-later before attempt rounds
        (send_attempts zlib_crc32 rounds seq chunk (attempt + 1) timeouts s)
        (subst
          (λ n.
            Counted n (attempt + 1) rounds
              (send_attempts zlib_crc32 rounds seq chunk (attempt + 1) timeouts s))
          h (attempts (attempt + 1) timeouts s))

  after_attempt-Counted :
      (rounds attempt timeouts before : ℕ) (r : Option (String × Bool)) (s : Server)
      → Tries rounds
      → payloads s.sent ≡ before + 1
      → Counted before attempt (suc rounds) (after_attempt rounds attempt timeouts r s)
  unfolding block_reply fail
  after_attempt-Counted rounds attempt timeouts before none s attempts h =
      elim (Bool-cases (leb max_timeouts (timeouts + 1))) [
        | inl many ↦ rw many (omega (arith, h, fail-payloads Kind.timeout s))
        | inr few ↦ rw few (later before attempt (timeouts + 1) rounds s attempts h)
      ]
  after_attempt-Counted rounds attempt timeouts before (some (reply, late)) s attempts h =
      elim (Bool-cases (
        starts (split reply) "ACK"
        && (ltb 1 (length (split reply)) && str_eq (part (split reply) 1) (str seq)))) [
          | inl acked ↦ rw acked (omega (arith, h), omega arith)
          | inr other ↦ elim (Bool-cases (starts (split reply) "NAK")) [
            | inl again ↦ rw (other, again) (later before attempt timeouts rounds s attempts h)
            | inr strange ↦ rw (other, strange) (omega (arith, h))
          ]
        ]

  timeout_none-cases :
      (kind : Kind) (code detail : String)
      → let e : PcutpError = record { kind = kind; code = code; detail = detail } in
        (timeout_none (raised e) ≡ raised e) ⊎ (timeout_none (raised e) ≡ returned none)
  unfolding timeout_none
  timeout_none-cases Kind.timeout code detail = inr refl
  timeout_none-cases _ code detail = inl refl

  from_read :
      (rounds attempt timeouts before : ℕ) (o : Outcome (String × Bool)) (s : Server)
      → Tries rounds
      → payloads s.sent ≡ before + 1
      → let m : Action (Option (String × Bool)) = λ _. (timeout_none o, s) in
        Counted before attempt (suc rounds) ((m >>= after_attempt rounds attempt timeouts) s)
  unfolding timeout_none
  from_read rounds attempt timeouts before (returned r) s attempts h =
      after_attempt-Counted rounds attempt timeouts before (some r) s attempts h
  from_read rounds attempt timeouts before waiting s attempts h = omega (arith, h)
  from_read rounds attempt timeouts before (raised e) s attempts h =
      elim (timeout_none-cases e.kind e.code e.detail) [
        | inl same ↦ rw same (omega (arith, h))
        | inr silent ↦
            rw silent (after_attempt-Counted rounds attempt timeouts before none s attempts h)
      ]

  send_attempts-Counted : (rounds : ℕ) → Tries rounds
  unfolding send_attempts recv_or_timeout recv_line fail send_payload recv_from
  send_attempts-Counted zero attempt timeouts s = omega (arith, fail-payloads Kind.retry s)
  send_attempts-Counted (suc rounds) attempt timeouts s =
      let s₁ = (send_payload (data_header zlib_crc32 seq chunk) chunk s).1 in
      from_read rounds attempt timeouts (payloads s.sent) (recv_from s₁.events s₁).0
        (recv_from s₁.events s₁).1 (send_attempts-Counted rounds)
        (recv_from-payloads s₁.events s₁
          ∙ send_payload-payloads (data_header zlib_crc32 seq chunk) chunk s)

  -- Whatever replies come: a block that is sent has been sent once more than the number of
  -- retransmits that is returned, which is within the limit; and a block that is given up, or still
  -- waited for, has been sent at most once more than the limit.
  pub send_block-Counted :
      (s : Server)
      → Counted (payloads s.sent) 0 (s.max_retries + 1) (send_block zlib_crc32 seq chunk s)
  unfolding send_block
  send_block-Counted s = send_attempts-Counted (s.max_retries + 1) 0 0 s
