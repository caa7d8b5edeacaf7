-- ===== src/Server/Session.antt =====
-- The state of `PcutpServer` in src/pcutp/server.py during a transfer, and its calls of the link.
-- `Event` is one call of `Link.recv_line`, which returns a line or raises an error (`lost` is
-- LinkLostError, which only a read with keep-alive raises), with
-- whether the deadline of the caller has passed when it ends. `events` are the calls to come;
-- where they end, the code is still waiting. `sent` is what has been written.
use text.Mathlib.Text.{◌==◌ as str_eq}
use pcutp.Base.{
  ℕ, ◌+◌, Bool, false, ◌&&◌, ◌||◌, not, Option, none, some, List, [], ◌∷◌, ◌++◌, String, Bytes,
  length, ltb, if◌then◌else◌,
}
use pcutp.Base.Text.{split, part, unwords}
use pcutp.Names.{text_length}
use pcutp.Errors.{Kind, PcutpError, make, wire}

pub data Reply : Type 0 where
  got : String → Reply
  timed_out : Reply
  too_long : Reply
  lost : Reply

pub record Event : Type 0 where
  pub reply : Reply
  pub late : Bool

pub data Frame : Type 0 where
  control : String → Frame
  payload : String → Bytes → Frame

pub record Server : Type 0 where
  pub block_size : ℕ
  pub window_size : ℕ
  pub max_retries : ℕ
  pub probe_retries : ℕ
  pub baud : ℕ
  pub use_compression : Bool
  pub barrier_id : ℕ
  pub reset_token : Option String
  pub compressed_blocks : ℕ
  pub data_wire_bytes : ℕ
  pub raw_write_active : Bool
  pub events : List Event
  pub sent : List Frame

-- how a call ends: a value, an exception, or no further event
pub data Outcome (A : Type 0) : Type 0 where
  returned : A → Outcome A
  raised : PcutpError → Outcome A
  waiting : Outcome A

abbrev pub Action : Type 0 → Type 0
Action A = Server → Outcome A × Server

module _ {A : Type 0} where
  abbrev pub pure : A → Action A
  pure a s = (returned a, s)

  abbrev pub raise : Kind → Action A
  raise k s = (raised (make k), s)

infixl 5 ◌>>=◌ ◌>>◌
abbrev pub ◌>>=◌ : {A B : Type 0} → Action A → (A → Action B) → Action B
◌>>=◌ m f s =
    let (o, s') = m s in
    elim o [ returned a ↦ f a s' | raised e ↦ (raised e, s') | waiting ↦ (waiting, s') ]

abbrev pub ◌>>◌ : {A B : Type 0} → Action A → Action B → Action B
m >> k = m >>= λ _. k

abbrev pub modify : (Server → Server) → Action (Unit {0})
modify f s = (returned tt, f s)

-- `link.send_line`
unfoldable pub send_line : String → Action (Unit {0})
send_line line s = (returned tt, record s { sent = s.sent ++ control line ∷ [] })

-- `_fail`
unfoldable pub fail : Kind → Action (Unit {0})
unfolding send_line
fail k = send_line (wire (make k))

-- `link.send_line_and_raw`, with the flag round it and the count behind it
unfoldable pub send_payload : String → Bytes → Action (Unit {0})
send_payload header body s = (
  returned tt,
  record s {
    raw_write_active = false;
    sent = s.sent ++ payload header body ∷ [];
    data_wire_bytes = s.data_wire_bytes + (text_length header + 1 + length body);
  },
)

-- `parts[0] == "RMB" and parts[1] in {"0", "1"}`
unfoldable pub is_rmb : List String → Bool
is_rmb parts =
    ltb 1 (length parts)
    && (str_eq (part parts 0) "RMB" && (str_eq (part parts 1) "0" || str_eq (part parts 1) "1"))

-- the loop of `_recv_line`; the result is the line, and whether the deadline has passed
unfoldable pub recv_from : List Event → Action (String × Bool)
unfolding is_rmb
recv_from [] s = (waiting, record s { events = [] })
recv_from (e ∷ events) s = elim e.reply [
  | timed_out ↦ (raised (make Kind.timeout), record s { events = events })
  | too_long ↦ (raised (make Kind.protocol), record s { events = events })
  | lost ↦ (raised (make Kind.link_lost), record s { events = events })
  | got text ↦
      let acked = record s {
        sent = s.sent ++ control (unwords ("RMB-ACK" ∷ part (split text) 1 ∷ [])) ∷ [];
      } in
      let drained = recv_from events acked in
      if not (is_rmb (split text))
      then (returned (text, e.late), record s { events = events })
      else if e.late
      then (raised (make Kind.timeout), record acked { events = events })
      else drained
]

-- `_recv_line`
unfoldable pub recv_line : Action (String × Bool)
recv_line s = recv_from s.events s

-- `except TimeoutError_:`, as `none`
unfoldable pub timeout_none : Outcome (String × Bool) → Outcome (Option (String × Bool))
timeout_none (returned r) = returned (some r)
timeout_none waiting = waiting
timeout_none (raised e) = elim e.kind [ Kind.timeout ↦ returned none | _ ↦ raised e ]

unfoldable pub recv_or_timeout : Action (Option (String × Bool))
unfolding timeout_none
recv_or_timeout s = let (o, s') = recv_line s in (timeout_none o, s')
