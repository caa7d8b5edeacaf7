-- ===== src/Link/Wait.antt =====
-- `recv_line` of src/pcutp/link.py. A moment is one pass of its loop: the time, and what stands in
-- the buffer: a complete line, too much without a line end, or neither. The clock is read once in
-- a pass. Trace output, the log and the sounds are left out, and so is the splitting of bytes
-- into lines.
use text.Mathlib.Text.{◌==◌ as str_eq}
use pcutp.Base.{
  ℕ, ◌+◌, ◌-◌, Bool, true, false, ◌&&◌, ◌||◌, not, Option, none, some, List, [], ◌∷◌, ◌++◌, String,
  length, ltb, leb, ◌==◌, if◌then◌else◌,
}
use pcutp.Base.Text.{split, is_decimal, int, str, part, unwords}
use pcutp.Errors.{Kind}
use pcutp.Client.Header.{starts}

pub record KeepAlive : Type 0 where
  pub interval : ℕ
  pub timeout : ℕ
  pub retries : ℕ
  pub beacon_interval : ℕ
  pub beacon_tx : String
  pub beacon_rx : String

-- the counters of `Link`, the local variables of `recv_line`, and the lines sent
pub record Wait : Type 0 where
  pub ping_bit : ℕ
  pub ayt_bit : ℕ
  pub beacon_bit : ℕ
  pub peer_beacon_bit : ℕ
  pub last_rx : ℕ
  pub last_ping : ℕ
  pub last_beacon : ℕ
  pub outstanding : Option String
  pub probes_sent : ℕ
  pub beacon_waiting : Option ℕ
  pub last_beacon_mark : ℕ
  pub marker_probes : ℕ
  pub sent : List String

pub data Buffer : Type 0 where
  line : String → Buffer
  empty : Buffer
  overfull : Buffer

pub record Moment : Type 0 where
  pub now : ℕ
  pub buffer : Buffer

-- how a pass ends: another pass, a line, or an exception
pub data Pass : Type 0 where
  again : Pass
  line : String → Pass
  raised : Kind → Pass

-- `^= 1`
unfoldable pub flip : ℕ → ℕ
flip b = if b == 0 then 1 else 0

-- `outstanding == word`
unfoldable pub is_word : String → Option String → Bool
is_word word none = false
is_word word (some w) = str_eq w word

unfoldable pub is_bit : ℕ → Option ℕ → Bool
is_bit bit none = false
is_bit bit (some b) = b == bit

unfoldable pub is_none : {A : Type 0} → Option A → Bool
is_none none = true
is_none (some x) = false

unfoldable pub is_side : String → Bool
is_side w = str_eq w "U" || str_eq w "P"

unfoldable pub is_bit_word : String → Bool
is_bit_word w = str_eq w "0" || str_eq w "1"

unfoldable pub is_ping : List String → Bool
is_ping parts = length parts == 2 && (starts parts "PING" && is_decimal (part parts 1))

unfoldable pub is_pong : List String → Bool
is_pong parts = length parts == 2 && (starts parts "PONG" && is_decimal (part parts 1))

unfoldable pub is_here : List String → Bool
is_here parts =
    length parts == 3
    && (starts parts "HERE" && (is_bit_word (part parts 1) && is_decimal (part parts 2)))

unfoldable pub is_beacon : List String → Bool
is_beacon parts =
    length parts == 3
    && (starts parts "BEACON" && (is_side (part parts 1) && is_bit_word (part parts 2)))

unfoldable pub is_marker : List String → Bool
is_marker parts =
    length parts == 4
    && (starts parts "MARK"
        && (is_side (part parts 1) && (is_side (part parts 2) && is_bit_word (part parts 3))))

-- `send_line`, of a line with these words
unfoldable pub send : List String → Wait → Wait
send words w = record w { sent = w.sent ++ unwords words ∷ [] }

-- the reset behind a matching PONG or HERE
unfoldable pub diagnosed : ℕ → Wait → Wait
diagnosed now w = record w {
  last_rx = now;
  outstanding = none;
  beacon_waiting = none;
  last_beacon_mark = now;
  marker_probes = 0;
  ping_bit = 0;
  ayt_bit = 0;
  beacon_bit = 0;
  last_beacon = now;
}

-- a MARK of the other side
unfoldable pub take_marker : KeepAlive → ℕ → List String → Wait → Wait
take_marker k now parts w =
    if str_eq (part parts 2) k.beacon_tx && is_bit (int (part parts 3)) w.beacon_waiting
    then record w {
      beacon_waiting = none;
      last_beacon_mark = now;
      marker_probes = 0;
      outstanding = none;
    }
    else w

-- a BEACON of the other side: either way the next expected bit is the complement of this one
unfoldable pub take_beacon : KeepAlive → List String → Wait → Wait
unfolding send flip
take_beacon k parts w =
    let bit = int (part parts 2) in
    send ("MARK" ∷ k.beacon_tx ∷ k.beacon_rx ∷ str bit ∷ []) (record w {
      peer_beacon_bit = if bit == w.peer_beacon_bit then flip w.peer_beacon_bit else flip bit;
    })

-- `if is_beacon or is_marker`
unfoldable pub take_signal : Option KeepAlive → ℕ → List String → Wait → Wait
unfolding take_marker take_beacon
take_signal none now parts w = w
take_signal (some k) now parts w =
    let w₁ = record w { last_rx = now; probes_sent = 0 } in
    if not (str_eq (part parts 1) k.beacon_rx)
    then w
    else if is_marker parts
    then take_marker k now parts w₁
    else take_beacon k parts w₁

-- a PING, PONG or HERE
unfoldable pub take_probe : ℕ → List String → Wait → Wait
unfolding send diagnosed
take_probe now parts w =
    if is_ping parts
    then (if is_word (part parts 1) w.outstanding
        then w
        else record (send ("PONG" ∷ part parts 1 ∷ []) w) { last_rx = now; probes_sent = 0 })
    else if is_pong parts && is_word (part parts 1) w.outstanding
    then record (diagnosed now w) { probes_sent = 0 }
    else if is_here parts && is_word (part parts 1) w.outstanding
    then send ("AYT-OK" ∷ part parts 1 ∷ []) (diagnosed now w)
    else w

-- a line in the buffer
unfoldable pub take_text : Option KeepAlive → ℕ → String → Wait → Pass × Wait
unfolding take_signal take_probe is_none
take_text keepalive now text w =
    let parts = split text in
    if is_beacon parts || is_marker parts
    then (Pass.again, take_signal keepalive now parts w)
    else if is_ping parts || (is_pong parts || is_here parts && not (is_none keepalive))
    then (Pass.again, take_probe now parts w)
    else (Pass.line text, w)

-- the idle heartbeat
unfoldable pub beat : KeepAlive → ℕ → Wait → Wait
unfolding send flip is_none
beat k now w =
    if w.marker_probes == 0
      && (is_none w.beacon_waiting && leb k.beacon_interval (now - w.last_beacon))
    then record (send ("BEACON" ∷ k.beacon_tx ∷ str w.beacon_bit ∷ []) w) {
      beacon_waiting = some w.beacon_bit;
      beacon_bit = flip w.beacon_bit;
      last_beacon = now;
    }
    else w

unfoldable pub send_ping : ℕ → Wait → Wait
unfolding send flip
send_ping now w = record (send ("PING" ∷ str w.ping_bit ∷ []) w) {
  outstanding = some (str w.ping_bit);
  ping_bit = flip w.ping_bit;
  last_ping = now;
}

unfoldable pub send_ayt : ℕ → Wait → Wait
unfolding send flip
send_ayt now w = record (send ("AYT?" ∷ str w.ayt_bit ∷ []) w) {
  outstanding = some (str w.ayt_bit);
  ayt_bit = flip w.ayt_bit;
  last_ping = now;
}

-- the diagnosis of the transmit direction; `none` for LinkLostError
unfoldable pub probe_marker : KeepAlive → ℕ → Wait → Option Wait
unfolding send_ping send_ayt is_none
probe_marker k now w =
    let w₁ = if ltb w.marker_probes 2 then send_ping now w else send_ayt now w in
    if not (is_none w.beacon_waiting)
      && (leb k.interval (now - w.last_beacon_mark) && leb k.interval (now - w.last_ping))
    then (if leb (k.retries + 1) w.marker_probes
        then none
        else some (record w₁ { marker_probes = w₁.marker_probes + 1 }))
    else some w

-- the diagnosis of the receive direction; `none` for LinkLostError
unfoldable pub probe_idle : KeepAlive → ℕ → ℕ → Wait → Option Wait
unfolding send_ping
probe_idle k now idle w =
    let w₁ = send_ping now w in
    if leb k.timeout idle && (leb k.retries w.probes_sent && leb k.interval (now - w.last_ping))
    then none
    else if leb k.interval idle && leb k.interval (now - w.last_ping)
    then (if leb k.retries w.probes_sent
        then none
        else some (record w₁ { probes_sent = w₁.probes_sent + 1 }))
    else some w

-- behind the second diagnosis: the exception, the test of the deadline, or another pass
unfoldable pub after_idle : ℕ → ℕ → Option Wait → Wait → Pass × Wait
after_idle deadline now none w = (Pass.raised Kind.link_lost, w)
after_idle deadline now (some w₁) w =
    if leb deadline now then (Pass.raised Kind.timeout, w₁) else (Pass.again, w₁)

-- behind the first diagnosis
unfoldable pub after_marker : KeepAlive → ℕ → ℕ → ℕ → Option Wait → Wait → Pass × Wait
unfolding after_idle probe_idle
after_marker k deadline now idle none w = (Pass.raised Kind.link_lost, w)
after_marker k deadline now idle (some w₁) w = after_idle deadline now (probe_idle k now idle w₁) w₁

-- a pass without a line
unfoldable pub take_quiet : Option KeepAlive → ℕ → ℕ → Wait → Pass × Wait
unfolding after_marker beat probe_marker
take_quiet none deadline now w = after_idle deadline now (some w) w
take_quiet (some k) deadline now w =
    after_marker k deadline now (now - w.last_rx) (probe_marker k now (beat k now w)) (beat k now w)

unfoldable pub take_moment : Option KeepAlive → ℕ → Moment → Wait → Pass × Wait
unfolding take_text take_quiet
take_moment keepalive deadline m w = elim m.buffer [
  | Buffer.line text ↦ take_text keepalive m.now text w
  | Buffer.overfull ↦ (Pass.raised Kind.protocol, w)
  | Buffer.empty ↦ take_quiet keepalive deadline m.now w
]

unfoldable pub take_pass : (Wait → Pass × Wait) → Pass × Wait → Pass × Wait
take_pass more (Pass.again, w) = more w
take_pass more (Pass.line text, w) = (Pass.line text, w)
take_pass more (Pass.raised e, w) = (Pass.raised e, w)

-- the loop, for the moments that the clock and the transport give it
unfoldable pub wait_line : Option KeepAlive → ℕ → List Moment → Wait → Pass × Wait
unfolding take_pass
wait_line keepalive deadline [] w = (Pass.again, w)
wait_line keepalive deadline (m ∷ moments) w =
    take_pass (wait_line keepalive deadline moments) (take_moment keepalive deadline m w)

-- the local variables at the start of a call, at the time `now`
unfoldable pub begin : ℕ → Wait → Wait
begin now w = record w {
  last_rx = now;
  last_ping = now;
  last_beacon = now;
  outstanding = none;
  probes_sent = 0;
  beacon_waiting = none;
  last_beacon_mark = now;
  marker_probes = 0;
}

unfoldable pub recv_line : Option KeepAlive → ℕ → ℕ → List Moment → Wait → Pass × Wait
unfolding wait_line begin
recv_line keepalive timeout now moments w =
    wait_line keepalive (now + timeout) moments (begin now w)

-- `reset_session`
unfoldable pub reset_session : Wait → Wait
reset_session w = record w { ping_bit = 0; ayt_bit = 0; beacon_bit = 0; peer_beacon_bit = 0 }
