-- ===== src/Link/Limits.antt =====
-- The keep-alive exchange: its counters stay within their limits, the link is given up only
-- after all its probes, and its lines are not handed on.
use pcutp.Base.{
  ◌-◌, ℕ, ◌+◌, ◌≤◌, ◌≡◌, Bool, false, ◌||◌, Option, none, some, List, [], ◌∷◌, arith, ◌⊎◌, String,
}
use pcutp.Base.Text.{split}
use pcutp.Errors.{Kind}
use pcutp.Link.Wait.{
  KeepAlive, Wait, Moment, Buffer, Pass, flip, is_ping, is_pong, is_here, is_beacon, is_marker,
  take_marker, take_beacon, take_signal, take_probe, diagnosed, take_text, beat, send_ping,
  send_ayt, probe_marker, probe_idle, after_idle, after_marker, take_quiet, take_moment, take_pass,
  wait_line, begin, recv_line, send,
}

-- The bits are bits, and neither diagnosis has sent more probes than it may.
abbrev pub IsLimited : KeepAlive → Wait → Type 0
IsLimited k w =
    (w.marker_probes ≤ k.retries + 1)
    × (w.probes_sent ≤ k.retries)
    × (w.ping_bit ≤ 1)
    × (w.ayt_bit ≤ 1)
    × (w.beacon_bit ≤ 1)
    × (w.peer_beacon_bit ≤ 1)

-- One of the two diagnoses has sent all its probes.
abbrev pub IsExhausted : KeepAlive → Wait → Type 0
IsExhausted k w = (w.marker_probes ≡ k.retries + 1) ⊎ (w.probes_sent ≡ k.retries)

-- A line of the keep-alive exchange.
abbrev pub is_signal : String → Bool
is_signal text =
    let parts = split text in
    is_beacon parts || (is_marker parts || (is_ping parts || (is_pong parts || is_here parts)))

-- What a pass leaves behind, for each way it ends.
abbrev pub Leaves : KeepAlive → Pass × Wait → Type 0
Leaves k (Pass.again, w) = IsLimited k w
Leaves k (Pass.line text, w) = IsLimited k w × (is_signal text ≡ false)
Leaves k (Pass.raised e, w) = IsLimited k w × (e ≡ Kind.link_lost → IsExhausted k w)

module _ (k : KeepAlive) where
  flip-bound : (b : ℕ) → flip b ≤ 1
  unfolding flip
  flip-bound b = ground arith

  IsLimited-take_signal :
      (now : ℕ) (parts : List String) (w : Wait)
      → IsLimited k w
      → IsLimited k (take_signal (some k) now parts w)
  unfolding take_signal take_marker take_beacon flip send
  IsLimited-take_signal now parts w h = ground arith

  IsLimited-take_probe :
      (now : ℕ) (parts : List String) (w : Wait)
      → IsLimited k w
      → IsLimited k (take_probe now parts w)
  unfolding take_probe diagnosed send
  IsLimited-take_probe now parts w h = ground arith

  Leaves-take_text :
      (now : ℕ) (text : String) (w : Wait)
      → IsLimited k w
      → Leaves k (take_text (some k) now text w)
  unfolding take_text
  Leaves-take_text now text w h =
      ground (
        arith,
        IsLimited-take_signal now (split text) w h,
        IsLimited-take_probe now (split text) w h,
      )

  IsLimited-beat : (now : ℕ) (w : Wait) → IsLimited k w → IsLimited k (beat k now w)
  unfolding beat send
  IsLimited-beat now w h = ground (arith, flip-bound w.beacon_bit)

  -- A diagnosis goes on within the limits, or it has sent all its probes.
  abbrev Diagnoses : (Wait → Type 0) → Option Wait → Wait → Type 0
  Diagnoses P none w = P w
  Diagnoses P (some w') w = IsLimited k w'

  probe_marker-Diagnoses :
      (now : ℕ) (w : Wait) → IsLimited k w → Diagnoses (IsExhausted k) (probe_marker k now w) w
  unfolding probe_marker send_ping send_ayt send
  probe_marker-Diagnoses now w h = ground (arith, flip-bound w.ping_bit, flip-bound w.ayt_bit)

  probe_idle-Diagnoses :
      (now idle : ℕ) (w : Wait)
      → IsLimited k w
      → Diagnoses (IsExhausted k) (probe_idle k now idle w) w
  unfolding probe_idle send_ping send
  probe_idle-Diagnoses now idle w h = ground (arith, flip-bound w.ping_bit)

  Leaves-after_idle :
      (deadline now : ℕ) (alive : Option Wait) (w : Wait)
      → IsLimited k w
      → Diagnoses (IsExhausted k) alive w
      → Leaves k (after_idle deadline now alive w)
  unfolding after_idle
  Leaves-after_idle deadline now none w h d = (h, λ _. d)
  Leaves-after_idle deadline now (some w₁) w h d = ground arith

  Leaves-after_marker :
      (deadline now idle : ℕ) (alive : Option Wait) (w : Wait)
      → IsLimited k w
      → Diagnoses (IsExhausted k) alive w
      → Leaves k (after_marker k deadline now idle alive w)
  unfolding after_marker
  Leaves-after_marker deadline now idle none w h d = (h, λ _. d)
  Leaves-after_marker deadline now idle (some w₁) w h d =
      Leaves-after_idle deadline now (probe_idle k now idle w₁) w₁ d
        (probe_idle-Diagnoses now idle w₁ d)

  Leaves-take_quiet :
      (deadline now : ℕ) (w : Wait) → IsLimited k w → Leaves k (take_quiet (some k) deadline now w)
  unfolding take_quiet
  Leaves-take_quiet deadline now w h =
      Leaves-after_marker deadline now (now - w.last_rx) (probe_marker k now (beat k now w))
        (beat k now w) (IsLimited-beat now w h)
        (probe_marker-Diagnoses now (beat k now w) (IsLimited-beat now w h))

  Leaves-take_moment :
      (deadline now : ℕ) (buffer : Buffer) (w : Wait)
      → IsLimited k w
      → Leaves k (take_moment (some k) deadline (record { now = now; buffer = buffer }) w)
  unfolding take_moment
  Leaves-take_moment deadline now (Buffer.line text) w h = Leaves-take_text now text w h
  Leaves-take_moment deadline now Buffer.empty w h = Leaves-take_quiet deadline now w h
  Leaves-take_moment deadline now Buffer.overfull w h = (h, λ e. ground arith)

  Leaves-take_pass :
      (more : Wait → Pass × Wait) (p : Pass × Wait)
      → ((w : Wait) → IsLimited k w → Leaves k (more w))
      → Leaves k p
      → Leaves k (take_pass more p)
  unfolding take_pass
  Leaves-take_pass more (Pass.again, w) hm h = hm w h
  Leaves-take_pass more (Pass.line text, w) hm h = h
  Leaves-take_pass more (Pass.raised e, w) hm h = h

  Leaves-wait_line :
      (deadline : ℕ) (moments : List Moment) (w : Wait)
      → IsLimited k w
      → Leaves k (wait_line (some k) deadline moments w)
  unfolding wait_line
  Leaves-wait_line deadline [] w h = h
  Leaves-wait_line deadline (m ∷ moments) w h =
      Leaves-take_pass (wait_line (some k) deadline moments) (take_moment (some k) deadline m w)
        (λ w' h'. Leaves-wait_line deadline moments w' h')
        (Leaves-take_moment deadline m.now m.buffer w h)

-- At all times and for all lines: a wait with keep-alive that starts with bits below 2 keeps its
-- bits and the counts of both diagnoses within their limits; a line that it hands on is none of
-- the exchange; and it raises LinkLostError only after one diagnosis has sent all its probes.
pub recv_line-Leaves :
    (k : KeepAlive) (timeout now : ℕ) (moments : List Moment) (w : Wait)
    → w.ping_bit ≤ 1
    → w.ayt_bit ≤ 1
    → w.beacon_bit ≤ 1
    → w.peer_beacon_bit ≤ 1
    → Leaves k (recv_line (some k) timeout now moments w)
unfolding recv_line begin
recv_line-Leaves k timeout now moments w p a b q =
    Leaves-wait_line k (now + timeout) moments (begin now w) (omega arith, omega arith, p, a, b, q)
