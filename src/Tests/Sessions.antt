-- ===== src/Tests/Sessions.antt =====
-- The greeting, the windowed transfer and the keep-alive exchange of src/pcutp/server.py and
-- src/pcutp/link.py.
use text.Mathlib.Text.{◌==◌ as str_eq}
use pcutp.Base.{
  ℕ, ◌+◌, ◌*◌, ◌%◌, ◌^◌, ◌≤◌, ◌≡◌, refl, true, false, Option, none, some, List, [], ◌∷◌, arith,
  String, Bytes, drop,
}
use pcutp.Errors.{ok, ◌>>=◌}
use pcutp.Flow.{options}
use pcutp.Crc.Hex.{to_hex, parse_hex}
use pcutp.Crc.HexRoundTrip.{parse_hex-to_hex}
use pcutp.Link.Wait.{KeepAlive, Wait, Moment, Buffer, recv_line}
use pcutp.Link.Limits.{Leaves, recv_line-Leaves}
use pcutp.Server.Ensures.{Returns}
use pcutp.Server.Setbacks.{Answer, Setback, overs, is_over, word_of}
use pcutp.Server.Resumes.{IsFound, coming, token_of, recover_window-IsFound}
use pcutp.Crc.{crc32_hex}
use pcutp.Server.Block.{data_header}
use pcutp.Server.Lines.{classify-data_header}
use pcutp.Server.Waits.{send_window-waits}
use pcutp.Server.Bounds.{IsComplete, send_window-IsComplete}
use pcutp.Handshake.Negotiate.{Limits, negotiate, offer_line, proposal_line, take_answer}
use pcutp.Handshake.Agreement.{agreed, greeted, hello_agrees}
use pcutp.Server.Window.{
  Window, send_window, send_loop, fill, send_next, entry, find_frame, make_frame, await_loop,
  await_reply, take_reply, judge, take_gap, take_ack, is_ack, is_reset, keep_from, go_on,
}
use pcutp.Server.Session.{
  Server, Event, Outcome, got, returned, waiting, send_payload, recv_or_timeout,
  recv_line as next_line, recv_from, timeout_none, send_line,
}
use pcutp.Server.Recovery.{
  recover_window, next_token, try_times, barrier_once, barrier_reply, listen_all, listen, settle,
  after_verdict, after_read, or_else, is_one_of,
}
use pcutp.Base.Text.{str, split, part, is_decimal, int}
use pcutp.Client.Header.{Header, classify, starts}
use pcutp.Tests.{sum_crc}
use pcutp.Tests.Downloads.{receiver}

parse_hex-to_hex_example : parse_hex (to_hex 3735928559) ≡ some (3735928559 % 2 ^ 32)
parse_hex-to_hex_example = parse_hex-to_hex 3735928559

abbrev limits : Limits
limits = record { block_limit = 2048; window_limit = 2; compression_enabled = false; baud = 115200 }

hello_agrees_example :
    ((options (drop 2 (split (offer_line true receiver))) >>= negotiate limits)
      ≡ ok (agreed limits receiver))
    × (1 ≤ (agreed limits receiver).window_size)
    × (take_answer receiver (proposal_line false 115200 (agreed limits receiver))
        ≡ ok ((agreed limits receiver).block_size, greeted limits receiver))
    × ((greeted limits receiver).window_size * ((agreed limits receiver).block_size + 64)
        ≤ (greeted limits receiver).receive_buffer)
hello_agrees_example = hello_agrees limits receiver true false (omega arith) (omega arith)

abbrev reply : String → Event
reply line = record { reply = got line; late = false }

-- the second block is lost once
abbrev sender : Server
sender = record {
  block_size = 2;
  window_size = 2;
  max_retries = 5;
  probe_retries = 10;
  baud = 115200;
  use_compression = false;
  barrier_id = 0;
  reset_token = none;
  compressed_blocks = 0;
  data_wire_bytes = 0;
  raw_write_active = false;
  events =
      reply "ACK 0" ∷ reply "DROP 1 RAW" ∷ reply "RESUME 1 1" ∷ reply "ACK 1" ∷ reply "ACK 2" ∷ [];
  sent = [];
}

abbrev contents : Bytes
contents = 1 ∷ 2 ∷ 3 ∷ 4 ∷ 5 ∷ []

abbrev retransmits : Outcome Window → Option ℕ
retransmits (returned w) = some w.retransmits
retransmits _ = none

resends : retransmits (send_window sum_crc contents 3 sender).0 ≡ some 1
unfolding send_window send_loop fill send_next entry find_frame make_frame await_loop await_reply
    take_reply judge take_gap take_ack is_ack is_reset keep_from go_on send_payload recv_or_timeout
    next_line recv_from timeout_none send_line recover_window next_token try_times barrier_once
    barrier_reply listen_all listen settle after_verdict after_read or_else is_one_of split part
    is_decimal int starts str
resends = refl

send_window-IsComplete_example :
    Returns (IsComplete 3 2 5) (send_window sum_crc contents 3 sender).0
send_window-IsComplete_example = send_window-IsComplete sum_crc contents 3 sender (omega arith)

-- nothing comes back
abbrev unheard : Server
unheard = record sender { events = [] }

unheard_waits : (send_window sum_crc contents 3 unheard).0 ≡ waiting
unfolding send_window send_loop fill send_next entry find_frame make_frame await_loop await_reply
    send_payload recv_or_timeout next_line recv_from timeout_none go_on
unheard_waits = refl

send_window-waits_example : (send_window sum_crc contents 3 unheard).1.events ≡ []
send_window-waits_example = send_window-waits sum_crc contents 3 unheard unheard_waits

classify-data_header_example :
    classify receiver (data_header sum_crc 1 (3 ∷ 4 ∷ []))
    ≡ Header.block (record {
      packed = false;
      seq = 1;
      length = 2;
      raw_length = 2;
      want = crc32_hex sum_crc (3 ∷ 4 ∷ []) 0;
    })
classify-data_header_example = classify-data_header sum_crc receiver 1 (3 ∷ 4 ∷ [])

-- the second recovery: no reply in time, a delayed DROP, and the RESUME of the first
abbrev again : Server
again = record sender { barrier_id = 1; events = [] }

drop_words : split "DROP 1 RAW" ≡ word_of Answer.drop ∷ "1" ∷ "RAW" ∷ []
unfolding split word_of
drop_words = refl

old_words : split "RESUME 1 1" ≡ "RESUME" ∷ "1" ∷ "1" ∷ []
unfolding split
old_words = refl

old_token : str_eq "1" (token_of again) ≡ false
unfolding str
old_token = refl

resume_words : split "RESUME 2 1" ≡ "RESUME" ∷ token_of again ∷ "1" ∷ []
unfolding split str
resume_words = refl

abbrev setbacks : List (Setback (token_of again))
setbacks =
    Setback.silence true
    ∷ Setback.answer "DROP 1 RAW" Answer.drop ("1" ∷ "RAW" ∷ []) drop_words false
    ∷ Setback.resumed "RESUME 1 1" "1" ("1" ∷ []) old_words old_token false
    ∷ []

recover_window-IsFound_example : IsFound (token_of again) 1 2 [] again (
    recover_window 1 3
      (record again { events = coming (token_of again) "RESUME 2 1" false [] setbacks }))
unfolding overs is_over is_decimal int
recover_window-IsFound_example =
    recover_window-IsFound 1 3 again setbacks "RESUME 2 1" "1" false [] (omega arith) resume_words
      refl (omega arith) (omega arith)

abbrev keepalive : KeepAlive
keepalive = record {
  interval = 5;
  timeout = 20;
  retries = 3;
  beacon_interval = 4;
  beacon_tx = "U";
  beacon_rx = "P";
}

abbrev idle : Wait
idle = record {
  ping_bit = 0;
  ayt_bit = 0;
  beacon_bit = 0;
  peer_beacon_bit = 0;
  last_rx = 0;
  last_ping = 0;
  last_beacon = 0;
  outstanding = none;
  probes_sent = 0;
  beacon_waiting = none;
  last_beacon_mark = 0;
  marker_probes = 0;
  sent = [];
}

abbrev silence : List Moment
silence =
    record { now = 4; buffer = Buffer.empty }
    ∷ record { now = 9; buffer = Buffer.empty }
    ∷ record { now = 10; buffer = Buffer.line "PONG 0" }
    ∷ record { now = 14; buffer = Buffer.empty }
    ∷ record { now = 15; buffer = Buffer.line "GET A.TXT http://a" }
    ∷ []

recv_line-Leaves_example : Leaves keepalive (recv_line (some keepalive) 30 0 silence idle)
recv_line-Leaves_example =
    recv_line-Leaves keepalive 30 0 silence idle (omega arith) (omega arith) (omega arith)
      (omega arith)
