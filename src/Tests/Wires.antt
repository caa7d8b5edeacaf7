-- ===== src/Tests/Wires.antt =====
-- The bytes of the link, the fetch, the daemon and the pipe.
use pcutp.Base.{
  ℕ, ◌+◌, ◌≤◌, ◌≡◌, refl, true, false, ◌==◌, if◌then◌else◌, none, some, List, [], ◌∷◌, ◌++◌, arith,
  String, Bytes, length,
}
use pcutp.Base.Text.{is_decimal, int, split, str}
use pcutp.Errors.{ok}
use pcutp.Link.Stream.{Port, frame_bytes}
use pcutp.Link.Cutting.{stream}
use pcutp.Link.Framing.{ReadsFrame, frame_bytes-ReadsFrame}
use pcutp.Fetcher.{Read, Response, Opened, redirected, opened, fetch, read_body, lower}
use pcutp.Fetcher.Bounded.{IsAllowed, AreAllowed, read_body_bound, fetch_lem}
use pcutp.Daemon.{Ending, clean, disconnected, link_lost, failed, idle, run_serial, percent, bar_of}
use pcutp.Daemon.Losses.{Counts, newest_first, run_serial-Counts, bar_of_width}
use pcutp.Transport.{PipeEnd, write}
use pcutp.Transport.Noise.{IsWritten, write-IsWritten}
use pcutp.Server.Session.{Server, got, timed_out}
use pcutp.Server.Block.{send_block}
use pcutp.Server.Attempts.{Counted, payloads, send_block-Counted}
use pcutp.Server.Persists.{
  Setback, lost_reply, nak, lost_replies, IsThrough, coming, send_block-IsThrough,
}
use pcutp.Tests.{sum_crc}

-- "ACK" and two bytes of payload, one of them LF, in three bursts
abbrev arriving : Port
arriving = record {
  buf = 65 ∷ [];
  bursts = (67 ∷ []) ∷ [] ∷ (75 ∷ 10 ∷ 10 ∷ []) ∷ (9 ∷ 66 ∷ []) ∷ [];
}

arrives : stream arriving ≡ frame_bytes (65 ∷ 67 ∷ 75 ∷ []) (10 ∷ 9 ∷ []) ++ 66 ∷ []
unfolding stream frame_bytes
arrives = refl

frame_bytes-ReadsFrame_example : ReadsFrame (65 ∷ 67 ∷ 75 ∷ []) (10 ∷ 9 ∷ []) (66 ∷ []) arriving
frame_bytes-ReadsFrame_example =
    frame_bytes-ReadsFrame (65 ∷ 67 ∷ 75 ∷ []) (10 ∷ 9 ∷ []) (66 ∷ []) arriving
      (omega arith, (omega arith, (omega arith, tt))) (omega arith) arrives

abbrev urlparse : String → String × String
urlparse url = ("HTTPS", "example.org")

abbrev body : Bytes
body = 1 ∷ 2 ∷ 3 ∷ []

abbrev response : Response
response = record {
  declared = some "3";
  reads =
      record { late = false; chunk = λ n. if n == 0 then some [] else some (1 ∷ []) }
      ∷ record { late = false; chunk = λ n. some (2 ∷ 3 ∷ []) }
      ∷ [];
  late = false;
}

abbrev open_url : ℕ → ℕ → String → Opened
open_url max_repeats max_redirections url = redirected "https://example.org/b" (opened response)

fetched : fetch urlparse open_url "https://example.org/a" 8 ≡ ok body
unfolding fetch lower is_decimal int
fetched = refl

fetch_lem_example :
    (length body ≤ 8)
    × IsAllowed urlparse "https://example.org/a"
    × AreAllowed urlparse (open_url 5 5 "https://example.org/a")
fetch_lem_example = fetch_lem urlparse open_url "https://example.org/a" 8 body fetched

abbrev reads : List Read
reads = record { late = false; chunk = λ n. if n == 0 then some [] else some (1 ∷ []) } ∷ []

reads_one : read_body 8 reads [] ≡ some (1 ∷ [])
unfolding read_body
reads_one = refl

one_at_most :
    (n : ℕ) (c : Bytes) → (if n == 0 then some [] else some (1 ∷ [])) ≡ some c → length c ≤ n
one_at_most n c e = ground arith

read_body_bound_example : length {A = ℕ} (1 ∷ []) ≤ 8 + 1
read_body_bound_example =
    read_body_bound 8 reads [] (1 ∷ []) (one_at_most, tt) (omega arith) reads_one

abbrev endings : List Ending
endings = link_lost ∷ failed ∷ link_lost ∷ link_lost ∷ clean ∷ link_lost ∷ disconnected ∷ []

run_serial-Counts_example : Counts (newest_first [] endings) (run_serial endings idle)
run_serial-Counts_example = run_serial-Counts endings

bar_of_width_example : (length (bar_of (percent 3 7)) ≡ 20) × (percent 3 7 ≤ 100)
bar_of_width_example = bar_of_width 3 7 (omega arith)

abbrev pipe : PipeEnd
pipe = record { corrupt_after_next_line = 2; armed = false; tx = [] }

write-IsWritten_example :
    (out : Bytes) × IsWritten (65 ∷ 10 ∷ 1 ∷ []) pipe (write (65 ∷ 10 ∷ 1 ∷ []) pipe) out
write-IsWritten_example =
    write-IsWritten (65 ∷ 10 ∷ 1 ∷ []) pipe (omega arith, (omega arith, (omega arith, tt)))

-- a NAK, a timeout and the ACK
abbrev sender : Server
sender = record {
  block_size = 2;
  window_size = 1;
  max_retries = 5;
  probe_retries = 10;
  baud = 115200;
  use_compression = false;
  barrier_id = 0;
  reset_token = none;
  compressed_blocks = 0;
  data_wire_bytes = 0;
  raw_write_active = false;
  events =
      record { reply = got "NAK 0 CRC"; late = false }
      ∷ record { reply = timed_out; late = true }
      ∷ record { reply = got "ACK 0"; late = false }
      ∷ [];
  sent = [];
}

send_block-Counted_example :
    Counted
      (payloads sender.sent)
      0
      (sender.max_retries + 1)
      (send_block sum_crc 0 (1 ∷ 2 ∷ []) sender)
send_block-Counted_example = send_block-Counted sum_crc 0 (1 ∷ 2 ∷ []) sender

nak_words : split "NAK 0 CRC" ≡ "NAK" ∷ "0" ∷ "CRC" ∷ []
unfolding split
nak_words = refl

ack_words : split "ACK 0" ≡ "ACK" ∷ str 0 ∷ []
unfolding split str
ack_words = refl

-- a NAK and a lost reply
abbrev two_setbacks : List Setback
two_setbacks = nak "NAK 0 CRC" ("0" ∷ "CRC" ∷ []) nak_words false ∷ lost_reply true ∷ []

send_block-IsThrough_example : IsThrough sum_crc 0 (1 ∷ 2 ∷ []) [] 3 2 sender (
    send_block sum_crc 0
      (1 ∷ 2 ∷ [])
      (record sender { events = coming sum_crc 0 (1 ∷ 2 ∷ []) [] two_setbacks false "ACK 0" }))
unfolding lost_replies
send_block-IsThrough_example =
    send_block-IsThrough sum_crc 0 (1 ∷ 2 ∷ []) [] two_setbacks false "ACK 0" [] sender ack_words
      (omega arith) (omega arith)
