-- ===== src/Tests/Transfers.antt =====
-- A transfer with both ends, and the end of a session.
use pcutp.Base.{
  ℕ, ◌≤◌, ◌≡◌, if◌then◌else◌, refl, true, false, none, some, List, [], ◌∷◌, arith, String, Bytes,
}
use pcutp.Base.Words.{IsWord}
use text.Mathlib.Text.{◌==◌ as str_eq}
use pcutp.Errors.{Kind, Result, ok, err, make}
use pcutp.Names.{sanitize_filename}
use pcutp.Client.Announce.{recv_meta}
use pcutp.Client.Calls.{close, hello, i_am}
use pcutp.Client.Closes.{close-Answers}
use pcutp.Link.Answers.{Answers}
use pcutp.Server.Session.{
  Server, Event, Frame, got, timed_out, waiting, recv_line, recv_from, is_rmb, recv_or_timeout,
  send_line,
}
use pcutp.Server.Transfer.{Setting, transfer_block, handle_get}
use pcutp.Server.Refusals.{Handles, handle_get-Handles}
use pcutp.Handshake.Negotiate.{
  Limits, has_prefix, negotiate, greet, await_hru, take_hru, lift, proposal_line, offer_line,
  handle_hello,
}
use pcutp.Handshake.Agreement.{agreed}
use pcutp.Handshake.Greets.{line_event, IsGreeted, HasSession, greeting_settles}
use pcutp.Exchange.Files.{knobs}
use pcutp.Exchange.Announced.{announced, announcement, recv_meta-announcement}
use pcutp.Base.Text.{is_space, split, part}
use pcutp.Server.Serve.{Desk, serve_once, serve_loop, next_request}
use pcutp.Server.Serves.{serve_once-waits}
use pcutp.Flow.{options}
use pcutp.Client.Header.{starts}
use pcutp.Exchange.Yields.{Yields}
use pcutp.Exchange.Rounds.{IsRequest, IsReport}
use pcutp.Exchange.Sessions.{conversation, serve_once-IsReport}
use pcutp.Exchange.Completes.{BothEnds, transfer_completes}
use pcutp.Tests.{sum_crc, sum_crc-IsRunning}
use pcutp.Tests.Downloads.{receiver}

abbrev setting : Setting
setting = record {
  flow = true;
  compression = false;
  auto_block = false;
  negotiated_block_limit = 2;
  max_file_size = 1024;
}

abbrev sender : Server
sender = record {
  block_size = 2;
  window_size = 2;
  max_retries = 5;
  probe_retries = 10;
  baud = 115200;
  use_compression = false;
  barrier_id = 0;
  reset_token = none;
  compressed_blocks = 0;
  data_wire_bytes = 0;
  raw_write_active = false;
  events = [];
  sent = [];
}

abbrev contents : Bytes
contents = 1 ∷ 2 ∷ 3 ∷ 4 ∷ 5 ∷ []

name-IsWord : IsWord "A.TXT"
unfolding is_space
name-IsWord = (refl, (refl, (refl, (refl, (refl, tt)))))

name_safe : sanitize_filename "A.TXT" ≡ ok "A.TXT"
unfolding sanitize_filename
name_safe = refl

abbrev block : ℕ
block = (knobs sum_crc setting contents sender).block_size

some_block : 1 ≤ block
unfolding transfer_block
some_block = omega arith

small_block : block ≤ 4096
unfolding transfer_block
small_block = omega arith

transfer_completes_example :
    (told : List String) × (wire : List Frame) × BothEnds sum_crc setting sender receiver "A.TXT"
      contents block none false told wire
transfer_completes_example =
    transfer_completes sum_crc sum_crc-IsRunning setting sender receiver "A.TXT" contents none false
      name-IsWord name_safe refl (omega arith) (λ on. refl) some_block small_block small_block
      (omega arith) tt

recv_meta-announcement_example :
    recv_meta (some "FETCHING") (some (announcement sum_crc "A.TXT" contents 2))
    ≡ ok (announced sum_crc "A.TXT" contents 2)
recv_meta-announcement_example =
    recv_meta-announcement sum_crc "A.TXT" contents 2 name-IsWord name_safe

abbrev goodbye : List Event
goodbye =
    record { reply = timed_out; late = true }
    ∷ record { reply = got "CLOSE"; late = false }
    ∷ record { reply = got "BYE"; late = false }
    ∷ record { reply = timed_out; late = true }
    ∷ []

close-Answers_example : Answers 3 goodbye (close goodbye)
close-Answers_example = close-Answers goodbye

-- a fetcher that finds one page
abbrev fetcher : String → ℕ → Result Bytes
fetcher url max_size = if str_eq url "http://a/b" then ok contents else err (make Kind.http)

handle_get-Handles_example :
    Handles sum_crc fetcher setting "GET A.TXT http://a/c" sender
      (handle_get sum_crc fetcher setting "GET A.TXT http://a/c" sender)
handle_get-Handles_example =
    handle_get-Handles sum_crc fetcher setting "GET A.TXT http://a/c" sender

abbrev limits : Limits
limits = record { block_limit = 2048; window_limit = 2; compression_enabled = false; baud = 115200 }

greeting_settles_example :
    IsGreeted limits receiver (proposal_line true limits.baud (agreed limits receiver)) (
      hello receiver (
        line_event (proposal_line true limits.baud (agreed limits receiver))
        ∷ line_event "WHO? 0"
        ∷ []))
    × HasSession limits receiver true [] sender (
        handle_hello limits
          (offer_line true receiver)
          (record sender { events = line_event "HRU" ∷ line_event i_am ∷ [] }))
greeting_settles_example = greeting_settles limits receiver [] sender (omega arith) (omega arith)

abbrev desk : Desk
desk = record { limits = limits; auto_block = false; max_file_size = 1024 }

asks : split "GET A.TXT http://a/b" ≡ "GET" ∷ "A.TXT" ∷ "http://a/b" ∷ []
unfolding split
asks = refl

request : IsRequest sum_crc fetcher desk "GET A.TXT http://a/b"
unfolding has_prefix
request = record { goes_on = refl; first_hello = refl; again_hello = refl }

serve_once-IsReport_example : Yields (IsReport "A.TXT" contents) (
    serve_once sum_crc fetcher desk (record sender {
      events = conversation sum_crc fetcher desk receiver "GET A.TXT http://a/b" contents sender;
    }))
serve_once-IsReport_example =
    serve_once-IsReport sum_crc fetcher desk receiver "GET A.TXT http://a/b" "A.TXT" "http://a/b"
      "A.TXT" contents sender (omega arith) (omega arith) request asks name_safe refl

-- a greeting, and then nothing more
abbrev greeted_only : Server
greeted_only = record sender {
  events =
      record { reply = got "HELLO PCUTP/2"; late = false }
      ∷ record { reply = got "HRU"; late = false }
      ∷ [];
}

greeted_only_waits : (serve_once sum_crc fetcher desk greeted_only).0 ≡ waiting
unfolding serve_once recv_line recv_from is_rmb handle_hello negotiate greet await_hru take_hru
    serve_loop next_request recv_or_timeout options split part starts lift send_line
    pcutp.Server.Serve.settle_terms
greeted_only_waits = refl

serve_once-waits_example : (serve_once sum_crc fetcher desk greeted_only).1.events ≡ []
serve_once-waits_example = serve_once-waits sum_crc fetcher desk greeted_only greeted_only_waits
