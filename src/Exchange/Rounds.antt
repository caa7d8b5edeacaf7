-- ===== src/Exchange/Rounds.antt =====
-- The rounds of `serve_once` in src/pcutp/server.py: a request that is read, a file that is sent,
-- and CLOSE.
use mathlib.Core.Path.{subst}
use text.Mathlib.Text.{◌==◌ as str_eq}
use pcutp.Base.{
  ℕ, suc, ◌≡◌, refl, sym, ap, true, false, Option, none, List, [], ◌∷◌, String, Bytes, length,
}
use pcutp.Base.Text.{split, part}
use pcutp.Errors.{Result, ok}
use pcutp.Crc.{crc32_hex}
use pcutp.Names.{sanitize_filename}
use pcutp.Client.Header.{starts}
use pcutp.Link.Teardown.{send_fin, await_bye, linger, then_do, say, stop}
use pcutp.Server.Session.{
  Server, Event, Frame, timed_out, returned, Action, pure, send_line, recv_line, recv_from, is_rmb,
  ◌>>=◌,
}
use pcutp.Server.Transfer.{
  Setting, TransferResult, send_file, handle_get, fetch_named, take_fetched,
}
use pcutp.Server.Serve.{
  Desk, setting, tear_down, hang_up, report, take_request, next_request, serve_loop,
}
use pcutp.Handshake.Negotiate.{Terms, Session, has_prefix}
use pcutp.Exchange.Sends.{reply}
use pcutp.Exchange.Confirms.{Delivered}
use pcutp.Exchange.Yields.{Knobs, Yields, Yields-weaken}

-- the end: CLOSE, the BYE for this side's CLOSE, and silence
abbrev pub silence : Event
silence = record { reply = timed_out; late = true }

abbrev pub hanging_up : List Event
hanging_up = reply "BYE" ∷ silence ∷ []

pub bind-returned :
    {A B : Type 0} (m : Action A) (f : A → Action B) (s : Server) (a : A) (s' : Server)
    → m s ≡ (returned a, s')
    → (m >>= f) s ≡ f a s'
bind-returned {A = A} m f s a s' h = ap (λ r. let n : Action A = λ _. r in (n >>= f) s) h

-- one result for one file
abbrev pub IsReport : String → Bytes → List TransferResult → Server → Type 0
IsReport filename input results s =
    (r : TransferResult) × (results ≡ r ∷ [])
    × (r.filename ≡ filename)
    × (r.size ≡ length input)
    × (r.verified ≡ true)
    × (r.retransmits ≡ 0)
    × (s.events ≡ [])

module _ (zlib_crc32 : Bytes → ℕ → ℕ) (fetcher : String → ℕ → Result Bytes) (d : Desk) where
  abbrev pub with_events : List Event → Server → Server
  with_events es s = record s { events = es }

  abbrev pub session : Terms → Session
  session t = record { terms = t; pending = none }

  -- the round that reads CLOSE
  closing-round :
      (fuel : ℕ) (results : List TransferResult) (t : Terms) (s : Server)
      → Yields
          (λ rs s'. (rs ≡ results) × (s'.events ≡ []))
          (serve_loop zlib_crc32 fetcher d
            (suc fuel)
            results
            (session t)
            (with_events (reply "CLOSE" ∷ hanging_up) s))
  unfolding serve_loop next_request take_request recv_line recv_from is_rmb split part hang_up
      tear_down send_line send_fin await_bye linger then_do say stop
  closing-round fuel results t s = (refl, refl)

  pub recv_line-got :
      (line : String) (es : List Event) (s : Server)
      → is_rmb (split line) ≡ false
      → recv_line (with_events (reply line ∷ es) s) ≡ (returned (line, false), with_events es s)
  unfolding recv_line recv_from
  recv_line-got line es s h = rw (recv_line, h) refl

  -- a request that is read
  pub serve_loop-request :
      (fuel : ℕ) (results : List TransferResult) (t : Terms) (line : String) (es : List Event)
      (s : Server)
      → is_rmb (split line) ≡ false
      → serve_loop zlib_crc32 fetcher d
          (suc fuel)
          results
          (session t)
          (with_events (reply line ∷ es) s)
        ≡ take_request zlib_crc32 fetcher d
            (serve_loop zlib_crc32 fetcher d fuel)
            results
            (session t)
            line
            (with_events es s)
  unfolding serve_loop next_request
  serve_loop-request fuel results t line es s h =
      bind-returned (next_request zlib_crc32 fetcher d none)
        (take_request zlib_crc32 fetcher d (serve_loop zlib_crc32 fetcher d fuel) results
          (session t))
        (with_events (reply line ∷ es) s) line (with_events es s)
        (bind-returned recv_line (λ r. pure (r.0)) (with_events (reply line ∷ es) s) (line, false)
          (with_events es s) (recv_line-got line es s h))

  -- a request that is no greeting and no CLOSE, by its first characters
  pub record IsRequest (line : String) : Type 0 where
    pub goes_on : str_eq line "CLOSE" ≡ false
    pub first_hello : has_prefix "HELLO " line ≡ false
    pub again_hello : has_prefix "HELLO? " line ≡ false

  unfoldable pub after_get :
      (List TransferResult → Session → Action (List TransferResult))
      → List TransferResult
      → Terms
      → Option TransferResult
      → Action (List TransferResult)
  after_get more results t result = more (report results result) (session t)

  pub take_request-get :
      (more : List TransferResult → Session → Action (List TransferResult))
      (results : List TransferResult) (t : Terms) (line : String) (s : Server)
      → IsRequest line
      → take_request zlib_crc32 fetcher d more results (session t) line s
        ≡ (handle_get zlib_crc32 fetcher (setting d t) line >>= after_get more results t) s
  unfolding take_request after_get
  take_request-get more results t line s h =
      rw (take_request, h.goes_on, h.first_hello, h.again_hello) refl

  pub handle_get-send_file :
      (c : Setting) (line word url filename : String) (input : Bytes) (s : Server)
      → split line ≡ "GET" ∷ word ∷ url ∷ []
      → sanitize_filename word ≡ ok filename
      → fetcher url c.max_file_size ≡ ok input
      → handle_get zlib_crc32 fetcher c line s
        ≡ send_file zlib_crc32 c filename input (send_line "FETCHING" s).1
  unfolding handle_get fetch_named take_fetched starts part send_file send_line
  handle_get-send_file c line word url filename input s words safe found =
      rw (handle_get, words, safe, found) refl

  -- a file is delivered, and the session is closed
  pub Delivered-closing :
      (fuel : ℕ) (t : Terms) (k : Knobs) (filename : String) (input : Bytes) (blocks : ℕ)
      (sent : List Frame) (result : Option TransferResult) (s : Server)
      → Delivered zlib_crc32 filename input blocks (reply "CLOSE" ∷ hanging_up) sent k result s
      → Yields
          (IsReport filename input)
          (after_get (serve_loop zlib_crc32 fetcher d (suc fuel)) [] t result s)
  unfolding after_get report
  Delivered-closing fuel t k filename input blocks sent result s h =
      let same : s ≡ with_events (reply "CLOSE" ∷ hanging_up) s =
        ap (λ es. with_events es s) h.1.has_events in
      rw (h.0) (
        subst
          (λ s'.
            Yields (IsReport filename input)
              (serve_loop zlib_crc32 fetcher d (suc fuel) (found ∷ []) (session t) s'))
          (sym same)
          (Yields-weaken (λ rs s'. (rs ≡ found ∷ []) × (s'.events ≡ [])) (IsReport filename input)
            (serve_loop zlib_crc32 fetcher d (suc fuel) (found ∷ []) (session t)
              (with_events (reply "CLOSE" ∷ hanging_up) s))
            (closing-round fuel (found ∷ []) t s)
            (λ rs s' e. (found, e.0, refl, refl, refl, refl, e.1))))
    where
      found : TransferResult
      found = record {
        filename = filename;
        size = length input;
        blocks = blocks;
        crc32 = crc32_hex zlib_crc32 input 0;
        retransmits = 0;
        verified = true;
        compressed_blocks = s.compressed_blocks;
        data_wire_bytes = s.data_wire_bytes;
      }
