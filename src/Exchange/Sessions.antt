-- ===== src/Exchange/Sessions.antt =====
-- A whole call of `serve_once` in src/pcutp/server.py: greeting, one GET, and CLOSE.
use pcutp.Base.{
  ℕ, suc, ◌+◌, ◌≤◌, ◌≡◌, refl, true, false, some, List, [], ◌∷◌, ◌++◌, String, Bytes, length, arith,
}
use pcutp.Base.Text.{split, part, unwords}
use pcutp.Errors.{Result, ok}
use pcutp.Names.{sanitize_filename}
use pcutp.Client.Header.{Client}
use pcutp.Client.Calls.{i_am}
use pcutp.Server.Session.{Server, Event, control, send_line, recv_line, is_rmb}
use pcutp.Server.Transfer.{Setting, handle_get}
use pcutp.Server.Serve.{Desk, setting, settle_terms, after_hello, serve_loop, serve_once}
use pcutp.Handshake.Negotiate.{proposal_line, offer_line, handle_hello}
use pcutp.Handshake.Agreement.{IsServer, IsClient, agreed, split-offer_line, hello_agrees}
use pcutp.Handshake.Greets.{session_of, greeting_settles}
use pcutp.Exchange.Sends.{reply, acks}
use pcutp.Exchange.Confirms.{ok_words, Delivered}
use pcutp.Exchange.Files.{knobs, blocks_of, sent_of, send_file-Yields}
use pcutp.Exchange.Rounds.{
  hanging_up, bind-returned, IsReport, with_events, session, recv_line-got, serve_loop-request,
  IsRequest, after_get, take_request-get, handle_get-send_file, Delivered-closing,
}
use pcutp.Exchange.Yields.{Yields, Yields-bind}

module _ (zlib_crc32 : Bytes → ℕ → ℕ) (fetcher : String → ℕ → Result Bytes) (d : Desk) where
  -- the sender behind the greeting
  abbrev seated : Client → Server → Server
  seated c s = settle_terms (agreed d.limits c) (record s {
    sent =
        (s.sent ++ control (proposal_line true d.limits.baud (agreed d.limits c)) ∷ [])
        ++ control "WHO? 0" ∷ [];
  })

  abbrev setting_of : Client → Setting
  setting_of c = setting d (agreed d.limits c)

  -- what the receiver sends behind its request
  abbrev answers : Client → Bytes → Server → List Event
  answers c input s =
      reply "READY" ∷ acks 0 (blocks_of zlib_crc32 (setting_of c) input (seated c s))
      ++ reply (unwords (ok_words zlib_crc32 input)) ∷ reply "CLOSE" ∷ hanging_up

  -- the round of the request, and the rest
  request-round :
      (fuel : ℕ) (c : Client) (line word url filename : String) (input : Bytes) (s : Server)
      → 1 ≤ (agreed d.limits c).window_size
      → IsRequest zlib_crc32 fetcher d line
      → split line ≡ "GET" ∷ word ∷ url ∷ []
      → sanitize_filename word ≡ ok filename
      → fetcher url d.max_file_size ≡ ok input
      → Yields (IsReport filename input) (
          serve_loop zlib_crc32 fetcher d
            (suc (suc fuel))
            []
            (session zlib_crc32 fetcher d (agreed d.limits c))
            (with_events zlib_crc32 fetcher d (reply line ∷ answers c input s) (seated c s)))
  unfolding setting settle_terms send_line is_rmb part
  request-round fuel c line word url filename input s window request words safe found =
      let not_rmb : is_rmb (split line) ≡ false = rw words refl in
      let t = agreed d.limits c in
      let heard = with_events zlib_crc32 fetcher d (answers c input s) (seated c s) in
      let fetching = (send_line "FETCHING" heard).1 in
      let k = knobs zlib_crc32 (setting_of c) input fetching in
      let n = blocks_of zlib_crc32 (setting_of c) input fetching in
      let sent = sent_of zlib_crc32 k input n filename fetching.sent in
      rw
        (
          serve_loop-request zlib_crc32 fetcher d (suc fuel) [] t line (answers c input s)
              (seated c s) not_rmb,
          take_request-get zlib_crc32 fetcher d (serve_loop zlib_crc32 fetcher d (suc fuel)) [] t
              line heard request,
        )
        (Yields-bind (Delivered zlib_crc32 filename input n (reply "CLOSE" ∷ hanging_up) sent k)
          (IsReport filename input) (handle_get zlib_crc32 fetcher (setting d t) line)
          (after_get zlib_crc32 fetcher d (serve_loop zlib_crc32 fetcher d (suc fuel)) [] t) heard
          (rw
            (handle_get-send_file zlib_crc32 fetcher d (setting d t) line word url filename input
              heard words safe found)
            (send_file-Yields zlib_crc32 (setting d t) filename input (reply "CLOSE" ∷ hanging_up)
              fetching refl window refl))
          (λ result s₁ h.
            Delivered-closing zlib_crc32 fetcher d fuel t k filename input n sent result s₁ h))

  offer-is_rmb : (c : Client) → is_rmb (split (offer_line true c)) ≡ false
  unfolding is_rmb part
  offer-is_rmb c = rw (split-offer_line true c) (ground arith)

  -- all that comes in a session zlib_crc32 fetcher d
  abbrev pub conversation : Client → String → Bytes → Server → List Event
  conversation c line input s =
      reply (offer_line true c) ∷ reply "HRU" ∷ reply i_am ∷ reply line ∷ answers c input s

  -- With limits in range, a request whose name is safe and whose body is fetched: where the receiver
  -- greets, asks, takes each block, confirms the file and closes, `serve_once` returns, with one
  -- report, of this file as verified, and has read all that came.
  pub serve_once-IsReport :
      (c : Client) (line word url filename : String) (input : Bytes) (s : Server)
      → IsServer d.limits
      → IsClient c
      → IsRequest zlib_crc32 fetcher d line
      → split line ≡ "GET" ∷ word ∷ url ∷ []
      → sanitize_filename word ≡ ok filename
      → fetcher url d.max_file_size ≡ ok input
      → Yields (IsReport filename input) (
          serve_once zlib_crc32 fetcher d
            (with_events zlib_crc32 fetcher d (conversation c line input s) s))
  unfolding serve_once after_hello settle_terms
  serve_once-IsReport c line word url filename input s server client request words safe found =
      let es = reply line ∷ answers c input s in
      let greeting = greeting_settles d.limits c es s server client in
      let window = (hello_agrees d.limits c true true server client).1 in
      let fuel : length es + length es + 2 ≡ suc (suc (length es + length es)) = omega arith in
      rw
        (
          bind-returned recv_line _
              (with_events zlib_crc32 fetcher d (conversation c line input s) s)
              (offer_line true c, false)
              (with_events zlib_crc32 fetcher d (reply "HRU" ∷ reply i_am ∷ es) s)
              (recv_line-got zlib_crc32 fetcher d (offer_line true c)
                (reply "HRU" ∷ reply i_am ∷ es) s (offer-is_rmb c)),
          bind-returned (handle_hello d.limits (offer_line true c)) _
              (with_events zlib_crc32 fetcher d (reply "HRU" ∷ reply i_am ∷ es) s)
              (some (session_of d.limits c)) _ (greeting.1),
          fuel,
        )
        (request-round (length es + length es) c line word url filename input s window request words
          safe found)
