-- ===== src/Server/Serve.antt =====
-- `serve_once` and `shutdown` of src/pcutp/server.py. The attributes that a greeting sets are
-- those of the model's `Session`; `Desk` has the attributes that no session changes. The idle
-- callback, the sounds and the log are left out.
use text.Mathlib.Text.{◌==◌ as str_eq}
use pcutp.Base.{
  ℕ, zero, suc, ◌+◌, Bool, ◌||◌, Option, none, some, List, [], ◌∷◌, ◌++◌, String, Bytes, length,
  if◌then◌else◌,
}
use pcutp.Errors.{Result}
use pcutp.Server.Session.{
  Server, Event, Frame, Action, returned, waiting, control, pure, modify, send_line, recv_line,
  ◌>>=◌, ◌>>◌,
}
use pcutp.Server.Transfer.{Setting, TransferResult, handle_get}
use pcutp.Link.Teardown.{Closing, send_fin, await_fin, linger, then_do, close_retries}
use pcutp.Handshake.Negotiate.{Limits, Terms, Session, handle_hello, has_prefix}

pub record Desk : Type 0 where
  pub limits : Limits
  pub auto_block : Bool
  pub max_file_size : ℕ

-- the attributes of a session that a transfer reads
unfoldable pub setting : Desk → Terms → Setting
setting d t = record {
  flow = t.flow;
  compression = t.compression;
  auto_block = d.auto_block;
  negotiated_block_limit = t.block_size;
  max_file_size = d.max_file_size;
}

-- `self.block_size` and `self.window_size`, as a greeting sets them
unfoldable pub settle_terms : Terms → Server → Server
settle_terms t s = record s { block_size = t.block_size; window_size = t.window_size }

-- a teardown, of which the sender keeps no result
unfoldable pub tear_down : (List Event → Closing) → Action (Unit {0})
tear_down close s =
    let c = close s.events in
    let s' = record s { events = c.events; sent = s.sent ++ controls c.sent } in
    elim c.result [ none ↦ (waiting, s') | some b ↦ (returned tt, s') ]
  where
    controls : List String → List Frame
    controls [] = []
    controls (l ∷ ls) = control l ∷ controls ls

-- the answer to CLOSE
unfoldable pub hang_up : Action (Unit {0})
unfolding tear_down
hang_up = do send_line "BYE"; tear_down (λ events. then_do linger (send_fin close_retries events))

-- `self.on_result`, for the calls so far
unfoldable pub report : List TransferResult → Option TransferResult → List TransferResult
report results none = results
report results (some r) = results ++ r ∷ []

module _ (zlib_crc32 : Bytes → ℕ → ℕ) (fetcher : String → ℕ → Result Bytes) (d : Desk) where
  -- a greeting, behind which the loop goes on
  unfoldable pub after_hello :
      (Session → Action (List TransferResult))
      → List TransferResult
      → Option Session
      → Action (List TransferResult)
  after_hello more results none = pure results
  after_hello more results (some session) = do modify (settle_terms session.terms); more session

  -- a request
  unfoldable pub take_request :
      (List TransferResult → Session → Action (List TransferResult))
      → List TransferResult
      → Session
      → String
      → Action (List TransferResult)
  unfolding after_hello report
  take_request more results session request =
      if str_eq request "CLOSE"
      then (do hang_up; pure results)
      else if has_prefix "HELLO " request || has_prefix "HELLO? " request
      then (do greeted ← handle_hello d.limits request; after_hello (more results) results greeted)
      else do
        result ← handle_get zlib_crc32 fetcher (setting d session.terms) request
        more (report results result) (record session { pending = none })

  -- the request that stood in for HRU, or the next line
  unfoldable pub next_request : Option String → Action String
  next_request (some request) = pure request
  next_request none = do r ← recv_line; pure (r.0)

  -- `while True`: a round takes an event, but for one with a pending request
  unfoldable pub serve_loop : ℕ → List TransferResult → Session → Action (List TransferResult)
  unfolding next_request take_request
  serve_loop zero results session = λ s. (waiting, s)
  serve_loop (suc fuel) results session = do
    request ← next_request session.pending
    take_request (serve_loop fuel) results session request

  -- the results that are reported; where the session ends by an exception they are not shown
  unfoldable pub serve_once : Action (List TransferResult)
  unfolding after_hello
  serve_once = do
    r ← recv_line
    greeted ← handle_hello d.limits (r.0)
    λ s. after_hello (serve_loop (length s.events + length s.events + 2) []) [] greeted s

-- `shutdown`; the flags say whether a GET runs, and whether a payload is being written
unfoldable pub shutdown : Bool → Action (Unit {0})
unfolding tear_down
shutdown transfer_active s =
    if transfer_active
    then (if s.raw_write_active then pure tt else send_line "ERR RETRY") s
    else tear_down (λ events. then_do linger (then_do await_fin (send_fin close_retries events))) s
