-- ===== src/Server/Recovery.antt =====
-- `_probe_receiver`, `_old_resume` and `_recover_window` of src/pcutp/server.py. Their three
-- `while time.monotonic() < deadline` loops are `listen`: a reply is judged, and where it settles
-- nothing the loop goes on if the deadline has not passed. The deadlines lie in the future when
-- they are set.
use text.Mathlib.Text.{◌==◌ as str_eq}
use pcutp.Base.{
  ℕ, zero, suc, ◌+◌, Bool, false, ◌&&◌, ◌||◌, not, Option, none, some, List, [], ◌∷◌, String,
  length, ltb, leb, ◌==◌, if◌then◌else◌,
}
use pcutp.Base.Text.{split, is_decimal, int, part, unwords, str}
use pcutp.Errors.{Kind}
use pcutp.Client.Header.{starts}
use pcutp.Server.Session.{
  returned, waiting, Action, pure, raise, modify, send_line, recv_or_timeout, ◌>>=◌, ◌>>◌,
}

abbrev pub rst_retries : ℕ
rst_retries = 3

module _ {A : Type 0} where
  -- behind a verdict: the loop's test
  unfoldable pub after_verdict : Bool → Action (Option A) → Option A → Action (Option A)
  after_verdict late more (some a) = pure (some a)
  after_verdict late more none = if late then pure none else more

  -- behind a read: a timeout leaves the loop
  unfoldable pub after_read :
      (List String → Action (Option A))
      → Action (Option A)
      → Option (String × Bool)
      → Action (Option A)
  after_read judge more none = pure none
  after_read judge more (some (line, late)) = do
    verdict ← judge (split line)
    after_verdict late more verdict

  -- a call takes an event, so more rounds than there are events are enough
  unfoldable pub listen : ℕ → (List String → Action (Option A)) → Action (Option A)
  unfolding after_read after_verdict
  listen zero judge = λ s. (waiting, s)
  listen (suc fuel) judge = do r ← recv_or_timeout; after_read judge (listen fuel judge) r

  unfoldable pub listen_all : (List String → Action (Option A)) → Action (Option A)
  listen_all judge s = listen (suc (length s.events)) judge s

  unfoldable pub or_else : Action (Option A) → Option A → Action (Option A)
  or_else more (some a) = pure (some a)
  or_else more none = more

  -- `for _ in range(n)`, until a round returns
  unfoldable pub try_times : ℕ → Action (Option A) → Action (Option A)
  unfolding or_else
  try_times zero attempt = pure none
  try_times (suc n) attempt = do r ← attempt; or_else (try_times n attempt) r

  -- behind the rounds: the value, or what the source does without one
  unfoldable pub settle : Action A → Option A → Action A
  settle otherwise (some a) = pure a
  settle otherwise none = otherwise

-- `self._barrier_id += 1`, and the token
unfoldable pub next_token : Action String
next_token s = (returned (str (s.barrier_id + 1)), record s { barrier_id = s.barrier_id + 1 })

unfoldable pub is_one_of : List String → List String → Bool
unfolding starts
is_one_of parts [] = false
is_one_of parts (word ∷ words) = starts parts word || is_one_of parts words

-- the replies to AYT?
unfoldable pub probe_reply : String → List String → Action (Option String)
unfolding starts part is_one_of
probe_reply probe parts =
    if length parts == 3
      && (starts parts "HERE" && (str_eq (part parts 1) probe && is_decimal (part parts 2)))
    then pure (some (unwords ("DROP" ∷ str (int (part parts 2)) ∷ str (int (part parts 2)) ∷ [])))
    else if is_one_of parts ("ACK" ∷ "NAK" ∷ "DROP" ∷ "RST" ∷ "ERR" ∷ [])
    then pure (some (unwords parts))
    else pure none

unfoldable pub probe_once : Action (Option String)
probe_once = do
  probe ← next_token
  send_line (unwords ("AYT?" ∷ probe ∷ []))
  listen_all (probe_reply probe)

-- the replies to RST
unfoldable pub reset_reply : String → List String → Action (Option String)
unfolding starts part is_one_of
reset_reply token parts =
    if length parts == 3
      && (starts parts "RST-ACK" && (str_eq (part parts 1) token && str_eq (part parts 2) "0"))
    then (do modify (λ s. record s { reset_token = some token }); pure (some "RST 0"))
    else if is_one_of parts ("ACK" ∷ "NAK" ∷ "DROP" ∷ "HERE" ∷ "RESUME" ∷ [])
    then pure none
    else raise Kind.protocol

unfoldable pub reset_once : String → Action (Option String)
reset_once token = do send_line (unwords ("RST" ∷ "0" ∷ token ∷ [])); listen_all (reset_reply token)

-- the RST exchange
unfoldable pub reset_all : Action String
unfolding settle
reset_all = do
  token ← next_token
  reset ← try_times rst_retries (reset_once token)
  settle (raise Kind.link_lost) reset

-- the AYT? exchange, and the RST exchange behind it
unfoldable pub probe_all : Action String
unfolding settle
probe_all s = (do found ← try_times s.probe_retries probe_once; settle reset_all found) s

-- a line within the guard time is returned, unless it is empty
unfoldable pub after_guard : Option (String × Bool) → Action String
after_guard none = probe_all
after_guard (some (line, _)) = if str_eq line "" then probe_all else pure line

-- `_probe_receiver`; its argument is not used by the source
unfoldable pub probe_receiver : Action String
unfolding after_guard
probe_receiver = do late ← recv_or_timeout; after_guard late

-- `_old_resume`
unfoldable pub old_resume : ℕ → List String → Bool
unfolding starts part
old_resume barrier_id parts =
    length parts == 3
    && (starts parts "RESUME"
        && (is_decimal (part parts 1)
            && (ltb 0 (int (part parts 1))
                && (leb (int (part parts 1)) barrier_id && is_decimal (part parts 2)))))

-- `parts == ["RST-ACK", self._reset_token, "0"]`
unfoldable pub is_reset_receipt : Option String → List String → Bool
unfolding starts part
is_reset_receipt none parts = false
is_reset_receipt (some token) parts =
    length parts == 3
    && (starts parts "RST-ACK" && (str_eq (part parts 1) token && str_eq (part parts 2) "0"))

-- the replies to BARRIER
unfoldable pub barrier_reply : String → ℕ → ℕ → List String → Action (Option ℕ)
unfolding starts part is_reset_receipt is_one_of
barrier_reply token base sent parts s =
    if length parts == 3 && (starts parts "RESUME" && str_eq (part parts 1) token)
    then (if not (is_decimal (part parts 2))
          || (ltb (int (part parts 2)) base || ltb sent (int (part parts 2)))
        then raise Kind.protocol s
        else pure (some (int (part parts 2))) s)
    else if is_reset_receipt s.reset_token parts
    then pure none s
    else if is_one_of parts ("ACK" ∷ "NAK" ∷ "DROP" ∷ "RESUME" ∷ "HERE" ∷ [])
    then pure none s
    else raise Kind.protocol s

unfoldable pub barrier_once : String → ℕ → ℕ → Action (Option ℕ)
barrier_once token base sent = do
  send_line (unwords ("BARRIER" ∷ token ∷ []))
  listen_all (barrier_reply token base sent)

-- `_recover_window`
unfoldable pub recover_window : ℕ → ℕ → Action ℕ
unfolding settle
recover_window base sent s =
    (do
      token ← next_token
      found ← try_times (s.max_retries + 1) (barrier_once token base sent)
      settle (raise Kind.timeout) found)
      s
