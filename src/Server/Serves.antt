-- ===== src/Server/Serves.antt =====
-- `serve_once` of src/pcutp/server.py ends: it waits only where the link has delivered all that it
-- has. A round of its loop takes an event, or the request that stood in for HRU.
use text.Mathlib.Text.{◌==◌ as str_eq}
use pcutp.Base.{
  ℕ, zero, suc, ◌+◌, ◌<◌, ◌≡◌, Bool, true, false, ◌||◌, Option, none, some, List, [], arith, String,
  Bytes, length, if◌then◌else◌,
}
use pcutp.Errors.{Result}
use pcutp.Link.Teardown.{Closing}
use pcutp.Handshake.Negotiate.{Terms, Session, handle_hello, has_prefix}
use pcutp.Server.Session.{
  Server, Event, Outcome, returned, raised, waiting, Action, pure, send_line, recv_line, ◌>>=◌,
}
use pcutp.Server.Transfer.{TransferResult, handle_get}
use pcutp.Server.Serve.{
  Desk, setting, settle_terms, tear_down, hang_up, report, after_hello, take_request, next_request,
  serve_loop, serve_once,
}
use pcutp.Server.Draining.{
  Leaves, Takes, Draining, Taking, Draining-pure, Draining-bind, Taking-bind,
}
use pcutp.Server.Progress.{recv_line-Taking, send_line-Draining}
use pcutp.Server.SendsAll.{handle_get-Draining}
use pcutp.Server.Greeted.{Greets, handle_hello-Greeting}
use pcutp.Link.Ends.{Ends, hang_up-Ends}

-- An action that waits has no events left.
abbrev Waits : {A : Type 0} → Outcome A × Server → Type 0
Waits p = p.0 ≡ waiting → p.1.events ≡ []

Leaves-Waits : {A : Type 0} (n : ℕ) (p : Outcome A × Server) → Leaves n p → Waits p
Leaves-Waits n (returned a, s) h e = cc
Leaves-Waits n (raised e', s) h e = cc
Leaves-Waits n (waiting, s) h e = h

if-Waits :
    {A : Type 0} (b : Bool) (m m' : Action A) (s : Server)
    → Waits (m s)
    → Waits (m' s)
    → Waits ((if b then m else m') s)
if-Waits true m m' s h h' = h
if-Waits false m m' s h h' = h'

read-Waits :
    {A B : Type 0} (f : A → Action B) (n : ℕ) (p : Outcome A × Server)
    → Takes n p
    → ((a : A) (s : Server) → length s.events < n → Waits (f a s))
    → let m : Action A = λ _. p in Waits ((m >>= f) p.1)
read-Waits f n (returned a, s) h hf e = hf a s h e
read-Waits f n (raised e', s) h hf e = cc
read-Waits f n (waiting, s) h hf e = h

tear_down-Draining :
    (k : ℕ) (close : List Event → Closing)
    → ((events : List Event) → Ends (length events) (close events))
    → Draining k (tear_down close)
unfolding tear_down
tear_down-Draining k close hc = record { at = λ n s h lt. ground (arith, (hc s.events)) }

hang_up-Draining : (k : ℕ) → Draining k hang_up
unfolding hang_up
hang_up-Draining k =
    Draining-bind _ k (send_line "BYE") (send_line-Draining k "BYE")
      (λ _. tear_down-Draining k _ hang_up-Ends)

module _ (zlib_crc32 : Bytes → ℕ → ℕ) (fetcher : String → ℕ → Result Bytes) (d : Desk) where
  -- the events to come, twice, and a request that has been read already
  abbrev weight : Session → Server → ℕ
  weight session s =
      length s.events + length s.events + (elim session.pending [ none ↦ 0 | some r ↦ 1 ])

  -- A loop that waits has no events left, with fewer than `k` steps to do.
  record Stops (k : ℕ) (loop : Session → Action (List TransferResult)) : Type 0 where
    at : (session : Session) (s : Server) → weight session s < k → Waits (loop session s)

  -- what a round does with the request, with the loop behind it
  module _ (k : ℕ) (more : List TransferResult → Session → Action (List TransferResult))
      (hm : (results : List TransferResult) → Stops k (more results)) where
    take_hello-Waits :
        (results : List TransferResult) (n : ℕ) (p : Outcome (Option Session) × Server)
        → Greets n p
        → n + n < k
        → let m : Action (Option Session) = λ _. p in
          Waits ((m >>= after_hello zlib_crc32 fetcher d (more results) results) p.1)
    unfolding after_hello settle_terms
    take_hello-Waits results n (returned none, s) h lt e = cc
    take_hello-Waits results n (returned (some session), s) h lt e =
        (hm results).at session (settle_terms session.terms s) (ground arith) e
    take_hello-Waits results n (raised e', s) h lt e = cc
    take_hello-Waits results n (waiting, s) h lt e = h

    take_get-Waits :
        (results : List TransferResult) (session : Session) (n : ℕ)
        (p : Outcome (Option TransferResult) × Server)
        → Leaves n p
        → n + n < k
        → let m : Action (Option TransferResult) = λ _. p in
          Waits
            ((m >>= λ result. more (report results result) (record session { pending = none })) p.1)
    take_get-Waits results session n (returned r, s) h lt e =
        (hm (report results r)).at (record session { pending = none }) s (omega arith) e
    take_get-Waits results session n (raised e', s) h lt e = cc
    take_get-Waits results session n (waiting, s) h lt e = h

    take_request-Waits :
        (results : List TransferResult) (session : Session) (request : String) (s : Server)
        → length s.events + length s.events < k
        → Waits (take_request zlib_crc32 fetcher d more results session request s)
    unfolding take_request
    take_request-Waits results session request s lt =
        if-Waits (str_eq request "CLOSE") _ _ s
          (λ e.
            Leaves-Waits n _
              ((Draining-bind (λ _. pure results) (suc n) hang_up (hang_up-Draining (suc n))
                  (λ _. Draining-pure (suc n) results)).at
                n s (omega arith) (omega arith))
              e)
          (if-Waits (has_prefix "HELLO " request || has_prefix "HELLO? " request) _ _ s
            (take_hello-Waits results n (handle_hello d.limits request s)
              ((handle_hello-Greeting d.limits request).at n s (omega arith)) lt)
            (take_get-Waits results session n
              (handle_get zlib_crc32 fetcher (setting d session.terms) request s)
              ((handle_get-Draining zlib_crc32 fetcher (suc n) (setting d session.terms) request).at
                n s (omega arith) (omega arith))
              lt))
      where
        n : ℕ
        n = length s.events

  round-Waits :
      (k : ℕ) (results : List TransferResult) (t : Terms) (pending : Option String) (s : Server)
      → ((results' : List TransferResult) → Stops k (serve_loop zlib_crc32 fetcher d k results'))
      → weight (record { terms = t; pending = pending }) s < suc k
      → Waits (
          serve_loop zlib_crc32 fetcher d
            (suc k)
            results
            (record { terms = t; pending = pending })
            s)
  unfolding serve_loop
  round-Waits k results t (some request) s hm lt =
      take_request-Waits k (serve_loop zlib_crc32 fetcher d k) hm results
        (record { terms = t; pending = some request }) request s (omega arith)
  round-Waits k results t none s hm lt =
      read-Waits
        (take_request zlib_crc32 fetcher d (serve_loop zlib_crc32 fetcher d k) results session)
        (length s.events) (next_request zlib_crc32 fetcher d none s)
        (next_request-Taking.at (length s.events) s (omega arith) (omega arith))
        (λ request s' fewer.
          take_request-Waits k (serve_loop zlib_crc32 fetcher d k) hm results session request s'
            (omega arith))
    where
      session : Session
      session = record { terms = t; pending = none }

      next_request-Taking : Taking (suc (length s.events)) (next_request zlib_crc32 fetcher d none)
      next_request-Taking =
          Taking-bind (λ r. pure (r.0)) (length s.events) recv_line
            (recv_line-Taking (suc (length s.events))) (λ r. Draining-pure (length s.events) (r.0))

  serve_loop-Stops :
      (k : ℕ) (results : List TransferResult) → Stops k (serve_loop zlib_crc32 fetcher d k results)
  serve_loop-Stops zero results = record { at = λ session s lt. absurd (omega arith) }
  serve_loop-Stops (suc k) results = record {
    at = λ session s. round-Waits k results session.terms session.pending s (serve_loop-Stops k);
  }

  -- the loop behind the greeting, with the fuel that `serve_once` gives it
  abbrev begun : Option Session → Action (List TransferResult)
  begun greeted s =
      after_hello zlib_crc32 fetcher d
        (serve_loop zlib_crc32 fetcher d (length s.events + length s.events + 2) []) [] greeted s

  begun-Waits :
      (n : ℕ) (p : Outcome (Option Session) × Server)
      → Greets n p
      → let m : Action (Option Session) = λ _. p in Waits ((m >>= begun) p.1)
  unfolding after_hello settle_terms
  begun-Waits n (returned none, s) h e = cc
  begun-Waits n (returned (some session), s) h e =
      (serve_loop-Stops (length s.events + length s.events + 2) []).at session
        (settle_terms session.terms s) (ground arith) e
  begun-Waits n (raised e', s) h e = cc
  begun-Waits n (waiting, s) h e = h

  -- A session returns or raises an error, unless the link has delivered all its events: the fuel of
  -- its loop, and that of the transfers in it, does not run out before, whatever comes.
  pub serve_once-waits :
      (s : Server)
      → (serve_once zlib_crc32 fetcher d s).0 ≡ waiting
      → (serve_once zlib_crc32 fetcher d s).1.events ≡ []
  unfolding serve_once
  serve_once-waits s =
      read-Waits (λ r. handle_hello d.limits (r.0) >>= begun) (length s.events) (recv_line s)
        ((recv_line-Taking (suc (length s.events))).at (length s.events) s (omega arith)
          (omega arith))
        (λ r s' fewer.
          begun-Waits (length s'.events) (handle_hello d.limits (r.0) s')
            ((handle_hello-Greeting d.limits (r.0)).at (length s'.events) s' (omega arith)))
