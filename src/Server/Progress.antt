-- ===== src/Server/Progress.antt =====
-- The recovery of src/pcutp/server.py ends: it waits only
-- where the link has delivered all that it has.
use text.Mathlib.Text.{◌==◌ as str_eq}
use pcutp.Base.{
  ℕ, zero, suc, ◌+◌, ◌≤◌, ◌<◌, ◌≡◌, refl, Bool, true, false, Option, none, some, List, [], ◌∷◌,
  arith, ◌++◌, not, String, length, if◌then◌else◌,
}
use pcutp.Base.Text.{split, part, unwords}
use pcutp.Errors.{Kind}
use pcutp.Server.Session.{
  Server, Event, Reply, got, timed_out, too_long, lost, control, Outcome, returned, raised, waiting,
  Action, pure, raise, send_line, recv_from, recv_line, timeout_none, recv_or_timeout, is_rmb,
}
use pcutp.Server.Recovery.{
  after_verdict, after_read, listen, listen_all, or_else, try_times, settle, reset_all, after_guard,
  next_token, probe_reply, probe_once, reset_reply, reset_once, probe_all, probe_receiver,
  barrier_reply, barrier_once, recover_window, rst_retries,
}
use pcutp.Server.Draining.{
  Takes, Draining, Taking, Draining-pure, Draining-raise, Draining-if, Draining-Taking, Leaves-more,
  Draining-bind, Taking-bind,
}

-- A read takes an event however it ends, if it ends.
abbrev Reads : {A : Type 0} → ℕ → Outcome A × Server → Type 0
Reads n (returned a, s) = length s.events < n
Reads n (raised e, s) = length s.events < n
Reads n (waiting, s) = s.events ≡ []

Reads-if :
    {A : Type 0} (n : ℕ) (b : Bool) (p q : Outcome A × Server)
    → Reads n p
    → Reads n q
    → Reads n (if b then p else q)
Reads-if n true p q hp hq = hp
Reads-if n false p q hp hq = hq

Reads-event :
    (reply : Reply) (late : Bool) (es : List Event) (s : Server) (n : ℕ)
    → length es < n
    → ((s' : Server) → Reads n (recv_from es s'))
    → Reads n (recv_from (record { reply = reply; late = late } ∷ es) s)
unfolding recv_from
Reads-event timed_out late es s n h more = h
Reads-event too_long late es s n h more = h
Reads-event lost late es s n h more = h
Reads-event (got text) late es s n h more = Reads-if n (not (is_rmb (split text))) _ _ h (
    Reads-if n late _ _ h (
      more (record s {
        sent = s.sent ++ control (unwords ("RMB-ACK" ∷ part (split text) 1 ∷ [])) ∷ [];
      })))

Reads-recv_from : (es : List Event) (s : Server) (n : ℕ) → length es ≤ n → Reads n (recv_from es s)
Reads-recv_from [] s n h = unfold recv_from in refl
Reads-recv_from (e ∷ es) s n h =
    Reads-event e.reply e.late es s n (omega arith) (λ s'. Reads-recv_from es s' n (omega arith))

timeout_none-Takes :
    (n : ℕ) (o : Outcome (String × Bool)) (s : Server)
    → Reads n (o, s)
    → Takes n (timeout_none o, s)
unfolding timeout_none
timeout_none-Takes n (returned a) s h = h
timeout_none-Takes n waiting s h = h
timeout_none-Takes n (raised e) s h = ground arith

-- Of a read that fails `Takes` asks nothing.
Takes-Reads : {A : Type 0} (n : ℕ) (p : Outcome A × Server) → Reads n p → Takes n p
Takes-Reads n (returned a, s) h = h
Takes-Reads n (raised e, s) h = tt
Takes-Reads n (waiting, s) h = h

pub recv_line-Taking : (k : ℕ) → Taking k recv_line
unfolding recv_line
recv_line-Taking k = record {
  at = λ n s h lt. Takes-Reads n (recv_from s.events s) (Reads-recv_from s.events s n h);
}

pub recv_or_timeout-Taking : (k : ℕ) → Taking k recv_or_timeout
unfolding recv_or_timeout recv_line
recv_or_timeout-Taking k = record {
  at = λ n s h lt.
      timeout_none-Takes n (recv_from s.events s).0 (recv_from s.events s).1
        (Reads-recv_from s.events s n h);
}

module _ {A : Type 0} where
  after_verdict-Draining :
      (k : ℕ) (late : Bool) (more : Action (Option A)) (verdict : Option A)
      → Draining k more
      → Draining k (after_verdict late more verdict)
  unfolding after_verdict
  after_verdict-Draining k late more (some a) hm = Draining-pure k (some a)
  after_verdict-Draining k late more none hm =
      Draining-if k late (pure none) more (Draining-pure k none) hm

  after_read-Draining :
      (k : ℕ) (judge : List String → Action (Option A)) (more : Action (Option A))
      (read : Option (String × Bool))
      → ((parts : List String) → Draining k (judge parts))
      → Draining k more
      → Draining k (after_read judge more read)
  unfolding after_read
  after_read-Draining k judge more none hj hm = Draining-pure k none
  after_read-Draining k judge more (some (line, late)) hj hm =
      Draining-bind (after_verdict late more) k (judge (split line)) (hj (split line))
        (λ verdict. after_verdict-Draining k late more verdict hm)

  listen-Draining :
      (k : ℕ) (judge : List String → Action (Option A))
      → ((k' : ℕ) (parts : List String) → Draining k' (judge parts))
      → Draining k (listen k judge)
  unfolding listen
  listen-Draining zero judge hj = record { at = λ n s h lt. absurd (omega arith) }
  listen-Draining (suc k) judge hj = Draining-Taking (suc k) _ (
      Taking-bind (after_read judge (listen k judge)) k recv_or_timeout
        (recv_or_timeout-Taking (suc k))
        (λ read.
          after_read-Draining k judge (listen k judge) read (hj k) (listen-Draining k judge hj)))

  listen_all-Draining :
      (k : ℕ) (judge : List String → Action (Option A))
      → ((k' : ℕ) (parts : List String) → Draining k' (judge parts))
      → Draining k (listen_all judge)
  unfolding listen_all
  listen_all-Draining k judge hj = record {
    at = λ n s h lt. Leaves-more (length s.events) n (listen (suc (length s.events)) judge s) h (
        (listen-Draining (suc (length s.events)) judge hj).at (length s.events) s (omega arith)
          (omega arith));
  }

  or_else-Draining :
      (k : ℕ) (more : Action (Option A)) (found : Option A)
      → Draining k more
      → Draining k (or_else more found)
  unfolding or_else
  or_else-Draining k more (some a) hm = Draining-pure k (some a)
  or_else-Draining k more none hm = hm

  try_times-Draining :
      (k n : ℕ) (attempt : Action (Option A))
      → Draining k attempt
      → Draining k (try_times n attempt)
  unfolding try_times
  try_times-Draining k zero attempt ha = Draining-pure k none
  try_times-Draining k (suc n) attempt ha =
      Draining-bind (or_else (try_times n attempt)) k attempt ha (λ found.
        or_else-Draining k (try_times n attempt) found (try_times-Draining k n attempt ha))

  settle-Draining :
      (k : ℕ) (otherwise : Action A) (found : Option A)
      → Draining k otherwise
      → Draining k (settle otherwise found)
  unfolding settle
  settle-Draining k otherwise (some a) ho = Draining-pure k a
  settle-Draining k otherwise none ho = ho

pub send_line-Draining : (k : ℕ) (line : String) → Draining k (send_line line)
unfolding send_line
send_line-Draining k line = record { at = λ n s h lt. h }

next_token-Draining : (k : ℕ) → Draining k next_token
unfolding next_token
next_token-Draining k = record { at = λ n s h lt. h }

probe_reply-Draining :
    (probe : String) (k : ℕ) (parts : List String) → Draining k (probe_reply probe parts)
unfolding probe_reply
probe_reply-Draining probe k parts = record { at = λ n s h lt. ground arith }

probe_once-Draining : (k : ℕ) → Draining k probe_once
unfolding probe_once
probe_once-Draining k = Draining-bind _ k next_token (next_token-Draining k) (λ probe.
    Draining-bind _ k (send_line (unwords ("AYT?" ∷ probe ∷ [])))
      (send_line-Draining k (unwords ("AYT?" ∷ probe ∷ [])))
      (λ _. listen_all-Draining k (probe_reply probe) (probe_reply-Draining probe)))

reset_reply-Draining :
    (token : String) (k : ℕ) (parts : List String) → Draining k (reset_reply token parts)
unfolding reset_reply
reset_reply-Draining token k parts = record { at = λ n s h lt. ground arith }

reset_once-Draining : (k : ℕ) (token : String) → Draining k (reset_once token)
unfolding reset_once
reset_once-Draining k token =
    Draining-bind _ k (send_line (unwords ("RST" ∷ "0" ∷ token ∷ [])))
      (send_line-Draining k (unwords ("RST" ∷ "0" ∷ token ∷ [])))
      (λ _. listen_all-Draining k (reset_reply token) (reset_reply-Draining token))

reset_all-Draining : (k : ℕ) → Draining k reset_all
unfolding reset_all
reset_all-Draining k = Draining-bind _ k next_token (next_token-Draining k) (λ token.
    Draining-bind _ k (try_times rst_retries (reset_once token))
      (try_times-Draining k rst_retries (reset_once token) (reset_once-Draining k token))
      (λ found. settle-Draining k (raise Kind.link_lost) found (Draining-raise k Kind.link_lost)))

probe_all-Draining : (k : ℕ) → Draining k probe_all
unfolding probe_all
probe_all-Draining k = record {
  at = λ n s h lt.
      (Draining-bind (settle reset_all) k (try_times s.probe_retries probe_once)
          (try_times-Draining k s.probe_retries probe_once (probe_once-Draining k))
          (λ found. settle-Draining k reset_all found (reset_all-Draining k))).at
        n s h lt;
}

after_guard-Draining : (k : ℕ) (late : Option (String × Bool)) → Draining k (after_guard late)
unfolding after_guard
after_guard-Draining k none = probe_all-Draining k
after_guard-Draining k (some (line, _)) =
    Draining-if k (str_eq line "") probe_all (pure line) (probe_all-Draining k)
      (Draining-pure k line)

pub probe_receiver-Draining : (k : ℕ) → Draining k probe_receiver
unfolding probe_receiver
probe_receiver-Draining k =
    Draining-bind after_guard k recv_or_timeout
      (Draining-Taking k recv_or_timeout (recv_or_timeout-Taking k)) (after_guard-Draining k)

barrier_reply-Draining :
    (token : String) (base sent k : ℕ) (parts : List String)
    → Draining k (barrier_reply token base sent parts)
unfolding barrier_reply
barrier_reply-Draining token base sent k parts = record { at = λ n s h lt. ground arith }

barrier_once-Draining :
    (k : ℕ) (token : String) (base sent : ℕ) → Draining k (barrier_once token base sent)
unfolding barrier_once
barrier_once-Draining k token base sent =
    Draining-bind _ k (send_line (unwords ("BARRIER" ∷ token ∷ [])))
      (send_line-Draining k (unwords ("BARRIER" ∷ token ∷ [])))
      (λ _.
        listen_all-Draining k (barrier_reply token base sent)
          (barrier_reply-Draining token base sent))

pub recover_window-Draining : (k base sent : ℕ) → Draining k (recover_window base sent)
unfolding recover_window
recover_window-Draining k base sent = record {
  at = λ n s h lt.
      (Draining-bind _ k next_token (next_token-Draining k) (λ token.
          Draining-bind _ k (try_times (s.max_retries + 1) (barrier_once token base sent))
            (try_times-Draining k (s.max_retries + 1) (barrier_once token base sent)
              (barrier_once-Draining k token base sent))
            (λ found.
              settle-Draining k (raise Kind.timeout) found (Draining-raise k Kind.timeout)))).at
        n s h lt;
}
