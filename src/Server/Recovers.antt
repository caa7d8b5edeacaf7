-- ===== src/Server/Recovers.antt =====
-- A recovery keeps the settings, and restarts between the first block without an acknowledgement
-- and the next one to be sent.
use text.Mathlib.Text.{◌==◌ as str_eq}
use pcutp.Base.{
  ℕ, zero, suc, ◌+◌, ◌≤◌, Bool, Option, none, some, List, [], ◌∷◌, String, Bytes, arith, length,
}
use pcutp.Base.Text.{split, unwords}
use pcutp.Errors.{Kind}
use pcutp.Server.Session.{
  Server, Event, Action, pure, raise, send_line, recv_from, recv_line, recv_or_timeout,
  send_payload,
}
use pcutp.Server.Recovery.{
  after_verdict, after_read, listen, listen_all, or_else, try_times, settle, reset_all, after_guard,
  next_token, probe_reply, probe_once, reset_reply, reset_once, probe_all, probe_receiver,
  barrier_reply, barrier_once, recover_window, rst_retries,
}
use pcutp.Server.Ensures.{
  HasSettings, OnSome, Any, Ensures, Ensures-pure, Ensures-raise, Ensures-waiting, Ensures-if,
  Ensures-bind,
}

abbrev pub Between : ℕ → ℕ → ℕ → Type 0
Between base sent n = (base ≤ n) × (n ≤ sent)

module _ {w r : ℕ} where
  HasSettings-recv_from :
      (es : List Event) (s : Server) → HasSettings w r s → HasSettings w r (recv_from es s).1
  unfolding recv_from
  HasSettings-recv_from [] s h = h
  HasSettings-recv_from (e ∷ es) s h = grind (arith, HasSettings-recv_from es)

  pub recv_or_timeout-Ensures : Ensures w r Any recv_or_timeout
  unfolding recv_or_timeout recv_line
  recv_or_timeout-Ensures = record {
    at = λ s h. (HasSettings-recv_from s.events s h, ground arith);
  }

  pub send_line-Ensures : (line : String) → Ensures w r Any (send_line line)
  unfolding send_line
  send_line-Ensures line = record { at = λ s h. (h, tt) }

  next_token-Ensures : Ensures w r Any next_token
  unfolding next_token
  next_token-Ensures = record { at = λ s h. (h, tt) }

  pub send_payload-Ensures :
      (header : String) (body : Bytes) → Ensures w r Any (send_payload header body)
  unfolding send_payload
  send_payload-Ensures header body = record { at = λ s h. (h, tt) }

module _ {w r : ℕ} {A : Type 0} (P : A → Type 0) where
  after_verdict-Ensures :
      (late : Bool) (more : Action (Option A)) (verdict : Option A)
      → Ensures w r (OnSome P) more
      → OnSome P verdict
      → Ensures w r (OnSome P) (after_verdict late more verdict)
  unfolding after_verdict
  after_verdict-Ensures late more (some a) hm p = Ensures-pure (OnSome P) (some a) p
  after_verdict-Ensures late more none hm p =
      Ensures-if (OnSome P) late (pure none) more (λ _. Ensures-pure (OnSome P) none tt) (λ _. hm)

  after_read-Ensures :
      (judge : List String → Action (Option A)) (more : Action (Option A))
      (read : Option (String × Bool))
      → ((parts : List String) → Ensures w r (OnSome P) (judge parts))
      → Ensures w r (OnSome P) more
      → Ensures w r (OnSome P) (after_read judge more read)
  unfolding after_read
  after_read-Ensures judge more none hj hm = Ensures-pure (OnSome P) none tt
  after_read-Ensures judge more (some (line, late)) hj hm =
      Ensures-bind (OnSome P) (OnSome P) (judge (split line)) (after_verdict late more)
        (hj (split line)) (λ verdict p. after_verdict-Ensures late more verdict hm p)

  listen-Ensures :
      (fuel : ℕ) (judge : List String → Action (Option A))
      → ((parts : List String) → Ensures w r (OnSome P) (judge parts))
      → Ensures w r (OnSome P) (listen fuel judge)
  unfolding listen
  listen-Ensures zero judge hj = Ensures-waiting (OnSome P)
  listen-Ensures (suc fuel) judge hj =
      Ensures-bind Any (OnSome P) recv_or_timeout (after_read judge (listen fuel judge))
        recv_or_timeout-Ensures
        (λ read _.
          after_read-Ensures judge (listen fuel judge) read hj (listen-Ensures fuel judge hj))

  listen_all-Ensures :
      (judge : List String → Action (Option A))
      → ((parts : List String) → Ensures w r (OnSome P) (judge parts))
      → Ensures w r (OnSome P) (listen_all judge)
  unfolding listen_all
  listen_all-Ensures judge hj = record {
    at = λ s h. (listen-Ensures (suc (length s.events)) judge hj).at s h;
  }

  or_else-Ensures :
      (more : Action (Option A)) (found : Option A)
      → Ensures w r (OnSome P) more
      → OnSome P found
      → Ensures w r (OnSome P) (or_else more found)
  unfolding or_else
  or_else-Ensures more (some a) hm p = Ensures-pure (OnSome P) (some a) p
  or_else-Ensures more none hm p = hm

  try_times-Ensures :
      (n : ℕ) (attempt : Action (Option A))
      → Ensures w r (OnSome P) attempt
      → Ensures w r (OnSome P) (try_times n attempt)
  unfolding try_times
  try_times-Ensures zero attempt ha = Ensures-pure (OnSome P) none tt
  try_times-Ensures (suc n) attempt ha =
      Ensures-bind (OnSome P) (OnSome P) attempt (or_else (try_times n attempt)) ha
        (λ found p. or_else-Ensures (try_times n attempt) found (try_times-Ensures n attempt ha) p)

  settle-Ensures :
      (otherwise : Action A) (found : Option A)
      → Ensures w r P otherwise
      → OnSome P found
      → Ensures w r P (settle otherwise found)
  unfolding settle
  settle-Ensures otherwise (some a) ho p = Ensures-pure P a p
  settle-Ensures otherwise none ho p = ho

module _ {w r : ℕ} where
  probe_reply-Ensures :
      (probe : String) (parts : List String) → Ensures w r (OnSome Any) (probe_reply probe parts)
  unfolding probe_reply
  probe_reply-Ensures probe parts = record { at = λ s h. (ground arith, ground arith) }

  probe_once-Ensures : Ensures w r (OnSome Any) probe_once
  unfolding probe_once
  probe_once-Ensures = Ensures-bind Any (OnSome Any) next_token _ next_token-Ensures (λ probe _.
      Ensures-bind Any (OnSome Any) (send_line (unwords ("AYT?" ∷ probe ∷ []))) _
        (send_line-Ensures (unwords ("AYT?" ∷ probe ∷ [])))
        (λ _ _. listen_all-Ensures Any (probe_reply probe) (probe_reply-Ensures probe)))

  reset_reply-Ensures :
      (token : String) (parts : List String) → Ensures w r (OnSome Any) (reset_reply token parts)
  unfolding reset_reply
  reset_reply-Ensures token parts = record { at = λ s h. (ground arith, ground arith) }

  reset_once-Ensures : (token : String) → Ensures w r (OnSome Any) (reset_once token)
  unfolding reset_once
  reset_once-Ensures token =
      Ensures-bind Any (OnSome Any) (send_line (unwords ("RST" ∷ "0" ∷ token ∷ []))) _
        (send_line-Ensures (unwords ("RST" ∷ "0" ∷ token ∷ [])))
        (λ _ _. listen_all-Ensures Any (reset_reply token) (reset_reply-Ensures token))

  reset_all-Ensures : Ensures w r Any reset_all
  unfolding reset_all
  reset_all-Ensures = Ensures-bind Any Any next_token _ next_token-Ensures (λ token _.
      Ensures-bind (OnSome Any) Any (try_times rst_retries (reset_once token)) _
        (try_times-Ensures Any rst_retries (reset_once token) (reset_once-Ensures token))
        (λ found p.
          settle-Ensures Any (raise Kind.link_lost) found (Ensures-raise Any Kind.link_lost) p))

  probe_all-Ensures : Ensures w r Any probe_all
  unfolding probe_all
  probe_all-Ensures = record {
    at = λ s h.
        (Ensures-bind (OnSome Any) Any (try_times s.probe_retries probe_once) (settle reset_all)
            (try_times-Ensures Any s.probe_retries probe_once probe_once-Ensures)
            (λ found p. settle-Ensures Any reset_all found reset_all-Ensures p)).at
          s h;
  }

  after_guard-Ensures : (late : Option (String × Bool)) → Ensures w r Any (after_guard late)
  unfolding after_guard
  after_guard-Ensures none = probe_all-Ensures
  after_guard-Ensures (some (line, _)) =
      Ensures-if Any (str_eq line "") probe_all (pure line) (λ _. probe_all-Ensures)
        (λ _. Ensures-pure Any line tt)

  -- A probe keeps the settings.
  pub probe_receiver-Ensures : Ensures w r Any probe_receiver
  unfolding probe_receiver
  probe_receiver-Ensures =
      Ensures-bind Any Any recv_or_timeout after_guard recv_or_timeout-Ensures
        (λ late _. after_guard-Ensures late)

  barrier_reply-Ensures :
      (token : String) (base sent : ℕ) (parts : List String)
      → Ensures w r (OnSome (Between base sent)) (barrier_reply token base sent parts)
  unfolding barrier_reply
  barrier_reply-Ensures token base sent parts = record { at = λ s h. (ground arith, ground arith) }

  barrier_once-Ensures :
      (token : String) (base sent : ℕ)
      → Ensures w r (OnSome (Between base sent)) (barrier_once token base sent)
  unfolding barrier_once
  barrier_once-Ensures token base sent =
      Ensures-bind Any (OnSome (Between base sent)) (send_line (unwords ("BARRIER" ∷ token ∷ []))) _
        (send_line-Ensures (unwords ("BARRIER" ∷ token ∷ [])))
        (λ _ _.
          listen_all-Ensures (Between base sent) (barrier_reply token base sent)
            (barrier_reply-Ensures token base sent))

  -- Whatever comes: a recovery keeps the window size and the retry limit, and one that returns has
  -- found the receiver between `base` and `sent`.
  pub recover_window-Ensures :
      (base sent : ℕ) → Ensures w r (Between base sent) (recover_window base sent)
  unfolding recover_window
  recover_window-Ensures base sent = record {
    at = λ s h.
        (Ensures-bind Any (Between base sent) next_token _ next_token-Ensures (λ token _.
            Ensures-bind (OnSome (Between base sent)) (Between base sent)
              (try_times (s.max_retries + 1) (barrier_once token base sent)) _
              (try_times-Ensures (Between base sent) (s.max_retries + 1)
                (barrier_once token base sent) (barrier_once-Ensures token base sent))
              (λ found p.
                settle-Ensures (Between base sent) (raise Kind.timeout) found
                  (Ensures-raise (Between base sent) Kind.timeout) p))).at
          s h;
  }
