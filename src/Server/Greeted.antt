-- ===== src/Server/Greeted.antt =====
-- `_handle_hello` of src/pcutp/server.py ends: it waits only where the link has delivered all that it
-- has, and a greeting with a session has taken an event.
use pcutp.Base.{
  ℕ, zero, suc, ◌≤◌, ◌<◌, ◌≡◌, Bool, true, false, Option, none, some, [], arith, String, length,
  drop, ◌==◌, if◌then◌else◌,
}
use pcutp.Base.Text.{split}
use pcutp.Errors.{Kind, Result, ok, err}
use pcutp.Flow.{options}
use pcutp.Client.Header.{starts}
use pcutp.Handshake.Negotiate.{
  Limits, Terms, await_hru, is_iam, ask_identity, take_hru, lift, greet, handle_hello, negotiate,
  hello_retries, proposal_line, repeated_line,
}
use pcutp.Server.Session.{
  Server, Outcome, returned, raised, waiting, Action, pure, raise, send_line, fail, recv_line,
  recv_or_timeout, ◌>>=◌, ◌>>◌,
}
use pcutp.Server.Draining.{
  Takes, Draining, Taking, Draining-pure, Draining-raise, Draining-if, Draining-elim,
  Draining-Taking, Draining-Taking-suc, Draining-bind, Taking-bind,
}
use pcutp.Server.Progress.{recv_line-Taking, recv_or_timeout-Taking, send_line-Draining}
use pcutp.Server.SendsAll.{fail-Draining}

-- `_fail`, and then the result `none`
fail-none-Draining :
    {A : Type 0} (k : ℕ) (e : Kind) → Draining k (fail e >> pure {A = Option A} none)
fail-none-Draining k e =
    Draining-bind (λ _. pure none) k (fail e) (fail-Draining k e) (λ _. Draining-pure k none)

-- behind the read of the loop that waits for HRU
more_hru-Draining :
    (k rounds : ℕ) (proposal : String)
    → Draining k (await_hru rounds proposal)
    → Draining k (send_line proposal >> await_hru rounds proposal)
more_hru-Draining k rounds proposal hm =
    Draining-bind (λ _. await_hru rounds proposal) k (send_line proposal)
      (send_line-Draining k proposal) (λ _. hm)

-- a round of that loop takes an event
await_hru-Taking :
    (k rounds : ℕ) (proposal : String)
    → Draining k (await_hru rounds proposal)
    → Taking (suc k) (await_hru (suc rounds) proposal)
unfolding await_hru
await_hru-Taking k rounds proposal hm =
    Taking-bind _ k recv_or_timeout (recv_or_timeout-Taking (suc k)) (λ r.
      Draining-elim k r _ _
        (Draining-if k (rounds == 0) _ _ (fail-none-Draining k Kind.timeout)
          (more_hru-Draining k rounds proposal hm))
        (λ x.
          Draining-if k _ _ (pure (some x.0)) (more_hru-Draining k rounds proposal hm)
            (Draining-pure k (some x.0))))

await_hru-Draining : (k rounds : ℕ) (proposal : String) → Draining k (await_hru rounds proposal)
await_hru-Draining k zero proposal = unfold await_hru in fail-none-Draining k Kind.timeout
await_hru-Draining k (suc rounds) proposal =
    Draining-Taking-suc k (await_hru (suc rounds) proposal)
      (await_hru-Taking k rounds proposal (await_hru-Draining k rounds proposal))

ask_identity-Draining : (k rounds : ℕ) → Draining k (ask_identity rounds)
unfolding ask_identity
ask_identity-Draining k zero = Draining-raise k Kind.timeout
ask_identity-Draining k (suc rounds) =
    Draining-bind _ k (send_line "WHO? 0") (send_line-Draining k "WHO? 0") (λ _.
      Draining-bind _ k recv_line (Draining-Taking k recv_line (recv_line-Taking k)) (λ r.
        Draining-if k _ _ _ (ask_identity-Draining k rounds) (
          Draining-if k (is_iam (split (r.0))) (pure tt) (raise Kind.protocol) (Draining-pure k tt)
            (Draining-raise k Kind.protocol))))

take_hru-Draining : (k : ℕ) (t : Terms) (reply : String) → Draining k (take_hru t reply)
unfolding take_hru
take_hru-Draining k t reply = Draining-if k _ _ _ (fail-none-Draining k Kind.protocol) (
    Draining-if k t.identity _ _
      (Draining-bind _ k (ask_identity hello_retries) (ask_identity-Draining k hello_retries)
        (λ _. Draining-pure k _))
      (Draining-pure k _))

said-Taking :
    {A : Type 0} (k : ℕ) (line : String) (m : Action A)
    → Taking k m
    → Taking k (send_line line >> m)
unfolding send_line
said-Taking k line m hm = record {
  at = λ n s h lt. hm.at n (unfold send_line in (send_line line s).1) h lt;
}

greet-Taking : (k : ℕ) (l : Limits) (first : Bool) (t : Terms) → Taking (suc k) (greet l first t)
unfolding greet
greet-Taking k l first t = said-Taking (suc k) (proposal_line first l.baud t) _ (
    Taking-bind _ k (await_hru 10 repeated)
      (await_hru-Taking k 9 repeated (await_hru-Draining k 9 repeated))
      (λ r. Draining-elim k r _ (take_hru t) (Draining-pure k none) (take_hru-Draining k t)))
  where
    repeated : String
    repeated = repeated_line l.baud t

-- At most `n` events are left; a greeting that has a session has taken one.
abbrev pub Greets : {A : Type 0} → ℕ → Outcome (Option A) × Server → Type 0
Greets n (returned (some a), s) = length s.events < n
Greets n (returned none, s) = length s.events ≤ n
Greets n (raised e, s) = Unit
Greets n (waiting, s) = s.events ≡ []

pub record Greeting {A : Type 0} (m : Action (Option A)) : Type 0 where
  pub at : (n : ℕ) (s : Server) → length s.events ≤ n → Greets n (m s)

module _ {A : Type 0} where
  Greets-Takes : (n : ℕ) (p : Outcome (Option A) × Server) → Takes n p → Greets n p
  Greets-Takes n (returned (some a), s) h = h
  Greets-Takes n (returned none, s) h = omega arith
  Greets-Takes n (raised e, s) h = tt
  Greets-Takes n (waiting, s) h = h

  Greeting-Taking : (m : Action (Option A)) → ((k : ℕ) → Taking (suc k) m) → Greeting m
  Greeting-Taking m hm = record {
    at = λ n s h. Greets-Takes n (m s) ((hm (suc n)).at n s h (omega arith));
  }

  Greeting-if :
      (b : Bool) (m m' : Action (Option A))
      → Greeting m
      → Greeting m'
      → Greeting (if b then m else m')
  Greeting-if true m m' h h' = h
  Greeting-if false m m' h h' = h'

  refused-Greeting : (e : Kind) → Greeting (fail e >> pure {A = Option A} none)
  unfolding fail send_line
  refused-Greeting e = record { at = λ n s h. h }

  lift-Greeting :
      {B : Type 0} (r : Result B) (f : B → Action (Option A))
      → ((b : B) → Greeting (f b))
      → Greeting (lift r >>= f)
  unfolding lift
  lift-Greeting (ok b) f hf = record { at = λ n s h. (hf b).at n s h }
  lift-Greeting (err e) f hf = record { at = λ n s h. tt }

pub handle_hello-Greeting : (l : Limits) (line : String) → Greeting (handle_hello l line)
unfolding handle_hello
handle_hello-Greeting l line = Greeting-if _ _ _ (refused-Greeting Kind.protocol) (
    Greeting-if _ _ _ (refused-Greeting Kind.version) (
      lift-Greeting (options (drop 2 (split line))) _ (λ capabilities.
        lift-Greeting (negotiate l capabilities) _ (λ t.
          Greeting-Taking (greet l (starts (split line) "HELLO") t)
            (λ k. greet-Taking k l (starts (split line) "HELLO") t)))))
