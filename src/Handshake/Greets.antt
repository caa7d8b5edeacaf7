-- ===== src/Handshake/Greets.antt =====
-- A greeting in which `hello` of src/pcutp/client.py and `_handle_hello` of src/pcutp/server.py
-- hear each other.
use pcutp.Base.{
  ℕ, suc, ◌≡◌, refl, sym, ap, ◌∙◌, Bool, true, false, Option, none, some, List, [], ◌∷◌, ◌++◌,
  if◌then◌else◌, drop, length, inl, inr, String, ltb, arith,
}
use pcutp.Base.Text.{split, part, is_space}
use pcutp.Errors.{PcutpError, ok, err, Result-cases, ◌>>=◌}
use pcutp.Flow.{options}
use pcutp.Client.Header.{Client, starts}
use pcutp.Client.Calls.{
  Greeting, ended, after_line, await_answer, i_am, is_who, await_who, agree, take_greeting, hello,
}
use pcutp.Server.Session.{
  Server, Event, got, Action, Outcome, returned, control, send_line, recv_line, recv_or_timeout,
  recv_from, timeout_none, is_rmb, ◌>>=◌ as ◌>>='◌,
}
use pcutp.Handshake.Negotiate.{
  Limits, Terms, Session, protocol_version, offer, negotiate, proposal_line, offer_line,
  take_answer, has_prefix, await_hru, is_iam, ask_identity, take_hru, lift, greet, handle_hello,
}
use pcutp.Handshake.Agreement.{IsServer, IsClient, agreed, greeted, split-offer_line, hello_agrees}

abbrev pub line_event : String → Event
line_event line = record { reply = got line; late = false }

-- what the receiver hears and sends
abbrev pub IsGreeted : Limits → Client → String → Greeting (ℕ × Client) → Type 0
IsGreeted l c proposal g =
    (g.result ≡ some (ok ((agreed l c).block_size, greeted l c)))
    × (g.sent ≡ offer_line true c ∷ "HRU" ∷ i_am ∷ [])
    × (g.events ≡ [])

hello-agree :
    (c : Client) (proposal : String) (found : ℕ × Client) (es : List Event)
    → take_answer c proposal ≡ ok found
    → hello c (line_event proposal ∷ es)
      ≡ record (agree found es) { sent = offer_line true c ∷ (agree found es).sent }
unfolding hello take_greeting await_answer ended after_line
hello-agree c proposal found es h = rw (take_greeting, h) refl

hello-IsGreeted :
    (l : Limits) (c : Client) (proposal : String)
    → take_answer c proposal ≡ ok ((agreed l c).block_size, greeted l c)
    → IsGreeted l c proposal (hello c (line_event proposal ∷ line_event "WHO? 0" ∷ []))
unfolding agree await_who ended after_line is_who starts part split is_space
hello-IsGreeted l c proposal h =
    rw (hello-agree c proposal ((agreed l c).block_size, greeted l c) (line_event "WHO? 0" ∷ []) h)
      (refl, refl, refl)

-- the session behind a greeting
abbrev pub session_of : Limits → Client → Session
session_of l c = record { terms = agreed l c; pending = none }

greet_all :
    (l : Limits) (c : Client) (first : Bool) (es : List Event) (s : Server)
    → greet l first (agreed l c) (record s { events = line_event "HRU" ∷ line_event i_am ∷ es }) ≡ (
      returned (some (session_of l c)),
      record s {
        events = es;
        sent =
            (s.sent ++ control (proposal_line first l.baud (agreed l c)) ∷ [])
            ++ control "WHO? 0" ∷ [];
      },
    )
unfolding greet await_hru take_hru ask_identity is_iam has_prefix send_line recv_line
    recv_or_timeout recv_from timeout_none is_rmb split part starts
greet_all l c first es s = refl

-- the server's reading of a greeting with these words
abbrev settled : Limits → Bool → List String → Action (Option Session)
settled l first ws =
    lift (options ws) >>=' (λ capabilities. lift (negotiate l capabilities) >>=' greet l first)

abbrev hello_word : Bool → String
hello_word first = if first then "HELLO" else "HELLO?"

handle_hello-words :
    (l : Limits) (first : Bool) (line : String) (ws : List String) (s : Server)
    → split line ≡ hello_word first ∷ protocol_version ∷ ws
    → handle_hello l line s ≡ settled l first ws s
unfolding handle_hello starts part
handle_hello-words l true line ws s h =
    let enough : ltb (suc (suc (length ws))) 2 ≡ false = ground arith in
    rw (handle_hello, h, enough) refl
handle_hello-words l false line ws s h =
    let enough : ltb (suc (suc (length ws))) 2 ≡ false = ground arith in
    rw (handle_hello, h, enough) refl

settled-greet :
    (l : Limits) (first : Bool) (ws : List String) (t : Terms) (s : Server)
    → (options ws >>= negotiate l) ≡ ok t
    → settled l first ws s ≡ greet l first t s
unfolding lift
settled-greet l first ws t s h = elim (Result-cases (options ws)) [
  | inl (e, refused) ↦ absurd (err-ne-ok e (sym (ap (λ r. r >>= negotiate l) refused) ∙ h))
  | inr (capabilities, read) ↦ rw (read, sym (ap (λ r. r >>= negotiate l) read) ∙ h) refl
]
  where
    err-ne-ok : (e : PcutpError) → err e ≡ ok t → ⊥
    err-ne-ok e k = ground arith

-- what the sender answers to a greeting, and what it has sent
abbrev pub HasSession :
    Limits → Client → Bool → List Event → Server → Outcome (Option Session) × Server → Type 0
HasSession l c first es s r = r ≡ (
  returned (some (session_of l c)),
  record s {
    events = es;
    sent =
        (s.sent ++ control (proposal_line first l.baud (agreed l c)) ∷ []) ++ control "WHO? 0" ∷ [];
  },
)

-- With limits in range at both ends: the receiver, hearing the sender's proposal and WHO?, sends its
-- offer, HRU and IAM and returns the agreed block size; the sender, hearing the offer, HRU and IAM,
-- sends the proposal and WHO? and has a session with the agreed terms.
pub greeting_settles :
    (l : Limits) (c : Client) (es : List Event) (s : Server)
    → IsServer l
    → IsClient c
    → IsGreeted l c
        (proposal_line true l.baud (agreed l c))
        (hello c (line_event (proposal_line true l.baud (agreed l c)) ∷ line_event "WHO? 0" ∷ []))
      × HasSession l c true es s (
          handle_hello l
            (offer_line true c)
            (record s { events = line_event "HRU" ∷ line_event i_am ∷ es }))
greeting_settles l c es s server client =
    let agrees = hello_agrees l c true true server client in
    let heard = record s { events = line_event "HRU" ∷ line_event i_am ∷ es } in
    (
      hello-IsGreeted l c (proposal_line true l.baud (agreed l c)) agrees.2,
      handle_hello-words l true (offer_line true c) (offer c) heard (split-offer_line true c)
          ∙ settled-greet l true (offer c) (agreed l c) heard (
              ap (λ ws. options (drop 2 ws) >>= negotiate l) (sym (split-offer_line true c))
              ∙ agrees.0)
          ∙ greet_all l c true es s,
    )
