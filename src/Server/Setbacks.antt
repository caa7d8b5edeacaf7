-- ===== src/Server/Setbacks.antt =====
-- What comes while `_recover_window` of src/pcutp/server.py waits for the reply to its BARRIER:
-- nothing, delayed replies to what was sent before, and the RESUME.
use text.Mathlib.Text.{◌==◌ as str_eq}
use text.Mathlib.TextEquality.{eq_iff}
use pcutp.Base.{
  ℕ, if◌then◌else◌, suc, ◌≤◌, ◌≡◌, refl, ◌∙◌, arith, Bool, true, false, Option, none, some, List,
  [], ◌∷◌, String,
}
use pcutp.Base.Text.{split, part, is_decimal, int}
use pcutp.Client.Header.{starts}
use pcutp.Errors.{make}
use pcutp.Server.Session.{
  Server, Event, got, timed_out, Action, returned, recv_or_timeout, recv_line, recv_from,
  timeout_none, is_rmb,
}
use pcutp.Server.Recovery.{after_read, after_verdict, listen, is_one_of, barrier_reply}
use pcutp.Server.Persists.{>>=-returned, reads}

-- a reply to DATA or to AYT?
pub data Answer : Type 0 where
  ack : Answer
  nak : Answer
  drop : Answer
  here : Answer

unfoldable pub word_of : Answer → String
word_of ack = "ACK"
word_of nak = "NAK"
word_of drop = "DROP"
word_of here = "HERE"

-- what may come before the RESUME of `token`: nothing until the time is over, a delayed answer, or
-- the RESUME of another token; the flag tells whether the time is over then
pub data Setback (token : String) : Type 0 where
  silence : Bool → Setback token
  answer :
      (text : String) (a : Answer) (rest : List String)
      → split text ≡ word_of a ∷ rest
      → Bool
      → Setback token
  resumed :
      (text token' : String) (rest : List String)
      → split text ≡ "RESUME" ∷ token' ∷ rest
      → str_eq token' token ≡ false
      → Bool
      → Setback token

unfoldable pub event_of : {token : String} → Setback token → Event
event_of (silence late) = record { reply = timed_out; late = late }
event_of (answer text a rest e late) = record { reply = got text; late = late }
event_of (resumed text token' rest e ne late) = record { reply = got text; late = late }

unfoldable pub events_of : {token : String} → List (Setback token) → List Event
unfolding event_of
events_of [] = []
events_of (b ∷ setbacks) = event_of b ∷ events_of setbacks

unfoldable pub is_over : {token : String} → Setback token → Bool
is_over (silence late) = true
is_over (answer text a rest e late) = late
is_over (resumed text token' rest e ne late) = late

-- how often the time is over
unfoldable pub overs : {token : String} → List (Setback token) → ℕ
overs [] = 0
overs (b ∷ setbacks) = if is_over b then suc (overs setbacks) else overs setbacks

silent :
    (late : Bool) (es : List Event) (s : Server)
    → recv_or_timeout (record s { events = record { reply = timed_out; late = late } ∷ es })
      ≡ (returned none, record s { events = es })
unfolding recv_or_timeout recv_line recv_from timeout_none make
silent late es s = refl

answer-ne-rmb :
    (a : Answer) (text : String) (rest : List String)
    → split text ≡ word_of a ∷ rest
    → is_rmb (split text) ≡ false
unfolding is_rmb part word_of
answer-ne-rmb ack text rest e = rw e (ground arith)
answer-ne-rmb nak text rest e = rw e (ground arith)
answer-ne-rmb drop text rest e = rw e (ground arith)
answer-ne-rmb here text rest e = rw e (ground arith)

pub resume-ne-rmb :
    (text : String) (rest : List String)
    → split text ≡ "RESUME" ∷ rest
    → is_rmb (split text) ≡ false
unfolding is_rmb part
resume-ne-rmb text rest e = rw e (ground arith)

-- a reply that settles nothing
listen-on :
    {A : Type 0} (judge : List String → Action (Option A)) (fuel : ℕ) (text : String) (late : Bool)
    (es : List Event) (s : Server)
    → is_rmb (split text) ≡ false
    → judge (split text) (record s { events = es }) ≡ (returned none, record s { events = es })
    → listen (suc fuel) judge (record s { events = record { reply = got text; late = late } ∷ es })
      ≡ after_verdict late (listen fuel judge) none (record s { events = es })
unfolding listen after_read
listen-on judge fuel text late es s h stale =
    >>=-returned recv_or_timeout (after_read judge (listen fuel judge)) _ _ _
      (reads text late es s h)
    ∙ >>=-returned (judge (split text)) (after_verdict late (listen fuel judge)) _ _ _ stale

-- a reply that settles it
pub listen-settled :
    {A : Type 0} (judge : List String → Action (Option A)) (fuel : ℕ) (text : String) (late : Bool)
    (es : List Event) (s : Server) (a : A)
    → is_rmb (split text) ≡ false
    → judge (split text) (record s { events = es }) ≡ (returned (some a), record s { events = es })
    → listen (suc fuel) judge (record s { events = record { reply = got text; late = late } ∷ es })
      ≡ (returned (some a), record s { events = es })
unfolding listen after_read after_verdict
listen-settled judge fuel text late es s a h settled =
    >>=-returned recv_or_timeout (after_read judge (listen fuel judge)) _ _ _
      (reads text late es s h)
    ∙ >>=-returned (judge (split text)) (after_verdict late (listen fuel judge)) _ _ _ settled

listen-silent :
    {A : Type 0} (judge : List String → Action (Option A)) (fuel : ℕ) (late : Bool)
    (es : List Event) (s : Server)
    → listen (suc fuel) judge (record s { events = record { reply = timed_out; late = late } ∷ es })
      ≡ (returned none, record s { events = es })
unfolding listen after_read
listen-silent judge fuel late es s =
    >>=-returned recv_or_timeout (after_read judge (listen fuel judge)) _ _ _ (silent late es s)

answer-stale :
    (a : Answer) (token : String) (base sent : ℕ) (parts rest : List String) (s : Server)
    → parts ≡ word_of a ∷ rest
    → barrier_reply token base sent parts s ≡ (returned none, s)
unfolding barrier_reply starts part is_one_of word_of
answer-stale ack token base sent parts rest s e = rw e (ground arith)
answer-stale nak token base sent parts rest s e = rw e (ground arith)
answer-stale drop token base sent parts rest s e = rw e (ground arith)
answer-stale here token base sent parts rest s e = rw e (ground arith)

resumed-stale :
    (token token' : String) (base sent : ℕ) (parts rest : List String) (s : Server)
    → parts ≡ "RESUME" ∷ token' ∷ rest
    → str_eq token' token ≡ false
    → barrier_reply token base sent parts s ≡ (returned none, s)
unfolding barrier_reply starts part is_one_of
resumed-stale token token' base sent parts rest s e ne = rw e (ground arith)

pub resume-found :
    (token number : String) (base sent : ℕ) (parts : List String) (s : Server)
    → parts ≡ "RESUME" ∷ token ∷ number ∷ []
    → is_decimal number ≡ true
    → base ≤ int number
    → int number ≤ sent
    → barrier_reply token base sent parts s ≡ (returned (some (int number)), s)
unfolding barrier_reply starts part
resume-found token number base sent parts s e decimal low high =
    rw e (ground (arith, eq_iff token token))

-- a setback: the read of the round is over, or goes on
pub listen-Setback :
    {token : String} (base next_seq : ℕ) (b : Setback token) (fuel : ℕ) (es : List Event)
    (s : Server)
    → listen (suc fuel) (barrier_reply token base next_seq) (record s { events = event_of b ∷ es })
      ≡ after_verdict
          (is_over b)
          (listen fuel (barrier_reply token base next_seq))
          none
          (record s { events = es })
unfolding event_of is_over after_verdict
listen-Setback {token} base next_seq (silence late) fuel es s =
    listen-silent (barrier_reply token base next_seq) fuel late es s
listen-Setback {token} base next_seq (answer text a rest e late) fuel es s =
    listen-on (barrier_reply token base next_seq) fuel text late es s (answer-ne-rmb a text rest e)
      (answer-stale a token base next_seq (split text) rest (record s { events = es }) e)
listen-Setback {token} base next_seq (resumed text token' rest e ne late) fuel es s =
    listen-on (barrier_reply token base next_seq) fuel text late es s
      (resume-ne-rmb text (token' ∷ rest) e)
      (resumed-stale token token' base next_seq (split text) rest (record s { events = es }) e ne)
