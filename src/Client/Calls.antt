-- ===== src/Client/Calls.antt =====
-- `hello`, `get` and `close` of src/pcutp/client.py. A call takes the events of the link that it
-- reads; where they end it is still waiting.
use text.Mathlib.Text.{◌==◌ as str_eq}
use pcutp.Base.{
  ℕ, zero, suc, Bool, true, false, ◌&&◌, ◌||◌, Option, none, some, List, [], ◌∷◌, ◌++◌, String,
  Bytes, length, ◌==◌, if◌then◌else◌,
}
use pcutp.Base.Text.{split, part, unwords}
use pcutp.Errors.{Kind, Result, ok, err, make}
use pcutp.Server.Session.{Event, got, timed_out, too_long, lost}
use pcutp.Link.Teardown.{Closing, send_fin, await_fin, linger, then_do, close_retries}
use pcutp.Client.Header.{Client, starts}
use pcutp.Client.Announce.{recv_meta}
use pcutp.Client.Receive.{Round, Turn, receive}
use pcutp.Handshake.Negotiate.{offer_line, take_answer, protocol_version, hello_retries}

-- `close`: where `send_fin` is acknowledged, the sender's CLOSE comes next
unfoldable pub after_fin : List Event → Closing → Closing
unfolding then_do
after_fin events c = elim c.result [
  | none ↦ c
  | some acknowledged ↦
      if acknowledged then then_do linger (then_do await_fin c) else then_do linger c
]

unfoldable pub close : List Event → Closing
unfolding after_fin
close events = after_fin events (send_fin close_retries events)

-- how a call of `hello` ends: a value or an exception, `none` while waiting; the lines sent, and
-- the events that are left
pub record Greeting (A : Type 0) : Type 0 where
  pub result : Option (Result A)
  pub sent : List String
  pub events : List Event

module _ {A : Type 0} where
  unfoldable pub ended : Result A → List Event → Greeting A
  ended r events = record { result = some r; sent = []; events = events }

  unfoldable pub unheard : Greeting A
  unheard = record { result = none; sent = []; events = [] }

  unfoldable pub after_line : String → Greeting A → Greeting A
  after_line line g = record g { sent = line ∷ g.sent }

-- the answer to the offer; `attempts` are left behind this one
unfoldable pub await_answer : Client → ℕ → List Event → Greeting String
unfolding ended unheard after_line offer_line
await_answer c attempts [] = unheard
await_answer c attempts (e ∷ events) = elim e.reply [
  | got answer ↦ ended (ok answer) events
  | timed_out ↦ elim attempts [
    | zero ↦ ended (err (make Kind.timeout)) events
    | suc n ↦ after_line (offer_line false c) (await_answer c n events)
  ]
  | too_long ↦ ended (err (make Kind.protocol)) events
  | lost ↦ ended (err (make Kind.link_lost)) events
]

abbrev pub i_am : String
i_am = "IAM 0 TYPE=PYTHON ROLE=CLIENT VER=2.1"

-- a proposal that the sender repeats
unfoldable pub is_proposal : List String → Bool
unfolding starts part
is_proposal who =
    starts who "HELLO" && (str_eq (part who 1) protocol_version && str_eq (part who 2) "HRU?")
    || starts who "OHRU" && str_eq (part who 1) protocol_version

unfoldable pub is_who : List String → Bool
unfolding starts part
is_who who = length who == 2 && (starts who "WHO?" && str_eq (part who 1) "0")

-- the rounds of the identity exchange that are left; the loop may run out without WHO?
unfoldable pub await_who : ℕ → List Event → Greeting (Unit {0})
unfolding ended unheard after_line is_proposal is_who
await_who zero events = ended (ok tt) events
await_who (suc attempts) [] = unheard
await_who (suc attempts) (e ∷ events) =
    let more = await_who attempts events in
    elim e.reply [
      | got line ↦
          if is_who (split line)
          then after_line i_am (ended (ok tt) events)
          else if is_proposal (split line)
          then after_line "HRU" more
          else ended (err (make Kind.protocol)) events
      | timed_out ↦ elim attempts [
        | zero ↦ ended (err (make Kind.timeout)) events
        | suc n ↦ after_line "HRU" more
      ]
      | too_long ↦ ended (err (make Kind.protocol)) events
      | lost ↦ ended (err (make Kind.link_lost)) events
    ]

-- behind the checks of the answer: HRU, and the identity exchange
unfoldable pub agree : ℕ × Client → List Event → Greeting (ℕ × Client)
unfolding await_who ended
agree (maxblk, c) events =
    let who = await_who hello_retries events in
    let asked : Greeting (ℕ × Client) = record {
      result = elim who.result [
        | none ↦ none
        | some (err e) ↦ some (err e)
        | some (ok _) ↦ some (ok (maxblk, c))
      ];
      sent = "HRU" ∷ who.sent;
      events = who.events;
    } in
    if c.identity
    then asked
    else record { result = some (ok (maxblk, c)); sent = "HRU" ∷ []; events = events }

-- behind the answer
unfoldable pub take_greeting : Client → Greeting String → Greeting (ℕ × Client)
unfolding agree take_answer
take_greeting c g = elim g.result [
  | none ↦ record { result = none; sent = g.sent; events = g.events }
  | some (err e) ↦ record { result = some (err e); sent = g.sent; events = g.events }
  | some (ok answer) ↦ elim (take_answer c answer) [
    | err e ↦ record { result = some (err e); sent = g.sent; events = g.events }
    | ok agreed ↦ let a = agree agreed g.events in record a { sent = g.sent ++ a.sent }
  ]
]

-- the block size, and the client with what the greeting has set; it also clears `peer_closing`
unfoldable pub hello : Client → List Event → Greeting (ℕ × Client)
unfolding take_greeting await_answer after_line offer_line
hello c events = take_greeting c (after_line (offer_line true c) (await_answer c 9 events))

-- `get`: the lines and payloads that the link delivers are arguments
unfoldable pub get :
    (Bytes → ℕ → ℕ)
    → Client
    → Option Bytes
    → List String
    → Bool
    → String
    → String
    → Option String
    → Option String
    → List Round
    → Result Turn
unfolding receive recv_meta
get zlib_crc32 c final sent closing filename url first second rounds =
    if closing then err (make Kind.protocol) else elim (recv_meta first second) [
      | err e ↦ err e
      | ok m ↦ ok (
          receive zlib_crc32 c m final (sent ++ unwords ("GET" ∷ filename ∷ url ∷ []) ∷ []) closing
            rounds)
    ]
