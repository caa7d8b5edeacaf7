-- ===== src/Handshake/Negotiate.antt =====
-- `_handle_hello` of src/pcutp/server.py and `hello` of src/pcutp/client.py. `Limits` are the
-- attributes of the server that a session does not change, `Terms` those that the greeting sets.
-- The sounds, the log and the restart of the heartbeat are left out.
use Prim.Native.Nat.{min}
use Prim.Native.Char.{code}
use text.Mathlib.Text.{◌==◌ as str_eq}
use pcutp.Base.{
  ℕ, zero, suc, ◌+◌, ◌*◌, ◌/◌, Bool, true, false, ◌&&◌, ◌||◌, not, Option, none, some, List, [],
  ◌∷◌, ◌++◌, String, drop, length, ltb, ◌==◌, if◌then◌else◌,
}
use pcutp.Base.Text.{split, part, unwords, str, ◌<+>◌}
use pcutp.Errors.{Kind, Result, ok, err, make}
use pcutp.Flow.{Capabilities, get, get_or, options, frame_overhead}
use pcutp.Client.Header.{Client, starts, peer_error}
use pcutp.Server.Session.{
  Action, pure, raise, raised, returned, send_line, fail, recv_line, recv_or_timeout, ◌>>=◌, ◌>>◌,
}

abbrev pub protocol_version : String
protocol_version = "PCUTP/2"

abbrev pub default_block_size : ℕ
default_block_size = 4096

abbrev pub hello_retries : ℕ
hello_retries = 10

pub record Limits : Type 0 where
  pub block_limit : ℕ
  pub window_limit : ℕ
  pub compression_enabled : Bool
  pub baud : ℕ

pub record Terms : Type 0 where
  pub block_size : ℕ
  pub flow : Bool
  pub compression : Bool
  pub identity : Bool
  pub window_size : ℕ

-- `capabilities.get(key) == 1`
unfoldable pub is_on : String → Capabilities → Bool
unfolding get
is_on key capabilities = elim (get key capabilities) [ none ↦ false | some v ↦ v == 1 ]

-- the attributes that `_handle_hello` sets
unfoldable pub negotiate : Limits → Capabilities → Result Terms
unfolding is_on get_or
negotiate s capabilities =
    let block_size = min s.block_limit (get_or "MAXBLK" s.block_limit capabilities) in
    let flow = is_on "FLOW" capabilities in
    let compression = flow && (s.compression_enabled && is_on "LZ4" capabilities) in
    let identity = is_on "IDENTITY" capabilities in
    let capacity = get_or "RXBUF" 0 capabilities / (block_size + frame_overhead) in
    if not flow
    then ok (record {
      block_size = block_size;
      flow = flow;
      compression = compression;
      identity = identity;
      window_size = 1;
    })
    else if ltb capacity 1
    then err (make Kind.protocol)
    else ok (record {
      block_size = block_size;
      flow = flow;
      compression = compression;
      identity = identity;
      window_size = min s.window_limit (min (get_or "WINDOW" 1 capabilities) capacity);
    })

-- f"{key}={n}"
unfoldable pub token : String → ℕ → String
unfolding ◌<+>◌
token key n = key <+> ("=" <+> str n)

-- a token that stands only if a flag is set
unfoldable pub token_if : Bool → String → List String
unfolding token
token_if b key = if b then token key 1 ∷ [] else []

-- the words of `extra`
unfoldable pub extra : Terms → List String
unfolding token_if
extra t =
    (if t.flow
      then token "FLOW" 1 ∷ token "WINDOW" t.window_size ∷ token_if t.compression "LZ4"
      else [])
    ++ token_if t.identity "IDENTITY"

-- the words of `proposal_tail` behind the version
unfoldable pub proposal : ℕ → Terms → List String
unfolding extra
proposal baud t = token "BAUD" baud ∷ token "MAXBLK" t.block_size ∷ extra t

-- "OHRU " + proposal_tail
unfoldable pub repeated_line : ℕ → Terms → String
unfolding proposal
repeated_line baud t = unwords ("OHRU" ∷ protocol_version ∷ proposal baud t)

-- the first proposal, which answers a HELLO or a HELLO?
unfoldable pub proposal_line : Bool → ℕ → Terms → String
unfolding repeated_line proposal
proposal_line first baud t =
    if first
    then unwords ("HELLO" ∷ protocol_version ∷ "HRU?" ∷ proposal baud t)
    else repeated_line baud t

-- `text.startswith(prefix)`
unfoldable pub has_prefix : String → String → Bool
has_prefix String.[] text = true
has_prefix (String.◌∷◌ p ps) String.[] = false
has_prefix (String.◌∷◌ p ps) (String.◌∷◌ c text) = code p == code c && has_prefix ps text

-- the loop that waits for HRU: the reply, or `none` behind `_fail`
unfoldable pub await_hru : ℕ → String → Action (Option String)
unfolding has_prefix
await_hru zero proposal = do fail Kind.timeout; pure none
await_hru (suc rounds) proposal = do
  r ← recv_or_timeout
  elim r [
    | none ↦
        let more = (do send_line proposal; await_hru rounds proposal) in
        if rounds == 0 then (do fail Kind.timeout; pure none) else more
    | some (reply, late) ↦
        let more = (do send_line proposal; await_hru rounds proposal) in
        if has_prefix "HELLO PCUTP/2" reply || has_prefix "HELLO? PCUTP/2" reply
        then more
        else pure (some reply)
  ]

unfoldable pub is_iam : List String → Bool
unfolding has_prefix
is_iam iam =
    ltb 2 (length iam)
    && (str_eq (part iam 0) "IAM" && (str_eq (part iam 1) "0" && has_prefix "TYPE=" (part iam 2)))

-- the loop that asks for the identity
unfoldable pub ask_identity : ℕ → Action (Unit {0})
unfolding is_iam
ask_identity zero = raise Kind.timeout
ask_identity (suc rounds) = do
  send_line "WHO? 0"
  r ← recv_line
  let iam = split (r.0)
  let more = ask_identity rounds
  if length iam == 1 && starts iam "HRU"
      then more
      else if is_iam iam
      then pure tt
      else raise Kind.protocol

-- what the greeting sets, with the request that stood in for HRU
pub record Session : Type 0 where
  pub terms : Terms
  pub pending : Option String

-- behind the reply to the proposal: `none` where `_handle_hello` returns False
unfoldable pub take_hru : Terms → String → Action (Option Session)
unfolding has_prefix ask_identity
take_hru t reply =
    let early = not (str_eq reply "HRU") in
    let session : Session = record { terms = t; pending = if early then some reply else none } in
    if early && (t.identity || not (has_prefix "GET " reply))
    then (do fail Kind.protocol; pure none)
    else if t.identity
    then (do ask_identity hello_retries; pure (some session))
    else pure (some session)

unfoldable pub lift : {A : Type 0} → Result A → Action A
lift (ok a) s = (returned a, s)
lift (err e) s = (raised e, s)

unfoldable pub greet : Limits → Bool → Terms → Action (Option Session)
unfolding await_hru take_hru proposal_line repeated_line
greet l first t = do
  send_line (proposal_line first l.baud t)
  r ← await_hru hello_retries (repeated_line l.baud t)
  elim r [ none ↦ pure none | some reply ↦ take_hru t reply ]

unfoldable pub handle_hello : Limits → String → Action (Option Session)
unfolding negotiate lift greet
handle_hello l line =
    let parts = split line in
    if ltb (length parts) 2 || not (starts parts "HELLO" || starts parts "HELLO?")
    then (do fail Kind.protocol; pure none)
    else if not (str_eq (part parts 1) protocol_version)
    then (do fail Kind.version; pure none)
    else do
      capabilities ← lift (options (drop 2 parts))
      t ← lift (negotiate l capabilities)
      greet l (starts parts "HELLO") t

-- the words of `offer` behind the version
unfoldable pub offer : Client → List String
unfolding token token_if
offer c =
    token "FLOW" 1
      ∷ token "MAXBLK" c.max_block_size
      ∷ token "WINDOW" c.window_limit
      ∷ token "RXBUF" c.receive_buffer
      ∷ token_if c.compression_enabled "LZ4"
    ++ token "IDENTITY" 1 ∷ []

-- the line that `hello` sends, the first time and again
unfoldable pub offer_line : Bool → Client → String
unfolding offer
offer_line first c = unwords ((if first then "HELLO" else "HELLO?") ∷ protocol_version ∷ offer c)

-- the attributes that `hello` sets and its checks; the number is `maxblk`
unfoldable pub take_terms : Client → Capabilities → Result (ℕ × Client)
unfolding is_on get_or
take_terms c capabilities =
    let maxblk = get_or "MAXBLK" default_block_size capabilities in
    let flow = is_on "FLOW" capabilities in
    let compression = flow && is_on "LZ4" capabilities in
    let window_size = if flow then get_or "WINDOW" 1 capabilities else 1 in
    if compression && not c.compression_enabled
    then err (make Kind.protocol)
    else if ltb c.max_block_size maxblk
        || (ltb c.window_limit window_size
            || ltb c.receive_buffer (window_size * (maxblk + frame_overhead)))
    then err (make Kind.protocol)
    else ok (
      maxblk,
      record c {
        flow = flow;
        compression = compression;
        identity = is_on "IDENTITY" capabilities;
        window_size = window_size;
      },
    )

-- the answer to the offer
unfoldable pub take_answer : Client → String → Result (ℕ × Client)
unfolding take_terms
take_answer c answer =
    let parts = split answer in
    let normal =
      starts parts "HELLO"
      && (str_eq (part parts 1) protocol_version && str_eq (part parts 2) "HRU?") in
    let repeated = starts parts "OHRU" && str_eq (part parts 1) protocol_version in
    if starts parts "ERR"
    then err (peer_error parts)
    else if not normal && not repeated
    then err (make Kind.protocol)
    else elim (options (if normal then drop 3 parts else drop 2 parts)) [
      | err e ↦ err e
      | ok capabilities ↦ take_terms c capabilities
    ]
