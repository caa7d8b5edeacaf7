-- ===== src/Handshake/Agreement.antt =====
-- The two sides of the greeting agree, from line to line.
use Prim.Native.Nat.{min}
use native.Mathlib.Nat.{le_trans, le-div_iff_mul-le, div-mul-le_self, mul-le-mul_right}
use pcutp.Base.{
  ℕ, ◌+◌, ◌*◌, ◌/◌, ◌≤◌, ◌≡◌, refl, ◌∙◌, Bool, true, false, ◌&&◌, List, [], ◌∷◌, ◌++◌, arith,
  String, drop, if◌then◌else◌,
}
use pcutp.Base.Text.{split, is_space, part}
use pcutp.Base.Words.{AreWords, split-unwords}
use pcutp.Errors.{ok, ◌>>=◌}
use pcutp.Flow.{Capabilities, get, get_or, is_capability, options}
use pcutp.Client.Header.{Client, starts}
use pcutp.Handshake.Negotiate.{
  Limits, Terms, is_on, negotiate, token, token_if, extra, proposal, repeated_line, proposal_line,
  offer, offer_line, take_terms, take_answer, protocol_version,
}
use pcutp.Handshake.Tokens.{
  flags, options_from-token, options_from-other, options_from-flags, IsWord-plain, IsWord-token,
}

-- What the offer asks for, as it is read.
abbrev offered : Client → Capabilities
offered c = flags c.compression_enabled (
    ("RXBUF", c.receive_buffer)
    ∷ ("WINDOW", c.window_limit)
    ∷ ("MAXBLK", c.max_block_size)
    ∷ ("FLOW", 1)
    ∷ [])

-- What `PcutpClient` checks of its arguments, and the range of a capability.
abbrev pub IsClient : Client → Type 0
IsClient c =
    (1 ≤ c.max_block_size)
    × (c.max_block_size ≤ 4096)
    × (1 ≤ c.window_limit)
    × (c.window_limit ≤ 2)
    × (c.max_block_size + 64 ≤ c.receive_buffer)
    × (c.receive_buffer ≤ 1048576)

options-offer : (c : Client) → IsClient c → options (offer c) ≡ ok (offered c)
unfolding options offer is_capability get
options-offer c h =
    options_from-token [] "FLOW" 1
      (token "MAXBLK" c.max_block_size
        ∷ token "WINDOW" c.window_limit
        ∷ token "RXBUF" c.receive_buffer
        ∷ rest)
      refl refl refl (omega arith) (omega arith)
    ∙ options_from-token (("FLOW", 1) ∷ []) "MAXBLK" c.max_block_size
        (token "WINDOW" c.window_limit ∷ token "RXBUF" c.receive_buffer ∷ rest) refl refl refl
        (omega arith) (omega arith)
    ∙ options_from-token (("MAXBLK", c.max_block_size) ∷ ("FLOW", 1) ∷ []) "WINDOW" c.window_limit
        (token "RXBUF" c.receive_buffer ∷ rest) refl refl refl (omega arith) (omega arith)
    ∙ options_from-token
        (("WINDOW", c.window_limit) ∷ ("MAXBLK", c.max_block_size) ∷ ("FLOW", 1) ∷ []) "RXBUF"
        c.receive_buffer rest refl refl refl (omega arith) (omega arith)
    ∙ options_from-flags _ c.compression_enabled refl refl
  where
    rest : List String
    rest = token_if c.compression_enabled "LZ4" ++ token "IDENTITY" 1 ∷ []

-- What `PcutpServer` has as its limits.
abbrev pub IsServer : Limits → Type 0
IsServer l =
    (1 ≤ l.block_limit) × (l.block_limit ≤ 4096) × (1 ≤ l.window_limit) × (l.window_limit ≤ 2)

-- The terms of a session of these two.
abbrev pub agreed : Limits → Client → Terms
agreed l c =
    let block_size = min l.block_limit c.max_block_size in
    record {
      block_size = block_size;
      flow = true;
      compression = l.compression_enabled && c.compression_enabled;
      identity = true;
      window_size = min l.window_limit (min c.window_limit (c.receive_buffer / (block_size + 64)));
    }

-- A frame of the agreed size fits into the receiver's buffer, and so do the frames of a window.
frames_fit :
    (l : Limits) (c : Client)
    → IsServer l
    → IsClient c
    → (1 ≤ c.receive_buffer / (min l.block_limit c.max_block_size + 64))
      × ((agreed l c).window_size * ((agreed l c).block_size + 64) ≤ c.receive_buffer)
frames_fit l c s h = (
  (le-div_iff_mul-le {k = room} (omega arith)).1 (omega arith),
  le_trans (mul-le-mul_right room window) (div-mul-le_self c.receive_buffer room),
)
  where
    room : ℕ
    room = min l.block_limit c.max_block_size + 64

    window : (agreed l c).window_size ≤ c.receive_buffer / room
    window = omega arith

negotiate-flags :
    (l : Limits) (c : Client) (b : Bool)
    → c.compression_enabled ≡ b
    → 1 ≤ c.receive_buffer / (min l.block_limit c.max_block_size + 64)
    → negotiate l (
        flags b (
          ("RXBUF", c.receive_buffer)
          ∷ ("WINDOW", c.window_limit)
          ∷ ("MAXBLK", c.max_block_size)
          ∷ ("FLOW", 1)
          ∷ []))
      ≡ ok (agreed l c)
unfolding negotiate is_on get get_or
negotiate-flags l c false e room = rw e (ground arith)
negotiate-flags l c true e room = rw e (ground arith)

abbrev proposed : Limits → Client → Capabilities
proposed l c = flags (l.compression_enabled && c.compression_enabled) (
    ("WINDOW", (agreed l c).window_size)
    ∷ ("FLOW", 1)
    ∷ ("MAXBLK", min l.block_limit c.max_block_size)
    ∷ [])

options-proposal :
    (l : Limits) (c : Client)
    → IsServer l
    → IsClient c
    → 1 ≤ (agreed l c).window_size
    → options (proposal l.baud (agreed l c)) ≡ ok (proposed l c)
unfolding options proposal extra is_capability get
options-proposal l c s h room =
    options_from-other [] "BAUD" l.baud
      (token "MAXBLK" t.block_size ∷ token "FLOW" 1 ∷ token "WINDOW" t.window_size ∷ rest) refl refl
    ∙ options_from-token [] "MAXBLK" t.block_size
        (token "FLOW" 1 ∷ token "WINDOW" t.window_size ∷ rest) refl refl refl (omega arith)
        (omega arith)
    ∙ options_from-token (("MAXBLK", t.block_size) ∷ []) "FLOW" 1
        (token "WINDOW" t.window_size ∷ rest) refl refl refl (omega arith) (omega arith)
    ∙ options_from-token (("FLOW", 1) ∷ ("MAXBLK", t.block_size) ∷ []) "WINDOW" t.window_size rest
        refl refl refl (omega arith) (omega arith)
    ∙ options_from-flags (("WINDOW", t.window_size) ∷ ("FLOW", 1) ∷ ("MAXBLK", t.block_size) ∷ [])
        t.compression refl refl
  where
    t : Terms
    t = agreed l c

    rest : List String
    rest = token_if t.compression "LZ4" ++ token "IDENTITY" 1 ∷ []

-- What the greeting leaves in the client.
abbrev pub greeted : Limits → Client → Client
greeted l c = record c {
  flow = true;
  compression = l.compression_enabled && c.compression_enabled;
  identity = true;
  window_size = (agreed l c).window_size;
}

take_terms-flags :
    (l : Limits) (c : Client) (b : Bool)
    → IsServer l
    → IsClient c
    → (l.compression_enabled && c.compression_enabled) ≡ b
    → (agreed l c).window_size * ((agreed l c).block_size + 64) ≤ c.receive_buffer
    → take_terms c (
        flags b (
          ("WINDOW", (agreed l c).window_size)
          ∷ ("FLOW", 1)
          ∷ ("MAXBLK", (agreed l c).block_size)
          ∷ []))
      ≡ ok ((agreed l c).block_size, greeted l c)
unfolding take_terms is_on get get_or
take_terms-flags l c false s h e fits = rw e (ground arith)
take_terms-flags l c true s h e fits = rw e (ground arith)

AreWords-flags : (b : Bool) → AreWords (token_if b "LZ4" ++ token "IDENTITY" 1 ∷ [])
unfolding token_if is_space
AreWords-flags false = (IsWord-token "IDENTITY" 1 refl, tt)
AreWords-flags true = (IsWord-token "LZ4" 1 refl, (IsWord-token "IDENTITY" 1 refl, tt))

AreWords-offer : (c : Client) → AreWords (offer c)
unfolding offer is_space
AreWords-offer c = (
  IsWord-token "FLOW" 1 refl,
  (
    IsWord-token "MAXBLK" c.max_block_size refl,
    (
      IsWord-token "WINDOW" c.window_limit refl,
      (IsWord-token "RXBUF" c.receive_buffer refl, AreWords-flags c.compression_enabled),
    ),
  ),
)

AreWords-proposal : (l : Limits) (c : Client) → AreWords (proposal l.baud (agreed l c))
unfolding proposal extra is_space
AreWords-proposal l c = (
  IsWord-token "BAUD" l.baud refl,
  (
    IsWord-token "MAXBLK" (agreed l c).block_size refl,
    (
      IsWord-token "FLOW" 1 refl,
      (
        IsWord-token "WINDOW" (agreed l c).window_size refl,
        AreWords-flags (agreed l c).compression,
      ),
    ),
  ),
)

pub split-offer_line :
    (first : Bool) (c : Client)
    → split (offer_line first c)
      ≡ (if first then "HELLO" else "HELLO?") ∷ protocol_version ∷ offer c
unfolding offer_line is_space
split-offer_line true c =
    split-unwords ("HELLO" ∷ protocol_version ∷ offer c)
      (IsWord-plain "HELLO" refl, (IsWord-plain protocol_version refl, AreWords-offer c))
split-offer_line false c =
    split-unwords ("HELLO?" ∷ protocol_version ∷ offer c)
      (IsWord-plain "HELLO?" refl, (IsWord-plain protocol_version refl, AreWords-offer c))

split-proposal_line :
    (first : Bool) (l : Limits) (c : Client)
    → split (proposal_line first l.baud (agreed l c)) ≡ (
        if first
        then "HELLO" ∷ protocol_version ∷ "HRU?" ∷ proposal l.baud (agreed l c)
        else "OHRU" ∷ protocol_version ∷ proposal l.baud (agreed l c))
unfolding proposal_line repeated_line is_space
split-proposal_line true l c =
    split-unwords ("HELLO" ∷ protocol_version ∷ "HRU?" ∷ proposal l.baud (agreed l c)) (
      IsWord-plain "HELLO" refl,
      (IsWord-plain protocol_version refl, (IsWord-plain "HRU?" refl, AreWords-proposal l c)),
    )
split-proposal_line false l c =
    split-unwords ("OHRU" ∷ protocol_version ∷ proposal l.baud (agreed l c))
      (IsWord-plain "OHRU" refl, (IsWord-plain protocol_version refl, AreWords-proposal l c))

take_answer-proposal_line :
    (first : Bool) (l : Limits) (c : Client)
    → options (proposal l.baud (agreed l c)) ≡ ok (proposed l c)
    → take_answer c (proposal_line first l.baud (agreed l c)) ≡ take_terms c (proposed l c)
unfolding take_answer starts part
take_answer-proposal_line true l c e = rw (split-proposal_line true l c) (rw e refl)
take_answer-proposal_line false l c e = rw (split-proposal_line false l c) (rw e refl)

-- A server and a client with limits in range, from line to line, for the first form of each line
-- and the repeated one: the server reads the client's offer as the agreed terms, which allow a
-- frame; the client accepts the server's proposal of these terms, takes over the same block size,
-- window, compression and identity; and the frames of a window fit into its receive buffer.
pub hello_agrees :
    (l : Limits) (c : Client) (first again : Bool)
    → IsServer l
    → IsClient c
    → ((options (drop 2 (split (offer_line first c))) >>= negotiate l) ≡ ok (agreed l c))
      × (1 ≤ (agreed l c).window_size)
      × (take_answer c (proposal_line again l.baud (agreed l c))
          ≡ ok ((agreed l c).block_size, greeted l c))
      × ((greeted l c).window_size * ((agreed l c).block_size + 64) ≤ (greeted l c).receive_buffer)
hello_agrees l c first again s h = (
  rw (split-offer_line first c) (
      rw (options-offer c h)
        (negotiate-flags l c c.compression_enabled refl (frames_fit l c s h).0)),
  room,
  take_answer-proposal_line again l c (options-proposal l c s h room)
      ∙ take_terms-flags l c (l.compression_enabled && c.compression_enabled) s h refl
          (frames_fit l c s h).1,
  (frames_fit l c s h).1,
)
  where
    room : 1 ≤ (agreed l c).window_size
    room = omega (arith, (frames_fit l c s h).0)
