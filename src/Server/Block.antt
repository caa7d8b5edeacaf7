-- ===== src/Server/Block.antt =====
-- `_send_block` of src/pcutp/server.py: one block, sent until it is acknowledged.
use text.Mathlib.Text.{◌==◌ as str_eq}
use pcutp.Base.{
  ℕ, zero, suc, ◌+◌, ◌&&◌, Option, none, some, [], ◌∷◌, String, Bytes, length, ltb, leb,
  if◌then◌else◌,
}
use pcutp.Base.Text.{split, part, unwords, str}
use pcutp.Errors.{Kind}
use pcutp.Crc.{crc32_hex}
use pcutp.Client.Header.{starts}
use pcutp.Server.Session.{Action, pure, raise, fail, send_payload, recv_or_timeout, ◌>>=◌, ◌>>◌}

abbrev pub max_timeouts : ℕ
max_timeouts = 5

module _ (zlib_crc32 : Bytes → ℕ → ℕ) where
  -- f"DATA {seq} {len(chunk)} {crc32_hex(chunk)}"
  unfoldable pub data_header : ℕ → Bytes → String
  data_header seq chunk =
      unwords ("DATA" ∷ str seq ∷ str (length chunk) ∷ crc32_hex zlib_crc32 chunk 0 ∷ [])

  -- the reply to an attempt: `some n` to return `n`, `none` to go on with the next attempt
  unfoldable pub block_reply : ℕ → ℕ → String → Action (Option ℕ)
  unfolding starts part
  block_reply seq attempt reply =
      let parts = split reply in
      if starts parts "ACK" && (ltb 1 (length parts) && str_eq (part parts 1) (str seq))
      then pure (some attempt)
      else if starts parts "NAK"
      then pure none
      else raise Kind.protocol

  -- the rounds of `for attempt in range(self.max_retries + 1)` that are left
  unfoldable pub send_attempts : ℕ → ℕ → Bytes → ℕ → ℕ → Action ℕ
  unfolding block_reply
  send_attempts zero seq chunk attempt timeouts = do fail Kind.retry; raise Kind.retry
  send_attempts (suc rounds) seq chunk attempt timeouts = do
    send_payload (data_header seq chunk) chunk
    r ← recv_or_timeout
    elim r [
      | none ↦
          let more = send_attempts rounds seq chunk (attempt + 1) (timeouts + 1) in
          if leb max_timeouts (timeouts + 1)
          then (do fail Kind.timeout; raise Kind.timeout)
          else more
      | some (reply, late) ↦ do
        done ← block_reply seq attempt reply
        elim done [ some n ↦ pure n | none ↦ send_attempts rounds seq chunk (attempt + 1) timeouts ]
    ]

  unfoldable pub send_block : ℕ → Bytes → Action ℕ
  send_block seq chunk s = send_attempts (s.max_retries + 1) seq chunk 0 0 s
