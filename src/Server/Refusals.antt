-- ===== src/Server/Refusals.antt =====
-- The requests that `_handle_get` of src/pcutp/server.py serves, and those that it refuses.
use text.Mathlib.TextEquality.{eq_iff}
use pcutp.Base.{
  ℕ, ◌≡◌, refl, not, ◌||◌, false, true, none, List, [], ◌∷◌, ◌++◌, arith, append_assoc, length,
  ◌==◌, inl, inr, Option, String, Bytes, Bool-cases,
}
use pcutp.Base.Text.{split, part}
use pcutp.Errors.{Kind, PcutpError, Result, ok, err, make, wire, Result-cases}
use pcutp.Names.{sanitize_filename}
use pcutp.Client.Header.{starts}
use pcutp.Server.Session.{Server, control, Outcome, returned, raised, send_line, fail}
use pcutp.Server.Transfer.{
  Setting, TransferResult, take_fetched, fetch_named, send_file, handle_get,
}

-- the words of a request
abbrev pub IsRequest : List String → String → String → Type 0
IsRequest words name url = words ≡ "GET" ∷ name ∷ url ∷ []

module _ (zlib_crc32 : Bytes → ℕ → ℕ) (fetcher : String → ℕ → Result Bytes) (c : Setting) where
  -- What comes of a line: no request is a protocol error, which is sent and raised; a request for an
  -- unsafe name and one that cannot be fetched have their error sent, the latter behind FETCHING; any
  -- other has its file sent behind FETCHING.
  pub data Handles (line : String) (s : Server) (r : Outcome (Option TransferResult) × Server)
      : Type 0 where
    strange :
        ((name url : String) → IsRequest (split line) name url → ⊥)
        → r.0 ≡ raised (make Kind.protocol)
        → r.1.sent ≡ s.sent ++ control (wire (make Kind.protocol)) ∷ []
        → Handles line s r
    unsafe :
        (name url : String) (e : PcutpError)
        → IsRequest (split line) name url
        → sanitize_filename name ≡ err e
        → r.0 ≡ returned none
        → r.1.sent ≡ s.sent ++ control (wire e) ∷ []
        → Handles line s r
    missing :
        (name url filename : String) (e : PcutpError)
        → IsRequest (split line) name url
        → sanitize_filename name ≡ ok filename
        → fetcher url c.max_file_size ≡ err e
        → r.0 ≡ returned none
        → r.1.sent ≡ s.sent ++ control "FETCHING" ∷ control (wire e) ∷ []
        → Handles line s r
    serves :
        (name url filename : String) (input : Bytes)
        → IsRequest (split line) name url
        → sanitize_filename name ≡ ok filename
        → fetcher url c.max_file_size ≡ ok input
        → r ≡ send_file zlib_crc32 c filename input (send_line "FETCHING" s).1
        → Handles line s r

  named :
      (line name url : String) (s : Server)
      → IsRequest (split line) name url
      → Handles line s (fetch_named zlib_crc32 fetcher c (sanitize_filename name) url s)
  unfolding fetch_named take_fetched send_line
  named line name url s h = elim (Result-cases (sanitize_filename name)) [
    | inl (e, bad) ↦ rw bad (unsafe name url e h bad refl refl)
    | inr (filename, safe) ↦ elim (Result-cases (fetcher url c.max_file_size)) [
      | inl (e, none_there) ↦
          rw (safe, none_there)
            (missing name url filename e h safe none_there refl
              (append_assoc s.sent (control "FETCHING" ∷ []) (control (wire e) ∷ [])))
      | inr (input, found) ↦ rw (safe, found) (serves name url filename input h safe found refl)
    ]
  ]

  IsRequest-tested :
      (words : List String)
      → (not (length words == 3) || not (starts words "GET")) ≡ false
      → IsRequest words (part words 1) (part words 2)
  unfolding starts part
  IsRequest-tested [] h = ground arith
  IsRequest-tested (x ∷ []) h = ground arith
  IsRequest-tested (x ∷ y ∷ []) h = ground arith
  IsRequest-tested (x ∷ y ∷ z ∷ []) h = ground (arith, eq_iff x "GET")
  IsRequest-tested (x ∷ y ∷ z ∷ w ∷ words) h = ground arith

  IsRequest-refused :
      (words : List String)
      → (not (length words == 3) || not (starts words "GET")) ≡ true
      → (name url : String) → IsRequest words name url
      → ⊥
  unfolding starts part
  IsRequest-refused words h name url e = let h' = rw e at h in ground (arith, h')

  -- Whatever the line, the name and the fetch: exactly a line of the three words GET, name and
  -- URL with a safe name and a body has its file sent, behind FETCHING; any other line is a
  -- protocol error, which is sent and raised, and an unsafe name or a failed fetch has its error
  -- as the last line that is sent.
  pub handle_get-Handles :
      (line : String) (s : Server) → Handles line s (handle_get zlib_crc32 fetcher c line s)
  unfolding handle_get fail send_line
  handle_get-Handles line s =
      elim (Bool-cases (not (length (split line) == 3) || not (starts (split line) "GET"))) [
        | inl other ↦ rw other (strange (IsRequest-refused (split line) other) refl refl)
        | inr request ↦ rw request (
            named line (part (split line) 1) (part (split line) 2) s
              (IsRequest-tested (split line) request))
      ]
