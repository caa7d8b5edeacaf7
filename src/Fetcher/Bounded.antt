-- ===== src/Fetcher/Bounded.antt =====
-- What `fetch` of src/pcutp/fetcher.py hands on, and how much of it is in memory.
use text.Mathlib.TextEquality.{eq_iff}
use pcutp.Base.{
  ℕ, ◌+◌, ◌-◌, ◌≤◌, ◌≡◌, ◌≢◌, true, some, List, [], ◌∷◌, ◌++◌, arith, String, Bytes, length,
  length-append, min, inl, inr, Option-cases,
}
use pcutp.Errors.{ok, raise, Result-cases}
use pcutp.Fetcher.{
  max_redirects, Read, Response, Opened, redirected, opened, failed, read_body, take_response,
  validate_url, follow, fetch, is_scheme, lower,
}

-- A read returns no more than it is asked for, as the library documents it.
abbrev pub AreBounded : List Read → Type 0
AreBounded [] = Unit
AreBounded (r ∷ rs) = ((n : ℕ) (c : Bytes) → r.chunk n ≡ some c → length c ≤ n) × AreBounded rs

-- While the body is read, at most one byte more than the limit is in memory.
pub read_body_bound :
    (max_size : ℕ) (rs : List Read) (body whole : Bytes)
    → AreBounded rs
    → length body ≤ max_size + 1
    → read_body max_size rs body ≡ some whole
    → length whole ≤ max_size + 1
unfolding read_body
read_body_bound max_size [] body whole h le e = ground arith
read_body_bound max_size (r ∷ rs) body whole (h, hs) le e =
    elim (Option-cases (r.chunk (min 65536 (max_size + 1 - length body)))) [
      | inl failed_read ↦ ground arith
      | inr ([], at_end) ↦ ground arith
      | inr (x ∷ xs, got) ↦ ground (
        arith,
        h (min 65536 (max_size + 1 - length body)) (x ∷ xs) got,
        length-append body (x ∷ xs),
        read_body_bound max_size rs (body ++ x ∷ xs) whole hs,
      )
    ]

module _ (urlparse : String → String × String) where
  -- a scheme of the list, and a host
  abbrev pub IsAllowed : String → Type 0
  IsAllowed url = (is_scheme (lower (urlparse url).0) ≡ true) × ((urlparse url).1 ≢ "")

  -- every redirect on the way goes to an allowed URL
  abbrev pub AreAllowed : Opened → Type 0
  AreAllowed (redirected newurl next) = IsAllowed newurl × AreAllowed next
  AreAllowed (opened response) = Unit
  AreAllowed (failed f) = Unit

take_response-size :
    (max_size : ℕ) (response : Response) (body : Bytes)
    → take_response max_size response ≡ ok body
    → length body ≤ max_size
unfolding take_response raise
take_response-size max_size response body e =
    elim (Option-cases (read_body max_size response.reads [])) [
      | inl failed_read ↦ ground arith
      | inr (whole, got) ↦ ground arith
    ]

module _ (urlparse : String → String × String) (open_url : ℕ → ℕ → String → Opened) where
  validate_url-IsAllowed :
      (url valid : String) → validate_url urlparse open_url url ≡ ok valid → IsAllowed urlparse url
  unfolding validate_url raise
  validate_url-IsAllowed url valid e = ground (arith, eq_iff (urlparse url).1 "")

  follow_lem :
      (max_size : ℕ) (o : Opened) (body : Bytes)
      → follow urlparse open_url max_size o ≡ ok body
      → AreAllowed urlparse o × (length body ≤ max_size)
  unfolding follow
  follow_lem max_size (redirected newurl next) body e =
      elim (Result-cases (validate_url urlparse open_url newurl)) [
        | inl (x, refused) ↦ ground arith
        | inr (valid, allowed) ↦
            let rest = follow_lem max_size next body (ground arith) in
            ((validate_url-IsAllowed newurl valid allowed, rest.0), rest.1)
      ]
  follow_lem max_size (opened response) body e = (tt, take_response-size max_size response body e)
  follow_lem max_size (failed f) body e = ground arith

  -- A body that is handed on has at most `max_size` bytes, and it comes from an allowed URL, by
  -- redirects to allowed URLs only.
  pub fetch_lem :
      (url : String) (max_size : ℕ) (body : Bytes)
      → fetch urlparse open_url url max_size ≡ ok body
      → (length body ≤ max_size)
        × IsAllowed urlparse url
        × AreAllowed urlparse (open_url max_redirects max_redirects url)
  unfolding fetch
  fetch_lem url max_size body e = elim (Result-cases (validate_url urlparse open_url url)) [
    | inl (x, refused) ↦ ground arith
    | inr (valid, allowed) ↦
        let rest =
          follow_lem max_size (open_url max_redirects max_redirects url) body (ground arith) in
        (rest.1, validate_url-IsAllowed url valid allowed, rest.0)
  ]
