-- ===== src/Fetcher.antt =====
-- src/pcutp/fetcher.py. urllib is a parameter: how it parses a URL, and what it does with a request.
-- `Response` is an open response: each read has what it returns for the size that is asked for, or
-- `none` where it runs into its timeout, and whether the deadline has passed before it. Where the
-- reads end, the body has ended. How often urllib follows redirects is up to its handler, which gets
-- the limits of `_LimitedRedirects`; it calls `redirect_request` at each redirect.
pub mod Bounded
use text.Mathlib.Text.{◌==◌ as str_eq}
use Prim.Native.Char.{Char, code}
use Prim.Native.String.{char_at}
use pcutp.Base.{
  ℕ, zero, suc, ◌+◌, ◌-◌, ◌≡◌, refl, Bool, true, false, ◌&&◌, ◌||◌, not, Option, none, some, List,
  [], ◌∷◌, ◌++◌, String, Bytes, length, min, ltb, leb, if◌then◌else◌,
}
use pcutp.Base.Text.{is_decimal, int, str}
use pcutp.Errors.{Kind, PcutpError, Result, ok, err, raise, make}

pub record Read : Type 0 where
  pub late : Bool
  pub chunk : ℕ → Option Bytes

pub record Response : Type 0 where
  pub declared : Option String
  pub reads : List Read
  pub late : Bool

abbrev pub max_redirects : ℕ
max_redirects = 5

-- the exceptions of urllib that are turned into errors
pub data Failure : Type 0 where
  timed_out : Failure
  http_status : ℕ → Failure
  name_unknown : Failure
  unreachable : Failure

-- what comes of a request: a redirect, which the library asks about before it follows it, or an end
pub data Opened : Type 0 where
  redirected : String → Opened → Opened
  opened : Response → Opened
  failed : Failure → Opened

unfoldable pub lower_char : Char → Char
lower_char c =
    if leb 65 (code c) && leb (code c) 90
    then char_at "abcdefghijklmnopqrstuvwxyz" (code c - 65)
    else c

-- `text.lower()`
unfoldable pub lower : String → String
unfolding lower_char
lower String.[] = String.[]
lower (String.◌∷◌ c s) = String.◌∷◌ (lower_char c) (lower s)

-- `in ALLOWED_SCHEMES`
unfoldable pub is_scheme : String → Bool
is_scheme scheme = str_eq scheme "http" || str_eq scheme "https"

-- the exceptions' error classes, with their detail
unfoldable pub failure_error : Failure → PcutpError
failure_error timed_out = record (make Kind.http) { detail = "timeout" }
failure_error (http_status n) = record (make Kind.http) { detail = str n }
failure_error name_unknown = make Kind.dns
failure_error unreachable = make Kind.http

-- the chunks that are read, or `none` for a timeout; the loop has a read left for each round
unfoldable pub read_body : ℕ → List Read → Bytes → Option Bytes
read_body max_size [] body = some body
read_body max_size (r ∷ rs) body =
    let asked = min 65536 (max_size + 1 - length body) in
    let more : Option Bytes = elim (r.chunk asked) [
      | none ↦ none
      | some [] ↦ some body
      | some (x ∷ xs) ↦ read_body max_size rs (body ++ x ∷ xs)
    ] in
    if ltb max_size (length body) then some body else if r.late then none else more

-- the test of Content-Length
unfoldable pub is_declared_over : ℕ → Option String → Bool
is_declared_over max_size none = false
is_declared_over max_size (some declared) = is_decimal declared && ltb max_size (int declared)

unfoldable pub take_response : ℕ → Response → Result Bytes
unfolding is_declared_over read_body failure_error
take_response max_size response =
    if is_declared_over max_size response.declared
    then raise Kind.size
    else elim (read_body max_size response.reads []) [
      | none ↦ err (failure_error timed_out)
      | some body ↦
          if response.late
          then err (failure_error timed_out)
          else if ltb max_size (length body)
          then raise Kind.size
          else ok body
    ]

-- `urllib.parse.urlparse`, as the scheme and the host, and the opening of a URL by a handler with
-- these `max_repeats` and `max_redirections`
module _ (urlparse : String → String × String) (open_url : ℕ → ℕ → String → Opened) where
  unfoldable pub validate_url : String → Result String
  unfolding is_scheme lower
  validate_url url =
      let (scheme, netloc) = urlparse url in
      if not (is_scheme (lower scheme))
      then raise Kind.url
      else if str_eq netloc ""
      then raise Kind.url
      else ok url

  -- `redirect_request`, at each redirect
  unfoldable pub follow : ℕ → Opened → Result Bytes
  unfolding validate_url take_response failure_error
  follow max_size (redirected newurl next) =
      let rest = follow max_size next in
      elim (validate_url newurl) [ err e ↦ err e | ok valid ↦ rest ]
  follow max_size (opened response) = take_response max_size response
  follow max_size (failed f) = err (failure_error f)

  unfoldable pub fetch : String → ℕ → Result Bytes
  unfolding validate_url follow
  fetch url max_size = elim (validate_url url) [
    | err e ↦ err e
    | ok valid ↦ follow max_size (open_url max_redirects max_redirects url)
  ]
