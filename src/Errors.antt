-- ===== src/Errors.antt =====
-- src/pcutp/errors.py: the exception classes. `kind` is the class, which the handlers test;
-- `code` and `detail` are the attributes that `wire` renders. The message, which only logs
-- show, is left out.
use pcutp.Base.{String, ◌≡◌, refl, ◌⊎◌, inl, inr, if◌then◌else◌}
use pcutp.Base.Text.{◌<+>◌}
use text.Mathlib.Text.{◌==◌}

pub data Kind : Type 0 where
  base version url http dns size storage file write timeout retry protocol link_lost : Kind

-- the class attribute `code`
unfoldable pub default_code : Kind → String
default_code Kind.base = "PROTOCOL"
default_code Kind.version = "VERSION"
default_code Kind.url = "URL"
default_code Kind.http = "HTTP"
default_code Kind.dns = "DNS"
default_code Kind.size = "SIZE"
default_code Kind.storage = "STORAGE"
default_code Kind.file = "FILE"
default_code Kind.write = "WRITE"
default_code Kind.timeout = "TIMEOUT"
default_code Kind.retry = "RETRY"
default_code Kind.protocol = "PROTOCOL"
default_code Kind.link_lost = "LINKLOST"

pub record PcutpError : Type 0 where
  pub kind : Kind
  pub code : String
  pub detail : String

-- `Class(message)`
unfoldable pub make : Kind → PcutpError
unfolding default_code
make k = record { kind = k; code = default_code k; detail = "" }

-- `PcutpError.wire`
unfoldable pub wire : PcutpError → String
unfolding ◌<+>◌
wire e = "ERR " <+> e.code <+> (if e.detail == "" then "" else " " <+> e.detail)

-- what a call returns or raises
pub data Result {ℓ} (A : Type ℓ) : Type ℓ where
  ok : A → Result A
  err : PcutpError → Result A

infixl 5 ◌>>=◌
abbrev pub ◌>>=◌ {ℓ κ} : {A : Type ℓ} {B : Type κ} → Result A → (A → Result B) → Result B
ok a >>= f = f a
err e >>= f = err e

unfoldable pub raise {ℓ} : {A : Type ℓ} → Kind → Result A
unfolding make
raise k = err (make k)

pub Result-cases {ℓ} :
    {A : Type ℓ} (r : Result A) → ((e : PcutpError) × (r ≡ err e)) ⊎ ((a : A) × (r ≡ ok a))
Result-cases (ok a) = inr (a, refl)
Result-cases (err e) = inl (e, refl)
