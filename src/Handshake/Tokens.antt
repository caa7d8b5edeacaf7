-- ===== src/Handshake/Tokens.antt =====
-- The tokens of the greeting in src/pcutp/server.py and src/pcutp/client.py: they are words, and
-- `options` reads back the key and the number.
use Prim.Native.Char.{code}
use Prim.Native.String.append
use pcutp.Base.{
  ℕ, ◌≤◌, ◌≡◌, refl, ◌∙◌, Bool, true, false, ◌&&◌, none, List, [], ◌∷◌, ◌++◌, arith, inl, inr, not,
  Bool-cases, String, ◌==◌,
}
use pcutp.Base.Text.{is_space, str, ◌<+>◌}
use pcutp.Base.Words.{IsWord, HasNoSpace}
use pcutp.Base.Decimal.{int-str, is_decimal-str, IsWord-str}
use pcutp.Errors.{ok}
use pcutp.Flow.{Capabilities, get, is_present, partition, is_capability, options_from}
use pcutp.Handshake.Negotiate.{token, token_if}

-- A key has no `=`.
abbrev is_key : String → Bool
is_key String.[] = true
is_key (String.◌∷◌ c s) = not (code c == 61) && is_key s

partition-key :
    (key v : String) → is_key key ≡ true → partition (key <+> ("=" <+> v)) ≡ (key, true, v)
unfolding partition ◌<+>◌
partition-key String.[] v h = rw (append.nil, append.cons, append.nil) refl
partition-key (String.◌∷◌ c s) v h = elim (Bool-cases (code c == 61)) [
  | inl equals ↦ ground arith
  | inr plain ↦ simp append.cons (rw (partition-key s v (ground arith), plain) refl)
]

abbrev is_plain : String → Bool
is_plain String.[] = true
is_plain (String.◌∷◌ c s) = not (is_space c) && is_plain s

HasNoSpace-is_plain : (s : String) → is_plain s ≡ true → HasNoSpace s
HasNoSpace-is_plain String.[] h = tt
HasNoSpace-is_plain (String.◌∷◌ c s) h = (ground arith, HasNoSpace-is_plain s (ground arith))

HasNoSpace-append : (s t : String) → HasNoSpace s → HasNoSpace t → HasNoSpace (s <+> t)
unfolding ◌<+>◌
HasNoSpace-append String.[] t h k = rw append.nil k
HasNoSpace-append (String.◌∷◌ c s) t (h, hs) k = rw append.cons (h, HasNoSpace-append s t hs k)

HasNoSpace-IsWord : (s : String) → IsWord s → HasNoSpace s
HasNoSpace-IsWord String.[] h = absurd h
HasNoSpace-IsWord (String.◌∷◌ c s) h = h

IsWord-append : (s t : String) → IsWord s → HasNoSpace t → IsWord (s <+> t)
unfolding ◌<+>◌
IsWord-append String.[] t h k = absurd h
IsWord-append (String.◌∷◌ c s) t (h, hs) k = rw append.cons (h, HasNoSpace-append s t hs k)

abbrev pub is_plain_word : String → Bool
is_plain_word String.[] = false
is_plain_word (String.◌∷◌ c s) = is_plain (String.◌∷◌ c s)

pub IsWord-plain : (s : String) → is_plain_word s ≡ true → IsWord s
IsWord-plain String.[] h = absurd (ground arith)
IsWord-plain (String.◌∷◌ c s) h = (ground arith, HasNoSpace-is_plain s (ground arith))

pub IsWord-token : (key : String) (n : ℕ) → is_plain_word key ≡ true → IsWord (token key n)
unfolding token is_space
IsWord-token key n h =
    IsWord-append key ("=" <+> str n) (IsWord-plain key h)
      (HasNoSpace-append "=" (str n) (refl, tt) (HasNoSpace-IsWord (str n) (IsWord-str n)))

pub options_from-token :
    (values : Capabilities) (key : String) (n : ℕ) (tokens : List String)
    → is_key key ≡ true
    → is_capability key ≡ true
    → get key values ≡ none
    → 1 ≤ n
    → n ≤ 1048576
    → options_from values (token key n ∷ tokens) ≡ options_from ((key, n) ∷ values) tokens
unfolding options_from token is_present
options_from-token values key n tokens h c g lo hi =
    rw (partition-key key (str n) h, c, is_decimal-str n, g, int-str n) (ground arith)

pub options_from-other :
    (values : Capabilities) (key : String) (n : ℕ) (tokens : List String)
    → is_key key ≡ true
    → is_capability key ≡ false
    → options_from values (token key n ∷ tokens) ≡ options_from values tokens
unfolding options_from token
options_from-other values key n tokens h c = rw (partition-key key (str n) h, c) refl

-- What the last two flags of a line are read as.
abbrev pub flags : Bool → Capabilities → Capabilities
flags false values = ("IDENTITY", 1) ∷ values
flags true values = ("IDENTITY", 1) ∷ ("LZ4", 1) ∷ values

pub options_from-flags :
    (values : Capabilities) (b : Bool)
    → get "LZ4" values ≡ none
    → get "IDENTITY" values ≡ none
    → options_from values (token_if b "LZ4" ++ token "IDENTITY" 1 ∷ []) ≡ ok (flags b values)
unfolding token_if is_capability get
options_from-flags values false lz identity =
    options_from-token values "IDENTITY" 1 [] refl refl identity (omega arith) (omega arith)
    ∙ unfold options_from in refl
options_from-flags values true lz identity =
    options_from-token values "LZ4" 1 _ refl refl lz (omega arith) (omega arith)
    ∙ options_from-token (("LZ4", 1) ∷ values) "IDENTITY" 1 [] refl refl identity (omega arith)
        (omega arith)
    ∙ unfold options_from in refl
