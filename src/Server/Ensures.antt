-- ===== src/Server/Ensures.antt =====
-- What an action of the sender ensures: it keeps the settings of the transfer, and the value that
-- it returns, if it returns, has a property. One rule for each way to build an action.
use pcutp.Base.{ℕ, ◌≡◌, refl, Bool, true, false, Option, none, some, if◌then◌else◌}
use pcutp.Errors.{Kind}
use pcutp.Server.Session.{Server, Outcome, returned, raised, waiting, Action, pure, raise, ◌>>=◌}

-- the settings that no step of a transfer changes
abbrev pub HasSettings : ℕ → ℕ → Server → Type 0
HasSettings window max_retries s = (s.window_size ≡ window) × (s.max_retries ≡ max_retries)

abbrev pub Returns : {A : Type 0} → (A → Type 0) → Outcome A → Type 0
Returns P (returned a) = P a
Returns P (raised e) = Unit
Returns P waiting = Unit

abbrev pub OnSome : {A : Type 0} → (A → Type 0) → Option A → Type 0
OnSome P none = Unit
OnSome P (some a) = P a

abbrev pub Any : {A : Type 0} → A → Type 0
Any a = Unit

module _ (w r : ℕ) where
  pub record Ensures {A : Type 0} (P : A → Type 0) (m : Action A) : Type 0 where
    pub at : (s : Server) → HasSettings w r s → HasSettings w r (m s).1 × Returns P (m s).0

module _ {w r : ℕ} {A : Type 0} (P : A → Type 0) where
  pub Ensures-pure : (a : A) → P a → Ensures w r P (pure a)
  Ensures-pure a p = record { at = λ s h. (h, p) }

  pub Ensures-raise : (k : Kind) → Ensures w r P (raise k)
  Ensures-raise k = record { at = λ s h. (h, tt) }

  pub Ensures-waiting : Ensures w r P (λ s. (waiting, s))
  Ensures-waiting = record { at = λ s h. (h, tt) }

  pub Ensures-if :
      (b : Bool) (m n : Action A)
      → (b ≡ true → Ensures w r P m)
      → (b ≡ false → Ensures w r P n)
      → Ensures w r P (if b then m else n)
  Ensures-if true m n hm hn = hm refl
  Ensures-if false m n hm hn = hn refl

module _ {w r : ℕ} {A B : Type 0} (P : A → Type 0) (Q : B → Type 0) where
  from_outcome :
      (f : A → Action B) (o : Outcome A) (s : Server)
      → HasSettings w r s
      → Returns P o
      → ((a : A) → P a → Ensures w r Q (f a))
      → let m : Action A = λ _. (o, s) in
        HasSettings w r ((m >>= f) s).1 × Returns Q ((m >>= f) s).0
  from_outcome f (returned a) s h p hf = (hf a p).at s h
  from_outcome f (raised e) s h p hf = (h, tt)
  from_outcome f waiting s h p hf = (h, tt)

  pub Ensures-bind :
      (m : Action A) (f : A → Action B)
      → Ensures w r P m
      → ((a : A) → P a → Ensures w r Q (f a))
      → Ensures w r Q (m >>= f)
  Ensures-bind m f hm hf = record {
    at = λ s h. let k = hm.at s h in from_outcome f (m s).0 (m s).1 k.0 k.1 hf;
  }
