-- ===== src/Server/Draining.antt =====
-- What the sender does with the events of the link: an action waits only where the events have
-- come to an end. One rule for each way to build an action.
use pcutp.Base.{
  ℕ, suc, ◌≤◌, ◌<◌, ◌≡◌, Bool, true, false, Option, none, some, [], arith, length, if◌then◌else◌,
}
use pcutp.Errors.{Kind}
use pcutp.Server.Session.{Server, Outcome, returned, raised, waiting, Action, pure, raise, ◌>>=◌}

-- At most `n` events are left, and none where the action waits.
abbrev pub Leaves : {A : Type 0} → ℕ → Outcome A × Server → Type 0
Leaves n (returned a, s) = length s.events ≤ n
Leaves n (raised e, s) = Unit
Leaves n (waiting, s) = s.events ≡ []

-- The same, and an action that returns has taken an event.
abbrev pub Takes : {A : Type 0} → ℕ → Outcome A × Server → Type 0
Takes n (returned a, s) = length s.events < n
Takes n (raised e, s) = Unit
Takes n (waiting, s) = s.events ≡ []

-- With fewer than `k` events to come.
pub record Draining {A : Type 0} (k : ℕ) (m : Action A) : Type 0 where
  pub at : (n : ℕ) (s : Server) → length s.events ≤ n → n < k → Leaves n (m s)

pub record Taking {A : Type 0} (k : ℕ) (m : Action A) : Type 0 where
  pub at : (n : ℕ) (s : Server) → length s.events ≤ n → n < k → Takes n (m s)

module _ {A : Type 0} where
  pub Draining-pure : (k : ℕ) (a : A) → Draining k (pure a)
  Draining-pure k a = record { at = λ n s h lt. h }

  pub Draining-raise : (k : ℕ) (e : Kind) → Draining k (raise {A = A} e)
  Draining-raise k e = record { at = λ n s h lt. tt }

  pub Draining-if :
      (k : ℕ) (b : Bool) (m m' : Action A)
      → Draining k m
      → Draining k m'
      → Draining k (if b then m else m')
  Draining-if k true m m' h h' = h
  Draining-if k false m m' h h' = h'

  pub Draining-elim :
      {B : Type 0} (k : ℕ) (o : Option B) (m : Action A) (f : B → Action A)
      → Draining k m
      → ((b : B) → Draining k (f b))
      → Draining k (elim o as (λ _. Action A) [ none ↦ m | some b ↦ f b ])
  Draining-elim k none m f hm hf = hm
  Draining-elim k (some b) m f hm hf = hf b

  relaxed : (n : ℕ) (p : Outcome A × Server) → Takes n p → Leaves n p
  relaxed n (returned a, s) h = omega arith
  relaxed n (raised e, s) h = tt
  relaxed n (waiting, s) h = h

  pub Draining-Taking : (k : ℕ) (m : Action A) → Taking k m → Draining k m
  Draining-Taking k m h = record { at = λ n s few lt. relaxed n (m s) (h.at n s few lt) }

  pub Draining-Taking-suc : (k : ℕ) (m : Action A) → Taking (suc k) m → Draining k m
  Draining-Taking-suc k m h = record {
    at = λ n s few lt. relaxed n (m s) (h.at n s few (omega arith));
  }

  pub Leaves-more : (n n' : ℕ) (p : Outcome A × Server) → n ≤ n' → Leaves n p → Leaves n' p
  Leaves-more n n' (returned a, s) le h = omega arith
  Leaves-more n n' (raised e, s) le h = tt
  Leaves-more n n' (waiting, s) le h = h

  Takes-more : (n n' : ℕ) (p : Outcome A × Server) → n < n' → Leaves n p → Takes n' p
  Takes-more n n' (returned a, s) le h = omega arith
  Takes-more n n' (raised e, s) le h = tt
  Takes-more n n' (waiting, s) le h = h

module _ {A B : Type 0} (f : A → Action B) where
  after :
      (k n : ℕ) (p : Outcome A × Server)
      → Leaves n p
      → n < k
      → ((a : A) → Draining k (f a))
      → let m : Action A = λ _. p in Leaves n ((m >>= f) p.1)
  after k n (returned a, s) h lt hf = (hf a).at n s h lt
  after k n (raised e, s) h lt hf = tt
  after k n (waiting, s) h lt hf = h

  after_taking :
      (k n : ℕ) (p : Outcome A × Server)
      → Takes n p
      → n < suc k
      → ((a : A) → Draining k (f a))
      → let m : Action A = λ _. p in Takes n ((m >>= f) p.1)
  after_taking k n (returned a, s) h lt hf =
      Takes-more (length s.events) n (f a s) h
        ((hf a).at (length s.events) s (omega arith) (omega arith))
  after_taking k n (raised e, s) h lt hf = tt
  after_taking k n (waiting, s) h lt hf = h

  pub Draining-bind :
      (k : ℕ) (m : Action A) → Draining k m → ((a : A) → Draining k (f a)) → Draining k (m >>= f)
  Draining-bind k m hm hf = record { at = λ n s h lt. after k n (m s) (hm.at n s h lt) lt hf }

  pub Taking-bind :
      (k : ℕ) (m : Action A)
      → Taking (suc k) m
      → ((a : A) → Draining k (f a))
      → Taking (suc k) (m >>= f)
  Taking-bind k m hm hf = record { at = λ n s h lt. after_taking k n (m s) (hm.at n s h lt) lt hf }
