-- ===== src/Exchange/Yields.antt =====
-- What an action of src/pcutp/server.py yields where all goes well: it returns, and the value and
-- the state behind it have a property.
use pcutp.Base.{ℕ, ◌≡◌, List, Bool}
use pcutp.Server.Session.{Server, Event, Frame, Outcome, returned, raised, waiting, Action, ◌>>=◌}

-- the attributes that the transfer of a file reads and does not change
pub record Knobs : Type 0 where
  pub block_size : ℕ
  pub window_size : ℕ
  pub max_retries : ℕ
  pub baud : ℕ
  pub use_compression : Bool
  pub barrier_id : ℕ

-- the sender with these attributes, these events to come and these frames sent
pub record Has (k : Knobs) (events : List Event) (sent : List Frame) (s : Server) : Type 0 where
  pub has_block : s.block_size ≡ k.block_size
  pub has_window : s.window_size ≡ k.window_size
  pub has_retries : s.max_retries ≡ k.max_retries
  pub has_baud : s.baud ≡ k.baud
  pub has_compression : s.use_compression ≡ k.use_compression
  pub has_barrier : s.barrier_id ≡ k.barrier_id
  pub has_events : s.events ≡ events
  pub has_sent : s.sent ≡ sent

module _ {A : Type 0} where
  abbrev pub Yields : (A → Server → Type 0) → Outcome A × Server → Type 0
  Yields P (returned a, s) = P a s
  Yields P (raised e, s) = ⊥
  Yields P (waiting, s) = ⊥

  pub Yields-weaken :
      (P Q : A → Server → Type 0) (r : Outcome A × Server)
      → Yields P r
      → ((a : A) (s : Server) → P a s → Q a s)
      → Yields Q r
  Yields-weaken P Q (returned a, s) p h = h a s p
  Yields-weaken P Q (raised e, s) p h = p
  Yields-weaken P Q (waiting, s) p h = p

module _ {A B : Type 0} (P : A → Server → Type 0) (Q : B → Server → Type 0) where
  from_result :
      (f : A → Action B) (o : Outcome A) (s : Server)
      → Yields P (o, s)
      → ((a : A) (s' : Server) → P a s' → Yields Q (f a s'))
      → let m : Action A = λ _. (o, s) in Yields Q ((m >>= f) s)
  from_result f (returned a) s p h = h a s p
  from_result f (raised e) s p h = absurd p
  from_result f waiting s p h = absurd p

  pub Yields-bind :
      (m : Action A) (f : A → Action B) (s : Server)
      → Yields P (m s)
      → ((a : A) (s' : Server) → P a s' → Yields Q (f a s'))
      → Yields Q ((m >>= f) s)
  Yields-bind m f s p h = from_result f (m s).0 (m s).1 p h
