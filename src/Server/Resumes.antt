-- ===== src/Server/Resumes.antt =====
-- `_recover_window` of src/pcutp/server.py finds where the receiver is through a link that loses
-- some of the BARRIERs, or of the replies, and still delivers replies to what was sent before.
use pcutp.Base.{
  ℕ, Bool-cases, inl, inr, zero, suc, ◌+◌, ◌≤◌, ◌<◌, ◌≡◌, refl, sym, ap, ◌∙◌, arith, Bool, true,
  false, Option, none, some, List, [], ◌∷◌, ◌++◌, append_assoc, append-nil, String, length,
  replicate,
}
use pcutp.Base.Text.{split, unwords, str, is_decimal, int}
use mathlib.Core.Path.{subst}
use pcutp.Errors.{Kind}
use pcutp.Server.Session.{
  Server, Event, got, control, Outcome, Action, raise, returned, ◌>>=◌, send_line,
}
use pcutp.Server.Recovery.{
  after_verdict, listen, listen_all, or_else, try_times, settle, next_token, barrier_reply,
  barrier_once, recover_window,
}
use pcutp.Server.Persists.{>>=-returned}
use pcutp.Server.Setbacks.{
  Setback, event_of, events_of, is_over, overs, resume-ne-rmb, listen-settled, listen-Setback,
  resume-found,
}

module _ (token : String) where
  -- the BARRIER has been sent `n` times more, and `a` is returned
  pub record IsFound {A : Type 0} (a : A) (n : ℕ) (more : List Event) (s : Server)
      (p : Outcome A × Server) : Type 0 where
    pub outcome : p.0 ≡ returned a
    pub events : p.1.events ≡ more
    pub sent : p.1.sent ≡ s.sent ++ replicate n (control (unwords ("BARRIER" ∷ token ∷ [])))

  -- the state behind a BARRIER
  abbrev asked : Server → Server
  asked s = record s { sent = s.sent ++ control (unwords ("BARRIER" ∷ token ∷ [])) ∷ [] }

  IsFound-suc :
      {A : Type 0} (a : A) (n : ℕ) (more : List Event) (s : Server) (p : Outcome A × Server)
      → IsFound a n more (asked s) p
      → IsFound a (suc n) more s p
  IsFound-suc a n more s p h =
      let line = control (unwords ("BARRIER" ∷ token ∷ [])) in
      record {
        outcome = h.outcome;
        events = h.events;
        sent = h.sent ∙ append_assoc s.sent (line ∷ []) (replicate n line);
      }

  IsFound-settle :
      {A : Type 0} (a : A) (n : ℕ) (more : List Event) (s s' : Server) (otherwise : Action A)
      (m : Action (Option A))
      → IsFound (some a) n more s (m s')
      → IsFound a n more s ((m >>= settle otherwise) s')
  unfolding settle
  IsFound-settle a n more s s' otherwise m h =
      subst (IsFound a n more s)
        (sym (
          >>=-returned m (settle otherwise) s' (some a) (m s').1
            (ap (λ o. (o, (m s').1)) h.outcome)))
        (record { outcome = refl; events = h.events; sent = h.sent })

module _ (token text : String) (late : Bool) (more : List Event) where
  -- the setbacks, and then the RESUME
  abbrev pub coming : List (Setback token) → List Event
  coming setbacks = events_of setbacks ++ record { reply = got text; late = late } ∷ more

  length-coming : (setbacks : List (Setback token)) → length setbacks ≤ length (coming setbacks)
  unfolding events_of
  length-coming [] = omega arith
  length-coming (b ∷ setbacks) = omega (arith, length-coming setbacks)

module _ (token : String) (base next_seq : ℕ) where
  -- the rounds that are left, behind what is left of this one
  abbrev searching : ℕ → ℕ → Action (Option ℕ)
  searching rounds fuel =
      listen fuel (barrier_reply token base next_seq)
      >>= or_else (try_times rounds (barrier_once token base next_seq))

  barred :
      (rounds : ℕ) (es : List Event) (s : Server)
      → try_times (suc rounds) (barrier_once token base next_seq) (record s { events = es })
        ≡ searching rounds (suc (length es)) (record (asked token s) { events = es })
  unfolding try_times barrier_once listen_all send_line
  barred rounds es s = refl

  -- a round that goes on, and a round that is over
  on :
      (rounds fuel : ℕ) (e : Event) (es : List Event) (s : Server)
      → listen (suc fuel) (barrier_reply token base next_seq) (record s { events = e ∷ es })
        ≡ listen fuel (barrier_reply token base next_seq) (record s { events = es })
      → searching rounds (suc fuel) (record s { events = e ∷ es })
        ≡ searching rounds fuel (record s { events = es })
  on rounds fuel e es s h =
      ap
        (λ (p : Outcome (Option ℕ) × Server).
          let m : Action (Option ℕ) = λ _. p in
          (m >>= or_else (try_times rounds (barrier_once token base next_seq))) s)
        h

  over :
      (rounds fuel : ℕ) (e : Event) (es : List Event) (s : Server)
      → listen (suc fuel) (barrier_reply token base next_seq) (record s { events = e ∷ es })
        ≡ (returned none, record s { events = es })
      → searching (suc rounds) (suc fuel) (record s { events = e ∷ es })
        ≡ searching rounds (suc (length es)) (record (asked token s) { events = es })
  unfolding or_else
  over rounds fuel e es s h =
      >>=-returned (listen (suc fuel) (barrier_reply token base next_seq))
        (or_else (try_times (suc rounds) (barrier_once token base next_seq))) _ _ _ h
      ∙ barred rounds es s

  module _ (text number : String) (late : Bool) (more : List Event)
      (e : split text ≡ "RESUME" ∷ token ∷ number ∷ []) (decimal : is_decimal number ≡ true)
      (low : base ≤ int number) (high : int number ≤ next_seq) where
    abbrev Found : ℕ → Server → Outcome (Option ℕ) × Server → Type 0
    Found n s p = IsFound token (some (int number)) n more s p

    resume_settles :
        (rounds fuel : ℕ) (s : Server)
        → Found 0 s
            (searching rounds (suc fuel) (record s { events = coming token text late more [] }))
    unfolding events_of or_else
    resume_settles rounds fuel s =
        subst (Found 0 s)
          (sym (
            >>=-returned (listen (suc fuel) (barrier_reply token base next_seq))
              (or_else (try_times rounds (barrier_once token base next_seq))) _ _ _
              (listen-settled (barrier_reply token base next_seq) fuel text late more s (int number)
                (resume-ne-rmb text (token ∷ number ∷ []) e)
                (resume-found token number base next_seq (split text) (record s { events = more }) e
                  decimal low high))))
          (record { outcome = refl; events = refl; sent = sym (append-nil s.sent) })

    -- a setback that ends its round, and one that does not
    next_round :
        (b : Setback token) (es : List Event) (n rounds fuel : ℕ) (s : Server)
        → is_over b ≡ true
        → Found n
            (asked token s)
            (searching rounds (suc (length es)) (record (asked token s) { events = es }))
        → Found
            (suc n)
            s
            (searching (suc rounds) (suc fuel) (record s { events = event_of b ∷ es }))
    unfolding after_verdict
    next_round b es n rounds fuel s h rest =
        subst (Found (suc n) s)
          (sym (
            over rounds fuel (event_of b) es s
              (rw h at (listen-Setback base next_seq b fuel es s))))
          (IsFound-suc token (some (int number)) n more s _ rest)

    same_round :
        (b : Setback token) (es : List Event) (n rounds fuel : ℕ) (s : Server)
        → is_over b ≡ false
        → Found n s (searching rounds fuel (record s { events = es }))
        → Found n s (searching rounds (suc fuel) (record s { events = event_of b ∷ es }))
    unfolding after_verdict
    same_round b es n rounds fuel s h rest =
        subst (Found n s)
          (sym
            (on rounds fuel (event_of b) es s (rw h at (listen-Setback base next_seq b fuel es s))))
          rest

    searching-Found :
        (setbacks : List (Setback token)) (rounds fuel : ℕ) (s : Server)
        → overs setbacks ≤ rounds
        → length setbacks < fuel
        → Found
            (overs setbacks)
            s
            (searching rounds fuel (record s { events = coming token text late more setbacks }))
    unfolding events_of overs
    searching-Found setbacks rounds zero s few lt = absurd (omega arith)
    searching-Found [] rounds (suc fuel) s few lt = resume_settles rounds fuel s
    searching-Found (b ∷ setbacks) zero (suc fuel) s few lt =
        let es = coming token text late more setbacks in
        elim (Bool-cases (is_over b)) [
          | inl ends ↦ absurd (let few' = rw ends at few in omega arith)
          | inr stays ↦ rw stays (
              same_round b es (overs setbacks) zero fuel s stays
                (searching-Found setbacks zero fuel s (rw stays at few) (omega arith)))
        ]
    searching-Found (b ∷ setbacks) (suc rounds) (suc fuel) s few lt =
        let es = coming token text late more setbacks in
        elim (Bool-cases (is_over b)) [
          | inl ends ↦ rw ends (
              next_round b es (overs setbacks) rounds fuel s ends (
                searching-Found setbacks rounds (suc (length es)) (asked token s)
                  (let few' = rw ends at few in omega arith)
                  (omega (arith, length-coming token text late more setbacks))))
          | inr stays ↦ rw stays (
              same_round b es (overs setbacks) (suc rounds) fuel s stays
                (searching-Found setbacks (suc rounds) fuel s (rw stays at few) (omega arith)))
        ]

-- the token of the next recovery
abbrev pub token_of : Server → String
token_of s = str (s.barrier_id + 1)

-- Whatever silence, delayed answers and RESUMEs of other tokens come first, where they use up no more
-- deadlines than retransmits are allowed: where the RESUME of this recovery comes then, with a
-- sequence number from `base` to `next_seq`, `recover_window` returns the number, has sent the BARRIER
-- once and again for each deadline, and has read no further.
pub recover_window-IsFound :
    (base next_seq : ℕ) (s : Server) (setbacks : List (Setback (token_of s))) (text number : String)
    (late : Bool) (more : List Event)
    → overs setbacks ≤ s.max_retries
    → split text ≡ "RESUME" ∷ token_of s ∷ number ∷ []
    → is_decimal number ≡ true
    → base ≤ int number
    → int number ≤ next_seq
    → IsFound (token_of s) (int number) (suc (overs setbacks)) more s (
        recover_window base next_seq
          (record s { events = coming (token_of s) text late more setbacks }))
unfolding recover_window next_token
recover_window-IsFound base next_seq s setbacks text number late more few e decimal low high =
    IsFound-settle (token_of s) (int number) (suc (overs setbacks)) more s
      (record next { events = coming (token_of s) text late more setbacks }) (raise Kind.timeout)
      (try_times (s.max_retries + 1) (barrier_once (token_of s) base next_seq))
      (record { outcome = tried.outcome; events = tried.events; sent = tried.sent })
  where
    next : Server
    next = record s { barrier_id = s.barrier_id + 1 }

    found :
        IsFound (token_of s) (some (int number)) (overs setbacks) more (asked (token_of s) next) (
          searching
            (token_of s)
            base
            next_seq
            s.max_retries
            (suc (length (coming (token_of s) text late more setbacks)))
            (record (asked (token_of s) next) {
              events = coming (token_of s) text late more setbacks;
            }))
    found =
        searching-Found (token_of s) base next_seq text number late more e decimal low high setbacks
          s.max_retries (suc (length (coming (token_of s) text late more setbacks)))
          (asked (token_of s) next) few
          (omega (arith, length-coming (token_of s) text late more setbacks))

    tried : IsFound (token_of s) (some (int number)) (suc (overs setbacks)) more next (
        try_times
          (s.max_retries + 1)
          (barrier_once (token_of s) base next_seq)
          (record next { events = coming (token_of s) text late more setbacks }))
    tried =
        let e' : suc s.max_retries ≡ s.max_retries + 1 = omega arith in
        subst
          (λ n. IsFound (token_of s) (some (int number)) (suc (overs setbacks)) more next (
            try_times n (barrier_once (token_of s) base next_seq)
              (record next { events = coming (token_of s) text late more setbacks })))
          e'
          (subst (IsFound (token_of s) (some (int number)) (suc (overs setbacks)) more next)
            (sym (
              barred (token_of s) base next_seq s.max_retries
                (coming (token_of s) text late more setbacks) next))
            (IsFound-suc (token_of s) (some (int number)) (overs setbacks) more next _ found))
