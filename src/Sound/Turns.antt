-- ===== src/Sound/Turns.antt =====
-- The two pitches of a block's words in src/pcutp/sound.py, where blocks and acknowledgements take
-- turns.
use pcutp.Base.{
  ℕ, not, ◌+◌, ◌%◌, ◌≡◌, refl, sym, ap, ◌∙◌, arith, Bool, true, false, none, some, List, [], ◌∷◌,
  String, Bytes, ◌==◌, if◌then◌else◌,
}
use mathlib.Core.Path.{subst}
use pcutp.Sound.Words.{lookup}
use pcutp.Sound.Clips.{Tone, Clip, triangle, Dictionaries}
use pcutp.Sound.Player.{Player, push}
use pcutp.Sound.Voices.{Sound, first_word, rendered, push_clip, say_block, say_word, line}
use pcutp.Sound.Voiced.{started, morse_of, spoken}

-- a block, packed or not, and its acknowledgement, with the times at which they are voiced
pub record Turn : Type 0 where
  pub packed : Bool
  pub sent : String
  pub sent_at : ℕ
  pub acked : String
  pub acked_at : ℕ

-- a player that is on and has been started
pub record IsReady (s : Sound) : Type 0 where
  pub on : s.enabled ≡ true
  pub dictionaries : s.dictionaries ≡ started

-- the pitch of a block's line, and of an acknowledgement, for a counter that is odd before the block
-- or even
unfoldable pub block_hz : Bool → Bool → ℕ
block_hz even true = if even then 415 else 427
block_hz even false = if even then 392 else 403

unfoldable pub ack_hz : Bool → ℕ
ack_hz even = if even then 453 else 440

module _ (synth : Tone → Bytes) where
  unfoldable pub voice_turns : List Turn → Sound → Sound
  voice_turns [] s = s
  voice_turns (t ∷ turns) s =
      voice_turns turns (line synth t.acked_at t.acked false (line synth t.sent_at t.sent true s))

  -- each block and each acknowledgement at the pitch that it has for this parity, which stays
  unfoldable pub two_pitches : Bool → List Turn → Player → Player
  unfolding block_hz ack_hz
  two_pitches even [] p = p
  two_pitches even (t ∷ turns) p = two_pitches even turns (
      push t.acked_at (rendered synth (triangle (ack_hz even) 12 ∷ []))
        (push t.sent_at (rendered synth (triangle (block_hz even t.packed) 12 ∷ [])) p))

  abbrev pub AreTurns : List Turn → Type 0
  AreTurns [] = Unit
  AreTurns (t ∷ turns) =
      (first_word t.sent ≡ (if t.packed then "ZDATA" else "DATA"))
      × (first_word t.acked ≡ "ACK")
      × AreTurns turns

  -- a word of a block, with its two sounds
  said :
      (now : ℕ) (text word : String) (tx : Bool) (even odd : Clip) (s : Sound)
      → s.enabled ≡ true
      → s.dictionaries ≡ started
      → first_word text ≡ word
      → lookup word (morse_of tx started) ≡ none
      → lookup word started.alt ≡ some (even, odd)
      → line synth now text tx s ≡ record s {
        player = push now (rendered synth (if s.blip % 2 == 0 then even else odd)) s.player;
        blip = s.blip + 1;
      }
  unfolding say_word say_block push_clip
  said now text word tx even odd s on ready w m a =
      spoken synth now s on ready text tx ∙ rw (w, m, alt, on) refl
    where
      alt : lookup word s.dictionaries.alt ≡ some (even, odd)
      alt = subst (λ (d : Dictionaries). lookup word d.alt ≡ some (even, odd)) (sym ready) a

  block_said :
      (now : ℕ) (text : String) (packed even : Bool) (s : Sound)
      → IsReady s
      → (s.blip % 2 == 0) ≡ even
      → first_word text ≡ (if packed then "ZDATA" else "DATA")
      → line synth now text true s ≡ record s {
        player = push now (rendered synth (triangle (block_hz even packed) 12 ∷ [])) s.player;
        blip = s.blip + 1;
      }
  unfolding started morse_of lookup block_hz
  block_said now text false true s r e w =
      said now text "DATA" true (triangle 392 12 ∷ []) (triangle 403 12 ∷ []) s r.on r.dictionaries
        w refl refl
      ∙ rw e refl
  block_said now text false false s r e w =
      said now text "DATA" true (triangle 392 12 ∷ []) (triangle 403 12 ∷ []) s r.on r.dictionaries
        w refl refl
      ∙ rw e refl
  block_said now text true true s r e w =
      said now text "ZDATA" true (triangle 415 12 ∷ []) (triangle 427 12 ∷ []) s r.on r.dictionaries
        w refl refl
      ∙ rw e refl
  block_said now text true false s r e w =
      said now text "ZDATA" true (triangle 415 12 ∷ []) (triangle 427 12 ∷ []) s r.on r.dictionaries
        w refl refl
      ∙ rw e refl

  -- behind a block the counter has the other parity, and behind its acknowledgement the old one
  ack_said :
      (now : ℕ) (text : String) (even : Bool) (s : Sound)
      → IsReady s
      → (s.blip % 2 == 0) ≡ not even
      → first_word text ≡ "ACK"
      → line synth now text false s ≡ record s {
        player = push now (rendered synth (triangle (ack_hz even) 12 ∷ [])) s.player;
        blip = s.blip + 1;
      }
  unfolding started morse_of lookup ack_hz
  ack_said now text true s r e w =
      said now text "ACK" false (triangle 440 12 ∷ []) (triangle 453 12 ∷ []) s r.on r.dictionaries
        w refl refl
      ∙ rw e refl
  ack_said now text false s r e w =
      said now text "ACK" false (triangle 440 12 ∷ []) (triangle 453 12 ∷ []) s r.on r.dictionaries
        w refl refl
      ∙ rw e refl

  other_parity : (n : ℕ) (even : Bool) → (n % 2 == 0) ≡ even → (((n + 1) % 2) == 0) ≡ not even
  other_parity n true h = ground arith
  other_parity n false h = ground arith

  turn_said :
      (t : Turn) (even : Bool) (s : Sound)
      → IsReady s
      → (s.blip % 2 == 0) ≡ even
      → first_word t.sent ≡ (if t.packed then "ZDATA" else "DATA")
      → first_word t.acked ≡ "ACK"
      → line synth t.acked_at t.acked false (line synth t.sent_at t.sent true s) ≡ record s {
        player =
            push t.acked_at (rendered synth (triangle (ack_hz even) 12 ∷ [])) (
              push t.sent_at (rendered synth (triangle (block_hz even t.packed) 12 ∷ [])) s.player);
        blip = s.blip + 1 + 1;
      }
  turn_said t even s r e w w' =
      ap (line synth t.acked_at t.acked false) (block_said t.sent_at t.sent t.packed even s r e w)
      ∙ ack_said t.acked_at t.acked even _ (record { on = r.on; dictionaries = r.dictionaries })
          (other_parity s.blip even e) w'

  -- On a player that is on and started, where blocks, DATA or ZDATA, and acknowledgements take
  -- turns, as with a window of one block: however long the run is, each DATA is voiced at the
  -- same pitch, each ZDATA at the same pitch and each ACK at the same pitch, of the two that it
  -- has. The block's is the first one if the counter is even at the start, and the
  -- acknowledgement's is the other one then; with an odd counter it is the other way round.
  pub voice_turns-two_pitches :
      (turns : List Turn) (even : Bool) (s : Sound)
      → IsReady s
      → (s.blip % 2 == 0) ≡ even
      → AreTurns turns
      → (voice_turns turns s).player ≡ two_pitches even turns s.player
  unfolding voice_turns two_pitches
  voice_turns-two_pitches [] even s r e h = refl
  voice_turns-two_pitches (t ∷ turns) even s r e h =
      ap (λ (q : Sound). (voice_turns turns q).player) (turn_said t even s r e h.0 h.1)
      ∙ voice_turns-two_pitches turns even
          (record s {
            player = push t.acked_at (rendered synth (triangle (ack_hz even) 12 ∷ [])) (
                push t.sent_at (rendered synth (triangle (block_hz even t.packed) 12 ∷ []))
                  s.player);
            blip = s.blip + 1 + 1;
          })
          (record { on = r.on; dictionaries = r.dictionaries })
          (e' even (other_parity (s.blip + 1) (not even) (other_parity s.blip even e))) h.2
    where
      e' : (b : Bool) → ((s.blip + 1 + 1) % 2 == 0) ≡ not (not b) → ((s.blip + 1 + 1) % 2 == 0) ≡ b
      e' true h' = h'
      e' false h' = h'
