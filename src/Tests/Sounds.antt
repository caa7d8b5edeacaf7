-- ===== src/Tests/Sounds.antt =====
-- The player, and the sounds of control lines.
use pcutp.Base.{
  ℕ, ◌+◌, ◌*◌, ◌≡◌, refl, arith, true, false, none, some, List, [], ◌∷◌, Bytes, length, replicate,
}
use pcutp.Base.Int.{pos, negsuc, ◌≤ℤ◌}
use pcutp.Base.Slices.{slice}
use pcutp.Sound.Words.{lookup, pitch}
use pcutp.Sound.Clips.{Tone}
use pcutp.Sound.Samples.{mix}
use pcutp.Sound.Fading.{AreBytes, mix_between}
use pcutp.Sound.Player.{Player, Slot, initial, is_last, ljust, pump}
use pcutp.Sound.Chunks.{taken, pump-whole}
use pcutp.Sound.Gapless.{pump_sound}
use pcutp.Sound.Newest.{silent, voices, given, pump-voices}
use pcutp.Sound.Voices.{Sound, first_word, line}
use pcutp.Sound.Voiced.{started, IsVoiced, line_lem}
use pcutp.Sound.Turns.{Turn, voice_turns, two_pitches, voice_turns-two_pitches}

-- a loud sample gives way to a low one
mix_between_example :
    (negsuc 32767 ≤ℤ pos 32767
      → (negsuc 32767 ≤ℤ mix 40 (negsuc 32767) (pos 32767))
        × (mix 40 (negsuc 32767) (pos 32767) ≤ℤ pos 32767))
    × (pos 32767 ≤ℤ negsuc 32767
        → (pos 32767 ≤ℤ mix 40 (negsuc 32767) (pos 32767))
          × (mix 40 (negsuc 32767) (pos 32767) ≤ℤ negsuc 32767))
mix_between_example = mix_between 40 (negsuc 32767) (pos 32767) (omega arith)

-- a sound of 600 bytes
abbrev beep : Bytes
beep = replicate 600 77

-- a round in which the sound is asked for, and one in which the device stalls
abbrev rounds : List Slot
rounds =
    record { asked = (5, 1 ∷ 2 ∷ []) ∷ (7, 200 ∷ 255 ∷ []) ∷ []; now = 9; writable = true }
    ∷ record { asked = []; now = 20; writable = false }
    ∷ []

pump-whole_example :
    (given : Bytes) × (p : Player) × (pump rounds initial ≡ some (given, p))
    × (length given ≡ 440 * taken rounds)
    × AreBytes given
pump-whole_example = pump-whole rounds (omega arith)

abbrev beeping : Player
beeping = record {
  event = some (record { name = 0; when = 3; pcm = beep });
  next_name = 1;
  last_rendered = some 0;
  current_pcm = beep;
  position = 440;
  rendered_events = 1;
  max_render_delay = 2;
}

abbrev quiet_rounds : List Slot
quiet_rounds =
    record { asked = []; now = 20; writable = true }
    ∷ record { asked = []; now = 50; writable = true }
    ∷ []

beeping_last : is_last (record { name = 0; when = 3; pcm = beep }) beeping ≡ true
unfolding is_last
beeping_last = refl

pump_sound_example :
    pump quiet_rounds beeping
    ≡ some (
      ljust (440 * length quiet_rounds) (slice 440 (440 * length quiet_rounds) beep),
      record beeping { position = 440 + 440 * length quiet_rounds },
    )
pump_sound_example =
    pump_sound quiet_rounds (record { name = 0; when = 3; pcm = beep }) beeping
      (refl, refl, (refl, refl, tt)) refl beeping_last

-- a sound, two more while it plays, and one that comes too late
abbrev busy_rounds : List Slot
busy_rounds =
    record { asked = (7, beep) ∷ []; now = 9; writable = true }
    ∷ record { asked = (20, 200 ∷ 255 ∷ []) ∷ (30, 3 ∷ 4 ∷ []) ∷ []; now = 40; writable = true }
    ∷ record { asked = (50, 3 ∷ 4 ∷ []) ∷ []; now = 5000000; writable = true }
    ∷ []

pump-voices_example :
    given (pump busy_rounds initial)
    ≡ voices busy_rounds (record { phase = silent; current_pcm = []; position = 0 })
pump-voices_example = pump-voices busy_rounds

-- two bytes for each tone
abbrev synth : Tone → Bytes
synth tone = 1 ∷ 2 ∷ []

abbrev voice : Sound
voice = record { enabled = true; dictionaries = started; blip = 0; player = initial }

line_lem_example :
    (lookup (first_word "WHO? 0") pitch ≡ none → line synth 5 "WHO? 0" true voice ≡ voice)
    × ((hz : ℕ)
        → lookup (first_word "WHO? 0") pitch ≡ some hz
        → IsVoiced synth 5 voice (line synth 5 "WHO? 0" true voice))
line_lem_example = line_lem synth 5 voice refl refl "WHO? 0" true

who_silent : lookup (first_word "WHO? 0") pitch ≡ none
unfolding first_word lookup
who_silent = refl

iam_silent : lookup (first_word "IAM 0 TYPE=PICOCALC") pitch ≡ none
unfolding first_word lookup
iam_silent = refl

-- a plain block and a packed one, from an odd counter
abbrev turns : List Turn
turns =
    record {
      packed = false;
      sent = "DATA 0 2 0000002A";
      sent_at = 4;
      acked = "ACK 0";
      acked_at = 8;
    }
    ∷ record {
      packed = true;
      sent = "ZDATA 1 9 64 0000002A";
      sent_at = 14;
      acked = "ACK 1";
      acked_at = 18;
    }
    ∷ []

abbrev odd_voice : Sound
odd_voice = record voice { blip = 3 }

words :
    (first_word "DATA 0 2 0000002A" ≡ "DATA")
    × (first_word "ACK 0" ≡ "ACK")
    × (first_word "ZDATA 1 9 64 0000002A" ≡ "ZDATA")
    × (first_word "ACK 1" ≡ "ACK")
unfolding first_word
words = (refl, refl, refl, refl)

voice_turns-two_pitches_example :
    (voice_turns synth turns odd_voice).player ≡ two_pitches synth false turns initial
voice_turns-two_pitches_example =
    voice_turns-two_pitches synth turns false odd_voice (record { on = refl; dictionaries = refl })
      refl (words.0, words.1, (words.2, words.3, tt))
