-- ===== src/Base/Words.antt =====
-- A line of tokens is split into its tokens.
use Prim.Native.String.append
use mathlib.Core.Bool.{false}
use mathlib.Core.List.{List, [], ◌∷◌}
use mathlib.Core.Path.{◌≡◌, refl, ap}
use pcutp.Base.Text.{is_space, cut_word, add_word, split, ◌<+>◌, join_from, unwords}
use Prim.Native.String.{String}

abbrev pub HasNoSpace : String → Type 0
HasNoSpace String.[] = Unit
HasNoSpace (String.◌∷◌ c s) = (is_space c ≡ false) × HasNoSpace s

-- A word has a character, and none of white space.
abbrev pub IsWord : String → Type 0
IsWord String.[] = ⊥
IsWord (String.◌∷◌ c s) = (is_space c ≡ false) × HasNoSpace s

abbrev pub AreWords : List String → Type 0
AreWords [] = Unit
AreWords (w ∷ ws) = IsWord w × AreWords ws

cut_word-blank : (w s : String) → HasNoSpace w → cut_word (w <+> (" " <+> s)) ≡ (w, split s)
unfolding cut_word ◌<+>◌ split is_space
cut_word-blank String.[] s h = rw (append.nil, append.cons, append.nil)
cut_word-blank (String.◌∷◌ c w) s (h, hs) = simp append.cons (rw (h, cut_word-blank w s hs))

cut_word_self : (w : String) → HasNoSpace w → cut_word w ≡ (w, [])
unfolding cut_word
cut_word_self String.[] h = refl
cut_word_self (String.◌∷◌ c w) (h, hs) = rw (h, cut_word_self w hs)

add_word-IsWord : (w : String) (ws : List String) → IsWord w → add_word w ws ≡ w ∷ ws
unfolding add_word
add_word-IsWord String.[] ws h = absurd h
add_word-IsWord (String.◌∷◌ c w) ws h = refl

IsWord-HasNoSpace : (w : String) → IsWord w → HasNoSpace w
IsWord-HasNoSpace String.[] h = absurd h
IsWord-HasNoSpace (String.◌∷◌ c w) h = h

split-join_from :
    (w : String) (ws : List String) → IsWord w → AreWords ws → split (join_from w ws) ≡ w ∷ ws
unfolding split join_from
split-join_from w [] h hs = rw (cut_word_self w (IsWord-HasNoSpace w h)) (add_word-IsWord w [] h)
split-join_from w (v ∷ vs) h (hv, hvs) =
    rw (cut_word-blank w (join_from v vs) (IsWord-HasNoSpace w h)) (
      rw (add_word-IsWord w (split (join_from v vs)) h)
        (ap (λ r. w ∷ r) (split-join_from v vs hv hvs)))

-- Tokens that are joined by blanks are split again.
pub split-unwords : (ws : List String) → AreWords ws → split (unwords ws) ≡ ws
unfolding unwords
split-unwords [] h = unfold split in refl
split-unwords (w ∷ ws) (h, hs) = split-join_from w ws h hs
