-- ===== src/Utils/Tokens/Words.antt =====
-- src/utils.c: `get_toks` on words with blanks between them.
use cs356_mini_file_system.Base.{
  ==_ne, All, List, [], ap, arith, false, length, refl, true, ℕ, ◌++◌, ◌+◌, ◌-◌, ◌<◌, ◌∷◌, ◌≡◌, ◌≢◌,
}
use cs356_mini_file_system.Utils.Text.{Text}
use cs356_mini_file_system.Utils.Decimal.{is_space}
use cs356_mini_file_system.Utils.Tokens.{get_toks, scan_toks}

-- No character of the word is a space.
abbrev pub NoSpace : Text → Type 0
NoSpace = All (λ c. is_space c ≡ false)

abbrev pub IsWord : Text → Type 0
IsWord word = (word ≢ []) × NoSpace word

-- the words with one blank between two of them
unfoldable pub unwords : List Text → Text
unwords [] = []
unwords (w ∷ []) = w
unwords (w ∷ v ∷ ws) = w ++ 32 ∷ unwords (v ∷ ws)

-- the rest of a token up to a blank
scan_toks-word :
    (room : ℕ) (w : Text) (rest : Text)
    → NoSpace w
    → scan_toks room true (w ++ 32 ∷ rest) ≡ (w, (scan_toks room false rest).1)
unfolding scan_toks
scan_toks-word room [] rest h = refl
scan_toks-word room (c ∷ w) rest h = rw (h.0, scan_toks-word room w rest h.1)

scan_toks_last : (room : ℕ) (w : Text) → NoSpace w → scan_toks room true w ≡ (w, [])
unfolding scan_toks
scan_toks_last room [] h = refl
scan_toks_last room (c ∷ w) h = rw (h.0, scan_toks_last room w h.1)

scan_toks-unwords :
    (room : ℕ) (ws : List Text)
    → All IsWord ws
    → length ws < room
    → scan_toks room false (unwords ws) ≡ ([], ws)
unfolding scan_toks unwords
scan_toks-unwords room [] h lt = refl
scan_toks-unwords room ([] ∷ ws) h lt = absurd (h.0.0 refl)
scan_toks-unwords room ((c ∷ w) ∷ []) h lt =
    let (c_is, w_is) = h.0.1 in
    rw (c_is, ==_ne room 1 (omega arith), scan_toks_last (room - 1) w w_is)
scan_toks-unwords room ((c ∷ w) ∷ v ∷ ws) h lt =
    let (c_is, w_is) = h.0.1 in
    rw (
      c_is,
      ==_ne room 1 (omega arith),
      scan_toks-word (room - 1) w (unwords (v ∷ ws)) w_is,
      scan_toks-unwords (room - 1) (v ∷ ws) h.1 (omega arith),
    )

-- Words with single blanks between them are the tokens, if there are at most `size - 2` of them.
pub get_toks-unwords :
    (size : ℕ) (ws : List Text)
    → All IsWord ws
    → length ws + 1 < size
    → get_toks (unwords ws) size ≡ ws
unfolding get_toks
get_toks-unwords size ws h lt =
    ap (λ (p : Text × List Text). p.1) (scan_toks-unwords (size - 1) ws h (omega arith))
