-- ===== src/Utils/Tokens.antt =====
-- src/utils.c: `get_toks`, the words of a request.
pub mod Words
use cs356_mini_file_system.Base.{Bool, List, [], false, if◌then◌else◌, true, ℕ, ◌-◌, ◌==◌, ◌∷◌}
use cs356_mini_file_system.Utils.Text.{Text}
use cs356_mini_file_system.Utils.Decimal.{is_space}

-- The loop of `get_toks` with room for `room` more tokens. The flag is `state`; the result is the
-- rest of the token that the loop stands in, and the tokens behind it.
unfoldable pub scan_toks : ℕ → Bool → Text → Text × List Text
scan_toks room inside [] = ([], [])
scan_toks room false (c ∷ str) =
    let outside = scan_toks room false str in
    let rest = scan_toks (room - 1) true str in
    if is_space c
    then outside
    else if room == 1
    then ([], (c ∷ str) ∷ [])
    else ([], (c ∷ rest.0) ∷ rest.1)
scan_toks room true (c ∷ str) =
    let outside = scan_toks room false str in
    let rest = scan_toks room true str in
    if is_space c then ([], outside.1) else (c ∷ rest.0, rest.1)

-- `get_toks(str, toks, size_of_toks)`: the strings at the pointers before the NULL
unfoldable pub get_toks : Text → ℕ → List Text
get_toks str size = (scan_toks (size - 1) false str).1
