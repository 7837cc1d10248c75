-- ===== src/Utils/Decimal.antt =====
-- src/utils.c: `itoa`, and the `atoi` that the programs read numbers with.
pub mod RoundTrip
use cs356_mini_file_system.Base.{
  Bool, [], false, if◌then◌else◌, leb, ltb, suc, true, zero, ℕ, ◌%◌, ◌&&◌, ◌*◌, ◌+◌, ◌-◌, ◌/◌, ◌==◌,
  ◌^◌, ◌||◌, ◌∷◌,
}
use cs356_mini_file_system.Utils.Text.{Text}

-- `while (val > 0) { digs[len++] = '0'+(val%10); val /= 10; }` and the loop that writes the digits
-- from the last, in front of `out`; `digs` has twenty places
unfoldable pub digits : ℕ → ℕ → Text → Text
digits zero val out = out
digits (suc room) val out = elim (val == 0) [
  | true ↦ out
  | false ↦ digits room (val / 10) ((48 + val % 10) ∷ out)
]

-- what `itoa` appends to the string; `val` is the bit pattern of a `long`
unfoldable pub itoa : ℕ → Text
itoa val =
    if val == 0
    then 48 ∷ []
    else if ltb val (2 ^ 63)
    then digits 20 val []
    else 45 ∷ digits 20 (2 ^ 64 - val) []

-- an `int` as a `long`
abbrev pub to_long : ℕ → ℕ
to_long w = if ltb w (2 ^ 31) then w else w + (2 ^ 64 - 2 ^ 32)

abbrev pub is_digit : ℕ → Bool
is_digit c = leb 48 c && leb c 57

-- the number that the digits spell behind `val`, up to the first other character
unfoldable pub read_digits : Text → ℕ → ℕ
read_digits [] val = val
read_digits (c ∷ s) val = if is_digit c then read_digits s (val * 10 + (c - 48)) else val

-- `isspace` in the C locale
abbrev pub is_space : ℕ → Bool
is_space c = c == 32 || (leb 9 c && leb c 13)

-- the sign and the digits of `atoi`
unfoldable pub read_signed : Text → ℕ
read_signed [] = 0
read_signed (c ∷ s) =
    if c == 45
    then (2 ^ 32 - read_digits s 0) % 2 ^ 32
    else if c == 43
    then read_digits s 0
    else read_digits (c ∷ s) 0

-- `atoi` on a text whose number fits an `int`, as the bit pattern of that `int`
unfoldable pub atoi : Text → ℕ
atoi [] = 0
atoi (c ∷ s) = if is_space c then atoi s else read_signed (c ∷ s)
