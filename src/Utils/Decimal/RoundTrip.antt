-- ===== src/Utils/Decimal/RoundTrip.antt =====
-- src/utils.c: the number that `itoa` prints, as `atoi` reads it.
use cs356_mini_file_system.Base.{
  ==_iff, Bool-cases, [], ap, arith, false, inl, inr, lt→ltb, pow-suc, pow-zero, refl, suc, sym,
  true, zero, ℕ, ◌%◌, ◌+◌, ◌/◌, ◌<◌, ◌==◌, ◌^◌, ◌∙◌, ◌∷◌, ◌≡◌,
}
use cs356_mini_file_system.Utils.Text.{Text}
use cs356_mini_file_system.Utils.Decimal.{atoi, digits, is_digit, itoa, read_digits, read_signed}

-- reading the last digit of `val` behind the others gives `val`
read_last :
    (val : ℕ) (out : Text) → read_digits ((48 + val % 10) ∷ out) (val / 10) ≡ read_digits out val
unfolding read_digits
read_last val out = ground arith

read_digits-digits :
    (room val : ℕ) (out : Text)
    → val < 10 ^ room
    → read_digits (digits room val out) 0 ≡ read_digits out val
unfolding digits
read_digits-digits zero val out h = ap (read_digits out) (omega (arith, pow-zero 10))
read_digits-digits (suc room) val out h = elim (Bool-cases (val == 0)) [
  | inl z ↦ rw (z, digits) (ap (read_digits out) (sym ((==_iff val 0).0 z)))
  | inr nz ↦
      rw (nz, digits)
        (read_digits-digits room (val / 10) ((48 + val % 10) ∷ out) (omega (arith, pow-suc 10 room))
          ∙ read_last val out)
]

-- a text that starts with a digit
abbrev StartsDigit : Text → Type 0
StartsDigit [] = ⊥
StartsDigit (c ∷ s) = is_digit c ≡ true

digits-StartsDigit :
    (room val : ℕ) (out : Text) → StartsDigit out → StartsDigit (digits room val out)
unfolding digits
digits-StartsDigit zero val out h = h
digits-StartsDigit (suc room) val out h = elim (Bool-cases (val == 0)) [
  | inl z ↦ rw (z, digits) h
  | inr nz ↦
      rw (nz, digits) (digits-StartsDigit room (val / 10) ((48 + val % 10) ∷ out) (ground arith))
]

atoi-read_digits : (s : Text) → StartsDigit s → atoi s ≡ read_digits s 0
unfolding atoi read_signed
atoi-read_digits [] h = absurd h
atoi-read_digits (c ∷ s) h = ground arith

-- with a positive number there is at least one digit
first_digit : (room val : ℕ) → (val == 0) ≡ false → StartsDigit (digits (suc room) val [])
unfolding digits
first_digit room val nz =
    rw (nz, digits) (digits-StartsDigit room (val / 10) ((48 + val % 10) ∷ []) (ground arith))

itoa-digits : (val : ℕ) → (val == 0) ≡ false → val < 2 ^ 63 → itoa val ≡ digits 20 val []
unfolding itoa
itoa-digits val nz h = rw (nz, lt→ltb val (2 ^ 63) h)

-- What `itoa` prints of a number below 2 ^ 31 is read back by `atoi`.
pub atoi-itoa : (val : ℕ) → val < 2 ^ 31 → atoi (itoa val) ≡ val
unfolding read_digits
atoi-itoa val h = elim (Bool-cases (val == 0)) [
  | inl z ↦ let e : val ≡ 0 = (==_iff val 0).0 z in rw e (unfold itoa atoi read_signed in refl)
  | inr nz ↦
      ap atoi (itoa-digits val nz (omega arith))
      ∙ atoi-read_digits (digits 20 val []) (first_digit 19 val nz)
      ∙ read_digits-digits 20 val [] (omega arith)
]
