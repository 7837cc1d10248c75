-- ===== src/DiskMgr/Numbers.antt =====
-- src/utils.c: a number as a word of a request.
use cs356_mini_file_system.Base.{
  Bool, Bool-cases, inl, inr, zero, suc, lt→ltb, [], ap, arith, length, true, refl, ℕ, ◌%◌, ◌^◌,
  ◌/◌, ◌==◌, ◌≤◌, ◌+◌, ◌&&◌, ◌<◌, ◌∷◌, ◌≡◌,
}
use cs356_mini_file_system.Utils.Text.{IsText, Text}
use cs356_mini_file_system.Utils.Decimal.{digits, is_digit, itoa}
use cs356_mini_file_system.Utils.Tokens.Words.{IsWord, NoSpace}

-- Are these all digits?
unfoldable all_digits : Text → Bool
all_digits [] = true
all_digits (c ∷ s) = is_digit c && all_digits s

all_digits-NoSpace : (s : Text) → all_digits s ≡ true → NoSpace s
unfolding all_digits
all_digits-NoSpace [] h = tt
all_digits-NoSpace (c ∷ s) h = (ground arith, all_digits-NoSpace s (ground arith))

all_digits-IsText : (s : Text) → all_digits s ≡ true → IsText s
unfolding all_digits
all_digits-IsText [] h = tt
all_digits-IsText (c ∷ s) h = (ground arith, all_digits-IsText s (ground arith))

is_digit_of : (n : ℕ) → is_digit (48 + n % 10) ≡ true
is_digit_of n = ground arith

-- what `digits` puts in front of `out`
all_digits-digits :
    (room val : ℕ) (out : Text) → all_digits out ≡ true → all_digits (digits room val out) ≡ true
unfolding digits all_digits
all_digits-digits zero val out h = h
all_digits-digits (suc room) val out h = elim (Bool-cases (val == 0)) [
  | inl z ↦ rw (z, digits) h
  | inr nz ↦
      rw (nz, digits)
        (all_digits-digits room (val / 10) ((48 + val % 10) ∷ out) (rw (is_digit_of val) h))
]

length-digits : (room val : ℕ) (out : Text) → length (digits room val out) ≤ room + length out
unfolding digits
length-digits zero val out = omega arith
length-digits (suc room) val out = elim (Bool-cases (val == 0)) [
  | inl z ↦ rw (z, digits) (omega arith)
  | inr nz ↦ rw (nz, digits) (omega (arith, length-digits room (val / 10) ((48 + val % 10) ∷ out)))
]

digits-longer : (room val : ℕ) (out : Text) → length out ≤ length (digits room val out)
unfolding digits
digits-longer zero val out = omega arith
digits-longer (suc room) val out = elim (Bool-cases (val == 0)) [
  | inl z ↦ rw (z, digits) (omega arith)
  | inr nz ↦ rw (nz, digits) (omega (arith, digits-longer room (val / 10) ((48 + val % 10) ∷ out)))
]

-- the digits of a number
record Digits (s : Text) : Type 0 where
  digits_only : all_digits s ≡ true
  present : 0 < length s
  short : length s < 21

itoa-Digits : (n : ℕ) → n < 2 ^ 31 → Digits (itoa n)
unfolding itoa digits all_digits
itoa-Digits n h = elim (Bool-cases (n == 0)) [
  | inl z ↦ rw z (record { digits_only = refl; present = omega arith; short = omega arith })
  | inr nz ↦
      rw (nz, lt→ltb n (2 ^ 63) (omega arith), digits)
        (record {
          digits_only = all_digits-digits 19 (n / 10) ((48 + n % 10) ∷ []) (ground arith);
          present = omega (arith, digits-longer 19 (n / 10) ((48 + n % 10) ∷ []));
          short = omega (arith, length-digits 19 (n / 10) ((48 + n % 10) ∷ []));
        })
]

pub record IsNumber (n : ℕ) : Type 0 where
  pub word : IsWord (itoa n)
  pub text : IsText (itoa n)
  pub short : length (itoa n) < 21

pub itoa-IsNumber : (n : ℕ) → n < 2 ^ 31 → IsNumber n
itoa-IsNumber n h =
    let ds = itoa-Digits n h in
    record {
      word = (
        (λ e. let z : length (itoa n) ≡ 0 = ap (λ l. length l) e in omega (arith, z, ds.present)),
        all_digits-NoSpace (itoa n) ds.digits_only,
      );
      text = all_digits-IsText (itoa n) ds.digits_only;
      short = ds.short;
    }
