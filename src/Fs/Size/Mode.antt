-- ===== src/Fs/Size/Mode.antt =====
-- src/fs_lib.c: `show_mode` and the octal digits of the mode.
use cs356_mini_file_system.Utils.Text.{Text}
use cs356_mini_file_system.Base.{
  Bool, [], ap₂, arith, if◌then◌else◌, refl, ℕ, ◌%◌, ◌+◌, ◌^◌, ◌++◌, ◌/◌, ◌==◌, ◌∷◌, ◌≡◌,
}
use cs356_mini_file_system.Fs.Size.{right_of, show_bits, show_mode}

-- a right that is given or not
abbrev right : ℕ → ℕ → ℕ
right bit ch = if bit == 1 then ch else 45

-- an octal digit as its rights: 4 to read (`r`), 2 to write (`w`) and 1 to execute (`x`)
abbrev pub rights : ℕ → Text
rights digit = right (digit / 4) 114 ∷ right (digit / 2 % 2) 119 ∷ right (digit % 2) 120 ∷ []

-- three bits of the mode and the octal digit that they are
show_bits-rights :
    (n mode digit : ℕ)
    → mode / 2 ^ (n + 2) % 2 ≡ digit / 4
    → mode / 2 ^ (n + 1) % 2 ≡ digit / 2 % 2
    → mode / 2 ^ n % 2 ≡ digit % 2
    → right (mode / 2 ^ (n + 2) % 2) 114
        ∷ right (mode / 2 ^ (n + 1) % 2) 119
        ∷ right (mode / 2 ^ n % 2) 120
        ∷ []
      ≡ rights digit
show_bits-rights n mode digit r w x = rw (r, w, x) refl

-- `show_mode` prints `d` for a directory and `-` for a file, and then the rights of the three
-- lowest octal digits of the mode, the highest of them first.
pub show_mode-rights :
    (d : Bool) (mode : ℕ)
    → show_mode d mode
      ≡ (if d then 100 else 45)
        ∷ (rights (mode / 64 % 8) ++ rights (mode / 8 % 8) ++ rights (mode % 8))
unfolding show_mode show_bits right_of
show_mode-rights d mode =
    ap₂ (λ user others. (if d then 100 else 45) ∷ (user ++ others))
      (show_bits-rights 6 mode (mode / 64 % 8) (omega arith) (omega arith) (omega arith))
      (ap₂ (λ group others. group ++ others)
        (show_bits-rights 3 mode (mode / 8 % 8) (omega arith) (omega arith) (omega arith))
        (show_bits-rights 0 mode (mode % 8) (omega arith) (omega arith) (omega arith)))
