-- ===== src/Fs/Size.antt =====
-- src/fs_lib.c: the size of a directory in zones, with all that is below it, and the text of a
-- mode in a listing.
pub mod Mode
use cs356_mini_file_system.Alloc.Bitmap.{d_occupied, i_occupied}
use cs356_mini_file_system.Utils.Text.{Text}
use cs356_mini_file_system.Layout.{Dentry, DirZone, Sub, to_dentry, to_dir_zone, to_inode}
use cs356_mini_file_system.Base.{
  Bool, List, Option, [], false, if◌then◌else◌, ltb, none, some, suc, true, zero, ℕ, ◌%◌, ◌+◌, ◌-◌,
  ◌/◌, ◌==◌, ◌^◌, ◌∷◌,
}
use cs356_mini_file_system.Store.Prog.{Prog, get_state, on_read, out_of_fuel, pure, ◌>>=◌, ◌>>◌}

-- a `signed short` as an `int`
abbrev pub to_int : ℕ → ℕ
to_int w = if ltb w (2 ^ 15) then w else w + (2 ^ 32 - 2 ^ 16)

-- How the loop over the entries ends: with `return size` at a free slot, with `return 0`, or with
-- the size so far when it has run through.
pub data Summed : Type 0 where
  at_free_slot : ℕ → Summed
  failed : Summed
  summed : ℕ → Summed

-- the size of one entry, `none` for `return 0`; `dir_size` measures a directory
unfoldable pub entry_size : (Dentry → Prog ℕ) → ℕ → Prog (Option ℕ)
entry_size dir_size id = do
  state ← get_state id
  elim (state == i_occupied) [
    | true ↦
        on_read id
          (elim [ none ↦ pure none | some zone ↦ pure (some (to_int (to_inode zone).size)) ])
    | false ↦ do
      state' ← get_state id
      elim (state' == d_occupied) [
        | false ↦ pure none
        | true ↦ on_read id (elim [
          | none ↦ pure none
          | some zone ↦ do size ← dir_size (to_dentry zone); pure (some size)
        ])
      ]
  ]

unfoldable pub sum_entries : (Dentry → Prog ℕ) → List Sub → ℕ → Prog Summed
sum_entries dir_size [] size = pure (summed size)
sum_entries dir_size (sub ∷ subs) size = elim (sub.id == 0) [
  | true ↦ pure (at_free_slot size)
  | false ↦ do
    found ← entry_size dir_size sub.id
    elim found [ none ↦ pure failed | some n ↦ sum_entries dir_size subs ((size + n) % 2 ^ 32) ]
]

-- `get_size` and `get_size_cont` are one function of the entries and of `next`.
unfoldable pub get_size_of : ℕ → List Sub → ℕ → Prog ℕ
get_size_of zero subs next = out_of_fuel
get_size_of (suc fuel) subs next = do
  sum ← sum_entries (λ (dir : Dentry). get_size_of fuel dir.subs dir.next) subs 1
  elim sum [
    | at_free_slot size ↦ pure size
    | failed ↦ pure 0
    | summed size ↦ elim (next == 0) [
      | true ↦ pure size
      | false ↦ on_read next (elim [
        | none ↦ pure 0
        | some zone ↦
            let dzone = to_dir_zone zone in
            do further ← get_size_of fuel dzone.subs dzone.next; pure ((size + further) % 2 ^ 32)
      ])
    ]
  ]

unfoldable pub get_size : ℕ → Dentry → Prog ℕ
get_size fuel dentry = get_size_of fuel dentry.subs dentry.next

unfoldable pub get_size_cont : ℕ → DirZone → Prog ℕ
get_size_cont fuel dzone = get_size_of fuel dzone.subs dzone.next

-- `mode & (1<<idx)`
abbrev pub has_bit : ℕ → ℕ → Bool
has_bit mode idx = mode / 2 ^ idx % 2 == 1

-- `r`, `w` or `x`, by the place of the bit
unfoldable pub right_of : ℕ → ℕ
right_of idx = if idx % 3 == 2 then 114 else if idx % 3 == 1 then 119 else 120

-- the loop of `show_mode` over the `n` lowest bits, from the highest
unfoldable pub show_bits : ℕ → ℕ → Text
show_bits zero mode = []
show_bits (suc idx) mode = (if has_bit mode idx then right_of idx else 45) ∷ show_bits idx mode

-- the text that `show_mode` adds to the buffer
unfoldable pub show_mode : Bool → ℕ → Text
show_mode d mode = (if d then 100 else 45) ∷ show_bits 9 mode
