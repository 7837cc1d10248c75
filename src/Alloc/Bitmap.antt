-- ===== src/Alloc/Bitmap.antt =====
-- src/alloc.c: `map`, the two bits of state that each zone has, and the search for a free zone.
-- A `signed short` is its bit pattern, below 2 ^ 16. `none` is an access outside `free_lst`.
pub mod Laws
pub mod Search
use Prim.Native.Nat.{bit_and, bit_or}
use cs356_mini_file_system.Base.{
  Bool, List, Option, false, get_elem?, if◌then◌else◌, leb, ltb, none, set, some, suc, true, zero,
  ℕ, ◌%◌, ◌&&◌, ◌*◌, ◌+◌, ◌-◌, ◌/◌, ◌==◌, ◌^◌, ◌||◌,
}

-- `UNOCCUPIED`, `D_OCCUPIED`, `F_OCCUPIED`, `I_OCCUPIED`
abbrev pub unoccupied : ℕ
unoccupied = 0

abbrev pub d_occupied : ℕ
d_occupied = 1

abbrev pub f_occupied : ℕ
f_occupied = 2

abbrev pub i_occupied : ℕ
i_occupied = 3

-- `id < 4` on a `signed short`: the zones of the bitmap itself, and the negative values
abbrev pub reserved : ℕ → Bool
reserved id = ltb id 4 || leb (2 ^ 15) id

-- `(id&3)<<1`
abbrev pub shift : ℕ → ℕ
shift id = id % 4 * 2

-- `(byte >> sh) & 3`
unfoldable pub get_bits : ℕ → ℕ → ℕ
get_bits byte sh = bit_and (byte / 2 ^ sh) 3

unfoldable pub get_state : List ℕ → ℕ → Option ℕ
get_state free_lst id =
    if reserved id then some f_occupied else elim (get_elem? free_lst (id / 4)) [
      | none ↦ none
      | some byte ↦ some (get_bits byte (shift id))
    ]

-- `(byte & ~mask) | ((state&3) << sh)` on an `unsigned char`, with `mask = 3 << sh`
unfoldable pub put_bits : ℕ → ℕ → ℕ → ℕ
put_bits byte sh state = bit_or (bit_and byte (255 - 3 * 2 ^ sh % 256)) (state % 4 * 2 ^ sh)

unfoldable pub set_state : List ℕ → ℕ → ℕ → Option (List ℕ)
set_state free_lst id state =
    if reserved id then some free_lst else elim (get_elem? free_lst (id / 4)) [
      | none ↦ none
      | some byte ↦ some (set free_lst (id / 4) (put_bits byte (shift id) state))
    ]

-- The loop of `get_free_id`, with the rounds that are left up to `id <= (1<<15)-1`. The error
-- return is -1.
unfoldable pub free_loop : ℕ → List ℕ → ℕ → ℕ → Option (ℕ × List ℕ)
free_loop zero free_lst id state = some (2 ^ 16 - 1, free_lst)
free_loop (suc rounds) free_lst id state = elim (get_state free_lst id) [
  | none ↦ none
  | some found ↦ elim (found == unoccupied) [
    | true ↦ elim (set_state free_lst id state) [ none ↦ none | some lst ↦ some (id, lst) ]
    | false ↦ free_loop rounds free_lst (id + 1) state
  ]
]

unfoldable pub get_free_id : List ℕ → ℕ → Option (ℕ × List ℕ)
get_free_id free_lst state = free_loop (2 ^ 15 - 4) free_lst 4 state

unfoldable pub set_free_id : List ℕ → ℕ → Option (List ℕ)
set_free_id free_lst id =
    if ltb 3 id && ltb id (2 ^ 15) then set_state free_lst id unoccupied else some free_lst
