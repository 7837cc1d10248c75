-- ===== src/Alloc/Bitmap/Search.antt =====
-- src/alloc.c: `get_free_id` against the search for the lowest free zone.
use cs356_mini_file_system.Base.{
  Bool-cases, List, Option, Option-cases, ap, arith, dec_eq, false, if◌then◌else◌, inl, inr, none,
  some, suc, true, zero, ℕ, ◌%◌, ◌+◌, ◌-◌, ◌<◌, ◌==◌, ◌^◌, ◌∙◌, ◌≡◌, ◌≢◌, ◌≤◌, ◌⊎◌,
}
use cs356_mini_file_system.Alloc.Bitmap.{free_loop, get_free_id, unoccupied}
use cs356_mini_file_system.Alloc.Bitmap.Laws.{
  IsBitmap, get_state-in, get_state-out, set_state-in, state_of, state_of-stored, stored,
  stored-IsBitmap,
}

-- the first of the `n` zones from `id` on that is free
unfoldable pub first_free : (ℕ → ℕ) → ℕ → ℕ → Option ℕ
first_free states zero id = none
first_free states (suc n) id = elim (states id == unoccupied) [
  | true ↦ some id
  | false ↦ first_free states n (id + 1)
]

-- the zones of the bitmap that it does not itself fill
abbrev pub zones_tracked : ℕ
zones_tracked = 1020

abbrev taken : List ℕ → ℕ → Option ℕ → Option (ℕ × List ℕ)
taken lst state none = none
taken lst state (some id) = some (id, stored lst id state)

module _ {lst : List ℕ} (v : IsBitmap lst) (state : ℕ) where
  free_loop-first_free :
      (n rounds id : ℕ)
      → 4 ≤ id
      → id + n ≡ 1024
      → n < rounds
      → id + rounds ≤ 2 ^ 15
      → free_loop rounds lst id state ≡ taken lst state (first_free (state_of lst) n id)
  unfolding free_loop first_free
  free_loop-first_free n zero id lo e more fit = absurd (omega arith)
  free_loop-first_free zero (suc rounds) id lo e more fit =
      rw (get_state-out v id (omega arith) (omega arith), free_loop)
  free_loop-first_free (suc n) (suc rounds) id lo e more fit =
      let rest : (state_of lst id == 0) ≡ false
          → free_loop rounds lst (id + 1) state
            ≡ taken lst state (first_free (state_of lst) n (id + 1)) =
        λ used.
          free_loop-first_free n rounds (id + 1) (omega arith) (omega arith) (omega arith)
            (omega arith) in
      ground
        (arith, get_state-in v id lo (omega arith), set_state-in v id state lo (omega arith), rest)

  pub get_free_id-first_free :
      get_free_id lst state ≡ taken lst state (first_free (state_of lst) zones_tracked 4)
  unfolding get_free_id
  get_free_id-first_free =
      free_loop-first_free 1020 (2 ^ 15 - 4) 4 (omega arith) (omega arith) (omega arith)
        (omega arith)

-- `found` is the lowest free zone from `id` on.
pub record IsLowest (states : ℕ → ℕ) (id found : ℕ) : Type 0 where
  pub above : id ≤ found
  pub free : states found ≡ unoccupied
  pub lowest : (j : ℕ) → id ≤ j → j < found → states j ≢ unoccupied

module _ (states : ℕ → ℕ) where
  used_below :
      (id j k : ℕ)
      → (states id == unoccupied) ≡ false
      → ((j : ℕ) → id + 1 ≤ j → j < k → states j ≢ unoccupied)
      → id ≤ j
      → j < k
      → states j ≢ unoccupied
  used_below id j k used rest lo hi = elim (dec_eq id j) [
    | yes e ↦ λ z. ground (arith, ap states e)
    | no ne ↦ rest j (omega arith) hi
  ]

  pub first_free_sound :
      (n id found : ℕ)
      → first_free states n id ≡ some found
      → IsLowest states id found × (found < id + n)
  unfolding first_free
  first_free_sound zero id found h = cc
  first_free_sound (suc n) id found h = elim (Bool-cases (states id == unoccupied)) [
    | inl free ↦ ground (arith, lowest_self free)
    | inr used ↦
        let (is, hi) = first_free_sound n (id + 1) found (rw (used, first_free) at h) in
        (
          record {
            above = omega (arith, is.above);
            free = is.free;
            lowest = λ j. used_below id j found used is.lowest;
          },
          omega arith,
        )
  ]
    where
      lowest_self : (states id == unoccupied) ≡ true → IsLowest states id id
      lowest_self free = record {
        above = omega arith;
        free = ground arith;
        lowest = λ j lo hi. absurd (omega arith);
      }

  pub first_free_complete :
      (n id : ℕ)
      → first_free states n id ≡ none
      → (j : ℕ) → id ≤ j
      → j < id + n
      → states j ≢ unoccupied
  unfolding first_free
  first_free_complete zero id h j lo hi = absurd (omega arith)
  first_free_complete (suc n) id h j lo hi = elim (Bool-cases (states id == unoccupied)) [
    | inl free ↦ ground arith
    | inr used ↦
        used_below id j (id + suc n) used
          (λ j lo hi.
            first_free_complete n (id + 1) (rw (used, first_free) at h) j lo (omega arith))
          lo hi
  ]

-- what `get_free_id` returns, and the bitmap that it leaves
pub record Found (lst : List ℕ) (state id : ℕ) (lst' : List ℕ) : Type 0 where
  pub lowest : IsLowest (state_of lst) 4 id
  pub tracked : id < 1024
  pub marked : (j : ℕ) → state_of lst' j ≡ (if j == id then state % 4 else state_of lst j)
  pub bitmap : IsBitmap lst'

-- On a sound bitmap, when `get_free_id` returns an id it is the lowest free zone from 4 on and
-- below 1024, that zone has the new state, and every other zone keeps its own. It fails only when
-- no zone of the bitmap is free: it then reads outside `free_lst`.
pub get_free_id_lem :
    {lst : List ℕ} (state : ℕ)
    → IsBitmap lst
    → ((id : ℕ) × (lst' : List ℕ) × (get_free_id lst state ≡ some (id, lst'))
        × Found lst state id lst')
      ⊎ ((get_free_id lst state ≡ none)
          × ((j : ℕ) → 4 ≤ j → j < 1024 → state_of lst j ≢ unoccupied))
get_free_id_lem {lst} state v = elim (Option-cases (first_free (state_of lst) zones_tracked 4)) [
  | inl full ↦ inr (
    get_free_id-first_free v state ∙ ap (taken lst state) full,
    first_free_complete (state_of lst) zones_tracked 4 full,
  )
  | inr (id, found) ↦
      let (lowest, hi) = first_free_sound (state_of lst) zones_tracked 4 id found in
      inl (
        id,
        stored lst id state,
        get_free_id-first_free v state ∙ ap (taken lst state) found,
        record {
          lowest = lowest;
          tracked = hi;
          marked = λ j. state_of-stored v id state j hi;
          bitmap = stored-IsBitmap v id state hi;
        },
      )
]
