-- ===== src/Alloc/Bitmap/Laws.antt =====
-- src/alloc.c: `get_state` and `set_state` on a sound bitmap: the two bits of each zone.
use cs356_mini_file_system.Base.{
  ==_ne, Bool, List, [], ap, arith, dec_eq, get_elem?, get_or, get_or-set_ne, get_or-set_self,
  holds_below, holds_below_sound, if◌then◌else◌, length, length-set, ltb, none, refl, set, some,
  suc, sym, true, zero, ℕ, ◌%◌, ◌&&◌, ◌*◌, ◌/◌, ◌<◌, ◌==◌, ◌^◌, ◌∙◌, ◌∷◌, ◌≡◌, ◌≤◌,
}
use cs356_mini_file_system.Alloc.Bitmap.{
  f_occupied, get_bits, get_state, put_bits, reserved, set_free_id, set_state, shift, unoccupied,
}

-- Place `j` of four reads its own two bits back, and those of the other places are kept.
check_byte : ℕ → ℕ → ℕ → ℕ → Bool
check_byte k state j byte =
    let out = put_bits byte (k * 2) state in
    ltb out 256 && (get_bits out (j * 2) == (if j == k then state else get_bits byte (j * 2)))

abbrev check_places : ℕ → ℕ → ℕ → Bool
check_places k state j = holds_below 256 (check_byte k state j)

put_bits_table :
    holds_below 4 (λ k. holds_below 4 (λ state. holds_below 4 (check_places k state))) ≡ true
unfolding holds_below check_byte put_bits get_bits
put_bits_table = refl

module _ (byte k state : ℕ) (hb : byte < 256) (hk : k < 4) where
  put_bits_check : (j : ℕ) → j < 4 → check_byte k (state % 4) j byte ≡ true
  put_bits_check j hj =
      holds_below_sound (check_byte k (state % 4) j)
        (holds_below_sound (check_places k (state % 4))
          (holds_below_sound (λ state. holds_below 4 (check_places k state))
            (holds_below_sound (λ k. holds_below 4 (λ state. holds_below 4 (check_places k state)))
              put_bits_table hk)
            (omega arith))
          hj)
        hb

  -- only the low two bits of the state count
  put_bits_mod : put_bits byte (k * 2) state ≡ put_bits byte (k * 2) (state % 4)
  unfolding put_bits
  put_bits_mod = let e : state % 4 % 4 ≡ state % 4 = omega arith in rw e

  put_bits-lt : put_bits byte (k * 2) state < 256
  unfolding check_byte
  put_bits-lt = rw put_bits_mod (ground (arith, put_bits_check 0 (omega arith)))

  get_bits-put_bits :
      (j : ℕ)
      → j < 4
      → get_bits (put_bits byte (k * 2) state) (j * 2)
        ≡ (if j == k then state % 4 else get_bits byte (j * 2))
  unfolding check_byte
  get_bits-put_bits j hj = rw put_bits_mod (ground (arith, put_bits_check j hj))

-- Every byte of `free_lst` is an `unsigned char`, and there are 256 of them.
pub record IsBitmap (lst : List ℕ) : Type 0 where
  pub size : length lst ≡ 256
  pub bytes : (i : ℕ) → get_or lst i 0 < 256

-- the state of a zone that is in the bitmap
unfoldable pub state_of : List ℕ → ℕ → ℕ
state_of lst id = get_bits (get_or lst (id / 4) 0) (shift id)

get_elem?-some : (lst : List ℕ) (i : ℕ) → i < length lst → get_elem? lst i ≡ some (get_or lst i 0)
get_elem?-some [] i h = absurd (omega arith)
get_elem?-some (x ∷ xs) zero h = refl
get_elem?-some (x ∷ xs) (suc i) h = get_elem?-some xs i (omega arith)

get_elem?-none : (lst : List ℕ) (i : ℕ) → length lst ≤ i → get_elem? lst i ≡ none
get_elem?-none [] i h = refl
get_elem?-none (x ∷ xs) zero h = absurd (omega arith)
get_elem?-none (x ∷ xs) (suc i) h = get_elem?-none xs i (omega arith)

module _ {lst : List ℕ} (v : IsBitmap lst) (id : ℕ) where
  -- Below zone 1024 `get_state` returns the two bits of the zone.
  pub get_state-in : 4 ≤ id → id < 1024 → get_state lst id ≡ some (state_of lst id)
  unfolding get_state state_of
  get_state-in lo hi = ground (arith, get_elem?-some lst (id / 4) (rw v.size (omega arith)))

  -- From zone 1024 on it reads outside `free_lst`.
  pub get_state-out : 1024 ≤ id → id < 2 ^ 15 → get_state lst id ≡ none
  unfolding get_state
  get_state-out lo hi = ground (arith, get_elem?-none lst (id / 4) (rw v.size (omega arith)))

pub get_state-reserved :
    (lst : List ℕ) (id : ℕ) → reserved id ≡ true → get_state lst id ≡ some f_occupied
unfolding get_state
get_state-reserved lst id h = rw h

-- the bitmap after a write
unfoldable pub stored : List ℕ → ℕ → ℕ → List ℕ
stored lst id state = set lst (id / 4) (put_bits (get_or lst (id / 4) 0) (shift id) state)

module _ {lst : List ℕ} (v : IsBitmap lst) (id state : ℕ) where
  new_byte-lt : put_bits (get_or lst (id / 4) 0) (shift id) state < 256
  new_byte-lt = put_bits-lt (get_or lst (id / 4) 0) (id % 4) state (v.bytes (id / 4)) (omega arith)

  pub set_state-in : 4 ≤ id → id < 1024 → set_state lst id state ≡ some (stored lst id state)
  unfolding set_state stored
  set_state-in lo hi = ground (arith, get_elem?-some lst (id / 4) (rw v.size (omega arith)))

  pub set_state-out : 1024 ≤ id → id < 2 ^ 15 → set_state lst id state ≡ none
  unfolding set_state
  set_state-out lo hi = ground (arith, get_elem?-none lst (id / 4) (rw v.size (omega arith)))

  pub stored-IsBitmap : id < 1024 → IsBitmap (stored lst id state)
  unfolding stored
  stored-IsBitmap hi = record {
    size = length-set lst (id / 4) _ ∙ v.size;
    bytes = λ i. elim (dec_eq i (id / 4)) [
      | yes e ↦ rw e (rw (get_or-set_self lst (id / 4) _ 0 (rw v.size (omega arith))) new_byte-lt)
      | no ne ↦ rw (get_or-set_ne lst _ _ _ 0 (λ p. ne (sym p))) (v.bytes i)
    ];
  }

  -- The written zone has the new state, and every other zone keeps its own.
  pub state_of-stored :
      (j : ℕ)
      → id < 1024
      → state_of (stored lst id state) j ≡ (if j == id then state % 4 else state_of lst j)
  unfolding stored state_of
  state_of-stored j hi = elim (dec_eq (j / 4) (id / 4)) [
    | yes e ↦
        rw (e, get_or-set_self lst (id / 4) _ 0 (rw v.size (omega arith)))
          (get_bits-put_bits (get_or lst (id / 4) 0) (id % 4) state (v.bytes (id / 4)) (omega arith)
              (j % 4) (omega arith)
            ∙ ground arith)
    | no ne ↦
        rw (get_or-set_ne lst _ _ _ 0 (λ p. ne (sym p)), ==_ne j id (λ p. ne (ap (λ k. k / 4) p)))
  ]

pub set_state-reserved :
    (lst : List ℕ) (id state : ℕ) → reserved id ≡ true → set_state lst id state ≡ some lst
unfolding set_state
set_state-reserved lst id state h = rw h

-- `set_free_id` is `set_state` with `UNOCCUPIED`: the ids that it refuses, `set_state` ignores.
pub set_free_id-set_state :
    (lst : List ℕ) (id : ℕ) → set_free_id lst id ≡ set_state lst id unoccupied
unfolding set_free_id set_state
set_free_id-set_state lst id = ground arith

-- For zones of a sound bitmap `set_state` succeeds and keeps the bitmap sound, and `get_state`
-- then reads the low two bits of the new state for that zone, and what it read before for any
-- other.
pub get_state-set_state :
    {lst : List ℕ} (id j state : ℕ)
    → IsBitmap lst
    → 4 ≤ id
    → id < 1024
    → 4 ≤ j
    → j < 1024
    → (lst' : List ℕ) × (set_state lst id state ≡ some lst')
      × IsBitmap lst'
      × (get_state lst' j ≡ (if j == id then some (state % 4) else get_state lst j))
get_state-set_state {lst} id j state v lo hi loj hij =
    let v' = stored-IsBitmap v id state hi in
    (
      stored lst id state,
      set_state-in v id state lo hi,
      v',
      rw (get_state-in v' j loj hij, get_state-in v j loj hij, state_of-stored v id state j hi)
          (ground arith),
    )
