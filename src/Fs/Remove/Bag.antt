-- ===== src/Fs/Remove/Bag.antt =====
-- A list as a bag, when an item is taken out and the last one put in its place.
use cs356_mini_file_system.Base.{
  Bool, List, [], ap, arith, dec_eq, get_or, get_or-set_ne, get_or-set_self, if◌then◌else◌, length,
  length-set, set, suc, take, zero, ℕ, ◌+◌, ◌-◌, ◌<◌, ◌∙◌, ◌∷◌, ◌≡◌,
}

abbrev pub one {ℓ} : {A : Type ℓ} → (A → Bool) → A → ℕ
one test x = if test x then 1 else 0

-- how many items pass the test
unfoldable pub count {ℓ} : {A : Type ℓ} → (A → Bool) → List A → ℕ
count test [] = 0
count test (x ∷ xs) = one test x + count test xs

unfoldable pub swap_remove {ℓ} : {A : Type ℓ} → List A → ℕ → A → List A
swap_remove xs i default = take (length xs - 1) (set xs i (get_or xs (length xs - 1) default))

module _ {ℓ} {A : Type ℓ} (test : A → Bool) (default : A) where
  count-set :
      (xs : List A) (i : ℕ) (v : A)
      → i < length xs
      → count test (set xs i v) + one test (get_or xs i default) ≡ count test xs + one test v
  unfolding count
  count-set [] i v h = absurd (omega arith)
  count-set (x ∷ xs) zero v h = omega arith
  count-set (x ∷ xs) (suc i) v h = omega (arith, count-set xs i v)

  count-take :
      (xs : List A) (k : ℕ)
      → suc k ≡ length xs
      → count test (take k xs) + one test (get_or xs k default) ≡ count test xs
  unfolding count
  count-take [] k h = absurd (omega arith)
  count-take (x ∷ []) zero h = omega arith
  count-take (x ∷ y ∷ xs) zero h = absurd (omega arith)
  count-take (x ∷ xs) (suc k) h = omega (arith, count-take xs k)

  -- the last item stays the last
  get_or-set_last :
      (xs : List A) (i k : ℕ)
      → suc k ≡ length xs
      → get_or (set xs i (get_or xs k default)) k default ≡ get_or xs k default
  get_or-set_last xs i k h = elim (dec_eq i k) [
    | yes e ↦
        ap (λ j. get_or (set xs j (get_or xs k default)) k default) e
        ∙ get_or-set_self xs k (get_or xs k default) default (omega arith)
    | no ne ↦ get_or-set_ne xs i k (get_or xs k default) default ne
  ]

  -- For every test, what is left and the item taken out make the whole list.
  pub count-swap_remove :
      (xs : List A) (i : ℕ)
      → i < length xs
      → count test xs ≡ one test (get_or xs i default) + count test (swap_remove xs i default)
  unfolding swap_remove
  count-swap_remove xs i h =
      let k = length xs - 1 in
      let v = get_or xs k default in
      let short : suc k ≡ length (set xs i v) = omega (arith, length-set xs i v) in
      let last = ap (one test) (get_or-set_last xs i k (omega arith)) in
      omega (arith, count-set xs i v h, count-take (set xs i v) k short, last)
