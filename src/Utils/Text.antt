-- ===== src/Utils/Text.antt =====
-- C strings as the lists of their bytes before the NUL.
use Prim.Native.Char.{code}
use Prim.Native.String.{String}
use cs356_mini_file_system.Base.{
  ==_iff, ==_ne, All, Bool, Bool-cases, List, [], ap, arith, false, false≢true, if◌then◌else◌, inl,
  inr, length, refl, suc, sym, take, true, zero, ℕ, ◌&&◌, ◌++◌, ◌<◌, ◌==◌, ◌||◌, ◌↔◌, ◌∙◌, ◌∷◌, ◌≡◌,
  ◌≢◌,
}

abbrev pub Text : Type 0
Text = List ℕ

-- a string literal of the source
abbrev pub codes : String → Text
codes String.[] = []
codes (String.◌∷◌ c s) = code c ∷ codes s

-- the string that starts an array of bytes
unfoldable pub c_string : List ℕ → Text
c_string [] = []
c_string (b ∷ bs) = if b == 0 then [] else b ∷ c_string bs

-- Does the array hold a NUL?
unfoldable pub has_nul : List ℕ → Bool
has_nul [] = false
has_nul (b ∷ bs) = (b == 0) || has_nul bs

-- `!strcmp(s, t)`
unfoldable pub str_eq : Text → Text → Bool
str_eq [] [] = true
str_eq (a ∷ s) (b ∷ t) = a == b && str_eq s t
str_eq _ _ = false

-- No byte of a string is a NUL.
abbrev pub IsText : Text → Type 0
IsText = All (λ b. b ≢ 0)

pub str_eq_iff : (s t : Text) → (str_eq s t ≡ true) ↔ (s ≡ t)
unfolding str_eq
str_eq_iff [] [] = ground arith
str_eq_iff [] (b ∷ t) = ground arith
str_eq_iff (a ∷ s) [] = ground arith
str_eq_iff (a ∷ s) (b ∷ t) = ground (arith, str_eq_iff s t)

pub c_string_text : (s : Text) (rest : List ℕ) → IsText s → c_string (s ++ 0 ∷ rest) ≡ s
unfolding c_string
c_string_text [] rest h = refl
c_string_text (b ∷ s) rest (hb, hs) = rw (==_ne b 0 hb) (ap (λ l. b ∷ l) (c_string_text s rest hs))

pub has_nul_text : (s : Text) (rest : List ℕ) → has_nul (s ++ 0 ∷ rest) ≡ true
unfolding has_nul
has_nul_text [] rest = refl
has_nul_text (b ∷ s) rest = rw (has_nul_text s rest) (ground arith)

pub IsText-take : (n : ℕ) (s : Text) → IsText s → IsText (take n s)
IsText-take zero s h = tt
IsText-take (suc n) [] h = tt
IsText-take (suc n) (b ∷ s) h = (h.0, IsText-take n s h.1)

pub IsText-append : (s t : Text) → IsText s → IsText t → IsText (s ++ t)
IsText-append [] t h k = k
IsText-append (b ∷ s) t h k = (h.0, IsText-append s t h.1 k)

pub c_string-IsText : (bytes : List ℕ) → IsText (c_string bytes)
unfolding c_string
c_string-IsText [] = tt
c_string-IsText (b ∷ bytes) = elim (Bool-cases (b == 0)) [
  | inl z ↦ rw z tt
  | inr nz ↦ rw nz ((λ e. false≢true (sym nz ∙ (==_iff b 0).1 e)), c_string-IsText bytes)
]

pub c_string-lt : (bytes : List ℕ) → has_nul bytes ≡ true → length (c_string bytes) < length bytes
unfolding c_string has_nul
c_string-lt [] h = absurd (false≢true h)
c_string-lt (b ∷ bytes) h = elim (Bool-cases (b == 0)) [
  | inl z ↦ rw z (omega arith)
  | inr nz ↦ rw nz (
      let rest = c_string-lt bytes (sym (ap (λ k. k || has_nul bytes) nz) ∙ h) in
      omega (arith, rest))
]
