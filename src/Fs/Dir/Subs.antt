-- ===== src/Fs/Dir/Subs.antt =====
-- src/fs_lib.c: the entries of one zone of a directory: a packed prefix of its slots.
use cs356_mini_file_system.Base.{
  ==_ne, Bool, Bool-cases, List, [], ap, arith, dec_eq, if◌then◌else◌, inl, inr, length, refl, set,
  suc, sym, true, zero, ℕ, ◌&&◌, ◌++◌, ◌<◌, ◌==◌, ◌∷◌, ◌≡◌, ◌≢◌, ◌≤◌,
}
use cs356_mini_file_system.Utils.Text.{Text, c_string}
use cs356_mini_file_system.Layout.{Sub}
use cs356_mini_file_system.Fs.Dir.{free_slot, sub_at}

-- the id of a file or directory, and its name
abbrev pub Entry : Type 0
Entry = ℕ × Text

unfoldable pub entry_of : Sub → Entry
entry_of sub = (sub.id, c_string sub.name)

-- the entries up to the first free slot
unfoldable pub entries : List Sub → List Entry
entries [] = []
entries (sub ∷ subs) = if sub.id == 0 then [] else entry_of sub ∷ entries subs

pub all_free : List Sub → Bool
all_free [] = true
all_free (sub ∷ subs) = sub.id == 0 && all_free subs

-- Is every slot behind a free one free?
unfoldable pub packed : List Sub → Bool
unfolding all_free
packed [] = true
packed (sub ∷ subs) = if sub.id == 0 then all_free subs else packed subs

-- how many slots are taken
abbrev pub taken : List Sub → ℕ
taken subs = length (entries subs)

all_free-zero : (subs : List Sub) (i : ℕ) → all_free subs ≡ true → (sub_at subs i).id ≡ 0
unfolding all_free
all_free-zero [] i h = refl
all_free-zero (sub ∷ subs) zero h = ground arith
all_free-zero (sub ∷ subs) (suc i) h = all_free-zero subs i (ground arith)

pub id_free :
    (subs : List Sub) (i : ℕ) → packed subs ≡ true → taken subs ≤ i → (sub_at subs i).id ≡ 0
unfolding packed entries
id_free [] i p h = refl
id_free (sub ∷ subs) zero p h = ground arith
id_free (sub ∷ subs) (suc i) p h = ground (arith, all_free-zero subs i, id_free subs i)

pub id_taken : (subs : List Sub) (i : ℕ) → i < taken subs → (sub_at subs i).id ≢ 0
unfolding entries
id_taken [] i h = absurd (omega arith)
id_taken (sub ∷ subs) zero h = ground arith
id_taken (sub ∷ subs) (suc i) h = ground (arith, id_taken subs i)

pub taken-le : (subs : List Sub) → taken subs ≤ length subs
unfolding entries
taken-le [] = omega arith
taken-le (sub ∷ subs) = ground (arith, taken-le subs)

-- The slot that the code searches from behind is the first free one.
pub free_slot-taken :
    (n : ℕ) (subs : List Sub) → packed subs ≡ true → taken subs ≤ n → free_slot n subs ≡ taken subs
unfolding free_slot
free_slot-taken zero subs p h = omega arith
free_slot-taken (suc n) subs p h = elim (dec_eq (taken subs) (suc n)) [
  | yes e ↦ rw (==_ne (sub_at subs n).id 0 (id_taken subs n (omega arith))) (sym e)
  | no ne ↦
      let free : (sub_at subs n).id ≡ 0 = id_free subs n p (omega arith) in
      rw free (free_slot-taken n subs p (omega arith))
]

entries-all_free : (subs : List Sub) → all_free subs ≡ true → entries subs ≡ []
unfolding entries all_free
entries-all_free [] h = refl
entries-all_free (sub ∷ subs) h = ground arith

packed-all_free : (subs : List Sub) → all_free subs ≡ true → packed subs ≡ true
unfolding packed
packed-all_free [] h = refl
packed-all_free (sub ∷ subs) h = ground arith

-- Filling the first free slot appends its entry, and keeps the slots packed.
pub entries-set :
    (subs : List Sub) (sub : Sub)
    → packed subs ≡ true
    → taken subs < length subs
    → sub.id ≢ 0
    → entries (set subs (taken subs) sub) ≡ entries subs ++ entry_of sub ∷ []
unfolding packed entries
entries-set [] sub p h nz = absurd (omega arith)
entries-set (x ∷ subs) sub p h nz = elim (Bool-cases (x.id == 0)) [
  | inl free ↦
      rw (free, entries, ==_ne sub.id 0 nz)
        (ap (λ es. entry_of sub ∷ es) (entries-all_free subs (rw free at p)))
  | inr used ↦
      rw (used, entries, used)
        (ap (λ es. entry_of x ∷ es) (entries-set subs sub (rw used at p) (ground arith) nz))
]

pub packed-set :
    (subs : List Sub) (sub : Sub)
    → packed subs ≡ true
    → taken subs < length subs
    → sub.id ≢ 0
    → packed (set subs (taken subs) sub) ≡ true
unfolding packed entries
packed-set [] sub p h nz = absurd (omega arith)
packed-set (x ∷ subs) sub p h nz = elim (Bool-cases (x.id == 0)) [
  | inl free ↦ rw (free, packed, ==_ne sub.id 0 nz) (packed-all_free subs (rw free at p))
  | inr used ↦ rw (used, packed, used) (packed-set subs sub (rw used at p) (ground arith) nz)
]

pub all_free_of_none :
    (subs : List Sub) → packed subs ≡ true → taken subs ≡ 0 → all_free subs ≡ true
unfolding packed entries all_free
all_free_of_none [] p h = refl
all_free_of_none (x ∷ subs) p h = ground arith
