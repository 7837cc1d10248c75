-- ===== src/Fs/Remove/Slots.antt =====
-- The slots of one zone of a directory when an entry is taken out: which slots the loops stop at, and
-- the entries that are left.
use cs356_mini_file_system.Fs.Dir.Subs.{
  Entry, all_free_of_none, entries, entry_of, id_free, id_taken, packed, taken, taken-le,
}
use cs356_mini_file_system.Fs.Dir.{sub_at}
use cs356_mini_file_system.Layout.{Sub}
use cs356_mini_file_system.Base.{
  ==_ne, List, [], ap, arith, dec_eq, dec_lt, get_or, length, none, refl, set, some, suc, sym, take,
  true, zero, ℕ, ◌+◌, ◌-◌, ◌<◌, ◌==◌, ◌∙◌, ◌∷◌, ◌≡◌, ◌≢◌, ◌≤◌,
}
use cs356_mini_file_system.Fs.Remove.{clear_sub, find_slot_of, last_slot}

abbrev pub no_entry : Entry
no_entry = (0, [])

taken_of_id :
    (subs : List Sub) (i : ℕ) → packed subs ≡ true → (sub_at subs i).id ≢ 0 → i < taken subs
taken_of_id subs i p nz = elim (dec_lt i (taken subs)) [
  | yes h ↦ h
  | no h ↦ absurd (nz (id_free subs i p (omega arith)))
]

-- the last slot in use, from a slot in use
pub last_slot-taken :
    (n : ℕ) (subs : List Sub) (i : ℕ)
    → packed subs ≡ true
    → i < taken subs
    → i + suc n ≡ length subs
    → last_slot n subs i ≡ taken subs - 1
unfolding last_slot
last_slot-taken zero subs i p h e = omega (arith, taken-le subs)
last_slot-taken (suc n) subs i p h e = elim (dec_lt (i + 1) (taken subs)) [
  | yes more ↦
      rw (==_ne (sub_at subs (i + 1)).id 0 (id_taken subs (i + 1) more))
        (last_slot-taken n subs (i + 1) p more (omega arith))
  | no end ↦
      let free : (sub_at subs (i + 1)).id ≡ 0 = id_free subs (i + 1) p (omega arith) in
      rw (ap (λ k. k == 0) free) (omega arith)
]

-- The search finds a slot in use with the id, or no slot in use has it.
pub find_slot_of-some :
    (n : ℕ) (subs : List Sub) (idx eid i : ℕ)
    → packed subs ≡ true
    → find_slot_of n subs idx eid ≡ some i
    → (i < taken subs) × ((sub_at subs i).id ≡ eid)
unfolding find_slot_of
find_slot_of-some zero subs idx eid i p h = cc
find_slot_of-some (suc n) subs idx eid i p h =
    ground (arith, taken_of_id subs idx p, find_slot_of-some n subs (idx + 1) eid i p)

pub find_slot_of-none :
    (n : ℕ) (subs : List Sub) (idx eid : ℕ)
    → find_slot_of n subs idx eid ≡ none
    → (j : ℕ) → idx ≤ j
    → j < idx + n
    → j < taken subs
    → (sub_at subs j).id ≢ eid
unfolding find_slot_of
find_slot_of-none zero subs idx eid h j lo hi used = absurd (omega arith)
find_slot_of-none (suc n) subs idx eid h j lo hi used = elim (dec_eq j idx) [
  | yes e ↦
      let here : (sub_at subs idx).id ≢ 0 = id_taken subs idx (omega arith) in
      let differs : (sub_at subs idx).id ≢ eid = ground arith in
      λ same. differs (ap (λ k. (sub_at subs k).id) (sym e) ∙ same)
  | no ne ↦
      let here : (sub_at subs idx).id ≢ 0 = id_taken subs idx (omega arith) in
      let rest : find_slot_of n subs (idx + 1) eid ≡ none = ground arith in
      find_slot_of-none n subs (idx + 1) eid rest j (omega arith) (omega arith) used
]

pub entries-at :
    (subs : List Sub) (i : ℕ)
    → i < taken subs
    → get_or (entries subs) i no_entry ≡ entry_of (sub_at subs i)
unfolding entries
entries-at [] i h = absurd (omega arith)
entries-at (sub ∷ subs) zero h = ground arith
entries-at (sub ∷ subs) (suc i) h = ground (arith, entries-at subs i)

-- a slot in use gets another entry
pub entries-replace :
    (subs : List Sub) (i : ℕ) (sub : Sub)
    → i < taken subs
    → sub.id ≢ 0
    → entries (set subs i sub) ≡ set (entries subs) i (entry_of sub)
unfolding entries
entries-replace [] i sub h nz = absurd (omega arith)
entries-replace (x ∷ subs) zero sub h nz = ground arith
entries-replace (x ∷ subs) (suc i) sub h nz = ground (arith, entries-replace subs i sub)

pub packed-replace :
    (subs : List Sub) (i : ℕ) (sub : Sub)
    → packed subs ≡ true
    → i < taken subs
    → sub.id ≢ 0
    → packed (set subs i sub) ≡ true
unfolding packed entries
packed-replace [] i sub p h nz = absurd (omega arith)
packed-replace (x ∷ subs) zero sub p h nz = ground arith
packed-replace (x ∷ subs) (suc i) sub p h nz = ground (arith, packed-replace subs i sub)

-- the last slot in use is cleared
pub entries-clear :
    (subs : List Sub) (k : ℕ)
    → packed subs ≡ true
    → suc k ≡ taken subs
    → (entries (clear_sub subs k) ≡ take k (entries subs)) × (packed (clear_sub subs k) ≡ true)
unfolding clear_sub packed entries
entries-clear [] k p h = absurd (omega arith)
entries-clear (x ∷ subs) zero p h = (refl, all_free_of_none subs (ground arith) (ground arith))
entries-clear (x ∷ subs) (suc k) p h = ground (arith, entries-clear subs k)
