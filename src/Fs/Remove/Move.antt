-- ===== src/Fs/Remove/Move.antt =====
-- src/fs_lib.c: the part of `rm_sub` that moves the last entry of a zone into a freed slot.
use cs356_mini_file_system.Base.{
  All, Bool-cases, List, [], ap, arith, drop, get_or, if◌then◌else◌, inl, inr, length, length-set,
  ltb, lt→ltb, refl, replicate, set, suc, sym, take, true, zero, ℕ, ◌++◌, ◌+◌, ◌-◌, ◌<◌, ◌∙◌, ◌∷◌,
  ◌≡◌, ◌≢◌,
}
use cs356_mini_file_system.Layout.{Sub}
use cs356_mini_file_system.Layout.RoundTrip.{SubFits}
use cs356_mini_file_system.Utils.Text.{
  c_string, c_string-IsText, c_string-lt, has_nul, has_nul_text,
}
use cs356_mini_file_system.Store.Prog.{pure}
use cs356_mini_file_system.Fs.Dir.{copy_field, copy_name, sub_at, zero_sub}
use cs356_mini_file_system.Fs.Dir.Subs.{Entry, entries, entry_of, id_taken, packed, taken, taken-le}
use cs356_mini_file_system.Fs.Dir.Fill.{
  All-set, All-sub_at, IsName, SubFits-zero_sub, entry_of-named, named, named-SubFits,
}
use cs356_mini_file_system.Fs.Remove.{clear_sub, last_slot, move_last}
use cs356_mini_file_system.Fs.Remove.Slots.{
  entries-at, entries-clear, entries-replace, last_slot-taken, no_entry, packed-replace,
}
use cs356_mini_file_system.Fs.Remove.Bag.{swap_remove}

-- Every name of the slots has its NUL.
abbrev pub NamesEnd : List Sub → Type 0
NamesEnd = All (λ (sub : Sub). has_nul sub.name ≡ true)

zero_sub-ends : has_nul zero_sub.name ≡ true
zero_sub-ends = has_nul_text [] (replicate 9 0)

NamesEnd-at : (subs : List Sub) (i : ℕ) → NamesEnd subs → has_nul (sub_at subs i).name ≡ true
NamesEnd-at [] i h = zero_sub-ends
NamesEnd-at (x ∷ subs) zero h = h.0
NamesEnd-at (x ∷ subs) (suc i) h = NamesEnd-at subs i h.1

set-get_or_self {ℓ} :
    {A : Type ℓ} (xs : List A) (i : ℕ) (default : A) → set xs i (get_or xs i default) ≡ xs
set-get_or_self [] i default = refl
set-get_or_self (x ∷ xs) zero default = refl
set-get_or_self (x ∷ xs) (suc i) default = ap (λ l. x ∷ l) (set-get_or_self xs i default)

c_string-IsName : (sub : Sub) → SubFits sub → has_nul sub.name ≡ true → IsName (c_string sub.name)
c_string-IsName sub fits h = record {
  text = c_string-IsText sub.name;
  short = omega (arith, c_string-lt sub.name h, fits.name);
}

copy_field-pure :
    (field : List ℕ) (sub : Sub)
    → SubFits sub
    → has_nul sub.name ≡ true
    → copy_field field sub.name
      ≡ pure (c_string sub.name ++ 0 ∷ drop (length (c_string sub.name) + 1) field)
unfolding copy_field copy_name
copy_field-pure field sub fits h =
    rw (h, lt→ltb (length (c_string sub.name)) 10 (c_string-IsName sub fits h).short)

module _ (subs : List Sub) (idx : ℕ) where
  abbrev k : ℕ
  k = taken subs - 1

  -- the slot `idx` with the last entry in it
  abbrev moved : Sub
  moved = named (sub_at subs idx) (sub_at subs k).id (c_string (sub_at subs k).name)

  abbrev pub moved_subs : List Sub
  moved_subs = if ltb idx k then clear_sub (set subs idx moved) k else clear_sub subs k

  module _ (p : packed subs ≡ true) (used : idx < taken subs) (fits : All SubFits subs)
      (ends : NamesEnd subs) where
    pub move_last-moved :
        (slots : ℕ) → length subs ≡ slots → move_last slots subs idx ≡ pure moved_subs
    unfolding move_last
    move_last-moved slots size =
        let last : last_slot (slots - 1 - idx) subs idx ≡ k =
          last_slot-taken (slots - 1 - idx) subs idx p used (omega (arith, taken-le subs)) in
        let copied =
          copy_field-pure (sub_at subs idx).name (sub_at subs k) (All-sub_at subs k fits)
            (NamesEnd-at subs k ends) in
        elim (Bool-cases (ltb idx k)) [
          | inl more ↦ rw (last, more, copied) refl
          | inr end ↦ rw (last, end) refl
        ]

    moved-nonzero : moved.id ≢ 0
    moved-nonzero = id_taken subs k (omega arith)

    pub entries-moved_subs :
        (entries moved_subs ≡ swap_remove (entries subs) idx no_entry) × (packed moved_subs ≡ true)
    unfolding swap_remove entry_of
    entries-moved_subs = elim (Bool-cases (ltb idx k)) [
      | inl more ↦
          let subs1 = set subs idx moved in
          let es = entries subs in
          let replaced : entries subs1 ≡ set es idx (entry_of moved) =
            entries-replace subs idx moved used moved-nonzero in
          let size : suc k ≡ taken subs1 = omega (
            arith,
            ap (λ (l : List Entry). length l) replaced,
            length-set es idx (entry_of moved),
          ) in
          let (left, kept) =
            entries-clear subs1 k (packed-replace subs idx moved p used moved-nonzero) size in
          let name =
            c_string-IsName (sub_at subs k) (All-sub_at subs k fits) (NamesEnd-at subs k ends) in
          let last : entry_of moved ≡ get_or es k no_entry =
            entry_of-named name (sub_at subs idx) (sub_at subs k).id
            ∙ sym (entries-at subs k (omega arith)) in
          rw more (left ∙ ap (take k) (replaced ∙ ap (set es idx) last), kept)
      | inr end ↦
          let es = entries subs in
          let (left, kept) = entries-clear subs k p (omega arith) in
          let at_end : idx ≡ k = ground arith in
          let same : set es idx (get_or es k no_entry) ≡ es =
            ap (λ i. set es i (get_or es k no_entry)) at_end ∙ set-get_or_self es k no_entry in
          rw end (left ∙ ap (take k) (sym same), kept)
    ]

    pub moved_subs-SubFits : All SubFits moved_subs
    unfolding clear_sub
    moved_subs-SubFits = elim (Bool-cases (ltb idx k)) [
      | inl more ↦ rw more (
          All-set (set subs idx moved) k zero_sub
            (All-set subs idx moved fits (
              named-SubFits
                (c_string-IsName (sub_at subs k) (All-sub_at subs k fits) (NamesEnd-at subs k ends))
                (sub_at subs idx) (sub_at subs k).id (All-sub_at subs idx fits)
                (All-sub_at subs k fits).id))
            SubFits-zero_sub)
      | inr end ↦ rw end (All-set subs k zero_sub fits SubFits-zero_sub)
    ]

    pub length-moved_subs : length moved_subs ≡ length subs
    unfolding clear_sub
    length-moved_subs = elim (Bool-cases (ltb idx k)) [
      | inl more ↦ rw more (length-set (set subs idx moved) k zero_sub ∙ length-set subs idx moved)
      | inr end ↦ rw end (length-set subs k zero_sub)
    ]
