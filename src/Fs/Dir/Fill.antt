-- ===== src/Fs/Dir/Fill.antt =====
-- src/fs_lib.c: `strcpy` of a name into the slot of an entry.
use cs356_mini_file_system.Store.Prog.{pure}
use cs356_mini_file_system.Base.{
  All, List, [], arith, drop, length, length-append, length-drop, lt→ltb, refl, set, suc, zero, ℕ,
  ◌++◌, ◌+◌, ◌<◌, ◌∷◌, ◌≡◌,
}
use cs356_mini_file_system.Utils.Text.{IsText, Text, c_string_text}
use cs356_mini_file_system.Layout.{Sub}
use cs356_mini_file_system.Layout.RoundTrip.{IsShort, SubFits}
use cs356_mini_file_system.Fs.Dir.{copy_name, fill_sub, sub_at, zero_sub}
use cs356_mini_file_system.Fs.Dir.Subs.{entry_of}

-- A name that an entry can hold.
pub record IsName (name : Text) : Type 0 where
  pub text : IsText name
  pub short : length name < 10

-- the slot with the entry in it
abbrev pub named : Sub → ℕ → Text → Sub
named slot id name = record { id = id; name = name ++ 0 ∷ drop (length name + 1) slot.name }

module _ {name : Text} (n : IsName name) where
  pub entry_of-named : (slot : Sub) (id : ℕ) → entry_of (named slot id name) ≡ (id, name)
  unfolding entry_of
  entry_of-named slot id = rw (c_string_text name _ n.text)

  pub named-SubFits :
      (slot : Sub) (id : ℕ) → SubFits slot → IsShort id → SubFits (named slot id name)
  named-SubFits slot id fits short = record {
    id = short;
    name = omega (
      arith,
      n.short,
      length-append name (0 ∷ drop (length name + 1) slot.name),
      length-drop (length name + 1) slot.name,
      fits.name,
    );
  }

  pub fill_sub-named :
      (subs : List Sub) (idx id : ℕ)
      → fill_sub subs idx id name ≡ pure (set subs idx (named (sub_at subs idx) id name))
  unfolding fill_sub copy_name
  fill_sub-named subs idx id = rw (lt→ltb (length name) 10 n.short)

pub SubFits-zero_sub : SubFits zero_sub
SubFits-zero_sub = record { id = omega arith; name = refl }

pub All-set :
    (subs : List Sub) (i : ℕ) (sub : Sub)
    → All SubFits subs
    → SubFits sub
    → All SubFits (set subs i sub)
All-set [] i sub h f = tt
All-set (x ∷ subs) zero sub h f = (f, h.1)
All-set (x ∷ subs) (suc i) sub h f = (h.0, All-set subs i sub h.1 f)

pub All-sub_at : (subs : List Sub) (i : ℕ) → All SubFits subs → SubFits (sub_at subs i)
All-sub_at [] i h = SubFits-zero_sub
All-sub_at (x ∷ subs) zero h = h.0
All-sub_at (x ∷ subs) (suc i) h = All-sub_at subs i h.1
