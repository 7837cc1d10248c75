-- ===== src/Paths/Entries.antt =====
-- src/path.c: the search of a name among the entries of the first zone of a directory.
use cs356_mini_file_system.Base.{
  All, Bool-cases, List, Option, [], ap, append_assoc, arith, drop, drop-append, false,
  if◌then◌else◌, inl, inr, length, none, replicate, some, suc, take, true, zero, ℕ, ◌++◌, ◌∙◌, ◌∷◌,
  ◌≡◌, ◌≤◌,
}
use cs356_mini_file_system.Utils.Text.{IsText, Text, c_string, has_nul, str_eq}
use cs356_mini_file_system.Layout.{Sub, get_int, put_int, put_subs}
use cs356_mini_file_system.Layout.RoundTrip.{SubFits, get_int-put_int}
use cs356_mini_file_system.Store.Prog.{pure, ◌>>=◌}
use cs356_mini_file_system.Paths.{Node, find_sub, new_node, str_cmp}

unfoldable pub first_named : List Sub → Text → Option ℕ
first_named [] name = none
first_named (sub ∷ subs) name =
    if str_eq (c_string sub.name) name then some sub.id else first_named subs name

abbrev pub NulNamed : Sub → Type 0
NulNamed sub = has_nul sub.name ≡ true

str_cmp-str_eq :
    (field rest : List ℕ) (name : Text)
    → IsText name
    → has_nul field ≡ true
    → str_cmp (field ++ rest) name ≡ some (str_eq (c_string field) name)
unfolding str_cmp str_eq c_string has_nul
str_cmp-str_eq [] rest name h k = cc
str_cmp-str_eq (b ∷ field) rest [] h k = ground arith
str_cmp-str_eq (b ∷ field) rest (c ∷ name) h k =
    ground (arith, h.0, str_cmp-str_eq field rest name h.1)

-- the bytes of the slots that start with `sub`
slots_from : Sub → List Sub → List ℕ → List ℕ
slots_from sub subs rest = put_subs (sub ∷ subs) ++ rest

module _ (sub : Sub) (fits : SubFits sub) (subs : List Sub) (rest : List ℕ) where
  drop-slots_from : drop 2 (slots_from sub subs rest) ≡ sub.name ++ (put_subs subs ++ rest)
  unfolding slots_from put_subs put_int
  drop-slots_from = append_assoc sub.name (put_subs subs) rest

  drop-slots_from_all : drop 12 (slots_from sub subs rest) ≡ put_subs subs ++ rest
  unfolding slots_from put_subs put_int
  drop-slots_from_all =
      ap (drop 10) (append_assoc sub.name (put_subs subs) rest)
      ∙ drop-append 10 sub.name (put_subs subs ++ rest) fits.name

  get_int-slots_from : get_int 2 (slots_from sub subs rest) ≡ sub.id
  unfolding slots_from put_subs
  get_int-slots_from =
      ap (get_int 2) (append_assoc (put_int 2 sub.id) (sub.name ++ put_subs subs) rest)
      ∙ get_int-put_int 2 sub.id ((sub.name ++ put_subs subs) ++ rest) fits.id

  module _ (rounds : ℕ) (name : Text) (valid : IsText name) (ends : NulNamed sub) where
    compared :
        str_cmp (drop 2 (slots_from sub subs rest)) name ≡ some (str_eq (c_string sub.name) name)
    compared =
        ap (λ l. str_cmp l name) drop-slots_from
        ∙ str_cmp-str_eq sub.name (put_subs subs ++ rest) name valid ends

    find_sub-hit :
        str_eq (c_string sub.name) name ≡ true
        → find_sub (suc rounds) (slots_from sub subs rest) name
          ≡ (new_node sub.id name >>= λ node. pure (some node))
    unfolding find_sub
    find_sub-hit hit =
        rw (compared ∙ ap some hit, find_sub)
          (ap (λ id. new_node id name >>= λ node. pure (some node)) get_int-slots_from)

    find_sub-miss :
        str_eq (c_string sub.name) name ≡ false
        → find_sub (suc rounds) (slots_from sub subs rest) name
          ≡ find_sub rounds (put_subs subs ++ rest) name
    unfolding find_sub
    find_sub-miss miss =
        rw (compared ∙ ap some miss, find_sub)
          (ap (λ l. find_sub rounds l name) drop-slots_from_all)

-- The loop finds the entry in the slots, whatever stands behind them.
pub find_sub-first_named :
    (subs : List Sub) (rounds : ℕ) (rest : List ℕ) (name : Text) (id : ℕ)
    → All SubFits subs
    → All NulNamed subs
    → IsText name
    → length subs ≤ rounds
    → first_named subs name ≡ some id
    → find_sub rounds (put_subs subs ++ rest) name ≡ (new_node id name >>= λ node. pure (some node))
unfolding first_named slots_from
find_sub-first_named [] rounds rest name id fits ends valid more found = cc
find_sub-first_named (sub ∷ subs) zero rest name id fits ends valid more found =
    absurd (omega arith)
find_sub-first_named (sub ∷ subs) (suc rounds) rest name id fits ends valid more found =
    elim (Bool-cases (str_eq (c_string sub.name) name)) [
      | inl hit ↦
          find_sub-hit sub fits.0 subs rest rounds name valid ends.0 hit
          ∙ ap (λ id. new_node id name >>= λ node. pure (some node)) (ground (arith, hit))
      | inr miss ↦
          find_sub-miss sub fits.0 subs rest rounds name valid ends.0 miss
          ∙ find_sub-first_named subs rounds rest name id fits.1 ends.1 valid (omega arith)
              (ground (arith, miss))
    ]

-- the node that `get_sub_path` makes
abbrev pub node_of : ℕ → Text → Node
node_of id name = record { id = id; name = take 4 (name ++ replicate 4 0) }
