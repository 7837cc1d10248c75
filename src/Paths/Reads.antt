-- ===== src/Paths/Reads.antt =====
-- src/path.c: the search of a path only reads.
use cs356_mini_file_system.Store.ReadOnly.{
  Kept, ReadOnly, ReadOnly-bind, ReadOnly-if, ReadOnly-pure, run-Kept,
}
use cs356_mini_file_system.Layout.{get_int}
use cs356_mini_file_system.Base.{
  Bool-cases, List, Option, [], arith, drop, false, inl, inr, length, ltb, none, some, suc, take,
  true, zero, ℕ, ◌++◌, ◌<◌, ◌==◌, ◌∷◌,
}
use cs356_mini_file_system.Utils.Text.{Text}
use cs356_mini_file_system.Alloc.Bitmap.{d_occupied}
use cs356_mini_file_system.Store.Prog.{Prog, fault, pure, ◌>>=◌}
use cs356_mini_file_system.Store.Spec.{Store, run}
use cs356_mini_file_system.Paths.{
  FilePath, Found, Head, behind_text, climb, component, cut, enter, find_sub, from_root, get_path,
  get_path_from_pwd, get_path_from_root, get_sub_path, go_on, head_of, new_node, path_clone,
  path_init, pwd_step, root_step, skip, slash, str_cmp, up, whole,
}

new_node-ReadOnly : (id : ℕ) (name : Text) → ReadOnly (new_node id name)
unfolding new_node
new_node-ReadOnly id name = elim (Bool-cases (ltb (length name) 14)) [
  | inl fits ↦ rw fits (unfold ReadOnly in tt)
  | inr long ↦ rw long (unfold ReadOnly in tt)
]

-- what one round of the search does with the result of its comparison
find_sub-ReadOnly :
    (rounds : ℕ) (bytes : List ℕ) (name : Text) → ReadOnly (find_sub rounds bytes name)
unfolding find_sub
find_sub-ReadOnly zero bytes name = unfold ReadOnly in tt
find_sub-ReadOnly (suc rounds) bytes name =
    elim (str_cmp (drop 2 bytes) name)
      as (λ o. ReadOnly (elim o [
        | none ↦ fault
        | some true ↦ do node ← new_node (get_int 2 bytes) name; pure (some node)
        | some false ↦ find_sub rounds (drop 12 bytes) name
      ])) [
        | none ↦ unfold ReadOnly in tt
        | some true ↦
            ReadOnly-bind (new_node (get_int 2 bytes) name) (λ node. pure (some node))
              (new_node-ReadOnly (get_int 2 bytes) name) (λ node. unfold ReadOnly in tt)
        | some false ↦ find_sub-ReadOnly rounds (drop 12 bytes) name
      ]

get_sub_path-ReadOnly : (parent : FilePath) (name : Text) → ReadOnly (get_sub_path parent name)
unfolding get_sub_path ReadOnly
get_sub_path-ReadOnly parent name none = tt
get_sub_path-ReadOnly parent name (some zone) = λ behind.
    ReadOnly-bind (find_sub 10 (drop 6 zone ++ behind) name) _
      (find_sub-ReadOnly 10 (drop 6 zone ++ behind) name) (elim [ none ↦ tt | some node ↦ tt ])

-- the text that a search goes on with is shorter
Shorter : Text → Head → Type 0
Shorter path (skip text) = length text < length path
Shorter path (climb text) = length text < length path
Shorter path _ = Unit

head_of-Shorter : (path : Text) → Shorter path (head_of path)
unfolding head_of Shorter
head_of-Shorter [] = tt
head_of-Shorter (a ∷ []) = ground arith
head_of-Shorter (a ∷ b ∷ []) = ground arith
head_of-Shorter (a ∷ b ∷ c ∷ s) = ground arith

-- a search that only reads on every text below a length
ReadsBelow : ℕ → (FilePath → Text → Prog Found) → Type 0
ReadsBelow n rest = (curr : FilePath) (text : Text) → length text < n → ReadOnly (rest curr text)

behind_text-ReadOnly :
    (passed : Text) (m : Prog Found) → ReadOnly m → ReadOnly (behind_text passed m)
unfolding behind_text
behind_text-ReadOnly passed m h =
    ReadOnly-bind m (λ (found : Found). pure (found.0, passed ++ found.1)) h
      (λ found. ReadOnly-pure (found.0, passed ++ found.1))

-- Behind a slash, less of the path is left.
CutFits : Text → Text × Option Text → Type 0
CutFits path (before, none) = Unit
CutFits path (before, some text) = length text < length path

CutFits-cons :
    (c : ℕ) (s : Text) (parts : Text × Option Text)
    → CutFits s parts
    → CutFits (c ∷ s) (c ∷ parts.0, parts.1)
unfolding CutFits
CutFits-cons c s (before, none) h = tt
CutFits-cons c s (before, some text) h = omega arith

cut-CutFits : (path : Text) → CutFits path (cut path)
unfolding cut CutFits
cut-CutFits [] = tt
cut-CutFits (c ∷ s) = elim (Bool-cases (c == slash)) [
  | inl here ↦ rw here (omega arith)
  | inr on ↦ rw on (CutFits-cons c s (cut s) (cut-CutFits s))
]

go_on-ReadOnly :
    (rest : FilePath → Text → Prog Found) (path : Text) (parts : Text × Option Text)
    (sub : Option FilePath)
    → CutFits path parts
    → ReadsBelow (length path) rest
    → ReadOnly (go_on rest parts.0 parts.1 sub)
unfolding go_on ReadsBelow CutFits
go_on-ReadOnly rest path (before, further) none fits h = ReadOnly-pure (none, before)
go_on-ReadOnly rest path (before, none) (some sub_path) fits h =
    ReadOnly-pure (some sub_path, before)
go_on-ReadOnly rest path (before, some text) (some sub_path) fits h =
    ReadOnly-bind (rest sub_path text) (λ (found : Found). pure (found.0, before))
      (h sub_path text fits) (λ found. ReadOnly-pure (found.0, before))

enter-ReadOnly :
    (rest : FilePath → Text → Prog Found) (curr : FilePath) (path : Text)
    → ReadsBelow (length path) rest
    → ReadOnly (enter rest curr path)
unfolding enter ReadOnly
enter-ReadOnly rest curr path h state = ReadOnly-if (state == d_occupied) (pure (none, path)) _ tt (
    ReadOnly-bind (get_sub_path curr (cut path).0) (λ sub. go_on rest (cut path).0 (cut path).1 sub)
      (get_sub_path-ReadOnly curr (cut path).0)
      (λ sub. go_on-ReadOnly rest path (cut path) sub (cut-CutFits path) h))

root_step-ReadOnly :
    (rest : FilePath → Text → Prog Found) (curr : FilePath) (path : Text) (head : Head)
    → Shorter path head
    → ReadsBelow (length path) rest
    → ReadOnly (root_step rest curr path head)
unfolding root_step ReadsBelow Shorter
root_step-ReadOnly rest curr path whole fits h = unfold ReadOnly in tt
root_step-ReadOnly rest [] path up fits h = unfold ReadOnly in tt
root_step-ReadOnly rest (node ∷ prev) path up fits h = unfold ReadOnly in tt
root_step-ReadOnly rest curr path (skip text) fits h =
    behind_text-ReadOnly (take 2 path) (rest curr text) (h curr text fits)
root_step-ReadOnly rest [] path (climb text) fits h = unfold ReadOnly in tt
root_step-ReadOnly rest (node ∷ prev) path (climb text) fits h =
    behind_text-ReadOnly (take 3 path) (rest prev text) (h prev text fits)
root_step-ReadOnly rest curr path component fits h = enter-ReadOnly rest curr path h

get_path_from_root-ReadOnly :
    (fuel : ℕ) (curr : FilePath) (path : Text)
    → length path < fuel
    → ReadOnly (get_path_from_root fuel curr path)
unfolding get_path_from_root ReadsBelow
get_path_from_root-ReadOnly zero curr path h = absurd (omega arith)
get_path_from_root-ReadOnly (suc fuel) curr path h =
    root_step-ReadOnly (λ curr' text. get_path_from_root fuel curr' text) curr path (head_of path)
      (head_of-Shorter path)
      (λ curr' text lt. get_path_from_root-ReadOnly fuel curr' text (omega arith))

from_root-ReadOnly : (curr : FilePath) (path : Text) → ReadOnly (from_root curr path)
from_root-ReadOnly curr path =
    get_path_from_root-ReadOnly (suc (length path)) curr path (omega arith)

pwd_step-ReadOnly :
    (rest : Text → Prog Found) (curr : FilePath) (path : Text) (head : Head)
    → Shorter path head
    → ((text : Text) → length text < length path → ReadOnly (rest text))
    → ReadOnly (pwd_step rest curr path head)
unfolding pwd_step Shorter
pwd_step-ReadOnly rest curr path whole fits h = unfold ReadOnly in tt
pwd_step-ReadOnly rest [] path up fits h = unfold ReadOnly in tt
pwd_step-ReadOnly rest (node ∷ prev) path up fits h = unfold ReadOnly in tt
pwd_step-ReadOnly rest curr path (skip text) fits h =
    behind_text-ReadOnly (take 2 path) (rest text) (h text fits)
pwd_step-ReadOnly rest [] path (climb text) fits h = unfold ReadOnly in tt
pwd_step-ReadOnly rest (node ∷ prev) path (climb text) fits h =
    behind_text-ReadOnly (take 3 path) (from_root (path_clone prev) text)
      (from_root-ReadOnly (path_clone prev) text)
pwd_step-ReadOnly rest curr path component fits h =
    unfold ReadOnly in
    λ state.
      ReadOnly-if (state == d_occupied) (pure (none, path)) (from_root (path_clone curr) path)
        (ReadOnly-pure {A = Found} (none, path)) (from_root-ReadOnly (path_clone curr) path)

get_path_from_pwd-ReadOnly :
    (fuel : ℕ) (curr : FilePath) (path : Text)
    → length path < fuel
    → ReadOnly (get_path_from_pwd fuel curr path)
unfolding get_path_from_pwd
get_path_from_pwd-ReadOnly zero curr path h = absurd (omega arith)
get_path_from_pwd-ReadOnly (suc fuel) curr path h =
    pwd_step-ReadOnly (λ text. get_path_from_pwd fuel curr text) curr path (head_of path)
      (head_of-Shorter path) (λ text lt. get_path_from_pwd-ReadOnly fuel curr text (omega arith))

pub get_path-ReadOnly : (pwd : FilePath) (path : Text) → ReadOnly (get_path pwd path)
unfolding get_path
get_path-ReadOnly pwd [] = get_path_from_pwd-ReadOnly 1 pwd [] (omega arith)
get_path-ReadOnly pwd (c ∷ path) =
    ReadOnly-if (c == slash) (get_path_from_pwd (suc (length (c ∷ path))) pwd (c ∷ path))
      (behind_text (slash ∷ []) (from_root path_init path))
      (get_path_from_pwd-ReadOnly (suc (length (c ∷ path))) pwd (c ∷ path) (omega arith))
      (behind_text-ReadOnly (slash ∷ []) (from_root path_init path)
        (from_root-ReadOnly path_init path))

-- The search of a path ends: it fails, or it gives a result, whatever it is, and leaves the zones,
-- the states, the clock and the connection as they were.
pub get_path-Kept : (pwd : FilePath) (path : Text) (s : Store) → Kept s (run (get_path pwd path) s)
get_path-Kept pwd path s = run-Kept (get_path pwd path) s (get_path-ReadOnly pwd path)
