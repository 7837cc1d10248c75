-- ===== src/Paths.antt =====
-- src/path.c: paths from the root to a file or directory, and the search of a path's text. `get_path`
-- puts a NUL at a slash, so it gives back the string that its argument then is. What `free` does is
-- left out: no path is used after it is freed, since each is a copy of its nodes up to `root_dir`.
pub mod Entries
pub mod Reads
pub mod Lookup
pub mod Missing
use cs356_mini_file_system.Store.Prog.{
  Prog, fault, get_state, on_read, out_of_fuel, pure, stray, ◌>>=◌, ◌>>◌,
}
use cs356_mini_file_system.Base.{
  Bool, List, Option, [], drop, false, if◌then◌else◌, length, ltb, none, replicate, some, suc, take,
  true, zero, ℕ, ◌&&◌, ◌++◌, ◌==◌, ◌∷◌,
}
use cs356_mini_file_system.Layout.{get_int}
use cs356_mini_file_system.Utils.Text.{Text}
use cs356_mini_file_system.Alloc.Bitmap.{d_occupied}

-- `path_t` without `prev`. A name that is longer than its four bytes runs on into `prev`, which is set
-- behind it.
pub record Node : Type 0 where
  pub id : ℕ
  pub name : List ℕ

-- the nodes from the last one to the one below `root_dir`, which is the empty list
abbrev pub FilePath : Type 0
FilePath = List Node

-- `path->id`, with what `path_init` sets in `root_dir`
abbrev pub id_of : FilePath → ℕ
id_of [] = 4
id_of (node ∷ prev) = node.id

-- `path_init`
abbrev pub path_init : FilePath
path_init = []

unfoldable pub path_clone : FilePath → FilePath
path_clone [] = []
path_clone (node ∷ prev) = record { id = node.id; name = take 4 node.name } ∷ path_clone prev

-- `!strcmp` of the string at some bytes and a name; `none` if it leaves the bytes
unfoldable pub str_cmp : List ℕ → Text → Option Bool
str_cmp [] name = none
str_cmp (b ∷ bytes) [] = some (b == 0)
str_cmp (b ∷ bytes) (c ∷ name) = if b == c then str_cmp bytes name else some false

-- A new node. Its sixteen bytes hold a name of thirteen bytes and the NUL.
unfoldable pub new_node : ℕ → Text → Prog Node
new_node id name =
    if ltb (length name) 14
    then pure (record { id = id; name = take 4 (name ++ replicate 4 0) })
    else fault

-- The loop of `get_sub_path` in `rounds` rounds, over bytes that start with an entry's id.
unfoldable pub find_sub : ℕ → List ℕ → Text → Prog (Option Node)
find_sub zero bytes name = pure none
find_sub (suc rounds) bytes name = elim (str_cmp (drop 2 bytes) name) [
  | none ↦ fault
  | some true ↦ do node ← new_node (get_int 2 bytes) name; pure (some node)
  | some false ↦ find_sub rounds (drop 12 bytes) name
]

-- The loop makes ten rounds, but a `dentry_t` has four entries: it goes on into the rest of the local
-- copy and into the stack behind it.
unfoldable pub get_sub_path : FilePath → Text → Prog (Option FilePath)
get_sub_path parent name = on_read (id_of parent) (elim [
  | none ↦ pure none
  | some zone ↦ do
    behind ← stray
    found ← find_sub 10 (drop 6 zone ++ behind) name
    elim found [ none ↦ pure none | some node ↦ pure (some (node ∷ parent)) ]
])

abbrev pub slash : ℕ
slash = 47

abbrev pub dot : ℕ
dot = 46

-- the text before the first slash, and the text behind it if there is one
unfoldable pub cut : Text → Text × Option Text
cut [] = ([], none)
cut (c ∷ s) = if c == slash then ([], some s) else (c ∷ (cut s).0, (cut s).1)

-- the tests at the start of `get_path_from_root` and `get_path_from_pwd`, in their order
pub data Head : Type 0 where
  whole : Head
  up : Head
  skip : Text → Head
  climb : Text → Head
  component : Head

unfoldable pub head_of : Text → Head
head_of [] = whole
head_of (a ∷ []) = if a == dot then whole else component
head_of (a ∷ b ∷ []) =
    if a == dot && b == dot then up else if a == dot && b == slash then skip [] else component
head_of (a ∷ b ∷ c ∷ s) =
    if a == dot && b == slash
    then skip (c ∷ s)
    else if a == dot && b == dot && c == slash
    then climb s
    else component

-- The result of a search, and the string that its argument has become.
abbrev pub Found : Type 0
Found = Option FilePath × Text

-- A search of the text behind `passed` bytes, in the string that it is a part of.
unfoldable pub behind_text : Text → Prog Found → Prog Found
behind_text passed m = do (path, text) ← m; pure (path, passed ++ text)

-- what follows the search for a name; `rest` is the call behind a slash
unfoldable pub go_on :
    (FilePath → Text → Prog Found) → Text → Option Text → Option FilePath → Prog Found
go_on rest before further none = pure (none, before)
go_on rest before none (some sub_path) = pure (some sub_path, before)
go_on rest before (some text) (some sub_path) = do
  (found, text') ← rest sub_path text
  pure (found, before)

-- the part for a name
unfoldable pub enter : (FilePath → Text → Prog Found) → FilePath → Text → Prog Found
enter rest curr path = do
  state ← get_state (id_of curr)
  elim (state == d_occupied) [
    | false ↦ pure (none, path)
    | true ↦ do sub ← get_sub_path curr (cut path).0; go_on rest (cut path).0 (cut path).1 sub
  ]

-- one call of `get_path_from_root`, with its calls of itself as `rest`
unfoldable pub root_step : (FilePath → Text → Prog Found) → FilePath → Text → Head → Prog Found
root_step rest curr path whole = pure (some curr, path)
root_step rest [] path up = pure (none, path)
root_step rest (node ∷ prev) path up = pure (some prev, path)
root_step rest curr path (skip text) = behind_text (take 2 path) (rest curr text)
root_step rest [] path (climb text) = pure (none, path)
root_step rest (node ∷ prev) path (climb text) = behind_text (take 3 path) (rest prev text)
root_step rest curr path component = enter rest curr path

-- `get_path_from_root` on a text that is shorter than the fuel
unfoldable pub get_path_from_root : ℕ → FilePath → Text → Prog Found
get_path_from_root zero curr path = out_of_fuel
get_path_from_root (suc fuel) curr path =
    root_step (λ curr' text. get_path_from_root fuel curr' text) curr path (head_of path)

-- `get_path_from_root` with enough fuel
abbrev pub from_root : FilePath → Text → Prog Found
from_root curr path = get_path_from_root (suc (length path)) curr path

-- one call of `get_path_from_pwd`, with its call of itself as `rest`
unfoldable pub pwd_step : (Text → Prog Found) → FilePath → Text → Head → Prog Found
pwd_step rest curr path whole = pure (some (path_clone curr), path)
pwd_step rest [] path up = pure (none, path)
pwd_step rest (node ∷ prev) path up = pure (some (path_clone prev), path)
pwd_step rest curr path (skip text) = behind_text (take 2 path) (rest text)
pwd_step rest [] path (climb text) = pure (none, path)
pwd_step rest (node ∷ prev) path (climb text) =
    behind_text (take 3 path) (from_root (path_clone prev) text)
pwd_step rest curr path component = do
  state ← get_state (id_of curr)
  elim (state == d_occupied) [ false ↦ pure (none, path) | true ↦ from_root (path_clone curr) path ]

unfoldable pub get_path_from_pwd : ℕ → FilePath → Text → Prog Found
get_path_from_pwd zero curr path = out_of_fuel
get_path_from_pwd (suc fuel) curr path =
    pwd_step (λ text. get_path_from_pwd fuel curr text) curr path (head_of path)

-- `get_path` with the current directory
unfoldable pub get_path : FilePath → Text → Prog Found
get_path pwd [] = get_path_from_pwd 1 pwd []
get_path pwd (c ∷ path) = elim (c == slash) [
  | true ↦ behind_text (slash ∷ []) (from_root path_init path)
  | false ↦ get_path_from_pwd (suc (length (c ∷ path))) pwd (c ∷ path)
]

-- The text before the last slash and the name behind it, but for a slash in the first place.
unfoldable pub last_cut : Text → Option (Text × Text)
last_cut [] = none
last_cut (c ∷ s) = elim (last_cut s) [
  | some (before, after) ↦ some (c ∷ before, after)
  | none ↦ if c == slash then some ([], s) else none
]

-- `rm_name(&path)`: the path that is left, and the name. Of an empty path it gives a pointer before
-- the string, `none`.
unfoldable pub rm_name : Text → Option (Text × Text)
rm_name [] = none
rm_name (c ∷ path) = elim (last_cut path) [
  | some (before, after) ↦ some (c ∷ before, after)
  | none ↦ some ([], c ∷ path)
]
