-- ===== src/Server.antt =====
-- src/server.c: the commands of the client's shell, as programs over zones. A command that returns 1
-- has failed. The current directory is passed on, and a command whose argument is used again gives
-- back the string that the argument has become. One fuel bounds every recursion along a chain.
pub mod Entry
pub mod Errors
pub mod Interpret
pub mod Refuse
pub mod Change
pub mod WriteRead
pub mod Make
pub mod Writes
pub mod Whole
pub mod Remove
use cs356_mini_file_system.Store.Prog.{
  Prog, fault, get_free_id, get_state, on_read, pure, send_msg, time, write_zone, ◌>>=◌, ◌>>◌,
}
use cs356_mini_file_system.Base.{
  Bool, List, Option, false, length, ltb, none, replicate, some, true, ℕ, ◌==◌,
}
use cs356_mini_file_system.Layout.{
  Dentry, Inode, dentry_subs, of_dentry, of_inode, to_dentry, to_inode,
}
use cs356_mini_file_system.Utils.Text.{Text, codes}
use cs356_mini_file_system.Utils.Decimal.{itoa, to_long}
use cs356_mini_file_system.Alloc.Bitmap.{d_occupied, i_occupied}
use cs356_mini_file_system.Paths.{FilePath, get_path, id_of, rm_name}
use cs356_mini_file_system.Fs.Size.{to_int}
use cs356_mini_file_system.Fs.Listing.{get_ls_len}
use cs356_mini_file_system.Fs.Release.{rm_dentry, rm_inode}
use cs356_mini_file_system.Fs.Remove.{rm_sub}
use cs356_mini_file_system.Fs.Data.{add_data, get_cat_len, not_negative}
use cs356_mini_file_system.Fs.Dir.{add_sub, zero_sub}
use cs356_mini_file_system.Fs.Show.{cat_dir, cat_file, replied, show_file}

-- the zone of a new file
abbrev pub new_inode : ℕ → ℕ → Inode
new_inode parent now = record {
  parent = parent;
  mode = 493;
  owner = 0;
  size = 1;
  ptrs = replicate 24 0;
  time = now;
}

-- the zone of a new directory
abbrev pub new_dentry : ℕ → ℕ → Dentry
new_dentry parent now = record {
  parent = parent;
  mode = 493;
  owner = 0;
  subs = replicate dentry_subs zero_sub;
  next = 0;
  time = now;
}

-- the command on the path that the search finds; without one it returns 1
unfoldable pub with_path : FilePath → Text → (FilePath → Prog Bool) → Prog Bool
with_path pwd path_str command = do
  (found, text) ← get_path pwd path_str
  elim found [ none ↦ pure true | some path ↦ command path ]

-- `if (state != get_state(id)) return 1;` before the command
unfoldable pub with_state : ℕ → ℕ → Prog Bool → Prog Bool
with_state id state command = do
  found ← get_state id
  elim (found == state) [ false ↦ pure true | true ↦ command ]

-- the command on the zone `id`; without one it returns 1
unfoldable pub with_zone : ℕ → (List ℕ → Prog Bool) → Prog Bool
with_zone id command = on_read id (elim [ none ↦ pure true | some zone ↦ command zone ])

-- the command on a new id in the state, if it is not below 0
unfoldable pub with_new_id : ℕ → (ℕ → Prog Bool) → Prog Bool
with_new_id state command = do
  id ← get_free_id state
  elim (not_negative id) [ false ↦ pure true | true ↦ command id ]

-- what `mk_file` and `mk_dir` do in the directory `p_id`: an id in the state is taken, its zone
-- written, and the entry added
unfoldable pub make_in : ℕ → ℕ → (ℕ → List ℕ) → ℕ → Text → Prog Bool
make_in fuel state zone_at p_id name = with_state p_id d_occupied (
    with_new_id state
      (λ id. do now ← time; write_zone id (zone_at now); add_sub fuel p_id id name; pure false))

-- below `rm_name`
unfoldable pub make_named : ℕ → ℕ → (ℕ → ℕ → List ℕ) → FilePath → Option (Text × Text) → Prog Bool
make_named fuel state zone_of pwd none = fault
make_named fuel state zone_of pwd (some (parent, name)) =
    with_path pwd parent (λ path. make_in fuel state (zone_of (id_of path)) (id_of path) name)

-- `mk_file` and `mk_dir` are one function of the state and of the zone that they write.
unfoldable pub make : ℕ → ℕ → (ℕ → ℕ → List ℕ) → FilePath → Text → Prog Bool
make fuel state zone_of pwd path_str = do
  (found, text) ← get_path pwd path_str
  elim found [ some path ↦ pure true | none ↦ make_named fuel state zone_of pwd (rm_name text) ]

unfoldable pub mk_file : ℕ → FilePath → Text → Prog Bool
mk_file fuel pwd path_str =
    make fuel i_occupied (λ parent now. of_inode (new_inode parent now)) pwd path_str

unfoldable pub mk_dir : ℕ → FilePath → Text → Prog Bool
mk_dir fuel pwd path_str =
    make fuel d_occupied (λ parent now. of_dentry (new_dentry parent now)) pwd path_str

-- `rm_file` below its search
unfoldable pub rm_file_at : ℕ → FilePath → Prog Bool
rm_file_at fuel path =
    with_zone (id_of path) (λ zone. do
      rm_inode (id_of path)
      rm_sub fuel (to_inode zone).parent (id_of path)
      pure false)

-- `rm_file`, with the string that its argument has become
unfoldable pub rm_file_text : ℕ → FilePath → Text → Prog (Bool × Text)
rm_file_text fuel pwd file_path = do
  (found, text) ← get_path pwd file_path
  error ← elim found [ none ↦ pure true | some path ↦ rm_file_at fuel path ]
  pure (error, text)

unfoldable pub rm_file : ℕ → FilePath → Text → Prog Bool
rm_file fuel pwd file_path = with_path pwd file_path (λ path. rm_file_at fuel path)

unfoldable pub rm_dir : ℕ → FilePath → Text → Prog Bool
rm_dir fuel pwd dir_path = with_path pwd dir_path (λ path. with_zone (id_of path) (λ zone. do
  rm_dentry fuel (id_of path)
  rm_sub fuel (to_dentry zone).parent (id_of path)
  pure false))

-- the `switch` of `list`; without a case for the state the function goes on to `return 1`
unfoldable pub show_by_state : ℕ → ℕ → ℕ → Prog Bool
show_by_state fuel id state = elim (state == i_occupied) [
  | true ↦ do show_file fuel id; pure false
  | false ↦ elim (state == d_occupied) [
    | true ↦ do cat_dir fuel id; pure false
    | false ↦ do shown ← get_state id; pure true
  ]
]

unfoldable pub list : ℕ → FilePath → Text → Prog Bool
list fuel pwd path_str = with_path pwd path_str (λ path. do
  send_msg (codes "2")
  acked ← replied (codes "ACK")
  elim acked [
    | false ↦ pure true
    | true ↦ do
      len ← get_ls_len fuel (id_of path)
      send_msg (itoa (to_long len))
      state ← get_state (id_of path)
      show_by_state fuel (id_of path) state
  ])

-- what `cat` sends of the file `id`
unfoldable pub send_file : ℕ → Inode → Prog (Unit {0})
send_file id inode = do
  send_msg (codes "2")
  acked ← replied (codes "ACK")
  elim acked [
    | false ↦ pure tt
    | true ↦ do send_msg (itoa (to_long (get_cat_len (to_int inode.size)))); cat_file id
  ]

unfoldable pub cat : FilePath → Text → Prog Bool
cat pwd file_path = with_path pwd file_path (λ path.
    with_state (id_of path) i_occupied
      (with_zone (id_of path) (λ zone. do send_file (id_of path) (to_inode zone); pure false)))

-- `append` on the inode that it has read
unfoldable pub append_to : ℕ → ℕ → Inode → Text → Prog Bool
append_to fuel id inode str = elim (ltb 0 (length str)) [
  | false ↦ pure false
  | true ↦ do inode' ← add_data fuel inode str; write_zone id (of_inode inode'); pure false
]

unfoldable pub append : ℕ → FilePath → Text → Text → Prog Bool
append fuel pwd file_path str = with_path pwd file_path (λ path.
    with_state (id_of path) i_occupied
      (with_zone (id_of path) (λ zone. append_to fuel (id_of path) (to_inode zone) str)))

-- `mk_file(f_path_cpy) || append(file_path, str)`
unfoldable pub make_and_append : ℕ → FilePath → Text → Text → Text → Prog Bool
make_and_append fuel pwd f_path_cpy file_path str = do
  error ← mk_file fuel pwd f_path_cpy
  elim error [ true ↦ pure true | false ↦ append fuel pwd file_path str ]

-- `wrt`; `strcpy` into the 64 bytes of the copy must fit with the NUL.
unfoldable pub wrt : ℕ → FilePath → Text → Text → Prog Bool
wrt fuel pwd file_path str = elim (ltb (length file_path) 64) [
  | false ↦ fault
  | true ↦ do
    (found, text) ← get_path pwd file_path
    elim found [
      | none ↦ make_and_append fuel pwd file_path text str
      | some path ↦ do
        state ← get_state (id_of path)
        elim (state == i_occupied) [
          | false ↦ pure true
          | true ↦ do
            (error, text') ← rm_file_text fuel pwd text
            make_and_append fuel pwd file_path text' str
        ]
    ]
]

-- `change` below its search
unfoldable pub change_to : FilePath → Option FilePath → Prog (Bool × FilePath)
change_to pwd none = pure (true, pwd)
change_to pwd (some path) = do
  state ← get_state (id_of path)
  elim (state == d_occupied) [ false ↦ pure (true, pwd) | true ↦ pure (false, path) ]

-- `change`: the result and the current directory behind it
unfoldable pub change : FilePath → Text → Prog (Bool × FilePath)
change pwd dir_path = do (found, text) ← get_path pwd dir_path; change_to pwd found
