-- ===== src/Fs/Show.antt =====
-- src/fs_lib.c: the lines of a listing and the text of a file, as messages to the client. No text is
-- as long as the socket's buffer, so `cat_str` never cuts one.
pub mod Stream
pub mod Whole
pub mod Count
use cs356_mini_file_system.Store.Prog.{
  Prog, fault, get_msg, get_state, on_read, pure, send_msg, time, ◌>>=◌, ◌>>◌,
}
use cs356_mini_file_system.Base.{
  Bool, Option, [], drop, false, if◌then◌else◌, map, none, some, take, true, ℕ, ◌%◌, ◌*◌, ◌++◌, ◌/◌,
  ◌==◌, ◌^◌,
}
use cs356_mini_file_system.Layout.{Sub, to_dentry, to_idx_zone, to_inode}
use cs356_mini_file_system.Utils.Text.{Text, c_string, codes, str_eq}
use cs356_mini_file_system.Utils.Decimal.{itoa, to_long}
use cs356_mini_file_system.Alloc.Bitmap.{d_occupied, i_occupied}
use cs356_mini_file_system.Fs.Size.{get_size, show_mode, to_int}
use cs356_mini_file_system.Fs.Listing.{show_sub_name}
use cs356_mini_file_system.Fs.Release.{and_if, each_ptr}

-- `!strcmp(get_msg(sock), expected)`
unfoldable pub replied : Text → Prog Bool
replied expected = do
  msg ← get_msg
  elim msg [ none ↦ fault | some text ↦ pure (str_eq text expected) ]

-- `if (!strcmp(get_msg(sock), "EXPECT")) ...`
unfoldable pub on_expect : Prog (Unit {0}) → Prog (Unit {0})
on_expect m = do expected ← replied (codes "EXPECT"); elim expected [ true ↦ m | false ↦ pure tt ]

unfoldable pub show_owner : ℕ → Text
show_owner owner =
    let own = owner / 2 ^ 8 % 2 ^ 8 in
    let grp = owner % 2 ^ 8 in
    codes "\t"
    ++ (if own == 0 then codes "root" else codes "user_" ++ itoa own)
    ++ codes "\t"
    ++ (if grp == 0 then codes "root" else codes "group_" ++ itoa grp)

-- `size<<6` of an `int`, as the `long` that `cat_int` takes
abbrev pub bytes_of : ℕ → ℕ
bytes_of size = to_long (size * 2 ^ 6 % 2 ^ 32)

-- `show_sub_name` with its tab
unfoldable pub name_part : Option Text → Text
name_part none = []
name_part (some name) = codes "\t" ++ name

-- one line of a listing
unfoldable pub line : Bool → ℕ → ℕ → ℕ → ℕ → Option Text → Text
line d mode owner size now name =
    show_mode d mode
    ++ show_owner owner
    ++ codes "\t"
    ++ itoa (bytes_of size)
    ++ codes "\t"
    ++ itoa now
    ++ name_part name
    ++ codes "\n"

unfoldable pub show_file : ℕ → ℕ → Prog (Unit {0})
show_file fuel id = on_expect (
    on_read id (elim [
      | none ↦ send_msg (codes "\n")
      | some zone ↦
          let inode = to_inode zone in
          do
            name ← show_sub_name fuel inode.parent id
            send_msg (line false inode.mode inode.owner (to_int inode.size) inode.time name)
    ]))

unfoldable pub show_dir : ℕ → ℕ → Prog (Unit {0})
show_dir fuel id = on_expect (
    on_read id (elim [
      | none ↦ send_msg (codes "\n")
      | some zone ↦
          let dentry = to_dentry zone in
          do
            size ← get_size fuel dentry
            name ← show_sub_name fuel dentry.parent id
            send_msg (line true dentry.mode dentry.owner size dentry.time name)
    ]))

-- one round of the loop of `cat_dir`, for an entry in use
unfoldable pub show_sub : ℕ → ℕ → Prog (Unit {0})
show_sub fuel id = do
  state ← get_state id
  elim (state == d_occupied) [
    | true ↦ show_dir fuel id
    | false ↦ do
      state' ← get_state id
      elim (state' == i_occupied) [
        | true ↦ show_file fuel id
        | false ↦ do on_expect (send_msg (codes "\n")); shown ← get_state id; pure tt
      ]
  ]

-- `cat_dir_cont`: its test of the zone is the wrong way round, so that the loop behind it is
-- reached with a null pointer only.
unfoldable pub cat_dir_cont : ℕ → Prog (Unit {0})
cat_dir_cont id = on_read id (elim [ none ↦ fault | some zone ↦ pure tt ])

unfoldable pub cat_dir : ℕ → ℕ → Prog (Unit {0})
cat_dir fuel id = on_read id (elim [
  | none ↦ pure tt
  | some zone ↦
      let dentry = to_dentry zone in
      do
        full ← each_ptr (λ sub. show_sub fuel sub) (map (λ (sub : Sub). sub.id) dentry.subs)
        elim full [
          | false ↦ pure tt
          | true ↦ elim (dentry.next == 0) [ true ↦ pure tt | false ↦ cat_dir_cont dentry.next ]
        ]
])

-- The 64 bytes are followed by a NUL. `memcpy` from a null pointer is a fault.
unfoldable pub cat_data : ℕ → Prog (Unit {0})
cat_data id = on_expect (on_read id (elim [ none ↦ fault | some zone ↦ send_msg (c_string zone) ]))

-- `cat_idx(sock, id, 0)`
unfoldable pub cat_idx_data : ℕ → Prog (Unit {0})
cat_idx_data id =
    on_read id
      (elim [ none ↦ pure tt | some zone ↦ do ran ← each_ptr cat_data (to_idx_zone zone); pure tt ])

-- `cat_idx(sock, id, 1)`
unfoldable pub cat_idx_idx : ℕ → Prog (Unit {0})
cat_idx_idx id = on_read id (elim [
  | none ↦ pure tt
  | some zone ↦ do ran ← each_ptr cat_idx_data (to_idx_zone zone); pure tt
])

unfoldable pub cat_file : ℕ → Prog (Unit {0})
cat_file id = on_read id (elim [
  | none ↦ pure tt
  | some zone ↦
      let ptrs = (to_inode zone).ptrs in
      do
        direct ← each_ptr cat_data (take 20 ptrs)
        single ← and_if direct (each_ptr cat_idx_data (take 2 (drop 20 ptrs)))
        double ← and_if single (each_ptr cat_idx_idx (take 2 (drop 22 ptrs)))
        pure tt
])
