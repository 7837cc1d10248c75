-- ===== src/Fs/Listing.antt =====
-- src/fs_lib.c: how many entries a listing has, and the search for an entry's name.
pub mod Length
use cs356_mini_file_system.Store.Prog.{
  Prog, fault, on_read, on_state, out_of_fuel, pure, ◌>>=◌, ◌>>◌,
}
use cs356_mini_file_system.Base.{
  List, Option, [], false, if◌then◌else◌, none, some, suc, true, zero, ℕ, ◌+◌, ◌==◌, ◌∷◌,
}
use cs356_mini_file_system.Utils.Text.{Text, c_string, has_nul}
use cs356_mini_file_system.Alloc.Bitmap.{d_occupied, i_occupied}
use cs356_mini_file_system.Layout.{
  Dentry, DirZone, Sub, dentry_subs, dzone_subs, to_dentry, to_dir_zone,
}

-- the loop that counts the entries of the last zone
unfoldable pub count_subs : List Sub → ℕ
count_subs [] = 0
count_subs (sub ∷ subs) = if sub.id == 0 then 0 else suc (count_subs subs)

-- `get_ls_len_cont` below its read; `rest` is its call of itself
unfoldable pub count_dzone : (ℕ → Prog ℕ) → DirZone → Prog ℕ
count_dzone rest dzone = elim (dzone.next == 0) [
  | true ↦ pure (count_subs dzone.subs)
  | false ↦ do len ← rest dzone.next; pure (dzone_subs + len)
]

-- Without a zone the function returns no value.
unfoldable pub get_ls_len_cont : ℕ → ℕ → Prog ℕ
get_ls_len_cont zero id = out_of_fuel
get_ls_len_cont (suc fuel) id = on_read id (elim [
  | none ↦ fault
  | some zone ↦ count_dzone (λ q. get_ls_len_cont fuel q) (to_dir_zone zone)
])

unfoldable pub count_dentry : (ℕ → Prog ℕ) → Dentry → Prog ℕ
count_dentry rest dentry = elim (dentry.next == 0) [
  | true ↦ pure (count_subs dentry.subs)
  | false ↦ do len ← rest dentry.next; pure (dentry_subs + len)
]

unfoldable pub count_by_state : ℕ → ℕ → ℕ → Prog ℕ
count_by_state fuel id state =
    if state == i_occupied
    then pure 1
    else if state == d_occupied
    then on_read id (elim [
      | none ↦ fault
      | some zone ↦ count_dentry (λ q. get_ls_len_cont fuel q) (to_dentry zone)
    ])
    else pure 0

unfoldable pub get_ls_len : ℕ → ℕ → Prog ℕ
get_ls_len fuel id = on_state id (count_by_state fuel id)

-- `show_sub_name`: the name of the entry `id`, among the slots up to the first free one
unfoldable pub find_name : List Sub → ℕ → Option (List ℕ)
find_name [] id = none
find_name (sub ∷ subs) id =
    if sub.id == 0 then none else if id == sub.id then some sub.name else find_name subs id

-- `cat_str(sock, name)`: the bytes of the name, which must hold a NUL
unfoldable pub name_text : List ℕ → Prog Text
name_text field = if has_nul field then pure (c_string field) else fault

-- What `show_sub_name_cont` prints, after its tab; nothing if the entry is not found.
unfoldable pub show_name_dzone : (ℕ → Prog (Option Text)) → DirZone → ℕ → Prog (Option Text)
show_name_dzone rest dzone id = elim (find_name dzone.subs id) [
  | some field ↦ do name ← name_text field; pure (some name)
  | none ↦ elim (dzone.next == 0) [ true ↦ pure none | false ↦ rest dzone.next ]
]

unfoldable pub show_sub_name_cont : ℕ → ℕ → ℕ → Prog (Option Text)
show_sub_name_cont zero p_id id = out_of_fuel
show_sub_name_cont (suc fuel) p_id id = on_read p_id (elim [
  | none ↦ pure none
  | some zone ↦ show_name_dzone (λ q. show_sub_name_cont fuel q id) (to_dir_zone zone) id
])

unfoldable pub show_sub_name : ℕ → ℕ → ℕ → Prog (Option Text)
show_sub_name fuel p_id id = on_read p_id (elim [
  | none ↦ pure none
  | some zone ↦
      let dentry = to_dentry zone in
      elim (find_name dentry.subs id) [
        | some field ↦ do name ← name_text field; pure (some name)
        | none ↦ elim (dentry.next == 0) [
          | true ↦ pure none
          | false ↦ show_sub_name_cont fuel dentry.next id
        ]
      ]
])
