-- ===== src/Fs/Whole/Listings.antt =====
-- src/fs_lib.c: the functions that show directories and files write no zone.
use cs356_mini_file_system.Base.{
  Bool-cases, List, Option, [], false, inl, inr, map, none, some, suc, true, zero, ℕ, ◌%◌, ◌+◌,
  ◌==◌, ◌^◌, ◌∷◌,
}
use cs356_mini_file_system.Utils.Text.{Text, codes, has_nul}
use cs356_mini_file_system.Layout.{Dentry, Sub, to_dentry, to_dir_zone, to_idx_zone, to_inode}
use cs356_mini_file_system.Store.Whole.{WritesWhole, Yields, both, either}
use cs356_mini_file_system.Alloc.Bitmap.{d_occupied, i_occupied}
use cs356_mini_file_system.Fs.Release.{each_ptr}
use cs356_mini_file_system.Fs.Listing.{
  count_by_state, count_dentry, count_dzone, find_name, get_ls_len, get_ls_len_cont, name_text,
  show_name_dzone, show_sub_name, show_sub_name_cont,
}
use cs356_mini_file_system.Fs.Size.{
  at_free_slot, entry_size, failed, get_size, get_size_of, sum_entries, summed, to_int,
}
use cs356_mini_file_system.Fs.Show.{
  cat_data, cat_dir, cat_dir_cont, cat_file, cat_idx_data, cat_idx_idx, line, on_expect, replied,
  show_dir, show_file, show_sub,
}
use cs356_mini_file_system.Fs.Whole.Files.{each_ptr-Whole, three_loops-Whole}
use cs356_mini_file_system.Store.Prog.{Prog, pure, send_msg, ◌>>=◌}

get_ls_len_cont-Whole : (fuel id : ℕ) → WritesWhole (get_ls_len_cont fuel id)
unfolding get_ls_len_cont count_dzone Yields
get_ls_len_cont-Whole zero id = tt
get_ls_len_cont-Whole (suc fuel) id = (
  tt,
  λ zone full.
      let dzone = to_dir_zone zone in
      either (dzone.next == 0) _ _
        (λ more.
          both (get_ls_len_cont fuel dzone.next) (λ len. pure (5 + len))
            (get_ls_len_cont-Whole fuel dzone.next) (λ len. tt))
        (λ last. tt),
)

count_by_state-Whole : (fuel id state : ℕ) → WritesWhole (count_by_state fuel id state)
unfolding count_by_state count_dentry
count_by_state-Whole fuel id state = elim (Bool-cases (state == i_occupied)) [
  | inl file ↦ rw file (unfold Yields in tt)
  | inr other ↦ rw other (elim (Bool-cases (state == d_occupied)) [
    | inr none_ ↦ rw none_ (unfold Yields in tt)
    | inl dir ↦ rw dir (
        unfold Yields in
        (
          tt,
          λ zone full.
              let dentry = to_dentry zone in
              either (dentry.next == 0) _ _
                (λ more.
                  both (get_ls_len_cont fuel dentry.next) (λ len. pure (4 + len))
                    (get_ls_len_cont-Whole fuel dentry.next) (λ len. tt))
                (λ last. tt),
        ))
  ])
]

pub get_ls_len-Whole : (fuel id : ℕ) → WritesWhole (get_ls_len fuel id)
unfolding get_ls_len Yields
get_ls_len-Whole fuel id state = count_by_state-Whole fuel id state

name_text-Whole : (field : List ℕ) → WritesWhole (name_text field)
unfolding name_text Yields
name_text-Whole field = elim (Bool-cases (has_nul field)) [
  | inl nul ↦ rw nul tt
  | inr no_nul ↦ rw no_nul tt
]

-- the name of an entry that is looked for
named-Whole :
    (found : Option (List ℕ)) (next : ℕ) (rest : Prog (Option Text))
    → WritesWhole rest
    → WritesWhole (elim found [
      | some field ↦ do name ← name_text field; pure (some name)
      | none ↦ elim (next == 0) [ true ↦ pure none | false ↦ rest ]
    ])
unfolding Yields
named-Whole none next rest h = either (next == 0) rest (pure none) (λ more. h) (λ last. tt)
named-Whole (some field) next rest h =
    both (name_text field) (λ name. pure (some name)) (name_text-Whole field) (λ name. tt)

show_sub_name_cont-Whole : (fuel p_id id : ℕ) → WritesWhole (show_sub_name_cont fuel p_id id)
unfolding show_sub_name_cont show_name_dzone Yields
show_sub_name_cont-Whole zero p_id id = tt
show_sub_name_cont-Whole (suc fuel) p_id id = (
  tt,
  λ zone full.
      named-Whole (find_name (to_dir_zone zone).subs id) (to_dir_zone zone).next _
        (show_sub_name_cont-Whole fuel (to_dir_zone zone).next id),
)

show_sub_name-Whole : (fuel p_id id : ℕ) → WritesWhole (show_sub_name fuel p_id id)
unfolding show_sub_name Yields
show_sub_name-Whole fuel p_id id = (
  tt,
  λ zone full.
      named-Whole (find_name (to_dentry zone).subs id) (to_dentry zone).next _
        (show_sub_name_cont-Whole fuel (to_dentry zone).next id),
)

module _ (dir_size : Dentry → Prog ℕ) (h : (dir : Dentry) → WritesWhole (dir_size dir)) where
  entry_size-Whole : (id : ℕ) → WritesWhole (entry_size dir_size id)
  unfolding entry_size Yields
  entry_size-Whole id state =
      either (state == i_occupied) _ _
        (λ other state'.
          either (state' == d_occupied) (pure none) _ (λ e. tt)
            (λ dir. (
              tt,
              λ zone full.
                  both (dir_size (to_dentry zone)) (λ size. pure (some size)) (h (to_dentry zone))
                    (λ size. tt),
            )))
        (λ file. (tt, λ zone full. tt))

  sum_entries-Whole : (subs : List Sub) (size : ℕ) → WritesWhole (sum_entries dir_size subs size)
  unfolding sum_entries Yields
  sum_entries-Whole [] size = tt
  sum_entries-Whole (sub ∷ subs) size =
      either (sub.id == 0) _ (pure (at_free_slot size))
        (λ used.
          both (entry_size dir_size sub.id)
            (elim [ none ↦ pure failed | some n ↦ sum_entries dir_size subs ((size + n) % 2 ^ 32) ])
            (entry_size-Whole sub.id)
            (elim [ none ↦ tt | some n ↦ sum_entries-Whole subs ((size + n) % 2 ^ 32) ]))
        (λ free. tt)

get_size_of-Whole :
    (fuel : ℕ) (subs : List Sub) (next : ℕ) → WritesWhole (get_size_of fuel subs next)
unfolding get_size_of Yields
get_size_of-Whole zero subs next = tt
get_size_of-Whole (suc fuel) subs next =
    both (sum_entries (λ (dir : Dentry). get_size_of fuel dir.subs dir.next) subs 1) _
      (sum_entries-Whole (λ (dir : Dentry). get_size_of fuel dir.subs dir.next)
        (λ dir. get_size_of-Whole fuel dir.subs dir.next) subs 1)
      (elim [
        | at_free_slot size ↦ tt
        | failed ↦ tt
        | summed size ↦
            either (next == 0) _ (pure size)
              (λ more. (
                tt,
                λ zone full.
                    let dzone = to_dir_zone zone in
                    both (get_size_of fuel dzone.subs dzone.next)
                      (λ further. pure ((size + further) % 2 ^ 32))
                      (get_size_of-Whole fuel dzone.subs dzone.next) (λ further. tt),
              ))
              (λ last. tt)
      ])

pub replied-Whole : (expected : Text) → WritesWhole (replied expected)
unfolding replied Yields
replied-Whole expected = elim [ none ↦ tt | some text ↦ tt ]

on_expect-Whole : (m : Prog (Unit {0})) → WritesWhole m → WritesWhole (on_expect m)
unfolding on_expect
on_expect-Whole m h =
    both (replied (codes "EXPECT")) (λ expected. elim expected [ true ↦ m | false ↦ pure tt ])
      (replied-Whole (codes "EXPECT"))
      (λ expected. either expected (pure tt) m (λ no_. unfold Yields in tt) (λ yes_. h))

pub show_file-Whole : (fuel id : ℕ) → WritesWhole (show_file fuel id)
unfolding show_file
show_file-Whole fuel id = on_expect-Whole _ (
    unfold Yields in
    (
      tt,
      λ zone full.
          let inode = to_inode zone in
          both (show_sub_name fuel inode.parent id)
            (λ name.
              send_msg (line false inode.mode inode.owner (to_int inode.size) inode.time name))
            (show_sub_name-Whole fuel inode.parent id) (λ name. tt),
    ))

show_dir-Whole : (fuel id : ℕ) → WritesWhole (show_dir fuel id)
unfolding show_dir get_size
show_dir-Whole fuel id = on_expect-Whole _ (
    unfold Yields in
    (
      tt,
      λ zone full.
          let dentry = to_dentry zone in
          both (get_size_of fuel dentry.subs dentry.next) _
            (get_size_of-Whole fuel dentry.subs dentry.next)
            (λ size.
              both (show_sub_name fuel dentry.parent id)
                (λ name. send_msg (line true dentry.mode dentry.owner size dentry.time name))
                (show_sub_name-Whole fuel dentry.parent id) (λ name. tt)),
    ))

show_sub-Whole : (fuel id : ℕ) → WritesWhole (show_sub fuel id)
unfolding show_sub Yields
show_sub-Whole fuel id state =
    either (state == d_occupied) _ (show_dir fuel id)
      (λ other state'.
        either (state' == i_occupied) _ (show_file fuel id)
          (λ none_.
            both (on_expect (send_msg (codes "\n"))) _ (on_expect-Whole (send_msg (codes "\n")) tt)
              (λ t shown. tt))
          (λ file. show_file-Whole fuel id))
      (λ dir. show_dir-Whole fuel id)

pub cat_dir-Whole : (fuel id : ℕ) → WritesWhole (cat_dir fuel id)
unfolding cat_dir cat_dir_cont Yields
cat_dir-Whole fuel id = (
  tt,
  λ zone full.
      let dentry = to_dentry zone in
      both (each_ptr (λ sub. show_sub fuel sub) (map (λ (sub : Sub). sub.id) dentry.subs)) _
        (each_ptr-Whole (λ sub. show_sub fuel sub) (map (λ (sub : Sub). sub.id) dentry.subs)
          (λ sub. show_sub-Whole fuel sub))
        (λ ran.
          either ran (pure tt) _ (λ stopped_. tt)
            (λ ran_.
              either (dentry.next == 0) _ (pure tt) (λ more. (tt, λ zone' full'. tt))
                (λ last. tt))),
)

cat_data-Whole : (id : ℕ) → WritesWhole (cat_data id)
unfolding cat_data
cat_data-Whole id = on_expect-Whole _ (unfold Yields in (tt, λ zone full. tt))

cat_idx_data-Whole : (id : ℕ) → WritesWhole (cat_idx_data id)
unfolding cat_idx_data Yields
cat_idx_data-Whole id = (
  tt,
  λ zone full.
      both (each_ptr cat_data (to_idx_zone zone)) (λ ran. pure tt)
        (each_ptr-Whole cat_data (to_idx_zone zone) cat_data-Whole) (λ ran. tt),
)

cat_idx_idx-Whole : (id : ℕ) → WritesWhole (cat_idx_idx id)
unfolding cat_idx_idx Yields
cat_idx_idx-Whole id = (
  tt,
  λ zone full.
      both (each_ptr cat_idx_data (to_idx_zone zone)) (λ ran. pure tt)
        (each_ptr-Whole cat_idx_data (to_idx_zone zone) cat_idx_data-Whole) (λ ran. tt),
)

pub cat_file-Whole : (id : ℕ) → WritesWhole (cat_file id)
unfolding cat_file Yields
cat_file-Whole id = (
  tt,
  λ zone full.
      three_loops-Whole cat_data cat_idx_data cat_idx_idx (to_inode zone).ptrs cat_data-Whole
        cat_idx_data-Whole cat_idx_idx-Whole,
)
