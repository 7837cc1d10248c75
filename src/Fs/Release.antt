-- ===== src/Fs/Release.antt =====
-- src/fs_lib.c: the zones of a file or directory are given back.
pub mod Inode
use cs356_mini_file_system.Store.Prog.{Prog, on_read, out_of_fuel, pure, set_free_id, ◌>>=◌, ◌>>◌}
use cs356_mini_file_system.Base.{
  Bool, List, [], drop, false, map, none, some, suc, take, true, zero, ℕ, ◌==◌, ◌∷◌,
}
use cs356_mini_file_system.Layout.{Sub, to_dentry, to_dir_zone, to_idx_zone, to_inode}

-- `while (idx < n) { if (0 == ptrs[idx]) return; ...; idx++; }` over a part of an array: `true` says
-- that the loop ran through, and did not return.
unfoldable pub each_ptr : (ℕ → Prog (Unit {0})) → List ℕ → Prog Bool
each_ptr body [] = pure true
each_ptr body (p ∷ ps) = elim (p == 0) [ true ↦ pure false | false ↦ do body p; each_ptr body ps ]

unfoldable pub and_if : Bool → Prog Bool → Prog Bool
and_if true m = m
and_if false m = pure false

-- `rm_idx_zone(id, 0)`
unfoldable pub rm_idx_data : ℕ → Prog (Unit {0})
rm_idx_data id = on_read id (elim [
  | none ↦ pure tt
  | some zone ↦ do set_free_id id; ran ← each_ptr set_free_id (to_idx_zone zone); pure tt
])

-- `rm_idx_zone(id, 1)`
unfoldable pub rm_idx_idx : ℕ → Prog (Unit {0})
rm_idx_idx id = on_read id (elim [
  | none ↦ pure tt
  | some zone ↦ do set_free_id id; ran ← each_ptr rm_idx_data (to_idx_zone zone); pure tt
])

-- the three loops over `ptrs`
unfoldable pub rm_ptrs : List ℕ → Prog (Unit {0})
rm_ptrs ptrs = do
  direct ← each_ptr set_free_id (take 20 ptrs)
  single ← and_if direct (each_ptr rm_idx_data (take 2 (drop 20 ptrs)))
  double ← and_if single (each_ptr rm_idx_idx (take 2 (drop 22 ptrs)))
  pure tt

unfoldable pub rm_inode : ℕ → Prog (Unit {0})
rm_inode id =
    on_read id
      (elim [ none ↦ pure tt | some zone ↦ do set_free_id id; rm_ptrs (to_inode zone).ptrs ])

unfoldable pub rm_dir_zone : ℕ → ℕ → Prog (Unit {0})
rm_dir_zone zero id = out_of_fuel
rm_dir_zone (suc fuel) id = on_read id (elim [
  | none ↦ pure tt
  | some zone ↦
      let dzone = to_dir_zone zone in
      let further = rm_dir_zone fuel dzone.next in
      do
        set_free_id id
        full ← each_ptr set_free_id (map (λ (sub : Sub). sub.id) dzone.subs)
        elim full [
          | false ↦ pure tt
          | true ↦ elim (dzone.next == 0) [ true ↦ pure tt | false ↦ further ]
        ]
])

unfoldable pub rm_dentry : ℕ → ℕ → Prog (Unit {0})
rm_dentry fuel id = on_read id (elim [
  | none ↦ pure tt
  | some zone ↦
      let dentry = to_dentry zone in
      do
        set_free_id id
        full ← each_ptr set_free_id (map (λ (sub : Sub). sub.id) dentry.subs)
        elim full [
          | false ↦ pure tt
          | true ↦ elim (dentry.next == 0) [ true ↦ pure tt | false ↦ rm_dir_zone fuel dentry.next ]
        ]
])
