-- ===== src/Fs/Whole/Files.antt =====
-- src/fs_lib.c: the zones that are written where a file is released or a text appended to it.
use cs356_mini_file_system.Base.{
  Bool, List, [], drop, false, map, suc, take, true, zero, ℕ, ◌==◌, ◌∷◌,
}
use cs356_mini_file_system.Layout.{Sub, to_dentry, to_dir_zone, to_idx_zone, to_inode}
use cs356_mini_file_system.Store.Whole.{WritesWhole, Yields, both, either}
use cs356_mini_file_system.Fs.Release.{
  and_if, each_ptr, rm_dentry, rm_dir_zone, rm_idx_data, rm_idx_idx, rm_inode, rm_ptrs,
}
use cs356_mini_file_system.Store.Prog.{Prog, pure, set_free_id, ◌>>=◌, ◌>>◌}

pub each_ptr-Whole :
    (body : ℕ → Prog (Unit {0})) (ptrs : List ℕ)
    → ((id : ℕ) → WritesWhole (body id))
    → WritesWhole (each_ptr body ptrs)
unfolding each_ptr Yields
each_ptr-Whole body [] h = tt
each_ptr-Whole body (p ∷ ps) h =
    either (p == 0) (do body p; each_ptr body ps) (pure false)
      (λ used. both (body p) (λ t. each_ptr body ps) (h p) (λ t. each_ptr-Whole body ps h))
      (λ free. tt)

pub and_if-Whole : (b : Bool) (m : Prog Bool) → WritesWhole m → WritesWhole (and_if b m)
unfolding and_if Yields
and_if-Whole true m h = h
and_if-Whole false m h = tt

set_free_id-Whole : (id : ℕ) → WritesWhole (set_free_id id)
unfolding Yields
set_free_id-Whole id = tt

rm_idx_data-Whole : (id : ℕ) → WritesWhole (rm_idx_data id)
unfolding rm_idx_data Yields
rm_idx_data-Whole id = (
  tt,
  λ zone full.
      both (each_ptr set_free_id (to_idx_zone zone)) (λ ran. pure tt)
        (each_ptr-Whole _ (to_idx_zone zone) set_free_id-Whole) (λ ran. tt),
)

rm_idx_idx-Whole : (id : ℕ) → WritesWhole (rm_idx_idx id)
unfolding rm_idx_idx Yields
rm_idx_idx-Whole id = (
  tt,
  λ zone full.
      both (each_ptr rm_idx_data (to_idx_zone zone)) (λ ran. pure tt)
        (each_ptr-Whole _ (to_idx_zone zone) rm_idx_data-Whole) (λ ran. tt),
)

-- three loops over the pointers of an inode
pub three_loops-Whole :
    (direct single double : ℕ → Prog (Unit {0})) (ptrs : List ℕ)
    → ((id : ℕ) → WritesWhole (direct id))
    → ((id : ℕ) → WritesWhole (single id))
    → ((id : ℕ) → WritesWhole (double id))
    → WritesWhole (do
      ran ← each_ptr direct (take 20 ptrs)
      ran' ← and_if ran (each_ptr single (take 2 (drop 20 ptrs)))
      ran'' ← and_if ran' (each_ptr double (take 2 (drop 22 ptrs)))
      pure tt)
unfolding Yields
three_loops-Whole direct single double ptrs h k l =
    both (each_ptr direct (take 20 ptrs)) _ (each_ptr-Whole direct (take 20 ptrs) h) (λ ran.
      both (and_if ran (each_ptr single (take 2 (drop 20 ptrs)))) _
        (and_if-Whole ran _ (each_ptr-Whole single (take 2 (drop 20 ptrs)) k))
        (λ ran'.
          both (and_if ran' (each_ptr double (take 2 (drop 22 ptrs)))) (λ ran''. pure tt)
            (and_if-Whole ran' _ (each_ptr-Whole double (take 2 (drop 22 ptrs)) l)) (λ ran''. tt)))

pub rm_inode-Whole : (id : ℕ) → WritesWhole (rm_inode id)
unfolding rm_inode rm_ptrs Yields
rm_inode-Whole id = (
  tt,
  λ zone full.
      three_loops-Whole set_free_id rm_idx_data rm_idx_idx (to_inode zone).ptrs set_free_id-Whole
        rm_idx_data-Whole rm_idx_idx-Whole,
)

-- the loop over the entries of a directory's zone, and what follows if it has run through
entries-Whole :
    (ids : List ℕ) (next : ℕ) (further : Prog (Unit {0}))
    → WritesWhole further
    → WritesWhole (do
      full ← each_ptr set_free_id ids
      elim full [ false ↦ pure tt | true ↦ elim (next == 0) [ true ↦ pure tt | false ↦ further ] ])
unfolding Yields
entries-Whole ids next further h =
    both (each_ptr set_free_id ids) _ (each_ptr-Whole set_free_id ids set_free_id-Whole) (λ full.
      either full (pure tt) _ (λ e. tt)
        (λ e. either (next == 0) further (pure tt) (λ e. h) (λ e. tt)))

rm_dir_zone-Whole : (fuel id : ℕ) → WritesWhole (rm_dir_zone fuel id)
unfolding rm_dir_zone Yields
rm_dir_zone-Whole zero id = tt
rm_dir_zone-Whole (suc fuel) id = (
  tt,
  λ zone full.
      entries-Whole (map (λ (sub : Sub). sub.id) (to_dir_zone zone).subs) (to_dir_zone zone).next _
        (rm_dir_zone-Whole fuel (to_dir_zone zone).next),
)

pub rm_dentry-Whole : (fuel id : ℕ) → WritesWhole (rm_dentry fuel id)
unfolding rm_dentry Yields
rm_dentry-Whole fuel id = (
  tt,
  λ zone full.
      entries-Whole (map (λ (sub : Sub). sub.id) (to_dentry zone).subs) (to_dentry zone).next _
        (rm_dir_zone-Whole fuel (to_dentry zone).next),
)
