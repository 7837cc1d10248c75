-- ===== src/Fs/Show/Count.antt =====
-- src/fs_lib.c: the number of texts that `cat_file` sends.
use cs356_mini_file_system.Fs.Data.Size.{
  HasZones, announced, direct, get_cat_len-update_size, one_index, two_indices,
}
use cs356_mini_file_system.Store.Spec.{Store, run}
use cs356_mini_file_system.Store.Run.{IsZone}
use cs356_mini_file_system.Store.Prog.{ok}
use cs356_mini_file_system.Utils.Text.{Text}
use cs356_mini_file_system.Layout.Sizes.{length-to_inode}
use cs356_mini_file_system.Fs.Show.{cat_file}
use cs356_mini_file_system.Base.{
  Bool, List, [], ap, append-nil, arith, drop, false, get_or, length, length-append, length-map,
  length-take, map, refl, suc, sym, take, true, zero, ℕ, ◌++◌, ◌+◌, ◌∙◌, ◌∷◌, ◌≡◌, ◌≢◌, ◌≤◌,
}
use cs356_mini_file_system.Layout.{Inode, to_idx_zone, to_inode}
use cs356_mini_file_system.Fs.Data.{count_ptrs, get_cat_len, ptr_at, update_size}
use cs356_mini_file_system.Fs.Release.Inode.{used_ptrs}
use cs356_mini_file_system.Fs.Show.Stream.{Streams, all_used, concat_map}
use cs356_mini_file_system.Fs.Show.Whole.{
  IsFile, cat_file-Streams, text_at, direct_ptrs, double_ptrs, file_zones, idx_zones, single_ptrs,
  when,
}

count_ptrs-length : (ps : List ℕ) → count_ptrs ps ≡ length (used_ptrs ps)
unfolding count_ptrs used_ptrs
count_ptrs-length [] = refl
count_ptrs-length (p ∷ ps) = ground (arith, count_ptrs-length ps)

all_used-full : (ps : List ℕ) → count_ptrs ps ≡ length ps → all_used ps ≡ true
unfolding count_ptrs all_used
all_used-full [] h = refl
all_used-full (p ∷ ps) h = ground (arith, all_used-full ps)

two_at :
    (n : ℕ) (ps : List ℕ)
    → n + 2 ≤ length ps
    → take 2 (drop n ps) ≡ get_or ps n 0 ∷ get_or ps (suc n) 0 ∷ []
two_at n [] h = absurd (omega arith)
two_at zero (p ∷ []) h = absurd (omega arith)
two_at zero (p ∷ q ∷ ps) h = refl
two_at (suc n) (p ∷ ps) h = two_at n ps (omega arith)

used_none : (p q : ℕ) → p ≡ 0 → used_ptrs (p ∷ q ∷ []) ≡ []
unfolding used_ptrs
used_none p q h = ground arith

used_one : (p q : ℕ) → p ≢ 0 → q ≡ 0 → used_ptrs (p ∷ q ∷ []) ≡ p ∷ []
unfolding used_ptrs
used_one p q h k = ground arith

used_two : (p q : ℕ) → p ≢ 0 → q ≢ 0 → used_ptrs (p ∷ q ∷ []) ≡ p ∷ q ∷ []
unfolding used_ptrs
used_two p q h k = ground arith

when-nil : (b : Bool) → when b [] ≡ []
unfolding when
when-nil true = refl
when-nil false = refl

module _ (s : Store) (inode : Inode) (fits : length inode.ptrs ≡ 24)
    (none22 : ptr_at inode.ptrs 22 ≡ 0) where
  no_double : used_ptrs (double_ptrs inode.ptrs) ≡ []
  no_double =
      ap used_ptrs (two_at 22 inode.ptrs (omega arith))
      ∙ used_none (ptr_at inode.ptrs 22) (ptr_at inode.ptrs 23) none22

  -- without double index zones
  without_double :
      file_zones s.zones inode.ptrs
      ≡ used_ptrs (direct_ptrs inode.ptrs)
        ++ when
            (all_used (direct_ptrs inode.ptrs))
            (concat_map (idx_zones s.zones) (used_ptrs (single_ptrs inode.ptrs)))
  unfolding file_zones concat_map
  without_double = rw (no_double, when-nil, append-nil) refl

  single_of :
      used_ptrs (single_ptrs inode.ptrs)
      ≡ used_ptrs (ptr_at inode.ptrs 20 ∷ ptr_at inode.ptrs 21 ∷ [])
  single_of = ap used_ptrs (two_at 20 inode.ptrs (omega arith))

  full_direct : count_ptrs (direct_ptrs inode.ptrs) ≡ 20 → all_used (direct_ptrs inode.ptrs) ≡ true
  full_direct full =
      all_used-full (direct_ptrs inode.ptrs) (omega (arith, full, length-take 20 inode.ptrs, fits))

  direct-length :
      ptr_at inode.ptrs 20 ≡ 0
      → length (file_zones s.zones inode.ptrs) ≡ count_ptrs (direct_ptrs inode.ptrs)
  unfolding concat_map
  direct-length z =
      rw (without_double, single_of, used_none _ (ptr_at inode.ptrs 21) z, when-nil, append-nil)
        (sym (count_ptrs-length (direct_ptrs inode.ptrs)))

  idx_count : (id : ℕ) → length (idx_zones s.zones id) ≡ count_ptrs (to_idx_zone (s.zones id))
  idx_count id = sym (count_ptrs-length (to_idx_zone (s.zones id)))

  -- behind twenty direct zones
  behind_full :
      count_ptrs (direct_ptrs inode.ptrs) ≡ 20
      → length (file_zones s.zones inode.ptrs)
        ≡ 20
          + length (
              concat_map
                (idx_zones s.zones)
                (used_ptrs (ptr_at inode.ptrs 20 ∷ ptr_at inode.ptrs 21 ∷ [])))
  unfolding when
  behind_full full =
      rw (without_double, full_direct full, single_of, length-append)
        (omega (arith, full, count_ptrs-length (direct_ptrs inode.ptrs)))

  one-length :
      count_ptrs (direct_ptrs inode.ptrs) ≡ 20
      → ptr_at inode.ptrs 20 ≢ 0
      → ptr_at inode.ptrs 21 ≡ 0
      → length (file_zones s.zones inode.ptrs)
        ≡ 20 + count_ptrs (to_idx_zone (s.zones (ptr_at inode.ptrs 20)))
  unfolding concat_map
  one-length full nz z =
      rw (behind_full full, used_one _ (ptr_at inode.ptrs 21) nz z, append-nil)
        (ap (λ n. 20 + n) (idx_count (ptr_at inode.ptrs 20)))

  two-length :
      count_ptrs (direct_ptrs inode.ptrs) ≡ 20
      → ptr_at inode.ptrs 20 ≢ 0
      → ptr_at inode.ptrs 21 ≢ 0
      → length (file_zones s.zones inode.ptrs)
        ≡ 20
          + (count_ptrs (to_idx_zone (s.zones (ptr_at inode.ptrs 20)))
              + count_ptrs (to_idx_zone (s.zones (ptr_at inode.ptrs 21))))
  unfolding concat_map
  two-length full nz nz' =
      rw (behind_full full, used_two _ (ptr_at inode.ptrs 21) nz nz', append-nil, length-append)
        (omega (arith, idx_count (ptr_at inode.ptrs 20), idx_count (ptr_at inode.ptrs 21)))

-- the number of the data zones of a file of 24 pointers
file_zones-HasZones :
    (s : Store) (inode : Inode) {n : ℕ}
    → length inode.ptrs ≡ 24
    → (ptr_at inode.ptrs 21 ≢ 0 → ptr_at inode.ptrs 20 ≢ 0)
    → HasZones s inode n
    → length (file_zones s.zones inode.ptrs) ≡ n
file_zones-HasZones s inode fits gap (direct z20 z21 z22 z23) = direct-length s inode fits z22 z20
file_zones-HasZones s inode fits gap (one_index full z z21 z22 z23) =
    one-length s inode fits z22 full (omega (arith, z.lo)) z21
file_zones-HasZones s inode fits gap (two_indices full full' z z22 z23 pos) =
    let nz : ptr_at inode.ptrs 21 ≢ 0 = omega (arith, z.lo) in
    two-length s inode fits z22 full (gap nz) nz ∙ omega (arith, full')

-- For a file in the zone `id` whose pointers in use are ids of zones, with `n` data zones, without
-- double index zones and without a gap before its second index zone, `cat_file` sends exactly `n`
-- texts to a client that asks for each, and `update_size` ends and computes a size for which
-- `get_cat_len` announces `n` texts, but one too few when `n` is between 43 and 52.
pub cat_file-update_size :
    (s : Store) {id n : ℕ}
    → IsZone id
    → let inode = to_inode (s.zones id) in
      IsFile s.zones inode.ptrs
      → (ptr_at inode.ptrs 21 ≢ 0 → ptr_at inode.ptrs 20 ≢ 0)
      → HasZones s inode n
      → (texts : List Text) × Streams (cat_file id) s tt texts
        × (length texts ≡ n)
        × ((size : ℕ) × (run (update_size inode) s ≡ ok size s) × (get_cat_len size ≡ announced n))
cat_file-update_size s {id} z file gap has =
    let inode = to_inode (s.zones id) in
    let ids = file_zones s.zones inode.ptrs in
    (
      map (text_at s.zones) ids,
      cat_file-Streams s z file,
      length-map (text_at s.zones) ids
          ∙ file_zones-HasZones s inode (length-to_inode (s.zones id)) gap has,
      get_cat_len-update_size s inode has,
    )
