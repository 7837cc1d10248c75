-- ===== src/Fs/Data/Size.antt =====
-- src/fs_lib.c: the size that a file's data zones give it, and the length that `cat` announces for that size.
use cs356_mini_file_system.Layout.RoundTrip.{length-to_idx_zone}
use cs356_mini_file_system.Store.Prog.{and_then, ok, pure, ◌>>=◌}
use cs356_mini_file_system.Store.Bind.{run-bind}
use cs356_mini_file_system.Alloc.Cache.{Zone}
use cs356_mini_file_system.Store.Run.{IsZone, run-pure, run-read}
use cs356_mini_file_system.Store.Spec.{Store, run}
use cs356_mini_file_system.Layout.{Inode, to_idx_zone}
use cs356_mini_file_system.Base.{
  ==_ne, List, [], ap, arith, false, if◌then◌else◌, length, length-take, ltb, refl, take, ℕ, ◌%◌,
  ◌&&◌, ◌+◌, ◌-◌, ◌<◌, ◌==◌, ◌^◌, ◌∙◌, ◌∷◌, ◌≡◌, ◌≤◌,
}
use cs356_mini_file_system.Fs.Data.{count_ptrs, get_cat_len, ptr_at, size_of_idx, update_size}

-- The inode has `n` data zones: all of them direct, or the rest in one index zone, or in two.
pub data HasZones (s : Store) (inode : Inode) : ℕ → Type 0 where
  direct :
      ptr_at inode.ptrs 20 ≡ 0
      → ptr_at inode.ptrs 21 ≡ 0
      → ptr_at inode.ptrs 22 ≡ 0
      → ptr_at inode.ptrs 23 ≡ 0
      → HasZones s inode (count_ptrs (take 20 inode.ptrs))
  one_index :
      count_ptrs (take 20 inode.ptrs) ≡ 20
      → IsZone (ptr_at inode.ptrs 20)
      → ptr_at inode.ptrs 21 ≡ 0
      → ptr_at inode.ptrs 22 ≡ 0
      → ptr_at inode.ptrs 23 ≡ 0
      → HasZones s inode (20 + count_ptrs (to_idx_zone (s.zones (ptr_at inode.ptrs 20))))
  two_indices :
      count_ptrs (take 20 inode.ptrs) ≡ 20
      → count_ptrs (to_idx_zone (s.zones (ptr_at inode.ptrs 20))) ≡ 32
      → IsZone (ptr_at inode.ptrs 21)
      → ptr_at inode.ptrs 22 ≡ 0
      → ptr_at inode.ptrs 23 ≡ 0
      → 0 < count_ptrs (to_idx_zone (s.zones (ptr_at inode.ptrs 21)))
      → HasZones s inode (52 + count_ptrs (to_idx_zone (s.zones (ptr_at inode.ptrs 21))))

-- the announced length of a file of `n` data zones
abbrev pub announced : ℕ → ℕ
announced n = if ltb 42 n && ltb n 53 then n - 1 else n

count_ptrs-le : (ps : List ℕ) → count_ptrs ps ≤ length ps
unfolding count_ptrs
count_ptrs-le [] = omega arith
count_ptrs-le (p ∷ ps) = ground (arith, count_ptrs-le ps)

get_cat_len-announced-direct : (n : ℕ) → n ≤ 20 → get_cat_len (1 + n) ≡ announced n
unfolding get_cat_len
get_cat_len-announced-direct n h = ground arith

get_cat_len-announced-one : (n : ℕ) → n ≤ 32 → get_cat_len (22 + n) ≡ announced (20 + n)
unfolding get_cat_len
get_cat_len-announced-one n h = ground arith

get_cat_len-announced-two : (n : ℕ) → n ≤ 32 → 0 < n → get_cat_len (55 + n) ≡ announced (52 + n)
unfolding get_cat_len
get_cat_len-announced-two n h pos = ground arith

run-size_of_idx :
    (s : Store) {id : ℕ}
    → IsZone id
    → run (size_of_idx id) s ≡ ok (1 + count_ptrs (to_idx_zone (s.zones id))) s
unfolding size_of_idx
run-size_of_idx s z = run-read s _ z ∙ run-pure _ s

-- the bound on the slots of an index zone
slots-le : (zone : Zone) → count_ptrs (to_idx_zone zone) ≤ 32
slots-le zone = omega (arith, count_ptrs-le (to_idx_zone zone), length-to_idx_zone zone)

run-size :
    (s : Store) (base id : ℕ)
    → IsZone id
    → base < 2 ^ 10
    → run (size_of_idx id >>= λ n. pure ((base + n) % 2 ^ 16)) s
      ≡ ok (base + 1 + count_ptrs (to_idx_zone (s.zones id))) s
run-size s base id z h =
    let k = count_ptrs (to_idx_zone (s.zones id)) in
    let e : (base + (1 + k)) % 2 ^ 16 ≡ base + 1 + k = omega (arith, slots-le (s.zones id)) in
    run-bind (size_of_idx id) _ s
    ∙ ap (λ o. and_then o (λ n s'. run (pure ((base + n) % 2 ^ 16)) s')) (run-size_of_idx s z)
    ∙ run-pure _ s
    ∙ ap (λ n. ok n s) e

IsZone-nonzero : {id : ℕ} → IsZone id → (id == 0) ≡ false
IsZone-nonzero {id} z = ==_ne id 0 (omega (arith, z.lo))

module _ (inode : Inode) (none23 : ptr_at inode.ptrs 23 ≡ 0)
    (none22 : ptr_at inode.ptrs 22 ≡ 0) where
  update_size-two :
      IsZone (ptr_at inode.ptrs 21)
      → update_size inode ≡ (size_of_idx (ptr_at inode.ptrs 21) >>= λ n. pure ((54 + n) % 2 ^ 16))
  unfolding update_size
  update_size-two z = rw (none23, none22, IsZone-nonzero z, update_size) refl

  update_size-one :
      ptr_at inode.ptrs 21 ≡ 0
      → IsZone (ptr_at inode.ptrs 20)
      → update_size inode ≡ (size_of_idx (ptr_at inode.ptrs 20) >>= λ n. pure ((21 + n) % 2 ^ 16))
  unfolding update_size
  update_size-one none21 z = rw (none23, none22, none21, IsZone-nonzero z, update_size) refl

  update_size-direct :
      ptr_at inode.ptrs 21 ≡ 0
      → ptr_at inode.ptrs 20 ≡ 0
      → update_size inode ≡ pure (1 + count_ptrs (take 20 inode.ptrs))
  unfolding update_size
  update_size-direct none21 none20 = rw (none23, none22, none21, none20, update_size) refl

-- For a file of `n` data zones without double index zones, `update_size` ends and computes a size
-- for which `get_cat_len` announces `n` zones to `cat`, but one zone too few when `n` is between
-- 43 and 52.
pub get_cat_len-update_size :
    (s : Store) (inode : Inode) {n : ℕ}
    → HasZones s inode n
    → (size : ℕ) × (run (update_size inode) s ≡ ok size s) × (get_cat_len size ≡ announced n)
get_cat_len-update_size s inode (direct z20 z21 z22 z23) = (
  1 + count_ptrs (take 20 inode.ptrs),
  ap (λ p. run p s) (update_size-direct inode z23 z22 z21 z20) ∙ run-pure _ s,
  get_cat_len-announced-direct (count_ptrs (take 20 inode.ptrs))
      (omega (arith, count_ptrs-le (take 20 inode.ptrs), length-take 20 inode.ptrs)),
)
get_cat_len-update_size s inode (one_index full z z21 z22 z23) = (
  22 + count_ptrs (to_idx_zone (s.zones (ptr_at inode.ptrs 20))),
  ap (λ p. run p s) (update_size-one inode z23 z22 z21 z) ∙ run-size s 21 _ z (omega arith),
  get_cat_len-announced-one _ (slots-le _),
)
get_cat_len-update_size s inode (two_indices full full' z z22 z23 pos) = (
  55 + count_ptrs (to_idx_zone (s.zones (ptr_at inode.ptrs 21))),
  ap (λ p. run p s) (update_size-two inode z23 z22 z) ∙ run-size s 54 _ z (omega arith),
  get_cat_len-announced-two _ (slots-le _) pos,
)
