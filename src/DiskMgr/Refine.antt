-- ===== src/DiskMgr/Refine.antt =====
-- src/disk_mgr.c and src/utils.c: the disk file as the blocks that src/alloc.c reads and writes.
use cs356_mini_file_system.DiskMgr.Blocks.{length-read_file}
use cs356_mini_file_system.DiskMgr.ReadBack.{read_file-write_file}
use cs356_mini_file_system.DiskMgr.Write.{store_block-Reaches}
use cs356_mini_file_system.DiskMgr.Read.{fetch_block-Reaches}
use cs356_mini_file_system.Wire.Talk.{Reaches}
use cs356_mini_file_system.Wire.{Wire, quiet}
use cs356_mini_file_system.Base.{
  ==_ne, ==_self, All, Bool-cases, List, Option, [], ap, ap₂, arith, drop, drop-append, false, inl,
  inr, length, length-append, length-drop, length-take, lt→ltb, refl, some, suc, sym, take,
  take-append, zero, ℕ, ◌&&◌, ◌*◌, ◌++◌, ◌+◌, ◌<◌, ◌==◌, ◌∙◌, ◌∷◌, ◌≡◌, ◌≢◌, ◌≤◌, ◌⊎◌,
}
use cs356_mini_file_system.Store.Spec.{update}
use cs356_mini_file_system.Alloc.Cache.{
  Block, Disk, Zone, cylinders, read_block, sectors, write_block,
}
use cs356_mini_file_system.DiskMgr.{
  File, block_size, fetch_block, read_file, serv_loop, store_block, write_file,
}

-- the first `n` zones of some bytes
unfoldable pub split_zones : ℕ → List ℕ → List Zone
split_zones zero bytes = []
split_zones (suc n) bytes = take 64 bytes ∷ split_zones n (drop 64 bytes)

-- the bytes of a block
unfoldable pub join_zones : List Zone → List ℕ
join_zones [] = []
join_zones (zone ∷ zones) = zone ++ join_zones zones

abbrev pub IsZones : List Zone → Type 0
IsZones = All (λ (zone : Zone). length zone ≡ 64)

split_zones-join_zones :
    (zones : List Zone) → IsZones zones → split_zones (length zones) (join_zones zones) ≡ zones
unfolding split_zones join_zones
split_zones-join_zones [] h = refl
split_zones-join_zones (zone ∷ zones) h =
    ap₂ (λ z l. z ∷ split_zones (length zones) l) (take-append 64 zone (join_zones zones) h.0)
      (drop-append 64 zone (join_zones zones) h.0)
    ∙ ap (λ l. zone ∷ l) (split_zones-join_zones zones h.1)

pub length-join_zones :
    (zones : List Zone) → IsZones zones → length (join_zones zones) ≡ length zones * 64
unfolding join_zones
length-join_zones [] h = refl
length-join_zones (zone ∷ zones) h =
    omega (arith, length-append zone (join_zones zones), h.0, length-join_zones zones h.1)

split_zones-IsZones :
    (n : ℕ) (bytes : List ℕ) → length bytes ≡ n * 64 → IsZones (split_zones n bytes)
unfolding split_zones
split_zones-IsZones zero bytes h = tt
split_zones-IsZones (suc n) bytes h = (
  omega (arith, length-take 64 bytes, h),
  split_zones-IsZones n (drop 64 bytes) (omega (arith, length-drop 64 bytes, h)),
)

abbrev pub offset_of : ℕ → ℕ → ℕ
offset_of c s = block_size * (c * sectors + s)

-- The disk file as blocks of eight zones.
abbrev pub disk_of : File → Disk
disk_of file c s = split_zones 8 (read_file file (offset_of c s) block_size)

pub disk_of-IsZones : (file : File) (c s : ℕ) → IsZones (disk_of file c s)
disk_of-IsZones file c s =
    split_zones-IsZones 8 (read_file file (offset_of c s) block_size)
      (length-read_file file (offset_of c s) block_size)

write_file_outside :
    (file : File) (pos j : ℕ) (bytes : List ℕ)
    → (j < pos) ⊎ (pos + length bytes ≤ j)
    → write_file file pos bytes j ≡ file j
unfolding write_file
write_file_outside file pos j [] h = refl
write_file_outside file pos j (b ∷ bytes) h =
    let ne : j ≢ pos = ground (arith, h) in
    let h' : (j < pos + 1) ⊎ (pos + 1 + length bytes ≤ j) = ground (arith, h) in
    write_file_outside (update file pos b) (pos + 1) j bytes h' ∙ rw (==_ne j pos ne) refl

read_file_outside :
    (file : File) (pos from n : ℕ) (bytes : List ℕ)
    → (from + n ≤ pos) ⊎ (pos + length bytes ≤ from)
    → read_file (write_file file pos bytes) from n ≡ read_file file from n
unfolding read_file
read_file_outside file pos from zero bytes h = refl
read_file_outside file pos from (suc n) bytes h =
    let here_ : (from < pos) ⊎ (pos + length bytes ≤ from) = ground (arith, h) in
    let behind : (from + 1 + n ≤ pos) ⊎ (pos + length bytes ≤ from + 1) = ground (arith, h) in
    ap₂ (λ x l. x ∷ l) (write_file_outside file pos from bytes here_)
      (read_file_outside file pos (from + 1) n bytes behind)

module _ (file : File) (src : Block) (fits : IsZones src.zones) (count : length src.zones ≡ 8)
    (c_in : src.c < cylinders) (s_in : src.s < sectors) where
  abbrev pub written : File
  written = write_file file (offset_of src.c src.s) (join_zones src.zones)

  size : length (join_zones src.zones) ≡ block_size
  size = omega (arith, length-join_zones src.zones fits, count)

  disk_of-written : disk_of written src.c src.s ≡ src.zones
  disk_of-written =
      ap (λ n. split_zones 8 (read_file written (offset_of src.c src.s) n)) (sym size)
      ∙ ap (split_zones 8)
          (read_file-write_file file (offset_of src.c src.s) (join_zones src.zones))
      ∙ ap (λ n. split_zones n (join_zones src.zones)) (sym count)
      ∙ split_zones-join_zones src.zones fits

  disk_of-other :
      (c s : ℕ)
      → c < cylinders
      → s < sectors
      → (c ≢ src.c) ⊎ (s ≢ src.s)
      → disk_of written c s ≡ disk_of file c s
  disk_of-other c s hc hs ne = ap (split_zones 8) (
      read_file_outside file (offset_of src.c src.s) (offset_of c s) block_size
        (join_zones src.zones) (ground (arith, ne, size)))

  write_block-same : write_block (disk_of file) src src.c src.s ≡ src.zones
  unfolding write_block
  write_block-same =
      rw (lt→ltb src.c cylinders c_in, lt→ltb src.s sectors s_in, ==_self src.c, ==_self src.s) refl

  write_block-other :
      (c s : ℕ)
      → (c == src.c && s == src.s) ≡ false
      → write_block (disk_of file) src c s ≡ disk_of file c s
  unfolding write_block
  write_block-other c s ne = rw (lt→ltb src.c cylinders c_in, lt→ltb src.s sectors s_in, ne) refl

  pub disk_of-write_block :
      (c s : ℕ)
      → c < cylinders
      → s < sectors
      → disk_of written c s ≡ write_block (disk_of file) src c s
  disk_of-write_block c s hc hs = elim (Bool-cases (c == src.c && s == src.s)) [
    | inl same ↦
        let e : c ≡ src.c = ground (arith, same) in
        let e' : s ≡ src.s = ground (arith, same) in
        ap₂ (disk_of written) e e'
        ∙ disk_of-written
        ∙ sym write_block-same
        ∙ sym (ap₂ (write_block (disk_of file) src) e e')
    | inr other ↦
        let ne : (c ≢ src.c) ⊎ (s ≢ src.s) = ground (arith, other) in
        disk_of-other c s hc hs ne ∙ sym (write_block-other c s other)
  ]

  -- For a block of eight zones of 64 bytes with an address in range, the conversation of
  -- `write_block` with the disk manager ends, and the disk file then holds the blocks that the
  -- allocator's `write_block` makes of those before.
  pub store_block-write_block :
      {A : Type 0} (requests rounds : ℕ) (next : Wire A)
      → 4 < rounds
      → (file' : File) × Reaches
          (quiet
            (store_block rounds src.c src.s (join_zones src.zones) next)
            (serv_loop (suc requests) file))
          (quiet next (serv_loop requests file'))
        × ((c s : ℕ)
            → c < cylinders
            → s < sectors
            → disk_of file' c s ≡ write_block (disk_of file) src c s)
  store_block-write_block requests rounds next enough = (
    written,
    store_block-Reaches src.c src.s c_in s_in requests rounds file (join_zones src.zones) next size
        enough,
    disk_of-write_block,
  )

abbrev pub block_of : List Zone → ℕ → ℕ → Block
block_of zones c s = record { zones = zones; c = c; s = s }

-- For an address in range, the conversation of `read_block` with the disk manager ends with the
-- bytes of the zones that the allocator's `read_block` puts into a block, and leaves the disk
-- file.
pub fetch_block-read_block :
    {A : Type 0} (c s : ℕ)
    → c < cylinders
    → s < sectors
    → (requests : ℕ) (file : File) (next : Option (List ℕ) → Wire A)
    → (bytes : List ℕ) × Reaches
        (quiet (fetch_block c s next) (serv_loop (suc requests) file))
        (quiet (next (some bytes)) (serv_loop requests file))
      × ((dest : Block) → read_block (disk_of file) c s dest ≡ block_of (split_zones 8 bytes) c s)
unfolding read_block
fetch_block-read_block c s c_in s_in requests file next = (
  read_file file (offset_of c s) block_size,
  fetch_block-Reaches c s c_in s_in requests file next,
  λ dest. rw (lt→ltb c cylinders c_in, lt→ltb s sectors s_in) refl,
)
