-- ===== src/Alloc/Cache.antt =====
-- src/alloc.c: the cache of eight blocks in four groups of two, the most recent of a group in
-- front, and the zones that are read and written through it. `read_block` and `write_block` of
-- src/utils.c stand here for what their conversation with the disk manager does to the disk.
pub mod Coherence
pub mod Fetch
pub mod Zones
pub mod Write
use cs356_mini_file_system.Base.{
  Bool, List, Option, false, get_or, if◌then◌else◌, ltb, none, replicate, set, some, suc, true,
  zero, ℕ, ◌%◌, ◌&&◌, ◌*◌, ◌+◌, ◌-◌, ◌/◌, ◌==◌,
}
use cs356_mini_file_system.Alloc.Bitmap.{reserved}

-- `zone_t`, a union of 64 bytes
abbrev pub Zone : Type 0
Zone = List ℕ

-- `bzero((char*)&zone, ZONESIZE)`
abbrev pub zero_zone : Zone
zero_zone = replicate 64 0

-- `block_t`
pub record Block : Type 0 where
  pub zones : List Zone
  pub c : ℕ
  pub s : ℕ

-- the blocks of the disk, by cylinder and sector
abbrev pub Disk : Type 0
Disk = ℕ → ℕ → List Zone

pub record Drive : Type 0 where
  pub cache : List (Option Block)
  pub disk : Disk

abbrev pub cylinders : ℕ
cylinders = 128

abbrev pub sectors : ℕ
sectors = 32

-- `get_c` and `get_s`
abbrev pub get_c : ℕ → ℕ
get_c id = id * 64 / 512 / sectors

abbrev pub get_s : ℕ → ℕ
get_s id = id * 64 / 512 % sectors

-- An address out of range is answered by no data, and leaves the block as it was.
unfoldable pub read_block : Disk → ℕ → ℕ → Block → Block
read_block disk c s dest =
    if ltb c cylinders && ltb s sectors then record { zones = disk c s; c = c; s = s } else dest

unfoldable pub write_block : Disk → Block → Disk
write_block disk src c s =
    if ltb src.c cylinders && ltb src.s sectors && (c == src.c && s == src.s)
    then src.zones
    else disk c s

-- `calloc(1, sizeof(block_t))`
abbrev pub new_block : Block
new_block = record { zones = replicate 8 zero_zone; c = 0; s = 0 }

-- Does the search stop at this slot?
unfoldable pub slot_stops : Option Block → ℕ → ℕ → Bool
slot_stops none c s = true
slot_stops (some b) c s = c == b.c && s == b.s

-- the search loop, with the rounds that are left up to `CACHE_GRP_SZ-1`
unfoldable pub find_slot : ℕ → List (Option Block) → ℕ → ℕ → ℕ → ℕ
find_slot zero cache c s idx = idx
find_slot (suc rounds) cache c s idx = elim (slot_stops (get_or cache idx none) c s) [
  | true ↦ idx
  | false ↦ find_slot rounds cache c s (idx + 1)
]

-- `while (idx > start_idx) { b_cache[idx] = b_cache[idx-1]; idx--; }`, in `n = idx - start_idx` rounds
unfoldable pub shift_slots : ℕ → List (Option Block) → ℕ → List (Option Block)
shift_slots zero cache start = cache
shift_slots (suc n) cache start =
    shift_slots n (set cache (start + suc n) (get_or cache (start + n) none)) start

-- the slot's block, if it is the one that is wanted, or the block read into it
unfoldable pub load_target : Disk → Option Block → ℕ → ℕ → Block
load_target disk none c s = read_block disk c s new_block
load_target disk (some b) c s = if c == b.c && s == b.s then b else read_block disk c s b

-- the part of `get_block` below its search: `b_cache[start_idx]` is the block that is returned
unfoldable pub arrive : Drive → ℕ → ℕ → ℕ → ℕ → Block × Drive
arrive d c s start idx =
    let target = load_target d.disk (get_or d.cache idx none) c s in
    let shifted = shift_slots (idx - start) d.cache start in
    (target, record d { cache = set shifted start (some target) })

unfoldable pub get_block : Drive → ℕ → Block × Drive
get_block d id =
    let c = get_c id in
    let s = get_s id in let start = s % 4 * 2 in arrive d c s start (find_slot 1 d.cache c s start)

-- `NULL` for a reserved zone. Each caller copies the zone before the next call.
unfoldable pub read_zone : Drive → ℕ → Option Zone × Drive
read_zone d id =
    if reserved id
    then (none, d)
    else let (b, d') = get_block d id in (some (get_or b.zones (id % 8) zero_zone), d')

-- The zone is written through the pointer into the cached block, and the block to the disk.
unfoldable pub write_zone : Drive → ℕ → Zone → Drive
write_zone d id src =
    if reserved id
    then d
    else let (b, d') = get_block d id in
      let b' : Block = record b { zones = set b.zones (id % 8) src } in
      record { cache = set d'.cache (get_s id % 4 * 2) (some b'); disk = write_block d'.disk b' }

-- `free_cache`
unfoldable pub free_cache : Drive → Drive
free_cache d = record d { cache = replicate 8 none }
