-- ===== src/Alloc/Startup.antt =====
-- src/alloc.c: `format`, `alloc_init` and `alloc_final`: the bitmap on the disk and in memory.
pub mod Persist
use cs356_mini_file_system.Base.{
  List, Option, drop, get_or, none, replicate, some, take, ℕ, ◌++◌, ◌∷◌,
}
use cs356_mini_file_system.Alloc.Bitmap.{d_occupied, set_state}
use cs356_mini_file_system.Alloc.Cache.{
  Block, Zone, free_cache, get_block, new_block, write_block, zero_zone,
}
use cs356_mini_file_system.Alloc.Machine.{Machine}

-- the first 256 bytes of a block: its first four zones
unfoldable pub read_map : List Zone → List ℕ
read_map zones =
    get_or zones 0 zero_zone
    ++ (get_or zones 1 zero_zone ++ (get_or zones 2 zero_zone ++ get_or zones 3 zero_zone))

-- `memcpy((char*)block, map.free_lst, sizeof(map.free_lst))`
unfoldable pub write_map : List ℕ → List Zone → List Zone
write_map lst zones =
    take 64 lst
    ∷ (take 64 (drop 64 lst) ∷ (take 64 (drop 128 lst) ∷ (take 64 (drop 192 lst) ∷ drop 4 zones)))

-- `none` would be an access outside `free_lst`.
unfoldable pub format : Machine → Option Machine
format m =
    let disk = write_block m.drive.disk new_block in
    elim (set_state (replicate 256 0) 4 d_occupied) [
      | none ↦ none
      | some lst ↦ some (record m {
        free_lst = lst;
        drive = free_cache (record { cache = m.drive.cache; disk = disk });
      })
    ]

-- the part behind the connection to the disk manager
unfoldable pub alloc_init : Machine → Machine
alloc_init m =
    let (block, drive) = get_block m.drive 0 in
    record m { free_lst = read_map block.zones; drive = drive }

-- The closing exchange with the disk manager is left out.
unfoldable pub alloc_final : Machine → Machine
alloc_final m =
    let (block, drive) = get_block m.drive 0 in
    let block' : Block = record block { zones = write_map m.free_lst block.zones } in
    record m {
      drive = free_cache (record { cache = drive.cache; disk = write_block drive.disk block' });
    }
