-- ===== src/Tests/Machine.antt =====
-- src/alloc.c on a disk of zeros with an empty cache and an empty bitmap.
use cs356_mini_file_system.Store.Spec.{Store, World, run}
use cs356_mini_file_system.Alloc.Startup.Persist.{
  IsBitmap-empty_map, IsCoherent-free_cache, empty_map, state_of-empty_map,
}
use cs356_mini_file_system.Alloc.Machine.Refine.{Represents, SameOutcome, run_alloc-run}
use cs356_mini_file_system.Alloc.Machine.{Machine, run_alloc}
use cs356_mini_file_system.Alloc.Cache.Write.{Writes, write_zone-Writes}
use cs356_mini_file_system.Alloc.Cache.Zones.{zone_at}
use cs356_mini_file_system.Alloc.Cache.Fetch.{Fetches, get_block-Fetches}
use cs356_mini_file_system.Alloc.Cache.Coherence.{IsCoherent}
use cs356_mini_file_system.Alloc.Cache.{Drive, Zone, free_cache, get_block, write_zone, zero_zone}
use cs356_mini_file_system.Alloc.Bitmap.Search.{Found, get_free_id_lem}
use cs356_mini_file_system.Alloc.Bitmap.Laws.{IsBitmap, get_state-set_state, state_of}
use cs356_mini_file_system.Alloc.Bitmap.{get_free_id, get_state, i_occupied, set_state, unoccupied}
use cs356_mini_file_system.Base.{
  List, Option, [], arith, none, refl, replicate, some, ℕ, ◌<◌, ◌≡◌, ◌≢◌, ◌≤◌, ◌⊎◌,
}
use cs356_mini_file_system.Store.Prog.{
  Prog, ◌>>=◌, ◌>>◌, get_free_id as take_free_id, read_zone as read_later,
  write_zone as write_later,
}

abbrev blank_drive : Drive
blank_drive = free_cache (record { cache = []; disk = λ c s. replicate 8 zero_zone })

blank_drive-IsCoherent : IsCoherent blank_drive
blank_drive-IsCoherent =
    IsCoherent-free_cache (record { cache = []; disk = λ c s. replicate 8 zero_zone }) (λ c s. refl)

abbrev sevens : Zone
sevens = replicate 64 7

-- the block of zone 5 is now cached
abbrev used_drive : Drive
used_drive = write_zone blank_drive 5 sevens

used_drive-IsCoherent : IsCoherent used_drive
used_drive-IsCoherent =
    (write_zone-Writes 5 sevens blank_drive-IsCoherent (omega arith) (omega arith)).coherent

write_zone-Writes_example : Writes used_drive 1029 sevens (write_zone used_drive 1029 sevens)
write_zone-Writes_example =
    write_zone-Writes 1029 sevens used_drive-IsCoherent (omega arith) (omega arith)

get_block-Fetches_example : Fetches used_drive 40 (get_block used_drive 40)
get_block-Fetches_example = get_block-Fetches 40 used_drive-IsCoherent (omega arith)

get_free_id_lem_example :
    ((id : ℕ) × (lst : List ℕ) × (get_free_id empty_map 3 ≡ some (id, lst))
      × Found empty_map 3 id lst)
    ⊎ ((get_free_id empty_map 3 ≡ none)
        × ((j : ℕ) → 4 ≤ j → j < 1024 → state_of empty_map j ≢ unoccupied))
get_free_id_lem_example = get_free_id_lem 3 IsBitmap-empty_map

get_state-set_state_example :
    (lst : List ℕ) × (set_state empty_map 6 2 ≡ some lst)
    × IsBitmap lst
    × (get_state lst 6 ≡ some 2)
get_state-set_state_example =
    get_state-set_state 6 6 2 IsBitmap-empty_map (omega arith) (omega arith) (omega arith)
      (omega arith)

abbrev blank_world : World
blank_world = record { clock = λ n. n; strays = λ n. []; sock = record { inbox = []; outbox = [] } }

abbrev blank : Machine
blank = record { free_lst = empty_map; drive = used_drive; world = blank_world }

abbrev blank_store : Store
blank_store = record {
  zones = zone_at used_drive.disk;
  states = λ id. unoccupied;
  world = blank_world;
}

blank-Represents : Represents blank blank_store
blank-Represents = record {
  bitmap = IsBitmap-empty_map;
  coherent = used_drive-IsCoherent;
  zones = λ id lo hi. refl;
  states = λ id lo hi. state_of-empty_map id;
  world = refl;
}

-- A free zone is taken, written and read back.
abbrev take_and_read : Prog (Option Zone)
take_and_read = do id ← take_free_id i_occupied; write_later id sevens; read_later id

run_alloc-run_example : SameOutcome (run_alloc take_and_read blank) (run take_and_read blank_store)
run_alloc-run_example = run_alloc-run take_and_read blank blank_store blank-Represents
