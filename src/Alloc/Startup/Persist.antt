-- ===== src/Alloc/Startup/Persist.antt =====
-- src/alloc.c: the bitmap over a shutdown and a start, and the state after `format`.
use cs356_mini_file_system.Store.Spec.{Store}
use cs356_mini_file_system.Alloc.Machine.Refine.{Represents}
use cs356_mini_file_system.Alloc.Bitmap.{d_occupied, get_bits, unoccupied}
use cs356_mini_file_system.Alloc.Cache.Fetch.{get_block-Fetches}
use cs356_mini_file_system.Alloc.Cache.Write.{length-write_block, write_block_self}
use cs356_mini_file_system.Alloc.Cache.Zones.{zone_at}
use cs356_mini_file_system.Alloc.Cache.Coherence.{Apart, IsCoherent, SlotFits}
use cs356_mini_file_system.Alloc.Bitmap.Laws.{
  IsBitmap, set_state-in, state_of, state_of-stored, stored, stored-IsBitmap,
}
use cs356_mini_file_system.Alloc.Machine.{Machine}
use cs356_mini_file_system.Base.{
  ==_iff, List, ap, ap₂, arith, drop, get_or, get_or-replicate, holds_below, holds_below_sound,
  if◌then◌else◌, length, length-drop, none, refl, replicate, some, subst, subst₂, sym, take,
  take-append-drop, take-append-take, take_all, true, ℕ, ◌%◌, ◌*◌, ◌+◌, ◌/◌, ◌<◌, ◌==◌, ◌∙◌, ◌≡◌,
}
use cs356_mini_file_system.Alloc.Cache.{
  Block, Drive, Zone, free_cache, get_block, new_block, write_block,
}
use cs356_mini_file_system.Alloc.Startup.{alloc_final, alloc_init, format, read_map, write_map}

pub read_map-write_map :
    (lst : List ℕ) (zones : List Zone) → length lst ≡ 256 → read_map (write_map lst zones) ≡ lst
unfolding read_map write_map
read_map-write_map lst zones h =
    let last : take 64 (drop 192 lst) ≡ drop 192 lst =
      take_all 64 (drop 192 lst) (omega (arith, length-drop 192 lst)) in
    rw (
      last,
      take-append-take 128 64 192 lst refl,
      take-append-take 64 64 128 lst refl,
      take-append-drop 64 lst,
    )

length-write_map :
    (lst : List ℕ) (zones : List Zone) → length zones ≡ 8 → length (write_map lst zones) ≡ 8
unfolding write_map
length-write_map lst zones h = omega (arith, length-drop 4 zones)

-- An empty cache is coherent with every disk.
pub IsCoherent-free_cache :
    (d : Drive) → ((c s : ℕ) → length (d.disk c s) ≡ 8) → IsCoherent (free_cache d)
unfolding free_cache
IsCoherent-free_cache d sizes = record {
  size = refl;
  slots = λ i. subst (SlotFits d.disk i) (sym (get_or-replicate 8 i none)) tt;
  apart = λ g.
      subst₂ Apart (sym (get_or-replicate 8 (g * 2) none))
        (sym (get_or-replicate 8 (g * 2 + 1) none)) tt;
  blocks = sizes;
}

module _ (m : Machine) (b : IsBitmap m.free_lst) (v : IsCoherent m.drive) where
  -- the block that `alloc_final` writes
  abbrev pub map_block : Block
  map_block = record ((get_block m.drive 0).0) {
    zones = write_map m.free_lst (get_block m.drive 0).0.zones;
  }

  pub map_block-key : (map_block.c ≡ 0) × (map_block.s ≡ 0) × (length map_block.zones ≡ 8)
  map_block-key =
      let f = get_block-Fetches 0 v (omega arith) in
      (
        ap (λ (x : Block). x.c) f.block,
        ap (λ (x : Block). x.s) f.block,
        length-write_map m.free_lst _ (ap (λ (x : Block). length x.zones) f.block ∙ v.blocks 0 0),
      )

  pub alloc_final-IsCoherent : IsCoherent (alloc_final m).drive
  unfolding alloc_final
  alloc_final-IsCoherent =
      let f = get_block-Fetches 0 v (omega arith) in
      IsCoherent-free_cache
        (record {
          cache = (get_block m.drive 0).1.cache;
          disk = write_block (get_block m.drive 0).1.disk map_block;
        })
        (length-write_block (get_block m.drive 0).1.disk map_block f.coherent.blocks
          map_block-key.2)

  pub disk-alloc_final : (alloc_final m).drive.disk 0 0 ≡ map_block.zones
  unfolding alloc_final free_cache
  disk-alloc_final =
      let (ec, es, _) = map_block-key in
      let disk = (get_block m.drive 0).1.disk in
      ap₂ (write_block disk map_block) (sym ec) (sym es)
      ∙ write_block_self disk map_block (omega (arith, ec)) (omega (arith, es))

  -- With a sound bitmap and a coherent cache, the next start reads the bitmap that the last
  -- shutdown wrote.
  pub alloc_init-alloc_final : (alloc_init (alloc_final m)).free_lst ≡ m.free_lst
  unfolding alloc_init
  alloc_init-alloc_final =
      let f = get_block-Fetches 0 alloc_final-IsCoherent (omega arith) in
      ap (λ (x : Block). read_map x.zones) f.block
      ∙ ap read_map disk-alloc_final
      ∙ read_map-write_map m.free_lst _ b.size

get_or-zeros : (n i : ℕ) → get_or {A = ℕ} (replicate n 0) i 0 ≡ 0
get_or-zeros n i = get_or-replicate n i 0

-- `bzero((char*)&map, 256)`
abbrev pub empty_map : List ℕ
empty_map = replicate 256 0

pub IsBitmap-empty_map : IsBitmap empty_map
IsBitmap-empty_map = record { size = refl; bytes = λ i. rw (get_or-zeros 256 i) (omega arith) }

get_bits-zero : (k : ℕ) → k < 4 → get_bits 0 (k * 2) ≡ 0
get_bits-zero k h = (==_iff _ 0).0 (holds_below_sound (λ k. get_bits 0 (k * 2) == 0) table h)
  where
    table : holds_below 4 (λ k. get_bits 0 (k * 2) == 0) ≡ true
    table = unfold holds_below get_bits in refl

pub state_of-empty_map : (id : ℕ) → state_of empty_map id ≡ unoccupied
unfolding state_of
state_of-empty_map id = rw (get_or-zeros 256 (id / 4)) (get_bits-zero (id % 4) (omega arith))

-- the store of a formatted disk: the root directory is zone 4, and the blocks but the first are
-- as they were
abbrev pub formatted : Machine → Store
formatted m = record {
  zones = zone_at (write_block m.drive.disk new_block);
  states = λ id. if id == 4 then d_occupied else unoccupied;
  world = m.world;
}

-- With a coherent cache, `format` succeeds, and leaves the root directory's zone 4 as the only
-- zone in use, an empty cache, block 0 cleared and the other blocks as they were.
pub format-Represents :
    (m : Machine)
    → IsCoherent m.drive
    → (m' : Machine) × (format m ≡ some m') × Represents m' (formatted m)
unfolding format free_cache
format-Represents m v =
    let disk = write_block m.drive.disk new_block in
    let lst = stored empty_map 4 d_occupied in
    (
      record m {
        free_lst = lst;
        drive = free_cache (record { cache = m.drive.cache; disk = disk });
      },
      rw (set_state-in IsBitmap-empty_map 4 d_occupied (omega arith) (omega arith), format),
      record {
        bitmap = stored-IsBitmap IsBitmap-empty_map 4 d_occupied (omega arith);
        coherent =
            IsCoherent-free_cache (record { cache = m.drive.cache; disk = disk })
              (length-write_block m.drive.disk new_block v.blocks refl);
        zones = λ id lo hi. refl;
        states = λ id lo hi.
            state_of-stored IsBitmap-empty_map 4 d_occupied id (omega arith)
            ∙ ap (λ k. if id == 4 then d_occupied else k) (state_of-empty_map id);
        world = refl;
      },
    )
