-- ===== src/Remote/Cache.antt =====
-- src/alloc.c: `get_block`, `read_zone` and `write_zone` over the connection do what they do on a
-- disk of blocks.
use cs356_mini_file_system.Alloc.Cache.Fetch.{get_block-Fetches}
use cs356_mini_file_system.Alloc.Cache.Coherence.{IsCoherent}
use cs356_mini_file_system.Alloc.Bitmap.{reserved}
use cs356_mini_file_system.Alloc.Machine.{Machine}
use cs356_mini_file_system.DiskMgr.Read.{fetch_block-Reaches}
use cs356_mini_file_system.DiskMgr.Write.{store_block-Reaches}
use cs356_mini_file_system.Base.{
  Bool-cases, List, Option, [], ap, arith, get_or, if◌then◌else◌, inl, inr, length, length-set, ltb,
  lt→ltb, none, set, some, subst, suc, sym, zero, ℕ, ◌%◌, ◌&&◌, ◌*◌, ◌-◌, ◌<◌, ◌==◌, ◌^◌, ◌∙◌, ◌∷◌,
  ◌≡◌,
}
use cs356_mini_file_system.Wire.{Wire}
use cs356_mini_file_system.DiskMgr.{File, block_size, fetch_block, read_file}
use cs356_mini_file_system.DiskMgr.Refine.{
  IsZones, block_of, disk_of, disk_of-IsZones, disk_of-write_block, join_zones, length-join_zones,
  offset_of, written,
}
use cs356_mini_file_system.Remote.Serves.{Serves, Serves-one, Serves-refl, Serves-trans}
use cs356_mini_file_system.Alloc.Cache.{
  Block, Disk, Drive, Zone, arrive, cylinders, find_slot, get_c, get_s, new_block, read_block,
  sectors, shift_slots, write_block, load_target as load_cached, get_block as get_cached,
  read_zone as read_cached, write_zone as write_cached,
}
use cs356_mini_file_system.Remote.{
  Memory, filled, get_block, load_target, read_zone, replies, send_block, write_zone,
}

-- The disk of blocks is what the disk file holds.
abbrev pub Agrees : Disk → File → Type 0
Agrees disk file = (c s : ℕ) → c < cylinders → s < sectors → disk c s ≡ disk_of file c s

filled-read_block :
    (disk : Disk) (file : File) (c s : ℕ) (dest : Block)
    → Agrees disk file
    → c < cylinders
    → s < sectors
    → filled (some (read_file file (offset_of c s) block_size)) c s dest ≡ read_block disk c s dest
unfolding filled read_block
filled-read_block disk file c s dest agrees c_in s_in =
    rw (lt→ltb c cylinders c_in, lt→ltb s sectors s_in)
      (ap (λ zones. block_of zones c s) (sym (agrees c s c_in s_in)))

module _ {A : Type 0} (disk : Disk) (file : File) (agrees : Agrees disk file) (c s : ℕ)
    (c_in : c < cylinders) (s_in : s < sectors) where
  fetch_block-Serves :
      (dest : Block) (next : Block → Wire A)
      → Serves
          (fetch_block c s (λ got. next (filled got c s dest)))
          file
          (next (read_block disk c s dest))
          file
  fetch_block-Serves dest next =
      subst (λ b. Serves (fetch_block c s (λ got. next (filled got c s dest))) file (next b) file)
        (filled-read_block disk file c s dest agrees c_in s_in)
        (Serves-one
          (λ more. fetch_block-Reaches c s c_in s_in more file (λ got. next (filled got c s dest))))

  pub load_target-Serves :
      (o : Option Block) (next : Block → Wire A)
      → Serves (load_target o c s next) file (next (load_cached disk o c s)) file
  unfolding load_target load_cached
  load_target-Serves none next = fetch_block-Serves new_block next
  load_target-Serves (some b) next = elim (Bool-cases (c == b.c && s == b.s)) [
    | inl hit ↦ rw (hit, load_target) (Serves-refl (next b) file)
    | inr miss ↦ rw (miss, load_target) (fetch_block-Serves b next)
  ]

-- `get_block` gets what it gets on the disk of blocks, and leaves the same cache.
pub get_block-Serves :
    {A : Type 0} (d : Drive) {file : File} (id : ℕ) (next : Block → List (Option Block) → Wire A)
    → Agrees d.disk file
    → id < 2 ^ 15
    → Serves
        (get_block d.cache id next)
        file
        (next (get_cached d id).0 (get_cached d id).1.cache)
        file
unfolding get_block get_cached arrive
get_block-Serves d {file = file} id next agrees hi =
    let start = get_s id % 4 * 2 in
    let idx = find_slot 1 d.cache (get_c id) (get_s id) start in
    load_target-Serves d.disk file agrees (get_c id) (get_s id) (omega arith) (omega arith)
      (get_or d.cache idx none)
      (λ target. next target (set (shift_slots (idx - start) d.cache start) start (some target)))

-- a block whose zones fill it, at an address of the disk
pub record IsBlock (b : Block) : Type 0 where
  pub zones : IsZones b.zones
  pub count : length b.zones ≡ 8
  pub c_in : b.c < cylinders
  pub s_in : b.s < sectors

write_block_ext :
    (disk : Disk) (file : File) (b : Block) (c s : ℕ)
    → Agrees disk file
    → c < cylinders
    → s < sectors
    → write_block disk b c s ≡ write_block (disk_of file) b c s
unfolding write_block
write_block_ext disk file b c s agrees c_in s_in =
    ap
      (λ old.
        if ltb b.c cylinders && ltb b.s sectors && (c == b.c && s == b.s) then b.zones else old)
      (agrees c s c_in s_in)

-- `write_block` changes the disk file as it changes the disk of blocks.
pub send_block-Serves :
    {A : Type 0} {disk : Disk} {file : File} (b : Block) (next : Wire A)
    → Agrees disk file
    → IsBlock b
    → (file' : File) × Serves (send_block b next) file next file'
      × Agrees (write_block disk b) file'
unfolding send_block
send_block-Serves {disk = disk} {file = file} b next agrees h =
    let size : length (join_zones b.zones) ≡ block_size =
      omega (arith, length-join_zones b.zones h.zones, h.count) in
    (
      written file b h.zones h.count h.c_in h.s_in,
      Serves-one (λ more.
          store_block-Reaches b.c b.s h.c_in h.s_in more replies file (join_zones b.zones) next size
            (omega arith)),
      λ c s c_in s_in.
          write_block_ext disk file b c s agrees c_in s_in
          ∙ sym (disk_of-write_block file b h.zones h.count h.c_in h.s_in c s c_in s_in),
    )

-- a part of the conversation that ends in a disk file which agrees with a disk of blocks
abbrev pub Ends : {A : Type 0} → Wire A → File → Wire A → Disk → Type 0
Ends c file c' disk = (file' : File) × Serves c file c' file' × Agrees disk file'

abbrev pub memory : Machine → Memory
memory m = record { free_lst = m.free_lst; cache = m.drive.cache; world = m.world }

-- `read_zone` takes the zone that it takes on the disk of blocks, and leaves the same cache.
pub read_zone-Serves :
    {A : Type 0} (m : Machine) (file : File) (id : ℕ) (next : Option Zone → Memory → Wire A)
    → Agrees m.drive.disk file
    → Serves
        (read_zone (memory m) id next)
        file
        (next (read_cached m.drive id).0 (memory (record m { drive = (read_cached m.drive id).1 })))
        file
unfolding read_zone read_cached
read_zone-Serves m file id next agrees = elim (Bool-cases (reserved id)) [
  | inl held ↦ rw (held, read_zone) (Serves-refl (next none (memory m)) file)
  | inr open_ ↦ rw (open_, read_zone) (get_block-Serves m.drive id _ agrees (ground (arith, open_)))
]

-- A block of the disk whose zones fill it fills it with a further zone as well.
set-IsZones :
    (zones : List Zone) (i : ℕ) (zone : Zone)
    → IsZones zones
    → length zone ≡ 64
    → IsZones (set zones i zone)
set-IsZones [] i zone h k = tt
set-IsZones (z ∷ zones) zero zone h k = (k, h.1)
set-IsZones (z ∷ zones) (suc i) zone h k = (h.0, set-IsZones zones i zone h.1 k)

-- the block that `write_zone` writes
abbrev changed : Machine → ℕ → Zone → Block
changed m id zone =
    let b = (get_cached m.drive id).0 in record b { zones = set b.zones (id % 8) zone }

-- what `write_zone` leaves of a zone that is not reserved
abbrev write_opened : Machine → ℕ → Zone → Drive
write_opened m id zone = record {
  cache = set (get_cached m.drive id).1.cache (get_s id % 4 * 2) (some (changed m id zone));
  disk = write_block (get_cached m.drive id).1.disk (changed m id zone);
}

changed-IsBlock :
    (m : Machine) (file : File) (id : ℕ) (zone : Zone)
    → IsCoherent m.drive
    → id < 2 ^ 15
    → Agrees m.drive.disk file
    → length zone ≡ 64
    → IsBlock (changed m id zone)
changed-IsBlock m file id zone v hi agrees full =
    let f = get_block-Fetches id v hi in
    let zones : (get_cached m.drive id).0.zones ≡ disk_of file (get_c id) (get_s id) =
      ap (λ (b : Block). b.zones) f.block
      ∙ agrees (get_c id) (get_s id) (omega arith) (omega arith) in
    record {
      zones =
          set-IsZones _ (id % 8) zone
            (subst IsZones (sym zones) (disk_of-IsZones file (get_c id) (get_s id))) full;
      count =
          length-set (get_cached m.drive id).0.zones _ _
          ∙ ap (λ (b : Block). length b.zones) f.block
          ∙ v.blocks _ _;
      c_in = rw (ap (λ (b : Block). b.c) f.block) (omega arith);
      s_in = rw (ap (λ (b : Block). b.s) f.block) (omega arith);
    }

-- `write_zone` writes a zone of 64 bytes to the disk file as it does to the disk of blocks.
pub write_zone-Serves :
    {A : Type 0} (m : Machine) (file : File) (id : ℕ) (zone : Zone) (next : Memory → Wire A)
    → IsCoherent m.drive
    → Agrees m.drive.disk file
    → length zone ≡ 64
    → Ends
        (write_zone (memory m) id zone next)
        file
        (next (memory (record m { drive = write_cached m.drive id zone })))
        (write_cached m.drive id zone).disk
unfolding write_zone write_cached
write_zone-Serves m file id zone next v agrees full = elim (Bool-cases (reserved id)) [
  | inl held ↦ rw (held, write_zone) (file, Serves-refl (next (memory m)) file, agrees)
  | inr open_ ↦
      rw (open_, write_zone)
        (let hi : id < 2 ^ 15 = ground (arith, open_) in
          let (file', served, agrees') =
            send_block-Serves (changed m id zone)
              (next (memory (record m { drive = write_opened m id zone })))
              (λ c s c_in s_in.
                ap (λ (k : Disk). k c s) (get_block-Fetches id v hi).disk ∙ agrees c s c_in s_in)
              (changed-IsBlock m file id zone v hi agrees full) in
          (file', Serves-trans (get_block-Serves m.drive id _ agrees hi) served, agrees'))
]
