-- ===== src/Remote/Shutdown.antt =====
-- src/alloc.c: `alloc_final` and the disk manager, up to the end of both.
use cs356_mini_file_system.Alloc.Cache.Write.{write_block-ne}
use cs356_mini_file_system.Remote.Cache.{
  Agrees, IsBlock, get_block-Serves, memory, send_block-Serves,
}
use cs356_mini_file_system.Remote.Serves.{Serves}
use cs356_mini_file_system.Alloc.Startup.Persist.{
  disk-alloc_final, map_block, map_block-key, read_map-write_map,
}
use cs356_mini_file_system.Alloc.Machine.Refine.{Represents}
use cs356_mini_file_system.Alloc.Machine.{Machine}
use cs356_mini_file_system.Alloc.Cache.Fetch.{Fetches, get_block-Fetches}
use cs356_mini_file_system.Alloc.Cache.{
  Block, Disk, Zone, free_cache, get_c, get_s, zero_zone, get_block as get_cached,
}
use cs356_mini_file_system.Base.{
  Bool-cases, List, Option, [], ap, ap₂, arith, drop, false, get_or, inl, inr, length, length-drop,
  length-take, none, refl, replicate, some, subst, suc, sym, zero, ℕ, ◌%◌, ◌&&◌, ◌+◌, ◌<◌, ◌==◌,
  ◌^◌, ◌∙◌, ◌∷◌, ◌≡◌, ◌≤◌,
}
use cs356_mini_file_system.Utils.Text.{Text, c_string, codes, str_eq}
use cs356_mini_file_system.Utils.Socket.{ends_in_nul, packet}
use cs356_mini_file_system.Utils.Tokens.{get_toks}
use cs356_mini_file_system.Utils.Tokens.Words.{get_toks-unwords, unwords}
use cs356_mini_file_system.Wire.{Wire, done, heard, quiet, say_msg}
use cs356_mini_file_system.Wire.Talk.{
  Reaches, Reaches-answer, Reaches-eq, Reaches-say, Reaches-trans, heard-packet, length-packet,
}
use cs356_mini_file_system.DiskMgr.{File, serv_loop, serve}
use cs356_mini_file_system.DiskMgr.Refine.{IsZones, disk_of, disk_of-IsZones}
use cs356_mini_file_system.Alloc.Bitmap.Laws.{IsBitmap, state_of}
use cs356_mini_file_system.Alloc.Cache.Zones.{zone_at}
use cs356_mini_file_system.Alloc.Startup.{read_map, write_map, alloc_final as alloc_cached}
use cs356_mini_file_system.Store.Spec.{Store, zone_limit}
use cs356_mini_file_system.Remote.{Memory, alloc_final, close_disk}

-- The disk file holds the store's zones and, in its first four zones, the bitmap of its states.
pub record Stored (file : File) (s : Store) : Type 0 where
  pub bitmap : IsBitmap (read_map (disk_of file 0 0))
  pub zones : (id : ℕ) → 4 ≤ id → id < 2 ^ 15 → zone_at (disk_of file) id ≡ s.zones id
  pub states :
      (id : ℕ) → 4 ≤ id → id < zone_limit → state_of (read_map (disk_of file 0 0)) id ≡ s.states id

E_toks : get_toks (codes "E") 6 ≡ codes "E" ∷ []
unfolding unwords
E_toks = get_toks-unwords 6 (codes "E" ∷ []) (((λ e. cc), (refl, tt)), tt) (omega arith)

module _ {A : Type 0} (next : Wire A) (more : ℕ) (file : File) where
  on_request : Option Text → Wire File
  on_request = elim [
    | none ↦ done file
    | some text ↦ serve (λ file'. serv_loop more file') file (get_toks text 6)
  ]

  on_request-E : on_request (heard (packet (codes "E"))) ≡ say_msg (codes "BYE") (done file)
  unfolding on_request serve str_eq
  on_request-E =
      ap on_request (heard-packet (codes "E") (omega arith) (omega arith))
      ∙ ap (serve (λ file'. serv_loop more file') file) E_toks

  -- The disk manager answers E with BYE, and both loops end.
  close_disk-Reaches :
      Reaches (quiet (close_disk 1 next) (serv_loop (suc more) file)) (quiet next (done file))
  unfolding close_disk serv_loop on_request heard packet ends_in_nul c_string str_eq
  close_disk-Reaches =
      Reaches-trans
        (Reaches-say (packet (codes "E")) 127 _ 127 (λ bytes. on_request (heard bytes))
          (length-packet (codes "E") (omega arith)))
        (Reaches-eq _ refl on_request-E (
          Reaches-answer (packet (codes "BYE")) 127 _ (done file)
            (length-packet (codes "BYE") (omega arith))))

-- The zones of block 0 behind the bitmap stay.
get_or-write_map :
    (lst : List ℕ) (zones : List Zone) (i : ℕ)
    → 4 ≤ i
    → get_or (write_map lst zones) i zero_zone ≡ get_or zones i zero_zone
unfolding write_map
get_or-write_map lst zones (suc (suc (suc (suc i)))) h = get_or-drop zones
  where
    get_or-drop :
        (zones : List Zone)
        → get_or (drop 4 zones) i zero_zone ≡ get_or zones (suc (suc (suc (suc i)))) zero_zone
    get_or-drop [] = refl
    get_or-drop (a ∷ []) = refl
    get_or-drop (a ∷ b ∷ []) = refl
    get_or-drop (a ∷ b ∷ c ∷ []) = refl
    get_or-drop (a ∷ b ∷ c ∷ d ∷ rest) = refl
get_or-write_map lst zones zero h = absurd (omega arith)
get_or-write_map lst zones (suc zero) h = absurd (omega arith)
get_or-write_map lst zones (suc (suc zero)) h = absurd (omega arith)
get_or-write_map lst zones (suc (suc (suc zero))) h = absurd (omega arith)

write_map-IsZones :
    (lst : List ℕ) (zones : List Zone)
    → length lst ≡ 256
    → IsZones zones
    → IsZones (write_map lst zones)
unfolding write_map
write_map-IsZones lst zones size h = (
  omega (arith, length-take 64 lst, size),
  (
    omega (arith, length-take 64 (drop 64 lst), length-drop 64 lst, size),
    (
      omega (arith, length-take 64 (drop 128 lst), length-drop 128 lst, size),
      (
        omega (arith, length-take 64 (drop 192 lst), length-drop 192 lst, size),
        drop-IsZones 4 zones h,
      ),
    ),
  ),
)
  where
    drop-IsZones : (n : ℕ) (zones : List Zone) → IsZones zones → IsZones (drop n zones)
    drop-IsZones zero zones h = h
    drop-IsZones (suc n) [] h = tt
    drop-IsZones (suc n) (z ∷ zones) h = drop-IsZones n zones h.1

-- The disk manager and the program behind `alloc_final` end: the program with an empty cache, the
-- disk manager with this disk file.
pub record Shuts {A : Type 0} (c : Wire A) (file : File) (c' : Wire A) (s : Store) : Type 0 where
  pub requests : ℕ
  pub left : File
  pub reaches : Reaches (quiet c (serv_loop requests file)) (quiet c' (done left))
  pub stored : Stored left s

pub Serves-Shuts :
    {A : Type 0} {c d e : Wire A} {f g : File} {s : Store}
    → Serves c f d g
    → Shuts d g e s
    → Shuts c f e s
Serves-Shuts p q = record {
  requests = p.requests + q.requests;
  left = q.left;
  reaches = Reaches-trans (p.reaches q.requests) q.reaches;
  stored = q.stored;
}

module _ (m : Machine) (s : Store) (file : File) (r : Represents m s)
    (agrees : Agrees m.drive.disk file) where
  fetches : Fetches m.drive 0 (get_cached m.drive 0)
  fetches = get_block-Fetches 0 r.coherent (omega arith)

  zones_at_0 : (get_cached m.drive 0).0.zones ≡ disk_of file 0 0
  zones_at_0 = ap (λ (b : Block). b.zones) fetches.block ∙ agrees 0 0 (omega arith) (omega arith)

  map_block-IsBlock : IsBlock (map_block m r.bitmap r.coherent)
  map_block-IsBlock = record {
    zones =
        write_map-IsZones m.free_lst _ r.bitmap.size
          (subst IsZones (sym zones_at_0) (disk_of-IsZones file 0 0));
    count = (map_block-key m r.bitmap r.coherent).2;
    c_in = rw ((map_block-key m r.bitmap r.coherent).0) (omega arith);
    s_in = rw ((map_block-key m r.bitmap r.coherent).1) (omega arith);
  }

  final_disk : Disk
  final_disk = (alloc_cached m).drive.disk

  final_disk-0 : final_disk 0 0 ≡ write_map m.free_lst (m.drive.disk 0 0)
  unfolding final_disk
  final_disk-0 =
      disk-alloc_final m r.bitmap r.coherent
      ∙ ap (λ (b : Block). write_map m.free_lst b.zones) fetches.block

  final_disk-ne : (c s' : ℕ) → (c == 0 && s' == 0) ≡ false → final_disk c s' ≡ m.drive.disk c s'
  unfolding final_disk alloc_cached free_cache
  final_disk-ne c s' ne =
      let (ec, es, _) = map_block-key m r.bitmap r.coherent in
      write_block-ne (get_cached m.drive 0).1.disk (map_block m r.bitmap r.coherent) c s'
        (ap₂ (λ (i j : ℕ). c == i && s' == j) ec es ∙ ne)
      ∙ ap (λ (k : Disk). k c s') fetches.disk

  -- The zones behind the bitmap are as they were.
  zone_at-final_disk :
      (id : ℕ) → 4 ≤ id → id < 2 ^ 15 → zone_at final_disk id ≡ zone_at m.drive.disk id
  unfolding zone_at
  zone_at-final_disk id lo hi = elim (Bool-cases (get_c id == 0 && get_s id == 0)) [
    | inl first ↦
        let ec : get_c id ≡ 0 = ground (arith, first) in
        let es : get_s id ≡ 0 = ground (arith, first) in
        rw (ec, es)
          (ap (λ zones. get_or zones (id % 8) zero_zone) final_disk-0
            ∙ get_or-write_map m.free_lst (m.drive.disk 0 0) (id % 8) (omega (arith, ec, es)))
    | inr other ↦
        ap (λ zones. get_or zones (id % 8) zero_zone) (final_disk-ne (get_c id) (get_s id) other)
  ]

  alloc_final-Stored : (left : File) → Agrees final_disk left → Stored left s
  unfolding zone_at
  alloc_final-Stored left h =
      let map : read_map (disk_of left 0 0) ≡ m.free_lst =
        ap read_map (sym (h 0 0 (omega arith) (omega arith)) ∙ final_disk-0)
        ∙ read_map-write_map m.free_lst (m.drive.disk 0 0) r.bitmap.size in
      record {
        bitmap = subst IsBitmap (sym map) r.bitmap;
        zones = λ id lo hi.
            ap (λ zones. get_or zones (id % 8) zero_zone)
              (sym (h (get_c id) (get_s id) (omega arith) (omega arith)))
            ∙ zone_at-final_disk id lo hi
            ∙ r.zones id lo hi;
        states = λ id lo hi. ap (λ lst. state_of lst id) map ∙ r.states id lo hi;
      }

  pub alloc_final-Shuts :
      {A : Type 0} (next : Memory → Wire A)
      → Shuts
          (alloc_final (memory m) next)
          file
          (next (record (memory m) { cache = replicate 8 none }))
          s
  unfolding alloc_final alloc_cached final_disk free_cache
  alloc_final-Shuts next =
      let (left, served, h) =
        send_block-Serves (map_block m r.bitmap r.coherent)
          (close_disk 1 (next (record (memory m) { cache = replicate 8 none })))
          (λ c s' c_in s_in. ap (λ (k : Disk). k c s') fetches.disk ∙ agrees c s' c_in s_in)
          map_block-IsBlock in
      Serves-Shuts (get_block-Serves m.drive 0 _ agrees (omega arith)) (
        Serves-Shuts served (record {
          requests = 1;
          left = left;
          reaches = close_disk-Reaches _ 0 left;
          stored = alloc_final-Stored left h;
        }))
