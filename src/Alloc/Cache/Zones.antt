-- ===== src/Alloc/Cache/Zones.antt =====
-- src/alloc.c: `read_zone` on a coherent cache.
use cs356_mini_file_system.Base.{
  ap, arith, false, get_or, none, some, true, ℕ, ◌%◌, ◌<◌, ◌^◌, ◌≡◌, ◌≤◌,
}
use cs356_mini_file_system.Alloc.Bitmap.{reserved}
use cs356_mini_file_system.Alloc.Cache.{
  Block, Disk, Drive, Zone, get_c, get_s, read_zone, zero_zone,
}
use cs356_mini_file_system.Alloc.Cache.Coherence.{IsCoherent}
use cs356_mini_file_system.Alloc.Cache.Fetch.{get_block-Fetches}

-- the zone that a disk holds under an id
unfoldable pub zone_at : Disk → ℕ → Zone
zone_at disk id = get_or (disk (get_c id) (get_s id)) (id % 8) zero_zone

module _ {d : Drive} (v : IsCoherent d) (id : ℕ) where
  -- With a coherent cache, a zone that is not reserved is read as the disk holds it, and the read
  -- keeps the disk and the coherence of the cache.
  pub read_zone_lem :
      id < 2 ^ 15
      → 4 ≤ id
      → ((read_zone d id).0 ≡ some (zone_at d.disk id))
        × ((read_zone d id).1.disk ≡ d.disk)
        × IsCoherent (read_zone d id).1
  unfolding read_zone zone_at
  read_zone_lem hi lo =
      let f = get_block-Fetches id v hi in
      let open_ : reserved id ≡ false = ground arith in
      rw open_
        (ap (λ (b : Block). some (get_or b.zones (id % 8) zero_zone)) f.block, f.disk, f.coherent)

  pub read_zone-reserved : reserved id ≡ true → read_zone d id ≡ (none, d)
  unfolding read_zone
  read_zone-reserved h = rw h
