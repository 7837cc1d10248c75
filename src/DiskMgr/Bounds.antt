-- ===== src/DiskMgr/Bounds.antt =====
-- src/disk_mgr.c: the places of the blocks in the disk file.
use cs356_mini_file_system.Base.{arith, some, ℕ, ◌*◌, ◌+◌, ◌<◌, ◌^◌, ◌≡◌, ◌≤◌}
use cs356_mini_file_system.Alloc.Cache.{cylinders, sectors}
use cs356_mini_file_system.DiskMgr.{block_size, get_offset}

-- what an address in range means
pub get_offset-InRange :
    (c s offset : ℕ)
    → get_offset c s ≡ some offset
    → (c < cylinders) × (s < sectors) × (offset ≡ block_size * (c * sectors + s))
unfolding get_offset
get_offset-InRange c s offset e = ground (arith, e)

-- An offset that `get_offset` gives leaves room for a whole block in the disk file and fits an
-- `int`; the blocks of two different addresses do not overlap.
pub get_offset-apart :
    (c s offset c' s' offset' : ℕ)
    → get_offset c s ≡ some offset
    → get_offset c' s' ≡ some offset'
    → (offset + block_size ≤ block_size * sectors * cylinders)
      × (offset < 2 ^ 31)
      × (offset < offset' + block_size → offset' < offset + block_size → (c ≡ c') × (s ≡ s'))
get_offset-apart c s offset c' s' offset' e e' =
    let (c_in, s_in, at) = get_offset-InRange c s offset e in
    let (c_in', s_in', at') = get_offset-InRange c' s' offset' e' in
    (omega arith, omega arith, λ h h'. (omega arith, omega arith))
