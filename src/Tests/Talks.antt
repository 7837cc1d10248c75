-- ===== src/Tests/Talks.antt =====
-- src/disk_mgr.c on the block of cylinder 1 and sector 2.
use cs356_mini_file_system.Base.{
  List, arith, refl, replicate, some, ℕ, ◌%◌, ◌*◌, ◌+◌, ◌<◌, ◌^◌, ◌≡◌, ◌≤◌,
}
use cs356_mini_file_system.Wire.{done, quiet}
use cs356_mini_file_system.Wire.Talk.{Reaches}
use cs356_mini_file_system.Alloc.Cache.{Block, cylinders, read_block, sectors, write_block}
use cs356_mini_file_system.DiskMgr.{
  File, block_size, fetch_block, get_offset, serv_loop, store_block,
}
use cs356_mini_file_system.DiskMgr.Bounds.{get_offset-apart}
use cs356_mini_file_system.DiskTest.{disk_test}
use cs356_mini_file_system.DiskMgr.OutOfRange.{Hangs, out_of_range-Hangs}
use cs356_mini_file_system.DiskTest.Passes.{disk_test-passes}
use cs356_mini_file_system.DiskMgr.{File}
use cs356_mini_file_system.DiskMgr.Refine.{
  IsZones, block_of, disk_of, fetch_block-read_block, join_zones, split_zones,
  store_block-write_block,
}

abbrev bytes_file : File
bytes_file = λ pos. pos % 256

abbrev sevens : Block
sevens = record { zones = replicate 8 (replicate 64 7); c = 1; s = 2 }

sevens-IsZones : IsZones sevens.zones
sevens-IsZones = (refl, (refl, (refl, (refl, (refl, (refl, (refl, (refl, tt))))))))

store_block-write_block_example :
    (file' : File) × Reaches {A = Unit {0}}
      (quiet (store_block 5 1 2 (join_zones sevens.zones) (done tt)) (serv_loop 3 bytes_file))
      (quiet (done tt) (serv_loop 2 file'))
    × ((c s : ℕ)
        → c < cylinders
        → s < sectors
        → disk_of file' c s ≡ write_block (disk_of bytes_file) sevens c s)
store_block-write_block_example =
    store_block-write_block bytes_file sevens sevens-IsZones refl (omega arith) (omega arith) 2 5
      (done tt) (omega arith)

fetch_block-read_block_example :
    (bytes : List ℕ) × Reaches
      (quiet (fetch_block 1 2 done) (serv_loop 3 bytes_file))
      (quiet (done (some bytes)) (serv_loop 2 bytes_file))
    × ((dest : Block)
        → read_block (disk_of bytes_file) 1 2 dest ≡ block_of (split_zones 8 bytes) 1 2)
fetch_block-read_block_example =
    fetch_block-read_block 1 2 (omega arith) (omega arith) 2 bytes_file (λ got. done got)

-- The bytes are those of a counter.
disk_test-passes_example :
    (file' : File) × Reaches
      (quiet (disk_test (λ n. n)) (serv_loop 203 bytes_file))
      (quiet (done 0) (serv_loop 3 file'))
disk_test-passes_example = disk_test-passes (λ n. n) 3 bytes_file

out_of_range-Hangs_example :
    Reaches {A = ℕ}
      (quiet (fetch_block 128 0 (λ got. done 0)) (serv_loop 3 bytes_file))
      (quiet (done 0) (serv_loop 2 bytes_file))
    × Hangs {A = ℕ}
        (quiet (store_block 5 128 0 (replicate 512 7) (done 1)) (serv_loop 4 bytes_file))
out_of_range-Hangs_example =
    out_of_range-Hangs {A = ℕ} 128 0 (omega arith) (omega arith) refl 2 3 bytes_file
      (replicate 512 7) (λ got. done 0) (done 1) (omega arith)

first_offset : get_offset 1 2 ≡ some 17408
unfolding get_offset
first_offset = refl

next_offset : get_offset 1 3 ≡ some 17920
unfolding get_offset
next_offset = refl

abbrev one : ℕ
one = 1

abbrev two : ℕ
two = 2

abbrev three : ℕ
three = 3

get_offset-apart_example :
    (17408 + block_size ≤ block_size * sectors * cylinders)
    × (17408 < 2 ^ 31)
    × (17408 < 17920 + block_size → 17920 < 17408 + block_size → (one ≡ one) × (two ≡ three))
get_offset-apart_example = get_offset-apart 1 2 17408 1 3 17920 first_offset next_offset
