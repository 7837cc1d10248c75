-- ===== src/DiskTest.antt =====
-- src/disk_test.c: its `main` on blocks of random bytes. `cmd_test`, which nothing calls, is left out.
pub mod Passes
use cs356_mini_file_system.Base.{
  List, Option, [], if◌then◌else◌, none, replicate, some, suc, zero, ℕ, ◌%◌, ◌+◌, ◌==◌, ◌^◌, ◌∷◌,
}
use cs356_mini_file_system.Wire.{Wire, done}
use cs356_mini_file_system.Alloc.Cache.{cylinders, sectors}
use cs356_mini_file_system.DiskMgr.{block_size, fetch_block, store_block}
use cs356_mini_file_system.Remote.{replies}

-- `(char) rand()` for each of that many bytes, on what `rand` gives
unfoldable pub random_bytes : ℕ → (ℕ → ℕ) → List ℕ
random_bytes zero rand = []
random_bytes (suc n) rand = (rand 0 % 2 ^ 8) ∷ random_bytes n (λ i. rand (i + 1))

-- how often the two blocks differ, with "Failure!" for each
unfoldable pub failures : List ℕ → List ℕ → ℕ
failures (x ∷ a) (y ∷ b) = let rest = failures a b in if x == y then rest else rest + 1
failures a b = 0

-- what `read_block` leaves in `b`
abbrev pub read_into : List ℕ → Option (List ℕ) → List ℕ
read_into b none = b
read_into b (some bytes) = bytes

-- the loop in main, for that many rounds, with the bytes of `b` and the failures so far
unfoldable pub test_loop : ℕ → (ℕ → ℕ) → List ℕ → ℕ → Wire ℕ
test_loop zero rand b failed = done failed
test_loop (suc rounds) rand b failed =
    let a = random_bytes block_size rand in
    let c = rand block_size % cylinders in
    let s = rand (block_size + 1) % sectors in
    store_block replies c s a (
      fetch_block c s (λ got.
        test_loop rounds (λ i. rand (i + (block_size + 2))) (read_into b got)
          (failed + failures a (read_into b got))))

-- `main` behind its connection: the number of failures
unfoldable pub disk_test : (ℕ → ℕ) → Wire ℕ
disk_test rand = test_loop 100 rand (replicate block_size 0) 0
