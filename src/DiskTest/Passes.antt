-- ===== src/DiskTest/Passes.antt =====
-- src/disk_test.c and src/disk_mgr.c: no test of a block fails.
use cs356_mini_file_system.Base.{
  Option, ==_self, List, [], ap, arith, length, refl, replicate, subst, suc, zero, ℕ, ◌%◌, ◌*◌, ◌+◌,
  ◌∷◌, ◌≡◌,
}
use cs356_mini_file_system.Wire.{Wire, done, quiet}
use cs356_mini_file_system.Wire.Talk.{Reaches, Reaches-refl, Reaches-trans}
use cs356_mini_file_system.Alloc.Cache.{cylinders, sectors}
use cs356_mini_file_system.DiskMgr.{File, block_size, serv_loop, write_file}
use cs356_mini_file_system.DiskMgr.ReadBack.{fetch_block-store_block}
use cs356_mini_file_system.Remote.{replies}
use cs356_mini_file_system.DiskTest.{disk_test, failures, random_bytes, read_into, test_loop}

length-random_bytes : (n : ℕ) (rand : ℕ → ℕ) → length (random_bytes n rand) ≡ n
unfolding random_bytes
length-random_bytes zero rand = refl
length-random_bytes (suc n) rand = ap suc (length-random_bytes n (λ i. rand (i + 1)))

failures_same : (a : List ℕ) → failures a a ≡ 0
unfolding failures
failures_same [] = refl
failures_same (x ∷ a) = rw (==_self x) (failures_same a)

-- one test: the block that is written comes back
test_loop-step :
    (rounds : ℕ) (rand : ℕ → ℕ) (b : List ℕ) (requests : ℕ) (file : File)
    → let a = random_bytes block_size rand in
      let file' =
        write_file file
          (block_size * (rand block_size % cylinders * sectors + rand (block_size + 1) % sectors))
          a in
      Reaches
        (quiet (test_loop (suc rounds) rand b 0) (serv_loop (suc (suc requests)) file))
        (quiet (test_loop rounds (λ i. rand (i + (block_size + 2))) a 0) (serv_loop requests file'))
unfolding test_loop
test_loop-step rounds rand b requests file =
    let a = random_bytes block_size rand in
    let c = rand block_size % cylinders in
    let s = rand (block_size + 1) % sectors in
    let rand' : ℕ → ℕ = λ i. rand (i + (block_size + 2)) in
    let next : Option (List ℕ) → Wire ℕ =
      λ got. test_loop rounds rand' (read_into b got) (0 + failures a (read_into b got)) in
    let none_failed : 0 + failures a a ≡ 0 = omega (arith, failures_same a) in
    subst
      (λ f.
        Reaches (quiet (test_loop (suc rounds) rand b 0) (serv_loop (suc (suc requests)) file)) (
          quiet (test_loop rounds rand' a f)
            (serv_loop requests (write_file file (block_size * (c * sectors + s)) a))))
      none_failed
      (fetch_block-store_block c s (omega arith) (omega arith) requests replies file a next
        (length-random_bytes block_size rand) (omega arith))

-- The tests end without a failure, and the disk manager has served two requests for each.
test_loop-passes :
    (rounds : ℕ) (rand : ℕ → ℕ) (b : List ℕ) (requests n : ℕ) (file : File)
    → n ≡ 2 * rounds + requests
    → (file' : File) × Reaches
        (quiet (test_loop rounds rand b 0) (serv_loop n file))
        (quiet (done 0) (serv_loop requests file'))
unfolding test_loop
test_loop-passes zero rand b requests n file e =
    let same : n ≡ requests = omega (arith, e) in
    (file, rw same (Reaches-refl (quiet (done 0) (serv_loop requests file))))
test_loop-passes (suc rounds) rand b requests n file e =
    let m = 2 * rounds + requests in
    let two_more : n ≡ suc (suc m) = omega (arith, e) in
    let a = random_bytes block_size rand in
    let file1 =
      write_file file
        (block_size * (rand block_size % cylinders * sectors + rand (block_size + 1) % sectors))
        a in
    let (file', rest) =
      test_loop-passes rounds (λ i. rand (i + (block_size + 2))) a requests m file1 refl in
    (file', rw two_more (Reaches-trans (test_loop-step rounds rand b m file) rest))

-- Whatever `rand` gives and whatever the disk file holds, `main` of src/disk_test.c and the disk
-- manager come to its end without a failure in its hundred tests; the disk manager then waits for
-- the next request, and no message is on its way.
pub disk_test-passes :
    (rand : ℕ → ℕ) (requests : ℕ) (file : File)
    → (file' : File) × Reaches
        (quiet (disk_test rand) (serv_loop (200 + requests) file))
        (quiet (done 0) (serv_loop requests file'))
unfolding disk_test
disk_test-passes rand requests file =
    test_loop-passes 100 rand (replicate block_size 0) requests (200 + requests) file (omega arith)
