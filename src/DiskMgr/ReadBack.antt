-- ===== src/DiskMgr/ReadBack.antt =====
-- src/utils.c and src/disk_mgr.c: a block that was written is read back.
use cs356_mini_file_system.Base.{
  ==_ne, ==_self, List, Option, [], ap, ap₂, arith, length, refl, some, subst, suc, sym, ℕ, ◌*◌,
  ◌+◌, ◌<◌, ◌∙◌, ◌∷◌, ◌≡◌,
}
use cs356_mini_file_system.Wire.{Wire, quiet}
use cs356_mini_file_system.Wire.Talk.{Reaches, Reaches-trans}
use cs356_mini_file_system.Store.Spec.{update}
use cs356_mini_file_system.Alloc.Cache.{cylinders, sectors}
use cs356_mini_file_system.DiskMgr.{
  File, block_size, fetch_block, read_file, serv_loop, store_block, write_file,
}
use cs356_mini_file_system.DiskMgr.Read.{fetch_block-Reaches}
use cs356_mini_file_system.DiskMgr.Write.{store_block-Reaches}

write_file_below :
    (file : File) (pos j : ℕ) (bytes : List ℕ) → j < pos → write_file file pos bytes j ≡ file j
unfolding write_file
write_file_below file pos j [] lt = refl
write_file_below file pos j (b ∷ bytes) lt =
    write_file_below (update file pos b) (pos + 1) j bytes (omega arith)
    ∙ rw (==_ne j pos (omega arith)) refl

pub read_file-write_file :
    (file : File) (pos : ℕ) (bytes : List ℕ)
    → read_file (write_file file pos bytes) pos (length bytes) ≡ bytes
unfolding read_file write_file
read_file-write_file file pos [] = refl
read_file-write_file file pos (b ∷ bytes) =
    ap₂ (λ x l. x ∷ l)
      (write_file_below (update file pos b) (pos + 1) pos bytes (omega arith)
        ∙ rw (==_self pos) refl)
      (read_file-write_file (update file pos b) (pos + 1) bytes)

-- For a cylinder below 128, a sector below 32 and a block of 512 bytes, a `read_block` that
-- follows a `write_block` of the same address gets the bytes that were written; the disk manager
-- then waits for the next request, and no message is on its way.
pub fetch_block-store_block :
    {A : Type 0} (c s : ℕ)
    → c < cylinders
    → s < sectors
    → (requests rounds : ℕ) (file : File) (bytes : List ℕ) (next : Option (List ℕ) → Wire A)
    → length bytes ≡ block_size
    → 4 < rounds
    → Reaches
        (quiet
          (store_block rounds c s bytes (fetch_block c s next))
          (serv_loop (suc (suc requests)) file))
        (quiet
          (next (some bytes))
          (serv_loop requests (write_file file (block_size * (c * sectors + s)) bytes)))
fetch_block-store_block c s c_in s_in requests rounds file bytes next whole enough =
    let pos = block_size * (c * sectors + s) in
    let file' = write_file file pos bytes in
    let same : read_file file' pos block_size ≡ bytes =
      ap (read_file file' pos) (sym whole) ∙ read_file-write_file file pos bytes in
    Reaches-trans
      (store_block-Reaches c s c_in s_in (suc requests) rounds file bytes (fetch_block c s next)
        whole enough)
      (subst
        (λ l.
          Reaches (quiet (fetch_block c s next) (serv_loop (suc requests) file'))
            (quiet (next (some l)) (serv_loop requests file')))
        same (fetch_block-Reaches c s c_in s_in requests file' next))
