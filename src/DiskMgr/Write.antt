-- ===== src/DiskMgr/Write.antt =====
-- src/utils.c and src/disk_mgr.c: the conversation of `write_block` and the disk manager.
use cs356_mini_file_system.DiskMgr.Parts.{parts, store-Waits}
use cs356_mini_file_system.Wire.Talk.{
  Reaches, Reaches-eq, Reaches-refl, Reaches-say_to, Reaches-trans, length-packet,
}
use cs356_mini_file_system.Base.{
  List, ap₂, arith, length, refl, subst, suc, ℕ, ◌*◌, ◌+◌, ◌-◌, ◌<◌, ◌^◌, ◌∙◌, ◌≡◌,
}
use cs356_mini_file_system.Utils.Text.{str_eq}
use cs356_mini_file_system.Utils.Socket.{packet}
use cs356_mini_file_system.Utils.Decimal.{atoi, read_digits, read_signed}
use cs356_mini_file_system.Utils.Decimal.RoundTrip.{atoi-itoa}
use cs356_mini_file_system.Wire.{Wire, heard, quiet}
use cs356_mini_file_system.Alloc.Cache.{cylinders, sectors}
use cs356_mini_file_system.DiskMgr.{
  File, block_size, serv_loop, serve, store_block, store_chunks, take_chunks, write_disk,
  write_file,
}
use cs356_mini_file_system.DiskMgr.Read.{get_offset-in, offset, on_message, on_message-toks}
use cs356_mini_file_system.DiskMgr.Requests.{
  order, order-IsText, order-short, order-toks, order_words,
}

-- `write_block` up to its first `get_msg`
pub store_block-ordered :
    {A : Type 0} (c s : ℕ)
    → c < 2 ^ 31
    → s < 2 ^ 31
    → (requests k : ℕ) (file : File) (bytes : List ℕ) (next : Wire A)
    → Reaches (quiet (store_block (suc k) c s bytes next) (serv_loop (suc requests) file)) (
        quiet
          (store_chunks (suc k) bytes next)
          (serve (λ file'. serv_loop requests file') file (order_words c s)))
unfolding store_block serv_loop on_message
store_block-ordered c s c_fits s_fits requests k file bytes next =
    Reaches-trans
      (Reaches-say_to (packet (order c s)) (store_chunks (suc k) bytes next) 127
        (λ l. on_message requests file (heard l))
        (store-Waits next (λ f. serv_loop requests f) k bytes)
        (length-packet (order c s) (order-short c s c_fits s_fits)))
      (Reaches-eq _ refl
        (on_message-toks requests file (order c s) (order-short c s c_fits s_fits)
          (order-IsText c s c_fits s_fits) (order-toks c s c_fits s_fits))
        (Reaches-refl _))

module _ (c s : ℕ) (c_in : c < cylinders) (s_in : s < sectors) where
  serve-write :
      (rest : File → Wire File) (file : File)
      → serve rest file (order_words c s)
        ≡ take_chunks 4 file (offset c s c_in s_in) (offset c s c_in s_in + block_size) rest
  unfolding serve str_eq atoi read_signed read_digits write_disk take_chunks
  serve-write rest file =
      ap₂ (λ a b. write_disk file a b 4 rest) (atoi-itoa c (omega (arith, c_in)))
        (atoi-itoa s (omega (arith, s_in)))
      ∙ rw (get_offset-in c s c_in s_in, write_disk) refl

  module _ {A : Type 0} (requests rounds : ℕ) (file : File) (bytes : List ℕ) (next : Wire A)
      (whole : length bytes ≡ block_size) (enough : 4 < rounds) where
    ordered : Reaches (quiet (store_block rounds c s bytes next) (serv_loop (suc requests) file)) (
        quiet
          (store_chunks rounds bytes next)
          (serve (λ file'. serv_loop requests file') file (order_words c s)))
    ordered =
        let k : suc (rounds - 1) ≡ rounds = omega (arith, enough) in
        subst
          (λ r. Reaches (quiet (store_block r c s bytes next) (serv_loop (suc requests) file)) (
            quiet (store_chunks r bytes next)
              (serve (λ file'. serv_loop requests file') file (order_words c s))))
          k
          (store_block-ordered c s (omega (arith, c_in)) (omega (arith, s_in)) requests (rounds - 1)
            file bytes next)

    -- For a cylinder below 128, a sector below 32 and a block of 512 bytes, `write_block` and the disk
    -- manager come, in a number of steps, to where `write_block` is over, the disk manager waits for
    -- the next request with the bytes of the block in the disk file and the others as they were, and
    -- no message is on its way.
    pub store_block-Reaches :
        Reaches
          (quiet (store_block rounds c s bytes next) (serv_loop (suc requests) file))
          (quiet next (serv_loop requests (write_file file (block_size * (c * sectors + s)) bytes)))
    store_block-Reaches = Reaches-trans ordered (
        Reaches-eq _ refl (serve-write (λ file'. serv_loop requests file') file) (
          parts next (λ file'. serv_loop requests file') 4 rounds file (offset c s c_in s_in)
            (offset c s c_in s_in + block_size) bytes whole refl enough))
