-- ===== src/DiskMgr.antt =====
-- src/disk_mgr.c: the disk manager, and the functions of src/utils.c that ask it for blocks. The disk
-- file is its bytes. Reads and writes of the file succeed, and its waiting times are left out.
pub mod Numbers
pub mod Requests
pub mod OutOfRange
pub mod Blocks
pub mod Read
pub mod Parts
pub mod Write
pub mod Refine
pub mod Bounds
pub mod ReadBack
use cs356_mini_file_system.Base.{
  List, Option, [], drop, false, if◌then◌else◌, leb, length, ltb, min, none, some, suc, take, true,
  zero, ℕ, ◌&&◌, ◌*◌, ◌++◌, ◌+◌, ◌-◌, ◌/◌, ◌==◌, ◌^◌, ◌||◌, ◌∷◌,
}
use cs356_mini_file_system.Utils.Text.{Text, codes, str_eq}
use cs356_mini_file_system.Utils.Socket.{buffer_size}
use cs356_mini_file_system.Utils.Decimal.{atoi, itoa}
use cs356_mini_file_system.Utils.Tokens.{get_toks}
use cs356_mini_file_system.Wire.{Wire, done, hear, hear_msg, say, say_msg, stopped}
use cs356_mini_file_system.Store.Spec.{update}
use cs356_mini_file_system.Alloc.Cache.{Disk, cylinders, sectors}

-- the bytes of the disk file, by offset
abbrev pub File : Type 0
File = ℕ → ℕ

abbrev pub block_size : ℕ
block_size = 512

-- the `n` bytes from an offset on
unfoldable pub read_file : File → ℕ → ℕ → List ℕ
read_file file pos zero = []
read_file file pos (suc n) = file pos ∷ read_file file (pos + 1) n

unfoldable pub write_file : File → ℕ → List ℕ → File
write_file file pos [] = file
write_file file pos (b ∷ bytes) = write_file (update file pos b) (pos + 1) bytes

-- `get_offset`, `none` for -1
unfoldable pub get_offset : ℕ → ℕ → Option ℕ
get_offset c s =
    if leb cylinders c || leb sectors s then none else some (block_size * (c * sectors + s))

unfoldable pub send_info : {A : Type 0} → Wire A → Wire A
send_info rest =
    say_msg
      (codes "Disk Info:\n\t"
        ++ itoa cylinders
        ++ codes " CYLINDERS\t"
        ++ itoa sectors
        ++ codes " SECTORS\tBLOCK_SIZE = "
        ++ itoa block_size)
      rest

-- The loop of `read_disk` with `num` bytes to go. Its test of `get_msg` is never true.
unfoldable pub send_chunks : {A : Type 0} → ℕ → File → ℕ → ℕ → Wire A → Wire A
send_chunks zero file pos num rest = stopped
send_chunks (suc rounds) file pos num rest =
    let len = min buffer_size num in
    let further = send_chunks rounds file (pos + len) (num - len) rest in
    elim (num == 0) [ true ↦ rest | false ↦ hear_msg (λ msg. say (read_file file pos len) further) ]

unfoldable pub follow : ℕ → Text
follow num = codes "FOLLOW " ++ itoa num

unfoldable pub read_disk : {A : Type 0} → File → ℕ → ℕ → Wire A → Wire A
read_disk file c s rest = elim (get_offset c s) [
  | none ↦ say_msg (follow 0) rest
  | some offset ↦ say_msg (follow block_size) (send_chunks 5 file offset block_size rest)
]

-- the loop of `write_disk` for `n` more rounds
unfoldable pub take_chunks : {A : Type 0} → ℕ → File → ℕ → ℕ → (File → Wire A) → Wire A
take_chunks zero file offset end rest = say_msg (codes "OVER") (rest file)
take_chunks (suc n) file offset end rest = say_msg (codes "EXPECT") (
    hear buffer_size (λ bytes.
      let data_ = take (end - offset) bytes in
      take_chunks n (write_file file offset data_) (offset + length data_) end rest))

-- the rounds for the bit pattern of an `int`
abbrev pub rounds_of : ℕ → ℕ
rounds_of n = if ltb n (2 ^ 31) then n else 0

unfoldable pub write_disk : {A : Type 0} → File → ℕ → ℕ → ℕ → (File → Wire A) → Wire A
write_disk file c s n rest = elim (get_offset c s) [
  | none ↦ take_chunks 0 file 0 0 rest
  | some offset ↦ take_chunks (rounds_of n) file offset (offset + block_size) rest
]

-- one request; `rest` is the loop behind it
unfoldable pub serve : (File → Wire File) → File → List Text → Wire File
serve rest file [] = stopped
serve rest file (word ∷ []) =
    if str_eq word (codes "E")
    then say_msg (codes "BYE") (done file)
    else if str_eq word (codes "I")
    then send_info (rest file)
    else say_msg (codes "INVALID COMMAND") (rest file)
serve rest file (word ∷ c ∷ s ∷ []) =
    if str_eq word (codes "R")
    then read_disk file (atoi c) (atoi s) (rest file)
    else say_msg (codes "INVALID COMMAND") (rest file)
serve rest file (word ∷ c ∷ s ∷ n ∷ []) =
    if str_eq word (codes "W")
    then write_disk file (atoi c) (atoi s) (atoi n) rest
    else say_msg (codes "INVALID COMMAND") (rest file)
serve rest file _ = say_msg (codes "INVALID COMMAND") (rest file)

-- `serv_loop` for at most `requests` requests
unfoldable pub serv_loop : ℕ → File → Wire File
serv_loop zero file = stopped
serv_loop (suc requests) file = hear_msg (elim [
  | none ↦ done file
  | some request ↦ serve (λ file'. serv_loop requests file') file (get_toks request 6)
])

-- the loop of `read_block` with `num` bytes to go, behind `got`
unfoldable pub fetch_chunks : {A : Type 0} → ℕ → ℕ → List ℕ → (List ℕ → Wire A) → Wire A
fetch_chunks zero num got next = stopped
fetch_chunks (suc rounds) num got next = elim (num == 0) [
  | true ↦ next got
  | false ↦ say_msg (codes "EXPECT") (
      hear (min buffer_size num)
        (λ bytes. fetch_chunks rounds (num - length bytes) (got ++ bytes) next))
]

-- `read_block`: the bytes that it has got, `none` if it leaves the block as it was
unfoldable pub fetch_block : {A : Type 0} → ℕ → ℕ → (Option (List ℕ) → Wire A) → Wire A
fetch_block c s next = say_msg (codes "R " ++ itoa c ++ codes " " ++ itoa s) (
    hear_msg (elim [
      | none ↦ stopped
      | some reply ↦
          elim (str_eq (take 7 reply) (codes "FOLLOW ") && atoi (drop 7 reply) == block_size) [
            | false ↦ next none
            | true ↦ fetch_chunks (block_size + 1) block_size [] (λ bytes. next (some bytes))
          ]
    ]))

-- the loop of `write_block`, which goes on until all bytes are sent
unfoldable pub store_chunks : {A : Type 0} → ℕ → List ℕ → Wire A → Wire A
store_chunks zero bytes next = stopped
store_chunks (suc rounds) [] next = hear_msg (elim [ none ↦ stopped | some reply ↦ next ])
store_chunks (suc rounds) (b ∷ bytes) next = hear_msg (elim [
  | none ↦ stopped
  | some reply ↦
      let sent =
        say (take buffer_size (b ∷ bytes))
          (store_chunks rounds (drop buffer_size (b ∷ bytes)) next) in
      let again = store_chunks rounds (b ∷ bytes) next in
      elim (str_eq reply (codes "EXPECT")) [ true ↦ sent | false ↦ again ]
])

-- `write_block` on the bytes of a block, for at most `rounds` replies
unfoldable pub store_block : {A : Type 0} → ℕ → ℕ → ℕ → List ℕ → Wire A → Wire A
store_block rounds c s bytes next =
    say_msg
      (codes "W "
        ++ itoa c
        ++ codes " "
        ++ itoa s
        ++ codes " "
        ++ itoa ((block_size - 1) / buffer_size + 1))
      (store_chunks rounds bytes next)
