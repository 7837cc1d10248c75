-- ===== src/DiskMgr/Read.antt =====
-- src/utils.c and src/disk_mgr.c: the conversation of `read_block` and the disk manager.
use cs356_mini_file_system.DiskMgr.Blocks.{chunks}
use cs356_mini_file_system.Wire.Talk.{
  Reaches, Reaches-answer, Reaches-eq, Reaches-refl, Reaches-say, Reaches-trans, heard-packet,
  length-packet,
}
use cs356_mini_file_system.Utils.Socket.{ends_in_nul, packet}
use cs356_mini_file_system.Base.{
  List, Option, [], ap, ap₂, arith, drop, false, length, none, refl, some, suc, take, true, ℕ, ◌&&◌,
  ◌*◌, ◌+◌, ◌<◌, ◌^◌, ◌==◌, ◌∙◌, ◌∷◌, ◌≡◌,
}
use cs356_mini_file_system.Utils.Text.{IsText, Text, c_string, codes, str_eq}
use cs356_mini_file_system.Utils.Decimal.{atoi, digits, itoa, read_digits, read_signed}
use cs356_mini_file_system.Utils.Decimal.RoundTrip.{atoi-itoa}
use cs356_mini_file_system.Utils.Tokens.{get_toks}
use cs356_mini_file_system.Wire.{Wire, done, hear_msg, heard, quiet, say_msg, stopped}
use cs356_mini_file_system.Alloc.Cache.{cylinders, sectors}
use cs356_mini_file_system.DiskMgr.{
  File, block_size, fetch_block, fetch_chunks, follow, get_offset, read_disk, read_file,
  send_chunks, serv_loop, serve,
}
use cs356_mini_file_system.DiskMgr.Requests.{
  request, request-IsText, request-short, request-toks, request_words,
}

-- the disk manager behind its `get_msg`
unfoldable pub on_message : ℕ → File → Option Text → Wire File
on_message requests file = elim [
  | none ↦ done file
  | some text ↦ serve (λ file'. serv_loop requests file') file (get_toks text 6)
]

-- `read_block` behind its first `get_msg`
unfoldable pub on_reply : {A : Type 0} → (Option (List ℕ) → Wire A) → Option Text → Wire A
on_reply next = elim [
  | none ↦ stopped
  | some reply ↦
      elim (str_eq (take 7 reply) (codes "FOLLOW ") && atoi (drop 7 reply) == block_size) [
        | false ↦ next none
        | true ↦ fetch_chunks (block_size + 1) block_size [] (λ bytes. next (some bytes))
      ]
]

pub on_message-toks :
    (requests : ℕ) (file : File) (text : Text) {words : List Text}
    → length text < 127
    → IsText text
    → get_toks text 6 ≡ words
    → on_message requests file (heard (packet text))
      ≡ serve (λ file'. serv_loop requests file') file words
unfolding on_message
on_message-toks requests file text short valid toks =
    ap (on_message requests file) (heard-packet text short valid)
    ∙ ap (λ l. serve (λ file'. serv_loop requests file') file l) toks

pub fetch_block-asked :
    {A : Type 0} (c s : ℕ)
    → c < 2 ^ 31
    → s < 2 ^ 31
    → (requests : ℕ) (file : File) (next : Option (List ℕ) → Wire A)
    → Reaches (quiet (fetch_block c s next) (serv_loop (suc requests) file)) (
        quiet
          (hear_msg (on_reply next))
          (serve (λ file'. serv_loop requests file') file (request_words c s)))
unfolding fetch_block serv_loop on_message on_reply
fetch_block-asked c s c_fits s_fits requests file next =
    Reaches-trans
      (Reaches-say (packet (request c s)) 127 (λ bytes. on_reply next (heard bytes)) 127
        (λ bytes. on_message requests file (heard bytes))
        (length-packet (request c s) (request-short c s c_fits s_fits)))
      (Reaches-eq _ refl
        (on_message-toks requests file (request c s) (request-short c s c_fits s_fits)
          (request-IsText c s c_fits s_fits) (request-toks c s c_fits s_fits))
        (Reaches-refl _))

module _ (c s : ℕ) (c_in : c < cylinders) (s_in : s < sectors) where
  -- the place of the block in the disk file
  abbrev pub offset : ℕ
  offset = block_size * (c * sectors + s)

  pub get_offset-in : get_offset c s ≡ some offset
  unfolding get_offset
  get_offset-in = ground (arith, c_in, s_in)

  serve-read :
      (rest : File → Wire File) (file : File)
      → serve rest file (codes "R" ∷ itoa c ∷ itoa s ∷ [])
        ≡ say_msg (follow block_size) (send_chunks 5 file offset block_size (rest file))
  unfolding serve read_disk str_eq
  serve-read rest file =
      ap₂ (λ a b. read_disk file a b (rest file)) (atoi-itoa c (omega (arith, c_in)))
        (atoi-itoa s (omega (arith, s_in)))
      ∙ rw (get_offset-in, read_disk) refl

  module _ {A : Type 0} (requests : ℕ) (file : File) (next : Option (List ℕ) → Wire A) where
    -- the loop of the disk manager behind this request
    abbrev rest : Wire File
    rest = serv_loop requests file

    on_reply-follow :
        on_reply next (heard (packet (follow block_size)))
        ≡ fetch_chunks (block_size + 1) block_size [] (λ bytes. next (some bytes))
    unfolding on_reply heard packet follow itoa digits ends_in_nul c_string str_eq atoi read_signed
        read_digits
    on_reply-follow = refl

    -- For a cylinder below 128 and a sector below 32, `read_block` and the disk manager come, in a
    -- number of steps, to where `read_block` has the 512 bytes of the block in the disk file, the
    -- disk manager waits for the next request with the file unchanged, and no message is on its way.
    pub fetch_block-Reaches :
        Reaches (quiet (fetch_block c s next) (serv_loop (suc requests) file)) (
          quiet
            (next (some (read_file file (block_size * (c * sectors + s)) block_size)))
            (serv_loop requests file))
    fetch_block-Reaches =
        Reaches-trans
          (fetch_block-asked c s (omega (arith, c_in)) (omega (arith, s_in)) requests file next)
          (Reaches-eq _ refl (serve-read (λ file'. serv_loop requests file') file) (
            Reaches-trans
              (Reaches-answer (packet (follow block_size)) 127
                (λ bytes. on_reply next (heard bytes)) (send_chunks 5 file offset block_size rest)
                (length-packet (follow block_size) follow-short))
              (Reaches-eq _ on_reply-follow refl (
                chunks file (λ bytes. next (some bytes)) rest 4 (block_size + 1) 5 offset block_size
                  [] refl (omega arith) (omega arith)))))
      where
        follow-short : length (follow block_size) < 127
        follow-short = unfold follow itoa digits in omega arith
