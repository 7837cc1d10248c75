-- ===== src/DiskMgr/OutOfRange.antt =====
-- src/utils.c and src/disk_mgr.c: a cylinder or a sector that the disk does not have.
use cs356_mini_file_system.Base.{
  List, Option, [], ap, ap₂, arith, leb, length, none, refl, suc, true, zero, ℕ, ◌+◌, ◌<◌, ◌^◌,
  ◌||◌, ◌∙◌, ◌∷◌, ◌≡◌,
}
use cs356_mini_file_system.Utils.Text.{c_string, codes, str_eq}
use cs356_mini_file_system.Utils.Socket.{ends_in_nul, packet}
use cs356_mini_file_system.Utils.Decimal.{atoi, digits, itoa, read_digits, read_signed}
use cs356_mini_file_system.Utils.Decimal.RoundTrip.{atoi-itoa}
use cs356_mini_file_system.Wire.{
  Config, Wire, heard, quiet, say_msg, step, step_client, step_server, talk,
}
use cs356_mini_file_system.Wire.Talk.{
  Reaches, Reaches-answer, Reaches-eq, Reaches-refl, Reaches-trans, Waits, length-packet, talk-add,
}
use cs356_mini_file_system.Alloc.Cache.{cylinders, sectors}
use cs356_mini_file_system.DiskMgr.{
  File, fetch_block, follow, get_offset, read_disk, serv_loop, serve, store_block, store_chunks,
  take_chunks, write_disk,
}
use cs356_mini_file_system.DiskMgr.Parts.{store-Waits}
use cs356_mini_file_system.DiskMgr.Read.{fetch_block-asked, on_reply}
use cs356_mini_file_system.DiskMgr.Requests.{order_words, request_words}
use cs356_mini_file_system.DiskMgr.Write.{store_block-ordered}

-- Both programs wait for a message of the other, now and after any further steps.
pub record Hangs {A B : Type 0} (x : Config A B) : Type 0 where
  pub steps : ℕ
  pub client : Wire A
  pub server : Wire B
  pub client_waits : Waits client
  pub server_waits : Waits server
  pub for_ever : (n : ℕ) → talk (steps + n) x ≡ quiet client server

step_waiting :
    {A B : Type 0} (c : Wire A) (s : Wire B) → Waits c → Waits s → step (quiet c s) ≡ quiet c s
unfolding step_client step_server
step_waiting c s w v = rw (w.waits, v.waits) refl

talk_waiting :
    {A B : Type 0} (c : Wire A) (s : Wire B) (n : ℕ)
    → Waits c
    → Waits s
    → talk n (quiet c s) ≡ quiet c s
unfolding talk
talk_waiting c s zero w v = refl
talk_waiting c s (suc n) w v = ap (talk n) (step_waiting c s w v) ∙ talk_waiting c s n w v

Hangs-Reaches :
    {A B : Type 0} {x : Config A B} (c : Wire A) (s : Wire B)
    → Reaches x (quiet c s)
    → Waits c
    → Waits s
    → Hangs x
Hangs-Reaches {x = x} c s r w v = record {
  steps = r.steps;
  client = c;
  server = s;
  client_waits = w;
  server_waits = v;
  for_ever = λ n. talk-add r.steps n x ∙ ap (talk n) r.ran ∙ talk_waiting c s n w v;
}

serv_loop-Waits : (requests : ℕ) (file : File) → Waits (serv_loop (suc requests) file)
unfolding serv_loop
serv_loop-Waits requests file = record { size = _; back = _; waits = refl }

module _ (c s : ℕ) (c_fits : c < 2 ^ 31) (s_fits : s < 2 ^ 31)
    (out : (leb cylinders c || leb sectors s) ≡ true) where
  get_offset-out : get_offset c s ≡ none
  unfolding get_offset
  get_offset-out = rw out refl

  serve-read_out :
      (rest : File → Wire File) (file : File)
      → serve rest file (request_words c s) ≡ say_msg (follow 0) (rest file)
  unfolding serve read_disk str_eq
  serve-read_out rest file =
      ap₂ (λ a b. read_disk file a b (rest file)) (atoi-itoa c c_fits) (atoi-itoa s s_fits)
      ∙ rw (get_offset-out, read_disk) refl

  serve-write_out :
      (rest : File → Wire File) (file : File)
      → serve rest file (order_words c s) ≡ say_msg (codes "OVER") (rest file)
  unfolding serve str_eq atoi read_signed read_digits write_disk take_chunks
  serve-write_out rest file =
      ap₂ (λ a b. write_disk file a b 4 rest) (atoi-itoa c c_fits) (atoi-itoa s s_fits)
      ∙ rw (get_offset-out, write_disk, take_chunks) refl

  module _ {A : Type 0} (requests : ℕ) (file : File) where
    on_reply-none :
        (next : Option (List ℕ) → Wire A) → on_reply next (heard (packet (follow 0))) ≡ next none
    unfolding on_reply heard packet follow itoa digits ends_in_nul c_string str_eq atoi read_signed
        read_digits
    on_reply-none next = refl

    fetch_block-out :
        (next : Option (List ℕ) → Wire A)
        → Reaches
            (quiet (fetch_block c s next) (serv_loop (suc requests) file))
            (quiet (next none) (serv_loop requests file))
    fetch_block-out next = Reaches-trans (fetch_block-asked c s c_fits s_fits requests file next) (
        Reaches-eq _ refl (serve-read_out (λ file'. serv_loop requests file') file) (
          Reaches-trans
            (Reaches-answer (packet (follow 0)) 127 (λ bytes. on_reply next (heard bytes))
              (serv_loop requests file) (length-packet (follow 0) follow-short))
            (Reaches-eq _ (on_reply-none next) refl (Reaches-refl _))))
      where
        follow-short : length (follow 0) < 127
        follow-short = unfold follow itoa digits in omega arith

    -- "OVER" is not what the loop of `write_block` waits for.
    store_chunks-over :
        (k : ℕ) (bytes : List ℕ) (next : Wire A) (rest : Wire File)
        → 0 < length bytes
        → Reaches
            (quiet (store_chunks (suc k) bytes next) (say_msg (codes "OVER") rest))
            (quiet (store_chunks k bytes next) rest)
    unfolding store_chunks heard packet ends_in_nul c_string str_eq
    store_chunks-over k [] next rest more = absurd (omega arith)
    store_chunks-over k (b ∷ bytes) next rest more =
        Reaches-answer (packet (codes "OVER")) 127 _ rest
          (length-packet (codes "OVER") (omega arith))

    store_block-Hangs :
        (k : ℕ) (bytes : List ℕ) (next : Wire A)
        → 0 < length bytes
        → Hangs
            (quiet (store_block (suc (suc k)) c s bytes next) (serv_loop (suc (suc requests)) file))
    store_block-Hangs k bytes next more =
        Hangs-Reaches (store_chunks (suc k) bytes next) (serv_loop (suc requests) file)
          (Reaches-trans
            (store_block-ordered c s c_fits s_fits (suc requests) (suc k) file bytes next)
            (Reaches-eq _ refl (serve-write_out (λ file'. serv_loop (suc requests) file') file)
              (store_chunks-over (suc k) bytes next (serv_loop (suc requests) file) more)))
          (store-Waits next (λ f. serv_loop requests f) k bytes) (serv_loop-Waits requests file)

-- For an address of two numbers below 2 ^ 31 that has a cylinder from 128 on or a sector from 32
-- on, `read_block` comes to its end with the block as it was, and the disk manager waits for the
-- next request with the disk file as it was; but `write_block` of a block that has a byte hangs:
-- it waits for another "EXPECT", and the disk manager for a request, for ever.
pub out_of_range-Hangs :
    {A : Type 0} (c s : ℕ)
    → c < 2 ^ 31
    → s < 2 ^ 31
    → (leb cylinders c || leb sectors s) ≡ true
    → (requests rounds : ℕ) (file : File) (bytes : List ℕ) (next : Option (List ℕ) → Wire A)
      (over : Wire A)
    → 0 < length bytes
    → Reaches
        (quiet (fetch_block c s next) (serv_loop (suc requests) file))
        (quiet (next none) (serv_loop requests file))
      × Hangs (
          quiet
            (store_block (suc (suc rounds)) c s bytes over)
            (serv_loop (suc (suc requests)) file))
out_of_range-Hangs c s c_fits s_fits out requests rounds file bytes next over more = (
  fetch_block-out c s c_fits s_fits out requests file next,
  store_block-Hangs c s c_fits s_fits out requests file rounds bytes over more,
)
