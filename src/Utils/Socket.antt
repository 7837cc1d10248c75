-- ===== src/Utils/Socket.antt =====
-- src/utils.c: `send_msg` and `get_msg` over the two directions of a connection. A call of `read`
-- returns the bytes of one `write` of the peer, up to the size of the buffer.
use cs356_mini_file_system.Base.{
  ==_ne, Bool, List, Option, [], arith, dec_lt, drop, drop-append, drop_all, false, if◌then◌else◌,
  length, length-append, length-take, ltb, ltb_ge, lt→ltb, none, refl, some, take, take-append,
  take_all, true, ℕ, ◌++◌, ◌-◌, ◌==◌, ◌∙◌, ◌∷◌, ◌≡◌, ◌≤◌,
}
use cs356_mini_file_system.Utils.Text.{IsText, IsText-take, Text, c_string, c_string_text}

pub record Sock : Type 0 where
  pub inbox : List (List ℕ)
  pub outbox : List (List ℕ)

abbrev pub buffer_size : ℕ
buffer_size = 128

-- the bytes that one `read` leaves for the next
unfoldable pub left_over : List ℕ → List (List ℕ) → List (List ℕ)
left_over [] rest = rest
left_over (b ∷ bs) rest = (b ∷ bs) ∷ rest

-- Is the last byte a NUL?
unfoldable pub ends_in_nul : List ℕ → Bool
ends_in_nul [] = false
ends_in_nul (b ∷ []) = b == 0
ends_in_nul (b ∷ c ∷ bs) = ends_in_nul (c ∷ bs)

receive : List (List ℕ) → List (List ℕ) → Option Text × Sock
receive [] out = (none, record { inbox = []; outbox = out })
receive (p ∷ rest) out =
    let got = take (buffer_size - 1) p in
    let sock : Sock = record { inbox = left_over (drop (buffer_size - 1) p) rest; outbox = out } in
    (if ends_in_nul got then some (c_string got) else none, sock)

unfoldable pub get_msg : Sock → Option Text × Sock
unfolding left_over ends_in_nul receive
get_msg sock = receive sock.inbox sock.outbox

-- `strncat` keeps at most `BUFFER_SIZE-1` bytes, and the NUL is sent too.
unfoldable pub packet : Text → List ℕ
packet msg = take (buffer_size - 1) msg ++ 0 ∷ []

unfoldable pub send_msg : Sock → Text → Sock
send_msg sock msg = record sock { outbox = sock.outbox ++ packet msg ∷ [] }

pub ends_in_nul_text : (s : Text) → ends_in_nul (s ++ 0 ∷ []) ≡ true
unfolding ends_in_nul
ends_in_nul_text [] = refl
ends_in_nul_text (b ∷ []) = refl
ends_in_nul_text (b ∷ c ∷ s) = ends_in_nul_text (c ∷ s)

ends_in_text : (s : Text) → IsText s → ends_in_nul s ≡ false
unfolding ends_in_nul
ends_in_text [] h = refl
ends_in_text (b ∷ []) h = ==_ne b 0 h.0
ends_in_text (b ∷ c ∷ s) h = ends_in_text (c ∷ s) h.1

-- what `get_msg` makes of the packet of `send_msg`
abbrev pub delivered : Text → List (List ℕ) → List (List ℕ) → Option Text × Sock
delivered s rest out =
    if ltb (length s) (buffer_size - 1)
    then (some s, record { inbox = rest; outbox = out })
    else (none, record { inbox = (0 ∷ []) ∷ rest; outbox = out })

-- A message of at most 126 bytes is received as it was sent. From 127 bytes on the NUL does not
-- fit into the receiver's read: `get_msg` fails, and leaves the NUL for the next read.
pub get_msg-packet :
    (s : Text) (rest out : List (List ℕ))
    → IsText s
    → get_msg (record { inbox = packet s ∷ rest; outbox = out }) ≡ delivered s rest out
unfolding get_msg packet
get_msg-packet s rest out h = elim (dec_lt (length s) 127) [
  | yes short ↦
      let whole : take 127 s ≡ s = take_all 127 s (omega arith) in
      let size : length (s ++ 0 ∷ []) ≤ 127 = omega (arith, length-append s (0 ∷ [])) in
      rw (
        whole,
        take_all 127 (s ++ 0 ∷ []) size,
        drop_all 127 (s ++ 0 ∷ []) size,
        ends_in_nul_text,
        c_string_text s [] h,
        lt→ltb (length s) 127 short,
      )
  | no long ↦
      let size : length (take 127 s) ≡ 127 = length-take 127 s ∙ omega arith in
      let test : ltb (length s) 127 ≡ false = ltb_ge _ _ (omega arith) in
      rw (
        take-append 127 (take 127 s) (0 ∷ []) size,
        drop-append 127 (take 127 s) (0 ∷ []) size,
        ends_in_text (take 127 s) (IsText-take 127 s h),
        test,
      )
]
