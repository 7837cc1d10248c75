-- ===== src/Client/Cat.antt =====
-- src/client.c and src/server.c: what the server sends of a file and what the client prints of it.
use cs356_mini_file_system.Client.Replies.{IsMessage, at_prompt, cmd_loop-texts, joined}
use cs356_mini_file_system.Layout.{to_inode}
use cs356_mini_file_system.Store.Spec.{Store, run}
use cs356_mini_file_system.Paths.{FilePath, id_of}
use cs356_mini_file_system.Server.Interpret.{cat_request, perform}
use cs356_mini_file_system.Fs.Show.Whole.{file_zones, text_at}
use cs356_mini_file_system.Client.Serve.{
  Finds, IsShown, answered, asked, perform-answered, texts_in,
}
use cs356_mini_file_system.DiskMgr.Numbers.{itoa-IsNumber}
use cs356_mini_file_system.Utils.Decimal.{itoa}
use cs356_mini_file_system.Base.{
  All, Bool-cases, List, [], append_assoc, ap₂, arith, inl, inr, length, map, some, suc, ℕ, ◌++◌,
  ◌<◌, ◌==◌, ◌^◌, ◌∙◌, ◌∷◌, ◌≡◌, ◌≤◌,
}
use cs356_mini_file_system.Utils.Text.{Text, c_string, c_string-IsText, codes}
use cs356_mini_file_system.Utils.Socket.{packet}
use cs356_mini_file_system.Client.{cmd_loop}
use cs356_mini_file_system.Fs.Show.Stream.{connected, expects}
use cs356_mini_file_system.Store.Prog.{ok}

itoa-IsMessage : (n : ℕ) → n < 2 ^ 31 → IsMessage (itoa n)
itoa-IsMessage n h =
    let number = itoa-IsNumber n h in
    record { valid = number.text; short = omega (arith, number.short) }

length-c_string : (bytes : List ℕ) → length (c_string bytes) ≤ length bytes
unfolding c_string
length-c_string [] = omega arith
length-c_string (b ∷ bytes) = elim (Bool-cases (b == 0)) [
  | inl z ↦ rw z (omega arith)
  | inr nz ↦ rw nz (omega (arith, length-c_string bytes))
]

texts-IsMessage :
    (s : Store) (ids : List ℕ)
    → ((id : ℕ) → length (s.zones id) ≡ 64)
    → All IsMessage (map (text_at s.zones) ids)
texts-IsMessage s [] h = tt
texts-IsMessage s (id ∷ ids) h = (
  record {
    valid = c_string-IsText (s.zones id);
    short = omega (arith, length-c_string (s.zones id), h id);
  },
  texts-IsMessage s ids h,
)

-- If the search finds a file of fewer than 2 ^ 31 data zones, marked as an inode, whose pointers
-- in use are ids of zones and whose size announces the number of its data zones, and all zones
-- have 64 bytes, then `cat` at the client and at the server fit together: the server, given the
-- client's messages, sends its replies, and the client, given these replies, sends those messages
-- behind its line, prints the texts of the data zones in their order behind its prompt, and goes
-- on with its loop. Neither takes messages that come behind.
pub cat-cmd_loop :
    (fuel rounds : ℕ) (s s' : Store) (pwd p : FilePath) (path line : Text) (lines : List Text)
    (printed : Text) (rest out more sent : List (List ℕ))
    → Finds s pwd path p s'
    → (shown : IsShown s' (id_of p)) → ((id : ℕ) → length (s'.zones id) ≡ 64)
    → length (texts_in s' (id_of p) shown.zone) < 2 ^ 31
    → let texts = texts_in s' (id_of p) shown.zone in
      (run (perform fuel pwd (cat_request path)) (connected s (asked texts ++ rest) out)
        ≡ ok (some pwd) (connected s' rest (out ++ answered texts)))
      × (cmd_loop (suc rounds) (
            at_prompt
              (record { inbox = answered texts ++ more; outbox = sent })
              (line ∷ lines)
              printed)
          ≡ cmd_loop rounds (
              at_prompt
                (record { inbox = more; outbox = sent ++ (packet line ∷ asked texts) })
                lines
                (printed ++ (codes "Command > " ++ (joined texts ++ codes "\n")))))
cat-cmd_loop fuel rounds s s' pwd p path line lines printed rest out more sent finds shown whole_
      count =
    let texts = texts_in s' (id_of p) shown.zone in
    (
      perform-answered fuel s s' pwd p path rest out finds shown,
      cmd_loop-texts rounds line lines texts more sent printed
            (texts-IsMessage s' (file_zones s'.zones (to_inode (s'.zones (id_of p))).ptrs) whole_)
            count (itoa-IsMessage (length texts) count)
          ∙ ap₂ (λ o q. cmd_loop rounds (at_prompt (record { inbox = more; outbox = o }) lines q))
              (append_assoc (sent ++ packet line ∷ []) (packet (codes "ACK") ∷ []) (expects texts)
                ∙ append_assoc sent (packet line ∷ []) (asked texts))
              (append_assoc (printed ++ codes "Command > ") (joined texts) (codes "\n")
                ∙ append_assoc printed (codes "Command > ") (joined texts ++ codes "\n")),
    )
