-- ===== src/Client/Replies.antt =====
-- src/client.c: what the client makes of a reply with texts.
use cs356_mini_file_system.Utils.Decimal.RoundTrip.{atoi-itoa}
use cs356_mini_file_system.Utils.Decimal.{atoi, itoa, read_digits, read_signed}
use cs356_mini_file_system.Base.{
  All, List, Option, [], ap, append-nil, append_assoc, ap₂, arith, false, length, lt→ltb, map, none,
  refl, some, suc, sym, true, ℕ, ◌++◌, ◌<◌, ◌^◌, ◌∙◌, ◌∷◌, ◌≡◌,
}
use cs356_mini_file_system.Utils.Text.{IsText, Text, codes}
use cs356_mini_file_system.Utils.Socket.{Sock, get_msg, get_msg-packet, packet, send_msg}
use cs356_mini_file_system.Client.{Shell, Shown, cmd_loop, react, rounds_of, show_msgs, show_reply}
use cs356_mini_file_system.Fs.Show.Stream.{expects}

-- a text that one message takes
pub record IsMessage (text : Text) : Type 0 where
  pub valid : IsText text
  pub short : length text < 127

-- a message that is sent, and the reply that is waiting
replied_with :
    (text request : Text) (rest out : List (List ℕ))
    → IsMessage text
    → get_msg (send_msg (record { inbox = packet text ∷ rest; outbox = out }) request)
      ≡ (some text, record { inbox = rest; outbox = out ++ packet request ∷ [] })
unfolding send_msg
replied_with text request rest out h =
    get_msg-packet text rest (out ++ packet request ∷ []) h.valid
    ∙ rw (lt→ltb (length text) 127 h.short) refl

-- the texts, one behind the other
abbrev pub joined : List Text → Text
joined [] = []
joined (text ∷ texts) = text ++ joined texts

-- the loop below `get_msg`
shown_behind : ℕ → Text → Option Text × Sock → Shown
shown_behind n printed got = elim got.0 [
  | none ↦ record { complete = false; sock = got.1; printed = printed }
  | some text ↦ show_msgs n got.1 (printed ++ text)
]

show_msgs-joined :
    (texts : List Text) (rest out : List (List ℕ)) (printed : Text)
    → All IsMessage texts
    → show_msgs (length texts) (record { inbox = map packet texts ++ rest; outbox = out }) printed
      ≡ record {
        complete = true;
        sock = record { inbox = rest; outbox = out ++ expects texts };
        printed = printed ++ joined texts;
      }
unfolding show_msgs shown_behind
show_msgs-joined [] rest out printed h =
    ap₂ (λ o p. record { complete = true; sock = record { inbox = rest; outbox = o }; printed = p })
      (sym (append-nil out)) (sym (append-nil printed))
show_msgs-joined (text ∷ texts) rest out printed h =
    ap (shown_behind (length texts) printed)
      (replied_with text (codes "EXPECT") (map packet texts ++ rest) out h.0)
    ∙ (show_msgs-joined texts rest (out ++ packet (codes "EXPECT") ∷ []) (printed ++ text) h.1
        ∙ ap₂
            (λ o p. record {
              complete = true;
              sock = record { inbox = rest; outbox = o };
              printed = p;
            })
            (append_assoc out (packet (codes "EXPECT") ∷ []) (expects texts))
            (append_assoc printed text (joined texts)))

abbrev pub at_prompt : Sock → List Text → Text → Shell
at_prompt sock lines printed = record { sock = sock; lines = lines; printed = printed }

-- what `show_reply` does when the messages are shown
reply_end : (Shell → Option (ℕ × Shell)) → Shell → Shown → Option (ℕ × Shell)
reply_end again shell shown = elim shown.complete [
  | false ↦ some (1, record shell { sock = shown.sock; printed = shown.printed })
  | true ↦ again (record shell { sock = shown.sock; printed = shown.printed ++ codes "\n" })
]

-- `show_reply` below its `get_msg`
reply_behind : (Shell → Option (ℕ × Shell)) → Shell → Option Text × Sock → Option (ℕ × Shell)
reply_behind again shell got = elim got.0 [
  | none ↦ none
  | some text ↦ reply_end again shell (show_msgs (rounds_of (atoi text)) got.1 shell.printed)
]

-- `cmd_loop` below its `get_msg`
loop_behind : ℕ → Shell → Text → List Text → Option Text × Sock → Option (ℕ × Shell)
loop_behind rounds shell line lines got = elim got.0 [
  | none ↦ none
  | some text ↦
      react (λ next. cmd_loop rounds next) line (atoi text)
        (at_prompt got.1 lines (shell.printed ++ codes "Command > "))
]

module _ (rounds : ℕ) (line : Text) (lines : List Text) (texts : List Text)
    (rest out : List (List ℕ)) (printed : Text) (messages : All IsMessage texts)
    (count : length texts < 2 ^ 31) (number : IsMessage (itoa (length texts))) where
  abbrev prompted : Text
  prompted = printed ++ codes "Command > "

  abbrev out' : List (List ℕ)
  out' = out ++ packet line ∷ []

  announced : rounds_of (atoi (itoa (length texts))) ≡ length texts
  announced = rw (atoi-itoa (length texts) count, lt→ltb (length texts) (2 ^ 31) count) refl

  -- the client's part from the number on
  show_reply-texts :
      (again : Shell → Option (ℕ × Shell))
      → show_reply again (
          at_prompt
            (record {
              inbox = packet (itoa (length texts)) ∷ (map packet texts ++ rest);
              outbox = out';
            })
            lines
            prompted)
        ≡ again (
            at_prompt
              (record {
                inbox = rest;
                outbox = (out' ++ packet (codes "ACK") ∷ []) ++ expects texts;
              })
              lines
              ((prompted ++ joined texts) ++ codes "\n"))
  unfolding show_reply reply_behind reply_end
  show_reply-texts again =
      ap
        (reply_behind again (
          at_prompt
            (record {
              inbox = packet (itoa (length texts)) ∷ (map packet texts ++ rest);
              outbox = out';
            })
            lines prompted))
        (replied_with (itoa (length texts)) (codes "ACK") (map packet texts ++ rest) out' number)
      ∙ ap
          (reply_end again (
            at_prompt
              (record {
                inbox = packet (itoa (length texts)) ∷ (map packet texts ++ rest);
                outbox = out';
              })
              lines prompted))
          (ap
              (λ n.
                show_msgs n
                  (record {
                    inbox = map packet texts ++ rest;
                    outbox = out' ++ packet (codes "ACK") ∷ [];
                  })
                  prompted)
              announced
            ∙ show_msgs-joined texts rest (out' ++ packet (codes "ACK") ∷ []) prompted messages)

  pub cmd_loop-texts :
      cmd_loop (suc rounds) (
        at_prompt
          (record {
            inbox =
                packet (codes "2") ∷ (packet (itoa (length texts)) ∷ (map packet texts ++ rest));
            outbox = out;
          })
          (line ∷ lines)
          printed)
      ≡ cmd_loop rounds (
          at_prompt
            (record { inbox = rest; outbox = (out' ++ packet (codes "ACK") ∷ []) ++ expects texts })
            lines
            ((prompted ++ joined texts) ++ codes "\n"))
  unfolding cmd_loop loop_behind react atoi read_signed read_digits
  cmd_loop-texts =
      ap
        (loop_behind rounds
          (at_prompt
            (record {
              inbox =
                  packet (codes "2") ∷ (packet (itoa (length texts)) ∷ (map packet texts ++ rest));
              outbox = out;
            })
            (line ∷ lines) printed)
          line lines)
        (replied_with (codes "2") line (packet (itoa (length texts)) ∷ (map packet texts ++ rest))
          out (record { valid = (omega arith, tt); short = omega arith }))
      ∙ show_reply-texts (λ next. cmd_loop rounds next)
