-- ===== src/Client.antt =====
-- src/client.c: the client's shell. The terminal is the lines that the user types and the text that
-- is printed.
pub mod Serve
pub mod Replies
pub mod Cat
use cs356_mini_file_system.Base.{
  Bool, List, Option, [], false, if◌then◌else◌, ltb, none, not, some, suc, true, zero, ℕ, ◌++◌,
  ◌==◌, ◌^◌, ◌∷◌,
}
use cs356_mini_file_system.Utils.Text.{Text, codes}
use cs356_mini_file_system.Utils.Socket.{Sock, get_msg, send_msg}
use cs356_mini_file_system.Utils.Decimal.{atoi}

-- `sock`, the lines to come, and what the terminal shows
pub record Shell : Type 0 where
  pub sock : Sock
  pub lines : List Text
  pub printed : Text

-- What the loop over the messages of a reply leaves: whether it has come to its end.
pub record Shown : Type 0 where
  pub complete : Bool
  pub sock : Sock
  pub printed : Text

-- `while (n > 0) { send_msg(sock, "EXPECT"); msg = get_msg(sock); ... }`
unfoldable pub show_msgs : ℕ → Sock → Text → Shown
show_msgs zero sock printed = record { complete = true; sock = sock; printed = printed }
show_msgs (suc n) sock printed =
    let (msg, sock') = get_msg (send_msg sock (codes "EXPECT")) in
    elim msg [
      | none ↦ record { complete = false; sock = sock'; printed = printed }
      | some text ↦ show_msgs n sock' (printed ++ text)
    ]

-- the rounds for the bit pattern of an `int`
abbrev pub rounds_of : ℕ → ℕ
rounds_of n = if ltb n (2 ^ 31) then n else 0

-- the reply 1: one more line for the server
unfoldable pub ask_line : (Shell → Option (ℕ × Shell)) → Shell → Option (ℕ × Shell)
ask_line again shell = elim shell.lines [
  | [] ↦ none
  | line ∷ lines ↦
      let (msg, sock) = get_msg (send_msg shell.sock line) in
      elim msg [
        | none ↦ none
        | some text ↦
            let note = if atoi text == 0 then [] else line ++ codes ": execution failed.\n" in
            again (record { sock = sock; lines = lines; printed = shell.printed ++ note })
      ]
]

-- the reply 2: a number, and that many messages. `err_exit` ends the client with 1.
unfoldable pub show_reply : (Shell → Option (ℕ × Shell)) → Shell → Option (ℕ × Shell)
show_reply again shell =
    let (msg, sock) = get_msg (send_msg shell.sock (codes "ACK")) in
    elim msg [
      | none ↦ none
      | some text ↦
          let shown = show_msgs (rounds_of (atoi text)) sock shell.printed in
          elim shown.complete [
            | false ↦ some (1, record shell { sock = shown.sock; printed = shown.printed })
            | true ↦
                again (record shell { sock = shown.sock; printed = shown.printed ++ codes "\n" })
          ]
    ]

-- the branches of `cmd_loop` on a reply to the line; `again` goes on with the loop
unfoldable pub react : (Shell → Option (ℕ × Shell)) → Text → ℕ → Shell → Option (ℕ × Shell)
react again line reply shell = elim (reply == 0) [
  | true ↦ again shell
  | false ↦ elim (reply == 1) [
    | true ↦ ask_line again shell
    | false ↦ elim (reply == 2) [
      | true ↦ show_reply again shell
      | false ↦ elim (reply == 3) [
        | true ↦ some (0, shell)
        | false ↦
            let note = if reply == 4 then ": execution failed.\n" else ": command not found.\n" in
            again (record shell { printed = shell.printed ++ (line ++ codes note) })
      ]
    ]
  ]
]

-- `cmd_loop` for at most that many lines: the client's exit code, and the shell as it is left. `none`
-- is undefined behaviour (`atoi` of a null pointer), the end of the terminal's input, or a loop that
-- is cut off.
unfoldable pub cmd_loop : ℕ → Shell → Option (ℕ × Shell)
cmd_loop zero shell = none
cmd_loop (suc rounds) shell = elim shell.lines [
  | [] ↦ none
  | line ∷ lines ↦
      let (msg, sock) = get_msg (send_msg shell.sock line) in
      elim msg [
        | none ↦ none
        | some text ↦
            react (λ next. cmd_loop rounds next) line (atoi text)
              (record { sock = sock; lines = lines; printed = shell.printed ++ codes "Command > " })
      ]
]
