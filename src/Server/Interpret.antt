-- ===== src/Server/Interpret.antt =====
-- src/server.c: `interpret`, which answers the client's requests one after the other.
pub mod RoundTrip
pub mod Answers
pub mod Unknown
pub mod Missing
use cs356_mini_file_system.Store.Prog.{Prog, get_msg, out_of_fuel, pure, send_msg, ◌>>=◌, ◌>>◌}
use cs356_mini_file_system.Base.{
  Bool, List, Option, [], false, if◌then◌else◌, length, ltb, none, some, suc, true, zero, ℕ, ◌∷◌,
}
use cs356_mini_file_system.Utils.Text.{Text, codes, str_eq}
use cs356_mini_file_system.Utils.Tokens.{get_toks}
use cs356_mini_file_system.Paths.{FilePath}
use cs356_mini_file_system.Server.{append, cat, change, list, mk_dir, mk_file, rm_dir, rm_file, wrt}

-- the branches of `interpret`, with the tokens that they use
pub data Request : Type 0 where
  exit_request : Request
  touch_request : Text → Request
  mkdir_request : Text → Request
  rm_request : Text → Request
  rmdir_request : Text → Request
  ls_request : Text → Request
  ls_here_request : Request
  cat_request : Text → Request
  write_request : Text → Text → Request
  append_request : Text → Text → Request
  cd_request : Text → Request
  unknown_request : Request

-- the request of two tokens
unfoldable pub request_on : Text → Text → Request
request_on word path =
    if str_eq word (codes "touch")
    then touch_request path
    else if str_eq word (codes "mkdir")
    then mkdir_request path
    else if str_eq word (codes "rm")
    then rm_request path
    else if str_eq word (codes "rmdir")
    then rmdir_request path
    else if str_eq word (codes "ls")
    then ls_request path
    else if str_eq word (codes "cat")
    then cat_request path
    else if str_eq word (codes "cd")
    then cd_request path
    else unknown_request

-- the tests of `interpret` on the tokens of a request
unfoldable pub request_of : List Text → Request
request_of (word ∷ []) =
    if str_eq word (codes "exit")
    then exit_request
    else if str_eq word (codes "ls")
    then ls_here_request
    else unknown_request
request_of (word ∷ path ∷ []) = request_on word path
request_of (word ∷ path ∷ str ∷ []) =
    if str_eq word (codes "write")
    then write_request path str
    else if str_eq word (codes "append")
    then append_request path str
    else unknown_request
request_of _ = unknown_request

-- `if (...) send_msg(sock, "4"); else send_msg(sock, "0");`
unfoldable pub answer : Prog Bool → Prog (Unit {0})
answer command = do error ← command; send_msg (if error then codes "4" else codes "0")

-- `if (...) send_msg(sock, "4");`
unfoldable pub answer_error : Prog Bool → Prog (Unit {0})
answer_error command = do
  error ← command
  elim error [ true ↦ send_msg (codes "4") | false ↦ pure tt ]

-- `strlen(toks[1])>9 || ...`
unfoldable pub short_only : Text → Prog Bool → Prog Bool
short_only path command = elim (ltb 9 (length path)) [ true ↦ pure true | false ↦ command ]

-- A command that leaves the current directory.
unfoldable pub stay : FilePath → Prog (Unit {0}) → Prog (Option FilePath)
stay pwd command = do command; pure (some pwd)

-- One request: the current directory behind it, `none` when the loop is left.
unfoldable pub perform : ℕ → FilePath → Request → Prog (Option FilePath)
perform fuel pwd exit_request = do send_msg (codes "3"); pure none
perform fuel pwd (touch_request path) = stay pwd (answer (short_only path (mk_file fuel pwd path)))
perform fuel pwd (mkdir_request path) = stay pwd (answer (short_only path (mk_dir fuel pwd path)))
perform fuel pwd (rm_request path) = stay pwd (answer (rm_file fuel pwd path))
perform fuel pwd (rmdir_request path) = stay pwd (answer (rm_dir fuel pwd path))
perform fuel pwd (ls_request path) = stay pwd (answer_error (list fuel pwd path))
perform fuel pwd ls_here_request = stay pwd (do error ← list fuel pwd (codes "."); pure tt)
perform fuel pwd (cat_request path) = stay pwd (answer_error (cat pwd path))
perform fuel pwd (write_request path str) = stay pwd (answer (wrt fuel pwd path str))
perform fuel pwd (append_request path str) = stay pwd (answer (append fuel pwd path str))
perform fuel pwd (cd_request path) = do
  (error, pwd') ← change pwd path
  send_msg (if error then codes "4" else codes "0")
  pure (some pwd')
perform fuel pwd unknown_request = do send_msg (codes "-1"); pure (some pwd)

-- `interpret` for at most `requests` requests. It ends when no message comes, or with `exit`.
unfoldable pub interpret : ℕ → ℕ → FilePath → Prog (Unit {0})
interpret zero fuel pwd = out_of_fuel
interpret (suc requests) fuel pwd = do
  msg ← get_msg
  elim msg [
    | none ↦ pure tt
    | some request ↦ do
      next ← perform fuel pwd (request_of (get_toks request 6))
      elim next [ none ↦ pure tt | some pwd' ↦ interpret requests fuel pwd' ]
  ]
