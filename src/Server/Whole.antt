-- ===== src/Server/Whole.antt =====
-- src/server.c: every zone that the server writes has 64 bytes.
use cs356_mini_file_system.Server.Writes.{
  mk_file-Whole, mk_dir-Whole, rm_file-Whole, rm_dir-Whole, list-Whole, cat-Whole, append-Whole,
  wrt-Whole, change-Whole,
}
use cs356_mini_file_system.Server.Interpret.{
  Request, answer, answer_error, append_request, cat_request, cd_request, exit_request, interpret,
  ls_here_request, ls_request, mkdir_request, perform, request_of, rm_request, rmdir_request,
  short_only, stay, touch_request, unknown_request, write_request,
}
use cs356_mini_file_system.Utils.Tokens.{get_toks}
use cs356_mini_file_system.Base.{Bool, if◌then◌else◌, length, ltb, none, some, suc, true, zero, ℕ}
use cs356_mini_file_system.Utils.Text.{Text, codes}
use cs356_mini_file_system.Store.Whole.{WritesWhole, Yields, both, either}
use cs356_mini_file_system.Paths.{FilePath}
use cs356_mini_file_system.Server.{change, list}
use cs356_mini_file_system.Store.Prog.{Prog, pure, send_msg}

short_only-Whole :
    (path : Text) (command : Prog Bool)
    → WritesWhole command
    → WritesWhole (short_only path command)
unfolding short_only Yields
short_only-Whole path command h =
    either (ltb 9 (length path)) command (pure true) (λ short. h) (λ long. tt)

answer-Whole : (command : Prog Bool) → WritesWhole command → WritesWhole (answer command)
unfolding answer
answer-Whole command h =
    both command (λ error. send_msg (if error then codes "4" else codes "0")) h
      (λ error. unfold Yields in tt)

answer_error-Whole :
    (command : Prog Bool) → WritesWhole command → WritesWhole (answer_error command)
unfolding answer_error Yields
answer_error-Whole command h =
    both command _ h (λ error. either error (pure tt) (send_msg (codes "4")) (λ e. tt) (λ e. tt))

stay-Whole : (pwd : FilePath) (m : Prog (Unit {0})) → WritesWhole m → WritesWhole (stay pwd m)
unfolding stay
stay-Whole pwd m h = both m (λ t. pure (some pwd)) h (λ t. unfold Yields in tt)

perform-Whole : (fuel : ℕ) (pwd : FilePath) (r : Request) → WritesWhole (perform fuel pwd r)
unfolding perform
perform-Whole fuel pwd exit_request = unfold Yields in tt
perform-Whole fuel pwd (touch_request path) =
    stay-Whole pwd _ (answer-Whole _ (short_only-Whole path _ (mk_file-Whole fuel pwd path)))
perform-Whole fuel pwd (mkdir_request path) =
    stay-Whole pwd _ (answer-Whole _ (short_only-Whole path _ (mk_dir-Whole fuel pwd path)))
perform-Whole fuel pwd (rm_request path) =
    stay-Whole pwd _ (answer-Whole _ (rm_file-Whole fuel pwd path))
perform-Whole fuel pwd (rmdir_request path) =
    stay-Whole pwd _ (answer-Whole _ (rm_dir-Whole fuel pwd path))
perform-Whole fuel pwd (ls_request path) =
    stay-Whole pwd _ (answer_error-Whole _ (list-Whole fuel pwd path))
perform-Whole fuel pwd ls_here_request = stay-Whole pwd _ (
    both (list fuel pwd (codes ".")) (λ error. pure tt) (list-Whole fuel pwd (codes "."))
      (λ error. unfold Yields in tt))
perform-Whole fuel pwd (cat_request path) =
    stay-Whole pwd _ (answer_error-Whole _ (cat-Whole pwd path))
perform-Whole fuel pwd (write_request path str) =
    stay-Whole pwd _ (answer-Whole _ (wrt-Whole fuel pwd path str))
perform-Whole fuel pwd (append_request path str) =
    stay-Whole pwd _ (answer-Whole _ (append-Whole fuel pwd path str))
perform-Whole fuel pwd (cd_request path) =
    both (change pwd path) _ (change-Whole pwd path) (λ (error, pwd'). unfold Yields in tt)
perform-Whole fuel pwd unknown_request = unfold Yields in tt

-- Whatever the client asks, the server writes zones of 64 bytes only, if those that it reads have
-- 64 bytes.
pub interpret-WritesWhole :
    (requests fuel : ℕ) (pwd : FilePath) → WritesWhole (interpret requests fuel pwd)
unfolding interpret Yields
interpret-WritesWhole zero fuel pwd = tt
interpret-WritesWhole (suc requests) fuel pwd = elim [
  | none ↦ tt
  | some request ↦
      both (perform fuel pwd (request_of (get_toks request 6))) _
        (perform-Whole fuel pwd (request_of (get_toks request 6)))
        (elim [ none ↦ tt | some pwd' ↦ interpret-WritesWhole requests fuel pwd' ])
]
