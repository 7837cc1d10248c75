-- ===== src/Server/Interpret/Answers.antt =====
-- src/server.c: what the client is told about a command that failed.
use cs356_mini_file_system.Server.Errors.{Refused, Refused-pure}
use cs356_mini_file_system.Server.{append, mk_dir, mk_file, rm_dir, rm_file}
use cs356_mini_file_system.Alloc.Bitmap.{d_occupied, i_occupied}
use cs356_mini_file_system.Store.Bind.{run-bind}
use cs356_mini_file_system.Store.Prog.{
  Outcome, Prog, and_then, ok, on_send, pure, undefined, unfinished, ◌>>=◌,
}
use cs356_mini_file_system.Store.Spec.{Store, run}
use cs356_mini_file_system.Base.{
  Bool, List, Option, [], ap, false, if◌then◌else◌, length, ltb, refl, some, subst, sym, true, ℕ,
  ◌++◌, ◌∙◌, ◌∷◌, ◌≡◌,
}
use cs356_mini_file_system.Utils.Text.{Text, codes}
use cs356_mini_file_system.Utils.Socket.{Sock, packet, send_msg as socket_send}
use cs356_mini_file_system.Paths.{FilePath}
use cs356_mini_file_system.Server.Refuse.{
  append-Refused, make-Refused, rm_dir-Refused, rm_file-Refused,
}
use cs356_mini_file_system.Server.Interpret.{
  Request, answer, append_request, mkdir_request, perform, rm_request, rmdir_request, short_only,
  stay, touch_request,
}

-- the code of a command's result
abbrev pub code_of : Bool → Text
code_of error = if error then codes "4" else codes "0"

-- The run, if it ends, has sent the code of a result last; with the code for an error the current
-- directory, the zones and the states are what they were, and nothing else was sent.
abbrev pub Settled : Store → FilePath → Outcome Store (Option FilePath) → Type 0
Settled s pwd (ok next s') =
    (error : Bool) × (sent : List (List ℕ)) × (s'.world.sock.outbox
      ≡ sent ++ packet (code_of error) ∷ [])
    × (error ≡ true
        → (next ≡ some pwd)
          × (s'.zones ≡ s.zones)
          × (s'.states ≡ s.states)
          × (sent ≡ s.world.sock.outbox))
Settled s pwd undefined = Unit
Settled s pwd unfinished = Unit

-- the answer behind the outcome of a command
settled :
    (s : Store) (pwd : FilePath) (o : Outcome Store Bool)
    → Refused s o
    → Settled s pwd (
        and_then
          (and_then o (λ error s1. run (on_send (code_of error) (pure tt)) s1))
          (λ _ s2. run (pure (some pwd)) s2))
unfolding run socket_send
settled s pwd (ok error s1) h = (
  error,
  s1.world.sock.outbox,
  refl,
  λ e.
      let (zones, states, clock, sock) = h e in
      (refl, zones, states, ap (λ (k : Sock). k.outbox) sock),
)
settled s pwd undefined h = tt
settled s pwd unfinished h = tt

answer-Settled :
    (s : Store) (pwd : FilePath) (command : Prog Bool)
    → Refused s (run command s)
    → Settled s pwd (run (stay pwd (answer command)) s)
unfolding stay answer
answer-Settled s pwd command h =
    let send : Bool → Prog (Unit {0}) = λ error. on_send (code_of error) (pure tt) in
    subst (Settled s pwd)
      (sym (
        run-bind (command >>= send) (λ _. pure (some pwd)) s
        ∙ ap (λ o. and_then o (λ _ s2. run (pure (some pwd)) s2)) (run-bind command send s)))
      (settled s pwd (run command s) h)

short_only-Refused :
    (path : Text) (command : Prog Bool) (s : Store)
    → Refused s (run command s)
    → Refused s (run (short_only path command) s)
unfolding short_only
short_only-Refused path command s h = by_length (ltb 9 (length path))
  where
    by_length : (b : Bool) → Refused s (run (elim b [ true ↦ pure true | false ↦ command ]) s)
    by_length true = Refused-pure true s
    by_length false = h

-- the requests that change one file or directory
pub data IsUpdate : Request → Type 0 where
  touches : (path : Text) → IsUpdate (touch_request path)
  makes : (path : Text) → IsUpdate (mkdir_request path)
  removes : (path : Text) → IsUpdate (rm_request path)
  removes_dir : (path : Text) → IsUpdate (rmdir_request path)
  appends : (path str : Text) → IsUpdate (append_request path str)

-- If `touch`, `mkdir`, `rm`, `rmdir` or `append` ends, it has last sent "4" or "0"; when it was
-- "4", nothing else was sent, and the current directory, all zones and all states are unchanged.
pub perform-Settled :
    (fuel : ℕ) (pwd : FilePath) (s : Store) {request : Request}
    → IsUpdate request
    → Settled s pwd (run (perform fuel pwd request) s)
unfolding perform mk_file mk_dir
perform-Settled fuel pwd s (touches path) =
    answer-Settled s pwd _ (short_only-Refused path _ s (make-Refused fuel i_occupied _ pwd path s))
perform-Settled fuel pwd s (makes path) =
    answer-Settled s pwd _ (short_only-Refused path _ s (make-Refused fuel d_occupied _ pwd path s))
perform-Settled fuel pwd s (removes path) =
    answer-Settled s pwd (rm_file fuel pwd path) (rm_file-Refused fuel pwd path s)
perform-Settled fuel pwd s (removes_dir path) =
    answer-Settled s pwd (rm_dir fuel pwd path) (rm_dir-Refused fuel pwd path s)
perform-Settled fuel pwd s (appends path str) =
    answer-Settled s pwd (append fuel pwd path str) (append-Refused fuel pwd path str s)
