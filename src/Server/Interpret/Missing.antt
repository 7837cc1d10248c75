-- ===== src/Server/Interpret/Missing.antt =====
-- src/server.c: the commands on a path that is not found.
use cs356_mini_file_system.Store.Prog.{Prog, ok, on_send, pure}
use cs356_mini_file_system.Store.Spec.{Store, run}
use cs356_mini_file_system.Store.Bind.{run-bind_ok}
use cs356_mini_file_system.Store.Run.{run-pure}
use cs356_mini_file_system.Base.{Bool, none, refl, some, true, ℕ, ◌∙◌, ◌≡◌}
use cs356_mini_file_system.Utils.Text.{Text, codes}
use cs356_mini_file_system.Utils.Socket.{send_msg as socket_send}
use cs356_mini_file_system.Paths.{FilePath, get_path}
use cs356_mini_file_system.Paths.Reads.{get_path-Kept}
use cs356_mini_file_system.Server.{append, cat, change, change_to, list, rm_dir, rm_file, with_path}
use cs356_mini_file_system.Server.Errors.{Same}
use cs356_mini_file_system.Server.Make.{Same-Kept}
use cs356_mini_file_system.Server.Interpret.{
  Request, answer, answer_error, append_request, cat_request, cd_request, ls_request, perform,
  rm_request, rmdir_request, stay,
}
use cs356_mini_file_system.Server.Interpret.Answers.{code_of}

-- the requests that need the path of a file or directory that is there
pub data Needs (path : Text) : Request → Type 0 where
  needs_rm : Needs path (rm_request path)
  needs_rmdir : Needs path (rmdir_request path)
  needs_ls : Needs path (ls_request path)
  needs_cat : Needs path (cat_request path)
  needs_append : (str : Text) → Needs path (append_request path str)
  needs_cd : Needs path (cd_request path)

-- the state when the text has been sent
abbrev pub told : Store → Text → Store
told s text = record s { world = record (s.world) { sock = socket_send s.world.sock text } }

run-told :
    {A : Type 0} (a : A) (s : Store) (text : Text)
    → run (on_send text (pure a)) s ≡ ok a (told s text)
unfolding run
run-told a s text = refl

module _ (fuel : ℕ) (pwd : FilePath) (path : Text) (s : Store) {s1 : Store} {text : Text}
    (missing : run (get_path pwd path) s ≡ ok (none, text) s1) where
  with_path-missing :
      (command : FilePath → Prog Bool) → run (with_path pwd path command) s ≡ ok true s1
  unfolding with_path
  with_path-missing command = run-bind_ok (get_path pwd path) _ s missing ∙ run-pure true s1

  answer-missing :
      (command : Prog Bool)
      → run command s ≡ ok true s1
      → run (stay pwd (answer command)) s ≡ ok (some pwd) (told s1 (codes "4"))
  unfolding stay answer
  answer-missing command e =
      run-bind_ok (answer command) (λ _. pure (some pwd)) s
        (run-bind_ok command (λ error. on_send (code_of error) (pure tt)) s e
          ∙ run-told tt s1 (codes "4"))
      ∙ run-pure (some pwd) (told s1 (codes "4"))

  answer_error-missing :
      (command : Prog Bool)
      → run command s ≡ ok true s1
      → run (stay pwd (answer_error command)) s ≡ ok (some pwd) (told s1 (codes "4"))
  unfolding stay answer_error
  answer_error-missing command e =
      run-bind_ok (answer_error command) (λ _. pure (some pwd)) s
        (run-bind_ok command _ s e ∙ run-told tt s1 (codes "4"))
      ∙ run-pure (some pwd) (told s1 (codes "4"))

  change-missing : run (change pwd path) s ≡ ok (true, pwd) s1
  unfolding change change_to
  change-missing = run-bind_ok (get_path pwd path) _ s missing ∙ run-pure (true, pwd) s1

  answered :
      {request : Request}
      → Needs path request
      → run (perform fuel pwd request) s ≡ ok (some pwd) (told s1 (codes "4"))
  unfolding perform rm_file rm_dir list cat append
  answered needs_rm = answer-missing _ (with_path-missing _)
  answered needs_rmdir = answer-missing _ (with_path-missing _)
  answered needs_ls = answer_error-missing _ (with_path-missing _)
  answered needs_cat = answer_error-missing _ (with_path-missing _)
  answered (needs_append str) = answer-missing _ (with_path-missing _)
  answered needs_cd =
      run-bind_ok (change pwd path) _ s change-missing ∙ run-told (some pwd) s1 (codes "4")

  -- If the search of the path ends without finding anything, `rm`, `rmdir`, `ls`, `cat`, `append`
  -- and `cd` end with the answer "4" and nothing else sent; the current directory, the zones and
  -- the states are unchanged.
  pub perform-missing :
      {request : Request}
      → Needs path request
      → (s' : Store) × (run (perform fuel pwd request) s ≡ ok (some pwd) (told s' (codes "4")))
        × Same s s'
  perform-missing needs =
      (s1, answered needs, Same-Kept s s1 _ _ (get_path-Kept pwd path s) missing)
