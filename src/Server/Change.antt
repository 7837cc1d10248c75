-- ===== src/Server/Change.antt =====
-- src/server.c: `change`, the command that moves the current directory.
use cs356_mini_file_system.Store.Prog.{Outcome, Prog, and_then, ok, pure, undefined, unfinished}
use cs356_mini_file_system.Store.Spec.{Store, run, zone_limit}
use cs356_mini_file_system.Store.Bind.{run-bind}
use cs356_mini_file_system.Store.ReadOnly.{Kept}
use cs356_mini_file_system.Base.{
  ==_iff, Bool, ap, false, if◌then◌else◌, inl, inr, ltb, none, refl, some, subst, sym, true, ℕ,
  ◌==◌, ◌∙◌, ◌≡◌, ◌⊎◌,
}
use cs356_mini_file_system.Utils.Text.{Text}
use cs356_mini_file_system.Alloc.Bitmap.{d_occupied, f_occupied, reserved}
use cs356_mini_file_system.Paths.{FilePath, Found, get_path, id_of}
use cs356_mini_file_system.Paths.Reads.{get_path-Kept}
use cs356_mini_file_system.Server.{change, change_to}
use cs356_mini_file_system.Server.Errors.{Same}

-- The run ends or fails, and changes nothing; the current directory is the old one if there was an
-- error, and a directory by the state of its zone if not.
abbrev pub Changed : FilePath → Store → Outcome Store (Bool × FilePath) → Type 0
Changed pwd s (ok (error, pwd') s') =
    Same s s'
    × (((error ≡ true) × (pwd' ≡ pwd)) ⊎ ((error ≡ false) × (s.states (id_of pwd') ≡ d_occupied)))
Changed pwd s undefined = Unit
Changed pwd s unfinished = ⊥

module _ (pwd : FilePath) (s : Store) where
  Changed-if :
      (b : Bool) (m n : Outcome Store (Bool × FilePath))
      → Changed pwd s m
      → Changed pwd s n
      → Changed pwd s (if b then m else n)
  Changed-if true m n h k = h
  Changed-if false m n h k = k

  stays : (s1 : Store) → Same s s1 → Changed pwd s (run (pure (true, pwd)) s1)
  unfolding run
  stays s1 same = (same, inl (refl, refl))

  by_state :
      (s1 : Store) (path : FilePath) (b : Bool)
      → Same s s1
      → (b ≡ true → s.states (id_of path) ≡ d_occupied)
      → Changed pwd s (run (elim b [ false ↦ pure (true, pwd) | true ↦ pure (false, path) ]) s1)
  unfolding run
  by_state s1 path true same h = (same, inr (refl, h refl))
  by_state s1 path false same h = stays s1 same

  after_search :
      (o : Outcome Store Found)
      → Kept s o
      → Changed pwd s (and_then o (λ found s1. run (change_to pwd (found.0)) s1))
  unfolding change_to run
  after_search (ok (none, text) s1) same = (same, inl (refl, refl))
  after_search (ok (some path, text) s1) same =
      let (zones, states, clock, sock) = same in
      let work : ℕ → Prog (Bool × FilePath) = λ state. elim (state == d_occupied) [
        | false ↦ pure (true, pwd)
        | true ↦ pure (false, path)
      ] in
      let id = id_of path in
      Changed-if (reserved id) (run (work f_occupied) s1)
        (if ltb id zone_limit then run (work (s1.states id)) s1 else undefined) (stays s1 same)
        (Changed-if (ltb id zone_limit) (run (work (s1.states id)) s1) undefined
          (by_state s1 path (s1.states id == d_occupied) same
            (λ e. sym (ap (λ f. f id) states) ∙ (==_iff (s1.states id) d_occupied).0 e))
          tt)
  after_search undefined same = tt
  after_search unfinished same = same

  -- `cd` ends or fails. It changes no zone, no state and no message; with an error the current
  -- directory stays, and without one the new current directory is a zone whose state says
  -- directory.
  pub change-Changed : (path : Text) → Changed pwd s (run (change pwd path) s)
  unfolding change
  change-Changed path =
      subst (Changed pwd s)
        (sym (run-bind (get_path pwd path) (λ found. change_to pwd (found.0)) s))
        (after_search (run (get_path pwd path) s) (get_path-Kept pwd path s))
