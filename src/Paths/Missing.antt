-- ===== src/Paths/Missing.antt =====
-- src/path.c: the search of a single name, and `rm_name` of it.
use cs356_mini_file_system.Base.{
  All, Option, [], ap, false, length, none, refl, some, subst, sym, true, ◌<◌, ◌==◌, ◌∙◌, ◌∷◌, ◌≡◌,
}
use cs356_mini_file_system.Utils.Text.{Text}
use cs356_mini_file_system.Alloc.Bitmap.{d_occupied}
use cs356_mini_file_system.Store.Bind.{run-bind}
use cs356_mini_file_system.Store.Prog.{
  Outcome, Prog, and_then, get_state, ok, pure, undefined, unfinished, ◌>>=◌,
}
use cs356_mini_file_system.Store.Run.{IsZone, run-state}
use cs356_mini_file_system.Store.Spec.{Store, run, zone_limit}
use cs356_mini_file_system.Paths.{
  FilePath, Found, component, enter, from_root, get_path, get_path_from_pwd, get_path_from_root,
  get_sub_path, go_on, head_of, id_of, last_cut, path_clone, pwd_step, rm_name, slash,
}
use cs356_mini_file_system.Paths.Lookup.{IsComponent, cut_whole, get_path_from_root-enter}

pub id_of-path_clone : (pwd : FilePath) → id_of (path_clone pwd) ≡ id_of pwd
unfolding path_clone
id_of-path_clone [] = refl
id_of-path_clone (node ∷ prev) = refl

-- Without a slash there is nothing to cut.
last_cut-none : (s : Text) → All (λ c. (c == slash) ≡ false) s → last_cut s ≡ none
unfolding last_cut
last_cut-none [] h = refl
last_cut-none (c ∷ s) h = rw (last_cut-none s h.1, h.0) refl

pub rm_name-IsComponent : (name : Text) → IsComponent name → rm_name name ≡ some ([], name)
unfolding rm_name head_of
rm_name-IsComponent [] c = absurd (let e = c.plain in cc)
rm_name-IsComponent (x ∷ name) c = rw (rm_name, last_cut-none name c.no_slash.1) refl

-- the empty text leads to the current directory
pub get_path-nil : (pwd : FilePath) → get_path pwd [] ≡ pure (some (path_clone pwd), [])
unfolding get_path get_path_from_pwd head_of pwd_step
get_path-nil [] = refl
get_path-nil (node ∷ prev) = refl

-- the text that a search leaves, if it ends
abbrev Leaves : Text → Outcome Store Found → Type 0
Leaves name (ok found s) = found.1 ≡ name
Leaves name undefined = Unit
Leaves name unfinished = Unit

go_on-Leaves :
    (rest : FilePath → Text → Prog Found) (name : Text) (o : Outcome Store (Option FilePath))
    → Leaves name (and_then o (λ sub s'. run (go_on rest name none sub) s'))
unfolding go_on run
go_on-Leaves rest name (ok none s) = refl
go_on-Leaves rest name (ok (some p) s) = refl
go_on-Leaves rest name undefined = tt
go_on-Leaves rest name unfinished = tt

-- the search from a directory, behind the test of its state
abbrev in_dir : FilePath → Text → Prog Found
in_dir pwd name = do
  state ← get_state (id_of pwd)
  elim (state == d_occupied) [ false ↦ pure (none, name) | true ↦ from_root (path_clone pwd) name ]

pwd_step-component :
    (rest : Text → Prog Found) (pwd : FilePath) (name : Text)
    → pwd_step rest pwd name component ≡ in_dir pwd name
unfolding pwd_step
pwd_step-component rest [] name = refl
pwd_step-component rest (node ∷ prev) name = refl

get_path-in_dir :
    (pwd : FilePath) (name : Text) → IsComponent name → get_path pwd name ≡ in_dir pwd name
unfolding get_path get_path_from_pwd head_of
get_path-in_dir pwd [] c = absurd (let e = c.plain in cc)
get_path-in_dir pwd (x ∷ name) c =
    rw (c.no_slash.0, get_path)
      (ap (pwd_step (λ text. get_path_from_pwd (length (x ∷ name)) pwd text) pwd (x ∷ name)) c.plain
        ∙ pwd_step-component _ pwd (x ∷ name))

module _ (s : Store) (pwd : FilePath) (name : Text) (c : IsComponent name) (z : IsZone (id_of pwd))
    (tracked : id_of pwd < zone_limit) (state : s.states (id_of pwd) ≡ d_occupied) where
  -- the calls below the name
  abbrev below : FilePath → Text → Prog Found
  below curr text = get_path_from_root (length name) curr text

  run-dir :
      (p : FilePath) (other then_ : Prog Found)
      → id_of p ≡ id_of pwd
      → run
          (do
            found ← get_state (id_of p)
            elim (found == d_occupied) [ false ↦ other | true ↦ then_ ])
          s
        ≡ run then_ s
  run-dir p other then_ e = rw e (
      run-state s (λ found. elim (found == d_occupied) [ false ↦ other | true ↦ then_ ]) z tracked
      ∙ rw state refl)

  run-name :
      run (get_path pwd name) s
      ≡ and_then
          (run (get_sub_path (path_clone pwd) name) s)
          (λ sub s'. run (go_on below name none sub) s')
  unfolding enter
  run-name =
      ap (λ m. run m s) (get_path-in_dir pwd name c)
      ∙ run-dir pwd (pure (none, name)) (from_root (path_clone pwd) name) refl
      ∙ ap (λ m. run m s) (get_path_from_root-enter (length name) (path_clone pwd) name c.plain)
      ∙ run-dir (path_clone pwd) (pure (none, name)) _ (id_of-path_clone pwd)
      ∙ rw (cut_whole name c.no_slash)
          (run-bind (get_sub_path (path_clone pwd) name) (go_on below name none) s)

  -- The search of a name leaves it as it is.
  pub get_path-text :
      {found : Option FilePath} {text : Text} {s1 : Store}
      → run (get_path pwd name) s ≡ ok (found, text) s1
      → text ≡ name
  get_path-text e =
      subst (Leaves name) (sym run-name ∙ e)
        (go_on-Leaves below name (run (get_sub_path (path_clone pwd) name) s))
