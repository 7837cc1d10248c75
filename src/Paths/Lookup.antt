-- ===== src/Paths/Lookup.antt =====
-- src/path.c: the names of a path, followed through the first zones of directories.
use cs356_mini_file_system.Paths.Entries.{NulNamed, find_sub-first_named, first_named, node_of}
use cs356_mini_file_system.Store.Bind.{run-bind}
use cs356_mini_file_system.Store.Run.{IsZone-reserved, run-pure, run-state}
use cs356_mini_file_system.Fs.Dir.Whole.{HoldsDir}
use cs356_mini_file_system.Store.Spec.{Store, past_stray, run, zone_limit}
use cs356_mini_file_system.Alloc.Bitmap.{d_occupied}
use cs356_mini_file_system.Base.{
  All, List, Option, [], ap, append_assoc, arith, drop, false, length, length-append, lt→ltb, none,
  refl, some, suc, zero, ℕ, ◌++◌, ◌<◌, ◌==◌, ◌∙◌, ◌∷◌, ◌≡◌, ◌≢◌,
}
use cs356_mini_file_system.Utils.Text.{IsText, Text}
use cs356_mini_file_system.Layout.{Dentry, put_int, put_subs}
use cs356_mini_file_system.Layout.RoundTrip.{drop-of_dentry}
use cs356_mini_file_system.Store.Prog.{Prog, and_then, ok, pure, ◌>>=◌}
use cs356_mini_file_system.Paths.{
  FilePath, Found, Node, component, cut, enter, find_sub, get_path_from_root, get_sub_path, go_on,
  head_of, id_of, new_node, root_step, slash,
}

-- A name that may stand in a path: it is not `.` or `..`, holds no slash, and fits an entry.
pub record IsComponent (name : Text) : Type 0 where
  pub text : IsText name
  pub no_slash : All (λ c. (c == slash) ≡ false) name
  pub plain : head_of name ≡ component
  pub short : length name < 10

-- The zone `dir` is a directory whose first zone has the name for `id`.
pub record IsChild (s : Store) (dir : ℕ) (name : Text) (id : ℕ) : Type 0 where
  pub dentry : Dentry
  pub holds : HoldsDir s.zones dir dentry
  pub tracked : dir < zone_limit
  pub state : s.states dir ≡ d_occupied
  pub ends : All NulNamed dentry.subs
  pub first : first_named dentry.subs name ≡ some id

abbrev pub strayed : Store → Store
strayed s = record s { world = past_stray s.world }

module _ (s : Store) (curr : FilePath) {name : Text} (c : IsComponent name) {id : ℕ}
    (child : IsChild s (id_of curr) name id) where
  new_node-node_of : new_node id name ≡ pure (node_of id name)
  unfolding new_node
  new_node-node_of = rw (lt→ltb (length name) 14 (omega (arith, c.short)))

  found_in :
      (behind : List ℕ)
      → find_sub 10 (drop 6 (s.zones (id_of curr)) ++ behind) name ≡ pure (some (node_of id name))
  found_in behind =
      let d = child.dentry in
      let tail = put_int 2 d.next ++ put_int 8 d.time in
      ap (λ z. find_sub 10 (drop 6 z ++ behind) name) child.holds.bytes
      ∙ ap (λ l. find_sub 10 (l ++ behind) name) (drop-of_dentry d)
      ∙ ap (λ l. find_sub 10 l name) (append_assoc (put_subs d.subs) tail behind)
      ∙ find_sub-first_named d.subs 10 (tail ++ behind) name id child.holds.fits.subs child.ends
          c.text (omega (arith, child.holds.fits.count)) child.first
      ∙ ap (λ (m : Prog Node). m >>= λ node. pure (some node)) new_node-node_of

  run-get_sub_path : run (get_sub_path curr name) s ≡ ok (some (node_of id name ∷ curr)) (strayed s)
  unfolding get_sub_path run
  run-get_sub_path = rw (IsZone-reserved child.holds.zone) (
      ap
        (λ (m : Prog (Option Node)).
          run (m >>= elim [ none ↦ pure none | some node ↦ pure (some (node ∷ curr)) ]) (strayed s))
        (found_in (s.world.strays 0)))

  -- one call for a name, whose text is cut to `before`
  run-enter :
      (rest : FilePath → Text → Prog Found) (path : Text) (further : Option Text)
      → cut path ≡ (name, further)
      → run (enter rest curr path) s
        ≡ run (go_on rest name further (some (node_of id name ∷ curr))) (strayed s)
  unfolding enter
  run-enter rest path further e =
      run-state s _ child.holds.zone child.tracked
      ∙ rw (child.state, e)
          (run-bind (get_sub_path curr name) (go_on rest name further) s
            ∙ ap (λ o. and_then o (λ sub s'. run (go_on rest name further sub) s'))
                run-get_sub_path)

-- From the path `curr` the names lead to the path behind.
pub data Leads (s : Store) : FilePath → List Text → FilePath → Type 0 where
  here : {curr : FilePath} → Leads s curr [] curr
  down :
      {curr target : FilePath} {name : Text} {names : List Text} {id : ℕ}
      → IsComponent name
      → IsChild s (id_of curr) name id
      → Leads s (node_of id name ∷ curr) names target
      → Leads s curr (name ∷ names) target

-- the names with a slash between two of them
unfoldable pub join_names : List Text → Text
join_names [] = []
join_names (name ∷ []) = name
join_names (name ∷ next ∷ names) = name ++ slash ∷ join_names (next ∷ names)

cut-slash :
    (name rest : Text)
    → All (λ c. (c == slash) ≡ false) name
    → cut (name ++ slash ∷ rest) ≡ (name, some rest)
unfolding cut
cut-slash [] rest h = refl
cut-slash (c ∷ name) rest h = rw (h.0, cut-slash name rest h.1)

pub cut_whole : (name : Text) → All (λ c. (c == slash) ≡ false) name → cut name ≡ (name, none)
unfolding cut
cut_whole [] h = refl
cut_whole (c ∷ name) h = rw (h.0, cut_whole name h.1)

head_of-slash :
    (name rest : Text)
    → All (λ c. (c == slash) ≡ false) name
    → head_of name ≡ component
    → rest ≢ []
    → head_of (name ++ slash ∷ rest) ≡ component
unfolding head_of
head_of-slash [] rest h p ne = cc
head_of-slash (a ∷ []) [] h p ne = absurd (ne refl)
head_of-slash (a ∷ []) (b ∷ rest) h p ne = ground arith
head_of-slash (a ∷ b ∷ []) rest h p ne = ground (arith, h.1.0)
head_of-slash (a ∷ b ∷ c ∷ name) rest h p ne = ground (arith, h.1.0, h.1.1.0)

IsChild-strayed :
    {s : Store} {dir : ℕ} {name : Text} {id : ℕ}
    → IsChild s dir name id
    → IsChild (strayed s) dir name id
IsChild-strayed c = record {
  dentry = c.dentry;
  holds = c.holds;
  tracked = c.tracked;
  state = c.state;
  ends = c.ends;
  first = c.first;
}

Leads-strayed :
    {s : Store} {curr target : FilePath} {names : List Text}
    → Leads s curr names target
    → Leads (strayed s) curr names target
Leads-strayed here = here
Leads-strayed (down c child rest) = down c (IsChild-strayed child) (Leads-strayed rest)

root_step-component :
    (rest : FilePath → Text → Prog Found) (curr : FilePath) (path : Text)
    → root_step rest curr path component ≡ enter rest curr path
unfolding root_step
root_step-component rest [] path = refl
root_step-component rest (node ∷ prev) path = refl

-- the search below a path, with its calls of itself
abbrev search_below : ℕ → FilePath → Text → Prog Found
search_below fuel curr text = get_path_from_root fuel curr text

pub get_path_from_root-enter :
    (fuel : ℕ) (curr : FilePath) (path : Text)
    → head_of path ≡ component
    → get_path_from_root (suc fuel) curr path ≡ enter (search_below fuel) curr path
unfolding get_path_from_root
get_path_from_root-enter fuel curr path e =
    ap (root_step (search_below fuel) curr path) e
    ∙ root_step-component (search_below fuel) curr path

join_names-ne-nil :
    {s : Store} {curr target : FilePath} {name : Text} {names : List Text}
    → Leads s curr (name ∷ names) target
    → join_names (name ∷ names) ≢ []
unfolding join_names
join_names-ne-nil (down {name = []} c child rest) = absurd (head_of_nil c.plain)
  where
    head_of_nil : head_of [] ≢ component
    head_of_nil = unfold head_of in λ e. cc
join_names-ne-nil (down {name = a ∷ name} c child here) = λ e. cc
join_names-ne-nil (down {name = a ∷ name} c child (down _ _ _)) = λ e. cc

-- Where names lead to a path, the search of the names with slashes between them finds that path,
-- within as much fuel as the text is long.
pub get_path_from_root-Leads :
    (fuel : ℕ) (s : Store) {curr target : FilePath} {name : Text} {names : List Text}
    → Leads s curr (name ∷ names) target
    → length (join_names (name ∷ names)) < fuel
    → (text : Text) × (s' : Store) × (run
          (get_path_from_root fuel curr (join_names (name ∷ names)))
          s
        ≡ ok (some target, text) s')
unfolding join_names go_on
get_path_from_root-Leads zero s leads enough = absurd (omega arith)
get_path_from_root-Leads (suc fuel) s {curr} {target} {name} (down {id} c child here) enough = (
  name,
  strayed s,
  ap (λ p. run p s) (get_path_from_root-enter fuel curr name c.plain)
      ∙ run-enter s curr c child (search_below fuel) name none (cut_whole name c.no_slash)
      ∙ run-pure (some (node_of id name ∷ curr), name) (strayed s),
)
get_path_from_root-Leads (suc fuel) s {curr} {target} {name}
      (down {id} c child (down {name = next} {names = names} c' child' more)) enough =
    let behind = join_names (next ∷ names) in
    let path = name ++ slash ∷ behind in
    let sub = node_of id name ∷ curr in
    let leads' = down c' child' more in
    let (text, s', found) =
      get_path_from_root-Leads fuel (strayed s) (Leads-strayed leads')
        (omega (arith, length-append name (slash ∷ behind), enough)) in
    (
      name,
      s',
      ap (λ p. run p s)
            (get_path_from_root-enter fuel curr path
              (head_of-slash name behind c.no_slash c.plain (join_names-ne-nil leads')))
          ∙ run-enter s curr c child (search_below fuel) path (some behind)
              (cut-slash name behind c.no_slash)
          ∙ run-bind (search_below fuel sub behind) (λ r. pure (r.0, name)) (strayed s)
          ∙ ap (λ o. and_then o (λ r s'. run (pure (r.0, name)) s')) found
          ∙ run-pure (some target, name) s',
    )
