-- ===== src/Server/Make.antt =====
-- src/server.c: `mk_file` and `mk_dir` add an entry to a directory.
use cs356_mini_file_system.Server.Entry.{CanMake, Directory-IsZone, Made, make_in-Made}
use cs356_mini_file_system.Server.Errors.{Same, Same-trans}
use cs356_mini_file_system.Store.ReadOnly.{Kept}
use cs356_mini_file_system.Layout.{of_dentry, of_inode}
use cs356_mini_file_system.Paths.Reads.{get_path-Kept}
use cs356_mini_file_system.Paths.{FilePath, get_path, id_of, path_clone, rm_name}
use cs356_mini_file_system.Paths.Lookup.{IsComponent}
use cs356_mini_file_system.Paths.Missing.{
  get_path-nil, get_path-text, id_of-path_clone, rm_name-IsComponent,
}
use cs356_mini_file_system.Store.Run.{run-pure}
use cs356_mini_file_system.Store.Bind.{run-bind_ok}
use cs356_mini_file_system.Server.{
  make, make_in, make_named, mk_dir, mk_file, new_dentry, new_inode, with_path,
}
use cs356_mini_file_system.Store.Prog.{Outcome, ok}
use cs356_mini_file_system.Store.Spec.{Store, run, update}
use cs356_mini_file_system.Base.{
  [], List, ap, arith, false, length, none, refl, some, subst, sym, ℕ, ◌%◌, ◌+◌, ◌<◌, ◌^◌, ◌∙◌, ◌≡◌,
  ◌≢◌, ◌≤◌,
}
use cs356_mini_file_system.Utils.Text.{Text}
use cs356_mini_file_system.Alloc.Cache.{Zone}
use cs356_mini_file_system.Alloc.Bitmap.{d_occupied, i_occupied, unoccupied}
use cs356_mini_file_system.Alloc.Bitmap.Search.{first_free, zones_tracked}
use cs356_mini_file_system.Fs.Dir.Subs.{Entry}
use cs356_mini_file_system.Fs.Dir.Whole.{Directory}

pub Same-Kept :
    {A : Type 0} (s s' : Store) (a : A) (o : Outcome Store A) → Kept s o → o ≡ ok a s' → Same s s'
Same-Kept s s' a o h e = subst (Kept s) e h

CanMake-Same :
    {s s1 : Store} {p_id : ℕ} {ids : List ℕ} {es : List Entry} {id fresh state : ℕ} {name : Text}
    → Same s s1
    → CanMake s p_id ids es id fresh state name
    → CanMake s1 p_id ids es id fresh state name
CanMake-Same {s} {s1} {p_id} {ids} {es} {id} {fresh} {state} (z, st, clock, sock) c = record {
  directory = subst (λ zones. Directory zones p_id ids es) (sym z) c.directory;
  tracked = c.tracked;
  occupied = ap (λ states. states p_id) st ∙ c.occupied;
  valid_name = c.valid_name;
  free = ap (λ states. first_free states zones_tracked 4) st ∙ c.free;
  next_free = ap (λ states. first_free (update states id state) zones_tracked 4) st ∙ c.next_free;
  id_outside = c.id_outside;
  fresh_outside = c.fresh_outside;
  now = subst (λ (clock : ℕ → ℕ). clock 0 < 2 ^ 64) (sym clock) c.now;
  later = subst (λ (clock : ℕ → ℕ). clock 1 < 2 ^ 64) (sym clock) c.later;
}

Made-Same :
    {s s1 s' : Store} {p_id : ℕ} {ids : List ℕ} {es : List Entry} {id fresh st : ℕ} {bytes : Zone}
    {name : Text}
    → Same s s1
    → Made s1 s' p_id ids es id fresh st bytes name
    → Made s s' p_id ids es id fresh st bytes name
Made-Same (z, st, clock, sock) m = record {
  zone_ids = m.zone_ids;
  directory = m.directory;
  zone = m.zone;
  state = m.state;
  zones_kept = λ j ni nf o. m.zones_kept j ni nf o ∙ ap (λ zones. zones j) z;
  states_kept = λ j ni nf. m.states_kept j ni nf ∙ ap (λ states. states j) st;
  sock_kept = m.sock_kept ∙ sock;
}

module _ (fuel : ℕ) (pwd : FilePath) (path_str : Text) (s : Store) {s1 s2 : Store}
    {text parent text' name : Text} {dir : FilePath}
    (missing : run (get_path pwd path_str) s ≡ ok (none, text) s1)
    (named_as : rm_name text ≡ some (parent, name))
    (below : run (get_path pwd parent) s1 ≡ ok (some dir, text') s2) where
  both_searches : Same s s2
  both_searches =
      Same-trans s s1 s2 (Same-Kept s s1 _ _ (get_path-Kept pwd path_str s) missing)
        (Same-Kept s1 s2 _ _ (get_path-Kept pwd parent s1) below)

  run-make :
      (state : ℕ) (zone_of : ℕ → ℕ → List ℕ)
      → run (make fuel state zone_of pwd path_str) s
        ≡ run (make_in fuel state (zone_of (id_of dir)) (id_of dir) name) s2
  unfolding make make_named with_path
  run-make state zone_of =
      run-bind_ok (get_path pwd path_str) _ s missing
      ∙ ap (λ c. run (make_named fuel state zone_of pwd c) s1) named_as
      ∙ run-bind_ok (get_path pwd parent) _ s1 below

  module _ {ids : List ℕ} {es : List Entry} {id fresh : ℕ} (enough : length ids ≤ fuel + 1) where
    make-Made :
        (state : ℕ) (zone_of : ℕ → ℕ → List ℕ)
        → state % 4 ≡ state
        → state ≢ unoccupied
        → CanMake s (id_of dir) ids es id fresh state name
        → (s' : Store) × (run (make fuel state zone_of pwd path_str) s ≡ ok false s')
          × Made s s' (id_of dir) ids es id fresh state (zone_of (id_of dir) (s.world.clock 0)) name
    make-Made state zone_of valid used c =
        let (s', ran, m) =
          make_in-Made fuel s2 state (zone_of (id_of dir)) (CanMake-Same both_searches c) valid used
            enough in
        let (z, st, clock, sock) = both_searches in
        (
          s',
          run-make state zone_of ∙ ran,
          subst
              (λ (now : ℕ → ℕ).
                Made s s' (id_of dir) ids es id fresh state (zone_of (id_of dir) (now 0)) name)
              clock (Made-Same both_searches m),
        )

-- what `make` does for a name in the current directory
abbrev MakesName :
    ℕ → ℕ → (ℕ → ℕ → List ℕ) → FilePath → Text → Store → ℕ → List ℕ → List Entry → ℕ → ℕ → Type 0
MakesName fuel state zone_of pwd name s dir ids es id fresh =
    CanMake s dir ids es id fresh state name
    → (s' : Store) × (run (make fuel state zone_of pwd name) s ≡ ok false s')
      × Made s s' dir ids es id fresh state (zone_of dir (s.world.clock 0)) name

module _ (fuel : ℕ) (pwd : FilePath) (name : Text) (s : Store) {s1 : Store} {text : Text}
    (c : IsComponent name) (missing : run (get_path pwd name) s ≡ ok (none, text) s1) {ids : List ℕ}
    {es : List Entry} {id fresh : ℕ} (enough : length ids ≤ fuel + 1) where
  make-Made_name :
      (state : ℕ) (zone_of : ℕ → ℕ → List ℕ)
      → state % 4 ≡ state
      → state ≢ unoccupied
      → MakesName fuel state zone_of pwd name s (id_of pwd) ids es id fresh
  make-Made_name state zone_of valid used can =
      let same : text ≡ name =
        get_path-text s pwd name c (Directory-IsZone can.directory) can.tracked can.occupied
          missing in
      let below : run (get_path pwd []) s1 ≡ ok (some (path_clone pwd), []) s1 =
        ap (λ m. run m s1) (get_path-nil pwd) ∙ run-pure _ s1 in
      let makes : MakesName fuel state zone_of pwd name s (id_of (path_clone pwd)) ids es id fresh =
        make-Made fuel pwd name s missing (ap rm_name same ∙ rm_name-IsComponent name c) below
          enough state zone_of valid used in
      subst (λ dir. MakesName fuel state zone_of pwd name s dir ids es id fresh)
        (id_of-path_clone pwd) makes can

  -- For a name without a slash, other than `.` and `..`, whose search from the current directory
  -- ends without finding it, if the current directory can take the name and the fuel is the number
  -- of its zones, `mk_file` ends with 0: the entry is the last of the current directory, the zone
  -- that was free holds an empty file made at that time, and no other zone but those of the
  -- directory and the next free one, and no other state but those of the two free zones, has
  -- changed.
  pub mk_file-Made :
      CanMake s (id_of pwd) ids es id fresh i_occupied name
      → (s' : Store) × (run (mk_file fuel pwd name) s ≡ ok false s')
        × Made s s'
            (id_of pwd)
            ids
            es
            id
            fresh
            i_occupied
            (of_inode (new_inode (id_of pwd) (s.world.clock 0)))
            name
  unfolding mk_file
  mk_file-Made can = make-Made_name i_occupied _ refl (omega arith) can

  -- The same of `mk_dir`: for a name without a slash, other than `.` and `..`, whose search from
  -- the current directory ends without finding it, if the current directory can take the name and
  -- the fuel is the number of its zones, it ends with 0, the entry is the last of the current
  -- directory, the zone that was free holds an empty directory made at that time, and no other
  -- zone but those of the directory and the next free one, and no other state but those of the two
  -- free zones, has changed.
  pub mk_dir-Made :
      CanMake s (id_of pwd) ids es id fresh d_occupied name
      → (s' : Store) × (run (mk_dir fuel pwd name) s ≡ ok false s')
        × Made s s'
            (id_of pwd)
            ids
            es
            id
            fresh
            d_occupied
            (of_dentry (new_dentry (id_of pwd) (s.world.clock 0)))
            name
  unfolding mk_dir
  mk_dir-Made can = make-Made_name d_occupied _ refl (omega arith) can
