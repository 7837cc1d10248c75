-- ===== src/Server/Refuse.antt =====
-- src/server.c: a command that returns 1 has changed nothing.
use cs356_mini_file_system.Server.Errors.{
  Clears-twice, Refused, Refused-pure, Refuses-bind, read-Kept, state-Kept,
}
use cs356_mini_file_system.Fs.Remove.{rm_sub}
use cs356_mini_file_system.Fs.Release.{rm_dentry, rm_inode}
use cs356_mini_file_system.Layout.{Inode, of_inode, to_dentry, to_inode}
use cs356_mini_file_system.Paths.{FilePath, get_path, id_of, rm_name}
use cs356_mini_file_system.Server.{
  append, append_to, make, make_in, make_named, rm_dir, rm_file, rm_file_at, with_new_id, with_path,
  with_state, with_zone,
}
use cs356_mini_file_system.Fs.Dir.{add_sub}
use cs356_mini_file_system.Alloc.Bitmap.{d_occupied, i_occupied}
use cs356_mini_file_system.Utils.Text.{Text}
use cs356_mini_file_system.Fs.Data.{add_data, not_negative}
use cs356_mini_file_system.Alloc.Bitmap.Search.{first_free, zones_tracked}
use cs356_mini_file_system.Store.Run.{first_free-IsZone, run-free_id}
use cs356_mini_file_system.Store.Prog.{
  Prog, get_state, on_free_id, pure, read_zone, time, undefined, write_zone, ◌>>=◌, ◌>>◌,
}
use cs356_mini_file_system.Store.Spec.{Store, run}
use cs356_mini_file_system.Base.{
  Bool, List, Option, Option-cases, false, inl, inr, length, ltb, lt→ltb, none, refl, some, subst,
  sym, true, ℕ, ◌==◌, ◌^◌, ◌≡◌,
}
use cs356_mini_file_system.Paths.Reads.{get_path-Kept}

-- what the commands are put together from, without any change before the work itself
module _ (pwd : FilePath) where
  with_path-Refused :
      (path_str : Text) (command : FilePath → Prog Bool)
      → ((path : FilePath) (s : Store) → Refused s (run (command path) s))
      → (s : Store) → Refused s (run (with_path pwd path_str command) s)
  unfolding with_path
  with_path-Refused path_str command h s =
      Refuses-bind (λ error. error) (get_path pwd path_str) _ (get_path-Kept pwd path_str)
        (λ (found, text). on_found found) s
    where
      on_found :
          (found : Option FilePath) (s : Store)
          → Refused s (run (elim found [ none ↦ pure true | some path ↦ command path ]) s)
      on_found none s = Refused-pure true s
      on_found (some path) s = h path s

with_state-Refused :
    (id state : ℕ) (command : Prog Bool)
    → ((s : Store) → Refused s (run command s))
    → (s : Store) → Refused s (run (with_state id state command) s)
unfolding with_state
with_state-Refused id state command h s =
    Refuses-bind (λ error. error) (get_state id) _ (state-Kept id)
      (λ found. by_test (found == state)) s
  where
    by_test :
        (b : Bool) (s : Store) → Refused s (run (elim b [ false ↦ pure true | true ↦ command ]) s)
    by_test false s = Refused-pure true s
    by_test true s = h s

with_zone-Refused :
    (id : ℕ) (command : List ℕ → Prog Bool)
    → ((zone : List ℕ) (s : Store) → Refused s (run (command zone) s))
    → (s : Store) → Refused s (run (with_zone id command) s)
unfolding with_zone
with_zone-Refused id command h s =
    Refuses-bind (λ error. error) (read_zone id) _ (read-Kept id) on_zone s
  where
    on_zone :
        (zone : Option (List ℕ)) (s : Store)
        → Refused s (run (elim zone [ none ↦ pure true | some z ↦ command z ]) s)
    on_zone none s = Refused-pure true s
    on_zone (some z) s = h z s

pub not_negative-free :
    (s : Store) {id : ℕ} → first_free s.states zones_tracked 4 ≡ some id → not_negative id ≡ true
not_negative-free s {id} found =
    let (z, free) = first_free-IsZone s.states id found in lt→ltb id (2 ^ 15) z.hi

run-free_id_none :
    {A : Type 0} (s : Store) (state : ℕ) (next : ℕ → Prog A)
    → first_free s.states zones_tracked 4 ≡ none
    → run (on_free_id state next) s ≡ undefined
unfolding run
run-free_id_none s state next full = rw (full, run) refl

-- A zone that is free is always taken: the branch for an id below 0 is never run.
with_new_id-Refused :
    (state : ℕ) (command : ℕ → Prog Bool)
    → ((id : ℕ) (s s1 : Store) → Refused s (run (command id) s1))
    → (s : Store) → Refused s (run (with_new_id state command) s)
unfolding with_new_id
with_new_id-Refused state command h s = elim (Option-cases (first_free s.states zones_tracked 4)) [
  | inl full ↦ subst (Refused s) (sym (run-free_id_none s state _ full)) tt
  | inr (id, found) ↦
      subst (Refused s) (sym (run-free_id s state _ found))
        (rw (not_negative-free s found) (h id s _))
]

make_in-Refused :
    (fuel state : ℕ) (zone_at : ℕ → List ℕ) (p_id : ℕ) (name : Text) (s : Store)
    → Refused s (run (make_in fuel state zone_at p_id name) s)
unfolding make_in
make_in-Refused fuel state zone_at p_id name s =
    with_state-Refused p_id d_occupied _
      (with_new_id-Refused state _ (λ id.
        Clears-twice (do now ← time; write_zone id (zone_at now)) (λ _. add_sub fuel p_id id name)))
      s

make_named-Refused :
    (fuel state : ℕ) (zone_of : ℕ → ℕ → List ℕ) (pwd : FilePath) (cut_at : Option (Text × Text))
    (s : Store)
    → Refused s (run (make_named fuel state zone_of pwd cut_at) s)
unfolding make_named run
make_named-Refused fuel state zone_of pwd none s = tt
make_named-Refused fuel state zone_of pwd (some (parent, name)) s =
    with_path-Refused pwd parent _
      (λ path. make_in-Refused fuel state (zone_of (id_of path)) (id_of path) name) s

pub make-Refused :
    (fuel state : ℕ) (zone_of : ℕ → ℕ → List ℕ) (pwd : FilePath) (path_str : Text) (s : Store)
    → Refused s (run (make fuel state zone_of pwd path_str) s)
unfolding make
make-Refused fuel state zone_of pwd path_str s =
    Refuses-bind (λ error. error) (get_path pwd path_str) _ (get_path-Kept pwd path_str)
      (λ (found, text). on_found text found) s
  where
    on_found :
        (text : Text) (found : Option FilePath) (s : Store)
        → Refused s (
            run
              (elim found [
                | some path ↦ pure true
                | none ↦ make_named fuel state zone_of pwd (rm_name text)
              ])
              s)
    on_found text (some path) s = Refused-pure true s
    on_found text none s = make_named-Refused fuel state zone_of pwd (rm_name text) s

pub rm_file-Refused :
    (fuel : ℕ) (pwd : FilePath) (path : Text) (s : Store)
    → Refused s (run (rm_file fuel pwd path) s)
unfolding rm_file rm_file_at
rm_file-Refused fuel pwd path s =
    with_path-Refused pwd path _
      (λ at. with_zone-Refused (id_of at) _ (λ zone s.
        Clears-twice (rm_inode (id_of at)) (λ _. rm_sub fuel (to_inode zone).parent (id_of at)) s
          s))
      s

pub rm_dir-Refused :
    (fuel : ℕ) (pwd : FilePath) (path : Text) (s : Store) → Refused s (run (rm_dir fuel pwd path) s)
unfolding rm_dir
rm_dir-Refused fuel pwd path s =
    with_path-Refused pwd path _
      (λ at. with_zone-Refused (id_of at) _ (λ zone s.
        Clears-twice (rm_dentry fuel (id_of at))
          (λ _. rm_sub fuel (to_dentry zone).parent (id_of at)) s s))
      s

append_to-Refused :
    (fuel id : ℕ) (inode : Inode) (str : Text) (s : Store)
    → Refused s (run (append_to fuel id inode str) s)
unfolding append_to
append_to-Refused fuel id inode str s = by_length (ltb 0 (length str))
  where
    by_length :
        (b : Bool)
        → Refused s (
            run
              (elim b [
                | false ↦ pure false
                | true ↦ do
                  inode' ← add_data fuel inode str
                  write_zone id (of_inode inode')
                  pure false
              ])
              s)
    by_length false = Refused-pure false s
    by_length true =
        Clears-twice (add_data fuel inode str) (λ inode'. write_zone id (of_inode inode')) s s

pub append-Refused :
    (fuel : ℕ) (pwd : FilePath) (path str : Text) (s : Store)
    → Refused s (run (append fuel pwd path str) s)
unfolding append
append-Refused fuel pwd path str s =
    with_path-Refused pwd path _
      (λ at. with_state-Refused (id_of at) i_occupied _ (
        with_zone-Refused (id_of at) _
          (λ zone. append_to-Refused fuel (id_of at) (to_inode zone) str)))
      s
