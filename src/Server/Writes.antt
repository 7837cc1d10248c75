-- ===== src/Server/Writes.antt =====
-- src/server.c: every zone that a command writes has 64 bytes.
use cs356_mini_file_system.Fs.Whole.Listings.{
  cat_dir-Whole, cat_file-Whole, get_ls_len-Whole, replied-Whole, show_file-Whole,
}
use cs356_mini_file_system.Fs.Whole.Data.{InodePtrs, add_data-Yields}
use cs356_mini_file_system.Fs.Whole.Files.{rm_dentry-Whole, rm_inode-Whole}
use cs356_mini_file_system.Fs.Show.{cat_dir, replied, show_file}
use cs356_mini_file_system.Fs.Listing.{get_ls_len}
use cs356_mini_file_system.Fs.Release.{rm_dentry, rm_inode}
use cs356_mini_file_system.Fs.Remove.{rm_sub}
use cs356_mini_file_system.Layout.Sizes.{length-of_dentry, length-of_inode, length-to_inode}
use cs356_mini_file_system.Layout.{Inode, of_dentry, of_inode, to_dentry, to_inode}
use cs356_mini_file_system.Base.{
  Bool, List, Option, false, length, ltb, none, refl, some, true, ℕ, ◌==◌, ◌≡◌,
}
use cs356_mini_file_system.Utils.Text.{Text, codes}
use cs356_mini_file_system.Store.Whole.{
  ReadOnly-WritesWhole, WritesWhole, Yields, after, both, either,
}
use cs356_mini_file_system.Alloc.Bitmap.{d_occupied, i_occupied}
use cs356_mini_file_system.Paths.{FilePath, Found, get_path, id_of, rm_name}
use cs356_mini_file_system.Paths.Reads.{get_path-ReadOnly}
use cs356_mini_file_system.Fs.Dir.{add_sub}
use cs356_mini_file_system.Fs.Data.{add_data, not_negative}
use cs356_mini_file_system.Fs.Whole.Dirs.{add_sub-Whole, rm_sub-Whole}
use cs356_mini_file_system.Server.{
  append, append_to, cat, change, change_to, list, make, make_and_append, make_in, make_named,
  mk_dir, mk_file, new_dentry, new_inode, rm_dir, rm_file, rm_file_at, rm_file_text, send_file,
  show_by_state, with_new_id, with_path, with_state, with_zone, wrt,
}
use cs356_mini_file_system.Store.Prog.{Prog, fault, pure, write_zone, ◌>>=◌, ◌>>◌}

module _ {A : Type 0} where
  -- what follows the search of a path
  found-Whole :
      (pwd : FilePath) (path : Text) (next : Found → Prog A)
      → ((found : Option FilePath) (text : Text) → WritesWhole (next (found, text)))
      → WritesWhole (get_path pwd path >>= next)
  found-Whole pwd path next h =
      both (get_path pwd path) next
        (ReadOnly-WritesWhole (get_path pwd path) (get_path-ReadOnly pwd path))
        (λ result. h result.0 result.1)

with_path-Whole :
    (pwd : FilePath) (path : Text) (command : FilePath → Prog Bool)
    → ((p : FilePath) → WritesWhole (command p))
    → WritesWhole (with_path pwd path command)
unfolding with_path
with_path-Whole pwd path command h =
    found-Whole pwd path _ (elim [ none ↦ λ text. unfold Yields in tt | some p ↦ λ text. h p ])

with_state-Whole :
    (id state : ℕ) (command : Prog Bool)
    → WritesWhole command
    → WritesWhole (with_state id state command)
unfolding with_state Yields
with_state-Whole id state command h found =
    either (found == state) (pure true) command (λ other. tt) (λ same. h)

with_new_id-Whole :
    (state : ℕ) (command : ℕ → Prog Bool)
    → ((id : ℕ) → WritesWhole (command id))
    → WritesWhole (with_new_id state command)
unfolding with_new_id Yields
with_new_id-Whole state command h id =
    either (not_negative id) (pure true) (command id) (λ bad. tt) (λ good. h id)

module _ (fuel state : ℕ) (zone_of : ℕ → ℕ → List ℕ) (pwd : FilePath)
    (full : (parent now : ℕ) → length (zone_of parent now) ≡ 64) where
  make_in-Whole :
      (p : FilePath) (name : Text)
      → WritesWhole (make_in fuel state (zone_of (id_of p)) (id_of p) name)
  unfolding make_in Yields
  make_in-Whole p name = with_state-Whole (id_of p) d_occupied _ (
      with_new_id-Whole state _ (λ id now. (
        full (id_of p) now,
        both (add_sub fuel (id_of p) id name) (λ t. pure false)
            (add_sub-Whole fuel (id_of p) id name) (λ t. tt),
      )))

  make_named-Whole : (o : Option (Text × Text)) → WritesWhole (make_named fuel state zone_of pwd o)
  unfolding make_named Yields
  make_named-Whole none = tt
  make_named-Whole (some (parent, name)) = with_path-Whole pwd parent _ (λ p. make_in-Whole p name)

  make-Whole : (path : Text) → WritesWhole (make fuel state zone_of pwd path)
  unfolding make Yields
  make-Whole path =
      found-Whole pwd path _
        (elim [ some p ↦ λ text. tt | none ↦ λ text. make_named-Whole (rm_name text) ])

pub mk_file-Whole : (fuel : ℕ) (pwd : FilePath) (path : Text) → WritesWhole (mk_file fuel pwd path)
unfolding mk_file
mk_file-Whole fuel pwd path =
    make-Whole fuel i_occupied (λ parent now. of_inode (new_inode parent now)) pwd
      (λ parent now. length-of_inode (new_inode parent now) refl) path

pub mk_dir-Whole : (fuel : ℕ) (pwd : FilePath) (path : Text) → WritesWhole (mk_dir fuel pwd path)
unfolding mk_dir
mk_dir-Whole fuel pwd path =
    make-Whole fuel d_occupied (λ parent now. of_dentry (new_dentry parent now)) pwd
      (λ parent now.
        length-of_dentry (new_dentry parent now) (refl, (refl, (refl, (refl, (refl, tt))))))
      path

rm_file_at-Whole : (fuel : ℕ) (p : FilePath) → WritesWhole (rm_file_at fuel p)
unfolding rm_file_at with_zone Yields
rm_file_at-Whole fuel p = (
  tt,
  λ zone full. both (rm_inode (id_of p)) _ (rm_inode-Whole (id_of p)) (λ t.
      both (rm_sub fuel (to_inode zone).parent (id_of p)) (λ t'. pure false)
        (rm_sub-Whole fuel (to_inode zone).parent (id_of p)) (λ t'. tt)),
)

pub rm_file-Whole : (fuel : ℕ) (pwd : FilePath) (path : Text) → WritesWhole (rm_file fuel pwd path)
unfolding rm_file
rm_file-Whole fuel pwd path = with_path-Whole pwd path _ (rm_file_at-Whole fuel)

rm_file_text-Whole :
    (fuel : ℕ) (pwd : FilePath) (path : Text) → WritesWhole (rm_file_text fuel pwd path)
unfolding rm_file_text Yields
rm_file_text-Whole fuel pwd path = found-Whole pwd path _ (λ found text.
    both (elim found [ none ↦ pure true | some p ↦ rm_file_at fuel p ])
      (λ error. pure (error, text)) (at found) (λ error. tt))
  where
    at :
        (found : Option FilePath)
        → WritesWhole (elim found [ none ↦ pure true | some p ↦ rm_file_at fuel p ])
    at none = tt
    at (some p) = rm_file_at-Whole fuel p

pub rm_dir-Whole : (fuel : ℕ) (pwd : FilePath) (path : Text) → WritesWhole (rm_dir fuel pwd path)
unfolding rm_dir with_zone Yields
rm_dir-Whole fuel pwd path = with_path-Whole pwd path _ (λ p. (
  tt,
  λ zone full. both (rm_dentry fuel (id_of p)) _ (rm_dentry-Whole fuel (id_of p)) (λ t.
      both (rm_sub fuel (to_dentry zone).parent (id_of p)) (λ t'. pure false)
        (rm_sub-Whole fuel (to_dentry zone).parent (id_of p)) (λ t'. tt)),
))

show_by_state-Whole : (fuel id state : ℕ) → WritesWhole (show_by_state fuel id state)
unfolding show_by_state Yields
show_by_state-Whole fuel id state =
    either (state == i_occupied) _ _
      (λ other.
        either (state == d_occupied) _ _ (λ none_ shown. tt)
          (λ dir. both (cat_dir fuel id) (λ t. pure false) (cat_dir-Whole fuel id) (λ t. tt)))
      (λ file. both (show_file fuel id) (λ t. pure false) (show_file-Whole fuel id) (λ t. tt))

pub list-Whole : (fuel : ℕ) (pwd : FilePath) (path : Text) → WritesWhole (list fuel pwd path)
unfolding list Yields
list-Whole fuel pwd path = with_path-Whole pwd path _ (λ p.
    both (replied (codes "ACK")) _ (replied-Whole (codes "ACK")) (λ acked.
      either acked (pure true) _ (λ no_. tt)
        (λ yes_.
          both (get_ls_len fuel (id_of p)) _ (get_ls_len-Whole fuel (id_of p))
            (λ len state. show_by_state-Whole fuel (id_of p) state))))

send_file-Whole : (id : ℕ) (inode : Inode) → WritesWhole (send_file id inode)
unfolding send_file Yields
send_file-Whole id inode =
    both (replied (codes "ACK")) _ (replied-Whole (codes "ACK"))
      (λ acked. either acked (pure tt) _ (λ no_. tt) (λ yes_. cat_file-Whole id))

pub cat-Whole : (pwd : FilePath) (path : Text) → WritesWhole (cat pwd path)
unfolding cat with_zone Yields
cat-Whole pwd path = with_path-Whole pwd path _ (λ p. with_state-Whole (id_of p) i_occupied _ (
  tt,
  λ zone full.
      both (send_file (id_of p) (to_inode zone)) (λ t. pure false)
        (send_file-Whole (id_of p) (to_inode zone)) (λ t. tt),
))

append_to-Whole :
    (fuel id : ℕ) (inode : Inode) (str : Text)
    → InodePtrs inode
    → WritesWhole (append_to fuel id inode str)
unfolding append_to Yields
append_to-Whole fuel id inode str h =
    either (ltb 0 (length str)) (pure false) _ (λ empty. tt)
      (λ more.
        after InodePtrs (add_data fuel inode str)
          (λ inode'. do write_zone id (of_inode inode'); pure false)
          (add_data-Yields fuel inode str h) (λ inode' k. (length-of_inode inode' k, tt)))

pub append-Whole :
    (fuel : ℕ) (pwd : FilePath) (path str : Text) → WritesWhole (append fuel pwd path str)
unfolding append with_zone Yields
append-Whole fuel pwd path str = with_path-Whole pwd path _ (λ p.
    with_state-Whole (id_of p) i_occupied _
      (tt, λ zone full. append_to-Whole fuel (id_of p) (to_inode zone) str (length-to_inode zone)))

make_and_append-Whole :
    (fuel : ℕ) (pwd : FilePath) (copy path str : Text)
    → WritesWhole (make_and_append fuel pwd copy path str)
unfolding make_and_append Yields
make_and_append-Whole fuel pwd copy path str =
    both (mk_file fuel pwd copy) _ (mk_file-Whole fuel pwd copy)
      (λ error. either error _ (pure true) (λ made. append-Whole fuel pwd path str) (λ bad. tt))

pub wrt-Whole : (fuel : ℕ) (pwd : FilePath) (path str : Text) → WritesWhole (wrt fuel pwd path str)
unfolding wrt Yields
wrt-Whole fuel pwd path str =
    either (ltb (length path) 64) fault _ (λ long. tt)
      (λ short. found-Whole pwd path _ (elim [
        | none ↦ λ text. make_and_append-Whole fuel pwd path text str
        | some p ↦ λ text state.
            either (state == i_occupied) (pure true) _ (λ other. tt)
              (λ file.
                both (rm_file_text fuel pwd text) _ (rm_file_text-Whole fuel pwd text)
                  (λ (error, text'). make_and_append-Whole fuel pwd path text' str))
      ]))

pub change-Whole : (pwd : FilePath) (path : Text) → WritesWhole (change pwd path)
unfolding change change_to Yields
change-Whole pwd path = found-Whole pwd path _ (elim [
  | none ↦ λ text. tt
  | some p ↦ λ text state.
      either (state == d_occupied) (pure (true, pwd)) (pure (false, p)) (λ e. tt) (λ e. tt)
])
