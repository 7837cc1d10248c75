-- ===== src/Server/Remove.antt =====
-- src/server.c: `rm_file` frees a file and takes its entry out of its directory.
use cs356_mini_file_system.Base.{
  [], All, Bool, List, ap, arith, false, get_or, if◌then◌else◌, inl, inr, length, some, subst, sym,
  take, true, ℕ, ◌+◌, ◌<◌, ◌∷◌, ◌≡◌, ◌≢◌, ◌∙◌,
}
use cs356_mini_file_system.Utils.Text.{Text}
use cs356_mini_file_system.Layout.{Dentry, Inode, to_inode}
use cs356_mini_file_system.Layout.RoundTrip.{to_inode-of_inode}
use cs356_mini_file_system.Alloc.Bitmap.{unoccupied}
use cs356_mini_file_system.Store.Bind.{run-bind_ok}
use cs356_mini_file_system.Store.Prog.{ok, pure, ◌>>◌}
use cs356_mini_file_system.Store.Run.{IsZone, run-pure, run-read}
use cs356_mini_file_system.Store.Spec.{Store, World, run}
use cs356_mini_file_system.Fs.Dir.Chain.{has}
use cs356_mini_file_system.Fs.Dir.Subs.{Entry, entries, packed}
use cs356_mini_file_system.Fs.Dir.Whole.{Directory, HoldsDir}
use cs356_mini_file_system.Fs.Release.{rm_inode}
use cs356_mini_file_system.Fs.Release.Inode.{HoldsInode, InMap, rm_inode-Frees, used_ptrs}
use cs356_mini_file_system.Fs.Remove.{rm_sub}
use cs356_mini_file_system.Fs.Remove.Bag.{count, one}
use cs356_mini_file_system.Fs.Remove.Move.{NamesEnd}
use cs356_mini_file_system.Fs.Remove.Slots.{no_entry}
use cs356_mini_file_system.Fs.Remove.Small.{Removed, rm_sub-Removes}
use cs356_mini_file_system.Paths.{FilePath, get_path, id_of}
use cs356_mini_file_system.Paths.Reads.{get_path-Kept}
use cs356_mini_file_system.Server.{rm_file, rm_file_at, with_path, with_zone}
use cs356_mini_file_system.Server.Errors.{Same}
use cs356_mini_file_system.Server.Make.{Same-Kept}

-- The zone `id` holds a file without index zones, and its parent is a directory of one zone with an
-- entry for it.
pub record IsRemovable (s : Store) (id : ℕ) (inode : Inode) (d : Dentry) : Type 0 where
  pub holds : HoldsInode s.zones id inode
  pub direct : get_or inode.ptrs 20 0 ≡ 0
  pub in_map : All InMap (used_ptrs (take 20 inode.ptrs))
  pub parent : HoldsDir s.zones inode.parent d
  pub alone : d.next ≡ 0
  pub packed_subs : packed d.subs ≡ true
  pub ends : NamesEnd d.subs
  pub slot : ℕ
  pub in_use : slot < length (entries d.subs)
  pub entry : (get_or (entries d.subs) slot no_entry).0 ≡ id

-- The file's zones are free and one entry with its id is gone from the directory; all else is kept.
pub record FileRemoved (s s' : Store) (id : ℕ) (inode : Inode) (es : List Entry) : Type 0 where
  pub kept : List Entry
  pub name : Text
  pub directory : Directory s'.zones inode.parent (inode.parent ∷ []) kept
  pub bag : (test : Entry → Bool) → count test es ≡ one test (id, name) + count test kept
  pub freed_states :
      (j : ℕ)
      → s'.states j
        ≡ (if has j (id ∷ used_ptrs (take 20 inode.ptrs)) then unoccupied else s.states j)
  pub zones_kept : (j : ℕ) → j ≢ inode.parent → s'.zones j ≡ s.zones j
  pub sock_kept : s'.world.sock ≡ s.world.sock

module _ (fuel : ℕ) (s : Store) (path : FilePath) (inode : Inode) (d : Dentry)
    (r : IsRemovable s (id_of path) inode d) where
  abbrev id : ℕ
  id = id_of path

  -- `rm_sub` behind `rm_inode`
  rm_sub-present :
      (s1 : Store)
      → s1.zones ≡ s.zones
      → (s' : Store) × (run (rm_sub fuel inode.parent id) s1 ≡ ok tt s')
        × Removed s1 s' inode.parent id (entries d.subs)
  rm_sub-present s1 zones =
      elim (rm_sub-Removes fuel s1 id d
        (subst (λ z. HoldsDir z inode.parent d) (sym zones) r.parent) r.alone r.packed_subs
        r.ends) [
          | inl removed ↦ removed
          | inr (_, absent) ↦ absurd (absent r.slot r.in_use r.entry)
        ]

  -- `rm_file` below its search
  rm_file_at-Removed :
      (s' : Store) × (run (rm_file_at fuel path) s ≡ ok false s')
      × FileRemoved s s' id inode (entries d.subs)
  unfolding rm_file_at with_zone
  rm_file_at-Removed =
      let (s1, freed, states, zones, world) = rm_inode-Frees s inode r.holds r.direct r.in_map in
      let (s2, taken_out, m) = rm_sub-present s1 zones in
      let zone : IsZone id = record { lo = r.holds.zone.0; hi = omega (arith, r.holds.zone.1) } in
      (
        s2,
        run-read s _ zone
            ∙ ap (λ (i : Inode). run (do rm_inode id; rm_sub fuel i.parent id; pure false) s)
                (ap to_inode r.holds.bytes ∙ to_inode-of_inode inode r.holds.fits)
            ∙ run-bind_ok (rm_inode id) (λ _. do rm_sub fuel inode.parent id; pure false) s freed
            ∙ run-bind_ok (rm_sub fuel inode.parent id) (λ _. pure false) s1 taken_out
            ∙ run-pure false s2,
        record {
          kept = m.kept;
          name = m.name;
          directory = m.directory;
          bag = m.bag;
          freed_states = λ j. ap (λ f. f j) m.states_kept ∙ states j;
          zones_kept = λ j ne. m.zones_kept j ne ∙ ap (λ f. f j) zones;
          sock_kept = ap (λ (w : World). w.sock) (m.world_kept ∙ world);
        },
      )

IsRemovable-Same :
    {s s1 : Store} {id : ℕ} {inode : Inode} {d : Dentry}
    → Same s s1
    → IsRemovable s id inode d
    → IsRemovable s1 id inode d
IsRemovable-Same {id = id} {inode = inode} {d = d} same r = record {
  holds = record {
    zone = r.holds.zone;
    bytes = ap (λ z. z id) same.0 ∙ r.holds.bytes;
    fits = r.holds.fits;
  };
  direct = r.direct;
  in_map = r.in_map;
  parent = subst (λ z. HoldsDir z inode.parent d) (sym same.0) r.parent;
  alone = r.alone;
  packed_subs = r.packed_subs;
  ends = r.ends;
  slot = r.slot;
  in_use = r.in_use;
  entry = r.entry;
}

FileRemoved-Same :
    {s s1 s' : Store} {id : ℕ} {inode : Inode} {es : List Entry}
    → Same s s1
    → FileRemoved s1 s' id inode es
    → FileRemoved s s' id inode es
FileRemoved-Same {id = id} {inode = inode} (zones, states, clock, sock) m = record {
  kept = m.kept;
  name = m.name;
  directory = m.directory;
  bag = m.bag;
  freed_states = λ j.
      m.freed_states j
      ∙ ap (λ (f : ℕ → ℕ). if has j (id ∷ used_ptrs (take 20 inode.ptrs)) then unoccupied else f j)
          states;
  zones_kept = λ j ne. m.zones_kept j ne ∙ ap (λ f. f j) zones;
  sock_kept = m.sock_kept ∙ sock;
}

-- If the search of the path finds a file without index zones whose data zones are of the bitmap,
-- and the file's parent is a directory of one zone with names that end in a NUL and with an entry
-- for the file, then `rm_file` ends with 0, with any fuel: the file's zone and its data zones, up
-- to the first pointer that is 0, are free and all other states are kept, the directory has lost
-- one entry with the file's id and kept the others, each as often as before, no zone but the
-- directory's has changed, and no message is sent or taken.
pub rm_file-FileRemoved :
    (fuel : ℕ) (s s1 : Store) (pwd : FilePath) (path_str : Text) {path : FilePath} {text : Text}
    (inode : Inode) (d : Dentry)
    → run (get_path pwd path_str) s ≡ ok (some path, text) s1
    → IsRemovable s (id_of path) inode d
    → (s' : Store) × (run (rm_file fuel pwd path_str) s ≡ ok false s')
      × FileRemoved s s' (id_of path) inode (entries d.subs)
unfolding rm_file with_path
rm_file-FileRemoved fuel s s1 pwd path_str {path} inode d found r =
    let same : Same s s1 = Same-Kept s s1 _ _ (get_path-Kept pwd path_str s) found in
    let (s', ran, m) = rm_file_at-Removed fuel s1 path inode d (IsRemovable-Same same r) in
    (s', run-bind_ok (get_path pwd path_str) _ s found ∙ ran, FileRemoved-Same same m)
