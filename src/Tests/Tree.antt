-- ===== src/Tests/Tree.antt =====
-- src/path.c and src/server.c on a root directory in zone 4 with the directory "d" in zone 5 and the
-- file "a" in zone 6; "d" holds the file "b" in zone 7.
use cs356_mini_file_system.Server.Errors.{Same}
use cs356_mini_file_system.Server.Interpret.Missing.{needs_rm, perform-missing, told}
use cs356_mini_file_system.Server.Entry.{CanMake, Made}
use cs356_mini_file_system.Store.ReadOnly.{Kept}
use cs356_mini_file_system.Paths.Entries.{first_named, node_of}
use cs356_mini_file_system.Base.{
  All, List, [], arith, false, if◌then◌else◌, length, ltb, none, refl, replicate, some, ℕ, ◌+◌, ◌<◌,
  ◌==◌, ◌∷◌, ◌≡◌, ◌≢◌,
}
use cs356_mini_file_system.Layout.{Dentry, Sub, dentry_subs, of_dentry, of_inode}
use cs356_mini_file_system.Layout.RoundTrip.{DentryFits, IsShort, SubFits}
use cs356_mini_file_system.Utils.Text.{Text, c_string, codes, has_nul, str_eq}
use cs356_mini_file_system.Alloc.Cache.{zero_zone}
use cs356_mini_file_system.Alloc.Bitmap.{d_occupied, i_occupied, unoccupied}
use cs356_mini_file_system.Alloc.Bitmap.Search.{first_free, zones_tracked}
use cs356_mini_file_system.Store.Prog.{ok}
use cs356_mini_file_system.Store.Spec.{Store, run, update}
use cs356_mini_file_system.Paths.{
  cut, dot, enter, find_sub, get_path, get_path_from_pwd, get_path_from_root, get_sub_path, go_on,
  head_of, path_clone, pwd_step, root_step, slash, str_cmp,
}
use cs356_mini_file_system.Paths.Reads.{get_path-Kept}
use cs356_mini_file_system.Paths.Lookup.{
  IsChild, IsComponent, Leads, down, get_path_from_root-Leads, here, join_names, strayed,
}
use cs356_mini_file_system.Fs.Dir.{zero_sub}
use cs356_mini_file_system.Fs.Dir.Subs.{entries, packed}
use cs356_mini_file_system.Fs.Dir.Fill.{SubFits-zero_sub}
use cs356_mini_file_system.Fs.Dir.Chain.{has}
use cs356_mini_file_system.Fs.Dir.Whole.{HoldsDir, small}
use cs356_mini_file_system.Server.{mk_dir, mk_file, new_dentry, new_inode}
use cs356_mini_file_system.Server.Make.{mk_dir-Made, mk_file-Made}
use cs356_mini_file_system.Server.Interpret.{perform, rm_request, touch_request}
use cs356_mini_file_system.Server.Interpret.Answers.{Settled, perform-Settled, touches}

abbrev letter_sub : ℕ → ℕ → Sub
letter_sub id letter = record { id = id; name = letter ∷ replicate 9 0 }

abbrev dir_of : List Sub → Dentry
dir_of subs = record { parent = 4; mode = 493; owner = 0; subs = subs; next = 0; time = 77 }

abbrev root : Dentry
root = dir_of (letter_sub 5 100 ∷ letter_sub 6 97 ∷ zero_sub ∷ zero_sub ∷ [])

abbrev below_root : Dentry
below_root = dir_of (letter_sub 7 98 ∷ zero_sub ∷ zero_sub ∷ zero_sub ∷ [])

abbrev tree : Store
tree = record {
  zones = update (update (λ id. zero_zone) 4 (of_dentry root)) 5 (of_dentry below_root);
  states = λ id. if ltb id 6 then d_occupied else if ltb id 8 then i_occupied else unoccupied;
  world = record {
    clock = λ n. n + 1000;
    strays = λ n. replicate 80 0;
    sock = record { inbox = []; outbox = [] };
  };
}

letter_sub-SubFits : (id letter : ℕ) → IsShort id → SubFits (letter_sub id letter)
letter_sub-SubFits id letter h = record { id = h; name = refl }

dir_of-DentryFits :
    (subs : List Sub) → length subs ≡ dentry_subs → All SubFits subs → DentryFits (dir_of subs)
dir_of-DentryFits subs e h = record {
  parent = omega arith;
  mode = omega arith;
  owner = omega arith;
  count = e;
  subs = h;
  next = omega arith;
  time = omega arith;
}

root-HoldsDir : HoldsDir tree.zones 4 root
root-HoldsDir = record {
  zone = record { lo = omega arith; hi = omega arith };
  bytes = refl;
  fits = dir_of-DentryFits root.subs refl (
    letter_sub-SubFits 5 100 (omega arith),
    (letter_sub-SubFits 6 97 (omega arith), (SubFits-zero_sub, (SubFits-zero_sub, tt))),
  );
}

below-HoldsDir : HoldsDir tree.zones 5 below_root
below-HoldsDir = record {
  zone = record { lo = omega arith; hi = omega arith };
  bytes = refl;
  fits = dir_of-DentryFits below_root.subs refl (
    letter_sub-SubFits 7 98 (omega arith),
    (SubFits-zero_sub, (SubFits-zero_sub, (SubFits-zero_sub, tt))),
  );
}

root-IsChild : IsChild tree 4 (codes "d") 5
unfolding first_named has_nul str_eq c_string
root-IsChild = record {
  dentry = root;
  holds = root-HoldsDir;
  tracked = omega arith;
  state = refl;
  ends = (refl, (refl, (refl, (refl, tt))));
  first = refl;
}

below-IsChild : IsChild tree 5 (codes "b") 7
unfolding first_named has_nul str_eq c_string
below-IsChild = record {
  dentry = below_root;
  holds = below-HoldsDir;
  tracked = omega arith;
  state = refl;
  ends = (refl, (refl, (refl, (refl, tt))));
  first = refl;
}

letter-IsComponent :
    (c : ℕ) → c ≢ 0 → (c == slash) ≡ false → (c == dot) ≡ false → IsComponent (c ∷ [])
unfolding head_of
letter-IsComponent c nz ns nd = record {
  text = (nz, tt);
  no_slash = (ns, tt);
  plain = rw nd refl;
  short = omega arith;
}

tree-Leads :
    Leads tree [] (codes "d" ∷ codes "b" ∷ []) (node_of 7 (codes "b") ∷ node_of 5 (codes "d") ∷ [])
tree-Leads =
    down (letter-IsComponent 100 (omega arith) refl refl) root-IsChild
      (down (letter-IsComponent 98 (omega arith) refl refl) below-IsChild here)

join_names_short : length (join_names (codes "d" ∷ codes "b" ∷ [])) < 4
unfolding join_names
join_names_short = omega arith

get_path_from_root-Leads_example :
    (text : Text) × (s' : Store) × (run
        (get_path_from_root 4 [] (join_names (codes "d" ∷ codes "b" ∷ [])))
        tree
      ≡ ok (some (node_of 7 (codes "b") ∷ node_of 5 (codes "d") ∷ []), text) s')
get_path_from_root-Leads_example = get_path_from_root-Leads 4 tree tree-Leads join_names_short

get_path-Kept_example : Kept tree (run (get_path [] (codes "d/b")) tree)
get_path-Kept_example = get_path-Kept [] (codes "d/b") tree

-- "n" is not found in the root directory.
n_missing : run (get_path [] (codes "n")) tree ≡ ok (none, codes "n") (strayed tree)
unfolding get_path get_path_from_pwd pwd_step path_clone head_of get_path_from_root root_step enter
    cut go_on get_sub_path find_sub str_cmp of_dentry run
n_missing = refl

n-IsComponent : IsComponent (codes "n")
n-IsComponent = letter-IsComponent 110 (omega arith) refl refl

next_file : first_free (update tree.states 8 i_occupied) zones_tracked 4 ≡ some 9
unfolding first_free
next_file = refl

next_dir : first_free (update tree.states 8 d_occupied) zones_tracked 4 ≡ some 9
unfolding first_free
next_dir = refl

root-CanMake :
    (state : ℕ)
    → first_free (update tree.states 8 state) zones_tracked 4 ≡ some 9
    → CanMake tree 4 (4 ∷ []) (entries root.subs) 8 9 state (codes "n")
unfolding first_free packed entries has
root-CanMake state next = record {
  directory = small root root-HoldsDir refl refl;
  tracked = omega arith;
  occupied = refl;
  valid_name = record { text = (omega arith, tt); short = omega arith };
  free = refl;
  next_free = next;
  id_outside = refl;
  fresh_outside = refl;
  now = omega arith;
  later = omega arith;
}

mk_file-Made_example :
    (s' : Store) × (run (mk_file 0 [] (codes "n")) tree ≡ ok false s')
    × Made tree s' 4
        (4 ∷ [])
        (entries root.subs)
        8
        9
        i_occupied
        (of_inode (new_inode 4 1000))
        (codes "n")
mk_file-Made_example =
    mk_file-Made 0 [] (codes "n") tree n-IsComponent n_missing (omega arith)
      (root-CanMake i_occupied next_file)

mk_dir-Made_example :
    (s' : Store) × (run (mk_dir 0 [] (codes "n")) tree ≡ ok false s')
    × Made tree s' 4
        (4 ∷ [])
        (entries root.subs)
        8
        9
        d_occupied
        (of_dentry (new_dentry 4 1000))
        (codes "n")
mk_dir-Made_example =
    mk_dir-Made 0 [] (codes "n") tree n-IsComponent n_missing (omega arith)
      (root-CanMake d_occupied next_dir)

-- "touch a" where there is an "a"
perform-Settled_example : Settled tree [] (run (perform 0 [] (touch_request (codes "a"))) tree)
perform-Settled_example = perform-Settled 0 [] tree (touches (codes "a"))

perform-missing_example :
    (s' : Store) × (run (perform 0 [] (rm_request (codes "n"))) tree
      ≡ ok (some []) (told s' (codes "4")))
    × Same tree s'
perform-missing_example = perform-missing 0 [] (codes "n") tree n_missing needs_rm
