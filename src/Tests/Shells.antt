-- ===== src/Tests/Shells.antt =====
-- src/client.c and the starts of the programs: `cat f` on a small file, and a run of the server.
use cs356_mini_file_system.Base.{
  Bool-cases, inl, inr, arith, some, ◌^◌, ◌<◌, ◌∷◌, ◌≡◌, ◌+◌, List, ℕ, [], if◌then◌else◌, length,
  refl, replicate, ◌++◌, ◌-◌, ◌==◌,
}
use cs356_mini_file_system.Utils.Text.{Text, c_string, codes}
use cs356_mini_file_system.Layout.{Dentry, Inode, get_int, of_dentry, of_inode, to_inode}
use cs356_mini_file_system.Alloc.Bitmap.{d_occupied, f_occupied, i_occupied}
use cs356_mini_file_system.Alloc.Cache.{Zone, zero_zone}
use cs356_mini_file_system.Store.Spec.{Store, past_stray, run, update}
use cs356_mini_file_system.Paths.{
  FilePath, cut, enter, find_sub, get_path, get_path_from_pwd, get_path_from_root, get_sub_path,
  go_on, head_of, new_node, path_clone, pwd_step, root_step, str_cmp,
}
use cs356_mini_file_system.Fs.Dir.{zero_sub}
use cs356_mini_file_system.Fs.Data.{get_cat_len}
use cs356_mini_file_system.Fs.Release.Inode.{used_ptrs}
use cs356_mini_file_system.Fs.Show.Stream.{connected, all_used, concat_map}
use cs356_mini_file_system.Fs.Show.Whole.{IsFile, file_zones, when}
use cs356_mini_file_system.Store.Prog.{ok}
use cs356_mini_file_system.Client.{Shell, cmd_loop}
use cs356_mini_file_system.Utils.Socket.{packet}
use cs356_mini_file_system.Server.Interpret.{cat_request, perform}
use cs356_mini_file_system.Client.Serve.{asked, answered, Finds, IsShown, texts_in}
use cs356_mini_file_system.Client.Cat.{cat-cmd_loop}
use cs356_mini_file_system.Client.Replies.{joined}
use cs356_mini_file_system.Process.{gen_server_sock}
use cs356_mini_file_system.Process.Run.{gen_server_sock-null, returned, run as run_process}

-- the file f in the root directory, with two data zones
abbrev pub f_inode : Inode
f_inode = record {
  parent = 4;
  mode = 493;
  owner = 0;
  size = 3;
  ptrs = 41 ∷ 42 ∷ replicate 22 0;
  time = 77;
}

abbrev pub root : Dentry
root = record {
  parent = 4;
  mode = 493;
  owner = 0;
  subs = record { id = 40; name = codes "f" ++ replicate 9 0 } ∷ replicate 3 zero_sub;
  next = 0;
  time = 77;
}

abbrev text_zone : Text → Zone
text_zone text = text ++ replicate (64 - length text) 0

abbrev pub small_disk : Store
small_disk = record {
  zones =
      update
        (update (update (update (λ id. zero_zone) 4 (of_dentry root)) 40 (of_inode f_inode)) 41
          (text_zone (codes "hello ")))
        42 (text_zone (codes "world"));
  states = λ id. if id == 40 then i_occupied else if id == 4 then d_occupied else f_occupied;
  world = record {
    clock = λ n. n;
    strays = λ n. replicate 80 0;
    sock = record { inbox = []; outbox = [] };
  };
}

abbrev pub f_path : FilePath
f_path = record { id = 40; name = codes "f" ++ replicate 3 0 } ∷ []

pub f_found :
    Finds small_disk []
      (codes "f")
      f_path
      (record small_disk { world = past_stray small_disk.world })
unfolding get_path get_path_from_pwd pwd_step path_clone head_of get_path_from_root root_step enter
    cut go_on get_sub_path find_sub str_cmp new_node of_dentry run get_int
f_found = (codes "f", λ i o. refl)

abbrev pub small_disk' : Store
small_disk' = record small_disk { world = past_stray small_disk.world }

f_IsFile : IsFile small_disk'.zones (to_inode (small_disk'.zones 40)).ptrs
unfolding to_inode of_inode used_ptrs
f_IsFile = record {
  direct = (
    record { lo = omega arith; hi = omega arith },
    (record { lo = omega arith; hi = omega arith }, tt),
  );
  single = tt;
  double = tt;
}

f_IsShown : IsShown small_disk' 40
unfolding to_inode of_inode used_ptrs get_cat_len file_zones all_used when concat_map c_string
f_IsShown = record {
  zone = record { lo = omega arith; hi = omega arith };
  tracked = omega arith;
  state = refl;
  file = f_IsFile;
  size = refl;
}

length-update :
    (zones : ℕ → Zone) (i : ℕ) (zone : Zone)
    → ((id : ℕ) → length (zones id) ≡ 64)
    → length zone ≡ 64
    → (id : ℕ) → length (update zones i zone id) ≡ 64
length-update zones i zone h k id = elim (Bool-cases (id == i)) [
  | inl e ↦ rw e k
  | inr ne ↦ rw ne (h id)
]

f_whole : (id : ℕ) → length (small_disk'.zones id) ≡ 64
unfolding of_dentry of_inode
f_whole =
    length-update _ 42 _
      (length-update _ 41 _ (length-update _ 40 _ (length-update _ 4 _ (λ id. refl) refl) refl)
        refl)
      refl

f_count : length (texts_in small_disk' 40 f_IsShown.zone) < 2 ^ 31
unfolding to_inode of_inode used_ptrs file_zones all_used when concat_map
f_count = omega arith

abbrev f_texts : List Text
f_texts = codes "hello " ∷ codes "world" ∷ []

abbrev shell_of : List (List ℕ) → List (List ℕ) → List Text → Text → Shell
shell_of inbox outbox lines printed = record {
  sock = record { inbox = inbox; outbox = outbox };
  lines = lines;
  printed = printed;
}

cat-cmd_loop_example :
    (run (perform 1 [] (cat_request (codes "f"))) (connected small_disk (asked f_texts) [])
      ≡ ok (some []) (connected small_disk' [] (answered f_texts)))
    × (cmd_loop 2 (shell_of (answered f_texts) [] (codes "cat f" ∷ []) [])
        ≡ cmd_loop 1 (
            shell_of []
              (packet (codes "cat f") ∷ asked f_texts)
              []
              (codes "Command > " ++ (joined f_texts ++ codes "\n"))))
unfolding file_zones used_ptrs to_inode of_inode run cmd_loop all_used concat_map when f_IsShown
    packet perform c_string
cat-cmd_loop_example =
    cat-cmd_loop 1 1 small_disk small_disk' [] f_path (codes "f") (codes "cat f") [] [] [] [] [] []
      f_found f_IsShown f_whole f_count

gen_server_sock-null_example : (run_process gen_server_sock (λ n. n + 3)).end ≡ returned (some 6)
gen_server_sock-null_example = gen_server_sock-null (λ n. n + 3)
