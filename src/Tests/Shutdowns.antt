-- ===== src/Tests/Shutdowns.antt =====
-- src/server.c and src/format.c with the disk manager, on a disk file of zeros but for the state of
-- the root directory.
use cs356_mini_file_system.Layout.{of_dentry, of_inode, to_dentry}
use cs356_mini_file_system.Fs.Dir.{
  add_sub, add_to_dentry, copy_name, fill_sub, free_slot, visit_dentry,
}
use cs356_mini_file_system.Server.{
  make, make_in, make_named, mk_file, with_new_id, with_path, with_state,
}
use cs356_mini_file_system.Alloc.Bitmap.Search.{first_free}
use cs356_mini_file_system.Alloc.Bitmap.{get_bits}
use cs356_mini_file_system.Base.{
  [], arith, get_or, get_or-replicate, if◌then◌else◌, map, refl, replicate, subst, suc, sym, zero,
  ℕ, ◌+◌, ◌<◌, ◌==◌, ◌∷◌, ◌≡◌,
}
use cs356_mini_file_system.Utils.Text.{c_string, codes, str_eq}
use cs356_mini_file_system.Utils.Socket.{ends_in_nul, get_msg, left_over, packet, send_msg}
use cs356_mini_file_system.Utils.Tokens.{get_toks, scan_toks}
use cs356_mini_file_system.Wire.{done}
use cs356_mini_file_system.DiskMgr.{File, read_file}
use cs356_mini_file_system.DiskMgr.Refine.{disk_of, split_zones}
use cs356_mini_file_system.Alloc.Bitmap.Laws.{IsBitmap, state_of}
use cs356_mini_file_system.Alloc.Cache.Zones.{zone_at}
use cs356_mini_file_system.Alloc.Startup.{read_map}
use cs356_mini_file_system.Store.Spec.{Store, World, run}
use cs356_mini_file_system.Store.Whole.{WritesWhole}
use cs356_mini_file_system.Server.Interpret.{
  answer, interpret, perform, request_of, request_on, short_only, stay,
}
use cs356_mini_file_system.Server.Whole.{interpret-WritesWhole}
use cs356_mini_file_system.Paths.{
  cut, enter, find_sub, get_path, get_path_from_pwd, get_path_from_root, get_sub_path, go_on,
  head_of, last_cut, new_node, path_clone, path_init, pwd_step, rm_name, root_step, str_cmp,
}
use cs356_mini_file_system.Remote.Shutdown.{Shuts, Stored}
use cs356_mini_file_system.Remote.Session.{cleared, format_session-Shuts, server_main-Shuts}
use cs356_mini_file_system.Remote.{format_session, server_main}
use cs356_mini_file_system.Store.Prog.{Outcome, ok, undefined, unfinished}

-- the state of zone 4 says directory
abbrev root_file : File
root_file pos = if pos == 1 then 1 else 0

abbrev client_world : World
client_world = record {
  clock = λ n. 1000 + n;
  strays = λ n. replicate 120 0;
  sock = record {
    inbox = map packet (codes "touch a" ∷ codes "foo" ∷ codes "exit" ∷ []);
    outbox = [];
  };
}

-- the store that the disk file holds
abbrev root_store : Store
root_store = record {
  zones = zone_at (disk_of root_file);
  states = state_of (read_map (disk_of root_file 0 0));
  world = client_world;
}

root_map : read_map (disk_of root_file 0 0) ≡ 0 ∷ 1 ∷ replicate 254 0
unfolding read_map split_zones read_file
root_map = refl

root_file-Stored : Stored root_file root_store
root_file-Stored = record {
  bitmap = subst IsBitmap (sym root_map) (record { size = refl; bytes = root_bytes });
  zones = λ id lo hi. refl;
  states = λ id lo hi. refl;
}
  where
    root_bytes : (i : ℕ) → get_or (0 ∷ 1 ∷ replicate 254 0) i 0 < 256
    root_bytes zero = omega arith
    root_bytes (suc zero) = omega arith
    root_bytes (suc (suc i)) = rw (get_or-replicate {A = ℕ} 254 i 0) (omega arith)

abbrev end_of : Outcome Store (Unit {0}) → Store
end_of (ok a s) = s
end_of undefined = root_store
end_of unfinished = root_store

abbrev touched : Store
touched = end_of (run (interpret 3 2 path_init) root_store)

touches : run (interpret 3 2 path_init) root_store ≡ ok tt touched
unfolding run interpret perform request_of request_on get_toks scan_toks str_eq stay answer
    short_only mk_file make make_named make_in with_path with_state with_new_id rm_name last_cut
    get_path get_path_from_pwd pwd_step path_clone head_of get_path_from_root root_step enter cut
    go_on get_sub_path find_sub str_cmp new_node get_msg packet ends_in_nul c_string left_over
    send_msg first_free state_of get_bits read_map split_zones read_file zone_at add_sub
    visit_dentry add_to_dentry fill_sub copy_name free_slot to_dentry of_dentry of_inode
touches = refl

server_main-Shuts_example :
    Shuts (server_main 3 2 client_world) root_file (done (tt, touched.world)) touched
server_main-Shuts_example =
    server_main-Shuts 3 2 root_store root_file root_file-Stored touched touches

format_session-Shuts_example :
    Shuts
      (format_session client_world)
      root_file
      (done client_world)
      (cleared root_file client_world)
format_session-Shuts_example = format_session-Shuts root_file client_world

interpret-WritesWhole_example : WritesWhole (interpret 3 2 path_init)
interpret-WritesWhole_example = interpret-WritesWhole 3 2 path_init
