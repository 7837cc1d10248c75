-- ===== src/Alloc/Machine.antt =====
-- src/alloc.c as the layer below the file system: a program's calls run on the bitmap, the cache
-- and the disk.
pub mod Refine
use cs356_mini_file_system.Base.{List, none, some, ℕ}
use cs356_mini_file_system.Utils.Socket.{get_msg, send_msg}
use cs356_mini_file_system.Alloc.Bitmap.{get_free_id, get_state, set_free_id}
use cs356_mini_file_system.Alloc.Cache.{Drive, read_zone, write_zone}
use cs356_mini_file_system.Store.Prog.{
  Outcome, Prog, fault, ok, on_free_id, on_read, on_recv, on_release, on_send, on_state, on_stray,
  on_time, on_write, out_of_fuel, pure, undefined, unfinished,
}
use cs356_mini_file_system.Store.Spec.{World, past_stray, tick}

-- `map`, `b_cache` and the disk
pub record Machine : Type 0 where
  pub free_lst : List ℕ
  pub drive : Drive
  pub world : World

unfoldable pub run_alloc : {A : Type 0} → Prog A → Machine → Outcome Machine A
run_alloc (pure a) m = ok a m
run_alloc fault m = undefined
run_alloc out_of_fuel m = unfinished
run_alloc (on_state id next) m = elim (get_state m.free_lst id) [
  | none ↦ undefined
  | some state ↦ run_alloc (next state) m
]
run_alloc (on_free_id state next) m = elim (get_free_id m.free_lst state) [
  | none ↦ undefined
  | some (id, lst) ↦ run_alloc (next id) (record m { free_lst = lst })
]
run_alloc (on_release id next) m = elim (set_free_id m.free_lst id) [
  | none ↦ undefined
  | some lst ↦ run_alloc next (record m { free_lst = lst })
]
run_alloc (on_read id next) m =
    let (zone, drive) = read_zone m.drive id in run_alloc (next zone) (record m { drive = drive })
run_alloc (on_write id zone next) m =
    run_alloc next (record m { drive = write_zone m.drive id zone })
run_alloc (on_time next) m = run_alloc (next (m.world.clock 0)) (record m { world = tick m.world })
run_alloc (on_stray next) m =
    run_alloc (next (m.world.strays 0)) (record m { world = past_stray m.world })
run_alloc (on_recv next) m =
    let (msg, sock) = get_msg m.world.sock in
    run_alloc (next msg) (record m { world = record (m.world) { sock = sock } })
run_alloc (on_send msg next) m =
    run_alloc next (record m { world = record (m.world) { sock = send_msg m.world.sock msg } })
