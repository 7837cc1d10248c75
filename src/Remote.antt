-- ===== src/Remote.antt =====
-- src/alloc.c over its connection to the disk manager: the functions that ask for blocks, as one side
-- of the conversation. Alloc.Cache and Alloc.Startup have them on a disk of blocks.
pub mod Serves
pub mod Cache
pub mod Run
pub mod Shutdown
pub mod Session
use cs356_mini_file_system.Server.Interpret.{interpret}
use cs356_mini_file_system.Paths.{path_init}
use cs356_mini_file_system.Base.{
  List, Option, false, get_or, none, replicate, set, some, suc, true, zero, ℕ, ◌%◌, ◌&&◌, ◌*◌, ◌-◌,
  ◌==◌,
}
use cs356_mini_file_system.Utils.Text.{codes, str_eq}
use cs356_mini_file_system.Utils.Socket.{get_msg, send_msg}
use cs356_mini_file_system.Wire.{Wire, done, hear_msg, say_msg, stopped}
use cs356_mini_file_system.Alloc.Bitmap.{
  d_occupied, get_free_id, get_state, reserved, set_free_id, set_state,
}
use cs356_mini_file_system.Alloc.Cache.{
  Block, Zone, find_slot, get_c, get_s, new_block, shift_slots, zero_zone,
}
use cs356_mini_file_system.Alloc.Startup.{read_map, write_map}
use cs356_mini_file_system.Store.Spec.{World, past_stray, tick}
use cs356_mini_file_system.DiskMgr.{fetch_block, store_block}
use cs356_mini_file_system.DiskMgr.Refine.{join_zones, split_zones}
use cs356_mini_file_system.Store.Prog.{
  Prog, fault, on_free_id, on_read, on_recv, on_release, on_send, on_state, on_stray, on_time,
  on_write, out_of_fuel, pure,
}

-- what the server keeps in its memory: `map`, `b_cache`, and the rest of its world
pub record Memory : Type 0 where
  pub free_lst : List ℕ
  pub cache : List (Option Block)
  pub world : World

-- the replies that `write_block` waits for at most: four parts and the end
abbrev pub replies : ℕ
replies = 5

-- the block that `read_block` fills, from what it has got
unfoldable pub filled : Option (List ℕ) → ℕ → ℕ → Block → Block
filled none c s dest = dest
filled (some bytes) c s dest = record { zones = split_zones 8 bytes; c = c; s = s }

module _ {A : Type 0} where
  -- `write_block`
  unfoldable pub send_block : Block → Wire A → Wire A
  send_block block next = store_block replies block.c block.s (join_zones block.zones) next

  unfoldable pub load_target : Option Block → ℕ → ℕ → (Block → Wire A) → Wire A
  load_target none c s next = fetch_block c s (λ got. next (filled got c s new_block))
  load_target (some b) c s next = elim (c == b.c && s == b.s) [
    | true ↦ next b
    | false ↦ fetch_block c s (λ got. next (filled got c s b))
  ]

  unfoldable pub get_block :
      List (Option Block) → ℕ → (Block → List (Option Block) → Wire A) → Wire A
  get_block cache id next =
      let start = get_s id % 4 * 2 in
      let idx = find_slot 1 cache (get_c id) (get_s id) start in
      load_target (get_or cache idx none) (get_c id) (get_s id)
        (λ target. next target (set (shift_slots (idx - start) cache start) start (some target)))

  unfoldable pub read_zone : Memory → ℕ → (Option Zone → Memory → Wire A) → Wire A
  read_zone m id next = elim (reserved id) [
    | true ↦ next none m
    | false ↦
        get_block m.cache id
          (λ b cache. next (some (get_or b.zones (id % 8) zero_zone)) (record m { cache = cache }))
  ]

  unfoldable pub write_zone : Memory → ℕ → Zone → (Memory → Wire A) → Wire A
  write_zone m id src next = elim (reserved id) [
    | true ↦ next m
    | false ↦ get_block m.cache id (λ b cache.
        let b' : Block = record b { zones = set b.zones (id % 8) src } in
        send_block b' (next (record m { cache = set cache (get_s id % 4 * 2) (some b') })))
  ]

  -- A program whose calls run on this memory and over this connection.
  unfoldable pub run_remote : {R : Type 0} → Prog R → Memory → (R → Memory → Wire A) → Wire A
  run_remote (pure a) m next = next a m
  run_remote fault m next = stopped
  run_remote out_of_fuel m next = stopped
  run_remote (on_state id more) m next = elim (get_state m.free_lst id) [
    | none ↦ stopped
    | some state ↦ run_remote (more state) m next
  ]
  run_remote (on_free_id state more) m next = elim (get_free_id m.free_lst state) [
    | none ↦ stopped
    | some (id, lst) ↦ run_remote (more id) (record m { free_lst = lst }) next
  ]
  run_remote (on_release id more) m next = elim (set_free_id m.free_lst id) [
    | none ↦ stopped
    | some lst ↦ run_remote more (record m { free_lst = lst }) next
  ]
  run_remote (on_read id more) m next = read_zone m id (λ zone m'. run_remote (more zone) m' next)
  run_remote (on_write id zone more) m next = write_zone m id zone (λ m'. run_remote more m' next)
  run_remote (on_time more) m next =
      run_remote (more (m.world.clock 0)) (record m { world = tick m.world }) next
  run_remote (on_stray more) m next =
      run_remote (more (m.world.strays 0)) (record m { world = past_stray m.world }) next
  run_remote (on_recv more) m next =
      let (msg, sock) = get_msg m.world.sock in
      run_remote (more msg) (record m { world = record (m.world) { sock = sock } }) next
  run_remote (on_send msg more) m next =
      run_remote more (record m { world = record (m.world) { sock = send_msg m.world.sock msg } })
        next

  -- `none` would be an access outside `free_lst`.
  unfoldable pub format : Memory → (Memory → Wire A) → Wire A
  format m next = send_block new_block (elim (set_state (replicate 256 0) 4 d_occupied) [
    | none ↦ stopped
    | some lst ↦ next (record m { free_lst = lst; cache = replicate 8 none })
  ])

  -- the part behind the connection to the disk manager
  unfoldable pub alloc_init : Memory → (Memory → Wire A) → Wire A
  alloc_init m next =
      get_block m.cache 0
        (λ b cache. next (record m { free_lst = read_map b.zones; cache = cache }))

  -- `do send_msg(sock, "E"); while (strcmp(get_msg(sock), "BYE"));` for at most that many rounds
  unfoldable pub close_disk : ℕ → Wire A → Wire A
  close_disk zero next = stopped
  close_disk (suc rounds) next = say_msg (codes "E") (
      hear_msg (elim [
        | none ↦ stopped
        | some reply ↦
            let again = close_disk rounds next in
            elim (str_eq reply (codes "BYE")) [ true ↦ next | false ↦ again ]
      ]))

  unfoldable pub alloc_final : Memory → (Memory → Wire A) → Wire A
  alloc_final m next = get_block m.cache 0 (λ b cache.
      send_block (record b { zones = write_map m.free_lst b.zones })
        (close_disk 1 (next (record m { cache = replicate 8 none }))))

-- the memory of a process that starts
abbrev pub fresh : World → Memory
fresh world = record { free_lst = replicate 256 0; cache = replicate 8 none; world = world }

-- `alloc_init`, a program on the file system, and `alloc_final`
unfoldable pub session : {R : Type 0} → Prog R → World → Wire (R × World)
session program world =
    alloc_init (fresh world)
      (λ m. run_remote program m (λ result m'. alloc_final m' (λ m''. done (result, m''.world))))

-- `main` of src/server.c, once the client is connected, for at most that many requests
unfoldable pub server_main : ℕ → ℕ → World → Wire (Unit {0} × World)
server_main requests fuel world = session (interpret requests fuel path_init) world

-- the child process of src/format.c
unfoldable pub format_session : World → Wire World
format_session world =
    alloc_init (fresh world) (λ m. format m (λ m'. alloc_final m' (λ m''. done m''.world)))
