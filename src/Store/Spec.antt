-- ===== src/Store/Spec.antt =====
-- What the layers below the file system promise: zones under their ids, a state for each zone of
-- the bitmap, a clock and a connection. There is no cache, no block and no bit in it.
use cs356_mini_file_system.Base.{List, if◌then◌else◌, ltb, none, some, ℕ, ◌%◌, ◌+◌, ◌==◌}
use cs356_mini_file_system.Utils.Socket.{Sock, get_msg, send_msg}
use cs356_mini_file_system.Alloc.Bitmap.{f_occupied, reserved, unoccupied}
use cs356_mini_file_system.Alloc.Bitmap.Search.{first_free, zones_tracked}
use cs356_mini_file_system.Alloc.Cache.{Zone}
use cs356_mini_file_system.Store.Prog.{
  Outcome, Prog, fault, ok, on_free_id, on_read, on_recv, on_release, on_send, on_state, on_stray,
  on_time, on_write, out_of_fuel, pure, undefined, unfinished,
}

-- the readings that `time` will give, in order, the bytes that reads past a local variable will find,
-- and the client's connection
pub record World : Type 0 where
  pub clock : ℕ → ℕ
  pub strays : ℕ → List ℕ
  pub sock : Sock

pub record Store : Type 0 where
  pub zones : ℕ → Zone
  pub states : ℕ → ℕ
  pub world : World

abbrev pub update {ℓ} : {A : Type ℓ} → (ℕ → A) → ℕ → A → ℕ → A
update f i v j = if j == i then v else f j

abbrev pub tick : World → World
tick w = record w { clock = λ n. w.clock (n + 1) }

abbrev pub past_stray : World → World
past_stray w = record w { strays = λ n. w.strays (n + 1) }

-- The number of zones that the bitmap has bits for.
abbrev pub zone_limit : ℕ
zone_limit = 1024

unfoldable pub run : {A : Type 0} → Prog A → Store → Outcome Store A
run (pure a) s = ok a s
run fault s = undefined
run out_of_fuel s = unfinished
run (on_state id next) s =
    let reserved_run = run (next f_occupied) s in
    let tracked_run = run (next (s.states id)) s in
    if reserved id then reserved_run else if ltb id zone_limit then tracked_run else undefined
run (on_free_id state next) s = elim (first_free s.states zones_tracked 4) [
  | none ↦ undefined
  | some id ↦ run (next id) (record s { states = update s.states id (state % 4) })
]
run (on_release id next) s =
    let kept = run next s in
    let released = run next (record s { states = update s.states id unoccupied }) in
    if reserved id then kept else if ltb id zone_limit then released else undefined
run (on_read id next) s =
    let null = run (next none) s in
    let found = run (next (some (s.zones id))) s in if reserved id then null else found
run (on_write id zone next) s =
    let kept = run next s in
    let written = run next (record s { zones = update s.zones id zone }) in
    if reserved id then kept else written
run (on_time next) s = run (next (s.world.clock 0)) (record s { world = tick s.world })
run (on_stray next) s = run (next (s.world.strays 0)) (record s { world = past_stray s.world })
run (on_recv next) s =
    let (msg, sock) = get_msg s.world.sock in
    run (next msg) (record s { world = record (s.world) { sock = sock } })
run (on_send msg next) s =
    run next (record s { world = record (s.world) { sock = send_msg s.world.sock msg } })
