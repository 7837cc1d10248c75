-- ===== src/Store/Bind.antt =====
-- The run of a sequence of programs.
use cs356_mini_file_system.Base.{
  Bool, Option-cases, ap, false, if◌then◌else◌, inl, inr, ltb, none, refl, some, true, ◌%◌, ◌∙◌,
  ◌≡◌,
}
use cs356_mini_file_system.Utils.Socket.{get_msg, send_msg}
use cs356_mini_file_system.Alloc.Bitmap.{f_occupied, reserved, unoccupied}
use cs356_mini_file_system.Alloc.Bitmap.Search.{first_free, zones_tracked}
use cs356_mini_file_system.Store.Prog.{
  Outcome, Prog, and_then, fault, ok, on_free_id, on_read, on_recv, on_release, on_send, on_state,
  on_stray, on_time, on_write, out_of_fuel, pure, ◌>>=◌,
}
use cs356_mini_file_system.Store.Spec.{Store, past_stray, run, tick, update, zone_limit}

and_then-if :
    {A B : Type 0} (b : Bool) (m n : Outcome Store A) (f : A → Store → Outcome Store B)
    → and_then (if b then m else n) f ≡ (if b then and_then m f else and_then n f)
and_then-if true m n f = refl
and_then-if false m n f = refl

pub run-bind :
    {A B : Type 0} (m : Prog A) (f : A → Prog B) (s : Store)
    → run (m >>= f) s ≡ and_then (run m s) (λ a s'. run (f a) s')
unfolding run
run-bind (pure a) f s = refl
run-bind fault f s = refl
run-bind out_of_fuel f s = refl
run-bind (on_state id next) f s = rw (
  run-bind (next f_occupied) f s,
  run-bind (next (s.states id)) f s,
  and_then-if (reserved id),
  and_then-if (ltb id zone_limit),
)
run-bind (on_free_id state next) f s = elim (Option-cases (first_free s.states zones_tracked 4)) [
  | inl full ↦ rw (full, run)
  | inr (id, found) ↦
      rw (found, run) (run-bind (next id) f (record s { states = update s.states id (state % 4) }))
]
run-bind (on_release id next) f s = rw (
  run-bind next f s,
  run-bind next f (record s { states = update s.states id unoccupied }),
  and_then-if (reserved id),
  and_then-if (ltb id zone_limit),
)
run-bind (on_read id next) f s =
    rw
      (run-bind (next none) f s, run-bind (next (some (s.zones id))) f s, and_then-if (reserved id))
run-bind (on_write id zone next) f s = rw (
  run-bind next f s,
  run-bind next f (record s { zones = update s.zones id zone }),
  and_then-if (reserved id),
)
run-bind (on_time next) f s =
    run-bind (next (s.world.clock 0)) f (record s { world = tick s.world })
run-bind (on_stray next) f s =
    run-bind (next (s.world.strays 0)) f (record s { world = past_stray s.world })
run-bind (on_recv next) f s =
    let (msg, sock) = get_msg s.world.sock in
    run-bind (next msg) f (record s { world = record (s.world) { sock = sock } })
run-bind (on_send msg next) f s =
    run-bind next f (record s { world = record (s.world) { sock = send_msg s.world.sock msg } })

-- behind a part that ends
pub run-bind_ok :
    {A B : Type 0} (m : Prog A) (f : A → Prog B) (s : Store) {a : A} {s' : Store}
    → run m s ≡ ok a s'
    → run (m >>= f) s ≡ run (f a) s'
run-bind_ok m f s e = run-bind m f s ∙ ap (λ o. and_then o (λ a s'. run (f a) s')) e
