-- ===== src/Store/ReadOnly.antt =====
-- Programs that only read.
use cs356_mini_file_system.Base.{
  Bool, List, Option, false, if◌then◌else◌, ltb, none, refl, some, true, ℕ, ◌≡◌,
}
use cs356_mini_file_system.Alloc.Bitmap.{f_occupied, reserved}
use cs356_mini_file_system.Store.Prog.{
  Outcome, Prog, fault, ok, on_free_id, on_read, on_recv, on_release, on_send, on_state, on_stray,
  on_time, on_write, out_of_fuel, pure, undefined, unfinished, ◌>>=◌,
}
use cs356_mini_file_system.Store.Spec.{Store, past_stray, run, zone_limit}

unfoldable pub ReadOnly : {A : Type 0} → Prog A → Type 0
ReadOnly (pure a) = Unit
ReadOnly fault = Unit
ReadOnly (on_state id next) = (state : ℕ) → ReadOnly (next state)
ReadOnly (on_read id next) = (zone : Option (List ℕ)) → ReadOnly (next zone)
ReadOnly (on_stray next) = (bytes : List ℕ) → ReadOnly (next bytes)
ReadOnly _ = ⊥

-- The run ends, if it does not fail, with the zones, the states, the clock and the connection of `s`.
abbrev pub Kept : {A : Type 0} → Store → Outcome Store A → Type 0
Kept s (ok a s') =
    (s'.zones ≡ s.zones)
    × (s'.states ≡ s.states)
    × (s'.world.clock ≡ s.world.clock)
    × (s'.world.sock ≡ s.world.sock)
Kept s undefined = Unit
Kept s unfinished = ⊥

Kept-if :
    {A : Type 0} (s : Store) (b : Bool) (m n : Outcome Store A)
    → Kept s m
    → Kept s n
    → Kept s (if b then m else n)
Kept-if s true m n h k = h
Kept-if s false m n h k = k

Kept-past_stray :
    {A : Type 0} (s : Store) (o : Outcome Store A)
    → Kept (record s { world = past_stray s.world }) o
    → Kept s o
Kept-past_stray s (ok a s') h = h
Kept-past_stray s undefined h = tt
Kept-past_stray s unfinished h = h

pub run-Kept : {A : Type 0} (p : Prog A) (s : Store) → ReadOnly p → Kept s (run p s)
unfolding ReadOnly run
run-Kept (pure a) s h = (refl, refl, refl, refl)
run-Kept fault s h = tt
run-Kept out_of_fuel s h = h
run-Kept (on_state id next) s h =
    Kept-if s (reserved id) (run (next f_occupied) s)
      (if ltb id zone_limit then run (next (s.states id)) s else undefined)
      (run-Kept (next f_occupied) s (h f_occupied))
      (Kept-if s (ltb id zone_limit) (run (next (s.states id)) s) undefined
        (run-Kept (next (s.states id)) s (h (s.states id))) tt)
run-Kept (on_read id next) s h =
    Kept-if s (reserved id) (run (next none) s) (run (next (some (s.zones id))) s)
      (run-Kept (next none) s (h none))
      (run-Kept (next (some (s.zones id))) s (h (some (s.zones id))))
run-Kept (on_stray next) s h =
    Kept-past_stray s (run (next (s.world.strays 0)) (record s { world = past_stray s.world })) (
      run-Kept (next (s.world.strays 0)) (record s { world = past_stray s.world })
        (h (s.world.strays 0)))
run-Kept (on_free_id _ _) s h = absurd h
run-Kept (on_release _ _) s h = absurd h
run-Kept (on_write _ _ _) s h = absurd h
run-Kept (on_time _) s h = absurd h
run-Kept (on_recv _) s h = absurd h
run-Kept (on_send _ _) s h = absurd h

pub ReadOnly-bind :
    {A B : Type 0} (m : Prog A) (f : A → Prog B)
    → ReadOnly m
    → ((a : A) → ReadOnly (f a))
    → ReadOnly (m >>= f)
unfolding ReadOnly
ReadOnly-bind (pure a) f h k = k a
ReadOnly-bind fault f h k = tt
ReadOnly-bind (on_state id next) f h k = λ s. ReadOnly-bind (next s) f (h s) k
ReadOnly-bind (on_read id next) f h k = λ z. ReadOnly-bind (next z) f (h z) k
ReadOnly-bind (on_stray next) f h k = λ b. ReadOnly-bind (next b) f (h b) k
ReadOnly-bind out_of_fuel f h k = absurd h
ReadOnly-bind (on_free_id _ _) f h k = absurd h
ReadOnly-bind (on_release _ _) f h k = absurd h
ReadOnly-bind (on_write _ _ _) f h k = absurd h
ReadOnly-bind (on_time _) f h k = absurd h
ReadOnly-bind (on_recv _) f h k = absurd h
ReadOnly-bind (on_send _ _) f h k = absurd h

pub ReadOnly-pure : {A : Type 0} (a : A) → ReadOnly (pure a)
unfolding ReadOnly
ReadOnly-pure a = tt

pub ReadOnly-if :
    {A : Type 0} (b : Bool) (m n : Prog A)
    → ReadOnly m
    → ReadOnly n
    → ReadOnly (elim b [ false ↦ m | true ↦ n ])
ReadOnly-if false m n h k = h
ReadOnly-if true m n h k = k
