-- ===== src/Alloc/Machine/Refine.antt =====
-- How programs run on src/alloc.c and on the specification of it.
use cs356_mini_file_system.Utils.Socket.{get_msg, send_msg}
use cs356_mini_file_system.Alloc.Bitmap.{f_occupied, reserved, unoccupied}
use cs356_mini_file_system.Alloc.Bitmap.Search.{
  first_free, first_free_sound, get_free_id-first_free, zones_tracked,
}
use cs356_mini_file_system.Alloc.Cache.{Disk, Zone, read_zone, write_zone}
use cs356_mini_file_system.Alloc.Cache.Write.{write_zone-Writes, write_zone-reserved}
use cs356_mini_file_system.Base.{
  Bool-cases, Option-cases, ap, arith, dec_lt, false, inl, inr, ltb_ge, lt→ltb, none, refl, some,
  suc, zero, ℕ, ◌%◌, ◌+◌, ◌<◌, ◌^◌, ◌∙◌, ◌≡◌, ◌≤◌,
}
use cs356_mini_file_system.Alloc.Bitmap.Laws.{
  IsBitmap, get_state-in, get_state-out, get_state-reserved, set_free_id-set_state, set_state-in,
  set_state-out, set_state-reserved, state_of, state_of-stored, stored, stored-IsBitmap,
}
use cs356_mini_file_system.Alloc.Cache.Coherence.{IsCoherent}
use cs356_mini_file_system.Alloc.Cache.Zones.{read_zone-reserved, read_zone_lem, zone_at}
use cs356_mini_file_system.Alloc.Machine.{Machine, run_alloc}
use cs356_mini_file_system.Store.Prog.{
  Outcome, Prog, fault, ok, on_free_id, on_read, on_recv, on_release, on_send, on_state, on_stray,
  on_time, on_write, out_of_fuel, pure, undefined, unfinished,
}
use cs356_mini_file_system.Store.Spec.{Store, World, past_stray, run, tick, update, zone_limit}

-- The machine stands for the store: zone by zone, state by state, with a sound bitmap and cache.
pub record Represents (m : Machine) (s : Store) : Type 0 where
  pub bitmap : IsBitmap m.free_lst
  pub coherent : IsCoherent m.drive
  pub zones : (id : ℕ) → 4 ≤ id → id < 2 ^ 15 → zone_at m.drive.disk id ≡ s.zones id
  pub states : (id : ℕ) → 4 ≤ id → id < zone_limit → state_of m.free_lst id ≡ s.states id
  pub world : m.world ≡ s.world

-- the same result, in states that correspond; or the same failure
abbrev pub SameOutcome : {A : Type 0} → Outcome Machine A → Outcome Store A → Type 0
SameOutcome (ok a m) (ok b s) = (a ≡ b) × Represents m s
SameOutcome undefined undefined = Unit
SameOutcome unfinished unfinished = Unit
SameOutcome _ _ = ⊥

pub not_reserved : (id : ℕ) → reserved id ≡ false → (4 ≤ id) × (id < 2 ^ 15)
not_reserved id h = ground arith

first_free-ext :
    (f g : ℕ → ℕ) (n id : ℕ)
    → ((j : ℕ) → id ≤ j → j < id + n → f j ≡ g j)
    → first_free f n id ≡ first_free g n id
unfolding first_free
first_free-ext f g zero id h = refl
first_free-ext f g (suc n) id h = ground (
  arith,
  h id (omega arith) (omega arith),
  first_free-ext f g n (id + 1) (λ j lo hi. h j (omega arith) (omega arith)),
)

module _ {m : Machine} {s : Store} (r : Represents m s) where
  -- a new state for a zone of the bitmap
  Represents-stored :
      (id state : ℕ)
      → id < zone_limit
      → Represents
          (record m { free_lst = stored m.free_lst id state })
          (record s { states = update s.states id (state % 4) })
  Represents-stored id state hi = record {
    bitmap = stored-IsBitmap r.bitmap id state hi;
    coherent = r.coherent;
    zones = r.zones;
    states = λ j lo hj. ground (arith, state_of-stored r.bitmap id state j hi, r.states j lo hj);
    world = r.world;
  }

  -- new contents for a zone
  Represents-written :
      (id : ℕ) (zone : Zone)
      → 4 ≤ id
      → id < 2 ^ 15
      → Represents
          (record m { drive = write_zone m.drive id zone })
          (record s { zones = update s.zones id zone })
  Represents-written id zone lo hi =
      let w = write_zone-Writes id zone r.coherent lo hi in
      record {
        bitmap = r.bitmap;
        coherent = w.coherent;
        zones = λ j lj hj. ground (arith, w.zones j hj, r.zones j lj hj);
        states = r.states;
        world = r.world;
      }

  Represents-read :
      (id : ℕ) → 4 ≤ id → id < 2 ^ 15 → Represents (record m { drive = (read_zone m.drive id).1 }) s
  Represents-read id lo hi =
      let (zone, disk, coherent) = read_zone_lem r.coherent id hi lo in
      record {
        bitmap = r.bitmap;
        coherent = coherent;
        zones = λ j lj hj. ap (λ (d : Disk). zone_at d j) disk ∙ r.zones j lj hj;
        states = r.states;
        world = r.world;
      }

  Represents-world :
      (w w' : World) → w ≡ w' → Represents (record m { world = w }) (record s { world = w' })
  Represents-world w w' e = record {
    bitmap = r.bitmap;
    coherent = r.coherent;
    zones = r.zones;
    states = r.states;
    world = e;
  }

first_free-Represents :
    {m : Machine} {s : Store}
    → Represents m s
    → first_free (state_of m.free_lst) zones_tracked 4 ≡ first_free s.states zones_tracked 4
first_free-Represents {m} {s} r =
    first_free-ext (state_of m.free_lst) s.states zones_tracked 4
      (λ j lo hi. r.states j lo (omega arith))

-- From corresponding states, a program has the same result on the allocator as on the
-- specification, or fails in the same way, and leaves states that correspond.
pub run_alloc-run :
    {A : Type 0} (p : Prog A) (m : Machine) (s : Store)
    → Represents m s
    → SameOutcome (run_alloc p m) (run p s)
unfolding run_alloc run
run_alloc-run (pure a) m s r = (refl, r)
run_alloc-run fault m s r = tt
run_alloc-run out_of_fuel m s r = tt
run_alloc-run (on_state id next) m s r = elim (Bool-cases (reserved id)) [
  | inl held ↦
      rw (held, get_state-reserved m.free_lst id held, run_alloc)
        (run_alloc-run (next f_occupied) m s r)
  | inr open_ ↦
      let (lo, hi) = not_reserved id open_ in
      elim (dec_lt id zone_limit) [
        | yes p ↦
            rw
              (
                open_,
                get_state-in r.bitmap id lo p,
                r.states id lo p,
                lt→ltb id zone_limit p,
                run_alloc,
              )
              (run_alloc-run (next (s.states id)) m s r)
        | no p ↦
            rw
              (
                open_,
                get_state-out r.bitmap id (omega arith) hi,
                ltb_ge id zone_limit (omega arith),
                run_alloc,
              )
              tt
      ]
]
run_alloc-run (on_free_id state next) m s r =
    rw (get_free_id-first_free r.bitmap state, first_free-Represents r, run_alloc)
      (elim (Option-cases (first_free s.states zones_tracked 4)) [
        | inl full ↦ rw (full, run) tt
        | inr (id, found) ↦
            let (lowest, hi) = first_free_sound s.states zones_tracked 4 id found in
            rw (found, run)
              (run_alloc-run (next id) (record m { free_lst = stored m.free_lst id state })
                (record s { states = update s.states id (state % 4) })
                (Represents-stored r id state (omega arith)))
      ])
run_alloc-run (on_release id next) m s r = elim (Bool-cases (reserved id)) [
  | inl held ↦
      rw (held, set_free_id-set_state, set_state-reserved m.free_lst id unoccupied held, run_alloc)
        (run_alloc-run next m s r)
  | inr open_ ↦
      let (lo, hi) = not_reserved id open_ in
      elim (dec_lt id zone_limit) [
        | yes p ↦
            rw
              (
                open_,
                set_free_id-set_state,
                set_state-in r.bitmap id unoccupied lo p,
                lt→ltb id zone_limit p,
                run_alloc,
              )
              (run_alloc-run next (record m { free_lst = stored m.free_lst id unoccupied })
                (record s { states = update s.states id unoccupied })
                (Represents-stored r id unoccupied p))
        | no p ↦
            rw
              (
                open_,
                set_free_id-set_state,
                set_state-out r.bitmap id unoccupied (omega arith) hi,
                ltb_ge id zone_limit (omega arith),
                run_alloc,
              )
              tt
      ]
]
run_alloc-run (on_read id next) m s r = elim (Bool-cases (reserved id)) [
  | inl held ↦ rw (held, read_zone-reserved r.coherent id held) (run_alloc-run (next none) m s r)
  | inr open_ ↦
      let (lo, hi) = not_reserved id open_ in
      let (zone, disk, coherent) = read_zone_lem r.coherent id hi lo in
      rw (open_, zone, r.zones id lo hi)
        (run_alloc-run (next (some (s.zones id))) (record m { drive = (read_zone m.drive id).1 }) s
          (Represents-read r id lo hi))
]
run_alloc-run (on_write id zone next) m s r = elim (Bool-cases (reserved id)) [
  | inl held ↦ rw (held, write_zone-reserved m.drive id zone held) (run_alloc-run next m s r)
  | inr open_ ↦
      let (lo, hi) = not_reserved id open_ in
      rw open_ (
        run_alloc-run next (record m { drive = write_zone m.drive id zone })
          (record s { zones = update s.zones id zone }) (Represents-written r id zone lo hi))
]
run_alloc-run (on_time next) m s r = rw r.world (
    run_alloc-run (next (s.world.clock 0)) (record m { world = tick s.world })
      (record s { world = tick s.world }) (Represents-world r (tick s.world) (tick s.world) refl))
run_alloc-run (on_stray next) m s r = rw r.world (
    run_alloc-run (next (s.world.strays 0)) (record m { world = past_stray s.world })
      (record s { world = past_stray s.world })
      (Represents-world r (past_stray s.world) (past_stray s.world) refl))
run_alloc-run (on_recv next) m s r =
    let (msg, sock) = get_msg s.world.sock in
    let w : World = record (s.world) { sock = sock } in
    rw r.world (
      run_alloc-run (next msg) (record m { world = w }) (record s { world = w })
        (Represents-world r w w refl))
run_alloc-run (on_send msg next) m s r =
    let w : World = record (s.world) { sock = send_msg s.world.sock msg } in
    rw r.world (
      run_alloc-run next (record m { world = w }) (record s { world = w })
        (Represents-world r w w refl))
