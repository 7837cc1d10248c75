-- ===== src/Store/Run.antt =====
-- One step of a run on the specification, for a zone of the disk.
use cs356_mini_file_system.Base.{
  List, Option, arith, false, lt→ltb, refl, some, ℕ, ◌%◌, ◌<◌, ◌^◌, ◌∙◌, ◌≡◌, ◌≤◌,
}
use cs356_mini_file_system.Alloc.Bitmap.{reserved, unoccupied}
use cs356_mini_file_system.Alloc.Bitmap.Search.{first_free, first_free_sound, zones_tracked}
use cs356_mini_file_system.Alloc.Cache.{Zone}
use cs356_mini_file_system.Store.Prog.{
  Prog, ok, on_free_id, on_read, on_state, on_write, pure, write_zone,
}
use cs356_mini_file_system.Store.Spec.{Store, run, update, zone_limit}

-- the id of a zone that can be read and written
pub record IsZone (id : ℕ) : Type 0 where
  pub lo : 4 ≤ id
  pub hi : id < 2 ^ 15

pub IsZone-reserved : {id : ℕ} → IsZone id → reserved id ≡ false
IsZone-reserved z = ground arith

module _ {A : Type 0} (s : Store) where
  pub run-read :
      {id : ℕ} (next : Option (List ℕ) → Prog A)
      → IsZone id
      → run (on_read id next) s ≡ run (next (some (s.zones id))) s
  unfolding run
  run-read next z = rw (IsZone-reserved z)

  pub run-state :
      {id : ℕ} (next : ℕ → Prog A)
      → IsZone id
      → id < zone_limit
      → run (on_state id next) s ≡ run (next (s.states id)) s
  unfolding run
  run-state {id} next z h = rw (IsZone-reserved z, lt→ltb id zone_limit h)

  pub run-write :
      {id : ℕ} (zone : Zone) (next : Prog A)
      → IsZone id
      → run (on_write id zone next) s ≡ run next (record s { zones = update s.zones id zone })
  unfolding run
  run-write zone next z = rw (IsZone-reserved z)

  pub run-free_id :
      {id : ℕ} (state : ℕ) (next : ℕ → Prog A)
      → first_free s.states zones_tracked 4 ≡ some id
      → run (on_free_id state next) s
        ≡ run (next id) (record s { states = update s.states id (state % 4) })
  unfolding run
  run-free_id state next h = rw (h, run)

-- The zone that the search finds is a zone of the disk, and was free.
pub first_free-IsZone :
    (states : ℕ → ℕ) (id : ℕ)
    → first_free states zones_tracked 4 ≡ some id
    → IsZone id × (states id ≡ unoccupied)
first_free-IsZone states id h =
    let (lowest, hi) = first_free_sound states zones_tracked 4 id h in
    (record { lo = lowest.above; hi = omega arith }, lowest.free)

pub run-pure : {A : Type 0} (a : A) (s : Store) → run (pure a) s ≡ ok a s
unfolding run
run-pure a s = refl

-- a write at the end of a program
pub run-write_zone :
    (s : Store) {id : ℕ} (zone : Zone)
    → IsZone id
    → run (write_zone id zone) s ≡ ok tt (record s { zones = update s.zones id zone })
run-write_zone s zone z = run-write s zone (pure tt) z ∙ run-pure tt _
