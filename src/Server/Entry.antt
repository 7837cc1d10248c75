-- ===== src/Server/Entry.antt =====
-- src/server.c: the part of `mk_file` and `mk_dir` that adds an entry to a directory.
use cs356_mini_file_system.Fs.Data.{not_negative}
use cs356_mini_file_system.Server.Refuse.{not_negative-free}
use cs356_mini_file_system.Store.Bind.{run-bind_ok}
use cs356_mini_file_system.Server.{make_in, with_new_id, with_state}
use cs356_mini_file_system.Fs.Dir.AddSub.{add_sub-Adds}
use cs356_mini_file_system.Fs.Dir.Append.{ne_of_mem}
use cs356_mini_file_system.Fs.Dir.Add.{CanAdd}
use cs356_mini_file_system.Fs.Dir.{add_sub}
use cs356_mini_file_system.Store.Run.{
  IsZone, IsZone-reserved, first_free-IsZone, run-free_id, run-pure, run-state,
}
use cs356_mini_file_system.Store.Prog.{Prog, ok, pure, ◌>>◌}
use cs356_mini_file_system.Store.Spec.{Store, run, tick, update, zone_limit}
use cs356_mini_file_system.Base.{
  ==_ne, ==_self, Bool, List, [], ap, arith, false, length, refl, some, sym, true, ℕ, ◌%◌, ◌++◌,
  ◌+◌, ◌<◌, ◌==◌, ◌^◌, ◌∙◌, ◌∷◌, ◌≡◌, ◌≢◌, ◌≤◌,
}
use cs356_mini_file_system.Utils.Text.{Text}
use cs356_mini_file_system.Alloc.Cache.{Zone}
use cs356_mini_file_system.Alloc.Bitmap.{d_occupied, unoccupied}
use cs356_mini_file_system.Alloc.Bitmap.Search.{first_free, zones_tracked}
use cs356_mini_file_system.Fs.Dir.Subs.{Entry}
use cs356_mini_file_system.Fs.Dir.Fill.{IsName}
use cs356_mini_file_system.Fs.Dir.Chain.{frame, has}
use cs356_mini_file_system.Fs.Dir.Whole.{Adds, Directory, large, small}

pub record Made (s s' : Store) (p_id : ℕ) (ids : List ℕ) (es : List Entry) (id fresh st : ℕ)
    (bytes : Zone) (name : Text) : Type 0 where
  pub zone_ids : List ℕ
  pub directory : Directory s'.zones p_id zone_ids (es ++ (id, name) ∷ [])
  pub zone : s'.zones id ≡ bytes
  pub state : s'.states id ≡ st
  pub zones_kept : (j : ℕ) → j ≢ id → j ≢ fresh → has j ids ≡ false → s'.zones j ≡ s.zones j
  pub states_kept : (j : ℕ) → j ≢ id → j ≢ fresh → s'.states j ≡ s.states j
  pub sock_kept : s'.world.sock ≡ s.world.sock

-- The directory `p_id` with the zones `ids` and the entries `es` can take the name: `id` is the zone
-- that is free for it, and `fresh` the next free one.
pub record CanMake (s : Store) (p_id : ℕ) (ids : List ℕ) (es : List Entry) (id fresh state : ℕ)
    (name : Text) : Type 0 where
  pub directory : Directory s.zones p_id ids es
  pub tracked : p_id < zone_limit
  pub occupied : s.states p_id ≡ d_occupied
  pub valid_name : IsName name
  pub free : first_free s.states zones_tracked 4 ≡ some id
  pub next_free : first_free (update s.states id state) zones_tracked 4 ≡ some fresh
  pub id_outside : has id ids ≡ false
  pub fresh_outside : has fresh ids ≡ false
  pub now : s.world.clock 0 < 2 ^ 64
  pub later : s.world.clock 1 < 2 ^ 64

Directory-frame :
    {zones zones' : ℕ → Zone} {id : ℕ} {ids : List ℕ} {es : List Entry}
    → Directory zones id ids es
    → ((j : ℕ) → has j ids ≡ true → zones' j ≡ zones j)
    → Directory zones' id ids es
unfolding has
Directory-frame {id} (small d h e p) same =
    small d (record { zone = h.zone; bytes = same id (rw (==_self id)) ∙ h.bytes; fits = h.fits }) e
      p
Directory-frame {id} (large {ids} d h nz full out chain) same =
    large d (record { zone = h.zone; bytes = same id (rw (==_self id)) ∙ h.bytes; fits = h.fits })
      nz full out (frame chain (λ j m. same j (ground arith)))

pub Directory-IsZone :
    {zones : ℕ → Zone} {id : ℕ} {ids : List ℕ} {es : List Entry}
    → Directory zones id ids es
    → IsZone id
Directory-IsZone (small d h e p) = h.zone
Directory-IsZone (large d h nz full out chain) = h.zone

pub run-with_state :
    (s : Store) {id : ℕ} (state : ℕ) (command : Prog Bool)
    → IsZone id
    → id < zone_limit
    → s.states id ≡ state
    → run (with_state id state command) s ≡ run command s
unfolding with_state
run-with_state s {id} state command z h e =
    run-state s (λ found. elim (found == state) [ false ↦ pure true | true ↦ command ]) z h
    ∙ rw (e, ==_self state) refl

pub run-with_new_id :
    (s : Store) {id : ℕ} (state : ℕ) (command : ℕ → Prog Bool)
    → first_free s.states zones_tracked 4 ≡ some id
    → run (with_new_id state command) s
      ≡ run (command id) (record s { states = update s.states id (state % 4) })
unfolding with_new_id
run-with_new_id s {id} state command free =
    run-free_id s state (λ new. elim (not_negative new) [ false ↦ pure true | true ↦ command new ])
      free
    ∙ rw (not_negative-free s free) refl

module _ (fuel : ℕ) (s : Store) {p_id : ℕ} {ids : List ℕ} {es : List Entry} {id fresh : ℕ}
    (state : ℕ) {name : Text} (zone_at : ℕ → List ℕ) (c : CanMake s p_id ids es id fresh state name)
    (valid : state % 4 ≡ state) (used : state ≢ unoccupied) (enough : length ids ≤ fuel + 1) where
  -- the id is taken, the time read, and the zone written
  abbrev with_zone_written : Store
  with_zone_written = record s {
    zones = update s.zones id (zone_at (s.world.clock 0));
    states = update s.states id state;
    world = tick s.world;
  }

  id-IsZone : IsZone id
  id-IsZone = (first_free-IsZone s.states id c.free).0

  fresh-ne-id : fresh ≢ id
  fresh-ne-id e =
      let (z, free) = first_free-IsZone _ fresh c.next_free in
      used (sym (ap (update s.states id state) e ∙ rw (==_self id)) ∙ free)

  can_add : CanAdd with_zone_written id name fresh
  can_add = record {
    valid_name = c.valid_name;
    nonzero = omega (arith, id-IsZone.lo);
    short = omega (arith, id-IsZone.hi);
    free = c.next_free;
  }

  pub directory : Directory with_zone_written.zones p_id ids es
  directory =
      Directory-frame c.directory (λ j m. rw (==_ne j id (ne_of_mem ids m c.id_outside)) refl)

  added : Adds (add_sub fuel p_id id name) with_zone_written p_id ids (es ++ (id, name) ∷ []) fresh
  added = add_sub-Adds fuel with_zone_written directory can_add c.later c.fresh_outside enough

  run-make_in :
      run (make_in fuel state zone_at p_id name) s
      ≡ run (do add_sub fuel p_id id name; pure false) with_zone_written
  unfolding make_in run
  run-make_in =
      run-with_state s d_occupied _ (Directory-IsZone c.directory) c.tracked c.occupied
      ∙ run-with_new_id s state _ c.free
      ∙ rw (IsZone-reserved id-IsZone, valid) refl

  pub make_in-Made :
      (s' : Store) × (run (make_in fuel state zone_at p_id name) s ≡ ok false s')
      × Made s s' p_id ids es id fresh state (zone_at (s.world.clock 0)) name
  make_in-Made =
      let (s', ran, a) = added in
      (
        s',
        run-make_in
            ∙ run-bind_ok (add_sub fuel p_id id name) (λ _. pure false) with_zone_written ran
            ∙ run-pure false s',
        record {
          zone_ids = a.zone_ids;
          directory = a.directory;
          zone = a.zones_kept id (λ e. fresh-ne-id (sym e)) c.id_outside ∙ rw (==_self id) refl;
          state = a.states_kept id (λ e. fresh-ne-id (sym e)) ∙ rw (==_self id) refl;
          zones_kept = λ j ni nf o. a.zones_kept j nf o ∙ rw (==_ne j id ni) refl;
          states_kept = λ j ni nf. a.states_kept j nf ∙ rw (==_ne j id ni) refl;
          sock_kept = a.sock_kept;
        },
      )
