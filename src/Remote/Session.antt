-- ===== src/Remote/Session.antt =====
-- Whole sessions of a server with the disk manager, from the start of both to their end.
use cs356_mini_file_system.Server.Interpret.{interpret}
use cs356_mini_file_system.Server.Whole.{interpret-WritesWhole}
use cs356_mini_file_system.Paths.{path_init}
use cs356_mini_file_system.Alloc.Bitmap.{d_occupied, set_state, unoccupied}
use cs356_mini_file_system.Remote.{
  Memory, alloc_final, alloc_init, format, format_session, fresh, run_remote, server_main, session,
}
use cs356_mini_file_system.Base.{
  Option-cases, [], ap, arith, if◌then◌else◌, inl, inr, none, refl, replicate, some, subst, sym, ℕ,
  ◌==◌, ◌∙◌, ◌≡◌,
}
use cs356_mini_file_system.Wire.{Wire, done}
use cs356_mini_file_system.DiskMgr.{File}
use cs356_mini_file_system.DiskMgr.Refine.{disk_of, split_zones}
use cs356_mini_file_system.Alloc.Bitmap.Laws.{IsBitmap, state_of}
use cs356_mini_file_system.Alloc.Cache.Coherence.{IsCoherent}
use cs356_mini_file_system.Alloc.Cache.Fetch.{Fetches, get_block-Fetches}
use cs356_mini_file_system.Alloc.Cache.Zones.{zone_at}
use cs356_mini_file_system.Alloc.Machine.{Machine, run_alloc}
use cs356_mini_file_system.Alloc.Machine.Refine.{Represents, SameOutcome, run_alloc-run}
use cs356_mini_file_system.Alloc.Startup.Persist.{
  IsCoherent-free_cache, empty_map, format-Represents,
}
use cs356_mini_file_system.Store.Spec.{Store, World, run}
use cs356_mini_file_system.Store.Whole.{WritesWhole}
use cs356_mini_file_system.Remote.Serves.{Serves}
use cs356_mini_file_system.Remote.Cache.{
  Agrees, Ends, IsBlock, get_block-Serves, memory, send_block-Serves,
}
use cs356_mini_file_system.Remote.Run.{EndsAs, run_remote-EndsAs}
use cs356_mini_file_system.Remote.Shutdown.{Serves-Shuts, Shuts, Stored, alloc_final-Shuts}
use cs356_mini_file_system.Store.Prog.{Outcome, Prog, ok, undefined, unfinished}
use cs356_mini_file_system.Alloc.Cache.{
  Block, Disk, free_cache, new_block, write_block, get_block as get_cached,
}
use cs356_mini_file_system.Alloc.Startup.{
  read_map, alloc_init as init_cached, format as format_cached,
}

-- a process that starts, with the disk file as its disk of blocks
abbrev started : File → World → Machine
started file world = record {
  free_lst = empty_map;
  drive = free_cache (record { cache = []; disk = disk_of file });
  world = world;
}

started-IsCoherent : (file : File) (world : World) → IsCoherent (started file world).drive
unfolding split_zones
started-IsCoherent file world =
    IsCoherent-free_cache (record { cache = []; disk = disk_of file }) (λ c s. refl)

abbrev booted : File → World → Machine
booted file world = init_cached (started file world)

module _ (file : File) (world : World) where
  fetches : Fetches (started file world).drive 0 (get_cached (started file world).drive 0)
  fetches = get_block-Fetches 0 (started-IsCoherent file world) (omega arith)

  booted-disk : (booted file world).drive.disk ≡ disk_of file
  unfolding init_cached free_cache
  booted-disk = fetches.disk

  booted-free_lst : (booted file world).free_lst ≡ read_map (disk_of file 0 0)
  unfolding init_cached free_cache
  booted-free_lst = ap (λ (b : Block). read_map b.zones) fetches.block

  booted-IsCoherent : IsCoherent (booted file world).drive
  unfolding init_cached
  booted-IsCoherent = fetches.coherent

  booted-Agrees : Agrees (booted file world).drive.disk file
  booted-Agrees c s c_in s_in = ap (λ (k : Disk). k c s) booted-disk

  alloc_init-Serves :
      {A : Type 0} (next : Memory → Wire A)
      → Serves (alloc_init (fresh world) next) file (next (memory (booted file world))) file
  unfolding alloc_init init_cached free_cache
  alloc_init-Serves next =
      get_block-Serves (started file world).drive 0 _ (λ c s c_in s_in. refl) (omega arith)

-- A machine that has started on a disk file which holds a store stands for that store.
booted-Represents : (file : File) (s : Store) → Stored file s → Represents (booted file s.world) s
booted-Represents file s h = record {
  bitmap = subst IsBitmap (sym (booted-free_lst file s.world)) h.bitmap;
  coherent = booted-IsCoherent file s.world;
  zones = λ id lo hi. ap (λ (k : Disk). zone_at k id) (booted-disk file s.world) ∙ h.zones id lo hi;
  states =
      λ id lo hi. ap (λ lst. state_of lst id) (booted-free_lst file s.world) ∙ h.states id lo hi;
  world = world_lem;
}
  where
    world_lem : (booted file s.world).world ≡ s.world
    world_lem = unfold init_cached in refl

-- A program that ends on the store ends on a machine that stands for it.
SameOutcome-ok :
    {A : Type 0} (o : Outcome Machine A) (a : A) (s : Store)
    → SameOutcome o (ok a s)
    → (m : Machine) × (o ≡ ok a m) × Represents m s
SameOutcome-ok (ok b m) a s h = (m, ap (λ c. ok c m) h.0, h.1)
SameOutcome-ok undefined a s h = absurd h
SameOutcome-ok unfinished a s h = absurd h

new_block-IsBlock : IsBlock new_block
new_block-IsBlock = record {
  zones = (refl, (refl, (refl, (refl, (refl, (refl, (refl, (refl, tt))))))));
  count = refl;
  c_in = omega arith;
  s_in = omega arith;
}

format-Ends :
    {A : Type 0} (file : File) (world : World) (m : Machine)
    → format_cached (booted file world) ≡ some m
    → (next : Memory → Wire A)
    → Ends (format (memory (booted file world)) next) file (next (memory m)) m.drive.disk
unfolding format format_cached free_cache
format-Ends file world m formed next =
    elim (Option-cases (set_state (replicate 256 0) 4 d_occupied)) [
      | inl bad ↦ absurd (not_formed bad)
      | inr (lst, e) ↦
          let b = booted file world in
          let m' : Machine = record b {
            free_lst = lst;
            drive =
                free_cache
                  (record { cache = b.drive.cache; disk = write_block b.drive.disk new_block });
          } in
          let is_some : format_cached b ≡ some m' = rw (e, format_cached) in
          let same : m' ≡ m = cc in
          subst (λ k. Ends (format (memory b) next) file (next (memory k)) k.drive.disk) same
            (rw (e, format)
              (send_block-Serves new_block (next (memory m')) (booted-Agrees file world)
                new_block-IsBlock))
    ]
  where
    not_formed : set_state (replicate 256 0) 4 d_occupied ≡ none → ⊥
    not_formed bad = cc

-- If the disk file holds a store and a program that writes whole zones ends on that store, then
-- the server that starts, runs the program and shuts down, and the disk manager, which answers
-- enough requests, both end: the server with the program's result, and the disk manager with a
-- disk file that holds the store behind the program.
pub session-Shuts :
    {R : Type 0} (program : Prog R) (s : Store) (file : File)
    → WritesWhole program
    → Stored file s
    → (result : R) (s' : Store) → run program s ≡ ok result s'
    → Shuts (session program s.world) file (done (result, s'.world)) s'
unfolding session
session-Shuts {R = R} program s file writes h result s' e =
    let m = booted file s.world in
    let r = booted-Represents file s h in
    let (m', ran, r') =
      SameOutcome-ok (run_alloc program m) result s'
        (subst (SameOutcome (run_alloc program m)) e (run_alloc-run program m s r)) in
    let finish = λ (a : R) (k : Memory). alloc_final k (λ k'. done (a, k'.world)) in
    let (file', served, agrees) =
      subst (EndsAs (run_remote program (memory m) finish) file finish) ran
        (run_remote-EndsAs finish program m file writes r.coherent (booted-Agrees file s.world)) in
    Serves-Shuts (alloc_init-Serves file s.world _) (
      Serves-Shuts served (
        subst (λ (w : World). Shuts (finish result (memory m')) file' (done (result, w)) s')
          r'.world (alloc_final-Shuts m' s' file' r' agrees (λ k'. done (result, k'.world)))))

-- the store of a formatted disk file
abbrev pub cleared : File → World → Store
cleared file world = record {
  zones = zone_at (write_block (disk_of file) new_block);
  states = λ id. if id == 4 then d_occupied else unoccupied;
  world = world;
}

formed_as :
    (file : File) (world : World)
    → (m : Machine) × (format_cached (booted file world) ≡ some m)
      × Represents m (cleared file world)
unfolding init_cached
formed_as file world =
    let (m, formed, r) = format-Represents (booted file world) (booted-IsCoherent file world) in
    (
      m,
      formed,
      subst
          (λ (k : Disk). Represents m (record {
            zones = zone_at (write_block k new_block);
            states = λ id. if id == 4 then d_occupied else unoccupied;
            world = world;
          }))
          (booted-disk file world) r,
    )

-- From any disk file, the process of src/format.c and the disk manager both end, and the disk file
-- then holds a store with the empty bitmap but for the root directory, whose zone is cleared.
pub format_session-Shuts :
    (file : File) (world : World)
    → Shuts (format_session world) file (done world) (cleared file world)
unfolding format_session init_cached
format_session-Shuts file world =
    let m = booted file world in
    let (m', formed, r) = formed_as file world in
    let (file', served, agrees) =
      format-Ends file world m' formed (λ k. alloc_final k (λ k'. done k'.world)) in
    Serves-Shuts (alloc_init-Serves file world _) (
      Serves-Shuts served (
        subst
          (λ (w : World).
            Shuts (alloc_final (memory m') (λ k'. done k'.world)) file' (done w)
              (cleared file world))
          r.world (alloc_final-Shuts m' (cleared file world) file' r agrees (λ k'. done k'.world))))

-- If the disk file holds a store and `interpret` ends on that store with a client's messages, then
-- the server, from its start to its shutdown, and the disk manager, for some number of requests,
-- both end: what the server has sent the client is what `interpret` sends on the store, and the
-- disk file that the disk manager leaves holds the store behind `interpret`.
pub server_main-Shuts :
    (requests fuel : ℕ) (s : Store) (file : File)
    → Stored file s
    → (s' : Store) → run (interpret requests fuel path_init) s ≡ ok tt s'
    → Shuts (server_main requests fuel s.world) file (done (tt, s'.world)) s'
unfolding server_main
server_main-Shuts requests fuel s file h s' e =
    session-Shuts (interpret requests fuel path_init) s file
      (interpret-WritesWhole requests fuel path_init) h tt s' e
