-- ===== src/Remote/Run.antt =====
-- Programs on src/alloc.c over the connection, against programs on a disk of blocks.
use cs356_mini_file_system.Alloc.Cache.Write.{write_zone-Writes, write_zone-reserved}
use cs356_mini_file_system.Alloc.Machine.Refine.{not_reserved}
use cs356_mini_file_system.Base.{
  Bool-cases, List, Option, Option-cases, [], arith, get_or, inl, inr, length, none, refl, some,
  subst, suc, sym, zero, ℕ, ◌%◌, ◌<◌, ◌^◌, ◌∷◌, ◌≡◌, ◌⊎◌,
}
use cs356_mini_file_system.Utils.Socket.{get_msg, send_msg}
use cs356_mini_file_system.Wire.{Wire}
use cs356_mini_file_system.DiskMgr.{File}
use cs356_mini_file_system.DiskMgr.Refine.{IsZones, disk_of, disk_of-IsZones}
use cs356_mini_file_system.Alloc.Bitmap.{get_free_id, get_state, reserved, set_free_id}
use cs356_mini_file_system.Alloc.Cache.{
  Disk, Drive, Zone, get_c, get_s, read_zone, write_zone, zero_zone,
}
use cs356_mini_file_system.Alloc.Cache.Coherence.{IsCoherent}
use cs356_mini_file_system.Alloc.Cache.Zones.{read_zone-reserved, read_zone_lem, zone_at}
use cs356_mini_file_system.Alloc.Machine.{Machine, run_alloc}
use cs356_mini_file_system.Store.Spec.{past_stray, tick}
use cs356_mini_file_system.Store.Whole.{WritesWhole, Yields}
use cs356_mini_file_system.Remote.Serves.{Serves, Serves-refl, Serves-trans}
use cs356_mini_file_system.Remote.Cache.{Agrees, Ends, memory, read_zone-Serves, write_zone-Serves}
use cs356_mini_file_system.Store.Prog.{
  Outcome, Prog, fault, ok, on_free_id, on_read, on_recv, on_release, on_send, on_state, on_stray,
  on_time, on_write, out_of_fuel, pure, undefined, unfinished,
}
use cs356_mini_file_system.Remote.{Memory, run_remote}

-- the same result as the run on the disk of blocks, with a disk file that agrees with the disk
abbrev pub EndsAs :
    {A R : Type 0} → Wire A → File → (R → Memory → Wire A) → Outcome Machine R → Type 0
EndsAs c file next (ok a m) = Ends c file (next a (memory m)) m.drive.disk
EndsAs c file next undefined = Unit
EndsAs c file next unfinished = Unit

EndsAs-trans :
    {A R : Type 0} (c d : Wire A) (file file' : File) (next : R → Memory → Wire A)
    (o : Outcome Machine R)
    → Serves c file d file'
    → EndsAs d file' next o
    → EndsAs c file next o
EndsAs-trans c d file file' next (ok a m) s h = (h.0, Serves-trans s h.1, h.2)
EndsAs-trans c d file file' next undefined s h = tt
EndsAs-trans c d file file' next unfinished s h = tt

zone_at-whole :
    (disk : Disk) (file : File) (id : ℕ)
    → Agrees disk file
    → id < 2 ^ 15
    → length (zone_at disk id) ≡ 64
unfolding zone_at
zone_at-whole disk file id agrees hi =
    rw (agrees (get_c id) (get_s id) (omega arith) (omega arith)) (
      zones_whole (disk_of file (get_c id) (get_s id)) (id % 8)
        (disk_of-IsZones file (get_c id) (get_s id)))
  where
    zones_whole :
        (zones : List Zone) (i : ℕ) → IsZones zones → length (get_or zones i zero_zone) ≡ 64
    zones_whole [] i h = refl
    zones_whole (z ∷ zones) zero h = h.0
    zones_whole (z ∷ zones) (suc i) h = zones_whole zones i h.1

-- What `read_zone` gives: nothing, or a zone of 64 bytes; the disk is kept, and the coherence.
record Reads (d : Drive) (out : Option Zone × Drive) : Type 0 where
  zone : (out.0 ≡ none) ⊎ ((z : Zone) × (out.0 ≡ some z) × (length z ≡ 64))
  disk : out.1.disk ≡ d.disk
  coherent : IsCoherent out.1

read_zone-Reads :
    (d : Drive) (file : File) (id : ℕ)
    → IsCoherent d
    → Agrees d.disk file
    → Reads d (read_zone d id)
read_zone-Reads d file id v agrees = elim (Bool-cases (reserved id)) [
  | inl held ↦
      rw (read_zone-reserved v id held) (record { zone = inl refl; disk = refl; coherent = v })
  | inr open_ ↦
      let (lo, hi) = not_reserved id open_ in
      let (zone, disk, coherent) = read_zone_lem v id hi lo in
      record {
        zone = inr (zone_at d.disk id, zone, zone_at-whole d.disk file id agrees hi);
        disk = disk;
        coherent = coherent;
      }
]

write_zone-IsCoherent :
    (d : Drive) (id : ℕ) (zone : Zone) → IsCoherent d → IsCoherent (write_zone d id zone)
write_zone-IsCoherent d id zone v = elim (Bool-cases (reserved id)) [
  | inl held ↦ rw (write_zone-reserved d id zone held) v
  | inr open_ ↦ let (lo, hi) = not_reserved id open_ in (write_zone-Writes id zone v lo hi).coherent
]

WritesWhole-read :
    {R : Type 0} (d : Drive) (file : File) (id : ℕ) (more : Option Zone → Prog R)
    → IsCoherent d
    → Agrees d.disk file
    → WritesWhole (on_read id more)
    → WritesWhole (more (read_zone d id).0)
unfolding Yields
WritesWhole-read d file id more v agrees w = elim (read_zone-Reads d file id v agrees).zone [
  | inl e ↦ rw e w.0
  | inr (z, e, full) ↦ rw e (w.1 z full)
]

module _ {A R : Type 0} (next : R → Memory → Wire A) where
  -- From a coherent cache and a disk file that agrees with the disk of blocks, a program that writes
  -- whole zones has the same result over the connection, and ends with such a file.
  pub run_remote-EndsAs :
      (p : Prog R) (m : Machine) (file : File)
      → WritesWhole p
      → IsCoherent m.drive
      → Agrees m.drive.disk file
      → EndsAs (run_remote p (memory m) next) file next (run_alloc p m)
  unfolding run_remote run_alloc Yields
  run_remote-EndsAs (pure a) m file w v agrees = (file, Serves-refl _ file, agrees)
  run_remote-EndsAs fault m file w v agrees = tt
  run_remote-EndsAs out_of_fuel m file w v agrees = tt
  run_remote-EndsAs (on_state id more) m file w v agrees =
      elim (Option-cases (get_state m.free_lst id)) [
        | inl bad ↦ rw (bad, run_alloc) tt
        | inr (state, e) ↦
            rw (e, run_alloc, run_remote) (run_remote-EndsAs (more state) m file (w state) v agrees)
      ]
  run_remote-EndsAs (on_free_id state more) m file w v agrees =
      elim (Option-cases (get_free_id m.free_lst state)) [
        | inl bad ↦ rw (bad, run_alloc) tt
        | inr ((id, lst), e) ↦
            rw (e, run_alloc, run_remote)
              (run_remote-EndsAs (more id) (record m { free_lst = lst }) file (w id) v agrees)
      ]
  run_remote-EndsAs (on_release id more) m file w v agrees =
      elim (Option-cases (set_free_id m.free_lst id)) [
        | inl bad ↦ rw (bad, run_alloc) tt
        | inr (lst, e) ↦
            rw (e, run_alloc, run_remote)
              (run_remote-EndsAs more (record m { free_lst = lst }) file w v agrees)
      ]
  run_remote-EndsAs (on_read id more) m file w v agrees =
      EndsAs-trans _ _ file file next _ (read_zone-Serves m file id _ agrees) (
        run_remote-EndsAs (more (read_zone m.drive id).0)
          (record m { drive = (read_zone m.drive id).1 }) file
          (WritesWhole-read m.drive file id more v agrees w)
          (read_zone-Reads m.drive file id v agrees).coherent
          (subst (λ (d : Disk). Agrees d file) (sym (read_zone-Reads m.drive file id v agrees).disk)
            agrees))
  run_remote-EndsAs (on_write id zone more) m file w v agrees =
      let (file', served, agrees') =
        write_zone-Serves m file id zone (λ m'. run_remote more m' next) v agrees w.0 in
      EndsAs-trans _ _ file file' next _ served (
        run_remote-EndsAs more (record m { drive = write_zone m.drive id zone }) file' w.1
          (write_zone-IsCoherent m.drive id zone v) agrees')
  run_remote-EndsAs (on_time more) m file w v agrees =
      run_remote-EndsAs (more (m.world.clock 0)) (record m { world = tick m.world }) file (w _) v
        agrees
  run_remote-EndsAs (on_stray more) m file w v agrees =
      run_remote-EndsAs (more (m.world.strays 0)) (record m { world = past_stray m.world }) file
        (w _) v agrees
  run_remote-EndsAs (on_recv more) m file w v agrees =
      let (msg, sock) = get_msg m.world.sock in
      run_remote-EndsAs (more msg) (record m { world = record (m.world) { sock = sock } }) file
        (w msg) v agrees
  run_remote-EndsAs (on_send msg more) m file w v agrees =
      run_remote-EndsAs more
        (record m { world = record (m.world) { sock = send_msg m.world.sock msg } }) file w v agrees
