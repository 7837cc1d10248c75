-- ===== src/Fs/Dir/AddSub.antt =====
-- src/fs_lib.c: `add_sub` on a directory of one zone or of several.
use cs356_mini_file_system.Store.Prog.{Prog, ok}
use cs356_mini_file_system.Base.{
  ==_iff, ==_ne, List, [], arith, dec_lt, false, length, true, ℕ, ◌++◌, ◌+◌, ◌<◌, ◌^◌, ◌∙◌, ◌∷◌,
  ◌≡◌, ◌≢◌, ◌≤◌,
}
use cs356_mini_file_system.Utils.Text.{Text}
use cs356_mini_file_system.Layout.{Dentry, dentry_subs}
use cs356_mini_file_system.Layout.RoundTrip.{DentryFits, to_dentry-of_dentry}
use cs356_mini_file_system.Store.Spec.{Store, run}
use cs356_mini_file_system.Store.Run.{IsZone-reserved}
use cs356_mini_file_system.Fs.Dir.{add_sub, add_sub_cont, visit_dentry}
use cs356_mini_file_system.Fs.Dir.Subs.{Entry, entries, packed, taken, taken-le}
use cs356_mini_file_system.Fs.Dir.Chain.{Chain, has}
use cs356_mini_file_system.Fs.Dir.Add.{CanAdd, ne_of_has}
use cs356_mini_file_system.Fs.Dir.Whole.{
  Added, Adds, Directory, HoldsDir, add_large, add_small_grown, add_small_in_place, large, small,
  ticked,
}

-- the first zone with the new time, as `add_sub` goes on with it
abbrev stamped : Store → Dentry → Dentry
stamped s d = record d { time = s.world.clock 0 }

-- asking for the time changes neither zones nor states
Adds-ticked :
    (p : Prog (Unit {0})) (s : Store) {id fresh : ℕ} {ids : List ℕ} {es : List Entry}
    → Adds p (ticked s) id ids es fresh
    → (s' : Store) × (run p (ticked s) ≡ ok tt s') × Added s s' id ids es fresh
Adds-ticked p s (s', e, a) = (
  s',
  e,
  record {
    zone_ids = a.zone_ids;
    directory = a.directory;
    zones_kept = a.zones_kept;
    states_kept = a.states_kept;
    sock_kept = a.sock_kept;
  },
)

module _ (s : Store) {id eid fresh : ℕ} {name : Text} (c : CanAdd s eid name fresh) (d : Dentry)
    (h : HoldsDir s.zones id d) (time_fits : s.world.clock 0 < 2 ^ 64) (fuel : ℕ) where
  abbrev visit : Prog (Unit {0})
  visit = visit_dentry (λ q. add_sub_cont fuel q eid name) id (stamped s d) eid name

  add_sub-visit : run (add_sub fuel id eid name) s ≡ run visit (ticked s)
  unfolding add_sub run
  add_sub-visit = rw (IsZone-reserved h.zone, h.bytes, to_dentry-of_dentry d h.fits)

  stamped-DentryFits : DentryFits (stamped s d)
  stamped-DentryFits = record {
    parent = h.fits.parent;
    mode = h.fits.mode;
    owner = h.fits.owner;
    count = h.fits.count;
    subs = h.fits.subs;
    next = h.fits.next;
    time = time_fits;
  }

  c_ticked : CanAdd (ticked s) eid name fresh
  c_ticked = record {
    valid_name = c.valid_name;
    nonzero = c.nonzero;
    short = c.short;
    free = c.free;
  }

  visit-small :
      d.next ≡ 0
      → packed d.subs ≡ true
      → has fresh (id ∷ []) ≡ false
      → Adds visit (ticked s) id (id ∷ []) (entries d.subs ++ (eid, name) ∷ []) fresh
  unfolding visit_dentry
  visit-small e p out =
      rw ((==_iff d.next 0).1 e, visit_dentry)
        (elim (dec_lt (taken d.subs) dentry_subs) [
          | yes room ↦
              add_small_in_place (ticked s) c_ticked (stamped s d) stamped-DentryFits h.zone e p
                room
          | no no_room ↦
              let full : taken d.subs ≡ dentry_subs =
                omega (arith, taken-le d.subs, h.fits.count) in
              add_small_grown (ticked s) c_ticked (stamped s d) stamped-DentryFits h.zone e full
                (ne_of_has fresh id [] out).0
        ])

  visit-large :
      {ids : List ℕ} {es : List Entry}
      → d.next ≢ 0
      → taken d.subs ≡ dentry_subs
      → has id ids ≡ false
      → Chain s.zones d.next ids es
      → has fresh (id ∷ ids) ≡ false
      → length ids ≤ fuel
      → Adds visit (ticked s) id (id ∷ ids) ((entries d.subs ++ es) ++ (eid, name) ∷ []) fresh
  unfolding visit_dentry
  visit-large nz full out chain apart enough =
      rw (==_ne d.next 0 nz, visit_dentry)
        (add_large (ticked s) c_ticked (stamped s d) stamped-DentryFits h.zone fuel nz full out
          chain apart enough)

-- For a directory, a name of at most nine bytes, an id that is not 0, a free zone outside the
-- directory and a time of 64 bits, `add_sub` ends within the fuel of as many zones as the
-- directory has, appends the entry to those of the directory, and changes no zone and no state but
-- those of the directory's zones and of the free zone.
pub add_sub-Adds :
    (fuel : ℕ) (s : Store) {id eid fresh : ℕ} {name : Text} {ids : List ℕ} {es : List Entry}
    → Directory s.zones id ids es
    → CanAdd s eid name fresh
    → s.world.clock 0 < 2 ^ 64
    → has fresh ids ≡ false
    → length ids ≤ fuel + 1
    → Adds (add_sub fuel id eid name) s id ids (es ++ (eid, name) ∷ []) fresh
add_sub-Adds fuel s (small d h e p) c t out enough =
    let (s', r, a) = Adds-ticked (visit s c d h t fuel) s (visit-small s c d h t fuel e p out) in
    (s', add_sub-visit s c d h t fuel ∙ r, a)
add_sub-Adds fuel s (large d h nz full apart chain) c t out enough =
    let (s', r, a) =
      Adds-ticked (visit s c d h t fuel) s
        (visit-large s c d h t fuel nz full apart chain out (omega arith)) in
    (s', add_sub-visit s c d h t fuel ∙ r, a)
