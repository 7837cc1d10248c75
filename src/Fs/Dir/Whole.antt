-- ===== src/Fs/Dir/Whole.antt =====
-- src/fs_lib.c: a directory as its first zone and the chain behind it, and `add_sub` below its read.
use cs356_mini_file_system.Fs.Dir.Append.{add_sub_cont-Appends, ne_of_mem}
use cs356_mini_file_system.Store.Prog.{
  Prog, get_free_id, ok, on_free_id, on_write, write_zone, ◌>>=◌, ◌>>◌,
}
use cs356_mini_file_system.Base.{
  ==_ne, ==_self, List, [], ap, append_assoc, arith, false, fun_ext, length, length-set, refl, set,
  subst, sym, true, ℕ, ◌++◌, ◌<◌, ◌==◌, ◌∙◌, ◌∷◌, ◌≡◌, ◌≢◌, ◌≤◌,
}
use cs356_mini_file_system.Utils.Text.{Text}
use cs356_mini_file_system.Alloc.Cache.{Zone}
use cs356_mini_file_system.Alloc.Bitmap.{f_occupied}
use cs356_mini_file_system.Layout.{Dentry, dentry_subs, of_dentry, of_dir_zone}
use cs356_mini_file_system.Layout.RoundTrip.{DentryFits}
use cs356_mini_file_system.Store.Spec.{Store, World, run, tick, update}
use cs356_mini_file_system.Store.Run.{
  IsZone, first_free-IsZone, run-free_id, run-write, run-write_zone,
}
use cs356_mini_file_system.Fs.Dir.{add_sub_cont, add_to_dentry, sub_at}
use cs356_mini_file_system.Fs.Dir.Subs.{
  Entry, entries, entries-set, free_slot-taken, id_free, id_taken, packed, packed-set, taken,
}
use cs356_mini_file_system.Fs.Dir.Fill.{
  All-set, All-sub_at, entry_of-named, fill_sub-named, named, named-SubFits,
}
use cs356_mini_file_system.Fs.Dir.Chain.{Chain, Holds, frame, has, last}
use cs356_mini_file_system.Fs.Dir.Add.{
  CanAdd, entries-new_zone, ne_of_has, new_zone, new_zone-DirZoneFits, packed-new_zone,
  write_first_sub-new_zone,
}

-- the first zone of a directory holds these entries
pub record HoldsDir (zones : ℕ → Zone) (id : ℕ) (d : Dentry) : Type 0 where
  pub zone : IsZone id
  pub bytes : zones id ≡ of_dentry d
  pub fits : DentryFits d

-- The directory at `id` lies in the zones `ids` and has the entries `es`.
pub data Directory (zones : ℕ → Zone) : ℕ → List ℕ → List Entry → Type 0 where
  small :
      {id : ℕ} (d : Dentry)
      → HoldsDir zones id d
      → d.next ≡ 0
      → packed d.subs ≡ true
      → Directory zones id (id ∷ []) (entries d.subs)
  large :
      {id : ℕ} {ids : List ℕ} {es : List Entry} (d : Dentry)
      → HoldsDir zones id d
      → d.next ≢ 0
      → taken d.subs ≡ dentry_subs
      → has id ids ≡ false
      → Chain zones d.next ids es
      → Directory zones id (id ∷ ids) (entries d.subs ++ es)

-- The state after an entry was added to the directory of `ids`, which now holds `es`.
pub record Added (s s' : Store) (id : ℕ) (ids : List ℕ) (es : List Entry) (fresh : ℕ) : Type 0 where
  pub zone_ids : List ℕ
  pub directory : Directory s'.zones id zone_ids es
  pub zones_kept : (j : ℕ) → j ≢ fresh → has j ids ≡ false → s'.zones j ≡ s.zones j
  pub states_kept : (j : ℕ) → j ≢ fresh → s'.states j ≡ s.states j
  pub sock_kept : s'.world.sock ≡ s.world.sock

abbrev pub Adds : Prog (Unit {0}) → Store → ℕ → List ℕ → List Entry → ℕ → Type 0
Adds p s id ids es fresh = (s' : Store) × (run p s ≡ ok tt s') × Added s s' id ids es fresh

-- the first zone with the entry in it
abbrev pub filled_dir : Dentry → ℕ → Text → Dentry
filled_dir d eid name = record d {
  subs = set d.subs (taken d.subs) (named (sub_at d.subs (taken d.subs)) eid name);
}

-- the state when `add_sub` has asked for the time
abbrev pub ticked : Store → Store
ticked s = record s { world = tick s.world }

module _ (s : Store) {id eid fresh : ℕ} {name : Text} (c : CanAdd s eid name fresh) (d : Dentry)
    (fits : DentryFits d) (z : IsZone id) where
  add_to_dentry-filled :
      packed d.subs ≡ true
      → taken d.subs < dentry_subs
      → add_to_dentry id d eid name ≡ write_zone id (of_dentry (filled_dir d eid name))
  unfolding add_to_dentry
  add_to_dentry-filled p room = rw (
    ap (λ k. k == 0) (id_free d.subs 3 p (omega arith)),
    add_to_dentry,
    free_slot-taken 3 d.subs p (omega arith),
    fill_sub-named c.valid_name d.subs (taken d.subs) eid,
  )

  add_to_dentry-grown :
      taken d.subs ≡ dentry_subs
      → add_to_dentry id d eid name ≡ (do
        next ← get_free_id f_occupied
        write_zone id (of_dentry (record d { next = next }))
        write_zone next (of_dir_zone (new_zone d.parent eid name)))
  unfolding add_to_dentry
  add_to_dentry-grown full =
      rw (==_ne (sub_at d.subs 3).id 0 (id_taken d.subs 3 (omega arith)), add_to_dentry)
        (ap (on_free_id f_occupied) (
          fun_ext λ next.
            ap (on_write id (of_dentry (record d { next = next })))
              (write_first_sub-new_zone c.valid_name d.parent eid next)))

  filled_dir-DentryFits : DentryFits (filled_dir d eid name)
  filled_dir-DentryFits = record {
    parent = fits.parent;
    mode = fits.mode;
    owner = fits.owner;
    count = length-set d.subs _ _ ∙ fits.count;
    subs =
        All-set d.subs _ _ fits.subs
          (named-SubFits c.valid_name _ eid (All-sub_at d.subs (taken d.subs) fits.subs) c.short);
    next = fits.next;
    time = fits.time;
  }

  pub add_small_in_place :
      d.next ≡ 0
      → packed d.subs ≡ true
      → taken d.subs < dentry_subs
      → Adds (add_to_dentry id d eid name) s id (id ∷ []) (entries d.subs ++ (eid, name) ∷ []) fresh
  add_small_in_place e p room =
      let slot = named (sub_at d.subs (taken d.subs)) eid name in
      let bytes = of_dentry (filled_dir d eid name) in
      let inside : taken d.subs < length d.subs = rw fits.count room in
      let es : entries (filled_dir d eid name).subs ≡ entries d.subs ++ (eid, name) ∷ [] =
        entries-set d.subs slot p inside c.nonzero
        ∙ ap (λ e. entries d.subs ++ e ∷ [])
            (entry_of-named c.valid_name (sub_at d.subs (taken d.subs)) eid) in
      (
        record s { zones = update s.zones id bytes },
        ap (λ q. run q s) (add_to_dentry-filled p room) ∙ run-write_zone s bytes z,
        record {
          zone_ids = id ∷ [];
          directory = subst (Directory (update s.zones id bytes) id (id ∷ [])) es (
              small (filled_dir d eid name)
                (record { zone = z; bytes = rw (==_self id); fits = filled_dir-DentryFits }) e
                (packed-set d.subs slot p inside c.nonzero));
          zones_kept = λ j ne o. rw (==_ne j id (ne_of_has j id [] o).0);
          states_kept = λ j ne. refl;
          sock_kept = refl;
        },
      )

  pub add_small_grown :
      d.next ≡ 0
      → taken d.subs ≡ dentry_subs
      → fresh ≢ id
      → Adds (add_to_dentry id d eid name) s id (id ∷ []) (entries d.subs ++ (eid, name) ∷ []) fresh
  unfolding has
  add_small_grown e full ne =
      let (zf, _) = first_free-IsZone s.states fresh c.free in
      let s1 = record s { states = update s.states fresh f_occupied } in
      let bytes = of_dentry (record d { next = fresh }) in
      let s2 = record s1 { zones = update s.zones id bytes } in
      let behind = new_zone d.parent eid name in
      let s3 = record s2 { zones = update s2.zones fresh (of_dir_zone behind) } in
      let es : entries behind.subs ≡ (eid, name) ∷ [] =
        entries-new_zone c.valid_name d.parent eid c.nonzero in
      let new_holds : Holds s3.zones fresh behind = record {
        zone = zf;
        bytes = rw (==_self fresh);
        fits = new_zone-DirZoneFits c.valid_name d.parent eid fits.parent c.short;
      } in
      let old_holds : HoldsDir s3.zones id (record d { next = fresh }) = record {
        zone = z;
        bytes = rw (==_ne id fresh (λ e. ne (sym e)), ==_self id);
        fits = record {
          parent = fits.parent;
          mode = fits.mode;
          owner = fits.owner;
          count = fits.count;
          subs = fits.subs;
          next = omega (arith, zf.hi);
          time = fits.time;
        };
      } in
      (
        s3,
        ap (λ q. run q s) (add_to_dentry-grown full)
            ∙ run-free_id s f_occupied _ c.free
            ∙ run-write s1 bytes _ z
            ∙ run-write_zone s2 (of_dir_zone behind) zf,
        record {
          zone_ids = id ∷ (fresh ∷ []);
          directory =
              large (record d { next = fresh }) old_holds (omega (arith, zf.lo)) full
                (rw (==_ne id fresh (λ e. ne (sym e))))
                (subst (Chain s3.zones fresh (fresh ∷ [])) es (
                  last behind new_holds refl
                    (packed-new_zone c.valid_name d.parent eid c.nonzero)));
          zones_kept = λ j nf o. rw (==_ne j fresh nf, ==_ne j id (ne_of_has j id [] o).0);
          states_kept = λ j nf. rw (==_ne j fresh nf);
          sock_kept = refl;
        },
      )

  pub add_large :
      {ids : List ℕ} {es : List Entry} (fuel : ℕ)
      → d.next ≢ 0
      → taken d.subs ≡ dentry_subs
      → has id ids ≡ false
      → Chain s.zones d.next ids es
      → has fresh (id ∷ ids) ≡ false
      → length ids ≤ fuel
      → Adds
          (do write_zone id (of_dentry d); add_sub_cont fuel d.next eid name)
          s
          id
          (id ∷ ids)
          ((entries d.subs ++ es) ++ (eid, name) ∷ [])
          fresh
  unfolding has
  add_large {ids} {es} fuel nz full out chain apart enough =
      let s1 = record s { zones = update s.zones id (of_dentry d) } in
      let c1 : CanAdd s1 eid name fresh = record {
        valid_name = c.valid_name;
        nonzero = c.nonzero;
        short = c.short;
        free = c.free;
      } in
      let chain1 = frame {zones' = s1.zones} chain (λ j m. rw (==_ne j id (ne_of_mem ids m out))) in
      let (away, apart') = ne_of_has fresh id ids apart in
      let (s', e, a) = add_sub_cont-Appends fuel s1 chain1 c1 apart' enough in
      (
        s',
        run-write s (of_dentry d) _ z ∙ e,
        record {
          zone_ids = id ∷ a.zone_ids;
          directory =
              subst (Directory s'.zones id (id ∷ a.zone_ids))
                (sym (append_assoc (entries d.subs) es ((eid, name) ∷ [])))
                (large d
                  (record {
                    zone = z;
                    bytes = a.zones_kept id (λ e. away (sym e)) out ∙ rw (==_self id);
                    fits = fits;
                  })
                  nz full (a.only id (λ e. away (sym e)) out) a.chain);
          zones_kept = λ j nf o. ground (arith, a.zones_kept j nf);
          states_kept = a.states_kept;
          sock_kept = ap (λ (w : World). w.sock) a.world;
        },
      )
