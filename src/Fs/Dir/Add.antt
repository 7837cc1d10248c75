-- ===== src/Fs/Dir/Add.antt =====
-- src/fs_lib.c: `add_sub_cont` on the last zone of a chain, and the state that it leaves.
use cs356_mini_file_system.Store.Run.{first_free-IsZone}
use cs356_mini_file_system.Alloc.Cache.{Zone}
use cs356_mini_file_system.Store.Prog.{get_free_id, on_free_id, on_write, write_zone, ◌>>=◌, ◌>>◌}
use cs356_mini_file_system.Alloc.Bitmap.{f_occupied}
use cs356_mini_file_system.Base.{
  ==_ne, ==_self, List, [], ap, arith, false, fun_ext, length, length-set, refl, replicate, set,
  some, subst, sym, true, ℕ, ◌++◌, ◌<◌, ◌==◌, ◌∙◌, ◌∷◌, ◌≡◌, ◌≢◌,
}
use cs356_mini_file_system.Utils.Text.{Text}
use cs356_mini_file_system.Alloc.Bitmap.Search.{first_free, zones_tracked}
use cs356_mini_file_system.Layout.{DirZone, dzone_subs, of_dir_zone}
use cs356_mini_file_system.Layout.RoundTrip.{DirZoneFits, IsShort, SubFits}
use cs356_mini_file_system.Store.Spec.{Store, update}
use cs356_mini_file_system.Fs.Dir.{add_to_dzone, sub_at, write_first_sub, zero_sub}
use cs356_mini_file_system.Fs.Dir.Subs.{
  Entry, entries, entries-set, free_slot-taken, id_free, id_taken, packed, packed-set, taken,
}
use cs356_mini_file_system.Fs.Dir.Fill.{
  All-set, All-sub_at, IsName, SubFits-zero_sub, entry_of-named, fill_sub-named, named,
  named-SubFits,
}
use cs356_mini_file_system.Fs.Dir.Chain.{Chain, Holds, has, last, link}

-- The state after an entry was appended to the chain of `ids`, which now holds `es`: `fresh` is the
-- zone that a full chain grows by.
pub record Appended (s s' : Store) (id : ℕ) (ids : List ℕ) (es : List Entry) (fresh : ℕ)
    : Type 0 where
  pub zone_ids : List ℕ
  pub chain : Chain s'.zones id zone_ids es
  pub only : (j : ℕ) → j ≢ fresh → has j ids ≡ false → has j zone_ids ≡ false
  pub zones_kept : (j : ℕ) → j ≢ fresh → has j ids ≡ false → s'.zones j ≡ s.zones j
  pub states_kept : (j : ℕ) → j ≢ fresh → s'.states j ≡ s.states j
  pub world : s'.world ≡ s.world

-- an entry that can be added, and a zone that is free for it
pub record CanAdd (s : Store) (eid : ℕ) (name : Text) (fresh : ℕ) : Type 0 where
  pub valid_name : IsName name
  pub nonzero : eid ≢ 0
  pub short : IsShort eid
  pub free : first_free s.states zones_tracked 4 ≡ some fresh

-- the zone that a chain grows by
abbrev pub new_zone : ℕ → ℕ → Text → DirZone
new_zone parent eid name = record {
  parent = parent;
  subs = set (replicate dzone_subs zero_sub) 0 (named zero_sub eid name);
  next = 0;
}

module _ {name : Text} (n : IsName name) (parent eid : ℕ) where
  pub new_zone-DirZoneFits : IsShort parent → IsShort eid → DirZoneFits (new_zone parent eid name)
  new_zone-DirZoneFits hp he = record {
    parent = hp;
    count = refl;
    subs =
        All-set (replicate dzone_subs zero_sub) 0 (named zero_sub eid name)
          (z, (z, (z, (z, (z, tt))))) (named-SubFits n zero_sub eid z he);
    next = omega arith;
  }
    where
      z : SubFits zero_sub
      z = SubFits-zero_sub

  pub entries-new_zone : eid ≢ 0 → entries (new_zone parent eid name).subs ≡ (eid, name) ∷ []
  unfolding entries
  entries-new_zone nz =
      rw (==_ne eid 0 nz) (ap (λ (e : Entry). e ∷ []) (entry_of-named n zero_sub eid))

  pub packed-new_zone : eid ≢ 0 → packed (new_zone parent eid name).subs ≡ true
  unfolding packed
  packed-new_zone nz = rw (==_ne eid 0 nz)

  pub write_first_sub-new_zone :
      (id : ℕ)
      → write_first_sub id parent eid name ≡ write_zone id (of_dir_zone (new_zone parent eid name))
  unfolding write_first_sub
  write_first_sub-new_zone id = rw (fill_sub-named n (replicate dzone_subs zero_sub) 0 eid)

-- the last zone of a chain with a free slot, and with the entry in it
abbrev pub filled : DirZone → ℕ → Text → DirZone
filled d eid name = record d {
  subs = set d.subs (taken d.subs) (named (sub_at d.subs (taken d.subs)) eid name);
}

module _ (d : DirZone) (packed_ : packed d.subs ≡ true) (eid : ℕ) {name : Text} (n : IsName name)
    (id : ℕ) where
  pub add_to_dzone-filled :
      taken d.subs < dzone_subs
      → add_to_dzone id d eid name ≡ write_zone id (of_dir_zone (filled d eid name))
  unfolding add_to_dzone
  add_to_dzone-filled room = rw (
    ap (λ k. k == 0) (id_free d.subs 4 packed_ (omega arith)),
    add_to_dzone,
    free_slot-taken 4 d.subs packed_ (omega arith),
    fill_sub-named n d.subs (taken d.subs) eid,
  )

  pub add_to_dzone-grown :
      taken d.subs ≡ dzone_subs
      → add_to_dzone id d eid name ≡ (do
        next ← get_free_id f_occupied
        write_zone id (of_dir_zone (record d { next = next }))
        write_zone next (of_dir_zone (new_zone d.parent eid name)))
  unfolding add_to_dzone
  add_to_dzone-grown full =
      rw (==_ne (sub_at d.subs 4).id 0 (id_taken d.subs 4 (omega arith)), add_to_dzone)
        (ap (on_free_id f_occupied) (
          fun_ext λ next.
            ap (on_write id (of_dir_zone (record d { next = next })))
              (write_first_sub-new_zone n d.parent eid next)))

pub has_self : (id : ℕ) → has id (id ∷ []) ≡ true
unfolding has
has_self id = rw (==_self id)

pub ne_of_has :
    (j id : ℕ) (ids : List ℕ) → has j (id ∷ ids) ≡ false → (j ≢ id) × (has j ids ≡ false)
unfolding has
ne_of_has j id ids h = ground arith

module _ (s : Store) {id eid fresh : ℕ} {name : Text} (c : CanAdd s eid name fresh) (d : DirZone)
    (h : Holds s.zones id d) where
  -- the entry goes into the last zone
  abbrev pub in_place : Store
  in_place = record s { zones = update s.zones id (of_dir_zone (filled d eid name)) }

  filled-Holds :
      (zones : ℕ → Zone)
      → zones id ≡ of_dir_zone (filled d eid name)
      → Holds zones id (filled d eid name)
  filled-Holds zones e = record {
    zone = h.zone;
    bytes = e;
    fits = record {
      parent = h.fits.parent;
      count = length-set d.subs _ _ ∙ h.fits.count;
      subs =
          All-set d.subs _ _ h.fits.subs (
            named-SubFits c.valid_name _ eid (All-sub_at d.subs (taken d.subs) h.fits.subs)
              c.short);
      next = h.fits.next;
    };
  }

  pub Appended-in_place :
      d.next ≡ 0
      → packed d.subs ≡ true
      → taken d.subs < dzone_subs
      → Appended s in_place id (id ∷ []) (entries d.subs ++ (eid, name) ∷ []) fresh
  Appended-in_place z p room =
      let slot = named (sub_at d.subs (taken d.subs)) eid name in
      let fits : taken d.subs < length d.subs = rw h.fits.count room in
      let es : entries (filled d eid name).subs ≡ entries d.subs ++ (eid, name) ∷ [] =
        entries-set d.subs slot p fits c.nonzero
        ∙ ap (λ e. entries d.subs ++ e ∷ [])
            (entry_of-named c.valid_name (sub_at d.subs (taken d.subs)) eid) in
      record {
        zone_ids = id ∷ [];
        chain = subst (Chain in_place.zones id (id ∷ [])) es (
            last (filled d eid name) (filled-Holds in_place.zones (rw (==_self id))) z
              (packed-set d.subs slot p fits c.nonzero));
        only = λ j ne o. o;
        zones_kept = λ j ne o. ground (arith, ne_of_has j id []);
        states_kept = λ j ne. refl;
        world = refl;
      }

  -- the entry goes into a new zone behind the last
  abbrev pub grown : Store
  grown = record s {
    zones =
        update (update s.zones id (of_dir_zone (record d { next = fresh }))) fresh
          (of_dir_zone (new_zone d.parent eid name));
    states = update s.states fresh f_occupied;
  }

  pub Appended-grown :
      taken d.subs ≡ dzone_subs
      → fresh ≢ id
      → Appended s grown id (id ∷ []) (entries d.subs ++ (eid, name) ∷ []) fresh
  unfolding has
  Appended-grown full ne =
      let (z, _) = first_free-IsZone s.states fresh c.free in
      let es : entries (new_zone d.parent eid name).subs ≡ (eid, name) ∷ [] =
        entries-new_zone c.valid_name d.parent eid c.nonzero in
      let new_holds : Holds grown.zones fresh (new_zone d.parent eid name) = record {
        zone = z;
        bytes = rw (==_self fresh);
        fits = new_zone-DirZoneFits c.valid_name d.parent eid h.fits.parent c.short;
      } in
      let old_holds : Holds grown.zones id (record d { next = fresh }) = record {
        zone = h.zone;
        bytes = rw (==_ne id fresh (λ e. ne (sym e)), ==_self id);
        fits = record {
          parent = h.fits.parent;
          count = h.fits.count;
          subs = h.fits.subs;
          next = omega (arith, z.hi);
        };
      } in
      record {
        zone_ids = id ∷ (fresh ∷ []);
        chain =
            link (record d { next = fresh }) old_holds (omega (arith, z.lo)) full
              (rw (==_ne id fresh (λ e. ne (sym e))))
              (subst (Chain grown.zones fresh (fresh ∷ [])) es (
                last (new_zone d.parent eid name) new_holds refl
                  (packed-new_zone c.valid_name d.parent eid c.nonzero)));
        only = λ j nf o. rw (==_ne j id (ne_of_has j id [] o).0, ==_ne j fresh nf);
        zones_kept = λ j nf o. ground (arith, ne_of_has j id []);
        states_kept = λ j nf. rw (==_ne j fresh nf);
        world = refl;
      }
