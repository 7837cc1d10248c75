-- ===== src/Fs/Dir/Append.antt =====
-- src/fs_lib.c: `add_sub_cont` along a whole chain.
use cs356_mini_file_system.Alloc.Cache.{Zone}
use cs356_mini_file_system.Alloc.Bitmap.{f_occupied}
use cs356_mini_file_system.Store.Prog.{Prog, ok, on_write}
use cs356_mini_file_system.Base.{
  ==_iff, ==_ne, ==_self, List, [], ap, append_assoc, arith, dec_lt, false, false≢true, length, suc,
  sym, true, zero, ℕ, ◌++◌, ◌<◌, ◌∙◌, ◌∷◌, ◌≡◌, ◌≢◌, ◌≤◌,
}
use cs356_mini_file_system.Utils.Text.{Text}
use cs356_mini_file_system.Layout.{DirZone, dzone_subs, of_dir_zone}
use cs356_mini_file_system.Layout.RoundTrip.{to_dir_zone-of_dir_zone}
use cs356_mini_file_system.Store.Spec.{Store, run, update}
use cs356_mini_file_system.Store.Run.{
  first_free-IsZone, run-free_id, run-read, run-write, run-write_zone,
}
use cs356_mini_file_system.Fs.Dir.{add_sub_cont, add_to_dzone, visit_dzone}
use cs356_mini_file_system.Fs.Dir.Subs.{Entry, entries, packed, taken, taken-le}
use cs356_mini_file_system.Fs.Dir.Chain.{Chain, Holds, frame, has, last, link}
use cs356_mini_file_system.Fs.Dir.Add.{
  Appended, Appended-grown, Appended-in_place, CanAdd, add_to_dzone-filled, add_to_dzone-grown,
  grown, in_place, ne_of_has,
}

-- the run ends, and leaves the entry behind the others
abbrev pub Appends : Prog (Unit {0}) → Store → ℕ → List ℕ → List Entry → ℕ → Type 0
Appends p s id ids es fresh = (s' : Store) × (run p s ≡ ok tt s') × Appended s s' id ids es fresh

module _ (s : Store) {id eid fresh : ℕ} {name : Text} (c : CanAdd s eid name fresh) (d : DirZone)
    (h : Holds s.zones id d) where
  -- what the code sees of the zone
  add_sub_cont-visit :
      (fuel : ℕ)
      → run (add_sub_cont (suc fuel) id eid name) s
        ≡ run (visit_dzone (λ q. add_sub_cont fuel q eid name) id d eid name) s
  unfolding add_sub_cont
  add_sub_cont-visit fuel = rw (run-read s _ h.zone, h.bytes, to_dir_zone-of_dir_zone d h.fits)

  visit_dzone-last :
      (rest : ℕ → Prog (Unit {0}))
      → d.next ≡ 0
      → visit_dzone rest id d eid name ≡ add_to_dzone id d eid name
  unfolding visit_dzone
  visit_dzone-last rest z = rw ((==_iff d.next 0).1 z, visit_dzone)

  visit_dzone-link :
      (rest : ℕ → Prog (Unit {0}))
      → d.next ≢ 0
      → visit_dzone rest id d eid name ≡ on_write id (of_dir_zone d) (rest d.next)
  unfolding visit_dzone
  visit_dzone-link rest nz = rw (==_ne d.next 0 nz, visit_dzone)

  run-in_place :
      packed d.subs ≡ true
      → taken d.subs < dzone_subs
      → run (add_to_dzone id d eid name) s ≡ ok tt (in_place s c d h)
  run-in_place p room =
      ap (λ q. run q s) (add_to_dzone-filled d p eid c.valid_name id room)
      ∙ run-write_zone s _ h.zone

  run-grown :
      packed d.subs ≡ true
      → taken d.subs ≡ dzone_subs
      → run (add_to_dzone id d eid name) s ≡ ok tt (grown s c d h)
  run-grown p full =
      let (z, _) = first_free-IsZone s.states fresh c.free in
      let s1 = record s { states = update s.states fresh f_occupied } in
      let bytes = of_dir_zone (record d { next = fresh }) in
      let s2 = record s1 { zones = update s1.zones id bytes } in
      ap (λ q. run q s) (add_to_dzone-grown d p eid c.valid_name id full)
      ∙ run-free_id s f_occupied _ c.free
      ∙ run-write s1 bytes _ h.zone
      ∙ run-write_zone s2 _ z

  run-last :
      (rest : ℕ → Prog (Unit {0}))
      → has fresh (id ∷ []) ≡ false
      → d.next ≡ 0
      → packed d.subs ≡ true
      → Appends
          (visit_dzone rest id d eid name)
          s
          id
          (id ∷ [])
          (entries d.subs ++ (eid, name) ∷ [])
          fresh
  run-last rest out z p =
      let visit = ap (λ q. run q s) (visit_dzone-last rest z) in
      elim (dec_lt (taken d.subs) dzone_subs) [
        | yes room ↦
            (in_place s c d h, visit ∙ run-in_place p room, Appended-in_place s c d h z p room)
        | no no_room ↦
            let full : taken d.subs ≡ dzone_subs = omega (arith, taken-le d.subs, h.fits.count) in
            (
              grown s c d h,
              visit ∙ run-grown p full,
              Appended-grown s c d h full (ne_of_has fresh id [] out).0,
            )
      ]

-- The zones behind `id` grew: so did the chain from `id`.
Appended-link :
    (s s' : Store) {id fresh : ℕ} {ids : List ℕ} {es : List Entry} (d : DirZone)
    → Holds s.zones id d
    → d.next ≢ 0
    → taken d.subs ≡ dzone_subs
    → has id ids ≡ false
    → id ≢ fresh
    → Appended (record s { zones = update s.zones id (of_dir_zone d) }) s' d.next ids es fresh
    → Appended s s' id (id ∷ ids) (entries d.subs ++ es) fresh
unfolding has
Appended-link s s' {id} {fresh} {ids} d h nz full out ne a = record {
  zone_ids = id ∷ a.zone_ids;
  chain =
      link d
        (record { zone = h.zone; bytes = a.zones_kept id ne out ∙ rw (==_self id); fits = h.fits })
        nz full (a.only id ne out) a.chain;
  only = λ j nf o. ground (arith, a.only j nf);
  zones_kept = λ j nf o. ground (arith, a.zones_kept j nf);
  states_kept = a.states_kept;
  world = a.world;
}

pub ne_of_mem : {j id : ℕ} (ids : List ℕ) → has j ids ≡ true → has id ids ≡ false → j ≢ id
ne_of_mem ids m out e = false≢true (sym out ∙ ap (λ k. has k ids) (sym e) ∙ m)

length_ids :
    {zones : ℕ → Zone} {id : ℕ} {ids : List ℕ} {es : List Entry}
    → Chain zones id ids es
    → 0 < length ids
length_ids (last d h z p) = omega arith
length_ids (link d h nz full out rest) = omega arith

-- For a chain of zones, a name of at most nine bytes, an id that is not 0 and a free zone outside
-- the chain, `add_sub_cont` ends within the fuel of as many zones as the chain has, appends the
-- entry, and changes no zone and no state but those of the chain and of the free zone.
pub add_sub_cont-Appends :
    (fuel : ℕ) (s : Store) {id eid fresh : ℕ} {name : Text} {ids : List ℕ} {es : List Entry}
    → Chain s.zones id ids es
    → CanAdd s eid name fresh
    → has fresh ids ≡ false
    → length ids ≤ fuel
    → Appends (add_sub_cont fuel id eid name) s id ids (es ++ (eid, name) ∷ []) fresh
add_sub_cont-Appends zero s chain c out enough = absurd (omega (arith, length_ids chain))
add_sub_cont-Appends (suc fuel) s {eid = eid} {name = name} (last d h z p) c out enough =
    let (s', e, a) = run-last s c d h (λ q. add_sub_cont fuel q eid name) out z p in
    (s', add_sub_cont-visit s c d h fuel ∙ e, a)
add_sub_cont-Appends (suc fuel) s {id} {eid} {fresh} {name} (link {ids} {es} d h nz full out' rest)
      c out enough =
    let s1 = record s { zones = update s.zones id (of_dir_zone d) } in
    let apart = ne_of_has fresh id ids out in
    let rest1 = frame {zones' = s1.zones} rest (λ j m. rw (==_ne j id (ne_of_mem ids m out'))) in
    let c1 : CanAdd s1 eid name fresh = record {
      valid_name = c.valid_name;
      nonzero = c.nonzero;
      short = c.short;
      free = c.free;
    } in
    let (s', e, a) = add_sub_cont-Appends fuel s1 rest1 c1 apart.1 (omega arith) in
    (
      s',
      add_sub_cont-visit s c d h fuel
          ∙ ap (λ q. run q s) (visit_dzone-link s c d h (λ q. add_sub_cont fuel q eid name) nz)
          ∙ run-write s (of_dir_zone d) _ h.zone
          ∙ e,
      rw (append_assoc (entries d.subs) es ((eid, name) ∷ []))
          (Appended-link s s' d h nz full out' (λ e. apart.0 (sym e)) a),
    )
