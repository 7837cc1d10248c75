-- ===== src/Fs/Whole/Dirs.antt =====
-- src/fs_lib.c: the zones that are written where an entry is added to or taken out of a directory.
use cs356_mini_file_system.Base.{
  Bool-cases, List, Option-cases, [], arith, drop, false, inl, inr, length, length-append,
  length-drop, ltb, ltb→lt, none, refl, replicate, set, some, suc, true, zero, ℕ, ◌+◌, ◌-◌, ◌==◌,
  ◌∷◌, ◌≡◌,
}
use cs356_mini_file_system.Utils.Text.{Text, c_string, has_nul}
use cs356_mini_file_system.Layout.{
  Dentry, DirZone, Sub, dentry_subs, dzone_subs, of_dentry, of_dir_zone, to_dentry, to_dir_zone,
}
use cs356_mini_file_system.Layout.Sizes.{
  AreSubs, AreSubs-set, length-of_dentry, length-of_dir_zone, to_dentry-AreSubs,
  to_dir_zone-AreSubs,
}
use cs356_mini_file_system.Store.Whole.{WritesWhole, Yields, Yields-bind, after, both, either}
use cs356_mini_file_system.Fs.Dir.{
  add_sub, add_sub_cont, add_to_dentry, add_to_dzone, copy_field, copy_name, fill_sub, free_slot,
  sub_at, visit_dentry, visit_dzone, write_first_sub, zero_sub,
}
use cs356_mini_file_system.Fs.Remove.{
  clear_sub, find_slot_of, last_slot, move_last, rm_from_dentry, rm_from_dzone, rm_sub, rm_sub_cont,
  rm_tail_sub, tail_slot,
}
use cs356_mini_file_system.Store.Prog.{Prog, fault, pure, write_zone, ◌>>=◌, ◌>>◌}

-- a name's ten bytes
abbrev Field : List ℕ → Type 0
Field field = length field ≡ 10

copy_name-Yields :
    (field : List ℕ) (name : Text) → Field field → Yields Field (copy_name field name)
unfolding copy_name Yields
copy_name-Yields field name h = elim (Bool-cases (ltb (length name) 10)) [
  | inl fits ↦ rw fits (
      omega (
        arith,
        ltb→lt (length name) 10 fits,
        length-append name (0 ∷ drop (length name + 1) field),
        length-drop (length name + 1) field,
        h,
      ))
  | inr long ↦ rw long tt
]

copy_field-Yields : (field source : List ℕ) → Field field → Yields Field (copy_field field source)
unfolding copy_field
copy_field-Yields field source h = elim (Bool-cases (has_nul source)) [
  | inl nul ↦ rw nul (copy_name-Yields field (c_string source) h)
  | inr no_nul ↦ rw no_nul (unfold Yields in tt)
]

sub_at-Field : (n : ℕ) (subs : List Sub) (i : ℕ) → AreSubs n subs → Field (sub_at subs i).name
sub_at-Field n [] i h = refl
sub_at-Field n (sub ∷ subs) zero h = h.1.0
sub_at-Field n (sub ∷ subs) (suc i) h = sub_at-Field (n - 1) subs i (omega (arith, h.0), h.1.1)

fill_sub-Yields :
    (n : ℕ) (subs : List Sub) (idx id : ℕ) (name : Text)
    → AreSubs n subs
    → Yields (AreSubs n) (fill_sub subs idx id name)
unfolding fill_sub
fill_sub-Yields n subs idx id name h =
    Yields-bind Field (AreSubs n) (copy_name (sub_at subs idx).name name) _
      (copy_name-Yields (sub_at subs idx).name name (sub_at-Field n subs idx h))
      (λ field k. unfold Yields in AreSubs-set n subs idx (record { id = id; name = field }) h k)

write_first_sub-Whole :
    (zone_id parent id : ℕ) (name : Text) → WritesWhole (write_first_sub zone_id parent id name)
unfolding write_first_sub Yields
write_first_sub-Whole zone_id parent id name =
    after (AreSubs dzone_subs) (fill_sub (replicate dzone_subs zero_sub) 0 id name) _
      (fill_sub-Yields dzone_subs (replicate dzone_subs zero_sub) 0 id name empty)
      (λ subs h. (length-of_dir_zone (record { parent = parent; subs = subs; next = 0 }) h, tt))
  where
    empty : AreSubs dzone_subs (replicate dzone_subs zero_sub)
    empty = (refl, (refl, (refl, (refl, (refl, (refl, tt))))))

add_to_dzone-Whole :
    (p_id : ℕ) (dzone : DirZone) (id : ℕ) (name : Text)
    → AreSubs dzone_subs dzone.subs
    → WritesWhole (add_to_dzone p_id dzone id name)
unfolding add_to_dzone Yields
add_to_dzone-Whole p_id dzone id name h =
    either ((sub_at dzone.subs (dzone_subs - 1)).id == 0) _ _
      (λ full next. (
        length-of_dir_zone (record dzone { next = next }) h,
        write_first_sub-Whole next dzone.parent id name,
      ))
      (λ free.
        after (AreSubs dzone_subs)
          (fill_sub dzone.subs (free_slot (dzone_subs - 1) dzone.subs) id name)
          (λ subs. write_zone p_id (of_dir_zone (record dzone { subs = subs })))
          (fill_sub-Yields dzone_subs dzone.subs (free_slot (dzone_subs - 1) dzone.subs) id name h)
          (λ subs k. (length-of_dir_zone (record dzone { subs = subs }) k, tt)))

add_sub_cont-Whole : (fuel p_id id : ℕ) (name : Text) → WritesWhole (add_sub_cont fuel p_id id name)
unfolding add_sub_cont visit_dzone Yields
add_sub_cont-Whole zero p_id id name = tt
add_sub_cont-Whole (suc fuel) p_id id name = (
  tt,
  λ zone full.
      either ((to_dir_zone zone).next == 0) _ _
        (λ more. (
          length-of_dir_zone (to_dir_zone zone) (to_dir_zone-AreSubs zone full),
          add_sub_cont-Whole fuel (to_dir_zone zone).next id name,
        ))
        (λ last.
          add_to_dzone-Whole p_id (to_dir_zone zone) id name (to_dir_zone-AreSubs zone full)),
)

add_to_dentry-Whole :
    (p_id : ℕ) (dentry : Dentry) (id : ℕ) (name : Text)
    → AreSubs dentry_subs dentry.subs
    → WritesWhole (add_to_dentry p_id dentry id name)
unfolding add_to_dentry Yields
add_to_dentry-Whole p_id dentry id name h =
    either ((sub_at dentry.subs (dentry_subs - 1)).id == 0) _ _
      (λ full next. (
        length-of_dentry (record dentry { next = next }) h,
        write_first_sub-Whole next dentry.parent id name,
      ))
      (λ free.
        after (AreSubs dentry_subs)
          (fill_sub dentry.subs (free_slot (dentry_subs - 1) dentry.subs) id name)
          (λ subs. write_zone p_id (of_dentry (record dentry { subs = subs })))
          (fill_sub-Yields dentry_subs dentry.subs (free_slot (dentry_subs - 1) dentry.subs) id name
            h)
          (λ subs k. (length-of_dentry (record dentry { subs = subs }) k, tt)))

pub add_sub-Whole : (fuel p_id id : ℕ) (name : Text) → WritesWhole (add_sub fuel p_id id name)
unfolding add_sub visit_dentry Yields
add_sub-Whole fuel p_id id name = (
  tt,
  λ zone full now.
      let dentry = record (to_dentry zone) { time = now } in
      either (dentry.next == 0) _ _
        (λ more. (
          length-of_dentry dentry (to_dentry-AreSubs zone full),
          add_sub_cont-Whole fuel dentry.next id name,
        ))
        (λ last. add_to_dentry-Whole p_id dentry id name (to_dentry-AreSubs zone full)),
)

rm_tail_sub-Whole :
    (fuel p_id : ℕ) (name : List ℕ) → Field name → WritesWhole (rm_tail_sub fuel p_id name)
unfolding rm_tail_sub clear_sub Yields
rm_tail_sub-Whole zero p_id name h = tt
rm_tail_sub-Whole (suc fuel) p_id name h = (
  tt,
  λ zone full.
      let dzone = to_dir_zone zone in
      either (dzone.next == 0) _ _ (λ more. rm_tail_sub-Whole fuel dzone.next name h)
        (λ last. elim (Option-cases (tail_slot dzone_subs dzone.subs)) [
          | inl empty ↦ rw empty tt
          | inr (i, found) ↦
              let subs = set dzone.subs i zero_sub in
              let whole =
                length-of_dir_zone (record dzone { subs = subs })
                  (AreSubs-set dzone_subs dzone.subs i zero_sub (to_dir_zone-AreSubs zone full)
                    refl) in
              rw found (
                after Field (copy_field name (sub_at dzone.subs i).name)
                  (λ copied. do write_zone p_id (of_dir_zone (record dzone { subs = subs })); fault)
                  (copy_field-Yields name (sub_at dzone.subs i).name h) (λ copied k. (whole, tt)))
        ]),
)

move_last-Yields :
    (n slots : ℕ) (subs : List Sub) (idx : ℕ)
    → AreSubs n subs
    → Yields (AreSubs n) (move_last slots subs idx)
unfolding move_last clear_sub
move_last-Yields n slots subs idx h =
    let i = last_slot (slots - 1 - idx) subs idx in
    elim (Bool-cases (ltb idx i)) [
      | inl moved ↦ rw moved (
          Yields-bind Field (AreSubs n) (copy_field (sub_at subs idx).name (sub_at subs i).name) _
            (copy_field-Yields (sub_at subs idx).name (sub_at subs i).name
              (sub_at-Field n subs idx h))
            (λ name k.
              unfold Yields in
              AreSubs-set n (set subs idx (record { id = (sub_at subs i).id; name = name })) i
                zero_sub
                (AreSubs-set n subs idx (record { id = (sub_at subs i).id; name = name }) h k)
                refl))
      | inr kept ↦ rw kept (unfold Yields in AreSubs-set n subs i zero_sub h refl)
    ]

-- what `rm_sub` and `rm_sub_cont` do in a zone, given what it writes for other entries
module _ (n : ℕ) (fuel p_id : ℕ) (subs : List Sub) (next id : ℕ) (rest : Prog (Unit {0}))
    (zone_of : List Sub → List ℕ) (fits : AreSubs n subs)
    (whole : (subs' : List Sub) → AreSubs n subs' → length (zone_of subs') ≡ 64)
    (rest_whole : WritesWhole rest) where
  abbrev removed : Prog (Unit {0})
  removed = elim (find_slot_of n subs 0 id) [
    | some idx ↦ elim (next == 0) [
      | true ↦ do subs' ← move_last n subs idx; write_zone p_id (zone_of subs')
      | false ↦ do
        let field = (sub_at subs idx).name
        tail ← rm_tail_sub fuel next field
        write_zone p_id (zone_of (set subs idx (record { id = tail; name = field })))
    ]
    | none ↦ elim (next == 0) [ true ↦ pure tt | false ↦ rest ]
  ]

  removed-Whole : WritesWhole removed
  unfolding Yields
  removed-Whole = elim (Option-cases (find_slot_of n subs 0 id)) [
    | inl missing ↦ rw (missing, removed) (either (next == 0) _ _ (λ more. rest_whole) (λ last. tt))
    | inr (idx, found) ↦
        rw (found, removed)
          (either (next == 0) _ _
            (λ more.
              both (rm_tail_sub fuel next (sub_at subs idx).name)
                (λ tail.
                  write_zone p_id
                    (zone_of (set subs idx (record { id = tail; name = (sub_at subs idx).name }))))
                (rm_tail_sub-Whole fuel next (sub_at subs idx).name (sub_at-Field n subs idx fits))
                (λ tail. (
                  whole _ (
                      AreSubs-set n subs idx (record { id = tail; name = (sub_at subs idx).name })
                        fits (sub_at-Field n subs idx fits)),
                  tt,
                )))
            (λ last.
              after (AreSubs n) (move_last n subs idx) (λ subs'. write_zone p_id (zone_of subs'))
                (move_last-Yields n n subs idx fits) (λ subs' k. (whole subs' k, tt))))
  ]

rm_sub_cont-Whole : (fuel p_id id : ℕ) → WritesWhole (rm_sub_cont fuel p_id id)
unfolding rm_sub_cont rm_from_dzone Yields
rm_sub_cont-Whole zero p_id id = tt
rm_sub_cont-Whole (suc fuel) p_id id = (
  tt,
  λ zone full.
      let dzone = to_dir_zone zone in
      removed-Whole dzone_subs fuel p_id dzone.subs dzone.next id (rm_sub_cont fuel dzone.next id)
        (λ subs. of_dir_zone (record dzone { subs = subs })) (to_dir_zone-AreSubs zone full)
        (λ subs k. length-of_dir_zone (record dzone { subs = subs }) k)
        (rm_sub_cont-Whole fuel dzone.next id),
)

pub rm_sub-Whole : (fuel p_id id : ℕ) → WritesWhole (rm_sub fuel p_id id)
unfolding rm_sub rm_from_dentry Yields
rm_sub-Whole fuel p_id id = (
  tt,
  λ zone full.
      let dentry = to_dentry zone in
      removed-Whole dentry_subs fuel p_id dentry.subs dentry.next id
        (rm_sub_cont fuel dentry.next id) (λ subs. of_dentry (record dentry { subs = subs }))
        (to_dentry-AreSubs zone full) (λ subs k. length-of_dentry (record dentry { subs = subs }) k)
        (rm_sub_cont-Whole fuel dentry.next id),
)
