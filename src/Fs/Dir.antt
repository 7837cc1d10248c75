-- ===== src/Fs/Dir.antt =====
-- src/fs_lib.c: a directory is a first zone with four entries and a chain of zones with five more.
-- A recursion along the chain takes fuel, the zones that it may still visit.
pub mod Subs
pub mod Fill
pub mod Chain
pub mod Add
pub mod Append
pub mod Whole
pub mod AddSub
use cs356_mini_file_system.Store.Prog.{
  Prog, fault, get_free_id, on_read, out_of_fuel, pure, time, write_zone, ◌>>=◌, ◌>>◌,
}
use cs356_mini_file_system.Base.{
  List, drop, false, get_or, if◌then◌else◌, length, ltb, none, replicate, set, some, suc, true,
  zero, ℕ, ◌++◌, ◌+◌, ◌-◌, ◌==◌, ◌∷◌,
}
use cs356_mini_file_system.Utils.Text.{Text, c_string, has_nul}
use cs356_mini_file_system.Alloc.Bitmap.{f_occupied}
use cs356_mini_file_system.Layout.{
  Dentry, DirZone, Sub, dentry_subs, dzone_subs, of_dentry, of_dir_zone, to_dentry, to_dir_zone,
}

abbrev pub zero_sub : Sub
zero_sub = record { id = 0; name = replicate 10 0 }

abbrev pub sub_at : List Sub → ℕ → Sub
sub_at subs i = get_or subs i zero_sub

-- `strcpy` into the ten bytes of a name: it must fit with its NUL.
unfoldable pub copy_name : List ℕ → Text → Prog (List ℕ)
copy_name field name =
    if ltb (length name) 10 then pure (name ++ 0 ∷ drop (length name + 1) field) else fault

-- `strcpy` from a name's ten bytes, which must hold its NUL
unfoldable pub copy_field : List ℕ → List ℕ → Prog (List ℕ)
unfolding copy_name
copy_field field source = if has_nul source then copy_name field (c_string source) else fault

-- `subs[idx].id = id; strcpy(subs[idx].name, name);`
unfoldable pub fill_sub : List Sub → ℕ → ℕ → Text → Prog (List Sub)
fill_sub subs idx id name = do
  field ← copy_name (sub_at subs idx).name name
  pure (set subs idx (record { id = id; name = field }))

-- `for (idx=n; idx>0; idx--) if (subs[idx-1].id) break;`
unfoldable pub free_slot : ℕ → List Sub → ℕ
free_slot zero subs = 0
free_slot (suc n) subs = if (sub_at subs n).id == 0 then free_slot n subs else suc n

-- a zone behind a full one, with one entry
unfoldable pub write_first_sub : ℕ → ℕ → ℕ → Text → Prog (Unit {0})
write_first_sub zone_id parent id name = do
  subs ← fill_sub (replicate dzone_subs zero_sub) 0 id name
  write_zone zone_id (of_dir_zone (record { parent = parent; subs = subs; next = 0 }))

-- the branches of `add_sub_cont` without a further zone
unfoldable pub add_to_dzone : ℕ → DirZone → ℕ → Text → Prog (Unit {0})
add_to_dzone p_id dzone id name = elim ((sub_at dzone.subs (dzone_subs - 1)).id == 0) [
  | false ↦ do
    next ← get_free_id f_occupied
    write_zone p_id (of_dir_zone (record dzone { next = next }))
    write_first_sub next dzone.parent id name
  | true ↦ do
    subs ← fill_sub dzone.subs (free_slot (dzone_subs - 1) dzone.subs) id name
    write_zone p_id (of_dir_zone (record dzone { subs = subs }))
]

-- `add_sub_cont` below its read of the zone; `rest` is its call of itself
unfoldable pub visit_dzone : (ℕ → Prog (Unit {0})) → ℕ → DirZone → ℕ → Text → Prog (Unit {0})
visit_dzone rest p_id dzone id name = elim (dzone.next == 0) [
  | true ↦ add_to_dzone p_id dzone id name
  | false ↦ do write_zone p_id (of_dir_zone dzone); rest dzone.next
]

unfoldable pub add_sub_cont : ℕ → ℕ → ℕ → Text → Prog (Unit {0})
add_sub_cont zero p_id id name = out_of_fuel
add_sub_cont (suc fuel) p_id id name = on_read p_id (elim [
  | none ↦ pure tt
  | some zone ↦ visit_dzone (λ q. add_sub_cont fuel q id name) p_id (to_dir_zone zone) id name
])

unfoldable pub add_to_dentry : ℕ → Dentry → ℕ → Text → Prog (Unit {0})
add_to_dentry p_id dentry id name = elim ((sub_at dentry.subs (dentry_subs - 1)).id == 0) [
  | false ↦ do
    next ← get_free_id f_occupied
    write_zone p_id (of_dentry (record dentry { next = next }))
    write_first_sub next dentry.parent id name
  | true ↦ do
    subs ← fill_sub dentry.subs (free_slot (dentry_subs - 1) dentry.subs) id name
    write_zone p_id (of_dentry (record dentry { subs = subs }))
]

-- `add_sub` below its read of the zone
unfoldable pub visit_dentry : (ℕ → Prog (Unit {0})) → ℕ → Dentry → ℕ → Text → Prog (Unit {0})
visit_dentry rest p_id dentry id name = elim (dentry.next == 0) [
  | true ↦ add_to_dentry p_id dentry id name
  | false ↦ do write_zone p_id (of_dentry dentry); rest dentry.next
]

unfoldable pub add_sub : ℕ → ℕ → ℕ → Text → Prog (Unit {0})
add_sub fuel p_id id name = on_read p_id (elim [
  | none ↦ pure tt
  | some zone ↦ do
    now ← time
    visit_dentry (λ q. add_sub_cont fuel q id name) p_id (record (to_dentry zone) { time = now }) id
        name
])
