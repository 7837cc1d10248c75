-- ===== src/Fs/Remove.antt =====
-- src/fs_lib.c: an entry is taken out of a directory, and the last entry put in its place.
pub mod Slots
pub mod Move
pub mod Small
pub mod Bag
use cs356_mini_file_system.Store.Prog.{
  Prog, fault, on_read, out_of_fuel, pure, write_zone, ◌>>=◌, ◌>>◌,
}
use cs356_mini_file_system.Base.{
  List, Option, false, if◌then◌else◌, ltb, none, set, some, suc, true, zero, ℕ, ◌+◌, ◌-◌, ◌==◌, ◌^◌,
}
use cs356_mini_file_system.Layout.{
  Dentry, DirZone, Sub, dentry_subs, dzone_subs, of_dentry, of_dir_zone, to_dentry, to_dir_zone,
}
use cs356_mini_file_system.Fs.Dir.{copy_field, sub_at, zero_sub}

-- `while (sub_idx>=0 && 0 == subs[sub_idx].id) sub_idx--;` from slot `n-1`
unfoldable pub tail_slot : ℕ → List Sub → Option ℕ
tail_slot zero subs = none
tail_slot (suc n) subs = if (sub_at subs n).id == 0 then tail_slot n subs else some n

-- `id = 0; bzero(name, 10);`
unfoldable pub clear_sub : List Sub → ℕ → List Sub
clear_sub subs i = set subs i zero_sub

-- `rm_tail_sub` returns -1 when the last zone of the chain is empty. When it has taken the last
-- entry out it ends without a return value, which its callers use: undefined behaviour.
unfoldable pub rm_tail_sub : ℕ → ℕ → List ℕ → Prog ℕ
rm_tail_sub zero p_id name = out_of_fuel
rm_tail_sub (suc fuel) p_id name = on_read p_id (elim [
  | none ↦ fault
  | some zone ↦
      let dzone = to_dir_zone zone in
      let further = rm_tail_sub fuel dzone.next name in
      elim (dzone.next == 0) [
        | false ↦ further
        | true ↦ elim (tail_slot dzone_subs dzone.subs) [
          | none ↦ pure (2 ^ 16 - 1)
          | some i ↦ do
            copied ← copy_field name (sub_at dzone.subs i).name
            write_zone p_id (of_dir_zone (record dzone { subs = clear_sub dzone.subs i }))
            fault
        ]
      ]
])

-- the loop that looks for the entry `id`, with the slots that are left
unfoldable pub find_slot_of : ℕ → List Sub → ℕ → ℕ → Option ℕ
find_slot_of zero subs idx id = none
find_slot_of (suc n) subs idx id =
    if (sub_at subs idx).id == 0
    then none
    else if id == (sub_at subs idx).id
    then some idx
    else find_slot_of n subs (idx + 1) id

-- `while (i < N-1 && subs[i+1].id) i++;` with `n = N-1 - i`
unfoldable pub last_slot : ℕ → List Sub → ℕ → ℕ
last_slot zero subs i = i
last_slot (suc n) subs i = if (sub_at subs (i + 1)).id == 0 then i else last_slot n subs (i + 1)

-- The last entry of the zone moves into the slot `idx`.
unfoldable pub move_last : ℕ → List Sub → ℕ → Prog (List Sub)
move_last slots subs idx =
    let i = last_slot (slots - 1 - idx) subs idx in
    if ltb idx i
    then (do
      name ← copy_field (sub_at subs idx).name (sub_at subs i).name
      pure (clear_sub (set subs idx (record { id = (sub_at subs i).id; name = name })) i))
    else pure (clear_sub subs i)

-- `rm_sub_cont` below its read of the zone
unfoldable pub rm_from_dzone : ℕ → (ℕ → Prog (Unit {0})) → ℕ → DirZone → ℕ → Prog (Unit {0})
rm_from_dzone fuel rest p_id dzone id = elim (find_slot_of dzone_subs dzone.subs 0 id) [
  | some idx ↦ elim (dzone.next == 0) [
    | true ↦ do
      subs ← move_last dzone_subs dzone.subs idx
      write_zone p_id (of_dir_zone (record dzone { subs = subs }))
    | false ↦ do
      let field = (sub_at dzone.subs idx).name
      tail ← rm_tail_sub fuel dzone.next field
      write_zone p_id (
          of_dir_zone
            (record dzone { subs = set dzone.subs idx (record { id = tail; name = field }) }))
  ]
  | none ↦ elim (dzone.next == 0) [ true ↦ pure tt | false ↦ rest dzone.next ]
]

unfoldable pub rm_sub_cont : ℕ → ℕ → ℕ → Prog (Unit {0})
rm_sub_cont zero p_id id = out_of_fuel
rm_sub_cont (suc fuel) p_id id = on_read p_id (elim [
  | none ↦ pure tt
  | some zone ↦ rm_from_dzone fuel (λ q. rm_sub_cont fuel q id) p_id (to_dir_zone zone) id
])

-- `rm_sub` below its read of the zone
unfoldable pub rm_from_dentry : ℕ → (ℕ → Prog (Unit {0})) → ℕ → Dentry → ℕ → Prog (Unit {0})
rm_from_dentry fuel rest p_id dentry id = elim (find_slot_of dentry_subs dentry.subs 0 id) [
  | some idx ↦ elim (dentry.next == 0) [
    | true ↦ do
      subs ← move_last dentry_subs dentry.subs idx
      write_zone p_id (of_dentry (record dentry { subs = subs }))
    | false ↦ do
      let field = (sub_at dentry.subs idx).name
      tail ← rm_tail_sub fuel dentry.next field
      write_zone p_id (
          of_dentry
            (record dentry { subs = set dentry.subs idx (record { id = tail; name = field }) }))
  ]
  | none ↦ elim (dentry.next == 0) [ true ↦ pure tt | false ↦ rest dentry.next ]
]

unfoldable pub rm_sub : ℕ → ℕ → ℕ → Prog (Unit {0})
rm_sub fuel p_id id = on_read p_id (elim [
  | none ↦ pure tt
  | some zone ↦ rm_from_dentry fuel (λ q. rm_sub_cont fuel q id) p_id (to_dentry zone) id
])
