-- ===== src/Fs/Remove/Small.antt =====
-- src/fs_lib.c: `rm_sub` on a directory whose entries are all in its first zone.
use cs356_mini_file_system.Base.{
  ==_iff, ==_ne, ==_self, Bool, List, Option-cases, [], ap, ap₂, arith, get_or, inl, inr, length,
  none, refl, some, sym, true, ℕ, ◌+◌, ◌<◌, ◌∙◌, ◌∷◌, ◌≡◌, ◌≢◌, ◌⊎◌,
}
use cs356_mini_file_system.Layout.{Dentry, dentry_subs, of_dentry, to_dentry}
use cs356_mini_file_system.Layout.RoundTrip.{to_dentry-of_dentry}
use cs356_mini_file_system.Utils.Text.{Text, c_string}
use cs356_mini_file_system.Store.Prog.{Prog, ok, pure, write_zone}
use cs356_mini_file_system.Store.Spec.{Store, run, update}
use cs356_mini_file_system.Store.Run.{run-pure, run-read, run-write_zone}
use cs356_mini_file_system.Fs.Dir.{sub_at}
use cs356_mini_file_system.Fs.Dir.Subs.{Entry, entries, entry_of, packed, taken, taken-le}
use cs356_mini_file_system.Fs.Dir.Whole.{Directory, HoldsDir, small}
use cs356_mini_file_system.Fs.Remove.{find_slot_of, rm_from_dentry, rm_sub, rm_sub_cont}
use cs356_mini_file_system.Fs.Remove.Slots.{
  entries-at, find_slot_of-none, find_slot_of-some, no_entry,
}
use cs356_mini_file_system.Fs.Remove.Bag.{count, count-swap_remove, one}
use cs356_mini_file_system.Fs.Remove.Move.{
  NamesEnd, entries-moved_subs, length-moved_subs, move_last-moved, moved_subs, moved_subs-SubFits,
}

-- The state after the entry `eid` was taken out of the directory of one zone with the entries `es`.
pub record Removed (s s' : Store) (id eid : ℕ) (es : List Entry) : Type 0 where
  pub kept : List Entry
  pub name : Text
  pub directory : Directory s'.zones id (id ∷ []) kept
  pub bag : (test : Entry → Bool) → count test es ≡ one test (eid, name) + count test kept
  pub zones_kept : (j : ℕ) → j ≢ id → s'.zones j ≡ s.zones j
  pub states_kept : s'.states ≡ s.states
  pub world_kept : s'.world ≡ s.world

-- None of the entries has the id.
abbrev pub Absent : ℕ → List Entry → Type 0
Absent eid es = (j : ℕ) → j < length es → (get_or es j no_entry).0 ≢ eid

module _ (fuel : ℕ) (s : Store) {id : ℕ} (eid : ℕ) (d : Dentry) (h : HoldsDir s.zones id d)
    (z : d.next ≡ 0) (p : packed d.subs ≡ true) (ends : NamesEnd d.subs) where
  abbrev rest : ℕ → Prog (Unit {0})
  rest = λ q. rm_sub_cont fuel q eid

  run-rm_sub : run (rm_sub fuel id eid) s ≡ run (rm_from_dentry fuel rest id d eid) s
  unfolding rm_sub
  run-rm_sub =
      run-read s _ h.zone
      ∙ ap (λ e. run (rm_from_dentry fuel rest id e eid) s)
          (ap to_dentry h.bytes ∙ to_dentry-of_dentry d h.fits)

  rm_from_dentry-none :
      find_slot_of dentry_subs d.subs 0 eid ≡ none → rm_from_dentry fuel rest id d eid ≡ pure tt
  unfolding rm_from_dentry
  rm_from_dentry-none missing = rw (missing, (==_iff d.next 0).1 z, rm_from_dentry) refl

  missing-Absent : find_slot_of dentry_subs d.subs 0 eid ≡ none → Absent eid (entries d.subs)
  unfolding entry_of
  missing-Absent missing j lt same =
      find_slot_of-none dentry_subs d.subs 0 eid missing j (omega arith)
        (omega (arith, taken-le d.subs, h.fits.count)) lt
        (sym (ap (λ (e : Entry). e.0) (entries-at d.subs j lt)) ∙ same)

  module _ (idx : ℕ) (found : find_slot_of dentry_subs d.subs 0 eid ≡ some idx) where
    used : idx < taken d.subs
    used = (find_slot_of-some dentry_subs d.subs 0 eid idx p found).0

    -- the first zone without the entry
    abbrev shrunk : Dentry
    shrunk = record d { subs = moved_subs d.subs idx }

    rm_from_dentry-some : rm_from_dentry fuel rest id d eid ≡ write_zone id (of_dentry shrunk)
    unfolding rm_from_dentry
    rm_from_dentry-some =
        rw
          (
            found,
            (==_iff d.next 0).1 z,
            rm_from_dentry,
            move_last-moved d.subs idx p used h.fits.subs ends dentry_subs h.fits.count,
          )
          refl

    abbrev s_after : Store
    s_after = record s { zones = update s.zones id (of_dentry shrunk) }

    run-some : run (rm_sub fuel id eid) s ≡ ok tt s_after
    run-some = run-rm_sub ∙ ap (λ q. run q s) rm_from_dentry-some ∙ run-write_zone s _ h.zone

    entry-eid : get_or (entries d.subs) idx no_entry ≡ (eid, c_string (sub_at d.subs idx).name)
    unfolding entry_of
    entry-eid =
        entries-at d.subs idx used
        ∙ ap (λ i. (i, c_string (sub_at d.subs idx).name))
            (find_slot_of-some dentry_subs d.subs 0 eid idx p found).1

    shrunk-HoldsDir : HoldsDir s_after.zones id shrunk
    shrunk-HoldsDir = record {
      zone = h.zone;
      bytes = rw (==_self id) refl;
      fits = record {
        parent = h.fits.parent;
        mode = h.fits.mode;
        owner = h.fits.owner;
        count = length-moved_subs d.subs idx p used h.fits.subs ends ∙ h.fits.count;
        subs = moved_subs-SubFits d.subs idx p used h.fits.subs ends;
        next = h.fits.next;
        time = h.fits.time;
      };
    }

    after-Removed : Removed s s_after id eid (entries d.subs)
    after-Removed =
        let (left, p') = entries-moved_subs d.subs idx p used h.fits.subs ends in
        record {
          kept = entries shrunk.subs;
          name = c_string (sub_at d.subs idx).name;
          directory = small shrunk shrunk-HoldsDir z p';
          bag = λ test.
              count-swap_remove test no_entry (entries d.subs) idx used
              ∙ ap₂ (λ e es. one test e + count test es) entry-eid (sym left);
          zones_kept = λ j ne. rw (==_ne j id ne) refl;
          states_kept = refl;
          world_kept = refl;
        }

-- For a directory whose entries are all in its first zone, with names that end in a NUL, `rm_sub`
-- ends with any fuel. If the id is among the entries, it takes one entry of that id out: the
-- others are kept, each as often as before, and no other zone and no state is changed. If the id
-- is not among them, it changes nothing.
pub rm_sub-Removes :
    (fuel : ℕ) (s : Store) {id : ℕ} (eid : ℕ) (d : Dentry)
    → HoldsDir s.zones id d
    → d.next ≡ 0
    → packed d.subs ≡ true
    → NamesEnd d.subs
    → ((s' : Store) × (run (rm_sub fuel id eid) s ≡ ok tt s')
        × Removed s s' id eid (entries d.subs))
      ⊎ ((run (rm_sub fuel id eid) s ≡ ok tt s) × Absent eid (entries d.subs))
rm_sub-Removes fuel s {id} eid d h z p ends =
    elim (Option-cases (find_slot_of dentry_subs d.subs 0 eid)) [
      | inr (idx, found) ↦ inl (
        s_after fuel s eid d h z p ends idx found,
        run-some fuel s eid d h z p ends idx found,
        after-Removed fuel s eid d h z p ends idx found,
      )
      | inl missing ↦ inr (
        run-rm_sub fuel s eid d h z p ends
            ∙ ap (λ q. run q s) (rm_from_dentry-none fuel s eid d h z p ends missing)
            ∙ run-pure tt s,
        missing-Absent fuel s eid d h z p ends missing,
      )
    ]
