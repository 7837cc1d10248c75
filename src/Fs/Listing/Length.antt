-- ===== src/Fs/Listing/Length.antt =====
-- src/fs_lib.c: `get_ls_len` and the entries of a directory.
use cs356_mini_file_system.Fs.Dir.Whole.{Directory, large, small}
use cs356_mini_file_system.Alloc.Bitmap.{d_occupied}
use cs356_mini_file_system.Store.Bind.{run-bind}
use cs356_mini_file_system.Store.Prog.{Prog, ok, pure, ◌>>=◌}
use cs356_mini_file_system.Base.{
  ==_iff, ==_ne, List, [], ap, arith, length, length-append, refl, suc, zero, ℕ, ◌++◌, ◌+◌, ◌<◌,
  ◌∙◌, ◌∷◌, ◌≡◌, ◌≢◌, ◌≤◌,
}
use cs356_mini_file_system.Layout.{Dentry, DirZone, Sub, dentry_subs, dzone_subs}
use cs356_mini_file_system.Layout.RoundTrip.{to_dentry-of_dentry, to_dir_zone-of_dir_zone}
use cs356_mini_file_system.Store.Spec.{Store, run, zone_limit}
use cs356_mini_file_system.Store.Run.{IsZone, run-pure, run-read, run-state}
use cs356_mini_file_system.Fs.Dir.Subs.{Entry, entries, taken}
use cs356_mini_file_system.Fs.Dir.Chain.{Chain, last, link}
use cs356_mini_file_system.Fs.Listing.{
  count_by_state, count_dentry, count_dzone, count_subs, get_ls_len, get_ls_len_cont,
}

count_subs-taken : (subs : List Sub) → count_subs subs ≡ taken subs
unfolding count_subs entries
count_subs-taken [] = refl
count_subs-taken (sub ∷ subs) = ground (arith, count_subs-taken subs)

count_dzone-last :
    (rest : ℕ → Prog ℕ) (d : DirZone) → d.next ≡ 0 → count_dzone rest d ≡ pure (count_subs d.subs)
unfolding count_dzone
count_dzone-last rest d z = rw ((==_iff d.next 0).1 z, count_dzone)

count_dzone-link :
    (rest : ℕ → Prog ℕ) (d : DirZone)
    → d.next ≢ 0
    → count_dzone rest d ≡ (do len ← rest d.next; pure (dzone_subs + len))
unfolding count_dzone
count_dzone-link rest d nz = rw (==_ne d.next 0 nz, count_dzone)

count_dentry-small :
    (rest : ℕ → Prog ℕ) (d : Dentry) → d.next ≡ 0 → count_dentry rest d ≡ pure (count_subs d.subs)
unfolding count_dentry
count_dentry-small rest d z = rw ((==_iff d.next 0).1 z, count_dentry)

count_dentry-large :
    (rest : ℕ → Prog ℕ) (d : Dentry)
    → d.next ≢ 0
    → count_dentry rest d ≡ (do len ← rest d.next; pure (dentry_subs + len))
unfolding count_dentry
count_dentry-large rest d nz = rw (==_ne d.next 0 nz, count_dentry)

module _ (s : Store) where
  -- the count of a zone and of what lies behind it
  run-count :
      (m : Prog ℕ) (subs : List Sub) (es : List Entry) (k : ℕ)
      → run m s ≡ ok (length es) s
      → taken subs ≡ k
      → run (do len ← m; pure (k + len)) s ≡ ok (length (entries subs ++ es)) s
  unfolding run
  run-count m subs es k e full =
      run-bind m (λ len. pure (k + len)) s
      ∙ rw e (ap (λ n. ok n s) (omega (arith, length-append (entries subs) es)))

  get_ls_len_cont-length :
      (fuel : ℕ) {id : ℕ} {ids : List ℕ} {es : List Entry}
      → Chain s.zones id ids es
      → length ids ≤ fuel
      → run (get_ls_len_cont fuel id) s ≡ ok (length es) s
  unfolding get_ls_len_cont
  get_ls_len_cont-length zero (last d h z p) enough = absurd (omega arith)
  get_ls_len_cont-length zero (link d h nz full out rest) enough = absurd (omega arith)
  get_ls_len_cont-length (suc fuel) (last d h z p) enough =
      run-read s _ h.zone
      ∙ rw
          (
            h.bytes,
            to_dir_zone-of_dir_zone d h.fits,
            count_dzone-last _ d z,
            count_subs-taken d.subs,
          )
          (run-pure _ s)
  get_ls_len_cont-length (suc fuel) (link {es} d h nz full out rest) enough =
      run-read s _ h.zone
      ∙ rw (h.bytes, to_dir_zone-of_dir_zone d h.fits, count_dzone-link _ d nz)
          (run-count (get_ls_len_cont fuel d.next) d.subs es 5
            (get_ls_len_cont-length fuel rest (omega arith)) full)

  -- the listing of a directory
  count-length :
      (fuel : ℕ) {id : ℕ} {ids : List ℕ} {es : List Entry}
      → Directory s.zones id ids es
      → length ids ≤ fuel + 1
      → run (count_by_state fuel id d_occupied) s ≡ ok (length es) s
  unfolding count_by_state
  count-length fuel (small d h z p) enough =
      run-read s _ h.zone
      ∙ rw
          (h.bytes, to_dentry-of_dentry d h.fits, count_dentry-small _ d z, count_subs-taken d.subs)
          (run-pure _ s)
  count-length fuel (large {es} d h nz full out rest) enough =
      run-read s _ h.zone
      ∙ rw (h.bytes, to_dentry-of_dentry d h.fits, count_dentry-large _ d nz)
          (run-count (get_ls_len_cont fuel d.next) d.subs es 4
            (get_ls_len_cont-length fuel rest (omega arith)) full)

  -- For a directory in a zone of the bitmap, whose state says so, `get_ls_len` ends within the
  -- fuel of as many zones as the directory has, returns the number of its entries and changes
  -- nothing.
  pub get_ls_len-length :
      (fuel : ℕ) {id : ℕ} {ids : List ℕ} {es : List Entry}
      → Directory s.zones id ids es
      → IsZone id
      → id < zone_limit
      → s.states id ≡ d_occupied
      → length ids ≤ fuel + 1
      → run (get_ls_len fuel id) s ≡ ok (length es) s
  unfolding get_ls_len
  get_ls_len-length fuel dir z h state enough =
      run-state s (count_by_state fuel _) z h ∙ rw state (count-length fuel dir enough)
