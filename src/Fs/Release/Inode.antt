-- ===== src/Fs/Release/Inode.antt =====
-- src/fs_lib.c: `rm_inode` on a file whose data zones are all direct.
use cs356_mini_file_system.Store.Bind.{run-bind}
use cs356_mini_file_system.Alloc.Cache.{Zone}
use cs356_mini_file_system.Layout.RoundTrip.{InodeFits, to_inode-of_inode}
use cs356_mini_file_system.Layout.{Inode, of_inode, to_inode}
use cs356_mini_file_system.Base.{
  ==_iff, All, Bool, Bool-cases, List, [], ap, arith, drop, false, get_or, if◌then◌else◌, inl, inr,
  length, lt→ltb, refl, suc, take, true, zero, ℕ, ◌<◌, ◌==◌, ◌∙◌, ◌∷◌, ◌≡◌, ◌≤◌,
}
use cs356_mini_file_system.Alloc.Bitmap.{reserved, unoccupied}
use cs356_mini_file_system.Store.Prog.{
  Prog, and_then, ok, on_release, pure, set_free_id, ◌>>=◌, ◌>>◌,
}
use cs356_mini_file_system.Store.Spec.{Store, run, update, zone_limit}
use cs356_mini_file_system.Store.Run.{IsZone, run-pure, run-read}
use cs356_mini_file_system.Fs.Dir.Chain.{has}
use cs356_mini_file_system.Fs.Release.{and_if, each_ptr, rm_idx_data, rm_idx_idx, rm_inode, rm_ptrs}

-- the pointers up to the first free slot
unfoldable pub used_ptrs : List ℕ → List ℕ
used_ptrs [] = []
used_ptrs (p ∷ ps) = if p == 0 then [] else p ∷ used_ptrs ps

-- a zone of the bitmap
abbrev pub InMap : ℕ → Type 0
InMap id = (4 ≤ id) × (id < zone_limit)

freed : (ℕ → ℕ) → List ℕ → ℕ → ℕ
freed states [] = states
freed states (p ∷ ps) = freed (update states p unoccupied) ps

freed-has :
    (states : ℕ → ℕ) (ids : List ℕ) (j : ℕ)
    → freed states ids j ≡ (if has j ids then unoccupied else states j)
unfolding freed has
freed-has states [] j = refl
freed-has states (p ∷ ps) j = freed-has (update states p unoccupied) ps j ∙ ground arith

abbrev with_states : Store → (ℕ → ℕ) → Store
with_states s states = record s { states = states }

run-release :
    {A : Type 0} (s : Store) {id : ℕ} (next : Prog A)
    → InMap id
    → run (on_release id next) s ≡ run next (with_states s (update s.states id unoccupied))
unfolding run
run-release s {id} next (lo, hi) =
    let open_ : reserved id ≡ false = ground arith in rw (open_, lt→ltb id zone_limit hi)

pub each_ptr-zero :
    (body : ℕ → Prog (Unit {0})) (p : ℕ) (ps : List ℕ) → p ≡ 0 → each_ptr body (p ∷ ps) ≡ pure false
unfolding each_ptr
each_ptr-zero body p ps z = rw ((==_iff p 0).1 z, each_ptr) refl

pub each_ptr-ptr :
    (body : ℕ → Prog (Unit {0})) (p : ℕ) (ps : List ℕ)
    → (p == 0) ≡ false
    → each_ptr body (p ∷ ps) ≡ (body p >> each_ptr body ps)
unfolding each_ptr
each_ptr-ptr body p ps nz = rw (nz, each_ptr) refl

-- the loop over the direct pointers
run-each_ptr :
    (ps : List ℕ) (s : Store)
    → All InMap (used_ptrs ps)
    → (through : Bool) × (run (each_ptr set_free_id ps) s
        ≡ ok through (with_states s (freed s.states (used_ptrs ps))))
unfolding freed used_ptrs
run-each_ptr [] s h = (true, unfold each_ptr in run-pure true s)
run-each_ptr (p ∷ ps) s h = elim (Bool-cases (p == 0)) [
  | inl z ↦ (
    false,
    rw (z, used_ptrs)
        (ap (λ q. run q s) (each_ptr-zero set_free_id p ps ((==_iff p 0).0 z)) ∙ run-pure false s),
  )
  | inr nz ↦
      let h' : InMap p × All InMap (used_ptrs ps) = rw nz at h in
      let (through, rest) = run-each_ptr ps (with_states s (update s.states p unoccupied)) h'.1 in
      (
        through,
        rw (nz, used_ptrs)
            (ap (λ q. run q s) (each_ptr-ptr set_free_id p ps nz)
              ∙ run-release s (each_ptr set_free_id ps) h'.0
              ∙ rest),
      )
]

drop-get_or : (xs : List ℕ) (i : ℕ) → i < length xs → drop i xs ≡ get_or xs i 0 ∷ drop (suc i) xs
drop-get_or [] i h = absurd (omega arith)
drop-get_or (x ∷ xs) zero h = refl
drop-get_or (x ∷ xs) (suc i) h = drop-get_or xs i (omega arith)

-- the loops over the index zones, behind the loop over the direct pointers
behind_direct : List ℕ → Bool → Prog (Unit {0})
behind_direct ptrs direct = do
  single ← and_if direct (each_ptr rm_idx_data (take 2 (drop 20 ptrs)))
  double ← and_if single (each_ptr rm_idx_idx (take 2 (drop 22 ptrs)))
  pure tt

behind_direct-pure :
    (ptrs : List ℕ) (direct : Bool)
    → length ptrs ≡ 24
    → get_or ptrs 20 0 ≡ 0
    → behind_direct ptrs direct ≡ pure tt
unfolding behind_direct and_if
behind_direct-pure ptrs false size z = refl
behind_direct-pure ptrs true size z =
    let stops : each_ptr rm_idx_data (take 2 (drop 20 ptrs)) ≡ pure false =
      ap (λ l. each_ptr rm_idx_data (take 2 l)) (drop-get_or ptrs 20 (omega arith))
      ∙ each_ptr-zero rm_idx_data (get_or ptrs 20 0) (take 1 (drop 21 ptrs)) z in
    ap
      (λ (m : Prog Bool). m >>= λ single.
        and_if single (each_ptr rm_idx_idx (take 2 (drop 22 ptrs))) >>= λ double. pure tt)
      stops

run-rm_ptrs :
    (ptrs : List ℕ) (s : Store)
    → length ptrs ≡ 24
    → get_or ptrs 20 0 ≡ 0
    → All InMap (used_ptrs (take 20 ptrs))
    → run (rm_ptrs ptrs) s ≡ ok tt (with_states s (freed s.states (used_ptrs (take 20 ptrs))))
unfolding rm_ptrs behind_direct
run-rm_ptrs ptrs s size z h =
    let (through, direct) = run-each_ptr (take 20 ptrs) s h in
    let s' = with_states s (freed s.states (used_ptrs (take 20 ptrs))) in
    run-bind (each_ptr set_free_id (take 20 ptrs)) (behind_direct ptrs) s
    ∙ ap (λ o. and_then o (λ b s1. run (behind_direct ptrs b) s1)) direct
    ∙ ap (λ q. run q s') (behind_direct-pure ptrs through size z)
    ∙ run-pure tt s'

-- the zone `id` of the bitmap holds the inode
pub record HoldsInode (zones : ℕ → Zone) (id : ℕ) (inode : Inode) : Type 0 where
  pub zone : InMap id
  pub bytes : zones id ≡ of_inode inode
  pub fits : InodeFits inode

-- For an inode in a zone of the bitmap, without index zones and with data zones of the bitmap,
-- `rm_inode` ends and frees the inode's zone and its data zones, up to the first pointer that is
-- 0, and no other zone; it changes nothing else.
pub rm_inode-Frees :
    (s : Store) {id : ℕ} (inode : Inode)
    → HoldsInode s.zones id inode
    → get_or inode.ptrs 20 0 ≡ 0
    → All InMap (used_ptrs (take 20 inode.ptrs))
    → (s' : Store) × (run (rm_inode id) s ≡ ok tt s')
      × ((j : ℕ)
          → s'.states j
            ≡ (if has j (id ∷ used_ptrs (take 20 inode.ptrs)) then unoccupied else s.states j))
      × (s'.zones ≡ s.zones)
      × (s'.world ≡ s.world)
unfolding rm_inode freed
rm_inode-Frees s {id} inode h z tracked =
    let ids = used_ptrs (take 20 inode.ptrs) in
    let s1 = with_states s (update s.states id unoccupied) in
    let zone : IsZone id = record { lo = h.zone.0; hi = omega (arith, h.zone.1) } in
    (
      with_states s (freed s1.states ids),
      run-read s _ zone
          ∙ ap (λ (i : Inode). run (on_release id (rm_ptrs i.ptrs)) s)
              (ap to_inode h.bytes ∙ to_inode-of_inode inode h.fits)
          ∙ run-release s (rm_ptrs inode.ptrs) h.zone
          ∙ run-rm_ptrs inode.ptrs s1 h.fits.count z tracked,
      freed-has s.states (id ∷ ids),
      refl,
      refl,
    )
