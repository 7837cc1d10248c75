-- ===== src/Fs/Data/Fresh.antt =====
-- src/fs_lib.c: `add_data` on a file without data.
use cs356_mini_file_system.Layout.{Inode}
use cs356_mini_file_system.Store.Prog.{Prog, ok, pure, ◌>>=◌}
use cs356_mini_file_system.Store.Spec.{Store, run, tick, update}
use cs356_mini_file_system.Store.Run.{IsZone, first_free-IsZone, run-free_id, run-pure, run-write}
use cs356_mini_file_system.Store.Bind.{run-bind_ok}
use cs356_mini_file_system.Base.{
  ==_ne, ==_self, List, [], ap, append-nil, arith, drop, false, inl, inr, length, length-append,
  ltb, lt→ltb, none, refl, replicate, some, suc, sym, true, ℕ, ◌&&◌, ◌++◌, ◌+◌, ◌<◌, ◌^◌, ◌∙◌, ◌∷◌,
  ◌≡◌, ◌≢◌,
}
use cs356_mini_file_system.Utils.Text.{IsText, Text, c_string, has_nul}
use cs356_mini_file_system.Alloc.Cache.{Zone}
use cs356_mini_file_system.Alloc.Bitmap.{f_occupied}
use cs356_mini_file_system.Alloc.Bitmap.Search.{first_free, zones_tracked}
use cs356_mini_file_system.Fs.Data.{
  Written, add_data, add_first_ptr, add_ptr, count_ptrs, last_ptr, not_negative, stamp_size,
  update_size, wrote_at, wrt_data, wrt_last,
}
use cs356_mini_file_system.Fs.Data.Write.{Wrote, wrt_data-Wrote}

abbrev no_ptrs : List ℕ
no_ptrs = replicate 24 0

-- the pointers of a file with one data zone
abbrev pub one_ptr : ℕ → List ℕ
one_ptr id = id ∷ replicate 23 0

nil_of_length : (xs : List ℕ) → length xs ≡ 0 → xs ≡ []
nil_of_length [] h = refl
nil_of_length (x ∷ xs) h = absurd (omega arith)

module _ (s : Store) {id : ℕ} (free : first_free s.states zones_tracked 4 ≡ some id) (str : Text)
    (valid : IsText str) (some_text : 0 < length str) (short : length str < 64) where
  id-IsZone : IsZone id
  id-IsZone = (first_free-IsZone s.states id free).0

  -- the zone is taken and cleared
  abbrev cleared : Store
  cleared = record s {
    zones = update s.zones id (replicate 64 0);
    states = update s.states id f_occupied;
  }

  run-add_ptr : run (add_ptr no_ptrs 0) s ≡ ok (some (one_ptr id)) cleared
  unfolding add_ptr
  run-add_ptr =
      let low : not_negative id ≡ true = lt→ltb id (2 ^ 15) id-IsZone.hi in
      run-free_id s f_occupied _ free
      ∙ rw low (
          run-write (record s { states = update s.states id f_occupied }) (replicate 64 0) _
            id-IsZone
          ∙ run-pure (some (one_ptr id)) cleared)

  run-add_first_ptr : run (add_first_ptr no_ptrs str) s ≡ ok (one_ptr id) cleared
  unfolding add_first_ptr
  run-add_first_ptr =
      rw (lt→ltb 0 (length str) some_text, add_first_ptr)
        (run-bind_ok (add_ptr no_ptrs 0) _ s run-add_ptr ∙ run-pure (one_ptr id) cleared)

  first_slot : last_ptr 19 (one_ptr id) ≡ 0
  unfolding last_ptr
  first_slot = refl

  ended : has_nul (cleared.zones id) ≡ true
  unfolding has_nul
  ended = rw (==_self id, has_nul) refl

  -- what `wrt_data` does to the cleared zone
  abbrev wrote :
      (n : ℕ) × (out : Zone) × (run (wrt_data id str) cleared
        ≡ ok n (record cleared { zones = update cleared.zones id out }))
      × Wrote (cleared.zones id) out str n
  wrote = wrt_data-Wrote cleared {id = id} str id-IsZone (rw (==_self id) refl) ended valid

  cleared_text : c_string (cleared.zones id) ≡ []
  unfolding c_string
  cleared_text = rw (==_self id, c_string) refl

  text_out : c_string wrote.1 ++ drop (wrote.0) str ≡ str
  text_out = wrote.3.text ∙ ap (λ t. t ++ str) cleared_text

  all_taken : drop (wrote.0) str ≡ []
  all_taken = elim wrote.3.whole [
    | inl taken ↦ taken
    | inr full ↦
        let sum : length (c_string wrote.1 ++ drop (wrote.0) str) ≡ length str =
          ap (λ l. length l) text_out in
        nil_of_length (drop (wrote.0) str)
          (omega (arith, full, sum, length-append (c_string wrote.1) (drop (wrote.0) str)))
  ]

  written_text : c_string wrote.1 ≡ str
  written_text =
      sym (append-nil (c_string wrote.1))
      ∙ ap (λ l. c_string wrote.1 ++ l) (sym all_taken)
      ∙ text_out

  -- the state with the text in the zone
  abbrev filled : Store
  filled = record cleared { zones = update cleared.zones id wrote.1 }

  abbrev one_part : Written
  one_part = record { ptrs = one_ptr id; idx = 0; count = wrote.0 }

  run-wrt_last : run (wrt_last no_ptrs str) s ≡ ok one_part filled
  unfolding wrt_last last_ptr wrote_at
  run-wrt_last =
      run-bind_ok (add_first_ptr no_ptrs str) _ s run-add_first_ptr
      ∙ run-bind_ok (wrt_data id str) _ cleared (wrote.2)
      ∙ run-pure _ filled

  size_of_one : (inode : Inode) → update_size (record inode { ptrs = one_ptr id }) ≡ pure 2
  unfolding update_size count_ptrs
  size_of_one inode = rw (==_ne id 0 (omega (arith, id-IsZone.lo)), count_ptrs) refl

  -- the inode behind the write
  abbrev stamped : Inode → Inode
  stamped inode = record inode { ptrs = one_ptr id; size = 2; time = s.world.clock 0 }

  run-stamp_size :
      (inode : Inode)
      → run (stamp_size (record inode { ptrs = one_ptr id })) filled
        ≡ ok (stamped inode) (record filled { world = tick s.world })
  unfolding stamp_size run
  run-stamp_size inode = rw (size_of_one inode) refl

  -- what `add_data` does when its first write is over
  add_data-rest : (fuel : ℕ) (inode : Inode) → Prog Inode
  add_data-rest fuel inode =
      elim (ltb 0 (length (drop one_part.count str)) && ltb one_part.idx 23) [
        | false ↦ stamp_size (record inode { ptrs = one_part.ptrs })
        | true ↦ do
          added ← add_ptr one_part.ptrs (one_part.idx + 1)
          elim added [
            | none ↦ pure (record inode { ptrs = one_part.ptrs })
            | some ptrs ↦ add_data fuel (record inode { ptrs = ptrs }) (drop one_part.count str)
          ]
      ]

  nothing_left :
      (fuel : ℕ) (inode : Inode)
      → add_data-rest fuel inode ≡ stamp_size (record inode { ptrs = one_ptr id })
  unfolding add_data-rest
  nothing_left fuel inode =
      let z : ltb 0 (length (drop one_part.count str)) ≡ false =
        ap (λ l. ltb 0 (length l)) all_taken in
      rw (z, add_data-rest) refl

  -- For a file without data zones, a text of 1 to 63 bytes, and a free zone, `add_data` ends with any
  -- fuel from 1 on: the inode has the free zone as its only pointer, the size 2 and the time of the
  -- clock, the zone holds the text, and no other zone and no other state is changed.
  pub add_data-Fresh :
      (fuel : ℕ) (inode : Inode)
      → inode.ptrs ≡ replicate 24 0
      → (s' : Store) × (run (add_data (suc fuel) inode str) s
          ≡ ok (record inode { ptrs = one_ptr id; size = 2; time = s.world.clock 0 }) s')
        × (c_string (s'.zones id) ≡ str)
        × ((j : ℕ) → j ≢ id → (s'.zones j ≡ s.zones j) × (s'.states j ≡ s.states j))
        × (s'.states id ≡ f_occupied)
  unfolding add_data add_data-rest
  add_data-Fresh fuel inode e = (
    record filled { world = tick s.world },
    run-bind_ok (wrt_last inode.ptrs str) _ s
          (ap (λ ptrs. run (wrt_last ptrs str) s) e ∙ run-wrt_last)
        ∙ ap (λ p. run p filled) (nothing_left fuel inode)
        ∙ run-stamp_size inode,
    ap c_string (rw (==_self id) refl) ∙ written_text,
    λ j ne. (rw (==_ne j id ne) refl, rw (==_ne j id ne) refl),
    rw (==_self id) refl,
  )
