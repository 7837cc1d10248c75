-- ===== src/Fs/Whole/Data.antt =====
-- src/fs_lib.c: the zones that are written where a text is appended to a file.
use cs356_mini_file_system.Base.{
  Bool-cases, List, Option, [], arith, drop, inl, inr, length, length-append, length-drop,
  length-set, length-take, ltb, ltb→lt, none, refl, some, suc, take, zero, ℕ, ◌%◌, ◌&&◌, ◌++◌, ◌+◌,
  ◌-◌, ◌<◌, ◌==◌, ◌^◌, ◌∙◌, ◌∷◌, ◌≡◌,
}
use cs356_mini_file_system.Utils.Text.{Text, c_string, c_string-lt, has_nul}
use cs356_mini_file_system.Layout.{Inode, of_idx_zone, to_idx_zone}
use cs356_mini_file_system.Layout.RoundTrip.{length-to_idx_zone}
use cs356_mini_file_system.Layout.Sizes.{length-of_idx_zone}
use cs356_mini_file_system.Store.Whole.{
  WritesWhole, Yields, Yields-bind, Yields-either, after, both, either,
}
use cs356_mini_file_system.Fs.Data.{
  Written, add_data, add_first_ptr, add_ptr, append_text, last_ptr, not_negative, ptr_at,
  size_of_idx, size_of_idx_idx, stamp_size, sum_sizes, update_size, wrote_at, wrt_bytes, wrt_data,
  wrt_idx, wrt_idx_data, wrt_idx_idx, wrt_last, wrt_slots,
}
use cs356_mini_file_system.Store.Prog.{Prog, fault, pure, time, write_zone, ◌>>=◌, ◌>>◌}

append_text-whole :
    (bytes : List ℕ) (text str : Text)
    → length bytes ≡ 64
    → length text + length str < 64
    → length (append_text bytes text str) ≡ 64
unfolding append_text
append_text-whole bytes text str h short = omega (
  arith,
  length-append (text ++ str) (0 ∷ drop (length (text ++ str) + 1) bytes),
  length-append text str,
  length-drop (length (text ++ str) + 1) bytes,
  h,
  short,
)

wrt_bytes-Whole :
    (id : ℕ) (bytes : List ℕ) (str : Text)
    → length bytes ≡ 64
    → WritesWhole (wrt_bytes id bytes str)
unfolding wrt_bytes Yields
wrt_bytes-Whole id bytes str full =
    let text = c_string bytes in
    either (has_nul bytes) fault _ (λ no_nul. tt)
      (λ nul.
        let fits : length text < 64 = omega (arith, c_string-lt bytes nul, full) in
        either (ltb (length text + length str) 64) _ _
          (λ long. (
            append_text-whole bytes text (take (63 - length text) str) full
                (omega (arith, fits, length-take (63 - length text) str)),
            tt,
          ))
          (λ short. (
            append_text-whole bytes text str full (ltb→lt (length text + length str) 64 short),
            tt,
          )))

wrt_data-Whole : (id : ℕ) (str : Text) → WritesWhole (wrt_data id str)
unfolding wrt_data Yields
wrt_data-Whole id str = (tt, λ zone full. wrt_bytes-Whole id zone str full)

-- nothing, or that many pointers
abbrev Sized : ℕ → Option (List ℕ) → Type 0
Sized n none = Unit
Sized n (some ptrs) = length ptrs ≡ n

add_ptr-Yields :
    (n : ℕ) (ptrs : List ℕ) (idx : ℕ) → length ptrs ≡ n → Yields (Sized n) (add_ptr ptrs idx)
unfolding add_ptr Yields
add_ptr-Yields n ptrs idx h id = elim (Bool-cases (not_negative id)) [
  | inl ok_ ↦ rw ok_ (refl, length-set ptrs idx id ∙ h)
  | inr bad ↦ rw bad tt
]

add_first_ptr-Yields :
    (n : ℕ) (ptrs : List ℕ) (str : Text)
    → length ptrs ≡ n
    → Yields (λ (l : List ℕ). length l ≡ n) (add_first_ptr ptrs str)
unfolding add_first_ptr Yields
add_first_ptr-Yields n ptrs str h =
    Yields-either (λ (l : List ℕ). length l ≡ n) (ptr_at ptrs 0 == 0 && ltb 0 (length str))
      (pure ptrs) _ (λ used. h)
      (λ first.
        Yields-bind (Sized n) (λ (l : List ℕ). length l ≡ n) (add_ptr ptrs 0)
          (elim [ none ↦ pure ptrs | some ptrs' ↦ pure ptrs' ]) (add_ptr-Yields n ptrs 0 h)
          (elim [ none ↦ λ k. h | some ptrs' ↦ λ k. k ]))

module _ (body : ℕ → Text → Prog ℕ) (h : (id : ℕ) (str : Text) → WritesWhole (body id str)) where
  wrt_slots-Whole :
      (room id : ℕ) (ptrs : List ℕ) (idx : ℕ) (str : Text) (len : ℕ)
      → length ptrs ≡ 32
      → WritesWhole (wrt_slots body room id ptrs idx str len)
  unfolding wrt_slots Yields
  wrt_slots-Whole zero id ptrs idx str len k =
      both (body (ptr_at ptrs idx) (drop len str))
        (λ n. do write_zone id (of_idx_zone ptrs); pure (len + n))
        (h (ptr_at ptrs idx) (drop len str)) (λ n. (length-of_idx_zone ptrs k, tt))
  wrt_slots-Whole (suc room) id ptrs idx str len k =
      both (body (ptr_at ptrs idx) (drop len str)) _ (h (ptr_at ptrs idx) (drop len str)) (λ n.
        either (ltb 0 (length (drop (len + n) str)))
          (do write_zone id (of_idx_zone ptrs); pure (len + n)) _
          (λ over. (length-of_idx_zone ptrs k, tt))
          (λ more.
            after (Sized 32) (add_ptr ptrs (idx + 1))
              (elim [
                | none ↦ pure (len + n)
                | some ptrs' ↦ wrt_slots body room id ptrs' (idx + 1) str (len + n)
              ])
              (add_ptr-Yields 32 ptrs (idx + 1) k)
              (elim [
                | none ↦ λ e. tt
                | some ptrs' ↦ λ e. wrt_slots-Whole room id ptrs' (idx + 1) str (len + n) e
              ])))

  wrt_idx-Whole : (id : ℕ) (str : Text) → WritesWhole (wrt_idx body id str)
  unfolding wrt_idx Yields
  wrt_idx-Whole id str = (
    tt,
    λ zone full.
        after (λ (l : List ℕ). length l ≡ 32) (add_first_ptr (to_idx_zone zone) str)
          (λ ptrs. wrt_slots body (31 - last_ptr 31 ptrs) id ptrs (last_ptr 31 ptrs) str 0)
          (add_first_ptr-Yields 32 (to_idx_zone zone) str (length-to_idx_zone zone))
          (λ ptrs k. wrt_slots-Whole (31 - last_ptr 31 ptrs) id ptrs (last_ptr 31 ptrs) str 0 k),
  )

wrt_idx_data-Whole : (id : ℕ) (str : Text) → WritesWhole (wrt_idx_data id str)
unfolding wrt_idx_data
wrt_idx_data-Whole id str = wrt_idx-Whole wrt_data wrt_data-Whole id str

wrt_idx_idx-Whole : (id : ℕ) (str : Text) → WritesWhole (wrt_idx_idx id str)
unfolding wrt_idx_idx
wrt_idx_idx-Whole id str = wrt_idx-Whole wrt_idx_data wrt_idx_data-Whole id str

size_of_idx-Whole : (id : ℕ) → WritesWhole (size_of_idx id)
unfolding size_of_idx Yields
size_of_idx-Whole id = (tt, λ zone full. tt)

sum_sizes-Whole : (ptrs : List ℕ) (size : ℕ) → WritesWhole (sum_sizes ptrs size)
unfolding sum_sizes Yields
sum_sizes-Whole [] size = tt
sum_sizes-Whole (p ∷ ps) size =
    either (p == 0) _ (pure size)
      (λ used.
        both (size_of_idx p) (λ n. sum_sizes ps ((size + n) % 2 ^ 16)) (size_of_idx-Whole p)
          (λ n. sum_sizes-Whole ps ((size + n) % 2 ^ 16)))
      (λ free. tt)

size_of_idx_idx-Whole : (id : ℕ) → WritesWhole (size_of_idx_idx id)
unfolding size_of_idx_idx Yields
size_of_idx_idx-Whole id = (tt, λ zone full. sum_sizes-Whole (to_idx_zone zone) 1)

update_size-Whole : (inode : Inode) → WritesWhole (update_size inode)
unfolding update_size Yields
update_size-Whole inode =
    either (ptr_at inode.ptrs 23 == 0) _ _
      (λ used.
        both (size_of_idx_idx (ptr_at inode.ptrs 23)) (λ n. pure ((1144 + n) % 2 ^ 16))
          (size_of_idx_idx-Whole (ptr_at inode.ptrs 23)) (λ n. tt))
      (λ free.
        either (ptr_at inode.ptrs 22 == 0) _ _
          (λ used.
            both (size_of_idx_idx (ptr_at inode.ptrs 22)) (λ n. pure ((87 + n) % 2 ^ 16))
              (size_of_idx_idx-Whole (ptr_at inode.ptrs 22)) (λ n. tt))
          (λ free.
            either (ptr_at inode.ptrs 21 == 0) _ _
              (λ used.
                both (size_of_idx (ptr_at inode.ptrs 21)) (λ n. pure ((54 + n) % 2 ^ 16))
                  (size_of_idx-Whole (ptr_at inode.ptrs 21)) (λ n. tt))
              (λ free.
                either (ptr_at inode.ptrs 20 == 0) _ _
                  (λ used.
                    both (size_of_idx (ptr_at inode.ptrs 20)) (λ n. pure ((21 + n) % 2 ^ 16))
                      (size_of_idx-Whole (ptr_at inode.ptrs 20)) (λ n. tt))
                  (λ free. tt))))

-- Twenty-four pointers are known when the first part of `add_data` is over.
abbrev Ptrs : List ℕ → Type 0
Ptrs ptrs = length ptrs ≡ 24

abbrev WrittenPtrs : Written → Type 0
WrittenPtrs w = Ptrs w.ptrs

wrote_at-Yields :
    (ptrs : List ℕ) (idx : ℕ) (m : Prog ℕ)
    → Ptrs ptrs
    → WritesWhole m
    → Yields WrittenPtrs (wrote_at ptrs idx m)
unfolding wrote_at Yields
wrote_at-Yields ptrs idx m h k =
    Yields-bind (λ n. Unit {0}) WrittenPtrs m
      (λ n. pure (record { ptrs = ptrs; idx = idx; count = n })) k (λ n t. h)

-- the branch of the direct zones
wrt_direct-Yields :
    (ptrs : List ℕ) (str : Text)
    → Ptrs ptrs
    → Yields WrittenPtrs (do
      ptrs' ← add_first_ptr ptrs str
      wrote_at ptrs' (last_ptr 19 ptrs') (wrt_data (ptr_at ptrs' (last_ptr 19 ptrs')) str))
wrt_direct-Yields ptrs str h =
    Yields-bind Ptrs WrittenPtrs (add_first_ptr ptrs str)
      (λ ptrs'.
        wrote_at ptrs' (last_ptr 19 ptrs') (wrt_data (ptr_at ptrs' (last_ptr 19 ptrs')) str))
      (add_first_ptr-Yields 24 ptrs str h)
      (λ ptrs' k.
        wrote_at-Yields ptrs' (last_ptr 19 ptrs') _ k
          (wrt_data-Whole (ptr_at ptrs' (last_ptr 19 ptrs')) str))

wrt_last-Yields : (ptrs : List ℕ) (str : Text) → Ptrs ptrs → Yields WrittenPtrs (wrt_last ptrs str)
unfolding wrt_last
wrt_last-Yields ptrs str h =
    Yields-either WrittenPtrs (ptr_at ptrs 23 == 0) _ _
      (λ used. wrote_at-Yields ptrs 23 _ h (wrt_idx_idx-Whole (ptr_at ptrs 23) str))
      (λ free.
        Yields-either WrittenPtrs (ptr_at ptrs 22 == 0) _ _
          (λ used. wrote_at-Yields ptrs 22 _ h (wrt_idx_idx-Whole (ptr_at ptrs 22) str))
          (λ free.
            Yields-either WrittenPtrs (ptr_at ptrs 21 == 0) _ _
              (λ used. wrote_at-Yields ptrs 21 _ h (wrt_idx_data-Whole (ptr_at ptrs 21) str))
              (λ free.
                Yields-either WrittenPtrs (ptr_at ptrs 20 == 0) _ _
                  (λ used. wrote_at-Yields ptrs 20 _ h (wrt_idx_data-Whole (ptr_at ptrs 20) str))
                  (λ free. wrt_direct-Yields ptrs str h))))

abbrev pub InodePtrs : Inode → Type 0
InodePtrs inode = Ptrs inode.ptrs

stamp_size-Yields : (inode : Inode) → InodePtrs inode → Yields InodePtrs (stamp_size inode)
unfolding stamp_size Yields
stamp_size-Yields inode h =
    Yields-bind (λ n. Unit {0}) InodePtrs (update_size inode)
      (λ size. do now ← time; pure (record inode { size = size; time = now }))
      (update_size-Whole inode) (λ size t now. h)

-- `add_data` keeps the number of the pointers.
pub add_data-Yields :
    (fuel : ℕ) (inode : Inode) (str : Text)
    → InodePtrs inode
    → Yields InodePtrs (add_data fuel inode str)
unfolding add_data
add_data-Yields zero inode str h = unfold Yields in tt
add_data-Yields (suc fuel) inode str h =
    Yields-bind WrittenPtrs InodePtrs (wrt_last inode.ptrs str) _ (wrt_last-Yields inode.ptrs str h)
      (λ w k.
        Yields-either InodePtrs (ltb 0 (length (drop w.count str)) && ltb w.idx 23) _ _
          (λ over. stamp_size-Yields (record inode { ptrs = w.ptrs }) k)
          (λ more.
            Yields-bind (Sized 24) InodePtrs (add_ptr w.ptrs (w.idx + 1))
              (elim [
                | none ↦ pure (record inode { ptrs = w.ptrs })
                | some ptrs ↦ add_data fuel (record inode { ptrs = ptrs }) (drop w.count str)
              ])
              (add_ptr-Yields 24 w.ptrs (w.idx + 1) k)
              (elim [
                | none ↦ λ e. unfold Yields in k
                | some ptrs ↦
                    λ e. add_data-Yields fuel (record inode { ptrs = ptrs }) (drop w.count str) e
              ])))
