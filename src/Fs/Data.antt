-- ===== src/Fs/Data.antt =====
-- src/fs_lib.c: a file's text is appended to, zone by zone, and its size is counted in zones. A string
-- comes from the client's buffer, so its length is below the bounds of `int` and `short`.
pub mod Write
pub mod Size
pub mod Fresh
use cs356_mini_file_system.Alloc.Bitmap.{f_occupied}
use cs356_mini_file_system.Utils.Text.{Text, c_string, has_nul}
use cs356_mini_file_system.Layout.{Inode, of_idx_zone, to_idx_zone}
use cs356_mini_file_system.Base.{
  Bool, List, Option, [], drop, false, get_or, if◌then◌else◌, leb, length, ltb, none, replicate,
  set, some, suc, take, true, zero, ℕ, ◌%◌, ◌&&◌, ◌++◌, ◌+◌, ◌-◌, ◌/◌, ◌==◌, ◌^◌, ◌∷◌,
}
use cs356_mini_file_system.Store.Prog.{
  Prog, fault, get_free_id, on_read, out_of_fuel, pure, time, write_zone, ◌>>=◌, ◌>>◌,
}

-- `get_cat_len`, in unsigned arithmetic on 32 bits
unfoldable pub get_cat_len : ℕ → ℕ
get_cat_len size =
    if leb size 21
    then (size + (2 ^ 32 - 1)) % 2 ^ 32
    else if leb size 44
    then size - 2
    else if leb size 87
    then size - 3
    else if leb size 1144
    then size - 3 - (size - 55) / 33
    else size - 37 - (size - 1112) / 33

-- `for (idx=0; idx<n; idx++) if (ptrs[idx]) size++; else break;`
unfoldable pub count_ptrs : List ℕ → ℕ
count_ptrs [] = 0
count_ptrs (p ∷ ps) = if p == 0 then 0 else suc (count_ptrs ps)

-- `update_size_idx(id, 0)`. Without a zone the function returns no value.
unfoldable pub size_of_idx : ℕ → Prog ℕ
size_of_idx id =
    on_read id (elim [ none ↦ fault | some zone ↦ pure (1 + count_ptrs (to_idx_zone zone)) ])

-- the loop of `update_size_idx(id, 1)`
unfoldable pub sum_sizes : List ℕ → ℕ → Prog ℕ
sum_sizes [] size = pure size
sum_sizes (p ∷ ps) size = elim (p == 0) [
  | true ↦ pure size
  | false ↦ do n ← size_of_idx p; sum_sizes ps ((size + n) % 2 ^ 16)
]

-- `update_size_idx(id, 1)`
unfoldable pub size_of_idx_idx : ℕ → Prog ℕ
size_of_idx_idx id = on_read id (elim [ none ↦ fault | some zone ↦ sum_sizes (to_idx_zone zone) 1 ])

abbrev pub ptr_at : List ℕ → ℕ → ℕ
ptr_at ptrs i = get_or ptrs i 0

-- `update_size`, as the `signed short` that it is stored in
unfoldable pub update_size : Inode → Prog ℕ
update_size inode = elim (ptr_at inode.ptrs 23 == 0) [
  | false ↦ do n ← size_of_idx_idx (ptr_at inode.ptrs 23); pure ((1144 + n) % 2 ^ 16)
  | true ↦ elim (ptr_at inode.ptrs 22 == 0) [
    | false ↦ do n ← size_of_idx_idx (ptr_at inode.ptrs 22); pure ((87 + n) % 2 ^ 16)
    | true ↦ elim (ptr_at inode.ptrs 21 == 0) [
      | false ↦ do n ← size_of_idx (ptr_at inode.ptrs 21); pure ((54 + n) % 2 ^ 16)
      | true ↦ elim (ptr_at inode.ptrs 20 == 0) [
        | false ↦ do n ← size_of_idx (ptr_at inode.ptrs 20); pure ((21 + n) % 2 ^ 16)
        | true ↦ pure (1 + count_ptrs (take 20 inode.ptrs))
      ]
    ]
  ]
]

-- `strncat(data, str, len)` on a zone's bytes, whose string is `text`
unfoldable pub append_text : List ℕ → Text → Text → List ℕ
append_text bytes text str = (text ++ str) ++ 0 ∷ drop (length (text ++ str) + 1) bytes

-- `wrt_data` below its read. Bytes without a NUL make `strlen` leave the array.
unfoldable pub wrt_bytes : ℕ → List ℕ → Text → Prog ℕ
wrt_bytes id bytes str = elim (has_nul bytes) [
  | false ↦ fault
  | true ↦
      let text = c_string bytes in
      elim (ltb (length text + length str) 64) [
        | true ↦ do write_zone id (append_text bytes text str); pure (length str)
        | false ↦
            let len = 63 - length text in
            do write_zone id (append_text bytes text (take len str)); pure len
      ]
]

unfoldable pub wrt_data : ℕ → Text → Prog ℕ
wrt_data id str = on_read id (elim [ none ↦ pure 0 | some bytes ↦ wrt_bytes id bytes str ])

-- `for (idx=n; idx>0; idx--) if (ptrs[idx]) break;`
unfoldable pub last_ptr : ℕ → List ℕ → ℕ
last_ptr zero ptrs = 0
last_ptr (suc n) ptrs = if ptr_at ptrs (suc n) == 0 then last_ptr n ptrs else suc n

-- `id >= 0` of a `signed short`
abbrev pub not_negative : ℕ → Bool
not_negative id = ltb id (2 ^ 15)

-- A free zone is taken and written with zeros, and its id put into the slot `idx`.
unfoldable pub add_ptr : List ℕ → ℕ → Prog (Option (List ℕ))
add_ptr ptrs idx = do
  id ← get_free_id f_occupied
  elim (not_negative id) [
    | true ↦ do write_zone id (replicate 64 0); pure (some (set ptrs idx id))
    | false ↦ pure none
  ]

-- `if (!ptrs[0] && strlen(str)>0) ...` before the search for the last slot in use
unfoldable pub add_first_ptr : List ℕ → Text → Prog (List ℕ)
add_first_ptr ptrs str = elim (ptr_at ptrs 0 == 0 && ltb 0 (length str)) [
  | false ↦ pure ptrs
  | true ↦ do added ← add_ptr ptrs 0; elim added [ none ↦ pure ptrs | some ptrs' ↦ pure ptrs' ]
]

-- `while (1)` of `wrt_idx` from the slot `idx`, with the `n` slots behind it; `body` writes a slot
unfoldable pub wrt_slots : (ℕ → Text → Prog ℕ) → ℕ → ℕ → List ℕ → ℕ → Text → ℕ → Prog ℕ
wrt_slots body zero id ptrs idx str len = do
  n ← body (ptr_at ptrs idx) (drop len str)
  write_zone id (of_idx_zone ptrs)
  pure (len + n)
wrt_slots body (suc room) id ptrs idx str len = do
  n ← body (ptr_at ptrs idx) (drop len str)
  elim (ltb 0 (length (drop (len + n) str))) [
    | false ↦ do write_zone id (of_idx_zone ptrs); pure (len + n)
    | true ↦ do
      added ← add_ptr ptrs (idx + 1)
      elim added [
        | none ↦ pure (len + n)
        | some ptrs' ↦ wrt_slots body room id ptrs' (idx + 1) str (len + n)
      ]
  ]

-- `wrt_idx`; without a zone it returns no value.
unfoldable pub wrt_idx : (ℕ → Text → Prog ℕ) → ℕ → Text → Prog ℕ
wrt_idx body id str = on_read id (elim [
  | none ↦ fault
  | some zone ↦ do
    ptrs ← add_first_ptr (to_idx_zone zone) str
    wrt_slots body (31 - last_ptr 31 ptrs) id ptrs (last_ptr 31 ptrs) str 0
])

-- `wrt_idx(id, str, 0)` and `wrt_idx(id, str, 1)`
unfoldable pub wrt_idx_data : ℕ → Text → Prog ℕ
wrt_idx_data id str = wrt_idx wrt_data id str

unfoldable pub wrt_idx_idx : ℕ → Text → Prog ℕ
wrt_idx_idx id str = wrt_idx wrt_idx_data id str

-- What `add_data` knows when its first `if` is over: the pointers, `idx`, and the bytes written.
pub record Written : Type 0 where
  pub ptrs : List ℕ
  pub idx : ℕ
  pub count : ℕ

unfoldable pub wrote_at : List ℕ → ℕ → Prog ℕ → Prog Written
wrote_at ptrs idx m = do n ← m; pure (record { ptrs = ptrs; idx = idx; count = n })

unfoldable pub wrt_last : List ℕ → Text → Prog Written
wrt_last ptrs str = elim (ptr_at ptrs 23 == 0) [
  | false ↦ wrote_at ptrs 23 (wrt_idx_idx (ptr_at ptrs 23) str)
  | true ↦ elim (ptr_at ptrs 22 == 0) [
    | false ↦ wrote_at ptrs 22 (wrt_idx_idx (ptr_at ptrs 22) str)
    | true ↦ elim (ptr_at ptrs 21 == 0) [
      | false ↦ wrote_at ptrs 21 (wrt_idx_data (ptr_at ptrs 21) str)
      | true ↦ elim (ptr_at ptrs 20 == 0) [
        | false ↦ wrote_at ptrs 20 (wrt_idx_data (ptr_at ptrs 20) str)
        | true ↦ do
          ptrs' ← add_first_ptr ptrs str
          wrote_at ptrs' (last_ptr 19 ptrs') (wrt_data (ptr_at ptrs' (last_ptr 19 ptrs')) str)
      ]
    ]
  ]
]

-- `inode->size = update_size(inode); inode->time = (unsigned long) time(NULL);`
unfoldable pub stamp_size : Inode → Prog Inode
stamp_size inode = do
  size ← update_size inode
  now ← time
  pure (record inode { size = size; time = now })

-- `add_data` gives back the inode that it changes. Without a free zone it leaves size and time.
unfoldable pub add_data : ℕ → Inode → Text → Prog Inode
add_data zero inode str = out_of_fuel
add_data (suc fuel) inode str = do
  w ← wrt_last inode.ptrs str
  elim (ltb 0 (length (drop w.count str)) && ltb w.idx 23) [
    | false ↦ stamp_size (record inode { ptrs = w.ptrs })
    | true ↦ do
      added ← add_ptr w.ptrs (w.idx + 1)
      elim added [
        | none ↦ pure (record inode { ptrs = w.ptrs })
        | some ptrs ↦ add_data fuel (record inode { ptrs = ptrs }) (drop w.count str)
      ]
  ]
