-- ===== src/Layout/RoundTrip.antt =====
-- src/utils.h: writing a view of a zone and reading it back.
use cs356_mini_file_system.Alloc.Cache.{Zone}
use cs356_mini_file_system.Base.{
  All, List, [], ap, append-nil, append_assoc, arith, drop, drop-append, drop-past, length,
  length-append, pow-suc, pow-zero, refl, subst, suc, sym, take-append, zero, ℕ, ◌*◌, ◌++◌, ◌/◌,
  ◌<◌, ◌^◌, ◌∙◌, ◌∷◌, ◌≡◌,
}
use cs356_mini_file_system.Layout.{
  Dentry, DirZone, Inode, Sub, dentry_subs, dzone_subs, get_int, get_shorts, get_subs, of_dentry,
  of_dir_zone, of_idx_zone, of_inode, put_int, put_shorts, put_subs, to_dentry, to_dir_zone,
  to_idx_zone, to_inode,
}

abbrev pub IsShort : ℕ → Type 0
IsShort w = w < 2 ^ 16

pub record SubFits (sub : Sub) : Type 0 where
  pub id : IsShort sub.id
  pub name : length sub.name ≡ 10

pub record DentryFits (d : Dentry) : Type 0 where
  pub parent : IsShort d.parent
  pub mode : IsShort d.mode
  pub owner : IsShort d.owner
  pub count : length d.subs ≡ dentry_subs
  pub subs : All SubFits d.subs
  pub next : IsShort d.next
  pub time : d.time < 2 ^ 64

pub record DirZoneFits (d : DirZone) : Type 0 where
  pub parent : IsShort d.parent
  pub count : length d.subs ≡ dzone_subs
  pub subs : All SubFits d.subs
  pub next : IsShort d.next

pub record InodeFits (i : Inode) : Type 0 where
  pub parent : IsShort i.parent
  pub mode : IsShort i.mode
  pub owner : IsShort i.owner
  pub size : IsShort i.size
  pub count : length i.ptrs ≡ 24
  pub ptrs : All IsShort i.ptrs
  pub time : i.time < 2 ^ 64

pub get_int-put_int : (n x : ℕ) (rest : List ℕ) → x < 256 ^ n → get_int n (put_int n x ++ rest) ≡ x
unfolding get_int put_int
get_int-put_int zero x rest h = omega (arith, pow-zero 256)
get_int-put_int (suc n) x rest h =
    let step : x / 256 < 256 ^ n = omega (arith, pow-suc 256 n) in
    omega (arith, get_int-put_int n (x / 256) rest step)

length-put_int : (n x : ℕ) → length (put_int n x) ≡ n
unfolding put_int
length-put_int zero x = refl
length-put_int (suc n) x = ap suc (length-put_int n (x / 256))

length-put_subs : (subs : List Sub) → All SubFits subs → length (put_subs subs) ≡ 12 * length subs
unfolding put_subs put_int
length-put_subs [] h = refl
length-put_subs (sub ∷ subs) (fits, rest) =
    omega (arith, length-append sub.name (put_subs subs), fits.name, length-put_subs subs rest)

get_subs-put_subs :
    (subs : List Sub) (rest : List ℕ)
    → All SubFits subs
    → get_subs (length subs) (put_subs subs ++ rest) ≡ subs
unfolding get_subs put_subs put_int
get_subs-put_subs [] rest h = refl
get_subs-put_subs (sub ∷ subs) rest (fits, more) =
    rw
      (
        append_assoc sub.name (put_subs subs) rest,
        take-append 10 sub.name (put_subs subs ++ rest) fits.name,
        drop-append 10 sub.name (put_subs subs ++ rest) fits.name,
        get_subs-put_subs subs rest more,
      )
      (ap (λ (k : ℕ). record { id = k; name = sub.name } ∷ subs)
        (get_int-put_int 2 sub.id (sub.name ++ (put_subs subs ++ rest)) fits.id))

get_shorts-put_shorts :
    (ws rest : List ℕ) → All IsShort ws → get_shorts (length ws) (put_shorts ws ++ rest) ≡ ws
unfolding get_shorts put_shorts put_int
get_shorts-put_shorts [] rest h = refl
get_shorts-put_shorts (w ∷ ws) rest (fits, more) =
    rw (get_shorts-put_shorts ws rest more)
      (ap (λ (k : ℕ). k ∷ ws) (get_int-put_int 2 w (put_shorts ws ++ rest) fits))

length-put_shorts : (ws : List ℕ) → length (put_shorts ws) ≡ 2 * length ws
unfolding put_shorts put_int
length-put_shorts [] = refl
length-put_shorts (w ∷ ws) = omega (arith, length-put_shorts ws)

-- the same field after field
Dentry_path :
    {a b : Dentry}
    → a.parent ≡ b.parent
    → a.mode ≡ b.mode
    → a.owner ≡ b.owner
    → a.subs ≡ b.subs
    → a.next ≡ b.next
    → a.time ≡ b.time
    → a ≡ b
Dentry_path p m o s n t =
    λ i. record { parent = p i; mode = m i; owner = o i; subs = s i; next = n i; time = t i }

DirZone_path : {a b : DirZone} → a.parent ≡ b.parent → a.subs ≡ b.subs → a.next ≡ b.next → a ≡ b
DirZone_path p s n = λ i. record { parent = p i; subs = s i; next = n i }

Inode_path :
    {a b : Inode}
    → a.parent ≡ b.parent
    → a.mode ≡ b.mode
    → a.owner ≡ b.owner
    → a.size ≡ b.size
    → a.ptrs ≡ b.ptrs
    → a.time ≡ b.time
    → a ≡ b
Inode_path p m o s q t =
    λ i. record { parent = p i; mode = m i; owner = o i; size = s i; ptrs = q i; time = t i }

sized_subs :
    (n : ℕ) (subs : List Sub) (rest : List ℕ)
    → length subs ≡ n
    → All SubFits subs
    → get_subs n (put_subs subs ++ rest) ≡ subs
sized_subs n subs rest e h =
    subst (λ k. get_subs k (put_subs subs ++ rest) ≡ subs) e (get_subs-put_subs subs rest h)

sized_shorts :
    (n : ℕ) (ws rest : List ℕ)
    → length ws ≡ n
    → All IsShort ws
    → get_shorts n (put_shorts ws ++ rest) ≡ ws
sized_shorts n ws rest e h =
    subst (λ k. get_shorts k (put_shorts ws ++ rest) ≡ ws) e (get_shorts-put_shorts ws rest h)

-- A directory's first zone that fits its fields is read back as it was written.
pub to_dentry-of_dentry : (d : Dentry) → DentryFits d → to_dentry (of_dentry d) ≡ d
unfolding to_dentry of_dentry
to_dentry-of_dentry d f =
    let tail = put_int 2 d.next ++ put_int 8 d.time in
    let size : length (put_subs d.subs) ≡ 48 =
      omega (arith, length-put_subs d.subs f.subs, f.count) in
    Dentry_path (omega (arith, f.parent)) (omega (arith, f.mode)) (omega (arith, f.owner))
      (sized_subs 4 d.subs tail f.count f.subs)
      (ap (get_int 2) (drop-past 0 48 (put_subs d.subs) tail (omega (arith, size)))
        ∙ get_int-put_int 2 d.next (put_int 8 d.time) f.next)
      (ap (get_int 8) (drop-past 2 50 (put_subs d.subs) tail (omega (arith, size)))
        ∙ omega (arith, f.time))

-- A directory's further zone that fits its fields is read back as it was written.
pub to_dir_zone-of_dir_zone : (d : DirZone) → DirZoneFits d → to_dir_zone (of_dir_zone d) ≡ d
unfolding to_dir_zone of_dir_zone
to_dir_zone-of_dir_zone d f =
    let tail = put_int 2 d.next in
    let size : length (put_subs d.subs) ≡ 60 =
      omega (arith, length-put_subs d.subs f.subs, f.count) in
    DirZone_path (omega (arith, f.parent)) (sized_subs 5 d.subs tail f.count f.subs) (
      ap (get_int 2) (drop-past 0 60 (put_subs d.subs) tail (omega (arith, size)))
      ∙ omega (arith, f.next))

-- An inode that fits its fields is read back as it was written.
pub to_inode-of_inode : (n : Inode) → InodeFits n → to_inode (of_inode n) ≡ n
unfolding to_inode of_inode
to_inode-of_inode n f =
    let tail = put_int 8 n.time in
    let size : length (put_shorts n.ptrs) ≡ 48 = omega (arith, length-put_shorts n.ptrs, f.count) in
    Inode_path (omega (arith, f.parent)) (omega (arith, f.mode)) (omega (arith, f.owner))
      (omega (arith, f.size)) (sized_shorts 24 n.ptrs tail f.count f.ptrs)
      (ap (get_int 8) (drop-past 0 48 (put_shorts n.ptrs) tail (omega (arith, size)))
        ∙ omega (arith, f.time))

-- An index zone of 32 short numbers is read back as it was written.
pub to_idx_zone-of_idx_zone :
    (ws : List ℕ) → length ws ≡ 32 → All IsShort ws → to_idx_zone (of_idx_zone ws) ≡ ws
unfolding to_idx_zone of_idx_zone
to_idx_zone-of_idx_zone ws e h =
    ap (get_shorts 32) (sym (append-nil (put_shorts ws))) ∙ sized_shorts 32 ws [] e h

length-get_shorts : (n : ℕ) (bytes : List ℕ) → length (get_shorts n bytes) ≡ n
unfolding get_shorts
length-get_shorts zero bytes = refl
length-get_shorts (suc n) bytes = ap suc (length-get_shorts n (drop 2 bytes))

-- An index zone has 32 slots, whatever its bytes are.
pub length-to_idx_zone : (zone : Zone) → length (to_idx_zone zone) ≡ 32
unfolding to_idx_zone
length-to_idx_zone zone = length-get_shorts 32 zone

-- what stands in a directory's first zone from its entries on
pub drop-of_dentry :
    (d : Dentry) → drop 6 (of_dentry d) ≡ put_subs d.subs ++ (put_int 2 d.next ++ put_int 8 d.time)
unfolding of_dentry put_int
drop-of_dentry d = refl
