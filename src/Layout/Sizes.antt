-- ===== src/Layout/Sizes.antt =====
-- src/utils.h: the views of a zone are 64 bytes long.
use cs356_mini_file_system.Alloc.Cache.{Zone}
use cs356_mini_file_system.Base.{
  All, List, [], ap, arith, drop, length, length-append, length-drop, length-take, refl, set, suc,
  zero, ℕ, ◌*◌, ◌++◌, ◌-◌, ◌/◌, ◌∷◌, ◌≡◌, ◌≤◌,
}
use cs356_mini_file_system.Layout.{
  Dentry, DirZone, Inode, Sub, dentry_subs, dzone_subs, get_shorts, get_subs, of_dentry,
  of_dir_zone, of_idx_zone, of_inode, put_int, put_shorts, put_subs, to_dentry, to_dir_zone,
  to_inode,
}

-- that many entries, with names of ten bytes
abbrev pub AreSubs : ℕ → List Sub → Type 0
AreSubs n subs = (length subs ≡ n) × All (λ (sub : Sub). length sub.name ≡ 10) subs

length-put_int : (n x : ℕ) → length (put_int n x) ≡ n
unfolding put_int
length-put_int zero x = refl
length-put_int (suc n) x = ap suc (length-put_int n (x / 256))

length-put_subs : (n : ℕ) (subs : List Sub) → AreSubs n subs → length (put_subs subs) ≡ n * 12
unfolding put_subs
length-put_subs n [] h = omega (arith, h.0)
length-put_subs n (sub ∷ subs) h = omega (
  arith,
  length-append (put_int 2 sub.id) (sub.name ++ put_subs subs),
  length-append sub.name (put_subs subs),
  length-put_int 2 sub.id,
  length-put_subs (n - 1) subs (omega (arith, h.0), h.1.1),
  h.0,
  h.1.0,
)

length-put_shorts : (ws : List ℕ) → length (put_shorts ws) ≡ length ws * 2
unfolding put_shorts
length-put_shorts [] = refl
length-put_shorts (w ∷ ws) =
    omega
      (arith, length-append (put_int 2 w) (put_shorts ws), length-put_int 2 w, length-put_shorts ws)

pub length-of_dentry : (d : Dentry) → AreSubs dentry_subs d.subs → length (of_dentry d) ≡ 64
unfolding of_dentry
length-of_dentry d h = omega (arith, length-append {0}, length-put_int, length-put_subs 4 d.subs h)

pub length-of_dir_zone : (d : DirZone) → AreSubs dzone_subs d.subs → length (of_dir_zone d) ≡ 64
unfolding of_dir_zone
length-of_dir_zone d h =
    omega (arith, length-append {0}, length-put_int, length-put_subs 5 d.subs h)

pub length-of_inode : (n : Inode) → length n.ptrs ≡ 24 → length (of_inode n) ≡ 64
unfolding of_inode
length-of_inode n h = omega (arith, length-append {0}, length-put_int, length-put_shorts n.ptrs)

pub length-of_idx_zone : (ptrs : List ℕ) → length ptrs ≡ 32 → length (of_idx_zone ptrs) ≡ 64
unfolding of_idx_zone
length-of_idx_zone ptrs h = omega (arith, length-put_shorts ptrs)

get_subs-AreSubs : (n : ℕ) (bytes : List ℕ) → n * 12 ≤ length bytes → AreSubs n (get_subs n bytes)
unfolding get_subs
get_subs-AreSubs zero bytes h = (refl, tt)
get_subs-AreSubs (suc n) bytes h =
    let rest = get_subs-AreSubs n (drop 12 bytes) (omega (arith, length-drop 12 bytes)) in
    (
      omega (arith, rest.0),
      (omega (arith, length-take 10 (drop 2 bytes), length-drop 2 bytes), rest.1),
    )

length-get_shorts : (n : ℕ) (bytes : List ℕ) → length (get_shorts n bytes) ≡ n
unfolding get_shorts
length-get_shorts zero bytes = refl
length-get_shorts (suc n) bytes = ap suc (length-get_shorts n (drop 2 bytes))

pub to_dentry-AreSubs : (zone : Zone) → length zone ≡ 64 → AreSubs dentry_subs (to_dentry zone).subs
unfolding to_dentry
to_dentry-AreSubs zone h = get_subs-AreSubs 4 (drop 6 zone) (omega (arith, length-drop 6 zone))

pub to_dir_zone-AreSubs :
    (zone : Zone) → length zone ≡ 64 → AreSubs dzone_subs (to_dir_zone zone).subs
unfolding to_dir_zone
to_dir_zone-AreSubs zone h = get_subs-AreSubs 5 (drop 2 zone) (omega (arith, length-drop 2 zone))

pub length-to_inode : (zone : Zone) → length (to_inode zone).ptrs ≡ 24
unfolding to_inode
length-to_inode zone = length-get_shorts 24 (drop 8 zone)

pub AreSubs-set :
    (n : ℕ) (subs : List Sub) (i : ℕ) (sub : Sub)
    → AreSubs n subs
    → length sub.name ≡ 10
    → AreSubs n (set subs i sub)
AreSubs-set n [] i sub h k = h
AreSubs-set n (s ∷ subs) zero sub h k = (omega (arith, h.0), (k, h.1.1))
AreSubs-set n (s ∷ subs) (suc i) sub h k =
    let rest = AreSubs-set (n - 1) subs i sub (omega (arith, h.0), h.1.1) k in
    (omega (arith, rest.0, h.0), (h.1.0, rest.1))
