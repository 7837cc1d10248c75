-- ===== src/Layout.antt =====
-- src/utils.h: the five views of the 64 bytes of a zone. A `signed short` is its bit pattern, and
-- the bytes of a number are stored from the lowest, as on the x86 machines of the Makefile's gcc.
pub mod RoundTrip
pub mod Sizes
use cs356_mini_file_system.Base.{List, [], drop, suc, take, zero, ℕ, ◌%◌, ◌*◌, ◌++◌, ◌+◌, ◌/◌, ◌∷◌}
use cs356_mini_file_system.Alloc.Cache.{Zone}

pub record Sub : Type 0 where
  pub id : ℕ
  pub name : List ℕ

-- `dentry_t`
pub record Dentry : Type 0 where
  pub parent : ℕ
  pub mode : ℕ
  pub owner : ℕ
  pub subs : List Sub
  pub next : ℕ
  pub time : ℕ

-- `dir_zone_t`
pub record DirZone : Type 0 where
  pub parent : ℕ
  pub subs : List Sub
  pub next : ℕ

-- `inode_t`
pub record Inode : Type 0 where
  pub parent : ℕ
  pub mode : ℕ
  pub owner : ℕ
  pub size : ℕ
  pub ptrs : List ℕ
  pub time : ℕ

abbrev pub dentry_subs : ℕ
dentry_subs = 4

abbrev pub dzone_subs : ℕ
dzone_subs = 5

-- the number in the first `n` bytes
unfoldable pub get_int : ℕ → List ℕ → ℕ
get_int zero bytes = 0
get_int (suc n) [] = 0
get_int (suc n) (b ∷ bytes) = b + 256 * get_int n bytes

unfoldable pub put_int : ℕ → ℕ → List ℕ
put_int zero x = []
put_int (suc n) x = (x % 256) ∷ put_int n (x / 256)

unfoldable pub get_shorts : ℕ → List ℕ → List ℕ
get_shorts zero bytes = []
get_shorts (suc n) bytes = get_int 2 bytes ∷ get_shorts n (drop 2 bytes)

unfoldable pub put_shorts : List ℕ → List ℕ
put_shorts [] = []
put_shorts (w ∷ ws) = put_int 2 w ++ put_shorts ws

unfoldable pub get_subs : ℕ → List ℕ → List Sub
get_subs zero bytes = []
get_subs (suc n) bytes =
    record { id = get_int 2 bytes; name = take 10 (drop 2 bytes) } ∷ get_subs n (drop 12 bytes)

unfoldable pub put_subs : List Sub → List ℕ
put_subs [] = []
put_subs (sub ∷ subs) = put_int 2 sub.id ++ (sub.name ++ put_subs subs)

-- `zone->dentry_val`
unfoldable pub to_dentry : Zone → Dentry
unfolding get_int get_subs
to_dentry zone = record {
  parent = get_int 2 zone;
  mode = get_int 2 (drop 2 zone);
  owner = get_int 2 (drop 4 zone);
  subs = get_subs dentry_subs (drop 6 zone);
  next = get_int 2 (drop 54 zone);
  time = get_int 8 (drop 56 zone);
}

-- `(zone_t*)&dentry`
unfoldable pub of_dentry : Dentry → Zone
unfolding put_int put_subs
of_dentry d =
    put_int 2 d.parent
    ++ (put_int 2 d.mode
        ++ (put_int 2 d.owner ++ (put_subs d.subs ++ (put_int 2 d.next ++ put_int 8 d.time))))

unfoldable pub to_dir_zone : Zone → DirZone
unfolding get_int get_subs
to_dir_zone zone = record {
  parent = get_int 2 zone;
  subs = get_subs dzone_subs (drop 2 zone);
  next = get_int 2 (drop 62 zone);
}

unfoldable pub of_dir_zone : DirZone → Zone
unfolding put_int put_subs
of_dir_zone d = put_int 2 d.parent ++ (put_subs d.subs ++ put_int 2 d.next)

unfoldable pub to_inode : Zone → Inode
unfolding get_int get_shorts
to_inode zone = record {
  parent = get_int 2 zone;
  mode = get_int 2 (drop 2 zone);
  owner = get_int 2 (drop 4 zone);
  size = get_int 2 (drop 6 zone);
  ptrs = get_shorts 24 (drop 8 zone);
  time = get_int 8 (drop 56 zone);
}

unfoldable pub of_inode : Inode → Zone
unfolding put_int put_shorts
of_inode i =
    put_int 2 i.parent
    ++ (put_int 2 i.mode
        ++ (put_int 2 i.owner ++ (put_int 2 i.size ++ (put_shorts i.ptrs ++ put_int 8 i.time))))

-- `idx_zone_t` is its 32 shorts, and `data_zone_t` its 64 bytes.
unfoldable pub to_idx_zone : Zone → List ℕ
unfolding get_int get_shorts
to_idx_zone zone = get_shorts 32 zone

unfoldable pub of_idx_zone : List ℕ → Zone
unfolding put_int put_shorts
of_idx_zone zones = put_shorts zones
