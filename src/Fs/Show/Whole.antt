-- ===== src/Fs/Show/Whole.antt =====
-- src/fs_lib.c: the texts that `cat_file` sends, zone by zone.
use cs356_mini_file_system.Store.Prog.{Prog, pure, ◌>>=◌}
use cs356_mini_file_system.Store.Spec.{Store}
use cs356_mini_file_system.Store.Run.{IsZone}
use cs356_mini_file_system.Base.{
  All, Bool, List, [], ap, append-nil, append_assoc, drop, false, map, refl, sym, take, true, ℕ,
  ◌&&◌, ◌++◌, ◌∙◌, ◌∷◌, ◌≡◌,
}
use cs356_mini_file_system.Alloc.Cache.{Zone}
use cs356_mini_file_system.Layout.{to_idx_zone, to_inode}
use cs356_mini_file_system.Utils.Text.{Text, c_string}
use cs356_mini_file_system.Fs.Release.{and_if, each_ptr}
use cs356_mini_file_system.Fs.Release.Inode.{used_ptrs}
use cs356_mini_file_system.Fs.Show.{cat_data, cat_file, cat_idx_data, cat_idx_idx}
use cs356_mini_file_system.Fs.Show.Stream.{
  Streams, Streams-bind, Streams-eq, Streams-pure, Streams-read, all_used, cat_data-Streams,
  concat_map, each_ptr-Streams, map-append,
}

-- the string at the start of a zone
abbrev pub text_at : (ℕ → Zone) → ℕ → Text
text_at zones id = c_string (zones id)

-- the pointers of an index zone
abbrev pub idx_zones : (ℕ → Zone) → ℕ → List ℕ
idx_zones zones id = used_ptrs (to_idx_zone (zones id))

-- the data zones behind an index zone of index zones
abbrev pub idx_idx_zones : (ℕ → Zone) → ℕ → List ℕ
idx_idx_zones zones id = concat_map (idx_zones zones) (idx_zones zones id)

-- `idx_zone_t` with pointers to zones of the disk
abbrev pub IsIdx : (ℕ → Zone) → ℕ → Type 0
IsIdx zones id = IsZone id × All IsZone (idx_zones zones id)

abbrev pub IsIdxIdx : (ℕ → Zone) → ℕ → Type 0
IsIdxIdx zones id = IsZone id × All (IsIdx zones) (idx_zones zones id)

abbrev pub direct_ptrs : List ℕ → List ℕ
direct_ptrs ptrs = take 20 ptrs

abbrev pub single_ptrs : List ℕ → List ℕ
single_ptrs ptrs = take 2 (drop 20 ptrs)

abbrev pub double_ptrs : List ℕ → List ℕ
double_ptrs ptrs = take 2 (drop 22 ptrs)

unfoldable pub when : Bool → List ℕ → List ℕ
when true zones = zones
when false zones = []

-- The data zones of a file in their order: the index zones count only behind twenty direct ones,
-- and the double ones only behind two single ones.
unfoldable pub file_zones : (ℕ → Zone) → List ℕ → List ℕ
file_zones zones ptrs =
    let single = all_used (direct_ptrs ptrs) in
    let double = single && all_used (single_ptrs ptrs) in
    used_ptrs (direct_ptrs ptrs)
    ++ when single (concat_map (idx_zones zones) (used_ptrs (single_ptrs ptrs)))
    ++ when double (concat_map (idx_idx_zones zones) (used_ptrs (double_ptrs ptrs)))

-- Every pointer in use is the id of a zone.
pub record IsFile (zones : ℕ → Zone) (ptrs : List ℕ) : Type 0 where
  pub direct : All IsZone (used_ptrs (direct_ptrs ptrs))
  pub single : All (IsIdx zones) (used_ptrs (single_ptrs ptrs))
  pub double : All (IsIdxIdx zones) (used_ptrs (double_ptrs ptrs))

All-map : {P Q : ℕ → Type 0} (ids : List ℕ) → ((id : ℕ) → P id → Q id) → All P ids → All Q ids
All-map [] f h = tt
All-map (id ∷ ids) f h = (f id h.0, All-map ids f h.1)

concat_map-single : (ids : List ℕ) → concat_map (λ id. id ∷ []) ids ≡ ids
unfolding concat_map
concat_map-single [] = refl
concat_map-single (id ∷ ids) = ap (λ l. id ∷ l) (concat_map-single ids)

map-append_twice :
    (f : ℕ → Text) (xs ys zs : List ℕ) → map f (xs ++ ys ++ zs) ≡ map f xs ++ (map f ys ++ map f zs)
map-append_twice f xs ys zs =
    ap (map f) (append_assoc xs ys zs)
    ∙ map-append f xs (ys ++ zs)
    ∙ ap (λ l. map f xs ++ l) (map-append f ys zs)

module _ (s : Store) where
  -- the texts of these zones
  abbrev texts_of : List ℕ → List Text
  texts_of ids = map (text_at s.zones) ids

  each_data-Streams :
      (ps : List ℕ)
      → All IsZone (used_ptrs ps)
      → Streams (each_ptr cat_data ps) s (all_used ps) (texts_of (used_ptrs ps))
  each_data-Streams ps h =
      Streams-eq s _ refl refl (ap texts_of (sym (concat_map-single (used_ptrs ps)))) (
        each_ptr-Streams s (text_at s.zones) cat_data (λ id. id ∷ []) ps
          (All-map (used_ptrs ps) (λ id z. cat_data-Streams s z) h))

  -- a loop, and nothing behind it
  Streams-end :
      (m : Prog Bool) (b : Bool) (texts : List Text)
      → Streams m s b texts
      → Streams (m >>= λ ran. pure tt) s tt texts
  Streams-end m b texts h =
      Streams-eq s (texts ++ []) refl refl (sym (append-nil texts))
        (Streams-bind m (λ ran. pure tt) s texts [] h (Streams-pure tt s))

  cat_idx_data-Streams :
      (id : ℕ) → IsIdx s.zones id → Streams (cat_idx_data id) s tt (texts_of (idx_zones s.zones id))
  unfolding cat_idx_data
  cat_idx_data-Streams id (z, h) =
      Streams-read s _ _ z (Streams-end _ _ _ (each_data-Streams (to_idx_zone (s.zones id)) h))

  cat_idx_idx-Streams :
      (id : ℕ)
      → IsIdxIdx s.zones id
      → Streams (cat_idx_idx id) s tt (texts_of (idx_idx_zones s.zones id))
  unfolding cat_idx_idx
  cat_idx_idx-Streams id (z, h) = Streams-read s _ _ z (
      Streams-end _ _ _ (
        each_ptr-Streams s (text_at s.zones) cat_idx_data (idx_zones s.zones)
          (to_idx_zone (s.zones id)) (All-map _ cat_idx_data-Streams h)))

  Streams-and_if :
      (c : Bool) (m : Prog Bool) (b : Bool) (ids : List ℕ)
      → Streams m s b (texts_of ids)
      → Streams (and_if c m) s (c && b) (texts_of (when c ids))
  unfolding and_if when
  Streams-and_if true m b ids h = h
  Streams-and_if false m b ids h = Streams-pure false s

  -- On a file in the zone `id` whose pointers in use are all ids of zones, where the client sends
  -- a request for each data zone, `cat_file` takes these requests and sends the strings of the
  -- data zones in their order, each once, and changes nothing else.
  pub cat_file-Streams :
      {id : ℕ}
      → IsZone id
      → IsFile s.zones (to_inode (s.zones id)).ptrs
      → Streams (cat_file id) s tt (texts_of (file_zones s.zones (to_inode (s.zones id)).ptrs))
  unfolding cat_file file_zones
  cat_file-Streams {id} z h =
      let ptrs = (to_inode (s.zones id)).ptrs in
      let direct = each_data-Streams (direct_ptrs ptrs) h.direct in
      let single = Streams-and_if (all_used (direct_ptrs ptrs)) _ _ _ (
        each_ptr-Streams s (text_at s.zones) cat_idx_data (idx_zones s.zones) (single_ptrs ptrs)
          (All-map _ cat_idx_data-Streams h.single)) in
      let double =
        Streams-and_if (all_used (direct_ptrs ptrs) && all_used (single_ptrs ptrs)) _ _ _ (
          each_ptr-Streams s (text_at s.zones) cat_idx_idx (idx_idx_zones s.zones)
            (double_ptrs ptrs) (All-map _ cat_idx_idx-Streams h.double)) in
      Streams-read s _ _ z (
        Streams-eq s _ refl refl
          (map-append_twice (text_at s.zones) (used_ptrs (direct_ptrs ptrs)) _ _)
          (Streams-bind _ _ s _ _ direct
            (Streams-bind _ _ s _ _ single (Streams-end _ _ _ double))))
