-- ===== src/Fs/Dir/Chain.antt =====
-- src/fs_lib.c: the zones behind the first zone of a directory, as they lie on the disk.
use cs356_mini_file_system.Base.{
  ==_self, Bool, List, [], arith, false, true, ℕ, ◌++◌, ◌==◌, ◌||◌, ◌∙◌, ◌∷◌, ◌≡◌, ◌≢◌,
}
use cs356_mini_file_system.Layout.{DirZone, dzone_subs, of_dir_zone}
use cs356_mini_file_system.Layout.RoundTrip.{DirZoneFits}
use cs356_mini_file_system.Alloc.Cache.{Zone}
use cs356_mini_file_system.Store.Run.{IsZone}
use cs356_mini_file_system.Fs.Dir.Subs.{Entry, entries, packed, taken}

unfoldable pub has : ℕ → List ℕ → Bool
has a [] = false
has a (b ∷ bs) = (a == b) || has a bs

-- the zone holds these entries
pub record Holds (zones : ℕ → Zone) (id : ℕ) (d : DirZone) : Type 0 where
  pub zone : IsZone id
  pub bytes : zones id ≡ of_dir_zone d
  pub fits : DirZoneFits d

-- From `id` on the zones `ids` hold the entries `es`: all but the last are full.
pub data Chain (zones : ℕ → Zone) : ℕ → List ℕ → List Entry → Type 0 where
  last :
      {id : ℕ} (d : DirZone)
      → Holds zones id d
      → d.next ≡ 0
      → packed d.subs ≡ true
      → Chain zones id (id ∷ []) (entries d.subs)
  link :
      {id : ℕ} {ids : List ℕ} {es : List Entry} (d : DirZone)
      → Holds zones id d
      → d.next ≢ 0
      → taken d.subs ≡ dzone_subs
      → has id ids ≡ false
      → Chain zones d.next ids es
      → Chain zones id (id ∷ ids) (entries d.subs ++ es)

-- A chain is kept by what spares its zones.
pub frame :
    {zones zones' : ℕ → Zone} {id : ℕ} {ids : List ℕ} {es : List Entry}
    → Chain zones id ids es
    → ((j : ℕ) → has j ids ≡ true → zones' j ≡ zones j)
    → Chain zones' id ids es
unfolding has
frame (last {id} d h z p) same =
    last d (record { zone = h.zone; bytes = same id (rw (==_self id)) ∙ h.bytes; fits = h.fits }) z
      p
frame (link {id} {ids} d h nz full out rest) same =
    link d (record { zone = h.zone; bytes = same id (rw (==_self id)) ∙ h.bytes; fits = h.fits }) nz
      full out (frame rest λ j m. same j (ground arith))
