-- ===== src/Server/WriteRead.antt =====
-- src/server.c and src/fs_lib.c: what is appended to a new file is what `cat` sends of it.
use cs356_mini_file_system.Fs.Data.{add_data}
use cs356_mini_file_system.Store.Bind.{run-bind_ok}
use cs356_mini_file_system.Store.Prog.{ok, pure}
use cs356_mini_file_system.Store.Spec.{Store, run, update}
use cs356_mini_file_system.Store.Run.{IsZone, first_free-IsZone, run-pure, run-write}
use cs356_mini_file_system.Base.{
  ==_ne, ==_self, All, [], ap, arith, false, length, lt→ltb, map, refl, replicate, some, subst, suc,
  sym, zero, ℕ, ◌<◌, ◌^◌, ◌∙◌, ◌∷◌, ◌≡◌, ◌≢◌,
}
use cs356_mini_file_system.Layout.{Inode, of_inode, to_inode}
use cs356_mini_file_system.Layout.RoundTrip.{InodeFits, IsShort, to_inode-of_inode}
use cs356_mini_file_system.Utils.Text.{IsText, Text, c_string}
use cs356_mini_file_system.Alloc.Cache.{Zone}
use cs356_mini_file_system.Alloc.Bitmap.Search.{first_free, zones_tracked}
use cs356_mini_file_system.Fs.Data.Fresh.{add_data-Fresh, one_ptr}
use cs356_mini_file_system.Fs.Release.Inode.{used_ptrs}
use cs356_mini_file_system.Fs.Show.{cat_file}
use cs356_mini_file_system.Fs.Show.Stream.{Streams, Streams-eq, all_used, concat_map}
use cs356_mini_file_system.Fs.Show.Whole.{IsFile, cat_file-Streams, file_zones, text_at, when}
use cs356_mini_file_system.Server.{append_to}

IsShort-zeros : (n : ℕ) → All IsShort (replicate n 0)
IsShort-zeros zero = tt
IsShort-zeros (suc n) = (omega arith, IsShort-zeros n)

module _ (s : Store) {fid id : ℕ} (inode : Inode) (fits : InodeFits inode) (z : IsZone fid)
    (empty : inode.ptrs ≡ replicate 24 0) (free : first_free s.states zones_tracked 4 ≡ some id)
    (apart : id ≢ fid) (now : s.world.clock 0 < 2 ^ 64) (str : Text) (valid : IsText str)
    (some_text : 0 < length str) (short : length str < 64) where
  id-IsZone : IsZone id
  id-IsZone = (first_free-IsZone s.states id free).0

  abbrev grown : Inode
  grown = record inode { ptrs = one_ptr id; size = 2; time = s.world.clock 0 }

  grown-InodeFits : InodeFits grown
  grown-InodeFits = record {
    parent = fits.parent;
    mode = fits.mode;
    owner = fits.owner;
    size = omega arith;
    count = refl;
    ptrs = (omega (arith, id-IsZone.hi), IsShort-zeros 23);
    time = now;
  }

  -- the state with the inode written
  abbrev saved : Store → Store
  saved s' = record s' { zones = update s'.zones fid (of_inode grown) }

  read_back : (s' : Store) → to_inode ((saved s').zones fid) ≡ grown
  read_back s' = ap to_inode (rw (==_self fid) refl) ∙ to_inode-of_inode grown grown-InodeFits

  grown-IsFile : (zones : ℕ → Zone) → IsFile zones (one_ptr id)
  unfolding used_ptrs
  grown-IsFile zones = record {
    direct = rw (==_ne id 0 (omega (arith, id-IsZone.lo))) (id-IsZone, tt);
    single = tt;
    double = tt;
  }

  one_zone : (zones : ℕ → Zone) → file_zones zones (one_ptr id) ≡ id ∷ []
  unfolding file_zones used_ptrs all_used when concat_map
  one_zone zones = rw (==_ne id 0 (omega (arith, id-IsZone.lo))) refl

  -- On a new file in a zone of the disk, with a free zone apart from it and a text of 1 to 63
  -- bytes, `append` below its reads ends with 0 and any fuel from 1 on, and `cat_file` then sends
  -- the text, and nothing else, to a client that asks for one message.
  pub append_to-cat_file :
      (fuel : ℕ)
      → (s' : Store) × (run (append_to (suc fuel) fid inode str) s ≡ ok false s')
        × Streams (cat_file fid) s' tt (str ∷ [])
  unfolding append_to
  append_to-cat_file fuel =
      let (s1, ran, text, kept, state) =
        add_data-Fresh s free str valid some_text short fuel inode empty in
      let zones = (saved s1).zones in
      let ptrs = ap (λ (i : Inode). i.ptrs) (read_back s1) in
      let text' : c_string ((saved s1).zones id) ≡ str =
        ap c_string (rw (==_ne id fid apart) refl) ∙ text in
      (
        saved s1,
        rw (lt→ltb 0 (length str) some_text, append_to)
            (run-bind_ok (add_data (suc fuel) inode str) _ s ran
              ∙ run-write s1 (of_inode grown) (pure false) z
              ∙ run-pure false (saved s1)),
        Streams-eq (saved s1) (map (text_at zones) (file_zones zones (to_inode (zones fid)).ptrs))
            refl refl
            (sym (
              ap (λ l. map (text_at zones) (file_zones zones l)) ptrs
              ∙ ap (map (text_at zones)) (one_zone zones)
              ∙ ap (λ t. t ∷ []) text'))
            (cat_file-Streams (saved s1) z (subst (IsFile zones) (sym ptrs) (grown-IsFile zones))),
      )
