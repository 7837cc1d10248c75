-- ===== src/Tests/Streams.antt =====
-- src/fs_lib.c: a file of two data zones, 41 and 42, is sent from zone 40.
use cs356_mini_file_system.Base.{
  [], List, ℕ, ◌≢◌, arith, if◌then◌else◌, length, map, refl, replicate, ◌++◌, ◌-◌, ◌==◌, ◌∷◌, ◌≡◌,
}
use cs356_mini_file_system.Layout.{Inode, of_inode, to_inode}
use cs356_mini_file_system.Alloc.Cache.{Zone, zero_zone}
use cs356_mini_file_system.Alloc.Bitmap.{f_occupied, i_occupied}
use cs356_mini_file_system.Store.Spec.{Store, run, update}
use cs356_mini_file_system.Utils.Text.{Text, c_string, codes}
use cs356_mini_file_system.Fs.Data.{count_ptrs, get_cat_len, ptr_at, update_size}
use cs356_mini_file_system.Fs.Data.Size.{HasZones, announced, direct}
use cs356_mini_file_system.Fs.Release.Inode.{used_ptrs}
use cs356_mini_file_system.Fs.Show.{cat_file}
use cs356_mini_file_system.Fs.Show.Stream.{Streams, all_used, concat_map}
use cs356_mini_file_system.Fs.Show.Whole.{IsFile, cat_file-Streams, file_zones, text_at, when}
use cs356_mini_file_system.Fs.Show.Count.{cat_file-update_size}
use cs356_mini_file_system.Store.Prog.{ok}

abbrev two_zones : Inode
two_zones = record {
  parent = 4;
  mode = 493;
  owner = 0;
  size = 3;
  ptrs = 41 ∷ 42 ∷ replicate 22 0;
  time = 77;
}

abbrev text_zone : Text → Zone
text_zone text = text ++ replicate (64 - length text) 0

abbrev disk : Store
disk = record {
  zones =
      update
        (update (update (λ id. zero_zone) 40 (of_inode two_zones)) 41 (text_zone (codes "hello ")))
        42 (text_zone (codes "world"));
  states = λ id. if id == 40 then i_occupied else f_occupied;
  world = record { clock = λ n. n; strays = λ n. []; sock = record { inbox = []; outbox = [] } };
}

two_zones-IsFile : IsFile disk.zones (to_inode (disk.zones 40)).ptrs
unfolding to_inode of_inode used_ptrs
two_zones-IsFile = record {
  direct = (
    record { lo = omega arith; hi = omega arith },
    (record { lo = omega arith; hi = omega arith }, tt),
  );
  single = tt;
  double = tt;
}

cat_file-Streams_example :
    Streams
      (cat_file 40)
      disk
      tt
      (map (text_at disk.zones) (file_zones disk.zones (to_inode (disk.zones 40)).ptrs))
cat_file-Streams_example =
    cat_file-Streams disk {id = 40} (record { lo = omega arith; hi = omega arith }) two_zones-IsFile

-- The texts are those of the two zones.
two_zones-texts :
    map (text_at disk.zones) (file_zones disk.zones (to_inode (disk.zones 40)).ptrs)
    ≡ codes "hello " ∷ codes "world" ∷ []
unfolding to_inode of_inode used_ptrs file_zones all_used when concat_map c_string
two_zones-texts = refl

two_zones-HasZones : HasZones disk (to_inode (disk.zones 40)) 2
unfolding count_ptrs to_inode of_inode
two_zones-HasZones = direct refl refl refl refl

two_zones_no_gap :
    ptr_at (to_inode (disk.zones 40)).ptrs 21 ≢ 0 → ptr_at (to_inode (disk.zones 40)).ptrs 20 ≢ 0
unfolding to_inode of_inode
two_zones_no_gap h = absurd (h refl)

cat_file-update_size_example :
    (texts : List Text) × Streams (cat_file 40) disk tt texts
    × (length texts ≡ 2)
    × ((size : ℕ) × (run (update_size (to_inode (disk.zones 40))) disk ≡ ok size disk)
        × (get_cat_len size ≡ announced 2))
cat_file-update_size_example =
    cat_file-update_size disk {id = 40} (record { lo = omega arith; hi = omega arith })
      two_zones-IsFile two_zones_no_gap two_zones-HasZones
