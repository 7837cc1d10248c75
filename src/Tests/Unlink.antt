-- ===== src/Tests/Unlink.antt =====
-- src/server.c: `rm f` on the small disk of Tests.Shells.
use cs356_mini_file_system.Base.{
  All, [], arith, false, length, refl, replicate, suc, take, true, zero, ℕ, ◌<◌, ◌≡◌,
}
use cs356_mini_file_system.Utils.Text.{codes, has_nul_text}
use cs356_mini_file_system.Layout.RoundTrip.{IsShort}
use cs356_mini_file_system.Store.Prog.{ok}
use cs356_mini_file_system.Store.Spec.{Store, run}
use cs356_mini_file_system.Fs.Dir.Subs.{entries, entry_of, packed}
use cs356_mini_file_system.Fs.Dir.Fill.{SubFits-zero_sub}
use cs356_mini_file_system.Fs.Release.Inode.{InMap, used_ptrs}
use cs356_mini_file_system.Server.{rm_file}
use cs356_mini_file_system.Server.Remove.{FileRemoved, IsRemovable, rm_file-FileRemoved}
use cs356_mini_file_system.Tests.Shells.{f_found, f_inode, f_path, root, small_disk, small_disk'}

IsShort-zeros : (n : ℕ) → All IsShort (replicate n 0)
IsShort-zeros zero = tt
IsShort-zeros (suc n) = (omega arith, IsShort-zeros n)

f-InMap : All InMap (used_ptrs (take 20 f_inode.ptrs))
unfolding used_ptrs
f-InMap = ((omega arith, omega arith), ((omega arith, omega arith), tt))

root-packed : packed root.subs ≡ true
unfolding packed
root-packed = refl

f_in_use : 0 < length (entries root.subs)
unfolding entries
f_in_use = omega arith

f-IsRemovable : IsRemovable small_disk 40 f_inode root
unfolding entries entry_of
f-IsRemovable = record {
  holds = record {
    zone = (omega arith, omega arith);
    bytes = refl;
    fits = record {
      parent = omega arith;
      mode = omega arith;
      owner = omega arith;
      size = omega arith;
      count = refl;
      ptrs = (omega arith, (omega arith, IsShort-zeros 22));
      time = omega arith;
    };
  };
  direct = refl;
  in_map = f-InMap;
  parent = record {
    zone = record { lo = omega arith; hi = omega arith };
    bytes = refl;
    fits = record {
      parent = omega arith;
      mode = omega arith;
      owner = omega arith;
      count = refl;
      subs = (
        record { id = omega arith; name = refl },
        (SubFits-zero_sub, (SubFits-zero_sub, (SubFits-zero_sub, tt))),
      );
      next = omega arith;
      time = omega arith;
    };
  };
  alone = refl;
  packed_subs = root-packed;
  ends = (
    has_nul_text (codes "f") (replicate 8 0),
    (
      has_nul_text [] (replicate 9 0),
      (has_nul_text [] (replicate 9 0), (has_nul_text [] (replicate 9 0), tt)),
    ),
  );
  slot = 0;
  in_use = f_in_use;
  entry = refl;
}

rm_file-FileRemoved_example :
    (s' : Store) × (run (rm_file 0 [] (codes "f")) small_disk ≡ ok false s')
    × FileRemoved small_disk s' 40 f_inode (entries root.subs)
rm_file-FileRemoved_example =
    rm_file-FileRemoved 0 small_disk small_disk' [] (codes "f") {path = f_path} f_inode root
      (f_found.1 [] []) f-IsRemovable
