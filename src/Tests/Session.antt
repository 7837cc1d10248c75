-- ===== src/Tests/Session.antt =====
-- src/server.c: `cd` and a session with requests that are not known, on a disk of zeros.
use cs356_mini_file_system.Alloc.Bitmap.Search.{first_free, zones_tracked}
use cs356_mini_file_system.Fs.Show.{cat_file}
use cs356_mini_file_system.Layout.RoundTrip.{InodeFits, IsShort}
use cs356_mini_file_system.Server.WriteRead.{append_to-cat_file}
use cs356_mini_file_system.Base.{
  All, List, [], arith, false, if◌then◌else◌, map, refl, replicate, some, suc, zero, ℕ, ◌++◌, ◌==◌,
  ◌∷◌, ◌≡◌,
}
use cs356_mini_file_system.Utils.Text.{Text, codes, str_eq}
use cs356_mini_file_system.Utils.Tokens.{get_toks, scan_toks}
use cs356_mini_file_system.Utils.Socket.{packet}
use cs356_mini_file_system.Alloc.Cache.{zero_zone}
use cs356_mini_file_system.Alloc.Bitmap.{d_occupied, unoccupied}
use cs356_mini_file_system.Store.Prog.{ok}
use cs356_mini_file_system.Store.Spec.{Store, run}
use cs356_mini_file_system.Fs.Show.Stream.{Streams, connected}
use cs356_mini_file_system.Server.{append_to, change, new_inode}
use cs356_mini_file_system.Server.Change.{Changed, change-Changed}
use cs356_mini_file_system.Server.Interpret.{interpret, request_of}
use cs356_mini_file_system.Server.Interpret.Unknown.{IsUnknown, answers, interpret-IsUnknown}

abbrev empty : Store
empty = record {
  zones = λ id. zero_zone;
  states = λ id. if id == 4 then d_occupied else unoccupied;
  world = record { clock = λ n. n; strays = λ n. []; sock = record { inbox = []; outbox = [] } };
}

change-Changed_example : Changed [] empty (run (change [] (codes "..")) empty)
change-Changed_example = change-Changed [] empty (codes "..")

-- "foo" and "touch"
abbrev unknown_texts : List Text
unknown_texts = codes "foo" ∷ codes "touch" ∷ []

unknown_texts-IsUnknown : All IsUnknown unknown_texts
unfolding request_of get_toks scan_toks str_eq
unknown_texts-IsUnknown = (
  (record { valid = (omega arith, (omega arith, (omega arith, tt))); short = omega arith }, refl),
  (
    (
      record {
        valid = (omega arith, (omega arith, (omega arith, (omega arith, (omega arith, tt)))));
        short = omega arith;
      },
      refl,
    ),
    tt,
  ),
)

interpret-IsUnknown_example :
    run
      (interpret 3 0 [])
      (connected empty (map packet unknown_texts ++ packet (codes "exit") ∷ []) [])
    ≡ ok tt (connected empty [] (answers unknown_texts ++ packet (codes "3") ∷ []))
interpret-IsUnknown_example =
    interpret-IsUnknown 0 [] empty unknown_texts 3 [] [] unknown_texts-IsUnknown (omega arith)

IsShort-zeros : (n : ℕ) → All IsShort (replicate n 0)
IsShort-zeros zero = tt
IsShort-zeros (suc n) = (omega arith, IsShort-zeros n)

new_inode-InodeFits : InodeFits (new_inode 4 1000)
new_inode-InodeFits = record {
  parent = omega arith;
  mode = omega arith;
  owner = omega arith;
  size = omega arith;
  count = refl;
  ptrs = IsShort-zeros 24;
  time = omega arith;
}

next_zone : first_free empty.states zones_tracked 4 ≡ some 5
unfolding first_free
next_zone = refl

-- a new file in zone 9, whose text comes into zone 5
append_to-cat_file_example :
    (s' : Store) × (run (append_to 1 9 (new_inode 4 1000) (codes "hello")) empty ≡ ok false s')
    × Streams (cat_file 9) s' tt (codes "hello" ∷ [])
append_to-cat_file_example =
    append_to-cat_file empty (new_inode 4 1000) new_inode-InodeFits
      (record { lo = omega arith; hi = omega arith }) refl next_zone (omega arith) (omega arith)
      (codes "hello") (omega arith, (omega arith, (omega arith, (omega arith, (omega arith, tt)))))
      (omega arith) (omega arith) 0
