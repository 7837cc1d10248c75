-- ===== src/Tests/Files.antt =====
-- src/fs_lib.c on a root directory of nine entries, in zones 4 and 5, and on a file's zones.
use cs356_mini_file_system.Fs.Data.Size.{HasZones, announced, get_cat_len-update_size, one_index}
use cs356_mini_file_system.Fs.Data.Write.{Wrote, wrt_data-Wrote}
use cs356_mini_file_system.Fs.Data.{count_ptrs, get_cat_len, update_size, wrt_data}
use cs356_mini_file_system.Fs.Listing.Length.{get_ls_len-length}
use cs356_mini_file_system.Fs.Listing.{get_ls_len}
use cs356_mini_file_system.Fs.Dir.AddSub.{add_sub-Adds}
use cs356_mini_file_system.Fs.Dir.Whole.{Adds, Directory, HoldsDir, large}
use cs356_mini_file_system.Fs.Dir.Add.{CanAdd}
use cs356_mini_file_system.Fs.Dir.Chain.{Chain, Holds, has, last}
use cs356_mini_file_system.Fs.Dir.Subs.{entries, packed}
use cs356_mini_file_system.Store.Spec.{Store, run, update}
use cs356_mini_file_system.Store.Prog.{ok}
use cs356_mini_file_system.Utils.Text.{IsText, has_nul_text}
use cs356_mini_file_system.Layout.RoundTrip.{SubFits}
use cs356_mini_file_system.Layout.{
  Dentry, DirZone, Inode, Sub, of_dentry, of_dir_zone, of_idx_zone, to_idx_zone,
}
use cs356_mini_file_system.Alloc.Cache.{Zone, zero_zone}
use cs356_mini_file_system.Alloc.Bitmap.Search.{first_free}
use cs356_mini_file_system.Alloc.Bitmap.{d_occupied, f_occupied, unoccupied}
use cs356_mini_file_system.Base.{
  All, List, [], arith, false, if◌then◌else◌, length, ltb, refl, replicate, suc, zero, ℕ, ◌++◌, ◌+◌,
  ◌<◌, ◌==◌, ◌^◌, ◌∷◌, ◌≡◌,
}
use cs356_mini_file_system.Fs.Dir.{add_sub}

abbrev entry_sub : ℕ → ℕ → Sub
entry_sub id letter = record { id = id; name = letter ∷ replicate 9 0 }

-- `n` entries with ids and names of one letter that follow each other
abbrev entry_subs : ℕ → ℕ → ℕ → List Sub
entry_subs zero id letter = []
entry_subs (suc n) id letter = entry_sub id letter ∷ entry_subs n (id + 1) (letter + 1)

abbrev root : Dentry
root = record { parent = 4; mode = 504; owner = 0; subs = entry_subs 4 6 97; next = 5; time = 77 }

abbrev behind : DirZone
behind = record { parent = 4; subs = entry_subs 5 10 101; next = 0 }

-- a zone with the text "hi"
abbrev hi : List ℕ
hi = 104 ∷ 105 ∷ []

abbrev hi_zone : Zone
hi_zone = hi ++ 0 ∷ replicate 61 0

-- an index zone of 25 slots
abbrev slots : List ℕ
slots = replicate 25 30 ++ replicate 7 0

abbrev zones : ℕ → Zone
zones =
    update
      (update (update (update (λ id. zero_zone) 4 (of_dentry root)) 5 (of_dir_zone behind)) 20
        hi_zone)
      21 (of_idx_zone slots)

abbrev store : Store
store = record {
  zones = zones;
  states = λ id. if ltb id 6 then (if id == 4 then d_occupied else f_occupied) else unoccupied;
  world = record {
    clock = λ n. n + 1000;
    strays = λ n. [];
    sock = record { inbox = []; outbox = [] };
  };
}

entry_subs-SubFits : (n id letter : ℕ) → id + n < 2 ^ 16 → All SubFits (entry_subs n id letter)
entry_subs-SubFits zero id letter h = tt
entry_subs-SubFits (suc n) id letter h = (
  record { id = omega arith; name = refl },
  entry_subs-SubFits n (id + 1) (letter + 1) (omega arith),
)

root-HoldsDir : HoldsDir zones 4 root
root-HoldsDir = record {
  zone = record { lo = omega arith; hi = omega arith };
  bytes = refl;
  fits = record {
    parent = omega arith;
    mode = omega arith;
    owner = omega arith;
    count = refl;
    subs = entry_subs-SubFits 4 6 97 (omega arith);
    next = omega arith;
    time = omega arith;
  };
}

behind-Holds : Holds zones 5 behind
behind-Holds = record {
  zone = record { lo = omega arith; hi = omega arith };
  bytes = refl;
  fits = record {
    parent = omega arith;
    count = refl;
    subs = entry_subs-SubFits 5 10 101 (omega arith);
    next = omega arith;
  };
}

behind-Chain : Chain zones 5 (5 ∷ []) (entries behind.subs)
unfolding packed
behind-Chain = last behind behind-Holds refl refl

root-Directory : Directory zones 4 (4 ∷ 5 ∷ []) (entries root.subs ++ entries behind.subs)
unfolding entries has
root-Directory = large root root-HoldsDir (omega arith) refl refl behind-Chain

-- the entry "j" for zone 20, with zone 6 free
can_add : CanAdd store 20 (106 ∷ []) 6
unfolding first_free
can_add = record {
  valid_name = record { text = (omega arith, tt); short = omega arith };
  nonzero = omega arith;
  short = omega arith;
  free = refl;
}

outside : has 6 (4 ∷ 5 ∷ []) ≡ false
unfolding has
outside = refl

outside_chain : has 6 (5 ∷ []) ≡ false
unfolding has
outside_chain = refl

add_sub-Adds_example :
    Adds
      (add_sub 1 4 20 (106 ∷ []))
      store
      4
      (4 ∷ 5 ∷ [])
      ((entries root.subs ++ entries behind.subs) ++ (20, 106 ∷ []) ∷ [])
      6
add_sub-Adds_example =
    add_sub-Adds 1 store root-Directory can_add (omega arith) outside (omega arith)

get_ls_len-length_example :
    run (get_ls_len 1 4) store ≡ ok (length (entries root.subs ++ entries behind.subs)) store
get_ls_len-length_example =
    get_ls_len-length store 1 root-Directory root-HoldsDir.zone (omega arith) refl (omega arith)

wrt_data-Wrote_example :
    (n : ℕ) × (out : Zone) × (run (wrt_data 20 (replicate 62 106)) store
      ≡ ok n (record store { zones = update zones 20 out }))
    × Wrote hi_zone out (replicate 62 106) n
wrt_data-Wrote_example =
    wrt_data-Wrote store (replicate 62 106) (record { lo = omega arith; hi = omega arith }) refl
      (has_nul_text hi (replicate 61 0)) (all_letters 62)
  where
    all_letters : (n : ℕ) → IsText (replicate n 106)
    all_letters zero = tt
    all_letters (suc n) = (omega arith, all_letters n)

-- a file of 20 direct zones, and the slots of zone 21
abbrev file : Inode
file = record {
  parent = 4;
  mode = 432;
  owner = 0;
  size = 1;
  ptrs = replicate 20 20 ++ 21 ∷ replicate 3 0;
  time = 77;
}

file-HasZones : HasZones store file (20 + count_ptrs (to_idx_zone (of_idx_zone slots)))
unfolding count_ptrs
file-HasZones = one_index refl (record { lo = omega arith; hi = omega arith }) refl refl refl

get_cat_len-update_size_example :
    (size : ℕ) × (run (update_size file) store ≡ ok size store)
    × (get_cat_len size ≡ announced (20 + count_ptrs (to_idx_zone (of_idx_zone slots))))
get_cat_len-update_size_example = get_cat_len-update_size store file file-HasZones
