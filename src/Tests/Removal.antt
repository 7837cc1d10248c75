-- ===== src/Tests/Removal.antt =====
-- src/fs_lib.c: an entry is taken out of a directory of four entries in zone 30.
use cs356_mini_file_system.Base.{
  All, List, [], arith, refl, replicate, suc, true, zero, ℕ, ◌+◌, ◌<◌, ◌^◌, ◌∷◌, ◌≡◌, ◌⊎◌,
}
use cs356_mini_file_system.Layout.{Dentry, Sub, of_dentry}
use cs356_mini_file_system.Layout.RoundTrip.{SubFits}
use cs356_mini_file_system.Utils.Text.{has_nul_text}
use cs356_mini_file_system.Alloc.Cache.{zero_zone}
use cs356_mini_file_system.Alloc.Bitmap.{unoccupied}
use cs356_mini_file_system.Store.Prog.{ok}
use cs356_mini_file_system.Store.Spec.{Store, run, update}
use cs356_mini_file_system.Fs.Dir.Subs.{entries, packed}
use cs356_mini_file_system.Fs.Dir.Whole.{HoldsDir}
use cs356_mini_file_system.Fs.Remove.{rm_sub}
use cs356_mini_file_system.Fs.Remove.Move.{NamesEnd}
use cs356_mini_file_system.Fs.Remove.Small.{Absent, Removed, rm_sub-Removes}

abbrev letter_subs : ℕ → ℕ → ℕ → List Sub
letter_subs zero id letter = []
letter_subs (suc n) id letter =
    record { id = id; name = letter ∷ replicate 9 0 } ∷ letter_subs n (id + 1) (letter + 1)

abbrev lone : Dentry
lone = record { parent = 4; mode = 504; owner = 0; subs = letter_subs 4 6 97; next = 0; time = 77 }

abbrev lone_store : Store
lone_store = record {
  zones = update (λ id. zero_zone) 30 (of_dentry lone);
  states = λ id. unoccupied;
  world = record { clock = λ n. n; strays = λ n. []; sock = record { inbox = []; outbox = [] } };
}

letter_subs-SubFits : (n id letter : ℕ) → id + n < 2 ^ 16 → All SubFits (letter_subs n id letter)
letter_subs-SubFits zero id letter h = tt
letter_subs-SubFits (suc n) id letter h = (
  record { id = omega arith; name = refl },
  letter_subs-SubFits n (id + 1) (letter + 1) (omega arith),
)

letter_subs-NamesEnd : (n id letter : ℕ) → NamesEnd (letter_subs n id letter)
letter_subs-NamesEnd zero id letter = tt
letter_subs-NamesEnd (suc n) id letter =
    (has_nul_text (letter ∷ []) (replicate 8 0), letter_subs-NamesEnd n (id + 1) (letter + 1))

lone-HoldsDir : HoldsDir lone_store.zones 30 lone
lone-HoldsDir = record {
  zone = record { lo = omega arith; hi = omega arith };
  bytes = refl;
  fits = record {
    parent = omega arith;
    mode = omega arith;
    owner = omega arith;
    count = refl;
    subs = letter_subs-SubFits 4 6 97 (omega arith);
    next = omega arith;
    time = omega arith;
  };
}

lone-packed : packed lone.subs ≡ true
unfolding packed
lone-packed = refl

rm_sub-Removes_example :
    ((s : Store) × (run (rm_sub 0 30 7) lone_store ≡ ok tt s)
      × Removed lone_store s 30 7 (entries lone.subs))
    ⊎ ((run (rm_sub 0 30 7) lone_store ≡ ok tt lone_store) × Absent 7 (entries lone.subs))
rm_sub-Removes_example =
    rm_sub-Removes 0 lone_store 7 lone lone-HoldsDir refl lone-packed (letter_subs-NamesEnd 4 6 97)
