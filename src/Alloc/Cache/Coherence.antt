-- ===== src/Alloc/Cache/Coherence.antt =====
-- src/alloc.c: the coherence of `b_cache` with the disk.
use cs356_mini_file_system.Base.{
  Bool-cases, List, Option, ap₂, arith, dec_eq, false, get_or, inl, inr, length, none, some, true,
  ℕ, ◌%◌, ◌&&◌, ◌*◌, ◌+◌, ◌/◌, ◌<◌, ◌==◌, ◌∙◌, ◌≡◌, ◌≢◌,
}
use cs356_mini_file_system.Alloc.Cache.{
  Block, Disk, Drive, cylinders, load_target, new_block, read_block, sectors,
}

-- A cached block has an address of the disk, stands in its sector's group and agrees with the disk.
pub record BlockFits (disk : Disk) (i : ℕ) (b : Block) : Type 0 where
  pub c_in : b.c < cylinders
  pub s_in : b.s < sectors
  pub group : b.s % 4 ≡ i / 2
  pub agrees : b.zones ≡ disk b.c b.s

abbrev pub SlotFits : Disk → ℕ → Option Block → Type 0
SlotFits disk i none = Unit
SlotFits disk i (some b) = BlockFits disk i b

-- The two slots of a group fill from the front and hold different blocks.
abbrev pub Apart : Option Block → Option Block → Type 0
Apart none none = Unit
Apart none (some b) = ⊥
Apart (some a) none = Unit
Apart (some a) (some b) = (b.c == a.c && b.s == a.s) ≡ false

pub record IsCoherent (d : Drive) : Type 0 where
  pub size : length d.cache ≡ 8
  pub slots : (i : ℕ) → SlotFits d.disk i (get_or d.cache i none)
  pub apart : (g : ℕ) → Apart (get_or d.cache (g * 2) none) (get_or d.cache (g * 2 + 1) none)
  pub blocks : (c s : ℕ) → length (d.disk c s) ≡ 8

-- the block at an address of the disk
abbrev pub fetched : Disk → ℕ → ℕ → Block
fetched disk c s = record { zones = disk c s; c = c; s = s }

module _ (disk : Disk) (c s : ℕ) (hc : c < cylinders) (hs : s < sectors) where
  read_block-in : (b : Block) → read_block disk c s b ≡ fetched disk c s
  unfolding read_block
  read_block-in b = ground arith

  pub load_target-fetched :
      (i : ℕ) (o : Option Block) → SlotFits disk i o → load_target disk o c s ≡ fetched disk c s
  unfolding load_target
  load_target-fetched i none h = read_block-in new_block
  load_target-fetched i (some b) h = elim (Bool-cases (c == b.c && s == b.s)) [
    | inl hit ↦ rw hit (same hit)
    | inr miss ↦ rw miss (read_block-in b)
  ]
    where
      same : (c == b.c && s == b.s) ≡ true → b ≡ fetched disk c s
      same hit =
          let ec : b.c ≡ c = ground arith in
          let es : b.s ≡ s = ground arith in
          λ i. record { zones = (h.agrees ∙ ap₂ disk ec es) i; c = ec i; s = es i }

-- Putting a block in front of its group, and a slot that differs from it behind, keeps coherence.
module _ {d : Drive} (v : IsCoherent d) (cache : List (Option Block)) (g : ℕ) (t : Block) where
  pub install-IsCoherent :
      length cache ≡ 8
      → BlockFits d.disk (g * 2) t
      → get_or cache (g * 2) none ≡ some t
      → SlotFits d.disk (g * 2 + 1) (get_or cache (g * 2 + 1) none)
      → Apart (some t) (get_or cache (g * 2 + 1) none)
      → ((j : ℕ) → j / 2 ≢ g → get_or cache j none ≡ get_or d.cache j none)
      → IsCoherent (record d { cache = cache })
  install-IsCoherent size fits front second apart rest = record {
    size = size;
    slots = λ i. elim (dec_eq i (g * 2)) [
      | yes e ↦ rw (e, front) fits
      | no ne ↦ elim (dec_eq i (g * 2 + 1)) [
        | yes e ↦ rw e second
        | no ne' ↦ rw (rest i (omega arith)) (v.slots i)
      ]
    ];
    apart = λ k. elim (dec_eq k g) [
      | yes e ↦ rw (e, front) apart
      | no ne ↦ rw (rest (k * 2) (omega arith), rest (k * 2 + 1) (omega arith)) (v.apart k)
    ];
    blocks = v.blocks;
  }
