-- ===== src/Alloc/Cache/Write.antt =====
-- src/alloc.c: `write_zone` on a coherent cache.
use cs356_mini_file_system.Base.{
  ==_ne, ==_self, Bool-cases, List, Option, ap, arith, dec_eq, false, false≢true, get_or,
  get_or-set_ne, get_or-set_self, if◌then◌else◌, inl, inr, length, length-set, none, refl, set,
  some, subst, subst₂, sym, true, ℕ, ◌%◌, ◌&&◌, ◌*◌, ◌+◌, ◌/◌, ◌<◌, ◌==◌, ◌^◌, ◌∙◌, ◌≡◌, ◌≢◌, ◌≤◌,
}
use cs356_mini_file_system.Alloc.Bitmap.{reserved}
use cs356_mini_file_system.Alloc.Cache.{
  Block, Disk, Drive, Zone, cylinders, get_block, get_c, get_s, sectors, write_block, write_zone,
  zero_zone,
}
use cs356_mini_file_system.Alloc.Cache.Coherence.{Apart, BlockFits, IsCoherent, SlotFits}
use cs356_mini_file_system.Alloc.Cache.Fetch.{get_block-Fetches}
use cs356_mini_file_system.Alloc.Cache.Zones.{zone_at}

-- A write through a block changes the disk at the block's address only.
module _ (disk : Disk) (b : Block) where
  pub write_block_self : b.c < cylinders → b.s < sectors → write_block disk b b.c b.s ≡ b.zones
  unfolding write_block
  write_block_self hc hs = ground arith

  pub write_block-ne :
      (c s : ℕ) → (c == b.c && s == b.s) ≡ false → write_block disk b c s ≡ disk c s
  unfolding write_block
  write_block-ne c s ne = ground arith

  pub length-write_block :
      ((c s : ℕ) → length (disk c s) ≡ 8)
      → length b.zones ≡ 8
      → (c s : ℕ) → length (write_block disk b c s) ≡ 8
  unfolding write_block
  length-write_block old new c s = ground (arith, old c s)

  SlotFits-write_block :
      (i : ℕ) (o : Option Block)
      → SlotFits disk i o
      → ((a : Block) → o ≡ some a → (a.c == b.c && a.s == b.s) ≡ false)
      → SlotFits (write_block disk b) i o
  SlotFits-write_block i none h ne = tt
  SlotFits-write_block i (some a) h ne = record {
    c_in = h.c_in;
    s_in = h.s_in;
    group = h.group;
    agrees = h.agrees ∙ sym (write_block-ne a.c a.s (ne a refl));
  }

-- In a coherent cache no other slot holds the block of the front slot of a group.
others_differ :
    {d : Drive} (v : IsCoherent d) (g : ℕ) (b : Block)
    → get_or d.cache (g * 2) none ≡ some b
    → (i : ℕ) → i ≢ g * 2
    → (a : Block) → get_or d.cache i none ≡ some a
    → (a.c == b.c && a.s == b.s) ≡ false
others_differ {d} v g b front i ne a here = elim (dec_eq i (g * 2 + 1)) [
  | yes e ↦
      let here' : get_or d.cache (g * 2 + 1) none ≡ some a =
        ap (λ k. get_or d.cache k none) (sym e) ∙ here in
      subst₂ Apart front here' (v.apart g)
  | no ne' ↦
      let ga : a.s % 4 ≡ i / 2 = (subst (SlotFits d.disk i) here (v.slots i)).group in
      let gb : b.s % 4 ≡ g * 2 / 2 =
        (subst (SlotFits d.disk (g * 2)) front (v.slots (g * 2))).group in
      ground arith
]

-- Writing the front block of a group with new zones keeps coherence.
module _ {d : Drive} (v : IsCoherent d) (g : ℕ) (hg : g < 4) (b : Block) (zones : List Zone)
    (front : get_or d.cache (g * 2) none ≡ some b) (size : length zones ≡ 8) where
  abbrev b' : Block
  b' = record b { zones = zones }

  b-BlockFits : BlockFits d.disk (g * 2) b
  b-BlockFits = subst (SlotFits d.disk (g * 2)) front (v.slots (g * 2))

  in_range : g * 2 < length d.cache
  in_range = rw v.size (omega arith)

  same_key : (o : Option Block) → Apart (some b) o → Apart (some b') o
  same_key none h = tt
  same_key (some a) h = h

  update-IsCoherent :
      IsCoherent (record { cache = set d.cache (g * 2) (some b'); disk = write_block d.disk b' })
  update-IsCoherent = record {
    size = length-set d.cache _ _ ∙ v.size;
    slots = λ i. elim (dec_eq i (g * 2)) [
      | yes e ↦
          rw (e, get_or-set_self d.cache (g * 2) (some b') none in_range)
            (record {
              c_in = b-BlockFits.c_in;
              s_in = b-BlockFits.s_in;
              group = b-BlockFits.group;
              agrees = sym (write_block_self d.disk b' b-BlockFits.c_in b-BlockFits.s_in);
            })
      | no ne ↦
          rw (get_or-set_ne d.cache (g * 2) i (some b') none (λ e. ne (sym e)))
            (SlotFits-write_block d.disk b' i _ (v.slots i) (others_differ v g b front i ne))
    ];
    apart = λ k. elim (dec_eq k g) [
      | yes e ↦
          let second = subst (λ o. Apart o (get_or d.cache (g * 2 + 1) none)) front (v.apart g) in
          rw
            (
              e,
              get_or-set_self d.cache (g * 2) (some b') none in_range,
              get_or-set_ne d.cache (g * 2) (g * 2 + 1) (some b') none (omega arith),
            )
            (same_key (get_or d.cache (g * 2 + 1) none) second)
      | no ne ↦
          rw
            (
              get_or-set_ne d.cache (g * 2) (k * 2) (some b') none (omega arith),
              get_or-set_ne d.cache (g * 2) (k * 2 + 1) (some b') none (omega arith),
            )
            (v.apart k)
    ];
    blocks = length-write_block d.disk b' v.blocks size;
  }

-- the block of a zone, with the zone replaced
abbrev replaced : Disk → ℕ → Zone → Block
replaced disk id src = record {
  zones = set (disk (get_c id) (get_s id)) (id % 8) src;
  c = get_c id;
  s = get_s id;
}

module _ (disk : Disk) (id j : ℕ) (src : Zone) (sizes : (c s : ℕ) → length (disk c s) ≡ 8)
    (hi : id < 2 ^ 15) (hj : j < 2 ^ 15) where
  same_block :
      get_c j ≡ get_c id
      → get_s j ≡ get_s id
      → zone_at (write_block disk (replaced disk id src)) j
        ≡ (if j == id then src else zone_at disk j)
  unfolding zone_at
  same_block ec es =
      rw (ec, es, write_block_self disk (replaced disk id src) (omega arith) (omega arith))
        (elim (dec_eq (j % 8) (id % 8)) [
          | yes e ↦
              let ej : j ≡ id = omega arith in
              rw (ej, ==_self)
                (get_or-set_self (disk (get_c id) (get_s id)) (id % 8) src zero_zone
                  (rw (sizes (get_c id) (get_s id)) (omega arith)))
          | no ne ↦
              let nj : j ≢ id = λ e. ne (ap (λ k. k % 8) e) in
              rw (==_ne j id nj) (
                get_or-set_ne (disk (get_c id) (get_s id)) (id % 8) (j % 8) src zero_zone
                  (λ e. ne (sym e)))
        ])

  zone_at-write_block :
      zone_at (write_block disk (replaced disk id src)) j
      ≡ (if j == id then src else zone_at disk j)
  unfolding zone_at
  zone_at-write_block = elim (Bool-cases (get_c j == get_c id && get_s j == get_s id)) [
    | inl same ↦ same_block (ground arith) (ground arith)
    | inr other ↦
        let ne : j ≢ id = λ e. false≢true (sym other ∙ key_self e) in
        rw (==_ne j id ne) (
          ap (λ zones. get_or zones (j % 8) zero_zone)
            (write_block-ne disk (replaced disk id src) (get_c j) (get_s j) other))
  ]
    where
      key_self : j ≡ id → (get_c j == get_c id && get_s j == get_s id) ≡ true
      key_self e = rw (e, ==_self (get_c id), ==_self (get_s id))

-- A write changes the zone that it names and no other, on the disk as well, and keeps coherence.
pub record Writes (d : Drive) (id : ℕ) (src : Zone) (d' : Drive) : Type 0 where
  pub zones : (j : ℕ) → j < 2 ^ 15 → zone_at d'.disk j ≡ (if j == id then src else zone_at d.disk j)
  pub coherent : IsCoherent d'

-- With a coherent cache, a write of a zone that is not reserved changes that zone on the disk and
-- no other, and keeps the cache coherent.
pub write_zone-Writes :
    {d : Drive} (id : ℕ) (src : Zone)
    → IsCoherent d
    → 4 ≤ id
    → id < 2 ^ 15
    → Writes d id src (write_zone d id src)
unfolding write_zone
write_zone-Writes {d} id src v lo hi =
    let f = get_block-Fetches id v hi in
    let d' = (get_block d id).1 in
    let b = (get_block d id).0 in
    let zones = set b.zones (id % 8) src in
    let open_ : reserved id ≡ false = ground arith in
    let block : record b { zones = zones } ≡ replaced d.disk id src =
      ap (λ (b : Block). record b { zones = set b.zones (id % 8) src }) f.block in
    let size : length zones ≡ 8 =
      length-set b.zones _ _ ∙ ap (λ (b : Block). length b.zones) f.block ∙ v.blocks _ _ in
    rw open_ (record {
      zones = λ j hj. rw (f.disk, block) (zone_at-write_block d.disk id j src v.blocks hi hj);
      coherent = update-IsCoherent f.coherent (get_s id % 4) (omega arith) b zones f.in_front size;
    })

pub write_zone-reserved :
    (d : Drive) (id : ℕ) (src : Zone) → reserved id ≡ true → write_zone d id src ≡ d
unfolding write_zone
write_zone-reserved d id src h = rw h
