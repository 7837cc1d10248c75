-- ===== src/Alloc/Cache/Fetch.antt =====
-- src/alloc.c: `get_block` on a coherent cache.
use cs356_mini_file_system.Base.{
  Bool-cases, List, Option, add-zero, ap, arith, false, get_or, get_or-set_ne, get_or-set_self, inl,
  inr, length, length-set, none, refl, set, some, true, ℕ, ◌%◌, ◌*◌, ◌+◌, ◌-◌, ◌<◌, ◌^◌, ◌∙◌, ◌≡◌,
}
use cs356_mini_file_system.Alloc.Cache.{
  Block, Disk, Drive, Zone, arrive, find_slot, get_block, get_c, get_s, load_target, shift_slots,
  slot_stops,
}
use cs356_mini_file_system.Alloc.Cache.Coherence.{
  Apart, BlockFits, IsCoherent, SlotFits, fetched, install-IsCoherent, load_target-fetched,
}

module _ (cache : List (Option Block)) (c s idx : ℕ) where
  find_slot-here : slot_stops (get_or cache idx none) c s ≡ true → find_slot 1 cache c s idx ≡ idx
  unfolding find_slot
  find_slot-here h = rw (h, find_slot)

  find_slot-next :
      slot_stops (get_or cache idx none) c s ≡ false → find_slot 1 cache c s idx ≡ idx + 1
  unfolding find_slot
  find_slot-next h = rw (h, find_slot)

module _ (d : Drive) (c s start : ℕ) where
  arrive-here :
      let t = load_target d.disk (get_or d.cache start none) c s in
      arrive d c s start start ≡ (t, record d { cache = set d.cache start (some t) })
  unfolding arrive shift_slots
  arrive-here = let e : start - start ≡ 0 = omega arith in rw (e, shift_slots)

  arrive-next :
      let t = load_target d.disk (get_or d.cache (start + 1) none) c s in
      let behind = set d.cache (start + 1) (get_or d.cache start none) in
      arrive d c s start (start + 1) ≡ (t, record d { cache = set behind start (some t) })
  unfolding arrive shift_slots
  arrive-next = let e : start + 1 - start ≡ 1 = omega arith in rw (e, shift_slots, add-zero)

-- the group of a zone's block
abbrev group_of : ℕ → ℕ
group_of id = get_s id % 4

module _ (d : Drive) (id : ℕ) where
  abbrev front : Option Block
  front = get_or d.cache (group_of id * 2) none

  abbrev second : Option Block
  second = get_or d.cache (group_of id * 2 + 1) none

  -- the cache when the search stops at the front slot
  abbrev kept : Block → List (Option Block)
  kept t = set d.cache (group_of id * 2) (some t)

  -- the cache when the front block moves behind the new one
  abbrev moved : Block → List (Option Block)
  moved t = set (set d.cache (group_of id * 2 + 1) front) (group_of id * 2) (some t)

  get_block-front :
      slot_stops front (get_c id) (get_s id) ≡ true
      → let t = load_target d.disk front (get_c id) (get_s id) in
        get_block d id ≡ (t, record d { cache = kept t })
  unfolding get_block
  get_block-front h =
      ap (arrive d (get_c id) (get_s id) (group_of id * 2)) (find_slot-here _ _ _ _ h)
      ∙ arrive-here d _ _ _

  get_block-second :
      slot_stops front (get_c id) (get_s id) ≡ false
      → let t = load_target d.disk second (get_c id) (get_s id) in
        get_block d id ≡ (t, record d { cache = moved t })
  unfolding get_block
  get_block-second h =
      ap (arrive d (get_c id) (get_s id) (group_of id * 2)) (find_slot-next _ _ _ _ h)
      ∙ arrive-next d _ _ _

-- a block fits in its own group
fetched-BlockFits :
    (disk : Disk) (id : ℕ)
    → id < 2 ^ 15
    → BlockFits disk (group_of id * 2) (fetched disk (get_c id) (get_s id))
fetched-BlockFits disk id h = record {
  c_in = omega arith;
  s_in = omega arith;
  group = omega arith;
  agrees = refl;
}

-- A block that the front slot holds, or that goes into an empty front slot, differs from the second.
Apart-here :
    (zones : List Zone) (o o' : Option Block) (c s : ℕ)
    → slot_stops o c s ≡ true
    → Apart o o'
    → Apart (some (record { zones = zones; c = c; s = s })) o'
unfolding slot_stops
Apart-here zones none none c s stops apart = tt
Apart-here zones none (some b) c s stops apart = absurd apart
Apart-here zones (some a) none c s stops apart = tt
Apart-here zones (some a) (some b) c s stops apart = ground arith

-- A block that the front slot does not hold differs from it.
Apart-next :
    (zones : List Zone) (o : Option Block) (c s : ℕ)
    → slot_stops o c s ≡ false
    → Apart (some (record { zones = zones; c = c; s = s })) o
unfolding slot_stops
Apart-next zones none c s stops = tt
Apart-next zones (some a) c s stops = ground arith

SlotFits-behind :
    (disk : Disk) (g : ℕ) (o : Option Block) → SlotFits disk (g * 2) o → SlotFits disk (g * 2 + 1) o
SlotFits-behind disk g none h = tt
SlotFits-behind disk g (some b) h = record {
  c_in = h.c_in;
  s_in = h.s_in;
  group = omega (arith, h.group);
  agrees = h.agrees;
}

module _ {d : Drive} (v : IsCoherent d) (id : ℕ) (hi : id < 2 ^ 15) where
  abbrev block : Block
  block = fetched d.disk (get_c id) (get_s id)

  kept-IsCoherent :
      slot_stops (front d id) (get_c id) (get_s id) ≡ true
      → IsCoherent (record d { cache = kept d id block })
  kept-IsCoherent h =
      let start = group_of id * 2 in
      let same : get_or (kept d id block) (start + 1) none ≡ second d id =
        get_or-set_ne d.cache start (start + 1) (some block) none (omega arith) in
      install-IsCoherent v (kept d id block) (group_of id) block (length-set d.cache _ _ ∙ v.size)
        (fetched-BlockFits d.disk id hi)
        (get_or-set_self d.cache start _ none (rw v.size (omega arith)))
        (rw same (v.slots (start + 1)))
        (rw same (Apart-here block.zones (front d id) (second d id) _ _ h (v.apart (group_of id))))
        (λ j ne. get_or-set_ne d.cache start j (some block) none (λ e. ne (omega arith)))

  moved-IsCoherent :
      slot_stops (front d id) (get_c id) (get_s id) ≡ false
      → IsCoherent (record d { cache = moved d id block })
  moved-IsCoherent h =
      let start = group_of id * 2 in
      let behind = set d.cache (start + 1) (front d id) in
      let size : length behind ≡ 8 = length-set d.cache _ _ ∙ v.size in
      let same : get_or (moved d id block) (start + 1) none ≡ front d id =
        get_or-set_ne behind start (start + 1) (some block) none (omega arith)
        ∙ get_or-set_self d.cache (start + 1) _ none (rw v.size (omega arith)) in
      install-IsCoherent v (moved d id block) (group_of id) block (length-set behind _ _ ∙ size)
        (fetched-BlockFits d.disk id hi)
        (get_or-set_self behind start _ none (rw size (omega arith)))
        (rw same (SlotFits-behind d.disk (group_of id) (front d id) (v.slots start)))
        (rw same (Apart-next block.zones (front d id) _ _ h))
        (λ j ne.
          get_or-set_ne behind start j (some block) none (λ e. ne (omega arith))
          ∙ get_or-set_ne d.cache (start + 1) j (front d id) none (λ e. ne (omega arith)))

-- What `get_block` leaves behind: the block as the disk holds it, also in front of its group, the
-- same disk, and a coherent cache.
pub record Fetches (d : Drive) (id : ℕ) (out : Block × Drive) : Type 0 where
  pub block : out.0 ≡ fetched d.disk (get_c id) (get_s id)
  pub in_front : get_or out.1.cache (get_s id % 4 * 2) none ≡ some out.0
  pub disk : out.1.disk ≡ d.disk
  pub coherent : IsCoherent out.1

-- With a coherent cache, `get_block` of an id that is not negative returns the block of the id as
-- the disk holds it and leaves it in front of its group, the disk as it was and the cache
-- coherent.
pub get_block-Fetches :
    {d : Drive} (id : ℕ) → IsCoherent d → id < 2 ^ 15 → Fetches d id (get_block d id)
get_block-Fetches {d} id v hi = elim (Bool-cases (slot_stops (front d id) (get_c id) (get_s id))) [
  | inl here ↦
      rw
        (
          get_block-front d id here,
          load_target-fetched d.disk (get_c id) (get_s id) (omega arith) (omega arith) _
              (front d id) (v.slots _),
        )
        (record {
          block = refl;
          in_front = get_or-set_self d.cache _ _ none (rw v.size (omega arith));
          disk = refl;
          coherent = kept-IsCoherent v id hi here;
        })
  | inr next ↦
      rw
        (
          get_block-second d id next,
          load_target-fetched d.disk (get_c id) (get_s id) (omega arith) (omega arith) _
              (second d id) (v.slots _),
        )
        (record {
          block = refl;
          in_front =
              get_or-set_self (set d.cache (group_of id * 2 + 1) (front d id)) (group_of id * 2) _
                none (rw (length-set d.cache, v.size) (omega arith));
          disk = refl;
          coherent = moved-IsCoherent v id hi next;
        })
]
