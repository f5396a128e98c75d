-- ===== src/TextureCache/Owned.antt =====
-- The slots of a `TextureRegion` (webrender/src/texture_cache.rs) between its free list and the entries
-- that live in it: `init`, `alloc` and `free`.
use webrender.Prelude.{
  ℕ, ◌+◌, ◌-◌, ◌/◌, ◌%◌, ◌^◌, ◌≤◌, ◌<◌, ◌≡◌, ◌⊎◌, refl, ap, inl, inr, ◌∙◌, List, [], ◌∷◌, ◌++◌,
  none, some, Bool, true, false, done, arith, ◌==◌, if◌then◌else◌, length, length-append, drop_last,
  usize_mod,
}
use webrender.Prelude.I32.{mul_i32}
use webrender.TextureAllocator.{DeviceIntPoint}
use webrender.TextureCache.Regions.{
  SlabSize, slab_invalid, TextureLocation, new_location, TextureRegion, push_rows, init_region,
  deinit_region, alloc_slot, free_slot,
}
use webrender.TextureCache.Slabs.{IsSide, slots_per_axis, slots_per_axis_le, slot_at}
use webrender.TextureCache.Slots.{
  count, count-append, count-length, last_slot-cases, in_box, count-push_rows_lem, remove_location,
  count-remove, length-remove,
}

-- The slots of a slab size, as 1 or 0.
abbrev pub in_grid : SlabSize → TextureLocation → ℕ
in_grid s k = in_box 0 (512 / s.width) 0 (512 / s.height) k

abbrev pub point_of : SlabSize → TextureLocation → DeviceIntPoint
point_of s k = record { x = mul_i32 s.width k.x; y = mul_i32 s.height k.y }

-- Every slot of the grid is free or live, once.
pub record Owned (r : TextureRegion) (live : List TextureLocation) : Type 0 where
  pub width_is_side : IsSide r.slab_size.width
  pub height_is_side : IsSide r.slab_size.height
  pub slots : (k : TextureLocation) → count k r.free_slots + count k live ≡ in_grid r.slab_size k
  pub total : length r.free_slots + length live ≡ r.total_slot_count

pub init_region-Owned :
    (r : TextureRegion) (s : SlabSize) (empty_regions : ℕ)
    → r.free_slots ≡ []
    → IsSide s.width
    → IsSide s.height
    → (r' : TextureRegion) × (init_region r s empty_regions
        ≡ done (r', (empty_regions + usize_mod - 1) % usize_mod))
      × Owned r' []
      × (r'.slab_size ≡ s)
      × (r'.layer_index ≡ r.layer_index)
      × (1 ≤ length r'.free_slots)
unfolding init_region count
init_region-Owned r s empty_regions fresh hw hh =
    let slots : List TextureLocation = push_rows (512 / s.height) (512 / s.width) 0 [] in
    let counted : (k : TextureLocation) → count k slots ≡ in_grid s k = λ k.
      count-push_rows_lem (512 / s.height) (512 / s.width) k (slots_per_axis_le s.height hh).1
        (slots_per_axis_le s.width hw).1 in
    (
      record r { slab_size = s; free_slots = slots; total_slot_count = length slots },
      rw (fresh, slots_per_axis s.width hw, slots_per_axis s.height hh) refl,
      record {
        width_is_side = hw;
        height_is_side = hh;
        slots = λ k. omega (arith, counted k);
        total = omega arith;
      },
      refl,
      refl,
      ground (
        arith,
        counted (record { x = 0; y = 0 }),
        count-length (record { x = 0; y = 0 }) slots,
        slots_per_axis_le s.height hh,
        slots_per_axis_le s.width hw,
      ),
    )

-- A slot of a region, as `alloc` gives it.
pub record Allocated (r r' : TextureRegion) (live : List TextureLocation) (point : DeviceIntPoint)
    : Type 0 where
  pub slot : TextureLocation
  pub point_is : point ≡ point_of r.slab_size slot
  pub fresh : count slot live ≡ 0
  pub owned : Owned r' (slot ∷ live)
  pub slab : r'.slab_size ≡ r.slab_size
  pub layer : r'.layer_index ≡ r.layer_index

pub alloc_slot-cases :
    (r : TextureRegion) (live : List TextureLocation)
    → Owned r live
    → ((r.free_slots ≡ []) × (alloc_slot r ≡ (r, none)))
      ⊎ ((r' : TextureRegion) × (point : DeviceIntPoint) × (alloc_slot r ≡ (r', some point))
          × Allocated r r' live point)
unfolding alloc_slot count
alloc_slot-cases r live h = elim (last_slot-cases r.free_slots) [
  | inl (e, last) ↦ inl (e, rw (last, alloc_slot) refl)
  | inr (s, last, split) ↦
      let rest = drop_last r.free_slots in
      let counted : (k : TextureLocation) → count k r.free_slots ≡ count k rest + count k (s ∷ []) =
        λ k. ap (count k) split ∙ count-append k rest (s ∷ []) in
      inr (
        record r { free_slots = rest },
        point_of r.slab_size s,
        rw (last, alloc_slot) refl,
        record {
          slot = s;
          point_is = refl;
          fresh = ground (arith, counted s, h.slots s);
          owned = record {
            width_is_side = h.width_is_side;
            height_is_side = h.height_is_side;
            slots = λ k. ground (arith, counted k, h.slots k);
            total = omega (arith, ap length split, length-append rest (s ∷ []), h.total);
          };
          slab = refl;
          layer = refl;
        },
      )
]

-- A live slot is one of the grid.
pub live-in_grid :
    (r : TextureRegion) (live : List TextureLocation) (k : TextureLocation)
    → Owned r live
    → 1 ≤ count k live
    → (k.x < 512 / r.slab_size.width) × (k.y < 512 / r.slab_size.height)
live-in_grid r live k h here = ground (arith, h.slots k)

-- The region and the number of empty regions after a slot is freed: the region is empty when the slot was
-- the last one in use.
abbrev pub Freed : TextureRegion → List TextureLocation → ℕ → TextureRegion → ℕ → Type 0
Freed r rest empty_regions r' empty' =
    ((rest ≡ [])
      × (r'.slab_size ≡ slab_invalid)
      × (r'.free_slots ≡ [])
      × (empty' ≡ (empty_regions + 1) % usize_mod))
    ⊎ (Owned r' rest × (r'.slab_size ≡ r.slab_size) × (empty' ≡ empty_regions))

nil-or-cons : (ss : List TextureLocation) → (ss ≡ []) ⊎ (1 ≤ length ss)
nil-or-cons [] = inl refl
nil-or-cons (s ∷ ss) = inr (omega arith)

new_location_small : (k : TextureLocation) → k.x < 32 → k.y < 32 → new_location k.x k.y ≡ k
new_location_small k hx hy =
    let ex : k.x % 2 ^ 8 ≡ k.x = omega arith in
    let ey : k.y % 2 ^ 8 ≡ k.y = omega arith in rw (ex, ey) refl

-- The run of `free` on the point of a slot.
free_slot-eq :
    (r : TextureRegion) (k : TextureLocation) (empty_regions : ℕ)
    → IsSide r.slab_size.width
    → IsSide r.slab_size.height
    → k.x < 512 / r.slab_size.width
    → k.y < 512 / r.slab_size.height
    → (last : Bool) → (length (r.free_slots ++ k ∷ []) == r.total_slot_count) ≡ last
    → free_slot r (point_of r.slab_size k) empty_regions
      ≡ done (
          if last
          then deinit_region (record r { free_slots = r.free_slots ++ k ∷ [] }) empty_regions
          else (record r { free_slots = r.free_slots ++ k ∷ [] }, empty_regions))
unfolding free_slot
free_slot-eq r k empty_regions hw hh in_x in_y last test =
    let (px, fx, dx, bx) = slot_at k.x r.slab_size.width hw in_x in
    let (py, fy, dy, by) = slot_at k.y r.slab_size.height hh in_y in
    rw (dx, dy, new_location_small k bx by, test) refl

pub free_slot-Owned :
    (r : TextureRegion) (live : List TextureLocation) (k : TextureLocation) (empty_regions : ℕ)
    → Owned r live
    → 1 ≤ count k live
    → (r' : TextureRegion) × (empty' : ℕ) × (free_slot r (point_of r.slab_size k) empty_regions
        ≡ done (r', empty'))
      × (r'.layer_index ≡ r.layer_index)
      × Freed r (remove_location k live) empty_regions r' empty'
unfolding free_slot count
free_slot-Owned r live k empty_regions h here =
    let (in_x, in_y) = live-in_grid r live k h here in
    let shorter = length-remove k live here in
    let longer = length-append r.free_slots (k ∷ []) in
    elim (nil-or-cons (remove_location k live)) [
      | inl last ↦ (
        (deinit_region r empty_regions).0,
        (empty_regions + 1) % usize_mod,
        free_slot-eq r k empty_regions h.width_is_side h.height_is_side in_x in_y true ground
            (arith, h.total, shorter, longer, ap length last),
        refl,
        inl (last, refl, refl, refl),
      )
      | inr more ↦ (
        record r { free_slots = r.free_slots ++ k ∷ [] },
        empty_regions,
        free_slot-eq r k empty_regions h.width_is_side h.height_is_side in_x in_y false ground
            (arith, h.total, shorter, longer, more),
        refl,
        inr (
          record {
            width_is_side = h.width_is_side;
            height_is_side = h.height_is_side;
            slots = λ j. ground (
              arith,
              h.slots j,
              count-append j r.free_slots (k ∷ []),
              count-remove k j live here,
            );
            total = omega (arith, h.total, shorter, longer);
          },
          refl,
          refl,
        ),
      )
    ]
