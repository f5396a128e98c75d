-- ===== src/TextureCache/Placement.antt =====
-- `alloc` of a `TextureArray` (webrender/src/texture_cache.rs) and the freeing of its slots, on a well-formed
-- array.
use webrender.Prelude.{
  ℕ, ◌+◌, ◌-◌, ◌%◌, ◌≤◌, ◌≡◌, ◌⊎◌, refl, sym, ap, subst, inl, inr, ◌∙◌, [], ◌∷◌, none, some, true,
  done, arith, length, get_elem?, set, usize_mod, lt_of_get_elem?, get_elem?-set_self,
}
use webrender.TextureAllocator.{DeviceIntPoint}
use webrender.FrameStamp.{FrameStamp}
use webrender.TextureCache.Regions.{
  SlabSize, new_slab_size, TextureLocation, TextureRegion, region_is_empty, alloc_slot,
}
use webrender.TextureCache.Entries.{EntryDetails, cache, CacheAllocParams, new_entry}
use webrender.TextureCache.Arrays.{TextureArray, alloc_empty, alloc_in_array}
use webrender.TextureCache.Slabs.{InRange, Fits, new_slab_size-done, IsSide}
use webrender.TextureCache.Slots.{count}
use webrender.TextureCache.Owned.{Owned, Allocated, point_of, init_region-Owned, alloc_slot-cases}
use webrender.TextureCache.Search.{Live, Owned-not-empty, NoneEmpty, Hit, alloc_loop-cases}
use webrender.TextureCache.Layers.{
  empty_count-length, empty_count-set, ArrayOk, ArrayOk-layer, set_live, ArrayOk-set,
}

-- A slot that `alloc` took, for a slab size.
pub record Placed (a a' : TextureArray) (live : Live) (s : SlabSize) (details : EntryDetails)
    : Type 0 where
  pub layer : ℕ
  pub slot : TextureLocation
  pub region : TextureRegion
  pub details_is : details ≡ cache (point_of s slot) layer
  pub fresh : count slot (live layer) ≡ 0
  pub at_layer : get_elem? a'.regions layer ≡ some region
  pub slab : region.slab_size ≡ s
  pub ok : ArrayOk a' (set_live live layer (slot ∷ live layer))

-- The search found a slot.
Hit-Placed :
    (a : TextureArray) (live : Live) (s : SlabSize)
    → ArrayOk a live
    → (h : Hit s 0 none a.regions live)
    → Placed a (record a { regions = set a.regions h.k h.after }) live s (cache h.point (0 + h.k))
Hit-Placed a live s ok h =
    let k_is : 0 + h.k ≡ h.k = omega arith in
    let taken = subst (λ j. Allocated h.before h.after (live j) h.point) k_is h.taken in
    let inside = lt_of_get_elem? a.regions h.k h.at_k in
    record {
      layer = h.k;
      slot = taken.slot;
      region = h.after;
      details_is = rw (k_is, taken.point_is, h.slab_is) refl;
      fresh = taken.fresh;
      at_layer = get_elem?-set_self a.regions h.k h.after inside;
      slab = taken.slab ∙ h.slab_is;
      ok =
          ArrayOk-set a live h.k h.before h.after (taken.slot ∷ live h.k) a.empty_regions ok h.at_k
            taken.layer (inr taken.owned) rw taken.slab refl;
    }

empty-state :
    (a : TextureArray) (live : Live) (k : ℕ) (r : TextureRegion)
    → ArrayOk a live
    → get_elem? a.regions k ≡ some r
    → region_is_empty r ≡ true
    → (r.free_slots ≡ []) × (live k ≡ [])
empty-state a live k r ok at_k empty =
    elim (ArrayOk-layer a live k ok at_k).1 as (λ x. (r.free_slots ≡ []) × (live k ≡ [])) [
      | inl (slab, free, none_live) ↦ (free, none_live)
      | inr owned ↦ let used = Owned-not-empty r (live k) owned in cc
    ]

-- The first slot of a region that was just cut.
first_slot :
    (r : TextureRegion)
    → Owned r []
    → 1 ≤ length r.free_slots
    → (r' : TextureRegion) × (point : DeviceIntPoint) × (alloc_slot r ≡ (r', some point))
      × Allocated r r' [] point
first_slot r owned free = elim (alloc_slot-cases r [] owned) [
  | inl (e, full) ↦ ground (arith, ap length e)
  | inr found ↦ found
]

-- An empty region is cut for the slab size, and its first slot is taken.
alloc_empty-Placed :
    (a : TextureArray) (live : Live) (s : SlabSize) (k : ℕ) (r : TextureRegion)
    → ArrayOk a live
    → IsSide s.width
    → IsSide s.height
    → get_elem? a.regions k ≡ some r
    → region_is_empty r ≡ true
    → (a' : TextureArray) × (details : EntryDetails) × (alloc_empty a s k ≡ done (a', some details))
      × (a'.texture_id ≡ a.texture_id)
      × (a'.format ≡ a.format)
      × (a'.filter ≡ a.filter)
      × Placed a a' live s details
unfolding alloc_empty
alloc_empty-Placed a live s k r ok hw hh at_k empty =
    let (free, none_live) = empty-state a live k r ok at_k empty in
    let (r1, cut, owned, slab, layer, slots) = init_region-Owned r s a.empty_regions free hw hh in
    let (r2, point, found, taken) = first_slot r1 owned slots in
    let inside = lt_of_get_elem? a.regions k at_k in
    let e' = (a.empty_regions + usize_mod - 1) % usize_mod in
    let used = Owned-not-empty r2 (taken.slot ∷ []) taken.owned in
    let layer_is = (ArrayOk-layer a live k ok at_k).0 in
    let at_r2 : (alloc_slot r1).0 ≡ r2 = ap (λ t. t.0) found in
    let at_point : (alloc_slot r1).1 ≡ some point = ap (λ t. t.1) found in
    (
      record a { regions = set a.regions k r2; empty_regions = e' },
      cache point k,
      rw (at_k, cut, at_r2, at_point, layer_is) refl,
      refl,
      refl,
      refl,
      record {
        layer = k;
        slot = taken.slot;
        region = r2;
        details_is = rw (taken.point_is, slab) refl;
        fresh = subst (λ l. count taken.slot l ≡ 0) (sym none_live) taken.fresh;
        at_layer = get_elem?-set_self a.regions k r2 inside;
        slab = taken.slab ∙ slab;
        ok =
            ArrayOk-set a live k r r2 (taken.slot ∷ live k) e' ok at_k (taken.layer ∙ layer)
              (inr (subst (λ l. Owned r2 (taken.slot ∷ l)) (sym none_live) taken.owned)) ground
              (
                arith,
                ok.empties,
                ok.few,
                empty_count-length a.regions,
                empty_count-set a.regions k r r2 at_k,
                used,
                empty,
              );
      },
    )

-- The result of `alloc` for a slab size: a slot, or nothing because every region is in use and none has one.
abbrev pub AllocResult : TextureArray → Live → CacheAllocParams → FrameStamp → ℕ → SlabSize → Type 0
AllocResult a live params now id s =
    ((a' : TextureArray) × (details : EntryDetails) × (alloc_in_array a params now
        ≡ done (a', some (new_entry details id a.format a.filter now params)))
      × (a'.texture_id ≡ some id)
      × Placed a a' live s details)
    ⊎ ((alloc_in_array a params now ≡ done (a, none)) × NoneEmpty a.regions)

pub alloc_sliced :
    (a : TextureArray) (live : Live) (params : CacheAllocParams) (now : FrameStamp) (id : ℕ)
    (s : SlabSize)
    → ArrayOk a live
    → a.texture_id ≡ some id
    → new_slab_size params.descriptor.size ≡ done s
    → IsSide s.width
    → IsSide s.height
    → AllocResult a live params now id s
unfolding alloc_in_array
alloc_sliced a live params now id s ok has_id sliced hw hh =
    elim (alloc_loop-cases s 0 none a.regions live ok.layers) [
      | inl h ↦ inl (
        record a { regions = set a.regions h.k h.after },
        cache h.point (0 + h.k),
        rw (sliced, h.result, has_id, alloc_in_array) refl,
        has_id,
        Hit-Placed a live s ok h,
      )
      | inr (inl (none_empty, missed)) ↦
          inr (rw (sliced, missed, has_id, alloc_in_array) refl, none_empty)
      | inr (inr (k, r, at_k, empty, missed)) ↦
          let k_is : 0 + k ≡ k = omega arith in
          let (a', details, taken, same_id, same_format, same_filter, placed) =
            alloc_empty-Placed a live s k r ok hw hh at_k empty in
          inl (
            a',
            details,
            rw
                (
                  sliced, missed, k_is, taken, same_id, has_id, same_format, same_filter,
                  alloc_in_array,
                )
                refl,
            same_id ∙ has_id,
            placed,
          )
    ]

-- `alloc` returns on a well-formed array with a texture.
pub alloc_in_array-Placed :
    (a : TextureArray) (live : Live) (params : CacheAllocParams) (now : FrameStamp) (id : ℕ)
    → ArrayOk a live
    → a.texture_id ≡ some id
    → InRange params.descriptor.size
    → (s : SlabSize) × (new_slab_size params.descriptor.size ≡ done s)
      × Fits params.descriptor.size s
      × AllocResult a live params now id s
alloc_in_array-Placed a live params now id ok has_id range =
    let (s, sliced, fits) = new_slab_size-done params.descriptor.size range in
    (s, sliced, fits, alloc_sliced a live params now id s ok has_id sliced fits.0 fits.1)
