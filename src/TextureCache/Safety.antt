-- ===== src/TextureCache/Safety.antt =====
-- A `TextureArray` (webrender/src/texture_cache.rs) that gets another layer, and one whose slots are freed.
use webrender.Prelude.{
  ℕ, ◌+◌, ◌≤◌, ◌<◌, ◌≡◌, refl, subst, inl, inr, ◌∙◌, [], some, true, false, done, arith, length,
  get_elem?, set, All-get_elem?, usize_mod, length-set,
}
use webrender.FrameStamp.{FrameStamp}
use webrender.TextureCache.Updates.{TextureFilter}
use webrender.Images.{ImageFormat}
use webrender.TextureCache.Arrays.{new_array}
use webrender.TextureCache.Regions.{TextureLocation, TextureRegion, region_is_empty}
use webrender.TextureCache.Entries.{CacheEntry, CacheAllocParams}
use webrender.TextureCache.Arrays.{TextureArray, push_region, alloc_in_array, free_in_array}
use webrender.TextureCache.Slabs.{InRange}
use webrender.TextureCache.Slots.{count, remove_location}
use webrender.TextureCache.Owned.{point_of, free_slot-Owned}
use webrender.TextureCache.Search.{Live, Owned-not-empty}
use webrender.TextureCache.Layers.{
  empty_count, empty_count-length, empty_count-set, ArrayOk, ArrayOk-layer, set_live, ArrayOk-set,
  push_region-ArrayOk,
}
use webrender.TextureCache.Placement.{alloc_in_array-Placed}

-- After `push_region` on a well-formed array with a texture, `alloc` gives an entry for every size that fits
-- a region: the expectation of `allocate_cache_entry` after it adds a layer holds. The array may not have
-- 2^64 - 1 layers before.
pub alloc_in_array-push_region :
    (a : TextureArray) (live : Live) (params : CacheAllocParams) (now : FrameStamp) (id : ℕ)
    → ArrayOk a live
    → a.texture_id ≡ some id
    → length a.regions + 1 < usize_mod
    → InRange params.descriptor.size
    → (a' : TextureArray) × (push_region a ≡ done a')
      × (a'' : TextureArray) × (entry : CacheEntry) × (alloc_in_array a' params now
          ≡ done (a'', some entry))
      × (entry.size ≡ params.descriptor.size)
      × ((live' : Live) × ArrayOk a'' live')
alloc_in_array-push_region a live params now id ok has_id room range =
    let (a', pushed, ok', same_id, at_new) = push_region-ArrayOk a live ok room in
    let (s, sliced, fits, result) =
      alloc_in_array-Placed a' live params now id ok' (same_id ∙ has_id) range in
    elim result [
      | inl (a'', details, taken, same, placed) ↦ (a', pushed, a'', _, taken, refl, (_, placed.ok))
      | inr (missed, none_empty) ↦
          let used =
            All-get_elem? (λ r. region_is_empty r ≡ false) a'.regions (length a.regions) none_empty
              at_new in
          cc
    ]

-- The freeing of a live slot of a well-formed array returns, and the array is well formed with that slot no
-- longer live.
pub free_in_array-ArrayOk :
    (a : TextureArray) (live : Live) (k : ℕ) (r : TextureRegion) (slot : TextureLocation)
    → ArrayOk a live
    → get_elem? a.regions k ≡ some r
    → 1 ≤ count slot (live k)
    → (a' : TextureArray) × (free_in_array a k r (point_of r.slab_size slot) ≡ done a')
      × ArrayOk a' (set_live live k (remove_location slot (live k)))
unfolding free_in_array count
free_in_array-ArrayOk a live k r slot ok at_k here = elim (ArrayOk-layer a live k ok at_k).1 [
  | inl (slab, free, none_live) ↦ ground (arith, subst (λ l. 1 ≤ count slot l) none_live here)
  | inr owned ↦
      let (r', empty', freed, layer, state) =
        free_slot-Owned r (live k) slot a.empty_regions owned here in
      let used = Owned-not-empty r (live k) owned in
      (
        record a { regions = set a.regions k r'; empty_regions = empty' },
        rw freed refl,
        ArrayOk-set a live k r r' (remove_location slot (live k)) empty' ok at_k layer
            (elim state [
              | inl (last, slab, no_free, counted) ↦ inl (slab, no_free, last)
              | inr (owned', slab, counted) ↦ inr owned'
            ])
            (elim state [
              | inl (last, slab, no_free, counted) ↦
                  let emptied : region_is_empty r' ≡ true = rw slab refl in
                  ground (
                    arith,
                    counted,
                    used,
                    emptied,
                    ok.empties,
                    ok.few,
                    empty_count-length (set a.regions k r'),
                    length-set a.regions k r',
                    empty_count-set a.regions k r r' at_k,
                  )
              | inr (owned', slab, counted) ↦
                  let used' = Owned-not-empty r' (remove_location slot (live k)) owned' in
                  ground (arith, counted, used, used')
            ]),
      )
]

-- An array without layers is well formed.
pub new_array-ArrayOk :
    (format : ImageFormat) (filter : TextureFilter) (id : ℕ)
    → ArrayOk (record (new_array format filter) { texture_id = some id }) (λ j. [])
unfolding empty_count
new_array-ArrayOk format filter id = record {
  layers = tt;
  empties = refl;
  few = omega arith;
  outside = λ j le. refl;
}
