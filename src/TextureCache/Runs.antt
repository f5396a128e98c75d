-- ===== src/TextureCache/Runs.antt =====
-- Runs of the shared textures and of the eviction of webrender/src/texture_cache.rs on concrete arrays and
-- entries.
use webrender.Prelude.{
  ℕ, zero, suc, ◌≡◌, ◌⊎◌, refl, sym, ap, ◌∙◌, inl, inr, ◌<◌, ◌≤◌, ◌+◌, [], ◌∷◌, Option, none, some,
  true, false, done, panic, arith, get_elem?,
}
use mathlib.Core.Option.{some-injective}
use webrender.FrameStamp.{FrameStamp}
use webrender.FreeList.{FreeListHandle, WeakFreeListHandle, Slot, weak, get_opt}
use webrender.FreeList.Freed.{Holds}
use webrender.TextureAllocator.{DeviceIntSize}
use webrender.Images.{ImageFormat, bgra8, rg8, new_descriptor}
use webrender.TextureCache.Updates.{linear, find_kind}
use webrender.TextureCache.Regions.{
  SlabSize, TextureLocation, TextureRegion, new_region, new_slab_size,
}
use webrender.TextureCache.Entries.{
  standalone, CacheEntry, CacheAllocParams, rect_kind, new_standalone,
}
use webrender.TextureCache.Arrays.{
  TextureArray, new_array, push_region, alloc_in_array, free_in_array,
}
use webrender.TextureCache.Slabs.{InRange, OutOfRange, Fits, new_slab_size-Fits}
use webrender.TextureCache.Slots.{count, remove_location}
use webrender.TextureCache.Owned.{point_of}
use webrender.TextureCache.Search.{Live}
use webrender.TextureCache.Layers.{ArrayOk, set_live, empty_count}
use webrender.TextureCache.Safety.{alloc_in_array-push_region, free_in_array-ArrayOk}
use webrender.TextureCache.Disjoint.{Given, alloc_in_array-Given}
use webrender.TextureCache.Search.{NoneEmpty}
use webrender.Prelude.I32.{mul_i32}
use webrender.TextureCache.Entries.{cache, new_entry}
use webrender.TextureCache.Arrays.{alloc_loop}
use webrender.TextureCache.Regions.{alloc_slot, last_slot, quantize_dimension}
use webrender.TextureCache.Caches.{TextureCache}
use webrender.TextureCache.Allocation.{is_allowed_in_shared_cache, allocate_cache_entry}
use webrender.TextureCache.Frames.{new_cache, end_frame}
use webrender.TextureCache.Requests.{mark_unused}
use webrender.TextureCache.Returns.{CanFree}
use webrender.TextureCache.Lifetimes.{StandaloneOk, end_frame-returns}
use webrender.TextureCache.Unused.{mark_unused-end_frame}
use webrender.TextureCache.Unshared.{allocate_cache_entry-Unshared}

abbrev params : ℕ → ℕ → ImageFormat → CacheAllocParams
params width height format = record {
  descriptor = new_descriptor width height format true false;
  filter = linear;
  user_data = (0, 0, 0);
  uv_rect_kind = rect_kind;
}

abbrev size : ℕ → ℕ → DeviceIntSize
size width height = record { width = width; height = height }

new_slab_size-Fits_example :
    (InRange (size 100 20)
      × ((s : SlabSize) × (new_slab_size (size 100 20) ≡ done s) × Fits (size 100 20) s))
    ⊎ (OutOfRange (size 100 20) × (new_slab_size (size 100 20) ≡ panic))
new_slab_size-Fits_example = new_slab_size-Fits (size 100 20)

abbrev frame : ℕ → FrameStamp
frame n = record { id = n; time = 10000000000; document_id = record { namespace_id = 1; id = 1 } }

-- An array with one empty layer.
abbrev one_layer : TextureArray
one_layer = record (new_array bgra8 linear) {
  regions = new_region 0 ∷ [];
  empty_regions = 1;
  texture_id = some 1;
}

abbrev no_live : Live
no_live j = []

one_layer-ArrayOk : ArrayOk one_layer no_live
unfolding empty_count
one_layer-ArrayOk = record {
  layers = (refl, inl (refl, refl, refl), tt);
  empties = refl;
  few = omega arith;
  outside = λ j le. refl;
}

alloc_in_array-push_region_example :
    (a' : TextureArray) × (push_region one_layer ≡ done a')
    × (a'' : TextureArray) × (entry : CacheEntry) × (alloc_in_array a'
          (params 512 400 bgra8)
          (frame 10)
        ≡ done (a'', some entry))
    × (entry.size ≡ size 512 400)
    × ((live' : Live) × ArrayOk a'' live')
alloc_in_array-push_region_example =
    alloc_in_array-push_region one_layer no_live (params 512 400 bgra8) (frame 10) 1
      one_layer-ArrayOk refl (omega arith) (omega arith, omega arith, omega arith, omega arith)

-- A layer that is cut into two slots of 512 by 256 pixels, both in use.
abbrev top : TextureLocation
top = record { x = 0; y = 0 }

abbrev bottom : TextureLocation
bottom = record { x = 0; y = 1 }

abbrev halves : TextureRegion
halves = record {
  layer_index = 0;
  slab_size = record { width = 512; height = 256 };
  free_slots = [];
  total_slot_count = 2;
}

abbrev full_layer : TextureArray
full_layer = record (new_array bgra8 linear) {
  regions = halves ∷ [];
  empty_regions = 0;
  texture_id = some 1;
}

abbrev both_live : Live
both_live zero = top ∷ bottom ∷ []
both_live (suc j) = []

both_live_past : (j : ℕ) → 1 ≤ j → both_live j ≡ []
both_live_past zero le = absurd (omega arith)
both_live_past (suc j) le = refl

full_layer-ArrayOk : ArrayOk full_layer both_live
unfolding empty_count count
full_layer-ArrayOk = record {
  layers = (
    refl,
    inr (record {
      width_is_side = inr (inr (inr (inr (inr refl))));
      height_is_side = inr (inr (inr (inr (inl refl))));
      slots = λ k. ground arith;
      total = refl;
    }),
    tt,
  );
  empties = refl;
  few = omega arith;
  outside = λ j le. both_live_past j le;
}

free_in_array-ArrayOk_example :
    (a' : TextureArray) × (free_in_array full_layer 0 halves
        (point_of (record { width = 512; height = 256 }) bottom)
      ≡ done a')
    × ArrayOk a' (set_live both_live 0 (remove_location bottom (both_live 0)))
unfolding count
free_in_array-ArrayOk_example =
    free_in_array-ArrayOk full_layer both_live 0 halves bottom full_layer-ArrayOk refl (omega arith)

-- The same layer with the lower slot free.
abbrev half_layer : TextureArray
half_layer = record full_layer { regions = record halves { free_slots = bottom ∷ [] } ∷ [] }

abbrev top_live : Live
top_live zero = top ∷ []
top_live (suc j) = []

top_live_past : (j : ℕ) → 1 ≤ j → top_live j ≡ []
top_live_past zero le = absurd (omega arith)
top_live_past (suc j) le = refl

half_layer-ArrayOk : ArrayOk half_layer top_live
unfolding empty_count count
half_layer-ArrayOk = record {
  layers = (
    refl,
    inr (record {
      width_is_side = inr (inr (inr (inr (inr refl))));
      height_is_side = inr (inr (inr (inr (inl refl))));
      slots = λ k. ground arith;
      total = refl;
    }),
    tt,
  );
  empties = refl;
  few = omega arith;
  outside = λ j le. top_live_past j le;
}

alloc_in_array-Given_example :
    (s : SlabSize) × (new_slab_size (size 512 200) ≡ done s)
    × Fits (size 512 200) s
    × (Given half_layer top_live (params 512 200 bgra8) (frame 10) 1 s
        ⊎ ((alloc_in_array half_layer (params 512 200 bgra8) (frame 10) ≡ done (half_layer, none))
            × NoneEmpty half_layer.regions))
alloc_in_array-Given_example =
    alloc_in_array-Given half_layer top_live (params 512 200 bgra8) (frame 10) 1 half_layer-ArrayOk
      refl (omega arith, omega arith, omega arith, omega arith)

-- It gets the lower slot.
lower_slot :
    alloc_in_array half_layer (params 512 200 bgra8) (frame 10)
    ≡ done (
      full_layer,
      some (
          new_entry
            (cache (record { x = 0; y = 256 }) 0)
            1
            bgra8
            linear
            (frame 10)
            (params 512 200 bgra8)),
    )
unfolding alloc_in_array alloc_loop alloc_slot last_slot new_slab_size quantize_dimension mul_i32
lower_slot = refl

abbrev empty_cache : TextureCache
empty_cache = record (new_cache false 4096 8) { now = frame 10 }

allocate_cache_entry-Unshared_example :
    (is_allowed_in_shared_cache linear (new_descriptor 16 16 rg8 true false) ≡ true)
    × (allocate_cache_entry (λ n. n) empty_cache (params 16 16 rg8) ≡ panic)
allocate_cache_entry-Unshared_example =
    allocate_cache_entry-Unshared (λ n. n) empty_cache (params 16 16 rg8)
      (omega arith, omega arith, omega arith, omega arith) tt

-- Two standalone images: the first was used in frame 10, the second a long time ago.
abbrev first_image : CacheEntry
first_image = new_standalone 5 (frame 10) (params 600 600 bgra8)

abbrev second_image : CacheEntry
second_image = new_standalone 6 (record (frame 1) { time = 1 }) (params 700 700 bgra8)

abbrev slot : Option CacheEntry → Slot CacheEntry
slot value = record { next = none; epoch = 1; value = value }

abbrev handle : ℕ → FreeListHandle
handle i = record { index = i; epoch = 1 }

abbrev two_images : TextureCache
two_images = record empty_cache {
  entries = record {
    slots = slot none ∷ slot (some first_image) ∷ slot (some second_image) ∷ [];
    free_list_head = none;
    active_count = 2;
  };
  doc_data = record {
    last_shared_cache_expiration = frame 9;
    handles = record { standalone_handles = handle 1 ∷ handle 2 ∷ []; shared_handles = [] };
  };
}

two_images-texture : (i : ℕ) (e : CacheEntry) → Holds two_images.entries i e → e.texture_id ≡ i + 4
two_images-texture zero e (s, at_i, full) = cc
two_images-texture (suc zero) e (s, at_i, full) =
    ap (λ x. x.texture_id)
      (some-injective _ _ (sym full ∙ ap (λ t. t.value) (sym (some-injective _ _ at_i))))
two_images-texture (suc (suc zero)) e (s, at_i, full) =
    ap (λ x. x.texture_id)
      (some-injective _ _ (sym full ∙ ap (λ t. t.value) (sym (some-injective _ _ at_i))))
two_images-texture (suc (suc (suc i))) e (s, at_i, full) = cc

two_images-index :
    (j : ℕ) (h : FreeListHandle) → get_elem? (handle 1 ∷ handle 2 ∷ []) j ≡ some h → h.index ≡ suc j
two_images-index zero h e = ap (λ g. g.index) (sym (some-injective _ _ e))
two_images-index (suc zero) h e = ap (λ g. g.index) (sym (some-injective _ _ e))
two_images-index (suc (suc j)) h e = cc

two_images-each :
    (j : ℕ)
    → j < 2
    → (h : FreeListHandle) × (e : CacheEntry) × (get_elem? (handle 1 ∷ handle 2 ∷ []) j ≡ some h)
      × Holds two_images.entries h.index e
      × (e.details ≡ standalone)
      × CanFree (find_kind e.texture_id two_images.pending_updates.allocations)
unfolding find_kind new_cache
two_images-each zero lt =
    (handle 1, first_image, refl, (slot (some first_image), refl, refl), refl, tt)
two_images-each (suc zero) lt =
    (handle 2, second_image, refl, (slot (some second_image), refl, refl), refl, tt)
two_images-each (suc (suc j)) lt = absurd (omega arith)

two_images-StandaloneOk : StandaloneOk two_images
two_images-StandaloneOk = record {
  each = two_images-each;
  apart = λ j k h h' e e' lt lt' ne at_j at_k held held'.
      let a = two_images-index j h at_j in
      let b = two_images-index k h' at_k in
      let c = two_images-texture h.index e held in
      let d = two_images-texture h'.index e' held' in
      (omega (arith, a, b, ne), omega (arith, a, b, c, d, ne));
}

end_frame-returns_example :
    (c' : TextureCache) × (end_frame (λ n. n) two_images ≡ done c')
    × ((w : WeakFreeListHandle) (e : CacheEntry)
        → get_opt two_images.entries w ≡ done (some e)
        → e.last_access.id ≡ 10
        → get_opt c'.entries w ≡ done (some e))
end_frame-returns_example =
    end_frame-returns (λ n. n) two_images two_images-StandaloneOk (omega arith) (omega arith)

first_found : get_opt two_images.entries (weak (handle 1)) ≡ done (some first_image)
unfolding get_opt
first_found = refl

mark_unused-end_frame_example :
    (c1 c2 : TextureCache) × (mark_unused two_images (weak (handle 1)) ≡ done c1)
    × (end_frame (λ n. n) c1 ≡ done c2)
    × (get_opt c2.entries (weak (handle 1)) ≡ done none)
mark_unused-end_frame_example =
    mark_unused-end_frame (λ n. n) two_images 0 (handle 1) first_image two_images-StandaloneOk refl
      first_found (omega arith) (omega arith) (omega arith)
