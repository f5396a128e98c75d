-- ===== src/TextureCache/Shared.antt =====
-- `TextureCache::allocate` of an image that goes to a shared texture with room (webrender/src/texture_cache.rs).
use webrender.Prelude.{
  ℕ, ◌+◌, ◌≤◌, ◌<◌, ◌≡◌, ◌≢◌, refl, sym, subst, inl, inr, ◌⊎◌, [], ◌∷◌, ◌++◌, none, some, true,
  false, ◌&&◌, Run, done, arith, length, get_elem?, u32_mod, usize_mod, ◌%◌, All-get_elem?,
}
use webrender.Prelude.I32.{gt_i32}
use webrender.FreeList.{WeakFreeListHandle, Slot, weak}
use webrender.FreeList.Invariant.{Inv}
use webrender.FreeList.View.{lookup}
use webrender.FreeList.Laws.{upsert-Inserts}
use webrender.GpuCache.Blocks.{new_handle}
use webrender.TextureCache.Updates.{push_alloc}
use webrender.TextureCache.Regions.{
  SlabSize, new_slab_size, TextureLocation, region_is_empty, texture_region_dimensions,
}
use webrender.TextureCache.Entries.{
  EntryDetails, cache, shared_kind, CacheEntry, CacheAllocParams, new_entry,
}
use webrender.TextureCache.Arrays.{
  push_region, TextureArray, SharedTextures, select, Selected, a8_linear, a16_linear, rgba8_linear,
  rgba8_nearest, array_at, set_array,
}
use webrender.TextureCache.Slabs.{InRange, Fits}
use webrender.TextureCache.Slots.{count}
use webrender.TextureCache.Owned.{point_of}
use webrender.TextureCache.Search.{Live, NoneEmpty}
use webrender.TextureCache.Layers.{ArrayOk, set_live, push_region-ArrayOk}
use webrender.TextureCache.Disjoint.{Inside, Disjoint, Given, alloc_in_array-Given}
use webrender.TextureCache.Caches.{TextureCache, handles_of, set_doc_handles}
use webrender.TextureCache.Allocation.{
  is_empty, initialize_array, alloc_info, allocate_from_shared_cache, is_allowed_in_shared_cache,
  allocate_cache_entry, allocate_shared_entry, allocate,
}
use webrender.TextureCache.Standalone.{same_self}

array_at-set_array :
    (s : SharedTextures) (which : Selected) (a : TextureArray)
    → array_at (set_array s which a) which ≡ a
array_at-set_array s a8_linear a = refl
array_at-set_array s a16_linear a = refl
array_at-set_array s rgba8_linear a = refl
array_at-set_array s rgba8_nearest a = refl

-- The entry is in a slot of the array, which lies inside the region and apart from the slots in use before in its
-- layer; and the array is well formed with that slot in use too.
pub record TakesSlot (which : Selected) (live : Live) (s : SlabSize) (shared : SharedTextures)
    (details : EntryDetails) : Type 0 where
  pub layer : ℕ
  pub slot : TextureLocation
  pub details_is : details ≡ cache (point_of s slot) layer
  pub ok : ArrayOk (array_at shared which) (set_live live layer (slot ∷ live layer))
  pub inside : Inside s slot
  pub apart : (k : TextureLocation) → 1 ≤ count k (live layer) → Disjoint s slot k

-- The array is well formed, and has no texture yet, or one with an empty layer.
abbrev pub HasRoom : TextureArray → Live → Type 0
HasRoom a live =
    ArrayOk a live
    × (((a.texture_id ≡ none) × (a.regions ≡ []))
        ⊎ ((id : ℕ) × (a.texture_id ≡ some id) × (NoneEmpty a.regions → ⊥)))

-- The image fits a region, and goes to the array `which`.
pub record GoesTo (params : CacheAllocParams) (which : Selected) : Type 0 where
  pub positive :
      (gt_i32 params.descriptor.size.width 0 && gt_i32 params.descriptor.size.height 0) ≡ true
  pub allowed : is_allowed_in_shared_cache params.filter params.descriptor ≡ true
  pub selected : select params.descriptor.format params.filter ≡ done which
  pub range : InRange params.descriptor.size

-- The first attempt gives an entry.
record TakesFirst (c : TextureCache) (params : CacheAllocParams) (which : Selected) (live : Live)
    (s : SlabSize) : Type 0 where
  pub after : TextureCache
  pub entry : CacheEntry
  pub returns : allocate_from_shared_cache c params ≡ done (after, some entry)
  pub takes : TakesSlot which live s after.shared_textures entry.details
  pub entries : after.entries ≡ c.entries
  pub size : entry.size ≡ params.descriptor.size
  pub unset : entry.uv_rect_handle ≡ new_handle

-- The slot of an array, from the cache `c1` whose array `which` is `a`.
Given-TakesFirst :
    (c c1 : TextureCache) (params : CacheAllocParams) (which : Selected) (live : Live)
    (s : SlabSize) (a : TextureArray) (id : ℕ)
    → GoesTo params which
    → initialize_array c params.descriptor.format which
        (array_at c.shared_textures which).texture_id
      ≡ done c1
    → c1.entries ≡ c.entries
    → array_at c1.shared_textures which ≡ a
    → Given a live params c1.now id s
    → TakesFirst c params which live s
unfolding allocate_from_shared_cache
Given-TakesFirst c c1 params which live s a id goes ready entries is_a given =
    let shared = set_array c1.shared_textures which given.after in
    record {
      after = record c1 { shared_textures = shared };
      entry =
          new_entry (cache (point_of s given.slot) given.layer) id a.format a.filter c1.now params;
      returns = rw (goes.selected, ready, is_a, given.returns) refl;
      takes = record {
        layer = given.layer;
        slot = given.slot;
        details_is = refl;
        ok =
            subst (λ b. ArrayOk b (set_live live given.layer (given.slot ∷ live given.layer)))
              (sym (array_at-set_array c1.shared_textures which given.after)) given.ok;
        inside = given.inside;
        apart = given.apart;
      };
      entries = entries;
      size = refl;
      unset = refl;
    }

-- The array with its first layer.
with_layer :
    (a : TextureArray) (live : Live) (id : ℕ)
    → ArrayOk a live
    → a.regions ≡ []
    → (a' : TextureArray) × (push_region (record a { texture_id = some id }) ≡ done a')
      × ArrayOk a' live
      × (a'.texture_id ≡ some id)
      × (NoneEmpty a'.regions → ⊥)
with_layer a live id ok none_yet =
    let a1 : TextureArray = record a { texture_id = some id } in
    let ok1 : ArrayOk a1 live = record {
      layers = ok.layers;
      empties = ok.empties;
      few = ok.few;
      outside = ok.outside;
    } in
    let (a', pushed, ok', same_id, at_new) =
      push_region-ArrayOk a1 live ok1 (rw none_yet (omega arith)) in
    (
      a',
      pushed,
      ok',
      same_id,
      λ none_empty.
          let used =
            All-get_elem? (λ r. region_is_empty r ≡ false) a'.regions (length a.regions) none_empty
              at_new in
          cc,
    )

allocate_from_shared_cache-TakesFirst :
    (c : TextureCache) (params : CacheAllocParams) (which : Selected) (live : Live)
    → GoesTo params which
    → HasRoom (array_at c.shared_textures which) live
    → (s : SlabSize) × (new_slab_size params.descriptor.size ≡ done s)
      × Fits params.descriptor.size s
      × TakesFirst c params which live s
unfolding initialize_array
allocate_from_shared_cache-TakesFirst c params which live goes (ok, inr (id, has_id, room)) =
    let a = array_at c.shared_textures which in
    let (s, sliced, fits, result) =
      alloc_in_array-Given a live params c.now id ok has_id goes.range in
    (
      s,
      sliced,
      fits,
      elim result [
        | inl given ↦
            Given-TakesFirst c c params which live s a id goes (rw has_id refl) refl refl given
        | inr (_, none_empty) ↦ absurd (room none_empty)
      ],
    )
allocate_from_shared_cache-TakesFirst c params which live goes (ok, inl (no_id, none_yet)) =
    let a = array_at c.shared_textures which in
    let empty : is_empty a.regions ≡ true = rw none_yet refl in
    let (a', pushed, ok', same_id, room) = with_layer a live c.next_id ok none_yet in
    let c1 : TextureCache = record c {
      next_id = (c.next_id + 1) % usize_mod;
      pending_updates = push_alloc c.pending_updates c.next_id (
          alloc_info texture_region_dimensions texture_region_dimensions params.descriptor.format
            a.filter 1 true);
      shared_textures = set_array c.shared_textures which a';
    } in
    let (s, sliced, fits, result) =
      alloc_in_array-Given a' live params c.now c.next_id ok' same_id goes.range in
    (
      s,
      sliced,
      fits,
      elim result [
        | inl given ↦
            Given-TakesFirst c c1 params which live s a' c.next_id goes
              (rw (no_id, empty, pushed) refl) refl (array_at-set_array c.shared_textures which a')
              given
        | inr (_, none_empty) ↦ absurd (room none_empty)
      ],
    )

-- The new entry is at a new handle.
pub record Adds (c : TextureCache) (params : CacheAllocParams) (which : Selected) (live : Live)
    (s : SlabSize) (r : Run (TextureCache × WeakFreeListHandle)) : Type 0 where
  pub after : TextureCache
  pub handle : WeakFreeListHandle
  pub entry : CacheEntry
  pub returns : r ≡ done (after, handle)
  pub keeps : Inv after.entries
  pub reads : lookup after.entries handle ≡ some entry
  pub takes : TakesSlot which live s after.shared_textures entry.details
  pub size : entry.size ≡ params.descriptor.size
  pub unset : entry.uv_rect_handle ≡ new_handle

module _ (pressure_scaled : ℕ → ℕ) where
  pub allocate-Adds :
      (c : TextureCache) (params : CacheAllocParams) (w : WeakFreeListHandle)
      (slot : Slot CacheEntry) (which : Selected) (live : Live)
      → Inv c.entries
      → length c.entries.slots < u32_mod
      → get_elem? c.entries.slots w.index ≡ some slot
      → slot.epoch ≢ w.epoch
      → GoesTo params which
      → HasRoom (array_at c.shared_textures which) live
      → (s : SlabSize) × (new_slab_size params.descriptor.size ≡ done s)
        × Fits params.descriptor.size s
        × Adds c params which live s (allocate pressure_scaled c params w)
  unfolding allocate allocate_cache_entry allocate_shared_entry
  allocate-Adds c params w slot which live inv room at_w other goes has_room =
      let (s, sliced, fits, t) =
        allocate_from_shared_cache-TakesFirst c params which live goes has_room in
      let (r, upserted) = upsert-Inserts c.entries w t.entry slot inv room at_w other in
      (
        s,
        sliced,
        fits,
        record {
          after =
              set_doc_handles (record t.after { entries = r.after }) shared_kind
                (handles_of t.after.doc_data.handles shared_kind ++ r.handle ∷ []);
          handle = weak r.handle;
          entry = t.entry;
          returns =
              rw (goes.positive, goes.allowed, t.returns, t.entries, upserted, t.takes.details_is)
                refl;
          keeps = r.keeps;
          reads = rw (r.maps (weak r.handle), same_self (weak r.handle)) refl;
          takes = t.takes;
          size = t.size;
          unset = t.unset;
        },
      )
