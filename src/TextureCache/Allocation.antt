-- ===== src/TextureCache/Allocation.antt =====
-- The allocation of entries of `TextureCache` (webrender/src/texture_cache.rs), in the shared textures or
-- standalone. `allocate` writes the handle that it is given: the handle is a result.
use webrender.Prelude.{
  ℕ, ◌+◌, ◌%◌, List, [], ◌∷◌, ◌++◌, Option, none, some, Bool, true, false, not, ◌&&◌, ◌||◌, Run,
  done, panic, ◌>>=◌, unwrap, u32_mod, usize_mod, length, ltb, ◌==◌, if◌then◌else◌,
}
use webrender.Prelude.I32.{gt_i32}
use webrender.RenderTargets.{assert}
use webrender.FreeList.{
  FreeListHandle, WeakFreeListHandle, UpsertResult, updated, inserted, weak, upsert,
}
use webrender.Images.{ImageFormat, ImageDescriptor, same_format, rgba8, bgra8}
use webrender.TextureCache.Updates.{
  TextureFilter, nearest, linear, trilinear, TextureCacheAllocInfo, push_alloc, push_realloc,
}
use webrender.TextureCache.Regions.{texture_region_dimensions}
use webrender.TextureCache.Arrays.{
  select, Selected, array_at, set_array, push_region, alloc_in_array,
}
use webrender.TextureCache.Entries.{
  EntryKind, standalone_kind, shared_kind, kind_of, same_kind, CacheEntry, CacheAllocParams,
  new_standalone, EvictionThreshold, new_builder, with_max_frames, with_max_time_s, with_pressure,
  build_threshold,
}
use webrender.TextureCache.Caches.{
  TextureCache, handles_of, set_doc_handles, free_entry, maybe_expire_old_shared_entries,
}

abbrev pub alloc_info : ℕ → ℕ → ImageFormat → TextureFilter → ℕ → Bool → TextureCacheAllocInfo
alloc_info width height format filter layer_count is_shared_cache = record {
  width = width;
  height = height;
  format = format;
  filter = filter;
  layer_count = layer_count;
  is_shared_cache = is_shared_cache;
}

abbrev pub is_empty {ℓ} : {A : Type ℓ} → List A → Bool
is_empty [] = true
is_empty (x ∷ xs) = false

-- The first layer of an array that has no texture yet.
unfoldable pub initialize_array :
    TextureCache → ImageFormat → Selected → Option ℕ → Run TextureCache
initialize_array c format which (some id) = done c
initialize_array c format which none = do
  let texture_array = array_at c.shared_textures which
  _ ← assert (is_empty texture_array.regions)
  texture_array' ← push_region (record texture_array { texture_id = some c.next_id })
  done (record c {
    next_id = (c.next_id + 1) % usize_mod;
    pending_updates = push_alloc c.pending_updates c.next_id (
        alloc_info texture_region_dimensions texture_region_dimensions format texture_array.filter 1
          true);
    shared_textures = set_array c.shared_textures which texture_array';
  })

unfoldable pub allocate_from_shared_cache :
    TextureCache → CacheAllocParams → Run (TextureCache × Option CacheEntry)
allocate_from_shared_cache c params = do
  which ← select params.descriptor.format params.filter
  c' ←
      initialize_array c params.descriptor.format which
        (array_at c.shared_textures which).texture_id
  (texture_array, entry) ← alloc_in_array (array_at c'.shared_textures which) params c'.now
  done (record c' { shared_textures = set_array c'.shared_textures which texture_array }, entry)

abbrev pub is_nearest : TextureFilter → Bool
is_nearest nearest = true
is_nearest linear = false
is_nearest trilinear = false

unfoldable pub is_allowed_in_shared_cache : TextureFilter → ImageDescriptor → Bool
is_allowed_in_shared_cache filter d =
    not (same_format d.format rgba8)
    && not (is_nearest filter && not (same_format d.format bgra8))
    && not (
        gt_i32 d.size.width texture_region_dimensions
        || gt_i32 d.size.height texture_region_dimensions)

unfoldable pub allocate_standalone_entry :
    TextureCache → CacheAllocParams → TextureCache × CacheEntry
allocate_standalone_entry c params = (
  record c {
    next_id = (c.next_id + 1) % usize_mod;
    pending_updates = push_alloc c.pending_updates c.next_id (
        alloc_info params.descriptor.size.width params.descriptor.size.height
          params.descriptor.format params.filter 1 false);
  },
  new_standalone c.next_id c.now params,
)

-- The second attempt, if entries were expired.
abbrev pub retry_shared :
    TextureCache → CacheAllocParams → Bool → Run (TextureCache × Option CacheEntry)
retry_shared c params false = done (c, none)
retry_shared c params true = allocate_from_shared_cache c params

-- `expect`
abbrev pub expect_entry : TextureCache × Option CacheEntry → Run (TextureCache × CacheEntry)
expect_entry (c, none) = panic
expect_entry (c, some entry) = done (c, entry)

-- A layer is added to the array, and the entry is allocated in it.
unfoldable pub allocate_in_new_layer :
    TextureCache → CacheAllocParams → Selected → ℕ → Run (TextureCache × CacheEntry)
allocate_in_new_layer c params which num_regions = do
  let texture_array = array_at c.shared_textures which
  texture_id ← unwrap texture_array.texture_id
  updates ← push_realloc c.pending_updates texture_id (
      alloc_info texture_region_dimensions texture_region_dimensions params.descriptor.format
        texture_array.filter ((num_regions + 1) % u32_mod) true)
  texture_array' ← push_region texture_array
  result ←
      allocate_from_shared_cache
        (record c {
          pending_updates = updates;
          shared_textures = set_array c.shared_textures which texture_array';
        })
        params
  expect_entry result

-- From the addition of a layer on.
abbrev pub allocate_fresh :
    TextureCache → CacheAllocParams → ℕ → Option CacheEntry → Run (TextureCache × CacheEntry)
allocate_fresh c params num_regions (some entry) = done (c, entry)
allocate_fresh c params num_regions none = do
  which ← select params.descriptor.format params.filter
  if ltb num_regions c.max_texture_layers
      then allocate_in_new_layer c params which num_regions
      else done (allocate_standalone_entry c params)

-- `iter().position(|h| h.weak() == *handle)` and `remove`.
unfoldable pub take_handle :
    WeakFreeListHandle → List FreeListHandle → Run (FreeListHandle × List FreeListHandle)
take_handle handle [] = panic
take_handle handle (h ∷ hs) = elim (h.index == handle.index && h.epoch == handle.epoch) [
  | true ↦ done (h, hs)
  | false ↦ do (taken, rest) ← take_handle handle hs; done (taken, h ∷ rest)
]

abbrev pub other_kind : EntryKind → EntryKind
other_kind standalone_kind = shared_kind
other_kind shared_kind = standalone_kind

-- An entry that changes its kind moves its handle.
unfoldable pub move_handle : TextureCache → WeakFreeListHandle → EntryKind → Run TextureCache
move_handle c handle new_kind = do
  (taken, rest) ← take_handle handle (handles_of c.doc_data.handles (other_kind new_kind))
  let c' = set_doc_handles c (other_kind new_kind) rest
  done (set_doc_handles c' new_kind (handles_of c'.doc_data.handles new_kind ++ taken ∷ []))

abbrev pub move_if_needed :
    TextureCache → WeakFreeListHandle → EntryKind → EntryKind → Run TextureCache
move_if_needed c handle new_kind old_kind =
    if same_kind new_kind old_kind then done c else move_handle c handle new_kind

-- The `match` on the result of `upsert`.
abbrev pub place_entry :
    TextureCache
    → WeakFreeListHandle
    → EntryKind
    → UpsertResult CacheEntry
    → Run (TextureCache × WeakFreeListHandle)
place_entry c handle new_kind (updated old_entry) = do
  c' ← move_if_needed c handle new_kind (kind_of old_entry.details)
  c'' ← free_entry c' old_entry
  done (c'', handle)
place_entry c handle new_kind (inserted new_handle) = done (
  set_doc_handles c new_kind (handles_of c.doc_data.handles new_kind ++ new_handle ∷ []),
  weak new_handle,
)

module _ (pressure_scaled : ℕ → ℕ) where
  unfoldable pub default_eviction : TextureCache → Run EvictionThreshold
  default_eviction c =
      build_threshold pressure_scaled
        (with_pressure (with_max_time_s 3 (with_max_frames 200 (new_builder c.now))))

  -- The threshold of the second attempt.
  abbrev pub retry_threshold : TextureCache → ℕ → Run EvictionThreshold
  retry_threshold c num_regions =
      if num_regions == c.max_texture_layers
      then build_threshold pressure_scaled (with_max_frames 1 (new_builder c.now))
      else default_eviction c

  -- After the first attempt.
  abbrev pub allocate_retry :
      TextureCache → CacheAllocParams → Option CacheEntry → Run (TextureCache × CacheEntry)
  allocate_retry c params (some entry) = done (c, entry)
  allocate_retry c params none = do
    which ← select params.descriptor.format params.filter
    let num_regions = length (array_at c.shared_textures which).regions
    threshold ← retry_threshold c num_regions
    (c', expired) ← maybe_expire_old_shared_entries c threshold
    (c'', entry) ← retry_shared c' params expired
    allocate_fresh c'' params num_regions entry

  unfoldable pub allocate_shared_entry :
      TextureCache → CacheAllocParams → Run (TextureCache × CacheEntry)
  allocate_shared_entry c params = do
    (c', entry) ← allocate_from_shared_cache c params
    allocate_retry c' params entry

  unfoldable pub allocate_cache_entry :
      TextureCache → CacheAllocParams → Run (TextureCache × CacheEntry)
  allocate_cache_entry c params = do
    _ ← assert (gt_i32 params.descriptor.size.width 0 && gt_i32 params.descriptor.size.height 0)
    if is_allowed_in_shared_cache params.filter params.descriptor
        then allocate_shared_entry c params
        else done (allocate_standalone_entry c params)

  unfoldable pub allocate :
      TextureCache → CacheAllocParams → WeakFreeListHandle → Run (TextureCache × WeakFreeListHandle)
  allocate c params handle = do
    (c', new_entry) ← allocate_cache_entry c params
    (entries, result) ← upsert c'.entries handle new_entry
    place_entry (record c' { entries = entries }) handle (kind_of new_entry.details) result
