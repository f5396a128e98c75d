-- ===== src/TextureCache/Requests.antt =====
-- The calls of the texture cache's clients (webrender/src/texture_cache.rs): `request`, `update`, `get`
-- and the smaller ones. `update` writes the handle that it is given: the handle is a result. The
-- conversion of an `i32` to an `f32` is a parameter.
use webrender.Prelude.{
  ℕ, ◌%◌, Option, none, some, Bool, true, false, not, ◌||◌, Run, done, ◌>>=◌, unwrap, u32_mod,
}
use webrender.FrameStamp.{stamp_invalid}
use webrender.TextureAllocator.{DeviceIntRect}
use webrender.FreeList.{WeakFreeListHandle, get_opt, get_opt_mut}
use webrender.Images.{
  ImageDescriptor, same_format, same_size, DirtyRect, all, CachedImageData, ExternalImageData,
}
use webrender.GpuCache.Blocks.{GpuCacheHandle}
use webrender.GpuCache.Caches.{GpuCache, invalidate}
use webrender.TextureCache.Updates.{push_update, new_update}
use webrender.TextureCache.Entries.{
  Eviction, auto, GpuBlockData, CacheEntry, CacheAllocParams, place_of, update_gpu_cache,
}
use webrender.TextureCache.Caches.{TextureCache}
use webrender.TextureCache.Allocation.{allocate}

-- `TextureSource` of webrender/src/internal_types.rs
pub data TextureSource : Type 0 where
  invalid_source prev_pass_alpha prev_pass_color : TextureSource
  in_texture_cache render_task_cache : ℕ → TextureSource
  external_image : ExternalImageData → TextureSource

-- `CacheItem` of webrender/src/resource_cache.rs
pub record CacheItem : Type 0 where
  pub texture_source : TextureSource
  pub uv_rect_handle : GpuCacheHandle
  pub uv_rect : DeviceIntRect
  pub texture_layer : ℕ

-- `is_allocated`
unfoldable pub is_allocated : TextureCache → WeakFreeListHandle → Run Bool
is_allocated c handle = do
  entry ← get_opt c.entries handle
  done (elim entry [ none ↦ false | some e ↦ true ])

unfoldable pub needs_upload : TextureCache → WeakFreeListHandle → Run Bool
needs_upload c handle = do
  entry ← get_opt c.entries handle
  done (elim entry [ none ↦ true | some e ↦ false ])

unfoldable pub get_item : TextureCache → WeakFreeListHandle → Run CacheItem
get_item c handle = do
  found ← get_opt c.entries handle
  entry ← unwrap found
  let (layer_index, origin) = place_of entry.details
  done (record {
    uv_rect_handle = entry.uv_rect_handle;
    texture_source = in_texture_cache entry.texture_id;
    uv_rect = record { origin = origin; size = entry.size };
    texture_layer = layer_index % u32_mod;
  })

unfoldable pub get_cache_location : TextureCache → WeakFreeListHandle → Run (ℕ × ℕ × DeviceIntRect)
get_cache_location c handle = do
  found ← get_opt c.entries handle
  entry ← unwrap found
  let (layer_index, origin) = place_of entry.details
  done (entry.texture_id, layer_index, record { origin = origin; size = entry.size })

unfoldable pub mark_unused : TextureCache → WeakFreeListHandle → Run TextureCache
mark_unused c handle = do
  entries ←
      get_opt_mut c.entries handle (λ e. record e { last_access = stamp_invalid; eviction = auto })
  done (record c { entries = entries })

-- The write of a whole entry.
unfoldable pub write_entry : TextureCache → WeakFreeListHandle → CacheEntry → Run TextureCache
write_entry c handle entry = do
  entries ← get_opt_mut c.entries handle (λ e. entry)
  done (record c { entries = entries })

-- The test of `update` for a new allocation.
abbrev pub must_realloc : ImageDescriptor → Option CacheEntry → Bool
must_realloc d none = true
must_realloc d (some entry) =
    not (same_size entry.size d.size) || not (same_format entry.format d.format)

module _ (to_f32 : ℕ → ℕ) where
  abbrev pub request_entry :
      TextureCache
      → WeakFreeListHandle
      → GpuCache GpuBlockData
      → Option CacheEntry
      → Run (TextureCache × GpuCache GpuBlockData × Bool)
  request_entry c handle g none = done (c, g, true)
  request_entry c handle g (some entry) = do
    (entry', g') ← update_gpu_cache to_f32 (record entry { last_access = c.now }) g
    c' ← write_entry c handle entry'
    done (c', g', false)

  -- `request`: the answer is last.
  unfoldable pub request :
      TextureCache
      → WeakFreeListHandle
      → GpuCache GpuBlockData
      → Run (TextureCache × GpuCache GpuBlockData × Bool)
  request c handle g = do found ← get_opt c.entries handle; request_entry c handle g found

-- The part of `update` that sends the data.
unfoldable pub send_data :
    TextureCache
    → CacheEntry
    → ImageDescriptor
    → DirtyRect
    → Option CachedImageData
    → Run TextureCache
send_data c entry d dirty_rect none = done c
send_data c entry d dirty_rect (some image) = do
  let (layer_index, origin) = place_of entry.details
  op ← new_update image d origin entry.size entry.texture_id (layer_index % u32_mod) dirty_rect
  done (record c { pending_updates = push_update c.pending_updates op })

-- The other arguments of `update`.
pub record UpdateParams : Type 0 where
  pub params : CacheAllocParams
  pub image : Option CachedImageData
  pub eviction_notice : Option ℕ
  pub eviction : Eviction

module _ (to_f32 pressure_scaled : ℕ → ℕ) where
  -- The step of `update` that allocates: the cache, the handle, and the dirty rectangle.
  unfoldable pub reallocate :
      TextureCache
      → WeakFreeListHandle
      → CacheAllocParams
      → DirtyRect
      → Bool
      → Run (TextureCache × WeakFreeListHandle × DirtyRect)
  reallocate c handle params dirty_rect needed = elim needed [
    | false ↦ done (c, handle, dirty_rect)
    | true ↦ do (c', handle') ← allocate pressure_scaled c params handle; done (c', handle', all)
  ]

  -- `update` from the allocation on.
  unfoldable pub update_entry :
      TextureCache
      → WeakFreeListHandle
      → UpdateParams
      → DirtyRect
      → GpuCache GpuBlockData
      → Run (TextureCache × GpuCache GpuBlockData)
  update_entry c handle u dirty_rect g = do
    found ← get_opt c.entries handle
    entry ← unwrap found
    let noticed : CacheEntry = record entry {
      eviction_notice = u.eviction_notice;
      uv_rect_kind = u.params.uv_rect_kind;
    }
    (filled, g') ← update_gpu_cache to_f32 noticed (invalidate g noticed.uv_rect_handle)
    let entry' : CacheEntry = record filled { eviction = u.eviction }
    c' ← write_entry c handle entry'
    c'' ← send_data c' entry' u.params.descriptor dirty_rect u.image
    done (c'', g')

  -- `update`: the cache, the handle, and the GPU cache.
  unfoldable pub update :
      TextureCache
      → WeakFreeListHandle
      → UpdateParams
      → DirtyRect
      → GpuCache GpuBlockData
      → Run (TextureCache × WeakFreeListHandle × GpuCache GpuBlockData)
  update c handle u dirty_rect g = do
    found ← get_opt c.entries handle
    (c', handle', dirty_rect') ←
        reallocate c handle u.params dirty_rect (must_realloc u.params.descriptor found)
    (c'', g') ← update_entry c' handle' u dirty_rect' g
    done (c'', handle', g')
