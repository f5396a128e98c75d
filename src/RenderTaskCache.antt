-- ===== src/RenderTaskCache.antt =====
-- The render task cache of webrender/src/render_task.rs: render tasks whose results are kept in the texture
-- cache. Its hash map is an association list in the order in which it is walked. The kind of a key and its
-- equality are parameters, and so is the `UvRectKind` of a task, of which RenderTasks keeps no kind. The
-- closure of a request gives the tree after it, and a task if it returns one.
pub mod Requests
pub mod Retained
pub mod Placed
mod Tests
use webrender.Prelude.{
  ℕ, ◌≡◌, List, [], ◌∷◌, ◌++◌, Option, none, some, Bool, true, false, ◌&&◌, Run, done, panic, ◌>>=◌,
  unwrap, index_at, set,
}
use webrender.TextureAllocator.{DeviceIntSize}
use webrender.FreeList
use webrender.FreeList.{
  FreeList, FreeListHandle, WeakFreeListHandle, weak, weak_invalid, get, get_mut, get_opt, insert,
}
use webrender.Images.{ImageFormat, bgra8, r8, new_descriptor, all, unwrap_or, same_size}
use webrender.GpuCache.Caches.{GpuCache}
use webrender.RenderTasks.{
  RenderTargetKind, color, alpha, RenderTaskLocation, fixed, dynamic, texture_cache, RenderTask,
  RenderTaskTree,
}
use webrender.TextureCache.Updates.{linear}
use webrender.TextureCache.Entries.{UvRectKind, GpuBlockData, eager}
use webrender.TextureCache.Caches.{TextureCache}
use webrender.TextureCache.Requests.{
  CacheItem, UpdateParams, is_allocated, request, update, get_item, get_cache_location,
}

pub record RenderTaskCacheKey (K : Type 0) : Type 0 where
  pub size : DeviceIntSize
  pub kind : K

pub record RenderTaskCacheEntry : Type 0 where
  pub pending_render_task_id : Option ℕ
  pub user_data : Option (ℕ × ℕ × ℕ)
  pub is_opaque : Bool
  pub handle : WeakFreeListHandle

-- `RenderTaskCache`
pub record RenderTaskCache (K : Type 0) : Type 0 where
  pub map : List (RenderTaskCacheKey K × FreeListHandle)
  pub cache_entries : FreeList RenderTaskCacheEntry

abbrev pub new_task_cache : (K : Type 0) → RenderTaskCache K
new_task_cache K = record { map = []; cache_entries = FreeList.new }

-- The entry is freed unless the texture cache still has it.
abbrev pub free_unless :
    FreeList RenderTaskCacheEntry → FreeListHandle → Bool → Run (FreeList RenderTaskCacheEntry)
free_unless entries handle true = done entries
free_unless entries handle false = do
  (entries', freed) ← FreeList.free entries handle
  done entries'

module _ {K : Type 0} where
  abbrev pub clear_task_cache : RenderTaskCache K → RenderTaskCache K
  clear_task_cache c = record { map = []; cache_entries = FreeList.clear c.cache_entries }

  abbrev pub keep_if :
      Bool
      → RenderTaskCacheKey K × FreeListHandle
      → List (RenderTaskCacheKey K × FreeListHandle)
      → List (RenderTaskCacheKey K × FreeListHandle)
  keep_if true p rest = p ∷ rest
  keep_if false p rest = rest

  -- The walk of `begin_frame`: what is kept of the map, and the entries.
  unfoldable pub retain_map :
      TextureCache
      → List (RenderTaskCacheKey K × FreeListHandle)
      → FreeList RenderTaskCacheEntry
      → Run (List (RenderTaskCacheKey K × FreeListHandle) × FreeList RenderTaskCacheEntry)
  retain_map tc [] entries = done ([], entries)
  retain_map tc ((key, handle) ∷ rest) entries = do
    entry ← get entries handle
    retain ← is_allocated tc entry.handle
    entries' ← free_unless entries handle retain
    (rest', entries'') ← retain_map tc rest entries'
    done (keep_if retain (key, handle) rest', entries'')

  unfoldable pub begin_frame : RenderTaskCache K → TextureCache → Run (RenderTaskCache K)
  begin_frame c tc = do
    (map, cache_entries) ← retain_map tc c.map c.cache_entries
    done (record { map = map; cache_entries = cache_entries })

-- What `update` changes.
pub record TaskCacheState : Type 0 where
  pub cache_entries : FreeList RenderTaskCacheEntry
  pub textures : TextureCache
  pub gpu_cache : GpuCache GpuBlockData
  pub tree : RenderTaskTree

-- The size of a dynamic task.
abbrev pub expect_dynamic : RenderTaskLocation → Run DeviceIntSize
expect_dynamic (fixed r) = panic
expect_dynamic (dynamic o size) = done size
expect_dynamic (texture_cache t l r) = panic

abbrev pub image_format_of : RenderTargetKind → ImageFormat
image_format_of color = bgra8
image_format_of alpha = r8

-- The arguments of `update` of the texture cache.
abbrev pub task_params :
    RenderTaskCacheEntry → DeviceIntSize → RenderTargetKind → UvRectKind → UpdateParams
task_params entry size target_kind uv_rect_kind = record {
  params = record {
    descriptor =
        new_descriptor size.width size.height (image_format_of target_kind) entry.is_opaque false;
    filter = linear;
    user_data = unwrap_or entry.user_data (0, 0, 0);
    uv_rect_kind = uv_rect_kind;
  };
  image = none;
  eviction_notice = none;
  eviction = eager;
}

module _ (to_f32 pressure_scaled : ℕ → ℕ) (uv_rect_kind_of : RenderTask → UvRectKind) where
  -- The body of the loop of `update`, for an entry with a pending task.
  unfoldable pub update_pending :
      TaskCacheState → FreeListHandle → RenderTaskCacheEntry → ℕ → Run TaskCacheState
  update_pending s handle entry id = do
    task ← index_at s.tree.tasks id
    size ← expect_dynamic task.location
    (textures, texture_handle, gpu_cache) ←
        update to_f32 pressure_scaled s.textures entry.handle
          (task_params entry size task.target_kind (uv_rect_kind_of task)) all s.gpu_cache
    (texture_id, texture_layer, uv_rect) ← get_cache_location textures texture_handle
    cache_entries ←
        get_mut s.cache_entries handle
          (λ e. record e { pending_render_task_id = none; handle = texture_handle })
    done (record {
      cache_entries = cache_entries;
      textures = textures;
      gpu_cache = gpu_cache;
      tree = record s.tree {
        tasks =
            set s.tree.tasks id
              (record task { location = texture_cache texture_id texture_layer uv_rect });
      };
    })

  abbrev pub update_if_pending :
      TaskCacheState → FreeListHandle → RenderTaskCacheEntry → Option ℕ → Run TaskCacheState
  update_if_pending s handle entry none = done s
  update_if_pending s handle entry (some id) = update_pending s handle entry id

  -- `update`, over the handles of the map.
  unfoldable pub update_all :
      {K : Type 0}
      → List (RenderTaskCacheKey K × FreeListHandle)
      → TaskCacheState
      → Run TaskCacheState
  update_all [] s = done s
  update_all ((key, handle) ∷ rest) s = do
    entry ← get s.cache_entries handle
    s' ← update_if_pending s handle entry entry.pending_render_task_id
    update_all rest s'

module _ {K : Type 0} (same_kind : K → K → Bool) where
  abbrev pub same_key : RenderTaskCacheKey K → RenderTaskCacheKey K → Bool
  same_key a b = same_size a.size b.size && same_kind a.kind b.kind

  abbrev pub find_key :
      RenderTaskCacheKey K → List (RenderTaskCacheKey K × FreeListHandle) → Option FreeListHandle
  find_key key [] = none
  find_key key ((k, handle) ∷ rest) = elim (same_key k key) [
    | true ↦ some handle
    | false ↦ find_key key rest
  ]

  -- `entry(key).or_insert_with(…)`
  abbrev pub or_insert :
      RenderTaskCache K
      → RenderTaskCacheKey K
      → Option (ℕ × ℕ × ℕ)
      → Bool
      → Option FreeListHandle
      → Run (RenderTaskCache K × FreeListHandle)
  or_insert c key user_data is_opaque (some handle) = done (c, handle)
  or_insert c key user_data is_opaque none = do
    (cache_entries, handle) ← insert c.cache_entries (record {
      handle = weak_invalid;
      pending_render_task_id = none;
      user_data = user_data;
      is_opaque = is_opaque;
    })
    done (record { map = c.map ++ (key, handle) ∷ []; cache_entries = cache_entries }, handle)

  unfoldable pub get_cache_entry : RenderTaskCache K → WeakFreeListHandle → Run RenderTaskCacheEntry
  get_cache_entry c handle = do found ← get_opt c.cache_entries handle; unwrap found

  unfoldable pub get_cache_item_for_render_task :
      RenderTaskCache K → TextureCache → RenderTaskCacheKey K → Run CacheItem
  get_cache_item_for_render_task c tc key = do
    handle ← unwrap (find_key key c.map)
    entry ← get c.cache_entries handle
    get_item tc entry.handle

  unfoldable pub cache_item_is_allocated_for_render_task :
      RenderTaskCache K → TextureCache → RenderTaskCacheKey K → Run Bool
  cache_item_is_allocated_for_render_task c tc key = do
    handle ← unwrap (find_key key c.map)
    entry ← get c.cache_entries handle
    is_allocated tc entry.handle
