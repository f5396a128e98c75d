-- ===== src/RenderTaskCache/Requests.antt =====
-- The requests of the render task cache of webrender/src/render_task.rs.
use webrender.Prelude.{ℕ, [], ◌∷◌, ◌++◌, Option, none, some, Bool, true, false, Run, done, ◌>>=◌}
use webrender.FreeList.{FreeListHandle, WeakFreeListHandle, weak, get, get_mut}
use webrender.GpuCache.Caches.{GpuCache}
use webrender.RenderTasks.{RenderTaskTree}
use webrender.TextureCache.Entries.{GpuBlockData}
use webrender.TextureCache.Caches.{TextureCache}
use webrender.TextureCache.Requests.{request}
use webrender.RenderTaskCache.{RenderTaskCache, RenderTaskCacheKey, find_key, or_insert}

-- What a request changes, and its answer: a handle, or none for an error of the closure.
pub record Requested (K : Type 0) : Type 0 where
  pub task_cache : RenderTaskCache K
  pub textures : TextureCache
  pub gpu_cache : GpuCache GpuBlockData
  pub tree : RenderTaskTree
  pub answer : Option WeakFreeListHandle

module _ {K : Type 0} (user_data : Option (ℕ × ℕ × ℕ)) (is_opaque : Bool)
    (f : RenderTaskTree → RenderTaskTree × Option ℕ) where
  -- The task that the closure gave, if it gave one.
  abbrev pub store_task :
      RenderTaskCache K
      → TextureCache
      → GpuCache GpuBlockData
      → FreeListHandle
      → RenderTaskTree × Option ℕ
      → Run (Requested K)
  store_task c tc g handle (tree, none) =
      done (record { task_cache = c; textures = tc; gpu_cache = g; tree = tree; answer = none })
  store_task c tc g handle (tree, some render_task_id) = do
    cache_entries ← get_mut c.cache_entries handle (λ e. record e {
      pending_render_task_id = some render_task_id;
      user_data = user_data;
      is_opaque = is_opaque;
    })
    done (record {
      task_cache = record c { cache_entries = cache_entries };
      textures = tc;
      gpu_cache = g;
      tree = record tree {
        cacheable_render_tasks = tree.cacheable_render_tasks ++ render_task_id ∷ [];
      };
      answer = some (weak handle);
    })

  abbrev pub draw_if :
      RenderTaskCache K
      → TextureCache
      → GpuCache GpuBlockData
      → RenderTaskTree
      → FreeListHandle
      → Bool
      → Run (Requested K)
  draw_if c tc g tree handle false = done (record {
    task_cache = c;
    textures = tc;
    gpu_cache = g;
    tree = tree;
    answer = some (weak handle);
  })
  draw_if c tc g tree handle true = store_task c tc g handle (f tree)

  module _ (to_f32 : ℕ → ℕ) where
    -- The part of a request for an entry whose task is pending, or not.
    abbrev pub request_if_idle :
        RenderTaskCache K
        → TextureCache
        → GpuCache GpuBlockData
        → RenderTaskTree
        → FreeListHandle
        → WeakFreeListHandle
        → Option ℕ
        → Run (Requested K)
    request_if_idle c tc g tree handle texture_handle (some id) = draw_if c tc g tree handle false
    request_if_idle c tc g tree handle texture_handle none = do
      (tc', g', needed) ← request to_f32 tc texture_handle g
      draw_if c tc' g' tree handle needed

    unfoldable pub request_render_task :
        (K → K → Bool)
        → RenderTaskCache K
        → RenderTaskCacheKey K
        → TextureCache
        → GpuCache GpuBlockData
        → RenderTaskTree
        → Run (Requested K)
    request_render_task same_kind c key tc g tree = do
      (c', handle) ← or_insert same_kind c key user_data is_opaque (find_key same_kind key c.map)
      entry ← get c'.cache_entries handle
      request_if_idle c' tc g tree handle entry.handle entry.pending_render_task_id
