-- ===== src/RenderTaskCache/Tests.antt =====
-- Runs of the render task cache of webrender/src/render_task.rs.
use webrender.Prelude.{
  ℕ, ◌≡◌, refl, ◌≤◌, [], ◌∷◌, Option, none, some, true, false, Run, done, panic, length, u32_mod,
  arith, All,
}
use webrender.TextureAllocator.{DeviceIntSize}
use webrender.FreeList.{
  FreeListHandle, Slot, weak_invalid, get_opt, get_opt_mut, get_mut, new, insert, upsert,
  WeakFreeListHandle,
}
use webrender.Images.{bgra8, new_descriptor}
use webrender.GpuCache.Caches
use webrender.GpuCache.Textures.{
  new_texture, push_row_blocks, new_row, ensure_row, take_block, push_data,
}
use webrender.GpuCache.Blocks.{get_actual_block_count_and_free_list}
use webrender.Prelude.I32.{gt_i32, le_i32, add_i32}
use webrender.RenderTasks.{dynamic, color}
use webrender.RenderTasks.Ordered.{In}
use webrender.TextureCache.Updates.{linear}
use webrender.TextureCache.Entries.{rect_kind, update_gpu_cache, new_standalone}
use webrender.TextureCache.Caches.{TextureCache}
use webrender.TextureCache.Frames.{new_cache}
use webrender.TextureCache.Allocation.{
  allocate, allocate_cache_entry, allocate_standalone_entry, is_allowed_in_shared_cache,
}
use webrender.TextureCache.Requests.{
  update, reallocate, update_entry, write_entry, send_data, get_cache_location,
}
use webrender.RenderTaskCache.{
  RenderTaskCacheKey, RenderTaskCacheEntry, RenderTaskCache, TaskCacheState, update_pending,
  begin_frame,
}
use webrender.RenderTaskCache.Placed.{Placed, update_pending-Placed}
use webrender.RenderTaskCache.Retained.{Allocated, indices, begin_frame-Allocated}

abbrev size : DeviceIntSize
size = record { width = 600; height = 400 }

abbrev textures : TextureCache
textures = record (new_cache false 4096 8) {
  now = record { id = 10; time = 10000000000; document_id = record { namespace_id = 1; id = 1 } };
}

abbrev cached : Option ℕ → WeakFreeListHandle → RenderTaskCacheEntry
cached id handle = record {
  pending_render_task_id = id;
  user_data = none;
  is_opaque = true;
  handle = handle;
}

abbrev slot_of : RenderTaskCacheEntry → Slot RenderTaskCacheEntry
slot_of e = record { next = none; epoch = 1; value = some e }

abbrev handle_at : ℕ → FreeListHandle
handle_at i = record { index = i; epoch = 1 }

-- One entry, whose task is to be placed.
abbrev waiting : TaskCacheState
waiting = record {
  cache_entries = record {
    slots = slot_of (cached (some 0) weak_invalid) ∷ [];
    free_list_head = none;
    active_count = 1;
  };
  textures = textures;
  gpu_cache = Caches.new;
  tree = record {
    tasks = record { location = dynamic none size; children = []; target_kind = color } ∷ [];
    cacheable_render_tasks = 0 ∷ [];
    next_saved = 0;
    frame_id = 1;
  };
}

abbrev state_of : Run TaskCacheState → TaskCacheState
state_of (done s) = s
state_of panic = waiting

abbrev updated_state : Run TaskCacheState
updated_state =
    update_pending (λ n. n) (λ n. n) (λ t. rect_kind) waiting (handle_at 0)
      (cached (some 0) weak_invalid) 0

updated_state-done :
    (updated_state ≡ done (state_of updated_state))
    × (length (state_of updated_state).textures.entries.slots ≤ u32_mod)
unfolding update get_opt new_cache new reallocate allocate allocate_cache_entry gt_i32 le_i32
    is_allowed_in_shared_cache upsert allocate_standalone_entry insert update_entry update_gpu_cache
    Caches.request Caches.live_block Caches.drop_request Caches.new new_texture Caches.invalidate
    Caches.push Caches.push_to_cache push_data get_actual_block_count_and_free_list ensure_row
    new_row push_row_blocks take_block write_entry get_opt_mut send_data add_i32 Caches.request_live
    Caches.current_used_block_num update_pending get_cache_location get_mut
updated_state-done = (refl, omega arith)

update_pending-Placed_example : Placed waiting (handle_at 0) 0 (state_of updated_state)
update_pending-Placed_example =
    update_pending-Placed (λ n. n) (λ n. n) (λ t. rect_kind) waiting (handle_at 0)
      (cached (some 0) weak_invalid) 0 updated_state-done.0 updated_state-done.1

abbrev key : ℕ → RenderTaskCacheKey ℕ
key n = record { size = size; kind = n }

-- A texture cache with one image, and a cache of two tasks: the texture of the second is gone.
abbrev one_image : TextureCache
one_image = record textures {
  entries = record {
    slots =
        record {
          next = none;
          epoch = 1;
          value = some (
              new_standalone 5 textures.now (record {
                descriptor = new_descriptor 600 400 bgra8 true false;
                filter = linear;
                user_data = (0, 0, 0);
                uv_rect_kind = rect_kind;
              }));
        }
        ∷ [];
    free_list_head = none;
    active_count = 1;
  };
}

abbrev two_tasks : RenderTaskCache ℕ
two_tasks = record {
  map = (key 1, handle_at 0) ∷ (key 2, handle_at 1) ∷ [];
  cache_entries = record {
    slots =
        slot_of (cached none (record { index = 0; epoch = 1 }))
        ∷ slot_of (cached none weak_invalid)
        ∷ [];
    free_list_head = none;
    active_count = 2;
  };
}

begin_frame-Allocated_example :
    (c' : RenderTaskCache ℕ) × (begin_frame two_tasks one_image ≡ done c')
    × All (Allocated one_image c'.cache_entries) (indices c'.map)
    × All (λ i. Allocated one_image two_tasks.cache_entries i → In i (indices c'.map)) (0 ∷ 1 ∷ [])
begin_frame-Allocated_example =
    begin_frame-Allocated two_tasks one_image ((omega arith, tt), (tt, tt))
      (
        (cached none (record { index = 0; epoch = 1 }), (slot_of _, refl, refl), omega arith),
        ((cached none weak_invalid, (slot_of _, refl, refl), omega arith), tt),
      )
