-- ===== src/TextureCache/Sends.antt =====
-- Calls of `update` and `request` of webrender/src/texture_cache.rs on an empty cache and on one with an image.
use webrender.Prelude.{
  inl, none, [], ◌∷◌, ◌≡◌, refl, ◌≤◌, some, true, false, Run, done, panic, length, u32_mod, arith,
}
use webrender.FreeList.{weak_invalid, get_opt, get_opt_mut, new, insert, upsert, WeakFreeListHandle}
use webrender.Images.{bgra8, new_descriptor, all, external, buffer}
use webrender.GpuCache.Caches.{GpuCache}
use webrender.GpuCache.Caches
use webrender.GpuCache.Textures.{
  new_texture, push_row_blocks, new_row, ensure_row, take_block, push_data,
}
use webrender.GpuCache.Blocks.{get_actual_block_count_and_free_list}
use webrender.Prelude.I32.{gt_i32, le_i32, add_i32}
use webrender.TextureCache.Updates.{linear, new_update}
use webrender.TextureCache.Entries.{CacheEntry, GpuBlockData, rect_kind, eager, update_gpu_cache}
use webrender.TextureCache.Caches.{TextureCache}
use webrender.TextureCache.Frames.{new_cache}
use webrender.TextureCache.Requests.{
  UpdateParams, update, reallocate, update_entry, write_entry, send_data,
}
use webrender.TextureCache.Allocation.{
  allocate, allocate_cache_entry, allocate_standalone_entry, is_allowed_in_shared_cache,
}
use webrender.TextureCache.Updated.{update-get_opt}
use webrender.FreeList.Invariant.{new-Inv}
use webrender.TextureCache.Updates.{external_source}
use webrender.TextureCache.Standalone.{NeedsOwn}
use webrender.TextureCache.Regions.{SlabSize, new_slab_size}
use webrender.TextureCache.Slabs.{Fits}
use webrender.TextureCache.Arrays.{select, rgba8_linear, array_at}
use webrender.TextureCache.Layers.{empty_count}
use webrender.TextureCache.Shared.{HasRoom, GoesTo, TakesSlot}
use webrender.TextureCache.Inserted.{update-TakesSlot}
use webrender.TextureCache.Installed.{OwnTexture, Updates, update-Updates}
use webrender.TextureCache.Requested.{Used, request-Used}
use webrender.GpuCache.Whole.{new_texture-TextureOk}
use webrender.TextureCache.Requests.{request}
use webrender.TextureCache.Entries.{new_standalone}

abbrev start : TextureCache
start = record (new_cache false 4096 8) {
  now = record { id = 10; time = 10000000000; document_id = record { namespace_id = 1; id = 1 } };
}

abbrev gpu : GpuCache GpuBlockData
gpu = Caches.new

-- An image of 600 by 400 pixels.
abbrev image : UpdateParams
image = record {
  params = record {
    descriptor = new_descriptor 600 400 bgra8 true false;
    filter = linear;
    user_data = (0, 0, 0);
    uv_rect_kind = rect_kind;
  };
  image = some (external (record { id = 3; channel_index = 0; image_type = buffer }));
  eviction_notice = some 7;
  eviction = eager;
}

abbrev result_of :
    Run (TextureCache × WeakFreeListHandle × GpuCache GpuBlockData)
    → TextureCache × WeakFreeListHandle × GpuCache GpuBlockData
result_of (done p) = p
result_of panic = (start, weak_invalid, gpu)

abbrev after : TextureCache × WeakFreeListHandle × GpuCache GpuBlockData
after = result_of (update (λ n. n) (λ n. n) start weak_invalid image all gpu)

after_lem :
    (update (λ n. n) (λ n. n) start weak_invalid image all gpu ≡ done after)
    × (length after.0.entries.slots ≤ u32_mod)
unfolding update get_opt new_cache new reallocate allocate allocate_cache_entry gt_i32 le_i32
    is_allowed_in_shared_cache upsert allocate_standalone_entry insert update_entry update_gpu_cache
    Caches.request Caches.live_block Caches.drop_request Caches.new new_texture Caches.invalidate
    Caches.push Caches.push_to_cache push_data get_actual_block_count_and_free_list ensure_row
    new_row push_row_blocks take_block write_entry get_opt_mut send_data new_update add_i32
    Caches.request_live Caches.current_used_block_num
after_lem = (refl, omega arith)

update-get_opt_example :
    (e : CacheEntry) × (get_opt after.0.entries after.1 ≡ done (some e))
    × (e.size ≡ image.params.descriptor.size)
    × (e.eviction ≡ image.eviction)
    × (e.eviction_notice ≡ image.eviction_notice)
update-get_opt_example =
    update-get_opt (λ n. n) (λ n. n) start weak_invalid image all gpu after_lem.0 after_lem.1

-- The entry of the image, and a cache with it.
abbrev entry : CacheEntry
entry = new_standalone 5 start.now image.params

abbrev one_image : TextureCache
one_image = record start {
  entries = record {
    slots = record { next = none; epoch = 1; value = some entry } ∷ [];
    free_list_head = none;
    active_count = 1;
  };
}

abbrev image_handle : WeakFreeListHandle
image_handle = record { index = 0; epoch = 1 }

request-Used_example :
    Used one_image image_handle entry (request (λ n. n) one_image image_handle gpu)
unfolding new_cache Caches.new new_texture get_opt
request-Used_example =
    request-Used (λ n. n) one_image image_handle gpu entry refl (new_texture-TextureOk 0 0)
      (omega arith) (λ l e. cc)

image-NeedsOwn : NeedsOwn image.params
unfolding gt_i32 le_i32 is_allowed_in_shared_cache
image-NeedsOwn = record { positive = refl; not_shared = refl }

update-Updates_example :
    Updates OwnTexture image (update (λ n. n) (λ n. n) start weak_invalid image all gpu)
unfolding new_cache new Caches.new new_texture
update-Updates_example =
    update-Updates (λ n. n) (λ n. n) start weak_invalid image all gpu new-Inv (omega arith)
      (inl (record { next = none; epoch = 1; value = none }, refl, λ e. omega (arith, e)))
      image-NeedsOwn (external_source 3 0, refl) (new_texture-TextureOk 0 0) (omega arith)

-- An image of 100 by 20 pixels.
abbrev small_image : UpdateParams
small_image = record image {
  params = record image.params { descriptor = new_descriptor 100 20 bgra8 true false };
}

small_image-GoesTo : GoesTo small_image.params rgba8_linear
unfolding gt_i32 le_i32 is_allowed_in_shared_cache select
small_image-GoesTo = record {
  positive = refl;
  allowed = refl;
  selected = refl;
  range = (omega arith, omega arith, omega arith, omega arith);
}

-- The array for the image, without layers.
no_layers-HasRoom : HasRoom (array_at start.shared_textures rgba8_linear) (λ j. [])
unfolding new_cache empty_count
no_layers-HasRoom = (
  record { layers = tt; empties = refl; few = omega arith; outside = λ j le. refl },
  inl (refl, refl),
)

update-TakesSlot_example :
    (s : SlabSize) × (new_slab_size small_image.params.descriptor.size ≡ done s)
    × Fits small_image.params.descriptor.size s
    × Updates
        (TakesSlot rgba8_linear (λ j. []) s)
        small_image
        (update (λ n. n) (λ n. n) start weak_invalid small_image all gpu)
unfolding new_cache new Caches.new new_texture
update-TakesSlot_example =
    update-TakesSlot (λ n. n) (λ n. n) start weak_invalid small_image all gpu
      (record { next = none; epoch = 1; value = none }) rgba8_linear (λ j. []) new-Inv (omega arith)
      refl (λ e. omega (arith, e)) small_image-GoesTo no_layers-HasRoom (external_source 3 0, refl)
      (new_texture-TextureOk 0 0) (omega arith)
