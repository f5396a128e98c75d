-- ===== src/GpuCache/Tests.antt =====
-- Runs of webrender/src/gpu_cache.rs on concrete caches.
use webrender.Prelude.{
  ℕ, ◌≡◌, ◌≢◌, ◌<◌, subst, done-injective, ap, ◌⊎◌, List, refl, [], ◌∷◌, none, some, true, false,
  done, arith,
}
use webrender.FrameStamp.{DocumentId, FrameStamp}
use webrender.GpuCache.Blocks.{
  CacheLocation, GpuCacheHandle, new_handle, Block, invalid_block, new_free_lists, set_free_list,
  get_actual_block_count_and_free_list,
}
use webrender.GpuCache.Textures.{
  new_texture, push_row_blocks, new_row, ensure_row, take_block, push_data, evict_loop,
  evict_old_blocks, set_head,
}
use webrender.GpuCache.Caches.{
  GpuCache, new, clear, begin_frame, live_block, invalidate, request, push_to_cache,
  push_deferred_per_frame_blocks, end_frame, get_address,
}
use webrender.GpuCache.Epochs.{Epochs, last_epoch}
use webrender.GpuCache.Evicted.{Evicts}
use webrender.GpuCache.Eviction.{evict_old_blocks_lem}
use webrender.GpuCache.Push.{Caches, push_to_cache_lem}
use webrender.GpuCache.Steps.{
  Op, run, step, begin_op, invalidate_op, request_op, deferred_op, end_op, extract_op, clear_op,
}
use webrender.GpuCache.Whole.{new_texture-TextureOk}
use webrender.GpuCache.Calls.{Safe, step-Safe}
use webrender.GpuCache.Runs.{FillsUp, ClearsEarly, run-new-Safe}
use mathlib.Core.Option.{some-injective}
use webrender.GpuCache.Stale.{
  EpochsLast, cleared_handle_rebuilds, invalidated_handle_rebuilds, to_build,
}

abbrev document : DocumentId
document = record { namespace_id = 1; id = 1 }

abbrev stamp : ℕ → FrameStamp
stamp n = record { id = n; time = n; document_id = document }

-- The only block of a row of size 1024.
abbrev only_block : (epoch frame : ℕ) → Block
only_block epoch frame = record {
  address = record { u = 0; v = 0 };
  epoch = epoch;
  next = none;
  last_access_time = frame;
}

-- After one deferred allocation of 1000 blocks in frame 1.
abbrev allocated : (base epoch : ℕ) → GpuCache ℕ
allocated base epoch = record {
  now = stamp 1;
  texture = record {
    height = 20;
    blocks = invalid_block ∷ only_block epoch 1 ∷ [];
    rows = record { block_count_per_item = 1024 } ∷ [];
    base_epoch = base;
    max_epoch = epoch;
    free_lists = set_free_list (set_free_list new_free_lists 1024 (some 1)) 1024 none;
    occupied_list_heads = set_head (λ d. none) document (some 1);
    pending_blocks = [];
    updates = [];
    allocated_block_count = 1024;
    reached_reclaim_threshold = none;
    debug_commands = [];
    debug_flags = 0;
  };
  saved_block_count = 0;
  debug_flags = 0;
  pending_clear = false;
}

abbrev location : CacheLocation
location = record { block_index = 1; epoch = 0 }

abbrev handle : GpuCacheHandle
handle = record { location = some location }

-- The cache after a clear and another allocation.
abbrev reallocated : GpuCache ℕ
reallocated = record (allocated 2 2) { pending_clear = true }

run-deferred : run new (begin_op (stamp 1) ∷ deferred_op 1000 ∷ []) ≡ done (allocated 0 0)
unfolding run new new_texture begin_frame evict_old_blocks evict_loop push_deferred_per_frame_blocks
    push_to_cache push_data get_actual_block_count_and_free_list ensure_row new_row push_row_blocks
    take_block
run-deferred = refl

get_address-handle : get_address (allocated 0 0) handle ≡ done (record { u = 0; v = 0 })
unfolding get_address
get_address-handle = refl

-- Cleared again, and another allocation.
cleared_handle_rebuilds_example :
    request reallocated handle ≡ done (reallocated, some (to_build reallocated))
unfolding clear run new_texture push_deferred_per_frame_blocks push_to_cache push_data
    get_actual_block_count_and_free_list ensure_row new_row push_row_blocks take_block
cleared_handle_rebuilds_example =
    cleared_handle_rebuilds (allocated 0 0)
      (record (allocated 0 0) {
        texture = new_texture 1 0;
        saved_block_count = 0;
        pending_clear = true;
      })
      reallocated location (clear_op ∷ deferred_op 1000 ∷ []) (omega arith) refl refl
      (
        omega arith,
        λ c1 e1.
            subst (λ c. EpochsLast c (deferred_op 1000 ∷ [])) (done-injective e1)
              (
                omega arith,
                λ c2 e2.
                    subst (λ c. c.texture.max_epoch < last_epoch) (done-injective e2) (omega arith),
              ),
      )
      (λ e. omega (arith, e)) (omega arith)

allocated-Epochs : Epochs (allocated 0 0).texture
allocated-Epochs = record { between = ((omega arith, omega arith), tt); ordered = omega arith }

invalidated_handle_rebuilds_example :
    request (allocated 0 1) handle ≡ done (allocated 0 1, some (to_build (allocated 0 1)))
unfolding run invalidate live_block end_frame
invalidated_handle_rebuilds_example =
    invalidated_handle_rebuilds (allocated 0 0) (allocated 0 1) location (only_block 0 1)
      (end_op 5 ∷ []) allocated-Epochs (λ e. omega (arith, e)) refl (omega arith) refl
      (
        omega arith,
        λ c1 e1. subst (λ c. c.texture.max_epoch < last_epoch) (done-injective e1) (omega arith),
      )

-- An empty cache in frame 1.
abbrev begun : GpuCache ℕ
unfolding new new_texture
begun = record new { now = stamp 1 }

push_to_cache_lem_example : Caches begun (some 0) 3 (push_to_cache begun (some 0) 3 (stamp 1))
unfolding new new_texture
push_to_cache_lem_example =
    push_to_cache_lem begun (some 0) 3 (omega arith) (omega arith) (λ size i e. cc) (omega arith)
      (omega arith) (omega arith)

evict_old_blocks_lem_example :
    Evicts
      (allocated 0 0).texture
      (stamp 20)
      []
      (1 ∷ [])
      (evict_old_blocks (allocated 0 0).texture (stamp 20))
unfolding get_actual_block_count_and_free_list
evict_old_blocks_lem_example =
    evict_old_blocks_lem (allocated 0 0).texture (stamp 20) (1 ∷ [])
      (only_block 0 1, refl, refl, (record { block_count_per_item = 1024 }, refl, refl), refl)
      (tt, tt) (omega arith)

step-Safe_example : Safe (step begun (request_op new_handle (1 ∷ 2 ∷ 3 ∷ [])))
unfolding new begun new_texture
step-Safe_example =
    step-Safe begun (request_op new_handle (1 ∷ 2 ∷ 3 ∷ [])) (new_texture-TextureOk 0 0)
      ((λ l e. cc), (omega arith, omega arith)) tt (omega arith)

-- Two frames: an allocation, a request of its handle, a clear, an invalidation, and a request of a new one.
abbrev calls : List (Op ℕ)
calls =
    begin_op (stamp 1)
    ∷ deferred_op 1000
    ∷ request_op handle (1 ∷ [])
    ∷ end_op 5
    ∷ extract_op
    ∷ clear_op
    ∷ begin_op (stamp 2)
    ∷ invalidate_op handle
    ∷ request_op new_handle (1 ∷ 2 ∷ [])
    ∷ []

handle-NotFirst : (l : CacheLocation) → handle.location ≡ some l → l.block_index ≢ 0
handle-NotFirst l e f = omega (arith, ap (λ k. k.block_index) (some-injective _ _ e), f)

run-new-Safe_example : Safe (run new calls) ⊎ FillsUp new calls ⊎ ClearsEarly new calls
run-new-Safe_example = run-new-Safe calls (
  tt,
  (
    (omega arith, omega arith),
    (
      (handle-NotFirst, (omega arith, omega arith)),
      (tt, (tt, (tt, (tt, (tt, (((λ l e. cc), (omega arith, omega arith)), tt)))))),
    ),
  ),
)
