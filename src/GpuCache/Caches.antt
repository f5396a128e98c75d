-- ===== src/GpuCache/Caches.antt =====
-- `GpuCache` and `GpuDataRequest` of webrender/src/gpu_cache.rs: frames, requests, handles and addresses.
-- Times are nanoseconds and the current time is an argument; profile counters are left out.
use webrender.Prelude.{
  ℕ, ◌+◌, ◌-◌, ◌*◌, ◌%◌, ◌^◌, List, [], ◌∷◌, ◌++◌, Option, none, some, Bool, true, false, ◌&&◌, Run,
  done, panic, ◌>>=◌, unwrap, index_at, usize_mod, length, set, get_elem?, ltb, leb, ◌==◌,
  if◌then◌else◌,
}
use webrender.FrameStamp.{FrameStamp, stamp_invalid, stamp_first, stamp_advance}
use webrender.GpuCache.Blocks.{
  gpu_cache_initial_height, max_vertex_texture_width, epoch_next, CacheLocation, GpuCacheHandle,
  GpuCacheAddress, Block, advance_epoch, GpuCacheUpdateList,
}
use webrender.GpuCache.Textures.{Texture, new_texture, push_data, evict_old_blocks}

-- `RECLAIM_DELAY_S`, in nanoseconds.
abbrev pub reclaim_delay : ℕ
reclaim_delay = 5000000000

pub record GpuCache (B : Type 0) : Type 0 where
  pub now : FrameStamp
  pub texture : Texture B
  pub saved_block_count : ℕ
  pub debug_flags : ℕ
  pub pending_clear : Bool

-- The state of a request between `request` and its `drop`, less the cache that it borrows.
pub record GpuDataRequest : Type 0 where
  pub frame_stamp : FrameStamp
  pub start_index : ℕ
  pub max_block_count : ℕ

abbrev is_empty : {A : Type 0} → List A → Bool
is_empty [] = true
is_empty (x ∷ xs) = false

-- `utilization() < RECLAIM_THRESHOLD`: the quotient, rounded to an `f32`, is below the `f32` next to
-- 0.2, which is 13421773 / 2^26, where the exact quotient is at most half way from the one before it.
-- The counts are exact as `f32` below 2^24.
abbrev pub below_threshold : ℕ → ℕ → Bool
below_threshold allocated total = leb (allocated * 2 ^ 27) (26843545 * total)

-- `get_or_insert_with`
abbrev pub get_or_insert : Option ℕ → ℕ → Option ℕ
get_or_insert none now = some now
get_or_insert (some t) now = some t

abbrev pub elapsed_over : ℕ → Option ℕ → Bool
elapsed_over time none = false
elapsed_over time (some t) = ltb reclaim_delay (time - t)

-- The block at a location, if the location is in the vector and its epoch is the block's.
abbrev pub block_of : List Block → CacheLocation → Option Block → Option Block
block_of blocks location none = none
block_of blocks location (some block) = if block.epoch == location.epoch then some block else none

-- The tests that `invalidate` and `request` share: the location and the block of a handle whose
-- allocation is still valid.
unfoldable pub live_block : List Block → Option CacheLocation → Option (CacheLocation × Block)
live_block blocks none = none
live_block blocks (some location) =
    elim (block_of blocks location (get_elem? blocks location.block_index)) [
      | none ↦ none
      | some block ↦ some (location, block)
    ]

module _ {B : Type 0} where
  unfoldable pub new : GpuCache B
  new = record {
    now = stamp_invalid;
    texture = new_texture 0 0;
    saved_block_count = 0;
    debug_flags = 0;
    pending_clear = false;
  }

  unfoldable pub clear : GpuCache B → Run (GpuCache B)
  clear c =
      if is_empty c.texture.updates
      then done (record c {
        texture = new_texture (epoch_next c.texture.max_epoch) c.debug_flags;
        saved_block_count = 0;
        pending_clear = true;
      })
      else panic

  unfoldable pub begin_frame : GpuCache B → FrameStamp → Run (GpuCache B)
  begin_frame c stamp = do
    texture ← evict_old_blocks c.texture stamp
    done (record c { now = stamp; texture = texture; saved_block_count = 0 })

  -- `new_for_testing`, with the two times that it reads.
  unfoldable pub new_for_testing : ℕ → ℕ → Run (GpuCache B)
  new_for_testing time1 time2 =
      begin_frame new
        (stamp_advance time2 (stamp_first time1 (record { namespace_id = 1; id = 1 })))

  unfoldable pub invalidate : GpuCache B → GpuCacheHandle → GpuCache B
  invalidate c handle = elim (live_block c.texture.blocks handle.location) [
    | none ↦ c
    | some (location, block) ↦
        let (block', max_epoch) = advance_epoch block c.texture.max_epoch in
        record c {
          texture = record c.texture {
            blocks = set c.texture.blocks location.block_index block';
            max_epoch = max_epoch;
          };
        }
  ]

  -- `request` of a handle whose block is there: it is marked as used in this frame.
  unfoldable pub request_live : GpuCache B → CacheLocation → Block → Run (GpuCache B)
  request_live c location block = do
    row ← index_at c.texture.rows block.address.v
    done (
        if block.last_access_time == c.now.id then c else record c {
          texture = record c.texture {
            blocks =
                set c.texture.blocks location.block_index
                  (record block { last_access_time = c.now.id });
          };
          saved_block_count = (c.saved_block_count + row.block_count_per_item) % usize_mod;
        })

  unfoldable pub request : GpuCache B → GpuCacheHandle → Run (GpuCache B × Option GpuDataRequest)
  request c handle = elim (live_block c.texture.blocks handle.location) [
    | some (location, block) ↦ do c' ← request_live c location block; done (c', none)
    | none ↦ done (
      c,
      some (record {
        frame_stamp = c.now;
        start_index = length c.texture.pending_blocks;
        max_block_count = max_vertex_texture_width;
      }),
    )
  ]

  -- `GpuDataRequest::push`
  unfoldable pub push : GpuCache B → B → GpuCache B
  push c block = record c {
    texture = record c.texture { pending_blocks = c.texture.pending_blocks ++ block ∷ [] };
  }

  unfoldable pub current_used_block_num : GpuCache B → GpuDataRequest → ℕ
  current_used_block_num c r =
      (length c.texture.pending_blocks + usize_mod - r.start_index) % usize_mod

  -- `push_data` of the cache's texture, and the handle of the location.
  unfoldable pub push_to_cache :
      GpuCache B → Option ℕ → ℕ → FrameStamp → Run (GpuCache B × GpuCacheHandle)
  push_to_cache c start block_count stamp = do
    (texture, location) ← push_data c.texture start block_count stamp
    done (record c { texture = texture }, record { location = some location })

  -- `drop` of a request: the cache, and the handle that the request borrowed.
  unfoldable pub drop_request : GpuCache B → GpuDataRequest → Run (GpuCache B × GpuCacheHandle)
  drop_request c r = push_to_cache c (some r.start_index) (current_used_block_num c r) r.frame_stamp

  unfoldable pub push_per_frame_blocks : GpuCache B → List B → Run (GpuCache B × GpuCacheHandle)
  push_per_frame_blocks c blocks =
      push_to_cache
        (record c {
          texture = record c.texture { pending_blocks = c.texture.pending_blocks ++ blocks };
        })
        (some (length c.texture.pending_blocks)) (length blocks) c.now

  unfoldable pub push_deferred_per_frame_blocks : GpuCache B → ℕ → Run (GpuCache B × GpuCacheHandle)
  push_deferred_per_frame_blocks c block_count = push_to_cache c none block_count c.now

  unfoldable pub end_frame : ℕ → GpuCache B → GpuCache B × FrameStamp
  end_frame time c =
      let reached =
        ltb gpu_cache_initial_height (length c.texture.rows)
        && below_threshold c.texture.allocated_block_count
            (length c.texture.rows * max_vertex_texture_width % usize_mod) in
      (
        record c {
          texture = record c.texture {
            reached_reclaim_threshold =
                if reached then get_or_insert c.texture.reached_reclaim_threshold time else none;
          };
        },
        c.now,
      )

  unfoldable pub should_reclaim_memory : ℕ → GpuCache B → Bool
  should_reclaim_memory time c = elapsed_over time c.texture.reached_reclaim_threshold

  unfoldable pub extract_updates : GpuCache B → GpuCache B × GpuCacheUpdateList B
  extract_updates c = (
    record c {
      pending_clear = false;
      texture = record c.texture { debug_commands = []; updates = []; pending_blocks = [] };
    },
    record {
      frame_id = c.now.id;
      clear = c.pending_clear;
      height = c.texture.height;
      updates = c.texture.updates;
      blocks = c.texture.pending_blocks;
      debug_commands = c.texture.debug_commands;
    },
  )

  unfoldable pub set_debug_flags : GpuCache B → ℕ → GpuCache B
  set_debug_flags c flags = record c {
    debug_flags = flags;
    texture = record c.texture { debug_flags = flags };
  }

  -- `expect` of the location, and the block's address: `panic` if either is missing.
  unfoldable pub get_address : GpuCache B → GpuCacheHandle → Run GpuCacheAddress
  get_address c handle = do
    location ← unwrap handle.location
    block ← index_at c.texture.blocks location.block_index
    done block.address
