-- ===== src/GpuCache/Textures.antt =====
-- `Texture` of webrender/src/gpu_cache.rs: rows of blocks of one size, free lists and lists of occupied
-- blocks threaded through the blocks, `push_data` and `evict_old_blocks`. The map from documents to the
-- heads of their occupied lists is a function. Debug flags are a bit set.
use webrender.Prelude.{
  ℕ, zero, suc, ◌+◌, ◌-◌, ◌*◌, ◌/◌, ◌%◌, ◌^◌, List, [], ◌∷◌, ◌++◌, Option, none, some, Bool, Run,
  done, panic, ◌>>=◌, unwrap, index_at, u32_mod, usize_mod, length, set, ltb, ◌==◌, if◌then◌else◌,
}
use webrender.Prelude.I32.{add_i32}
use webrender.FrameStamp.{DocumentId, FrameStamp, same_document, frame_add}
use webrender.GpuCache.Blocks.{
  gpu_cache_initial_height, new_rows_per_resize, frames_before_eviction, max_vertex_texture_width,
  CacheLocation, new_address, Block, new_block, invalid_block, advance_epoch, new_block_index, Row,
  GpuCacheUpdate, copy, GpuCacheDebugCmd, alloc_cmd, free_cmd, FreeBlockLists, new_free_lists,
  set_free_list, get_actual_block_count_and_free_list,
}

-- `debug_flags.contains(DebugFlags::GPU_CACHE_DBG)`, which is `1 << 12`.
abbrev pub has_gpu_cache_dbg : ℕ → Bool
has_gpu_cache_dbg flags = flags / 2 ^ 12 % 2 == 1

pub record Texture (B : Type 0) : Type 0 where
  pub height : ℕ
  pub blocks : List Block
  pub rows : List Row
  pub base_epoch : ℕ
  pub max_epoch : ℕ
  pub free_lists : FreeBlockLists
  pub occupied_list_heads : DocumentId → Option ℕ
  pub pending_blocks : List B
  pub updates : List GpuCacheUpdate
  pub allocated_block_count : ℕ
  pub reached_reclaim_threshold : Option ℕ
  pub debug_commands : List GpuCacheDebugCmd
  pub debug_flags : ℕ

unfoldable pub new_texture : {B : Type 0} → ℕ → ℕ → Texture B
new_texture base_epoch debug_flags = record {
  height = gpu_cache_initial_height;
  blocks = invalid_block ∷ [];
  rows = [];
  base_epoch = base_epoch;
  max_epoch = base_epoch;
  free_lists = new_free_lists;
  occupied_list_heads = λ document. none;
  pending_blocks = [];
  updates = [];
  allocated_block_count = 0;
  reached_reclaim_threshold = none;
  debug_commands = [];
  debug_flags = debug_flags;
}

-- `insert` (of `some`) and `remove` (`none`) of the map of heads.
abbrev pub set_head : (DocumentId → Option ℕ) → DocumentId → Option ℕ → DocumentId → Option ℕ
set_head heads document head d = if same_document d document then head else heads d

-- The loop that makes the blocks of a new row: `n` blocks are left, the next one is number `i`. It
-- gives the vector of blocks and `prev_block_index`.
unfoldable pub push_row_blocks :
    ℕ → ℕ → ℕ → ℕ → ℕ → ℕ → List Block → Option ℕ → Run (List Block × Option ℕ)
push_row_blocks zero i alloc_size row_index frame_id base_epoch blocks prev = done (blocks, prev)
push_row_blocks (suc n) i alloc_size row_index frame_id base_epoch blocks prev = do
  let address = new_address (i * alloc_size) row_index
  block_index ← new_block_index (length blocks)
  push_row_blocks n (suc i) alloc_size row_index frame_id base_epoch
      (blocks ++ new_block address prev frame_id base_epoch ∷ []) (some block_index)

-- The update of `push_data`, if the data is there.
abbrev pub copy_update : Option ℕ → ℕ → Block → List GpuCacheUpdate → List GpuCacheUpdate
copy_update none block_count block updates = updates
copy_update (some pending_block_index) block_count block updates =
    updates ++ copy pending_block_index block_count block.address ∷ []

-- The debug commands after one more, in the debug display.
abbrev pub push_debug : ℕ → GpuCacheDebugCmd → List GpuCacheDebugCmd → List GpuCacheDebugCmd
push_debug flags cmd cmds = if has_gpu_cache_dbg flags then cmds ++ cmd ∷ [] else cmds

-- `block.last_access_time + FRAMES_BEFORE_EVICTION < frame_stamp.frame_id()`
abbrev pub is_old : ℕ → Block → Bool
is_old frame_id block = ltb (frame_add block.last_access_time frames_before_eviction) frame_id

module _ {B : Type 0} where
  unfoldable pub new_row : Texture B → ℕ → ℕ → Run (Texture B)
  new_row t alloc_size frame_id = do
    let row_index = length t.rows
    let height =
        if row_index % u32_mod == t.height then add_i32 t.height new_rows_per_resize else t.height
    (blocks, head) ←
        push_row_blocks (max_vertex_texture_width / alloc_size) 0 alloc_size row_index frame_id
          t.base_epoch t.blocks none
    done (record t {
      height = height;
      rows = t.rows ++ record { block_count_per_item = alloc_size } ∷ [];
      blocks = blocks;
      free_lists = set_free_list t.free_lists alloc_size head;
    })

  unfoldable pub ensure_row : Texture B → ℕ → ℕ → Run (Texture B)
  ensure_row t alloc_size frame_id = elim (t.free_lists alloc_size) [
    | none ↦ new_row t alloc_size frame_id
    | some head ↦ done t
  ]

  -- `push_data` from the free block on.
  unfoldable pub take_block :
      Texture B → Option ℕ → ℕ → ℕ → FrameStamp → Run (Texture B × CacheLocation)
  take_block t pending_block_index block_count alloc_size stamp = do
    free_block_index ← unwrap (t.free_lists alloc_size)
    block ← index_at t.blocks free_block_index
    done (
      record t {
        blocks = set t.blocks free_block_index (record block {
          next = t.occupied_list_heads stamp.document_id;
          last_access_time = stamp.id;
        });
        free_lists = set_free_list t.free_lists alloc_size block.next;
        occupied_list_heads =
            set_head t.occupied_list_heads stamp.document_id (some free_block_index);
        allocated_block_count = (t.allocated_block_count + alloc_size) % usize_mod;
        updates = copy_update pending_block_index block_count block t.updates;
        debug_commands =
            push_debug t.debug_flags (alloc_cmd block.address block_count) t.debug_commands;
      },
      record { block_index = free_block_index; epoch = block.epoch },
    )

  unfoldable pub push_data : Texture B → Option ℕ → ℕ → FrameStamp → Run (Texture B × CacheLocation)
  push_data t pending_block_index block_count stamp = do
    alloc_size ← get_actual_block_count_and_free_list block_count
    t' ← ensure_row t alloc_size stamp.id
    take_block t' pending_block_index block_count alloc_size stamp

  -- The block at `index` goes to the free list of its row.
  unfoldable pub free_block : Texture B → ℕ → Block → Run (Texture B)
  free_block t index block = do
    row ← index_at t.rows block.address.v
    size ← get_actual_block_count_and_free_list row.block_count_per_item
    let (block', max_epoch) = advance_epoch block t.max_epoch
    done (record t {
      blocks = set t.blocks index (record block' { next = t.free_lists size });
      max_epoch = max_epoch;
      free_lists = set_free_list t.free_lists size (some index);
      allocated_block_count =
          (t.allocated_block_count + usize_mod - row.block_count_per_item) % usize_mod;
      debug_commands = push_debug t.debug_flags (free_cmd block.address) t.debug_commands;
    })

  -- The `match` on the previous block: what pointed to the released block points past it.
  unfoldable pub unlink : Texture B → DocumentId → Option ℕ → Option ℕ → Run (Texture B)
  unlink t document none next =
      done (record t { occupied_list_heads = set_head t.occupied_list_heads document next })
  unlink t document (some prev) next = do
    block ← index_at t.blocks prev
    done (record t { blocks = set t.blocks prev (record block { next = next }) })

  -- The round for an old block: it is released and unlinked, and the previous block stays.
  unfoldable pub evict_block :
      Texture B → FrameStamp → Option ℕ → ℕ → Block → Run (Texture B × Option ℕ × Option ℕ)
  evict_block t stamp prev index block = do
    t' ← free_block t index block
    t'' ← unlink t' stamp.document_id prev block.next
    done (t'', prev, block.next)

  -- One round of the loop: the texture, the previous block and the current one after it.
  unfoldable pub evict_step :
      Texture B → FrameStamp → Option ℕ → ℕ → Run (Texture B × Option ℕ × Option ℕ)
  evict_step t stamp prev index = do
    block ← index_at t.blocks index
    if is_old stamp.id block
        then evict_block t stamp prev index block
        else done (t, some index, block.next)

  -- The loop, on fuel: it visits each occupied block of the document once, so that the number of blocks
  -- is enough. `panic` without fuel.
  unfoldable pub evict_loop : ℕ → Texture B → FrameStamp → Option ℕ → Option ℕ → Run (Texture B)
  evict_loop fuel t stamp prev none = done t
  evict_loop zero t stamp prev (some index) = panic
  evict_loop (suc fuel) t stamp prev (some index) = do
    (t', prev', current') ← evict_step t stamp prev index
    evict_loop fuel t' stamp prev' current'

  unfoldable pub evict_old_blocks : Texture B → FrameStamp → Run (Texture B)
  evict_old_blocks t stamp =
      evict_loop (length t.blocks) t stamp none (t.occupied_list_heads stamp.document_id)
