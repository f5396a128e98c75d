-- ===== src/GpuCache/Blocks.antt =====
-- The parts of the GPU cache (webrender/src/gpu_cache.rs): epochs, locations, addresses, blocks, rows,
-- the updates for the renderer, and the size classes of the free lists. The data of a block is four
-- floats that the cache never reads: a type parameter.
use webrender.Prelude.{
  ℕ, ◌+◌, ◌%◌, ◌^◌, List, Option, none, Bool, Run, done, panic, ltb, leb, ◌==◌, u32_mod,
  if◌then◌else◌,
}
use webrender.FrameStamp.{frame_invalid}

abbrev pub u16_mod : ℕ
u16_mod = 2 ^ 16

abbrev pub gpu_cache_initial_height : ℕ
gpu_cache_initial_height = 20

abbrev pub new_rows_per_resize : ℕ
new_rows_per_resize = 10

abbrev pub frames_before_eviction : ℕ
frames_before_eviction = 10

abbrev pub max_vertex_texture_width : ℕ
max_vertex_texture_width = 1024

-- `Epoch(u32)` is its number.
abbrev pub epoch_next : ℕ → ℕ
epoch_next e = (e + 1) % u32_mod

pub record CacheLocation : Type 0 where
  pub block_index : ℕ
  pub epoch : ℕ

pub record GpuCacheHandle : Type 0 where
  pub location : Option CacheLocation

abbrev pub new_handle : GpuCacheHandle
new_handle = record { location = none }

pub record GpuCacheAddress : Type 0 where
  pub u : ℕ
  pub v : ℕ

abbrev pub new_address : ℕ → ℕ → GpuCacheAddress
new_address u v = record { u = u % u16_mod; v = v % u16_mod }

abbrev pub invalid_address : GpuCacheAddress
invalid_address = record { u = 0xffff; v = 0xffff }

abbrev pub add_address : GpuCacheAddress → ℕ → GpuCacheAddress
add_address a other = record { u = (a.u + other % u16_mod) % u16_mod; v = a.v }

pub record Block : Type 0 where
  pub address : GpuCacheAddress
  pub epoch : ℕ
  pub next : Option ℕ
  pub last_access_time : ℕ

abbrev pub new_block : GpuCacheAddress → Option ℕ → ℕ → ℕ → Block
new_block address next frame_id epoch = record {
  address = address;
  epoch = epoch;
  next = next;
  last_access_time = frame_id;
}

abbrev pub invalid_block : Block
invalid_block = new_block (record { u = 0; v = 0 }) none frame_invalid 0

-- The block, and the maximum epoch after it.
abbrev pub advance_epoch : Block → ℕ → Block × ℕ
advance_epoch b max_epoch = (
  record b { epoch = epoch_next b.epoch },
  if ltb max_epoch (epoch_next b.epoch) then epoch_next b.epoch else max_epoch,
)

-- `BlockIndex::new`: the zero index is forbidden.
abbrev pub new_block_index : ℕ → Run ℕ
new_block_index idx = if idx % u32_mod == 0 then panic else done (idx % u32_mod)

pub record Row : Type 0 where
  pub block_count_per_item : ℕ

pub data GpuCacheUpdate : Type 0 where
  copy : (block_index block_count : ℕ) → GpuCacheAddress → GpuCacheUpdate

pub data GpuCacheDebugCmd : Type 0 where
  alloc_cmd : GpuCacheAddress → ℕ → GpuCacheDebugCmd
  free_cmd : GpuCacheAddress → GpuCacheDebugCmd

pub record GpuCacheUpdateList (B : Type 0) : Type 0 where
  pub frame_id : ℕ
  pub clear : Bool
  pub height : ℕ
  pub updates : List GpuCacheUpdate
  pub blocks : List B
  pub debug_commands : List GpuCacheDebugCmd

-- The fields free_list_1, free_list_2, …, free_list_1024, by the number in their names.
abbrev pub FreeBlockLists : Type 0
FreeBlockLists = ℕ → Option ℕ

abbrev pub new_free_lists : FreeBlockLists
new_free_lists size = none

abbrev pub set_free_list : FreeBlockLists → ℕ → Option ℕ → FreeBlockLists
set_free_list lists size head k = if k == size then head else lists k

-- The actual block count, which names the free list that goes with it.
unfoldable pub get_actual_block_count_and_free_list : ℕ → Run ℕ
get_actual_block_count_and_free_list n =
    if n == 0
    then panic
    else if leb n 1
    then done 1
    else if leb n 2
    then done 2
    else if leb n 4
    then done 4
    else if leb n 8
    then done 8
    else if leb n 16
    then done 16
    else if leb n 32
    then done 32
    else if leb n 64
    then done 64
    else if leb n 128
    then done 128
    else if leb n 256
    then done 256
    else if leb n 341
    then done 341
    else if leb n 512
    then done 512
    else if leb n 1024
    then done 1024
    else panic
