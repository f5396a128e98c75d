-- ===== src/GpuCache.antt =====
-- webrender/src/gpu_cache.rs: the cache of GPU resources in the rows of a texture. `Blocks` has blocks,
-- handles and size classes, `Textures` the allocation and the eviction in the texture, `Caches` the
-- cache itself with its frames, requests and handles.
pub mod Blocks
pub mod Textures
pub mod Caches
pub mod Classes
pub mod Epochs
pub mod Advance
pub mod Chains
pub mod Evict
pub mod Evicted
pub mod Eviction
pub mod Rows
pub mod Owns
pub mod Whole
pub mod Taken
pub mod Filled
pub mod Grown
pub mod Push
pub mod Pushed
pub mod Fuel
pub mod Swept
pub mod Emptied
pub mod Live
pub mod Steps
pub mod Requests
pub mod Calls
pub mod Runs
pub mod Stale
mod Tests
