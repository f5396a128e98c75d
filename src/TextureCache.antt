-- ===== src/TextureCache.antt =====
-- webrender/src/texture_cache.rs: the cache of images in GPU textures, shared ones that are cut into slabs
-- and standalone ones. `Updates` has the commands for the renderer, `Regions` the slab allocator of a
-- layer, `Arrays` the shared textures, `Entries` the entries with their eviction policy, `Caches` the
-- eviction, `Allocation` the allocation, `Uploads` what the renderer does with the commands, `Frames` the frames, `Requests` the calls of the cache's clients.
pub mod Updates
pub mod Regions
pub mod Arrays
pub mod Entries
pub mod Caches
pub mod Allocation
pub mod Uploads
pub mod Kinds
pub mod Pending
pub mod Coalescing
pub mod Slabs
pub mod Slots
pub mod Owned
pub mod Search
pub mod Layers
pub mod Placement
pub mod Safety
pub mod Disjoint
pub mod Expiry
pub mod Evictions
pub mod Returns
pub mod Rounds
pub mod Frames
pub mod Requests
pub mod Sized
pub mod Updated
pub mod Requested
pub mod Standalone
pub mod Shared
pub mod Installed
pub mod Inserted
pub mod Lifetimes
mod Sends
mod Tests
mod Runs
pub mod Unshared
pub mod Unused
