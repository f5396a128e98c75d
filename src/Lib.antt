-- ===== src/Lib.antt =====
-- WebRender's resource bookkeeping: the allocators, caches and handle tables that decide where each
-- piece of data lives, and who may still refer to it.
--
-- The parts, and the files that model them:
-- - FreeList (webrender/src/freelist.rs): `FreeList` with strong and weak handles. `FreeList.antt`
--   has the types and one function for each method; `FreeList/Invariant` the chain of vacant slots and
--   the count; `FreeList/View` the partial map that a list stands for; `FreeList/Laws` the effect of
--   the methods on it; `FreeList/Stale` handles after a free; `FreeList/Sizes` growth and `clear`;
--   `FreeList/Freed` single slots; `FreeList/Upserted` the handle after an `upsert`.
-- - TextureAllocator (webrender/src/texture_allocator.rs): `ArrayAllocationTracker`. `Bins` has the size
--   classes and the invariant, `Find` and `Choice` the search, `Cover` the points that rectangles cover, `Split` the
--   guillotine cut, `Allocate` the two entry points.
-- - RenderTargets (webrender/src/tiling.rs): `RenderTargetList::allocate`, the client of the allocator
--   that opens a new slice when a task does not fit. `Tiled` has the invariant, `Disjoint` the results.
-- - Intern (webrender/src/intern.rs): `Interner`, `DataStore` and the update lists between the scene
--   builder thread and the frame builder thread. `Sync` has the lemmas on update lists, `Touch` those on
--   the map, `Collect` the garbage collection, `Agree` the invariant that ties the two sides together,
--   `Add` interning, `Frames` sequences of both sides' steps.
-- - FrameStamp (webrender/src/render_backend.rs): frame numbers and stamps.
-- - GpuCache (webrender/src/gpu_cache.rs): `Blocks` has blocks, handles and size classes, `Textures`
--   allocation and eviction in the texture, `Caches` the frames, requests and handles; `Classes` is about
--   the size classes, `Epochs` and `Advance` about what each operation of the texture does to the epochs
--   of the blocks, `Live` about which handles have their block, `Steps` about sequences of calls, `Stale`
--   about handles after a clear or an invalidation; `Chains` is about the lists
--   that are threaded through the blocks, `Evict`, `Evicted` and `Eviction` about one round, what is left
--   and the loop of the eviction, `Rows` and `Push` about allocation. `Owns` says which list has which block,
--   `Whole` is the invariant of a texture, `Taken`, `Filled`, `Grown` and `Pushed` are about what allocation keeps
--   of it, `Fuel`, `Swept` and `Emptied` about the eviction, `Requests`, `Calls` and `Runs` about all calls.
-- - RenderTasks (webrender/src/render_task.rs, `RenderPass` of webrender/src/tiling.rs, and the passes
--   of webrender/src/frame_builder.rs): the tree of tasks and `assign_to_passes`, with the result in `Ordered`
--   and `Assign`. `Passes` has the passes of a frame, `Shifted` the assignment after other passes,
--   `Reversed` the order of reversed passes, `Frame` the result.
-- - RenderTaskCache (webrender/src/render_task.rs): render tasks kept in the texture cache, over a FreeList
--   of its entries, RenderTasks and the TextureCache. `Requests` has its requests, `Retained` is about the
--   start of a frame, `Placed` about the update.
-- - Storage (webrender/src/storage.rs): a growing vector with indices and ranges; `Laws` has what is read
--   back.
-- - Images (webrender_api/src/image.rs): image formats and descriptors.
-- - TextureCache (webrender/src/texture_cache.rs, with the update lists of webrender/src/internal_types.rs
--   and `update_texture_cache` of webrender/src/renderer.rs): the cache of images, over a FreeList of
--   entries, a GpuCache of their rectangles and the shared textures. `Updates` has the update lists,
--   `Uploads` what the renderer does with them, `Kinds`, `Pending` and `Coalescing` the comparison with single
--   commands; `Regions` and `Arrays` have the shared textures, `Slabs` the arithmetic of slab sizes, `Slots`
--   and `Owned` the slots of one layer, `Search`, `Layers` and `Placement` those of an array, `Safety` the
--   results; `Entries` has the entries and thresholds, `Caches` the eviction, `Allocation`, `Frames` and
--   `Requests` the rest of the calls; `Expiry` and `Evictions` are about what an eviction leaves, `Returns`
--   and `Rounds` about its end, `Lifetimes` and `Unused` about frames, `Unshared` about formats, `Sized` and
--   `Updated` about `update`, `Standalone` and `Installed` about that of an image with its own texture,
--   `Shared` and `Inserted` about that of a new image in a shared one, `Requested` about `request`.
-- - Prelude: shared names; `Outcome` the results of code that may panic, `I32` two's complement.
--
-- Conventions. A method that takes `&mut self` returns the new state. A panic (index out of bounds,
-- `unwrap` of `None`, a failed `assert!`) is the outcome `panic`; `debug_assert!` is left out, as in a
-- release build, and so is the overflow check of arithmetic: machine integers wrap around, `u32` modulo
-- 2^32, `u64` and `usize` modulo 2^64, `i32` by its bit pattern. The theorems bound the sizes and the
-- epochs where a wrap-around would matter. A `Vec` is a list, a hash map an association list in the
-- order in which it is walked, or a function where it is not walked. Loops are recursions on their lists, or on the number of rounds left
-- (`find_from`, over the three bins; the rows of `push_row_blocks`). The loop over a document's blocks in
-- `evict_old_blocks` is on fuel, the number of blocks, which is enough since the list has no block twice;
-- without fuel it panics. The recursion of `assign_to_passes` is on fuel too: more than the depth of the
-- task is enough, which the frame passes on. Of a task only the location, the children and the target kind are kept; its
-- `UvRectKind` is a parameter of the render task cache, as are the kind of a key there and its equality. In the texture
-- cache the conversion of an `i32` to an `f32` and the product with the memory pressure, which is an `f64`,
-- are parameters, a time is in nanoseconds, a `SystemTime` before the epoch is the epoch, and an eviction
-- notice is a number of a cell in a store.
--
-- Not modelled: the GPU devices and the renderer, which call a graphics driver; font rasterization;
-- floating point geometry (spatial tree, clips, borders); serialization; profiling, debug output and
-- capture. The glyph and image caches above the texture cache, and the document state machine of the backend,
-- are not covered yet.
pub mod FrameStamp
pub mod FreeList
pub mod GpuCache
pub mod Images
pub mod Intern
pub mod Prelude
pub mod RenderTargets
pub mod RenderTaskCache
pub mod RenderTasks
pub mod Storage
pub mod TextureAllocator
pub mod TextureCache
