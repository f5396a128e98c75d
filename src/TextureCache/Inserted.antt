-- ===== src/TextureCache/Inserted.antt =====
-- `TextureCache::update` of a new image that goes to a shared texture with room (webrender/src/texture_cache.rs).
use webrender.Prelude.{
  ℕ, ◌<◌, ◌≡◌, ◌≢◌, refl, some, none, false, done, arith, length, get_elem?, u32_mod, ◌==◌,
}
use webrender.FreeList.{WeakFreeListHandle, Slot, get_opt}
use webrender.FreeList.Invariant.{Inv}
use webrender.Images.{DirtyRect}
use webrender.GpuCache.Blocks.{u16_mod}
use webrender.GpuCache.Caches.{GpuCache}
use webrender.GpuCache.Whole.{TextureOk}
use webrender.TextureCache.Regions.{SlabSize, new_slab_size}
use webrender.TextureCache.Arrays.{Selected, array_at}
use webrender.TextureCache.Entries.{GpuBlockData, CacheEntry}
use webrender.TextureCache.Caches.{TextureCache}
use webrender.TextureCache.Slabs.{Fits}
use webrender.TextureCache.Search.{Live}
use webrender.TextureCache.Requests.{UpdateParams, update}
use webrender.TextureCache.Shared.{HasRoom, GoesTo, TakesSlot, allocate-Adds}
use webrender.TextureCache.Installed.{Sendable, Updates, update_allocated-Updates}

-- `update` of an image for the shared textures returns, when its handle leads to no entry and the array for its
-- format and filter has no texture yet, or one with an empty layer. After it the handle leads to an entry in a slot of
-- a slab that covers the image, inside its region and apart from the slots in use before in its layer; the policy
-- and the notice are those given, and its data is at an address of the GPU cache. The array, the entries and the GPU
-- cache are well formed as before. The image has 1 to 512 pixels in each direction, its data can be sent, and
-- there is room for one more slot of the entries and one more row of the GPU cache.
pub update-TakesSlot :
    (to_f32 pressure_scaled : ℕ → ℕ) (c : TextureCache) (w : WeakFreeListHandle) (u : UpdateParams)
    (r : DirtyRect) (g : GpuCache GpuBlockData) (slot : Slot CacheEntry) (which : Selected)
    (live : Live)
    → Inv c.entries
    → length c.entries.slots < u32_mod
    → get_elem? c.entries.slots w.index ≡ some slot
    → slot.epoch ≢ w.epoch
    → GoesTo u.params which
    → HasRoom (array_at c.shared_textures which) live
    → Sendable u.image u.params.descriptor
    → TextureOk g.texture
    → length g.texture.rows < u16_mod
    → (s : SlabSize) × (new_slab_size u.params.descriptor.size ≡ done s)
      × Fits u.params.descriptor.size s
      × Updates (TakesSlot which live s) u (update to_f32 pressure_scaled c w u r g)
unfolding get_opt
update-TakesSlot to_f32 pressure_scaled c w u r g slot which live inv room at_w other goes has_room
      ready ok rows =
    let (s, sliced, fits, a) =
      allocate-Adds pressure_scaled c u.params w slot which live inv room at_w other goes
        has_room in
    let stale : (slot.epoch == w.epoch) ≡ false = ground (arith, other) in
    let got : get_opt c.entries w ≡ done none = rw (at_w, stale) refl in
    (
      s,
      sliced,
      fits,
      update_allocated-Updates to_f32 pressure_scaled c w u r g none a.after a.handle a.entry
          (TakesSlot which live s) got refl a.returns a.keeps a.reads a.size a.takes a.unset ready
          ok rows,
    )
