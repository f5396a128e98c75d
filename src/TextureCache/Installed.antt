-- ===== src/TextureCache/Installed.antt =====
-- `TextureCache::update` of an image that gets a texture of its own (webrender/src/texture_cache.rs).
use webrender.Prelude.{
  ℕ, ◌<◌, ◌≡◌, refl, sym, subst, inl, inr, Option, none, some, true, false, Run, done, arith,
  Bool-cases, length, u32_mod, ◌==◌, ◌>>=◌,
}
use webrender.FreeList.{WeakFreeListHandle, get_opt}
use webrender.FreeList.Invariant.{Inv}
use webrender.FreeList.View.{lookup}
use webrender.FreeList.Laws.{get_mut_lem}
use webrender.Images.{ImageDescriptor, DirtyRect, all, CachedImageData}
use webrender.GpuCache.Blocks.{new_handle, u16_mod}
use webrender.GpuCache.Caches.{GpuCache, invalidate}
use webrender.GpuCache.Whole.{TextureOk}
use webrender.GpuCache.Requests.{NotFirst, InCache}
use webrender.GpuCache.Calls.{invalidate-rows, invalidate-Safe}
use webrender.TextureCache.Updates.{TextureUpdateSource, new_source, new_update}
use webrender.TextureCache.Entries.{
  EntryDetails, standalone, GpuBlockData, CacheEntry, new_standalone,
}
use webrender.TextureCache.Arrays.{SharedTextures}
use webrender.TextureCache.Caches.{TextureCache}
use webrender.TextureCache.Requests.{
  UpdateParams, must_realloc, write_entry, send_data, reallocate, update_entry, update,
}
use webrender.TextureCache.Allocation.{allocate}
use webrender.TextureCache.Updated.{kept_size}
use webrender.TextureCache.Requested.{update_gpu_cache-InCache}
use webrender.TextureCache.Standalone.{
  get_opt_of_lookup, LeadsToStandalone, NeedsOwn, allocate-Allocates,
}

-- The data can be sent: it is no blob and no texture handle, and has the bytes of the image.
abbrev pub Sendable : Option CachedImageData → ImageDescriptor → Type 0
Sendable none d = Unit
Sendable (some image) d = (source : TextureUpdateSource) × (new_source image d ≡ done source)

send_data-returns :
    (c : TextureCache) (e : CacheEntry) (d : ImageDescriptor) (r : DirtyRect)
    (image : Option CachedImageData)
    → Sendable image d
    → (c' : TextureCache) × (send_data c e d r image ≡ done c')
      × (c'.entries ≡ c.entries)
      × (c'.shared_textures ≡ c.shared_textures)
unfolding send_data new_update
send_data-returns c e d r none ready = (c, refl, refl, refl)
send_data-returns c e d r (some image) (source, made) = rw made (_, refl, refl, refl)

-- The entry of the handle has the size of the image, the place that `P` tells, the policy and the notice given, and
-- its data has an address in the GPU cache.
pub record Updates (P : SharedTextures → EntryDetails → Type 0) (u : UpdateParams)
    (r : Run (TextureCache × WeakFreeListHandle × GpuCache GpuBlockData)) : Type 0 where
  pub after : TextureCache
  pub handle : WeakFreeListHandle
  pub gpu_after : GpuCache GpuBlockData
  pub entry : CacheEntry
  pub returns : r ≡ done (after, handle, gpu_after)
  pub keeps : Inv after.entries
  pub reads : get_opt after.entries handle ≡ done (some entry)
  pub size : entry.size ≡ u.params.descriptor.size
  pub placed : P after.shared_textures entry.details
  pub eviction : entry.eviction ≡ u.eviction
  pub notice : entry.eviction_notice ≡ u.eviction_notice
  pub in_cache : InCache gpu_after entry.uv_rect_handle
  pub ok : TextureOk gpu_after.texture

-- The entry has a texture of its own.
abbrev pub OwnTexture : SharedTextures → EntryDetails → Type 0
OwnTexture shared details = details ≡ standalone

module _ (to_f32 pressure_scaled : ℕ → ℕ) where
  -- The entry is there with the right size.
  update_entry-Updates :
      (c : TextureCache) (w : WeakFreeListHandle) (u : UpdateParams) (r : DirtyRect)
      (g : GpuCache GpuBlockData) (e : CacheEntry) (P : SharedTextures → EntryDetails → Type 0)
      → Inv c.entries
      → lookup c.entries w ≡ some e
      → e.size ≡ u.params.descriptor.size
      → P c.shared_textures e.details
      → NotFirst e.uv_rect_handle
      → Sendable u.image u.params.descriptor
      → TextureOk g.texture
      → length g.texture.rows < u16_mod
      → Updates P u (do (c', g') ← update_entry to_f32 pressure_scaled c w u r g; done (c', w, g'))
  unfolding update_entry write_entry
  update_entry-Updates c w u r g e P inv leads size placed not_first ready ok rows =
      let g1 = invalidate g e.uv_rect_handle in
      let noticed : CacheEntry = record e {
        eviction_notice = u.eviction_notice;
        uv_rect_kind = u.params.uv_rect_kind;
      } in
      let (h, g', pushed, ok', in_cache) =
        update_gpu_cache-InCache to_f32 noticed g1 (invalidate-Safe g e.uv_rect_handle ok)
          (rw (invalidate-rows g e.uv_rect_handle) rows) not_first in
      let e' : CacheEntry = record noticed { uv_rect_handle = h; eviction = u.eviction } in
      let (_, (fl, _, written, writes)) =
        get_mut_lem c.entries (record { index = w.index; epoch = w.epoch }) (λ _. e') e inv leads in
      let c1 : TextureCache = record c { entries = fl } in
      let (c2, sent, kept, same_shared) =
        send_data-returns c1 e' u.params.descriptor r u.image ready in
      record {
        after = c2;
        handle = w;
        gpu_after = g';
        entry = e';
        returns = rw (get_opt_of_lookup c w leads, pushed, written, sent) refl;
        keeps = subst Inv (sym kept) writes.keeps;
        reads = get_opt_of_lookup c2 w (rw (kept, writes.maps w) (ground arith));
        size = size;
        placed = subst (λ t. P t e.details) (sym same_shared) placed;
        eviction = refl;
        notice = refl;
        in_cache = in_cache;
        ok = ok';
      }

  -- The entry is allocated first.
  pub update_allocated-Updates :
      (c : TextureCache) (w : WeakFreeListHandle) (u : UpdateParams) (r : DirtyRect)
      (g : GpuCache GpuBlockData) (found : Option CacheEntry) (c1 : TextureCache)
      (w1 : WeakFreeListHandle) (e1 : CacheEntry) (P : SharedTextures → EntryDetails → Type 0)
      → get_opt c.entries w ≡ done found
      → must_realloc u.params.descriptor found ≡ true
      → allocate pressure_scaled c u.params w ≡ done (c1, w1)
      → Inv c1.entries
      → lookup c1.entries w1 ≡ some e1
      → e1.size ≡ u.params.descriptor.size
      → P c1.shared_textures e1.details
      → e1.uv_rect_handle ≡ new_handle
      → Sendable u.image u.params.descriptor
      → TextureOk g.texture
      → length g.texture.rows < u16_mod
      → Updates P u (update to_f32 pressure_scaled c w u r g)
  unfolding update reallocate
  update_allocated-Updates c w u r g found c1 w1 e1 P got needed allocated inv reads size placed
        unset ready ok rows =
      let not_first : NotFirst e1.uv_rect_handle = subst NotFirst (sym unset) (λ l e. cc) in
      rw (got, needed, allocated)
        (update_entry-Updates c1 w1 u all g e1 P inv reads size placed not_first ready ok rows)

  -- `update` of an image that is not allowed in the shared textures returns, whether its handle leads to no
  -- entry or to one with a texture of its own, of whatever size and format. After it the handle leads to an entry of
  -- the size of the image with a texture of its own, the policy and the notice given, and with its data at an
  -- address of the GPU cache; and the invariants of the entries and of the GPU cache are kept. The image has pixels, its
  -- data can be sent, there is room for one more slot and one more row, the texture of the old entry is not
  -- freed yet, and its GPU cache handle is not one of block 0.
  pub update-Updates :
      (c : TextureCache) (w : WeakFreeListHandle) (u : UpdateParams) (r : DirtyRect)
      (g : GpuCache GpuBlockData)
      → Inv c.entries
      → length c.entries.slots < u32_mod
      → LeadsToStandalone c w
      → NeedsOwn u.params
      → Sendable u.image u.params.descriptor
      → TextureOk g.texture
      → length g.texture.rows < u16_mod
      → Updates OwnTexture u (update to_f32 pressure_scaled c w u r g)
  unfolding update reallocate get_opt
  update-Updates c w u r g inv room leads own ready ok rows =
      let a = allocate-Allocates pressure_scaled c u.params w inv room own leads in
      let allocated : (found : Option CacheEntry)
          → get_opt c.entries w ≡ done found
          → must_realloc u.params.descriptor found ≡ true
          → Updates OwnTexture u (update to_f32 pressure_scaled c w u r g) =
        λ found got needed.
          update_allocated-Updates c w u r g found a.after a.handle
            (new_standalone c.next_id c.now u.params) OwnTexture got needed a.returns a.keeps
            a.reads refl refl refl ready ok rows in
      elim leads [
        | inl (s, at_w, other) ↦
            let stale : (s.epoch == w.epoch) ≡ false = ground (arith, other) in
            let got : get_opt c.entries w ≡ done none = rw (at_w, stale) refl in
            allocated none got refl
        | inr (e, reads, alone, can, not_first) ↦
            let got = get_opt_of_lookup c w reads in
            elim (Bool-cases (must_realloc u.params.descriptor (some e))) [
              | inl needed ↦ allocated (some e) got needed
              | inr kept ↦
                  let done_it =
                    update_entry-Updates c w u r g e OwnTexture inv reads
                      (kept_size to_f32 pressure_scaled u.params.descriptor e kept) alone not_first
                      ready ok rows in
                  rw (got, kept) done_it
            ]
      ]
