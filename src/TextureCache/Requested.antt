-- ===== src/TextureCache/Requested.antt =====
-- `TextureCache::request` of a handle with an entry (webrender/src/texture_cache.rs), with the GPU cache that it
-- fills (webrender/src/gpu_cache.rs).
use webrender.Prelude.{
  ℕ, ◌<◌, ◌≡◌, refl, inl, inr, List, [], ◌∷◌, some, false, Bool, Run, done, set, length, arith, ◌%◌,
  u32_mod,
}
use webrender.FreeList.{WeakFreeListHandle, get_opt}
use webrender.FreeList.Freed.{get_opt-eq-some, get_opt_mut-of_slot}
use webrender.GpuCache.Blocks.{GpuCacheHandle, u16_mod}
use webrender.GpuCache.Caches.{GpuCache, push}
use webrender.GpuCache.Steps.{push_all}
use webrender.GpuCache.Whole.{TextureOk}
use webrender.GpuCache.Requests.{FitsRow, NotFirst, InCache, request-Asks}
use webrender.TextureCache.Entries.{
  GpuBlockData, rect_kind, quad, CacheEntry, place_of, image_source_blocks, push_blocks,
  update_gpu_cache,
}
use webrender.TextureCache.Caches.{TextureCache}
use webrender.TextureCache.Requests.{CacheItem, in_texture_cache, write_entry, get_item, request}
use webrender.TextureCache.Updated.{write_entry-get_opt}

push_blocks-push_all :
    (to_f32 : ℕ → ℕ) (g : GpuCache GpuBlockData) (bs : List GpuBlockData)
    → push_blocks to_f32 g bs ≡ push_all g bs
unfolding push_all
push_blocks-push_all to_f32 g [] = refl
push_blocks-push_all to_f32 g (b ∷ bs) = push_blocks-push_all to_f32 (push g b) bs

image_source_blocks-FitsRow :
    (to_f32 : ℕ → ℕ) (e : CacheEntry) → FitsRow (length (image_source_blocks to_f32 e))
image_source_blocks-FitsRow to_f32 e =
    elim e.uv_rect_kind
      as (λ k. FitsRow (length (image_source_blocks to_f32 (record e { uv_rect_kind = k })))) [
        | rect_kind ↦ (omega arith, omega arith)
        | quad a b c d ↦ (omega arith, omega arith)
      ]

-- The data of the entry is in the GPU cache after `update_gpu_cache`, and only its handle may be new.
pub update_gpu_cache-InCache :
    (to_f32 : ℕ → ℕ) (e : CacheEntry) (g : GpuCache GpuBlockData)
    → TextureOk g.texture
    → length g.texture.rows < u16_mod
    → NotFirst e.uv_rect_handle
    → (h : GpuCacheHandle) × (g' : GpuCache GpuBlockData) × (update_gpu_cache to_f32 e g
        ≡ done (record e { uv_rect_handle = h }, g'))
      × TextureOk g'.texture
      × InCache g' h
unfolding update_gpu_cache
update_gpu_cache-InCache to_f32 e g ok rows not_first =
    let blocks = image_source_blocks to_f32 e in
    elim (request-Asks g e.uv_rect_handle blocks ok rows not_first
      (image_source_blocks-FitsRow to_f32 e)) [
        | inl (g', asked, ok', in_cache) ↦ (e.uv_rect_handle, g', rw asked refl, ok', in_cache)
        | inr (asked, g', h, filled, ok', in_cache) ↦
            (h, g', rw (asked, push_blocks-push_all to_f32 g blocks, filled) refl, ok', in_cache)
      ]

write_entry-returns :
    (c : TextureCache) (w : WeakFreeListHandle) (e : CacheEntry) {old : CacheEntry}
    → get_opt c.entries w ≡ done (some old)
    → (c' : TextureCache) × (write_entry c w e ≡ done c')
unfolding write_entry
write_entry-returns c w e found =
    let (s, at_w, full, same) = get_opt-eq-some c.entries w found in
    (
      record c {
        entries = record c.entries {
          slots = set c.entries.slots w.index (record s { value = some e });
        };
      },
      rw (get_opt_mut-of_slot c.entries w s (λ _. e) at_w full same) refl,
    )

-- The item of an entry.
abbrev pub item_of : CacheEntry → CacheItem
item_of e = record {
  texture_source = in_texture_cache e.texture_id;
  uv_rect_handle = e.uv_rect_handle;
  uv_rect = record { origin = (place_of e.details).1; size = e.size };
  texture_layer = (place_of e.details).0 % u32_mod;
}

get_item_of_entry :
    (c : TextureCache) (w : WeakFreeListHandle) (e : CacheEntry)
    → get_opt c.entries w ≡ done (some e)
    → get_item c w ≡ done (item_of e)
unfolding get_item
get_item_of_entry c w e found = rw found refl

-- Entry `e` after a request in the frame of `c`, with the GPU cache handle `h`.
abbrev pub used_entry : TextureCache → CacheEntry → GpuCacheHandle → CacheEntry
used_entry c e h = record e { last_access = c.now; uv_rect_handle = h }

-- What a request of the handle of entry `e` answers, and what it leaves: the entry is used in this frame, and
-- `get` gives its item, whose data has an address in the GPU cache.
pub record Used (c : TextureCache) (w : WeakFreeListHandle) (e : CacheEntry)
    (requested : Run (TextureCache × GpuCache GpuBlockData × Bool)) : Type 0 where
  pub after : TextureCache
  pub gpu_after : GpuCache GpuBlockData
  pub handle : GpuCacheHandle
  pub returns : requested ≡ done (after, gpu_after, false)
  pub used : get_opt after.entries w ≡ done (some (used_entry c e handle))
  pub gets : get_item after w ≡ done (item_of (used_entry c e handle))
  pub in_cache : InCache gpu_after handle
  pub ok : TextureOk gpu_after.texture

-- `request` of a handle with an entry returns and asks for no image. The entry is then used in this frame and is
-- else the same; `get` returns its rectangle with a GPU cache handle that has an address and whose data a
-- request finds. The invariant of the GPU cache is kept. Its texture has room for one more row, and the handle
-- before is not one of block 0.
pub request-Used :
    (to_f32 : ℕ → ℕ) (c : TextureCache) (w : WeakFreeListHandle) (g : GpuCache GpuBlockData)
    (e : CacheEntry)
    → get_opt c.entries w ≡ done (some e)
    → TextureOk g.texture
    → length g.texture.rows < u16_mod
    → NotFirst e.uv_rect_handle
    → Used c w e (request to_f32 c w g)
unfolding request
request-Used to_f32 c w g e found ok rows not_first =
    let e1 : CacheEntry = record e { last_access = c.now } in
    let (h, g', updated, ok', in_cache) = update_gpu_cache-InCache to_f32 e1 g ok rows not_first in
    let e2 : CacheEntry = record e1 { uv_rect_handle = h } in
    let (c', written) = write_entry-returns c w e2 found in
    let (reads, _) = write_entry-get_opt c w e2 found written in
    record {
      after = c';
      gpu_after = g';
      handle = h;
      returns = rw (found, updated, written) refl;
      used = reads;
      gets = get_item_of_entry c' w e2 reads;
      in_cache = in_cache;
      ok = ok';
    }
