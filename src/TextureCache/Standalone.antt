-- ===== src/TextureCache/Standalone.antt =====
-- `TextureCache::allocate` of an image that gets a texture of its own (webrender/src/texture_cache.rs).
use webrender.Prelude.{
  ℕ, ◌<◌, ◌≡◌, ◌≢◌, refl, inl, inr, ◌⊎◌, List, [], ◌∷◌, ◌++◌, some, true, false, ◌&&◌, Run, done,
  arith, Bool-cases, length, get_elem?, u32_mod, ◌==◌,
}
use webrender.Prelude.I32.{gt_i32}
use webrender.FreeList.{WeakFreeListHandle, Slot, weak, get_opt}
use webrender.FreeList.Invariant.{Inv}
use webrender.FreeList.View.{same, lookup, slot_of_lookup}
use webrender.FreeList.Laws.{upsert-Writes, upsert-Inserts}
use webrender.FreeList.Freed.{get_opt_of_slot}
use webrender.GpuCache.Requests.{NotFirst}
use webrender.TextureCache.Updates.{TextureCacheAllocInfo, TextureCacheAllocation, alloc, find_kind}
use webrender.TextureCache.Entries.{
  standalone, standalone_kind, CacheEntry, CacheAllocParams, new_standalone,
}
use webrender.TextureCache.Caches.{TextureCache, free_entry, handles_of, set_doc_handles}
use webrender.TextureCache.Allocation.{
  is_allowed_in_shared_cache, allocate_standalone_entry, allocate_cache_entry, allocate,
}
use webrender.TextureCache.Returns.{CanFree, push_free-returns}

pub get_opt_of_lookup :
    (c : TextureCache) (w : WeakFreeListHandle) {e : CacheEntry}
    → lookup c.entries w ≡ some e
    → get_opt c.entries w ≡ done (some e)
get_opt_of_lookup c w {e} reads =
    let (s, at_w, same_epoch, full) = slot_of_lookup c.entries w e reads in
    get_opt_of_slot c.entries w s at_w full same_epoch

pub same_self : (w : WeakFreeListHandle) → same w w ≡ true
same_self w = ground arith

CanFree-append :
    (id next_id : ℕ) (info : TextureCacheAllocInfo) (l : List TextureCacheAllocation)
    → CanFree (find_kind id l)
    → CanFree (find_kind id (l ++ record { id = next_id; kind = alloc info } ∷ []))
unfolding find_kind
CanFree-append id next_id info [] can = elim (Bool-cases (next_id == id)) [
  | inl e ↦ rw (find_kind, e) tt
  | inr e ↦ rw (find_kind, e) tt
]
CanFree-append id next_id info (a ∷ l) can = elim (Bool-cases (a.id == id)) [
  | inl e ↦ rw (find_kind, e) (rw (find_kind, e) at can)
  | inr e ↦ rw (find_kind, e) (CanFree-append id next_id info l (rw (find_kind, e) at can))
]

-- The handle leads to no entry, or to one with a texture of its own that is not freed yet.
abbrev pub LeadsToStandalone : TextureCache → WeakFreeListHandle → Type 0
LeadsToStandalone c w =
    ((s : Slot CacheEntry) × (get_elem? c.entries.slots w.index ≡ some s) × (s.epoch ≢ w.epoch))
    ⊎ ((e : CacheEntry) × (lookup c.entries w ≡ some e)
        × (e.details ≡ standalone)
        × CanFree (find_kind e.texture_id c.pending_updates.allocations)
        × NotFirst e.uv_rect_handle)

-- The image has pixels, and is not allowed in the shared textures.
pub record NeedsOwn (params : CacheAllocParams) : Type 0 where
  pub positive :
      (gt_i32 params.descriptor.size.width 0 && gt_i32 params.descriptor.size.height 0) ≡ true
  pub not_shared : is_allowed_in_shared_cache params.filter params.descriptor ≡ false

-- The new entry is at the handle.
pub record Allocates (c : TextureCache) (params : CacheAllocParams)
    (r : Run (TextureCache × WeakFreeListHandle)) : Type 0 where
  pub after : TextureCache
  pub handle : WeakFreeListHandle
  pub returns : r ≡ done (after, handle)
  pub keeps : Inv after.entries
  pub reads : lookup after.entries handle ≡ some (new_standalone c.next_id c.now params)

module _ (pressure_scaled : ℕ → ℕ) where
  allocate_cache_entry-standalone :
      (c : TextureCache) (params : CacheAllocParams)
      → NeedsOwn params
      → allocate_cache_entry pressure_scaled c params ≡ done (allocate_standalone_entry c params)
  unfolding allocate_cache_entry
  allocate_cache_entry-standalone c params own = rw (own.positive, own.not_shared) refl

  pub allocate-Allocates :
      (c : TextureCache) (params : CacheAllocParams) (w : WeakFreeListHandle)
      → Inv c.entries
      → length c.entries.slots < u32_mod
      → NeedsOwn params
      → LeadsToStandalone c w
      → Allocates c params (allocate pressure_scaled c params w)
  unfolding allocate allocate_standalone_entry free_entry
  allocate-Allocates c params w inv room own (inl (s, at_w, other)) =
      let entry = new_standalone c.next_id c.now params in
      let (r, upserted) = upsert-Inserts c.entries w entry s inv room at_w other in
      let c1 = (allocate_standalone_entry c params).0 in
      let made = allocate_cache_entry-standalone c params own in
      record {
        after =
            set_doc_handles (record c1 { entries = r.after }) standalone_kind
              (handles_of c.doc_data.handles standalone_kind ++ r.handle ∷ []);
        handle = weak r.handle;
        returns = rw (made, upserted) refl;
        keeps = r.keeps;
        reads = rw (r.maps (weak r.handle), same_self (weak r.handle)) refl;
      }
  allocate-Allocates c params w inv room own (inr (old, leads, alone, can, _)) =
      let entry = new_standalone c.next_id c.now params in
      let (fl, upserted, writes) = upsert-Writes c.entries w old entry inv leads in
      let c1 = (allocate_standalone_entry c params).0 in
      let (l, pushed, _) =
        push_free-returns c1.pending_updates old.texture_id
          (CanFree-append old.texture_id c.next_id _ c.pending_updates.allocations can) in
      let made = allocate_cache_entry-standalone c params own in
      record {
        after = record c1 { entries = fl; pending_updates = l };
        handle = w;
        returns = rw (made, upserted, alone, pushed) refl;
        keeps = writes.keeps;
        reads = rw (writes.maps w, same_self w) refl;
      }
