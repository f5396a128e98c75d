-- ===== src/TextureCache/Caches.antt =====
-- `TextureCache` of webrender/src/texture_cache.rs: its state, the eviction of old entries and the
-- allocation of new ones. The cells of the eviction notices are part of the state.
use webrender.Prelude.{
  ℕ, zero, suc, ◌%◌, ◌^◌, ◌/◌, List, [], Option, Bool, false, not, ◌&&◌, Run, done, ◌>>=◌, index_at,
  u32_mod, length, ltb, ◌==◌, if◌then◌else◌,
}
use webrender.FrameStamp.{DocumentId, FrameStamp, stamp_invalid, frame_advance}
use webrender.TextureAllocator.{DeviceIntPoint, swap_remove}
use webrender.FreeList
use webrender.FreeList.{
  FreeList, FreeListHandle, WeakFreeListHandle, UpsertResult, updated, inserted, weak, upsert, get,
}
use webrender.TextureCache.Updates.{TextureUpdateList, push_free, push_debug_clear}
use webrender.TextureCache.Arrays.{SharedTextures, select, array_at, set_array, free_in_array}
use webrender.TextureCache.Entries.{
  standalone, cache, EntryKind, standalone_kind, shared_kind, auto, manual, eager, CacheEntry,
  Notices, notify, EvictionThreshold, should_evict,
}

pub record EntryHandles : Type 0 where
  pub standalone_handles : List FreeListHandle
  pub shared_handles : List FreeListHandle

abbrev pub handles_of : EntryHandles → EntryKind → List FreeListHandle
handles_of h standalone_kind = h.standalone_handles
handles_of h shared_kind = h.shared_handles

abbrev pub set_handles : EntryHandles → EntryKind → List FreeListHandle → EntryHandles
set_handles h standalone_kind hs = record h { standalone_handles = hs }
set_handles h shared_kind hs = record h { shared_handles = hs }

pub record PerDocumentData : Type 0 where
  pub last_shared_cache_expiration : FrameStamp
  pub handles : EntryHandles

abbrev pub new_document_data : PerDocumentData
new_document_data = record {
  last_shared_cache_expiration = stamp_invalid;
  handles = record { standalone_handles = []; shared_handles = [] };
}

pub record TextureCache : Type 0 where
  pub shared_textures : SharedTextures
  pub max_texture_size : ℕ
  pub max_texture_layers : ℕ
  pub debug_flags : ℕ
  pub next_id : ℕ
  pub pending_updates : TextureUpdateList
  pub now : FrameStamp
  pub reached_reclaim_threshold : Option ℕ
  pub entries : FreeList CacheEntry
  pub per_doc_data : List (DocumentId × PerDocumentData)
  pub doc_data : PerDocumentData
  pub notices : Notices

abbrev pub has_flag : ℕ → ℕ → Bool
has_flag flags bit = flags / 2 ^ bit % 2 == 1

-- `TEXTURE_CACHE_DBG | TEXTURE_CACHE_DBG_CLEAR_EVICTED`
abbrev pub clears_evicted : ℕ → Bool
clears_evicted flags = has_flag flags 2 && has_flag flags 14

-- The slot of a shared entry is freed, and the debug command is pushed.
abbrev pub free_shared : TextureCache → CacheEntry → DeviceIntPoint → ℕ → Run TextureCache
free_shared c entry origin layer_index = do
  which ← select entry.format entry.filter
  let texture_array = array_at c.shared_textures which
  region ← index_at texture_array.regions layer_index
  let updates =
      if clears_evicted c.debug_flags
      then push_debug_clear c.pending_updates entry.texture_id origin region.slab_size.width
          region.slab_size.height (layer_index % u32_mod)
      else c.pending_updates
  texture_array' ← free_in_array texture_array layer_index region origin
  done (record c {
    pending_updates = updates;
    shared_textures = set_array c.shared_textures which texture_array';
  })

-- `free`
unfoldable pub free_entry : TextureCache → CacheEntry → Run TextureCache
free_entry c entry = elim entry.details [
  | standalone ↦ do
    updates ← push_free c.pending_updates entry.texture_id
    done (record c { pending_updates = updates })
  | cache origin layer_index ↦ free_shared c entry origin layer_index
]

-- `entries.free`, `evict` and `free`, for one handle.
unfoldable pub evict_entry : TextureCache → FreeListHandle → Run TextureCache
evict_entry c handle = do
  (entries, entry) ← FreeList.free c.entries handle
  free_entry (record c { entries = entries; notices = notify c.notices entry.eviction_notice })
      entry

-- The `match` on the policy of an entry.
abbrev pub is_expired : FrameStamp → EvictionThreshold → CacheEntry → Bool
is_expired now threshold entry = elim entry.eviction [
  | manual ↦ false
  | auto ↦ should_evict threshold entry.last_access
  | eager ↦ ltb (frame_advance entry.last_access.id) now.id
]

abbrev pub set_doc_handles : TextureCache → EntryKind → List FreeListHandle → TextureCache
set_doc_handles c kind hs = record c {
  doc_data = record c.doc_data { handles = set_handles c.doc_data.handles kind hs };
}

unfoldable pub evict_at : TextureCache → EntryKind → ℕ → Run TextureCache
evict_at c kind i = do
  (handle, rest) ← swap_remove (handles_of c.doc_data.handles kind) i
  evict_entry (set_doc_handles c kind rest) handle

-- The round for handle number `i`.
unfoldable pub expire_one : TextureCache → EntryKind → EvictionThreshold → ℕ → Run TextureCache
expire_one c kind threshold i = do
  handle ← index_at (handles_of c.doc_data.handles kind) i
  entry ← get c.entries handle
  if is_expired c.now threshold entry then evict_at c kind i else done c

-- The loop, from number `n - 1` down.
unfoldable pub expire_loop : ℕ → TextureCache → EntryKind → EvictionThreshold → Run TextureCache
expire_loop zero c kind threshold = done c
expire_loop (suc i) c kind threshold = do
  c' ← expire_one c kind threshold i
  expire_loop i c' kind threshold

unfoldable pub expire_old_entries : TextureCache → EntryKind → EvictionThreshold → Run TextureCache
expire_old_entries c kind threshold =
    expire_loop (length (handles_of c.doc_data.handles kind)) c kind threshold

abbrev pub set_expiration : TextureCache → TextureCache
set_expiration c = record c {
  doc_data = record c.doc_data { last_shared_cache_expiration = c.now };
}

unfoldable pub expire_and_stamp : TextureCache → EvictionThreshold → Run TextureCache
expire_and_stamp c threshold = do
  c' ← expire_old_entries c shared_kind threshold
  done (set_expiration c')

-- The answer, and the cache after it.
unfoldable pub maybe_expire_old_shared_entries :
    TextureCache → EvictionThreshold → Run (TextureCache × Bool)
maybe_expire_old_shared_entries c threshold = do
  c' ←
      if ltb c.doc_data.last_shared_cache_expiration.id c.now.id
      then expire_and_stamp c threshold
      else done c
  done (
    c',
    not (length c'.doc_data.handles.shared_handles == length c.doc_data.handles.shared_handles),
  )
