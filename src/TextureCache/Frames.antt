-- ===== src/TextureCache/Frames.antt =====
-- The frames of `TextureCache` (webrender/src/texture_cache.rs): its construction, `begin_frame` with the
-- reclaim of shared memory, `end_frame`, and the clearing. The map of the documents is an association list.
use webrender.Prelude.{
  ℕ, ◌-◌, ◌*◌, List, [], ◌∷◌, Option, none, some, Bool, true, false, ◌&&◌, Run, done, ◌>>=◌, leb,
  if◌then◌else◌,
}
use webrender.FrameStamp.{
  DocumentId, same_document, FrameStamp, stamp_invalid, stamp_first, stamp_advance,
}
use webrender.FreeList.{FreeListHandle, new}
use webrender.TextureCache.Updates.{TextureUpdateList, new_update_list}
use webrender.TextureCache.Arrays.{
  new_shared, size_in_bytes, empty_region_bytes, clear_shared_textures,
}
use webrender.TextureCache.Entries.{
  EntryKind, standalone_kind, shared_kind, min_usize, new_builder, with_max_frames, with_max_time_s,
  build_threshold,
}
use webrender.TextureCache.Caches.{
  PerDocumentData, new_document_data, handles_of, set_handles, TextureCache, has_flag, evict_entry,
  expire_old_entries, maybe_expire_old_shared_entries,
}
use webrender.TextureCache.Allocation.{default_eviction}

-- `TextureCache::new`. Whether the target is macOS is an argument.
unfoldable pub new_cache : Bool → ℕ → ℕ → TextureCache
new_cache is_macos max_texture_size max_texture_layers = record {
  shared_textures = new_shared;
  reached_reclaim_threshold = none;
  entries = new;
  max_texture_size = max_texture_size;
  max_texture_layers = if is_macos then min_usize max_texture_layers 32 else max_texture_layers;
  debug_flags = 0;
  next_id = 1;
  pending_updates = new_update_list;
  now = stamp_invalid;
  per_doc_data = [];
  doc_data = new_document_data;
  notices = λ i. false;
}

abbrev pub set_debug_flags : TextureCache → ℕ → TextureCache
set_debug_flags c flags = record c { debug_flags = flags }

-- `TEXTURE_CACHE_DBG_DISABLE_SHRINK`
abbrev pub disables_shrink : TextureCache → Bool
disables_shrink c = has_flag c.debug_flags 16

-- The `match` on a key of the map: what it holds, and the map without it.
unfoldable pub remove_document :
    DocumentId
    → List (DocumentId × PerDocumentData)
    → Option PerDocumentData × List (DocumentId × PerDocumentData)
remove_document d [] = (none, [])
remove_document d ((e, data_of_e) ∷ rest) = elim (same_document e d) [
  | true ↦ (some data_of_e, rest)
  | false ↦ let (found, rest') = remove_document d rest in (found, (e, data_of_e) ∷ rest')
]

-- `insert` of the map.
unfoldable pub insert_document :
    DocumentId
    → PerDocumentData
    → List (DocumentId × PerDocumentData)
    → List (DocumentId × PerDocumentData)
insert_document d data_of_d [] = (d, data_of_d) ∷ []
insert_document d data_of_d ((e, data_of_e) ∷ rest) = elim (same_document e d) [
  | true ↦ (e, data_of_d) ∷ rest
  | false ↦ (e, data_of_e) ∷ insert_document d data_of_d rest
]

abbrev pub or_new_data : Option PerDocumentData → PerDocumentData
or_new_data none = new_document_data
or_new_data (some found) = found

unfoldable pub set_doc_data : TextureCache → TextureCache
set_doc_data c =
    let (found, rest) = remove_document c.now.document_id c.per_doc_data in
    record c { doc_data = or_new_data found; per_doc_data = rest }

unfoldable pub unset_doc_data : TextureCache → TextureCache
unset_doc_data c = record c {
  per_doc_data = insert_document c.now.document_id c.doc_data c.per_doc_data;
  doc_data = new_document_data;
}

unfoldable pub evict_handles : TextureCache → List FreeListHandle → Run TextureCache
evict_handles c [] = done c
evict_handles c (h ∷ hs) = do c' ← evict_entry c h; evict_handles c' hs

-- The loop over the documents: the cache, and the documents after it.
unfoldable pub clear_documents :
    EntryKind
    → TextureCache
    → List (DocumentId × PerDocumentData)
    → Run (TextureCache × List (DocumentId × PerDocumentData))
clear_documents kind c [] = done (c, [])
clear_documents kind c ((d, doc_data) ∷ rest) = do
  c' ← evict_handles c (handles_of doc_data.handles kind)
  (c'', rest') ← clear_documents kind c' rest
  done (c'', (d, record doc_data { handles = set_handles doc_data.handles kind [] }) ∷ rest')

unfoldable pub clear_kind : EntryKind → TextureCache → Run TextureCache
clear_kind kind c = do
  (c', per_doc_data) ← clear_documents kind (record c { per_doc_data = [] }) c.per_doc_data
  done (record c' { per_doc_data = per_doc_data })

unfoldable pub clear_standalone : TextureCache → Run TextureCache
clear_standalone c = if disables_shrink c then done c else clear_kind standalone_kind c

-- `clear_shared` after its test of the flags.
unfoldable pub clear_shared_documents : TextureCache → Run TextureCache
clear_shared_documents c = do
  c' ← clear_kind shared_kind (unset_doc_data c)
  (shared, updates) ← clear_shared_textures c'.shared_textures c'.pending_updates
  done (set_doc_data (record c' { shared_textures = shared; pending_updates = updates }))

unfoldable pub clear_shared : TextureCache → Run TextureCache
clear_shared c = if disables_shrink c then done c else clear_shared_documents c

unfoldable pub clear : TextureCache → Run TextureCache
clear c = do c' ← clear_standalone c; clear_shared c'

abbrev pub reclaim_threshold_bytes : ℕ
reclaim_threshold_bytes = 5 * 1024 * 1024

-- Five seconds, in nanoseconds.
abbrev pub five_seconds : ℕ
five_seconds = 5 * 1000000000

abbrev pub or_insert : Option ℕ → ℕ → Option ℕ
or_insert none t = some t
or_insert (some s) t = some s

-- The shared cache is cleared when the threshold was reached long enough ago.
abbrev pub reclaim_since : TextureCache → Option ℕ → Run TextureCache
reclaim_since c none = done c
reclaim_since c (some t) =
    if leb five_seconds (c.now.time - t)
    then (clear_shared c >>= λ c'. done (record c' { reached_reclaim_threshold = none }))
    else done c

module _ (pressure_scaled : ℕ → ℕ) where
  unfoldable pub periodic_gc : TextureCache → Run TextureCache
  periodic_gc c = do
    threshold ←
        build_threshold pressure_scaled (with_max_time_s 10 (with_max_frames 1 (new_builder c.now)))
    (c', expired) ← maybe_expire_old_shared_entries c threshold
    done c'

  -- Times are subtracted as `duration_since` with the default of zero does.
  abbrev pub needs_periodic_gc : TextureCache → Bool
  needs_periodic_gc c =
      leb five_seconds (c.now.time - c.doc_data.last_shared_cache_expiration.time)
      && leb (reclaim_threshold_bytes * 2) (size_in_bytes c.shared_textures)

  unfoldable pub maybe_reclaim_shared_cache_memory : TextureCache → Run TextureCache
  maybe_reclaim_shared_cache_memory c = do
    c' ← if needs_periodic_gc c then periodic_gc c else done c
    let reached =
        if leb reclaim_threshold_bytes (empty_region_bytes c'.shared_textures)
        then or_insert c'.reached_reclaim_threshold c'.now.time
        else none
    reclaim_since (record c' { reached_reclaim_threshold = reached }) reached

  unfoldable pub begin_frame : TextureCache → FrameStamp → Run TextureCache
  begin_frame c stamp = maybe_reclaim_shared_cache_memory (set_doc_data (record c { now = stamp }))

  unfoldable pub end_frame : TextureCache → Run TextureCache
  end_frame c = do
    threshold ← default_eviction pressure_scaled c
    c' ← expire_old_entries c standalone_kind threshold
    done (record (unset_doc_data c') { now = stamp_invalid })

  -- `new_for_testing`; the two times are those of the calls of `SystemTime::now`.
  unfoldable pub new_for_testing : Bool → ℕ → ℕ → ℕ → ℕ → Run TextureCache
  new_for_testing is_macos max_texture_size max_texture_layers first_time second_time = do
    let c = new_cache is_macos max_texture_size max_texture_layers
    begin_frame c
        (stamp_advance second_time (stamp_first first_time (record { namespace_id = 1; id = 1 })))

abbrev pub take_updates : TextureCache → TextureUpdateList × TextureCache
take_updates c = (c.pending_updates, record c { pending_updates = new_update_list })
