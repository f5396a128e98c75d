-- ===== src/TextureCache/Expiry.antt =====
-- What the eviction of the texture cache (webrender/src/texture_cache.rs) does to the entries:
-- `expire_old_entries` frees the expired entries of its list and no others.
use webrender.Prelude.{
  ℕ, ◌-◌, ◌<◌, ◌≡◌, ◌≢◌, ◌⊎◌, refl, sym, ap, subst, inl, inr, ◌∙◌, List, some, true, false, Run,
  done, panic, >>=-eq-done, index_at, index_at-eq-done, arith, Bool-cases, Ensures, Ensures-bind,
  Ensures_done, length, get_elem?, set, drop_last, get_elem?-set_ne, get_elem?-drop_last,
  length-set, lt_of_get_elem?,
}
use webrender.FreeList
use webrender.FreeList.{FreeList, FreeListHandle, WeakFreeListHandle, Slot, weak, get, get_opt}
use webrender.FreeList.Freed.{Holds, Vacant, get-Holds, Holds-unique, free-eq-done}
use webrender.TextureAllocator.{swap_remove}
use webrender.TextureCache.Arrays.{select, free_in_array}
use webrender.TextureCache.Updates.{push_free}
use webrender.TextureCache.Entries.{
  standalone, cache, EntryKind, standalone_kind, shared_kind, CacheEntry, EvictionThreshold,
}
use webrender.TextureCache.Caches.{
  EntryHandles, TextureCache, handles_of, set_handles, free_entry, evict_entry, is_expired,
  evict_at, expire_one,
}

-- The rest of the state that a freed entry leaves alone.
abbrev pub Untouched : TextureCache → TextureCache → Type 0
Untouched c c' = (c'.entries ≡ c.entries) × (c'.doc_data ≡ c.doc_data) × (c'.now ≡ c.now)

pub free_entry-Untouched :
    (c : TextureCache) (entry : CacheEntry) → Ensures (Untouched c) (free_entry c entry)
unfolding free_entry
free_entry-Untouched c entry =
    elim entry.details
      as (λ d. Ensures (Untouched c) (free_entry c (record entry { details = d }))) [
        | standalone ↦
            Ensures-bind _ (push_free c.pending_updates entry.texture_id) _
              (λ u e. (refl, refl, refl))
        | cache origin layer_index ↦ Ensures-bind _ (select entry.format entry.filter) _ (λ which e.
            Ensures-bind _ (index_at _ layer_index) _ (λ region e'.
              Ensures-bind _ (free_in_array _ layer_index region origin) _
                (λ a e''. (refl, refl, refl))))
      ]

snd_of : List FreeListHandle → Run (FreeListHandle × List FreeListHandle) → List FreeListHandle
snd_of hs (done r) = r.1
snd_of hs panic = hs

swap_remove-eq-done :
    (hs : List FreeListHandle) (i : ℕ) {h : FreeListHandle} {rest : List FreeListHandle}
    → swap_remove hs i ≡ done (h, rest)
    → (get_elem? hs i ≡ some h) × ((j : ℕ) → j < i → get_elem? rest j ≡ get_elem? hs j)
unfolding swap_remove snd_of
swap_remove-eq-done hs i {h} {rest} e =
    let (removed, found, rest_eq) = >>=-eq-done (index_at hs i) _ e in
    let at_i = index_at-eq-done hs i found in
    let (last, last_found, fin) = >>=-eq-done (index_at hs (length hs - 1)) _ rest_eq in
    let same : removed ≡ h = cc in
    let after : drop_last (set hs i last) ≡ rest = ap (snd_of hs) fin in
    let inside = lt_of_get_elem? hs i at_i in
    (
      at_i ∙ ap some same,
      λ j lt.
          subst (λ l. get_elem? l j ≡ get_elem? hs j) after
            (get_elem?-drop_last (set hs i last) j (omega (arith, length-set hs i last, lt, inside))
              ∙ get_elem?-set_ne hs i j last (omega (arith, lt))),
    )

handles_of-set_handles :
    (hs : EntryHandles) (kind : EntryKind) (l : List FreeListHandle)
    → handles_of (set_handles hs kind l) kind ≡ l
handles_of-set_handles hs standalone_kind l = refl
handles_of-set_handles hs shared_kind l = refl

-- One eviction.
pub record Evicted (c c' : TextureCache) (kind : EntryKind) (i : ℕ) (entry : CacheEntry)
    : Type 0 where
  pub handle : FreeListHandle
  pub at_i : get_elem? (handles_of c.doc_data.handles kind) i ≡ some handle
  pub held : Holds c.entries handle.index entry
  pub vacant : Vacant c'.entries handle.index
  pub others :
      (j : ℕ) → j ≢ handle.index → get_elem? c'.entries.slots j ≡ get_elem? c.entries.slots j
  pub earlier :
      (j : ℕ)
      → j < i
      → get_elem? (handles_of c'.doc_data.handles kind) j
        ≡ get_elem? (handles_of c.doc_data.handles kind) j
  pub same_now : c'.now ≡ c.now

pub evict_at-Evicted :
    (c c' : TextureCache) (kind : EntryKind) (i : ℕ)
    → evict_at c kind i ≡ done c'
    → (entry : CacheEntry) × Evicted c c' kind i entry
unfolding evict_at evict_entry
evict_at-Evicted c c' kind i h =
    let ((handle, rest), swapped, more) =
      >>=-eq-done (swap_remove (handles_of c.doc_data.handles kind) i) _ h in
    let ((entries, entry), freed, last) = >>=-eq-done (FreeList.free c.entries handle) _ more in
    let (at_i, before) = swap_remove-eq-done (handles_of c.doc_data.handles kind) i swapped in
    let (held, vacant, others) = free-eq-done c.entries handle freed in
    let (same_entries, same_docs, same_now) =
      Ensures_done _ _ (free_entry-Untouched _ entry) last in
    (
      entry,
      record {
        handle = handle;
        at_i = at_i;
        held = held;
        vacant = subst (λ fl. Vacant fl handle.index) (sym same_entries) vacant;
        others =
            subst
              (λ fl.
                (j : ℕ) → j ≢ handle.index → get_elem? fl.slots j ≡ get_elem? c.entries.slots j)
              (sym same_entries) others;
        earlier = λ j lt.
            ap (λ d. get_elem? (handles_of d.handles kind) j) same_docs
            ∙ ap (λ l. get_elem? l j) (handles_of-set_handles c.doc_data.handles kind rest)
            ∙ before j lt;
        same_now = same_now;
      },
    )

-- One round: nothing happens, since the entry is not expired, or the entry is evicted, which is expired.
pub expire_one-cases :
    (c c' : TextureCache) (kind : EntryKind) (threshold : EvictionThreshold) (i : ℕ)
    → expire_one c kind threshold i ≡ done c'
    → ((c' ≡ c)
        × ((h : FreeListHandle) (e : CacheEntry)
            → get_elem? (handles_of c.doc_data.handles kind) i ≡ some h
            → Holds c.entries h.index e
            → is_expired c.now threshold e ≡ false))
      ⊎ ((entry : CacheEntry) × (is_expired c.now threshold entry ≡ true)
          × Evicted c c' kind i entry)
unfolding expire_one
expire_one-cases c c' kind threshold i run =
    let (handle, found, more) =
      >>=-eq-done (index_at (handles_of c.doc_data.handles kind) i) _ run in
    let (entry, got, last) = >>=-eq-done (get c.entries handle) _ more in
    let at_i = index_at-eq-done (handles_of c.doc_data.handles kind) i found in
    let held = get-Holds c.entries handle got in
    elim (Bool-cases (is_expired c.now threshold entry)) [
      | inr kept ↦ inl (
        (let stays : done c ≡ done c' = rw kept at last in cc),
        λ h e at_h holds.
            let same_handle : handle ≡ h = cc in
            let same : entry ≡ e =
              Holds-unique c.entries h.index
                (subst (λ g. Holds c.entries g.index entry) same_handle held) holds in
            subst (λ e. is_expired c.now threshold e ≡ false) same kept,
      )
      | inl expired ↦
          let evicted : evict_at c kind i ≡ done c' = rw expired at last in
          let (entry', e) = evict_at-Evicted c c' kind i evicted in
          let same_handle : handle ≡ e.handle = let at_e = e.at_i in cc in
          let same : entry' ≡ entry =
            Holds-unique c.entries e.handle.index e.held
              (subst (λ g. Holds c.entries g.index entry) same_handle held) in
          inr (entry', rw same expired, e)
    ]
