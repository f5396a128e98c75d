-- ===== src/TextureCache/Returns.antt =====
-- One eviction of a standalone entry of the texture cache (webrender/src/texture_cache.rs) returns, when its
-- texture is not freed yet.
use webrender.Prelude.{
  ℕ, ◌-◌, ◌≡◌, ◌≢◌, refl, ◌∙◌, List, Option, none, some, done, arith, length, get_elem?, set,
  drop_last, get_elem?_of_lt, lt_of_get_elem?,
}
use webrender.FreeList.{FreeListHandle}
use webrender.FreeList.Freed.{Holds, free-returns}
use webrender.TextureAllocator.{swap_remove}
use webrender.TextureCache.Updates.{
  TextureCacheAllocationKind, alloc, realloc, free, TextureUpdateList, find_kind, after_free,
  push_free,
}
use webrender.TextureCache.Kinds.{find_kind-append_ne, find_kind-remove_ne}
use webrender.TextureCache.Entries.{standalone, EntryKind, CacheEntry, notify}
use webrender.TextureCache.Caches.{
  TextureCache, handles_of, set_doc_handles, free_entry, evict_entry, evict_at,
}

-- The texture is not freed yet.
abbrev pub CanFree : Option TextureCacheAllocationKind → Type 0
CanFree none = Unit
CanFree (some (alloc info)) = Unit
CanFree (some (realloc info)) = Unit
CanFree (some free) = ⊥

-- The list with what is pending for one texture only changed.
abbrev pub OthersSame : TextureUpdateList → TextureUpdateList → ℕ → Type 0
OthersSame l l' id = (j : ℕ) → id ≢ j → find_kind j l'.allocations ≡ find_kind j l.allocations

after_free-returns :
    (l0 l : TextureUpdateList) (id : ℕ) (o : Option TextureCacheAllocationKind)
    → CanFree o
    → OthersSame l0 l id
    → (l' : TextureUpdateList) × (after_free l id o ≡ done l') × OthersSame l0 l' id
after_free-returns l0 l id none can same = (
  _,
  refl,
  λ j ne. find_kind-append_ne j l.allocations (record { id = id; kind = free }) ne ∙ same j ne,
)
after_free-returns l0 l id (some (alloc info)) can same = (l, refl, same)
after_free-returns l0 l id (some (realloc info)) can same = (
  _,
  refl,
  λ j ne. find_kind-append_ne j l.allocations (record { id = id; kind = free }) ne ∙ same j ne,
)
after_free-returns l0 l id (some free) can same = elim can [ ]

pub push_free-returns :
    (l : TextureUpdateList) (id : ℕ)
    → CanFree (find_kind id l.allocations)
    → (l' : TextureUpdateList) × (push_free l id ≡ done l') × OthersSame l l' id
unfolding push_free
push_free-returns l id can =
    after_free-returns l _ id (find_kind id l.allocations) can
      (λ j ne. find_kind-remove_ne j id l.allocations ne)

swap_remove-returns :
    (hs : List FreeListHandle) (i : ℕ) {h : FreeListHandle}
    → get_elem? hs i ≡ some h
    → (rest : List FreeListHandle) × (swap_remove hs i ≡ done (h, rest))
unfolding swap_remove
swap_remove-returns hs i {h} at_i =
    let inside = lt_of_get_elem? hs i at_i in
    let (last, at_last) = get_elem?_of_lt hs (length hs - 1) (omega (arith, inside)) in
    (drop_last (set hs i last), rw (at_i, at_last) refl)

free_entry-standalone :
    (c : TextureCache) (e : CacheEntry)
    → e.details ≡ standalone
    → CanFree (find_kind e.texture_id c.pending_updates.allocations)
    → (c' : TextureCache) × (free_entry c e ≡ done c')
      × OthersSame c.pending_updates c'.pending_updates e.texture_id
unfolding free_entry
free_entry-standalone c e alone can =
    let (l, pushed, same) = push_free-returns c.pending_updates e.texture_id can in
    (record c { pending_updates = l }, rw (alone, pushed) refl, same)

pub evict_at-returns :
    (c : TextureCache) (kind : EntryKind) (i : ℕ) (h : FreeListHandle) (e : CacheEntry)
    → get_elem? (handles_of c.doc_data.handles kind) i ≡ some h
    → Holds c.entries h.index e
    → e.details ≡ standalone
    → CanFree (find_kind e.texture_id c.pending_updates.allocations)
    → (c' : TextureCache) × (evict_at c kind i ≡ done c')
      × OthersSame c.pending_updates c'.pending_updates e.texture_id
unfolding evict_at evict_entry
evict_at-returns c kind i h e at_i holds alone can =
    let (rest, swapped) = swap_remove-returns (handles_of c.doc_data.handles kind) i at_i in
    let (entries, freed) = free-returns c.entries h holds in
    let (c', done_it, same) =
      free_entry-standalone
        (record (set_doc_handles c kind rest) {
          entries = entries;
          notices = notify c.notices e.eviction_notice;
        })
        e alone can in
    (c', rw (swapped, freed) done_it, same)
