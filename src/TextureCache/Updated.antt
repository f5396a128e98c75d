-- ===== src/TextureCache/Updated.antt =====
-- `update` of the texture cache (webrender/src/texture_cache.rs): the entry that its handle leads to.
use webrender.Prelude.{
  ℕ, ◌≤◌, ◌≡◌, refl, sym, ap, subst, ◌∙◌, inl, inr, [], ◌∷◌, ◌++◌, Option, none, some, true, false,
  Run, done, panic, >>=-eq-done, done-injective, unwrap, Ensures_done, arith, Bool-cases, length,
  set, u32_mod, get_elem?-set_self, length-set, lt_of_get_elem?,
}
use webrender.TextureAllocator.{DeviceIntSize}
use webrender.FreeList.{
  FreeList, WeakFreeListHandle, Slot, UpsertResult, updated, inserted, weak, upsert, get_opt,
  get_opt_mut,
}
use webrender.FreeList.Freed.{get_opt-eq-some, get_opt_of_slot, get_opt_mut-of_slot, unwrap-eq-done}
use webrender.FreeList.Upserted.{upserted_at, upsert-get_opt}
use webrender.Images.{ImageDescriptor, DirtyRect, all, same_size, CachedImageData}
use webrender.GpuCache.Caches.{GpuCache, invalidate, GpuDataRequest}
use webrender.GpuCache.Caches
use webrender.TextureCache.Updates.{new_update}
use webrender.TextureCache.Entries.{
  EntryKind, kind_of, same_kind, CacheEntry, CacheAllocParams, GpuBlockData, update_gpu_cache,
  fill_request,
}
use webrender.TextureCache.Caches.{TextureCache, handles_of, set_doc_handles, free_entry}
use webrender.TextureCache.Allocation.{
  allocate, allocate_cache_entry, place_entry, move_if_needed, move_handle, take_handle, other_kind,
}
use webrender.TextureCache.Requests.{
  UpdateParams, must_realloc, reallocate, update_entry, write_entry, send_data, update,
}
use webrender.TextureCache.Expiry.{Untouched, free_entry-Untouched}
use webrender.TextureCache.Sized.{allocate_cache_entry-Sized}

entries_of : TextureCache → Run TextureCache → FreeList CacheEntry
entries_of c (done c') = c'.entries
entries_of c panic = c.entries

entry_or : CacheEntry → Run (Option CacheEntry) → CacheEntry
entry_or e (done (some e')) = e'
entry_or e (done none) = e
entry_or e panic = e

some-of : {a b : CacheEntry} → done (some a) ≡ done (some b) → a ≡ b
unfolding entry_or
some-of {a} h = ap (entry_or a) h

cache_of : TextureCache → Run (TextureCache × GpuCache GpuBlockData) → TextureCache
cache_of c (done p) = p.0
cache_of c panic = c

move_if_needed-entries :
    (c : TextureCache) (h : WeakFreeListHandle) (new_kind old_kind : EntryKind) {c' : TextureCache}
    → move_if_needed c h new_kind old_kind ≡ done c'
    → c'.entries ≡ c.entries
unfolding move_handle entries_of
move_if_needed-entries c h new_kind old_kind {c'} e =
    elim (Bool-cases (same_kind new_kind old_kind)) [
      | inl same ↦
          let stays : done c ≡ done c' = rw same at e in
          let is : c ≡ c' = cc in ap (λ d. d.entries) (sym is)
      | inr other ↦
          let moves : move_handle c h new_kind ≡ done c' = rw other at e in
          let ((taken, rest), found, last) =
            >>=-eq-done (take_handle h (handles_of c.doc_data.handles (other_kind new_kind))) _
              moves in
          ap (entries_of c) (sym last)
    ]

place_entry-entries :
    (c : TextureCache) (h : WeakFreeListHandle) (kind : EntryKind) (r : UpsertResult CacheEntry)
    {p : TextureCache × WeakFreeListHandle}
    → place_entry c h kind r ≡ done p
    → (p.0.entries ≡ c.entries) × (p.1 ≡ upserted_at h r)
place_entry-entries c h kind (updated old) {p} e =
    let (c1, moved, more) = >>=-eq-done (move_if_needed c h kind (kind_of old.details)) _ e in
    let (c2, freed, last) = >>=-eq-done (free_entry c1 old) _ more in
    let same : (c2, h) ≡ p = cc in
    let (entries, docs, now) = Ensures_done (Untouched c1) _ (free_entry-Untouched c1 old) freed in
    subst (λ p. (p.0.entries ≡ c.entries) × (p.1 ≡ h)) same
      (entries ∙ move_if_needed-entries c h kind (kind_of old.details) moved, refl)
place_entry-entries c h kind (inserted new) {p} e =
    let same : (set_doc_handles c kind (handles_of c.doc_data.handles kind ++ new ∷ []), weak new)
        ≡ p =
      cc in
    subst (λ p. (p.0.entries ≡ c.entries) × (p.1 ≡ weak new)) same (refl, refl)

module _ (pressure_scaled : ℕ → ℕ) where
  allocate-get_opt :
      (c : TextureCache) (params : CacheAllocParams) (h : WeakFreeListHandle)
      {p : TextureCache × WeakFreeListHandle}
      → allocate pressure_scaled c params h ≡ done p
      → length p.0.entries.slots ≤ u32_mod
      → (e : CacheEntry) × (get_opt p.0.entries p.1 ≡ done (some e))
        × (e.size ≡ params.descriptor.size)
  unfolding allocate
  allocate-get_opt c params h {p} run small =
      let ((c1, entry), made, more) =
        >>=-eq-done (allocate_cache_entry pressure_scaled c params) _ run in
      let ((entries, result), put, last) = >>=-eq-done (upsert c1.entries h entry) _ more in
      let (same_entries, same_handle) =
        place_entry-entries (record c1 { entries = entries }) h (kind_of entry.details) result
          last in
      let found =
        upsert-get_opt c1.entries h entry put
          (subst (λ fl. length fl.slots ≤ u32_mod) same_entries small) in
      (
        entry,
        (rw (same_entries, same_handle) found),
        allocate_cache_entry-Sized pressure_scaled c params made,
      )

pub same_size-eq : (a b : DeviceIntSize) → same_size a b ≡ true → a ≡ b
same_size-eq a b h = ground arith

send_data-entries :
    (c : TextureCache) (e : CacheEntry) (d : ImageDescriptor) (r : DirtyRect)
    (image : Option CachedImageData) {c' : TextureCache}
    → send_data c e d r image ≡ done c'
    → c'.entries ≡ c.entries
unfolding send_data entries_of
send_data-entries c e d r none h = ap (entries_of c) (sym h)
send_data-entries c e d r (some image) h =
    let (op, made, last) = >>=-eq-done (new_update image d _ _ _ _ r) _ h in
    ap (entries_of c) (sym last)

fill_request-rest :
    (to_f32 : ℕ → ℕ) (e : CacheEntry) (g : GpuCache GpuBlockData) (r : Option GpuDataRequest)
    {p : CacheEntry × GpuCache GpuBlockData}
    → fill_request to_f32 e g r ≡ done p
    → p.0 ≡ record e { uv_rect_handle = p.0.uv_rect_handle }
fill_request-rest to_f32 e g none {p} h =
    let same : (e, g) ≡ p = cc in
    subst (λ p. p.0 ≡ record e { uv_rect_handle = p.0.uv_rect_handle }) same refl
fill_request-rest to_f32 e g (some r) {p} h =
    let ((g', handle), dropped, last) = >>=-eq-done (Caches.drop_request _ r) _ h in
    let same : (record e { uv_rect_handle = handle }, g') ≡ p = cc in
    subst (λ p. p.0 ≡ record e { uv_rect_handle = p.0.uv_rect_handle }) same refl

pub write_entry-get_opt :
    (c : TextureCache) (h : WeakFreeListHandle) (e : CacheEntry) {old : CacheEntry}
    {c' : TextureCache}
    → get_opt c.entries h ≡ done (some old)
    → write_entry c h e ≡ done c'
    → (get_opt c'.entries h ≡ done (some e)) × (length c'.entries.slots ≡ length c.entries.slots)
unfolding write_entry entries_of
write_entry-get_opt c h e {old} {c'} found run =
    let (s, at_h, full, same) = get_opt-eq-some c.entries h found in
    let s' : Slot CacheEntry = record s { value = some e } in
    let fl : FreeList CacheEntry = record c.entries { slots = set c.entries.slots h.index s' } in
    let written : get_opt_mut c.entries h (λ _. e) ≡ done fl =
      get_opt_mut-of_slot c.entries h s (λ _. e) at_h full same in
    let is : fl ≡ c'.entries = ap (entries_of c) (rw written at run) in
    subst (λ l. (get_opt l h ≡ done (some e)) × (length l.slots ≡ length c.entries.slots)) is
      (
        get_opt_of_slot fl h s'
            (get_elem?-set_self c.entries.slots h.index s'
              (lt_of_get_elem? c.entries.slots h.index at_h))
            refl same,
        length-set c.entries.slots h.index s',
      )

-- The entry of `h` in `c'` after `update_entry`.
abbrev Written : WeakFreeListHandle → UpdateParams → TextureCache → CacheEntry → Type 0
Written h u c' e =
    (get_opt c'.entries h ≡ done (some e))
    × (e.eviction ≡ u.eviction)
    × (e.eviction_notice ≡ u.eviction_notice)

module _ (to_f32 pressure_scaled : ℕ → ℕ) where
  update_entry-Written :
      (c : TextureCache) (h : WeakFreeListHandle) (u : UpdateParams) (r : DirtyRect)
      (g : GpuCache GpuBlockData) {p : TextureCache × GpuCache GpuBlockData}
      → update_entry to_f32 pressure_scaled c h u r g ≡ done p
      → (old : CacheEntry) × (e : CacheEntry) × (get_opt c.entries h ≡ done (some old))
        × Written h u p.0 e
        × (e.size ≡ old.size)
        × (length p.0.entries.slots ≡ length c.entries.slots)
  unfolding update_entry update_gpu_cache cache_of
  update_entry-Written c h u r g {p} run =
      let (found, got, more) = >>=-eq-done (get_opt c.entries h) _ run in
      let (old, full, more2) = >>=-eq-done (unwrap found) _ more in
      let is_old : get_opt c.entries h ≡ done (some old) =
        got ∙ ap done (unwrap-eq-done found full) in
      let noticed : CacheEntry = record old {
        eviction_notice = u.eviction_notice;
        uv_rect_kind = u.params.uv_rect_kind;
      } in
      let ((filled, g'), pushed, more3) =
        >>=-eq-done (update_gpu_cache to_f32 noticed (invalidate g noticed.uv_rect_handle)) _
          more2 in
      let ((g1, req), asked, answered) =
        >>=-eq-done (Caches.request (invalidate g noticed.uv_rect_handle) noticed.uv_rect_handle) _
          pushed in
      let rest = fill_request-rest to_f32 noticed g1 req answered in
      let e : CacheEntry = record filled { eviction = u.eviction } in
      let (c1, written, more4) = >>=-eq-done (write_entry c h e) _ more3 in
      let (c2, sent, last) = >>=-eq-done (send_data c1 e u.params.descriptor r u.image) _ more4 in
      let same : c2 ≡ p.0 = ap (cache_of c) last in
      let (reads, sizes) = write_entry-get_opt c h e is_old written in
      let kept = send_data-entries c1 e u.params.descriptor r u.image sent in
      (
        old,
        e,
        is_old,
        subst (λ d. Written h u d e) same
            (ap (λ l. get_opt l h) kept ∙ reads, refl, ap (λ e. e.eviction_notice) rest),
        ap (λ e. e.size) rest,
        subst (λ d. length d.entries.slots ≡ length c.entries.slots) same
            (ap (λ l. length l.slots) kept ∙ sizes),
      )

  reallocate_needed-get_opt :
      (c : TextureCache) (h : WeakFreeListHandle) (params : CacheAllocParams) (r : DirtyRect)
      {p : TextureCache × WeakFreeListHandle × DirtyRect}
      → reallocate to_f32 pressure_scaled c h params r true ≡ done p
      → length p.0.entries.slots ≤ u32_mod
      → (e : CacheEntry) × (get_opt p.0.entries p.1 ≡ done (some e))
        × (e.size ≡ params.descriptor.size)
  unfolding reallocate
  reallocate_needed-get_opt c h params r {p} run small =
      let ((c', h'), allocated, last) = >>=-eq-done (allocate pressure_scaled c params h) _ run in
      let same : (c', h', all) ≡ p = cc in
      subst
        (λ p.
          (e : CacheEntry) × (get_opt p.0.entries p.1 ≡ done (some e))
          × (e.size ≡ params.descriptor.size))
        same
        (allocate-get_opt pressure_scaled c params h allocated
          (subst (λ p. length p.0.entries.slots ≤ u32_mod) (sym same) small))

  pub kept_size :
      (d : ImageDescriptor) (old : CacheEntry)
      → must_realloc d (some old) ≡ false
      → old.size ≡ d.size
  kept_size d old kept =
      same_size-eq old.size d.size (elim (Bool-cases (same_size old.size d.size)) [
        | inl e ↦ e
        | inr e ↦ let no : true ≡ false = rw e at kept in cc
      ])

  reallocate-get_opt :
      (c : TextureCache) (h : WeakFreeListHandle) (params : CacheAllocParams) (r : DirtyRect)
      (found : Option CacheEntry) {p : TextureCache × WeakFreeListHandle × DirtyRect}
      → get_opt c.entries h ≡ done found
      → reallocate to_f32 pressure_scaled c h params r (must_realloc params.descriptor found)
        ≡ done p
      → length p.0.entries.slots ≤ u32_mod
      → (e : CacheEntry) × (get_opt p.0.entries p.1 ≡ done (some e))
        × (e.size ≡ params.descriptor.size)
  unfolding reallocate
  reallocate-get_opt c h params r none got run small =
      reallocate_needed-get_opt c h params r run small
  reallocate-get_opt c h params r (some old) {p} got run small =
      elim (Bool-cases (must_realloc params.descriptor (some old))) [
        | inl needed ↦ reallocate_needed-get_opt c h params r (rw needed at run) small
        | inr kept ↦
            let stays : done (c, h, r) ≡ done p = rw kept at run in
            let same : (c, h, r) ≡ p = cc in
            subst
              (λ p.
                (e : CacheEntry) × (get_opt p.0.entries p.1 ≡ done (some e))
                × (e.size ≡ params.descriptor.size))
              same (old, got, kept_size params.descriptor old kept)
      ]

  update_entry-get_opt :
      (c : TextureCache) (h : WeakFreeListHandle) (u : UpdateParams) (r : DirtyRect)
      (g : GpuCache GpuBlockData) {p : TextureCache × GpuCache GpuBlockData}
      → (length c.entries.slots ≤ u32_mod
          → (e : CacheEntry) × (get_opt c.entries h ≡ done (some e))
            × (e.size ≡ u.params.descriptor.size))
      → update_entry to_f32 pressure_scaled c h u r g ≡ done p
      → length p.0.entries.slots ≤ u32_mod
      → (e : CacheEntry) × (get_opt p.0.entries h ≡ done (some e))
        × (e.size ≡ u.params.descriptor.size)
        × (e.eviction ≡ u.eviction)
        × (e.eviction_notice ≡ u.eviction_notice)
  update_entry-get_opt c h u r g {p} leads run small =
      let (old, e, was, (reads, evict, notice), size, count) = update_entry-Written c h u r g run in
      let (e1, resolves, fits) = leads (subst (λ n. n ≤ u32_mod) count small) in
      let is : old ≡ e1 = some-of (sym was ∙ resolves) in
      (e, reads, size ∙ ap (λ e. e.size) is ∙ fits, evict, notice)

  -- When `update` returns, with at most 2^32 slots in the free list of the entries, the handle that it
  -- writes leads to an entry with the size of the image, and the eviction policy and notice given.
  pub update-get_opt :
      (c : TextureCache) (h : WeakFreeListHandle) (u : UpdateParams) (r : DirtyRect)
      (g : GpuCache GpuBlockData) {p : TextureCache × WeakFreeListHandle × GpuCache GpuBlockData}
      → update to_f32 pressure_scaled c h u r g ≡ done p
      → length p.0.entries.slots ≤ u32_mod
      → (e : CacheEntry) × (get_opt p.0.entries p.1 ≡ done (some e))
        × (e.size ≡ u.params.descriptor.size)
        × (e.eviction ≡ u.eviction)
        × (e.eviction_notice ≡ u.eviction_notice)
  unfolding update
  update-get_opt c h u r g {p} run small =
      let (found, got, more) = >>=-eq-done (get_opt c.entries h) _ run in
      let ((c1, h1, r1), ready, more2) =
        >>=-eq-done
          (reallocate to_f32 pressure_scaled c h u.params r
            (must_realloc u.params.descriptor found))
          _ more in
      let ((c2, g2), sent, last) =
        >>=-eq-done (update_entry to_f32 pressure_scaled c1 h1 u r1 g) _ more2 in
      let same : (c2, h1, g2) ≡ p = done-injective last in
      let few : length c2.entries.slots ≤ u32_mod =
        subst (λ p. length p.0.entries.slots ≤ u32_mod) (sym same) small in
      let (e, reads, size, evict, notice) =
        update_entry-get_opt c1 h1 u r1 g (reallocate-get_opt c h u.params r found got ready) sent
          few in
      (e, subst (λ p. get_opt p.0.entries p.1 ≡ done (some e)) same reads, size, evict, notice)
