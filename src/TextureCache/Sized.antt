-- ===== src/TextureCache/Sized.antt =====
-- The allocation of an entry of the texture cache (webrender/src/texture_cache.rs): its size.
use webrender.Prelude.{
  ℕ, ◌≡◌, refl, ap, subst, inl, inr, Option, none, some, Bool, true, false, ◌&&◌, Run, done, panic,
  >>=-eq-done, unwrap, ltb, Bool-cases,
}
use webrender.Prelude.I32.{gt_i32}
use webrender.TextureCache.Entries.{EntryDetails, CacheEntry, CacheAllocParams, new_entry}
use webrender.TextureCache.Arrays.{
  TextureArray, select, Selected, array_at, alloc_in_array, alloc_loop, alloc_rest, entry_of,
  push_region,
}
use webrender.TextureCache.Updates.{push_realloc}
use webrender.TextureCache.Regions.{new_slab_size}
use webrender.RenderTargets.{assert}
use webrender.FrameStamp.{FrameStamp}
use webrender.TextureCache.Caches.{TextureCache, maybe_expire_old_shared_entries}
use webrender.TextureCache.Allocation.{
  initialize_array, allocate_from_shared_cache, is_allowed_in_shared_cache,
  allocate_standalone_entry, retry_threshold, retry_shared, expect_entry, allocate_in_new_layer,
  allocate_fresh, allocate_retry, allocate_shared_entry, allocate_cache_entry,
}

-- The entry has the size that was asked for.
abbrev Sized : CacheAllocParams → CacheEntry → Type 0
Sized params e = e.size ≡ params.descriptor.size

abbrev SizedOption : CacheAllocParams → Option CacheEntry → Type 0
SizedOption params none = Unit
SizedOption params (some e) = Sized params e

-- Each step of the allocation gives an entry of that size.
second_of : Option CacheEntry → Run (TextureCache × Option CacheEntry) → Option CacheEntry
second_of o panic = o
second_of o (done r) = r.1

entry_of-Sized :
    (a : TextureArray) (params : CacheAllocParams) (now : FrameStamp) (o : Option EntryDetails)
    {r : Option CacheEntry}
    → entry_of a params now o ≡ done r
    → SizedOption params r
entry_of-Sized a params now none {r} h =
    let same : none ≡ r = cc in subst (SizedOption params) same tt
entry_of-Sized a params now (some details) {r} h =
    let (id, found, last) = >>=-eq-done (unwrap a.texture_id) _ h in
    let same : some (new_entry details id a.format a.filter now params) ≡ r = cc in
    subst (SizedOption params) same refl

alloc_in_array-Sized :
    (a : TextureArray) (params : CacheAllocParams) (now : FrameStamp)
    {r : TextureArray × Option CacheEntry}
    → alloc_in_array a params now ≡ done r
    → SizedOption params r.1
unfolding alloc_in_array
alloc_in_array-Sized a params now {r} h =
    let (s, sliced, more) = >>=-eq-done (new_slab_size params.descriptor.size) _ h in
    let (regions, empty_index, early) = alloc_loop s 0 none a.regions in
    let ((a', details), searched, rest) =
      >>=-eq-done (alloc_rest (record a { regions = regions }) s empty_index early) _ more in
    let (entry, made, last) = >>=-eq-done (entry_of a' params now details) _ rest in
    let same : (a', entry) ≡ r = cc in
    subst (λ r. SizedOption params r.1) same (entry_of-Sized a' params now details made)

allocate_from_shared_cache-Sized :
    (c : TextureCache) (params : CacheAllocParams) {r : TextureCache × Option CacheEntry}
    → allocate_from_shared_cache c params ≡ done r
    → SizedOption params r.1
unfolding allocate_from_shared_cache second_of
allocate_from_shared_cache-Sized c params {r} h =
    let (which, selected, more) = >>=-eq-done (select params.descriptor.format params.filter) _ h in
    let (c', ready, rest) =
      >>=-eq-done
        (initialize_array c params.descriptor.format which
          (array_at c.shared_textures which).texture_id)
        _ more in
    let ((a', entry), taken, last) =
      >>=-eq-done (alloc_in_array (array_at c'.shared_textures which) params c'.now) _ rest in
    subst (SizedOption params) (ap (λ o. second_of entry o) last)
      (alloc_in_array-Sized _ params c'.now taken)

expect_entry-Sized :
    (params : CacheAllocParams) (p : TextureCache × Option CacheEntry)
    {r : TextureCache × CacheEntry}
    → SizedOption params p.1
    → expect_entry p ≡ done r
    → Sized params r.1
expect_entry-Sized params (c, none) sized h = cc
expect_entry-Sized params (c, some e) {r} sized h =
    let same : (c, e) ≡ r = cc in subst (λ r. Sized params r.1) same sized

retry_shared-Sized :
    (c : TextureCache) (params : CacheAllocParams) (again : Bool)
    {r : TextureCache × Option CacheEntry}
    → retry_shared c params again ≡ done r
    → SizedOption params r.1
retry_shared-Sized c params false {r} h =
    let same : (c, none) ≡ r = cc in subst (λ r. SizedOption params r.1) same tt
retry_shared-Sized c params true h = allocate_from_shared_cache-Sized c params h

allocate_in_new_layer-Sized :
    (c : TextureCache) (params : CacheAllocParams) (which : Selected) (n : ℕ)
    {r : TextureCache × CacheEntry}
    → allocate_in_new_layer c params which n ≡ done r
    → Sized params r.1
unfolding allocate_in_new_layer
allocate_in_new_layer-Sized c params which n h =
    let (id, has_id, more) =
      >>=-eq-done (unwrap (array_at c.shared_textures which).texture_id) _ h in
    let (l, pushed, more2) = >>=-eq-done (push_realloc c.pending_updates id _) _ more in
    let (a', grown, more3) = >>=-eq-done (push_region (array_at c.shared_textures which)) _ more2 in
    let (p, taken, last) = >>=-eq-done (allocate_from_shared_cache _ params) _ more3 in
    expect_entry-Sized params p (allocate_from_shared_cache-Sized _ params taken) last

standalone-Sized :
    (c : TextureCache) (params : CacheAllocParams) {r : TextureCache × CacheEntry}
    → done (allocate_standalone_entry c params) ≡ done r
    → Sized params r.1
unfolding allocate_standalone_entry
standalone-Sized c params {r} h =
    let same : allocate_standalone_entry c params ≡ r = cc in
    subst (λ r. Sized params r.1) same refl

allocate_fresh-Sized :
    (c : TextureCache) (params : CacheAllocParams) (n : ℕ) (o : Option CacheEntry)
    {r : TextureCache × CacheEntry}
    → SizedOption params o
    → allocate_fresh c params n o ≡ done r
    → Sized params r.1
allocate_fresh-Sized c params n (some e) {r} sized h =
    let same : (c, e) ≡ r = cc in subst (λ r. Sized params r.1) same sized
allocate_fresh-Sized c params n none sized h =
    let (which, selected, more) = >>=-eq-done (select params.descriptor.format params.filter) _ h in
    elim (Bool-cases (ltb n c.max_texture_layers)) [
      | inl e ↦ allocate_in_new_layer-Sized c params which n (rw e at more)
      | inr e ↦ standalone-Sized c params (rw e at more)
    ]

module _ (pressure_scaled : ℕ → ℕ) where
  allocate_retry-Sized :
      (c : TextureCache) (params : CacheAllocParams) (o : Option CacheEntry)
      {r : TextureCache × CacheEntry}
      → SizedOption params o
      → allocate_retry pressure_scaled c params o ≡ done r
      → Sized params r.1
  allocate_retry-Sized c params (some e) {r} sized h =
      let same : (c, e) ≡ r = cc in subst (λ r. Sized params r.1) same sized
  allocate_retry-Sized c params none sized h =
      let (which, selected, more) =
        >>=-eq-done (select params.descriptor.format params.filter) _ h in
      let (t, built, more2) = >>=-eq-done (retry_threshold pressure_scaled c _) _ more in
      let ((c', expired), swept, more3) =
        >>=-eq-done (maybe_expire_old_shared_entries c t) _ more2 in
      let ((c'', entry), again, last) = >>=-eq-done (retry_shared c' params expired) _ more3 in
      allocate_fresh-Sized c'' params _ entry (retry_shared-Sized c' params expired again) last

  pub allocate_cache_entry-Sized :
      (c : TextureCache) (params : CacheAllocParams) {r : TextureCache × CacheEntry}
      → allocate_cache_entry pressure_scaled c params ≡ done r
      → r.1.size ≡ params.descriptor.size
  unfolding allocate_cache_entry allocate_shared_entry
  allocate_cache_entry-Sized c params {r} h =
      let (_, positive, more) =
        >>=-eq-done
          (assert (gt_i32 params.descriptor.size.width 0 && gt_i32 params.descriptor.size.height 0))
          _ h in
      elim (Bool-cases (is_allowed_in_shared_cache params.filter params.descriptor)) [
        | inl e ↦
            let shared : allocate_shared_entry pressure_scaled c params ≡ done r = rw e at more in
            let ((c', entry), taken, last) =
              >>=-eq-done (allocate_from_shared_cache c params) _ shared in
            allocate_retry-Sized c' params entry (allocate_from_shared_cache-Sized c params taken)
              last
        | inr e ↦ standalone-Sized c params (rw e at more)
      ]
