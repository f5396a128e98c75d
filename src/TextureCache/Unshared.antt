-- ===== src/TextureCache/Unshared.antt =====
-- The images for which the texture cache (webrender/src/texture_cache.rs) has no shared texture.
use webrender.Prelude.{ℕ, ◌≤◌, ◌≡◌, refl, true, false, not, ◌&&◌, panic, arith}
use webrender.Prelude.I32.{gt_i32, le_i32-leb}
use webrender.Images.{ImageFormat, r8, r16, bgra8, rgbaf32, rg8, rgbai32, rgba8, same_format}
use webrender.TextureCache.Updates.{TextureFilter, nearest, linear, trilinear}
use webrender.TextureCache.Arrays.{select}
use webrender.TextureCache.Entries.{CacheAllocParams}
use webrender.TextureCache.Slabs.{InRange}
use webrender.TextureCache.Caches.{TextureCache}
use webrender.TextureCache.Allocation.{
  is_allowed_in_shared_cache, allocate_cache_entry, allocate_shared_entry,
  allocate_from_shared_cache, is_nearest,
}

-- The pairs of a format and a filter that `is_allowed_in_shared_cache` lets through and `select` has no array
-- for.
abbrev pub Unshared : ImageFormat → TextureFilter → Type 0
Unshared rgba8 filter = ⊥
Unshared format trilinear = Unit
Unshared rgbaf32 linear = Unit
Unshared rg8 linear = Unit
Unshared rgbai32 linear = Unit
Unshared format filter = ⊥

select-Unshared :
    (format : ImageFormat) (filter : TextureFilter)
    → Unshared format filter
    → (select format filter ≡ panic)
      × (not (same_format format rgba8) && not (is_nearest filter && not (same_format format bgra8))
          ≡ true)
unfolding select
select-Unshared r8 nearest h = elim h [ ]
select-Unshared r8 linear h = elim h [ ]
select-Unshared r8 trilinear h = (refl, refl)
select-Unshared r16 nearest h = elim h [ ]
select-Unshared r16 linear h = elim h [ ]
select-Unshared r16 trilinear h = (refl, refl)
select-Unshared bgra8 nearest h = elim h [ ]
select-Unshared bgra8 linear h = elim h [ ]
select-Unshared bgra8 trilinear h = (refl, refl)
select-Unshared rgbaf32 nearest h = elim h [ ]
select-Unshared rgbaf32 linear h = (refl, refl)
select-Unshared rgbaf32 trilinear h = (refl, refl)
select-Unshared rg8 nearest h = elim h [ ]
select-Unshared rg8 linear h = (refl, refl)
select-Unshared rg8 trilinear h = (refl, refl)
select-Unshared rgbai32 nearest h = elim h [ ]
select-Unshared rgbai32 linear h = (refl, refl)
select-Unshared rgbai32 trilinear h = (refl, refl)
select-Unshared rgba8 nearest h = elim h [ ]
select-Unshared rgba8 linear h = elim h [ ]
select-Unshared rgba8 trilinear h = elim h [ ]

small-gt_i32 : (a : ℕ) → a ≤ 512 → gt_i32 a 512 ≡ false
unfolding gt_i32
small-gt_i32 a h = ground (arith, le_i32-leb a 512 (omega arith) (omega arith))

positive-gt_i32 : (a : ℕ) → 1 ≤ a → a ≤ 512 → gt_i32 a 0 ≡ true
unfolding gt_i32
positive-gt_i32 a h k = ground (arith, le_i32-leb a 0 (omega arith) (omega arith))

-- For an image that fits a region and is RG8, RGBAF32 or RGBAI32 with linear filtering, or anything but RGBA8
-- with trilinear filtering, `is_allowed_in_shared_cache` says that it may be shared, but the allocation of an
-- entry for it panics, in `select`.
pub allocate_cache_entry-Unshared :
    (pressure_scaled : ℕ → ℕ) (c : TextureCache) (params : CacheAllocParams)
    → InRange params.descriptor.size
    → Unshared params.descriptor.format params.filter
    → (is_allowed_in_shared_cache params.filter params.descriptor ≡ true)
      × (allocate_cache_entry pressure_scaled c params ≡ panic)
unfolding is_allowed_in_shared_cache allocate_cache_entry allocate_shared_entry
    allocate_from_shared_cache
allocate_cache_entry-Unshared pressure_scaled c params range unshared =
    let (no_array, allowed) = select-Unshared params.descriptor.format params.filter unshared in
    let w = small-gt_i32 params.descriptor.size.width range.1 in
    let h = small-gt_i32 params.descriptor.size.height range.3 in
    let w' = positive-gt_i32 params.descriptor.size.width range.0 range.1 in
    let h' = positive-gt_i32 params.descriptor.size.height range.2 range.3 in
    let is_allowed : is_allowed_in_shared_cache params.filter params.descriptor ≡ true =
      ground (arith, w, h, allowed) in
    (is_allowed, rw (w', h', is_allowed, no_array) refl)
