-- ===== src/TextureCache/Disjoint.antt =====
-- `alloc` of a `TextureArray` (webrender/src/texture_cache.rs): the rectangles of the slots in use.
use webrender.Prelude.{
  ℕ, ◌+◌, ◌/◌, ◌≤◌, ◌<◌, ◌≡◌, ◌≢◌, ◌⊎◌, subst, inl, inr, List, ◌∷◌, none, some, false, done, arith,
  ==-cases, Bool-cases, get_elem?,
}
use webrender.FrameStamp.{FrameStamp}
use webrender.TextureCache.Regions.{SlabSize, new_slab_size, TextureLocation, TextureRegion}
use webrender.TextureCache.Entries.{EntryDetails, cache, CacheAllocParams, new_entry}
use webrender.TextureCache.Arrays.{TextureArray, alloc_in_array}
use webrender.TextureCache.Slabs.{IsSide, Fits, InRange, slot_at, slots-Apart}
use webrender.TextureCache.Slots.{same_location, count}
use webrender.TextureCache.Owned.{Owned, point_of, live-in_grid}
use webrender.TextureCache.Search.{Live, NoneEmpty}
use webrender.TextureCache.Layers.{ArrayOk, ArrayOk-layer, set_live}
use webrender.TextureCache.Placement.{Placed, alloc_in_array-Placed}

-- Two rectangles of the size of a slab, at the points of two slots, share no pixel.
abbrev pub Disjoint : SlabSize → TextureLocation → TextureLocation → Type 0
Disjoint s j k =
    ((point_of s j).x + s.width ≤ (point_of s k).x)
    ⊎ ((point_of s k).x + s.width ≤ (point_of s j).x)
    ⊎ ((point_of s j).y + s.height ≤ (point_of s k).y)
    ⊎ ((point_of s k).y + s.height ≤ (point_of s j).y)

abbrev pub Inside : SlabSize → TextureLocation → Type 0
Inside s k = ((point_of s k).x + s.width ≤ 512) × ((point_of s k).y + s.height ≤ 512)

live-Owned :
    (a : TextureArray) (live : Live) (k : ℕ) (r : TextureRegion) (slot : TextureLocation)
    → ArrayOk a live
    → get_elem? a.regions k ≡ some r
    → 1 ≤ count slot (live k)
    → Owned r (live k)
unfolding count
live-Owned a live k r slot ok at_k here =
    elim (ArrayOk-layer a live k ok at_k).1 as (λ x. Owned r (live k)) [
      | inl (slab, free, none_live) ↦ ground (arith, subst (λ l. 1 ≤ count slot l) none_live here)
      | inr owned ↦ owned
    ]

apart-Disjoint :
    (s : SlabSize) (i j : TextureLocation)
    → IsSide s.width
    → IsSide s.height
    → i.x < 512 / s.width
    → i.y < 512 / s.height
    → j.x < 512 / s.width
    → j.y < 512 / s.height
    → same_location i j ≡ false
    → Disjoint s i j
apart-Disjoint s i j hw hh ix iy jx jy other =
    let (pix, fix, a1, a2) = slot_at i.x s.width hw ix in
    let (piy, fiy, b1, b2) = slot_at i.y s.height hh iy in
    let (pjx, fjx, c1, c2) = slot_at j.x s.width hw jx in
    let (pjy, fjy, d1, d2) = slot_at j.y s.height hh jy in
    elim (==-cases i.x j.x) [
      | inl e ↦
          let ne : i.y ≢ j.y = ground (arith, e, other) in
          elim (slots-Apart i.y j.y s.height hh ne) [
            | inl le ↦ inr (inr (inl (omega (arith, le, piy, pjy))))
            | inr le ↦ inr (inr (inr (omega (arith, le, piy, pjy))))
          ]
      | inr ne ↦ elim (slots-Apart i.x j.x s.width hw ne) [
        | inl le ↦ inl (omega (arith, le, pix, pjx))
        | inr le ↦ inr (inl (omega (arith, le, pix, pjx)))
      ]
    ]

-- In a well-formed array, two different live slots of a layer have rectangles that share no pixel, each
-- inside the region.
live-Disjoint :
    (a : TextureArray) (live : Live) (k : ℕ) (r : TextureRegion) (i j : TextureLocation)
    → ArrayOk a live
    → get_elem? a.regions k ≡ some r
    → 1 ≤ count i (live k)
    → 1 ≤ count j (live k)
    → same_location i j ≡ false
    → Disjoint r.slab_size i j
live-Disjoint a live k r i j ok at_k here there other =
    let owned = live-Owned a live k r i ok at_k here in
    let (ix, iy) = live-in_grid r (live k) i owned here in
    let (jx, jy) = live-in_grid r (live k) j owned there in
    apart-Disjoint r.slab_size i j owned.width_is_side owned.height_is_side ix iy jx jy other

live-Inside :
    (a : TextureArray) (live : Live) (k : ℕ) (r : TextureRegion) (i : TextureLocation)
    → ArrayOk a live
    → get_elem? a.regions k ≡ some r
    → 1 ≤ count i (live k)
    → Inside r.slab_size i
live-Inside a live k r i ok at_k here =
    let owned = live-Owned a live k r i ok at_k here in
    let (ix, iy) = live-in_grid r (live k) i owned here in
    let (px, fx, a1, a2) = slot_at i.x r.slab_size.width owned.width_is_side ix in
    let (py, fy, b1, b2) = slot_at i.y r.slab_size.height owned.height_is_side iy in
    (omega (arith, px, fx), omega (arith, py, fy))

-- An entry of a slab at a slot of a layer: its rectangle is inside the region and shares no pixel with those
-- of the slots that were live there.
pub record Given (a : TextureArray) (live : Live) (params : CacheAllocParams) (now : FrameStamp)
    (id : ℕ) (s : SlabSize) : Type 0 where
  pub after : TextureArray
  pub layer : ℕ
  pub slot : TextureLocation
  pub returns :
      alloc_in_array a params now
      ≡ done
          (after, some (new_entry (cache (point_of s slot) layer) id a.format a.filter now params))
  pub ok : ArrayOk after (set_live live layer (slot ∷ live layer))
  pub inside : Inside s slot
  pub apart : (k : TextureLocation) → 1 ≤ count k (live layer) → Disjoint s slot k

fresh-apart :
    (slot k : TextureLocation) (live : List TextureLocation)
    → count slot live ≡ 0
    → 1 ≤ count k live
    → same_location slot k ≡ false
fresh-apart slot k live fresh here = elim (Bool-cases (same_location slot k)) [
  | inr e ↦ e
  | inl e ↦
      let ex : slot.x ≡ k.x = ground (arith, e) in
      let ey : slot.y ≡ k.y = ground (arith, e) in
      let same : slot ≡ k = cc in
      absurd (omega (arith, subst (λ t. count t live ≡ 0) same fresh, here))
]

Placed-Given :
    (a : TextureArray) (live : Live) (params : CacheAllocParams) (now : FrameStamp) (id : ℕ)
    (s : SlabSize) (a' : TextureArray) (details : EntryDetails)
    → alloc_in_array a params now
      ≡ done (a', some (new_entry details id a.format a.filter now params))
    → Placed a a' live s details
    → Given a live params now id s
unfolding count
Placed-Given a live params now id s a' details taken p =
    let live' : Live = set_live live p.layer (p.slot ∷ live p.layer) in
    record {
      after = a';
      layer = p.layer;
      slot = p.slot;
      returns =
          subst
            (λ d.
              alloc_in_array a params now
              ≡ done (a', some (new_entry d id a.format a.filter now params)))
            p.details_is taken;
      ok = p.ok;
      inside =
          subst (λ t. Inside t p.slot) p.slab
            (live-Inside a' live' p.layer p.region p.slot p.ok p.at_layer (ground arith));
      apart = λ k here.
          subst (λ t. Disjoint t p.slot k) p.slab
            (live-Disjoint a' live' p.layer p.region p.slot k p.ok p.at_layer (ground arith)
              (ground (arith, here)) (fresh-apart p.slot k (live p.layer) p.fresh here));
    }

-- On a well-formed array with a texture, `alloc` returns for every size that fits a region, with a slab that
-- covers the size. Either it gives an entry of that slab whose rectangle lies inside the region and shares
-- no pixel with those of the slots in use in its layer, and the array is well formed with that slot in use
-- too; or it gives none, leaves the array alone, and no layer of it was empty.
pub alloc_in_array-Given :
    (a : TextureArray) (live : Live) (params : CacheAllocParams) (now : FrameStamp) (id : ℕ)
    → ArrayOk a live
    → a.texture_id ≡ some id
    → InRange params.descriptor.size
    → (s : SlabSize) × (new_slab_size params.descriptor.size ≡ done s)
      × Fits params.descriptor.size s
      × (Given a live params now id s
          ⊎ ((alloc_in_array a params now ≡ done (a, none)) × NoneEmpty a.regions))
alloc_in_array-Given a live params now id ok has_id range =
    let (s, sliced, fits, result) = alloc_in_array-Placed a live params now id ok has_id range in
    (
      s,
      sliced,
      fits,
      elim result [
        | inl (a', details, taken, same, placed) ↦
            inl (Placed-Given a live params now id s a' details taken placed)
        | inr missed ↦ inr missed
      ],
    )
