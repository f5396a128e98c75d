-- ===== src/TextureAllocator/Allocate.antt =====
-- `allocate` and `extend` of webrender/src/texture_allocator.rs.
use webrender.Prelude.{
  ℕ, ◌+◌, ◌-◌, ◌≤◌, ◌<◌, ◌≡◌, refl, ◌⊎◌, inl, inr, List, Option, none, some, false, ◌||◌, Run, done,
  arith, length, get_elem?, set, drop_last, All, All-get_elem?, All-set, length-set, ◌==◌,
}
use webrender.Prelude.I32.{i32_half}
use webrender.TextureAllocator.{
  DeviceIntPoint, DeviceIntSize, FreeRect, ArrayAllocationTracker, take_rect, allocate, extend,
  search_and_take, origin_point, find_index_of_best_rect,
}
use webrender.TextureAllocator.Bins.{IsInside, InBin, Inv, BinsFrom-get, BinsFrom-set}
use webrender.TextureAllocator.Cover.{
  covers_at, weigh_bins, weigh_bins-set, swap_remove_lem, swap_remove-weigh, drop_last-All,
}
use webrender.TextureAllocator.Find.{
  IsRequest, Fits, FindsPlace, TooSmall, find_index_of_best_rect_lem,
}
use webrender.TextureAllocator.Split.{split_guillotine_lem}

abbrev pub placed : ℕ → DeviceIntPoint → DeviceIntSize → FreeRect
placed slice origin size = record { slice = slice; rect = record { origin = origin; size = size } }

module _ (dims : ℕ → DeviceIntSize) where
  pub record Places (t : ArrayAllocationTracker) (size : DeviceIntSize)
      (r : Run (ArrayAllocationTracker × Option (ℕ × DeviceIntPoint))) : Type 0 where
    pub after : ArrayAllocationTracker
    pub slice : ℕ
    pub origin : DeviceIntPoint
    pub returns : r ≡ done (after, some (slice, origin))
    pub keeps : Inv dims after
    pub inside : IsInside dims (placed slice origin size)
    pub tiles :
        (s a b : ℕ)
        → weigh_bins (covers_at s a b) after.bins + covers_at s a b (placed slice origin size)
          ≡ weigh_bins (covers_at s a b) t.bins

  take_rect-Places :
      (t : ArrayAllocationTracker) (size : DeviceIntSize) (id i : ℕ) (bin : List FreeRect)
      (c : FreeRect)
      → Inv dims t
      → IsRequest size
      → get_elem? t.bins id ≡ some bin
      → get_elem? bin i ≡ some c
      → Fits size c
      → Places t size (take_rect t size id i)
  unfolding take_rect
  take_rect-Places t size id i bin c v ok at_id at_i fits =
      let (last, at_last, removed) = swap_remove_lem bin i c at_i in
      let rest = drop_last (set bin i last) in
      let in_bin = BinsFrom-get dims t.bins 0 id bin v.sorted at_id in
      let c_inside : IsInside dims c = (All-get_elem? (InBin dims (0 + id)) bin i in_bin at_i).0 in
      let last_in = All-get_elem? (InBin dims (0 + id)) bin (length bin - 1) in_bin at_last in
      let rest_in =
        drop_last-All (InBin dims (0 + id)) (set bin i last)
          (All-set (InBin dims (0 + id)) bin i last in_bin last_in) in
      let without : ArrayAllocationTracker = record { bins = set t.bins id rest } in
      let without-Inv : Inv dims without = record {
        three = omega (arith, length-set t.bins id rest, v.three);
        sorted = BinsFrom-set dims t.bins 0 id rest v.sorted rest_in;
      } in
      let (t', returns, v', tiles) =
        split_guillotine_lem dims without c size without-Inv c_inside ok fits in
      record {
        after = t';
        slice = c.slice;
        origin = c.rect.origin;
        returns = rw (at_id, removed, returns) refl;
        keeps = v';
        inside = record {
          pos_width = ok.pos_width;
          pos_height = ok.pos_height;
          right = omega (arith, c_inside.right, fits.0);
          bottom = omega (arith, c_inside.bottom, fits.1);
          small_width = c_inside.small_width;
          small_height = c_inside.small_height;
        };
        tiles = λ s a b. omega (
          arith,
          tiles s a b,
          weigh_bins-set (covers_at s a b) t.bins id bin rest at_id,
          swap_remove-weigh (covers_at s a b) bin i c last at_i at_last,
        );
      }

  allocate_found :
      (t : ArrayAllocationTracker) (size : DeviceIntSize)
      → Inv dims t
      → (ok : IsRequest size) (r : Option (ℕ × ℕ)) → find_index_of_best_rect t size ≡ done r
      → FindsPlace dims size ok t.bins r
      → Places t size (search_and_take t size)
        ⊎ ((search_and_take t size ≡ done (t, none)) × All (All (TooSmall size)) t.bins)
  unfolding search_and_take
  allocate_found t size v ok none found finds = inr (rw found refl, finds)
  allocate_found t size v ok (some (id, i)) found (bin, c, at_id, at_i, fits) =
      inl (rw found (take_rect-Places t size id i bin c v ok at_id at_i fits))

  not_empty :
      (size : DeviceIntSize) → IsRequest size → (size.width == 0 || size.height == 0) ≡ false
  not_empty size ok = ground arith

  -- A valid request never makes the allocator panic. Either it is placed inside a slice: the bins stay
  -- sorted, and the free points are those before without those of the placed rectangle, each counted
  -- as often as before. Or nothing changes, and every free rectangle is too small for it.
  pub allocate_lem :
      (t : ArrayAllocationTracker) (size : DeviceIntSize)
      → Inv dims t
      → (ok : IsRequest size)
      → Places t size (allocate t size)
        ⊎ ((allocate t size ≡ done (t, none)) × All (All (TooSmall size)) t.bins)
  unfolding allocate
  allocate_lem t size v ok =
      let (r, found, finds) = find_index_of_best_rect_lem dims size ok t v in
      rw (not_empty size ok) (allocate_found t size v ok r found finds)

  -- A new slice, whose first rectangle is the request at its origin.
  pub extend_lem :
      (t : ArrayAllocationTracker) (slice : ℕ) (size : DeviceIntSize)
      → Inv dims t
      → IsRequest size
      → size.width ≤ (dims slice).width
      → size.height ≤ (dims slice).height
      → (dims slice).width < i32_half
      → (dims slice).height < i32_half
      → (t' : ArrayAllocationTracker) × (extend t slice (dims slice) size ≡ done t')
        × Inv dims t'
        × ((s a b : ℕ)
            → weigh_bins (covers_at s a b) t'.bins
                + covers_at s a b (placed slice origin_point size)
              ≡ weigh_bins (covers_at s a b) t.bins
                + covers_at s a b (placed slice origin_point (dims slice)))
  unfolding extend
  extend_lem t slice size v ok fw fh sw sh =
      split_guillotine_lem dims t (placed slice origin_point (dims slice)) size v
        (record {
          pos_width = omega (arith, ok.pos_width);
          pos_height = omega (arith, ok.pos_height);
          right = omega arith;
          bottom = omega arith;
          small_width = sw;
          small_height = sh;
        })
        ok (fw, fh)
