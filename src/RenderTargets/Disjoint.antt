-- ===== src/RenderTargets/Disjoint.antt =====
-- What `RenderTargetList::allocate` (webrender/src/tiling.rs) promises: tasks are placed inside their
-- targets, and no two of them overlap.
use webrender.Prelude.{
  ℕ, ◌+◌, ◌-◌, ◌%◌, ◌≤◌, ◌<◌, max, ◌≡◌, refl, sym, subst, ◌∙◌, inl, inr, List, [], ◌∷◌, ◌++◌, none,
  true, false, ◌⊎◌, All-append, All-map, All-get_elem?, Run, done, ◌>>=◌, arith, length,
  get_elem?_of_lt, set, All, length-append, length-set, u32_mod,
}
use webrender.Prelude.I32.{i32_half, le_i32, le_i32-leb, add_i32-eq}
use webrender.TextureAllocator
use webrender.TextureAllocator.{
  DeviceIntPoint, DeviceIntSize, DeviceIntRect, FreeRect, ArrayAllocationTracker, origin_point,
}
use webrender.TextureAllocator.Allocate.{placed, Places, allocate_lem, extend_lem}
use webrender.TextureAllocator.Bins.{IsInside, Inv}
use webrender.TextureAllocator.Cover.{covers_at, weigh, weigh_bins}
use webrender.TextureAllocator.Find.{IsRequest}
use webrender.RenderTargets.{
  RenderTargetList, round_dimension, allocator_dimensions, allocate, record_use,
  is_empty_or_negative, ideal_max_texture_dimension, new,
}
use webrender.RenderTargets.Tiled.{
  Tiled, dims_of, dims_of-append_length, IsInside-lt, Inv-append_size, covers_at-append_size,
  new-Tiled,
}

round_dimension_lem :
    (d : ℕ)
    → d + 255 < i32_half
    → (max d ideal_max_texture_dimension ≤ round_dimension d) × (round_dimension d < i32_half)
unfolding round_dimension
round_dimension_lem d h = rw (add_i32-eq d 255 h) (
    ground (
      arith,
      le_i32-leb ideal_max_texture_dimension (d + 255 - (d + 255) % 256) (omega arith)
          (omega arith),
    ))

not_empty_or_negative : (size : DeviceIntSize) → IsRequest size → is_empty_or_negative size ≡ false
not_empty_or_negative size ok = ground (
  arith,
  le_i32-leb size.width 0 ok.small_width (omega arith),
  le_i32-leb size.height 0 ok.small_height (omega arith),
)

-- The sides of a task are at most `max_dynamic_size`, or the ideal maximum.
pub record IsAllowed (limit size : DeviceIntSize) : Type 0 where
  pub valid : IsRequest size
  pub fits_width : size.width ≤ max limit.width ideal_max_texture_dimension
  pub fits_height : size.height ≤ max limit.height ideal_max_texture_dimension
  pub room_width : limit.width + 255 < i32_half
  pub room_height : limit.height + 255 < i32_half

module _ {ℓ} {T : Type ℓ} (new_target : DeviceIntSize → T) (add_used : T → DeviceIntRect → T) where
  pub record Allocates (l : RenderTargetList T) (before : List DeviceIntSize) (used : List FreeRect)
      (size : DeviceIntSize) (r : Run (RenderTargetList T × ℕ × DeviceIntPoint)) : Type ℓ where
    pub after : RenderTargetList T
    pub sizes : List DeviceIntSize
    pub slice : ℕ
    pub origin : DeviceIntPoint
    pub returns : r ≡ done (after, slice, origin)
    pub keeps : Tiled after sizes (placed slice origin size ∷ used)
    pub inside : IsInside (dims_of sizes) (placed slice origin size)
    pub limit : after.max_dynamic_size ≡ l.max_dynamic_size
    pub grows : length after.targets ≤ length l.targets + 1
    pub slices : (sizes ≡ before) ⊎ (sizes ≡ before ++ allocator_dimensions l.max_dynamic_size ∷ [])

  -- The end of `allocate`, where the slice is one of the targets.
  record_use-done :
      (l : RenderTargetList T) (slice : ℕ) (origin : DeviceIntPoint) (size : DeviceIntSize)
      → IsRequest size
      → slice < length l.targets
      → (targets : List T) × (record_use new_target add_used l slice origin size
          ≡ done (record l { targets = targets }, slice, origin))
        × (length targets ≡ length l.targets)
  unfolding record_use
  record_use-done l slice origin size ok h =
      let (target, at) = get_elem?_of_lt l.targets slice h in
      (
        set l.targets slice (add_used target (record { origin = origin; size = size })),
        rw (not_empty_or_negative size ok, at) refl,
        length-set l.targets slice _,
      )

  find_place-Allocates :
      (l : RenderTargetList T) (sizes : List DeviceIntSize) (used : List FreeRect)
      (size : DeviceIntSize)
      → Tiled l sizes used
      → IsRequest size
      → Places (dims_of sizes) l.alloc_tracker size (TextureAllocator.allocate l.alloc_tracker size)
      → Allocates l sizes used size (allocate new_target add_used l size)
  unfolding allocate
  find_place-Allocates l sizes used size v ok p =
      let l1 : RenderTargetList T = record l { alloc_tracker = p.after } in
      let (targets, recorded, same) =
        record_use-done l1 p.slice p.origin size ok
          (omega (arith, v.one_each, IsInside-lt sizes (placed p.slice p.origin size) p.inside)) in
      record {
        after = record l1 { targets = targets };
        sizes = sizes;
        slice = p.slice;
        origin = p.origin;
        returns = rw (p.returns) recorded;
        keeps = record {
          one_each = same ∙ v.one_each;
          sorted = p.keeps;
          tiles = λ s a b. omega (arith, v.tiles s a b, p.tiles s a b);
        };
        inside = p.inside;
        limit = refl;
        grows = omega (arith, same);
        slices = inl refl;
      }

  -- The arm for a failed allocation: its assertion holds, and the new slice has the next index.
  grow-done :
      (l : RenderTargetList T) (t : ArrayAllocationTracker) (n : ℕ) (size : DeviceIntSize)
      → IsAllowed l.max_dynamic_size size
      → length l.targets ≡ n
      → n < u32_mod
      → TextureAllocator.allocate l.alloc_tracker size ≡ done (l.alloc_tracker, none)
      → TextureAllocator.extend l.alloc_tracker n (allocator_dimensions l.max_dynamic_size) size
        ≡ done t
      → allocate new_target add_used l size
        ≡ record_use new_target add_used
            (record l { targets = l.targets ++ new_target l.screen_size ∷ []; alloc_tracker = t })
            n
            origin_point
            size
  unfolding allocate allocator_dimensions
  grow-done l t n size ok count room full extended =
      let (ge_width, lt_width) = round_dimension_lem l.max_dynamic_size.width ok.room_width in
      let (ge_height, lt_height) = round_dimension_lem l.max_dynamic_size.height ok.room_height in
      let width_ok : le_i32 size.width (round_dimension l.max_dynamic_size.width) ≡ true = ground (
        arith,
        le_i32-leb size.width (round_dimension l.max_dynamic_size.width) ok.valid.small_width
            lt_width,
        ok.fits_width,
      ) in
      let height_ok : le_i32 size.height (round_dimension l.max_dynamic_size.height) ≡ true =
        ground (
          arith,
          le_i32-leb size.height (round_dimension l.max_dynamic_size.height) ok.valid.small_height
              lt_height,
          ok.fits_height,
        ) in
      let index : length l.targets % u32_mod ≡ n = omega arith in
      rw (full, width_ok, height_ok, index, extended) refl

  extend-tiles :
      (l : RenderTargetList T) (sizes : List DeviceIntSize) (used : List FreeRect)
      (d size : DeviceIntSize)
      → Tiled l sizes used
      → IsRequest size
      → size.width ≤ d.width
      → size.height ≤ d.height
      → d.width < i32_half
      → d.height < i32_half
      → (t : ArrayAllocationTracker) × (TextureAllocator.extend l.alloc_tracker
            (length sizes)
            d
            size
          ≡ done t)
        × Inv (dims_of (sizes ++ d ∷ [])) t
        × IsInside (dims_of (sizes ++ d ∷ [])) (placed (length sizes) origin_point size)
        × ((s a b : ℕ)
            → weigh_bins (covers_at s a b) t.bins
                + weigh (covers_at s a b) (placed (length sizes) origin_point size ∷ used)
              ≡ covers_at s a b (placed s origin_point (dims_of (sizes ++ d ∷ []) s)))
  extend-tiles l sizes used d size v ok fw fh sw sh =
      let is_new = dims_of-append_length sizes d in
      let (t, extended, t-Inv, tiles) =
        extend_lem (dims_of (sizes ++ d ∷ [])) l.alloc_tracker (length sizes) size
          (Inv-append_size sizes d l.alloc_tracker v.sorted) ok (rw is_new fw) (rw is_new fh)
          (rw is_new sw) (rw is_new sh) in
      (
        t,
        rw is_new at extended,
        t-Inv,
        record {
          pos_width = ok.pos_width;
          pos_height = ok.pos_height;
          right = rw is_new (omega arith);
          bottom = rw is_new (omega arith);
          small_width = rw is_new sw;
          small_height = rw is_new sh;
        },
        λ s a b.
            let tile = (rw is_new at (tiles s a b)) in
            omega (arith, tile, v.tiles s a b, covers_at-append_size sizes d s a b),
      )

  grow-Allocates :
      (l : RenderTargetList T) (sizes : List DeviceIntSize) (used : List FreeRect)
      (size : DeviceIntSize)
      → Tiled l sizes used
      → IsAllowed l.max_dynamic_size size
      → length l.targets < u32_mod
      → TextureAllocator.allocate l.alloc_tracker size ≡ done (l.alloc_tracker, none)
      → Allocates l sizes used size (allocate new_target add_used l size)
  unfolding allocator_dimensions
  grow-Allocates l sizes used size v ok room full =
      let d = allocator_dimensions l.max_dynamic_size in
      let (ge_width, lt_width) = round_dimension_lem l.max_dynamic_size.width ok.room_width in
      let (ge_height, lt_height) = round_dimension_lem l.max_dynamic_size.height ok.room_height in
      let (t, extended, t-Inv, inside, tiles) =
        extend-tiles l sizes used d size v ok.valid (omega (arith, ok.fits_width))
          (omega (arith, ok.fits_height)) lt_width lt_height in
      let one_more = length-append l.targets (new_target l.screen_size ∷ []) in
      let (targets, recorded, same) =
        record_use-done
          (record l { targets = l.targets ++ new_target l.screen_size ∷ []; alloc_tracker = t })
          (length sizes) origin_point size ok.valid (omega (arith, one_more, v.one_each)) in
      record {
        after = record l { targets = targets; alloc_tracker = t };
        sizes = sizes ++ d ∷ [];
        slice = length sizes;
        origin = origin_point;
        returns =
            grow-done l t (length sizes) size ok v.one_each (omega (arith, v.one_each)) full
              extended
            ∙ recorded;
        keeps = record {
          one_each = omega (arith, same, one_more, v.one_each, length-append sizes (d ∷ []));
          sorted = t-Inv;
          tiles = tiles;
        };
        inside = inside;
        limit = refl;
        grows = omega (arith, same, one_more);
        slices = inr refl;
      }

  -- `allocate` never panics on a task of an allowed size: it places the task inside a slice, and the
  -- free and the placed rectangles go on tiling the slices exactly.
  pub allocate-Allocates :
      (l : RenderTargetList T) (sizes : List DeviceIntSize) (used : List FreeRect)
      (size : DeviceIntSize)
      → Tiled l sizes used
      → IsAllowed l.max_dynamic_size size
      → length l.targets < u32_mod
      → Allocates l sizes used size (allocate new_target add_used l size)
  allocate-Allocates l sizes used size v ok room =
      elim (allocate_lem (dims_of sizes) l.alloc_tracker size v.sorted ok.valid) [
        | inl p ↦ find_place-Allocates l sizes used size v ok.valid p
        | inr (full, _) ↦ grow-Allocates l sizes used size v ok room full
      ]

  -- The tasks of a pass, one after the other; the rectangles that they got, the latest first.
  unfoldable pub allocate_all :
      RenderTargetList T
      → List FreeRect
      → List DeviceIntSize
      → Run (RenderTargetList T × List FreeRect)
  allocate_all l used [] = done (l, used)
  allocate_all l used (size ∷ rest) = do
    (l', slice, origin) ← allocate new_target add_used l size
    allocate_all l' (placed slice origin size ∷ used) rest

  -- Every slice has the size that a new one gets.
  abbrev AllAlike : DeviceIntSize → List DeviceIntSize → Type 0
  AllAlike limit = All (λ d. d ≡ allocator_dimensions limit)

  -- The rectangle lies inside one of `n` slices of the size that a new one gets.
  abbrev pub InSlice : DeviceIntSize → ℕ → FreeRect → Type 0
  InSlice limit n p =
      (p.slice < n)
      × (p.rect.origin.x + p.rect.size.width ≤ (allocator_dimensions limit).width)
      × (p.rect.origin.y + p.rect.size.height ≤ (allocator_dimensions limit).height)

  IsInside-InSlice :
      (limit : DeviceIntSize) (sizes : List DeviceIntSize) (p : FreeRect)
      → AllAlike limit sizes
      → IsInside (dims_of sizes) p
      → InSlice limit (length sizes) p
  IsInside-InSlice limit sizes p alike v =
      let low = IsInside-lt sizes p v in
      let (d, at_slice) = get_elem?_of_lt sizes p.slice low in
      let is : d ≡ allocator_dimensions limit =
        All-get_elem? (λ d. d ≡ allocator_dimensions limit) sizes p.slice alike at_slice in
      let dims_is : dims_of sizes p.slice ≡ allocator_dimensions limit = rw at_slice is in
      (low, rw dims_is at v.right, rw dims_is at v.bottom)

  slices-AllAlike :
      (limit : DeviceIntSize) (sizes sizes' : List DeviceIntSize)
      → AllAlike limit sizes
      → (sizes' ≡ sizes) ⊎ (sizes' ≡ sizes ++ allocator_dimensions limit ∷ [])
      → AllAlike limit sizes' × (length sizes ≤ length sizes')
  slices-AllAlike limit sizes sizes' alike (inl e) = (rw e alike, rw e (omega arith))
  slices-AllAlike limit sizes sizes' alike (inr e) = (
    rw e (All-append _ sizes (allocator_dimensions limit ∷ []) alike (refl, tt)),
    rw e (omega (arith, length-append sizes (allocator_dimensions limit ∷ []))),
  )

  InSlice-mono :
      (limit : DeviceIntSize) (n m : ℕ) (ps : List FreeRect)
      → n ≤ m
      → All (InSlice limit n) ps
      → All (InSlice limit m) ps
  InSlice-mono limit n m ps le =
      All-map (InSlice limit n) (InSlice limit m) ps
        (λ p (low, right, bottom). (omega (arith, low, le), right, bottom))

  allocate_all-Tiled :
      (limit : DeviceIntSize) (l : RenderTargetList T) (sizes : List DeviceIntSize)
      (used : List FreeRect) (tasks : List DeviceIntSize)
      → l.max_dynamic_size ≡ limit
      → Tiled l sizes used
      → AllAlike limit sizes
      → All (InSlice limit (length sizes)) used
      → All (IsAllowed limit) tasks
      → length l.targets + length tasks < u32_mod
      → (r : RenderTargetList T) × (sizes' : List DeviceIntSize) × (placements : List FreeRect)
        × (allocate_all l used tasks ≡ done (r, placements))
        × Tiled r sizes' placements
        × All (InSlice limit (length sizes')) placements
        × (length placements ≡ length tasks + length used)
  unfolding allocate_all
  allocate_all-Tiled limit l sizes used [] is_limit v alike inside ok room =
      (l, sizes, used, refl, v, inside, omega arith)
  allocate_all-Tiled limit l sizes used (size ∷ rest) is_limit v alike inside ok room =
      let p =
        allocate-Allocates l sizes used size v (subst (λ m. IsAllowed m size) (sym is_limit) ok.0)
          (omega arith) in
      let slices : (p.sizes ≡ sizes) ⊎ (p.sizes ≡ sizes ++ allocator_dimensions limit ∷ []) =
        subst (λ m. (p.sizes ≡ sizes) ⊎ (p.sizes ≡ sizes ++ allocator_dimensions m ∷ [])) is_limit
          p.slices in
      let (alike', longer) = slices-AllAlike limit sizes p.sizes alike slices in
      let inside' : All (InSlice limit (length p.sizes)) (placed p.slice p.origin size ∷ used) = (
        IsInside-InSlice limit p.sizes (placed p.slice p.origin size) alike' p.inside,
        InSlice-mono limit (length sizes) (length p.sizes) used longer inside,
      ) in
      let (r, sizes', placements, e, tiled, all_inside, count) =
        allocate_all-Tiled limit p.after p.sizes (placed p.slice p.origin size ∷ used) rest
          (p.limit ∙ is_limit) p.keeps alike' inside' ok.1 (omega (arith, p.grows)) in
      (r, sizes', placements, rw p.returns e, tiled, all_inside, omega (arith, count))

  -- The tasks of a pass that are not empty, one after the other on a new list: every call returns. Each of the
  -- rectangles lies inside the slice of one of the targets of the list that is left, which all have the size that
  -- `allocator_dimensions` gives for the limit, and no point of any slice is covered by two of them. Each
  -- side of a task is from 1 to the limit or to 2048, the limit plus 255 is below 2^31, and there are fewer
  -- than 2^32 tasks.
  pub allocate_all_disjoint :
      (screen limit : DeviceIntSize) (tasks : List DeviceIntSize)
      → All (IsAllowed limit) tasks
      → length tasks < u32_mod
      → (r : RenderTargetList T) × (placements : List FreeRect) × (allocate_all
            (record (new screen) { max_dynamic_size = limit })
            []
            tasks
          ≡ done (r, placements))
        × (length placements ≡ length tasks)
        × All (InSlice limit (length r.targets)) placements
        × ((s a b : ℕ) → weigh (covers_at s a b) placements ≤ 1)
  unfolding new
  allocate_all_disjoint screen limit tasks ok room =
      let start = new-Tiled T screen in
      let l : RenderTargetList T = record (new screen) { max_dynamic_size = limit } in
      let start' : Tiled l [] [] = record {
        one_each = start.one_each;
        sorted = start.sorted;
        tiles = start.tiles;
      } in
      let (r, sizes, placements, e, tiled, inside, count) =
        allocate_all-Tiled limit l [] [] tasks refl start' tt tt ok (omega arith) in
      (
        r,
        placements,
        e,
        omega (arith, count),
        rw tiled.one_each inside,
        λ s a b. ground (arith, tiled.tiles s a b),
      )
