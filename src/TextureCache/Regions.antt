-- ===== src/TextureCache/Regions.antt =====
-- `SlabSize`, `TextureLocation` and `TextureRegion` of webrender/src/texture_cache.rs: a layer of a shared
-- texture, cut into slabs of one size. The counter of empty regions of the array is an argument and a
-- result. A stack has its top at the end of the list.
use webrender.Prelude.{
  ℕ, zero, suc, ◌+◌, ◌-◌, ◌%◌, ◌^◌, List, [], ◌∷◌, ◌++◌, Option, none, some, Bool, true, false,
  ◌&&◌, Run, done, panic, ◌>>=◌, usize_mod, length, drop_last, ltb, leb, ◌==◌, max, if◌then◌else◌,
}
use webrender.Prelude.I32.{mul_i32, div_i32}
use webrender.TextureAllocator.{DeviceIntPoint, DeviceIntSize}
use webrender.RenderTargets.{assert}

abbrev pub texture_region_dimensions : ℕ
texture_region_dimensions = 512

-- Sizes are `i32`; a negative one is a large number here, and panics like one that is too large.
unfoldable pub quantize_dimension : ℕ → Run ℕ
quantize_dimension size =
    if size == 0
    then panic
    else if leb size 16
    then done 16
    else if leb size 32
    then done 32
    else if leb size 64
    then done 64
    else if leb size 128
    then done 128
    else if leb size 256
    then done 256
    else if leb size 512
    then done 512
    else panic

pub record SlabSize : Type 0 where
  pub width : ℕ
  pub height : ℕ

abbrev pub slab_invalid : SlabSize
slab_invalid = record { width = 0; height = 0 }

abbrev pub same_slab : SlabSize → SlabSize → Bool
same_slab a b = a.width == b.width && a.height == b.height

-- The pairs with a rectangular slab of their own.
abbrev pub is_rectangular : ℕ → ℕ → Bool
is_rectangular x y =
    if x == 512
    then (if y == 256 then true else if y == 128 then true else y == 64)
    else if y == 512
    then (if x == 256 then true else if x == 128 then true else x == 64)
    else false

abbrev pub in_region : ℕ → Bool
in_region x = ltb 0 x && leb x texture_region_dimensions

-- `SlabSize::new`
unfoldable pub new_slab_size : DeviceIntSize → Run SlabSize
unfolding quantize_dimension
new_slab_size size = do
  x_size ← quantize_dimension size.width
  y_size ← quantize_dimension size.height
  _ ← assert (in_region x_size)
  _ ← assert (in_region y_size)
  done (
      if is_rectangular x_size y_size
      then record { width = x_size; height = y_size }
      else record { width = max x_size y_size; height = max x_size y_size })

-- `TextureLocation(u8, u8)`
pub record TextureLocation : Type 0 where
  pub x : ℕ
  pub y : ℕ

abbrev pub new_location : ℕ → ℕ → TextureLocation
new_location x y = record { x = x % 2 ^ 8; y = y % 2 ^ 8 }

pub record TextureRegion : Type 0 where
  pub layer_index : ℕ
  pub slab_size : SlabSize
  pub free_slots : List TextureLocation
  pub total_slot_count : ℕ

abbrev pub new_region : ℕ → TextureRegion
new_region layer_index = record {
  layer_index = layer_index;
  slab_size = slab_invalid;
  free_slots = [];
  total_slot_count = 0;
}

-- The inner loop: `n` slots are left in the row `y`, the next one is number `x`.
unfoldable pub push_row : ℕ → ℕ → ℕ → List TextureLocation → List TextureLocation
push_row zero x y slots = slots
push_row (suc n) x y slots = push_row n (suc x) y (slots ++ new_location x y ∷ [])

-- The outer loop: `n` rows are left, the next one is number `y`.
unfoldable pub push_rows : ℕ → ℕ → ℕ → List TextureLocation → List TextureLocation
push_rows zero width y slots = slots
push_rows (suc n) width y slots = push_rows n width (suc y) (push_row width 0 y slots)

-- `init`: the region, and the number of empty regions.
unfoldable pub init_region : TextureRegion → SlabSize → ℕ → Run (TextureRegion × ℕ)
init_region r slab_size empty_regions = do
  slots_per_x_axis ← div_i32 texture_region_dimensions slab_size.width
  slots_per_y_axis ← div_i32 texture_region_dimensions slab_size.height
  let free_slots = push_rows slots_per_y_axis slots_per_x_axis 0 r.free_slots
  done (
    record r {
      slab_size = slab_size;
      free_slots = free_slots;
      total_slot_count = length free_slots;
    },
    (empty_regions + usize_mod - 1) % usize_mod,
  )

abbrev pub deinit_region : TextureRegion → ℕ → TextureRegion × ℕ
deinit_region r empty_regions = (
  record r { slab_size = slab_invalid; free_slots = []; total_slot_count = 0 },
  (empty_regions + 1) % usize_mod,
)

abbrev pub region_is_empty : TextureRegion → Bool
region_is_empty r = same_slab r.slab_size slab_invalid

-- The last element, if any.
unfoldable pub last_slot : List TextureLocation → Option TextureLocation
last_slot [] = none
last_slot (s ∷ []) = some s
last_slot (s ∷ t ∷ ss) = last_slot (t ∷ ss)

-- `alloc` of a region: the region after it, and the point.
unfoldable pub alloc_slot : TextureRegion → TextureRegion × Option DeviceIntPoint
alloc_slot r = elim (last_slot r.free_slots) [
  | none ↦ (r, none)
  | some location ↦ (
    record r { free_slots = drop_last r.free_slots },
    some (record {
      x = mul_i32 r.slab_size.width location.x;
      y = mul_i32 r.slab_size.height location.y;
    }),
  )
]

-- `free` of a region.
unfoldable pub free_slot : TextureRegion → DeviceIntPoint → ℕ → Run (TextureRegion × ℕ)
free_slot r point empty_regions = do
  x ← div_i32 point.x r.slab_size.width
  y ← div_i32 point.y r.slab_size.height
  let r' : TextureRegion = record r { free_slots = r.free_slots ++ new_location x y ∷ [] }
  done (
      if length r'.free_slots == r.total_slot_count
      then deinit_region r' empty_regions
      else (r', empty_regions))
