-- ===== src/RenderTargets.antt =====
-- `RenderTargetList` of webrender/src/tiling.rs: the render targets of a pass, one texture slice each,
-- and `allocate`, which places a task in one of them. The target type is a parameter, with the two
-- operations of the `RenderTarget` trait that `allocate` calls. The fields `format` and `saved_index`,
-- which it does not touch, are left out.
pub mod Tiled
pub mod Disjoint
mod Tests
use webrender.Prelude.{
  ℕ, ◌+◌, ◌-◌, ◌%◌, List, [], ◌∷◌, ◌++◌, Option, none, some, Bool, true, false, ◌&&◌, ◌||◌, Run,
  done, panic, ◌>>=◌, index_at, u32_mod, length, set, if◌then◌else◌,
}
use webrender.Prelude.I32.{add_i32, le_i32}
use webrender.TextureAllocator
use webrender.TextureAllocator.{
  DeviceIntPoint, DeviceIntSize, DeviceIntRect, ArrayAllocationTracker, origin_point,
}

abbrev pub ideal_max_texture_dimension : ℕ
ideal_max_texture_dimension = 2048

abbrev pub texture_dimension_mask : ℕ
texture_dimension_mask = 0xff

-- `x & !TEXTURE_DIMENSION_MASK`: the low eight bits cleared.
abbrev pub clear_mask : ℕ → ℕ
clear_mask x = x - x % (texture_dimension_mask + 1)

-- `cmp::max`
pub max_i32 : ℕ → ℕ → ℕ
max_i32 a b = if le_i32 a b then b else a

pub round_dimension : ℕ → ℕ
unfolding max_i32
round_dimension d =
    max_i32 ideal_max_texture_dimension (clear_mask (add_i32 d texture_dimension_mask))

pub allocator_dimensions : DeviceIntSize → DeviceIntSize
allocator_dimensions max_dynamic_size = record {
  width = round_dimension max_dynamic_size.width;
  height = round_dimension max_dynamic_size.height;
}

pub record RenderTargetList {ℓ} (T : Type ℓ) : Type ℓ where
  pub screen_size : DeviceIntSize
  pub max_dynamic_size : DeviceIntSize
  pub targets : List T
  pub alloc_tracker : ArrayAllocationTracker

unfoldable pub new {ℓ} : {T : Type ℓ} → DeviceIntSize → RenderTargetList T
new screen_size = record {
  screen_size = screen_size;
  max_dynamic_size = record { width = 0; height = 0 };
  targets = [];
  alloc_tracker = TextureAllocator.new;
}

-- `assert!`
abbrev pub assert : Bool → Run (Unit {0})
assert true = done tt
assert false = panic

-- `is_empty_or_negative`, of euclid's sizes
abbrev pub is_empty_or_negative : DeviceIntSize → Bool
is_empty_or_negative s = le_i32 s.width 0 || le_i32 s.height 0

abbrev is_empty {ℓ} : {A : Type ℓ} → List A → Bool
is_empty [] = true
is_empty (x ∷ xs) = false

module _ {ℓ} {T : Type ℓ} (new_target : DeviceIntSize → T) (add_used : T → DeviceIntRect → T) where
  -- The arm for a failed allocation: a new slice and a new target.
  grow : RenderTargetList T → DeviceIntSize → Run (RenderTargetList T × ℕ × DeviceIntPoint)
  grow l alloc_size = do
    let dimensions = allocator_dimensions l.max_dynamic_size
    _ ←
        assert
          (le_i32 alloc_size.width dimensions.width && le_i32 alloc_size.height dimensions.height)
    let slice = length l.targets % u32_mod
    tracker ← TextureAllocator.extend l.alloc_tracker slice dimensions alloc_size
    done (
      record l { targets = l.targets ++ new_target l.screen_size ∷ []; alloc_tracker = tracker },
      slice,
      origin_point,
    )

  -- What follows the `match`.
  record_use :
      RenderTargetList T
      → ℕ
      → DeviceIntPoint
      → DeviceIntSize
      → Run (RenderTargetList T × ℕ × DeviceIntPoint)
  record_use l slice origin alloc_size =
      let targets =
        if is_empty_or_negative alloc_size && is_empty l.targets
        then l.targets ++ new_target l.screen_size ∷ []
        else l.targets in
      do
        target ← index_at targets slice
        done (
          record l {
            targets =
                set targets slice (add_used target (record { origin = origin; size = alloc_size }));
          },
          slice,
          origin,
        )

  find_place :
      RenderTargetList T
      → DeviceIntSize
      → Option (ℕ × DeviceIntPoint)
      → Run (RenderTargetList T × ℕ × DeviceIntPoint)
  unfolding grow
  find_place l alloc_size none = grow l alloc_size
  find_place l alloc_size (some (slice, origin)) = done (l, slice, origin)

  unfoldable pub allocate :
      RenderTargetList T → DeviceIntSize → Run (RenderTargetList T × ℕ × DeviceIntPoint)
  unfolding find_place record_use
  allocate l alloc_size = do
    (tracker, allocation) ← TextureAllocator.allocate l.alloc_tracker alloc_size
    (l', slice, origin) ← find_place (record l { alloc_tracker = tracker }) alloc_size allocation
    record_use l' slice origin alloc_size
