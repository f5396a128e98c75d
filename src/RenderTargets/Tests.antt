-- ===== src/RenderTargets/Tests.antt =====
-- Runs of `RenderTargetList::allocate` of webrender/src/tiling.rs. The target type is the list of the
-- rectangles in use.
use webrender.Prelude.{ℕ, ◌≤◌, ◌≡◌, List, [], ◌∷◌, done, arith, length, All}
use webrender.TextureAllocator.{DeviceIntSize, DeviceIntRect, FreeRect}
use webrender.TextureAllocator.Cover.{covers_at, weigh}
use webrender.RenderTargets.{RenderTargetList, new, allocate}
use webrender.RenderTargets.Tiled.{new-Tiled}
use webrender.RenderTargets.Disjoint.{
  InSlice, Allocates, allocate_all, allocate-Allocates, allocate_all_disjoint,
}

abbrev size_of : ℕ → ℕ → DeviceIntSize
size_of w h = record { width = w; height = h }

abbrev new_target : DeviceIntSize → List DeviceIntRect
new_target screen = []

abbrev add_used : List DeviceIntRect → DeviceIntRect → List DeviceIntRect
add_used used r = r ∷ used

abbrev tasks : List DeviceIntSize
tasks = size_of 100 200 ∷ size_of 2000 2000 ∷ size_of 64 64 ∷ []

-- One task of each size, on the empty list and on what it leaves.
allocate-Allocates_example :
    Allocates new_target add_used
      (new (size_of 800 600))
      []
      []
      (size_of 100 200)
      (allocate new_target add_used (new (size_of 800 600)) (size_of 100 200))
unfolding new
allocate-Allocates_example =
    allocate-Allocates new_target add_used (new (size_of 800 600)) [] [] (size_of 100 200)
      (new-Tiled (List DeviceIntRect) (size_of 800 600)) (omega arith) (omega arith)

allocate_all_disjoint_example :
    (r : RenderTargetList (List DeviceIntRect)) × (placements : List FreeRect) × (allocate_all
        new_target add_used
        (record (new (size_of 800 600)) { max_dynamic_size = size_of 2000 2000 })
        []
        tasks
      ≡ done (r, placements))
    × (length placements ≡ length tasks)
    × All (InSlice new_target add_used (size_of 2000 2000) (length r.targets)) placements
    × ((s a b : ℕ) → weigh (covers_at s a b) placements ≤ 1)
allocate_all_disjoint_example =
    allocate_all_disjoint new_target add_used (size_of 800 600) (size_of 2000 2000) tasks
      (omega arith) (omega arith)
