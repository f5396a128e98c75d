-- ===== src/TextureAllocator/Tests.antt =====
-- Runs of webrender/src/texture_allocator.rs on a concrete tracker.
use webrender.Prelude.{
  ℕ, ◌+◌, ◌≡◌, refl, ◌⊎◌, List, [], ◌∷◌, Option, none, some, true, done, arith, All,
}
use webrender.TextureAllocator.{
  DeviceIntSize, FreeRect, ArrayAllocationTracker, mk_rect, allocate, search_and_take, take_rect,
  split_guillotine, find_index_of_best_rect, find_in_bin, find_from, position, smaller, smallest,
  push, push_if_some, guillotine, swap_remove, for_size,
}
use webrender.Prelude.I32.{le_i32, gt_i32, add_i32, sub_i32, mul_i32}
use webrender.TextureAllocator.Bins.{Inv}
use webrender.TextureAllocator.Cover.{covers_at, weigh_bins}
use webrender.TextureAllocator.Find.{IsRequest, TooSmall, FindsPlace, find_index_of_best_rect_lem}
use webrender.TextureAllocator.Choice.{Chooses, find_in_bin-Chooses}
use webrender.TextureAllocator.Split.{split_guillotine_lem}
use webrender.TextureAllocator.Allocate.{Places, placed, allocate_lem}

abbrev size_of : ℕ → ℕ → DeviceIntSize
size_of w h = record { width = w; height = h }

abbrev dims : ℕ → DeviceIntSize
dims slice = size_of 2048 2048

abbrev large : FreeRect
large = record { slice = 0; rect = mk_rect 16 0 100 80 }

abbrev small : FreeRect
small = record { slice = 1; rect = mk_rect 0 0 10 12 }

abbrev tracker : ArrayAllocationTracker
tracker = record { bins = (small ∷ []) ∷ [] ∷ (large ∷ []) ∷ [] }

tracker-Inv : Inv dims tracker
tracker-Inv = record {
  three = refl;
  sorted = (((omega arith, refl), tt), (tt, (((omega arith, refl), tt), tt)));
}

request-IsRequest : IsRequest (size_of 20 30)
request-IsRequest = omega arith

allocate_large :
    allocate tracker (size_of 20 30)
    ≡ done (
      record {
        bins =
            (small ∷ [])
            ∷ (record { slice = 0; rect = mk_rect 16 30 20 50 } ∷ [])
            ∷ (record { slice = 0; rect = mk_rect 36 0 80 80 } ∷ [])
            ∷ [];
      },
      some (0, record { x = 16; y = 0 }),
    )
unfolding allocate search_and_take find_index_of_best_rect find_from find_in_bin position for_size
    take_rect swap_remove split_guillotine guillotine push_if_some push le_i32 gt_i32 add_i32
    sub_i32 mul_i32
allocate_large = refl

allocate_lem_example :
    Places dims tracker (size_of 20 30) (allocate tracker (size_of 20 30))
    ⊎ ((allocate tracker (size_of 20 30) ≡ done (tracker, none))
        × All (All (TooSmall (size_of 20 30))) tracker.bins)
allocate_lem_example = allocate_lem dims tracker (size_of 20 30) tracker-Inv request-IsRequest

-- Two that fit, the larger one first.
abbrev two_large : List FreeRect
two_large = large ∷ record { slice = 0; rect = mk_rect 200 0 60 50 } ∷ []

find_in_bin-Chooses_example :
    Chooses (size_of 20 30) true two_large (find_in_bin true (size_of 20 30) two_large)
find_in_bin-Chooses_example =
    find_in_bin-Chooses dims (size_of 20 30) request-IsRequest 2 two_large true
      ((omega arith, refl), ((omega arith, refl), tt))

find_in_bin_by_area : find_in_bin true (size_of 20 30) two_large ≡ some 1
unfolding find_in_bin smallest smaller gt_i32 le_i32 mul_i32
find_in_bin_by_area = refl

find_index_of_best_rect_lem_example :
    (r : Option (ℕ × ℕ)) × (find_index_of_best_rect tracker (size_of 20 30) ≡ done r)
    × FindsPlace dims (size_of 20 30) request-IsRequest tracker.bins r
find_index_of_best_rect_lem_example =
    find_index_of_best_rect_lem dims (size_of 20 30) request-IsRequest tracker tracker-Inv

split_guillotine_lem_example :
    (t' : ArrayAllocationTracker) × (split_guillotine tracker large (size_of 20 30) ≡ done t')
    × Inv dims t'
    × ((s a b : ℕ)
        → weigh_bins (covers_at s a b) t'.bins
            + covers_at s a b (placed 0 (record { x = 16; y = 0 }) (size_of 20 30))
          ≡ weigh_bins (covers_at s a b) tracker.bins + covers_at s a b large)
split_guillotine_lem_example =
    split_guillotine_lem dims tracker large (size_of 20 30) tracker-Inv (omega arith)
      request-IsRequest (omega arith, omega arith)
