-- ===== src/TextureAllocator.antt =====
-- webrender/src/texture_allocator.rs: the guillotine allocator of rectangles in texture slices, with
-- the free rectangles in three bins by their size. Coordinates and sizes are `i32` bit patterns.
pub mod Bins
pub mod Find
pub mod Choice
pub mod Cover
pub mod Split
pub mod Allocate
mod Tests
use webrender.Prelude.{
  ℕ, ◌+◌, ◌-◌, zero, suc, List, [], ◌∷◌, ◌++◌, Option, none, some, Bool, true, false, ◌&&◌, ◌||◌,
  not, Run, done, panic, ◌>>=◌, unwrap, index_at, length, set, drop_last, ◌==◌, if◌then◌else◌,
}
use webrender.Prelude.I32.{add_i32, sub_i32, mul_i32, le_i32, gt_i32}

pub record DeviceIntPoint : Type 0 where
  pub x : ℕ
  pub y : ℕ

pub record DeviceIntSize : Type 0 where
  pub width : ℕ
  pub height : ℕ

pub record DeviceIntRect : Type 0 where
  pub origin : DeviceIntPoint
  pub size : DeviceIntSize

abbrev pub find_smallest_area : Bool
find_smallest_area = false

abbrev pub num_bins : ℕ
num_bins = 3

abbrev pub min_rect_axis_sizes : List ℕ
min_rect_axis_sizes = 1 ∷ 16 ∷ 32 ∷ []

pub record FreeRect : Type 0 where
  pub slice : ℕ
  pub rect : DeviceIntRect

pub record ArrayAllocationTracker : Type 0 where
  pub bins : List (List FreeRect)

-- `size.area()`
abbrev pub area : DeviceIntSize → ℕ
area s = mul_i32 s.width s.height

-- `util::rect_is_empty`
abbrev pub rect_is_empty : DeviceIntRect → Bool
rect_is_empty r = r.size.width == 0 || r.size.height == 0

-- The `find` from the back over the enumerated minimum sizes; `id` counts them.
rfind_bin : List ℕ → ℕ → DeviceIntSize → Option ℕ
rfind_bin [] id size = none
rfind_bin (min_size ∷ rest) id size = elim (rfind_bin rest (suc id) size) [
  | some bin ↦ some bin
  | none ↦ if le_i32 min_size size.width && le_i32 min_size size.height then some id else none
]

-- `FreeListBin::for_size`
unfoldable pub for_size : DeviceIntSize → Run ℕ
unfolding rfind_bin
for_size size = unwrap (rfind_bin min_rect_axis_sizes 0 size)

unfoldable pub new : ArrayAllocationTracker
new = record { bins = [] ∷ [] ∷ [] ∷ [] }

unfoldable pub push : ArrayAllocationTracker → ℕ → DeviceIntRect → Run ArrayAllocationTracker
push t slice rect = do
  id ← for_size rect.size
  bin ← index_at t.bins id
  done (record { bins = set t.bins id (bin ++ record { slice = slice; rect = rect } ∷ []) })

abbrev pub fits_in : DeviceIntSize → FreeRect → Bool
fits_in requested candidate =
    le_i32 requested.width candidate.rect.size.width
    && le_i32 requested.height candidate.rect.size.height

-- `iter().position(…)`
unfoldable pub position : DeviceIntSize → List FreeRect → Option ℕ
position requested [] = none
position requested (c ∷ cs) = elim (fits_in requested c) [
  | true ↦ some 0
  | false ↦ elim (position requested cs) [ none ↦ none | some i ↦ some (suc i) ]
]

-- One round of the loop that looks for the smallest area.
unfoldable pub smaller : DeviceIntSize → FreeRect → ℕ → Option (ℕ × ℕ) → Option (ℕ × ℕ)
smaller requested c i best =
    if gt_i32 requested.width c.rect.size.width || gt_i32 requested.height c.rect.size.height
    then best
    else elim best [
      | none ↦ some (i, area c.rect.size)
      | some (j, best_area) ↦
          if le_i32 best_area (area c.rect.size)
          then some (j, best_area)
          else some (i, area c.rect.size)
    ]

unfoldable pub smallest : DeviceIntSize → List FreeRect → ℕ → Option (ℕ × ℕ) → Option (ℕ × ℕ)
smallest requested [] i best = best
smallest requested (c ∷ cs) i best = smallest requested cs (suc i) (smaller requested c i best)

abbrev pub index_of : Option (ℕ × ℕ) → Option ℕ
index_of none = none
index_of (some (i, a)) = some i

-- The closure of `find_map`, for one bin.
unfoldable pub find_in_bin : Bool → DeviceIntSize → List FreeRect → Option ℕ
find_in_bin by_area requested bin =
    if by_area then index_of (smallest requested bin 0 none) else position requested bin

-- `(start_bin .. NUM_BINS).find_map(…)`: `n` bins are left, the next one is `id`.
unfoldable pub find_from : ℕ → ℕ → ArrayAllocationTracker → DeviceIntSize → Run (Option (ℕ × ℕ))
find_from zero id t requested = done none
find_from (suc n) id t requested = do
  bin ← index_at t.bins id
  let rest = find_from n (suc id) t requested
  elim (find_in_bin find_smallest_area requested bin) [
    | some index ↦ done (some (id, index))
    | none ↦ rest
  ]

unfoldable pub find_index_of_best_rect :
    ArrayAllocationTracker → DeviceIntSize → Run (Option (ℕ × ℕ))
find_index_of_best_rect t requested = do
  start_bin ← for_size requested
  find_from (num_bins - start_bin) start_bin t requested

abbrev pub mk_rect : ℕ → ℕ → ℕ → ℕ → DeviceIntRect
mk_rect x y w h = record {
  origin = record { x = x; y = y };
  size = record { width = w; height = h };
}

-- The rectangles to the right of the request and below it, after the guillotine cut.
unfoldable pub guillotine : DeviceIntRect → DeviceIntSize → DeviceIntRect × DeviceIntRect
guillotine chosen requested =
    let x = chosen.origin.x in
    let y = chosen.origin.y in
    let right_width = sub_i32 chosen.size.width requested.width in
    let bottom_height = sub_i32 chosen.size.height requested.height in
    let to_right = mk_rect (add_i32 x requested.width) y right_width requested.height in
    let to_bottom = mk_rect x (add_i32 y requested.height) requested.width bottom_height in
    if gt_i32 (area to_right.size) (area to_bottom.size)
    then (mk_rect (add_i32 x requested.width) y right_width chosen.size.height, to_bottom)
    else (to_right, mk_rect x (add_i32 y requested.height) chosen.size.width bottom_height)

unfoldable pub push_if_some :
    ArrayAllocationTracker → ℕ → DeviceIntRect → Run ArrayAllocationTracker
push_if_some t slice rect = if rect_is_empty rect then done t else push t slice rect

unfoldable pub split_guillotine :
    ArrayAllocationTracker → FreeRect → DeviceIntSize → Run ArrayAllocationTracker
split_guillotine t chosen requested = do
  let (right, bottom) = guillotine chosen.rect requested
  t' ← push_if_some t chosen.slice right
  push_if_some t' chosen.slice bottom

-- `Vec::swap_remove`: the last element takes the place of the removed one.
unfoldable pub swap_remove {ℓ} : {A : Type ℓ} → List A → ℕ → Run (A × List A)
swap_remove bin i = do
  removed ← index_at bin i
  last ← index_at bin (length bin - 1)
  done (removed, drop_last (set bin i last))

abbrev pub origin_point : DeviceIntPoint
origin_point = record { x = 0; y = 0 }

-- `allocate` from the chosen bin and index on.
unfoldable pub take_rect :
    ArrayAllocationTracker
    → DeviceIntSize
    → ℕ
    → ℕ
    → Run (ArrayAllocationTracker × Option (ℕ × DeviceIntPoint))
take_rect t requested bin index = do
  candidates ← index_at t.bins bin
  (chosen, rest) ← swap_remove candidates index
  t' ← split_guillotine (record { bins = set t.bins bin rest }) chosen requested
  done (t', some (chosen.slice, chosen.rect.origin))

-- `allocate` after its test for an empty request.
unfoldable pub search_and_take :
    ArrayAllocationTracker
    → DeviceIntSize
    → Run (ArrayAllocationTracker × Option (ℕ × DeviceIntPoint))
search_and_take t requested = do
  best ← find_index_of_best_rect t requested
  elim best [ none ↦ done (t, none) | some (bin, index) ↦ take_rect t requested bin index ]

unfoldable pub allocate :
    ArrayAllocationTracker
    → DeviceIntSize
    → Run (ArrayAllocationTracker × Option (ℕ × DeviceIntPoint))
allocate t requested =
    if requested.width == 0 || requested.height == 0
    then done (t, some (0, origin_point))
    else search_and_take t requested

unfoldable pub extend :
    ArrayAllocationTracker → ℕ → DeviceIntSize → DeviceIntSize → Run ArrayAllocationTracker
extend t slice total_size requested =
    split_guillotine t
      (record { slice = slice; rect = record { origin = origin_point; size = total_size } })
      requested
