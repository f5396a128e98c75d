-- ===== src/RenderTargets/Tiled.antt =====
-- The invariant of a `RenderTargetList` (webrender/src/tiling.rs): the free rectangles and the placed
-- ones tile the slices of its targets.
use webrender.Prelude.{
  ℕ, suc, ◌+◌, ◌≤◌, ◌<◌, ◌≡◌, ◌≢◌, refl, inl, inr, List, [], ◌∷◌, ◌++◌, Option, none, some, arith,
  length, get_elem?, get_elem?-append_left, get_elem?-append_length, get_elem?_past, length-append,
  All, Bool-cases, ◌==◌, ltb,
}
use webrender.TextureAllocator.{
  DeviceIntPoint, DeviceIntSize, FreeRect, ArrayAllocationTracker, origin_point,
}
use webrender.TextureAllocator.Allocate.{placed}
use webrender.TextureAllocator.Bins.{IsInside, InBin, BinsFrom, Inv, new-Inv}
use webrender.TextureAllocator.Cover.{covers_at, weigh, weigh_bins}
use webrender.TextureAllocator
use webrender.RenderTargets.{RenderTargetList, new}

abbrev no_size : DeviceIntSize
no_size = record { width = 0; height = 0 }

abbrev size_or : Option DeviceIntSize → DeviceIntSize
size_or none = no_size
size_or (some d) = d

-- The size of each slice; a slice that does not exist has none.
abbrev pub dims_of : List DeviceIntSize → ℕ → DeviceIntSize
dims_of sizes slice = size_or (get_elem? sizes slice)

-- `sizes` are the slices' sizes, `used` the rectangles that were handed out.
pub record Tiled {ℓ} {T : Type ℓ} (l : RenderTargetList T) (sizes : List DeviceIntSize)
    (used : List FreeRect) : Type ℓ where
  pub one_each : length l.targets ≡ length sizes
  pub sorted : Inv (dims_of sizes) l.alloc_tracker
  pub tiles :
      (s a b : ℕ)
      → weigh_bins (covers_at s a b) l.alloc_tracker.bins + weigh (covers_at s a b) used
        ≡ covers_at s a b (placed s origin_point (dims_of sizes s))

pub IsInside-lt :
    (sizes : List DeviceIntSize) (r : FreeRect)
    → IsInside (dims_of sizes) r
    → r.slice < length sizes
IsInside-lt sizes r v = elim (Bool-cases (ltb r.slice (length sizes))) [
  | inl low ↦ ground arith
  | inr high ↦
      absurd (ground (arith, get_elem?_past sizes r.slice (ground arith), v.right, v.pos_width))
]

dims_of-append :
    (sizes : List DeviceIntSize) (d : DeviceIntSize) (s : ℕ)
    → s < length sizes
    → dims_of (sizes ++ d ∷ []) s ≡ dims_of sizes s
dims_of-append sizes d s h = rw (get_elem?-append_left sizes (d ∷ []) s h)

pub dims_of-append_length :
    (sizes : List DeviceIntSize) (d : DeviceIntSize) → dims_of (sizes ++ d ∷ []) (length sizes) ≡ d
dims_of-append_length sizes d = rw (get_elem?-append_length sizes d)

dims_of_past : (sizes : List DeviceIntSize) (s : ℕ) → length sizes ≤ s → dims_of sizes s ≡ no_size
dims_of_past sizes s h = rw (get_elem?_past sizes s (omega arith))

dims_of-append_ne :
    (sizes : List DeviceIntSize) (d : DeviceIntSize) (s : ℕ)
    → s ≢ length sizes
    → dims_of (sizes ++ d ∷ []) s ≡ dims_of sizes s
dims_of-append_ne sizes d s h = elim (Bool-cases (ltb s (length sizes))) [
  | inl low ↦ dims_of-append sizes d s (ground arith)
  | inr high ↦
      rw
        (
          dims_of_past (sizes ++ d ∷ []) s (ground (arith, length-append sizes (d ∷ []))),
          dims_of_past sizes s (ground arith),
        )
        refl
]

module _ (sizes : List DeviceIntSize) (d : DeviceIntSize) where
  IsInside-append :
      (r : FreeRect) → IsInside (dims_of sizes) r → IsInside (dims_of (sizes ++ d ∷ [])) r
  IsInside-append r v =
      let e = dims_of-append sizes d r.slice (IsInside-lt sizes r v) in
      record {
        pos_width = v.pos_width;
        pos_height = v.pos_height;
        right = rw e v.right;
        bottom = rw e v.bottom;
        small_width = rw e v.small_width;
        small_height = rw e v.small_height;
      }

  All-append_size :
      (id : ℕ) (rs : List FreeRect)
      → All (InBin (dims_of sizes) id) rs
      → All (InBin (dims_of (sizes ++ d ∷ [])) id) rs
  All-append_size id [] h = tt
  All-append_size id (r ∷ rs) h = ((IsInside-append r h.0.0, h.0.1), All-append_size id rs h.1)

  BinsFrom-append_size :
      (id : ℕ) (bins : List (List FreeRect))
      → BinsFrom (dims_of sizes) id bins
      → BinsFrom (dims_of (sizes ++ d ∷ [])) id bins
  BinsFrom-append_size id [] h = tt
  BinsFrom-append_size id (b ∷ bs) h =
      (All-append_size id b h.0, BinsFrom-append_size (suc id) bs h.1)

  -- A new slice leaves the free rectangles of the others valid.
  pub Inv-append_size :
      (t : ArrayAllocationTracker) → Inv (dims_of sizes) t → Inv (dims_of (sizes ++ d ∷ [])) t
  Inv-append_size t v = record { three = v.three; sorted = BinsFrom-append_size 0 t.bins v.sorted }

  -- The points of the slices, with the new one.
  pub covers_at-append_size :
      (s a b : ℕ)
      → covers_at s a b (placed s origin_point (dims_of (sizes ++ d ∷ []) s))
        ≡ covers_at s a b (placed s origin_point (dims_of sizes s))
          + covers_at s a b (placed (length sizes) origin_point d)
  covers_at-append_size s a b = elim (Bool-cases (s == length sizes)) [
    | inl hit ↦
        let same : length sizes ≡ s = ground arith in
        let is_new : dims_of (sizes ++ d ∷ []) s ≡ d =
          rw (← same) (dims_of-append_length sizes d) in
        rw (is_new, dims_of_past sizes s (omega arith)) (ground arith)
    | inr miss ↦ rw (dims_of-append_ne sizes d s (ground arith)) (ground arith)
  ]

pub new-Tiled {ℓ} : (T : Type ℓ) (screen : DeviceIntSize) → Tiled (new {T = T} screen) [] []
unfolding new TextureAllocator.new
new-Tiled T screen = record {
  one_each = refl;
  sorted = new-Inv (dims_of []);
  tiles = λ s a b. ground arith;
}
