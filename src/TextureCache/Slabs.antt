-- ===== src/TextureCache/Slabs.antt =====
-- The sizes of the slabs of webrender/src/texture_cache.rs: `quantize_dimension` and `SlabSize::new`, and
-- the arithmetic of the slots of one axis of a region.
use webrender.Prelude.{
  ℕ, ◌+◌, ◌*◌, ◌/◌, ◌≤◌, ◌<◌, ◌≡◌, ◌≢◌, ◌⊎◌, refl, sym, subst, inl, inr, true, done, panic, arith,
  max, if◌then◌else◌, Bool-cases,
}
use webrender.Prelude.I32.{mul_i32, div_i32, div_i32-eq}
use webrender.TextureAllocator.{DeviceIntSize}
use webrender.TextureCache.Regions.{
  texture_region_dimensions, quantize_dimension, SlabSize, is_rectangular, in_region, new_slab_size,
}

-- The side of a slab.
abbrev pub IsSide : ℕ → Type 0
IsSide w = (w ≡ 16) ⊎ (w ≡ 32) ⊎ (w ≡ 64) ⊎ (w ≡ 128) ⊎ (w ≡ 256) ⊎ (w ≡ 512)

-- The least side that covers a length.
abbrev pub Covers : ℕ → ℕ → Type 0
Covers n q = IsSide q × (n ≤ q) × ((q ≡ 16) ⊎ (q < 2 * n))

le-cases : (a b : ℕ) → (a ≤ b) ⊎ (b < a)
le-cases a b = omega arith

pub quantize_dimension-done :
    (n : ℕ) → 1 ≤ n → n ≤ 512 → (q : ℕ) × (quantize_dimension n ≡ done q) × Covers n q
unfolding quantize_dimension
quantize_dimension-done n positive small = elim (le-cases n 16) [
  | inl a ↦ (16, ground arith, (omega arith, omega arith, omega arith))
  | inr a ↦ elim (le-cases n 32) [
    | inl b ↦ (32, ground arith, (omega arith, omega arith, omega arith))
    | inr b ↦ elim (le-cases n 64) [
      | inl c ↦ (64, ground arith, (omega arith, omega arith, omega arith))
      | inr c ↦ elim (le-cases n 128) [
        | inl d ↦ (128, ground arith, (omega arith, omega arith, omega arith))
        | inr d ↦ elim (le-cases n 256) [
          | inl e ↦ (256, ground arith, (omega arith, omega arith, omega arith))
          | inr e ↦ (512, ground arith, (omega arith, omega arith, omega arith))
        ]
      ]
    ]
  ]
]

quantize_dimension-panic : (n : ℕ) → (n ≡ 0) ⊎ (512 < n) → quantize_dimension n ≡ panic
unfolding quantize_dimension
quantize_dimension-panic n h = ground arith

IsSide-in_region : (q : ℕ) → IsSide q → in_region q ≡ true
IsSide-in_region q h = ground arith

-- The slab that a size gets: its sides, and that it covers the size.
abbrev pub Fits : DeviceIntSize → SlabSize → Type 0
Fits size s =
    IsSide s.width
    × IsSide s.height
    × (size.width ≤ s.width)
    × (size.height ≤ s.height)
    × ((s.width ≡ s.height) ⊎ (is_rectangular s.width s.height ≡ true))

max-Fits :
    (size : DeviceIntSize) (x y : ℕ)
    → Covers size.width x
    → Covers size.height y
    → Fits size (record { width = max x y; height = max x y })
max-Fits size x y hx hy = elim (le-cases x y) [
  | inl le ↦
      let e : max x y ≡ y = omega arith in
      subst (λ m. Fits size (record { width = m; height = m })) (sym e)
        (hy.0, hy.0, omega (arith, hx.1), hy.1, inl refl)
  | inr lt ↦
      let e : max x y ≡ x = omega arith in
      subst (λ m. Fits size (record { width = m; height = m })) (sym e)
        (hx.0, hx.0, hx.1, omega (arith, hy.1), inl refl)
]

pick-Fits :
    (size : DeviceIntSize) (x y : ℕ)
    → Covers size.width x
    → Covers size.height y
    → Fits size (
        if is_rectangular x y
        then record { width = x; height = y }
        else record { width = max x y; height = max x y })
pick-Fits size x y hx hy = elim (Bool-cases (is_rectangular x y)) [
  | inl e ↦ rw e (hx.0, hy.0, hx.1, hy.1, inr e)
  | inr e ↦ rw e (max-Fits size x y hx hy)
]

-- A size from 1 by 1 up to a whole region, and the others.
abbrev pub InRange : DeviceIntSize → Type 0
InRange size = (1 ≤ size.width) × (size.width ≤ 512) × (1 ≤ size.height) × (size.height ≤ 512)

pub new_slab_size-done :
    (size : DeviceIntSize)
    → InRange size
    → (s : SlabSize) × (new_slab_size size ≡ done s) × Fits size s
unfolding new_slab_size
new_slab_size-done size h =
    let (x, ex, hx) = quantize_dimension-done size.width h.0 h.1 in
    let (y, ey, hy) = quantize_dimension-done size.height h.2 h.3 in
    (
      _,
      rw (ex, ey, IsSide-in_region x hx.0, IsSide-in_region y hy.0) refl,
      pick-Fits size x y hx hy,
    )

abbrev pub OutOfRange : DeviceIntSize → Type 0
OutOfRange size = (size.width ≡ 0) ⊎ (512 < size.width) ⊎ (size.height ≡ 0) ⊎ (512 < size.height)

quantize-cases : (n : ℕ) → ((n ≡ 0) ⊎ (512 < n)) ⊎ ((1 ≤ n) × (n ≤ 512))
quantize-cases n = omega arith

range-cases : (size : DeviceIntSize) → InRange size ⊎ OutOfRange size
range-cases size = omega arith

new_slab_size-panic : (size : DeviceIntSize) → OutOfRange size → new_slab_size size ≡ panic
unfolding new_slab_size
new_slab_size-panic size h = elim (quantize-cases size.width) [
  | inl bad ↦ rw (quantize_dimension-panic size.width bad) refl
  | inr good ↦
      let (x, ex, hx) = quantize_dimension-done size.width good.0 good.1 in
      rw (ex, quantize_dimension-panic size.height (omega (arith, h, good))) refl
]

-- A size gets a slab that covers it, whose sides are powers of two from 16 to 512; and the slab is a
-- square, or one of the rectangular ones. The call panics exactly for a size that is empty or has a side
-- above 512.
pub new_slab_size-Fits :
    (size : DeviceIntSize)
    → (InRange size × ((s : SlabSize) × (new_slab_size size ≡ done s) × Fits size s))
      ⊎ (OutOfRange size × (new_slab_size size ≡ panic))
new_slab_size-Fits size = elim (range-cases size) [
  | inl h ↦ inl (h, new_slab_size-done size h)
  | inr h ↦ inr (h, new_slab_size-panic size h)
]

IsSide-elim {ℓ} :
    (P : ℕ → Type ℓ) → P 16 → P 32 → P 64 → P 128 → P 256 → P 512 → (w : ℕ) → IsSide w → P w
IsSide-elim P a b c d e f w (inl h) = subst P (sym h) a
IsSide-elim P a b c d e f w (inr (inl h)) = subst P (sym h) b
IsSide-elim P a b c d e f w (inr (inr (inl h))) = subst P (sym h) c
IsSide-elim P a b c d e f w (inr (inr (inr (inl h)))) = subst P (sym h) d
IsSide-elim P a b c d e f w (inr (inr (inr (inr (inl h))))) = subst P (sym h) e
IsSide-elim P a b c d e f w (inr (inr (inr (inr (inr h))))) = subst P (sym h) f

-- The slots of an axis.
pub slots_per_axis : (w : ℕ) → IsSide w → div_i32 texture_region_dimensions w ≡ done (512 / w)
unfolding div_i32
slots_per_axis = IsSide-elim _ refl refl refl refl refl refl

pub slots_per_axis_le : (w : ℕ) → IsSide w → (1 ≤ 512 / w) × (512 / w ≤ 32)
slots_per_axis_le =
    IsSide-elim _ (omega arith, omega arith) (omega arith, omega arith) (omega arith, omega arith)
      (omega arith, omega arith) (omega arith, omega arith) (omega arith, omega arith)

abbrev pub SlotAt : ℕ → ℕ → Type 0
SlotAt x w =
    x < 512 / w
    → (mul_i32 w x ≡ w * x) × (w * x + w ≤ 512) × (div_i32 (mul_i32 w x) w ≡ done x) × (x < 32)

SlotAt_of :
    (w x : ℕ)
    → 1 ≤ w
    → w ≤ 512
    → w * x + w ≤ 512
    → x < 32
    → w * x / w ≡ x
    → (mul_i32 w x ≡ w * x) × (w * x + w ≤ 512) × (div_i32 (mul_i32 w x) w ≡ done x) × (x < 32)
unfolding mul_i32
SlotAt_of w x positive small fits below e =
    let product : mul_i32 w x ≡ w * x = omega arith in
    (
      product,
      fits,
      rw (product, div_i32-eq (w * x) w (omega arith) positive (omega arith), e) refl,
      below,
    )

pub slot_at : (x w : ℕ) → IsSide w → SlotAt x w
slot_at x =
    IsSide-elim (SlotAt x)
      (λ h. SlotAt_of 16 x (omega arith) (omega arith) omega arith (omega arith) omega arith)
      (λ h. SlotAt_of 32 x (omega arith) (omega arith) (omega arith) (omega arith) (omega arith))
      (λ h. SlotAt_of 64 x (omega arith) (omega arith) (omega arith) (omega arith) (omega arith))
      (λ h. SlotAt_of 128 x (omega arith) (omega arith) (omega arith) (omega arith) (omega arith))
      (λ h. SlotAt_of 256 x (omega arith) (omega arith) (omega arith) (omega arith) (omega arith))
      (λ h. SlotAt_of 512 x (omega arith) (omega arith) (omega arith) (omega arith) (omega arith))

-- Two slots of an axis are apart.
abbrev pub Apart : ℕ → ℕ → ℕ → Type 0
Apart x y w = x ≢ y → (w * x + w ≤ w * y) ⊎ (w * y + w ≤ w * x)

pub slots-Apart : (x y w : ℕ) → IsSide w → Apart x y w
slots-Apart x y =
    IsSide-elim (Apart x y) (λ ne. omega arith) (λ ne. omega arith) (λ ne. omega arith)
      (λ ne. omega arith) (λ ne. omega arith) (λ ne. omega arith)
