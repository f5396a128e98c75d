-- ===== src/TextureAllocator/Bins.antt =====
-- The bins of webrender/src/texture_allocator.rs: the bin for a size, and the invariant that each
-- bin holds non-empty rectangles of its own class, inside their slice.
use webrender.Prelude.{
  ℕ, zero, suc, ◌+◌, ◌≤◌, ◌<◌, ◌≡◌, refl, ◌⊎◌, subst, List, [], ◌∷◌, ◌++◌, some, ◌&&◌, done, panic,
  arith, length, get_elem?, set, All, All-append, length-set, get_elem?_of_lt, leb, if◌then◌else◌,
}
use mathlib.Core.Option.{some-injective}
use webrender.Prelude.I32.{i32_half, i32_mod, le_i32, le_i32-leb}
use webrender.TextureAllocator.{
  DeviceIntRect, DeviceIntSize, FreeRect, ArrayAllocationTracker, for_size, push, new, num_bins,
}
use webrender.TextureAllocator.Cover.{weigh_bins, weigh_bins-set, weigh-append}

-- The last class whose minimum both sides reach.
abbrev pub bin_of : ℕ → ℕ → ℕ
bin_of w h = if leb 32 w && leb 32 h then 2 else if leb 16 w && leb 16 h then 1 else 0

-- Of a non-empty size, `for_size` gives the class, and it panics on no such size.
pub for_size-bin_of :
    (size : DeviceIntSize)
    → 0 < size.width
    → 0 < size.height
    → size.width < i32_half
    → size.height < i32_half
    → for_size size ≡ done (bin_of size.width size.height)
unfolding for_size
for_size-bin_of size pw ph sw sh = ground (
  arith,
  le_i32-leb 1 size.width (omega arith) sw,
  le_i32-leb 1 size.height (omega arith) sh,
  le_i32-leb 16 size.width (omega arith) sw,
  le_i32-leb 16 size.height (omega arith) sh,
  le_i32-leb 32 size.width (omega arith) sw,
  le_i32-leb 32 size.height (omega arith) sh,
)

-- A side that is zero or negative makes it panic.
pub for_size_panics :
    (size : DeviceIntSize)
    → size.width < i32_mod
    → size.height < i32_mod
    → (size.width ≡ 0) ⊎ (size.height ≡ 0) ⊎ (i32_half ≤ size.width) ⊎ (i32_half ≤ size.height)
    → for_size size ≡ panic
unfolding for_size le_i32
for_size_panics size sw sh bad = ground arith

pub bin_of-lt : (w h : ℕ) → bin_of w h < 3
bin_of-lt w h = ground arith

-- A rectangle that the request fits in is in the request's bin or a later one.
pub bin_of_mono : (w h w' h' : ℕ) → w ≤ w' → h ≤ h' → bin_of w h ≤ bin_of w' h'
bin_of_mono w h w' h' p q = ground arith

module _ (dims : ℕ → DeviceIntSize) where
  -- A free rectangle is not empty, and lies inside its slice, whose size is a valid `i32` size.
  pub record IsInside (r : FreeRect) : Type 0 where
    pub pos_width : 0 < r.rect.size.width
    pub pos_height : 0 < r.rect.size.height
    pub right : r.rect.origin.x + r.rect.size.width ≤ (dims r.slice).width
    pub bottom : r.rect.origin.y + r.rect.size.height ≤ (dims r.slice).height
    pub small_width : (dims r.slice).width < i32_half
    pub small_height : (dims r.slice).height < i32_half

  abbrev pub InBin : ℕ → FreeRect → Type 0
  InBin id r = IsInside r × (bin_of r.rect.size.width r.rect.size.height ≡ id)

  abbrev pub BinsFrom : ℕ → List (List FreeRect) → Type 0
  BinsFrom id [] = Unit
  BinsFrom id (b ∷ bs) = All (InBin id) b × BinsFrom (suc id) bs

  pub record Inv (t : ArrayAllocationTracker) : Type 0 where
    pub three : length t.bins ≡ num_bins
    pub sorted : BinsFrom 0 t.bins

  pub BinsFrom-get :
      (bins : List (List FreeRect)) (id i : ℕ) (bin : List FreeRect)
      → BinsFrom id bins
      → get_elem? bins i ≡ some bin
      → All (InBin (id + i)) bin
  BinsFrom-get [] id i bin h e = cc
  BinsFrom-get (b ∷ bs) id zero bin h e =
      let same : id ≡ id + 0 = omega arith in
      subst (λ k. All (InBin k) bin) same (subst (λ c. All (InBin id) c) (some-injective _ _ e) h.0)
  BinsFrom-get (b ∷ bs) id (suc i) bin h e =
      let same : suc id + i ≡ id + suc i = omega arith in
      subst (λ k. All (InBin k) bin) same (BinsFrom-get bs (suc id) i bin h.1 e)

  pub BinsFrom-set :
      (bins : List (List FreeRect)) (id i : ℕ) (bin : List FreeRect)
      → BinsFrom id bins
      → All (InBin (id + i)) bin
      → BinsFrom id (set bins i bin)
  BinsFrom-set [] id i bin h k = tt
  BinsFrom-set (b ∷ bs) id zero bin h k =
      let same : id + 0 ≡ id = omega arith in (subst (λ k. All (InBin k) bin) same k, h.1)
  BinsFrom-set (b ∷ bs) id (suc i) bin h k =
      let same : id + suc i ≡ suc id + i = omega arith in
      (h.0, BinsFrom-set bs (suc id) i bin h.1 (subst (λ k. All (InBin k) bin) same k))

  pub new-Inv : Inv new
  unfolding new
  new-Inv = record { three = refl; sorted = (tt, (tt, (tt, tt))) }

  -- A push of a rectangle inside its slice goes to the bin of its class, at the end.
  pub push_lem :
      (t : ArrayAllocationTracker) (slice : ℕ) (rect : DeviceIntRect)
      → Inv t
      → IsInside (record { slice = slice; rect = rect })
      → (t' : ArrayAllocationTracker) × (push t slice rect ≡ done t')
        × Inv t'
        × ((weight : FreeRect → ℕ)
            → weigh_bins weight t'.bins
              ≡ weigh_bins weight t.bins + weight (record { slice = slice; rect = rect }))
  unfolding push
  push_lem t slice rect v inside =
      let w = rect.size.width in
      let h = rect.size.height in
      let id = bin_of w h in
      let r : FreeRect = record { slice = slice; rect = rect } in
      let (bin, at_id) = get_elem?_of_lt t.bins id (omega (arith, bin_of-lt w h, v.three)) in
      (
        record { bins = set t.bins id (bin ++ r ∷ []) },
        rw
            (
              for_size-bin_of rect.size inside.pos_width inside.pos_height (omega arith)
                  (omega arith),
              at_id,
            )
            refl,
        record {
          three = omega (arith, length-set t.bins id (bin ++ r ∷ []), v.three);
          sorted = BinsFrom-set t.bins 0 id (bin ++ r ∷ []) v.sorted (
              All-append (InBin (0 + id)) bin (r ∷ []) (BinsFrom-get t.bins 0 id bin v.sorted at_id)
                ((inside, omega arith), tt));
        },
        λ weight. omega (
          arith,
          weigh_bins-set weight t.bins id bin (bin ++ r ∷ []) at_id,
          weigh-append weight bin (r ∷ []),
        ),
      )
