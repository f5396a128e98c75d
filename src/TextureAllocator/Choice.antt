-- ===== src/TextureAllocator/Choice.antt =====
-- Which rectangle of a bin the search of webrender/src/texture_allocator.rs chooses: the first one that fits,
-- or the one of the smallest area.
use webrender.Prelude.{
  ℕ, zero, suc, ◌<◌, ◌≡◌, sym, subst, inl, inr, List, [], ◌∷◌, Option, none, some, Bool, true,
  false, arith, get_elem?, All, All-both, Option-cases, Bool-cases,
}
use webrender.Prelude.I32.{gt_i32, le_i32, le_i32_refl, le_i32_total, le_i32_trans}
use webrender.TextureAllocator.{
  DeviceIntSize, FreeRect, fits_in, position, smaller, smallest, find_in_bin, index_of, area,
}
use webrender.TextureAllocator.Bins.{IsInside, InBin}
use webrender.TextureAllocator.Find.{
  IsRequest, Fits, TooSmall, fits_in-false, smallest-FindsFrom, FindsFrom-Finds, find_in_bin-Finds,
}

-- The area of the rectangle is at least `a`, if the request fits in it.
abbrev pub NoSmaller : DeviceIntSize → ℕ → FreeRect → Type 0
NoSmaller size a r = Fits size r → le_i32 a (area r.rect.size) ≡ true

-- The request fits in none of the first `i` rectangles.
abbrev pub NoneBefore : DeviceIntSize → List FreeRect → ℕ → Type 0
NoneBefore size bin i = (j : ℕ) (d : FreeRect) → j < i → get_elem? bin j ≡ some d → TooSmall size d

-- What is chosen in a bin: of the smallest area among those that fit, or the first that fits.
abbrev pub Chooses : DeviceIntSize → Bool → List FreeRect → Option ℕ → Type 0
Chooses size by_area bin none = All (TooSmall size) bin
Chooses size true bin (some i) =
    (c : FreeRect) × (get_elem? bin i ≡ some c)
    × Fits size c
    × All (NoSmaller size (area c.rect.size)) bin
Chooses size false bin (some i) =
    ((c : FreeRect) × (get_elem? bin i ≡ some c) × Fits size c) × NoneBefore size bin i

abbrev AtMost : ℕ → Option (ℕ × ℕ) → Type 0
AtMost a none = Unit
AtMost a (some (j, b)) = le_i32 a b ≡ true

-- One round: the area that is kept is at most those of the best so far and of the candidate, if it fits.
smaller-AtMost :
    (size : DeviceIntSize) (c : FreeRect) (i a : ℕ) (best : Option (ℕ × ℕ))
    → AtMost a (smaller size c i best)
    → AtMost a best × (fits_in size c ≡ true → le_i32 a (area c.rect.size) ≡ true)
unfolding smaller gt_i32
smaller-AtMost size c i a none h = (tt, λ fits. ground (arith, h, fits))
smaller-AtMost size c i a (some (j, b)) h = elim (Bool-cases (fits_in size c)) [
  | inr miss ↦ (ground (arith, h, miss), λ fits. cc)
  | inl fits ↦ elim (Bool-cases (le_i32 b (area c.rect.size))) [
    | inl le ↦
        let here : le_i32 a b ≡ true = ground (arith, h, fits, le) in
        (here, λ fits. le_i32_trans a b (area c.rect.size) here le)
    | inr gt ↦
        let here : le_i32 a (area c.rect.size) ≡ true = ground (arith, h, fits, gt) in
        (
          le_i32_trans a (area c.rect.size) b here (le_i32_total b (area c.rect.size) gt),
          λ fits. here,
        )
  ]
]

smallest-AtMost :
    (size : DeviceIntSize) (cs : List FreeRect) (i : ℕ) (best : Option (ℕ × ℕ)) {k a : ℕ}
    → smallest size cs i best ≡ some (k, a)
    → AtMost a best × All (λ c. fits_in size c ≡ true → le_i32 a (area c.rect.size) ≡ true) cs
unfolding smallest
smallest-AtMost size [] i best {k} {a} h = (subst (AtMost a) (sym h) (le_i32_refl a), tt)
smallest-AtMost size (c ∷ cs) i best {k} {a} h =
    let (later, rest) = smallest-AtMost size cs (suc i) (smaller size c i best) h in
    let (before, here) = smaller-AtMost size c i a best later in (before, (here, rest))

module _ (dims : ℕ → DeviceIntSize) (size : DeviceIntSize) (ok : IsRequest size) where
  Fits-fits_in : (c : FreeRect) → IsInside dims c → Fits size c → fits_in size c ≡ true
  Fits-fits_in c v fits = elim (Bool-cases (fits_in size c)) [
    | inl e ↦ e
    | inr e ↦ absurd (elim (fits_in-false dims size ok c v e) [
      | inl narrow ↦ omega (arith, narrow, fits.0)
      | inr low ↦ omega (arith, low, fits.1)
    ])
  ]

  smallest-Chooses :
      (id : ℕ) (bin : List FreeRect)
      → All (InBin dims id) bin
      → Chooses size true bin (index_of (smallest size bin 0 none))
  smallest-Chooses id bin h =
      let from = smallest-FindsFrom dims size ok id 0 bin none h in
      let finds = FindsFrom-Finds dims size ok bin (smallest size bin 0 none) from in
      elim (Option-cases (smallest size bin 0 none)) [
        | inl e ↦ rw e (rw e at finds)
        | inr ((k, a), e) ↦ elim (rw e at from) [
          | inl clash ↦ cc
          | inr (j, at, c, at_j, fits, same) ↦
              let here : k ≡ j = omega (arith, at) in
              let (_, least) = smallest-AtMost size bin 0 none e in
              rw (e, here)
                (
                  c,
                  at_j,
                  fits,
                  subst (λ a. All (NoSmaller size a) bin) same
                      (All-both (InBin dims id) _ (NoSmaller size a) bin
                        (λ d v le fits. le (Fits-fits_in d v.0 fits)) h least),
                )
        ]
      ]

  NoneBefore-cons :
      (c : FreeRect) (cs : List FreeRect) (k : ℕ)
      → TooSmall size c
      → NoneBefore size cs k
      → NoneBefore size (c ∷ cs) (suc k)
  NoneBefore-cons c cs k small before zero d lt at_j =
      let is : c ≡ d = cc in subst (TooSmall size) is small
  NoneBefore-cons c cs k small before (suc j) d lt at_j = before j d (omega (arith, lt)) at_j

  -- Nothing before the place that is found fits.
  position-Chooses :
      (id : ℕ) (bin : List FreeRect)
      → All (InBin dims id) bin
      → (i : ℕ) → position size bin ≡ some i
      → NoneBefore size bin i
  unfolding position
  position-Chooses id [] h i e j d lt at_j = cc
  position-Chooses id (c ∷ cs) h i e j d lt at_j = elim (Bool-cases (fits_in size c)) [
    | inl hit ↦
        let first : some 0 ≡ some i = rw (hit, position) at e in
        let is : 0 ≡ i = cc in absurd (omega (arith, is, lt))
    | inr miss ↦ elim (Option-cases (position size cs)) [
      | inl e' ↦ let clash : none ≡ some i = rw (miss, position, e') at e in cc
      | inr (k, e') ↦
          let later : some (suc k) ≡ some i = rw (miss, position, e') at e in
          let is : suc k ≡ i = cc in
          NoneBefore-cons c cs k (fits_in-false dims size ok c h.0.0 miss)
            (position-Chooses id cs h.1 k e') j d (omega (arith, is, lt)) at_j
    ]
  ]

  -- The search in one bin, on a valid request: by area it returns a rectangle that the request fits in, and none
  -- that the request fits in has a smaller area, as an `i32`; otherwise it returns the first one that the request
  -- fits in. It returns none only if every rectangle of the bin is too small.
  pub find_in_bin-Chooses :
      (id : ℕ) (bin : List FreeRect) (by_area : Bool)
      → All (InBin dims id) bin
      → Chooses size by_area bin (find_in_bin by_area size bin)
  unfolding find_in_bin
  find_in_bin-Chooses id bin true h = smallest-Chooses id bin h
  find_in_bin-Chooses id bin false h =
      let finds = find_in_bin-Finds dims size ok id bin false h in
      elim (Option-cases (position size bin)) [
        | inl e ↦ rw e (rw e at finds)
        | inr (i, e) ↦ rw e (rw e at finds, position-Chooses id bin h i e)
      ]
