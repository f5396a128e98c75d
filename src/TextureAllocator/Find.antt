-- ===== src/TextureAllocator/Find.antt =====
-- The search of webrender/src/texture_allocator.rs for a free rectangle: what it returns fits, and it
-- gives up only where no free rectangle fits, whichever way the candidates of a bin are compared.
use webrender.Prelude.{
  ℕ, zero, suc, ◌+◌, ◌-◌, ◌≤◌, ◌<◌, ◌≡◌, ◌≢◌, refl, subst, sym, ◌∙◌, ltb, ◌==◌, ◌⊎◌, inl, inr, List,
  [], ◌∷◌, Option, none, some, Bool, true, false, done, arith, get_elem?, lt_of_get_elem?,
  get_elem?_of_lt, All, All-map, All-of_get_elem?, tests, Option-cases, Bool-cases,
}
use mathlib.Core.Option.{some-injective}
use webrender.Prelude.I32.{i32_half, gt_i32, le_i32-leb}
use webrender.TextureAllocator.{
  DeviceIntSize, FreeRect, ArrayAllocationTracker, fits_in, position, smaller, smallest,
  find_in_bin, find_from, find_index_of_best_rect, index_of, find_smallest_area, num_bins, area,
}
use webrender.TextureAllocator.Bins.{
  IsInside, InBin, BinsFrom-get, Inv, bin_of, bin_of-lt, bin_of_mono, for_size-bin_of,
}

-- A valid request.
pub record IsRequest (size : DeviceIntSize) : Type 0 where
  pub pos_width : 0 < size.width
  pub pos_height : 0 < size.height
  pub small_width : size.width < i32_half
  pub small_height : size.height < i32_half

abbrev pub Fits : DeviceIntSize → FreeRect → Type 0
Fits size r = (size.width ≤ r.rect.size.width) × (size.height ≤ r.rect.size.height)

abbrev pub TooSmall : DeviceIntSize → FreeRect → Type 0
TooSmall size r = (r.rect.size.width < size.width) ⊎ (r.rect.size.height < size.height)

module _ (dims : ℕ → DeviceIntSize) (size : DeviceIntSize) (ok : IsRequest size) where
  fits_in-true : (c : FreeRect) → IsInside dims c → fits_in size c ≡ true → Fits size c
  fits_in-true c v e = ground (
    arith,
    le_i32-leb size.width c.rect.size.width ok.small_width (omega (arith, v.right, v.small_width)),
    le_i32-leb size.height c.rect.size.height ok.small_height
        (omega (arith, v.bottom, v.small_height)),
  )

  pub fits_in-false : (c : FreeRect) → IsInside dims c → fits_in size c ≡ false → TooSmall size c
  fits_in-false c v e = ground (
    arith,
    le_i32-leb size.width c.rect.size.width ok.small_width (omega (arith, v.right, v.small_width)),
    le_i32-leb size.height c.rect.size.height ok.small_height
        (omega (arith, v.bottom, v.small_height)),
  )

  -- What a search through a bin promises.
  abbrev pub Finds : List FreeRect → Option ℕ → Type 0
  Finds bin none = All (TooSmall size) bin
  Finds bin (some i) = (c : FreeRect) × (get_elem? bin i ≡ some c) × Fits size c

  position-Finds :
      (id : ℕ) (bin : List FreeRect) → All (InBin dims id) bin → Finds bin (position size bin)
  unfolding position
  position-Finds id [] h = tt
  position-Finds id (c ∷ cs) h = elim (Bool-cases (fits_in size c)) [
    | inl hit ↦ rw (hit, position) (c, refl, fits_in-true c h.0.0 hit)
    | inr miss ↦
        let later = position-Finds id cs h.1 in
        elim (Option-cases (position size cs)) [
          | inl e ↦ rw (miss, position, e) (fits_in-false c h.0.0 miss, (rw e at later))
          | inr (i, e) ↦ rw (miss, position, e) (rw e at later)
        ]
  ]

  -- The loop for the smallest area: its result is the best so far or a later candidate that fits.
  abbrev pub FindsFrom : ℕ → List FreeRect → Option (ℕ × ℕ) → Option (ℕ × ℕ) → Type 0
  FindsFrom i cs best none = (best ≡ none) × All (TooSmall size) cs
  FindsFrom i cs best (some (k, a)) =
      (best ≡ some (k, a))
      ⊎ ((j : ℕ) × (k ≡ i + j)
          × (c : FreeRect) × (get_elem? cs j ≡ some c)
          × Fits size c
          × (a ≡ area c.rect.size))

  smaller-cases :
      (c : FreeRect) (i : ℕ) (best : Option (ℕ × ℕ))
      → IsInside dims c
      → ((smaller size c i best ≡ best) × (TooSmall size c))
        ⊎ ((smaller size c i best ≡ best) × (best ≢ none))
        ⊎ ((smaller size c i best ≡ some (i, area c.rect.size)) × Fits size c)
  unfolding smaller gt_i32
  smaller-cases c i best v = ground (arith, fits_in-true c v, fits_in-false c v)

  FindsFrom-skip :
      (i : ℕ) (c : FreeRect) (cs : List FreeRect) (best : Option (ℕ × ℕ)) (r : Option (ℕ × ℕ))
      → (best ≢ none) ⊎ TooSmall size c
      → FindsFrom (suc i) cs best r
      → FindsFrom i (c ∷ cs) best r
  FindsFrom-skip i c cs best none (inl full) (e, small) = absurd (full e)
  FindsFrom-skip i c cs best none (inr bad) (e, small) = (e, (bad, small))
  FindsFrom-skip i c cs best (some (k, a)) why (inl e) = inl e
  FindsFrom-skip i c cs best (some (k, a)) why (inr (j, at, d, at_j, fits, same)) =
      inr (suc j, omega arith, d, at_j, fits, same)

  FindsFrom-take :
      (i : ℕ) (c : FreeRect) (cs : List FreeRect) (best : Option (ℕ × ℕ)) (r : Option (ℕ × ℕ))
      → Fits size c
      → FindsFrom (suc i) cs (some (i, area c.rect.size)) r
      → FindsFrom i (c ∷ cs) best r
  FindsFrom-take i c cs best none fits (e, small) = cc
  FindsFrom-take i c cs best (some (k, b)) fits (inl e) = inr (0, ground arith, c, refl, fits, cc)
  FindsFrom-take i c cs best (some (k, b)) fits (inr (j, at, d, at_j, fits', same)) =
      inr (suc j, omega arith, d, at_j, fits', same)

  pub smallest-FindsFrom :
      (id i : ℕ) (cs : List FreeRect) (best : Option (ℕ × ℕ))
      → All (InBin dims id) cs
      → FindsFrom i cs best (smallest size cs i best)
  unfolding smallest
  smallest-FindsFrom id i [] none h = (refl, tt)
  smallest-FindsFrom id i [] (some (k, a)) h = inl refl
  smallest-FindsFrom id i (c ∷ cs) best h =
      let later = smallest-FindsFrom id (suc i) cs (smaller size c i best) h.1 in
      let r = smallest size cs (suc i) (smaller size c i best) in
      elim (smaller-cases c i best h.0.0) [
        | inl (e, bad) ↦
            FindsFrom-skip i c cs best _ (inr bad) (subst (λ b. FindsFrom (suc i) cs b r) e later)
        | inr (inl (e, full)) ↦
            FindsFrom-skip i c cs best _ (inl full) (subst (λ b. FindsFrom (suc i) cs b r) e later)
        | inr (inr (e, fits)) ↦
            FindsFrom-take i c cs best _ fits (subst (λ b. FindsFrom (suc i) cs b r) e later)
      ]

  pub FindsFrom-Finds :
      (cs : List FreeRect) (r : Option (ℕ × ℕ)) → FindsFrom 0 cs none r → Finds cs (index_of r)
  FindsFrom-Finds cs none (e, small) = small
  FindsFrom-Finds cs (some (k, a)) (inl e) = cc
  FindsFrom-Finds cs (some (k, a)) (inr (j, at, c, at_j, fits, _)) =
      (c, rw (let same : k ≡ j = omega arith in same) at_j, fits)

  -- Whichever candidate of a bin is preferred, the search returns one that fits, and it returns none
  -- only if every rectangle of the bin is too small.
  pub find_in_bin-Finds :
      (id : ℕ) (bin : List FreeRect) (by_area : Bool)
      → All (InBin dims id) bin
      → Finds bin (find_in_bin by_area size bin)
  unfolding find_in_bin
  find_in_bin-Finds id bin true h =
      FindsFrom-Finds bin (smallest size bin 0 none) (smallest-FindsFrom id 0 bin none h)
  find_in_bin-Finds id bin false h = position-Finds id bin h

  -- All the bins from one on hold rectangles that are too small.
  abbrev NoneFrom : ℕ → List (List FreeRect) → Type 0
  NoneFrom id bins =
      (j : ℕ) (bin : List FreeRect) → id ≤ j → get_elem? bins j ≡ some bin → All (TooSmall size) bin

  abbrev FindsIn : ℕ → List (List FreeRect) → Option (ℕ × ℕ) → Type 0
  FindsIn id bins none = NoneFrom id bins
  FindsIn id bins (some (b, i)) =
      (bin : List FreeRect) × (c : FreeRect) × (get_elem? bins b ≡ some bin)
      × (get_elem? bin i ≡ some c)
      × Fits size c

  FindsIn-skip :
      (id : ℕ) (bins : List (List FreeRect)) (bin : List FreeRect) (r : Option (ℕ × ℕ))
      → get_elem? bins id ≡ some bin
      → All (TooSmall size) bin
      → FindsIn (suc id) bins r
      → FindsIn id bins r
  FindsIn-skip id bins bin (some (b, i)) at_id small later = later
  FindsIn-skip id bins bin none at_id small later = λ j other le at_j. elim (Bool-cases (j == id)) [
    | inl hit ↦
        let same : id ≡ j = ground arith in
        let shown : get_elem? bins id ≡ some other = rw same at_j in
        subst (All (TooSmall size)) (some-injective _ _ (sym at_id ∙ shown)) small
    | inr miss ↦ later j other (ground arith) at_j
  ]

  find_from_step :
      (n id : ℕ) (t : ArrayAllocationTracker) (bin : List FreeRect) (r : Option (ℕ × ℕ))
      → get_elem? t.bins id ≡ some bin
      → Finds bin (find_in_bin find_smallest_area size bin)
      → find_from n (suc id) t size ≡ done r
      → FindsIn (suc id) t.bins r
      → (q : Option (ℕ × ℕ)) × (find_from (suc n) id t size ≡ done q) × FindsIn id t.bins q
  unfolding find_from
  find_from_step n id t bin r at_id here returns later =
      elim (Option-cases (find_in_bin find_smallest_area size bin)) [
        | inl e ↦
            (r, ground (arith, returns), FindsIn-skip id t.bins bin r at_id (rw e at here) later)
        | inr (i, e) ↦
            let (c, at_i, fits) = (rw e at here) in
            (some (id, i), ground arith, (bin, c, at_id, at_i, fits))
      ]

  find_from-FindsIn :
      (n id : ℕ) (t : ArrayAllocationTracker)
      → Inv dims t
      → n + id ≡ num_bins
      → (r : Option (ℕ × ℕ)) × (find_from n id t size ≡ done r) × FindsIn id t.bins r
  unfolding find_from
  find_from-FindsIn zero id t v e =
      (none, refl, λ j bin le at_j. absurd (omega (arith, lt_of_get_elem? t.bins j at_j, v.three)))
  find_from-FindsIn (suc n) id t v e =
      let (bin, at_id) = get_elem?_of_lt t.bins id (omega (arith, v.three)) in
      let (r, returns, later) = find_from-FindsIn n (suc id) t v (omega arith) in
      find_from_step n id t bin r at_id
        (find_in_bin-Finds (0 + id) bin find_smallest_area
          (BinsFrom-get dims t.bins 0 id bin v.sorted at_id))
        returns later

  -- A bin below the request's own class holds only rectangles that are too small.
  below_class :
      (id : ℕ) (c : FreeRect)
      → id < bin_of size.width size.height
      → InBin dims id c
      → TooSmall size c
  below_class id c low v =
      ground (arith, bin_of_mono size.width size.height c.rect.size.width c.rect.size.height)

  -- What a search through all the bins promises.
  abbrev pub FindsPlace : List (List FreeRect) → Option (ℕ × ℕ) → Type 0
  FindsPlace bins none = All (All (TooSmall size)) bins
  FindsPlace bins (some (b, i)) =
      (bin : List FreeRect) × (c : FreeRect) × (get_elem? bins b ≡ some bin)
      × (get_elem? bin i ≡ some c)
      × Fits size c

  FindsIn-FindsPlace :
      (t : ArrayAllocationTracker) (r : Option (ℕ × ℕ))
      → Inv dims t
      → FindsIn (bin_of size.width size.height) t.bins r
      → FindsPlace t.bins r
  FindsIn-FindsPlace t (some (b, i)) v finds = finds
  FindsIn-FindsPlace t none v finds = All-of_get_elem? (All (TooSmall size)) t.bins λ j bin at_j.
      elim (Bool-cases (ltb j (bin_of size.width size.height))) [
        | inl low ↦
            All-map (InBin dims (0 + j)) (TooSmall size) bin
              (λ c. below_class (0 + j) c (omega tests))
              (BinsFrom-get dims t.bins 0 j bin v.sorted at_j)
        | inr high ↦ finds j bin (ground arith) at_j
      ]

  -- The search never panics on a valid request. It returns the place of a free rectangle that the
  -- request fits in, and returns none only if every free rectangle of every bin is too small.
  pub find_index_of_best_rect_lem :
      (t : ArrayAllocationTracker)
      → Inv dims t
      → (r : Option (ℕ × ℕ)) × (find_index_of_best_rect t size ≡ done r) × FindsPlace t.bins r
  unfolding find_index_of_best_rect
  find_index_of_best_rect_lem t v =
      let start = bin_of size.width size.height in
      let low = bin_of-lt size.width size.height in
      let (r, returns, finds) = find_from-FindsIn (num_bins - start) start t v (omega arith) in
      (
        r,
        rw (for_size-bin_of size ok.pos_width ok.pos_height ok.small_width ok.small_height) returns,
        FindsIn-FindsPlace t r v finds,
      )
