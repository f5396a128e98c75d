-- ===== src/TextureCache/Search.antt =====
-- The search of `TextureArray::alloc` (webrender/src/texture_cache.rs) through the regions of an array.
use webrender.Prelude.{
  ℕ, zero, suc, ◌+◌, ◌≤◌, ◌<◌, ◌≡◌, ◌≢◌, ◌⊎◌, refl, sym, ap, subst, inl, inr, ◌∙◌, List, [], ◌∷◌,
  Option, none, some, true, false, arith, length, get_elem?, set, All, Bool-cases,
}
use webrender.TextureAllocator.{DeviceIntPoint}
use webrender.TextureCache.Regions.{
  SlabSize, slab_invalid, same_slab, TextureLocation, TextureRegion, region_is_empty, alloc_slot,
}
use webrender.TextureCache.Entries.{EntryDetails, cache}
use webrender.TextureCache.Arrays.{alloc_loop}
use webrender.TextureCache.Owned.{Owned, Allocated, alloc_slot-cases}

-- The live slots of every layer.
abbrev pub Live : Type 0
Live = ℕ → List TextureLocation

-- A region is empty, or cut into slots.
abbrev pub LayerState : TextureRegion → List TextureLocation → Type 0
LayerState r live =
    ((r.slab_size ≡ slab_invalid) × (r.free_slots ≡ []) × (live ≡ [])) ⊎ Owned r live

-- The regions of an array from layer `i` on.
abbrev pub Layers : ℕ → List TextureRegion → Live → Type 0
Layers i [] live = Unit
Layers i (r ∷ rs) live = (r.layer_index ≡ i) × LayerState r (live i) × Layers (suc i) rs live

pub Layers-get :
    (i k : ℕ) (rs : List TextureRegion) (live : Live) {r : TextureRegion}
    → Layers i rs live
    → get_elem? rs k ≡ some r
    → (r.layer_index ≡ i + k) × LayerState r (live (i + k))
Layers-get i k [] live h e = cc
Layers-get i zero (r ∷ rs) live {r = r'} h e =
    let same : r ≡ r' = cc in
    let here : i ≡ i + 0 = omega arith in
    subst (λ s. (s.layer_index ≡ i + 0) × LayerState s (live (i + 0))) same
      (subst (λ j. (r.layer_index ≡ j) × LayerState r (live j)) here (h.0, h.1))
Layers-get i (suc k) (r ∷ rs) live {r = r'} h e =
    let there : suc i + k ≡ i + suc k = omega arith in
    subst (λ j. (r'.layer_index ≡ j) × LayerState r' (live j)) there
      (Layers-get (suc i) k rs live h.2 e)

Layers-cong :
    (i : ℕ) (rs : List TextureRegion) (live live' : Live)
    → ((j : ℕ) → i ≤ j → live' j ≡ live j)
    → Layers i rs live
    → Layers i rs live'
Layers-cong i [] live live' same h = tt
Layers-cong i (r ∷ rs) live live' same h = (
  h.0,
  subst (LayerState r) (sym (same i omega arith)) h.1,
  Layers-cong (suc i) rs live live' (λ j le. same j omega arith) h.2,
)

pub Layers-set :
    (i k : ℕ) (rs : List TextureRegion) (live live' : Live) (r' : TextureRegion)
    → Layers i rs live
    → k < length rs
    → r'.layer_index ≡ i + k
    → LayerState r' (live' (i + k))
    → ((j : ℕ) → j ≢ i + k → live' j ≡ live j)
    → Layers i (set rs k r') live'
Layers-set i k [] live live' r' h lt layer state same = cc
Layers-set i zero (r ∷ rs) live live' r' h lt layer state same =
    let here : i + 0 ≡ i = omega arith in
    (
      omega arith,
      subst (λ j. LayerState r' (live' j)) here state,
      Layers-cong (suc i) rs live live' (λ j le. same j omega arith) h.2,
    )
Layers-set i (suc k) (r ∷ rs) live live' r' h lt layer state same =
    let there : i + suc k ≡ suc i + k = omega arith in
    (
      h.0,
      subst (LayerState r) (sym (same i omega arith)) h.1,
      Layers-set (suc i) k rs live live' r' h.2 omega arith omega arith
          (subst (λ j. LayerState r' (live' j)) there state) (λ j ne. same j omega arith),
    )

-- A region that is cut is not empty.
pub Owned-not-empty :
    (r : TextureRegion) (live : List TextureLocation) → Owned r live → region_is_empty r ≡ false
Owned-not-empty r live h = ground (arith, h.width_is_side)

-- The steps of the search.
abbrev pub keep_region :
    TextureRegion
    → List TextureRegion × Option ℕ × Option EntryDetails
    → List TextureRegion × Option ℕ × Option EntryDetails
keep_region r found = (r ∷ found.0, found.1, found.2)

alloc_loop_empty :
    (s : SlabSize) (i : ℕ) (e : Option ℕ) (r : TextureRegion) (rs : List TextureRegion)
    → region_is_empty r ≡ true
    → alloc_loop s i e (r ∷ rs) ≡ keep_region r (alloc_loop s (suc i) (some i) rs)
unfolding alloc_loop
alloc_loop_empty s i e r rs empty = rw (empty, alloc_loop) refl

alloc_loop_other :
    (s : SlabSize) (i : ℕ) (e : Option ℕ) (r : TextureRegion) (rs : List TextureRegion)
    → region_is_empty r ≡ false
    → same_slab r.slab_size s ≡ false
    → alloc_loop s i e (r ∷ rs) ≡ keep_region r (alloc_loop s (suc i) e rs)
unfolding alloc_loop
alloc_loop_other s i e r rs used other = rw (used, other, alloc_loop) refl

alloc_loop_full :
    (s : SlabSize) (i : ℕ) (e : Option ℕ) (r : TextureRegion) (rs : List TextureRegion)
    → region_is_empty r ≡ false
    → same_slab r.slab_size s ≡ true
    → alloc_slot r ≡ (r, none)
    → alloc_loop s i e (r ∷ rs) ≡ keep_region r (alloc_loop s (suc i) e rs)
unfolding alloc_loop
alloc_loop_full s i e r rs used same full =
    let kept : (alloc_slot r).0 ≡ r = ap (λ t. t.0) full in
    let no_point : (alloc_slot r).1 ≡ none = ap (λ t. t.1) full in
    rw (used, same, no_point, kept, alloc_loop) refl

alloc_loop_hit :
    (s : SlabSize) (i : ℕ) (e : Option ℕ) (r r' : TextureRegion) (rs : List TextureRegion)
    (point : DeviceIntPoint)
    → region_is_empty r ≡ false
    → same_slab r.slab_size s ≡ true
    → alloc_slot r ≡ (r', some point)
    → alloc_loop s i e (r ∷ rs) ≡ (r' ∷ rs, e, some (cache point r.layer_index))
unfolding alloc_loop
alloc_loop_hit s i e r r' rs point used same hit =
    let after : (alloc_slot r).0 ≡ r' = ap (λ t. t.0) hit in
    let found : (alloc_slot r).1 ≡ some point = ap (λ t. t.1) hit in
    rw (used, same, found, after, alloc_loop) refl

-- No region of the list is empty.
abbrev pub NoneEmpty : List TextureRegion → Type 0
NoneEmpty = All (λ r. region_is_empty r ≡ false)

-- A slot was found, in region number `k` of the list.
pub record Hit (s : SlabSize) (i : ℕ) (e : Option ℕ) (rs : List TextureRegion) (live : Live)
    : Type 0 where
  pub k : ℕ
  pub before : TextureRegion
  pub after : TextureRegion
  pub point : DeviceIntPoint
  pub empty_index : Option ℕ
  pub at_k : get_elem? rs k ≡ some before
  pub slab_is : before.slab_size ≡ s
  pub taken : Allocated before after (live (i + k)) point
  pub result : alloc_loop s i e rs ≡ (set rs k after, empty_index, some (cache point (i + k)))

-- No slot was found: the index of an empty region, if there is one.
abbrev pub Miss : SlabSize → ℕ → Option ℕ → List TextureRegion → Type 0
Miss s i e rs =
    (NoneEmpty rs × (alloc_loop s i e rs ≡ (rs, e, none)))
    ⊎ ((k : ℕ) × (r : TextureRegion) × (get_elem? rs k ≡ some r)
        × (region_is_empty r ≡ true)
        × (alloc_loop s i e rs ≡ (rs, some (i + k), none)))

Hit-later :
    (s : SlabSize) (i : ℕ) (e e' : Option ℕ) (r : TextureRegion) (rs : List TextureRegion)
    (live : Live)
    → alloc_loop s i e (r ∷ rs) ≡ keep_region r (alloc_loop s (suc i) e' rs)
    → Hit s (suc i) e' rs live
    → Hit s i e (r ∷ rs) live
Hit-later s i e e' r rs live step h =
    let there : suc i + h.k ≡ i + suc h.k = omega arith in
    record {
      k = suc h.k;
      before = h.before;
      after = h.after;
      point = h.point;
      empty_index = h.empty_index;
      at_k = h.at_k;
      slab_is = h.slab_is;
      taken = subst (λ j. Allocated h.before h.after (live j) h.point) there h.taken;
      result =
          subst
            (λ j.
              alloc_loop s i e (r ∷ rs)
              ≡ (r ∷ set rs h.k h.after, h.empty_index, some (cache h.point j)))
            there (step ∙ ap (keep_region r) h.result);
    }

-- A miss in the rest of the list, behind a region that is not empty.
Miss-later :
    (s : SlabSize) (i : ℕ) (e : Option ℕ) (r : TextureRegion) (rs : List TextureRegion)
    → region_is_empty r ≡ false
    → alloc_loop s i e (r ∷ rs) ≡ keep_region r (alloc_loop s (suc i) e rs)
    → Miss s (suc i) e rs
    → Miss s i e (r ∷ rs)
Miss-later s i e r rs used step (inl (none_empty, eq)) =
    inl ((used, none_empty), step ∙ ap (keep_region r) eq)
Miss-later s i e r rs used step (inr (k, r', at_k, empty, eq)) = inr (
  suc k,
  r',
  at_k,
  empty,
  step ∙ ap (keep_region r) eq ∙ ap (λ j. (r ∷ rs, some j, none)) (omega arith),
)

-- A miss in the rest of the list, behind an empty region.
Miss-first :
    (s : SlabSize) (i : ℕ) (e : Option ℕ) (r : TextureRegion) (rs : List TextureRegion)
    → region_is_empty r ≡ true
    → alloc_loop s i e (r ∷ rs) ≡ keep_region r (alloc_loop s (suc i) (some i) rs)
    → Miss s (suc i) (some i) rs
    → Miss s i e (r ∷ rs)
Miss-first s i e r rs empty step (inl (none_empty, eq)) = inr (
  0,
  r,
  refl,
  empty,
  step ∙ ap (keep_region r) eq ∙ ap (λ j. (r ∷ rs, some j, none)) (omega arith),
)
Miss-first s i e r rs empty step (inr (k, r', at_k, empty', eq)) = inr (
  suc k,
  r',
  at_k,
  empty',
  step ∙ ap (keep_region r) eq ∙ ap (λ j. (r ∷ rs, some j, none)) (omega arith),
)

same_slab-eq : (a b : SlabSize) → same_slab a b ≡ true → a ≡ b
same_slab-eq a b h =
    let w : a.width ≡ b.width = ground (arith, h) in
    let l : a.height ≡ b.height = ground (arith, h) in cc

search_rest :
    (s : SlabSize) (i : ℕ) (e e' : Option ℕ) (r : TextureRegion) (rs : List TextureRegion)
    (live : Live)
    → alloc_loop s i e (r ∷ rs) ≡ keep_region r (alloc_loop s (suc i) e' rs)
    → (Miss s (suc i) e' rs → Miss s i e (r ∷ rs))
    → Hit s (suc i) e' rs live ⊎ Miss s (suc i) e' rs
    → Hit s i e (r ∷ rs) live ⊎ Miss s i e (r ∷ rs)
search_rest s i e e' r rs live step miss (inl hit) = inl (Hit-later s i e e' r rs live step hit)
search_rest s i e e' r rs live step miss (inr m) = inr (miss m)

pub alloc_loop-cases :
    (s : SlabSize) (i : ℕ) (e : Option ℕ) (rs : List TextureRegion) (live : Live)
    → Layers i rs live
    → Hit s i e rs live ⊎ Miss s i e rs
unfolding alloc_loop
alloc_loop-cases s i e [] live h = inr (inl (tt, refl))
alloc_loop-cases s i e (r ∷ rs) live (layer, inl (slab, free, no_live), rest) =
    let empty : region_is_empty r ≡ true = rw slab refl in
    search_rest s i e (some i) r rs live (alloc_loop_empty s i e r rs empty)
      (Miss-first s i e r rs empty (alloc_loop_empty s i e r rs empty))
      (alloc_loop-cases s (suc i) (some i) rs live rest)
alloc_loop-cases s i e (r ∷ rs) live (layer, inr owned, rest) =
    let used = Owned-not-empty r (live i) owned in
    let later = alloc_loop-cases s (suc i) e rs live rest in
    elim (Bool-cases (same_slab r.slab_size s)) [
      | inr other ↦
          let step = alloc_loop_other s i e r rs used other in
          search_rest s i e e r rs live step (Miss-later s i e r rs used step) later
      | inl same ↦ elim (alloc_slot-cases r (live i) owned) [
        | inl (no_slot, full) ↦
            let step = alloc_loop_full s i e r rs used same full in
            search_rest s i e e r rs live step (Miss-later s i e r rs used step) later
        | inr (r', point, hit, taken) ↦
            let here : i ≡ i + 0 = omega arith in
            inl (record {
              k = 0;
              before = r;
              after = r';
              point = point;
              empty_index = e;
              at_k = refl;
              slab_is = same_slab-eq r.slab_size s same;
              taken = subst (λ j. Allocated r r' (live j) point) here taken;
              result =
                  alloc_loop_hit s i e r r' rs point used same hit
                  ∙ ap (λ j. (r' ∷ rs, e, some (cache point j))) (layer ∙ here);
            })
      ]
    ]
