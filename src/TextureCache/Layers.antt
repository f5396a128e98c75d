-- ===== src/TextureCache/Layers.antt =====
-- The well-formed `TextureArray` of webrender/src/texture_cache.rs: its layers, the slots that live in them,
-- and the operations that keep it so.
use webrender.Prelude.{
  ℕ, zero, suc, ◌+◌, ◌%◌, ◌≤◌, ◌<◌, ◌≡◌, ◌≢◌, refl, sym, subst, inl, ◌∙◌, List, [], ◌∷◌, ◌++◌, some,
  true, done, arith, leb, ◌==◌, if◌then◌else◌, length, get_elem?, set, usize_mod, length-append,
  length-set, lt_of_get_elem?, get_elem?-append_length,
}
use webrender.TextureCache.Regions.{TextureLocation, TextureRegion, new_region, region_is_empty}
use webrender.TextureCache.Arrays.{TextureArray, push_region}
use webrender.TextureCache.Search.{Live, LayerState, Layers, Layers-get, Layers-set}

abbrev pub empty_bit : TextureRegion → ℕ
empty_bit r = if region_is_empty r then 1 else 0

unfoldable pub empty_count : List TextureRegion → ℕ
empty_count [] = 0
empty_count (r ∷ rs) = empty_bit r + empty_count rs

pub empty_count-length : (rs : List TextureRegion) → empty_count rs ≤ length rs
unfolding empty_count
empty_count-length [] = omega arith
empty_count-length (r ∷ rs) = ground (arith, empty_count-length rs)

empty_count-append :
    (rs : List TextureRegion) (r : TextureRegion)
    → empty_count (rs ++ r ∷ []) ≡ empty_count rs + empty_bit r
unfolding empty_count
empty_count-append [] r = omega arith
empty_count-append (q ∷ rs) r = omega (arith, empty_count-append rs r)

pub empty_count-set :
    (rs : List TextureRegion) (k : ℕ) (r r' : TextureRegion)
    → get_elem? rs k ≡ some r
    → empty_count (set rs k r') + empty_bit r ≡ empty_count rs + empty_bit r'
unfolding empty_count
empty_count-set [] k r r' e = cc
empty_count-set (q ∷ rs) zero r r' e =
    let same : q ≡ r = cc in
    subst
      (λ s.
        empty_bit r' + empty_count rs + empty_bit s ≡ empty_bit q + empty_count rs + empty_bit r')
      same (omega arith)
empty_count-set (q ∷ rs) (suc k) r r' e = omega (arith, empty_count-set rs k r r' e)

-- The layers are numbered, each empty or cut into slots that are free or live; and the empty ones are
-- counted.
pub record ArrayOk (a : TextureArray) (live : Live) : Type 0 where
  pub layers : Layers 0 a.regions live
  pub empties : a.empty_regions ≡ empty_count a.regions
  pub few : length a.regions < usize_mod
  pub outside : (j : ℕ) → length a.regions ≤ j → live j ≡ []

pub ArrayOk-layer :
    (a : TextureArray) (live : Live) (k : ℕ) {r : TextureRegion}
    → ArrayOk a live
    → get_elem? a.regions k ≡ some r
    → (r.layer_index ≡ k) × LayerState r (live k)
ArrayOk-layer a live k {r} h at_k =
    let k_is : 0 + k ≡ k = omega arith in
    subst (λ j. (r.layer_index ≡ j) × LayerState r (live j)) k_is
      (Layers-get 0 k a.regions live h.layers at_k)

abbrev pub set_live : Live → ℕ → List TextureLocation → Live
set_live live i slots j = if j == i then slots else live j

set_live_self :
    (live : Live) (i : ℕ) (slots : List TextureLocation) → set_live live i slots i ≡ slots
set_live_self live i slots = ground arith

set_live_ne :
    (live : Live) (i j : ℕ) (slots : List TextureLocation)
    → j ≢ i
    → set_live live i slots j ≡ live j
set_live_ne live i j slots ne = ground arith

-- Region number `k` is replaced.
pub ArrayOk-set :
    (a : TextureArray) (live : Live) (k : ℕ) (r r' : TextureRegion) (slots : List TextureLocation)
    (empty' : ℕ)
    → ArrayOk a live
    → get_elem? a.regions k ≡ some r
    → r'.layer_index ≡ r.layer_index
    → LayerState r' slots
    → empty' + empty_bit r ≡ a.empty_regions + empty_bit r'
    → ArrayOk
        (record a { regions = set a.regions k r'; empty_regions = empty' })
        (set_live live k slots)
ArrayOk-set a live k r r' slots empty' h at_k layer state counted =
    let inside = lt_of_get_elem? a.regions k at_k in
    let len = length-set a.regions k r' in
    let first : k ≡ 0 + k = omega arith in
    record {
      layers =
          Layers-set 0 k a.regions live (set_live live k slots) r' h.layers inside
            (layer ∙ (Layers-get 0 k a.regions live h.layers at_k).0)
            (subst (λ j. LayerState r' (set_live live k slots j)) first
              (subst (LayerState r') (sym (set_live_self live k slots)) state))
            (λ j ne. set_live_ne live k j slots omega (arith, ne));
      empties = omega (arith, counted, empty_count-set a.regions k r r' at_k, h.empties);
      few = omega (arith, len, h.few);
      outside = λ j le.
          set_live_ne live k j slots omega (arith, len, inside, le)
          ∙ h.outside j omega (arith, len, le);
    }

-- The new layer of `push_region`.
Layers-append :
    (i : ℕ) (rs : List TextureRegion) (live : Live) (r : TextureRegion)
    → Layers i rs live
    → r.layer_index ≡ i + length rs
    → LayerState r (live (i + length rs))
    → Layers i (rs ++ r ∷ []) live
Layers-append i [] live r h layer state =
    let here : i + 0 ≡ i = omega arith in
    (omega arith, subst (λ j. LayerState r (live j)) here state, tt)
Layers-append i (q ∷ rs) live r h layer state =
    let there : i + suc (length rs) ≡ suc i + length rs = omega arith in
    (
      h.0,
      h.1,
      Layers-append (suc i) rs live r h.2 omega arith
          (subst (λ j. LayerState r (live j)) there state),
    )

-- The assertion of `push_region`.
push_region_test :
    (a : TextureArray) (live : Live) (r : TextureRegion)
    → ArrayOk a live
    → leb ((a.empty_regions + 1) % usize_mod) (length (a.regions ++ r ∷ [])) ≡ true
push_region_test a live r h =
    ground (arith, h.empties, h.few, empty_count-length a.regions, length-append a.regions (r ∷ []))

pub push_region-ArrayOk :
    (a : TextureArray) (live : Live)
    → ArrayOk a live
    → length a.regions + 1 < usize_mod
    → (a' : TextureArray) × (push_region a ≡ done a')
      × ArrayOk a' live
      × (a'.texture_id ≡ a.texture_id)
      × (get_elem? a'.regions (length a.regions) ≡ some (new_region (length a.regions)))
unfolding push_region
push_region-ArrayOk a live h room =
    let n = length a.regions in
    let fresh : TextureRegion = new_region n in
    let bounded = empty_count-length a.regions in
    let len = length-append a.regions (fresh ∷ []) in
    (
      record a {
        regions = a.regions ++ fresh ∷ [];
        empty_regions = (a.empty_regions + 1) % usize_mod;
      },
      rw (push_region_test a live fresh h) refl,
      record {
        layers =
            Layers-append 0 a.regions live fresh h.layers omega arith
              (inl (refl, refl, h.outside (0 + n) (omega arith)));
        empties = omega (arith, h.empties, empty_count-append a.regions fresh, bounded, room);
        few = omega (arith, len, room);
        outside = λ j le. h.outside j omega (arith, len, le);
      },
      refl,
      get_elem?-append_length a.regions fresh,
    )
