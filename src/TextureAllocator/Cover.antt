-- ===== src/TextureAllocator/Cover.antt =====
-- Which points the rectangles of webrender/src/texture_allocator.rs cover, and how often: the free
-- rectangles of a tracker as a multiset of points.
use webrender.Prelude.{
  ℕ, zero, suc, ◌+◌, ◌-◌, ◌≤◌, ◌≡◌, refl, List, [], ◌∷◌, ◌++◌, some, Bool, true, false, ◌&&◌, done,
  arith, length, get_elem?, set, drop_last, All, lt_of_get_elem?, get_elem?_of_lt, length-set,
  get_elem?-set_self, get_elem?-set_ne, Bool-cases, inl, inr, ◌==◌, ltb, leb,
}
use webrender.TextureAllocator.{DeviceIntRect, FreeRect, mk_rect, swap_remove}

abbrev pub one_if : Bool → ℕ
one_if true = 1
one_if false = 0

abbrev pub within : ℕ → ℕ → ℕ → Bool
within start size a = leb start a && ltb a (start + size)

-- The rectangle covers the point.
abbrev pub covers : DeviceIntRect → ℕ → ℕ → Bool
covers r x y = within r.origin.x r.size.width x && within r.origin.y r.size.height y

-- How many free rectangles of the slice cover the point.
abbrev pub covers_at : ℕ → ℕ → ℕ → FreeRect → ℕ
covers_at slice x y r = one_if (r.slice == slice && covers r.rect x y)

module _ (weight : FreeRect → ℕ) where
  abbrev pub weigh : List FreeRect → ℕ
  weigh [] = 0
  weigh (r ∷ rs) = weight r + weigh rs

  abbrev pub weigh_bins : List (List FreeRect) → ℕ
  weigh_bins [] = 0
  weigh_bins (b ∷ bs) = weigh b + weigh_bins bs

  pub weigh-append : (xs ys : List FreeRect) → weigh (xs ++ ys) ≡ weigh xs + weigh ys
  weigh-append [] ys = omega arith
  weigh-append (x ∷ xs) ys = omega (arith, weigh-append xs ys)

  weigh-set :
      (xs : List FreeRect) (i : ℕ) (old r : FreeRect)
      → get_elem? xs i ≡ some old
      → weigh (set xs i r) + weight old ≡ weigh xs + weight r
  weigh-set [] i old r e = cc
  weigh-set (x ∷ xs) zero old r e = ground arith
  weigh-set (x ∷ xs) (suc i) old r e = omega (arith, weigh-set xs i old r e)

  pub weigh_bins-set :
      (bins : List (List FreeRect)) (i : ℕ) (old bin : List FreeRect)
      → get_elem? bins i ≡ some old
      → weigh_bins (set bins i bin) + weigh old ≡ weigh_bins bins + weigh bin
  weigh_bins-set [] i old bin e = cc
  weigh_bins-set (x ∷ xs) zero old bin e = ground arith
  weigh_bins-set (x ∷ xs) (suc i) old bin e = omega (arith, weigh_bins-set xs i old bin e)

-- The request and the two rests tile the chosen rectangle, for either cut.
pub cut_right :
    (x y w h cw ch a b : ℕ)
    → w ≤ cw
    → h ≤ ch
    → one_if (covers (mk_rect (x + w) y (cw - w) ch) a b)
        + one_if (covers (mk_rect x (y + h) w (ch - h)) a b)
        + one_if (covers (mk_rect x y w h) a b)
      ≡ one_if (covers (mk_rect x y cw ch) a b)
cut_right x y w h cw ch a b p q = ground arith

pub cut_bottom :
    (x y w h cw ch a b : ℕ)
    → w ≤ cw
    → h ≤ ch
    → one_if (covers (mk_rect (x + w) y (cw - w) h) a b)
        + one_if (covers (mk_rect x (y + h) cw (ch - h)) a b)
        + one_if (covers (mk_rect x y w h) a b)
      ≡ one_if (covers (mk_rect x y cw ch) a b)
cut_bottom x y w h cw ch a b p q = ground arith

drop_last-weigh :
    (weight : FreeRect → ℕ) (xs : List FreeRect) (n : ℕ) (last : FreeRect)
    → length xs ≡ suc n
    → get_elem? xs n ≡ some last
    → weigh weight (drop_last xs) + weight last ≡ weigh weight xs
drop_last-weigh weight [] n last size e = absurd (omega arith)
drop_last-weigh weight (x ∷ []) zero last size e = ground arith
drop_last-weigh weight (x ∷ []) (suc n) last size e = absurd (omega arith)
drop_last-weigh weight (x ∷ y ∷ xs) zero last size e = absurd (omega arith)
drop_last-weigh weight (x ∷ y ∷ xs) (suc n) last size e =
    omega (arith, drop_last-weigh weight (y ∷ xs) n last (omega arith) e)

pub drop_last-All : (P : FreeRect → Type 0) (xs : List FreeRect) → All P xs → All P (drop_last xs)
drop_last-All P [] h = tt
drop_last-All P (x ∷ []) h = tt
drop_last-All P (x ∷ y ∷ xs) h = (h.0, drop_last-All P (y ∷ xs) h.1)

-- `swap_remove` inside the vector returns the element and what is left.
pub swap_remove_lem :
    (bin : List FreeRect) (i : ℕ) (chosen : FreeRect)
    → get_elem? bin i ≡ some chosen
    → (last : FreeRect) × (get_elem? bin (length bin - 1) ≡ some last)
      × (swap_remove bin i ≡ done (chosen, drop_last (set bin i last)))
unfolding swap_remove
swap_remove_lem bin i chosen e =
    let inside = lt_of_get_elem? bin i e in
    let (last, at_last) = get_elem?_of_lt bin (length bin - 1) (omega arith) in
    (last, at_last, rw (e, at_last) refl)

pub swap_remove-weigh :
    (weight : FreeRect → ℕ) (bin : List FreeRect) (i : ℕ) (chosen last : FreeRect)
    → get_elem? bin i ≡ some chosen
    → get_elem? bin (length bin - 1) ≡ some last
    → weigh weight (drop_last (set bin i last)) + weight chosen ≡ weigh weight bin
swap_remove-weigh weight bin i chosen last at_i at_last = omega (
  arith,
  weigh-set weight bin i chosen last at_i,
  drop_last-weigh weight (set bin i last) (length bin - 1) last size still,
)
  where
    size : length (set bin i last) ≡ suc (length bin - 1)
    size = omega (arith, length-set bin i last, lt_of_get_elem? bin i at_i)

    still : get_elem? (set bin i last) (length bin - 1) ≡ some last
    still = elim (Bool-cases ((length bin - 1) == i)) [
      | inl hit ↦ ground (arith, get_elem?-set_self bin i last (lt_of_get_elem? bin i at_i))
      | inr miss ↦ ground (arith, get_elem?-set_ne bin i (length bin - 1) last)
    ]
