-- ===== src/TextureCache/Slots.antt =====
-- The slots of a `TextureRegion` (webrender/src/texture_cache.rs), counted: `init` makes every slot of the
-- grid once.
use webrender.Prelude.{
  ℕ, zero, suc, ◌+◌, ◌≤◌, ◌<◌, ◌≡◌, ◌⊎◌, refl, ap, inl, inr, List, [], ◌∷◌, ◌++◌, none, some, Bool,
  ◌&&◌, arith, leb, ltb, ◌==◌, if◌then◌else◌, length, drop_last,
}
use webrender.TextureCache.Regions.{TextureLocation, new_location, push_row, push_rows, last_slot}

abbrev pub same_location : TextureLocation → TextureLocation → Bool
same_location a b = a.x == b.x && a.y == b.y

-- How often a location occurs.
unfoldable pub count : TextureLocation → List TextureLocation → ℕ
count k [] = 0
count k (s ∷ ss) = let rest = count k ss in if same_location s k then suc rest else rest

pub count-append :
    (k : TextureLocation) (ss ts : List TextureLocation)
    → count k (ss ++ ts) ≡ count k ss + count k ts
unfolding count
count-append k [] ts = omega arith
count-append k (s ∷ ss) ts = ground (arith, count-append k ss ts)

-- The last slot, and those before it.
pub last_slot-cases :
    (ss : List TextureLocation)
    → ((ss ≡ []) × (last_slot ss ≡ none))
      ⊎ ((s : TextureLocation) × (last_slot ss ≡ some s) × (ss ≡ drop_last ss ++ s ∷ []))
unfolding last_slot
last_slot-cases [] = inl (refl, refl)
last_slot-cases (s ∷ []) = inr (s, refl, refl)
last_slot-cases (s ∷ t ∷ ss) = elim (last_slot-cases (t ∷ ss)) [
  | inl e ↦ cc
  | inr (u, e, split) ↦ inr (u, e, ap (λ l. s ∷ l) split)
]

-- 1 for a location with coordinates in these bounds, else 0.
abbrev pub in_box : ℕ → ℕ → ℕ → ℕ → TextureLocation → ℕ
in_box x0 x1 y0 y1 k = if leb x0 k.x && ltb k.x x1 && leb y0 k.y && ltb k.y y1 then 1 else 0

count-push_row :
    (n x y : ℕ) (slots : List TextureLocation) (k : TextureLocation)
    → x + n ≤ 32
    → y < 32
    → count k (push_row n x y slots) ≡ count k slots + in_box x (x + n) y (suc y) k
unfolding push_row count
count-push_row zero x y slots k hx hy = ground arith
count-push_row (suc n) x y slots k hx hy = ground (
  arith,
  count-push_row n (suc x) y (slots ++ new_location x y ∷ []) k (omega arith) hy,
  count-append k slots (new_location x y ∷ []),
)

count-push_rows :
    (n width y : ℕ) (slots : List TextureLocation) (k : TextureLocation)
    → y + n ≤ 32
    → width ≤ 32
    → count k (push_rows n width y slots) ≡ count k slots + in_box 0 width y (y + n) k
unfolding push_rows
count-push_rows zero width y slots k hy hx = ground arith
count-push_rows (suc n) width y slots k hy hx = ground (
  arith,
  count-push_rows n width (suc y) (push_row width 0 y slots) k (omega arith) hx,
  count-push_row width 0 y slots k (omega arith) (omega arith),
)

pub count-push_rows_lem :
    (n width : ℕ) (k : TextureLocation)
    → n ≤ 32
    → width ≤ 32
    → count k (push_rows n width 0 []) ≡ in_box 0 width 0 n k
unfolding count
count-push_rows_lem n width k hn hw =
    ground (arith, count-push_rows n width 0 [] k (omega arith) hw)

pub count-length : (k : TextureLocation) (ss : List TextureLocation) → count k ss ≤ length ss
unfolding count
count-length k [] = omega arith
count-length k (s ∷ ss) = ground (arith, count-length k ss)

-- The list without the first occurrence of a location.
unfoldable pub remove_location : TextureLocation → List TextureLocation → List TextureLocation
remove_location k [] = []
remove_location k (s ∷ ss) =
    let rest = remove_location k ss in if same_location s k then ss else s ∷ rest

pub count-remove :
    (k j : TextureLocation) (ss : List TextureLocation)
    → 1 ≤ count k ss
    → count j (k ∷ remove_location k ss) ≡ count j ss
unfolding count remove_location
count-remove k j [] h = ground (arith, h)
count-remove k j (s ∷ ss) h = ground (arith, h, count-remove k j ss)

pub length-remove :
    (k : TextureLocation) (ss : List TextureLocation)
    → 1 ≤ count k ss
    → suc (length (remove_location k ss)) ≡ length ss
unfolding count remove_location
length-remove k [] h = ground (arith, h)
length-remove k (s ∷ ss) h = ground (arith, h, length-remove k ss)
