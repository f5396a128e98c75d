-- ===== src/FreeList/View.antt =====
-- The abstract view of a free list (webrender/src/freelist.rs): a partial map from weak handles to
-- values. The vector, the chain of vacant slots and the counter are forgotten.
use webrender.Prelude.{
  ℕ, zero, suc, ◌<◌, ◌≡◌, refl, inl, inr, List, [], ◌∷◌, ◌++◌, Option, none, some, Bool, ◌&&◌,
  arith, length, get_elem?, set, get_elem?-set_self, get_elem?-set_ne, get_elem?_of_lt,
  lt_of_get_elem?, done, ◌==◌, if◌then◌else◌, Bool-cases,
}
use webrender.FreeList.{WeakFreeListHandle, Slot, FreeList, get_opt}

abbrev pub same : WeakFreeListHandle → WeakFreeListHandle → Bool
same v w = v.index == w.index && v.epoch == w.epoch

module _ {ℓ} {T : Type ℓ} where
  abbrev pub slot_value : Option (Slot T) → ℕ → Option T
  slot_value none e = none
  slot_value (some s) e = if s.epoch == e then s.value else none

  unfoldable pub lookup : FreeList T → WeakFreeListHandle → Option T
  lookup fl w = slot_value (get_elem? fl.slots w.index) w.epoch

  pub slot_value-set :
      (slots : List (Slot T)) (i j e : ℕ) (s : Slot T)
      → i < length slots
      → slot_value (get_elem? (set slots i s) j) e
        ≡ (if j == i then slot_value (some s) e else slot_value (get_elem? slots j) e)
  slot_value-set slots i j e s h = elim (Bool-cases (j == i)) [
    | inl hit ↦ ground (arith, get_elem?-set_self slots i s h)
    | inr miss ↦ rw (miss, get_elem?-set_ne slots i j s (ground arith))
  ]

  pub slot_value-append :
      (slots : List (Slot T)) (j e : ℕ) (s : Slot T)
      → slot_value (get_elem? (slots ++ s ∷ []) j) e
        ≡ (if j == length slots && s.epoch == e then s.value else slot_value (get_elem? slots j) e)
  slot_value-append [] zero e s = refl
  slot_value-append [] (suc j) e s = ground arith
  slot_value-append (x ∷ xs) zero e s = ground arith
  slot_value-append (x ∷ xs) (suc j) e s = ground (arith, slot_value-append xs j e s)

  pub slot_of_lookup :
      (fl : FreeList T) (w : WeakFreeListHandle) (v : T)
      → lookup fl w ≡ some v
      → (s : Slot T) × (get_elem? fl.slots w.index ≡ some s)
        × (s.epoch ≡ w.epoch)
        × (s.value ≡ some v)
  unfolding lookup
  slot_of_lookup fl w v e = ground arith

  -- Inside the vector `get_opt` is the view.
  pub get_opt-lookup :
      (fl : FreeList T) (w : WeakFreeListHandle)
      → w.index < length fl.slots
      → get_opt fl w ≡ done (lookup fl w)
  unfolding get_opt lookup
  get_opt-lookup fl w h = let (s, e) = get_elem?_of_lt fl.slots w.index h in rw e refl

  pub lookup-set_value :
      (fl : FreeList T) (w : WeakFreeListHandle) (s : Slot T) (new_value : T)
      (u : WeakFreeListHandle)
      → get_elem? fl.slots w.index ≡ some s
      → s.epoch ≡ w.epoch
      → lookup (record fl { slots = set fl.slots w.index (record s { value = some new_value }) }) u
        ≡ (if same u w then some new_value else lookup fl u)
  unfolding lookup
  lookup-set_value fl w s new_value u at_w e = ground (
    arith,
    slot_value-set fl.slots w.index u.index u.epoch (record s { value = some new_value })
        (lt_of_get_elem? fl.slots w.index at_w),
  )
