-- ===== src/FreeList/Invariant.antt =====
-- The well-formedness of a free list (webrender/src/freelist.rs): the chain of vacant slots, the
-- count of occupied ones, and what the operations do to both.
use webrender.Prelude.{
  ℕ, suc, zero, ◌+◌, ◌<◌, ◌≤◌, ◌≡◌, refl, List, [], ◌∷◌, ◌++◌, Option, none, some, arith, length,
  get_elem?, set, NotIn, Distinct, get_elem?-set_ne, lt_of_get_elem?, get_elem?-append_left,
  usize_mod,
}
use webrender.FreeList.{Slot, FreeList, new}

abbrev pub one_if_some {ℓ} : {T : Type ℓ} → Option T → ℕ
one_if_some none = 0
one_if_some (some v) = 1

module _ {ℓ} {T : Type ℓ} where
  -- The free list that starts at `head` runs through the slots `is`, all of them vacant.
  abbrev pub Chain : List (Slot T) → Option ℕ → List ℕ → Type ℓ
  Chain slots head [] = (head ≡ none) × Unit {ℓ}
  Chain slots head (i ∷ is) =
      (s : Slot T) × (head ≡ some i)
      × (get_elem? slots i ≡ some s)
      × (s.value ≡ none)
      × Chain slots s.next is

  abbrev pub occupied : List (Slot T) → ℕ
  occupied [] = 0
  occupied (s ∷ ss) = one_if_some s.value + occupied ss

pub record Inv {ℓ} {T : Type ℓ} (fl : FreeList T) : Type ℓ where
  pub chain : List ℕ
  pub linked : Chain fl.slots fl.free_list_head chain
  pub distinct : Distinct chain
  pub counted : fl.active_count ≡ occupied fl.slots
  pub complete : occupied fl.slots + length chain ≡ length fl.slots
  pub small : length fl.slots < usize_mod

module _ {ℓ} {T : Type ℓ} where
  pub Chain-set :
      (slots : List (Slot T)) (head : Option ℕ) (is : List ℕ) (i : ℕ) (s : Slot T)
      → NotIn i is
      → Chain slots head is
      → Chain (set slots i s) head is
  Chain-set slots head [] i s fresh c = c
  Chain-set slots head (j ∷ is) i s fresh (t, e, at_j, vacant, rest) = (
    t,
    e,
    rw (get_elem?-set_ne slots i j s fresh.0) at_j,
    vacant,
    Chain-set slots t.next is i s fresh.1 rest,
  )

  pub Chain-append :
      (slots : List (Slot T)) (head : Option ℕ) (is : List ℕ) (s : Slot T)
      → Chain slots head is
      → Chain (slots ++ s ∷ []) head is
  Chain-append slots head [] s c = c
  Chain-append slots head (j ∷ is) s (t, e, at_j, vacant, rest) = (
    t,
    e,
    rw (get_elem?-append_left slots (s ∷ []) j (lt_of_get_elem? slots j at_j)) at_j,
    vacant,
    Chain-append slots t.next is s rest,
  )

  -- An occupied slot is not on the chain.
  pub Chain-NotIn :
      (slots : List (Slot T)) (head : Option ℕ) (is : List ℕ) (i : ℕ) (s : Slot T) (v : T)
      → get_elem? slots i ≡ some s
      → s.value ≡ some v
      → Chain slots head is
      → NotIn i is
  Chain-NotIn slots head [] i s v at_i full c = tt
  Chain-NotIn slots head (j ∷ is) i s v at_i full (t, e, at_j, vacant, rest) =
      (λ same. absurd (clash same), Chain-NotIn slots t.next is i s v at_i full rest)
    where
      clash : i ≡ j → ⊥
      clash same = ground arith

  pub occupied-append : (xs ys : List (Slot T)) → occupied (xs ++ ys) ≡ occupied xs + occupied ys
  occupied-append [] ys = omega arith
  occupied-append (x ∷ xs) ys = omega (arith, occupied-append xs ys)

  pub occupied-set :
      (slots : List (Slot T)) (i : ℕ) (s s' : Slot T)
      → get_elem? slots i ≡ some s
      → occupied (set slots i s') + one_if_some s.value ≡ occupied slots + one_if_some s'.value
  occupied-set [] i s s' e = cc
  occupied-set (x ∷ xs) zero s s' e = ground arith
  occupied-set (x ∷ xs) (suc i) s s' e = omega (arith, occupied-set xs i s s' e)

  pub occupied-le-length : (slots : List (Slot T)) → occupied slots ≤ length slots
  occupied-le-length [] = omega arith
  occupied-le-length (s ∷ ss) = ground (arith, occupied-le-length ss)

  pub new-Inv : Inv (new {T = T})
  unfolding new
  new-Inv = record {
    chain = 0 ∷ [];
    linked = (_, refl, refl, refl, (refl, tt));
    distinct = (tt, tt);
    counted = refl;
    complete = refl;
    small = omega arith;
  }
