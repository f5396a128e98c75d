-- ===== src/Intern/Touch.antt =====
-- The map of an `Interner` (webrender/src/intern.rs): refreshing the epoch of a key, and looking it up.
use webrender.Prelude.{
  ℕ, ◌≡◌, refl, List, [], ◌∷◌, Option, some, false, inl, inr, arith, get_elem?, All, Bool-cases,
}
use mathlib.Core.Logic.{ite, if_pos, if_neg}
use webrender.Intern.{Handle, lookup, touch, collect, is_expired}
use webrender.Intern.Sync.{indices, StoredAt}

module _ {S : Type 0} (dec : Discrete S) where
  pub touch-indices :
      (epoch : ℕ) (k : S) (m : List (S × Handle)) → indices (touch dec epoch k m) ≡ indices m
  unfolding touch
  touch-indices epoch k [] = refl
  touch-indices epoch k ((j, h) ∷ m) = ground (arith, touch-indices epoch k m)

  pub touch-stored :
      {T : Type 0} (from : S → T) (epoch : ℕ) (k : S) (m : List (S × Handle))
      (items : List (Option T))
      → All (StoredAt from items) m
      → All (StoredAt from items) (touch dec epoch k m)
  unfolding touch
  touch-stored from epoch k [] items h = tt
  touch-stored from epoch k ((j, t) ∷ m) items h = elim (dec j k) [
    | yes p ↦ rw (if_pos _ p) h
    | no p ↦ rw (if_neg _ p) (h.0, touch-stored from epoch k m items h.1)
  ]

  pub lookup-touch :
      (epoch : ℕ) (k j : S) (m : List (S × Handle)) (h : Handle)
      → lookup dec k m ≡ some h
      → lookup dec j (touch dec epoch k m)
        ≡ ite (dec k j) (some (record h { epoch = epoch })) (lookup dec j m)
  unfolding lookup touch
  lookup-touch epoch k j [] h e = cc
  lookup-touch epoch k j ((i, t) ∷ m) h e = elim (dec i k) [
    | yes p ↦ rw (if_pos _ p) ground arith
    | no p ↦ rw (if_neg _ p) ground (arith, lookup-touch epoch k j m h (rw (if_neg _ p) at e))
  ]

  -- The slot of a key that is found.
  pub stored-lookup :
      {T : Type 0} (from : S → T) (k : S) (m : List (S × Handle)) (items : List (Option T))
      (h : Handle)
      → All (StoredAt from items) m
      → lookup dec k m ≡ some h
      → get_elem? items h.index ≡ some (some (from k))
  unfolding lookup
  stored-lookup from k [] items h v e = cc
  stored-lookup from k ((i, t) ∷ m) items h v e = elim (dec i k) [
    | yes p ↦ let same : t ≡ h = ground arith in rw (← p, ← same) v.0
    | no p ↦ stored-lookup from k m items h v.1 (rw (if_neg _ p) at e)
  ]

  -- A key whose handle is not expired stays, with its handle.
  pub lookup-collect :
      (now : ℕ) (k : S) (m : List (S × Handle)) (free : List ℕ) (h : Handle)
      → lookup dec k m ≡ some h
      → is_expired now h ≡ false
      → lookup dec k (collect now m free).0 ≡ some h
  unfolding lookup collect
  lookup-collect now k [] free h e new = cc
  lookup-collect now k ((i, t) ∷ m) free h e new = elim (dec i k) [
    | yes p ↦
        let same : t ≡ h = ground arith in
        let stays : is_expired now t ≡ false = rw same new in
        rw (stays, collect) (rw (if_pos _ p) (rw same refl))
    | no p ↦ elim (Bool-cases (is_expired now t)) [
      | inl old ↦
          rw (old, collect) (lookup-collect now k m (t.index ∷ free) h (rw (if_neg _ p) at e) new)
      | inr young ↦
          rw (young, collect)
            (rw (if_neg _ p) (lookup-collect now k m free h (rw (if_neg _ p) at e) new))
    ]
  ]
