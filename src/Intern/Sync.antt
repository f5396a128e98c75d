-- ===== src/Intern/Sync.antt =====
-- The agreement between an `Interner` and a `DataStore` (webrender/src/intern.rs): once the pending
-- updates are applied, the store holds at the index of each interned key the data of that key.
use webrender.Prelude.{
  ℕ, ◌<◌, ◌≤◌, ◌≡◌, refl, List, [], ◌∷◌, ◌++◌, Option, none, some, done, >>=-eq-done, arith, length,
  get_elem?, set, All, NotIn, get_elem?-set_ne, get_elem?-append_left, lt_of_get_elem?, true, false,
  ◌==◌, ltb,
}
use webrender.Intern.{Handle, Update, inserted, apply_update, apply_loop, set_entry}

abbrev pub indices : {S : Type 0} → List (S × Handle) → List ℕ
indices [] = []
indices ((k, h) ∷ m) = h.index ∷ indices m

pub set_entry-set {ℓ} :
    {A : Type ℓ} (xs : List A) (i : ℕ) (v : A)
    → i < length xs
    → set_entry xs i v ≡ done (set xs i v)
set_entry-set xs i v h = let low : ltb i (length xs) ≡ true = ground arith in rw low refl

pub set_entry-append {ℓ} :
    {A : Type ℓ} (xs : List A) (i : ℕ) (v : A)
    → i ≡ length xs
    → set_entry xs i v ≡ done (xs ++ v ∷ [])
set_entry-append xs i v h =
    let high : ltb i (length xs) ≡ false = ground arith in
    let at_end : (i == length xs) ≡ true = ground arith in rw (high, at_end) refl

module _ {S T : Type 0} (from : S → T) where
  abbrev pub StoredAt : List (Option T) → S × Handle → Type 0
  StoredAt items e = get_elem? items e.1.index ≡ some (some (from e.0))

  abbrev pub FreeAt : List (Option T) → ℕ → Type 0
  FreeAt items i = get_elem? items i ≡ some none

  -- More data behind what a loop consumes is left over.
  apply_update-append :
      (u : Update) (ds es rest : List S) (items items' : List (Option T))
      → apply_update from u ds items ≡ done (items', rest)
      → apply_update from u (ds ++ es) items ≡ done (items', rest ++ es)
  unfolding apply_update
  apply_update-append u [] es rest items items' e = ground arith
  apply_update-append u (d ∷ ds) es rest items items' e = ground arith

  pub apply_loop-append :
      (us vs : List Update) (ds es : List S) (items items' : List (Option T))
      → apply_loop from us ds items ≡ done (items', [])
      → apply_loop from (us ++ vs) (ds ++ es) items ≡ apply_loop from vs es items'
  unfolding apply_loop
  apply_loop-append [] vs ds es items items' e =
      let same : items ≡ items' = cc in let empty : ds ≡ [] = cc in rw (same, empty) refl
  apply_loop-append (u ∷ us) vs ds es items items' e =
      let ((mid, rest), e1, e2) =
        >>=-eq-done (apply_update from u ds items) (λ r. apply_loop from us r.1 r.0) e in
      rw (apply_update-append u ds es rest items mid e1)
        (apply_loop-append us vs rest es mid items' e2)

  -- A write at an index other than those of the map.
  pub stored-set :
      (m : List (S × Handle)) (items : List (Option T)) (i : ℕ) (v : Option T)
      → NotIn i (indices m)
      → All (StoredAt items) m
      → All (StoredAt (set items i v)) m
  stored-set [] items i v off h = tt
  stored-set ((k, t) ∷ m) items i v off h =
      (rw (get_elem?-set_ne items i t.index v off.0) h.0, stored-set m items i v off.1 h.1)

  pub stored-append :
      (m : List (S × Handle)) (items : List (Option T)) (v : Option T)
      → All (StoredAt items) m
      → All (StoredAt (items ++ v ∷ [])) m
  stored-append [] items v h = tt
  stored-append ((k, t) ∷ m) items v h = (
    rw (get_elem?-append_left items (v ∷ []) t.index (lt_of_get_elem? items t.index h.0)) h.0,
    stored-append m items v h.1,
  )

  pub freed-set :
      (is : List ℕ) (items : List (Option T)) (i : ℕ) (v : Option T)
      → NotIn i is
      → All (FreeAt items) is
      → All (FreeAt (set items i v)) is
  freed-set [] items i v off h = tt
  freed-set (j ∷ is) items i v off h =
      (rw (get_elem?-set_ne items i j v off.0) h.0, freed-set is items i v off.1 h.1)

  -- A free index is not the index of a key, and the other way round.
  pub free-NotIn :
      (m : List (S × Handle)) (items : List (Option T)) (i : ℕ)
      → get_elem? items i ≡ some none
      → All (StoredAt items) m
      → NotIn i (indices m)
  free-NotIn [] items i free h = tt
  free-NotIn ((k, t) ∷ m) items i free h = (λ same. clash same, free-NotIn m items i free h.1)
    where
      clash : i ≡ t.index → ⊥
      clash same = ground (arith, h.0)

  pub stored-NotIn :
      (is : List ℕ) (items : List (Option T)) (i : ℕ) (v : T)
      → get_elem? items i ≡ some (some v)
      → All (FreeAt items) is
      → NotIn i is
  stored-NotIn [] items i v full h = tt
  stored-NotIn (j ∷ is) items i v full h = (λ same. clash same, stored-NotIn is items i v full h.1)
    where
      clash : i ≡ j → ⊥
      clash same = ground (arith, h.0)

  pub stored-lt :
      (m : List (S × Handle)) (items : List (Option T)) (n : ℕ)
      → length items ≤ n
      → All (StoredAt items) m
      → NotIn n (indices m)
  stored-lt [] items n le h = tt
  stored-lt ((k, t) ∷ m) items n le h = (
    λ same. absurd (omega (arith, lt_of_get_elem? items t.index h.0)),
    stored-lt m items n le h.1,
  )

  -- One insertion, into a slot or at the end.
  pub apply_inserted :
      (key : S) (i : ℕ) (items items' : List (Option T))
      → set_entry items i (some (from key)) ≡ done items'
      → apply_loop from (record { index = i; kind = inserted } ∷ []) (key ∷ []) items
        ≡ done (items', [])
  unfolding apply_loop apply_update
  apply_inserted key i items items' e = rw e refl
