-- ===== src/FreeList/Stale.antt =====
-- Weak handles outlive their entry (webrender/src/freelist.rs): the per-entry epoch makes a lookup
-- through a handle that was freed fail until the list is cleared.
use webrender.Prelude.{
  ℕ, suc, ◌+◌, ◌≤◌, ◌<◌, ◌≡◌, refl, inl, inr, List, [], ◌∷◌, ◌++◌, none, some, Run, done, Ensures,
  Ensures->>=, Ensures_done, >>=-eq-done, ◌>>=◌, arith, length, get_elem?, set, All, All-get_elem?,
  All-set, All-append, get_elem?-set_self, get_elem?-set_ne, get_elem?-append_left, lt_of_get_elem?,
  Option-cases, u32_mod, ◌==◌, Bool-cases,
}
use webrender.FreeList.{
  FreeListHandle, WeakFreeListHandle, Slot, FreeList, insert, insert_at, free, get_opt, get_opt_mut,
  get_mut, upsert, epoch_new, weak,
}
use webrender.FreeList.View.{lookup, slot_of_lookup}

-- The operations that change a list, `clear` excepted, which forgets the epochs.
pub data Op {ℓ} (T : Type ℓ) : Type ℓ where
  inserts : T → Op T
  frees : FreeListHandle → Op T
  upserts : WeakFreeListHandle → T → Op T
  writes : WeakFreeListHandle → (T → T) → Op T
  changes : FreeListHandle → (T → T) → Op T

module _ {ℓ} {T : Type ℓ} where
  unfoldable pub step : FreeList T → Op T → Run (FreeList T)
  step fl (inserts item) = do (fl', _) ← insert fl item; done fl'
  step fl (frees id) = do (fl', _) ← free fl id; done fl'
  step fl (upserts w item) = do (fl', _) ← upsert fl w item; done fl'
  step fl (writes w f) = get_opt_mut fl w f
  step fl (changes id f) = get_mut fl id f

  unfoldable pub run : FreeList T → List (Op T) → Run (FreeList T)
  run fl [] = done fl
  run fl (o ∷ os) = do fl' ← step fl o; run fl' os

  abbrev pub EpochsBelow : ℕ → FreeList T → Type 0
  EpochsBelow n fl = All (λ s. s.epoch < n) fl.slots

  -- The entry that the handle was for has been given a later epoch.
  abbrev pub IsStale : FreeList T → WeakFreeListHandle → Type ℓ
  IsStale fl w = (s : Slot T) × (get_elem? fl.slots w.index ≡ some s) × (w.epoch < s.epoch)

  -- One operation rewrites a slot, keeping its epoch or raising it by one, or pushes one.
  data Change (xs : List (Slot T)) : List (Slot T) → Type ℓ where
    keep : {ys : List (Slot T)} → ys ≡ xs → Change xs ys
    rewrite :
        {ys : List (Slot T)} (i : ℕ) (s s' : Slot T)
        → get_elem? xs i ≡ some s
        → s.epoch ≤ s'.epoch
        → s'.epoch ≤ s.epoch + 1
        → ys ≡ set xs i s'
        → Change xs ys
    push :
        {ys : List (Slot T)} (s : Slot T) → s.epoch ≡ epoch_new → ys ≡ xs ++ s ∷ [] → Change xs ys

  insert-Change :
      (fl : FreeList T) (item : T) → Ensures (λ r. Change fl.slots r.0.slots) (insert fl item)
  unfolding insert
  insert-Change fl item = elim (Option-cases fl.free_list_head) [
    | inl e ↦ rw (e, insert_at) (push _ refl refl)
    | inr (i, e) ↦ elim (Option-cases (get_elem? fl.slots i)) [
      | inl out ↦ rw (e, insert_at, out) tt
      | inr (s, at_i) ↦
          rw (e, insert_at, at_i) (rewrite i s _ at_i (omega arith) (omega arith) refl)
    ]
  ]

  free-Change :
      (fl : FreeList T) (id : FreeListHandle) (n : ℕ)
      → EpochsBelow n fl
      → n < u32_mod
      → Ensures (λ r. Change fl.slots r.0.slots) (free fl id)
  unfolding free
  free-Change fl id n below room = elim (Option-cases (get_elem? fl.slots id.index)) [
    | inl out ↦ rw out tt
    | inr (s, at_i) ↦ elim (Option-cases s.value) [
      | inl vacant ↦ rw (at_i, vacant) tt
      | inr (v, full) ↦
          let low : s.epoch < n = All-get_elem? (λ s. s.epoch < n) fl.slots id.index below at_i in
          rw (at_i, full) (rewrite id.index s _ at_i (omega arith) (omega arith) refl)
    ]
  ]

  get_opt_mut-Change :
      (fl : FreeList T) (w : WeakFreeListHandle) (f : T → T)
      → Ensures (λ r. Change fl.slots r.slots) (get_opt_mut fl w f)
  unfolding get_opt_mut
  get_opt_mut-Change fl w f = elim (Option-cases (get_elem? fl.slots w.index)) [
    | inl out ↦ rw out tt
    | inr (s, at_i) ↦ elim (Bool-cases (s.epoch == w.epoch)) [
      | inr other ↦ rw (at_i, other) (keep refl)
      | inl hit ↦ elim (Option-cases s.value) [
        | inl vacant ↦ rw (at_i, hit, vacant) (keep refl)
        | inr (v, full) ↦
            rw (at_i, hit, full) (rewrite w.index s _ at_i (omega arith) (omega arith) refl)
      ]
    ]
  ]

  get_mut-Change :
      (fl : FreeList T) (id : FreeListHandle) (f : T → T)
      → Ensures (λ r. Change fl.slots r.slots) (get_mut fl id f)
  unfolding get_mut
  get_mut-Change fl id f = elim (Option-cases (get_elem? fl.slots id.index)) [
    | inl out ↦ rw out tt
    | inr (s, at_i) ↦ elim (Option-cases s.value) [
      | inl vacant ↦ rw (at_i, vacant) tt
      | inr (v, full) ↦ rw (at_i, full) (rewrite id.index s _ at_i (omega arith) (omega arith) refl)
    ]
  ]

  upsert-Change :
      (fl : FreeList T) (w : WeakFreeListHandle) (item : T)
      → Ensures (λ r. Change fl.slots r.0.slots) (upsert fl w item)
  unfolding upsert
  upsert-Change fl w item = elim (Option-cases (get_elem? fl.slots w.index)) [
    | inl out ↦ rw out tt
    | inr (s, at_i) ↦ elim (Bool-cases (s.epoch == w.epoch)) [
      | inr other ↦
          rw (at_i, other)
            (Ensures->>= (λ r. Change fl.slots r.0.slots) (λ r. Change fl.slots r.0.slots)
              (insert fl item) _ (insert-Change fl item) (λ r c. c))
      | inl hit ↦ elim (Option-cases s.value) [
        | inl vacant ↦ rw (at_i, hit, vacant) tt
        | inr (v, full) ↦
            rw (at_i, hit, full) (rewrite w.index s _ at_i (omega arith) (omega arith) refl)
      ]
    ]
  ]

  step-Change :
      (fl : FreeList T) (o : Op T) (n : ℕ)
      → EpochsBelow n fl
      → n < u32_mod
      → Ensures (λ r. Change fl.slots r.slots) (step fl o)
  unfolding step
  step-Change fl (inserts item) n below room =
      Ensures->>= (λ r. Change fl.slots r.0.slots) (λ r. Change fl.slots r.slots) (insert fl item) _
        (insert-Change fl item) (λ r c. c)
  step-Change fl (frees id) n below room =
      Ensures->>= (λ r. Change fl.slots r.0.slots) (λ r. Change fl.slots r.slots) (free fl id) _
        (free-Change fl id n below room) (λ r c. c)
  step-Change fl (upserts w item) n below room =
      Ensures->>= (λ r. Change fl.slots r.0.slots) (λ r. Change fl.slots r.slots) (upsert fl w item)
        _ (upsert-Change fl w item) (λ r c. c)
  step-Change fl (writes w f) n below room = get_opt_mut-Change fl w f
  step-Change fl (changes id f) n below room = get_mut-Change fl id f

  below_suc :
      (n : ℕ) (xs : List (Slot T)) → All (λ s. s.epoch < n) xs → All (λ s. s.epoch < suc n) xs
  below_suc n [] h = tt
  below_suc n (x ∷ xs) h = (omega arith, below_suc n xs h.1)

  Change-EpochsBelow :
      (xs ys : List (Slot T)) (n : ℕ)
      → 0 < n
      → All (λ s. s.epoch < n) xs
      → Change xs ys
      → All (λ s. s.epoch < suc n) ys
  Change-EpochsBelow xs ys n pos h (keep e) = rw e (below_suc n xs h)
  Change-EpochsBelow xs ys n pos h (rewrite i s s' at_i le ge e) =
      let low : s.epoch < n = All-get_elem? (λ s. s.epoch < n) xs i h at_i in
      rw e (All-set (λ s. s.epoch < suc n) xs i s' (below_suc n xs h) (omega arith))
  Change-EpochsBelow xs ys n pos h (push s is_new e) =
      rw e (All-append (λ s. s.epoch < suc n) xs (s ∷ []) (below_suc n xs h) (omega arith, tt))

  Change-IsStale :
      (xs ys : List (Slot T)) (w : WeakFreeListHandle)
      → ((s : Slot T) × (get_elem? xs w.index ≡ some s) × (w.epoch < s.epoch))
      → Change xs ys
      → (s : Slot T) × (get_elem? ys w.index ≡ some s) × (w.epoch < s.epoch)
  Change-IsStale xs ys w (t, at_w, low) (keep e) = (t, rw e at_w, low)
  Change-IsStale xs ys w (t, at_w, low) (rewrite i s s' at_i le ge e) =
      elim (Bool-cases (w.index == i)) [
        | inl hit ↦
            let same : i ≡ w.index = ground arith in
            (
              s',
              rw (e, ← same) (get_elem?-set_self xs i s' (lt_of_get_elem? xs i at_i)),
              ground arith,
            )
        | inr miss ↦ (t, rw (e, get_elem?-set_ne xs i w.index s' (ground arith)) at_w, low)
      ]
  Change-IsStale xs ys w (t, at_w, low) (push s is_new e) = (
    t,
    rw (e, get_elem?-append_left xs (s ∷ []) w.index (lt_of_get_elem? xs w.index at_w)) at_w,
    low,
  )

  run-IsStale :
      (fl : FreeList T) (os : List (Op T)) (w : WeakFreeListHandle) (n : ℕ)
      → 0 < n
      → EpochsBelow n fl
      → n + length os ≤ u32_mod
      → IsStale fl w
      → Ensures (λ fl'. IsStale fl' w) (run fl os)
  unfolding run
  run-IsStale fl [] w n pos below room stale = stale
  run-IsStale fl (o ∷ os) w n pos below room stale =
      Ensures->>= (λ r. Change fl.slots r.slots) (λ fl'. IsStale fl' w) (step fl o)
        (λ fl'. run fl' os) (step-Change fl o n below (omega arith))
        (λ fl' c.
          run-IsStale fl' os w (suc n) (omega arith)
            (Change-EpochsBelow fl.slots fl'.slots n pos below c) (omega arith)
            (Change-IsStale fl.slots fl'.slots w stale c))

  free-IsStale :
      (fl : FreeList T) (id : FreeListHandle) (s : Slot T) (v : T) (n : ℕ)
      → EpochsBelow n fl
      → n < u32_mod
      → get_elem? fl.slots id.index ≡ some s
      → s.epoch ≡ id.epoch
      → s.value ≡ some v
      → Ensures (λ fl'. IsStale fl' (weak id)) (step fl (frees id))
  unfolding step free
  free-IsStale fl id s v n below room at_id same full =
      let low : s.epoch < n = All-get_elem? (λ s. s.epoch < n) fl.slots id.index below at_id in
      rw (at_id, full)
        (
          _,
          get_elem?-set_self fl.slots id.index _ (lt_of_get_elem? fl.slots id.index at_id),
          omega arith,
        )

  -- Once an entry is freed, its handle never resolves again while the list is not cleared: after any further
  -- insertions, removals, upserts and writes that return, fewer than the epoch's 32 bits can count, the lookup
  -- gives `None`.
  pub freed_never_resolves :
      (fl fl' : FreeList T) (id : FreeListHandle) (item : T) (os : List (Op T)) (n : ℕ)
      → lookup fl (weak id) ≡ some item
      → 0 < n
      → EpochsBelow n fl
      → n + 1 + length os ≤ u32_mod
      → run fl (frees id ∷ os) ≡ done fl'
      → get_opt fl' (weak id) ≡ done none
  unfolding run get_opt
  freed_never_resolves fl fl' id item os n h pos below room e =
      let (s, at_id, same, full) = slot_of_lookup fl (weak id) item h in
      let (fl1, e1, e2) = >>=-eq-done (step fl (frees id)) (λ r. run r os) e in
      let stale : IsStale fl1 (weak id) =
        Ensures_done (λ r. IsStale r (weak id)) (step fl (frees id))
          (free-IsStale fl id s item n below (omega arith) at_id same full) e1 in
      let below' : EpochsBelow (suc n) fl1 = Change-EpochsBelow fl.slots fl1.slots n pos below (
        Ensures_done (λ r. Change fl.slots r.slots) (step fl (frees id))
          (step-Change fl (frees id) n below (omega arith)) e1) in
      let (s', at_id', low) =
        Ensures_done (λ r. IsStale r (weak id)) (run fl1 os)
          (run-IsStale fl1 os (weak id) (suc n) (omega arith) below' (omega arith) stale) e2 in
      ground arith
