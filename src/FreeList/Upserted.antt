-- ===== src/FreeList/Upserted.antt =====
-- `upsert` of a free list (webrender/src/freelist.rs), when it returns: the handle that leads to the item.
use webrender.Prelude.{
  ℕ, ◌%◌, ◌≤◌, ◌<◌, ◌≡◌, refl, sym, ap, subst, ◌∙◌, inl, inr, [], ◌∷◌, ◌++◌, Option, none, some,
  true, false, done, >>=-eq-done, unwrap, index_at, index_at-eq-done, ◌==◌, ==-cases, arith,
  get_elem?, set, length, length-append, u32_mod, get_elem?-set_self, get_elem?-append_length,
  lt_of_get_elem?,
}
use webrender.FreeList.{
  FreeList, FreeListHandle, WeakFreeListHandle, Slot, UpsertResult, updated, inserted, weak,
  epoch_new, get_opt, insert, insert_at, insert_reused, insert_pushed, upsert, upsert_updated,
  upsert_inserted,
}
use webrender.FreeList.Freed.{get_opt_of_slot}

module _ {ℓ} {T : Type ℓ} where
  -- The handle that leads to the item after `upsert`.
  abbrev pub upserted_at : WeakFreeListHandle → UpsertResult T → WeakFreeListHandle
  upserted_at w (updated old) = w
  upserted_at w (inserted h) = weak h

  insert_reused-get_opt :
      (fl : FreeList T) (i : ℕ) (item : T) {r : FreeList T × FreeListHandle}
      → insert_reused fl i item ≡ done r
      → get_opt r.0 (weak r.1) ≡ done (some item)
  unfolding insert_reused
  insert_reused-get_opt fl i item {r} h =
      let (s, found, last) = >>=-eq-done (index_at fl.slots i) _ h in
      let at_i = index_at-eq-done fl.slots i found in
      let s' : Slot T = record s { next = none; value = some item } in
      let fl' : FreeList T = record fl { slots = set fl.slots i s'; free_list_head = s.next } in
      let same : (fl', record { index = i; epoch = s.epoch }) ≡ r = cc in
      subst (λ r. get_opt r.0 (weak r.1) ≡ done (some item)) same
        (get_opt_of_slot fl' (record { index = i; epoch = s.epoch }) s'
          (get_elem?-set_self fl.slots i s' (lt_of_get_elem? fl.slots i at_i)) refl refl)

  insert_pushed-get_opt :
      (fl : FreeList T) (item : T)
      → length fl.slots < u32_mod
      → get_opt (insert_pushed fl item).0 (weak (insert_pushed fl item).1) ≡ done (some item)
  unfolding insert_pushed
  insert_pushed-get_opt fl item small =
      let s : Slot T = record { next = none; epoch = epoch_new; value = some item } in
      let index : length fl.slots ≡ length fl.slots % u32_mod = omega arith in
      get_opt_of_slot (insert_pushed fl item).0 (weak (insert_pushed fl item).1) s
        (subst (λ i. get_elem? (fl.slots ++ s ∷ []) i ≡ some s) index
          (get_elem?-append_length fl.slots s))
        refl refl

  insert_at-get_opt :
      (fl : FreeList T) (item : T) (o : Option ℕ) {r : FreeList T × FreeListHandle}
      → insert_at fl item o ≡ done r
      → length r.0.slots ≤ u32_mod
      → get_opt r.0 (weak r.1) ≡ done (some item)
  unfolding insert_at insert_pushed
  insert_at-get_opt fl item (some i) h small = insert_reused-get_opt fl i item h
  insert_at-get_opt fl item none {r} h small =
      let same : insert_pushed fl item ≡ r = cc in
      let grown : length
            (fl.slots ++ record { next = none; epoch = epoch_new; value = some item } ∷ [])
          ≤ u32_mod =
        subst (λ r. length r.0.slots ≤ u32_mod) (sym same) small in
      let room : length fl.slots < u32_mod = omega (arith, grown, length-append {A = Slot T}) in
      subst (λ r. get_opt r.0 (weak r.1) ≡ done (some item)) same
        (insert_pushed-get_opt fl item room)

  upsert_updated-get_opt :
      (fl : FreeList T) (w : WeakFreeListHandle) (item : T) (s : Slot T)
      {r : FreeList T × UpsertResult T}
      → get_elem? fl.slots w.index ≡ some s
      → s.epoch ≡ w.epoch
      → upsert_updated fl w item ≡ done r
      → get_opt r.0 (upserted_at w r.1) ≡ done (some item)
  unfolding upsert_updated
  upsert_updated-get_opt fl w item s {r} at_w same_epoch h =
      let (t, found, more) = >>=-eq-done (index_at fl.slots w.index) _ h in
      let at_t = index_at-eq-done fl.slots w.index found in
      let is_s : t ≡ s = cc in
      let (old, full, last) = >>=-eq-done (unwrap t.value) _ more in
      let t' : Slot T = record t { value = some item } in
      let fl' : FreeList T = record fl { slots = set fl.slots w.index t' } in
      let same : (fl', updated old) ≡ r = cc in
      subst (λ r. get_opt r.0 (upserted_at w r.1) ≡ done (some item)) same
        (get_opt_of_slot fl' w t'
          (get_elem?-set_self fl.slots w.index t' (lt_of_get_elem? fl.slots w.index at_t)) refl
          (ap (λ s. s.epoch) is_s ∙ same_epoch))

  -- When `upsert` returns with at most 2^32 slots, the handle leads to the item.
  pub upsert-get_opt :
      (fl : FreeList T) (w : WeakFreeListHandle) (item : T) {r : FreeList T × UpsertResult T}
      → upsert fl w item ≡ done r
      → length r.0.slots ≤ u32_mod
      → get_opt r.0 (upserted_at w r.1) ≡ done (some item)
  unfolding upsert upsert_inserted insert
  upsert-get_opt fl w item {r} h small =
      let (s, found, more) = >>=-eq-done (index_at fl.slots w.index) _ h in
      let at_w = index_at-eq-done fl.slots w.index found in
      elim (==-cases s.epoch w.epoch) [
        | inl same ↦
            let eq : (s.epoch == w.epoch) ≡ true = ground (arith, same) in
            upsert_updated-get_opt fl w item s at_w same (rw eq at more)
        | inr ne ↦
            let eq : (s.epoch == w.epoch) ≡ false = ground (arith, ne) in
            let more' : upsert_inserted fl item ≡ done r = rw eq at more in
            let ((fl', handle), pushed, last) = >>=-eq-done (insert fl item) _ more' in
            let same : (fl', inserted handle) ≡ r = cc in
            subst (λ r. get_opt r.0 (upserted_at w r.1) ≡ done (some item)) same
              (insert_at-get_opt _ item fl.free_list_head pushed
                (subst (λ r. length r.0.slots ≤ u32_mod) (sym same) small))
      ]
