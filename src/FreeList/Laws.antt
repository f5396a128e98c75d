-- ===== src/FreeList/Laws.antt =====
-- What the operations of webrender/src/freelist.rs do to the abstract view, and that they keep the
-- invariant.
use webrender.Prelude.{
  ℕ, ◌+◌, ◌-◌, ◌%◌, ◌<◌, ◌≡◌, ◌≢◌, refl, List, [], ◌∷◌, ◌++◌, Option, none, some, Run, done, arith,
  length, get_elem?, set, NotIn, Distinct, get_elem?-set_self, length-append, length-set,
  lt_of_get_elem?, get_elem?_past, u32_mod, usize_mod, if◌then◌else◌,
}
use webrender.FreeList.{
  FreeListHandle, WeakFreeListHandle, weak, Slot, FreeList, insert, insert_at, free, get, get_mut,
  get_opt_mut, upsert, updated, inserted, epoch_new,
}
use webrender.FreeList.Invariant.{
  Inv, Chain, Chain-set, Chain-NotIn, occupied-set, occupied-append, occupied-le-length, occupied,
}
use webrender.FreeList.View.{
  same, lookup, slot_of_lookup, lookup-set_value, slot_value-set, slot_value-append,
}

module _ {ℓ} {T : Type ℓ} where
  -- What `insert` promises of its outcome.
  pub record Inserts (fl : FreeList T) (item : T) (r : Run (FreeList T × FreeListHandle))
      : Type ℓ where
    pub after : FreeList T
    pub handle : FreeListHandle
    pub returns : r ≡ done (after, handle)
    pub keeps : Inv after
    pub fresh : lookup fl (weak handle) ≡ none
    pub maps :
        (w : WeakFreeListHandle)
        → lookup after w ≡ (if same w (weak handle) then some item else lookup fl w)

  insert_at-Inserts :
      (fl : FreeList T) (item : T) (head : Option ℕ) (chain : List ℕ)
      → fl.free_list_head ≡ head
      → Chain fl.slots head chain
      → Distinct chain
      → fl.active_count ≡ occupied fl.slots
      → occupied fl.slots + length chain ≡ length fl.slots
      → length fl.slots < u32_mod
      → Inserts fl item (insert fl item)
  unfolding insert lookup
  insert_at-Inserts fl item head [] e (c, _) d counted complete small = record {
    after = record {
      slots = fl.slots ++ record { next = none; epoch = epoch_new; value = some item } ∷ [];
      free_list_head = fl.free_list_head;
      active_count = (fl.active_count + 1) % usize_mod;
    };
    handle = record { index = length fl.slots; epoch = epoch_new };
    returns = ground arith;
    keeps = record {
      chain = [];
      linked = (ground arith, tt);
      distinct = tt;
      counted = omega (arith, occupied-append {T = T}, occupied-le-length {T = T});
      complete = omega (arith, occupied-append {T = T}, length-append {A = Slot T});
      small = omega (arith, length-append {A = Slot T});
    };
    fresh = ground (arith, get_elem?_past fl.slots (length fl.slots) (omega arith));
    maps = λ w. ground (
      arith,
      slot_value-append fl.slots w.index w.epoch
          (record { next = none; epoch = epoch_new; value = some item }),
    );
  }
  insert_at-Inserts fl item head (i ∷ is) e (s, at_head, at_i, vacant, rest) d counted complete
        small =
      record {
        after = record {
          slots = set fl.slots i (record s { next = none; value = some item });
          free_list_head = s.next;
          active_count = (fl.active_count + 1) % usize_mod;
        };
        handle = record { index = i; epoch = s.epoch };
        returns = rw (e, at_head, insert_at, at_i) refl;
        keeps = record {
          chain = is;
          linked = Chain-set fl.slots s.next is i _ d.0 rest;
          distinct = d.1;
          counted = ground (
            arith,
            occupied-set fl.slots i s (record s { next = none; value = some item }) at_i,
            occupied-le-length fl.slots,
          );
          complete = ground (
            arith,
            length-set fl.slots i (record s { next = none; value = some item }),
            occupied-set fl.slots i s (record s { next = none; value = some item }) at_i,
          );
          small = omega (arith, length-set {A = Slot T});
        };
        fresh = ground arith;
        maps = λ w. ground (
          arith,
          slot_value-set fl.slots i w.index w.epoch (record s { next = none; value = some item })
              (lt_of_get_elem? fl.slots i at_i),
        );
      }

  -- On a well-formed list with an index to spare, `insert` never panics: it keeps the invariant,
  -- the handle that it returns was not in use, and the view gains the item at that handle and
  -- changes nowhere else.
  pub insert_lem :
      (fl : FreeList T) (item : T)
      → Inv fl
      → length fl.slots < u32_mod
      → Inserts fl item (insert fl item)
  insert_lem fl item v small =
      insert_at-Inserts fl item fl.free_list_head v.chain refl v.linked v.distinct v.counted
        v.complete small

  pub record Frees (fl : FreeList T) (id : FreeListHandle) (item : T) (r : Run (FreeList T × T))
      : Type ℓ where
    pub after : FreeList T
    pub returns : r ≡ done (after, item)
    pub keeps : Inv after
    pub maps :
        (w : WeakFreeListHandle) → lookup after w ≡ (if same w (weak id) then none else lookup fl w)

  free_slot :
      (fl : FreeList T) (id : FreeListHandle) (item : T) (s : Slot T)
      → Inv fl
      → get_elem? fl.slots id.index ≡ some s
      → s.epoch ≡ id.epoch
      → s.value ≡ some item
      → Frees fl id item (free fl id)
  unfolding free lookup
  free_slot fl id item s v at_id same_epoch full = record {
    after = record {
      slots = set fl.slots id.index vacated;
      free_list_head = some id.index;
      active_count = (fl.active_count + usize_mod - 1) % usize_mod;
    };
    returns = rw (at_id, full) refl;
    keeps = record {
      chain = id.index ∷ v.chain;
      linked = (
        vacated,
        refl,
        get_elem?-set_self fl.slots id.index vacated (lt_of_get_elem? fl.slots id.index at_id),
        refl,
        Chain-set fl.slots fl.free_list_head v.chain id.index vacated off v.linked,
      );
      distinct = (off, v.distinct);
      counted = ground (
        arith,
        occupied-set fl.slots id.index s vacated at_id,
        v.counted,
        v.small,
        occupied-le-length fl.slots,
      );
      complete = ground (
        arith,
        length-set fl.slots id.index vacated,
        occupied-set fl.slots id.index s vacated at_id,
        v.complete,
      );
      small = omega (arith, length-set {A = Slot T}, v.small);
    };
    maps = λ w. ground (
      arith,
      slot_value-set fl.slots id.index w.index w.epoch vacated
          (lt_of_get_elem? fl.slots id.index at_id),
    );
  }
    where
      vacated : Slot T
      vacated = record { next = fl.free_list_head; epoch = (s.epoch + 1) % u32_mod; value = none }

      off : NotIn id.index v.chain
      off = Chain-NotIn fl.slots fl.free_list_head v.chain id.index s item at_id full v.linked

  -- Freeing through a handle that is in use never panics: it returns the stored item, keeps the
  -- invariant, and removes that handle and nothing else from the view.
  pub free_lem :
      (fl : FreeList T) (id : FreeListHandle) (item : T)
      → Inv fl
      → lookup fl (weak id) ≡ some item
      → Frees fl id item (free fl id)
  free_lem fl id item v h =
      let (s, at_id, same_epoch, full) = slot_of_lookup fl (weak id) item h in
      free_slot fl id item s v at_id same_epoch full

  pub record Writes (fl : FreeList T) (w : WeakFreeListHandle) (item : T) (after : FreeList T)
      : Type ℓ where
    pub keeps : Inv after
    pub maps :
        (u : WeakFreeListHandle) → lookup after u ≡ (if same u w then some item else lookup fl u)

  -- A write of a value over another one.
  set_value-Writes :
      (fl : FreeList T) (w : WeakFreeListHandle) (s : Slot T) (old item : T)
      → Inv fl
      → get_elem? fl.slots w.index ≡ some s
      → s.epoch ≡ w.epoch
      → s.value ≡ some old
      → Writes fl w item
          (record fl { slots = set fl.slots w.index (record s { value = some item }) })
  set_value-Writes fl w s old item v at_w same_epoch full = record {
    keeps = record {
      chain = v.chain;
      linked =
          Chain-set fl.slots fl.free_list_head v.chain w.index written
            (Chain-NotIn fl.slots fl.free_list_head v.chain w.index s old at_w full v.linked)
            v.linked;
      distinct = v.distinct;
      counted = ground (arith, occupied-set fl.slots w.index s written at_w, v.counted);
      complete = ground (
        arith,
        length-set fl.slots w.index written,
        occupied-set fl.slots w.index s written at_w,
        v.complete,
      );
      small = omega (arith, length-set {A = Slot T}, v.small);
    };
    maps = λ u. lookup-set_value fl w s item u at_w same_epoch;
  }
    where
      written : Slot T
      written = record s { value = some item }

  -- `get` reads what the view holds at the handle; `get_mut` and `get_opt_mut` apply the caller's
  -- change to that value and to nothing else, and keep the invariant.
  pub get_mut_lem :
      (fl : FreeList T) (id : FreeListHandle) (f : T → T) (item : T)
      → Inv fl
      → lookup fl (weak id) ≡ some item
      → (get fl id ≡ done item)
        × ((after : FreeList T) × (get_mut fl id f ≡ done after)
            × (get_opt_mut fl (weak id) f ≡ done after)
            × Writes fl (weak id) (f item) after)
  unfolding get get_mut get_opt_mut
  get_mut_lem fl id f item v h =
      let (s, at_id, same_epoch, full) = slot_of_lookup fl (weak id) item h in
      (
        rw (at_id, full) refl,
        (
          record fl { slots = set fl.slots id.index (record s { value = some (f item) }) },
          rw (at_id, full) refl,
          ground arith,
          set_value-Writes fl (weak id) s item (f item) v at_id same_epoch full,
        ),
      )

  -- `upsert` through a handle that is in use replaces the value there and returns the old one.
  pub upsert-Writes :
      (fl : FreeList T) (w : WeakFreeListHandle) (old item : T)
      → Inv fl
      → lookup fl w ≡ some old
      → (after : FreeList T) × (upsert fl w item ≡ done (after, updated old))
        × Writes fl w item after
  unfolding upsert
  upsert-Writes fl w old item v h =
      let (s, at_w, same_epoch, full) = slot_of_lookup fl w old h in
      (
        record fl { slots = set fl.slots w.index (record s { value = some item }) },
        ground arith,
        set_value-Writes fl w s old item v at_w same_epoch full,
      )

  -- `upsert` through a handle of another epoch inserts.
  pub upsert-Inserts :
      (fl : FreeList T) (w : WeakFreeListHandle) (item : T) (s : Slot T)
      → Inv fl
      → length fl.slots < u32_mod
      → get_elem? fl.slots w.index ≡ some s
      → s.epoch ≢ w.epoch
      → (r : Inserts fl item (insert fl item)) × (upsert fl w item
          ≡ done (r.after, inserted r.handle))
  unfolding upsert
  upsert-Inserts fl w item s v small at_w other =
      let r = insert_lem fl item v small in (r, ground (arith, r.returns))
