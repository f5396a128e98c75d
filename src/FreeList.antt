-- ===== src/FreeList.antt =====
-- webrender/src/freelist.rs: the vector-backed free list with strong and weak handles, and the
-- operations on it. A `&mut T` that an operation hands out is a function applied to the value.
pub mod Invariant
pub mod View
pub mod Laws
pub mod Stale
pub mod Sizes
pub mod Freed
pub mod Upserted
mod Tests
use webrender.Prelude.{
  ℕ, ◌+◌, ◌-◌, ◌%◌, List, [], ◌∷◌, ◌++◌, Option, none, some, Run, done, panic, ◌>>=◌, unwrap,
  index_at, u32_mod, usize_mod, length, set, ◌==◌, if◌then◌else◌,
}

-- `Epoch::new` and `Epoch::invalid`.
abbrev pub epoch_new : ℕ
epoch_new = 1

abbrev pub epoch_invalid : ℕ
epoch_invalid = 0

pub record FreeListHandle : Type 0 where
  pub index : ℕ
  pub epoch : ℕ

pub record WeakFreeListHandle : Type 0 where
  pub index : ℕ
  pub epoch : ℕ

abbrev pub weak : FreeListHandle → WeakFreeListHandle
weak h = record { index = h.index; epoch = h.epoch }

abbrev pub strong_invalid : FreeListHandle
strong_invalid = record { index = 0; epoch = epoch_invalid }

abbrev pub weak_invalid : WeakFreeListHandle
weak_invalid = record { index = 0; epoch = epoch_invalid }

pub record Slot {ℓ} (T : Type ℓ) : Type ℓ where
  pub next : Option ℕ
  pub epoch : ℕ
  pub value : Option T

pub record FreeList {ℓ} (T : Type ℓ) : Type ℓ where
  pub slots : List (Slot T)
  pub free_list_head : Option ℕ
  pub active_count : ℕ

pub data UpsertResult {ℓ} (T : Type ℓ) : Type ℓ where
  updated : T → UpsertResult T
  inserted : FreeListHandle → UpsertResult T

module _ {ℓ} {T : Type ℓ} where
  unfoldable pub new : FreeList T
  new = record {
    slots = record { next = none; epoch = epoch_new; value = none } ∷ [];
    free_list_head = some 0;
    active_count = 0;
  }

  unfoldable pub clear : FreeList T → FreeList T
  clear fl = record { slots = []; free_list_head = none; active_count = 0 }

  unfoldable pub get : FreeList T → FreeListHandle → Run T
  get fl id = do slot ← index_at fl.slots id.index; unwrap slot.value

  unfoldable pub get_mut : FreeList T → FreeListHandle → (T → T) → Run (FreeList T)
  get_mut fl id f = do
    slot ← index_at fl.slots id.index
    value ← unwrap slot.value
    done (record fl { slots = set fl.slots id.index (record slot { value = some (f value) }) })

  unfoldable pub get_opt : FreeList T → WeakFreeListHandle → Run (Option T)
  get_opt fl id = do
    slot ← index_at fl.slots id.index
    done (if slot.epoch == id.epoch then slot.value else none)

  -- The write through the reference that `get_opt_mut` may give.
  write_opt : FreeList T → ℕ → Slot T → (T → T) → Option T → FreeList T
  write_opt fl i slot f none = fl
  write_opt fl i slot f (some v) = record fl {
    slots = set fl.slots i (record slot { value = some (f v) });
  }

  unfoldable pub get_opt_mut : FreeList T → WeakFreeListHandle → (T → T) → Run (FreeList T)
  unfolding write_opt
  get_opt_mut fl id f = do
    slot ← index_at fl.slots id.index
    done (if slot.epoch == id.epoch then write_opt fl id.index slot f slot.value else fl)

  -- The two arms of the `match` of `insert`.
  insert_reused : FreeList T → ℕ → T → Run (FreeList T × FreeListHandle)
  insert_reused fl free_index item = do
    slot ← index_at fl.slots free_index
    done (
      record fl {
        slots = set fl.slots free_index (record slot { next = none; value = some item });
        free_list_head = slot.next;
      },
      record { index = free_index; epoch = slot.epoch },
    )

  insert_pushed : FreeList T → T → FreeList T × FreeListHandle
  insert_pushed fl item = (
    record fl {
      slots = fl.slots ++ record { next = none; epoch = epoch_new; value = some item } ∷ [];
    },
    record { index = length fl.slots % u32_mod; epoch = epoch_new },
  )

  insert_at : FreeList T → T → Option ℕ → Run (FreeList T × FreeListHandle)
  unfolding insert_reused insert_pushed
  insert_at fl item none = done (insert_pushed fl item)
  insert_at fl item (some free_index) = insert_reused fl free_index item

  unfoldable pub insert : FreeList T → T → Run (FreeList T × FreeListHandle)
  unfolding insert_at
  insert fl item =
      insert_at (record fl { active_count = (fl.active_count + 1) % usize_mod }) item
        fl.free_list_head

  upsert_updated : FreeList T → WeakFreeListHandle → T → Run (FreeList T × UpsertResult T)
  upsert_updated fl id item = do
    slot ← index_at fl.slots id.index
    old ← unwrap slot.value
    done (
      record fl { slots = set fl.slots id.index (record slot { value = some item }) },
      updated old,
    )

  upsert_inserted : FreeList T → T → Run (FreeList T × UpsertResult T)
  upsert_inserted fl item = do (fl', h) ← insert fl item; done (fl', inserted h)

  unfoldable pub upsert : FreeList T → WeakFreeListHandle → T → Run (FreeList T × UpsertResult T)
  unfolding upsert_updated upsert_inserted
  upsert fl id item = do
    slot ← index_at fl.slots id.index
    if slot.epoch == id.epoch then upsert_updated fl id item else upsert_inserted fl item

  unfoldable pub free : FreeList T → FreeListHandle → Run (FreeList T × T)
  free fl id = do
    slot ← index_at fl.slots id.index
    value ← unwrap slot.value
    done (
      record {
        slots =
            set fl.slots id.index (record {
              next = fl.free_list_head;
              epoch = (slot.epoch + 1) % u32_mod;
              value = none;
            });
        free_list_head = some id.index;
        active_count = (fl.active_count + usize_mod - 1) % usize_mod;
      },
      value,
    )

  unfoldable pub active_len : FreeList T → ℕ
  active_len fl = fl.active_count
