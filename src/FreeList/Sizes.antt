-- ===== src/FreeList/Sizes.antt =====
-- How large the vector of webrender/src/freelist.rs grows, and what `clear` leaves behind.
use webrender.Prelude.{
  ℕ, ◌+◌, ◌≡◌, refl, List, [], ◌∷◌, Option, none, some, done, panic, Ensures, Ensures_done, arith,
  length, length-append, length-set, max,
}
use webrender.FreeList.{
  FreeListHandle, WeakFreeListHandle, weak_invalid, Slot, FreeList, new, clear, insert, insert_at,
  get_opt, active_len, epoch_new,
}
use webrender.FreeList.Invariant.{Inv, Chain, occupied}

module _ {ℓ} {T : Type ℓ} where
  slots_after :
      (fl : FreeList T) (item : T) (head : Option ℕ) (chain : List ℕ)
      → fl.free_list_head ≡ head
      → Chain fl.slots head chain
      → occupied fl.slots + length chain ≡ length fl.slots
      → Ensures
          (λ r. length r.0.slots ≡ max (length fl.slots) (occupied fl.slots + 1))
          (insert fl item)
  unfolding insert
  slots_after fl item head [] e (c, _) complete =
      rw (e, c, insert_at) (omega (arith, length-append {A = Slot T}))
  slots_after fl item head (i ∷ is) e (s, at_head, at_i, vacant, rest) complete =
      rw (e, at_head, insert_at, at_i) (omega (arith, length-set {A = Slot T}))

  -- The vector grows only when every slot is occupied: after an insertion it is as long as before,
  -- or as long as the number of live entries, whichever is more.
  pub length-insert :
      (fl fl' : FreeList T) (item : T) (h : FreeListHandle)
      → Inv fl
      → insert fl item ≡ done (fl', h)
      → length fl'.slots ≡ max (length fl.slots) (active_len fl + 1)
  unfolding active_len
  length-insert fl fl' item h v e =
      let size =
        Ensures_done (λ r. length r.0.slots ≡ max (length fl.slots) (occupied fl.slots + 1))
          (insert fl item) (slots_after fl item fl.free_list_head v.chain refl v.linked v.complete)
          e in
      omega (arith, size, v.counted)

  -- `clear` keeps the chain and the counter consistent, but it leaves no slot at all: until the next
  -- insertion every weak lookup panics, the one through the invalid handle too.
  pub clear_lem :
      (fl : FreeList T)
      → Inv (clear fl)
        × (active_len (clear fl) ≡ 0)
        × ((w : WeakFreeListHandle) → get_opt (clear fl) w ≡ panic)
        × (get_opt (new {T = T}) weak_invalid ≡ done none)
  unfolding clear active_len get_opt new
  clear_lem fl = (
    record {
      chain = [];
      linked = (refl, tt);
      distinct = tt;
      counted = refl;
      complete = omega arith;
      small = omega arith;
    },
    refl,
    λ w. refl,
    refl,
  )

  -- `clear` also forgets the epochs: a handle for the first slot that was never freed before it
  -- resolves, after it, to the next item that is inserted.
  pub clear_forgets_epochs :
      (fl : FreeList T) (item : T)
      → (after : FreeList T) × (insert (clear fl) item
          ≡ done (after, record { index = 0; epoch = epoch_new }))
        × (get_opt after (record { index = 0; epoch = epoch_new }) ≡ done (some item))
  unfolding clear insert get_opt
  clear_forgets_epochs fl item = (
    record {
      slots = record { next = none; epoch = epoch_new; value = some item } ∷ [];
      free_list_head = none;
      active_count = 1;
    },
    refl,
    refl,
  )
