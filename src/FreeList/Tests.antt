-- ===== src/FreeList/Tests.antt =====
-- Runs of webrender/src/freelist.rs on concrete lists.
use webrender.Prelude.{ℕ, ◌≡◌, refl, [], ◌∷◌, none, some, done, panic, arith}
use webrender.FreeList.{
  FreeListHandle, WeakFreeListHandle, FreeList, updated, inserted, new, clear, weak, weak_invalid,
  get, get_mut, get_opt, get_opt_mut, insert, upsert, free, active_len, epoch_new,
}
use webrender.FreeList.Invariant.{Inv, new-Inv}
use webrender.FreeList.View.{lookup}
use webrender.FreeList.Laws.{
  Inserts, Frees, Writes, insert_lem, free_lem, get_mut_lem, upsert-Writes,
}
use webrender.FreeList.Stale.{inserts, run, step, freed_never_resolves}
use webrender.FreeList.Sizes.{clear_lem, clear_forgets_epochs}

-- One entry, the value 7, in the first slot.
abbrev seven : FreeList ℕ
seven = record {
  slots = record { next = none; epoch = 1; value = some 7 } ∷ [];
  free_list_head = none;
  active_count = 1;
}

abbrev first : FreeListHandle
first = record { index = 0; epoch = 1 }

abbrev later : FreeListHandle
later = record { index = 0; epoch = 2 }

-- The first slot again, after its entry was freed and 9 was inserted.
abbrev nine : FreeList ℕ
nine = record {
  slots = record { next = none; epoch = 2; value = some 9 } ∷ [];
  free_list_head = none;
  active_count = 1;
}

seven-Inv : Inv seven
seven-Inv = record {
  chain = [];
  linked = (refl, tt);
  distinct = tt;
  counted = refl;
  complete = refl;
  small = omega arith;
}

insert-first : insert new 7 ≡ done (seven, first)
unfolding insert new
insert-first = refl

get-first : get seven first ≡ done 7
unfolding get
get-first = refl

upsert_stale :
    upsert seven weak_invalid 8
    ≡ done (
      record {
        slots =
            record { next = none; epoch = 1; value = some 7 }
            ∷ record { next = none; epoch = 1; value = some 8 }
            ∷ [];
        free_list_head = none;
        active_count = 2;
      },
      inserted (record { index = 1; epoch = 1 }),
    )
unfolding upsert insert
upsert_stale = refl

insert_lem_example : Inserts (new {T = ℕ}) 7 (insert new 7)
unfolding new
insert_lem_example = insert_lem new 7 new-Inv (omega arith)

free_lem_example : Frees seven first 7 (free seven first)
unfolding lookup
free_lem_example = free_lem seven first 7 seven-Inv refl

freed_never_resolves_example : get_opt nine (weak first) ≡ done none
unfolding lookup run step free insert
freed_never_resolves_example =
    freed_never_resolves seven nine first 7 (inserts 9 ∷ []) 2 refl (omega arith) (omega arith)
      (omega arith) refl

get_mut_lem_example :
    (get seven first ≡ done 7)
    × ((after : FreeList ℕ) × (get_mut seven first (λ v. 9) ≡ done after)
        × (get_opt_mut seven (weak first) (λ v. 9) ≡ done after)
        × Writes seven (weak first) 9 after)
unfolding lookup
get_mut_lem_example = get_mut_lem seven first (λ v. 9) 7 seven-Inv refl

upsert-Writes_example :
    (after : FreeList ℕ) × (upsert seven (weak first) 8 ≡ done (after, updated 7))
    × Writes seven (weak first) 8 after
unfolding lookup
upsert-Writes_example = upsert-Writes seven (weak first) 7 8 seven-Inv refl

clear_lem_example :
    Inv (clear seven)
    × (active_len (clear seven) ≡ 0)
    × ((w : WeakFreeListHandle) → get_opt (clear seven) w ≡ panic)
    × (get_opt (new {T = ℕ}) weak_invalid ≡ done none)
clear_lem_example = clear_lem seven

clear_forgets_epochs_example :
    (after : FreeList ℕ) × (insert (clear seven) 9
      ≡ done (after, record { index = 0; epoch = epoch_new }))
    × (get_opt after (record { index = 0; epoch = epoch_new }) ≡ done (some 9))
clear_forgets_epochs_example = clear_forgets_epochs seven 9
