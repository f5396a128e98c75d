-- ===== src/Intern/Tests.antt =====
-- Runs of webrender/src/intern.rs: keys are numbers, the store keeps them plus one.
use webrender.Prelude.{ℕ, ◌+◌, ◌≡◌, refl, List, [], ◌∷◌, Option, some, done, arith, All}
use native.Mathlib.Decide.{ℕ_discrete}
use webrender.Intern.{
  Handle, Interner, new, intern, take_index, lookup, apply_loop, apply_update, apply_updates,
  end_frame_and_get_pending_updates, store_index, inserted,
}
use webrender.Intern.Sync.{StoredAt}
use webrender.Intern.Agree.{Sync, end_frame-Sync}
use webrender.Intern.Add.{Interns, intern-Interns}
use webrender.Intern.Frames.{Step, interns, ends, run, handle_survives}

abbrev next : ℕ → ℕ
next n = n + 1

-- An interner that has just interned 5.
abbrev five : Interner ℕ ℕ
five = record {
  map = (5, record { index = 0; epoch = 1; uid = 0 }) ∷ [];
  free_list = [];
  updates = record { index = 0; kind = inserted } ∷ [];
  update_data = 5 ∷ [];
  current_epoch = 1;
  local_data = 50 ∷ [];
}

intern-five :
    intern ℕ_discrete 0 new 5 50 ≡ done (five, record { index = 0; epoch = 1; uid = 0 }, 1)
unfolding intern new lookup take_index
intern-five = refl

five-Sync : Sync next [] five
unfolding apply_loop apply_update
five-Sync = record {
  pending = some 6 ∷ [];
  applied = refl;
  sized = refl;
  stored = (refl, tt);
  freed = tt;
  distinct_map = (tt, tt);
  distinct_free = tt;
}

intern-Interns_example : Interns next ℕ_discrete [] five 6 (intern ℕ_discrete 1 five 6 60)
intern-Interns_example = intern-Interns next ℕ_discrete [] five 1 6 60 five-Sync (omega arith)

end_frame-Sync_example :
    (items' : List (Option ℕ)) × (apply_updates next [] (end_frame_and_get_pending_updates five).1
      ≡ done items')
    × Sync next items' (end_frame_and_get_pending_updates five).0
    × All (StoredAt next items') (end_frame_and_get_pending_updates five).0.map
end_frame-Sync_example = end_frame-Sync next [] five five-Sync

abbrev steps : List (Step ℕ ℕ)
steps = interns 6 60 ∷ ends ∷ interns 7 70 ∷ ends ∷ []

handle_survives_example :
    (s1 : Interner ℕ ℕ) × (h : Handle) × (counter1 : ℕ) × (items2 : List (Option ℕ))
    × (s2 : Interner ℕ ℕ) × (intern ℕ_discrete 1 five 5 50 ≡ done (s1, h, counter1))
    × (run next ℕ_discrete counter1 [] s1 steps ≡ done (items2, s2))
    × ((items3 : List (Option ℕ)) × (apply_updates next items2
            (end_frame_and_get_pending_updates s2).1
          ≡ done items3)
        × (store_index items3 h ≡ done 6))
handle_survives_example =
    handle_survives next ℕ_discrete [] five 1 5 50 steps five-Sync (omega arith) (omega arith)
      (omega arith)
