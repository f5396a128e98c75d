-- ===== src/Intern/Frames.antt =====
-- Frames of an `Interner` and its `DataStore` (webrender/src/intern.rs): how long a handle is good.
use webrender.Prelude.{
  ℕ, suc, ◌+◌, ◌<◌, ◌≤◌, ◌≡◌, refl, ap, ◌∙◌, ◌⊎◌, inl, inr, List, [], ◌∷◌, Option, none, some, Run,
  done, ◌>>=◌, arith, length, get_elem?, u32_mod,
}
use mathlib.Core.Logic.{if_pos, if_neg}
use webrender.Intern.{
  Handle, Interner, apply_updates, lookup, intern, end_frame_and_get_pending_updates, store_index,
  u64_mod, epochs_kept,
}
use webrender.Intern.Touch.{stored-lookup, lookup-collect}
use webrender.Intern.Agree.{Sync, end_frame-Sync}
use webrender.Intern.Add.{Interns, intern-Interns}

-- What a scene builder does: it interns a key, or it ends the frame, and the updates are applied.
pub data Step (S D : Type 0) : Type 0 where
  interns : S → D → Step S D
  ends : Step S D

abbrev pub ends_in : {S D : Type 0} → List (Step S D) → ℕ
ends_in [] = 0
ends_in (interns k d ∷ steps) = ends_in steps
ends_in (ends ∷ steps) = suc (ends_in steps)

module _ {S T D : Type 0} (from : S → T) (dec : Discrete S) where
  unfoldable pub run :
      ℕ → List (Option T) → Interner S D → List (Step S D) → Run (List (Option T) × Interner S D)
  run counter items s [] = done (items, s)
  run counter items s (interns key local ∷ steps) = do
    (s', handle, counter') ← intern dec counter s key local
    run counter' items s' steps
  run counter items s (ends ∷ steps) = do
    let (s', l) = end_frame_and_get_pending_updates s
    items' ← apply_updates from items l
    run counter items' s' steps

  -- The key has its handle at the index, refreshed at the epoch or later.
  record Tracked (key : S) (i e : ℕ) (s : Interner S D) : Type 0 where
    handle : Handle
    found : lookup dec key s.map ≡ some handle
    at_index : handle.index ≡ i
    recent : e ≤ handle.epoch
    past : handle.epoch ≤ s.current_epoch

  Interns-Tracked :
      (items : List (Option T)) (key : S) (i e : ℕ) (s : Interner S D) (counter : ℕ) (other : S)
      (local : D)
      → (r : Interns from dec items s other (intern dec counter s other local)) → Tracked key i e s
      → Tracked key i e r.after
  Interns-Tracked items key i e s counter other local r t = elim (dec other key) [
    | yes p ↦ record {
      handle = r.handle;
      found = r.maps key ∙ if_pos (dec other key) p (some r.handle) (lookup dec key s.map);
      at_index = same_index p r.identity;
      recent = omega (arith, r.current, t.recent, t.past);
      past = omega (arith, r.current, r.same_epoch);
    }
    | no p ↦ record {
      handle = t.handle;
      found =
          r.maps key ∙ if_neg (dec other key) p (some r.handle) (lookup dec key s.map) ∙ t.found;
      at_index = t.at_index;
      recent = t.recent;
      past = omega (arith, r.same_epoch, t.past);
    }
  ]
    where
      same_index :
          other ≡ key
          → ((lookup dec other s.map ≡ none)
              ⊎ ((old : ℕ) × (lookup dec other s.map ≡ some (record r.handle { epoch = old }))))
          → r.handle.index ≡ i
      same_index p (inl absent) =
          let was : lookup dec other s.map ≡ some t.handle = rw p t.found in cc
      same_index p (inr (old, was)) =
          let before : lookup dec other s.map ≡ some t.handle = rw p t.found in
          ground (arith, t.at_index)

  -- The end of a frame keeps a handle that is at most ten epochs old.
  end_frame-Tracked :
      (key : S) (i e : ℕ) (s : Interner S D)
      → Tracked key i e s
      → s.current_epoch ≤ e + epochs_kept
      → s.current_epoch + epochs_kept < u64_mod
      → Tracked key i e (end_frame_and_get_pending_updates s).0
  unfolding end_frame_and_get_pending_updates
  end_frame-Tracked key i e s t recent room = record {
    handle = t.handle;
    found =
        lookup-collect dec s.current_epoch key s.map s.free_list t.handle t.found
          (ground (arith, t.past, t.recent));
    at_index = t.at_index;
    recent = t.recent;
    past = omega (arith, t.past);
  }

  next_frame :
      (s : Interner S D)
      → s.current_epoch + 1 < u64_mod
      → ((end_frame_and_get_pending_updates s).0.current_epoch ≡ s.current_epoch + 1)
        × ((end_frame_and_get_pending_updates s).0.local_data ≡ s.local_data)
  unfolding end_frame_and_get_pending_updates
  next_frame s h = (omega arith, refl)

  run-Tracked :
      (steps : List (Step S D)) (counter : ℕ) (items : List (Option T)) (s : Interner S D) (key : S)
      (i e : ℕ)
      → Sync from items s
      → Tracked key i e s
      → length s.local_data + length steps ≤ u32_mod
      → s.current_epoch + ends_in steps ≤ e + epochs_kept + 1
      → e + 22 < u64_mod
      → (items' : List (Option T)) × (s' : Interner S D) × (run counter items s steps
          ≡ done (items', s'))
        × Sync from items' s'
        × Tracked key i e s'
        × (s'.current_epoch ≡ s.current_epoch + ends_in steps)
  unfolding run
  run-Tracked [] counter items s key i e v t room recent small = (items, s, refl, v, t, omega arith)
  run-Tracked (interns other local ∷ steps) counter items s key i e v t room recent small =
      let r = intern-Interns from dec items s counter other local v (omega arith) in
      let t' = Interns-Tracked items key i e s counter other local r t in
      let (items', s', returns, v', t'', epoch) =
        run-Tracked steps r.counter items r.after key i e r.keeps t' (omega (arith, r.grows))
          (omega (arith, r.same_epoch)) small in
      (items', s', rw r.returns returns, v', t'', omega (arith, epoch, r.same_epoch))
  run-Tracked (ends ∷ steps) counter items s key i e v t room recent small =
      let (items1, applied, v1, _) = end_frame-Sync from items s v in
      let (epoch1, local1) = next_frame s (omega arith) in
      let t1 = end_frame-Tracked key i e s t (omega arith) (omega arith) in
      let (items', s', returns, v', t'', epoch) =
        run-Tracked steps counter items1 (end_frame_and_get_pending_updates s).0 key i e v1 t1
          (omega (arith, ap length local1)) (omega (arith, epoch1)) small in
      (items', s', rw applied returns, v', t'', omega (arith, epoch, epoch1))

  first-Tracked :
      (items : List (Option T)) (s : Interner S D) (counter : ℕ) (key : S) (local : D)
      → (r : Interns from dec items s key (intern dec counter s key local))
      → Tracked key r.handle.index s.current_epoch r.after
  first-Tracked items s counter key local r = record {
    handle = r.handle;
    found = r.maps key ∙ if_pos (dec key key) refl (some r.handle) (lookup dec key s.map);
    at_index = refl;
    recent = omega (arith, r.current);
    past = omega (arith, r.current, r.same_epoch);
  }

  -- A handle is good for ten epochs: intern a key, go on interning and ending frames, at most ten of
  -- them, and end one more frame. Nothing panics, and the store then holds the key's data at the handle.
  pub handle_survives :
      (items : List (Option T)) (s : Interner S D) (counter : ℕ) (key : S) (local : D)
      (steps : List (Step S D))
      → Sync from items s
      → length s.local_data + length steps < u32_mod
      → ends_in steps ≤ epochs_kept
      → s.current_epoch + 22 < u64_mod
      → (s1 : Interner S D) × (h : Handle) × (counter1 : ℕ) × (items2 : List (Option T))
        × (s2 : Interner S D) × (intern dec counter s key local ≡ done (s1, h, counter1))
        × (run counter1 items s1 steps ≡ done (items2, s2))
        × ((items3 : List (Option T)) × (apply_updates from items2
                (end_frame_and_get_pending_updates s2).1
              ≡ done items3)
            × (store_index items3 h ≡ done (from key)))
  unfolding store_index
  handle_survives items s counter key local steps v room few small =
      let r = intern-Interns from dec items s counter key local v (omega arith) in
      let t = first-Tracked items s counter key local r in
      let (items2, s2, returns, v2, t2, epoch) =
        run-Tracked steps r.counter items r.after key r.handle.index s.current_epoch r.keeps t
          (omega (arith, r.grows)) (omega (arith, r.same_epoch)) small in
      let (items3, applied, _, stored) = end_frame-Sync from items2 s2 v2 in
      let t3 =
        end_frame-Tracked key r.handle.index s.current_epoch s2 t2
          (omega (arith, epoch, r.same_epoch)) (omega (arith, epoch, r.same_epoch)) in
      (
        r.after,
        r.handle,
        r.counter,
        items2,
        s2,
        r.returns,
        returns,
        (
          items3,
          applied,
          read items3 r.handle t3.handle.index t3.at_index (
              stored-lookup dec from key (end_frame_and_get_pending_updates s2).0.map items3
                t3.handle stored t3.found),
        ),
      )
    where
      read :
          (store : List (Option T)) (h : Handle) (i : ℕ)
          → i ≡ h.index
          → get_elem? store i ≡ some (some (from key))
          → store_index store h ≡ done (from key)
      read store h i e at_i = rw (← e, at_i) refl
