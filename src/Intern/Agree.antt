-- ===== src/Intern/Agree.antt =====
-- The invariant that ties an `Interner` to a `DataStore` (webrender/src/intern.rs), and the end of a
-- frame.
use webrender.Prelude.{◌≡◌, refl, ◌∙◌, List, [], ◌++◌, Option, done, length, All, Distinct}
use mathlib.Core.List.{append-nil}
use webrender.Intern.{
  Interner, new, apply_loop, apply_updates, end_frame_and_get_pending_updates, collect,
}
use webrender.Intern.Sync.{indices, StoredAt, FreeAt, apply_loop-append}
use webrender.Intern.Collect.{collect_lem}

module _ {S T D : Type 0} (from : S → T) where
  -- The store `items`, with the pending updates applied, agrees with the interner.
  pub record Sync (items : List (Option T)) (s : Interner S D) : Type 0 where
    pub pending : List (Option T)
    pub applied : apply_loop from s.updates s.update_data items ≡ done (pending, [])
    pub sized : length pending ≡ length s.local_data
    pub stored : All (StoredAt from pending) s.map
    pub freed : All (FreeAt from pending) s.free_list
    pub distinct_map : Distinct (indices s.map)
    pub distinct_free : Distinct s.free_list

  pub new-Sync : Sync [] new
  unfolding new apply_loop
  new-Sync = record {
    pending = [];
    applied = refl;
    sized = refl;
    stored = tt;
    freed = tt;
    distinct_map = tt;
    distinct_free = tt;
  }

  -- The pending updates always apply: the store that results is in agreement with the interner after
  -- the collection, with nothing pending.
  pub end_frame-Sync :
      (items : List (Option T)) (s : Interner S D)
      → Sync items s
      → (items' : List (Option T)) × (apply_updates from items
            (end_frame_and_get_pending_updates s).1
          ≡ done items')
        × Sync items' (end_frame_and_get_pending_updates s).0
        × All (StoredAt from items') (end_frame_and_get_pending_updates s).0.map
  unfolding end_frame_and_get_pending_updates apply_updates apply_loop
  end_frame-Sync items s v =
      let c =
        collect_lem from s.current_epoch s.map s.free_list v.pending v.stored v.freed v.distinct_map
          v.distinct_free in
      let removals = (collect s.current_epoch s.map s.free_list).2 in
      let all =
        apply_loop-append from s.updates removals s.update_data [] items v.pending v.applied
        ∙ c.applies in
      let all' : apply_loop from (s.updates ++ removals) s.update_data items ≡ done (c.after, []) =
        (rw append-nil at all) in
      (
        c.after,
        rw all' refl,
        record {
          pending = c.after;
          applied = refl;
          sized = c.sized ∙ v.sized;
          stored = c.stored;
          freed = c.freed;
          distinct_map = c.distinct_map;
          distinct_free = c.distinct_free;
        },
        c.stored,
      )
