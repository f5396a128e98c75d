-- ===== src/RenderTaskCache/Placed.antt =====
-- `update` of the render task cache (webrender/src/render_task.rs): where it places a pending task.
use webrender.Prelude.{
  ℕ, ◌≡◌, ◌≤◌, refl, sym, ap, subst, ◌∙◌, List, none, some, Run, done, panic, >>=-eq-done, index_at,
  index_at-eq-done, unwrap, length, get_elem?, set, get_elem?-set_self, lt_of_get_elem?, u32_mod,
}
use webrender.TextureAllocator.{DeviceIntSize, DeviceIntRect}
use webrender.FreeList.{FreeList, FreeListHandle, WeakFreeListHandle, Slot, get_mut, get_opt}
use webrender.FreeList.Freed.{Holds, unwrap-eq-done}
use webrender.Images.{all}
use webrender.RenderTasks.{RenderTask, texture_cache}
use webrender.TextureCache.Entries.{UvRectKind, CacheEntry, place_of}
use webrender.TextureCache.Caches.{TextureCache}
use webrender.TextureCache.Requests.{update, get_cache_location}
use webrender.TextureCache.Updated.{update-get_opt}
use webrender.RenderTaskCache.{
  RenderTaskCacheEntry, TaskCacheState, expect_dynamic, task_params, update_pending,
}

state_or : TaskCacheState → Run TaskCacheState → TaskCacheState
state_or s (done s') = s'
state_or s panic = s

slots_or :
    FreeList RenderTaskCacheEntry
    → Run (FreeList RenderTaskCacheEntry)
    → List (Slot RenderTaskCacheEntry)
slots_or fl (done fl') = fl'.slots
slots_or fl panic = fl.slots

-- A write through a handle.
get_mut-Holds :
    (fl : FreeList RenderTaskCacheEntry) (h : FreeListHandle)
    (f : RenderTaskCacheEntry → RenderTaskCacheEntry) {fl' : FreeList RenderTaskCacheEntry}
    → get_mut fl h f ≡ done fl'
    → (e : RenderTaskCacheEntry) × Holds fl h.index e × Holds fl' h.index (f e)
unfolding get_mut slots_or
get_mut-Holds fl h f {fl'} run =
    let (s, found, more) = >>=-eq-done (index_at fl.slots h.index) _ run in
    let at_h = index_at-eq-done fl.slots h.index found in
    let (e, full, last) = >>=-eq-done (unwrap s.value) _ more in
    let s' : Slot RenderTaskCacheEntry = record s { value = some (f e) } in
    let after : set fl.slots h.index s' ≡ fl'.slots = ap (slots_or fl) last in
    (
      e,
      (s, at_h, unwrap-eq-done s.value full),
      (
        s',
        subst (λ l. get_elem? l h.index ≡ some s') after
            (get_elem?-set_self fl.slots h.index s' (lt_of_get_elem? fl.slots h.index at_h)),
        refl,
      ),
    )

size_or : DeviceIntSize → Run (ℕ × ℕ × DeviceIntRect) → DeviceIntSize
size_or size (done r) = r.2.size
size_or size panic = size

-- The location that a handle has when its entry is known.
get_cache_location-of_entry :
    (tc : TextureCache) (w : WeakFreeListHandle) {e : CacheEntry} {r : ℕ × ℕ × DeviceIntRect}
    → get_opt tc.entries w ≡ done (some e)
    → get_cache_location tc w ≡ done r
    → r.2.size ≡ e.size
unfolding get_cache_location size_or
get_cache_location-of_entry tc w {e} {r} found run =
    let last : done (
      e.texture_id,
      (place_of e.details).0,
      record { origin = (place_of e.details).1; size = e.size },
    )
        ≡ done r =
      rw found at run in
    ap (size_or e.size) (sym last)

-- What `update` does to the pending task `id` of the entry at `handle`: the task is dynamic, it is moved to
-- the place that the texture cache has for the entry, of the size of the task, and is not pending any more.
pub record Placed (s : TaskCacheState) (handle : FreeListHandle) (id : ℕ) (s' : TaskCacheState)
    : Type 0 where
  pub task : RenderTask
  pub size : DeviceIntSize
  pub texture_id : ℕ
  pub texture_layer : ℕ
  pub rect : DeviceIntRect
  pub entry : RenderTaskCacheEntry
  pub at_id : get_elem? s.tree.tasks id ≡ some task
  pub is_dynamic : expect_dynamic task.location ≡ done size
  pub moved :
      get_elem? s'.tree.tasks id
      ≡ some (record task { location = texture_cache texture_id texture_layer rect })
  pub fits : rect.size ≡ size
  pub held : Holds s'.cache_entries handle.index entry
  pub no_task : entry.pending_render_task_id ≡ none
  pub located : get_cache_location s'.textures entry.handle ≡ done (texture_id, texture_layer, rect)

module _ (to_f32 pressure_scaled : ℕ → ℕ) (uv_rect_kind_of : RenderTask → UvRectKind) where
  -- When the update of an entry with a pending task returns, with at most 2^32 slots in the texture cache,
  -- the task was dynamic, its location is now the place that the texture cache has for the texture handle
  -- of the entry, with the size of the task, and no task of the entry is pending.
  pub update_pending-Placed :
      (s : TaskCacheState) (handle : FreeListHandle) (entry : RenderTaskCacheEntry) (id : ℕ)
      {s' : TaskCacheState}
      → update_pending to_f32 pressure_scaled uv_rect_kind_of s handle entry id ≡ done s'
      → length s'.textures.entries.slots ≤ u32_mod
      → Placed s handle id s'
  unfolding update_pending state_or
  update_pending-Placed s handle entry id {s'} run small =
      let (task, found, more) = >>=-eq-done (index_at s.tree.tasks id) _ run in
      let at_id = index_at-eq-done s.tree.tasks id found in
      let (size, dynamic, more2) = >>=-eq-done (expect_dynamic task.location) _ more in
      let u = task_params entry size task.target_kind (uv_rect_kind_of task) in
      let ((tc, w, g), updated, more3) =
        >>=-eq-done (update to_f32 pressure_scaled s.textures entry.handle u all s.gpu_cache) _
          more2 in
      let ((t, l, r), located, more4) = >>=-eq-done (get_cache_location tc w) _ more3 in
      let (entries, written, last) = >>=-eq-done (get_mut s.cache_entries handle _) _ more4 in
      let moved : RenderTask = record task { location = texture_cache t l r } in
      let after : TaskCacheState = record {
        cache_entries = entries;
        textures = tc;
        gpu_cache = g;
        tree = record s.tree { tasks = set s.tree.tasks id moved };
      } in
      let same : after ≡ s' = ap (state_or s) last in
      let few : length tc.entries.slots ≤ u32_mod =
        subst (λ s. length s.textures.entries.slots ≤ u32_mod) (sym same) small in
      let (e, resolves, fits, policy, notice) =
        update-get_opt to_f32 pressure_scaled s.textures entry.handle u all s.gpu_cache updated
          few in
      let (old, before, held) = get_mut-Holds s.cache_entries handle _ written in
      subst (Placed s handle id) same (record {
        task = task;
        size = size;
        texture_id = t;
        texture_layer = l;
        rect = r;
        entry = record old { pending_render_task_id = none; handle = w };
        at_id = at_id;
        is_dynamic = dynamic;
        moved = get_elem?-set_self s.tree.tasks id moved (lt_of_get_elem? s.tree.tasks id at_id);
        fits = get_cache_location-of_entry tc w resolves located ∙ fits;
        held = held;
        no_task = refl;
        located = located;
      })
