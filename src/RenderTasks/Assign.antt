-- ===== src/RenderTasks/Assign.antt =====
-- `RenderTaskTree::assign_to_passes` of webrender/src/render_task.rs returns, and keeps the passes in order.
use webrender.Prelude.{
  ℕ, zero, suc, ◌<◌, ◌≡◌, refl, List, [], ◌∷◌, ◌++◌, some, true, false, Run, done, length, set,
  get_elem?, get_elem?-set_self, lt_of_get_elem?, get_elem?_of_lt, length-append, All, arith, ◌==◌,
  if◌then◌else◌,
}
use webrender.TextureAllocator.{DeviceIntSize}
use webrender.RenderTasks.{
  RenderTask, RenderTaskTree, RenderPass, add_render_task, new_off_screen, ensure_pass, for_each,
  unless_empty, assign_to_passes, get_dynamic_size,
}
use webrender.RenderTasks.Ordered.{
  In-append_last, Has, Grows, Grows-refl, Grows-trans, Grows-set, Grows-append, Ordered-append,
  Ordered, Ordered-set,
}

-- Every child is a task of the tree, of a smaller depth.
abbrev pub IsLayered : RenderTaskTree → (ℕ → ℕ) → Type 0
IsLayered tree depth =
    (id : ℕ) (task : RenderTask)
    → get_elem? tree.tasks id ≡ some task
    → All (λ child. (child < length tree.tasks) × (depth child < depth id)) task.children

layered_All :
    (P : ℕ → Type 0) (n d : ℕ) (depth : ℕ → ℕ) (ids : List ℕ)
    → All (λ c. (c < n) × (depth c < d)) ids
    → ((c : ℕ) → c < n → depth c < d → P c)
    → All P ids
layered_All P n d depth [] h f = tt
layered_All P n d depth (c ∷ cs) h f = (f c h.0.0 h.0.1, layered_All P n d depth cs h.1 f)

module _ {T : Type 0} where
  -- The passes after an assignment of tasks to the pass `i`.
  pub record Assigns (tree : RenderTaskTree) (i : ℕ) (ids : List ℕ) (passes : List (RenderPass T))
      (r : Run (List (RenderPass T))) : Type 0 where
    pub after : List (RenderPass T)
    pub returns : r ≡ done after
    pub ordered : Ordered tree after
    pub grows : Grows passes after
    pub assigned : All (Has after i) ids

  ensure_pass-Grows :
      (screen_size : DeviceIntSize) (i : ℕ) (passes : List (RenderPass T))
      → Grows passes (ensure_pass screen_size i passes)
  ensure_pass-Grows screen_size i passes =
      elim (length passes == i)
        as (λ b. Grows passes (if b then passes ++ new_off_screen screen_size ∷ [] else passes)) [
          | true ↦ Grows-append passes (new_off_screen screen_size)
          | false ↦ Grows-refl passes
        ]

  ensure_pass-Ordered :
      (tree : RenderTaskTree) (screen_size : DeviceIntSize) (i : ℕ) (passes : List (RenderPass T))
      → Ordered tree passes
      → Ordered tree (ensure_pass screen_size i passes)
  ensure_pass-Ordered tree screen_size i passes ordered =
      elim (length passes == i)
        as (λ b. Ordered tree (if b then passes ++ new_off_screen screen_size ∷ [] else passes)) [
          | true ↦ Ordered-append tree passes (new_off_screen screen_size) refl ordered
          | false ↦ ordered
        ]

  ensure_pass-length :
      (screen_size : DeviceIntSize) (i : ℕ) (passes : List (RenderPass T))
      → i < length passes
      → suc i < length (ensure_pass screen_size (suc i) passes)
  ensure_pass-length screen_size i passes h =
      ground (arith, length-append passes (new_off_screen screen_size ∷ []))

  -- The loop over children that are all assigned to the pass `i`.
  pub for_each-Assigns :
      (tree : RenderTaskTree) (i : ℕ) (f : ℕ → List (RenderPass T) → Run (List (RenderPass T)))
      (ids : List ℕ) (passes : List (RenderPass T))
      (step : All
        (λ id.
          (ps : List (RenderPass T))
          → Ordered tree ps
          → i < length ps
          → Assigns tree i (id ∷ []) ps (f id ps))
        ids)
      → Ordered tree passes
      → i < length passes
      → Assigns tree i ids passes (for_each f ids passes)
  unfolding for_each
  for_each-Assigns tree i f [] passes step ordered room = record {
    after = passes;
    returns = refl;
    ordered = ordered;
    grows = Grows-refl passes;
    assigned = tt;
  }
  for_each-Assigns tree i f (id ∷ ids) passes step ordered room =
      let first = step.0 passes ordered room in
      let later =
        for_each-Assigns tree i f ids first.after step.1 first.ordered
          (omega (arith, first.grows.0, room)) in
      record {
        after = later.after;
        returns = rw first.returns later.returns;
        ordered = later.ordered;
        grows = Grows-trans passes first.after later.after first.grows later.grows;
        assigned = (later.grows.1 i id first.assigned.0, later.assigned);
      }

  -- `passes` with the children of the task assigned.
  record Children (tree : RenderTaskTree) (i : ℕ) (children : List ℕ) (passes : List (RenderPass T))
      (r : Run (List (RenderPass T))) : Type 0 where
    pub after : List (RenderPass T)
    pub returns : r ≡ done after
    pub ordered : Ordered tree after
    pub grows : Grows passes after
    pub assigned : All (Has after (suc i)) children

  unless_empty-Children :
      (tree : RenderTaskTree) (i : ℕ) (screen_size : DeviceIntSize) (children : List ℕ)
      (passes : List (RenderPass T)) (r : Run (List (RenderPass T)))
      → Ordered tree passes
      → Assigns tree (suc i) children (ensure_pass screen_size (suc i) passes) r
      → Children tree i children passes (unless_empty children (done passes) r)
  unless_empty-Children tree i screen_size [] passes r ordered a = record {
    after = passes;
    returns = refl;
    ordered = ordered;
    grows = Grows-refl passes;
    assigned = tt;
  }
  unless_empty-Children tree i screen_size (c ∷ cs) passes r ordered a = record {
    after = a.after;
    returns = a.returns;
    ordered = a.ordered;
    grows = Grows-trans passes _ a.after (ensure_pass-Grows screen_size (suc i) passes) a.grows;
    assigned = a.assigned;
  }

  -- The assignment of a task to a pass returns. No pass loses a task, the task is in the pass, and if the
  -- children of each task of a pass were in the pass after it, they are so afterwards. The pass is there,
  -- the task is one of the tree, children are tasks of the tree of a smaller depth, and the fuel exceeds
  -- the depth of the task.
  pub assign_to_passes_lem :
      (fuel : ℕ) (tree : RenderTaskTree) (depth : ℕ → ℕ) (id pass_index : ℕ)
      (screen_size : DeviceIntSize) (passes : List (RenderPass T))
      → IsLayered tree depth
      → depth id < fuel
      → id < length tree.tasks
      → pass_index < length passes
      → Ordered tree passes
      → Assigns tree pass_index
          (id ∷ [])
          passes
          (assign_to_passes fuel tree id pass_index screen_size passes)
  unfolding assign_to_passes add_render_task
  assign_to_passes_lem zero tree depth id i screen_size passes layered enough there room ordered =
      absurd (omega arith)
  assign_to_passes_lem (suc n) tree depth id i screen_size passes layered enough there room
        ordered =
      let (task, at_id) = get_elem?_of_lt tree.tasks id there in
      let loop =
        for_each-Assigns tree (suc i) (λ c. assign_to_passes n tree c (suc i) screen_size)
          task.children (ensure_pass screen_size (suc i) passes)
          (layered_All _ (length tree.tasks) (depth id) depth task.children (layered id task at_id)
            (λ c is_task less ps ps_ordered ps_room.
              assign_to_passes_lem n tree depth c (suc i) screen_size ps layered
                (omega (arith, less, enough)) is_task ps_room ps_ordered))
          (ensure_pass-Ordered tree screen_size (suc i) passes ordered)
          (ensure_pass-length screen_size i passes room) in
      let ch = unless_empty-Children tree i screen_size task.children passes _ ordered loop in
      let (pass, at_i) = get_elem?_of_lt ch.after i (omega (arith, room, ch.grows.0)) in
      let pass' =
        add_render_task pass id (get_dynamic_size task.location) task.target_kind task.location in
      record {
        after = set ch.after i pass';
        returns = rw (at_id, ch.returns, at_i) refl;
        ordered =
            Ordered-set tree ch.after i id task pass pass' ch.ordered at_id ch.assigned at_i refl;
        grows =
            Grows-trans passes ch.after (set ch.after i pass') ch.grows
              (Grows-set ch.after i id pass pass' at_i refl);
        assigned = (
          (
            pass',
            get_elem?-set_self ch.after i pass' (lt_of_get_elem? ch.after i at_i),
            In-append_last id pass.tasks,
          ),
          tt,
        );
      }
