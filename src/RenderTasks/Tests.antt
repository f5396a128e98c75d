-- ===== src/RenderTasks/Tests.antt =====
-- Runs of webrender/src/render_task.rs on a concrete tree.
use webrender.Prelude.{
  ℕ, zero, suc, ◌≡◌, refl, sym, subst, ◌<◌, List, [], ◌∷◌, Option, none, some, Run, done, panic,
  All, arith, map,
}
use mathlib.Core.Option.{some-injective}
use webrender.TextureAllocator.{DeviceIntSize}
use webrender.RenderTasks.{
  RenderTask, RenderTaskTree, RenderPass, dynamic, color, assign_to_passes, add_render_task,
  for_each, new_main_framebuffer,
}
use webrender.RenderTasks.Ordered.{Ordered, In}
use webrender.RenderTasks.Passes.{frame_passes, cached_passes, main_passes}
use webrender.RenderTasks.Reversed.{Earlier, Somewhere, InLast}
use webrender.RenderTasks.Frame.{frame_passes_lem}
use webrender.RenderTasks.Assign.{Assigns, IsLayered, assign_to_passes_lem}

abbrev size : ℕ → DeviceIntSize
size n = record { width = n; height = n }

abbrev task : ℕ → List ℕ → RenderTask
task n children = record {
  location = dynamic none (size n);
  children = children;
  target_kind = color;
}

-- A picture, a blur of it and the root, which needs both.
abbrev tree : RenderTaskTree
tree = record {
  tasks = task 10 (1 ∷ 2 ∷ []) ∷ task 20 (2 ∷ []) ∷ task 30 [] ∷ [];
  cacheable_render_tasks = [];
  next_saved = 0;
  frame_id = 1;
}

abbrev depth : ℕ → ℕ
depth zero = 2
depth (suc zero) = 1
depth (suc (suc n)) = 0

abbrev main : List (RenderPass ℕ)
main = new_main_framebuffer 7 ∷ []

abbrev tasks_of : Run (List (RenderPass ℕ)) → Option (List (List ℕ))
tasks_of panic = none
tasks_of (done passes) = some (map (λ p. p.tasks) passes)

tree-IsLayered : IsLayered tree depth
tree-IsLayered zero t e =
    subst (λ u. All (λ c. (c < 3) × (depth c < 2)) u.children) (some-injective _ _ e)
      ((omega arith, omega arith), ((omega arith, omega arith), tt))
tree-IsLayered (suc zero) t e =
    subst (λ u. All (λ c. (c < 3) × (depth c < 1)) u.children) (some-injective _ _ e)
      ((omega arith, omega arith), tt)
tree-IsLayered (suc (suc zero)) t e =
    subst (λ u. All (λ c. (c < 3) × (depth c < 0)) u.children) (some-injective _ _ e) tt
tree-IsLayered (suc (suc (suc n))) t e = cc

three_passes :
    tasks_of (assign_to_passes 3 tree 0 0 (size 100) main)
    ≡ some ((0 ∷ []) ∷ (1 ∷ 2 ∷ []) ∷ (2 ∷ []) ∷ [])
unfolding assign_to_passes add_render_task for_each
three_passes = refl

main-Ordered : Ordered tree main
main-Ordered zero id t (p, at_i, h) e =
    absurd (subst (λ q. In id q.tasks) (sym (some-injective _ _ at_i)) h)
main-Ordered (suc i) id t (p, at_i, h) e = cc

assign_to_passes_lem_example :
    Assigns tree 0 (0 ∷ []) main (assign_to_passes 3 tree 0 0 (size 100) main)
assign_to_passes_lem_example =
    assign_to_passes_lem 3 tree depth 0 0 (size 100) main tree-IsLayered (omega arith) (omega arith)
      (omega arith) main-Ordered

-- The same tree, with the blur kept in a cache.
abbrev cached_tree : RenderTaskTree
cached_tree = record tree { cacheable_render_tasks = 1 ∷ [] }

five_passes :
    tasks_of (frame_passes 3 7 cached_tree (size 100) (some 0))
    ≡ some ((2 ∷ []) ∷ (1 ∷ []) ∷ (2 ∷ []) ∷ (1 ∷ 2 ∷ []) ∷ (0 ∷ []) ∷ [])
unfolding frame_passes cached_passes main_passes assign_to_passes add_render_task for_each
five_passes = refl

frame_passes_lem_example :
    (passes : List (RenderPass ℕ)) × (frame_passes 3 7 cached_tree (size 100) (some 0)
      ≡ done passes)
    × Earlier cached_tree passes
    × All (Somewhere passes) (1 ∷ [])
    × InLast passes 0
frame_passes_lem_example =
    frame_passes_lem 3 7 cached_tree depth (size 100) (some 0) tree-IsLayered
      ((omega arith, omega arith), tt) (omega arith, omega arith)
