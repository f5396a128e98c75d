-- ===== src/RenderTasks.antt =====
-- The render task tree (webrender/src/render_task.rs) and the passes that its tasks are assigned to
-- (`RenderPass` of webrender/src/tiling.rs). A task keeps its location, its children and its target kind,
-- which are what `assign_to_passes` reads; a task identifier is its index. The target type is a parameter.
pub mod Ordered
pub mod Assign
pub mod Passes
pub mod Shifted
pub mod Reversed
pub mod Frame
mod Tests
use webrender.Prelude.{
  ℕ, zero, suc, ◌+◌, ◌%◌, List, [], ◌∷◌, ◌++◌, Option, none, some, Bool, true, false, Run, done,
  panic, ◌>>=◌, index_at, u32_mod, usize_mod, length, set, ◌==◌, if◌then◌else◌,
}
use webrender.Prelude.I32.{le_i32}
use webrender.TextureAllocator.{DeviceIntPoint, DeviceIntSize, DeviceIntRect}
use webrender.RenderTargets
use webrender.RenderTargets.{RenderTargetList, max_i32}

pub data RenderTargetKind : Type 0 where
  color alpha : RenderTargetKind

pub data RenderTaskLocation : Type 0 where
  fixed : DeviceIntRect → RenderTaskLocation
  dynamic : Option (DeviceIntPoint × ℕ) → DeviceIntSize → RenderTaskLocation
  texture_cache : (texture layer : ℕ) → DeviceIntRect → RenderTaskLocation

abbrev pub is_dynamic : RenderTaskLocation → Bool
is_dynamic (fixed r) = false
is_dynamic (dynamic o s) = true
is_dynamic (texture_cache t l r) = false

pub record RenderTask : Type 0 where
  pub location : RenderTaskLocation
  pub children : List ℕ
  pub target_kind : RenderTargetKind

abbrev pub get_dynamic_size : RenderTaskLocation → DeviceIntSize
get_dynamic_size (fixed r) = record { width = 0; height = 0 }
get_dynamic_size (dynamic o size) = size
get_dynamic_size (texture_cache t l r) = r.size

pub record RenderTaskTree : Type 0 where
  pub tasks : List RenderTask
  pub cacheable_render_tasks : List ℕ
  pub next_saved : ℕ
  pub frame_id : ℕ

abbrev pub new_tree : ℕ → RenderTaskTree
new_tree frame_id = record {
  tasks = [];
  cacheable_render_tasks = [];
  next_saved = 0;
  frame_id = frame_id;
}

-- The tree after it, and the identifier.
abbrev pub add : RenderTaskTree → RenderTask → RenderTaskTree × ℕ
add tree task = (record tree { tasks = tree.tasks ++ task ∷ [] }, length tree.tasks % u32_mod)

abbrev pub save_target : RenderTaskTree → RenderTaskTree × ℕ
save_target tree = (record tree { next_saved = (tree.next_saved + 1) % usize_mod }, tree.next_saved)

pub data RenderPassKind (T : Type 0) : Type 0 where
  main_framebuffer : T → RenderPassKind T
  off_screen : (alpha_list color_list : RenderTargetList T) → RenderPassKind T

pub record RenderPass (T : Type 0) : Type 0 where
  pub kind : RenderPassKind T
  pub tasks : List ℕ

-- `max_size.width = cmp::max(…)` and the height.
abbrev pub max_size : DeviceIntSize → DeviceIntSize → DeviceIntSize
max_size a b = record { width = max_i32 a.width b.width; height = max_i32 a.height b.height }

-- `for x in xs`, over the state `s`.
unfoldable pub for_each : {S : Type 0} → (ℕ → S → Run S) → List ℕ → S → Run S
for_each f [] s = done s
for_each f (x ∷ xs) s = do s' ← f x s; for_each f xs s'

module _ {T : Type 0} where
  abbrev pub new_main_framebuffer : T → RenderPass T
  new_main_framebuffer target = record { kind = main_framebuffer target; tasks = [] }

  abbrev pub new_off_screen : DeviceIntSize → RenderPass T
  new_off_screen screen_size = record {
    kind = off_screen (RenderTargets.new screen_size) (RenderTargets.new screen_size);
    tasks = [];
  }

  -- The kind of the pass after the update of the size of its target list.
  abbrev pub grow_kind : RenderPassKind T → DeviceIntSize → RenderTargetKind → RenderPassKind T
  grow_kind (main_framebuffer target) size k = main_framebuffer target
  grow_kind (off_screen alpha_list color_list) size color =
      off_screen alpha_list
        (record color_list { max_dynamic_size = max_size color_list.max_dynamic_size size })
  grow_kind (off_screen alpha_list color_list) size alpha =
      off_screen
        (record alpha_list { max_dynamic_size = max_size alpha_list.max_dynamic_size size })
        color_list

  unfoldable pub add_render_task :
      RenderPass T → ℕ → DeviceIntSize → RenderTargetKind → RenderTaskLocation → RenderPass T
  add_render_task p task_id size target_kind location = record {
    kind = if is_dynamic location then grow_kind p.kind size target_kind else p.kind;
    tasks = p.tasks ++ task_id ∷ [];
  }

  -- The new pass for the children, if there is none yet.
  abbrev pub ensure_pass : DeviceIntSize → ℕ → List (RenderPass T) → List (RenderPass T)
  ensure_pass screen_size child_index passes =
      if length passes == child_index then passes ++ new_off_screen screen_size ∷ [] else passes

  abbrev pub unless_empty :
      List ℕ → Run (List (RenderPass T)) → Run (List (RenderPass T)) → Run (List (RenderPass T))
  unless_empty [] e s = e
  unless_empty (x ∷ xs) e s = s

  -- The recursion is on fuel, and panics without: more than the depth of the tree below `id` is enough.
  unfoldable pub assign_to_passes :
      ℕ → RenderTaskTree → ℕ → ℕ → DeviceIntSize → List (RenderPass T) → Run (List (RenderPass T))
  assign_to_passes zero tree id pass_index screen_size passes = panic
  assign_to_passes (suc fuel) tree id pass_index screen_size passes = do
    task ← index_at tree.tasks id
    let assigned =
        for_each (λ child. assign_to_passes fuel tree child (suc pass_index) screen_size)
          task.children (ensure_pass screen_size (suc pass_index) passes)
    passes' ← unless_empty task.children (done passes) assigned
    pass ← index_at passes' pass_index
    done (
        set passes' pass_index
          (add_render_task pass id (get_dynamic_size task.location) task.target_kind task.location))
