-- ===== src/RenderTasks/Passes.antt =====
-- The passes of a frame: the part of `FrameBuilder::build` (webrender/src/frame_builder.rs) that assigns the
-- tasks. The pass of a task is built before the passes after it. The recursion of `assign_to_passes` is on
-- fuel, and the target of the main framebuffer a parameter.
use webrender.Prelude.{
  ℕ, zero, suc, List, [], ◌∷◌, ◌++◌, Option, none, some, Run, done, panic, ◌>>=◌, length, reverse,
}
use webrender.TextureAllocator.{DeviceIntSize}
use webrender.RenderTasks.{
  RenderTaskTree, RenderPass, new_off_screen, new_main_framebuffer, for_each, unless_empty,
  assign_to_passes,
}

module _ {T : Type 0} where
  -- `passes[start..].reverse()`
  abbrev pub reverse_from : ℕ → List (RenderPass T) → Run (List (RenderPass T))
  reverse_from zero passes = done (reverse passes)
  reverse_from (suc start) [] = panic
  reverse_from (suc start) (p ∷ ps) = do ps' ← reverse_from start ps; done (p ∷ ps')

  -- The passes of the cacheable tasks.
  unfoldable pub cached_passes : ℕ → RenderTaskTree → DeviceIntSize → Run (List (RenderPass T))
  cached_passes fuel tree screen_size =
      let assigned =
        for_each (λ task. assign_to_passes fuel tree task 0 screen_size) tree.cacheable_render_tasks
          (new_off_screen screen_size ∷ []) in
      unless_empty tree.cacheable_render_tasks (done [])
        (do passes ← assigned; done (reverse passes))

  unfoldable pub main_passes :
      ℕ
      → T
      → RenderTaskTree
      → DeviceIntSize
      → Option ℕ
      → List (RenderPass T)
      → Run (List (RenderPass T))
  main_passes fuel target tree screen_size none passes = done passes
  main_passes fuel target tree screen_size (some main_render_task_id) passes = do
    let passes_start = length passes
    passes' ←
        assign_to_passes fuel tree main_render_task_id passes_start screen_size
          (passes ++ new_main_framebuffer target ∷ [])
    reverse_from passes_start passes'

  unfoldable pub frame_passes :
      ℕ → T → RenderTaskTree → DeviceIntSize → Option ℕ → Run (List (RenderPass T))
  frame_passes fuel target tree screen_size main_render_task_id = do
    passes ← cached_passes fuel tree screen_size
    main_passes fuel target tree screen_size main_render_task_id passes
