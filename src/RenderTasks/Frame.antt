-- ===== src/RenderTasks/Frame.antt =====
-- The passes of a frame (webrender/src/frame_builder.rs): they are built children first.
use webrender.Prelude.{
  ℕ, ◌+◌, ◌-◌, ◌<◌, ◌≡◌, refl, sym, ap, subst, List, [], ◌∷◌, ◌++◌, Option, none, some, Run, done,
  length, reverse, All, All-map, arith, ◌>>=◌, length-reverse, length-append,
}
use webrender.TextureAllocator.{DeviceIntSize}
use webrender.RenderTasks.{
  RenderTaskTree, RenderPass, new_off_screen, new_main_framebuffer, unless_empty, assign_to_passes,
}
use webrender.RenderTasks.Ordered.{Has, Ordered, Ordered-append}
use webrender.RenderTasks.Assign.{Assigns, IsLayered, for_each-Assigns, assign_to_passes_lem}
use webrender.RenderTasks.Shifted.{assign_to_passes-shift}
use mathlib.Core.List.{append-nil}
use webrender.RenderTasks.Reversed.{
  Earlier, Somewhere, InLast, Has-lt, Has-reverse, reverse-Earlier, Has-append_left,
  Has-append_right, Earlier-append,
}
use webrender.RenderTasks.Passes.{reverse_from, cached_passes, main_passes, frame_passes}

-- A task of the tree that the fuel is enough for.
abbrev pub Reached : RenderTaskTree → (ℕ → ℕ) → ℕ → ℕ → Type 0
Reached tree depth fuel id = (id < length tree.tasks) × (depth id < fuel)

abbrev pub OfOption : (ℕ → Type 0) → Option ℕ → Type 0
OfOption P none = Unit
OfOption P (some id) = P id

module _ {T : Type 0} where
  reverse_from-append :
      (pre ps : List (RenderPass T))
      → reverse_from (length pre) (pre ++ ps) ≡ done (pre ++ reverse ps)
  reverse_from-append [] ps = refl
  reverse_from-append (p ∷ pre) ps = rw (reverse_from-append pre ps) refl

  Ordered-nil : (tree : RenderTaskTree) → Ordered {T = T} tree []
  Ordered-nil tree i id task (p, at_i, h) e = cc

  -- The passes that the tasks `ids` lead to.
  abbrev Cached : RenderTaskTree → List ℕ → Run (List (RenderPass T)) → Type 0
  Cached tree ids r =
      (passes : List (RenderPass T)) × (r ≡ done passes)
      × Earlier tree passes
      × All (Somewhere passes) ids

  Assigns-Cached :
      (tree : RenderTaskTree) (ids : List ℕ) (start : List (RenderPass T))
      (r : Run (List (RenderPass T)))
      → Assigns tree 0 ids start r
      → Cached tree ids (unless_empty ids (done []) (do passes ← r; done (reverse passes)))
  Assigns-Cached tree [] start r a = ([], refl, (λ i id task (p, at_i, h) e. cc), tt)
  Assigns-Cached tree (id ∷ ids) start r a = (
    reverse a.after,
    rw a.returns refl,
    reverse-Earlier tree a.after a.ordered,
    All-map (Has a.after 0) (Somewhere (reverse a.after)) (id ∷ ids)
        (λ k has.
          let inside = Has-lt a.after 0 k has in
          let i : ℕ = length a.after - 1 in
          (i, Has-reverse a.after i 0 k (omega (arith, inside)) has))
        a.assigned,
  )

  cached_passes-Cached :
      (fuel : ℕ) (tree : RenderTaskTree) (depth : ℕ → ℕ) (screen_size : DeviceIntSize)
      → IsLayered tree depth
      → All (Reached tree depth fuel) tree.cacheable_render_tasks
      → Cached tree tree.cacheable_render_tasks (cached_passes fuel tree screen_size)
  unfolding cached_passes
  cached_passes-Cached fuel tree depth screen_size layered reached =
      let start : List (RenderPass T) = new_off_screen screen_size ∷ [] in
      Assigns-Cached tree tree.cacheable_render_tasks start _ (
        for_each-Assigns tree 0 (λ task. assign_to_passes fuel tree task 0 screen_size)
          tree.cacheable_render_tasks start
          (All-map (Reached tree depth fuel) _ tree.cacheable_render_tasks
            (λ id (there, enough) ps ordered room.
              assign_to_passes_lem fuel tree depth id 0 screen_size ps layered enough there room
                ordered)
            reached)
          (Ordered-append tree [] (new_off_screen screen_size) refl (Ordered-nil tree))
          (omega arith))

  main_passes-Earlier :
      (fuel : ℕ) (target : T) (tree : RenderTaskTree) (depth : ℕ → ℕ) (screen_size : DeviceIntSize)
      (main : Option ℕ) (pre : List (RenderPass T))
      → IsLayered tree depth
      → OfOption (Reached tree depth fuel) main
      → Earlier tree pre
      → (after : List (RenderPass T)) × (main_passes fuel target tree screen_size main pre
          ≡ done (pre ++ after))
        × Earlier tree (pre ++ after)
        × OfOption (InLast (pre ++ after)) main
  unfolding main_passes
  main_passes-Earlier fuel target tree depth screen_size none pre layered reached before =
      ([], ap done (sym (append-nil pre)), subst (Earlier tree) (sym (append-nil pre)) before, tt)
  main_passes-Earlier fuel target tree depth screen_size (some id) pre layered (there, enough)
        before =
      let start : List (RenderPass T) = new_main_framebuffer target ∷ [] in
      let a =
        assign_to_passes_lem fuel tree depth id 0 screen_size start layered enough there
          (omega arith)
          (Ordered-append tree [] (new_main_framebuffer target) refl (Ordered-nil tree)) in
      let shifted =
        assign_to_passes-shift pre fuel tree screen_size 0 (length pre) id (omega arith) start
          a.after a.returns in
      let inside = Has-lt a.after 0 id a.assigned.0 in
      let i : ℕ = length a.after - 1 in
      (
        reverse a.after,
        rw shifted (reverse_from-append pre a.after),
        Earlier-append tree pre (reverse a.after) before (reverse-Earlier tree a.after a.ordered),
        (
          length pre + i,
          omega (arith, length-append pre (reverse a.after), length-reverse a.after, inside),
          Has-append_right pre (reverse a.after) i id
              (Has-reverse a.after i 0 id (omega (arith, inside)) a.assigned.0),
        ),
      )

  All-Somewhere_append :
      (pre ps : List (RenderPass T)) (ids : List ℕ)
      → All (Somewhere pre) ids
      → All (Somewhere (pre ++ ps)) ids
  All-Somewhere_append pre ps ids =
      All-map _ _ ids (λ id (i, has). (i, Has-append_left pre ps i id has))

  -- The assignment of the passes of a frame returns. The children of each task of a pass are in passes
  -- before it, every cacheable task is in a pass, and the main task, if there is one, is in the last pass.
  -- Children are tasks of the tree of a smaller depth, and the cacheable and main tasks are tasks of the
  -- tree whose depth is less than the fuel.
  pub frame_passes_lem :
      (fuel : ℕ) (target : T) (tree : RenderTaskTree) (depth : ℕ → ℕ) (screen_size : DeviceIntSize)
      (main : Option ℕ)
      → IsLayered tree depth
      → All (Reached tree depth fuel) tree.cacheable_render_tasks
      → OfOption (Reached tree depth fuel) main
      → (passes : List (RenderPass T)) × (frame_passes fuel target tree screen_size main
          ≡ done passes)
        × Earlier tree passes
        × All (Somewhere passes) tree.cacheable_render_tasks
        × OfOption (InLast passes) main
  unfolding frame_passes
  frame_passes_lem fuel target tree depth screen_size main layered cacheable reached =
      let (pre, cached, before, members) =
        cached_passes-Cached fuel tree depth screen_size layered cacheable in
      let (after, added, earlier, last) =
        main_passes-Earlier fuel target tree depth screen_size main pre layered reached before in
      (
        pre ++ after,
        rw cached added,
        earlier,
        All-Somewhere_append pre after tree.cacheable_render_tasks members,
        last,
      )
