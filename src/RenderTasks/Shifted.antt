-- ===== src/RenderTasks/Shifted.antt =====
-- `assign_to_passes` of webrender/src/render_task.rs after other passes: these stay, and the rest is as if
-- they were not there.
use webrender.Prelude.{
  ℕ, zero, suc, ◌+◌, ◌≡◌, refl, ap, ◌∙◌, List, [], ◌∷◌, ◌++◌, some, true, false, Run, done,
  >>=-eq-done, index_at, index_at-eq-done, length, length-append, set, get_elem?,
  get_elem?-append_right, set-append_right, Bool-cases, inl, inr, arith, ◌==◌,
}
use mathlib.Core.List.{append_assoc}
use webrender.TextureAllocator.{DeviceIntSize}
use webrender.RenderTasks.{
  RenderTaskTree, RenderPass, new_off_screen, add_render_task, get_dynamic_size, for_each,
  ensure_pass, unless_empty, assign_to_passes,
}

module _ {T : Type 0} (pre : List (RenderPass T)) where
  ensure_pass-shift :
      (screen_size : DeviceIntSize) (i j : ℕ) (ps : List (RenderPass T))
      → j ≡ length pre + i
      → ensure_pass screen_size j (pre ++ ps) ≡ pre ++ ensure_pass screen_size i ps
  ensure_pass-shift screen_size i j ps h = elim (Bool-cases (length ps == i)) [
    | inl e ↦
        let e' : (length (pre ++ ps) == j) ≡ true = ground (arith, length-append pre ps, h, e) in
        rw (e, e') (append_assoc pre ps (new_off_screen screen_size ∷ []))
    | inr e ↦
        let e' : (length (pre ++ ps) == j) ≡ false = ground (arith, length-append pre ps, h, e) in
        rw (e, e') refl
  ]

  -- Two steps of which the second does to the passes after `pre` what the first does to them alone.
  abbrev Shifts :
      (List (RenderPass T) → Run (List (RenderPass T)))
      → (List (RenderPass T) → Run (List (RenderPass T)))
      → Type 0
  Shifts f g =
      (ps after : List (RenderPass T)) → f ps ≡ done after → g (pre ++ ps) ≡ done (pre ++ after)

  for_each-shift :
      (f g : ℕ → List (RenderPass T) → Run (List (RenderPass T)))
      → ((id : ℕ) → Shifts (f id) (g id))
      → (ids : List ℕ) → Shifts (for_each f ids) (for_each g ids)
  unfolding for_each
  for_each-shift f g step [] ps after h =
      let same : ps ≡ after = cc in ap (λ l. done (pre ++ l)) same
  for_each-shift f g step (id ∷ ids) ps after h =
      let (ps', first, later) = >>=-eq-done (f id ps) _ h in
      rw (step id ps ps' first) (for_each-shift f g step ids ps' after later)

  unless_empty-shift :
      (ids : List ℕ) (ps : List (RenderPass T)) (r s : Run (List (RenderPass T)))
      {after : List (RenderPass T)}
      → ((l : List (RenderPass T)) → r ≡ done l → s ≡ done (pre ++ l))
      → unless_empty ids (done ps) r ≡ done after
      → unless_empty ids (done (pre ++ ps)) s ≡ done (pre ++ after)
  unless_empty-shift [] ps r s {after} f h =
      let same : ps ≡ after = cc in ap (λ l. done (pre ++ l)) same
  unless_empty-shift (id ∷ ids) ps r s {after} f h = f after h

  pub assign_to_passes-shift :
      (fuel : ℕ) (tree : RenderTaskTree) (screen_size : DeviceIntSize) (i j id : ℕ)
      → j ≡ length pre + i
      → (ps after : List (RenderPass T))
      → assign_to_passes fuel tree id i screen_size ps ≡ done after
      → assign_to_passes fuel tree id j screen_size (pre ++ ps) ≡ done (pre ++ after)
  unfolding assign_to_passes
  assign_to_passes-shift zero tree screen_size i j id eq ps after h = cc
  assign_to_passes-shift (suc n) tree screen_size i j id eq ps after h =
      let (task, found, more) = >>=-eq-done (index_at tree.tasks id) _ h in
      let at_id = index_at-eq-done tree.tasks id found in
      let (ps', assigned, more2) = >>=-eq-done (unless_empty task.children (done ps) _) _ more in
      let (pass, got, last) = >>=-eq-done (index_at ps' i) _ more2 in
      let pass' =
        add_render_task pass id (get_dynamic_size task.location) task.target_kind task.location in
      let at_j : get_elem? (pre ++ ps') j ≡ some pass =
        get_elem?-append_right pre ps' i j eq ∙ index_at-eq-done ps' i got in
      let children =
        unless_empty-shift task.children ps _
          (for_each (λ child. assign_to_passes n tree child (suc j) screen_size) task.children
            (ensure_pass screen_size (suc j) (pre ++ ps)))
          (λ l r. rw (ensure_pass-shift screen_size (suc i) (suc j) ps (omega (arith, eq))) (
            for_each-shift _ _
              (λ child.
                assign_to_passes-shift n tree screen_size (suc i) (suc j) child (omega (arith, eq)))
              task.children (ensure_pass screen_size (suc i) ps) l r))
          assigned in
      let is : set ps' i pass' ≡ after = cc in
      rw (at_id, children, at_j)
        (ap done (set-append_right pre ps' i j pass' eq ∙ ap (λ l. pre ++ l) is))
