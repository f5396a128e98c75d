-- ===== src/RenderTasks/Reversed.antt =====
-- The order of passes that are reversed, or follow one another (webrender/src/frame_builder.rs).
use webrender.Prelude.{
  ℕ, suc, ◌+◌, ◌-◌, ◌<◌, ◌≡◌, refl, sym, ◌∙◌, List, ◌++◌, some, length, reverse, inl, inr, All,
  All-map, arith, get_elem?, get_elem?-reverse, length-reverse, get_elem?-append_left,
  get_elem?-append_right, lt_of_get_elem?, lt-cases,
}
use webrender.RenderTasks.{RenderTask, RenderTaskTree, RenderPass}
use webrender.RenderTasks.Ordered.{Has, Ordered}

module _ {T : Type 0} where
  -- The children of each task of a pass are in passes before it.
  abbrev pub Earlier : RenderTaskTree → List (RenderPass T) → Type 0
  Earlier tree passes =
      (i id : ℕ) (task : RenderTask)
      → Has passes i id
      → get_elem? tree.tasks id ≡ some task
      → All (λ child. (j : ℕ) × (j < i) × Has passes j child) task.children

  abbrev pub Somewhere : List (RenderPass T) → ℕ → Type 0
  Somewhere passes id = (i : ℕ) × Has passes i id

  abbrev pub InLast : List (RenderPass T) → ℕ → Type 0
  InLast passes id = (i : ℕ) × (suc i ≡ length passes) × Has passes i id

  pub Has-lt : (passes : List (RenderPass T)) (i id : ℕ) → Has passes i id → i < length passes
  Has-lt passes i id (p, at_i, h) = lt_of_get_elem? passes i at_i

  pub Has-reverse :
      (passes : List (RenderPass T)) (i j id : ℕ)
      → suc (i + j) ≡ length passes
      → Has passes j id
      → Has (reverse passes) i id
  Has-reverse passes i j id eq (p, at_j, h) = (p, get_elem?-reverse passes i j eq ∙ at_j, h)

  Has-of_reverse :
      (passes : List (RenderPass T)) (i j id : ℕ)
      → suc (i + j) ≡ length passes
      → Has (reverse passes) i id
      → Has passes j id
  Has-of_reverse passes i j id eq (p, at_i, h) =
      (p, sym (get_elem?-reverse passes i j eq) ∙ at_i, h)

  pub reverse-Earlier :
      (tree : RenderTaskTree) (passes : List (RenderPass T))
      → Ordered tree passes
      → Earlier tree (reverse passes)
  reverse-Earlier tree passes ordered i id task has at_id =
      let inside = Has-lt (reverse passes) i id has in
      let same = length-reverse passes in
      let j : ℕ = length passes - suc i in
      let eq : suc (i + j) ≡ length passes = omega (arith, inside, same) in
      All-map (Has passes (suc j)) _ task.children
        (λ child later.
          let past = Has-lt passes (suc j) child later in
          (
            i - 1,
            omega (arith, past, eq),
            Has-reverse passes (i - 1) (suc j) child (omega (arith, past, eq)) later,
          ))
        (ordered j id task (Has-of_reverse passes i j id eq has) at_id)

  pub Has-append_left :
      (pre ps : List (RenderPass T)) (i id : ℕ) → Has pre i id → Has (pre ++ ps) i id
  Has-append_left pre ps i id (p, at_i, h) =
      (p, get_elem?-append_left pre ps i (lt_of_get_elem? pre i at_i) ∙ at_i, h)

  pub Has-append_right :
      (pre ps : List (RenderPass T)) (k id : ℕ) → Has ps k id → Has (pre ++ ps) (length pre + k) id
  Has-append_right pre ps k id (p, at_k, h) =
      (p, get_elem?-append_right pre ps k (length pre + k) refl ∙ at_k, h)

  pub Earlier-append :
      (tree : RenderTaskTree) (pre ps : List (RenderPass T))
      → Earlier tree pre
      → Earlier tree ps
      → Earlier tree (pre ++ ps)
  Earlier-append tree pre ps before after i id task (p, at_i, h) at_id =
      elim (lt-cases i (length pre)) [
        | inl lt ↦
            All-map _ _ task.children
              (λ child (j, less, has). (j, less, Has-append_left pre ps j child has))
              (before i id task (p, sym (get_elem?-append_left pre ps i lt) ∙ at_i, h) at_id)
        | inr le ↦
            let k : ℕ = i - length pre in
            let eq : i ≡ length pre + k = omega (arith, le) in
            All-map _ _ task.children
              (λ child (j, less, has).
                (length pre + j, omega (arith, less, eq), Has-append_right pre ps j child has))
              (after k id task (p, sym (get_elem?-append_right pre ps k i eq) ∙ at_i, h) at_id)
      ]
