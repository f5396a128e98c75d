-- ===== src/RenderTasks/Ordered.antt =====
-- The order of the passes of webrender/src/render_task.rs: the children of a task are in the next pass.
use webrender.Prelude.{
  ℕ, suc, ◌≤◌, ◌<◌, ◌≡◌, refl, sym, ◌∙◌, subst, ap, List, [], ◌∷◌, ◌++◌, some, ◌⊎◌, inl, inr,
  length, set, get_elem?, get_elem?-set_self, get_elem?-set_ne, lt_of_get_elem?,
  get_elem?-append_left, get_elem?-append_length, length-append, length-set, All, ==-cases, arith,
}
use mathlib.Core.Option.{some-injective}
use webrender.RenderTasks.{RenderTask, RenderTaskTree, RenderPass}

abbrev pub In : ℕ → List ℕ → Type 0
In j [] = ⊥
In j (i ∷ is) = (i ≡ j) ⊎ In j is

pub In-append_left : (j : ℕ) (is ks : List ℕ) → In j is → In j (is ++ ks)
In-append_left j [] ks x' = elim x' [ ]
In-append_left j (i ∷ is) ks (inl e) = inl e
In-append_left j (i ∷ is) ks (inr h) = inr (In-append_left j is ks h)

pub In-append_last : (j : ℕ) (is : List ℕ) → In j (is ++ j ∷ [])
In-append_last j [] = inl refl
In-append_last j (i ∷ is) = inr (In-append_last j is)

pub In-append_cases : (j i : ℕ) (is : List ℕ) → In j (is ++ i ∷ []) → In j is ⊎ (i ≡ j)
In-append_cases j i [] (inl e) = inr e
In-append_cases j i [] (inr h) = elim h [ ]
In-append_cases j i (k ∷ is) (inl e) = inl (inl e)
In-append_cases j i (k ∷ is) (inr h) = elim (In-append_cases j i is h) [
  | inl g ↦ inl (inr g)
  | inr e ↦ inr e
]

module _ {T : Type 0} where
  -- The pass number `i` has the task.
  abbrev pub Has : List (RenderPass T) → ℕ → ℕ → Type 0
  Has passes i id = (p : RenderPass T) × (get_elem? passes i ≡ some p) × In id p.tasks

  -- No task is lost.
  abbrev pub Grows : List (RenderPass T) → List (RenderPass T) → Type 0
  Grows passes passes' =
      (length passes ≤ length passes') × ((i id : ℕ) → Has passes i id → Has passes' i id)

  -- The children of each task of a pass are in the pass after it.
  abbrev pub Ordered : RenderTaskTree → List (RenderPass T) → Type 0
  Ordered tree passes =
      (i id : ℕ) (task : RenderTask)
      → Has passes i id
      → get_elem? tree.tasks id ≡ some task
      → All (Has passes (suc i)) task.children

  pub Has-All :
      (passes passes' : List (RenderPass T)) (i : ℕ) (ids : List ℕ)
      → Grows passes passes'
      → All (Has passes i) ids
      → All (Has passes' i) ids
  Has-All passes passes' i [] g h = tt
  Has-All passes passes' i (id ∷ ids) g h = (g.1 i id h.0, Has-All passes passes' i ids g h.1)

  -- A pass is given one more task.
  pub Grows-set :
      (passes : List (RenderPass T)) (i id : ℕ) (p p' : RenderPass T)
      → get_elem? passes i ≡ some p
      → p'.tasks ≡ p.tasks ++ id ∷ []
      → Grows passes (set passes i p')
  Grows-set passes i id p p' at_i more = (
    omega (arith, length-set passes i p'),
    λ j k (q, at_j, h). elim (==-cases i j) [
      | inl same ↦
          let eq : p ≡ q = some-injective _ _ (sym at_i ∙ ap (get_elem? passes) same ∙ at_j) in
          (
            p',
            subst (λ n. get_elem? (set passes i p') n ≡ some p') same
                (get_elem?-set_self passes i p' (lt_of_get_elem? passes i at_i)),
            subst (In k) (sym more)
                (In-append_left k p.tasks (id ∷ []) (subst (λ r. In k r.tasks) (sym eq) h)),
          )
      | inr other ↦ (q, get_elem?-set_ne passes i j p' other ∙ at_j, h)
    ],
  )

  -- A task is added to its pass once its children are in the next one.
  pub Ordered-set :
      (tree : RenderTaskTree) (passes : List (RenderPass T)) (i id : ℕ) (task : RenderTask)
      (p p' : RenderPass T)
      → Ordered tree passes
      → get_elem? tree.tasks id ≡ some task
      → All (Has passes (suc i)) task.children
      → get_elem? passes i ≡ some p
      → p'.tasks ≡ p.tasks ++ id ∷ []
      → Ordered tree (set passes i p')
  Ordered-set tree passes i id task p p' ordered at_id children at_i more j k task' (q, at_j, h)
        at_k =
      let grows = Grows-set passes i id p p' at_i more in
      elim (==-cases i j) [
        | inr other ↦
            Has-All passes (set passes i p') (suc j) task'.children grows
              (ordered j k task' (q, sym (get_elem?-set_ne passes i j p' other) ∙ at_j, h) at_k)
        | inl same ↦
            let eq : p' ≡ q = some-injective _ _ (
              sym (get_elem?-set_self passes i p' (lt_of_get_elem? passes i at_i))
              ∙ ap (get_elem? (set passes i p')) same
              ∙ at_j) in
            elim (In-append_cases k id p.tasks
              (subst (In k) more (subst (λ r. In k r.tasks) (sym eq) h))) [
                | inl old ↦
                    Has-All passes (set passes i p') (suc j) task'.children grows
                      (ordered j k task' (p, ap (get_elem? passes) (sym same) ∙ at_i, old) at_k)
                | inr new ↦
                    let eq_task : task ≡ task' =
                      some-injective _ _ (sym at_id ∙ ap (get_elem? tree.tasks) new ∙ at_k) in
                    Has-All passes (set passes i p') (suc j) task'.children grows (
                      subst (λ t. All (Has passes (suc j)) t.children) eq_task
                        (subst (λ n. All (Has passes (suc n)) task.children) same children))
              ]
      ]

  pub Grows-refl : (passes : List (RenderPass T)) → Grows passes passes
  Grows-refl passes = (omega arith, λ i id h. h)

  pub Grows-trans : (a b c : List (RenderPass T)) → Grows a b → Grows b c → Grows a c
  Grows-trans a b c f g = (omega (arith, f.0, g.0), λ i id h. g.1 i id (f.1 i id h))

  pub Grows-append :
      (passes : List (RenderPass T)) (p : RenderPass T) → Grows passes (passes ++ p ∷ [])
  Grows-append passes p = (
    omega (arith, length-append passes (p ∷ [])),
    λ i id (q, at_i, h).
        (q, get_elem?-append_left passes (p ∷ []) i (lt_of_get_elem? passes i at_i) ∙ at_i, h),
  )

  -- A pass without tasks is added.
  pub Ordered-append :
      (tree : RenderTaskTree) (passes : List (RenderPass T)) (p : RenderPass T)
      → p.tasks ≡ []
      → Ordered tree passes
      → Ordered tree (passes ++ p ∷ [])
  Ordered-append tree passes p none_yet ordered i id task (q, at_i, h) at_id =
      elim (==-cases i (length passes)) [
        | inl same ↦
            let eq : p ≡ q = some-injective _ _ (
              sym (get_elem?-append_length passes p)
              ∙ ap (get_elem? (passes ++ p ∷ [])) (sym same)
              ∙ at_i) in
            absurd (subst (In id) none_yet (subst (λ r. In id r.tasks) (sym eq) h))
        | inr other ↦
            let room : i < length passes = omega (
              arith,
              lt_of_get_elem? (passes ++ p ∷ []) i at_i,
              length-append passes (p ∷ []),
              other,
            ) in
            Has-All passes (passes ++ p ∷ []) (suc i) task.children (Grows-append passes p) (
              ordered i id task (q, sym (get_elem?-append_left passes (p ∷ []) i room) ∙ at_i, h)
                at_id)
      ]
