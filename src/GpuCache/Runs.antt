-- ===== src/GpuCache/Runs.antt =====
-- Sequences of the calls that change a GPU cache of webrender/src/gpu_cache.rs, from a new one.
use webrender.Prelude.{
  ◌≤◌, ◌≡◌, ◌≢◌, refl, sym, subst, ap, ◌⊎◌, inl, inr, List, [], ◌∷◌, ◌++◌, done, length, All,
  lt-cases,
}
use webrender.GpuCache.Blocks.{u16_mod}
use webrender.GpuCache.Caches.{GpuCache, new}
use webrender.GpuCache.Steps.{Op, clear_op, clear-cases, run}
use webrender.GpuCache.Whole.{TextureOk, new_texture-TextureOk}
use webrender.GpuCache.Calls.{OpOk, CanStep, CanStep-NotClear, Safe, step-Safe}

List-cases : {A : Type 0} (xs : List A) → (xs ≡ []) ⊎ (xs ≢ [])
List-cases [] = inl refl
List-cases (x ∷ xs) = inr (λ e. cc)

module _ {B : Type 0} where
  -- The first calls fill the texture: it has a row for each number of 16 bits.
  abbrev pub FillsUp : GpuCache B → List (Op B) → Type 0
  FillsUp c os =
      (before after : List (Op B)) × (os ≡ before ++ after)
      × (c' : GpuCache B) × (run c before ≡ done c')
      × (u16_mod ≤ length c'.texture.rows)

  -- After the first calls the cache is cleared while it has updates to send.
  abbrev pub ClearsEarly : GpuCache B → List (Op B) → Type 0
  ClearsEarly c os =
      (before after : List (Op B)) × (os ≡ before ++ clear_op ∷ after)
      × (c' : GpuCache B) × (run c before ≡ done c')
      × (c'.texture.updates ≢ [])

  CanStep-cases :
      (c : GpuCache B) (o : Op B) → CanStep c o ⊎ ((o ≡ clear_op) × (c.texture.updates ≢ []))
  CanStep-cases c o = elim (clear-cases o) [
    | inr keeps ↦ inl (CanStep-NotClear c o keeps)
    | inl is ↦ elim (List-cases c.texture.updates) [
      | inl none_left ↦ inl (subst (CanStep c) (sym is) none_left)
      | inr pending ↦ inr (is, pending)
    ]
  ]

  run-Safe :
      (c : GpuCache B) (os : List (Op B))
      → TextureOk c.texture
      → All OpOk os
      → Safe (run c os) ⊎ FillsUp c os ⊎ ClearsEarly c os
  unfolding run
  run-Safe c [] ok args = inl (c, refl, ok)
  run-Safe c (o ∷ os) ok args = elim (lt-cases (length c.texture.rows) u16_mod) [
    | inr full ↦ inr (inl ([], o ∷ os, refl, c, refl, full))
    | inl room ↦ elim (CanStep-cases c o) [
      | inr (is, pending) ↦ inr (inr ([], os, ap (λ o. o ∷ os) is, c, refl, pending))
      | inl can ↦
          let (c1, first, ok1) = step-Safe c o ok args.0 can room in
          elim (run-Safe c1 os ok1 args.1) [
            | inl (c', returns, ok') ↦ inl (c', rw (first, returns) refl, ok')
            | inr (inl (before, after, split, c', returns, full)) ↦
                inr (
                  inl
                    (o ∷ before, after, ap (λ l. o ∷ l) split, c', rw (first, returns) refl, full))
            | inr (inr (before, after, split, c', returns, pending)) ↦ inr (
                inr
                  (o ∷ before, after, ap (λ l. o ∷ l) split, c', rw (first, returns) refl, pending))
          ]
    ]
  ]

  -- From a new cache, any sequence of calls that change it returns, and the texture keeps its invariant, unless
  -- some of the first calls return a texture with 2^16 rows, or a cache with updates to send that the next call
  -- clears. A request or an allocation is of 1 to 1024 blocks, and a handle is not one of block 0.
  pub run-new-Safe :
      (os : List (Op B)) → All OpOk os → Safe (run new os) ⊎ FillsUp new os ⊎ ClearsEarly new os
  unfolding new
  run-new-Safe os = run-Safe new os (new_texture-TextureOk 0 0)
