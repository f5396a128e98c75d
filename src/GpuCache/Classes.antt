-- ===== src/GpuCache/Classes.antt =====
-- The size classes of the free lists of webrender/src/gpu_cache.rs.
use webrender.Prelude.{
  ℕ, ◌*◌, ◌/◌, ◌≤◌, ◌<◌, ◌≡◌, refl, ◌⊎◌, List, [], ◌∷◌, Run, done, panic, All, arith,
}
use webrender.GpuCache.Blocks.{max_vertex_texture_width, get_actual_block_count_and_free_list}

abbrev pub sizes : List ℕ
sizes = 1 ∷ 2 ∷ 4 ∷ 8 ∷ 16 ∷ 32 ∷ 64 ∷ 128 ∷ 256 ∷ 341 ∷ 512 ∷ 1024 ∷ []

-- The outcome for `n` blocks: the least of the sizes that are at least `n`, for which the function gives
-- that size again, and of which at least one fits in a row, and no more than a row has; or a panic, if there are no blocks or more than a row has.
abbrev pub GivesSize : ℕ → Run ℕ → Type 0
GivesSize n panic = (n < 1) ⊎ (max_vertex_texture_width < n)
GivesSize n (done k) =
    (1 ≤ n)
    × (n ≤ k)
    × (k ≤ max_vertex_texture_width)
    × (get_actual_block_count_and_free_list k ≡ done k)
    × (1 ≤ max_vertex_texture_width / k)
    × (max_vertex_texture_width / k * k ≤ max_vertex_texture_width)
    × (max_vertex_texture_width / k ≤ max_vertex_texture_width)
    × All (λ s. (s < n) ⊎ (k ≤ s)) sizes

pub get_actual_block_count_and_free_list_lem :
    (n : ℕ) → GivesSize n (get_actual_block_count_and_free_list n)
unfolding get_actual_block_count_and_free_list
get_actual_block_count_and_free_list_lem n = ground arith

-- Splits the outcome `r` of the function.
gives_done :
    (n : ℕ) (r : Run ℕ)
    → GivesSize n r
    → 1 ≤ n
    → n ≤ max_vertex_texture_width
    → (k : ℕ) × (r ≡ done k) × GivesSize n (done k)
gives_done n (done k) h some_blocks few = (k, refl, h)
gives_done n panic h some_blocks few = absurd (omega (arith, h))

pub actual-eq-done :
    (n : ℕ)
    → 1 ≤ n
    → n ≤ max_vertex_texture_width
    → (k : ℕ) × (get_actual_block_count_and_free_list n ≡ done k) × GivesSize n (done k)
actual-eq-done n =
    gives_done n (get_actual_block_count_and_free_list n)
      (get_actual_block_count_and_free_list_lem n)
