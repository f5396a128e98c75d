-- ===== src/GpuCache/Fuel.antt =====
-- Different numbers below `n` are no more than `n`: the loop of `evict_old_blocks` (webrender/src/gpu_cache.rs)
-- has a round for each block at most.
use webrender.Prelude.{
  ℕ, zero, suc, ◌≤◌, ◌<◌, ◌≢◌, ◌≡◌, List, [], ◌∷◌, All, All-both, NotIn, Distinct, length, arith,
  Bool-cases, ◌==◌, if◌then◌else◌, inl, inr,
}

-- The list without the first occurrence of `m`.
abbrev without : ℕ → List ℕ → List ℕ
without m [] = []
without m (j ∷ js) = if j == m then js else j ∷ without m js

NotIn-without : (k m : ℕ) (is : List ℕ) → NotIn k is → NotIn k (without m is)
NotIn-without k m [] h = tt
NotIn-without k m (j ∷ js) h = elim (Bool-cases (j == m)) [
  | inl e ↦ rw e h.1
  | inr e ↦ rw e (h.0, NotIn-without k m js h.1)
]

Distinct-without : (m : ℕ) (is : List ℕ) → Distinct is → Distinct (without m is)
Distinct-without m [] h = tt
Distinct-without m (j ∷ js) h = elim (Bool-cases (j == m)) [
  | inl e ↦ rw e h.1
  | inr e ↦ rw e (NotIn-without j m js h.0, Distinct-without m js h.1)
]

length-without : (m : ℕ) (is : List ℕ) → length is ≤ suc (length (without m is))
length-without m [] = omega arith
length-without m (j ∷ js) = elim (Bool-cases (j == m)) [
  | inl e ↦ rw e (omega arith)
  | inr e ↦ rw e (omega (arith, length-without m js))
]

without-lt :
    (m : ℕ) (is : List ℕ) → Distinct is → All (λ j. j < suc m) is → All (λ j. j < m) (without m is)
without-lt m [] d h = tt
without-lt m (j ∷ js) d h = elim (Bool-cases (j == m)) [
  | inl e ↦
      let same : j ≡ m = ground (arith, e) in
      rw e (All-both _ _ _ js (λ k ne lt. omega (arith, ne, lt, same)) d.0 h.1)
  | inr e ↦
      let ne : j ≢ m = ground (arith, e) in rw e (omega (arith, ne, h.0), without-lt m js d.1 h.1)
]

pub Distinct-length : (n : ℕ) (is : List ℕ) → Distinct is → All (λ j. j < n) is → length is ≤ n
Distinct-length n [] d h = omega arith
Distinct-length zero (j ∷ js) d h = absurd (omega (arith, h.0))
Distinct-length (suc m) (j ∷ js) d h = omega (
  arith,
  length-without m (j ∷ js),
  Distinct-length m (without m (j ∷ js)) (Distinct-without m (j ∷ js) d)
      (without-lt m (j ∷ js) d h),
)
