-- ===== src/Storage/Laws.antt =====
-- What `push` and `extend` of webrender/src/storage.rs store, and that they keep what is there.
use webrender.Prelude.{
  ℕ, ◌+◌, ◌-◌, ◌%◌, ◌<◌, ◌≡◌, refl, ◌∙◌, ap, List, [], ◌∷◌, ◌++◌, true, done, index_at, unwrap,
  u32_mod, length, length-append, get_elem?-append_left, get_elem?-append_length, arith, ◌&&◌, leb,
}
use webrender.Storage.{IndexRange, Storage, skip, first_n, push, extend, index, index_range}

skip-append {ℓ} : {T : Type ℓ} (xs ys : List T) → skip (length xs) (xs ++ ys) ≡ ys
unfolding skip
skip-append [] ys = refl
skip-append (x ∷ xs) ys = skip-append xs ys

first_n-all {ℓ} : {T : Type ℓ} (xs : List T) → first_n (length xs) xs ≡ xs
unfolding first_n
first_n-all [] = refl
first_n-all (x ∷ xs) = ap (λ ys. x ∷ ys) (first_n-all xs)

slice_in_range {ℓ} :
    {T : Type ℓ} (xs ys : List T) (start end : ℕ)
    → start ≡ length xs
    → end ≡ length xs + length ys
    → index_range (record { items = xs ++ ys }) (record { start = start; end = end }) ≡ done ys
unfolding index_range
slice_in_range xs ys start end h k =
    let in_range : (leb start end && leb end (length (xs ++ ys))) ≡ true =
      ground (arith, h, k, length-append xs ys) in
    let count : end - start ≡ length ys = omega (arith, h, k) in
    let slice : first_n (end - start) (skip start (xs ++ ys)) ≡ ys =
      ap (λ n. first_n n (skip start (xs ++ ys))) count
      ∙ ap (λ n. first_n (length ys) (skip n (xs ++ ys))) h
      ∙ ap (first_n (length ys)) (skip-append xs ys)
      ∙ first_n-all ys in
    rw in_range (ap done slice)

module _ {ℓ} {T : Type ℓ} where
  -- What is stored by a call, and what was stored before it.
  pub record Stores (s : Storage T) (ts : List T) (r : Storage T × IndexRange) : Type ℓ where
    pub slice : index_range r.0 r.1 ≡ done ts
    pub keeps : (i : ℕ) → i < length s.items → index r.0 i ≡ index s i
    pub grows : length r.0.items ≡ length s.items + length ts

  -- The range that `extend` returns has exactly the new elements, and the elements before it are kept,
  -- while the vector has less than 2^32 elements.
  pub extend-Stores :
      (s : Storage T) (ts : List T)
      → length s.items + length ts < u32_mod
      → Stores s ts (extend s ts)
  unfolding extend index
  extend-Stores s ts small = record {
    slice =
        slice_in_range s.items ts _ _ (omega (arith, small))
          (omega (arith, small, length-append s.items ts));
    keeps = λ i h. ap unwrap (get_elem?-append_left s.items ts i h);
    grows = length-append s.items ts;
  }

  pub record Pushed (s : Storage T) (t : T) (r : Storage T × ℕ) : Type ℓ where
    pub element : index r.0 r.1 ≡ done t
    pub keeps : (i : ℕ) → i < length s.items → index r.0 i ≡ index s i
    pub is_new : r.1 ≡ length s.items

  -- The index that `push` returns is new and has the element, and the elements before it are kept, while
  -- the vector has less than 2^32 elements.
  pub push-Pushed : (s : Storage T) (t : T) → length s.items < u32_mod → Pushed s t (push s t)
  unfolding push index
  push-Pushed s t small =
      let e : length s.items % u32_mod ≡ length s.items = omega (arith, small) in
      record {
        element =
            ap (index_at (s.items ++ t ∷ [])) e ∙ ap unwrap (get_elem?-append_length s.items t);
        keeps = λ i h. ap unwrap (get_elem?-append_left s.items (t ∷ []) i h);
        is_new = e;
      }
