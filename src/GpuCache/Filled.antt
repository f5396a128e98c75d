-- ===== src/GpuCache/Filled.antt =====
-- The blocks of a new row of webrender/src/gpu_cache.rs, and the free list that runs through them.
use webrender.Prelude.{
  ℕ, zero, suc, ◌+◌, ◌*◌, ◌≤◌, ◌<◌, ◌≡◌, refl, sym, ◌∙◌, subst, ap, List, [], ◌∷◌, ◌++◌, Option,
  some, Run, done, u32_mod, length, length-append, get_elem?, get_elem?-append_left,
  get_elem?-append_length, lt_of_get_elem?, All, All-map, Distinct, lt-cases, inl, inr, arith,
}
use mathlib.Core.Option.{some-injective}
use webrender.GpuCache.Blocks.{Block, new_block, new_address}
use webrender.GpuCache.Textures.{push_row_blocks}
use webrender.GpuCache.Chains.{Chain}
use webrender.GpuCache.Owns.{Chain-same}
use webrender.GpuCache.Rows.{new_block_index-eq-done}

module _ (P : Block → Type 0) where
  -- The vector `bs` has `n` more blocks, and the list at the head runs through those from number `lo` on.
  pub record Fills (lo : ℕ) (bs : List Block) (n : ℕ) (r : Run (List Block × Option ℕ))
      : Type 0 where
    pub blocks : List Block
    pub head : Option ℕ
    pub items : List ℕ
    pub returns : r ≡ done (blocks, head)
    pub chain : Chain P blocks head items
    pub distinct : Distinct items
    pub late : All (λ j. lo ≤ j) items
    pub same : (j : ℕ) → j < length bs → get_elem? blocks j ≡ get_elem? bs j
    pub count : length blocks ≡ length bs + n
    pub added : (j : ℕ) (b : Block) → lo ≤ j → get_elem? blocks j ≡ some b → P b

  append_added :
      (lo : ℕ) (bs : List Block) (b : Block)
      → P b
      → ((j : ℕ) (c : Block) → lo ≤ j → get_elem? bs j ≡ some c → P c)
      → (j : ℕ) (c : Block) → lo ≤ j
      → get_elem? (bs ++ b ∷ []) j ≡ some c
      → P c
  append_added lo bs b p old j c le at_j = elim (lt-cases j (length bs)) [
    | inl lt ↦ old j c le (sym (get_elem?-append_left bs (b ∷ []) j lt) ∙ at_j)
    | inr ge ↦
        let inside = lt_of_get_elem? (bs ++ b ∷ []) j at_j in
        let is_last : j ≡ length bs = omega (arith, inside, length-append bs (b ∷ []), ge) in
        subst P
          (some-injective _ _ (
            sym (get_elem?-append_length bs b)
            ∙ ap (get_elem? (bs ++ b ∷ [])) (sym is_last)
            ∙ at_j))
          p
  ]

  pub push_row_blocks-Fills :
      (n i size row_index frame_id epoch lo : ℕ) (bs : List Block) (prev : Option ℕ) (is : List ℕ)
      → ((u : ℕ) (next : Option ℕ) → P (new_block (new_address u row_index) next frame_id epoch))
      → 1 ≤ length bs
      → length bs + n < u32_mod
      → lo ≤ length bs
      → Chain P bs prev is
      → Distinct is
      → All (λ j. (lo ≤ j) × (j < length bs)) is
      → ((j : ℕ) (b : Block) → lo ≤ j → get_elem? bs j ≡ some b → P b)
      → Fills lo bs n (push_row_blocks n i size row_index frame_id epoch bs prev)
  unfolding push_row_blocks
  push_row_blocks-Fills zero i size row_index frame_id epoch lo bs prev is p some_blocks small low
        chain distinct inside added =
      record {
        blocks = bs;
        head = prev;
        items = is;
        returns = refl;
        chain = chain;
        distinct = distinct;
        late = All-map _ _ is (λ j h. h.0) inside;
        same = λ j lt. refl;
        count = omega arith;
        added = added;
      }
  push_row_blocks-Fills (suc n) i size row_index frame_id epoch lo bs prev is p some_blocks small
        low chain distinct inside added =
      let b = new_block (new_address (i * size) row_index) prev frame_id epoch in
      let bs' : List Block = bs ++ b ∷ [] in
      let more = length-append bs (b ∷ []) in
      let ih =
        push_row_blocks-Fills n (suc i) size row_index frame_id epoch lo bs' (some (length bs))
          (length bs ∷ is) p (omega (arith, more)) (omega (arith, more, small))
          (omega (arith, more, low))
          (
            b,
            refl,
            get_elem?-append_length bs b,
            p (i * size) prev,
            Chain-same P bs bs' prev is
                (All-map _ _ is (λ j h. get_elem?-append_left bs (b ∷ []) j h.1) inside) chain,
          )
          (All-map _ _ is (λ j h e. omega (arith, h.1, e)) inside, distinct)
          (
            (low, omega (arith, more)),
            All-map _ _ is (λ j h. (h.0, omega (arith, h.1, more))) inside,
          )
          (append_added lo bs b (p (i * size) prev) added) in
      record {
        blocks = ih.blocks;
        head = ih.head;
        items = ih.items;
        returns =
            rw (new_block_index-eq-done (length bs) some_blocks (omega (arith, small))) ih.returns;
        chain = ih.chain;
        distinct = ih.distinct;
        late = ih.late;
        same = λ j lt. ih.same j (omega (arith, lt, more)) ∙ get_elem?-append_left bs (b ∷ []) j lt;
        count = omega (arith, ih.count, more);
        added = ih.added;
      }
