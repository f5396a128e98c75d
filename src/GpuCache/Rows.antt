-- ===== src/GpuCache/Rows.antt =====
-- A new row of the texture of webrender/src/gpu_cache.rs: its blocks, and the free list that it fills.
use webrender.Prelude.{
  ℕ, zero, suc, ◌+◌, ◌*◌, ◌/◌, ◌%◌, ◌≤◌, ◌<◌, ◌≡◌, refl, sym, ◌∙◌, subst, ap, List, [], ◌∷◌, ◌++◌,
  Option, none, some, Run, done, u32_mod, length, length-append, get_elem?, get_elem?-append_length,
  Option-cases, arith, ◌==◌, if◌then◌else◌, inl, inr,
}
use webrender.Prelude.I32.{add_i32}
use webrender.GpuCache.Blocks.{
  u16_mod, max_vertex_texture_width, new_address, Block, new_block, new_block_index, Row,
  set_free_list, new_rows_per_resize, get_actual_block_count_and_free_list,
}
use webrender.GpuCache.Textures.{Texture, push_row_blocks, new_row, ensure_row}
use webrender.GpuCache.Evict.{HasRow}

-- The blocks of a new row, and the head of its free list.
record RowHead (row_index : ℕ) (r : Run (List Block × Option ℕ)) : Type 0 where
  pub blocks : List Block
  pub index : ℕ
  pub block : Block
  pub returns : r ≡ done (blocks, some index)
  pub at_index : get_elem? blocks index ≡ some block
  pub in_row : block.address.v ≡ row_index % u16_mod

pub new_block_index-eq-done : (n : ℕ) → 1 ≤ n → n < u32_mod → new_block_index n ≡ done n
new_block_index-eq-done n positive small = ground (arith)

push_row_blocks-RowHead :
    (n i size row_index frame_id epoch : ℕ) (bs : List Block) (prev : Option ℕ)
    → 1 ≤ length bs
    → length bs + n < u32_mod
    → RowHead row_index (push_row_blocks (suc n) i size row_index frame_id epoch bs prev)
unfolding push_row_blocks
push_row_blocks-RowHead zero i size row_index frame_id epoch bs prev some_blocks small =
    let b = new_block (new_address (i * size) row_index) prev frame_id epoch in
    record {
      blocks = bs ++ b ∷ [];
      index = length bs;
      block = b;
      returns = rw (new_block_index-eq-done (length bs) some_blocks (omega (arith, small))) refl;
      at_index = get_elem?-append_length bs b;
      in_row = refl;
    }
push_row_blocks-RowHead (suc n) i size row_index frame_id epoch bs prev some_blocks small =
    let b = new_block (new_address (i * size) row_index) prev frame_id epoch in
    let ih =
      push_row_blocks-RowHead n (suc i) size row_index frame_id epoch (bs ++ b ∷ [])
        (some (length bs)) (omega (arith, length-append bs (b ∷ [])))
        (omega (arith, length-append bs (b ∷ []), small)) in
    record {
      blocks = ih.blocks;
      index = ih.index;
      block = ih.block;
      returns =
          rw (new_block_index-eq-done (length bs) some_blocks (omega (arith, small))) ih.returns;
      at_index = ih.at_index;
      in_row = ih.in_row;
    }

module _ {B : Type 0} where
  -- The heads of the free lists are there, and they have their rows.
  abbrev pub FreeHeads : Texture B → Type 0
  FreeHeads t =
      (size i : ℕ)
      → t.free_lists size ≡ some i
      → (b : Block) × (get_elem? t.blocks i ≡ some b) × HasRow t.rows b

  -- The texture has a free block of the size.
  pub record HasFree (t : Texture B) (size : ℕ) (r : Run (Texture B)) : Type 0 where
    pub after : Texture B
    pub index : ℕ
    pub block : Block
    pub returns : r ≡ done after
    pub head : after.free_lists size ≡ some index
    pub at_index : get_elem? after.blocks index ≡ some block
    pub has_row : HasRow after.rows block
    pub same_heads : after.occupied_list_heads ≡ t.occupied_list_heads
    pub same_updates : after.updates ≡ t.updates

  abbrev with_row : Texture B → ℕ → List Block → ℕ → Texture B
  with_row t size blocks index = record t {
    height =
        if length t.rows % u32_mod == t.height
        then add_i32 t.height new_rows_per_resize
        else t.height;
    rows = t.rows ++ record { block_count_per_item = size } ∷ [];
    blocks = blocks;
    free_lists = set_free_list t.free_lists size (some index);
  }

  new_row-HasFree :
      (t : Texture B) (size frame_id : ℕ)
      → (rest : ℕ) → max_vertex_texture_width / size ≡ suc rest
      → rest < max_vertex_texture_width
      → get_actual_block_count_and_free_list size ≡ done size
      → 1 ≤ length t.blocks
      → length t.blocks + max_vertex_texture_width < u32_mod
      → length t.rows < u16_mod
      → HasFree t size (new_row t size frame_id)
  unfolding new_row
  new_row-HasFree t size frame_id rest count few stable some_blocks small rows =
      let rh : RowHead (length t.rows) (
          push_row_blocks (max_vertex_texture_width / size) 0 size (length t.rows) frame_id
            t.base_epoch t.blocks none) =
        subst
          (λ n.
            RowHead (length t.rows)
              (push_row_blocks n 0 size (length t.rows) frame_id t.base_epoch t.blocks none))
          (sym count)
          (push_row_blocks-RowHead rest 0 size (length t.rows) frame_id t.base_epoch t.blocks none
            some_blocks (omega (arith, small, few))) in
      let row : Row = record { block_count_per_item = size } in
      record {
        after = with_row t size rh.blocks rh.index;
        index = rh.index;
        block = rh.block;
        returns = rw rh.returns refl;
        head = ground arith;
        at_index = rh.at_index;
        has_row = (
          row,
          ap (get_elem? (t.rows ++ row ∷ [])) (rh.in_row ∙ omega (arith, rows))
              ∙ get_elem?-append_length t.rows row,
          stable,
        );
        same_heads = refl;
        same_updates = refl;
      }

  pub ensure_row-HasFree :
      (t : Texture B) (size frame_id : ℕ)
      → (rest : ℕ) → max_vertex_texture_width / size ≡ suc rest
      → rest < max_vertex_texture_width
      → get_actual_block_count_and_free_list size ≡ done size
      → FreeHeads t
      → 1 ≤ length t.blocks
      → length t.blocks + max_vertex_texture_width < u32_mod
      → length t.rows < u16_mod
      → HasFree t size (ensure_row t size frame_id)
  unfolding ensure_row
  ensure_row-HasFree t size frame_id rest count few stable heads some_blocks small rows =
      elim (Option-cases (t.free_lists size)) [
        | inl e ↦
            rw (e, ensure_row)
              (new_row-HasFree t size frame_id rest count few stable some_blocks small rows)
        | inr (i, e) ↦
            let (b, at_i, has_row) = heads size i e in
            record {
              after = t;
              index = i;
              block = b;
              returns = rw (e, ensure_row) refl;
              head = e;
              at_index = at_i;
              has_row = has_row;
              same_heads = refl;
              same_updates = refl;
            }
      ]
