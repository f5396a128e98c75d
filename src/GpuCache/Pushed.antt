-- ===== src/GpuCache/Pushed.antt =====
-- `push_data` of webrender/src/gpu_cache.rs returns and keeps the invariant of a texture, as long as there is
-- room for one more row.
use webrender.Prelude.{
  ℕ, ◌+◌, ◌/◌, ◌≤◌, ◌<◌, ◌≡◌, refl, sym, ◌∙◌, subst, ap, [], ◌∷◌, ◌++◌, Option, none, some, done,
  u32_mod, length, get_elem?, lt_of_get_elem?, get_elem?-append_length, arith, Option-cases, inl,
  inr, done-injective,
}
use webrender.FrameStamp.{FrameStamp}
use webrender.GpuCache.Blocks.{
  new_block, new_address, CacheLocation, u16_mod, max_vertex_texture_width,
  get_actual_block_count_and_free_list,
}
use webrender.GpuCache.Textures.{Texture, new_row, ensure_row, push_data}
use webrender.GpuCache.Evict.{InRow}
use webrender.GpuCache.Classes.{actual-eq-done}
use webrender.GpuCache.Owns.{free_of, Owns-first}
use webrender.GpuCache.Rows.{FreeHeads, ensure_row-HasFree}
use webrender.GpuCache.Filled.{push_row_blocks-Fills}
use webrender.GpuCache.Whole.{TextureOk, InRow-HasRow}
use webrender.GpuCache.Taken.{taken, take_block-TextureOk}
use webrender.GpuCache.Grown.{grown, rows', grown-TextureOk}
use webrender.GpuCache.Push.{suc_of_positive}

module _ {B : Type 0} where
  pub TextureOk-FreeHeads : (t : Texture B) → TextureOk t → FreeHeads t
  TextureOk-FreeHeads t ok size i e =
      let (is, b, items, at_i, room, chain) = Owns-first ok.owns (free_of size) e in
      (b, at_i, InRow-HasRow t.rows size b room)

  -- The vector of blocks has room for one more row.
  pub TextureOk-small :
      (t : Texture B)
      → TextureOk t
      → length t.rows < u16_mod
      → length t.blocks + max_vertex_texture_width < u32_mod
  TextureOk-small t ok rows = omega (arith, ok.few, rows)

  new_row-TextureOk :
      (t : Texture B) (size frame_id : ℕ)
      → TextureOk t
      → length t.rows < u16_mod
      → max_vertex_texture_width / size ≤ max_vertex_texture_width
      → get_actual_block_count_and_free_list size ≡ done size
      → (t' : Texture B) × (new_row t size frame_id ≡ done t') × TextureOk t'
  unfolding new_row
  new_row-TextureOk t size frame_id ok rows few stable =
      let n = max_vertex_texture_width / size in
      let room = TextureOk-small t ok rows in
      let in_row : (u : ℕ) (next : Option ℕ)
          → InRow (rows' t size frame_id) size
              (new_block (new_address u (length t.rows)) next frame_id t.base_epoch) =
        λ u next. (
          record { block_count_per_item = size },
          ap (get_elem? (t.rows ++ record { block_count_per_item = size } ∷ []))
                (omega (arith, rows))
              ∙ get_elem?-append_length t.rows (record { block_count_per_item = size }),
          refl,
          stable,
        ) in
      let f =
        push_row_blocks-Fills (InRow (rows' t size frame_id) size) n 0 size (length t.rows) frame_id
          t.base_epoch (length t.blocks) t.blocks none [] in_row ok.some_blocks
          (omega (arith, room, few)) (omega arith) refl tt tt
          (λ j b le at_j. absurd (omega (arith, le, lt_of_get_elem? t.blocks j at_j))) in
      (
        grown t size frame_id f.blocks f.head,
        rw f.returns refl,
        grown-TextureOk t size frame_id n _ f ok few,
      )

  ensure_row-TextureOk :
      (t : Texture B) (size frame_id : ℕ)
      → TextureOk t
      → length t.rows < u16_mod
      → max_vertex_texture_width / size ≤ max_vertex_texture_width
      → get_actual_block_count_and_free_list size ≡ done size
      → (t' : Texture B) × (ensure_row t size frame_id ≡ done t') × TextureOk t'
  unfolding ensure_row
  ensure_row-TextureOk t size frame_id ok rows few stable =
      elim (Option-cases (t.free_lists size)) [
        | inl e ↦ rw (e, ensure_row) (new_row-TextureOk t size frame_id ok rows few stable)
        | inr (i, e) ↦ (t, rw (e, ensure_row) refl, ok)
      ]

  -- The texture has a free block of the size.
  ensure_row-head :
      (t : Texture B) (size frame_id : ℕ)
      → TextureOk t
      → length t.rows < u16_mod
      → 1 ≤ max_vertex_texture_width / size
      → max_vertex_texture_width / size ≤ max_vertex_texture_width
      → get_actual_block_count_and_free_list size ≡ done size
      → (t' : Texture B) × (index : ℕ) × (ensure_row t size frame_id ≡ done t')
        × TextureOk t'
        × (t'.free_lists size ≡ some index)
  ensure_row-head t size frame_id ok rows at_least few stable =
      let (t', ensured, ok') = ensure_row-TextureOk t size frame_id ok rows few stable in
      let (rest, count) = suc_of_positive (max_vertex_texture_width / size) at_least in
      let free =
        ensure_row-HasFree t size frame_id rest count (omega (arith, count, few)) stable
          (TextureOk-FreeHeads t ok) ok.some_blocks (TextureOk-small t ok rows) rows in
      let same : free.after ≡ t' = done-injective (sym free.returns ∙ ensured) in
      (
        t',
        free.index,
        ensured,
        ok',
        subst (λ t. t.free_lists size ≡ some free.index) same free.head,
      )

  pub push_data-TextureOk :
      (t : Texture B) (start : Option ℕ) (n : ℕ) (stamp : FrameStamp)
      → TextureOk t
      → 1 ≤ n
      → n ≤ max_vertex_texture_width
      → length t.rows < u16_mod
      → (t' : Texture B) × (location : CacheLocation) × (push_data t start n stamp
          ≡ done (t', location))
        × TextureOk t'
  unfolding push_data
  push_data-TextureOk t start n stamp ok positive few rows =
      let (size, gives, (_, _, _, stable, at_least, _, at_most, _)) =
        actual-eq-done n positive few in
      let (t1, index, ensured, ok1, head) =
        ensure_row-head t size stamp.id ok rows at_least (omega (arith, at_most)) stable in
      let (b, takes, at_i, room, ok') = take_block-TextureOk t1 start n size stamp ok1 head in
      (
        taken t1 start n size stamp index b,
        record { block_index = index; epoch = b.epoch },
        rw (gives, ensured) takes,
        ok',
      )
