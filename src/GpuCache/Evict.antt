-- ===== src/GpuCache/Evict.antt =====
-- `Texture::evict_old_blocks` of webrender/src/gpu_cache.rs: the loop ends, and it removes exactly the old
-- blocks from the list of the document.
use webrender.Prelude.{
  ℕ, ◌+◌, ◌≢◌, ◌≡◌, refl, sym, ◌∙◌, subst, ap, List, [], ◌∷◌, some, true, false, done, set,
  get_elem?, get_elem?-set_self, get_elem?-set_ne, lt_of_get_elem?, length, length-set, NotIn,
  arith, inl, inr, ==-cases, usize_mod, ◌-◌, ◌%◌,
}
use mathlib.Core.Option.{some-injective}
use webrender.FrameStamp.{DocumentId, FrameStamp, same_document}
use webrender.GpuCache.Blocks.{
  Block, Row, epoch_next, advance_epoch, get_actual_block_count_and_free_list, set_free_list,
  free_cmd,
}
use webrender.GpuCache.Textures.{Texture, set_head, push_debug, free_block, unlink, evict_block}
use webrender.GpuCache.Chains.{
  Chain, rev_append, top, Apart, Chain-unlink, Chain-set, keep, keep-set,
}

-- The block's row is there, and its blocks go to a free list of their own size.
abbrev pub HasRow : List Row → Block → Type 0
HasRow rows b =
    (row : Row) × (get_elem? rows b.address.v ≡ some row)
    × (get_actual_block_count_and_free_list row.block_count_per_item
        ≡ done row.block_count_per_item)

pub same_document_refl : (d : DocumentId) → same_document d d ≡ true
same_document_refl d = ground arith

-- The block is in a row of blocks of the size.
abbrev pub InRow : List Row → ℕ → Block → Type 0
InRow rows size b =
    (row : Row) × (get_elem? rows b.address.v ≡ some row)
    × (row.block_count_per_item ≡ size)
    × (get_actual_block_count_and_free_list size ≡ done size)

module _ {B : Type 0} where
  -- The block as `free_block` leaves it, and the texture.
  abbrev pub released : Texture B → Block → ℕ → Block
  released t block size = record block { epoch = epoch_next block.epoch; next = t.free_lists size }

  -- The texture and the next block after the round for an old block.
  pub record EvictsBlock (t : Texture B) (stamp : FrameStamp) (rk rs : List ℕ) (index : ℕ)
      (block : Block) : Type 0 where
    pub after : Texture B
    pub returns : evict_block t stamp (top rk) index block ≡ done (after, top rk, block.next)
    pub rows : after.rows ≡ t.rows
    pub linked :
        Chain
          (HasRow t.rows)
          after.blocks
          (after.occupied_list_heads stamp.document_id)
          (rev_append rk rs)
    pub rest : Chain (HasRow t.rows) after.blocks block.next rs
    pub size : ℕ
    pub in_row : InRow t.rows size block
    pub freed : get_elem? after.blocks index ≡ some (released t block size)
    pub free_heads : after.free_lists ≡ set_free_list t.free_lists size (some index)
    pub count : length after.blocks ≡ length t.blocks
    pub untouched :
        (j : ℕ) → j ≢ index → NotIn j rk → get_elem? after.blocks j ≡ get_elem? t.blocks j
    pub others :
        (j : ℕ) (b : Block)
        → j ≢ index
        → get_elem? t.blocks j ≡ some b
        → (b' : Block) × (get_elem? after.blocks j ≡ some b')
          × (b'.epoch ≡ b.epoch)
          × (b'.last_access_time ≡ b.last_access_time)
          × (b'.address ≡ b.address)
    pub other_heads :
        (d : DocumentId)
        → same_document d stamp.document_id ≡ false
        → after.occupied_list_heads d ≡ t.occupied_list_heads d
    pub kept : keep stamp.id after.blocks rs ≡ keep stamp.id t.blocks rs

  abbrev freed_texture : Texture B → ℕ → Block → ℕ → Texture B
  freed_texture t index block size = record t {
    blocks = set t.blocks index (released t block size);
    max_epoch = (advance_epoch block t.max_epoch).1;
    free_lists = set_free_list t.free_lists size (some index);
    allocated_block_count = (t.allocated_block_count + usize_mod - size) % usize_mod;
    debug_commands = push_debug t.debug_flags (free_cmd block.address) t.debug_commands;
  }

  free_block-returns :
      (t : Texture B) (index : ℕ) (block : Block)
      → HasRow t.rows block
      → (size : ℕ) × (after : Texture B) × (free_block t index block ≡ done after)
        × (after.blocks ≡ set t.blocks index (released t block size))
        × (after.rows ≡ t.rows)
        × (after.occupied_list_heads ≡ t.occupied_list_heads)
        × (after.free_lists ≡ set_free_list t.free_lists size (some index))
        × InRow t.rows size block
  unfolding free_block
  free_block-returns t index block (row, at_row, size) = (
    row.block_count_per_item,
    freed_texture t index block row.block_count_per_item,
    rw (at_row, size) refl,
    refl,
    refl,
    refl,
    refl,
    (row, at_row, refl, size),
  )

  pub evict_first :
      (t : Texture B) (stamp : FrameStamp) (rs : List ℕ) (index : ℕ) (block : Block)
      → HasRow t.rows block
      → Chain (HasRow t.rows) t.blocks block.next rs
      → get_elem? t.blocks index ≡ some block
      → Apart [] (index ∷ rs)
      → EvictsBlock t stamp [] rs index block
  unfolding evict_block unlink
  evict_first t stamp rs index block has_row chain at_index apart =
      let (size, t1, returns, blocks1, rows1, heads1, frees1, in_row) =
        free_block-returns t index block has_row in
      let rest : Chain (HasRow t.rows) t1.blocks block.next rs =
        subst (λ bs. Chain (HasRow t.rows) bs block.next rs) (sym blocks1)
          (Chain-set (HasRow t.rows) t.blocks block.next rs index _ apart.rest.0 chain) in
      record {
        after = record t1 {
          occupied_list_heads = set_head t1.occupied_list_heads stamp.document_id block.next;
        };
        returns = rw returns refl;
        rows = rows1;
        linked = rw (same_document_refl stamp.document_id) rest;
        rest = rest;
        size = size;
        in_row = in_row;
        freed = rw blocks1 (
            get_elem?-set_self t.blocks index (released t block size)
              (lt_of_get_elem? t.blocks index at_index));
        free_heads = frees1;
        count = rw blocks1 (length-set t.blocks index (released t block size));
        untouched =
            λ j ne fresh. rw blocks1 (get_elem?-set_ne t.blocks index j _ (λ e. ne (sym e)));
        others = λ j b ne e. (
          b,
          rw blocks1 (get_elem?-set_ne t.blocks index j _ (λ e'. ne (sym e')) ∙ e),
          refl,
          refl,
          refl,
        );
        other_heads = λ doc other. rw (other, heads1) refl;
        kept = rw blocks1 (keep-set stamp.id t.blocks index _ rs apart.rest.0);
      }

  pub evict_later :
      (t : Texture B) (stamp : FrameStamp) (p : ℕ) (rk rs : List ℕ) (index : ℕ) (block : Block)
      → HasRow t.rows block
      → Chain
          (HasRow t.rows)
          t.blocks
          (t.occupied_list_heads stamp.document_id)
          (rev_append (p ∷ rk) (index ∷ rs))
      → Chain (HasRow t.rows) t.blocks block.next rs
      → get_elem? t.blocks index ≡ some block
      → (d : Block) → get_elem? t.blocks p ≡ some d
      → Apart (p ∷ rk) (index ∷ rs)
      → EvictsBlock t stamp (p ∷ rk) rs index block
  unfolding evict_block unlink
  evict_later t stamp p rk rs index block has_row all chain at_index d at_p apart =
      let (size, t1, returns, blocks1, rows1, heads1, frees1, in_row) =
        free_block-returns t index block has_row in
      let b' = released t block size in
      let ne : index ≢ p = λ e. apart.between.0.0 (sym e) in
      let at_p1 : get_elem? t1.blocks p ≡ some d =
        rw blocks1 (get_elem?-set_ne t.blocks index p b' ne ∙ at_p) in
      let d' : Block = record d { next = block.next } in
      record {
        after = record t1 { blocks = set t1.blocks p d' };
        returns = rw (returns, at_p1) refl;
        rows = rows1;
        linked =
            rw (blocks1, heads1)
              (Chain-unlink (HasRow t.rows) t.blocks (t.occupied_list_heads stamp.document_id) rk rs
                index p block d b' apart at_index at_p (λ s n h. h) all);
        rest = rw blocks1 (
            Chain-set (HasRow t.rows) (set t.blocks index b') block.next rs p d' apart.between.0.1
              (Chain-set (HasRow t.rows) t.blocks block.next rs index b' apart.rest.0 chain));
        size = size;
        in_row = in_row;
        freed = rw blocks1 (
            get_elem?-set_ne (set t.blocks index b') p index d' (λ e. ne (sym e))
            ∙ get_elem?-set_self t.blocks index b' (lt_of_get_elem? t.blocks index at_index));
        free_heads = frees1;
        count = rw blocks1 (length-set (set t.blocks index b') p d' ∙ length-set t.blocks index b');
        untouched = λ j other fresh. rw blocks1 (
            get_elem?-set_ne (set t.blocks index b') p j d' (λ e. fresh.0 (sym e))
            ∙ get_elem?-set_ne t.blocks index j b' (λ e. other (sym e)));
        others = λ j b other e. elim (==-cases p j) [
          | inl same ↦
              let eb : d ≡ b = some-injective _ _ (sym at_p ∙ ap (get_elem? t.blocks) same ∙ e) in
              (
                d',
                subst (λ k. get_elem? (set t1.blocks p d') k ≡ some d') same
                    (get_elem?-set_self t1.blocks p d' (lt_of_get_elem? t1.blocks p at_p1)),
                ap (λ k. k.epoch) eb,
                ap (λ k. k.last_access_time) eb,
                ap (λ k. k.address) eb,
              )
          | inr differs ↦ (
            b,
            rw blocks1 (
                get_elem?-set_ne (set t.blocks index b') p j d' differs
                ∙ get_elem?-set_ne t.blocks index j b' (λ e'. other (sym e'))
                ∙ e),
            refl,
            refl,
            refl,
          )
        ];
        other_heads = λ doc other. rw heads1 refl;
        kept = rw blocks1 (
            keep-set stamp.id (set t.blocks index b') p d' rs apart.between.0.1
            ∙ keep-set stamp.id t.blocks index b' rs apart.rest.0);
      }
