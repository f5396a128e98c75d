-- ===== src/GpuCache/Advance.antt =====
-- What the operations of `Texture` in webrender/src/gpu_cache.rs do to the epochs of its blocks.
use webrender.Prelude.{
  ℕ, zero, suc, ◌/◌, ◌≤◌, ◌≡◌, refl, List, Option, none, some, done, unwrap, index_at, length,
  get_elem?, Ensures, Ensures->>=, Ensures-bind, Ensures_done, Ensures-mono, index_at-eq-done,
  arith, true, false, if◌then◌else◌,
}
use webrender.FrameStamp.{FrameStamp, DocumentId}
use webrender.GpuCache.Blocks.{Block, new_block_index, get_actual_block_count_and_free_list}
use webrender.GpuCache.Textures.{
  Texture, push_row_blocks, new_row, ensure_row, take_block, push_data, is_old, free_block, unlink,
  evict_block, evict_step, evict_loop, evict_old_blocks,
}
use webrender.GpuCache.Epochs.{
  AllBetween, AllBetween-set, AllBetween-mono, AllBetween-append, AllBetween-get_elem?, Advances,
  Advances-refl, Advances-trans, Later, Later_refl, Later_trans, Later-set, Later-append,
}

push_row_blocks-AllBetween :
    (n i alloc_size row_index frame_id lo hi : ℕ) (bs : List Block) (prev : Option ℕ)
    → lo ≤ hi
    → AllBetween lo hi bs
    → Ensures
        (λ r. AllBetween lo hi r.0)
        (push_row_blocks n i alloc_size row_index frame_id lo bs prev)
unfolding push_row_blocks
push_row_blocks-AllBetween zero i alloc_size row_index frame_id lo hi bs prev le h = h
push_row_blocks-AllBetween (suc n) i alloc_size row_index frame_id lo hi bs prev le h =
    Ensures-bind _ (new_block_index (length bs)) _ (λ index e.
      push_row_blocks-AllBetween n (suc i) alloc_size row_index frame_id lo hi _ (some index) le
        (AllBetween-append lo hi bs _ h (omega arith, le)))

push_row_blocks-Later :
    (n i alloc_size row_index frame_id base_epoch : ℕ) (bs : List Block) (prev : Option ℕ)
    → Ensures
        (λ r. Later bs r.0)
        (push_row_blocks n i alloc_size row_index frame_id base_epoch bs prev)
unfolding push_row_blocks
push_row_blocks-Later zero i alloc_size row_index frame_id base_epoch bs prev = Later_refl bs
push_row_blocks-Later (suc n) i alloc_size row_index frame_id base_epoch bs prev =
    Ensures-bind _ (new_block_index (length bs)) _ (λ index e.
      Ensures-mono _ _
        (push_row_blocks n (suc i) alloc_size row_index frame_id base_epoch _ (some index))
        (λ r. Later_trans bs _ r.0 (Later-append bs _))
        (push_row_blocks-Later n (suc i) alloc_size row_index frame_id base_epoch _ (some index)))

module _ {B : Type 0} where
  new_row-Advances :
      (t : Texture B) (alloc_size frame_id : ℕ)
      → Ensures (Advances t) (new_row t alloc_size frame_id)
  unfolding new_row
  new_row-Advances t alloc_size frame_id =
      Ensures-bind _
        (push_row_blocks (1024 / alloc_size) 0 alloc_size (length t.rows) frame_id t.base_epoch
          t.blocks none)
        _
        (λ r e. record {
          base = refl;
          grows = omega arith;
          keeps = λ small h. record {
            between =
                Ensures_done (λ r. AllBetween t.base_epoch t.max_epoch r.0) _
                  (push_row_blocks-AllBetween (1024 / alloc_size) 0 alloc_size (length t.rows)
                    frame_id t.base_epoch t.max_epoch t.blocks none h.ordered h.between)
                  e;
            ordered = h.ordered;
          };
          later = λ small h.
              Ensures_done (λ r. Later t.blocks r.0) _
                (push_row_blocks-Later (1024 / alloc_size) 0 alloc_size (length t.rows) frame_id
                  t.base_epoch t.blocks none)
                e;
        })

  ensure_row-Advances :
      (t : Texture B) (alloc_size frame_id : ℕ)
      → Ensures (Advances t) (ensure_row t alloc_size frame_id)
  unfolding ensure_row
  ensure_row-Advances t alloc_size frame_id =
      elim (t.free_lists alloc_size)
        as (λ o.
          Ensures (Advances t)
            (elim o [ none ↦ new_row t alloc_size frame_id | some head ↦ done t ])) [
              | none ↦ new_row-Advances t alloc_size frame_id
              | some head ↦ Advances-refl t
            ]

  take_block-Advances :
      (t : Texture B) (start : Option ℕ) (block_count alloc_size : ℕ) (stamp : FrameStamp)
      → Ensures (λ r. Advances t r.0) (take_block t start block_count alloc_size stamp)
  unfolding take_block
  take_block-Advances t start block_count alloc_size stamp =
      Ensures-bind _ (unwrap (t.free_lists alloc_size)) _ (λ index e.
        Ensures-bind _ (index_at t.blocks index) _ (λ block at_index. record {
          base = refl;
          grows = omega arith;
          keeps = λ small h. record {
            between = AllBetween-set t.base_epoch t.max_epoch t.blocks index _ h.between (λ ne.
                AllBetween-get_elem? t.base_epoch t.max_epoch t.blocks index h.between ne
                  (index_at-eq-done t.blocks index at_index));
            ordered = h.ordered;
          };
          later = λ small h.
              Later-set t.blocks index block _ (index_at-eq-done t.blocks index at_index)
                (λ ne. omega arith);
        }))

  pub push_data-Advances :
      (t : Texture B) (start : Option ℕ) (block_count : ℕ) (stamp : FrameStamp)
      → Ensures (λ r. Advances t r.0) (push_data t start block_count stamp)
  unfolding push_data
  push_data-Advances t start block_count stamp =
      Ensures-bind _ (get_actual_block_count_and_free_list block_count) _ (λ size is_size.
        Ensures->>= (Advances t) (λ r. Advances t r.0) (ensure_row t size stamp.id) _
          (ensure_row-Advances t size stamp.id)
          (λ t' a.
            Ensures-mono _ _ (take_block t' start block_count size stamp) (λ r. Advances-trans a)
              (take_block-Advances t' start block_count size stamp)))

  free_block-Advances :
      (t : Texture B) (index : ℕ) (block : Block)
      → get_elem? t.blocks index ≡ some block
      → Ensures (Advances t) (free_block t index block)
  unfolding free_block
  free_block-Advances t index block at_index =
      Ensures-bind _ (index_at t.rows block.address.v) _ (λ row e.
        Ensures-bind _ (get_actual_block_count_and_free_list row.block_count_per_item) _ (λ size e'.
          record {
            base = refl;
            grows = ground (arith);
            keeps = λ small h. record {
              between =
                  AllBetween-set t.base_epoch _ t.blocks index _
                    (AllBetween-mono t.base_epoch t.max_epoch _ t.blocks ground (arith) h.between)
                    (λ ne.
                      let old =
                        AllBetween-get_elem? t.base_epoch t.max_epoch t.blocks index h.between ne
                          at_index in
                      (ground (arith, old, small), ground (arith, old, small)));
              ordered = ground (arith, h.ordered);
            };
            later = λ small h. Later-set t.blocks index block _ at_index (λ ne.
                let old =
                  AllBetween-get_elem? t.base_epoch t.max_epoch t.blocks index h.between ne
                    at_index in
                ground (arith, old, small));
          }))

  unlink-Advances :
      (t : Texture B) (document : DocumentId) (prev next : Option ℕ)
      → Ensures (Advances t) (unlink t document prev next)
  unfolding unlink
  unlink-Advances t document none next = record {
    base = refl;
    grows = omega arith;
    keeps = λ small h. record { between = h.between; ordered = h.ordered };
    later = λ small h. Later_refl t.blocks;
  }
  unlink-Advances t document (some prev) next =
      Ensures-bind _ (index_at t.blocks prev) _ (λ block at_prev. record {
        base = refl;
        grows = omega arith;
        keeps = λ small h. record {
          between = AllBetween-set t.base_epoch t.max_epoch t.blocks prev _ h.between (λ ne.
              AllBetween-get_elem? t.base_epoch t.max_epoch t.blocks prev h.between ne
                (index_at-eq-done t.blocks prev at_prev));
          ordered = h.ordered;
        };
        later = λ small h.
            Later-set t.blocks prev block _ (index_at-eq-done t.blocks prev at_prev)
              (λ ne. omega arith);
      })

  evict_step-Advances :
      (t : Texture B) (stamp : FrameStamp) (prev : Option ℕ) (index : ℕ)
      → Ensures (λ r. Advances t r.0) (evict_step t stamp prev index)
  unfolding evict_step evict_block
  evict_step-Advances t stamp prev index =
      Ensures-bind _ (index_at t.blocks index) _ (λ block at_index.
        elim (is_old stamp.id block)
          as (λ b.
            Ensures (λ r. Advances t r.0)
              (if b
                then evict_block t stamp prev index block
                else done (t, some index, block.next))) [
                  | false ↦ Advances-refl t
                  | true ↦
                      Ensures->>= (Advances t) (λ r. Advances t r.0) (free_block t index block) _
                        (free_block-Advances t index block
                          (index_at-eq-done t.blocks index at_index))
                        (λ t' a.
                          Ensures->>= (Advances t) (λ r. Advances t r.0)
                            (unlink t' stamp.document_id prev block.next) _
                            (Ensures-mono _ _ (unlink t' stamp.document_id prev block.next)
                              (λ r. Advances-trans a)
                              (unlink-Advances t' stamp.document_id prev block.next))
                            (λ t'' a'. a'))
                ])

  evict_loop-Advances :
      (fuel : ℕ) (t : Texture B) (stamp : FrameStamp) (prev current : Option ℕ)
      → Ensures (Advances t) (evict_loop fuel t stamp prev current)
  unfolding evict_loop
  evict_loop-Advances fuel t stamp prev none = Advances-refl t
  evict_loop-Advances zero t stamp prev (some index) = tt
  evict_loop-Advances (suc fuel) t stamp prev (some index) =
      Ensures->>= (λ r. Advances t r.0) (Advances t) (evict_step t stamp prev index) _
        (evict_step-Advances t stamp prev index)
        (λ r a.
          Ensures-mono _ _ (evict_loop fuel r.0 stamp r.1 r.2) (λ r'. Advances-trans a)
            (evict_loop-Advances fuel r.0 stamp r.1 r.2))

  pub evict_old_blocks-Advances :
      (t : Texture B) (stamp : FrameStamp) → Ensures (Advances t) (evict_old_blocks t stamp)
  unfolding evict_old_blocks
  evict_old_blocks-Advances t stamp =
      evict_loop-Advances (length t.blocks) t stamp none (t.occupied_list_heads stamp.document_id)
