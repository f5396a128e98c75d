-- ===== src/GpuCache/Steps.antt =====
-- Sequences of calls on a cache of webrender/src/gpu_cache.rs, and what they do to the epochs.
use webrender.Prelude.{
  ℕ, ◌+◌, ◌≡◌, ◌⊎◌, refl, List, [], ◌∷◌, ◌++◌, Option, none, some, true, false, Run, done, ◌>>=◌,
  length, set, get_elem?, ◌==◌, if◌then◌else◌, Ensures, Ensures->>=, Ensures-bind, Ensures-mono,
  arith, index_at, Option-cases, inl, inr, ◌%◌, usize_mod,
}
use webrender.FrameStamp.{FrameStamp}
use webrender.GpuCache.Blocks.{CacheLocation, GpuCacheHandle, Block}
use webrender.GpuCache.Textures.{Texture, push_data, evict_old_blocks}
use webrender.GpuCache.Caches.{
  GpuCache, GpuDataRequest, clear, begin_frame, live_block, invalidate, request_live, request, push,
  push_to_cache, drop_request, push_per_frame_blocks, push_deferred_per_frame_blocks, end_frame,
  extract_updates, set_debug_flags, current_used_block_num,
}
use webrender.GpuCache.Advance.{push_data-Advances, evict_old_blocks-Advances}
use webrender.GpuCache.Live.{live_block-eq-some}
use webrender.GpuCache.Epochs.{
  Advances, Advances-refl, Advances-trans, AllBetween-set, AllBetween-mono, AllBetween,
  AllBetween-get_elem?, Later, Later_refl, Later-set,
}

-- The calls that change a cache. A request goes with the blocks that are pushed if the data is not in the
-- cache.
pub data Op (B : Type 0) : Type 0 where
  begin_op : FrameStamp → Op B
  invalidate_op : GpuCacheHandle → Op B
  request_op : GpuCacheHandle → List B → Op B
  per_frame_op : List B → Op B
  deferred_op : ℕ → Op B
  end_op : ℕ → Op B
  extract_op : Op B
  flags_op : ℕ → Op B
  clear_op : Op B

module _ {B : Type 0} where
  unfoldable pub push_all : GpuCache B → List B → GpuCache B
  push_all c [] = c
  push_all c (b ∷ bs) = push_all (push c b) bs

  -- The request is filled, and dropped.
  abbrev pub fill : GpuCache B → Option GpuDataRequest → List B → Run (GpuCache B)
  fill c none blocks = done c
  fill c (some r) blocks = do (c', _) ← drop_request (push_all c blocks) r; done c'

  abbrev pub step : GpuCache B → Op B → Run (GpuCache B)
  step c (begin_op stamp) = begin_frame c stamp
  step c (invalidate_op h) = done (invalidate c h)
  step c (request_op h blocks) = do (c', r) ← request c h; fill c' r blocks
  step c (per_frame_op blocks) = do (c', _) ← push_per_frame_blocks c blocks; done c'
  step c (deferred_op n) = do (c', _) ← push_deferred_per_frame_blocks c n; done c'
  step c (end_op time) = done (end_frame time c).0
  step c extract_op = done (extract_updates c).0
  step c (flags_op flags) = done (set_debug_flags c flags)
  step c clear_op = clear c

  abbrev pub NotClear : Op B → Type 0
  NotClear (begin_op stamp) = Unit
  NotClear (invalidate_op h) = Unit
  NotClear (request_op h blocks) = Unit
  NotClear (per_frame_op blocks) = Unit
  NotClear (deferred_op n) = Unit
  NotClear (end_op time) = Unit
  NotClear extract_op = Unit
  NotClear (flags_op flags) = Unit
  NotClear clear_op = ⊥

  pub clear-cases : (o : Op B) → (o ≡ clear_op) ⊎ NotClear o
  clear-cases (begin_op stamp) = inr tt
  clear-cases (invalidate_op h) = inr tt
  clear-cases (request_op h blocks) = inr tt
  clear-cases (per_frame_op blocks) = inr tt
  clear-cases (deferred_op n) = inr tt
  clear-cases (end_op time) = inr tt
  clear-cases extract_op = inr tt
  clear-cases (flags_op flags) = inr tt
  clear-cases clear_op = inl refl

  unfoldable pub run : GpuCache B → List (Op B) → Run (GpuCache B)
  run c [] = done c
  run c (o ∷ os) = do c' ← step c o; run c' os

  -- An operation that changes neither epoch of the texture.
  Advances-same :
      (t t' : Texture B)
      → t'.base_epoch ≡ t.base_epoch
      → t'.max_epoch ≡ t.max_epoch
      → (AllBetween t.base_epoch t.max_epoch t.blocks
          → AllBetween t'.base_epoch t'.max_epoch t'.blocks)
      → Later t.blocks t'.blocks
      → Advances t t'
  Advances-same t t' same_base same_max f later = record {
    base = same_base;
    grows = omega (arith, same_max);
    keeps = λ small h. record {
      between = f h.between;
      ordered = omega (arith, h.ordered, same_base, same_max);
    };
    later = λ small h. later;
  }

  push_all-Advances : (c : GpuCache B) (bs : List B) → Advances c.texture (push_all c bs).texture
  unfolding push_all push
  push_all-Advances c [] = Advances-refl c.texture
  push_all-Advances c (b ∷ bs) =
      Advances-trans (Advances-same c.texture (push c b).texture refl refl (λ h. h) (Later_refl _))
        (push_all-Advances (push c b) bs)

  push_to_cache-Advances :
      (c : GpuCache B) (start : Option ℕ) (n : ℕ) (stamp : FrameStamp)
      → Ensures (λ r. Advances c.texture r.0.texture) (push_to_cache c start n stamp)
  unfolding push_to_cache
  push_to_cache-Advances c start n stamp =
      Ensures->>= (λ r. Advances c.texture r.0) (λ r. Advances c.texture r.0.texture)
        (push_data c.texture start n stamp) _ (push_data-Advances c.texture start n stamp)
        (λ r a. a)

  pub invalidate-Advances :
      (c : GpuCache B) (h : GpuCacheHandle) → Advances c.texture (invalidate c h).texture
  unfolding invalidate
  invalidate-Advances c h = elim (Option-cases (live_block c.texture.blocks h.location)) [
    | inl e ↦ rw (e, invalidate) (Advances-refl c.texture)
    | inr ((location, block), e) ↦
        let (at_index, same, is_location) = live_block-eq-some c.texture.blocks h.location e in
        rw (e, invalidate)
          (record {
            base = refl;
            grows = ground arith;
            keeps = λ small epochs. record {
              between =
                  AllBetween-set c.texture.base_epoch _ c.texture.blocks location.block_index _
                    (AllBetween-mono c.texture.base_epoch c.texture.max_epoch _ c.texture.blocks
                      (ground arith) epochs.between)
                    (λ ne.
                      let old =
                        AllBetween-get_elem? c.texture.base_epoch c.texture.max_epoch
                          c.texture.blocks location.block_index epochs.between ne at_index in
                      (ground (arith, old, small), ground (arith, old, small)));
              ordered = ground (arith, epochs.ordered);
            };
            later = λ small epochs.
                Later-set c.texture.blocks location.block_index block _ at_index (λ ne.
                  let old =
                    AllBetween-get_elem? c.texture.base_epoch c.texture.max_epoch c.texture.blocks
                      location.block_index epochs.between ne at_index in
                  ground (arith, old, small));
          })
  ]

  request_live-Advances :
      (c : GpuCache B) (location : CacheLocation) (block : Block)
      → get_elem? c.texture.blocks location.block_index ≡ some block
      → Ensures (λ c'. Advances c.texture c'.texture) (request_live c location block)
  unfolding request_live
  request_live-Advances c location block at_index =
      Ensures-bind _ (index_at c.texture.rows block.address.v) _ (λ row e.
        elim (block.last_access_time == c.now.id)
          as (λ b.
            Advances c.texture
              (if b then c else record c {
                texture = record c.texture {
                  blocks =
                      set c.texture.blocks location.block_index
                        (record block { last_access_time = c.now.id });
                };
                saved_block_count = (c.saved_block_count + row.block_count_per_item) % usize_mod;
              }).texture) [
                | true ↦ Advances-refl c.texture
                | false ↦
                    Advances-same c.texture _ refl refl
                      (λ h.
                        AllBetween-set c.texture.base_epoch c.texture.max_epoch c.texture.blocks
                          location.block_index _ h
                          (λ ne.
                            AllBetween-get_elem? c.texture.base_epoch c.texture.max_epoch
                              c.texture.blocks location.block_index h ne at_index))
                      (Later-set c.texture.blocks location.block_index block _ at_index
                        (λ ne. omega arith))
              ])

  request-Advances :
      (c : GpuCache B) (h : GpuCacheHandle)
      → Ensures (λ r. Advances c.texture r.0.texture) (request c h)
  unfolding request
  request-Advances c h = elim (Option-cases (live_block c.texture.blocks h.location)) [
    | inl e ↦ rw (e, request, Ensures) (Advances-refl c.texture)
    | inr ((location, block), e) ↦
        rw (e, request, Ensures)
          (Ensures->>= (λ c'. Advances c.texture c'.texture) (λ r. Advances c.texture r.0.texture)
            (request_live c location block) _
            (request_live-Advances c location block
              (live_block-eq-some c.texture.blocks h.location e).0)
            (λ c' a. a))
  ]

  fill-Advances :
      (c : GpuCache B) (r : Option GpuDataRequest) (blocks : List B)
      → Ensures (λ c'. Advances c.texture c'.texture) (fill c r blocks)
  unfolding drop_request
  fill-Advances c none blocks = Advances-refl c.texture
  fill-Advances c (some r) blocks =
      let filled = push_all c blocks in
      Ensures->>= (λ q. Advances filled.texture q.0.texture) (λ c'. Advances c.texture c'.texture)
        (push_to_cache filled (some r.start_index) (current_used_block_num filled r) r.frame_stamp)
        _
        (push_to_cache-Advances filled (some r.start_index) (current_used_block_num filled r)
          r.frame_stamp)
        (λ q a. Advances-trans (push_all-Advances c blocks) a)

  -- Every call but `clear`.
  pub step-Advances :
      (c : GpuCache B) (o : Op B)
      → NotClear o
      → Ensures (λ c'. Advances c.texture c'.texture) (step c o)
  unfolding begin_frame push_per_frame_blocks push_deferred_per_frame_blocks end_frame
      extract_updates set_debug_flags
  step-Advances c (begin_op stamp) keeps =
      Ensures->>= (Advances c.texture) (λ c'. Advances c.texture c'.texture)
        (evict_old_blocks c.texture stamp) _ (evict_old_blocks-Advances c.texture stamp) (λ t a. a)
  step-Advances c (invalidate_op h) keeps = invalidate-Advances c h
  step-Advances c (request_op h blocks) keeps =
      Ensures->>= (λ r. Advances c.texture r.0.texture) (λ c'. Advances c.texture c'.texture)
        (request c h) _ (request-Advances c h)
        (λ r a.
          Ensures-mono _ _ (fill r.0 r.1 blocks) (λ c'. Advances-trans a)
            (fill-Advances r.0 r.1 blocks))
  step-Advances c (per_frame_op blocks) keeps =
      let c1 = record c {
        texture = record c.texture { pending_blocks = c.texture.pending_blocks ++ blocks };
      } in
      Ensures->>= (λ r. Advances c.texture r.0.texture) (λ c'. Advances c.texture c'.texture)
        (push_to_cache c1 (some (length c.texture.pending_blocks)) (length blocks) c.now) _
        (Ensures-mono _ _
          (push_to_cache c1 (some (length c.texture.pending_blocks)) (length blocks) c.now)
          (λ r.
            Advances-trans (Advances-same c.texture c1.texture refl refl (λ h. h) (Later_refl _)))
          (push_to_cache-Advances c1 (some (length c.texture.pending_blocks)) (length blocks)
            c.now))
        (λ r a. a)
  step-Advances c (deferred_op n) keeps =
      Ensures->>= (λ r. Advances c.texture r.0.texture) (λ c'. Advances c.texture c'.texture)
        (push_to_cache c none n c.now) _ (push_to_cache-Advances c none n c.now) (λ r a. a)
  step-Advances c (end_op time) keeps = Advances-same c.texture _ refl refl (λ h. h) (Later_refl _)
  step-Advances c extract_op keeps = Advances-same c.texture _ refl refl (λ h. h) (Later_refl _)
  step-Advances c (flags_op flags) keeps =
      Advances-same c.texture _ refl refl (λ h. h) (Later_refl _)
  step-Advances c clear_op keeps = elim keeps [ ]
