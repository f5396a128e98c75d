-- ===== src/GpuCache/Calls.antt =====
-- The calls that change a GPU cache of webrender/src/gpu_cache.rs return and keep the invariant of the texture,
-- as long as there is room for one more row and no updates are cleared.
use webrender.Prelude.{
  ◌<◌, ◌≡◌, refl, List, [], true, ◌++◌, none, some, Run, done, length, Option-cases, inl, inr,
}
use webrender.GpuCache.Blocks.{epoch_next, GpuCacheHandle, u16_mod}
use webrender.GpuCache.Textures.{new_texture}
use webrender.GpuCache.Caches.{
  GpuCache, clear, begin_frame, live_block, invalidate, push_per_frame_blocks,
  push_deferred_per_frame_blocks, end_frame, extract_updates, set_debug_flags,
}
use webrender.GpuCache.Live.{live_block-eq-some}
use webrender.GpuCache.Steps.{
  Op, begin_op, invalidate_op, request_op, per_frame_op, deferred_op, end_op, extract_op, flags_op,
  clear_op, NotClear, step,
}
use webrender.GpuCache.Whole.{new_texture-TextureOk, TextureOk, TextureOk-touch, TextureOk-same}
use webrender.GpuCache.Requests.{FitsRow, NotFirst, push_to_cache-Safe, request-Asks}
use webrender.GpuCache.Emptied.{evict_old_blocks-Swept}

module _ {B : Type 0} where
  -- The arguments of a call.
  abbrev pub OpOk : Op B → Type 0
  OpOk (begin_op stamp) = Unit
  OpOk (invalidate_op h) = Unit
  OpOk (request_op h blocks) = NotFirst h × FitsRow (length blocks)
  OpOk (per_frame_op blocks) = FitsRow (length blocks)
  OpOk (deferred_op n) = FitsRow n
  OpOk (end_op time) = Unit
  OpOk extract_op = Unit
  OpOk (flags_op flags) = Unit
  OpOk clear_op = Unit

  -- A cache with updates to send is not cleared.
  abbrev pub CanStep : GpuCache B → Op B → Type 0
  CanStep c (begin_op stamp) = Unit
  CanStep c (invalidate_op h) = Unit
  CanStep c (request_op h blocks) = Unit
  CanStep c (per_frame_op blocks) = Unit
  CanStep c (deferred_op n) = Unit
  CanStep c (end_op time) = Unit
  CanStep c extract_op = Unit
  CanStep c (flags_op flags) = Unit
  CanStep c clear_op = c.texture.updates ≡ []

  pub CanStep-NotClear : (c : GpuCache B) (o : Op B) → NotClear o → CanStep c o
  CanStep-NotClear c (begin_op stamp) keeps = tt
  CanStep-NotClear c (invalidate_op h) keeps = tt
  CanStep-NotClear c (request_op h blocks) keeps = tt
  CanStep-NotClear c (per_frame_op blocks) keeps = tt
  CanStep-NotClear c (deferred_op n) keeps = tt
  CanStep-NotClear c (end_op time) keeps = tt
  CanStep-NotClear c extract_op keeps = tt
  CanStep-NotClear c (flags_op flags) keeps = tt
  CanStep-NotClear c clear_op keeps = elim keeps [ ]

  -- The call returns a cache whose texture keeps the invariant.
  abbrev pub Safe : Run (GpuCache B) → Type 0
  Safe r = (c' : GpuCache B) × (r ≡ done c') × TextureOk c'.texture

  request-Safe :
      (c : GpuCache B) (h : GpuCacheHandle) (blocks : List B)
      → TextureOk c.texture
      → length c.texture.rows < u16_mod
      → NotFirst h
      → FitsRow (length blocks)
      → Safe (step c (request_op h blocks))
  request-Safe c h blocks ok rows not_first fits =
      elim (request-Asks c h blocks ok rows not_first fits) [
        | inl (c', found, ok', in_cache) ↦ (c', rw found refl, ok')
        | inr (asked, c', h', filled, ok', in_cache) ↦ (c', rw (asked, filled) refl, ok')
      ]

  pub invalidate-rows :
      (c : GpuCache B) (h : GpuCacheHandle) → (invalidate c h).texture.rows ≡ c.texture.rows
  unfolding invalidate
  invalidate-rows c h = elim (Option-cases (live_block c.texture.blocks h.location)) [
    | inl e ↦ rw (e, invalidate) refl
    | inr ((location, block), e) ↦ rw (e, invalidate) refl
  ]

  pub invalidate-Safe :
      (c : GpuCache B) (h : GpuCacheHandle)
      → TextureOk c.texture
      → TextureOk (invalidate c h).texture
  unfolding invalidate
  invalidate-Safe c h ok = elim (Option-cases (live_block c.texture.blocks h.location)) [
    | inl e ↦ rw (e, invalidate) ok
    | inr ((location, block), e) ↦
        let (at_index, same, is_location) = live_block-eq-some c.texture.blocks h.location e in
        rw (e, invalidate)
          (TextureOk-touch c.texture _ location.block_index block _ ok at_index refl refl refl refl
            refl refl)
  ]

  -- Every call that changes the cache returns and keeps the invariant of the texture: the lists run through
  -- different blocks, those of a free list in rows of its size, and all blocks but the first have their rows. A
  -- request or an allocation is of 1 to 1024 blocks, a handle is not one of block 0, `clear` is called with no
  -- updates to send, and there are fewer than 2^16 rows.
  pub step-Safe :
      (c : GpuCache B) (o : Op B)
      → TextureOk c.texture
      → OpOk o
      → CanStep c o
      → length c.texture.rows < u16_mod
      → Safe (step c o)
  unfolding clear begin_frame push_per_frame_blocks push_deferred_per_frame_blocks end_frame
      extract_updates set_debug_flags
  step-Safe c (begin_op stamp) ok args can rows =
      let (t, returns, ok', same) = evict_old_blocks-Swept c.texture stamp ok in
      (record c { now = stamp; texture = t; saved_block_count = 0 }, rw returns refl, ok')
  step-Safe c (invalidate_op h) ok args can rows = (invalidate c h, refl, invalidate-Safe c h ok)
  step-Safe c (request_op h blocks) ok (not_first, fits) can rows =
      request-Safe c h blocks ok rows not_first fits
  step-Safe c (per_frame_op blocks) ok fits can rows =
      let c1 : GpuCache B = record c {
        texture = record c.texture { pending_blocks = c.texture.pending_blocks ++ blocks };
      } in
      let (c', h, returns, ok') =
        push_to_cache-Safe c1 (some (length c.texture.pending_blocks)) (length blocks) c.now
          (TextureOk-same c.texture c1.texture ok refl refl refl refl) rows fits in
      (c', rw returns refl, ok')
  step-Safe c (deferred_op n) ok fits can rows =
      let (c', h, returns, ok') = push_to_cache-Safe c none n c.now ok rows fits in
      (c', rw returns refl, ok')
  step-Safe c (end_op time) ok args can rows =
      ((end_frame time c).0, refl, TextureOk-same c.texture _ ok refl refl refl refl)
  step-Safe c extract_op ok args can rows =
      ((extract_updates c).0, refl, TextureOk-same c.texture _ ok refl refl refl refl)
  step-Safe c (flags_op flags) ok args can rows =
      (set_debug_flags c flags, refl, TextureOk-same c.texture _ ok refl refl refl refl)
  step-Safe c clear_op ok args can rows =
      let cleared : GpuCache B = record c {
        texture = new_texture (epoch_next c.texture.max_epoch) c.debug_flags;
        saved_block_count = 0;
        pending_clear = true;
      } in
      (cleared, rw can refl, new_texture-TextureOk (epoch_next c.texture.max_epoch) c.debug_flags)
