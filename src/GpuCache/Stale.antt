-- ===== src/GpuCache/Stale.antt =====
-- Handles of webrender/src/gpu_cache.rs after `GpuCache::clear`: the new texture counts its epochs from
-- beyond those of the old one. And after `invalidate`, which bumps the epoch of the block.
use webrender.Prelude.{
  ◌≤◌, ◌<◌, ◌≢◌, ◌≡◌, ◌⊎◌, refl, [], ◌∷◌, >>=-eq-done, done-injective, List, none, some, Bool, true,
  false, done, panic, length, Ensures_done, get_elem?, get_elem?-set_self, lt_of_get_elem?,
  ==-cases, inl, inr, if◌then◌else◌, subst, arith,
}
use webrender.GpuCache.Blocks.{
  CacheLocation, GpuCacheHandle, Block, epoch_next, max_vertex_texture_width,
}
use webrender.GpuCache.Textures.{new_texture}
use webrender.GpuCache.Caches.{GpuCache, GpuDataRequest, clear, request, invalidate, live_block}
use webrender.GpuCache.Epochs.{Epochs, last_epoch, AllBetween-get_elem?}
use webrender.GpuCache.Live.{live_block_below, live_block_other_epoch, live_block_same_epoch}
use webrender.GpuCache.Steps.{Op, clear-cases, step, run, step-Advances, invalidate-Advances}

-- The value of a guarded call that returns.
guarded-eq-done : {A : Type 0} (b : Bool) (x y : A) → (if b then done x else panic) ≡ done y → x ≡ y
guarded-eq-done true x y h = cc
guarded-eq-done false x y h = cc

module _ {B : Type 0} where
  -- The answer to a request whose data has to be built.
  abbrev pub to_build : GpuCache B → GpuDataRequest
  to_build c = record {
    frame_stamp = c.now;
    start_index = length c.texture.pending_blocks;
    max_block_count = max_vertex_texture_width;
  }

  pub request_stale :
      (c : GpuCache B) (location : CacheLocation)
      → live_block c.texture.blocks (some location) ≡ none
      → request c (record { location = some location }) ≡ done (c, some (to_build c))
  unfolding request
  request_stale c location e = rw (e, request) refl

  cleared-Epochs :
      (c c1 : GpuCache B)
      → clear c ≡ done c1
      → (Epochs c1.texture) × (c1.texture.base_epoch ≡ epoch_next c.texture.max_epoch)
  unfolding clear new_texture
  cleared-Epochs c c1 h =
      subst (λ k. Epochs k.texture × (k.texture.base_epoch ≡ epoch_next c.texture.max_epoch))
        (guarded-eq-done _ _ c1 h) (record { between = tt; ordered = omega arith }, refl)

  -- The epoch of the handle is over: it is below those of the texture, or that of its block.
  abbrev Dead : GpuCache B → CacheLocation → Type 0
  Dead c location =
      Epochs c.texture
      × ((location.epoch < c.texture.base_epoch)
          ⊎ ((b : Block) × (get_elem? c.texture.blocks location.block_index ≡ some b)
              × (location.epoch < b.epoch)))

  -- The maximum epoch is below 2^32 - 1 at the start, after each call and at the end.
  abbrev pub EpochsLast : GpuCache B → List (Op B) → Type 0
  EpochsLast c [] = c.texture.max_epoch < last_epoch
  EpochsLast c (o ∷ os) =
      (c.texture.max_epoch < last_epoch)
      × ((c' : GpuCache B) → step c o ≡ done c' → EpochsLast c' os)

  EpochsLast-first :
      (c : GpuCache B) (os : List (Op B)) → EpochsLast c os → c.texture.max_epoch < last_epoch
  EpochsLast-first c [] last = last
  EpochsLast-first c (o ∷ os) last = last.0

  Dead-old :
      (c : GpuCache B) (location : CacheLocation)
      → location.block_index ≢ 0
      → Dead c location
      → location.epoch ≤ c.texture.max_epoch
  Dead-old c location ne (epochs, inl low) = omega (arith, low, epochs.ordered)
  Dead-old c location ne (epochs, inr (b, at_index, low)) =
      let old =
        AllBetween-get_elem? c.texture.base_epoch c.texture.max_epoch c.texture.blocks
          location.block_index epochs.between ne at_index in
      omega (arith, low, old)

  step-Dead :
      (c c' : GpuCache B) (o : Op B) (location : CacheLocation)
      → location.block_index ≢ 0
      → Dead c location
      → c.texture.max_epoch < last_epoch
      → step c o ≡ done c'
      → c'.texture.max_epoch < last_epoch
      → Dead c' location
  step-Dead c c' o location ne dead small ran small' = elim (clear-cases o) [
    | inl is ↦
        let cleared : clear c ≡ done c' = subst (λ o. step c o ≡ done c') is ran in
        let (epochs, base) = cleared-Epochs c c' cleared in
        (epochs, inl (omega (arith, base, small, Dead-old c location ne dead)))
    | inr keeps ↦
        let a = Ensures_done _ (step c o) (step-Advances c o keeps) ran in
        (
          a.keeps small' dead.0,
          elim dead.1 [
            | inl low ↦ inl (omega (arith, low, a.base))
            | inr (b, at_index, low) ↦
                let (b', at', le) = a.later small' dead.0 location.block_index b ne at_index in
                inr (b', at', omega (arith, low, le))
          ],
        )
  ]

  run-Dead :
      (c c' : GpuCache B) (os : List (Op B)) (location : CacheLocation)
      → location.block_index ≢ 0
      → Dead c location
      → EpochsLast c os
      → run c os ≡ done c'
      → Dead c' location
  unfolding run
  run-Dead c c' [] location ne dead last ran =
      subst (λ k. Dead k location) (done-injective ran) dead
  run-Dead c c' (o ∷ os) location ne dead last ran =
      let (c1, first, rest) = >>=-eq-done (step c o) (λ k. run k os) ran in
      let last1 = last.1 c1 first in
      run-Dead c1 c' os location ne
        (step-Dead c c1 o location ne dead last.0 first (EpochsLast-first c1 os last1)) last1 rest

  Dead-request :
      (c : GpuCache B) (location : CacheLocation)
      → location.block_index ≢ 0
      → Dead c location
      → request c (record { location = some location }) ≡ done (c, some (to_build c))
  Dead-request c location ne (epochs, inl low) = request_stale c location (
      live_block_below c.texture.blocks c.texture.base_epoch c.texture.max_epoch location
        epochs.between ne low)
  Dead-request c location ne (epochs, inr (b, at_index, low)) = request_stale c location (
      live_block_other_epoch c.texture.blocks location b at_index
        (λ same. omega (arith, same, low)))

  -- After a clear no handle from before it is ever taken for a new one: after any calls that change the cache
  -- and return, further clears included, a request of it asks for the data and changes nothing. The handle's block
  -- index is not zero and its epoch at most the maximum at the clear; the maximum epoch is below 2^32 - 1 before
  -- the clear and after each call.
  pub cleared_handle_rebuilds :
      (c c1 c2 : GpuCache B) (location : CacheLocation) (ops : List (Op B))
      → c.texture.max_epoch < last_epoch
      → clear c ≡ done c1
      → run c1 ops ≡ done c2
      → EpochsLast c1 ops
      → location.block_index ≢ 0
      → location.epoch ≤ c.texture.max_epoch
      → request c2 (record { location = some location }) ≡ done (c2, some (to_build c2))
  cleared_handle_rebuilds c c1 c2 location ops small cleared ran last ne old =
      let (epochs, base) = cleared-Epochs c c1 cleared in
      Dead-request c2 location ne
        (run-Dead c1 c2 ops location ne (epochs, inl (omega (arith, base, old, small))) last ran)

  invalidate_bumps :
      (c : GpuCache B) (location : CacheLocation) (block : Block)
      → Epochs c.texture
      → location.block_index ≢ 0
      → get_elem? c.texture.blocks location.block_index ≡ some block
      → location.epoch ≤ block.epoch
      → c.texture.max_epoch < last_epoch
      → (b : Block) × (get_elem?
            (invalidate c (record { location = some location })).texture.blocks
            location.block_index
          ≡ some b)
        × (location.epoch < b.epoch)
  unfolding invalidate
  invalidate_bumps c location block epochs ne at_index le small =
      elim (==-cases block.epoch location.epoch) [
        | inl same ↦ (
          record block { epoch = epoch_next block.epoch },
          rw (live_block_same_epoch c.texture.blocks location block at_index same, invalidate)
              (get_elem?-set_self c.texture.blocks location.block_index
                (record block { epoch = epoch_next block.epoch })
                (lt_of_get_elem? c.texture.blocks location.block_index at_index)),
          omega (
            arith,
            le,
            small,
            AllBetween-get_elem? c.texture.base_epoch c.texture.max_epoch c.texture.blocks
                location.block_index epochs.between ne at_index,
          ),
        )
        | inr other ↦ (
          block,
          rw (live_block_other_epoch c.texture.blocks location block at_index other, invalidate)
              at_index,
          omega (arith, le, other),
        )
      ]

  -- After `invalidate` the handle is never taken for a valid one again: after any calls that change the cache and
  -- return, clears included, a request of it asks for the data and changes nothing. The handle's block index is
  -- not zero, its block is there, with no smaller an epoch than the handle; the block epochs lie between the
  -- base and the maximum epoch, and the maximum is below 2^32 - 1 after the invalidation and after each call.
  pub invalidated_handle_rebuilds :
      (c c2 : GpuCache B) (location : CacheLocation) (block : Block) (ops : List (Op B))
      → Epochs c.texture
      → location.block_index ≢ 0
      → get_elem? c.texture.blocks location.block_index ≡ some block
      → location.epoch ≤ block.epoch
      → run (invalidate c (record { location = some location })) ops ≡ done c2
      → EpochsLast (invalidate c (record { location = some location })) ops
      → request c2 (record { location = some location }) ≡ done (c2, some (to_build c2))
  invalidated_handle_rebuilds c c2 location block ops epochs ne at_index le ran last =
      let h : GpuCacheHandle = record { location = some location } in
      let c1 = invalidate c h in
      let a = invalidate-Advances c h in
      let small1 = EpochsLast-first c1 ops last in
      let (b, at1, low) =
        invalidate_bumps c location block epochs ne at_index le (omega (arith, a.grows, small1)) in
      Dead-request c2 location ne
        (run-Dead c1 c2 ops location ne (a.keeps small1 epochs, inr (b, at1, low)) last ran)
