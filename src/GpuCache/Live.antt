-- ===== src/GpuCache/Live.antt =====
-- Which handles of webrender/src/gpu_cache.rs still have their block.
use webrender.Prelude.{
  ℕ, ◌<◌, ◌≢◌, ◌≡◌, inl, inr, List, Option, none, some, get_elem?, arith, Option-cases,
}
use webrender.GpuCache.Blocks.{CacheLocation, Block}
use webrender.GpuCache.Caches.{live_block}
use webrender.GpuCache.Epochs.{AllBetween, AllBetween-get_elem?}

pub live_block-eq-some :
    (blocks : List Block) (o : Option CacheLocation) {location : CacheLocation} {block : Block}
    → live_block blocks o ≡ some (location, block)
    → (get_elem? blocks location.block_index ≡ some block)
      × (block.epoch ≡ location.epoch)
      × (o ≡ some location)
unfolding live_block
live_block-eq-some blocks none h = cc
live_block-eq-some blocks (some l) {location} {block} h =
    elim (Option-cases (get_elem? blocks l.block_index)) [
      | inl e ↦ ground (arith, h, e)
      | inr (b, e) ↦ ground (arith, h, e)
    ]

pub live_block_other_epoch :
    (blocks : List Block) (location : CacheLocation) (block : Block)
    → get_elem? blocks location.block_index ≡ some block
    → block.epoch ≢ location.epoch
    → live_block blocks (some location) ≡ none
unfolding live_block
live_block_other_epoch blocks location block e ne = ground (arith, e, ne)

pub live_block_same_epoch :
    (blocks : List Block) (location : CacheLocation) (block : Block)
    → get_elem? blocks location.block_index ≡ some block
    → block.epoch ≡ location.epoch
    → live_block blocks (some location) ≡ some (location, block)
unfolding live_block
live_block_same_epoch blocks location block e same = ground (arith, e, same)

pub live_block_below :
    (blocks : List Block) (lo hi : ℕ) (location : CacheLocation)
    → AllBetween lo hi blocks
    → location.block_index ≢ 0
    → location.epoch < lo
    → live_block blocks (some location) ≡ none
unfolding live_block
live_block_below blocks lo hi location h ne old =
    elim (Option-cases (get_elem? blocks location.block_index)) [
      | inl e ↦ ground (arith, e)
      | inr (b, e) ↦ live_block_other_epoch blocks location b e (λ same.
          omega (arith, AllBetween-get_elem? lo hi blocks location.block_index h ne e, same, old))
    ]
