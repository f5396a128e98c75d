-- ===== src/GpuCache/Push.antt =====
-- `push_data` of webrender/src/gpu_cache.rs and its callers: the new handle is valid, and its address is
-- the one that the update for the renderer has.
use webrender.Prelude.{
  ℕ, zero, suc, ◌+◌, ◌/◌, ◌≤◌, ◌<◌, ◌≡◌, refl, sym, ◌∙◌, ap, List, [], ◌∷◌, ◌++◌, Option, none,
  some, true, Run, done, u32_mod, length, get_elem?, get_elem?-set_self, lt_of_get_elem?, arith,
  ◌==◌,
}
use webrender.FrameStamp.{FrameStamp}
use webrender.GpuCache.Blocks.{
  u16_mod, max_vertex_texture_width, Block, copy, CacheLocation, GpuCacheHandle, GpuCacheUpdate,
}
use webrender.GpuCache.Textures.{Texture, take_block, push_data, copy_update}
use webrender.GpuCache.Caches.{
  GpuCache, push_to_cache, request, request_live, live_block, get_address,
}
use webrender.GpuCache.Classes.{actual-eq-done}
use webrender.GpuCache.Evict.{HasRow, same_document_refl}
use webrender.GpuCache.Taken.{taken}
use webrender.GpuCache.Live.{live_block_same_epoch}
use webrender.GpuCache.Rows.{FreeHeads, HasFree, ensure_row-HasFree}

copy_update_block :
    (start : Option ℕ) (n : ℕ) (b b' : Block) (us : List GpuCacheUpdate)
    → b'.address ≡ b.address
    → copy_update start n b us ≡ copy_update start n b' us
copy_update_block none n b b' us same = refl
copy_update_block (some i) n b b' us same = ap (λ a. us ++ copy i n a ∷ []) (sym same)

pub suc_of_positive : (n : ℕ) → 1 ≤ n → (m : ℕ) × (n ≡ suc m)
suc_of_positive zero h = absurd (omega arith)
suc_of_positive (suc m) h = (m, refl)

module _ {B : Type 0} where
  -- What `push_data` gives: the location is that of a block that was accessed in this frame.
  pub record Pushes (t : Texture B) (start : Option ℕ) (n : ℕ) (stamp : FrameStamp)
      (r : Run (Texture B × CacheLocation)) : Type 0 where
    pub after : Texture B
    pub location : CacheLocation
    pub block : Block
    pub returns : r ≡ done (after, location)
    pub at_index : get_elem? after.blocks location.block_index ≡ some block
    pub same_epoch : block.epoch ≡ location.epoch
    pub accessed : block.last_access_time ≡ stamp.id
    pub occupied : after.occupied_list_heads stamp.document_id ≡ some location.block_index
    pub linked : block.next ≡ t.occupied_list_heads stamp.document_id
    pub has_row : HasRow after.rows block
    pub updates : after.updates ≡ copy_update start n block t.updates

  take_block-Pushes :
      (t : Texture B) (start : Option ℕ) (n size : ℕ) (stamp : FrameStamp) (r : Run (Texture B))
      → (free : HasFree t size r)
      → Pushes t start n stamp (take_block free.after start n size stamp)
  unfolding take_block
  take_block-Pushes t start n size stamp r free =
      let block : Block = record free.block {
        next = free.after.occupied_list_heads stamp.document_id;
        last_access_time = stamp.id;
      } in
      record {
        after = taken free.after start n size stamp free.index free.block;
        location = record { block_index = free.index; epoch = free.block.epoch };
        block = block;
        returns = rw (free.head, free.at_index) refl;
        at_index =
            get_elem?-set_self free.after.blocks free.index block
              (lt_of_get_elem? free.after.blocks free.index free.at_index);
        same_epoch = refl;
        accessed = refl;
        occupied = rw (same_document_refl stamp.document_id) refl;
        linked = ap (λ heads. heads stamp.document_id) free.same_heads;
        has_row = free.has_row;
        updates =
            ap (copy_update start n free.block) free.same_updates
            ∙ copy_update_block start n free.block block t.updates refl;
      }

  pub push_data-Pushes :
      (t : Texture B) (start : Option ℕ) (n : ℕ) (stamp : FrameStamp)
      → 1 ≤ n
      → n ≤ max_vertex_texture_width
      → FreeHeads t
      → 1 ≤ length t.blocks
      → length t.blocks + max_vertex_texture_width < u32_mod
      → length t.rows < u16_mod
      → Pushes t start n stamp (push_data t start n stamp)
  unfolding push_data
  push_data-Pushes t start n stamp positive few heads some_blocks small rows =
      let (size, gives, (_, _, _, stable, at_least, _, at_most, _)) =
        actual-eq-done n positive few in
      let (rest, count) = suc_of_positive (max_vertex_texture_width / size) at_least in
      let free =
        ensure_row-HasFree t size stamp.id rest count (omega (arith, count, at_most)) stable heads
          some_blocks small rows in
      let p = take_block-Pushes t start n size stamp _ free in
      record {
        after = p.after;
        location = p.location;
        block = p.block;
        returns = rw (gives, free.returns) p.returns;
        at_index = p.at_index;
        same_epoch = p.same_epoch;
        accessed = p.accessed;
        occupied = p.occupied;
        linked = p.linked;
        has_row = p.has_row;
        updates = p.updates;
      }

  pub request_found :
      (c : GpuCache B) (location : CacheLocation) (block : Block)
      → live_block c.texture.blocks (some location) ≡ some (location, block)
      → HasRow c.texture.rows block
      → block.last_access_time ≡ c.now.id
      → request c (record { location = some location }) ≡ done (c, none)
  unfolding request request_live
  request_found c location block live (row, at_row, stable) accessed =
      let same : (block.last_access_time == c.now.id) ≡ true = ground (arith, accessed) in
      rw (live, request, at_row, same) refl

  -- What an allocation of blocks in the current frame gives: the new handle has an address, the one in
  -- the update for the renderer, and a request of it finds the data there and changes nothing.
  pub record Caches (c : GpuCache B) (start : Option ℕ) (n : ℕ)
      (r : Run (GpuCache B × GpuCacheHandle)) : Type 0 where
    pub after : GpuCache B
    pub handle : GpuCacheHandle
    pub block : Block
    pub returns : r ≡ done (after, handle)
    pub address : get_address after handle ≡ done block.address
    pub found : request after handle ≡ done (after, none)
    pub updates : after.texture.updates ≡ copy_update start n block c.texture.updates

  -- An allocation of 1 to 1024 blocks in the current frame returns; the new handle has an address, the one
  -- in the update for the renderer, and a request of it in the same frame finds the data and changes
  -- nothing. The heads of the free lists are blocks with a row, and indices and row numbers have room for
  -- one more row.
  pub push_to_cache_lem :
      (c : GpuCache B) (start : Option ℕ) (n : ℕ)
      → 1 ≤ n
      → n ≤ max_vertex_texture_width
      → FreeHeads c.texture
      → 1 ≤ length c.texture.blocks
      → length c.texture.blocks + max_vertex_texture_width < u32_mod
      → length c.texture.rows < u16_mod
      → Caches c start n (push_to_cache c start n c.now)
  unfolding push_to_cache get_address
  push_to_cache_lem c start n positive few heads some_blocks small rows =
      let p = push_data-Pushes c.texture start n c.now positive few heads some_blocks small rows in
      let after : GpuCache B = record c { texture = p.after } in
      let live = live_block_same_epoch p.after.blocks p.location p.block p.at_index p.same_epoch in
      record {
        after = after;
        handle = record { location = some p.location };
        block = p.block;
        returns = rw p.returns refl;
        address = rw p.at_index refl;
        found = request_found after p.location p.block live p.has_row p.accessed;
        updates = p.updates;
      }
