-- ===== src/GpuCache/Requests.antt =====
-- The requests of a GPU cache (webrender/src/gpu_cache.rs): the block is there, or new ones are, and the invariant
-- of the texture is kept.
use webrender.Prelude.{
  ℕ, ◌+◌, ◌%◌, ◌-◌, ◌≤◌, ◌<◌, ◌≢◌, ◌≡◌, refl, sym, ◌∙◌, subst, ap, ◌⊎◌, List, [], ◌∷◌, Option, none,
  some, done, length, length-append, set, get_elem?, get_elem?-set_self, lt_of_get_elem?, arith,
  Option-cases, Bool-cases, inl, inr, usize_mod, ◌==◌, done-injective,
}
use webrender.FrameStamp.{FrameStamp}
use webrender.GpuCache.Blocks.{
  Block, CacheLocation, GpuCacheHandle, GpuCacheAddress, u16_mod, max_vertex_texture_width,
}
use webrender.GpuCache.Caches.{
  GpuCache, GpuDataRequest, live_block, request_live, request, push, push_to_cache, drop_request,
  current_used_block_num, get_address,
}
use webrender.GpuCache.Live.{live_block-eq-some, live_block_same_epoch}
use webrender.GpuCache.Steps.{push_all}
use webrender.GpuCache.Whole.{TextureOk, TextureOk-touch, TextureOk-same}
use webrender.GpuCache.Push.{push_to_cache_lem, request_found}
use webrender.GpuCache.Pushed.{TextureOk-FreeHeads, TextureOk-small, push_data-TextureOk}

-- From one to 1024 blocks.
abbrev pub FitsRow : ℕ → Type 0
FitsRow n = (1 ≤ n) × (n ≤ max_vertex_texture_width)

-- The handle is not one of block 0, which no allocation gives.
abbrev pub NotFirst : GpuCacheHandle → Type 0
NotFirst h = (l : CacheLocation) → h.location ≡ some l → l.block_index ≢ 0

module _ {B : Type 0} where
  pub push_to_cache-Safe :
      (c : GpuCache B) (start : Option ℕ) (n : ℕ) (stamp : FrameStamp)
      → TextureOk c.texture
      → length c.texture.rows < u16_mod
      → FitsRow n
      → (c' : GpuCache B) × (h : GpuCacheHandle) × (push_to_cache c start n stamp ≡ done (c', h))
        × TextureOk c'.texture
  unfolding push_to_cache
  push_to_cache-Safe c start n stamp ok rows (positive, few) =
      let (t, location, returns, ok') =
        push_data-TextureOk c.texture start n stamp ok positive few rows in
      (record c { texture = t }, record { location = some location }, rw returns refl, ok')

  -- The handle has an address, and a request of it finds the data and changes nothing.
  pub record InCache (c : GpuCache B) (h : GpuCacheHandle) : Type 0 where
    pub address : GpuCacheAddress
    pub has_address : get_address c h ≡ done address
    pub found : request c h ≡ done (c, none)

  -- The cache after the blocks of a request are pushed.
  push_all_lem :
      (c : GpuCache B) (bs : List B)
      → TextureOk c.texture
      → TextureOk (push_all c bs).texture
        × ((push_all c bs).texture.rows ≡ c.texture.rows)
        × (length (push_all c bs).texture.pending_blocks
            ≡ length c.texture.pending_blocks + length bs)
  unfolding push_all push
  push_all_lem c [] ok = (ok, refl, omega arith)
  push_all_lem c (b ∷ bs) ok =
      let (ok', rows, count) =
        push_all_lem (push c b) bs
          (TextureOk-same c.texture (push c b).texture ok refl refl refl refl) in
      (ok', rows, omega (arith, count, length-append c.texture.pending_blocks (b ∷ [])))

  push_now-InCache :
      (c : GpuCache B) (start n : ℕ)
      → TextureOk c.texture
      → length c.texture.rows < u16_mod
      → FitsRow n
      → (c' : GpuCache B) × (h : GpuCacheHandle) × (push_to_cache c (some start) n c.now
          ≡ done (c', h))
        × TextureOk c'.texture
        × InCache c' h
  push_now-InCache c start n ok rows (positive, few) =
      let p =
        push_to_cache_lem c (some start) n positive few (TextureOk-FreeHeads c.texture ok)
          ok.some_blocks (TextureOk-small c.texture ok rows) rows in
      let (c', h, returns, ok') =
        push_to_cache-Safe c (some start) n c.now ok rows (positive, few) in
      let same : (c', h) ≡ (p.after, p.handle) = done-injective (sym returns ∙ p.returns) in
      (
        p.after,
        p.handle,
        p.returns,
        subst (λ q. TextureOk q.0.texture) same ok',
        record { address = p.block.address; has_address = p.address; found = p.found },
      )

  -- What `request` answers if the block of the handle is not there.
  abbrev pub to_fill : GpuCache B → GpuDataRequest
  to_fill c = record {
    frame_stamp = c.now;
    start_index = length c.texture.pending_blocks;
    max_block_count = max_vertex_texture_width;
  }

  push_all-now : (c : GpuCache B) (bs : List B) → (push_all c bs).now ≡ c.now
  unfolding push_all push
  push_all-now c [] = refl
  push_all-now c (b ∷ bs) = push_all-now (push c b) bs

  drop_request-InCache :
      (c : GpuCache B) (blocks : List B)
      → TextureOk c.texture
      → length c.texture.rows < u16_mod
      → FitsRow (length blocks)
      → (c' : GpuCache B) × (h : GpuCacheHandle) × (drop_request (push_all c blocks) (to_fill c)
          ≡ done (c', h))
        × TextureOk c'.texture
        × InCache c' h
  unfolding drop_request current_used_block_num
  drop_request-InCache c blocks ok room (positive, few) =
      let c1 = push_all c blocks in
      let (ok1, rows, count) = push_all_lem c blocks ok in
      let used : (length c1.texture.pending_blocks + usize_mod - length c.texture.pending_blocks)
            % usize_mod
          ≡ length blocks =
        omega (arith, count, few) in
      let (c', h, returns, ok', in_cache) =
        push_now-InCache c1 (length c.texture.pending_blocks) (length blocks) ok1
          (omega (arith, ap (λ l. length l) rows, room)) (positive, few) in
      let start = length c.texture.pending_blocks in
      let in_time =
        subst (λ stamp. push_to_cache c1 (some start) (length blocks) stamp ≡ done (c', h))
          (push_all-now c blocks) returns in
      (c', h, rw used in_time, ok', in_cache)

  request_live-InCache :
      (c : GpuCache B) (h : GpuCacheHandle) (location : CacheLocation) (block : Block)
      → TextureOk c.texture
      → location.block_index ≢ 0
      → get_elem? c.texture.blocks location.block_index ≡ some block
      → block.epoch ≡ location.epoch
      → h.location ≡ some location
      → (c' : GpuCache B) × (request_live c location block ≡ done c')
        × TextureOk c'.texture
        × InCache c' h
  unfolding request_live get_address
  request_live-InCache c h location block ok ne at_index same is_location =
      let has = ok.have_rows location.block_index block ne at_index in
      let (row, at_row, stable) = has in
      let handle : GpuCacheHandle = record { location = some location } in
      let is : handle ≡ h = ap (λ l. record { location = l }) (sym is_location) in
      elim (Bool-cases (block.last_access_time == c.now.id)) [
        | inl e ↦ (
          c,
          rw (at_row, e) refl,
          ok,
          subst (InCache c) is (record {
            address = block.address;
            has_address = rw at_index refl;
            found =
                request_found c location block
                  (live_block_same_epoch c.texture.blocks location block at_index same) has
                  (ground (arith, e));
          }),
        )
        | inr e ↦
            let block' : Block = record block { last_access_time = c.now.id } in
            let c' : GpuCache B = record c {
              texture = record c.texture {
                blocks = set c.texture.blocks location.block_index block';
              };
              saved_block_count = (c.saved_block_count + row.block_count_per_item) % usize_mod;
            } in
            let at' =
              get_elem?-set_self c.texture.blocks location.block_index block'
                (lt_of_get_elem? c.texture.blocks location.block_index at_index) in
            (
              c',
              rw (at_row, e) refl,
              TextureOk-touch c.texture c'.texture location.block_index block block' ok at_index
                  refl refl refl refl refl refl,
              subst (InCache c') is (record {
                address = block.address;
                has_address = rw at' refl;
                found =
                    request_found c' location block'
                      (live_block_same_epoch c'.texture.blocks location block' at' same)
                      (row, at_row, stable) refl;
              }),
            )
      ]

  -- A request finds the block of the handle, or asks for the data, which then goes to new blocks.
  pub request-Asks :
      (c : GpuCache B) (h : GpuCacheHandle) (blocks : List B)
      → TextureOk c.texture
      → length c.texture.rows < u16_mod
      → NotFirst h
      → FitsRow (length blocks)
      → ((c' : GpuCache B) × (request c h ≡ done (c', none)) × TextureOk c'.texture × InCache c' h)
        ⊎ ((request c h ≡ done (c, some (to_fill c)))
            × (c' : GpuCache B) × (h' : GpuCacheHandle) × (drop_request
                  (push_all c blocks)
                  (to_fill c)
                ≡ done (c', h'))
            × TextureOk c'.texture
            × InCache c' h')
  unfolding request
  request-Asks c h blocks ok rows not_first fits =
      elim (Option-cases (live_block c.texture.blocks h.location)) [
        | inl e ↦
            let (c', h', filled, ok', in_cache) = drop_request-InCache c blocks ok rows fits in
            inr (rw (e, request) refl, c', h', filled, ok', in_cache)
        | inr ((location, block), e) ↦
            let (at_index, same, is_location) = live_block-eq-some c.texture.blocks h.location e in
            let (c', returns, ok', in_cache) =
              request_live-InCache c h location block ok (not_first location is_location) at_index
                same is_location in
            inl (c', rw (e, request, returns) refl, ok', in_cache)
      ]
