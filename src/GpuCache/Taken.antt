-- ===== src/GpuCache/Taken.antt =====
-- `take_block` of webrender/src/gpu_cache.rs keeps the invariant of a texture.
use webrender.Prelude.{
  ℕ, ◌+◌, ◌%◌, ◌≡◌, refl, sym, subst, List, ◌∷◌, Option, some, done, true, false, get_elem?, set,
  get_elem?-set_self, get_elem?-set_ne, lt_of_get_elem?, length-set, arith, ◌==◌, All, Distinct,
  usize_mod,
}
use webrender.FrameStamp.{FrameStamp}
use webrender.GpuCache.Blocks.{Block, set_free_list, alloc_cmd}
use webrender.GpuCache.Textures.{Texture, take_block, set_head, copy_update, push_debug}
use webrender.GpuCache.Chains.{Chain, Chain-set}
use webrender.GpuCache.Evict.{InRow, same_document_refl}
use webrender.GpuCache.Owns.{
  ListName, free_of, used_of, same_list, Owns, Owns-first, Moves, Moves-Owns,
}
use webrender.GpuCache.Whole.{TextureOk, heads, InRow-HasRow, HaveRows-set}

module _ {B : Type 0} (t : Texture B) (start : Option ℕ) (n size : ℕ) (stamp : FrameStamp) where
  -- The block that is taken, and the texture after it.
  abbrev pub taken_block : Block → Block
  taken_block b = record b {
    next = t.occupied_list_heads stamp.document_id;
    last_access_time = stamp.id;
  }

  abbrev pub taken : ℕ → Block → Texture B
  taken index b = record t {
    blocks = set t.blocks index (taken_block b);
    free_lists = set_free_list t.free_lists size b.next;
    occupied_list_heads = set_head t.occupied_list_heads stamp.document_id (some index);
    allocated_block_count = (t.allocated_block_count + size) % usize_mod;
    updates = copy_update start n b t.updates;
    debug_commands = push_debug t.debug_flags (alloc_cmd b.address n) t.debug_commands;
  }

  taken_others :
      (index : ℕ) (b : Block) (l : ListName)
      → same_list l (free_of size) ≡ false
      → same_list l (used_of stamp.document_id) ≡ false
      → heads (taken index b) l ≡ heads t l
  taken_others index b (free_of s) e f = rw e refl
  taken_others index b (used_of d) e f = rw f refl

  taken-Moves :
      (o : Owns t.rows t.blocks (heads t)) (index : ℕ) (b : Block) (is : List ℕ)
      → o.items (free_of size) ≡ index ∷ is
      → get_elem? t.blocks index ≡ some b
      → InRow t.rows size b
      → Chain (InRow t.rows size) t.blocks b.next is
      → Moves t.rows t.blocks
          (heads t)
          o
          (free_of size)
          (used_of stamp.document_id)
          index
          is
          (taken index b).blocks
          (heads (taken index b))
  taken-Moves o index b is items at_i room chain =
      let self = same_document_refl stamp.document_id in
      let eq : (size == size) ≡ true = ground arith in
      let owned : All (λ j. o.owner j ≡ free_of size) (index ∷ is) =
        subst (All (λ j. o.owner j ≡ free_of size)) items (o.each (free_of size)).owned in
      let distinct : Distinct (index ∷ is) =
        subst Distinct items (o.each (free_of size)).distinct in
      record {
        apart = refl;
        was = owned.0;
        left = record {
          chain = rw eq (
              Chain-set (InRow t.rows size) t.blocks b.next is index (taken_block b) distinct.0
                chain);
          distinct = distinct.1;
          owned = owned.1;
        };
        gone = distinct.0;
        block = taken_block b;
        at_i =
            get_elem?-set_self t.blocks index (taken_block b) (lt_of_get_elem? t.blocks index at_i);
        room = InRow-HasRow t.rows size (taken_block b) room;
        linked = refl;
        first = rw self refl;
        others = taken_others index b;
        untouched =
            λ j ne other. get_elem?-set_ne t.blocks index j (taken_block b) (λ e. ne (sym e));
      }

  -- The head of the free list of the size is taken.
  pub take_block-TextureOk :
      {index : ℕ}
      → TextureOk t
      → t.free_lists size ≡ some index
      → (b : Block) × (take_block t start n size stamp
          ≡ done (taken index b, record { block_index = index; epoch = b.epoch }))
        × (get_elem? t.blocks index ≡ some b)
        × InRow t.rows size b
        × TextureOk (taken index b)
  unfolding take_block
  take_block-TextureOk {index} ok head =
      let (is, b, items, at_i, room, chain) = Owns-first ok.owns (free_of size) head in
      let m = taken-Moves ok.owns index b is items at_i room chain in
      (
        b,
        rw (head, at_i) refl,
        at_i,
        room,
        record {
          owns = (Moves-Owns ok.owns (free_of size) (used_of stamp.document_id) index is m).0;
          have_rows = HaveRows-set t.rows t.blocks index b (taken_block b) at_i refl ok.have_rows;
          some_blocks = omega (arith, length-set t.blocks index (taken_block b), ok.some_blocks);
          few = omega (arith, length-set t.blocks index (taken_block b), ok.few);
        },
      )
