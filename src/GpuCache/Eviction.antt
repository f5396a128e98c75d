-- ===== src/GpuCache/Eviction.antt =====
-- `Texture::evict_old_blocks` of webrender/src/gpu_cache.rs: the loop.
use webrender.Prelude.{
  ℕ, zero, suc, ◌≤◌, ◌≡◌, refl, sym, ◌∙◌, subst, List, [], ◌∷◌, Option, some, true, false, done,
  ◌>>=◌, length, get_elem?, Distinct, arith, inl, inr, Bool-cases,
}
use webrender.FrameStamp.{FrameStamp}
use webrender.GpuCache.Blocks.{Block}
use webrender.GpuCache.Textures.{
  Texture, is_old, evict_block, evict_step, evict_loop, evict_old_blocks,
}
use webrender.GpuCache.Chains.{Chain, rev_append, top, Apart, Apart-drop, Apart-visit}
use webrender.GpuCache.Evict.{HasRow, EvictsBlock, evict_first, evict_later}
use webrender.GpuCache.Evicted.{Evicts, Evicts-nothing, Evicts-kept, Evicts-evicted}

Chain-from :
    (P : Block → Type 0) (bs : List Block) (head : Option ℕ) (rk ys : List ℕ)
    → Chain P bs head (rev_append rk ys)
    → (h : Option ℕ) × Chain P bs h ys
Chain-from P bs head [] ys c = (head, c)
Chain-from P bs head (q ∷ rk) ys c =
    let (h, (b, e, at_q, p, rest)) = Chain-from P bs head rk (q ∷ ys) c in (b.next, rest)

Chain-at :
    (P : Block → Type 0) (bs : List Block) (head : Option ℕ) (rk ys : List ℕ) (p : ℕ)
    → Chain P bs head (rev_append (p ∷ rk) ys)
    → (d : Block) × (get_elem? bs p ≡ some d)
Chain-at P bs head rk ys p c =
    let (h, (b, e, at_p, q, rest)) = Chain-from P bs head rk (p ∷ ys) c in (b, at_p)

module _ {B : Type 0} where
  pub evict_block-Evicts :
      (t : Texture B) (stamp : FrameStamp) (rk rs : List ℕ) (index : ℕ) (block : Block)
      → HasRow t.rows block
      → Chain
          (HasRow t.rows)
          t.blocks
          (t.occupied_list_heads stamp.document_id)
          (rev_append rk (index ∷ rs))
      → Chain (HasRow t.rows) t.blocks block.next rs
      → get_elem? t.blocks index ≡ some block
      → Apart rk (index ∷ rs)
      → EvictsBlock t stamp rk rs index block
  evict_block-Evicts t stamp [] rs index block has_row all chain at_index apart =
      evict_first t stamp rs index block has_row chain at_index apart
  evict_block-Evicts t stamp (p ∷ rk) rs index block has_row all chain at_index apart =
      let (d, at_p) =
        Chain-at (HasRow t.rows) t.blocks (t.occupied_list_heads stamp.document_id) rk (index ∷ rs)
          p all in
      evict_later t stamp p rk rs index block has_row all chain at_index d at_p apart

  pub step_young :
      (t : Texture B) (stamp : FrameStamp) (prev : Option ℕ) (i : ℕ) (b : Block)
      → get_elem? t.blocks i ≡ some b
      → is_old stamp.id b ≡ false
      → evict_step t stamp prev i ≡ done (t, some i, b.next)
  unfolding evict_step
  step_young t stamp prev i b at_i young = rw (at_i, young) refl

  pub step_old :
      (t : Texture B) (stamp : FrameStamp) (prev : Option ℕ) (i : ℕ) (b : Block)
      → get_elem? t.blocks i ≡ some b
      → is_old stamp.id b ≡ true
      → evict_step t stamp prev i ≡ evict_block t stamp prev i b
  unfolding evict_step
  step_old t stamp prev i b at_i old = rw (at_i, old) refl

  -- The loop from any point of the list on.
  evict_loop-Evicts :
      (fuel : ℕ) (t : Texture B) (stamp : FrameStamp) (rk rs : List ℕ) (current : Option ℕ)
      → Chain (HasRow t.rows) t.blocks (t.occupied_list_heads stamp.document_id) (rev_append rk rs)
      → Chain (HasRow t.rows) t.blocks current rs
      → Apart rk rs
      → length rs ≤ fuel
      → Evicts t stamp rk rs (evict_loop fuel t stamp (top rk) current)
  unfolding evict_loop
  evict_loop-Evicts fuel t stamp rk [] current all rest apart enough =
      subst (λ c. Evicts t stamp rk [] (evict_loop fuel t stamp (top rk) c)) (sym rest)
        (Evicts-nothing t stamp rk all)
  evict_loop-Evicts zero t stamp rk (i ∷ rs) current all rest apart enough = absurd (omega arith)
  evict_loop-Evicts (suc n) t stamp rk (i ∷ rs) current all (b, e, at_i, p, rest) apart enough =
      subst (λ c. Evicts t stamp rk (i ∷ rs) (evict_loop (suc n) t stamp (top rk) c)) (sym e)
        (elim (Bool-cases (is_old stamp.id b)) [
          | inl old ↦
              let first = evict_block-Evicts t stamp rk rs i b p all rest at_i apart in
              subst
                (λ m.
                  Evicts t stamp rk (i ∷ rs)
                    (m >>= (λ (t', prev, next). evict_loop n t' stamp prev next)))
                (sym (step_old t stamp (top rk) i b at_i old ∙ first.returns))
                (Evicts-evicted t stamp rk rs i b _ first at_i old apart.rest.0 (
                  evict_loop-Evicts n first.after stamp rk rs b.next (rw first.rows first.linked)
                    (rw first.rows first.rest) (Apart-drop apart) (omega (arith, enough))))
          | inr young ↦
              subst
                (λ m.
                  Evicts t stamp rk (i ∷ rs)
                    (m >>= (λ (t', prev, next). evict_loop n t' stamp prev next)))
                (sym (step_young t stamp (top rk) i b at_i young))
                (Evicts-kept t stamp rk rs i b _ at_i young apart.rest.0 (
                  evict_loop-Evicts n t stamp (i ∷ rk) rs b.next all rest (Apart-visit apart)
                    (omega (arith, enough))))
        ])

  -- The eviction returns, and it unlinks exactly the old blocks of the document: its list has afterwards
  -- the blocks that are not old, in their order, and the epoch of a block of the list is bumped if it is
  -- old and stays if not. No block outside the list and no other document's list is changed. The
  -- document's list runs through different blocks, no more than there are, and each of them has its row.
  pub evict_old_blocks_lem :
      (t : Texture B) (stamp : FrameStamp) (is : List ℕ)
      → Chain (HasRow t.rows) t.blocks (t.occupied_list_heads stamp.document_id) is
      → Distinct is
      → length is ≤ length t.blocks
      → Evicts t stamp [] is (evict_old_blocks t stamp)
  unfolding evict_old_blocks
  evict_old_blocks_lem t stamp is chain distinct few =
      evict_loop-Evicts (length t.blocks) t stamp [] is (t.occupied_list_heads stamp.document_id)
        chain chain (record { rest = distinct; visited = tt; between = tt }) few
