-- ===== src/GpuCache/Emptied.antt =====
-- The loop of `evict_old_blocks` of webrender/src/gpu_cache.rs keeps the invariant of a texture.
use webrender.Prelude.{
  ℕ, zero, suc, ◌≤◌, ◌≡◌, refl, sym, ◌∙◌, subst, ap, List, [], ◌∷◌, Option, Run, done, ◌>>=◌,
  length, arith, Bool-cases, inl, inr,
}
use webrender.FrameStamp.{FrameStamp}
use webrender.GpuCache.Textures.{Texture, is_old, evict_loop, evict_old_blocks}
use webrender.GpuCache.Chains.{Chain, rev_append, top, Apart, Apart-drop, Apart-visit}
use webrender.GpuCache.Evict.{HasRow}
use webrender.GpuCache.Eviction.{evict_block-Evicts, step_young, step_old}
use webrender.GpuCache.Owns.{used_of}
use webrender.GpuCache.Whole.{TextureOk}
use webrender.GpuCache.Grown.{Chain-lt}
use webrender.GpuCache.Fuel.{Distinct-length}
use webrender.GpuCache.Swept.{evicted-TextureOk}

module _ {B : Type 0} where
  -- The texture that a run of the loop gives, with as many rows as before.
  abbrev pub Swept : Texture B → Run (Texture B) → Type 0
  Swept t r = (t' : Texture B) × (r ≡ done t') × TextureOk t' × (t'.rows ≡ t.rows)

  evict_loop-Swept :
      (fuel : ℕ) (t : Texture B) (stamp : FrameStamp) (rk rs : List ℕ) (current : Option ℕ)
      (ok : TextureOk t)
      → ok.owns.items (used_of stamp.document_id) ≡ rev_append rk rs
      → Chain (HasRow t.rows) t.blocks current rs
      → Apart rk rs
      → length rs ≤ fuel
      → Swept t (evict_loop fuel t stamp (top rk) current)
  unfolding evict_loop
  evict_loop-Swept fuel t stamp rk [] current ok items rest apart enough =
      subst (λ c. Swept t (evict_loop fuel t stamp (top rk) c)) (sym rest) (t, refl, ok, refl)
  evict_loop-Swept zero t stamp rk (i ∷ rs) current ok items rest apart enough =
      absurd (omega arith)
  evict_loop-Swept (suc n) t stamp rk (i ∷ rs) current ok items (b, e, at_i, p, rest) apart enough =
      let all : Chain (HasRow t.rows) t.blocks (t.occupied_list_heads stamp.document_id)
          (rev_append rk (i ∷ rs)) =
        subst (Chain (HasRow t.rows) t.blocks (t.occupied_list_heads stamp.document_id)) items
          (ok.owns.each (used_of stamp.document_id)).chain in
      subst (λ c. Swept t (evict_loop (suc n) t stamp (top rk) c)) (sym e)
        (elim (Bool-cases (is_old stamp.id b)) [
          | inl old ↦
              let first = evict_block-Evicts t stamp rk rs i b p all rest at_i apart in
              let (ok', items') = evicted-TextureOk t stamp rk rs i b first ok items apart in
              let (t', returns, ok'', rows) =
                evict_loop-Swept n first.after stamp rk rs b.next ok' items'
                  (rw first.rows first.rest) (Apart-drop apart) (omega (arith, enough)) in
              (
                t',
                ap (λ m. m >>= (λ (t', prev, next). evict_loop n t' stamp prev next))
                      (step_old t stamp (top rk) i b at_i old ∙ first.returns)
                    ∙ returns,
                ok'',
                rows ∙ first.rows,
              )
          | inr young ↦
              let (t', returns, ok', rows) =
                evict_loop-Swept n t stamp (i ∷ rk) rs b.next ok items rest (Apart-visit apart)
                  (omega (arith, enough)) in
              (
                t',
                ap (λ m. m >>= (λ (t', prev, next). evict_loop n t' stamp prev next))
                      (step_young t stamp (top rk) i b at_i young)
                    ∙ returns,
                ok',
                rows,
              )
        ])

  -- The eviction returns and keeps the invariant.
  pub evict_old_blocks-Swept :
      (t : Texture B) (stamp : FrameStamp) → TextureOk t → Swept t (evict_old_blocks t stamp)
  unfolding evict_old_blocks
  evict_old_blocks-Swept t stamp ok =
      let mine = ok.owns.each (used_of stamp.document_id) in
      let is = ok.owns.items (used_of stamp.document_id) in
      let inside =
        Chain-lt (HasRow t.rows) t.blocks (t.occupied_list_heads stamp.document_id) is mine.chain in
      evict_loop-Swept (length t.blocks) t stamp [] is (t.occupied_list_heads stamp.document_id) ok
        refl mine.chain (record { rest = mine.distinct; visited = tt; between = tt })
        (Distinct-length (length t.blocks) is mine.distinct inside)
