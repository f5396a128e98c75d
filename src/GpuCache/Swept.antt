-- ===== src/GpuCache/Swept.antt =====
-- `evict_old_blocks` of webrender/src/gpu_cache.rs returns and keeps the invariant of a texture.
use webrender.Prelude.{
  ℕ, ◌≢◌, ◌≡◌, refl, sym, ◌∙◌, subst, ap, List, [], ◌∷◌, true, false, get_elem?, get_elem?_of_lt,
  lt_of_get_elem?, All, NotIn, Distinct, arith, ==-cases, ◌==◌, inl, inr,
}
use mathlib.Core.Option.{some-injective}
use webrender.FrameStamp.{FrameStamp}
use webrender.GpuCache.Blocks.{Block}
use webrender.GpuCache.Textures.{Texture}
use webrender.GpuCache.Chains.{rev_append, Apart, Apart-head, Apart-drop}
use webrender.GpuCache.Evict.{HasRow, EvictsBlock, released}
use webrender.GpuCache.Owns.{
  ListName, free_of, used_of, same_list, Owns, NotIn-other, Moves, Moves-Owns,
}
use webrender.GpuCache.Whole.{TextureOk, HaveRows, heads, Owns-same, HasRow-address, InRow-HasRow}

All-rev_append : (P : ℕ → Type 0) (rk rs : List ℕ) → All P rk → All P rs → All P (rev_append rk rs)
All-rev_append P [] rs h k = k
All-rev_append P (p ∷ rk) rs h k = All-rev_append P rk (p ∷ rs) h.1 (h.0, k)

All-of-rev_append :
    (P : ℕ → Type 0) (rk rs : List ℕ) → All P (rev_append rk rs) → All P rk × All P rs
All-of-rev_append P [] rs h = (tt, h)
All-of-rev_append P (p ∷ rk) rs h =
    let (k, l) = All-of-rev_append P rk (p ∷ rs) h in ((l.0, k), l.1)

All-NotIn-cons :
    (p : ℕ) (rs rk : List ℕ)
    → NotIn p rk
    → All (λ q. NotIn q rs) rk
    → All (λ q. NotIn q (p ∷ rs)) rk
All-NotIn-cons p rs [] h k = tt
All-NotIn-cons p rs (q ∷ rk) h k = (((λ e. h.0 (sym e)), k.0), All-NotIn-cons p rs rk h.1 k.1)

Apart-Distinct : (rk rs : List ℕ) → Apart rk rs → Distinct (rev_append rk rs)
Apart-Distinct [] rs a = a.rest
Apart-Distinct (p ∷ rk) rs a = Apart-Distinct rk (p ∷ rs) (record {
  rest = (a.between.0, a.rest);
  visited = a.visited.1;
  between = All-NotIn-cons p rs rk a.visited.0 a.between.1;
})

module _ {B : Type 0} (t : Texture B) (stamp : FrameStamp) (rk rs : List ℕ) (i : ℕ) (b : Block)
    (first : EvictsBlock t stamp rk rs i b) where
  evicted_others :
      (l : ListName)
      → same_list l (used_of stamp.document_id) ≡ false
      → same_list l (free_of first.size) ≡ false
      → heads first.after l ≡ heads t l
  evicted_others (free_of s) e f = ap (λ g. g s) first.free_heads ∙ (rw f refl)
  evicted_others (used_of d) e f = first.other_heads d e

  evicted-Moves :
      (o : Owns t.rows t.blocks (heads t))
      → o.items (used_of stamp.document_id) ≡ rev_append rk (i ∷ rs)
      → Apart rk (i ∷ rs)
      → Moves t.rows t.blocks
          (heads t)
          o
          (used_of stamp.document_id)
          (free_of first.size)
          i
          (rev_append rk rs)
          first.after.blocks
          (heads first.after)
  evicted-Moves o items apart =
      let mine : ListName = used_of stamp.document_id in
      let P : ℕ → Type 0 = λ j. o.owner j ≡ mine in
      let all : All P (rev_append rk (i ∷ rs)) = subst (All P) items (o.each mine).owned in
      let (on_rk, on_rs) = All-of-rev_append P rk (i ∷ rs) all in
      let self : (first.size == first.size) ≡ true = ground arith in
      record {
        apart = refl;
        was = on_rs.0;
        left = record {
          chain = first.linked;
          distinct = Apart-Distinct rk rs (Apart-drop apart);
          owned = All-rev_append P rk rs on_rk on_rs.1;
        };
        gone = All-rev_append (λ j. i ≢ j) rk rs (Apart-head apart) apart.rest.0;
        block = released t b first.size;
        at_i = first.freed;
        room = first.in_row;
        linked = refl;
        first = ap (λ g. g first.size) first.free_heads ∙ (rw self refl);
        others = evicted_others;
        untouched = λ j ne other. first.untouched j ne (NotIn-other o.owner j mine rk other on_rk);
      }

  evicted-HaveRows : HaveRows t.rows t.blocks → HaveRows t.rows first.after.blocks
  evicted-HaveRows h j c ne at_j =
      let (d, was) =
        get_elem?_of_lt t.blocks j
          (omega (arith, lt_of_get_elem? first.after.blocks j at_j, first.count)) in
      elim (==-cases j i) [
        | inl same ↦
            let is_c : released t b first.size ≡ c =
              some-injective _ _
                (sym first.freed ∙ ap (get_elem? first.after.blocks) (sym same) ∙ at_j) in
            subst (HasRow t.rows) is_c
              (InRow-HasRow t.rows first.size (released t b first.size) first.in_row)
        | inr other ↦
            let (e, at', _, _, address) = first.others j d other was in
            let is_c : e ≡ c = some-injective _ _ (sym at' ∙ at_j) in
            subst (HasRow t.rows) is_c (HasRow-address t.rows d e address (h j d ne was))
      ]

  -- A round for an old block.
  pub evicted-TextureOk :
      (ok : TextureOk t)
      → ok.owns.items (used_of stamp.document_id) ≡ rev_append rk (i ∷ rs)
      → Apart rk (i ∷ rs)
      → (ok' : TextureOk first.after) × (ok'.owns.items (used_of stamp.document_id)
          ≡ rev_append rk rs)
  evicted-TextureOk ok items apart =
      let mine : ListName = used_of stamp.document_id in
      let (o, left) =
        Moves-Owns ok.owns mine (free_of first.size) i (rev_append rk rs)
          (evicted-Moves ok.owns items apart) in
      let (o', same) = Owns-same o first.rows refl (λ l. refl) in
      (
        record {
          owns = o';
          have_rows = rw first.rows (evicted-HaveRows ok.have_rows);
          some_blocks = omega (arith, first.count, ok.some_blocks);
          few = rw first.rows (omega (arith, first.count, ok.few));
        },
        same mine ∙ left,
      )
