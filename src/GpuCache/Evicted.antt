-- ===== src/GpuCache/Evicted.antt =====
-- What `Texture::evict_old_blocks` of webrender/src/gpu_cache.rs leaves, and how a round of its loop adds to
-- what the rest of the loop does.
use webrender.Prelude.{
  ℕ, ◌≢◌, ◌≡◌, refl, sym, ◌∙◌, subst, ap, List, [], ◌∷◌, some, Bool, true, false, Run, done,
  get_elem?, NotIn, arith, if◌then◌else◌, ◌&&◌, ◌||◌, ◌==◌, inl, inr, ==-cases, ◌⊎◌, ltb,
}
use mathlib.Core.Option.{some-injective}
use webrender.FrameStamp.{DocumentId, FrameStamp, same_document, frame_add}
use webrender.GpuCache.Blocks.{Block, epoch_next, frames_before_eviction}
use webrender.GpuCache.Textures.{Texture, is_old}
use webrender.GpuCache.Chains.{Chain, rev_append, keep, keep_one}
use webrender.GpuCache.Evict.{HasRow, EvictsBlock, released}

abbrev pub is_in : ℕ → List ℕ → Bool
is_in j [] = false
is_in j (i ∷ is) = i == j || is_in j is

is_in-NotIn : (j : ℕ) (is : List ℕ) → NotIn j is → is_in j is ≡ false
is_in-NotIn j [] fresh = refl
is_in-NotIn j (i ∷ is) fresh = ground (arith, fresh.0, is_in-NotIn j is fresh.1)

-- The epoch of a block after the eviction of the old blocks among `rs`.
abbrev pub epoch_after : ℕ → List ℕ → ℕ → Block → ℕ
epoch_after frame_id rs j b =
    if is_in j rs && is_old frame_id b then epoch_next b.epoch else b.epoch

keep_young :
    (frame_id : ℕ) (bs : List Block) (i : ℕ) (rs : List ℕ) (b : Block)
    → get_elem? bs i ≡ some b
    → is_old frame_id b ≡ false
    → keep frame_id bs (i ∷ rs) ≡ i ∷ keep frame_id bs rs
unfolding keep
keep_young frame_id bs i rs b at_i young =
    ap (λ o. keep_one frame_id o i (keep frame_id bs rs)) at_i
    ∙ ap (λ t. if t then keep frame_id bs rs else i ∷ keep frame_id bs rs) young

keep_old :
    (frame_id : ℕ) (bs : List Block) (i : ℕ) (rs : List ℕ) (b : Block)
    → get_elem? bs i ≡ some b
    → is_old frame_id b ≡ true
    → keep frame_id bs (i ∷ rs) ≡ keep frame_id bs rs
unfolding keep
keep_old frame_id bs i rs b at_i old =
    ap (λ o. keep_one frame_id o i (keep frame_id bs rs)) at_i
    ∙ ap (λ t. if t then keep frame_id bs rs else i ∷ keep frame_id bs rs) old

-- A list with one more index, which is another one or that of a block that is not old.
epoch_after_more :
    (i j : ℕ) (in_rs old : Bool) (e e' : ℕ)
    → (i ≢ j) ⊎ (old ≡ false)
    → (if in_rs && old then e else e') ≡ (if (i == j || in_rs) && old then e else e')
epoch_after_more i j in_rs old e e' h = ground (arith, h)

epoch_after_first :
    (i j e e' eb ec : ℕ) (in_rs in_rs' old old' : Bool)
    → j ≡ i
    → in_rs ≡ false
    → old' ≡ true
    → eb ≡ ec
    → e ≡ epoch_next eb
    → e' ≡ (if in_rs && old then epoch_next e else e)
    → e' ≡ (if (i == j || in_rs') && old' then epoch_next ec else ec)
epoch_after_first i j e e' eb ec in_rs in_rs' old old' h1 h2 h3 h4 h5 h6 = ground (arith)

epoch_after_other :
    (i j e e' ec : ℕ) (in_rs old old' : Bool)
    → j ≢ i
    → old ≡ old'
    → e ≡ ec
    → e' ≡ (if in_rs && old then epoch_next e else e)
    → e' ≡ (if (i == j || in_rs) && old' then epoch_next ec else ec)
epoch_after_other i j e e' ec in_rs old old' h1 h2 h3 h4 = ground (arith)

young_or_other :
    (frame_id : ℕ) (bs : List Block) (i j : ℕ) (b c : Block)
    → get_elem? bs i ≡ some b
    → is_old frame_id b ≡ false
    → get_elem? bs j ≡ some c
    → (i ≢ j) ⊎ (is_old frame_id c ≡ false)
young_or_other frame_id bs i j b c at_i young at_j = elim (==-cases i j) [
  | inl same ↦ inr (
      subst (λ k. is_old frame_id k ≡ false)
        (some-injective _ _ (sym at_i ∙ ap (get_elem? bs) same ∙ at_j)) young)
  | inr other ↦ inl other
]

module _ {B : Type 0} where
  -- The blocks `rk` are visited and kept, the last one first, and `rs` are left.
  pub record Evicts (t : Texture B) (stamp : FrameStamp) (rk rs : List ℕ) (r : Run (Texture B))
      : Type 0 where
    pub after : Texture B
    pub returns : r ≡ done after
    pub rows : after.rows ≡ t.rows
    pub linked :
        Chain
          (HasRow t.rows)
          after.blocks
          (after.occupied_list_heads stamp.document_id)
          (rev_append rk (keep stamp.id t.blocks rs))
    pub epochs :
        (j : ℕ) (b : Block)
        → get_elem? t.blocks j ≡ some b
        → (b' : Block) × (get_elem? after.blocks j ≡ some b')
          × (b'.epoch ≡ epoch_after stamp.id rs j b)
    pub untouched :
        (j : ℕ) → NotIn j rk → NotIn j rs → get_elem? after.blocks j ≡ get_elem? t.blocks j
    pub other_heads :
        (d : DocumentId)
        → same_document d stamp.document_id ≡ false
        → after.occupied_list_heads d ≡ t.occupied_list_heads d

  pub Evicts-nothing :
      (t : Texture B) (stamp : FrameStamp) (rk : List ℕ)
      → Chain (HasRow t.rows) t.blocks (t.occupied_list_heads stamp.document_id) (rev_append rk [])
      → Evicts t stamp rk [] (done t)
  unfolding keep
  Evicts-nothing t stamp rk all = record {
    after = t;
    returns = refl;
    rows = refl;
    linked = all;
    epochs = λ j b e. (b, e, refl);
    untouched = λ j fresh fresh'. refl;
    other_heads = λ d other. refl;
  }

  pub Evicts-kept :
      (t : Texture B) (stamp : FrameStamp) (rk rs : List ℕ) (i : ℕ) (b : Block)
      (r : Run (Texture B))
      → get_elem? t.blocks i ≡ some b
      → is_old stamp.id b ≡ false
      → NotIn i rs
      → Evicts t stamp (i ∷ rk) rs r
      → Evicts t stamp rk (i ∷ rs) r
  unfolding keep
  Evicts-kept t stamp rk rs i b r at_i young fresh ih = record {
    after = ih.after;
    returns = ih.returns;
    rows = ih.rows;
    linked = rw (keep_young stamp.id t.blocks i rs b at_i young) ih.linked;
    epochs = λ j c e.
        let (c', at_j, same) = ih.epochs j c e in
        (
          c',
          at_j,
          same
              ∙ epoch_after_more i j (is_in j rs) (is_old stamp.id c) (epoch_next c.epoch) c.epoch
                  (young_or_other stamp.id t.blocks i j b c at_i young e),
        );
    untouched = λ j apart_rk apart_rs. ih.untouched j ((λ e. apart_rs.0 e), apart_rk) apart_rs.1;
    other_heads = ih.other_heads;
  }

  evicted_epoch :
      (t : Texture B) (stamp : FrameStamp) (rk rs : List ℕ) (i : ℕ) (b : Block)
      (r : Run (Texture B)) (first : EvictsBlock t stamp rk rs i b)
      → get_elem? t.blocks i ≡ some b
      → is_old stamp.id b ≡ true
      → NotIn i rs
      → (later : Evicts first.after stamp rk rs r) → (j : ℕ) (c : Block)
      → get_elem? t.blocks j ≡ some c
      → (c' : Block) × (get_elem? later.after.blocks j ≡ some c')
        × (c'.epoch ≡ epoch_after stamp.id (i ∷ rs) j c)
  evicted_epoch t stamp rk rs i b r first at_i old fresh later j c e = elim (==-cases j i) [
    | inl same ↦
        let b1 = released t b first.size in
        let eb : b ≡ c = some-injective _ _ (sym at_i ∙ ap (get_elem? t.blocks) (sym same) ∙ e) in
        let (c', at', epoch') = later.epochs i b1 first.freed in
        (
          c',
          ap (get_elem? later.after.blocks) same ∙ at',
          epoch_after_first i j b1.epoch c'.epoch b.epoch c.epoch (is_in i rs) (is_in j rs)
              (is_old stamp.id b1) (is_old stamp.id c) same (is_in-NotIn i rs fresh)
              (ap (is_old stamp.id) (sym eb) ∙ old) (ap (λ k. k.epoch) eb) refl epoch',
        )
    | inr other ↦
        let (c1, at1, epoch1, time1, _) = first.others j c other e in
        let (c', at', epoch') = later.epochs j c1 at1 in
        (
          c',
          at',
          epoch_after_other i j c1.epoch c'.epoch c.epoch (is_in j rs) (is_old stamp.id c1)
              (is_old stamp.id c) other
              (ap (λ k. ltb (frame_add k frames_before_eviction) stamp.id) time1) epoch1 epoch',
        )
  ]

  pub Evicts-evicted :
      (t : Texture B) (stamp : FrameStamp) (rk rs : List ℕ) (i : ℕ) (b : Block)
      (r : Run (Texture B)) (first : EvictsBlock t stamp rk rs i b)
      → get_elem? t.blocks i ≡ some b
      → is_old stamp.id b ≡ true
      → NotIn i rs
      → Evicts first.after stamp rk rs r
      → Evicts t stamp rk (i ∷ rs) r
  Evicts-evicted t stamp rk rs i b r first at_i old fresh later = record {
    after = later.after;
    returns = later.returns;
    rows = later.rows ∙ first.rows;
    linked =
        rw (keep_old stamp.id t.blocks i rs b at_i old, sym first.kept)
          (rw first.rows at later.linked);
    epochs = evicted_epoch t stamp rk rs i b r first at_i old fresh later;
    untouched = λ j apart_rk apart_rs.
        later.untouched j apart_rk apart_rs.1 ∙ first.untouched j apart_rs.0 apart_rk;
    other_heads = λ d other. later.other_heads d other ∙ first.other_heads d other;
  }
