-- ===== src/GpuCache/Whole.antt =====
-- The invariant of a texture of webrender/src/gpu_cache.rs: every list runs through blocks that are in it alone,
-- those of a free list in rows of its size, and every block but the first has its row. What keeps it.
use webrender.Prelude.{
  ℕ, zero, suc, ◌+◌, ◌*◌, ◌≤◌, ◌≢◌, ◌≡◌, refl, sym, ◌∙◌, subst, ap, List, [], ◌∷◌, Option, none,
  some, get_elem?, set, get_elem?-set_self, get_elem?-set_ne, lt_of_get_elem?, length, length-set,
  arith, ==-cases, inl, inr,
}
use mathlib.Core.Option.{some-injective}
use webrender.GpuCache.Blocks.{Block, Row, max_vertex_texture_width}
use webrender.GpuCache.Textures.{Texture, new_texture}
use webrender.GpuCache.Chains.{Chain}
use webrender.GpuCache.Evict.{HasRow, InRow}
use webrender.GpuCache.Owns.{ListName, free_of, used_of, Room, Listed, Owns}

pub InRow-HasRow : (rows : List Row) (size : ℕ) (b : Block) → InRow rows size b → HasRow rows b
InRow-HasRow rows size b (row, at_row, count, stable) = (row, at_row, rw count stable)

pub HasRow-address :
    (rows : List Row) (b b' : Block) → b'.address ≡ b.address → HasRow rows b → HasRow rows b'
HasRow-address rows b b' e (row, at_row, stable) =
    (row, ap (λ a. get_elem? rows a.v) e ∙ at_row, stable)

Room-address :
    (rows : List Row) (l : ListName) (b b' : Block)
    → b'.address ≡ b.address
    → Room rows l b
    → Room rows l b'
Room-address rows (free_of s) b b' e (row, at_row, count, stable) =
    (row, ap (λ a. get_elem? rows a.v) e ∙ at_row, count, stable)
Room-address rows (used_of d) b b' e h = HasRow-address rows b b' e h

-- A change of a block that keeps its address and its successor.
Chain-touch :
    (rows : List Row) (l : ListName) (bs : List Block) (k : ℕ) (b b' : Block) (head : Option ℕ)
    (is : List ℕ)
    → get_elem? bs k ≡ some b
    → b'.next ≡ b.next
    → b'.address ≡ b.address
    → Chain (Room rows l) bs head is
    → Chain (Room rows l) (set bs k b') head is
Chain-touch rows l bs k b b' head [] at_k next address c = c
Chain-touch rows l bs k b b' head (i ∷ is) at_k next address (s, e, at_i, room, rest) =
    elim (==-cases k i) [
      | inr ne ↦ (
        s,
        e,
        get_elem?-set_ne bs k i b' ne ∙ at_i,
        room,
        Chain-touch rows l bs k b b' s.next is at_k next address rest,
      )
      | inl same ↦
          let is_b : s ≡ b = some-injective _ _ (sym at_i ∙ ap (get_elem? bs) (sym same) ∙ at_k) in
          (
            b',
            e,
            subst (λ j. get_elem? (set bs k b') j ≡ some b') same
                (get_elem?-set_self bs k b' (lt_of_get_elem? bs k at_k)),
            Room-address rows l b b' address (subst (Room rows l) is_b room),
            subst (λ h. Chain (Room rows l) (set bs k b') h is) (ap (λ s. s.next) is_b ∙ sym next)
                (Chain-touch rows l bs k b b' s.next is at_k next address rest),
          )
    ]

Owns-touch :
    {rows : List Row} {bs : List Block} {head : ListName → Option ℕ} (o : Owns rows bs head) (i : ℕ)
    (b b' : Block)
    → get_elem? bs i ≡ some b
    → b'.next ≡ b.next
    → b'.address ≡ b.address
    → Owns rows (set bs i b') head
Owns-touch {rows} {bs} {head} o i b b' at_i next address = record {
  items = o.items;
  owner = o.owner;
  each = λ l. record {
    chain = Chain-touch rows l bs i b b' (head l) (o.items l) at_i next address (o.each l).chain;
    distinct = (o.each l).distinct;
    owned = (o.each l).owned;
  };
}

pub Owns-same :
    {rows rows' : List Row} {bs bs' : List Block} {head head' : ListName → Option ℕ}
    (o : Owns rows bs head)
    → rows' ≡ rows
    → bs' ≡ bs
    → ((l : ListName) → head' l ≡ head l)
    → (o' : Owns rows' bs' head') × ((l : ListName) → o'.items l ≡ o.items l)
Owns-same {rows} {rows'} {bs} {bs'} {head} {head'} o same_rows same_blocks same = (
  record {
    items = o.items;
    owner = o.owner;
    each = λ l.
        rw (same_rows, same_blocks)
          (subst (λ h. Listed rows bs o.owner l h (o.items l)) (sym (same l)) (o.each l));
  },
  λ l. refl,
)

-- Every block but the first has its row.
abbrev pub HaveRows : List Row → List Block → Type 0
HaveRows rows bs = (j : ℕ) (b : Block) → j ≢ 0 → get_elem? bs j ≡ some b → HasRow rows b

pub HaveRows-set :
    (rows : List Row) (bs : List Block) (i : ℕ) (b b' : Block)
    → get_elem? bs i ≡ some b
    → b'.address ≡ b.address
    → HaveRows rows bs
    → HaveRows rows (set bs i b')
HaveRows-set rows bs i b b' at_i address h j c ne at_j = elim (==-cases i j) [
  | inr other ↦ h j c ne (sym (get_elem?-set_ne bs i j b' other) ∙ at_j)
  | inl same ↦
      let is_c : b' ≡ c = some-injective _ _ (
        sym (get_elem?-set_self bs i b' (lt_of_get_elem? bs i at_i))
        ∙ ap (get_elem? (set bs i b')) same
        ∙ at_j) in
      subst (HasRow rows) is_c
        (HasRow-address rows b b' address (h i b (λ e. ne (sym same ∙ e)) at_i))
]

no_more : (x : Block) (j : ℕ) {b : Block} → j ≢ 0 → get_elem? (x ∷ []) j ≡ some b → ⊥
no_more x zero ne e = ne refl
no_more x (suc j) ne e = cc

abbrev pub heads : {B : Type 0} → Texture B → ListName → Option ℕ
heads t (free_of s) = t.free_lists s
heads t (used_of d) = t.occupied_list_heads d

new_heads :
    (B : Type 0) (base_epoch flags : ℕ) (l : ListName)
    → heads (new_texture {B = B} base_epoch flags) l ≡ none
unfolding new_texture
new_heads B base_epoch flags (free_of s) = refl
new_heads B base_epoch flags (used_of d) = refl

module _ {B : Type 0} where
  heads-same :
      (t t' : Texture B)
      → t'.free_lists ≡ t.free_lists
      → t'.occupied_list_heads ≡ t.occupied_list_heads
      → (l : ListName) → heads t' l ≡ heads t l
  heads-same t t' frees useds (free_of s) = ap (λ f. f s) frees
  heads-same t t' frees useds (used_of d) = ap (λ f. f d) useds

  pub record TextureOk (t : Texture B) : Type 0 where
    pub owns : Owns t.rows t.blocks (heads t)
    pub have_rows : HaveRows t.rows t.blocks
    pub some_blocks : 1 ≤ length t.blocks
    pub few : length t.blocks ≤ 1 + max_vertex_texture_width * length t.rows

  pub new_texture-TextureOk : (base_epoch flags : ℕ) → TextureOk (new_texture base_epoch flags)
  unfolding new_texture
  new_texture-TextureOk base_epoch flags = record {
    owns = record {
      items = λ l. [];
      owner = λ i. free_of 0;
      each = λ l. record { chain = new_heads B base_epoch flags l; distinct = tt; owned = tt };
    };
    have_rows = λ j b ne e. absurd (no_more _ j ne e);
    some_blocks = omega arith;
    few = omega arith;
  }

  -- A change of a block that keeps its address and its successor, and leaves the lists.
  pub TextureOk-touch :
      (t t' : Texture B) (i : ℕ) (b b' : Block)
      → TextureOk t
      → get_elem? t.blocks i ≡ some b
      → b'.next ≡ b.next
      → b'.address ≡ b.address
      → t'.blocks ≡ set t.blocks i b'
      → t'.rows ≡ t.rows
      → t'.free_lists ≡ t.free_lists
      → t'.occupied_list_heads ≡ t.occupied_list_heads
      → TextureOk t'
  TextureOk-touch t t' i b b' ok at_i next address blocks rows frees useds = record {
    owns =
        (Owns-same (Owns-touch ok.owns i b b' at_i next address) rows blocks
          (heads-same t t' frees useds)).0;
    have_rows = rw (rows, blocks) (HaveRows-set t.rows t.blocks i b b' at_i address ok.have_rows);
    some_blocks = rw blocks (omega (arith, length-set t.blocks i b', ok.some_blocks));
    few = rw (rows, blocks) (omega (arith, length-set t.blocks i b', ok.few));
  }

  -- A change of the other fields.
  pub TextureOk-same :
      (t t' : Texture B)
      → TextureOk t
      → t'.blocks ≡ t.blocks
      → t'.rows ≡ t.rows
      → t'.free_lists ≡ t.free_lists
      → t'.occupied_list_heads ≡ t.occupied_list_heads
      → TextureOk t'
  TextureOk-same t t' ok blocks rows frees useds = record {
    owns = (Owns-same ok.owns rows blocks (heads-same t t' frees useds)).0;
    have_rows = rw (rows, blocks) ok.have_rows;
    some_blocks = rw blocks ok.some_blocks;
    few = rw (rows, blocks) ok.few;
  }
