-- ===== src/GpuCache/Grown.antt =====
-- A new row of webrender/src/gpu_cache.rs keeps the invariant of a texture.
use webrender.Prelude.{
  ℕ, ◌%◌, ◌≤◌, ◌<◌, ◌≡◌, refl, sym, ◌∙◌, subst, List, [], ◌∷◌, ◌++◌, Option, Run, true, false,
  u32_mod, length, length-append, get_elem?-append_left, lt_of_get_elem?, All, All-map, lt-cases,
  inl, inr, arith, leb, ◌==◌, if◌then◌else◌, Bool-cases,
}
use webrender.Prelude.I32.{add_i32}
use webrender.GpuCache.Blocks.{
  Block, Row, new_rows_per_resize, max_vertex_texture_width, set_free_list,
}
use webrender.GpuCache.Textures.{Texture}
use webrender.GpuCache.Chains.{Chain}
use webrender.GpuCache.Evict.{HasRow, InRow}
use webrender.GpuCache.Owns.{
  ListName, free_of, used_of, same_list, same_list-eq, Room, Listed, Owns, Chain-same,
}
use webrender.GpuCache.Filled.{Fills}
use webrender.GpuCache.Whole.{TextureOk, HaveRows, heads, InRow-HasRow}

pub Chain-lt :
    (P : Block → Type 0) (bs : List Block) (head : Option ℕ) (is : List ℕ)
    → Chain P bs head is
    → All (λ j. j < length bs) is
Chain-lt P bs head [] c = tt
Chain-lt P bs head (i ∷ is) (b, e, at_i, p, rest) =
    (lt_of_get_elem? bs i at_i, Chain-lt P bs b.next is rest)

Chain-mono :
    (P Q : Block → Type 0) (bs : List Block) (head : Option ℕ) (is : List ℕ)
    → ((b : Block) → P b → Q b)
    → Chain P bs head is
    → Chain Q bs head is
Chain-mono P Q bs head [] f c = c
Chain-mono P Q bs head (i ∷ is) f (b, e, at_i, p, rest) =
    (b, e, at_i, f b p, Chain-mono P Q bs b.next is f rest)

-- Rows stay when one more is added.
HasRow-grow : (rows more : List Row) (b : Block) → HasRow rows b → HasRow (rows ++ more) b
HasRow-grow rows more b (row, at_row, stable) = (
  row,
  get_elem?-append_left rows more b.address.v (lt_of_get_elem? rows b.address.v at_row) ∙ at_row,
  stable,
)

Room-grow :
    (rows more : List Row) (l : ListName) (b : Block) → Room rows l b → Room (rows ++ more) l b
Room-grow rows more (free_of s) b (row, at_row, count, stable) = (
  row,
  get_elem?-append_left rows more b.address.v (lt_of_get_elem? rows b.address.v at_row) ∙ at_row,
  count,
  stable,
)
Room-grow rows more (used_of d) b h = HasRow-grow rows more b h

-- From number `n` on the blocks are in the list `l`.
abbrev late_owner : (ℕ → ListName) → ℕ → ListName → ℕ → ListName
late_owner owner n l j = if leb n j then l else owner j

late_owner_late :
    (owner : ℕ → ListName) (n : ℕ) (l : ListName) (is : List ℕ)
    → All (λ j. n ≤ j) is
    → All (λ j. late_owner owner n l j ≡ l) is
late_owner_late owner n l is =
    All-map _ _ is (λ j le. let yes : leb n j ≡ true = ground (arith, le) in rw yes refl)

late_owner_early :
    (owner : ℕ → ListName) (n : ℕ) (l m : ListName) (is : List ℕ)
    → All (λ j. j < n) is
    → All (λ j. owner j ≡ m) is
    → All (λ j. late_owner owner n l j ≡ m) is
late_owner_early owner n l m [] lt h = tt
late_owner_early owner n l m (j ∷ js) lt h =
    let no : leb n j ≡ false = ground (arith, lt.0) in
    (rw no h.0, late_owner_early owner n l m js lt.1 h.1)

module _ {B : Type 0} (t : Texture B) (size frame_id : ℕ) where
  abbrev pub row : Row
  row = record { block_count_per_item = size }

  abbrev pub rows' : List Row
  rows' = t.rows ++ row ∷ []

  abbrev pub grown : List Block → Option ℕ → Texture B
  grown blocks head = record t {
    height =
        if length t.rows % u32_mod == t.height
        then add_i32 t.height new_rows_per_resize
        else t.height;
    rows = rows';
    blocks = blocks;
    free_lists = set_free_list t.free_lists size head;
  }

  grown_other :
      (blocks : List Block) (head : Option ℕ) (l : ListName)
      → same_list l (free_of size) ≡ false
      → heads (grown blocks head) l ≡ heads t l
  grown_other blocks head (free_of s) e = rw e refl
  grown_other blocks head (used_of d) e = refl

  module _ (n : ℕ) (r : Run (List Block × Option ℕ))
      (f : Fills (InRow rows' size) (length t.blocks) t.blocks n r) where
    grown-each :
        (o : Owns t.rows t.blocks (heads t)) (l : ListName)
        → Listed rows' f.blocks
            (late_owner o.owner (length t.blocks) (free_of size))
            l
            (heads (grown f.blocks f.head) l)
            (if same_list l (free_of size) then f.items else o.items l)
    grown-each o l = elim (Bool-cases (same_list l (free_of size))) [
      | inl e ↦
          let self : (size == size) ≡ true = ground arith in
          rw e (
            subst
              (λ l.
                Listed rows' f.blocks (late_owner o.owner (length t.blocks) (free_of size)) l
                  (heads (grown f.blocks f.head) l) f.items)
              (sym (same_list-eq l (free_of size) e))
              (record {
                chain = rw self f.chain;
                distinct = f.distinct;
                owned = late_owner_late o.owner (length t.blocks) (free_of size) f.items f.late;
              }))
      | inr e ↦
          let old = o.each l in
          let early = Chain-lt (Room t.rows l) t.blocks (heads t l) (o.items l) old.chain in
          rw e (record {
            chain =
                subst (λ h. Chain (Room rows' l) f.blocks h (o.items l))
                  (sym (grown_other f.blocks f.head l e))
                  (Chain-same (Room rows' l) t.blocks f.blocks (heads t l) (o.items l)
                    (All-map _ _ (o.items l) f.same early)
                    (Chain-mono (Room t.rows l) (Room rows' l) t.blocks (heads t l) (o.items l)
                      (Room-grow t.rows (row ∷ []) l) old.chain));
            distinct = old.distinct;
            owned =
                late_owner_early o.owner (length t.blocks) (free_of size) l (o.items l) early
                  old.owned;
          })
    ]

    grown-HaveRows : HaveRows t.rows t.blocks → HaveRows rows' f.blocks
    grown-HaveRows h j b ne at_j = elim (lt-cases j (length t.blocks)) [
      | inl lt ↦ HasRow-grow t.rows (row ∷ []) b (h j b ne (sym (f.same j lt) ∙ at_j))
      | inr le ↦ InRow-HasRow rows' size b (f.added j b le at_j)
    ]

    pub grown-TextureOk :
        TextureOk t → n ≤ max_vertex_texture_width → TextureOk (grown f.blocks f.head)
    grown-TextureOk ok few = record {
      owns = record {
        items = λ l. if same_list l (free_of size) then f.items else ok.owns.items l;
        owner = late_owner ok.owns.owner (length t.blocks) (free_of size);
        each = grown-each ok.owns;
      };
      have_rows = grown-HaveRows ok.have_rows;
      some_blocks = omega (arith, f.count, ok.some_blocks);
      few = omega (arith, f.count, ok.few, few, length-append t.rows (row ∷ []));
    }
