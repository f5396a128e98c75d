-- ===== src/GpuCache/Owns.antt =====
-- Which list each block of a texture of webrender/src/gpu_cache.rs is in: the free list of a size, or the list
-- of occupied blocks of a document.
use webrender.Prelude.{
  ℕ, ◌≢◌, ◌≡◌, refl, sym, ◌∙◌, subst, ap, List, [], ◌∷◌, Option, some, Bool, true, false, get_elem?,
  All, All-map, All-both, NotIn, Distinct, arith, ◌==◌, Bool-cases, inl, inr, if◌then◌else◌,
}
use mathlib.Core.Option.{some-injective}
use webrender.FrameStamp.{DocumentId, same_document}
use webrender.GpuCache.Blocks.{Block, Row}
use webrender.GpuCache.Chains.{Chain}
use webrender.GpuCache.Evict.{HasRow, InRow, same_document_refl}

pub data ListName : Type 0 where
  free_of : ℕ → ListName
  used_of : DocumentId → ListName

abbrev pub same_list : ListName → ListName → Bool
same_list (free_of s) (free_of r) = s == r
same_list (free_of s) (used_of d) = false
same_list (used_of d) (free_of s) = false
same_list (used_of d) (used_of e) = same_document d e

pub same_list_refl : (l : ListName) → same_list l l ≡ true
same_list_refl (free_of s) = ground arith
same_list_refl (used_of d) = same_document_refl d

same_document-eq : (d e : DocumentId) → same_document d e ≡ true → d ≡ e
same_document-eq d e h = ground arith

pub same_list-eq : (l m : ListName) → same_list l m ≡ true → l ≡ m
same_list-eq (free_of s) (free_of r) h = ap free_of (ground (arith, h))
same_list-eq (free_of s) (used_of d) h = cc
same_list-eq (used_of d) (free_of s) h = cc
same_list-eq (used_of d) (used_of e) h = ap used_of (same_document-eq d e h)

pub ne_of_other : (l m : ListName) → same_list l m ≡ false → l ≢ m
ne_of_other l m h e =
    let yes : same_list l m ≡ true = ap (same_list l) (sym e) ∙ same_list_refl l in cc

-- What the blocks of a list have: those of a free list are in rows of its size.
abbrev pub Room : List Row → ListName → Block → Type 0
Room rows (free_of s) b = InRow rows s b
Room rows (used_of d) b = HasRow rows b

-- The list `l` has the blocks `items`, each of which is in it alone.
pub record Listed (rows : List Row) (bs : List Block) (owner : ℕ → ListName) (l : ListName)
    (head : Option ℕ) (items : List ℕ) : Type 0 where
  pub chain : Chain (Room rows l) bs head items
  pub distinct : Distinct items
  pub owned : All (λ i. owner i ≡ l) items

pub record Owns (rows : List Row) (bs : List Block) (head : ListName → Option ℕ) : Type 0 where
  pub items : ListName → List ℕ
  pub owner : ℕ → ListName
  pub each : (l : ListName) → Listed rows bs owner l (head l) (items l)

-- The first block of a list.
pub Owns-first :
    {rows : List Row} {bs : List Block} {head : ListName → Option ℕ} (o : Owns rows bs head)
    (l : ListName) {i : ℕ}
    → head l ≡ some i
    → (is : List ℕ) × (b : Block) × (o.items l ≡ i ∷ is)
      × (get_elem? bs i ≡ some b)
      × Room rows l b
      × Chain (Room rows l) bs b.next is
Owns-first {rows} {bs} {head} o l {i} e = list_first (o.items l) (o.each l).chain refl
  where
    list_first :
        (is : List ℕ)
        → Chain (Room rows l) bs (head l) is
        → o.items l ≡ is
        → (rest : List ℕ) × (b : Block) × (o.items l ≡ i ∷ rest)
          × (get_elem? bs i ≡ some b)
          × Room rows l b
          × Chain (Room rows l) bs b.next rest
    list_first [] c same = cc
    list_first (j ∷ js) (b, f, at_j, room, rest) same =
        let is_j : j ≡ i = some-injective _ _ (sym f ∙ e) in
        (
          js,
          b,
          same ∙ ap (λ k. k ∷ js) is_j,
          subst (λ k. get_elem? bs k ≡ some b) is_j at_j,
          room,
          rest,
        )

pub Chain-same :
    (P : Block → Type 0) (bs bs' : List Block) (head : Option ℕ) (is : List ℕ)
    → All (λ j. get_elem? bs' j ≡ get_elem? bs j) is
    → Chain P bs head is
    → Chain P bs' head is
Chain-same P bs bs' head [] same c = c
Chain-same P bs bs' head (i ∷ is) same (b, e, at_i, p, rest) =
    (b, e, same.0 ∙ at_i, p, Chain-same P bs bs' b.next is same.1 rest)

pub NotIn-other :
    (owner : ℕ → ListName) (i : ℕ) (l : ListName) (is : List ℕ)
    → owner i ≢ l
    → All (λ j. owner j ≡ l) is
    → NotIn i is
NotIn-other owner i l is ne = All-map _ _ is (λ j h e. ne (ap owner e ∙ h))

abbrev pub moved_owner : (ℕ → ListName) → ℕ → ListName → ℕ → ListName
moved_owner owner i b j = if j == i then b else owner j

owned-moved :
    (owner : ℕ → ListName) (i : ℕ) (b l : ListName) (is : List ℕ)
    → NotIn i is
    → All (λ j. owner j ≡ l) is
    → All (λ j. moved_owner owner i b j ≡ l) is
owned-moved owner i b l is =
    All-both _ _ _ is (λ j ne h. let other : (j == i) ≡ false = ground (arith, ne) in rw other h)

-- A block `i` moves from the list `a`, which keeps the blocks `rest`, to the front of the list `b`.
pub record Moves (rows : List Row) (bs : List Block) (head : ListName → Option ℕ)
    (o : Owns rows bs head) (a b : ListName) (i : ℕ) (rest : List ℕ) (bs' : List Block)
    (head' : ListName → Option ℕ) : Type 0 where
  pub apart : same_list b a ≡ false
  pub was : o.owner i ≡ a
  pub left : Listed rows bs' o.owner a (head' a) rest
  pub gone : NotIn i rest
  pub block : Block
  pub at_i : get_elem? bs' i ≡ some block
  pub room : Room rows b block
  pub linked : block.next ≡ head b
  pub first : head' b ≡ some i
  pub others : (l : ListName) → same_list l a ≡ false → same_list l b ≡ false → head' l ≡ head l
  pub untouched : (j : ℕ) → j ≢ i → o.owner j ≢ a → get_elem? bs' j ≡ get_elem? bs j

module _ {rows : List Row} {bs bs' : List Block} {head head' : ListName → Option ℕ}
    (o : Owns rows bs head) (a b : ListName) (i : ℕ) (rest : List ℕ)
    (m : Moves rows bs head o a b i rest bs' head') where
  abbrev moved_items : ListName → List ℕ
  moved_items l = if same_list l a then rest else if same_list l b then i ∷ o.items b else o.items l

  untouched_items :
      (l : ListName) (is : List ℕ)
      → l ≢ a
      → All (λ j. o.owner j ≡ l) is
      → All (λ j. get_elem? bs' j ≡ get_elem? bs j) is
  untouched_items l is ne =
      All-map _ _ is
        (λ j h. m.untouched j (λ e. ne (sym h ∙ ap o.owner e ∙ m.was)) (λ e. ne (sym h ∙ e)))

  moved_from : Listed rows bs' (moved_owner o.owner i b) a (head' a) rest
  moved_from = record {
    chain = m.left.chain;
    distinct = m.left.distinct;
    owned = owned-moved o.owner i b a rest m.gone m.left.owned;
  }

  moved_to : Listed rows bs' (moved_owner o.owner i b) b (head' b) (i ∷ o.items b)
  moved_to =
      let ne : b ≢ a = ne_of_other b a m.apart in
      let old = o.each b in
      let out = NotIn-other o.owner i b (o.items b) (λ e. ne (sym e ∙ m.was)) old.owned in
      let self : (i == i) ≡ true = ground arith in
      record {
        chain = (
          m.block,
          m.first,
          m.at_i,
          m.room,
          subst (λ h. Chain (Room rows b) bs' h (o.items b)) (sym m.linked)
              (Chain-same (Room rows b) bs bs' (head b) (o.items b)
                (untouched_items b (o.items b) ne old.owned) old.chain),
        );
        distinct = (out, old.distinct);
        owned = (rw self refl, owned-moved o.owner i b b (o.items b) out old.owned);
      }

  moved_other :
      (l : ListName)
      → same_list l a ≡ false
      → same_list l b ≡ false
      → Listed rows bs' (moved_owner o.owner i b) l (head' l) (o.items l)
  moved_other l not_a not_b =
      let ne : l ≢ a = ne_of_other l a not_a in
      let old = o.each l in
      record {
        chain =
            subst (λ h. Chain (Room rows l) bs' h (o.items l)) (sym (m.others l not_a not_b))
              (Chain-same (Room rows l) bs bs' (head l) (o.items l)
                (untouched_items l (o.items l) ne old.owned) old.chain);
        distinct = old.distinct;
        owned =
            owned-moved o.owner i b l (o.items l)
              (NotIn-other o.owner i l (o.items l) (λ e. ne (sym e ∙ m.was)) old.owned) old.owned;
      }

  -- The lists after the move.
  pub Moves-Owns : (o' : Owns rows bs' head') × (o'.items a ≡ rest)
  Moves-Owns = (
    record {
      items = moved_items;
      owner = moved_owner o.owner i b;
      each = λ l. elim (Bool-cases (same_list l a)) [
        | inl is_a ↦
            let same = same_list-eq l a is_a in
            rw is_a (
              subst (λ l. Listed rows bs' (moved_owner o.owner i b) l (head' l) rest) (sym same)
                moved_from)
        | inr not_a ↦ elim (Bool-cases (same_list l b)) [
          | inl is_b ↦
              let same = same_list-eq l b is_b in
              rw (not_a, is_b)
                (subst (λ l. Listed rows bs' (moved_owner o.owner i b) l (head' l) (i ∷ o.items b))
                  (sym same) moved_to)
          | inr not_b ↦ rw (not_a, not_b) (moved_other l not_a not_b)
        ]
      ];
    },
    let self = same_list_refl a in rw self refl,
  )
