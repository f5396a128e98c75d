-- ===== src/GpuCache/Chains.antt =====
-- The lists that are threaded through the blocks of a texture of webrender/src/gpu_cache.rs, and how
-- they change when a block is written or unlinked.
use webrender.Prelude.{
  ℕ, ◌≢◌, ◌≡◌, refl, sym, ◌∙◌, subst, List, [], ◌∷◌, Option, none, some, set, get_elem?,
  get_elem?-set_self, get_elem?-set_ne, lt_of_get_elem?, All, NotIn, Distinct, if◌then◌else◌,
}
use mathlib.Core.Option.{some-injective}
use webrender.GpuCache.Blocks.{Block}
use webrender.GpuCache.Textures.{is_old}

-- The indices `rk`, the last one first, and then `rs`.
abbrev pub rev_append : List ℕ → List ℕ → List ℕ
rev_append [] rs = rs
rev_append (p ∷ rk) rs = rev_append rk (p ∷ rs)

abbrev pub top : List ℕ → Option ℕ
top [] = none
top (p ∷ rk) = some p

-- No index is twice in the two lists.
pub record Apart (rk rs : List ℕ) : Type 0 where
  pub rest : Distinct rs
  pub visited : Distinct rk
  pub between : All (λ q. NotIn q rs) rk

NotIn-of_All : (i : ℕ) (rs rk : List ℕ) → All (λ q. NotIn q (i ∷ rs)) rk → NotIn i rk
NotIn-of_All i rs [] h = tt
NotIn-of_All i rs (q ∷ rk) h = ((λ e. h.0.0 (sym e)), NotIn-of_All i rs rk h.1)

All-rest : (i : ℕ) (rs rk : List ℕ) → All (λ q. NotIn q (i ∷ rs)) rk → All (λ q. NotIn q rs) rk
All-rest i rs [] h = tt
All-rest i rs (q ∷ rk) h = (h.0.1, All-rest i rs rk h.1)

pub Apart-head : {i : ℕ} {rk rs : List ℕ} → Apart rk (i ∷ rs) → NotIn i rk
Apart-head {i} {rk} {rs} a = NotIn-of_All i rs rk a.between

pub Apart-drop : {i : ℕ} {rk rs : List ℕ} → Apart rk (i ∷ rs) → Apart rk rs
Apart-drop {i} {rk} {rs} a = record {
  rest = a.rest.1;
  visited = a.visited;
  between = All-rest i rs rk a.between;
}

pub Apart-visit : {i : ℕ} {rk rs : List ℕ} → Apart rk (i ∷ rs) → Apart (i ∷ rk) rs
Apart-visit {i} {rk} {rs} a = record {
  rest = a.rest.1;
  visited = (Apart-head a, a.visited);
  between = (a.rest.0, All-rest i rs rk a.between);
}

module _ (P : Block → Type 0) where
  -- The list that starts at `head` runs through `is`, and `P` holds of its blocks.
  abbrev pub Chain : List Block → Option ℕ → List ℕ → Type 0
  Chain bs head [] = head ≡ none
  Chain bs head (i ∷ is) =
      (b : Block) × (head ≡ some i) × (get_elem? bs i ≡ some b) × P b × Chain bs b.next is

  pub Chain-set :
      (bs : List Block) (head : Option ℕ) (is : List ℕ) (i : ℕ) (b : Block)
      → NotIn i is
      → Chain bs head is
      → Chain (set bs i b) head is
  Chain-set bs head [] i b fresh c = c
  Chain-set bs head (j ∷ is) i b fresh (s, e, at_j, p, rest) =
      (s, e, get_elem?-set_ne bs i j b fresh.0 ∙ at_j, p, Chain-set bs s.next is i b fresh.1 rest)

  -- A change of the blocks of a list's tail alone.
  pub Chain-tail :
      (bs bs' : List Block) (rk ys zs : List ℕ) (head : Option ℕ)
      → All (λ j. get_elem? bs' j ≡ get_elem? bs j) rk
      → ((h : Option ℕ) → Chain bs h ys → Chain bs' h zs)
      → Chain bs head (rev_append rk ys)
      → Chain bs' head (rev_append rk zs)
  Chain-tail bs bs' [] ys zs head same f c = f head c
  Chain-tail bs bs' (q ∷ rk) ys zs head same f c =
      Chain-tail bs bs' rk (q ∷ ys) (q ∷ zs) head same.1
        (λ h (s, e, at_q, p, rest). (s, e, same.0 ∙ at_q, p, f s.next rest)) c

All-set_ne :
    (bs : List Block) (i : ℕ) (b : Block) (js : List ℕ)
    → NotIn i js
    → All (λ j. get_elem? (set bs i b) j ≡ get_elem? bs j) js
All-set_ne bs i b [] fresh = tt
All-set_ne bs i b (j ∷ js) fresh = (get_elem?-set_ne bs i j b fresh.0, All-set_ne bs i b js fresh.1)

All-set-set_ne :
    (bs : List Block) (i k : ℕ) (b d : Block) (js : List ℕ)
    → NotIn i js
    → NotIn k js
    → All (λ j. get_elem? (set (set bs i b) k d) j ≡ get_elem? bs j) js
All-set-set_ne bs i k b d [] fresh fresh' = tt
All-set-set_ne bs i k b d (j ∷ js) fresh fresh' = (
  get_elem?-set_ne (set bs i b) k j d fresh'.0 ∙ get_elem?-set_ne bs i j b fresh.0,
  All-set-set_ne bs i k b d js fresh.1 fresh'.1,
)

abbrev pub keep_one : ℕ → Option Block → ℕ → List ℕ → List ℕ
keep_one frame_id none i rest = rest
keep_one frame_id (some b) i rest = if is_old frame_id b then rest else i ∷ rest

-- The indices of the blocks that are not old.
unfoldable pub keep : ℕ → List Block → List ℕ → List ℕ
keep frame_id bs [] = []
keep frame_id bs (i ∷ is) = keep_one frame_id (get_elem? bs i) i (keep frame_id bs is)

pub keep-set :
    (frame_id : ℕ) (bs : List Block) (i : ℕ) (b : Block) (is : List ℕ)
    → NotIn i is
    → keep frame_id (set bs i b) is ≡ keep frame_id bs is
unfolding keep
keep-set frame_id bs i b [] fresh = refl
keep-set frame_id bs i b (j ∷ is) fresh =
    rw (get_elem?-set_ne bs i j b fresh.0, keep-set frame_id bs i b is fresh.1) refl

module _ (P : Block → Type 0) where
  -- The block at `i` is written, and its predecessor is made to point past it.
  pub Chain-unlink :
      (bs : List Block) (head : Option ℕ) (rk rs : List ℕ) (i p : ℕ) (b d b' : Block)
      → Apart (p ∷ rk) (i ∷ rs)
      → get_elem? bs i ≡ some b
      → get_elem? bs p ≡ some d
      → ((s : Block) (n : Option ℕ) → P s → P (record s { next = n }))
      → Chain P bs head (rev_append (p ∷ rk) (i ∷ rs))
      → Chain P (set (set bs i b') p (record d { next = b.next })) head (rev_append (p ∷ rk) rs)
  Chain-unlink bs head rk rs i p b d b' apart at_i at_p stable c =
      let ne : i ≢ p = λ e. apart.between.0.0 (sym e) in
      Chain-tail P bs (set (set bs i b') p (record d { next = b.next })) rk (p ∷ i ∷ rs) (p ∷ rs)
        head
        (All-set-set_ne bs i p b' (record d { next = b.next }) rk
          (NotIn-of_All i rs rk apart.between.1) apart.visited.0)
        (λ h (s, e, at_p', q, (s', e', at_i', q', rest)). (
          record d { next = b.next },
          e,
          get_elem?-set_self (set bs i b') p _
              (lt_of_get_elem? (set bs i b') p (get_elem?-set_ne bs i p b' ne ∙ at_p)),
          stable d b.next (subst P (some-injective _ _ (sym at_p' ∙ at_p)) q),
          Chain-set P (set bs i b') b.next rs p _ apart.between.0.1 (
              Chain-set P bs b.next rs i b' apart.rest.0
                (subst (λ k. Chain P bs k.next rs) (some-injective _ _ (sym at_i' ∙ at_i)) rest)),
        ))
        c
