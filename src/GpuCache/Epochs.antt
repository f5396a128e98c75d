-- ===== src/GpuCache/Epochs.antt =====
-- The epochs of the blocks of a texture of webrender/src/gpu_cache.rs lie between the texture's base and
-- maximum epoch, the dummy block at index zero excepted. `Advances` is what an operation does to them,
-- while the maximum is below the last 32-bit number.
use webrender.Prelude.{
  ℕ, zero, suc, ◌-◌, ◌≤◌, ◌<◌, ◌≢◌, ◌≡◌, refl, ◌∙◌, subst, List, [], ◌∷◌, ◌++◌, some, u32_mod, set,
  get_elem?, get_elem?-set_self, get_elem?-set_ne, lt_of_get_elem?, get_elem?-append_left, All,
  All-set, All-append, All-get_elem?, arith, inl, inr, ==-cases,
}
use webrender.GpuCache.Blocks.{Block}
use webrender.GpuCache.Textures.{Texture}

abbrev pub Between : ℕ → ℕ → Block → Type 0
Between lo hi b = (lo ≤ b.epoch) × (b.epoch ≤ hi)

abbrev pub AllBetween : ℕ → ℕ → List Block → Type 0
AllBetween lo hi [] = Unit
AllBetween lo hi (b ∷ bs) = All (Between lo hi) bs

pub AllBetween-set :
    (lo hi : ℕ) (bs : List Block) (i : ℕ) (b : Block)
    → AllBetween lo hi bs
    → (i ≢ 0 → Between lo hi b)
    → AllBetween lo hi (set bs i b)
AllBetween-set lo hi [] i b h p = h
AllBetween-set lo hi (x ∷ bs) zero b h p = h
AllBetween-set lo hi (x ∷ bs) (suc i) b h p =
    All-set (Between lo hi) bs i b h (p (λ e. omega (arith, e)))

pub AllBetween-get_elem? :
    (lo hi : ℕ) (bs : List Block) (i : ℕ) {b : Block}
    → AllBetween lo hi bs
    → i ≢ 0
    → get_elem? bs i ≡ some b
    → Between lo hi b
AllBetween-get_elem? lo hi [] i h p e = cc
AllBetween-get_elem? lo hi (x ∷ bs) zero h p e = absurd (p refl)
AllBetween-get_elem? lo hi (x ∷ bs) (suc i) h p e = All-get_elem? (Between lo hi) bs i h e

pub AllBetween-append :
    (lo hi : ℕ) (bs : List Block) (b : Block)
    → AllBetween lo hi bs
    → Between lo hi b
    → AllBetween lo hi (bs ++ b ∷ [])
AllBetween-append lo hi [] b h p = tt
AllBetween-append lo hi (x ∷ bs) b h p = All-append (Between lo hi) bs (b ∷ []) h (p, tt)

All-mono :
    (lo hi hi' : ℕ) (bs : List Block) → hi ≤ hi' → All (Between lo hi) bs → All (Between lo hi') bs
All-mono lo hi hi' [] le h = tt
All-mono lo hi hi' (b ∷ bs) le h = ((h.0.0, omega (arith, h.0.1)), All-mono lo hi hi' bs le h.1)

pub AllBetween-mono :
    (lo hi hi' : ℕ) (bs : List Block) → hi ≤ hi' → AllBetween lo hi bs → AllBetween lo hi' bs
AllBetween-mono lo hi hi' [] le h = tt
AllBetween-mono lo hi hi' (b ∷ bs) le h = All-mono lo hi hi' bs le h

abbrev pub last_epoch : ℕ
last_epoch = u32_mod - 1

-- Each block is still there, with no smaller an epoch.
abbrev pub Later : List Block → List Block → Type 0
Later bs bs' =
    (i : ℕ) (b : Block)
    → i ≢ 0
    → get_elem? bs i ≡ some b
    → (b' : Block) × (get_elem? bs' i ≡ some b') × (b.epoch ≤ b'.epoch)

pub Later_refl : (bs : List Block) → Later bs bs
Later_refl bs i b ne e = (b, e, omega arith)

pub Later_trans : (bs1 bs2 bs3 : List Block) → Later bs1 bs2 → Later bs2 bs3 → Later bs1 bs3
Later_trans bs1 bs2 bs3 f g i b ne e =
    let (b2, e2, le2) = f i b ne e in
    let (b3, e3, le3) = g i b2 ne e2 in (b3, e3, omega (arith, le2, le3))

Later-set_self :
    (bs : List Block) (i : ℕ) (old new b : Block)
    → get_elem? bs i ≡ some old
    → old.epoch ≤ new.epoch
    → get_elem? bs i ≡ some b
    → (b' : Block) × (get_elem? (set bs i new) i ≡ some b') × (b.epoch ≤ b'.epoch)
Later-set_self bs i old new b at_i le e =
    (new, get_elem?-set_self bs i new (lt_of_get_elem? bs i at_i), ground (arith, at_i, e, le))

pub Later-set :
    (bs : List Block) (j : ℕ) (old new : Block)
    → get_elem? bs j ≡ some old
    → (j ≢ 0 → old.epoch ≤ new.epoch)
    → Later bs (set bs j new)
Later-set bs j old new at_j le i b ne e = elim (==-cases j i) [
  | inl same ↦
      subst
        (λ k.
          get_elem? bs k ≡ some b
          → k ≢ 0
          → (b' : Block) × (get_elem? (set bs j new) k ≡ some b') × (b.epoch ≤ b'.epoch))
        same (λ e' ne'. Later-set_self bs j old new b at_j (le ne') e') e ne
  | inr other ↦ (b, get_elem?-set_ne bs j i new other ∙ e, omega arith)
]

pub Later-append : (bs bs' : List Block) → Later bs (bs ++ bs')
Later-append bs bs' i b ne e =
    (b, get_elem?-append_left bs bs' i (lt_of_get_elem? bs i e) ∙ e, omega arith)

module _ {B : Type 0} where
  pub record Epochs (t : Texture B) : Type 0 where
    pub between : AllBetween t.base_epoch t.max_epoch t.blocks
    pub ordered : t.base_epoch ≤ t.max_epoch

  -- What each operation does to the epochs.
  pub record Advances (t t' : Texture B) : Type 0 where
    pub base : t'.base_epoch ≡ t.base_epoch
    pub grows : t.max_epoch ≤ t'.max_epoch
    pub keeps : t'.max_epoch < last_epoch → Epochs t → Epochs t'
    pub later : t'.max_epoch < last_epoch → Epochs t → Later t.blocks t'.blocks

  pub Advances-refl : (t : Texture B) → Advances t t
  Advances-refl t = record {
    base = refl;
    grows = omega arith;
    keeps = λ small e. e;
    later = λ small e. Later_refl t.blocks;
  }

  pub Advances-trans : {t1 t2 t3 : Texture B} → Advances t1 t2 → Advances t2 t3 → Advances t1 t3
  Advances-trans a b = record {
    base = b.base ∙ a.base;
    grows = omega (arith, a.grows, b.grows);
    keeps = λ small e. b.keeps small (a.keeps (omega (arith, b.grows)) e);
    later = λ small e.
        Later_trans _ _ _ (a.later (omega (arith, b.grows)) e)
          (b.later small (a.keeps (omega (arith, b.grows)) e));
  }
