-- ===== src/TextureCache/Kinds.antt =====
-- The three walks over the pending allocations of a `TextureUpdateList` (webrender/src/internal_types.rs).
use webrender.Prelude.{
  ℕ, ◌≡◌, ◌≢◌, refl, sym, ap, subst, ◌∙◌, List, [], ◌∷◌, ◌++◌, none, some, ==-cases, inl, inr,
  arith,
}
use webrender.TextureCache.Updates.{
  TextureCacheAllocationKind, TextureCacheAllocation, find_kind, set_kind, remove_kind,
}

abbrev pub Unique : List TextureCacheAllocation → Type 0
Unique [] = Unit
Unique (a ∷ rest) = (find_kind a.id rest ≡ none) × Unique rest

-- The three walks at the head of the list.
pub find_kind-cons :
    (j : ℕ) (a : TextureCacheAllocation) (l : List TextureCacheAllocation)
    → a.id ≡ j
    → find_kind j (a ∷ l) ≡ some a.kind
unfolding find_kind
find_kind-cons j a l e = ground arith

pub find_kind-cons_ne :
    (j : ℕ) (a : TextureCacheAllocation) (l : List TextureCacheAllocation)
    → a.id ≢ j
    → find_kind j (a ∷ l) ≡ find_kind j l
unfolding find_kind
find_kind-cons_ne j a l ne = ground arith

set_kind-cons :
    (id : ℕ) (kind : TextureCacheAllocationKind) (a : TextureCacheAllocation)
    (l : List TextureCacheAllocation)
    → a.id ≡ id
    → set_kind id kind (a ∷ l) ≡ record { id = a.id; kind = kind } ∷ l
unfolding set_kind
set_kind-cons id kind a l e = ground arith

set_kind-cons_ne :
    (id : ℕ) (kind : TextureCacheAllocationKind) (a : TextureCacheAllocation)
    (l : List TextureCacheAllocation)
    → a.id ≢ id
    → set_kind id kind (a ∷ l) ≡ a ∷ set_kind id kind l
unfolding set_kind
set_kind-cons_ne id kind a l ne = ground arith

remove_kind-cons :
    (id : ℕ) (a : TextureCacheAllocation) (l : List TextureCacheAllocation)
    → a.id ≡ id
    → remove_kind id (a ∷ l) ≡ l
unfolding remove_kind
remove_kind-cons id a l e = ground arith

remove_kind-cons_ne :
    (id : ℕ) (a : TextureCacheAllocation) (l : List TextureCacheAllocation)
    → a.id ≢ id
    → remove_kind id (a ∷ l) ≡ a ∷ remove_kind id l
unfolding remove_kind
remove_kind-cons_ne id a l ne = ground arith

-- The look-up after an append, a write and a removal: of the texture in question, and of another.
pub find_kind-append :
    (l : List TextureCacheAllocation) (a : TextureCacheAllocation)
    → find_kind a.id l ≡ none
    → find_kind a.id (l ++ a ∷ []) ≡ some a.kind
find_kind-append [] a h = find_kind-cons a.id a [] refl
find_kind-append (b ∷ l) a h = elim (==-cases b.id a.id) [
  | inl e ↦ let found = find_kind-cons a.id b l e in cc
  | inr ne ↦
      find_kind-cons_ne a.id b (l ++ a ∷ []) ne
      ∙ find_kind-append l a (sym (find_kind-cons_ne a.id b l ne) ∙ h)
]

pub find_kind-append_ne :
    (j : ℕ) (l : List TextureCacheAllocation) (a : TextureCacheAllocation)
    → a.id ≢ j
    → find_kind j (l ++ a ∷ []) ≡ find_kind j l
find_kind-append_ne j [] a ne = find_kind-cons_ne j a [] ne
find_kind-append_ne j (b ∷ l) a ne = elim (==-cases b.id j) [
  | inl e ↦ find_kind-cons j b (l ++ a ∷ []) e ∙ sym (find_kind-cons j b l e)
  | inr other ↦
      find_kind-cons_ne j b (l ++ a ∷ []) other
      ∙ find_kind-append_ne j l a ne
      ∙ sym (find_kind-cons_ne j b l other)
]

-- The look-up depends on the look-up in the tail.
find_kind-congr :
    (j : ℕ) (b : TextureCacheAllocation) (l l' : List TextureCacheAllocation)
    → find_kind j l ≡ find_kind j l'
    → find_kind j (b ∷ l) ≡ find_kind j (b ∷ l')
unfolding find_kind
find_kind-congr j b l l' h = ground (arith, h)

pub find_kind-set :
    (id : ℕ) (kind : TextureCacheAllocationKind) (l : List TextureCacheAllocation)
    {old : TextureCacheAllocationKind}
    → find_kind id l ≡ some old
    → find_kind id (set_kind id kind l) ≡ some kind
unfolding find_kind set_kind
find_kind-set id kind [] h = cc
find_kind-set id kind (b ∷ l) h = elim (==-cases b.id id) [
  | inl e ↦ ap (find_kind id) (set_kind-cons id kind b l e) ∙ find_kind-cons id _ l e
  | inr ne ↦
      ap (find_kind id) (set_kind-cons_ne id kind b l ne)
      ∙ find_kind-cons_ne id b _ ne
      ∙ find_kind-set id kind l (sym (find_kind-cons_ne id b l ne) ∙ h)
]

pub find_kind-set_ne :
    (j id : ℕ) (kind : TextureCacheAllocationKind) (l : List TextureCacheAllocation)
    → id ≢ j
    → find_kind j (set_kind id kind l) ≡ find_kind j l
unfolding find_kind set_kind
find_kind-set_ne j id kind [] ne = refl
find_kind-set_ne j id kind (b ∷ l) ne = elim (==-cases b.id id) [
  | inl e ↦
      ap (find_kind j) (set_kind-cons id kind b l e)
      ∙ find_kind-cons_ne j _ l omega arith
      ∙ sym (find_kind-cons_ne j b l omega arith)
  | inr other ↦
      ap (find_kind j) (set_kind-cons_ne id kind b l other)
      ∙ find_kind-congr j b _ l (find_kind-set_ne j id kind l ne)
]

pub find_kind-remove :
    (id : ℕ) (l : List TextureCacheAllocation) → Unique l → find_kind id (remove_kind id l) ≡ none
unfolding find_kind remove_kind
find_kind-remove id [] u = refl
find_kind-remove id (b ∷ l) u = elim (==-cases b.id id) [
  | inl e ↦ ap (find_kind id) (remove_kind-cons id b l e) ∙ subst (λ j. find_kind j l ≡ none) e u.0
  | inr ne ↦
      ap (find_kind id) (remove_kind-cons_ne id b l ne)
      ∙ find_kind-cons_ne id b _ ne
      ∙ find_kind-remove id l u.1
]

pub find_kind-remove_ne :
    (j id : ℕ) (l : List TextureCacheAllocation)
    → id ≢ j
    → find_kind j (remove_kind id l) ≡ find_kind j l
unfolding find_kind remove_kind
find_kind-remove_ne j id [] ne = refl
find_kind-remove_ne j id (b ∷ l) ne = elim (==-cases b.id id) [
  | inl e ↦ ap (find_kind j) (remove_kind-cons id b l e) ∙ sym (find_kind-cons_ne j b l omega arith)
  | inr other ↦
      ap (find_kind j) (remove_kind-cons_ne id b l other)
      ∙ find_kind-congr j b _ l (find_kind-remove_ne j id l ne)
]

pub Unique-append :
    (l : List TextureCacheAllocation) (a : TextureCacheAllocation)
    → find_kind a.id l ≡ none
    → Unique l
    → Unique (l ++ a ∷ [])
unfolding find_kind
Unique-append [] a fresh u = (refl, tt)
Unique-append (b ∷ l) a fresh u = elim (==-cases b.id a.id) [
  | inl e ↦ let found = find_kind-cons a.id b l e in cc
  | inr ne ↦ (
    find_kind-append_ne b.id l a omega arith ∙ u.0,
    Unique-append l a (sym (find_kind-cons_ne a.id b l ne) ∙ fresh) u.1,
  )
]

pub Unique-set :
    (id : ℕ) (kind : TextureCacheAllocationKind) (l : List TextureCacheAllocation)
    → Unique l
    → Unique (set_kind id kind l)
unfolding set_kind
Unique-set id kind [] u = tt
Unique-set id kind (b ∷ l) u = elim (==-cases b.id id) [
  | inl e ↦ subst Unique (sym (set_kind-cons id kind b l e)) u
  | inr ne ↦
      subst Unique (sym (set_kind-cons_ne id kind b l ne))
        (find_kind-set_ne b.id id kind l omega arith ∙ u.0, Unique-set id kind l u.1)
]

pub Unique-remove :
    (id : ℕ) (l : List TextureCacheAllocation) → Unique l → Unique (remove_kind id l)
unfolding remove_kind
Unique-remove id [] u = tt
Unique-remove id (b ∷ l) u = elim (==-cases b.id id) [
  | inl e ↦ subst Unique (sym (remove_kind-cons id b l e)) u.1
  | inr ne ↦
      subst Unique (sym (remove_kind-cons_ne id b l ne))
        (find_kind-remove_ne b.id id l omega arith ∙ u.0, Unique-remove id l u.1)
]
