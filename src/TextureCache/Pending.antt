-- ===== src/TextureCache/Pending.antt =====
-- The pending allocations of a `TextureUpdateList` (webrender/src/internal_types.rs), between the textures
-- of the renderer and those that the texture cache takes for granted.
use webrender.Prelude.{
  ℕ, ◌≤◌, ◌<◌, ◌≡◌, refl, sym, List, [], ◌∷◌, ◌++◌, Option, none, some, Bool, true, false, done,
  All, ==-cases, ◌≢◌, inl, inr, ◌⊎◌, arith, >>=-eq-done, ap, subst, ◌∙◌,
}
use webrender.TextureCache.Updates.{
  TextureCacheAllocInfo, TextureCacheAllocationKind, alloc, realloc, free, TextureCacheAllocation,
  TextureCacheUpdate, TextureUpdateList, find_kind, set_kind, remove_kind, realloc_kind,
  drop_updates, after_free, push_allocation,
}
use webrender.TextureCache.Kinds.{
  Unique, find_kind-append, find_kind-append_ne, find_kind-set, find_kind-set_ne, find_kind-remove,
  find_kind-remove_ne, Unique-append, Unique-set, Unique-remove,
}
use webrender.TextureCache.Uploads.{Textures, set_texture, is_some, apply_kind, apply_allocation}

-- Whether an allocation of this kind is for a texture that exists.
abbrev pub wants : TextureCacheAllocationKind → Bool
wants (alloc info) = false
wants (realloc info) = true
wants free = true

abbrev pub gives : TextureCacheAllocationKind → Option TextureCacheAllocInfo
gives (alloc info) = some info
gives (realloc info) = some info
gives free = none

-- A pending allocation of a texture, between its state in the renderer and its state for the cache.
abbrev pub Match :
    Option TextureCacheAllocationKind
    → Option TextureCacheAllocInfo
    → Option TextureCacheAllocInfo
    → Type 0
Match none a b = a ≡ b
Match (some kind) a b = (is_some a ≡ wants kind) × (b ≡ gives kind)

pub apply_kind-done :
    (kind : TextureCacheAllocationKind) (old : Option TextureCacheAllocInfo)
    → is_some old ≡ wants kind
    → apply_kind kind old ≡ done (gives kind)
unfolding apply_kind
apply_kind-done (alloc info) none h = refl
apply_kind-done (alloc info) (some i) h = cc
apply_kind-done (realloc info) none h = cc
apply_kind-done (realloc info) (some i) h = refl
apply_kind-done free none h = cc
apply_kind-done free (some i) h = refl

apply_kind-eq-done :
    (kind : TextureCacheAllocationKind) (old : Option TextureCacheAllocInfo)
    {new : Option TextureCacheAllocInfo}
    → apply_kind kind old ≡ done new
    → (is_some old ≡ wants kind) × (new ≡ gives kind)
unfolding apply_kind
apply_kind-eq-done (alloc info) none h = (refl, cc)
apply_kind-eq-done (alloc info) (some i) h = cc
apply_kind-eq-done (realloc info) none h = cc
apply_kind-eq-done (realloc info) (some i) h = (refl, cc)
apply_kind-eq-done free none h = cc
apply_kind-eq-done free (some i) h = (refl, cc)

pub apply_allocation-eq-done :
    (a : TextureCacheAllocation) (m : Textures) {m' : Textures}
    → apply_allocation a m ≡ done m'
    → (is_some (m a.id) ≡ wants a.kind) × (m' ≡ set_texture m a.id (gives a.kind))
unfolding apply_allocation
apply_allocation-eq-done a m h =
    let (t, applied, rest) = >>=-eq-done (apply_kind a.kind (m a.id)) _ h in
    let (before, after) = apply_kind-eq-done a.kind (m a.id) applied in (before, cc)

-- The list between the textures `m` of the renderer and those that the cache takes for granted. The
-- textures from number `n` on are not used yet.
pub record Pending (n : ℕ) (l : TextureUpdateList) (m now : Textures) : Type 0 where
  pub unique : Unique l.allocations
  pub unused : (j : ℕ) → n ≤ j → find_kind j l.allocations ≡ none
  pub matching : (j : ℕ) → Match (find_kind j l.allocations) (m j) (now j)
  pub targets : All (λ u. is_some (now u.id) ≡ true) l.updates

pub set_texture_self :
    (m : Textures) (id : ℕ) (t : Option TextureCacheAllocInfo) → set_texture m id t id ≡ t
set_texture_self m id t = ground arith

pub set_texture_ne :
    (m : Textures) (id j : ℕ) (t : Option TextureCacheAllocInfo)
    → id ≢ j
    → set_texture m id t j ≡ m j
set_texture_ne m id j t ne = ground arith

-- The updates find their textures after a texture is created, and after one is freed.
pub targets-create :
    (now : Textures) (id : ℕ) (info : TextureCacheAllocInfo) (us : List TextureCacheUpdate)
    → All (λ u. is_some (now u.id) ≡ true) us
    → All (λ u. is_some (set_texture now id (some info) u.id) ≡ true) us
targets-create now id info [] h = tt
targets-create now id info (u ∷ us) h = (ground (arith, h.0), targets-create now id info us h.1)

drop_updates-cons :
    (id : ℕ) (u : TextureCacheUpdate) (us : List TextureCacheUpdate)
    → u.id ≡ id
    → drop_updates id (u ∷ us) ≡ drop_updates id us
unfolding drop_updates
drop_updates-cons id u us e = ground arith

drop_updates-cons_ne :
    (id : ℕ) (u : TextureCacheUpdate) (us : List TextureCacheUpdate)
    → u.id ≢ id
    → drop_updates id (u ∷ us) ≡ u ∷ drop_updates id us
unfolding drop_updates
drop_updates-cons_ne id u us ne = ground arith

targets-free :
    (now : Textures) (id : ℕ) (us : List TextureCacheUpdate)
    → All (λ u. is_some (now u.id) ≡ true) us
    → All (λ u. is_some (set_texture now id none u.id) ≡ true) (drop_updates id us)
unfolding drop_updates
targets-free now id [] h = tt
targets-free now id (u ∷ us) h = elim (==-cases u.id id) [
  | inl e ↦
      subst (All (λ u. is_some (set_texture now id none u.id) ≡ true))
        (sym (drop_updates-cons id u us e)) (targets-free now id us h.1)
  | inr ne ↦
      subst (All (λ u. is_some (set_texture now id none u.id) ≡ true))
        (sym (drop_updates-cons_ne id u us ne))
        (ground (arith, h.0, ne), targets-free now id us h.1)
]

-- The state for the cache after an allocation of texture `id` that gives `t`.
Match-set :
    (l l' : List TextureCacheAllocation) (m now : Textures) (id : ℕ)
    (t : Option TextureCacheAllocInfo)
    → ((j : ℕ) → Match (find_kind j l) (m j) (now j))
    → Match (find_kind id l') (m id) t
    → ((j : ℕ) → id ≢ j → find_kind j l' ≡ find_kind j l)
    → (j : ℕ) → Match (find_kind j l') (m j) (set_texture now id t j)
Match-set l l' m now id t before at_id others j = elim (==-cases id j) [
  | inl e ↦
      subst (λ i. Match (find_kind i l') (m i) (set_texture now id t i)) e
        (subst (λ s. Match (find_kind id l') (m id) s) (sym (set_texture_self now id t)) at_id)
  | inr ne ↦
      subst (λ s. Match (find_kind j l') (m j) s) (sym (set_texture_ne now id j t ne))
        (subst (λ o. Match o (m j) (now j)) (sym (others j ne)) (before j))
]

-- The three commands on the pending allocation of their texture.
Match-first :
    (kind : TextureCacheAllocationKind) (o : Option TextureCacheAllocationKind)
    (a b : Option TextureCacheAllocInfo)
    → o ≡ none
    → Match o a b
    → is_some b ≡ wants kind
    → Match (some kind) a (gives kind)
Match-first kind o a b e h wanted =
    let same = subst (λ o. Match o a b) e h in (ap is_some same ∙ wanted, refl)

pub Match-realloc :
    (kind : TextureCacheAllocationKind) (info : TextureCacheAllocInfo)
    (a b : Option TextureCacheAllocInfo)
    → Match (some kind) a b
    → is_some b ≡ true
    → (kind' : TextureCacheAllocationKind) × (realloc_kind kind info ≡ done kind')
      × Match (some kind') a (some info)
Match-realloc (alloc i) info a b h present = (alloc info, refl, (h.0, refl))
Match-realloc (realloc i) info a b h present = (realloc info, refl, (h.0, refl))
Match-realloc free info a b h present = cc

-- Freeing a texture whose pending allocation is `o`: `after_free` appends `free`, or nothing.
pub Match-free :
    (o : Option TextureCacheAllocationKind) (a b : Option TextureCacheAllocInfo)
    (l : TextureUpdateList) (id : ℕ)
    → Match o a b
    → is_some b ≡ true
    → ((after_free l id o ≡ done l) × Match none a none)
      ⊎ ((after_free l id o ≡ done (push_allocation l id free)) × Match (some free) a none)
Match-free none a b l id h present = inr (refl, (ap is_some h ∙ present, refl))
Match-free (some (alloc i)) none b l id h present = inl (refl, refl)
Match-free (some (alloc i)) (some t) b l id h present = cc
Match-free (some (realloc i)) a b l id h present = inr (refl, (h.0, refl))
Match-free (some free) a b l id h present = cc

-- A new allocation at the end of the list.
pub Pending-push :
    (n n' : ℕ) (l : TextureUpdateList) (m now : Textures) (a : TextureCacheAllocation)
    → Pending n l m now
    → find_kind a.id l.allocations ≡ none
    → a.id < n'
    → n ≤ n'
    → is_some (now a.id) ≡ wants a.kind
    → All (λ u. is_some (set_texture now a.id (gives a.kind) u.id) ≡ true) l.updates
    → Pending n' (push_allocation l a.id a.kind) m (set_texture now a.id (gives a.kind))
Pending-push n n' l m now a h fresh named grows wanted targets = record {
  unique = Unique-append l.allocations a fresh h.unique;
  unused = λ j le. find_kind-append_ne j l.allocations a omega arith ∙ h.unused j omega arith;
  matching =
      Match-set l.allocations (l.allocations ++ a ∷ []) m now a.id (gives a.kind) h.matching
        (subst (λ o. Match o (m a.id) (gives a.kind)) (sym (find_kind-append l.allocations a fresh))
          (Match-first a.kind (find_kind a.id l.allocations) (m a.id) (now a.id) fresh
            (h.matching a.id) wanted))
        (λ j ne. find_kind-append_ne j l.allocations a ne);
  targets = targets;
}

pub Pending-set :
    (n : ℕ) (l : TextureUpdateList) (m now : Textures) (id : ℕ) (kind : TextureCacheAllocationKind)
    (info : TextureCacheAllocInfo) {old : TextureCacheAllocationKind}
    → Pending n l m now
    → find_kind id l.allocations ≡ some old
    → id < n
    → Match (some kind) (m id) (some info)
    → Pending n
        (record l { allocations = set_kind id kind l.allocations })
        m
        (set_texture now id (some info))
Pending-set n l m now id kind info h found named matched = record {
  unique = Unique-set id kind l.allocations h.unique;
  unused = λ j le. find_kind-set_ne j id kind l.allocations (omega arith) ∙ h.unused j le;
  matching =
      Match-set l.allocations (set_kind id kind l.allocations) m now id (some info) h.matching
        (subst (λ o. Match o (m id) (some info)) (sym (find_kind-set id kind l.allocations found))
          matched)
        (λ j ne. find_kind-set_ne j id kind l.allocations ne);
  targets = targets-create now id info l.updates h.targets;
}

-- The list with the allocation of a texture removed, and its updates.
abbrev pub without : TextureUpdateList → ℕ → TextureUpdateList
without l id = record {
  allocations = remove_kind id l.allocations;
  updates = drop_updates id l.updates;
}

pub Pending-remove :
    (n : ℕ) (l : TextureUpdateList) (m now : Textures) (id : ℕ)
    → Pending n l m now
    → Match none (m id) none
    → Pending n (without l id) m (set_texture now id none)
Pending-remove n l m now id h matched = record {
  unique = Unique-remove id l.allocations h.unique;
  unused = λ j le. elim (==-cases id j) [
    | inl e ↦
        subst (λ i. find_kind i (remove_kind id l.allocations) ≡ none) e
          (find_kind-remove id l.allocations h.unique)
    | inr ne ↦ find_kind-remove_ne j id l.allocations ne ∙ h.unused j le
  ];
  matching =
      Match-set l.allocations (remove_kind id l.allocations) m now id none h.matching
        (subst (λ o. Match o (m id) none) (sym (find_kind-remove id l.allocations h.unique))
          matched)
        (λ j ne. find_kind-remove_ne j id l.allocations ne);
  targets = targets-free now id l.updates h.targets;
}

pub Pending-remove_push :
    (n : ℕ) (l : TextureUpdateList) (m now : Textures) (id : ℕ)
    → Pending n l m now
    → id < n
    → Match (some free) (m id) none
    → Pending n (push_allocation (without l id) id free) m (set_texture now id none)
Pending-remove_push n l m now id h named matched =
    let removed = find_kind-remove id l.allocations h.unique in
    record {
      unique =
          Unique-append (remove_kind id l.allocations) (record { id = id; kind = free }) removed
            (Unique-remove id l.allocations h.unique);
      unused = λ j le.
          find_kind-append_ne j (remove_kind id l.allocations) (record { id = id; kind = free })
            (omega arith)
          ∙ find_kind-remove_ne j id l.allocations (omega arith)
          ∙ h.unused j le;
      matching =
          Match-set l.allocations
            (remove_kind id l.allocations ++ record { id = id; kind = free } ∷ []) m now id none
            h.matching
            (subst (λ o. Match o (m id) none)
              (sym (
                find_kind-append (remove_kind id l.allocations) (record { id = id; kind = free })
                  removed))
              matched)
            (λ j ne.
              find_kind-append_ne j (remove_kind id l.allocations) (record { id = id; kind = free })
                ne
              ∙ find_kind-remove_ne j id l.allocations ne);
      targets = targets-free now id l.updates h.targets;
    }
