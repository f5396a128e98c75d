-- ===== src/TextureCache/Coalescing.antt =====
-- The coalescing of `TextureUpdateList` (webrender/src/internal_types.rs), compared with a renderer that
-- executes every command at once (`update_texture_cache` of webrender/src/renderer.rs).
use webrender.Prelude.{
  ℕ, suc, ◌≤◌, ◌<◌, ◌≡◌, refl, sym, List, [], ◌∷◌, ◌++◌, none, some, Bool, true, false, done, All,
  All-append, Option-cases, ==-cases, inl, inr, arith, >>=-eq-done, subst, ◌∙◌,
}
use webrender.RenderTargets.{assert}
use webrender.TextureCache.Updates.{
  TextureCacheAllocInfo, TextureCacheAllocationKind, alloc, realloc, free, TextureCacheAllocation,
  TextureCacheUpdate, TextureUpdateList, new_update_list, find_kind, set_kind, realloc_kind,
  push_realloc, push_free, push_allocation, push_update,
}
use webrender.TextureCache.Pending.{
  gives, Match, Pending, apply_kind-done, apply_allocation-eq-done, targets-create, Match-realloc,
  Match-free, Pending-push, Pending-set, Pending-remove, Pending-remove_push, set_texture_self,
  set_texture_ne, without,
}
use webrender.TextureCache.Kinds.{Unique, find_kind-cons, find_kind-cons_ne}
use webrender.TextureCache.Uploads.{
  Textures, set_texture, is_some, apply_allocation, apply_allocations, find_textures,
  update_texture_cache, Command, allocate_texture, resize_texture, free_texture, upload,
  record_command, record_commands, execute, execute_all,
}

-- The texture cache numbers its textures, and frees or resizes one that has a number.
abbrev pub Numbered : ℕ → List Command → Type 0
Numbered n [] = Unit
Numbered n (allocate_texture id info ∷ cs) = (n ≤ id) × Numbered (suc id) cs
Numbered n (resize_texture id info ∷ cs) = (id < n) × Numbered n cs
Numbered n (free_texture id ∷ cs) = (id < n) × Numbered n cs
Numbered n (upload u ∷ cs) = Numbered n cs

-- A command in the list, and at once.
Recorded : ℕ → TextureUpdateList → Textures → Textures → Command → Type 0
Recorded n l m now c =
    (l' : TextureUpdateList) × (record_command l c ≡ done l') × Pending n l' m now

push_realloc_first :
    (l : TextureUpdateList) (id : ℕ) (info : TextureCacheAllocInfo)
    → find_kind id l.allocations ≡ none
    → push_realloc l id info ≡ done (push_allocation l id (realloc info))
unfolding push_realloc
push_realloc_first l id info e = rw (e, push_realloc) refl

push_realloc_again :
    (l : TextureUpdateList) (id : ℕ) (info : TextureCacheAllocInfo)
    {kind kind' : TextureCacheAllocationKind}
    → find_kind id l.allocations ≡ some kind
    → realloc_kind kind info ≡ done kind'
    → push_realloc l id info ≡ done (record l { allocations = set_kind id kind' l.allocations })
unfolding push_realloc
push_realloc_again l id info {kind} {kind'} e written = rw (e, written, push_realloc) refl

resize-Recorded :
    (n : ℕ) (l : TextureUpdateList) (m now : Textures) (id : ℕ) (info : TextureCacheAllocInfo)
    → Pending n l m now
    → id < n
    → is_some (now id) ≡ true
    → Recorded n l m (set_texture now id (some info)) (resize_texture id info)
unfolding Recorded
resize-Recorded n l m now id info h named present =
    elim (Option-cases (find_kind id l.allocations)) [
      | inl e ↦ (
        push_allocation l id (realloc info),
        push_realloc_first l id info e,
        Pending-push n n l m now (record { id = id; kind = realloc info }) h e named (omega arith)
            present (targets-create now id info l.updates h.targets),
      )
      | inr (kind, e) ↦
          let (kind', written, matched) =
            Match-realloc kind info (m id) (now id)
              (subst (λ o. Match o (m id) (now id)) e (h.matching id)) present in
          (
            record l { allocations = set_kind id kind' l.allocations },
            push_realloc_again l id info e written,
            Pending-set n l m now id kind' info h e named matched,
          )
    ]

free-Recorded :
    (n : ℕ) (l : TextureUpdateList) (m now : Textures) (id : ℕ)
    → Pending n l m now
    → id < n
    → is_some (now id) ≡ true
    → Recorded n l m (set_texture now id none) (free_texture id)
unfolding push_free Recorded
free-Recorded n l m now id h named present =
    elim (Match-free (find_kind id l.allocations) (m id) (now id) (without l id) id (h.matching id)
      present) [
        | inl (e, matched) ↦ (without l id, e, Pending-remove n l m now id h matched)
        | inr (e, matched) ↦ (
          push_allocation (without l id) id free,
          e,
          Pending-remove_push n l m now id h named matched,
        )
      ]

assert-eq-done : (b : Bool) → assert b ≡ done tt → b ≡ true
assert-eq-done true h = refl
assert-eq-done false h = cc

Recorded-step :
    (n : ℕ) (c : Command) (cs : List Command) (l : TextureUpdateList) (m now now' : Textures)
    → Pending n l m now
    → Numbered n (c ∷ cs)
    → execute c now ≡ done now'
    → (n' : ℕ) × Recorded n' l m now' c × Numbered n' cs
unfolding Recorded
Recorded-step n (allocate_texture id info) cs l m now now' h num e =
    let (absent, eq) = apply_allocation-eq-done _ now e in
    subst (λ t. (n' : ℕ) × Recorded n' l m t (allocate_texture id info) × Numbered n' cs) (sym eq)
      (
        suc id,
        (
          push_allocation l id (alloc info),
          refl,
          Pending-push n (suc id) l m now (record { id = id; kind = alloc info }) h
              (h.unused id num.0) (omega arith) (omega (arith, num.0)) absent
              (targets-create now id info l.updates h.targets),
        ),
        num.1,
      )
Recorded-step n (resize_texture id info) cs l m now now' h num e =
    let (present, eq) = apply_allocation-eq-done _ now e in
    subst (λ t. (n' : ℕ) × Recorded n' l m t (resize_texture id info) × Numbered n' cs) (sym eq)
      (n, resize-Recorded n l m now id info h num.0 present, num.1)
Recorded-step n (free_texture id) cs l m now now' h num e =
    let (present, eq) = apply_allocation-eq-done _ now e in
    subst (λ t. (n' : ℕ) × Recorded n' l m t (free_texture id) × Numbered n' cs) (sym eq)
      (n, free-Recorded n l m now id h num.0 present, num.1)
Recorded-step n (upload u) cs l m now now' h num e =
    let (checked, is_there, eq) = >>=-eq-done (assert (is_some (now u.id))) _ e in
    let same : now ≡ now' = cc in
    let present = assert-eq-done (is_some (now u.id)) is_there in
    (
      n,
      (
        push_update l u,
        refl,
        record {
          unique = h.unique;
          unused = h.unused;
          matching =
              λ j. subst (λ t. Match (find_kind j l.allocations) (m j) (t j)) same (h.matching j);
          targets =
              subst (λ t. All (λ v. is_some (t v.id) ≡ true) (l.updates ++ u ∷ [])) same
                (All-append (λ v. is_some (now v.id) ≡ true) l.updates (u ∷ []) h.targets
                  (present, tt));
        },
      ),
      num,
    )

Recorded-all :
    (n : ℕ) (cs : List Command) (l : TextureUpdateList) (m now now' : Textures)
    → Pending n l m now
    → Numbered n cs
    → execute_all cs now ≡ done now'
    → (n' : ℕ) × (l' : TextureUpdateList) × (record_commands cs l ≡ done l') × Pending n' l' m now'
unfolding execute_all record_commands Recorded
Recorded-all n [] l m now now' h num e =
    let same : now ≡ now' = cc in (n, l, refl, subst (Pending n l m) same h)
Recorded-all n (c ∷ cs) l m now now' h num e =
    let (next, executed, rest) = >>=-eq-done (execute c now) _ e in
    let (n', (l', recorded, h'), num') = Recorded-step n c cs l m now next h num executed in
    let (n'', l'', more, h'') = Recorded-all n' cs l' m next now' h' num' rest in
    (n'', l'', rw (recorded, record_commands) more, h'')

-- The list is applied to the textures of the renderer.
apply_allocations-matched :
    (l : List TextureCacheAllocation) (m now : Textures)
    → Unique l
    → ((j : ℕ) → Match (find_kind j l) (m j) (now j))
    → (m' : Textures) × (apply_allocations l m ≡ done m') × ((j : ℕ) → m' j ≡ now j)
unfolding apply_allocations apply_allocation find_kind
apply_allocations-matched [] m now u h = (m, refl, h)
apply_allocations-matched (a ∷ l) m now u h =
    let at_a = subst (λ o. Match o (m a.id) (now a.id)) (find_kind-cons a.id a l refl) (h a.id) in
    let m1 = set_texture m a.id (gives a.kind) in
    let (m', applied, same) = apply_allocations-matched l m1 now u.1 (λ j. elim (==-cases a.id j) [
      | inl e ↦
          subst (λ i. Match (find_kind i l) (m1 i) (now i)) e
            (subst (λ o. Match o (m1 a.id) (now a.id)) (sym u.0)
              (set_texture_self m a.id (gives a.kind) ∙ sym at_a.1))
      | inr ne ↦
          subst (λ t. Match (find_kind j l) t (now j))
            (sym (set_texture_ne m a.id j (gives a.kind) ne))
            (subst (λ o. Match o (m j) (now j)) (find_kind-cons_ne j a l ne) (h j))
    ]) in
    (m', rw (apply_kind-done a.kind (m a.id) at_a.0, apply_allocation) applied, same)

find_textures-done :
    (us : List TextureCacheUpdate) (m now : Textures)
    → ((j : ℕ) → m j ≡ now j)
    → All (λ u. is_some (now u.id) ≡ true) us
    → find_textures us m ≡ done tt
unfolding find_textures
find_textures-done [] m now same h = refl
find_textures-done (u ∷ us) m now same h =
    rw (same u.id, h.0) (find_textures-done us m now same h.1)

update_texture_cache-Pending :
    (n : ℕ) (l : TextureUpdateList) (m now : Textures)
    → Pending n l m now
    → (m' : Textures) × (update_texture_cache l m ≡ done m') × ((j : ℕ) → m' j ≡ now j)
unfolding update_texture_cache
update_texture_cache-Pending n l m now h =
    let (m', applied, same) = apply_allocations-matched l.allocations m now h.unique h.matching in
    (m', rw (applied, find_textures-done l.updates m' now same h.targets) refl, same)

Pending-nil : (n : ℕ) (m : Textures) → Pending n new_update_list m m
unfolding find_kind
Pending-nil n m = record { unique = tt; unused = λ j le. refl; matching = λ j. refl; targets = tt }

-- Whatever commands a renderer can execute one after the other from the textures `m`, where new textures
-- get increasing numbers and the others have numbers below, the update list coalesces without a panic;
-- the renderer then applies the list to `m` without a panic (so it agrees which textures exist, and every
-- update finds its texture), and it ends with the same textures.
pub record_commands-execute_all :
    (n : ℕ) (cs : List Command) (m now : Textures)
    → Numbered n cs
    → execute_all cs m ≡ done now
    → (l : TextureUpdateList) × (record_commands cs new_update_list ≡ done l)
      × (m' : Textures) × (update_texture_cache l m ≡ done m')
      × ((j : ℕ) → m' j ≡ now j)
record_commands-execute_all n cs m now num e =
    let (n', l, recorded, h) = Recorded-all n cs new_update_list m m now (Pending-nil n m) num e in
    let (m', applied, same) = update_texture_cache-Pending n' l m now h in
    (l, recorded, m', applied, same)
