-- ===== src/RenderTaskCache/Retained.antt =====
-- The start of a frame of the render task cache (webrender/src/render_task.rs): what it retains.
use webrender.Prelude.{
  ℕ, ◌≡◌, ◌≢◌, ◌<◌, refl, sym, ap, ◌∙◌, List, [], ◌∷◌, Bool, true, false, done, All, All-both,
  Distinct, NotIn, Bool-cases, Option-cases, inl, inr, length, get_elem?, get_elem?_of_lt, ◌==◌,
}
use webrender.FreeList.{FreeList, FreeListHandle, WeakFreeListHandle, get_opt}
use webrender.FreeList.Freed.{Holds, Holds-get, Holds-unique, free-eq-done, free-returns}
use webrender.RenderTasks.Ordered.{In}
use webrender.TextureCache.Caches.{TextureCache}
use webrender.TextureCache.Requests.{is_allocated}
use webrender.RenderTaskCache.{
  RenderTaskCacheKey, RenderTaskCacheEntry, RenderTaskCache, free_unless, keep_if, retain_map,
  begin_frame,
}

abbrev pub indices : {K : Type 0} → List (RenderTaskCacheKey K × FreeListHandle) → List ℕ
indices [] = []
indices ((key, handle) ∷ rest) = handle.index ∷ indices rest

-- The handle leads to an entry, and its texture handle is in the bounds of the texture cache.
abbrev pub Leads : TextureCache → FreeList RenderTaskCacheEntry → ℕ → Type 0
Leads tc entries i =
    (e : RenderTaskCacheEntry) × Holds entries i e × (e.handle.index < length tc.entries.slots)

-- The handle leads to an entry whose texture is allocated.
abbrev pub Allocated : TextureCache → FreeList RenderTaskCacheEntry → ℕ → Type 0
Allocated tc entries i =
    (e : RenderTaskCacheEntry) × Holds entries i e × (is_allocated tc e.handle ≡ done true)

is_allocated-returns :
    (tc : TextureCache) (w : WeakFreeListHandle)
    → w.index < length tc.entries.slots
    → (b : Bool) × (is_allocated tc w ≡ done b)
unfolding is_allocated get_opt
is_allocated-returns tc w inside =
    let (s, at_w) = get_elem?_of_lt tc.entries.slots w.index inside in
    elim (Bool-cases (s.epoch == w.epoch)) [
      | inr e ↦ (false, rw (at_w, e) refl)
      | inl e ↦ elim (Option-cases s.value) [
        | inl v ↦ (false, rw (at_w, e, v) refl)
        | inr (x, v) ↦ (true, rw (at_w, e, v) refl)
      ]
    ]

Holds-same :
    (a b : FreeList RenderTaskCacheEntry) (i : ℕ) {e : RenderTaskCacheEntry}
    → get_elem? b.slots i ≡ get_elem? a.slots i
    → Holds a i e
    → Holds b i e
Holds-same a b i eq (s, at_i, full) = (s, eq ∙ at_i, full)

-- The step of the walk for one entry.
free_unless-returns :
    (entries : FreeList RenderTaskCacheEntry) (h : FreeListHandle) (b : Bool)
    {e : RenderTaskCacheEntry}
    → Holds entries h.index e
    → (entries' : FreeList RenderTaskCacheEntry) × (free_unless entries h b ≡ done entries')
      × ((j : ℕ) → j ≢ h.index → get_elem? entries'.slots j ≡ get_elem? entries.slots j)
      × (b ≡ true → entries' ≡ entries)
free_unless-returns entries h true held = (entries, refl, (λ j ne. refl), λ e. refl)
free_unless-returns entries h false {e} held =
    let (entries', freed) = free-returns entries h held in
    let (before, vacant, others) = free-eq-done entries h freed in
    (entries', rw freed refl, others, λ e. cc)

module _ {K : Type 0} where
  keep-Allocated :
      (tc : TextureCache) (b : Bool) (key : RenderTaskCacheKey K) (h : FreeListHandle)
      (rest : List (RenderTaskCacheKey K × FreeListHandle)) (fl : FreeList RenderTaskCacheEntry)
      → (b ≡ true → Allocated tc fl h.index)
      → All (Allocated tc fl) (indices rest)
      → All (Allocated tc fl) (indices (keep_if b (key, h) rest))
  keep-Allocated tc true key h rest fl head tail = (head refl, tail)
  keep-Allocated tc false key h rest fl head tail = tail

  keep-In :
      (b : Bool) (key : RenderTaskCacheKey K) (h : FreeListHandle)
      (rest : List (RenderTaskCacheKey K × FreeListHandle)) (j : ℕ)
      → In j (indices rest)
      → In j (indices (keep_if b (key, h) rest))
  keep-In true key h rest j i = inr i
  keep-In false key h rest j i = i

  keep-head :
      (b : Bool) (key : RenderTaskCacheKey K) (h : FreeListHandle)
      (rest : List (RenderTaskCacheKey K × FreeListHandle))
      → b ≡ true
      → In h.index (indices (keep_if b (key, h) rest))
  keep-head true key h rest e = inl refl
  keep-head false key h rest e = cc

  -- The walk over the map, with the slots that it leaves alone.
  retain_map_lem :
      (tc : TextureCache) (m : List (RenderTaskCacheKey K × FreeListHandle))
      (entries : FreeList RenderTaskCacheEntry)
      → Distinct (indices m)
      → All (Leads tc entries) (indices m)
      → (m' : List (RenderTaskCacheKey K × FreeListHandle)) × (entries' : FreeList
          RenderTaskCacheEntry)
        × (retain_map tc m entries ≡ done (m', entries'))
        × All (Allocated tc entries') (indices m')
        × All (λ i. Allocated tc entries i → In i (indices m')) (indices m)
        × ((i : ℕ) → NotIn i (indices m) → get_elem? entries'.slots i ≡ get_elem? entries.slots i)
  unfolding retain_map
  retain_map_lem tc [] entries distinct leads = ([], entries, refl, tt, tt, λ i out. refl)
  retain_map_lem tc ((key, h) ∷ rest) entries (apart, distinct) ((e, held, inside), leads) =
      let (b, answers) = is_allocated-returns tc e.handle inside in
      let (fl, freed, others, same) = free_unless-returns entries h b held in
      let (m', fl', walks, allocated, kept, out) = retain_map_lem tc rest fl distinct (
        All-both (λ j. h.index ≢ j) (Leads tc entries) (Leads tc fl) (indices rest)
          (λ j ne (e', held', inside').
            (e', Holds-same entries fl j (others j (λ q. ne (sym q))) held', inside'))
          apart leads) in
      let head : Holds entries h.index e = held in
      (
        keep_if b (key, h) m',
        fl',
        rw (Holds-get entries h held, answers, freed, walks) refl,
        keep-Allocated tc b key h m' fl'
            (λ yes. (
              e,
              Holds-same entries fl' h.index
                  (out h.index apart ∙ ap (λ l. get_elem? l.slots h.index) (same yes)) held,
              answers ∙ ap done yes,
            ))
            allocated,
        (
          (λ (e', held', answers').
              let is_e : e' ≡ e = Holds-unique entries h.index held' held in
              let both : done b ≡ done true =
                sym answers ∙ ap (λ x. is_allocated tc x.handle) (sym is_e) ∙ answers' in
              keep-head b key h m' cc),
          All-both (λ j. h.index ≢ j) (λ j. Allocated tc fl j → In j (indices m')) _ (indices rest)
              (λ j ne f (e', held', answers').
                keep-In b key h m' j
                  (f (e', Holds-same entries fl j (others j (λ q. ne (sym q))) held', answers')))
              apart kept,
        ),
        λ i (ne, past). out i past ∙ others i ne,
      )

  -- The start of a frame returns. Every handle that the map keeps leads to an entry whose texture is
  -- allocated, and each handle that led to such an entry is kept. The handles of the map are distinct and
  -- lead to entries, and their texture handles are in the bounds of the texture cache.
  pub begin_frame-Allocated :
      (c : RenderTaskCache K) (tc : TextureCache)
      → Distinct (indices c.map)
      → All (Leads tc c.cache_entries) (indices c.map)
      → (c' : RenderTaskCache K) × (begin_frame c tc ≡ done c')
        × All (Allocated tc c'.cache_entries) (indices c'.map)
        × All (λ i. Allocated tc c.cache_entries i → In i (indices c'.map)) (indices c.map)
  unfolding begin_frame
  begin_frame-Allocated c tc distinct leads =
      let (m', entries', walks, allocated, kept, out) =
        retain_map_lem tc c.map c.cache_entries distinct leads in
      (record { map = m'; cache_entries = entries' }, rw walks refl, allocated, kept)
