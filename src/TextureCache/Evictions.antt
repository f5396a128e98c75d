-- ===== src/TextureCache/Evictions.antt =====
-- `expire_old_entries` of the texture cache (webrender/src/texture_cache.rs): it frees the expired entries of
-- its list and no others.
use webrender.Prelude.{
  ℕ, zero, suc, ◌<◌, ◌≡◌, ◌⊎◌, sym, ap, subst, inl, inr, ◌∙◌, none, some, true, false, done,
  >>=-eq-done, arith, ==-cases, Bool-cases, length, get_elem?, lt_of_get_elem?,
}
use webrender.FreeList.{FreeListHandle, Slot, weak, get_opt}
use webrender.FreeList.Freed.{Holds, Vacant, Holds-unique, Vacant-get_opt}
use webrender.TextureCache.Entries.{EntryKind, CacheEntry, EvictionThreshold}
use webrender.TextureCache.Caches.{
  TextureCache, handles_of, is_expired, expire_one, expire_loop, expire_old_entries,
}
use webrender.TextureCache.Expiry.{expire_one-cases}

-- What a round leaves: the slot of an entry that is not expired, and a vacant slot.
expire_one-keeps :
    (c c' : TextureCache) (kind : EntryKind) (threshold : EvictionThreshold) (n i : ℕ)
    (s : Slot CacheEntry) (e : CacheEntry)
    → expire_one c kind threshold n ≡ done c'
    → get_elem? c.entries.slots i ≡ some s
    → s.value ≡ some e
    → is_expired c.now threshold e ≡ false
    → get_elem? c'.entries.slots i ≡ some s
expire_one-keeps c c' kind threshold n i s e run at_i full kept =
    elim (expire_one-cases c c' kind threshold n run) [
      | inl (same, _) ↦ subst (λ d. get_elem? d.entries.slots i ≡ some s) (sym same) at_i
      | inr (entry, expired, out) ↦ elim (==-cases i out.handle.index) [
        | inl at_out ↦
            let same : e ≡ entry =
              Holds-unique c.entries out.handle.index
                (subst (λ j. Holds c.entries j e) at_out (s, at_i, full)) out.held in
            let clash : true ≡ false =
              sym expired ∙ ap (is_expired c.now threshold) (sym same) ∙ kept in
            cc
        | inr ne ↦ out.others i ne ∙ at_i
      ]
    ]

expire_one-Vacant :
    (c c' : TextureCache) (kind : EntryKind) (threshold : EvictionThreshold) (n i : ℕ)
    → expire_one c kind threshold n ≡ done c'
    → Vacant c.entries i
    → Vacant c'.entries i
expire_one-Vacant c c' kind threshold n i run (s, at_i, empty) =
    elim (expire_one-cases c c' kind threshold n run) [
      | inl (same, _) ↦ subst (λ d. Vacant d.entries i) (sym same) (s, at_i, empty)
      | inr (entry, expired, out) ↦ elim (==-cases i out.handle.index) [
        | inl at_out ↦ subst (λ j. Vacant c'.entries j) (sym at_out) out.vacant
        | inr ne ↦ (s, out.others i ne ∙ at_i, empty)
      ]
    ]

expire_one-now :
    (c c' : TextureCache) (kind : EntryKind) (threshold : EvictionThreshold) (n : ℕ)
    → expire_one c kind threshold n ≡ done c'
    → c'.now ≡ c.now
expire_one-now c c' kind threshold n run = elim (expire_one-cases c c' kind threshold n run) [
  | inl (same, _) ↦ ap (λ d. d.now) same
  | inr (entry, expired, out) ↦ out.same_now
]

-- The round of an expired entry, and an earlier one.
expire_one-evicts :
    (c c' : TextureCache) (kind : EntryKind) (threshold : EvictionThreshold) (n : ℕ)
    (h : FreeListHandle) (e : CacheEntry)
    → expire_one c kind threshold n ≡ done c'
    → get_elem? (handles_of c.doc_data.handles kind) n ≡ some h
    → Holds c.entries h.index e
    → is_expired c.now threshold e ≡ true
    → Vacant c'.entries h.index
expire_one-evicts c c' kind threshold n h e run at_n holds expired =
    elim (expire_one-cases c c' kind threshold n run) [
      | inl (same, kept) ↦ let clash : true ≡ false = sym expired ∙ kept h e at_n holds in cc
      | inr (entry, old, out) ↦
          let same : out.handle ≡ h = let at_out = out.at_i in cc in
          subst (λ g. Vacant c'.entries g.index) same out.vacant
    ]

-- An entry that is still to be looked at, or gone.
abbrev Waiting : TextureCache → EntryKind → ℕ → FreeListHandle → CacheEntry → Type 0
Waiting c kind j h e =
    Vacant c.entries h.index
    ⊎ ((get_elem? (handles_of c.doc_data.handles kind) j ≡ some h) × Holds c.entries h.index e)

expire_one-Waiting :
    (c c' : TextureCache) (kind : EntryKind) (threshold : EvictionThreshold) (n j : ℕ)
    (h : FreeListHandle) (e : CacheEntry)
    → expire_one c kind threshold n ≡ done c'
    → j < n
    → Waiting c kind j h e
    → Waiting c' kind j h e
expire_one-Waiting c c' kind threshold n j h e run lt (inl gone) =
    inl (expire_one-Vacant c c' kind threshold n h.index run gone)
expire_one-Waiting c c' kind threshold n j h e run lt (inr (at_j, holds)) =
    elim (expire_one-cases c c' kind threshold n run) [
      | inl (same, _) ↦ subst (λ d. Waiting d kind j h e) (sym same) (inr (at_j, holds))
      | inr (entry, expired, out) ↦ elim (==-cases h.index out.handle.index) [
        | inl at_out ↦ inl (subst (λ i. Vacant c'.entries i) (sym at_out) out.vacant)
        | inr ne ↦
            inr (out.earlier j lt ∙ at_j, (holds.0, out.others h.index ne ∙ holds.1, holds.2))
      ]
    ]

expire_loop-keeps :
    (n : ℕ) (c c' : TextureCache) (kind : EntryKind) (threshold : EvictionThreshold) (i : ℕ)
    (s : Slot CacheEntry) (e : CacheEntry)
    → expire_loop n c kind threshold ≡ done c'
    → get_elem? c.entries.slots i ≡ some s
    → s.value ≡ some e
    → is_expired c.now threshold e ≡ false
    → get_elem? c'.entries.slots i ≡ some s
unfolding expire_loop
expire_loop-keeps zero c c' kind threshold i s e run at_i full kept =
    let same : c ≡ c' = cc in subst (λ d. get_elem? d.entries.slots i ≡ some s) same at_i
expire_loop-keeps (suc n) c c' kind threshold i s e run at_i full kept =
    let (c1, first, rest) = >>=-eq-done (expire_one c kind threshold n) _ run in
    expire_loop-keeps n c1 c' kind threshold i s e rest
      (expire_one-keeps c c1 kind threshold n i s e first at_i full kept) full
      (ap (λ t. is_expired t threshold e) (expire_one-now c c1 kind threshold n first) ∙ kept)

expire_loop-Vacant :
    (n : ℕ) (c c' : TextureCache) (kind : EntryKind) (threshold : EvictionThreshold) (i : ℕ)
    → expire_loop n c kind threshold ≡ done c'
    → Vacant c.entries i
    → Vacant c'.entries i
unfolding expire_loop
expire_loop-Vacant zero c c' kind threshold i run gone =
    let same : c ≡ c' = cc in subst (λ d. Vacant d.entries i) same gone
expire_loop-Vacant (suc n) c c' kind threshold i run gone =
    let (c1, first, rest) = >>=-eq-done (expire_one c kind threshold n) _ run in
    expire_loop-Vacant n c1 c' kind threshold i rest
      (expire_one-Vacant c c1 kind threshold n i first gone)

expire_loop-evicts :
    (n : ℕ) (c c' : TextureCache) (kind : EntryKind) (threshold : EvictionThreshold) (j : ℕ)
    (h : FreeListHandle) (e : CacheEntry)
    → expire_loop n c kind threshold ≡ done c'
    → j < n
    → Waiting c kind j h e
    → is_expired c.now threshold e ≡ true
    → Vacant c'.entries h.index
unfolding expire_loop
expire_loop-evicts zero c c' kind threshold j h e run lt waiting expired = absurd (omega arith)
expire_loop-evicts (suc n) c c' kind threshold j h e run lt (inl gone) expired =
    expire_loop-Vacant (suc n) c c' kind threshold h.index run gone
expire_loop-evicts (suc n) c c' kind threshold j h e run lt (inr (at_j, holds)) expired =
    let (c1, first, rest) = >>=-eq-done (expire_one c kind threshold n) _ run in
    elim (==-cases j n) [
      | inl e_n ↦ expire_loop-Vacant n c1 c' kind threshold h.index rest (
          expire_one-evicts c c1 kind threshold n h e first
            (subst (λ i. get_elem? (handles_of c.doc_data.handles kind) i ≡ some h) e_n at_j) holds
            expired)
      | inr ne ↦
          expire_loop-evicts n c1 c' kind threshold j h e rest (omega (arith, lt, ne))
            (expire_one-Waiting c c1 kind threshold n j h e first (omega (arith, lt, ne))
              (inr (at_j, holds)))
            (ap (λ t. is_expired t threshold e) (expire_one-now c c1 kind threshold n first)
              ∙ expired)
    ]

-- When `expire_old_entries` returns, then of the entries whose handle is in the list of the kind: the handle
-- of an expired one resolves to nothing, and the slot of one that is not expired is as before.
pub expire_old_entries-is_expired :
    (c c' : TextureCache) (kind : EntryKind) (threshold : EvictionThreshold) (j : ℕ)
    (h : FreeListHandle) (s : Slot CacheEntry) (e : CacheEntry)
    → expire_old_entries c kind threshold ≡ done c'
    → get_elem? (handles_of c.doc_data.handles kind) j ≡ some h
    → get_elem? c.entries.slots h.index ≡ some s
    → s.value ≡ some e
    → ((is_expired c.now threshold e ≡ true) × (get_opt c'.entries (weak h) ≡ done none))
      ⊎ ((is_expired c.now threshold e ≡ false) × (get_elem? c'.entries.slots h.index ≡ some s))
unfolding expire_old_entries
expire_old_entries-is_expired c c' kind threshold j h s e run at_j at_h full =
    let hs = handles_of c.doc_data.handles kind in
    elim (Bool-cases (is_expired c.now threshold e)) [
      | inl expired ↦ inl (
        expired,
        Vacant-get_opt c'.entries (weak h) (
            expire_loop-evicts (length hs) c c' kind threshold j h e run (lt_of_get_elem? hs j at_j)
              (inr (at_j, (s, at_h, full))) expired),
      )
      | inr kept ↦
          inr
            (kept, expire_loop-keeps (length hs) c c' kind threshold h.index s e run at_h full kept)
    ]

-- The slot of an entry that is not expired, whatever list its handle is in.
pub expire_old_entries-keeps :
    (c c' : TextureCache) (kind : EntryKind) (threshold : EvictionThreshold) (i : ℕ)
    (s : Slot CacheEntry) (e : CacheEntry)
    → expire_old_entries c kind threshold ≡ done c'
    → get_elem? c.entries.slots i ≡ some s
    → s.value ≡ some e
    → is_expired c.now threshold e ≡ false
    → get_elem? c'.entries.slots i ≡ some s
unfolding expire_old_entries
expire_old_entries-keeps c c' kind threshold i s e run at_i full kept =
    expire_loop-keeps (length (handles_of c.doc_data.handles kind)) c c' kind threshold i s e run
      at_i full kept
