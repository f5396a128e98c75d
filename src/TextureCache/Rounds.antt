-- ===== src/TextureCache/Rounds.antt =====
-- `expire_old_entries` of the texture cache (webrender/src/texture_cache.rs) returns, for the standalone
-- entries: no handle of its list is stale, and no texture is freed twice.
use webrender.Prelude.{
  ℕ, zero, suc, ◌<◌, ◌≡◌, ◌≢◌, refl, sym, ap, subst, inl, inr, ◌∙◌, some, done, arith, Bool-cases,
  get_elem?,
}
use webrender.FreeList.{FreeListHandle}
use webrender.FreeList.Freed.{Holds, Holds-get, Holds-unique}
use webrender.TextureCache.Updates.{find_kind}
use webrender.TextureCache.Entries.{standalone, EntryKind, CacheEntry, EvictionThreshold}
use webrender.TextureCache.Caches.{
  TextureCache, handles_of, is_expired, evict_at, expire_one, expire_loop,
}
use webrender.TextureCache.Expiry.{Evicted, evict_at-Evicted}
use webrender.TextureCache.Returns.{CanFree, OthersSame, evict_at-returns}

-- The rounds from number `n - 1` down find entries to free, each its own.
pub record Ready (n : ℕ) (c : TextureCache) (kind : EntryKind) : Type 0 where
  pub each :
      (j : ℕ)
      → j < n
      → (h : FreeListHandle) × (e : CacheEntry) × (get_elem? (handles_of c.doc_data.handles kind) j
          ≡ some h)
        × Holds c.entries h.index e
        × (e.details ≡ standalone)
        × CanFree (find_kind e.texture_id c.pending_updates.allocations)
  pub apart :
      (j k : ℕ) (h h' : FreeListHandle) (e e' : CacheEntry)
      → j < n
      → k < n
      → j ≢ k
      → get_elem? (handles_of c.doc_data.handles kind) j ≡ some h
      → get_elem? (handles_of c.doc_data.handles kind) k ≡ some h'
      → Holds c.entries h.index e
      → Holds c.entries h'.index e'
      → (h.index ≢ h'.index) × (e.texture_id ≢ e'.texture_id)

Ready-pred : (n : ℕ) (c : TextureCache) (kind : EntryKind) → Ready (suc n) c kind → Ready n c kind
Ready-pred n c kind r = record {
  each = λ j lt. r.each j (omega arith);
  apart = λ j k h h' e e' lt lt'. r.apart j k h h' e e' (omega arith) (omega arith);
}

-- An entry of an earlier number was there before the eviction.
Evicted-back :
    (n : ℕ) (c c' : TextureCache) (kind : EntryKind) (h : FreeListHandle) (e : CacheEntry)
    → Ready (suc n) c kind
    → get_elem? (handles_of c.doc_data.handles kind) n ≡ some h
    → Holds c.entries h.index e
    → Evicted c c' kind n e
    → (j : ℕ) (g : FreeListHandle) (f : CacheEntry) → j < n
    → get_elem? (handles_of c.doc_data.handles kind) j ≡ some g
    → Holds c'.entries g.index f
    → Holds c.entries g.index f
Evicted-back n c c' kind h e r at_n holds out j g f lt at_j held =
    let at_out = out.at_i in
    let same_h : out.handle ≡ h = cc in
    let (g0, f0, at_0, held_0, alone, can) = r.each j (omega arith) in
    let same_g : g0 ≡ g = cc in
    let (ne, ne_id) =
      r.apart j n g0 h f0 e (omega arith) (omega arith) (omega arith) at_0 at_n held_0 holds in
    let ne' : g.index ≢ out.handle.index =
      λ eq. ne (ap (λ g. g.index) same_g ∙ eq ∙ ap (λ g. g.index) same_h) in
    (held.0, sym (out.others g.index ne') ∙ held.1, held.2)

-- After the eviction of number `n`, the earlier ones are as before.
Ready-Evicted :
    (n : ℕ) (c c' : TextureCache) (kind : EntryKind) (h : FreeListHandle) (e : CacheEntry)
    → Ready (suc n) c kind
    → get_elem? (handles_of c.doc_data.handles kind) n ≡ some h
    → Holds c.entries h.index e
    → Evicted c c' kind n e
    → OthersSame c.pending_updates c'.pending_updates e.texture_id
    → Ready n c' kind
Ready-Evicted n c c' kind h e r at_n holds out same =
    let back = Evicted-back n c c' kind h e r at_n holds out in
    let at_out = out.at_i in
    let same_h : out.handle ≡ h = cc in
    record {
      each = λ j lt.
          let (g, f, at_j, held, alone, can) = r.each j (omega arith) in
          let (ne, ne_id) =
            r.apart j n g h f e (omega arith) (omega arith) (omega arith) at_j at_n held holds in
          (
            g,
            f,
            out.earlier j lt ∙ at_j,
            (
              held.0,
              out.others g.index (subst (λ k. g.index ≢ k.index) (sym same_h) ne) ∙ held.1,
              held.2,
            ),
            alone,
            subst CanFree (sym (same f.texture_id (λ eq. ne_id (sym eq)))) can,
          );
      apart = λ j k g g' f f' lt lt' ne at_g at_g' held held'.
          r.apart j k g g' f f' (omega arith) (omega arith) ne (sym (out.earlier j lt) ∙ at_g)
            (sym (out.earlier k lt') ∙ at_g') (back j g f lt (sym (out.earlier j lt) ∙ at_g) held)
            (back k g' f' lt' (sym (out.earlier k lt') ∙ at_g') held');
    }

Ready-evict_at :
    (n : ℕ) (c c' : TextureCache) (kind : EntryKind) (h : FreeListHandle) (e : CacheEntry)
    → Ready (suc n) c kind
    → get_elem? (handles_of c.doc_data.handles kind) n ≡ some h
    → Holds c.entries h.index e
    → evict_at c kind n ≡ done c'
    → OthersSame c.pending_updates c'.pending_updates e.texture_id
    → Ready n c' kind
Ready-evict_at n c c' kind h e r at_n holds evicted same =
    let (entry, out) = evict_at-Evicted c c' kind n evicted in
    let at_out = out.at_i in
    let same_h : out.handle ≡ h = cc in
    let same_e : entry ≡ e =
      Holds-unique c.entries h.index (subst (λ g. Holds c.entries g.index entry) same_h out.held)
        holds in
    Ready-Evicted n c c' kind h e r at_n holds (subst (Evicted c c' kind n) same_e out) same

expire_one-returns :
    (n : ℕ) (c : TextureCache) (kind : EntryKind) (threshold : EvictionThreshold)
    → Ready (suc n) c kind
    → (c' : TextureCache) × (expire_one c kind threshold n ≡ done c') × Ready n c' kind
unfolding expire_one
expire_one-returns n c kind threshold r =
    let (h, e, at_n, holds, alone, can) = r.each n (omega arith) in
    let got = Holds-get c.entries h holds in
    elim (Bool-cases (is_expired c.now threshold e)) [
      | inr kept ↦ (c, rw (at_n, got, kept) refl, Ready-pred n c kind r)
      | inl expired ↦
          let (c', evicted, same) = evict_at-returns c kind n h e at_n holds alone can in
          (
            c',
            rw (at_n, got, expired) evicted,
            Ready-evict_at n c c' kind h e r at_n holds evicted same,
          )
    ]

pub expire_loop-returns :
    (n : ℕ) (c : TextureCache) (kind : EntryKind) (threshold : EvictionThreshold)
    → Ready n c kind
    → (c' : TextureCache) × (expire_loop n c kind threshold ≡ done c')
unfolding expire_loop
expire_loop-returns zero c kind threshold r = (c, refl)
expire_loop-returns (suc n) c kind threshold r =
    let (c1, first, r1) = expire_one-returns n c kind threshold r in
    let (c', rest) = expire_loop-returns n c1 kind threshold r1 in
    (c', rw (first, expire_loop) rest)
