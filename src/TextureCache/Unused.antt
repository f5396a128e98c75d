-- ===== src/TextureCache/Unused.antt =====
-- Entries of the texture cache that their client marks as unused (webrender/src/texture_cache.rs): the end of
-- the frame evicts them.
use webrender.Prelude.{
  ℕ, ◌+◌, ◌*◌, ◌≤◌, ◌<◌, ◌≡◌, refl, sym, ap, subst, inl, inr, ◌∙◌, none, some, true, done, arith,
  ==-cases, length, get_elem?, set, usize_mod, get_elem?-set_self, get_elem?-set_ne,
  lt_of_get_elem?,
}
use webrender.FrameStamp.{stamp_invalid}
use webrender.FreeList.{FreeListHandle, WeakFreeListHandle, Slot, weak, get_opt}
use webrender.FreeList.Freed.{Holds, get_opt-eq-some, get_opt_mut-of_slot}
use webrender.TextureCache.Updates.{find_kind}
use webrender.TextureCache.Entries.{standalone_kind, auto, CacheEntry}
use webrender.TextureCache.Caches.{TextureCache, handles_of, is_expired, expire_old_entries}
use webrender.TextureCache.Frames.{end_frame, unset_doc_data}
use webrender.TextureCache.Allocation.{default_eviction}
use webrender.TextureCache.Requests.{mark_unused}
use webrender.TextureCache.Returns.{CanFree}
use webrender.TextureCache.Rounds.{expire_loop-returns}
use webrender.TextureCache.Evictions.{expire_old_entries-is_expired}
use webrender.TextureCache.Lifetimes.{
  StandaloneOk, default_eviction-returns, build_threshold-eq-done,
}

-- The entry that `mark_unused` leaves.
abbrev pub unused_entry : CacheEntry → CacheEntry
unused_entry e = record e { last_access = stamp_invalid; eviction = auto }

-- The cache after `mark_unused` of the entry in slot `i`.
abbrev marked : TextureCache → ℕ → Slot CacheEntry → CacheEntry → TextureCache
marked c i s e = record c {
  entries = record c.entries {
    slots = set c.entries.slots i (record s { value = some (unused_entry e) });
  };
}

mark_unused-marked :
    (c : TextureCache) (w : WeakFreeListHandle) (s : Slot CacheEntry) (e : CacheEntry)
    → get_elem? c.entries.slots w.index ≡ some s
    → s.value ≡ some e
    → s.epoch ≡ w.epoch
    → mark_unused c w ≡ done (marked c w.index s e)
unfolding mark_unused
mark_unused-marked c w s e at_i full same =
    rw (get_opt_mut-of_slot c.entries w s unused_entry at_i full same) refl

-- The entries after it are those before it, but for their last access and their policy.
marked-back :
    (c : TextureCache) (i j : ℕ) (s : Slot CacheEntry) (e e' : CacheEntry)
    → get_elem? c.entries.slots i ≡ some s
    → s.value ≡ some e
    → Holds (marked c i s e).entries j e'
    → (f : CacheEntry) × Holds c.entries j f × (f.texture_id ≡ e'.texture_id)
marked-back c i j s e e' at_i full (t, at_t, full_t) =
    let inside = lt_of_get_elem? c.entries.slots i at_i in
    let s' : Slot CacheEntry = record s { value = some (unused_entry e) } in
    elim (==-cases i j) [
      | inl same ↦
          let at_s' = get_elem?-set_self c.entries.slots i s' inside in
          let is : t ≡ s' = cc in
          let value_is : some e' ≡ some (unused_entry e) = sym full_t ∙ ap (λ x. x.value) is in
          let entry_is : e' ≡ unused_entry e = cc in
          (
            e,
            (s, subst (λ k. get_elem? c.entries.slots k ≡ some s) same at_i, full),
            ap (λ x. x.texture_id) (sym entry_is),
          )
      | inr ne ↦ (e', (t, sym (get_elem?-set_ne c.entries.slots i j s' ne) ∙ at_t, full_t), refl)
    ]

marked-Holds :
    (c : TextureCache) (i j : ℕ) (s : Slot CacheEntry) (e f : CacheEntry)
    → get_elem? c.entries.slots i ≡ some s
    → s.value ≡ some e
    → Holds c.entries j f
    → (f' : CacheEntry) × Holds (marked c i s e).entries j f'
      × (f'.details ≡ f.details)
      × (f'.texture_id ≡ f.texture_id)
marked-Holds c i j s e f at_i full (t, at_t, full_t) =
    let inside = lt_of_get_elem? c.entries.slots i at_i in
    let s' : Slot CacheEntry = record s { value = some (unused_entry e) } in
    elim (==-cases i j) [
      | inl same ↦
          let t_s : t ≡ s = cc in
          let f_e : f ≡ e = cc in
          (
            unused_entry e,
            (
              s',
              subst (λ k. get_elem? (set c.entries.slots i s') k ≡ some s') same
                  (get_elem?-set_self c.entries.slots i s' inside),
              refl,
            ),
            ap (λ x. x.details) (sym f_e),
            ap (λ x. x.texture_id) (sym f_e),
          )
      | inr ne ↦ (f, (t, get_elem?-set_ne c.entries.slots i j s' ne ∙ at_t, full_t), refl, refl)
    ]

marked-StandaloneOk :
    (c : TextureCache) (i : ℕ) (s : Slot CacheEntry) (e : CacheEntry)
    → get_elem? c.entries.slots i ≡ some s
    → s.value ≡ some e
    → StandaloneOk c
    → StandaloneOk (marked c i s e)
marked-StandaloneOk c i s e at_i full ok = record {
  each = λ j lt.
      let (h, f, at_j, held, alone, can) = ok.each j lt in
      let (f', held', same_details, same_id) = marked-Holds c i h.index s e f at_i full held in
      (
        h,
        f',
        at_j,
        held',
        same_details ∙ alone,
        subst (λ id. CanFree (find_kind id c.pending_updates.allocations)) (sym same_id) can,
      );
  apart = λ j k h h' e1 e2 lt lt' ne at_j at_k held held'.
      let (f, before, id) = marked-back c i h.index s e e1 at_i full held in
      let (f', before', id') = marked-back c i h'.index s e e2 at_i full held' in
      let (ne_index, ne_id) = ok.apart j k h h' f f' lt lt' ne at_j at_k before before' in
      (ne_index, λ eq. ne_id (id ∙ eq ∙ sym id'));
}

-- After `mark_unused` of a standalone entry of the document, the next `end_frame` returns and evicts it: the
-- handle then resolves to nothing. The standalone entries are well formed, the frame is neither frame 0 nor
-- the last one of the counter, and the time is later than the threshold of 3 seconds, scaled by the memory
-- pressure, after the epoch.
pub mark_unused-end_frame :
    (pressure_scaled : ℕ → ℕ) (c : TextureCache) (j : ℕ) (h : FreeListHandle) (e : CacheEntry)
    → StandaloneOk c
    → get_elem? (handles_of c.doc_data.handles standalone_kind) j ≡ some h
    → get_opt c.entries (weak h) ≡ done (some e)
    → 1 ≤ c.now.id
    → c.now.id + 1 < usize_mod
    → pressure_scaled 3000 * 1000000 < c.now.time
    → (c1 c2 : TextureCache) × (mark_unused c (weak h) ≡ done c1)
      × (end_frame pressure_scaled c1 ≡ done c2)
      × (get_opt c2.entries (weak h) ≡ done none)
unfolding end_frame expire_old_entries unset_doc_data default_eviction
mark_unused-end_frame pressure_scaled c j h e ok at_j found positive small old =
    let (s, at_h, full, same) = get_opt-eq-some c.entries (weak h) found in
    let c1 : TextureCache = marked c h.index s e in
    let s' : Slot CacheEntry = record s { value = some (unused_entry e) } in
    let inside = lt_of_get_elem? c.entries.slots h.index at_h in
    let (t, built) = default_eviction-returns pressure_scaled c1 positive (omega arith) in
    let (le, above, time) = build_threshold-eq-done pressure_scaled _ t built in
    let n = length (handles_of c.doc_data.handles standalone_kind) in
    let (c2, expired) =
      expire_loop-returns n c1 standalone_kind t (marked-StandaloneOk c h.index s e at_h full ok) in
    let run : expire_old_entries c1 standalone_kind t ≡ done c2 = expired in
    let is_old : is_expired c.now t (unused_entry e) ≡ true =
      ground (arith, above positive (omega arith), time, old) in
    (
      c1,
      record (unset_doc_data c2) { now = stamp_invalid },
      mark_unused-marked c (weak h) s e at_h full same,
      rw (built, expired) refl,
      elim (expire_old_entries-is_expired c1 c2 standalone_kind t j h s' (unused_entry e) run at_j
          (get_elem?-set_self c.entries.slots h.index s' inside) refl) [
            | inl (_, gone) ↦ gone
            | inr (kept, _) ↦ cc
          ],
    )
