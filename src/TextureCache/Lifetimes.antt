-- ===== src/TextureCache/Lifetimes.antt =====
-- How long an entry of the texture cache (webrender/src/texture_cache.rs) lives: the thresholds, and what
-- `end_frame` keeps and evicts.
use webrender.Prelude.{
  ℕ, ◌+◌, ◌-◌, ◌*◌, ◌%◌, ◌≤◌, ◌<◌, ◌≡◌, refl, sym, ap, subst, some, true, false, Run, done, panic,
  >>=-eq-done, arith, leb, length, usize_mod,
}
use webrender.FrameStamp.{FrameStamp, stamp_invalid, frame_sub}
use webrender.FreeList.{FreeList, WeakFreeListHandle, get_opt}
use webrender.FreeList.Freed.{get_opt-eq-some, get_opt_of_slot}
use webrender.TextureCache.Entries.{
  standalone_kind, auto, manual, eager, CacheEntry, EvictionThreshold, EvictionThresholdBuilder,
  scaled_or_zero, min_usize, build_threshold,
}
use webrender.TextureCache.Caches.{TextureCache, handles_of, is_expired, expire_old_entries}
use webrender.TextureCache.Allocation.{default_eviction}
use webrender.TextureCache.Frames.{end_frame, unset_doc_data}
use webrender.TextureCache.Rounds.{Ready, expire_loop-returns}
use webrender.TextureCache.Evictions.{expire_old_entries-keeps}

entries_of : TextureCache → Run TextureCache → FreeList CacheEntry
entries_of c (done c') = c'.entries
entries_of c panic = c.entries

frame_sub-eq-done : (a b : ℕ) {c : ℕ} → frame_sub a b ≡ done c → (b ≤ a) × (c ≡ a - b)
frame_sub-eq-done a b {c} h = ground (arith, h)

min_usize_le : (a b : ℕ) → min_usize a b ≤ b
min_usize_le a b = ground arith

-- A threshold is never after the frame it is for; and it is after frame 0, which marks unused entries.
pub build_threshold-eq-done :
    (pressure_scaled : ℕ → ℕ) (b : EvictionThresholdBuilder) (t : EvictionThreshold)
    → build_threshold pressure_scaled b ≡ done t
    → (t.id ≤ b.now.id)
      × (1 ≤ b.now.id → b.now.id < usize_mod → 1 ≤ t.id)
      × (t.time
          ≡ b.now.time - scaled_or_zero pressure_scaled b.scale_by_pressure b.max_time_ms * 1000000)
unfolding build_threshold
build_threshold-eq-done pressure_scaled b t h =
    let (id, sub_id, rest) = >>=-eq-done (frame_sub b.now.id _) _ h in
    let (le, id_is) = frame_sub-eq-done b.now.id _ sub_id in
    let same : record {
      id = id;
      time =
          b.now.time - scaled_or_zero pressure_scaled b.scale_by_pressure b.max_time_ms * 1000000;
    }
        ≡ t =
      cc in
    (
      subst (λ t. t.id ≤ b.now.id) same (omega (arith, id_is)),
      λ positive small.
          subst (λ t. 1 ≤ t.id) same
            (omega (
              arith,
              id_is,
              min_usize_le (scaled_or_zero pressure_scaled b.scale_by_pressure b.max_frames)
                  ((b.now.id + usize_mod - 1) % usize_mod),
              positive,
              small,
            )),
      ap (λ t. t.time) (sym same),
    )

-- An entry that was used in this frame is not expired, whatever its policy.
is_expired_used :
    (now : FrameStamp) (t : EvictionThreshold) (e : CacheEntry)
    → t.id ≤ now.id
    → now.id + 1 < usize_mod
    → e.last_access.id ≡ now.id
    → is_expired now t e ≡ false
is_expired_used now t e le small used =
    elim e.eviction as (λ p. is_expired now t (record e { eviction = p }) ≡ false) [
      | manual ↦ refl
      | auto ↦ ground (arith, le, small, used)
      | eager ↦ ground (arith, le, small, used)
    ]

-- When `end_frame` returns, every entry that was used in the frame is still there: its handle resolves to it
-- as before. The frame is not the last one of the counter.
end_frame-keeps :
    (pressure_scaled : ℕ → ℕ) (c c' : TextureCache) (w : WeakFreeListHandle) (e : CacheEntry)
    → end_frame pressure_scaled c ≡ done c'
    → c.now.id + 1 < usize_mod
    → get_opt c.entries w ≡ done (some e)
    → e.last_access.id ≡ c.now.id
    → get_opt c'.entries w ≡ done (some e)
unfolding entries_of end_frame default_eviction unset_doc_data
end_frame-keeps pressure_scaled c c' w e run small found used =
    let (t, built, more) = >>=-eq-done (default_eviction pressure_scaled c) _ run in
    let (c1, expired, last) = >>=-eq-done (expire_old_entries c standalone_kind t) _ more in
    let (le, above, time) = build_threshold-eq-done pressure_scaled _ t built in
    let (s, at_i, full, same) = get_opt-eq-some c.entries w found in
    let kept =
      expire_old_entries-keeps c c1 standalone_kind t w.index s e expired at_i full
        (is_expired_used c.now t e le small used) in
    let entries : c1.entries ≡ c'.entries = ap (entries_of c) last in
    subst (λ fl. get_opt fl w ≡ done (some e)) entries
      (get_opt_of_slot c1.entries w s kept full same)

-- The threshold of `end_frame` exists from frame 1 on.
pub default_eviction-returns :
    (pressure_scaled : ℕ → ℕ) (c : TextureCache)
    → 1 ≤ c.now.id
    → c.now.id < usize_mod
    → (t : EvictionThreshold) × (default_eviction pressure_scaled c ≡ done t)
unfolding default_eviction build_threshold
default_eviction-returns pressure_scaled c positive small =
    let bound = min_usize_le (pressure_scaled 200) ((c.now.id + usize_mod - 1) % usize_mod) in
    let m = min_usize (pressure_scaled 200) ((c.now.id + usize_mod - 1) % usize_mod) in
    let first : leb m c.now.id ≡ true = ground (arith, bound, positive, small) in
    (
      record { id = c.now.id - m; time = c.now.time - pressure_scaled 3000 * 1000000 },
      rw first refl,
    )

-- The standalone entries of the document are there, each at a slot and in a texture of its own that is not
-- freed yet.
abbrev pub StandaloneOk : TextureCache → Type 0
StandaloneOk c = Ready (length (handles_of c.doc_data.handles standalone_kind)) c standalone_kind

-- `end_frame` returns, and every entry that was used in the frame is still there: its handle resolves to it as
-- before. The standalone entries of the document are well formed, and the frame is neither frame 0 nor the
-- last one of the counter.
pub end_frame-returns :
    (pressure_scaled : ℕ → ℕ) (c : TextureCache)
    → StandaloneOk c
    → 1 ≤ c.now.id
    → c.now.id + 1 < usize_mod
    → (c' : TextureCache) × (end_frame pressure_scaled c ≡ done c')
      × ((w : WeakFreeListHandle) (e : CacheEntry)
          → get_opt c.entries w ≡ done (some e)
          → e.last_access.id ≡ c.now.id
          → get_opt c'.entries w ≡ done (some e))
unfolding end_frame expire_old_entries
end_frame-returns pressure_scaled c ok positive small =
    let (t, built) = default_eviction-returns pressure_scaled c positive (omega arith) in
    let (c1, expired) =
      expire_loop-returns (length (handles_of c.doc_data.handles standalone_kind)) c standalone_kind
        t ok in
    let c' : TextureCache = record (unset_doc_data c1) { now = stamp_invalid } in
    let run : end_frame pressure_scaled c ≡ done c' = rw (built, expired) refl in
    (c', run, λ w e found used. end_frame-keeps pressure_scaled c c' w e run small found used)
