-- ===== src/Intern/Collect.antt =====
-- The garbage collection of `end_frame_and_get_pending_updates` (webrender/src/intern.rs): its
-- removals empty exactly the slots of the keys that it drops.
use webrender.Prelude.{
  ℕ, ◌≡◌, refl, sym, ◌∙◌, inl, inr, List, [], ◌∷◌, Option, none, some, done, length, get_elem?, set,
  All, NotIn, Distinct, length-set, get_elem?-set_self, get_elem?-set_ne, lt_of_get_elem?,
  Bool-cases,
}
use webrender.Intern.{Handle, Update, removed, apply_update, apply_loop, collect, is_expired}
use webrender.Intern.Sync.{indices, StoredAt, FreeAt, stored-set, freed-set, stored-NotIn}

-- The index of an entry that stays is that of an entry.
collect-NotIn :
    {S : Type 0} (now j : ℕ) (m : List (S × Handle)) (free : List ℕ)
    → NotIn j (indices m)
    → NotIn j (indices (collect now m free).0)
unfolding collect
collect-NotIn now j [] free h = tt
collect-NotIn now j ((k, t) ∷ m) free h = elim (Bool-cases (is_expired now t)) [
  | inl old ↦ rw (old, collect) (collect-NotIn now j m (t.index ∷ free) h.1)
  | inr new ↦ rw (new, collect) (h.0, collect-NotIn now j m free h.1)
]

module _ {S T : Type 0} (from : S → T) where
  pub record Collects (now : ℕ) (m : List (S × Handle)) (free : List ℕ) (items : List (Option T))
      (r : List (S × Handle) × List ℕ × List Update) : Type 0 where
    pub after : List (Option T)
    pub applies : apply_loop from r.2 [] items ≡ done (after, [])
    pub sized : length after ≡ length items
    pub stored : All (StoredAt from after) r.0
    pub freed : All (FreeAt from after) r.1
    pub distinct_map : Distinct (indices r.0)
    pub distinct_free : Distinct r.1
    -- The slots of other keys keep their content.
    pub frame : (j : ℕ) → NotIn j (indices m) → get_elem? after j ≡ get_elem? items j

  apply_removed :
      (i : ℕ) (items : List (Option T)) (v : Option T)
      → get_elem? items i ≡ some v
      → apply_update from (record { index = i; kind = removed }) [] items
        ≡ done (set items i none, [])
  unfolding apply_update
  apply_removed i items v e = rw e refl

  pub collect_lem :
      (now : ℕ) (m : List (S × Handle)) (free : List ℕ) (items : List (Option T))
      → All (StoredAt from items) m
      → All (FreeAt from items) free
      → Distinct (indices m)
      → Distinct free
      → Collects now m free items (collect now m free)
  unfolding collect apply_loop
  collect_lem now [] free items stored freed dm df = record {
    after = items;
    applies = refl;
    sized = refl;
    stored = tt;
    freed = freed;
    distinct_map = tt;
    distinct_free = df;
    frame = λ j off. refl;
  }
  collect_lem now ((k, t) ∷ m) free items stored freed dm df =
      elim (Bool-cases (is_expired now t)) [
        | inl old ↦
            let off = stored-NotIn from free items t.index (from k) stored.0 freed in
            let low = lt_of_get_elem? items t.index stored.0 in
            let rest =
              collect_lem now m (t.index ∷ free) (set items t.index none)
                (stored-set from m items t.index none dm.0 stored.1)
                (
                  get_elem?-set_self items t.index none low,
                  freed-set from free items t.index none off freed,
                )
                dm.1 (off, df) in
            rw (old, collect)
              (record {
                after = rest.after;
                applies = rw (apply_removed t.index items (some (from k)) stored.0) rest.applies;
                sized = rest.sized ∙ length-set items t.index none;
                stored = rest.stored;
                freed = rest.freed;
                distinct_map = rest.distinct_map;
                distinct_free = rest.distinct_free;
                frame = λ j off'.
                    rest.frame j off'.1
                    ∙ get_elem?-set_ne items t.index j none (λ e. off'.0 (sym e));
              })
        | inr new ↦
            let rest = collect_lem now m free items stored.1 freed dm.1 df in
            rw (new, collect)
              (record {
                after = rest.after;
                applies = rest.applies;
                sized = rest.sized;
                stored = (rest.frame t.index dm.0 ∙ stored.0, rest.stored);
                freed = rest.freed;
                distinct_map = (collect-NotIn now t.index m free dm.0, rest.distinct_map);
                distinct_free = rest.distinct_free;
                frame = λ j off. rest.frame j off.1;
              })
      ]
