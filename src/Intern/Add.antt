-- ===== src/Intern/Add.antt =====
-- `Interner::intern` (webrender/src/intern.rs): a key that is found, a key that takes a free slot, and
-- a key that takes the next index.
use webrender.Prelude.{
  ℕ, ◌+◌, ◌%◌, ◌<◌, ◌≤◌, ◌≡◌, refl, sym, ◌∙◌, ◌⊎◌, inl, inr, List, [], ◌∷◌, ◌++◌, Option, none,
  some, Run, done, arith, length, set, All, NotIn, Distinct, length-set, length-append,
  get_elem?-set_self, get_elem?-append_length, lt_of_get_elem?, Option-cases, u32_mod, usize_mod,
}
use mathlib.Core.Logic.{ite}
use webrender.Intern.{Handle, Interner, inserted, lookup, touch, intern, intern_new, take_index}
use webrender.Intern.Sync.{
  indices, FreeAt, stored-set, stored-append, freed-set, free-NotIn, stored-lt, apply_loop-append,
  apply_inserted, set_entry-set, set_entry-append,
}
use webrender.Intern.Touch.{touch-indices, touch-stored, lookup-touch}
use webrender.Intern.Agree.{Sync}

module _ {S T D : Type 0} (from : S → T) (dec : Discrete S) where
  intern-hit-Sync :
      (items : List (Option T)) (s : Interner S D) (key : S)
      → Sync from items s
      → Sync from items (record s { map = touch dec s.current_epoch key s.map })
  intern-hit-Sync items s key v = record {
    pending = v.pending;
    applied = v.applied;
    sized = v.sized;
    stored = touch-stored dec from s.current_epoch key s.map v.pending v.stored;
    freed = v.freed;
    distinct_map = rw (touch-indices dec s.current_epoch key s.map) v.distinct_map;
    distinct_free = v.distinct_free;
  }

  -- What `intern` of a new key does.
  pub record Interns (items : List (Option T)) (s : Interner S D) (key : S)
      (r : Run (Interner S D × Handle × ℕ)) : Type 0 where
    pub after : Interner S D
    pub handle : Handle
    pub counter : ℕ
    pub returns : r ≡ done (after, handle, counter)
    pub keeps : Sync from items after
    -- The map changes at the key alone.
    pub maps : (j : S) → lookup dec j after.map ≡ ite (dec key j) (some handle) (lookup dec j s.map)
    -- The key was new, or this is its handle with another epoch.
    pub identity :
        (lookup dec key s.map ≡ none)
        ⊎ ((old : ℕ) × (lookup dec key s.map ≡ some (record handle { epoch = old })))
    pub current : handle.epoch ≡ s.current_epoch
    pub same_epoch : after.current_epoch ≡ s.current_epoch
    pub grows : length after.local_data ≤ length s.local_data + 1

  intern_new-pushed :
      (items : List (Option T)) (s : Interner S D) (counter : ℕ) (key : S) (local : D)
      → Sync from items s
      → lookup dec key s.map ≡ none
      → s.free_list ≡ []
      → length s.local_data < u32_mod
      → Interns items s key (intern_new counter s key local)
  unfolding intern_new take_index lookup
  intern_new-pushed items s counter key local v absent e room = record {
    after = record {
      map = (key, handle) ∷ s.map;
      free_list = [];
      updates = s.updates ++ record { index = index; kind = inserted } ∷ [];
      update_data = s.update_data ++ key ∷ [];
      current_epoch = s.current_epoch;
      local_data = s.local_data ++ local ∷ [];
    };
    handle = handle;
    counter = (counter + 1) % usize_mod;
    returns = rw (e, wraps, set_entry-append s.local_data index local refl) refl;
    keeps = record {
      pending = v.pending ++ some (from key) ∷ [];
      applied =
          apply_loop-append from s.updates _ s.update_data (key ∷ []) items v.pending v.applied
          ∙ apply_inserted from key index v.pending _
              (set_entry-append v.pending index (some (from key)) (sym v.sized));
      sized = omega (
        arith,
        length-append v.pending (some (from key) ∷ []),
        length-append s.local_data (local ∷ []),
        v.sized,
      );
      stored = (
        rw (← v.sized) (get_elem?-append_length v.pending (some (from key))),
        stored-append from s.map v.pending (some (from key)) v.stored,
      );
      freed = tt;
      distinct_map =
          (stored-lt from s.map v.pending index (omega (arith, v.sized)) v.stored, v.distinct_map);
      distinct_free = tt;
    };
    maps = λ j. refl;
    identity = inl absent;
    current = refl;
    same_epoch = refl;
    grows = omega (arith, length-append s.local_data (local ∷ []));
  }
    where
      index : ℕ
      index = length s.local_data

      wraps : index % u32_mod ≡ index
      wraps = omega arith

      handle : Handle
      handle = record { index = index; epoch = s.current_epoch; uid = counter }

  intern_new-reused :
      (items : List (Option T)) (s : Interner S D) (counter : ℕ) (key : S) (local : D) (i : ℕ)
      (is : List ℕ)
      → (v : Sync from items s) → lookup dec key s.map ≡ none
      → s.free_list ≡ i ∷ is
      → All (FreeAt from v.pending) (i ∷ is)
      → Distinct (i ∷ is)
      → length s.local_data < u32_mod
      → Interns items s key (intern_new counter s key local)
  unfolding intern_new take_index lookup
  intern_new-reused items s counter key local i is v absent e free distinct room = record {
    after = record {
      map = (key, handle) ∷ s.map;
      free_list = is;
      updates = s.updates ++ record { index = i; kind = inserted } ∷ [];
      update_data = s.update_data ++ key ∷ [];
      current_epoch = s.current_epoch;
      local_data = set s.local_data i local;
    };
    handle = handle;
    counter = (counter + 1) % usize_mod;
    returns = rw (e, wraps, set_entry-set s.local_data i local low') refl;
    keeps = record {
      pending = set v.pending i (some (from key));
      applied =
          apply_loop-append from s.updates _ s.update_data (key ∷ []) items v.pending v.applied
          ∙ apply_inserted from key i v.pending _ (set_entry-set v.pending i (some (from key)) low);
      sized = omega (
        arith,
        length-set v.pending i (some (from key)),
        length-set s.local_data i local,
        v.sized,
      );
      stored = (
        get_elem?-set_self v.pending i (some (from key)) low,
        stored-set from s.map v.pending i (some (from key)) off v.stored,
      );
      freed = freed-set from is v.pending i (some (from key)) distinct.0 free.1;
      distinct_map = (off, v.distinct_map);
      distinct_free = distinct.1;
    };
    maps = λ j. refl;
    identity = inl absent;
    current = refl;
    same_epoch = refl;
    grows = omega (arith, length-set s.local_data i local);
  }
    where
      low : i < length v.pending
      low = lt_of_get_elem? v.pending i free.0

      low' : i < length s.local_data
      low' = omega (arith, low, v.sized)

      wraps : i % u32_mod ≡ i
      wraps = omega (arith, low')

      off : NotIn i (indices s.map)
      off = free-NotIn from s.map v.pending i free.0 v.stored

      handle : Handle
      handle = record { index = i; epoch = s.current_epoch; uid = counter }

  intern_new-Interns :
      (items : List (Option T)) (s : Interner S D) (counter : ℕ) (key : S) (local : D)
      (free : List ℕ)
      → (v : Sync from items s) → lookup dec key s.map ≡ none
      → s.free_list ≡ free
      → All (FreeAt from v.pending) free
      → Distinct free
      → length s.local_data < u32_mod
      → Interns items s key (intern_new counter s key local)
  intern_new-Interns items s counter key local [] v absent e f d room =
      intern_new-pushed items s counter key local v absent e room
  intern_new-Interns items s counter key local (i ∷ is) v absent e f d room =
      intern_new-reused items s counter key local i is v absent e f d room

  -- Interning never panics while the indices fit 32 bits: the interner stays in agreement with the
  -- store, and the key's handle, found or new, carries the current epoch; no other key's changes.
  pub intern-Interns :
      (items : List (Option T)) (s : Interner S D) (counter : ℕ) (key : S) (local : D)
      → Sync from items s
      → length s.local_data < u32_mod
      → Interns items s key (intern dec counter s key local)
  unfolding intern
  intern-Interns items s counter key local v room = elim (Option-cases (lookup dec key s.map)) [
    | inl absent ↦
        rw (absent, intern)
          (intern_new-Interns items s counter key local s.free_list v absent refl v.freed
            v.distinct_free room)
    | inr (h, found) ↦
        rw (found, intern)
          (record {
            after = record s { map = touch dec s.current_epoch key s.map };
            handle = record h { epoch = s.current_epoch };
            counter = counter;
            returns = refl;
            keeps = intern-hit-Sync items s key v;
            maps = λ j. lookup-touch dec s.current_epoch key j s.map h found;
            identity = inr (h.epoch, found);
            current = refl;
            same_epoch = refl;
            grows = omega arith;
          })
  ]
