-- ===== src/FreeList/Freed.antt =====
-- The slots of a free list (webrender/src/freelist.rs) one by one: which hold an entry, and what `free` does.
use webrender.Prelude.{
  ℕ, ◌+◌, ◌-◌, ◌%◌, ◌≡◌, ◌≢◌, refl, sym, ap, subst, ◌∙◌, inl, inr, List, Option, none, some, true,
  false, Run, done, panic, >>=-eq-done, unwrap, index_at, index_at-eq-done, ◌==◌, Bool-cases,
  ==-cases, arith, get_elem?, set, u32_mod, usize_mod, get_elem?-set_self, get_elem?-set_ne,
  lt_of_get_elem?,
}
use webrender.FreeList
use webrender.FreeList.{
  FreeList, FreeListHandle, WeakFreeListHandle, Slot, get, get_opt, get_opt_mut,
}

-- The entry in a slot of the list.
abbrev pub Holds {ℓ} : {T : Type ℓ} → FreeList T → ℕ → T → Type ℓ
Holds {T = T} fl i e = (s : Slot T) × (get_elem? fl.slots i ≡ some s) × (s.value ≡ some e)

-- A slot that holds nothing.
abbrev pub Vacant {ℓ} : {T : Type ℓ} → FreeList T → ℕ → Type ℓ
Vacant {T = T} fl i = (s : Slot T) × (get_elem? fl.slots i ≡ some s) × (s.value ≡ none)

module _ {ℓ} {T : Type ℓ} where
  slots_of : FreeList T → Run (FreeList T × T) → List (Slot T)
  slots_of fl (done r) = r.0.slots
  slots_of fl panic = fl.slots

  pub unwrap-eq-done : (o : Option T) {v : T} → unwrap o ≡ done v → o ≡ some v
  unwrap-eq-done none h = cc
  unwrap-eq-done (some w) h = cc

  pub get-Holds :
      (fl : FreeList T) (id : FreeListHandle) {e : T} → get fl id ≡ done e → Holds fl id.index e
  unfolding get
  get-Holds fl id h =
      let (s, at_i, rest) = >>=-eq-done (index_at fl.slots id.index) _ h in
      (s, index_at-eq-done fl.slots id.index at_i, unwrap-eq-done s.value rest)

  pub Holds-get :
      (fl : FreeList T) (id : FreeListHandle) {e : T} → Holds fl id.index e → get fl id ≡ done e
  unfolding get
  Holds-get fl id (s, at_i, full) = rw (at_i, full) refl

  pub Vacant-get_opt :
      (fl : FreeList T) (w : WeakFreeListHandle) → Vacant fl w.index → get_opt fl w ≡ done none
  unfolding get_opt
  Vacant-get_opt fl w (s, at_i, empty) = elim (Bool-cases (s.epoch == w.epoch)) [
    | inl e ↦ rw (at_i, e, empty) refl
    | inr e ↦ rw (at_i, e) refl
  ]

  -- `free` of a slot: it held the entry that is returned, and is vacant; the other slots stay.
  pub free-eq-done :
      (fl : FreeList T) (id : FreeListHandle) {fl' : FreeList T} {e : T}
      → FreeList.free fl id ≡ done (fl', e)
      → Holds fl id.index e
        × Vacant fl' id.index
        × ((j : ℕ) → j ≢ id.index → get_elem? fl'.slots j ≡ get_elem? fl.slots j)
  unfolding FreeList.free slots_of
  free-eq-done fl id {fl'} {e} h =
      let (s, found, rest) = >>=-eq-done (index_at fl.slots id.index) _ h in
      let at_i = index_at-eq-done fl.slots id.index found in
      let (v, full, last) = >>=-eq-done (unwrap s.value) _ rest in
      let value_is = unwrap-eq-done s.value full in
      let same : v ≡ e = cc in
      let inside = lt_of_get_elem? fl.slots id.index at_i in
      let emptied : Slot T = record {
        next = fl.free_list_head;
        epoch = (s.epoch + 1) % u32_mod;
        value = none;
      } in
      let after : set fl.slots id.index emptied ≡ fl'.slots = ap (λ r. slots_of fl r) last in
      (
        (s, at_i, value_is ∙ ap some same),
        (
          emptied,
          subst (λ l. get_elem? l id.index ≡ some emptied) after
              (get_elem?-set_self fl.slots id.index emptied inside),
          refl,
        ),
        λ j ne.
            subst (λ l. get_elem? l j ≡ get_elem? fl.slots j) after
              (get_elem?-set_ne fl.slots id.index j emptied (λ e. ne (sym e))),
      )

  pub Holds-unique : (fl : FreeList T) (i : ℕ) {a b : T} → Holds fl i a → Holds fl i b → a ≡ b
  Holds-unique fl i (s, at_s, full) (t, at_t, full') = cc

  pub get_opt-eq-some :
      (fl : FreeList T) (w : WeakFreeListHandle) {e : T}
      → get_opt fl w ≡ done (some e)
      → (s : Slot T) × (get_elem? fl.slots w.index ≡ some s)
        × (s.value ≡ some e)
        × (s.epoch ≡ w.epoch)
  unfolding get_opt
  get_opt-eq-some fl w {e} h =
      let (s, found, rest) = >>=-eq-done (index_at fl.slots w.index) _ h in
      let at_i = index_at-eq-done fl.slots w.index found in
      elim (==-cases s.epoch w.epoch) [
        | inl same ↦
            let eq : (s.epoch == w.epoch) ≡ true = ground (arith, same) in
            let full : done s.value ≡ done (some e) = rw eq at rest in (s, at_i, cc, same)
        | inr ne ↦
            let eq : (s.epoch == w.epoch) ≡ false = ground (arith, ne) in
            let clash : done none ≡ done (some e) = rw eq at rest in cc
      ]

  pub get_opt_of_slot :
      (fl : FreeList T) (w : WeakFreeListHandle) (s : Slot T) {e : T}
      → get_elem? fl.slots w.index ≡ some s
      → s.value ≡ some e
      → s.epoch ≡ w.epoch
      → get_opt fl w ≡ done (some e)
  unfolding get_opt
  get_opt_of_slot fl w s at_i full same =
      let eq : (s.epoch == w.epoch) ≡ true = ground (arith, same) in rw (at_i, eq, full) refl

  pub get_opt_mut-of_slot :
      (fl : FreeList T) (w : WeakFreeListHandle) (s : Slot T) (f : T → T) {e : T}
      → get_elem? fl.slots w.index ≡ some s
      → s.value ≡ some e
      → s.epoch ≡ w.epoch
      → get_opt_mut fl w f
        ≡ done (record fl { slots = set fl.slots w.index (record s { value = some (f e) }) })
  unfolding get_opt_mut
  get_opt_mut-of_slot fl w s f at_i full same =
      let eq : (s.epoch == w.epoch) ≡ true = ground (arith, same) in rw (at_i, eq, full) refl

  pub free-returns :
      (fl : FreeList T) (id : FreeListHandle) {e : T}
      → Holds fl id.index e
      → (fl' : FreeList T) × (FreeList.free fl id ≡ done (fl', e))
  unfolding FreeList.free
  free-returns fl id (s, at_i, full) = (
    record {
      slots =
          set fl.slots id.index
            (record { next = fl.free_list_head; epoch = (s.epoch + 1) % u32_mod; value = none });
      free_list_head = some id.index;
      active_count = (fl.active_count + usize_mod - 1) % usize_mod;
    },
    rw (at_i, full) refl,
  )
