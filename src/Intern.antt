-- ===== src/Intern.antt =====
-- webrender/src/intern.rs: the `Interner` of the scene builder thread, the `DataStore` of the frame
-- builder thread, and the update lists that go from one to the other. The hash map is an association
-- list in the order in which `retain` walks it. The process-wide counter of unique identifiers is an
-- argument and a result of `intern`. Profile counters and debug logging are left out.
pub mod Sync
pub mod Touch
pub mod Collect
pub mod Agree
pub mod Add
pub mod Frames
mod Tests
use webrender.Prelude.{
  ℕ, ◌+◌, ◌%◌, ◌^◌, List, [], ◌∷◌, ◌++◌, Option, none, some, Bool, true, false, Run, done, panic,
  ◌>>=◌, unwrap, index_at, u32_mod, usize_mod, length, set, get_elem?, ltb, ◌==◌, if◌then◌else◌,
}
use mathlib.Core.Logic.{ite}

abbrev pub u64_mod : ℕ
u64_mod = 2 ^ 64

-- The number of epochs that an unused item survives.
abbrev pub epochs_kept : ℕ
epochs_kept = 10

pub record Handle : Type 0 where
  pub index : ℕ
  pub epoch : ℕ
  pub uid : ℕ

pub data UpdateKind : Type 0 where
  inserted removed : UpdateKind

pub record Update : Type 0 where
  pub index : ℕ
  pub kind : UpdateKind

pub record UpdateList (S : Type 0) : Type 0 where
  pub updates : List Update
  pub new_data : List S

-- `ItemUid::next_uid`: the identifier, and the counter after it.
abbrev pub next_uid : ℕ → ℕ × ℕ
next_uid counter = (counter, (counter + 1) % usize_mod)

-- `vec.entry(index).set(value)`: an index past the end of the vector fails an assertion.
abbrev pub set_entry {ℓ} : {A : Type ℓ} → List A → ℕ → A → Run (List A)
set_entry xs i v =
    if ltb i (length xs)
    then done (set xs i v)
    else if i == length xs
    then done (xs ++ v ∷ [])
    else panic

module _ {S T : Type 0} (from : S → T) where
  -- One round of the loop of `apply_updates`; what is left of the data goes on to the next.
  unfoldable pub apply_update : Update → List S → List (Option T) → Run (List (Option T) × List S)
  apply_update u rest items = elim u.kind [
    | inserted ↦ elim rest [
      | [] ↦ panic
      | item ∷ rest' ↦ do items' ← set_entry items u.index (some (from item)); done (items', rest')
    ]
    | removed ↦ do _ ← index_at items u.index; done (set items u.index none, rest)
  ]

  -- The loop of `apply_updates`, with the items and the data that are left.
  unfoldable pub apply_loop :
      List Update → List S → List (Option T) → Run (List (Option T) × List S)
  apply_loop [] rest items = done (items, rest)
  apply_loop (u ∷ us) rest items = do
    (items', rest') ← apply_update u rest items
    apply_loop us rest' items'

  unfoldable pub apply_updates : List (Option T) → UpdateList S → Run (List (Option T))
  apply_updates items l = do (items', _) ← apply_loop l.updates l.new_data items; done items'

-- `store[handle]`
unfoldable pub store_index : {T : Type 0} → List (Option T) → Handle → Run T
store_index items h = do item ← index_at items h.index; unwrap item

pub record Interner (S D : Type 0) : Type 0 where
  pub map : List (S × Handle)
  -- A stack: the head is the last element of the vector.
  pub free_list : List ℕ
  pub updates : List Update
  pub update_data : List S
  pub current_epoch : ℕ
  pub local_data : List D

unfoldable pub new : {S D : Type 0} → Interner S D
new = record {
  map = [];
  free_list = [];
  updates = [];
  update_data = [];
  current_epoch = 1;
  local_data = [];
}

-- `interner[handle]`
unfoldable pub local_index : {S D : Type 0} → Interner S D → Handle → Run D
local_index s h = index_at s.local_data h.index

module _ {S : Type 0} (dec : Discrete S) where
  unfoldable pub lookup : S → List (S × Handle) → Option Handle
  lookup k [] = none
  lookup k ((j, h) ∷ m) = ite (dec j k) (some h) (lookup k m)

  -- The write through `get_mut`: the epoch of the key's handle.
  unfoldable pub touch : ℕ → S → List (S × Handle) → List (S × Handle)
  touch epoch k [] = []
  touch epoch k ((j, h) ∷ m) =
      ite (dec j k) ((j, record h { epoch = epoch }) ∷ m) ((j, h) ∷ touch epoch k m)

-- `free_list.pop()`, or the next index: the index and the list that is left.
unfoldable pub take_index : ℕ → List ℕ → ℕ × List ℕ
take_index next [] = (next, [])
take_index next (i ∷ is) = (i, is)

module _ {S D : Type 0} where
  -- `intern` of a key that is not in the map.
  unfoldable pub intern_new : ℕ → Interner S D → S → D → Run (Interner S D × Handle × ℕ)
  intern_new counter s key local = do
    let (index, free_list) = take_index (length s.local_data) s.free_list
    let (uid, counter') = next_uid counter
    let handle : Handle = record { index = index % u32_mod; epoch = s.current_epoch; uid = uid }
    local_data ← set_entry s.local_data index local
    done (
      record {
        map = (key, handle) ∷ s.map;
        free_list = free_list;
        updates = s.updates ++ record { index = index; kind = inserted } ∷ [];
        update_data = s.update_data ++ key ∷ [];
        current_epoch = s.current_epoch;
        local_data = local_data;
      },
      handle,
      counter',
    )

module _ {S D : Type 0} (dec : Discrete S) where
  unfoldable pub intern : ℕ → Interner S D → S → D → Run (Interner S D × Handle × ℕ)
  unfolding intern_new
  intern counter s key local = elim (lookup dec key s.map) [
    | some handle ↦ done (
      record s { map = touch dec s.current_epoch key s.map },
      record handle { epoch = s.current_epoch },
      counter,
    )
    | none ↦ intern_new counter s key local
  ]

-- `handle.epoch.0 + 10 < current_epoch`
abbrev pub is_expired : ℕ → Handle → Bool
is_expired current_epoch h = ltb ((h.epoch + epochs_kept) % u64_mod) current_epoch

module _ {S : Type 0} where
  -- The walk of `retain`: what stays, the free list, and the removals in their order.
  unfoldable pub collect : ℕ → List (S × Handle) → List ℕ → List (S × Handle) × List ℕ × List Update
  collect now [] free_list = ([], free_list, [])
  collect now ((k, h) ∷ m) free_list = elim (is_expired now h) [
    | true ↦
        let (kept, free_list', removals) = collect now m (h.index ∷ free_list) in
        (kept, free_list', record { index = h.index; kind = removed } ∷ removals)
    | false ↦
        let (kept, free_list', removals) = collect now m free_list in
        ((k, h) ∷ kept, free_list', removals)
  ]

module _ {S D : Type 0} where
  unfoldable pub end_frame_and_get_pending_updates : Interner S D → Interner S D × UpdateList S
  end_frame_and_get_pending_updates s =
      let (kept, free_list, removals) = collect s.current_epoch s.map s.free_list in
      (
        record {
          map = kept;
          free_list = free_list;
          updates = [];
          update_data = [];
          current_epoch = (s.current_epoch + 1) % u64_mod;
          local_data = s.local_data;
        },
        record { updates = s.updates ++ removals; new_data = s.update_data },
      )
